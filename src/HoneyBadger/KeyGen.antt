-- ===== src/HoneyBadger/KeyGen.antt =====
-- consensus/bft/honey_badger/mod.rs and dynamic_honey_badger.rs: the messages of the distributed key
-- generation, their buffer, and the restart of Honey Badger in a new era.
pub mod Era
pub mod Count
mod Tests
use mina_os.Base.{
  ℕ, suc, ◌+◌, ◌*◌, ◌%◌, ◌^◌, ◌≡◌, Bool, true, false, not, ◌&&◌, ◌||◌, Option, none, some, List, [],
  ◌∷◌, ◌++◌, ltb, leb, if◌then◌else◌, length,
}
use mina_os.Base.Word.{u64}
use mina_os.Base.BTreeMap.{BTreeMap, get, insert}
use mina_os.HoneyBadger.Deps.{
  Deps, Except, ok, err, PubKeyMap, FaultLog, Result, Error, serialize_key_gen,
  unexpected_key_gen_message, invalid_key_gen_message_signature, too_many_key_gen_messages,
}
use mina_os.HoneyBadger.Votes
use mina_os.HoneyBadger.Votes.{VoteCounter, SignedVote, new}

-- `honey_badger::Params`, with the fields that the code sets.
pub record Params (d : Deps) (Strategy : Type 0) : Type 0 where
  pub max_future_epochs : ℕ
  pub subset_handling_strategy : Strategy
  pub encryption_schedule : d.EncryptionSchedule

-- `sync_key_gen`, `honey_badger` and `NetworkInfo`, as far as they are called here.
pub record KeyGens (d : Deps) : Type 1 where
  pub Part : Type 0
  pub Ack : Type 0
  pub SyncKeyGen : Type 0
  pub public_keys : SyncKeyGen → PubKeyMap d
  pub num_nodes : SyncKeyGen → ℕ
  pub is_ready : SyncKeyGen → Bool
  pub count_complete : SyncKeyGen → ℕ
  pub HoneyBadger : Type 0
  pub HbMessage : Type 0
  pub Strategy : Type 0
  pub PublicKeySet : Type 0
  pub SecretKeyShare : Type 0
  pub NetworkInfo : Type 0
  pub our_id : NetworkInfo → d.NodeId
  pub is_validator : NetworkInfo → Bool
  pub public_key_set : NetworkInfo → PublicKeySet
  pub all_ids : NetworkInfo → List d.NodeId
  pub new_netinfo : d.NodeId → Option SecretKeyShare → PublicKeySet → List d.NodeId → NetworkInfo
  pub our_id-new_netinfo :
      (n : d.NodeId) (sk : Option SecretKeyShare) (pks : PublicKeySet) (ids : List d.NodeId)
      → our_id (new_netinfo n sk pks ids) ≡ n
  pub public_key_set-new_netinfo :
      (n : d.NodeId) (sk : Option SecretKeyShare) (pks : PublicKeySet) (ids : List d.NodeId)
      → public_key_set (new_netinfo n sk pks ids) ≡ pks
  pub all_ids-new_netinfo :
      (n : d.NodeId) (sk : Option SecretKeyShare) (pks : PublicKeySet) (ids : List d.NodeId)
      → all_ids (new_netinfo n sk pks ids) ≡ ids
  pub netinfo : HoneyBadger → NetworkInfo
  pub params : HoneyBadger → Params d Strategy
  pub build : NetworkInfo → ℕ → Params d Strategy → ℕ → HoneyBadger
  pub first_epoch : ℕ
  pub netinfo-build :
      (n : NetworkInfo) (era : ℕ) (p : Params d Strategy) (epoch : ℕ)
      → netinfo (build n era p epoch) ≡ n
  pub params-build :
      (n : NetworkInfo) (era : ℕ) (p : Params d Strategy) (epoch : ℕ)
      → params (build n era p epoch) ≡ p

module _ (d : Deps) (k : KeyGens d) where
  open d use {NodeId, PublicKey, SecretKey, Signature, Bytes, SerializeError, node_ord}

  pub data KeyGenMessage : Type 0 where
    part : k.Part → KeyGenMessage
    ack : k.Ack → KeyGenMessage

  pub data Message : Type 0 where
    honey_badger : ℕ → k.HbMessage → Message
    key_gen : ℕ → KeyGenMessage → Signature → Message
    signed_vote : SignedVote d → Message

  unfoldable pub message_era : Message → ℕ
  message_era (honey_badger era m) = era
  message_era (key_gen era m sig) = era
  message_era (signed_vote sv) = sv.vote.era

  pub record SignedKeyGenMsg : Type 0 where
    pub era : ℕ
    pub sender : NodeId
    pub message : KeyGenMessage
    pub sig : Signature

  pub record KeyGenState : Type 0 where
    pub key_gen : k.SyncKeyGen
    pub msg_count : BTreeMap NodeId ℕ

  unfoldable pub new_state : k.SyncKeyGen → KeyGenState
  new_state kg = record { key_gen = kg; msg_count = [] }

  unfoldable pub state_is_ready : KeyGenState → Bool
  state_is_ready kgs =
      k.is_ready kgs.key_gen
      && ltb (2 * length (k.public_keys kgs.key_gen)) (k.count_complete kgs.key_gen * 3)

  -- `*entry.or_insert(0)`.
  abbrev pub count_of : KeyGenState → NodeId → ℕ
  count_of kgs n = elim (get ⦃o = node_ord⦄ kgs.msg_count n) [ none ↦ 0 | some c ↦ c ]

  unfoldable pub count_messages : KeyGenState → NodeId → ℕ × KeyGenState
  count_messages kgs n =
      let count = u64 (count_of kgs n + 1) in
      (count, record kgs { msg_count = insert ⦃o = node_ord⦄ n count kgs.msg_count })

  pub record DynamicHoneyBadger : Type 0 where
    pub secret_key : SecretKey
    pub pub_keys : PubKeyMap d
    pub max_future_epochs : ℕ
    pub era : ℕ
    pub vote_counter : VoteCounter d
    pub key_gen_msg_buffer : List SignedKeyGenMsg
    pub honey_badger : k.HoneyBadger
    pub key_gen_state : Option KeyGenState

  -- `retain(|kg_msg| kg_msg.0 >= era)`.
  unfoldable pub retain : ℕ → List SignedKeyGenMsg → List SignedKeyGenMsg
  retain era [] = []
  retain era (m ∷ ms) = let rest = retain era ms in if leb era m.era then m ∷ rest else rest

  unfoldable pub restart_honey_badger :
      ℕ → Params d k.Strategy → k.NetworkInfo → DynamicHoneyBadger → DynamicHoneyBadger
  unfolding retain
  restart_honey_badger era params netinfo s = record s {
    era = era;
    key_gen_msg_buffer = retain era s.key_gen_msg_buffer;
    vote_counter = new d (k.our_id (k.netinfo s.honey_badger)) s.secret_key s.pub_keys era;
    honey_badger = k.build netinfo era params k.first_epoch;
  }

  unfoldable pub take_ready_key_gen : DynamicHoneyBadger → Option KeyGenState × DynamicHoneyBadger
  unfolding state_is_ready
  take_ready_key_gen s = elim s.key_gen_state [
    | none ↦ (none, s)
    | some kgs ↦
        if state_is_ready kgs then (some kgs, record s { key_gen_state = none }) else (none, s)
  ]

  abbrev pub candidate_keys : Option KeyGenState → PubKeyMap d
  candidate_keys none = []
  candidate_keys (some kgs) = k.public_keys kgs.key_gen

  -- `opt_pk.map_or(false, |pk| pk.verify(&sig, &ser))`.
  abbrev pub verified : Option PublicKey → Signature → Bytes → Bool
  verified none sig ser = false
  verified (some pk) sig ser = d.verify pk sig ser

  -- `bincode::serialize` of a message.
  module _ (serialize : KeyGenMessage → Except SerializeError Bytes) where
    unfoldable pub verify_signature :
        DynamicHoneyBadger → NodeId → Signature → KeyGenMessage → Result d Bool
    verify_signature s n sig kg_msg = elim (serialize kg_msg) [
      | err e ↦ err (serialize_key_gen e)
      | ok ser ↦
          let current_key = get ⦃o = node_ord⦄ s.pub_keys n in
          let candidate_key = get ⦃o = node_ord⦄ (candidate_keys s.key_gen_state) n in
          ok (verified current_key sig ser || verified candidate_key sig ser)
    ]

    -- The rest of `handle_key_gen_message` after its first `if`.
    unfoldable pub buffer_message :
        DynamicHoneyBadger
        → NodeId
        → KeyGenMessage
        → Signature
        → Result d (FaultLog d) × DynamicHoneyBadger
    unfolding count_messages
    buffer_message s n kg_msg sig = elim s.key_gen_state [
      | none ↦ (ok (d.logs.init n unexpected_key_gen_message), s)
      | some kgs ↦
          let (count, kgs') = count_messages kgs n in
          let tx : SignedKeyGenMsg = record {
            era = s.era;
            sender = n;
            message = kg_msg;
            sig = sig;
          } in
          let rest : Result d (FaultLog d) × DynamicHoneyBadger = (
            ok d.logs.new,
            record s {
              key_gen_state = some kgs';
              key_gen_msg_buffer = s.key_gen_msg_buffer ++ (tx ∷ []);
            },
          ) in
          if ltb (k.num_nodes kgs.key_gen + 1) count then rest else rest
    ]

    -- Two of the code's ifs end in `Ok(Fault...);`, a statement with no `return`: its value is
    -- dropped, and both branches go on with the rest.
    unfoldable pub handle_key_gen_message :
        DynamicHoneyBadger
        → NodeId
        → KeyGenMessage
        → Signature
        → Result d (FaultLog d) × DynamicHoneyBadger
    unfolding buffer_message
    handle_key_gen_message s n kg_msg sig =
        let rest = buffer_message s n kg_msg sig in
        elim (verify_signature s n sig kg_msg) [
          | err e ↦ (err e, s)
          | ok valid ↦ if not valid then rest else rest
        ]

    -- The step that is returned sends one message to all nodes.
    unfoldable pub send_transaction :
        DynamicHoneyBadger → KeyGenMessage → Result d Message × DynamicHoneyBadger
    send_transaction s kg_msg = elim (serialize kg_msg) [
      | err e ↦ (err (serialize_key_gen e), s)
      | ok ser ↦
          let sig = d.sign s.secret_key ser in
          let signed_msg : SignedKeyGenMsg = record {
            era = s.era;
            sender = k.our_id (k.netinfo s.honey_badger);
            message = kg_msg;
            sig = sig;
          } in
          (
            ok (key_gen s.era kg_msg sig),
            if k.is_validator (k.netinfo s.honey_badger)
                then record s { key_gen_msg_buffer = s.key_gen_msg_buffer ++ (signed_msg ∷ []) }
                else s,
          )
    ]
