-- ===== src/HoneyBadger/Engine.antt =====
-- What dynamic_honey_badger.rs calls of `honey_badger`, `sync_key_gen` and of the crate's steps,
-- with the types of mod.rs that they carry.
use mina_os.Base.{ℕ, ◌≡◌, Bool, Option, List, [], ◌∷◌, ◌++◌}
use mina_os.Base.BTreeMap.{BTreeMap}
use mina_os.HoneyBadger.Deps.{Deps, Except, PubKeyMap, FaultLog, Kind}
use mina_os.HoneyBadger.Votes.{Vote, SignedVote}
use mina_os.HoneyBadger.KeyGen.{KeyGens, KeyGenMessage, SignedKeyGenMsg, Message}
use mina_os.HoneyBadger.Batch.{Batch}

-- `sync_key_gen::PartOutcome` and `AckOutcome`.
pub data PartOutcome (Ack Fault : Type 0) : Type 0 where
  valid : Option Ack → PartOutcome Ack Fault
  invalid : Fault → PartOutcome Ack Fault

pub data AckOutcome (Fault : Type 0) : Type 0 where
  valid : AckOutcome Fault
  invalid : Fault → AckOutcome Fault

module _ (d : Deps) (k : KeyGens d) (C : Type 0) where
  pub record InternalContrib : Type 0 where
    pub contrib : C
    pub key_gen_messages : List (SignedKeyGenMsg d k)
    pub votes : List (SignedVote d)

  -- `honey_badger::Batch`, with the fields that are read.
  pub record HbBatch : Type 0 where
    pub epoch : ℕ
    pub contributions : BTreeMap d.NodeId InternalContrib

  -- A `Step` is what a call puts out: batches, faults and messages.  `output` is its batches.  A
  -- call that changes a Honey Badger, a key generation or the random numbers returns them.
  pub record Engine : Type 1 where
    pub Step : Type 0
    pub default : Step
    pub of_fault : d.NodeId → Kind d → Step
    pub of_faults : FaultLog d → Step
    pub to_all : Message d k → Step
    pub append_fault : Step → d.NodeId → Kind d → Step
    pub extend_faults : Step → FaultLog d → Step
    pub extend : Step → Step → Step
    pub push_output : Step → Batch d k C → Step
    pub output : Step → List (Batch d k C)
    pub output-default : output default ≡ []
    pub output-of_fault : (n : d.NodeId) (f : Kind d) → output (of_fault n f) ≡ []
    pub output-of_faults : (l : FaultLog d) → output (of_faults l) ≡ []
    pub output-to_all : (m : Message d k) → output (to_all m) ≡ []
    pub output-append_fault :
        (s : Step) (n : d.NodeId) (f : Kind d) → output (append_fault s n f) ≡ output s
    pub output-extend_faults : (s : Step) (l : FaultLog d) → output (extend_faults s l) ≡ output s
    pub output-extend : (s t : Step) → output (extend s t) ≡ output s ++ output t
    pub output-push_output :
        (s : Step) (b : Batch d k C) → output (push_output s b) ≡ output s ++ (b ∷ [])
    pub HbStep : Type 0
    pub extend_with : Step → HbStep → (d.HbFault → Kind d) → (k.HbMessage → Message d k) → Step
    pub hb_output : HbStep → List HbBatch
    pub output-extend_with :
        (s : Step) (h : HbStep) (f : d.HbFault → Kind d) (m : k.HbMessage → Message d k)
        → output (extend_with s h f m) ≡ output s
    pub Rng : Type 0
    pub hb_propose :
        k.HoneyBadger → InternalContrib → Rng → Except d.HbError HbStep × k.HoneyBadger × Rng
    pub hb_handle_message :
        k.HoneyBadger → d.NodeId → k.HbMessage → Except d.HbError HbStep × k.HoneyBadger
    pub has_input : k.HoneyBadger → Bool
    pub received_proposals : k.HoneyBadger → ℕ
    pub next_epoch : k.HoneyBadger → ℕ
    pub epoch : k.HoneyBadger → ℕ
    pub num_faulty : k.NetworkInfo → ℕ
    pub is_node_validator : k.NetworkInfo → d.NodeId → Bool
    pub new_key_gen :
        d.NodeId
        → d.SecretKey
        → PubKeyMap d
        → ℕ
        → Rng
        → Except d.KeyGenError (k.SyncKeyGen × Option k.Part) × Rng
    pub kg_handle_part :
        k.SyncKeyGen
        → d.NodeId
        → k.Part
        → Rng
        → Except d.KeyGenError (PartOutcome k.Ack d.PartFault) × k.SyncKeyGen × Rng
    pub kg_handle_ack :
        k.SyncKeyGen
        → d.NodeId
        → k.Ack
        → Except d.KeyGenError (AckOutcome d.AckFault) × k.SyncKeyGen
    pub generate : k.SyncKeyGen → Except d.KeyGenError (k.PublicKeySet × Option k.SecretKeyShare)
    pub key_gen_msg_eq : Discrete (SignedKeyGenMsg d k)
    pub serialize_vote : Vote d → Except d.SerializeError d.Bytes
    pub serialize_key_gen : KeyGenMessage d k → Except d.SerializeError d.Bytes
