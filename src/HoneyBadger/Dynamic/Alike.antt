-- ===== src/HoneyBadger/Dynamic/Alike.antt =====
-- dynamic_honey_badger.rs: two nodes that share what is public go through restarts alike.
use mina_os.Base.{ℕ, ◌≡◌, refl, sym, ap, ◌∙◌, subst, arith, Bool, Option, none, some, List, []}
use mina_os.HoneyBadger.Deps.{Deps, Except, ok, err, map_err, PubKeyMap}
use mina_os.HoneyBadger.Votes.{VoteCounter}
use mina_os.HoneyBadger.Votes.Public.{SameVotes}
use mina_os.HoneyBadger.KeyGen
use mina_os.HoneyBadger.KeyGen.{
  KeyGens, Params, KeyGenMessage, KeyGenState, new_state, DynamicHoneyBadger, restart_honey_badger,
}
use mina_os.HoneyBadger.Engine.{Engine, PartOutcome, AckOutcome}
use mina_os.HoneyBadger.Exec.Rules.{Ensures-run, Ensures, Ensures-pure, Ensures-bind}
use mina_os.HoneyBadger.Exec.Agree.{
  Agrees, Agrees-pure, Agrees-gets, Agrees-run, Agrees-modify, Agrees-bind, Agrees-given,
  Agrees-alone, Agrees-either,
}
use mina_os.HoneyBadger.Dynamic.Quiet.{Any}
use mina_os.HoneyBadger.Dynamic.{
  World, Method, on_node, send_transaction, restart, new_key_gen, set_key_gen_state, send_part,
  renew_key_gen, update_key_gen, update_encryption_schedule, run_part, part_step, handle_part,
  run_ack, ack_step, handle_ack,
}
pub mod Generation

-- What `sync_key_gen` promises: two nodes whose key generations have handled the same parts and acks
-- in the same order, `Rel`, agree on what is public of them.
pub record Synchronous (d : Deps) (k : KeyGens d) (C : Type 0) (e : Engine d k C)
    (Rel : k.SyncKeyGen → k.SyncKeyGen → Type 0) : Type 0 where
  pub itself : (g : k.SyncKeyGen) → Rel g g
  pub keys : (g g' : k.SyncKeyGen) → Rel g g' → k.public_keys g ≡ k.public_keys g'
  pub ready : (g g' : k.SyncKeyGen) → Rel g g' → k.is_ready g ≡ k.is_ready g'
  pub complete : (g g' : k.SyncKeyGen) → Rel g g' → k.count_complete g ≡ k.count_complete g'
  pub parts :
      (g g' : k.SyncKeyGen) (n : d.NodeId) (p : k.Part) (r r' : e.Rng)
      → Rel g g'
      → Rel (e.kg_handle_part g n p r).1 (e.kg_handle_part g' n p r').1
  pub acks :
      (g g' : k.SyncKeyGen) (n : d.NodeId) (a : k.Ack)
      → Rel g g'
      → Rel (e.kg_handle_ack g n a).1 (e.kg_handle_ack g' n a).1
  pub fresh :
      (n n' : d.NodeId) (sk sk' : d.SecretKey) (pks : PubKeyMap d) (t : ℕ) (r r' : e.Rng)
      (made made' : k.SyncKeyGen × Option k.Part)
      → (e.new_key_gen n sk pks t r).0 ≡ ok made
      → (e.new_key_gen n' sk' pks t r').0 ≡ ok made'
      → Rel made.0 made'.0
  pub generated :
      (g g' : k.SyncKeyGen) (made made' : k.PublicKeySet × Option k.SecretKeyShare)
      → Rel g g'
      → e.generate g ≡ ok made
      → e.generate g' ≡ ok made'
      → made.0 ≡ made'.0

pub map_err_ok :
    {E F A : Type 0} (f : E → F) (r : Except E A) (a : A) → map_err f r ≡ ok a → r ≡ ok a
map_err_ok f (ok b) a h = let p : b ≡ a = cc in ap ok p
map_err_ok f (err e) a h = cc

module _ (d : Deps) (k : KeyGens d) (C : Type 0) (e : Engine d k C)
    (Rel : k.SyncKeyGen → k.SyncKeyGen → Type 0) (sync : Synchronous d k C e Rel) where
  open e use {Step}

  -- What of a node other nodes may depend on.
  pub record Shared : Type 0 where
    pub era : ℕ
    pub pub_keys : PubKeyMap d
    pub vote_counter : VoteCounter d
    pub honey_badger : k.HoneyBadger
    pub key_gen_state : Option (KeyGenState d k)

  abbrev pub shared : World d k C e → Shared
  shared w = record {
    era = w.node.era;
    pub_keys = w.node.pub_keys;
    vote_counter = w.node.vote_counter;
    honey_badger = w.node.honey_badger;
    key_gen_state = w.node.key_gen_state;
  }

  abbrev pub SameState : Option (KeyGenState d k) → Option (KeyGenState d k) → Type 0
  SameState none none = Unit {0}
  SameState (some g) (some g') = Rel g.key_gen g'.key_gen
  SameState _ _ = ⊥

  -- Two nodes in one era, with the same keys, committed votes and parameters, in the network of one
  -- public key set, and with key generations that have seen the same.
  pub record SameShared (s s' : Shared) : Type 0 where
    pub era : s.era ≡ s'.era
    pub pub_keys : s.pub_keys ≡ s'.pub_keys
    pub votes : SameVotes d s.vote_counter s'.vote_counter
    pub params : k.params s.honey_badger ≡ k.params s'.honey_badger
    pub key_set :
        k.public_key_set (k.netinfo s.honey_badger) ≡ k.public_key_set (k.netinfo s'.honey_badger)
    pub key_gen : SameState s.key_gen_state s'.key_gen_state

  abbrev pub Alike : World d k C e → World d k C e → Type 0
  Alike w w' = SameShared (shared w) (shared w')

  -- Neither step has a batch.
  abbrev pub Silent : Step → Step → World d k C e → World d k C e → Type 0
  Silent more more' w w' = ((e.output more ≡ []) × (e.output more' ≡ [])) × Alike w w'

  -- Alone, `m` puts out no batch and leaves what is shared.
  abbrev Stays : Method d k C e Step → Type 0
  Stays m =
      (x : Shared)
      → Ensures (λ w. shared w ≡ x) (λ more w. (e.output more ≡ []) × (shared w ≡ x)) (Any d k C e)
          m

  pub alone : (m m' : Method d k C e Step) → Stays m → Stays m' → Agrees Alike Silent m m'
  alone m m' h h' =
      Agrees-alone (λ more. e.output more ≡ []) (Any d k C e) shared SameShared m m' h h'

  send_shared :
      (s : DynamicHoneyBadger d k) (m : KeyGenMessage d k)
      → let s' = (KeyGen.send_transaction d k e.serialize_key_gen s m).1 in
        (s'.era ≡ s.era)
        × (s'.pub_keys ≡ s.pub_keys)
        × (s'.vote_counter ≡ s.vote_counter)
        × (s'.honey_badger ≡ s.honey_badger)
        × (s'.key_gen_state ≡ s.key_gen_state)
  unfolding KeyGen.send_transaction
  send_shared s m = ground arith

  sent-shared :
      (w : World d k C e) (m : KeyGenMessage d k)
      → shared (record w { node = (KeyGen.send_transaction d k e.serialize_key_gen w.node m).1 })
        ≡ shared w
  sent-shared w m =
      let q = send_shared w.node m in
      λ i. record {
        era = q.0 i;
        pub_keys = q.1 i;
        vote_counter = q.2 i;
        honey_badger = q.3 i;
        key_gen_state = q.4 i;
      }

  send_transaction-Stays : (m : KeyGenMessage d k) → Stays (send_transaction d k C e m)
  unfolding send_transaction on_node
  send_transaction-Stays m x =
      Ensures-bind {Q = λ msg w. shared w ≡ x} _ _
        (Ensures-run _ (λ w h msg. sent-shared w m ∙ h) (λ w h. tt))
        (λ msg. Ensures-pure _ (λ w h. (e.output-to_all msg, h)))

  pub send_part-Stays : (p : Option k.Part) → Stays (send_part d k C e p)
  unfolding send_part
  send_part-Stays none x = Ensures-pure _ (λ w h. (e.output-default, h))
  send_part-Stays (some p) x = send_transaction-Stays _ x

  pub part_step-Stays :
      (sender : d.NodeId) (o : PartOutcome k.Ack d.PartFault) → Stays (part_step d k C e sender o)
  unfolding part_step
  part_step-Stays sender (PartOutcome.valid (some a)) x = send_transaction-Stays _ x
  part_step-Stays sender (PartOutcome.valid none) x = Ensures-pure _ (λ w h. (e.output-default, h))
  part_step-Stays sender (PartOutcome.invalid f) x =
      Ensures-pure _ (λ w h. (e.output-of_fault sender _, h))

  pub ack_step-Stays :
      (sender : d.NodeId) (o : AckOutcome d.AckFault) → Stays (ack_step d k C e sender o)
  unfolding ack_step
  ack_step-Stays sender AckOutcome.valid x = Ensures-pure _ (λ w h. (e.output-default, h))
  ack_step-Stays sender (AckOutcome.invalid f) x =
      Ensures-pure _ (λ w h. (e.output-of_fault sender _, h))

  pub restart-Alike :
      (era : ℕ) (params params' : Params d k.Strategy) (netinfo netinfo' : k.NetworkInfo)
      → params ≡ params'
      → k.public_key_set netinfo ≡ k.public_key_set netinfo'
      → Agrees Alike
          (λ u u' w w'. Alike w w')
          (restart d k C e era params netinfo)
          (restart d k C e era params' netinfo')
  unfolding restart restart_honey_badger mina_os.HoneyBadger.Votes.new
  restart-Alike era params params' netinfo netinfo' p n = Agrees-modify _ _ λ w w' h. record {
    era = refl;
    pub_keys = h.pub_keys;
    votes = record { era = refl; pub_keys = h.pub_keys; committed = refl };
    params =
        k.params-build netinfo era params k.first_epoch
        ∙ p
        ∙ sym (k.params-build netinfo' era params' k.first_epoch);
    key_set =
        ap k.public_key_set (k.netinfo-build netinfo era params k.first_epoch)
        ∙ n
        ∙ sym (ap k.public_key_set (k.netinfo-build netinfo' era params' k.first_epoch));
    key_gen = h.key_gen;
  }

  pub Alike-refl : (w : World d k C e) → Alike w w
  Alike-refl w = record {
    era = refl;
    pub_keys = refl;
    votes = record { era = refl; pub_keys = refl; committed = refl };
    params = refl;
    key_set = refl;
    key_gen = state w.node.key_gen_state;
  }
    where
      state : (g : Option (KeyGenState d k)) → SameState g g
      state none = tt
      state (some g) = sync.itself g.key_gen
