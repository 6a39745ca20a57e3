-- ===== src/HoneyBadger/Dynamic/Returns.antt =====
-- dynamic_honey_badger.rs: where what it calls does not fail, the key generation does not.
use mina_os.Base.{ℕ, Option, none, some, inl, inr}
use mina_os.HoneyBadger.Deps.{Deps, Except-cases, PubKeyMap, Result}
use mina_os.HoneyBadger.Votes.{Vote}
use mina_os.HoneyBadger.KeyGen
use mina_os.HoneyBadger.KeyGen.{
  KeyGens, Params, KeyGenMessage, part, ack, KeyGenState, SignedKeyGenMsg, DynamicHoneyBadger,
  verify_signature, new_state,
}
use mina_os.HoneyBadger.Engine.{Engine, InternalContrib, PartOutcome, AckOutcome}
use mina_os.HoneyBadger.Exec.Returns.{
  IsOk, IsOk-map_err, Returns, Returns-pure, Returns-gets, Returns-modify, Returns-bind, Returns-if,
  Returns-option,
}
use mina_os.HoneyBadger.Dynamic.{
  on_node, send_transaction, restart, update_encryption_schedule, new_key_gen, set_key_gen_state,
  send_part, renew_key_gen, update_key_gen, run_part, part_step, handle_part, run_ack, ack_step,
  handle_ack,
}

-- Serialization, the key generation and Honey Badger do not fail.
pub record Works (d : Deps) (k : KeyGens d) (C : Type 0) (e : Engine d k C) : Type 0 where
  pub votes : (v : Vote d) → IsOk (e.serialize_vote v)
  pub messages : (m : KeyGenMessage d k) → IsOk (e.serialize_key_gen m)
  pub key_gens :
      (n : d.NodeId) (sk : d.SecretKey) (pks : PubKeyMap d) (t : ℕ) (r : e.Rng)
      → IsOk (e.new_key_gen n sk pks t r).0
  pub parts :
      (g : k.SyncKeyGen) (n : d.NodeId) (p : k.Part) (r : e.Rng) → IsOk (e.kg_handle_part g n p r).0
  pub acks : (g : k.SyncKeyGen) (n : d.NodeId) (a : k.Ack) → IsOk (e.kg_handle_ack g n a).0
  pub keys : (g : k.SyncKeyGen) → IsOk (e.generate g)
  pub proposals :
      (b : k.HoneyBadger) (c : InternalContrib d k C) (r : e.Rng) → IsOk (e.hb_propose b c r).0
  pub received :
      (b : k.HoneyBadger) (n : d.NodeId) (m : k.HbMessage) → IsOk (e.hb_handle_message b n m).0

module _ (d : Deps) (k : KeyGens d) (C : Type 0) (e : Engine d k C) (works : Works d k C e) where
  send-IsOk :
      (s : DynamicHoneyBadger d k) (m : KeyGenMessage d k)
      → IsOk (KeyGen.send_transaction d k e.serialize_key_gen s m).0
  unfolding KeyGen.send_transaction
  send-IsOk s m = elim (Except-cases (e.serialize_key_gen m)) [
    | inl (x, q) ↦ absurd (rw q at (works.messages m))
    | inr (x, q) ↦ rw (q, KeyGen.send_transaction) tt
  ]

  pub Returns-on_node :
      {A : Type 0} (f : DynamicHoneyBadger d k → Result d A × DynamicHoneyBadger d k)
      → ((s : DynamicHoneyBadger d k) → IsOk (f s).0)
      → Returns (on_node d k C e f)
  unfolding on_node
  Returns-on_node f h = record { at = λ w. h w.node }

  send_transaction-Returns : (m : KeyGenMessage d k) → Returns (send_transaction d k C e m)
  unfolding send_transaction
  send_transaction-Returns m =
      Returns-bind _ _ (Returns-on_node _ (λ s. send-IsOk s m)) (λ msg. Returns-pure _)

  pub restart-Returns :
      (era : ℕ) (params : Params d k.Strategy) (netinfo : k.NetworkInfo)
      → Returns (restart d k C e era params netinfo)
  unfolding restart
  restart-Returns era params netinfo = Returns-modify _

  pub update_encryption_schedule-Returns :
      (era : ℕ) (schedule : d.EncryptionSchedule)
      → Returns (update_encryption_schedule d k C e era schedule)
  unfolding update_encryption_schedule
  update_encryption_schedule-Returns era schedule =
      Returns-bind _ _ (Returns-gets _)
        λ params. Returns-bind _ _ (Returns-gets _) λ netinfo. restart-Returns era _ netinfo

  send_part-Returns : (p : Option k.Part) → Returns (send_part d k C e p)
  unfolding send_part
  send_part-Returns none = Returns-pure _
  send_part-Returns (some p) = send_transaction-Returns _

  new_key_gen-Returns : (pks : PubKeyMap d) → Returns (new_key_gen d k C e pks)
  unfolding new_key_gen
  new_key_gen-Returns pks = record { at = λ w. IsOk-map_err _ _ (works.key_gens _ _ _ _ _) }

  pub update_key_gen-Returns :
      (era : ℕ) (pks : PubKeyMap d) → Returns (update_key_gen d k C e era pks)
  unfolding update_key_gen renew_key_gen
  update_key_gen-Returns era pks =
      let rest : Returns (renew_key_gen d k C e era pks) =
        Returns-bind _ _ (Returns-gets _) λ params. Returns-bind _ _ (Returns-gets _) λ netinfo.
          Returns-bind _ _ (restart-Returns era params netinfo) λ u.
            Returns-bind _ _ (new_key_gen-Returns pks) λ made.
              Returns-bind _ _
                (Returns-modify (set_key_gen_state d k C e (some (new_state d k made.0))))
                λ u. send_part-Returns made.1 in
      Returns-bind _ _ (Returns-gets _) (λ same. Returns-if same _ _ rest rest)

  part_step-Returns :
      (sender : d.NodeId) (o : PartOutcome k.Ack d.PartFault) → Returns (part_step d k C e sender o)
  unfolding part_step
  part_step-Returns sender (PartOutcome.valid (some a)) = send_transaction-Returns _
  part_step-Returns sender (PartOutcome.valid none) = Returns-pure _
  part_step-Returns sender (PartOutcome.invalid f) = Returns-pure _

  run_part-Returns :
      (kgs : KeyGenState d k) (sender : d.NodeId) (p : k.Part)
      → Returns (run_part d k C e kgs sender p)
  unfolding run_part
  run_part-Returns kgs sender p = record { at = λ w. IsOk-map_err _ _ (works.parts _ _ _ _) }

  run_ack-Returns :
      (kgs : KeyGenState d k) (sender : d.NodeId) (a : k.Ack)
      → Returns (run_ack d k C e kgs sender a)
  unfolding run_ack
  run_ack-Returns kgs sender a = record { at = λ w. IsOk-map_err _ _ (works.acks _ _ _) }

  ack_step-Returns :
      (sender : d.NodeId) (o : AckOutcome d.AckFault) → Returns (ack_step d k C e sender o)
  unfolding ack_step
  ack_step-Returns sender AckOutcome.valid = Returns-pure _
  ack_step-Returns sender (AckOutcome.invalid f) = Returns-pure _

  pub handle_part-Returns :
      (sender : d.NodeId) (p : k.Part) → Returns (handle_part d k C e sender p)
  unfolding handle_part
  handle_part-Returns sender p = Returns-bind _ _ (Returns-gets _) λ state.
      Returns-option state _ _ (Returns-pure _)
        (λ kgs. Returns-bind _ _ (run_part-Returns kgs sender p) (part_step-Returns sender))

  pub handle_ack-Returns : (sender : d.NodeId) (a : k.Ack) → Returns (handle_ack d k C e sender a)
  unfolding handle_ack
  handle_ack-Returns sender a = Returns-bind _ _ (Returns-gets _) λ state.
      Returns-option state _ _ (Returns-pure _)
        (λ kgs. Returns-bind _ _ (run_ack-Returns kgs sender a) (ack_step-Returns sender))
