-- ===== src/HoneyBadger/Dynamic/Sound.antt =====
-- dynamic_honey_badger.rs: what holds of a node between the calls, and that restarts and key
-- generation keep it.
use mina_os.Base.{
  ℕ, ◌≤◌, ◌≡◌, refl, Option, none, some, List, [], ◌∷◌, ◌++◌, arith, All, All-append, Bool-cases,
  inl, inr,
}
use mina_os.HoneyBadger.Deps.{Deps, Error, Except-cases, PubKeyMap, Result}
use mina_os.HoneyBadger.KeyGen
use mina_os.HoneyBadger.KeyGen.{
  KeyGens, Params, KeyGenMessage, KeyGenState, SignedKeyGenMsg, DynamicHoneyBadger, retain,
  restart_honey_badger,
}
use mina_os.HoneyBadger.Engine.{Engine, PartOutcome, AckOutcome}
use mina_os.HoneyBadger.Exec.{modify}
use mina_os.HoneyBadger.Exec.Rules.{
  Ensures-run, Keeps, Ensures-modify, Keeps-pure, Keeps-gets, Keeps-bind, Ensures-option,
  keeps_rules,
}
use mina_os.HoneyBadger.Dynamic.{
  World, on_node, send_transaction, restart, update_encryption_schedule, new_key_gen,
  set_key_gen_state, send_part, renew_key_gen, update_key_gen, run_part, part_step, handle_part,
  run_ack, ack_step, handle_ack,
}

module _ (d : Deps) (k : KeyGens d) (sk : d.SecretKey) where
  -- The node has the secret key that it was made with, and so has its vote counter; the counter is
  -- of the node's era, and no buffered message is of an earlier one.
  pub record IsSound (s : DynamicHoneyBadger d k) : Type 0 where
    pub secret_key : s.secret_key ≡ sk
    pub counter_key : s.vote_counter.secret_key ≡ sk
    pub counter_era : s.vote_counter.era ≡ s.era
    pub buffered : All (λ (m : SignedKeyGenMsg d k). s.era ≤ m.era) s.key_gen_msg_buffer

  -- One message more, of the node's era.
  pub grown :
      (s : DynamicHoneyBadger d k) (m : SignedKeyGenMsg d k)
      → m.era ≡ s.era
      → IsSound s
      → All (λ (m : SignedKeyGenMsg d k). s.era ≤ m.era) (s.key_gen_msg_buffer ++ (m ∷ []))
  grown s m q h =
      All-append (λ (m : SignedKeyGenMsg d k). s.era ≤ m.era) s.key_gen_msg_buffer (m ∷ [])
        h.buffered (omega arith, tt)

  retain-All :
      (era : ℕ) (ms : List (SignedKeyGenMsg d k))
      → All (λ (m : SignedKeyGenMsg d k). era ≤ m.era) (retain d k era ms)
  unfolding retain
  retain-All era [] = tt
  retain-All era (m ∷ ms) = let later = retain-All era ms in ground (arith, later)

  restart-IsSound :
      (era : ℕ) (params : Params d k.Strategy) (netinfo : k.NetworkInfo)
      (s : DynamicHoneyBadger d k)
      → IsSound s
      → IsSound (restart_honey_badger d k era params netinfo s)
  unfolding restart_honey_badger mina_os.HoneyBadger.Votes.new
  restart-IsSound era params netinfo s h = record {
    secret_key = h.secret_key;
    counter_key = h.secret_key;
    counter_era = refl;
    buffered = retain-All era s.key_gen_msg_buffer;
  }

  module _ (C : Type 0) (e : Engine d k C) where
    open e use {Step}

    abbrev pub IsSoundWorld : World d k C e → Type 0
    IsSoundWorld w = IsSound w.node

    pub Keeps-on_node :
        {A : Type 0} (f : DynamicHoneyBadger d k → Result d A × DynamicHoneyBadger d k)
        → ((s : DynamicHoneyBadger d k) → IsSound s → IsSound (f s).1)
        → Keeps IsSoundWorld (on_node d k C e f)
    unfolding on_node
    Keeps-on_node f h = Ensures-run _ (λ w s a. h w.node s) (λ w s. h w.node s)

    send-IsSound :
        (m : KeyGenMessage d k) (s : DynamicHoneyBadger d k)
        → IsSound s
        → IsSound (KeyGen.send_transaction d k e.serialize_key_gen s m).1
    unfolding KeyGen.send_transaction
    send-IsSound m s h = elim (Except-cases (e.serialize_key_gen m)) [
      | inl (x, q) ↦ rw (q, KeyGen.send_transaction) h
      | inr (x, q) ↦ elim (Bool-cases (k.is_validator (k.netinfo s.honey_badger))) [
        | inl v ↦
            rw (q, KeyGen.send_transaction, v)
              (record {
                secret_key = h.secret_key;
                counter_key = h.counter_key;
                counter_era = h.counter_era;
                buffered = grown s _ refl h;
              })
        | inr v ↦ rw (q, KeyGen.send_transaction, v) h
      ]
    ]

    pub send_transaction-Keeps :
        (m : KeyGenMessage d k) → Keeps IsSoundWorld (send_transaction d k C e m)
    unfolding send_transaction
    send_transaction-Keeps m =
        Keeps-bind _ _ (Keeps-on_node _ (send-IsSound m)) (λ msg. Keeps-pure _)

    pub restart-Keeps :
        (era : ℕ) (params : Params d k.Strategy) (netinfo : k.NetworkInfo)
        → Keeps IsSoundWorld (restart d k C e era params netinfo)
    unfolding restart
    restart-Keeps era params netinfo =
        Ensures-modify _ (λ w h. restart-IsSound era params netinfo w.node h)

    pub update_encryption_schedule-Keeps :
        (era : ℕ) (schedule : d.EncryptionSchedule)
        → Keeps IsSoundWorld (update_encryption_schedule d k C e era schedule)
    unfolding update_encryption_schedule
    update_encryption_schedule-Keeps era schedule = search (keeps_rules, restart-Keeps)

    new_key_gen-Keeps : (pub_keys : PubKeyMap d) → Keeps IsSoundWorld (new_key_gen d k C e pub_keys)
    unfolding new_key_gen
    new_key_gen-Keeps pub_keys = record { at = λ w h. ground arith }

    set_key_gen_state-IsSound :
        (g : Option (KeyGenState d k)) (w : World d k C e)
        → IsSoundWorld w
        → IsSoundWorld (set_key_gen_state d k C e g w)
    unfolding set_key_gen_state
    set_key_gen_state-IsSound g w h = record {
      secret_key = h.secret_key;
      counter_key = h.counter_key;
      counter_era = h.counter_era;
      buffered = h.buffered;
    }

    set_key_gen_state-Keeps :
        (g : Option (KeyGenState d k))
        → Keeps {E = Error d.SerializeError d.HbError d.KeyGenError} IsSoundWorld
            (modify (set_key_gen_state d k C e g))
    set_key_gen_state-Keeps g = Ensures-modify _ (set_key_gen_state-IsSound g)

    send_part-Keeps : (p : Option k.Part) → Keeps IsSoundWorld (send_part d k C e p)
    unfolding send_part
    send_part-Keeps none = Keeps-pure _
    send_part-Keeps (some p) = send_transaction-Keeps _

    renew_key_gen-Keeps :
        (era : ℕ) (pub_keys : PubKeyMap d) → Keeps IsSoundWorld (renew_key_gen d k C e era pub_keys)
    unfolding renew_key_gen
    renew_key_gen-Keeps era pub_keys =
        search
          (keeps_rules, restart-Keeps, new_key_gen-Keeps, send_part-Keeps, set_key_gen_state-Keeps)
          depth 10

    pub update_key_gen-Keeps :
        (era : ℕ) (pub_keys : PubKeyMap d)
        → Keeps IsSoundWorld (update_key_gen d k C e era pub_keys)
    unfolding update_key_gen
    update_key_gen-Keeps era pub_keys = search (keeps_rules, renew_key_gen-Keeps)

    run_part-Keeps :
        (kgs : KeyGenState d k) (sender : d.NodeId) (p : k.Part)
        → Keeps IsSoundWorld (run_part d k C e kgs sender p)
    unfolding run_part
    run_part-Keeps kgs sender p = record { at = λ w h. ground arith }

    part_step-Keeps :
        (sender : d.NodeId) (o : PartOutcome k.Ack d.PartFault)
        → Keeps IsSoundWorld (part_step d k C e sender o)
    unfolding part_step
    part_step-Keeps sender (PartOutcome.valid (some a)) = send_transaction-Keeps _
    part_step-Keeps sender (PartOutcome.valid none) = Keeps-pure _
    part_step-Keeps sender (PartOutcome.invalid f) = Keeps-pure _

    pub handle_part-Keeps :
        (sender : d.NodeId) (p : k.Part) → Keeps IsSoundWorld (handle_part d k C e sender p)
    unfolding handle_part
    handle_part-Keeps sender p = Keeps-bind _ _ (Keeps-gets _) λ state.
        Ensures-option state _ _ (Keeps-pure _)
          (λ kgs. Keeps-bind _ _ (run_part-Keeps kgs sender p) (part_step-Keeps sender))

    run_ack-Keeps :
        (kgs : KeyGenState d k) (sender : d.NodeId) (a : k.Ack)
        → Keeps IsSoundWorld (run_ack d k C e kgs sender a)
    unfolding run_ack
    run_ack-Keeps kgs sender a = record { at = λ w h. ground arith }

    ack_step-Keeps :
        (sender : d.NodeId) (o : AckOutcome d.AckFault)
        → Keeps IsSoundWorld (ack_step d k C e sender o)
    unfolding ack_step
    ack_step-Keeps sender AckOutcome.valid = Keeps-pure _
    ack_step-Keeps sender (AckOutcome.invalid f) = Keeps-pure _

    pub handle_ack-Keeps :
        (sender : d.NodeId) (a : k.Ack) → Keeps IsSoundWorld (handle_ack d k C e sender a)
    unfolding handle_ack
    handle_ack-Keeps sender a = Keeps-bind _ _ (Keeps-gets _) λ state.
        Ensures-option state _ _ (Keeps-pure _)
          (λ kgs. Keeps-bind _ _ (run_ack-Keeps kgs sender a) (ack_step-Keeps sender))
