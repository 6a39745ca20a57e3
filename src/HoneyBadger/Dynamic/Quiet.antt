-- ===== src/HoneyBadger/Dynamic/Quiet.antt =====
-- dynamic_honey_badger.rs: the key generation puts out no batch, and it leaves the era, the vote
-- counter and the keys alone but for the restart.
use mina_os.Base.{ℕ, ◌≡◌, refl, Option, none, some, [], arith, subst, sym}
use mina_os.HoneyBadger.Deps.{Deps, PubKeyMap}
use mina_os.HoneyBadger.Votes.{VoteCounter}
use mina_os.HoneyBadger.KeyGen
use mina_os.HoneyBadger.KeyGen.{
  KeyGens, Params, KeyGenMessage, KeyGenState, new_state, DynamicHoneyBadger, restart_honey_badger,
}
use mina_os.HoneyBadger.Engine.{Engine, PartOutcome, AckOutcome}
use mina_os.HoneyBadger.Exec.Rules.{
  Ensures-run, Ensures, Ensures-pure, Ensures-gets, Ensures-modify, Ensures-bind, Ensures-if,
  Ensures-option,
}
use mina_os.HoneyBadger.Dynamic.{
  World, Method, on_node, send_transaction, restart, new_key_gen, set_key_gen_state, send_part,
  renew_key_gen, update_key_gen, run_part, part_step, handle_part, run_ack, ack_step, handle_ack,
}

module _ (d : Deps) (k : KeyGens d) (C : Type 0) (e : Engine d k C) where
  open e use {Step}

  -- A failure may leave anything.
  abbrev pub Any : World d k C e → Type 0
  Any w = Unit

  -- Of a node, all but what only its key generation needs.
  pub record Core : Type 0 where
    pub secret_key : d.SecretKey
    pub pub_keys : PubKeyMap d
    pub era : ℕ
    pub vote_counter : VoteCounter d
    pub honey_badger : k.HoneyBadger

  abbrev pub core : DynamicHoneyBadger d k → Core
  core s = record {
    secret_key = s.secret_key;
    pub_keys = s.pub_keys;
    era = s.era;
    vote_counter = s.vote_counter;
    honey_badger = s.honey_badger;
  }

  -- `R` is what is left where a method fails.
  module _ (P : Core → Type 0) (R : World d k C e → Type 0)
      (fails : (w : World d k C e) → P (core w.node) → R w) where
    abbrev pub Of : World d k C e → Type 0
    Of w = P (core w.node)

    -- `m` puts out no batch, and what holds of the core still does.
    abbrev pub Quiet : Method d k C e Step → Type 0
    Quiet m = Ensures Of (λ more w. (e.output more ≡ []) × Of w) R m

    send_core :
        (s : DynamicHoneyBadger d k) (m : KeyGenMessage d k)
        → core (KeyGen.send_transaction d k e.serialize_key_gen s m).1 ≡ core s
    unfolding KeyGen.send_transaction
    send_core s m = ground arith

    send_transaction-Quiet : (m : KeyGenMessage d k) → Quiet (send_transaction d k C e m)
    unfolding send_transaction on_node
    send_transaction-Quiet m =
        Ensures-bind {Q = λ msg w. Of w} _ _
          (Ensures-run _ (λ w h msg. subst P (sym (send_core w.node m)) h)
            (λ w h. fails _ (subst P (sym (send_core w.node m)) h)))
          (λ msg. Ensures-pure _ (λ w h. (e.output-to_all msg, h)))

    new_key_gen-Holds :
        (pks : PubKeyMap d) → Ensures Of (λ made w. Of w) R (new_key_gen d k C e pks)
    unfolding new_key_gen
    new_key_gen-Holds pks = Ensures-run (new_key_gen d k C e pks) (λ w h a. h) (λ w h. fails _ h)

    send_part-Quiet : (p : Option k.Part) → Quiet (send_part d k C e p)
    unfolding send_part
    send_part-Quiet none = Ensures-pure _ (λ w h. (e.output-default, h))
    send_part-Quiet (some p) = send_transaction-Quiet _

    run_part-Holds :
        (kgs : KeyGenState d k) (sender : d.NodeId) (p : k.Part)
        → Ensures Of (λ outcome w. Of w) R (run_part d k C e kgs sender p)
    unfolding run_part
    run_part-Holds kgs sender p =
        Ensures-run (run_part d k C e kgs sender p) (λ w h a. h) (λ w h. fails _ h)

    part_step-Quiet :
        (sender : d.NodeId) (o : PartOutcome k.Ack d.PartFault) → Quiet (part_step d k C e sender o)
    unfolding part_step
    part_step-Quiet sender (PartOutcome.valid (some a)) = send_transaction-Quiet _
    part_step-Quiet sender (PartOutcome.valid none) = Ensures-pure _ (λ w h. (e.output-default, h))
    part_step-Quiet sender (PartOutcome.invalid f) =
        Ensures-pure _ (λ w h. (e.output-of_fault sender _, h))

    pub handle_part-Quiet : (sender : d.NodeId) (p : k.Part) → Quiet (handle_part d k C e sender p)
    unfolding handle_part
    handle_part-Quiet sender p =
        Ensures-bind {Q = λ g w. Of w} _ _ (Ensures-gets _ (λ w h. h)) λ state.
          Ensures-option state _ _ (Ensures-pure _ (λ w h. (e.output-of_fault sender _, h)))
            (λ kgs. Ensures-bind _ _ (run_part-Holds kgs sender p) (part_step-Quiet sender))

    run_ack-Holds :
        (kgs : KeyGenState d k) (sender : d.NodeId) (a : k.Ack)
        → Ensures Of (λ outcome w. Of w) R (run_ack d k C e kgs sender a)
    unfolding run_ack
    run_ack-Holds kgs sender a =
        Ensures-run (run_ack d k C e kgs sender a) (λ w h a. h) (λ w h. fails _ h)

    ack_step-Quiet :
        (sender : d.NodeId) (o : AckOutcome d.AckFault) → Quiet (ack_step d k C e sender o)
    unfolding ack_step
    ack_step-Quiet sender AckOutcome.valid = Ensures-pure _ (λ w h. (e.output-default, h))
    ack_step-Quiet sender (AckOutcome.invalid f) =
        Ensures-pure _ (λ w h. (e.output-of_fault sender _, h))

    pub handle_ack-Quiet : (sender : d.NodeId) (a : k.Ack) → Quiet (handle_ack d k C e sender a)
    unfolding handle_ack
    handle_ack-Quiet sender a =
        Ensures-bind {Q = λ g w. Of w} _ _ (Ensures-gets _ (λ w h. h)) λ state.
          Ensures-option state _ _ (Ensures-pure _ (λ w h. (e.output-of_fault sender _, h)))
            (λ kgs. Ensures-bind _ _ (run_ack-Holds kgs sender a) (ack_step-Quiet sender))

    set_key_gen_state-Holds :
        (g : Option (KeyGenState d k)) (w : World d k C e)
        → Of w
        → Of (set_key_gen_state d k C e g w)
    unfolding set_key_gen_state
    set_key_gen_state-Holds g w h = h

    -- A restart makes it hold, and what is done after it keeps it.
    renew_key_gen-Quiet :
        (X : World d k C e → Type 0) (era : ℕ) (pks : PubKeyMap d)
        → ((params : Params d k.Strategy) (netinfo : k.NetworkInfo)
            → Ensures
                (λ w.
                  X w
                  × (params ≡ k.params w.node.honey_badger)
                  × (netinfo ≡ k.netinfo w.node.honey_badger))
                (λ u w. Of w)
                R
                (restart d k C e era params netinfo))
        → Ensures X (λ more w. (e.output more ≡ []) × Of w) R (renew_key_gen d k C e era pks)
    unfolding renew_key_gen
    renew_key_gen-Quiet X era pks h =
        Ensures-bind {Q = λ p w. X w × (p ≡ k.params w.node.honey_badger)} _ _
          (Ensures-gets _ (λ w x. (x, refl)))
          λ params. Ensures-bind _ _ (Ensures-gets _ (λ w x. (x.0, x.1, refl))) λ netinfo.
            Ensures-bind _ _ (h params netinfo) λ u.
              Ensures-bind _ _ (new_key_gen-Holds pks) λ made.
                Ensures-bind _ _
                  (Ensures-modify _ (set_key_gen_state-Holds (some (new_state d k made.0))))
                  λ u. send_part-Quiet made.1

    pub update_key_gen-Quiet :
        (X : World d k C e → Type 0) (era : ℕ) (pks : PubKeyMap d)
        → ((params : Params d k.Strategy) (netinfo : k.NetworkInfo)
            → Ensures
                (λ w.
                  X w
                  × (params ≡ k.params w.node.honey_badger)
                  × (netinfo ≡ k.netinfo w.node.honey_badger))
                (λ u w. Of w)
                R
                (restart d k C e era params netinfo))
        → Ensures X (λ more w. (e.output more ≡ []) × Of w) R (update_key_gen d k C e era pks)
    unfolding update_key_gen
    update_key_gen-Quiet X era pks h =
        let rest = renew_key_gen-Quiet X era pks h in
        Ensures-bind {Q = λ b w. X w} _ _ (Ensures-gets _ (λ w x. x))
          λ same. Ensures-if same _ _ (λ _. rest) (λ _. rest)
