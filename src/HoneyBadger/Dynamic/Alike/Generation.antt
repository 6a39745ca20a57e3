-- ===== src/HoneyBadger/Dynamic/Alike/Generation.antt =====
-- dynamic_honey_badger.rs: two nodes that share what is public go through key generation alike.
use mina_os.Base.{ℕ, ◌≡◌, ap, Option, none, some}
use mina_os.HoneyBadger.Deps.{Deps, PubKeyMap}
use mina_os.HoneyBadger.KeyGen.{KeyGens, Params, KeyGenState, new_state}
use mina_os.HoneyBadger.Engine.{Engine}
use mina_os.HoneyBadger.Exec.Agree.{
  Agrees, Agrees-pure, Agrees-gets, Agrees-run, Agrees-modify, Agrees-bind, Agrees-given,
  Agrees-either,
}
use mina_os.HoneyBadger.Dynamic.{
  World, Method, new_key_gen, set_key_gen_state, renew_key_gen, update_key_gen,
  update_encryption_schedule, run_part, handle_part, run_ack, handle_ack,
}
use mina_os.HoneyBadger.Dynamic.Alike.{
  Synchronous, SameState, Alike, Silent, map_err_ok, alone, restart-Alike, send_part-Stays,
  part_step-Stays, ack_step-Stays,
}

module _ (d : Deps) (k : KeyGens d) (C : Type 0) (e : Engine d k C)
    (Rel : k.SyncKeyGen → k.SyncKeyGen → Type 0) (sync : Synchronous d k C e Rel) where
  open e use {Step}

  abbrev Like : World d k C e → World d k C e → Type 0
  Like = Alike d k C e Rel sync

  abbrev Quietly : Step → Step → World d k C e → World d k C e → Type 0
  Quietly = Silent d k C e Rel sync

  abbrev SameGen : Option (KeyGenState d k) → Option (KeyGenState d k) → Type 0
  SameGen = SameState d k C e Rel sync

  new_key_gen-Alike :
      (pks : PubKeyMap d)
      → Agrees Like
          (λ made made' w w'. Rel made.0 made'.0 × Like w w')
          (new_key_gen d k C e pks)
          (new_key_gen d k C e pks)
  unfolding new_key_gen
  new_key_gen-Alike pks =
      Agrees-run (new_key_gen d k C e pks) (new_key_gen d k C e pks) λ w w' made made' h q q'. (
        sync.fresh _ _ _ _ pks _ w.rng w'.rng made made' (map_err_ok _ _ _ q) (map_err_ok _ _ _ q'),
        h,
      )

  set_key_gen_state-Alike :
      (g g' : KeyGenState d k) (w w' : World d k C e)
      → Rel g.key_gen g'.key_gen
      → Like w w'
      → Like (set_key_gen_state d k C e (some g) w) (set_key_gen_state d k C e (some g') w')
  unfolding set_key_gen_state
  set_key_gen_state-Alike g g' w w' r h = record {
    era = h.era;
    pub_keys = h.pub_keys;
    votes = h.votes;
    params = h.params;
    key_set = h.key_set;
    key_gen = r;
  }

  renew_key_gen-Alike :
      (era : ℕ) (pks : PubKeyMap d)
      → Agrees Like Quietly (renew_key_gen d k C e era pks) (renew_key_gen d k C e era pks)
  unfolding renew_key_gen new_state
  renew_key_gen-Alike era pks =
      Agrees-bind {Q = λ p p' w w'. (p ≡ p') × Like w w'} _ _ _ _
        (Agrees-gets _ (λ w w' h. (h.params, h)))
        λ params params'. Agrees-given _ _ λ p.
          Agrees-bind {Q = λ n n' w w'. (k.public_key_set n ≡ k.public_key_set n') × Like w w'} _ _
            _ _ (Agrees-gets _ (λ w w' h. (h.key_set, h)))
            λ netinfo netinfo'. Agrees-given _ _ λ n.
              Agrees-bind _ _ _ _
                (restart-Alike d k C e Rel sync era params params' netinfo netinfo' p n)
                λ u u'. Agrees-bind _ _ _ _ (new_key_gen-Alike pks) λ made made'.
                  Agrees-given _ _ λ r.
                    Agrees-bind {Q = λ u u' w w'. Like w w'} _ _ _ _
                      (Agrees-modify _ _ (λ w w' h. set_key_gen_state-Alike _ _ w w' r h))
                      λ u u'.
                        alone d k C e Rel sync _ _ (send_part-Stays d k C e Rel sync made.1)
                          (send_part-Stays d k C e Rel sync made'.1)

  pub update_key_gen-Alike :
      (era : ℕ) (pks : PubKeyMap d)
      → Agrees Like Quietly (update_key_gen d k C e era pks) (update_key_gen d k C e era pks)
  unfolding update_key_gen
  update_key_gen-Alike era pks =
      Agrees-bind {Q = λ b b' w w'. Like w w'} _ _ _ _ (Agrees-gets _ (λ w w' h. h))
        λ b b'. Agrees-either b b' _ _ (renew_key_gen-Alike era pks)

  by_state :
      (n : Method d k C e Step) (f : KeyGenState d k → Method d k C e Step)
      (s s' : Option (KeyGenState d k))
      → Agrees Like Quietly n n
      → ((g g' : KeyGenState d k) → Rel g.key_gen g'.key_gen → Agrees Like Quietly (f g) (f g'))
      → Agrees
          (λ w w'. SameGen s s' × Like w w')
          Quietly
          (elim s [ none ↦ n | some g ↦ f g ])
          (elim s' [ none ↦ n | some g ↦ f g ])
  by_state n f none none hn hf = Agrees-given _ _ (λ u. hn)
  by_state n f none (some g') hn hf = record { at = λ w w' h. absurd h.0 }
  by_state n f (some g) none hn hf = record { at = λ w w' h. absurd h.0 }
  by_state n f (some g) (some g') hn hf = Agrees-given _ _ (hf g g')

  run_part-Alike :
      (g g' : KeyGenState d k) (sender : d.NodeId) (p : k.Part)
      → Rel g.key_gen g'.key_gen
      → Agrees Like
          (λ o o' w w'. Like w w')
          (run_part d k C e g sender p)
          (run_part d k C e g' sender p)
  unfolding run_part
  run_part-Alike g g' sender p r =
      Agrees-run (run_part d k C e g sender p) (run_part d k C e g' sender p) λ w w' o o' h q q'.
        record {
          era = h.era;
          pub_keys = h.pub_keys;
          votes = h.votes;
          params = h.params;
          key_set = h.key_set;
          key_gen = sync.parts g.key_gen g'.key_gen sender p w.rng w'.rng r;
        }

  run_ack-Alike :
      (g g' : KeyGenState d k) (sender : d.NodeId) (a : k.Ack)
      → Rel g.key_gen g'.key_gen
      → Agrees Like
          (λ o o' w w'. Like w w')
          (run_ack d k C e g sender a)
          (run_ack d k C e g' sender a)
  unfolding run_ack
  run_ack-Alike g g' sender a r =
      Agrees-run (run_ack d k C e g sender a) (run_ack d k C e g' sender a) λ w w' o o' h q q'.
        record {
          era = h.era;
          pub_keys = h.pub_keys;
          votes = h.votes;
          params = h.params;
          key_set = h.key_set;
          key_gen = sync.acks g.key_gen g'.key_gen sender a r;
        }

  pub handle_part-Alike :
      (sender : d.NodeId) (p : k.Part)
      → Agrees Like Quietly (handle_part d k C e sender p) (handle_part d k C e sender p)
  unfolding handle_part
  handle_part-Alike sender p =
      Agrees-bind {Q = λ s s' w w'. SameGen s s' × Like w w'} _ _ _ _
        (Agrees-gets _ (λ w w' h. (h.key_gen, h)))
        λ s s'.
          by_state _ _ s s'
            (Agrees-pure _ _
              (λ w w' h. ((e.output-of_fault sender _, e.output-of_fault sender _), h)))
            λ g g' r. Agrees-bind _ _ _ _ (run_part-Alike g g' sender p r) λ o o'.
              alone d k C e Rel sync _ _ (part_step-Stays d k C e Rel sync sender o)
                (part_step-Stays d k C e Rel sync sender o')

  pub handle_ack-Alike :
      (sender : d.NodeId) (a : k.Ack)
      → Agrees Like Quietly (handle_ack d k C e sender a) (handle_ack d k C e sender a)
  unfolding handle_ack
  handle_ack-Alike sender a =
      Agrees-bind {Q = λ s s' w w'. SameGen s s' × Like w w'} _ _ _ _
        (Agrees-gets _ (λ w w' h. (h.key_gen, h)))
        λ s s'.
          by_state _ _ s s'
            (Agrees-pure _ _
              (λ w w' h. ((e.output-of_fault sender _, e.output-of_fault sender _), h)))
            λ g g' r. Agrees-bind _ _ _ _ (run_ack-Alike g g' sender a r) λ o o'.
              alone d k C e Rel sync _ _ (ack_step-Stays d k C e Rel sync sender o)
                (ack_step-Stays d k C e Rel sync sender o')

  pub update_encryption_schedule-Alike :
      (era : ℕ) (schedule : d.EncryptionSchedule)
      → Agrees Like
          (λ u u' w w'. Like w w')
          (update_encryption_schedule d k C e era schedule)
          (update_encryption_schedule d k C e era schedule)
  unfolding update_encryption_schedule
  update_encryption_schedule-Alike era schedule =
      Agrees-bind {Q = λ p p' w w'. (p ≡ p') × Like w w'} _ _ _ _
        (Agrees-gets _ (λ w w' h. (h.params, h)))
        λ params params'. Agrees-given _ _ λ p.
          Agrees-bind {Q = λ n n' w w'. (k.public_key_set n ≡ k.public_key_set n') × Like w w'} _ _
            _ _ (Agrees-gets _ (λ w w' h. (h.key_set, h)))
            λ netinfo netinfo'. Agrees-given _ _ λ n.
              restart-Alike d k C e Rel sync era _ _ netinfo netinfo'
                (ap (λ (q : Params d k.Strategy). record q { encryption_schedule = schedule }) p) n
