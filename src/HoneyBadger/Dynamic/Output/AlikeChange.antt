-- ===== src/HoneyBadger/Dynamic/Output/AlikeChange.antt =====
-- dynamic_honey_badger.rs: two nodes that share what is public decide on the same change after a
-- batch.
use mina_os.Base.{
  List, ℕ, ◌≡◌, refl, sym, ap, ◌∙◌, subst, Option, none, some, if◌then◌else◌, Bool-cases, inl, inr,
}
use mina_os.HoneyBadger.Deps.{
  Deps, ok, PubKeyMap, Change, ChangeState, complete, node_change, encryption_schedule,
}
use mina_os.HoneyBadger.Votes.{compute_winner}
use mina_os.HoneyBadger.Votes.Public.{compute_winner_same}
use mina_os.HoneyBadger.KeyGen.{
  KeyGens, KeyGenState, DynamicHoneyBadger, take_ready_key_gen, state_is_ready,
}
use mina_os.HoneyBadger.Engine.{Engine}
use mina_os.HoneyBadger.Exec.{pure, gets, ◌>>=◌}
use mina_os.HoneyBadger.Exec.Agree.{
  Agrees, Agrees-pure, Agrees-gets, Agrees-lift, Agrees-modify, Agrees-bind, Agrees-given,
  Agrees-beside,
}
use mina_os.HoneyBadger.Dynamic.{World, on_node}
use mina_os.HoneyBadger.Dynamic.Alike.{
  Synchronous, SameState, Alike, Silent, map_err_ok, restart-Alike,
}
use mina_os.HoneyBadger.Dynamic.Alike.Generation.{
  update_key_gen-Alike, update_encryption_schedule-Alike,
}
use mina_os.HoneyBadger.Dynamic.Output.{
  keys, set_pub_keys, complete_key_gen, follow_winner, decide_change,
}
use mina_os.HoneyBadger.Dynamic.Output.AlikeContributions.{SameSteps}
use mina_os.HoneyBadger.Dynamic.Output.AlikeSteps.{SameViews, extend_same}
use mina_os.HoneyBadger.Batch.PublicView.{PublicView}

module _ (d : Deps) (k : KeyGens d) (C : Type 0) (e : Engine d k C)
    (Rel : k.SyncKeyGen → k.SyncKeyGen → Type 0) (sync : Synchronous d k C e Rel)
    (vs : List (PublicView d k C)) where
  open e use {Step}

  abbrev Like : World d k C e → World d k C e → Type 0
  Like = Alike d k C e Rel sync

  abbrev Same : Step → Step → World d k C e → World d k C e → Type 0
  Same = SameSteps d k C e Rel sync vs

  set_pub_keys-Alike :
      (pks pks' : PubKeyMap d) (w w' : World d k C e)
      → pks ≡ pks'
      → Like w w'
      → Like (set_pub_keys d k C e pks w) (set_pub_keys d k C e pks' w')
  unfolding set_pub_keys
  set_pub_keys-Alike pks pks' w w' p h = record {
    era = h.era;
    pub_keys = p;
    votes = h.votes;
    params = h.params;
    key_set = h.key_set;
    key_gen = h.key_gen;
  }

  complete_key_gen-Alike :
      (era : ℕ) (g g' : KeyGenState d k)
      → Rel g.key_gen g'.key_gen
      → Agrees Like
          (λ change change' w w'. (change ≡ change') × Like w w')
          (complete_key_gen d k C e era g)
          (complete_key_gen d k C e era g')
  unfolding complete_key_gen
  complete_key_gen-Alike era g g' r =
      Agrees-bind {Q = λ u u' w w'. Like w w'} _ _ _ _
        (Agrees-modify _ _
          (λ w w' h. set_pub_keys-Alike _ _ w w' (sync.keys g.key_gen g'.key_gen r) h))
        λ u u'.
          Agrees-bind {Q = λ made made' w w'. (made.0 ≡ made'.0) × Like w w'} _ _ _ _
            (Agrees-lift _ _ (λ made made' w w' q q' h. (
              sync.generated g.key_gen g'.key_gen made made' r (map_err_ok _ _ _ q)
                  (map_err_ok _ _ _ q'),
              h,
            )))
            λ made made'. Agrees-given _ _ λ p.
              Agrees-bind
                {Q = λ node node' w w'.
                  ((node.pub_keys ≡ node'.pub_keys)
                    × (k.params node.honey_badger ≡ k.params node'.honey_badger))
                  × Like w w'}
                _ _ _ _ (Agrees-gets _ (λ w w' h. ((h.pub_keys, h.params), h)))
                λ node node'. Agrees-given _ _ λ q.
                  Agrees-bind _ _ _ _
                    (restart-Alike d k C e Rel sync era _ _ _ _ q.1 (
                      k.public_key_set-new_netinfo _ made.1 made.0 (keys node.pub_keys)
                      ∙ p
                      ∙ sym (k.public_key_set-new_netinfo _ made'.1 made'.0 (keys node'.pub_keys))))
                    λ u u'.
                      Agrees-pure _ _ (λ w w' h. (ap (λ pks. complete (node_change pks)) q.0, h))

  -- The step and the change.
  abbrev pub SameDecided :
      Step × ChangeState d → Step × ChangeState d → World d k C e → World d k C e → Type 0
  SameDecided r r' w w' = (r.1 ≡ r'.1) × Same r.0 r'.0 w w'

  follow_winner-Alike :
      (step step' : Step) (era : ℕ) (winner : Option (Change d))
      → Agrees
          (Same step step')
          SameDecided
          (follow_winner d k C e step era winner)
          (follow_winner d k C e step' era winner)
  unfolding follow_winner
  follow_winner-Alike step step' era none = Agrees-pure _ _ (λ w w' h. (refl, h))
  follow_winner-Alike step step' era (some (node_change pks)) =
      Agrees-bind
        {Q = λ more more' w w'.
          SameViews d k C e vs step step' × Silent d k C e Rel sync more more' w w'}
        _ _ _ _ (Agrees-beside _ _ (update_key_gen-Alike d k C e Rel sync era pks))
        λ more more'. Agrees-pure _ _ (λ w w' h.
          (refl, (extend_same d k C e vs step step' more more' h.0 h.1.0.0 h.1.0.1, h.1.1)))
  follow_winner-Alike step step' era (some (encryption_schedule s)) =
      Agrees-bind {Q = λ u u' w w'. Same step step' w w'} _ _ _ _
        (Agrees-beside _ _ (update_encryption_schedule-Alike d k C e Rel sync era s))
        λ u u'. Agrees-pure _ _ (λ w w' h. (refl, h))

  -- What `take_ready_key_gen` takes, and what it leaves.
  take : Option (KeyGenState d k) → Option (KeyGenState d k) × Option (KeyGenState d k)
  take none = (none, none)
  take (some g) = if state_is_ready d k g then (some g, none) else (none, some g)

  take_ready-take :
      (s : DynamicHoneyBadger d k)
      → take_ready_key_gen d k s
        ≡ ((take s.key_gen_state).0, record s { key_gen_state = (take s.key_gen_state).1 })
  unfolding take_ready_key_gen take
  take_ready-take s =
      elim s.key_gen_state
        as (λ g.
          take_ready_key_gen d k (record s { key_gen_state = g })
          ≡ ((take g).0, record s { key_gen_state = (take g).1 })) [
            | none ↦ refl
            | some kgs ↦ elim (Bool-cases (state_is_ready d k kgs)) [
              | inl t ↦ rw t refl
              | inr f ↦ rw f refl
            ]
          ]

  abbrev SameKeyGen : Option (KeyGenState d k) → Option (KeyGenState d k) → Type 0
  SameKeyGen = SameState d k C e Rel sync

  ready_same :
      (g g' : KeyGenState d k)
      → Rel g.key_gen g'.key_gen
      → state_is_ready d k g ≡ state_is_ready d k g'
  unfolding state_is_ready
  ready_same g g' r = rw (
    sync.ready g.key_gen g'.key_gen r,
    sync.keys g.key_gen g'.key_gen r,
    sync.complete g.key_gen g'.key_gen r,
  )

  take_same :
      (g g' : Option (KeyGenState d k))
      → SameKeyGen g g'
      → SameKeyGen (take g).0 (take g').0 × SameKeyGen (take g).1 (take g').1
  unfolding take
  take_same none none h = (tt, tt)
  take_same none (some g') h = absurd h
  take_same (some g) none h = absurd h
  take_same (some g) (some g') h = elim (Bool-cases (state_is_ready d k g)) [
    | inl t ↦ rw (t, sym (ready_same g g' h) ∙ t) (h, tt)
    | inr f ↦ rw (f, sym (ready_same g g' h) ∙ f) (tt, h)
  ]

  take_ready-Alike :
      (step step' : Step)
      → Agrees
          (Same step step')
          (λ g g' w w'. SameKeyGen g g' × Same step step' w w')
          (on_node d k C e (λ s. let (g, s') = take_ready_key_gen d k s in (ok g, s')))
          (on_node d k C e (λ s. let (g, s') = take_ready_key_gen d k s in (ok g, s')))
  unfolding on_node
  take_ready-Alike step step' = record {
    at = λ w w' h.
        let taken = take_same w.node.key_gen_state w'.node.key_gen_state h.1.key_gen in
        rw (take_ready-take w.node, take_ready-take w'.node)
          (
            taken.0,
            (
              h.0,
              record {
                era = h.1.era;
                pub_keys = h.1.pub_keys;
                votes = h.1.votes;
                params = h.1.params;
                key_set = h.1.key_set;
                key_gen = taken.1;
              },
            ),
          );
  }

  decided :
      (step step' : Step) (era : ℕ) (g g' : Option (KeyGenState d k))
      → Agrees
          (λ w w'. SameKeyGen g g' × Same step step' w w')
          SameDecided
          (elim g [
            | some kgs ↦ complete_key_gen d k C e era kgs >>= λ change. pure (step, change)
            | none ↦
                gets (λ w. compute_winner d w.node.vote_counter) >>= follow_winner d k C e step era
          ])
          (elim g' [
            | some kgs ↦ complete_key_gen d k C e era kgs >>= λ change. pure (step', change)
            | none ↦
                gets (λ w. compute_winner d w.node.vote_counter) >>= follow_winner d k C e step' era
          ])
  decided step step' era none none = Agrees-given _ _ λ u.
      Agrees-bind {Q = λ c c' w w'. (c ≡ c') × Same step step' w w'} _ _ _ _
        (Agrees-gets _ (λ w w' h. (compute_winner_same d _ _ h.1.votes, h)))
        λ c c'. Agrees-given _ _ λ p.
          subst
            (λ x.
              Agrees (Same step step') SameDecided (follow_winner d k C e step era c)
                (follow_winner d k C e step' era x))
            p (follow_winner-Alike step step' era c)
  decided step step' era none (some g') = record { at = λ w w' h. absurd h.0 }
  decided step step' era (some g) none = record { at = λ w w' h. absurd h.0 }
  decided step step' era (some g) (some g') = Agrees-given _ _ λ r.
      Agrees-bind
        {Q = λ change change' w w'.
          SameViews d k C e vs step step' × ((change ≡ change') × Like w w')}
        _ _ _ _ (Agrees-beside _ _ (complete_key_gen-Alike era g g' r))
        λ change change'. Agrees-pure _ _ (λ w w' h. (h.1.0, (h.0, h.1.1)))

  pub decide_change-Alike :
      (step step' : Step) (era : ℕ)
      → Agrees
          (Same step step')
          SameDecided
          (decide_change d k C e step era)
          (decide_change d k C e step' era)
  unfolding decide_change
  decide_change-Alike step step' era =
      Agrees-bind _ _ _ _ (take_ready-Alike step step') (decided step step' era)
