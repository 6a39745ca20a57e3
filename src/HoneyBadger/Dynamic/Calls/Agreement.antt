-- ===== src/HoneyBadger/Dynamic/Calls/Agreement.antt =====
-- dynamic_honey_badger.rs: two nodes that get the same batches from Honey Badger, however they are
-- called, put out the same batches.
use mathlib.Core.List.{append-nil, append_assoc}
use mina_os.Base.{◌≡◌, sym, ap, ◌∙◌, subst, List, [], ◌∷◌, ◌++◌, map}
use mina_os.HoneyBadger.Deps.{Deps, ok, err}
use mina_os.HoneyBadger.KeyGen.{KeyGens}
use mina_os.HoneyBadger.Batch.PublicView.{PublicView, view}
use mina_os.HoneyBadger.Engine.{Engine, HbBatch}
use mina_os.HoneyBadger.Exec.{pure, follow}
use mina_os.HoneyBadger.Dynamic.{World}
use mina_os.HoneyBadger.Dynamic.Returns.{Works}
use mina_os.HoneyBadger.Dynamic.Alike.{Synchronous, Alike, Alike-refl}
use mina_os.HoneyBadger.Dynamic.Output.{process_batches}
use mina_os.HoneyBadger.Dynamic.Output.AlikeSteps.{views}
use mina_os.HoneyBadger.Dynamic.Calls.Events.{
  Steady, Event, perform, shown, shown_by, agreed, agreed_by, end_of, process_batches-append,
}
use mina_os.HoneyBadger.Dynamic.Calls.Follows.{Ran, Follows, perform-Follows}

module _ (d : Deps) (k : KeyGens d) (C : Type 0) (e : Engine d k C)
    (Rel : k.SyncKeyGen → k.SyncKeyGen → Type 0) (sync : Synchronous d k C e Rel)
    (works : Works d k C e) (steady : Steady d k C e) where
  open e use {Step}

  abbrev Like : World d k C e → World d k C e → Type 0
  Like = Alike d k C e Rel sync

  abbrev Run : Type 0
  Run = Ran d k C e Rel sync works steady

  abbrev Beside : Step → List (PublicView d k C) → World d k C e → Run → Type 0
  Beside = Follows d k C e Rel sync works steady

  -- One run after another.
  joined :
      (step : Step) (out more : List (PublicView d k C)) (w v : World d k C e)
      (ys : List (HbBatch d k C)) (r : Run)
      → Beside step out w r
      → ((done : Step) (w' : World d k C e)
          → Like w w'
          → Beside done more v (process_batches d k C e done ys w'))
      → Beside step (out ++ more) v (follow r.0 (λ s. process_batches d k C e s ys) r.1)
  unfolding follow
  joined step out more w v ys (err x, w') h next = absurd h
  joined step out more w v ys (ok done, w') h next =
      shifted (process_batches d k C e done ys w') (next done w' h.1)
    where
      shifted : (r : Run) → Beside done more v r → Beside step (out ++ more) v r
      shifted (err x, u) q = q
      shifted (ok last, u) q =
          (sym (append_assoc (views d k C e step) out more) ∙ ap (λ vs. vs ++ more) h.0 ∙ q.0, q.1)

  pub shown_by-Follows :
      (evs : List (Event d k C e)) (step : Step) (w w' : World d k C e)
      → Like w w'
      → Beside step
          (shown_by d k C e evs w)
          (end_of d k C e evs w)
          (process_batches d k C e step (agreed_by d k C e evs w) w')
  unfolding process_batches pure
  shown_by-Follows [] step w w' h = (append-nil _, h)
  shown_by-Follows (ev ∷ evs) step w w' h =
      rw
        (process_batches-append d k C e step (agreed d k C e ev w)
          (agreed_by d k C e evs (perform d k C e ev w).1) w')
        (joined step (shown d k C e (perform d k C e ev w).0) _ (perform d k C e ev w).1
          (end_of d k C e evs (perform d k C e ev w).1) _ _
          (perform-Follows d k C e Rel sync works steady ev step w w' h)
          (λ done u q. shown_by-Follows evs done (perform d k C e ev w).1 u q))

  -- Both outputs are those of one run.
  same_run :
      (out out' : List (PublicView d k C)) (w v : World d k C e) (r : Run)
      → Beside e.default out w r
      → Beside e.default out' v r
      → out ≡ out'
  same_run out out' w v (ok done, u) h h' =
      let none_yet : views d k C e e.default ≡ [] = ap (map (view d k C)) e.output-default in
      let p = rw none_yet at h.0 in let q = rw none_yet at h'.0 in p ∙ sym q
  same_run out out' w v (err x, u) h h' = absurd h

  -- Where nothing that is called fails, Honey Badger keeps its network and parameters, and key
  -- generations that have handled the same messages agree on what is public of them: if two nodes
  -- begin with the same public state (era, public keys, committed votes, parameters, public key set
  -- and key generation), and go through any two histories of inputs and messages in which Honey
  -- Badger gives them, from first to last, the same batches, then they put out batches with the same
  -- public views in the same order, however the batches are spread over the calls.
  pub shown_by-agreed_by :
      (evs evs' : List (Event d k C e)) (w w' : World d k C e)
      → Like w w'
      → agreed_by d k C e evs w ≡ agreed_by d k C e evs' w'
      → shown_by d k C e evs w ≡ shown_by d k C e evs' w'
  shown_by-agreed_by evs evs' w w' h p =
      same_run _ _ (end_of d k C e evs w) (end_of d k C e evs' w')
        (process_batches d k C e e.default (agreed_by d k C e evs' w') w')
        (subst
          (λ bs.
            Beside e.default (shown_by d k C e evs w) (end_of d k C e evs w)
              (process_batches d k C e e.default bs w'))
          p (shown_by-Follows evs e.default w w' h))
        (shown_by-Follows evs' e.default w' w' (Alike-refl d k C e Rel sync w'))
