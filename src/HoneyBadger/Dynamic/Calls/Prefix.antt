-- ===== src/HoneyBadger/Dynamic/Calls/Prefix.antt =====
-- dynamic_honey_badger.rs: a node that has got more batches from Honey Badger than another one has put
-- out what the other has, and more.
use mathlib.Core.List.{append-nil}
use mina_os.Base.{◌≡◌, sym, ap, ◌∙◌, List, [], ◌++◌, map}
use mina_os.HoneyBadger.Deps.{Deps, ok, err}
use mina_os.HoneyBadger.KeyGen.{KeyGens}
use mina_os.HoneyBadger.Batch.PublicView.{PublicView, view}
use mina_os.HoneyBadger.Engine.{Engine, HbBatch}
use mina_os.HoneyBadger.Exec.{follow}
use mina_os.HoneyBadger.Exec.Agree.{Pair}
use mina_os.HoneyBadger.Exec.Returns.{IsOk}
use mina_os.HoneyBadger.Dynamic.{World}
use mina_os.HoneyBadger.Dynamic.Returns.{Works}
use mina_os.HoneyBadger.Dynamic.Alike.{Synchronous, Alike, Alike-refl}
use mina_os.HoneyBadger.Dynamic.Output.{process_batches}
use mina_os.HoneyBadger.Dynamic.Output.Total.{process_batches-Returns}
use mina_os.HoneyBadger.Dynamic.Output.AlikeSteps.{views}
use mina_os.HoneyBadger.Dynamic.Output.AlikeContributions.{SameSteps}
use mina_os.HoneyBadger.Dynamic.Output.AlikeBatches.{process_batches-Alike}
use mina_os.HoneyBadger.Dynamic.Calls.Events.{
  process_batches-append, Steady, Event, shown_by, agreed_by, end_of,
}
use mina_os.HoneyBadger.Dynamic.Calls.Follows.{Ran, Follows}
use mina_os.HoneyBadger.Dynamic.Calls.Agreement.{shown_by-Follows}

module _ (d : Deps) (k : KeyGens d) (C : Type 0) (e : Engine d k C)
    (Rel : k.SyncKeyGen → k.SyncKeyGen → Type 0) (sync : Synchronous d k C e Rel)
    (works : Works d k C e) (steady : Steady d k C e) where
  open e use {Step}

  abbrev Views : Type 0
  Views = List (PublicView d k C)

  abbrev Run : Type 0
  Run = Ran d k C e Rel sync works steady

  abbrev Beside : Step → Views → World d k C e → Run → Type 0
  Beside = Follows d k C e Rel sync works steady

  default_views : views d k C e e.default ≡ []
  default_views = ap (map (view d k C)) e.output-default

  -- A run that goes on from `done`, beside one from the start.
  continued :
      (out out' : Views) (v : World d k C e) (done : Step) (r r' : Run)
      → out ≡ views d k C e done
      → Beside e.default out' v r'
      → Pair (SameSteps d k C e Rel sync (views d k C e done)) r r'
      → IsOk r.0
      → (more : Views) × (out' ≡ out ++ more)
  continued out out' v done (ok a, u) (ok a', u') p h q i = (
    views d k C e a,
    ap (λ vs. vs ++ out') (sym default_views)
        ∙ h.0
        ∙ sym q.0
        ∙ ap (λ vs. vs ++ views d k C e a) (sym p),
  )
  continued out out' v done (ok a, u) (err x, u') p h q i = absurd h
  continued out out' v done (err x, u) r' p h q i = absurd i

  prefixed :
      (out out' : Views) (w v : World d k C e) (rest : List (HbBatch d k C)) (r : Run)
      → Beside e.default out w r
      → Beside e.default out' v (follow r.0 (λ s. process_batches d k C e s rest) r.1)
      → (more : Views) × (out' ≡ out ++ more)
  unfolding follow
  prefixed out out' w v rest (err x, u) h h' = absurd h
  prefixed out out' w v rest (ok done, u) h h' =
      continued out out' v done (process_batches d k C e e.default rest u)
        (process_batches d k C e done rest u) (ap (λ vs. vs ++ out) (sym default_views) ∙ h.0) h'
        ((process_batches-Alike d k C e Rel sync (views d k C e done) e.default done rest).at u u (
          ap (λ vs. views d k C e done ++ vs) default_views ∙ append-nil _,
          Alike-refl d k C e Rel sync u,
        ))
        ((process_batches-Returns d k C e works e.default rest).at u)

  -- Where nothing that is called fails, Honey Badger keeps its network and parameters, and key
  -- generations that have handled the same messages agree on what is public of them: if two nodes
  -- begin with the same public state (era, public keys, committed votes, parameters, public key set
  -- and key generation), and go through any two histories of inputs and messages, and the batches that
  -- Honey Badger gives the first are the first ones of those that it gives the second, then the public
  -- views that the first puts out are the first ones of those that the second puts out.
  pub shown_by_prefix :
      (evs evs' : List (Event d k C e)) (w w' : World d k C e) (rest : List (HbBatch d k C))
      → Alike d k C e Rel sync w w'
      → agreed_by d k C e evs' w' ≡ agreed_by d k C e evs w ++ rest
      → (more : Views) × (shown_by d k C e evs' w' ≡ shown_by d k C e evs w ++ more)
  shown_by_prefix evs evs' w w' rest h p =
      prefixed (shown_by d k C e evs w) (shown_by d k C e evs' w') (end_of d k C e evs w)
        (end_of d k C e evs' w') rest
        (process_batches d k C e e.default (agreed_by d k C e evs w) w')
        (shown_by-Follows d k C e Rel sync works steady evs e.default w w' h)
        (rw (p, process_batches-append d k C e e.default (agreed_by d k C e evs w) rest w') at
          (shown_by-Follows d k C e Rel sync works steady evs' e.default w' w'
            (Alike-refl d k C e Rel sync w')))
