-- ===== src/HoneyBadger/Dynamic/Output/AlikeSteps.antt =====
-- dynamic_honey_badger.rs: the public views of the batches of two steps.
use mathlib.Core.List.{append-nil, map-append, append_assoc}
use mina_os.Base.{◌≡◌, sym, ap, ap₂, ◌∙◌, List, [], ◌∷◌, ◌++◌, map}
use mina_os.HoneyBadger.Deps.{Deps}
use mina_os.HoneyBadger.KeyGen.{KeyGens}
use mina_os.HoneyBadger.Batch.{Batch}
use mina_os.HoneyBadger.Batch.PublicView.{PublicView, view}
use mina_os.HoneyBadger.Engine.{Engine}

module _ (d : Deps) (k : KeyGens d) (C : Type 0) (e : Engine d k C) where
  open e use {Step}

  -- What all nodes see of the batches of a step.
  abbrev pub views : Step → List (PublicView d k C)
  views step = map (view d k C) (e.output step)

  -- The second step has the views `vs`, and then those of the first.
  abbrev pub SameViews : List (PublicView d k C) → Step → Step → Type 0
  SameViews vs step step' = vs ++ views step ≡ views step'

  viewed :
      (vs : List (PublicView d k C)) (step step' next next' : Step)
      → views next ≡ views step
      → views next' ≡ views step'
      → SameViews vs step step'
      → SameViews vs next next'
  viewed vs step step' next next' p p' h = ap (λ us. vs ++ us) p ∙ h ∙ sym p'

  views-extend : (step more : Step) → views (e.extend step more) ≡ views step ++ views more
  views-extend step more =
      ap (map (view d k C)) (e.output-extend step more) ∙ map-append (view d k C) (e.output step) _

  quiet : (step more : Step) → e.output more ≡ [] → views (e.extend step more) ≡ views step
  quiet step more q =
      views-extend step more ∙ ap (λ bs. views step ++ map (view d k C) bs) q ∙ append-nil _

  pub extend_same :
      (vs : List (PublicView d k C)) (step step' more more' : Step)
      → SameViews vs step step'
      → e.output more ≡ []
      → e.output more' ≡ []
      → SameViews vs (e.extend step more) (e.extend step' more')
  extend_same vs step step' more more' h q q' =
      viewed vs step step' _ _ (quiet step more q) (quiet step' more' q') h

  pub faulted :
      (vs : List (PublicView d k C)) (step step' : Step) (id : d.NodeId) (f : _)
      → SameViews vs step step'
      → SameViews vs (e.append_fault step id f) (e.append_fault step' id f)
  faulted vs step step' id f =
      viewed vs step step' _ _ (ap (map (view d k C)) (e.output-append_fault step id f))
        (ap (map (view d k C)) (e.output-append_fault step' id f))

  pub faults_same :
      (vs : List (PublicView d k C)) (step step' : Step) (faults faults' : _)
      → SameViews vs step step'
      → SameViews vs (e.extend_faults step faults) (e.extend_faults step' faults')
  faults_same vs step step' faults faults' =
      viewed vs step step' _ _ (ap (map (view d k C)) (e.output-extend_faults step faults))
        (ap (map (view d k C)) (e.output-extend_faults step' faults'))

  views-push :
      (step : Step) (b : Batch d k C)
      → views (e.push_output step b) ≡ views step ++ (view d k C b ∷ [])
  views-push step b =
      ap (map (view d k C)) (e.output-push_output step b)
      ∙ map-append (view d k C) (e.output step) (b ∷ [])

  pub pushed :
      (vs : List (PublicView d k C)) (step step' : Step) (b b' : Batch d k C)
      → SameViews vs step step'
      → view d k C b ≡ view d k C b'
      → SameViews vs (e.push_output step b) (e.push_output step' b')
  pushed vs step step' b b' h v =
      ap (λ us. vs ++ us) (views-push step b)
      ∙ sym (append_assoc vs (views step) _)
      ∙ ap₂ (λ us u. us ++ (u ∷ [])) h v
      ∙ sym (views-push step' b')
