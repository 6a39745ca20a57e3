-- ===== src/HoneyBadger/Dynamic/Output/Alike.antt =====
-- dynamic_honey_badger.rs: two nodes that share what is public make the same batches of Honey Badger's
-- output.
use mina_os.Base.{ℕ, ◌≡◌, sym, ap, ◌∙◌, subst, [], map}
use mina_os.HoneyBadger.Deps.{Deps, hb_fault}
use mina_os.HoneyBadger.KeyGen.{KeyGens, honey_badger}
use mina_os.HoneyBadger.Batch.PublicView.{view}
use mina_os.HoneyBadger.Engine.{Engine}
use mina_os.HoneyBadger.Exec.Agree.{
  Agrees, Returned, Returned-Pair, Agrees-gets, Agrees-bind, Agrees-weaken,
}
use mina_os.HoneyBadger.Dynamic.{World}
use mina_os.HoneyBadger.Dynamic.Returns.{Works}
use mina_os.HoneyBadger.Dynamic.Output.Total.{process_output-Returns}
use mina_os.HoneyBadger.Dynamic.Alike.{Synchronous, Alike}
use mina_os.HoneyBadger.Dynamic.Output.{process_batches, process_output}
use mina_os.HoneyBadger.Dynamic.Output.AlikeContributions.{SameSteps}
use mina_os.HoneyBadger.Dynamic.Output.AlikeSteps.{views}
use mina_os.HoneyBadger.Dynamic.Output.AlikeBatches.{process_batches-Alike}

module _ (d : Deps) (k : KeyGens d) (C : Type 0) (e : Engine d k C)
    (Rel : k.SyncKeyGen → k.SyncKeyGen → Type 0) (sync : Synchronous d k C e Rel) where
  open e use {Step, HbStep}

  abbrev Like : World d k C e → World d k C e → Type 0
  Like = Alike d k C e Rel sync

  abbrev Same : Step → Step → World d k C e → World d k C e → Type 0
  Same = SameSteps d k C e Rel sync []

  -- The step that `process_output` begins with.
  abbrev pub start : HbStep → ℕ → Step
  start hb_step era = e.extend_with e.default hb_step hb_fault (honey_badger era)

  pub views-start : (hb_step : HbStep) (era : ℕ) → views d k C e (start hb_step era) ≡ []
  views-start hb_step era =
      ap (map (view d k C))
        (e.output-extend_with e.default hb_step hb_fault (honey_badger era) ∙ e.output-default)

  process_output-Alike :
      (hb_step hb_step' : HbStep)
      → e.hb_output hb_step ≡ e.hb_output hb_step'
      → Agrees Like Same (process_output d k C e hb_step) (process_output d k C e hb_step')
  unfolding process_output
  process_output-Alike hb_step hb_step' out =
      Agrees-bind {Q = λ n n' w w'. Like w w'} _ _ _ _ (Agrees-gets _ (λ w w' h. h)) λ n n'.
        Agrees-weaken _ _
          (subst
            (λ bs.
              Agrees (Same (start hb_step n) (start hb_step' n')) Same
                (process_batches d k C e (start hb_step n) (e.hb_output hb_step))
                (process_batches d k C e (start hb_step' n') bs))
            out
            (process_batches-Alike d k C e Rel sync [] (start hb_step n) (start hb_step' n')
              (e.hb_output hb_step)))
          (λ w w' h. (views-start hb_step n ∙ sym (views-start hb_step' n'), h))

  -- Where nothing that is called fails, and key generations that have handled the same messages agree
  -- on what is public of them, two nodes that share their public state (era, public keys, committed
  -- votes, parameters, public key set, and key generation) and are given the same batches of Honey
  -- Badger both return, put out batches with the same public views, and share their public state
  -- again; their names, secret keys, random numbers, pending votes and buffers may differ.
  pub process_output-SameSteps :
      (w w' : World d k C e) (hb_step hb_step' : HbStep)
      → Works d k C e
      → e.hb_output hb_step ≡ e.hb_output hb_step'
      → Like w w'
      → Returned Same (process_output d k C e hb_step w) (process_output d k C e hb_step' w')
  process_output-SameSteps w w' hb_step hb_step' works out h =
      Returned-Pair Same (process_output d k C e hb_step w) (process_output d k C e hb_step' w')
        ((process_output-Alike hb_step hb_step' out).at w w' h)
        ((process_output-Returns d k C e works hb_step).at w)
        ((process_output-Returns d k C e works hb_step').at w')
