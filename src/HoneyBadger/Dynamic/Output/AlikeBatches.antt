-- ===== src/HoneyBadger/Dynamic/Output/AlikeBatches.antt =====
-- dynamic_honey_badger.rs: two nodes that share what is public go through the same batches of Honey
-- Badger alike.
use mina_os.Base.{ℕ, ◌+◌, ◌≡◌, refl, sym, ap, ◌∙◌, subst, List, [], ◌∷◌}
use mina_os.Base.Word.{u64}
use mina_os.Base.BTreeMap.{BTreeMap}
use mina_os.HoneyBadger.Deps.{Deps, ChangeState}
use mina_os.HoneyBadger.KeyGen.{KeyGens, DynamicHoneyBadger}
use mina_os.HoneyBadger.Batch.{Batch}
use mina_os.HoneyBadger.Batch.PublicView.{PublicView, view}
use mina_os.HoneyBadger.Engine.{Engine, HbBatch}
use mina_os.HoneyBadger.Exec.Agree.{Agrees, Agrees-pure, Agrees-gets, Agrees-bind, Agrees-given}
use mina_os.HoneyBadger.Dynamic.{World}
use mina_os.HoneyBadger.Dynamic.Alike.{Synchronous, Alike}
use mina_os.HoneyBadger.Dynamic.Output.{decide_change, process_batch, process_batches}
use mina_os.HoneyBadger.Dynamic.Output.AlikeContributions.{SameSteps, commit_contributions-Alike}
use mina_os.HoneyBadger.Dynamic.Output.AlikeSteps.{pushed}
use mina_os.HoneyBadger.Dynamic.Output.AlikeChange.{SameDecided, decide_change-Alike}

module _ (d : Deps) (k : KeyGens d) (C : Type 0) (e : Engine d k C)
    (Rel : k.SyncKeyGen → k.SyncKeyGen → Type 0) (sync : Synchronous d k C e Rel)
    (vs : List (PublicView d k C)) where
  open e use {Step, HbStep}

  abbrev Like : World d k C e → World d k C e → Type 0
  Like = Alike d k C e Rel sync

  abbrev Same : Step → Step → World d k C e → World d k C e → Type 0
  Same = SameSteps d k C e Rel sync vs

  -- The batch that ends `process_batch`, by what it is made of.
  abbrev made :
      HbBatch d k C → ℕ → BTreeMap d.NodeId C → ChangeState d → DynamicHoneyBadger d k → Batch d k C
  made hb era contributions decision node = record {
    epoch = u64 (hb.epoch + era);
    era = era;
    contributions = contributions;
    change = decision;
    pub_keys = node.pub_keys;
    netinfo = k.netinfo node.honey_badger;
    params = k.params node.honey_badger;
  }

  view_same :
      (hb : HbBatch d k C) (era era' : ℕ) (cs cs' : BTreeMap d.NodeId C)
      (decision decision' : ChangeState d) (w w' : World d k C e)
      → era ≡ era'
      → cs ≡ cs'
      → decision ≡ decision'
      → Like w w'
      → view d k C (made hb era cs decision w.node)
        ≡ view d k C (made hb era' cs' decision' w'.node)
  unfolding view
  view_same hb era era' cs cs' decision decision' w w' p q r h = λ i. record {
    epoch = u64 (hb.epoch + p i);
    era = p i;
    contributions = q i;
    change = r i;
    pub_keys = h.pub_keys i;
    public_key_set = h.key_set i;
    params = h.params i;
  }

  process_batch-Alike :
      (step step' : Step) (hb : HbBatch d k C)
      → Agrees
          (Same step step')
          Same
          (process_batch d k C e step hb)
          (process_batch d k C e step' hb)
  unfolding process_batch
  process_batch-Alike step step' hb =
      Agrees-bind {Q = λ n n' w w'. (n ≡ n') × Same step step' w w'} _ _ _ _
        (Agrees-gets _ (λ w w' h. (h.1.era, h)))
        λ n n'. Agrees-given _ _ λ p.
          Agrees-bind _ _ _ _
            (commit_contributions-Alike d k C e Rel sync vs step step' hb.contributions [])
            λ c c'. Agrees-given _ _ λ q.
              Agrees-bind _ _ _ _
                (subst
                  (λ x.
                    Agrees (Same c.0 c'.0) (SameDecided d k C e Rel sync vs)
                      (decide_change d k C e c.0 (u64 (u64 (hb.epoch + n) + 1)))
                      (decide_change d k C e c'.0 (u64 (u64 (hb.epoch + x) + 1))))
                  p (decide_change-Alike d k C e Rel sync vs c.0 c'.0 _))
                λ r r'.
                  Agrees-bind
                    {Q = λ node node' w w'.
                      ((node ≡ w.node) × (node' ≡ w'.node))
                      × SameDecided d k C e Rel sync vs r r' w w'}
                    _ _ _ _ (Agrees-gets _ (λ w w' h. ((refl, refl), h)))
                    λ node node'. Agrees-pure _ _ (λ w w' h. (
                      pushed d k C e vs r.0 r'.0 (made hb n c.1 r.1 node)
                          (made hb n' c'.1 r'.1 node') h.1.1.0
                          (ap (λ s. view d k C (made hb n c.1 r.1 s)) h.0.0
                            ∙ view_same hb n n' c.1 c'.1 r.1 r'.1 w w' p q h.1.0 h.1.1.1
                            ∙ sym (ap (λ s. view d k C (made hb n' c'.1 r'.1 s)) h.0.1)),
                      h.1.1.1,
                    ))

  pub process_batches-Alike :
      (step step' : Step) (bs : List (HbBatch d k C))
      → Agrees
          (Same step step')
          Same
          (process_batches d k C e step bs)
          (process_batches d k C e step' bs)
  unfolding process_batches
  process_batches-Alike step step' [] = Agrees-pure _ _ (λ w w' h. h)
  process_batches-Alike step step' (b ∷ bs) =
      Agrees-bind _ _ _ _ (process_batch-Alike step step' b)
        (λ next next'. process_batches-Alike next next' bs)
