-- ===== src/HoneyBadger/Dynamic/Joining/Agreement.antt =====
-- dynamic_honey_badger.rs and batch.rs: a node that joins by the plan of a batch agrees with the
-- node that has put out the batch.
use mina_os.Base.{
  ℕ, ◌+◌, ◌≡◌, ◌≢◌, ◌∙◌, refl, sym, ap, Option, none, some, List, [], ◌∷◌, ◌++◌, arith, if_pos,
  if_neg,
}
use mina_os.Base.Word.{u64}
use mina_os.HoneyBadger.Deps.{
  Deps, Result, ok, err, PubKeyMap, ChangeState, no_change, in_progress, complete, node_change,
  encryption_schedule, change_eq, change_state_eq,
}
use mina_os.HoneyBadger.Votes.{VoteCounter}
use mina_os.HoneyBadger.KeyGen.{KeyGens, Params, DynamicHoneyBadger, restart_honey_badger}
use mina_os.HoneyBadger.Batch.{Batch, JoinPlan, join_plan}
use mina_os.HoneyBadger.Engine.{Engine, HbBatch}
use mina_os.HoneyBadger.Exec.Rules.{Post, Ensures, Ensures-pure, Ensures-modify}
use mina_os.HoneyBadger.Dynamic.{World, restart}
use mina_os.HoneyBadger.Dynamic.Quiet.{Core, core, update_key_gen-Quiet}
use mina_os.HoneyBadger.Dynamic.Output.{keys, process_batch}
use mina_os.HoneyBadger.Dynamic.Output.Made.{process_batch-Made, Made, Moved, Restarted}
use mina_os.HoneyBadger.Dynamic.Joining.{
  new, ids_eq, completed, new_pub_keys, start_key_gen, Joined, refused, panicked, joined, launch,
  new_joining,
}

module _ (d : Deps) (k : KeyGens d) (C : Type 0) (e : Engine d k C) where
  open e use {Rng}

  -- The node `j`, which has the id and the secret key that it was given, agrees with the node `s`.
  pub record Agreed (s : DynamicHoneyBadger d k) (id : d.NodeId) (sk : d.SecretKey)
      (j : Core d k C e) : Type 0 where
    pub secret_key : j.secret_key ≡ sk
    pub era : j.era ≡ s.era
    pub pub_keys : j.pub_keys ≡ s.pub_keys
    pub counter_key : j.vote_counter.secret_key ≡ sk
    pub counter_id : j.vote_counter.our_id ≡ id
    pub counter_era : j.vote_counter.era ≡ s.vote_counter.era
    pub counter_keys : j.vote_counter.pub_keys ≡ s.vote_counter.pub_keys
    pub params : k.params j.honey_badger ≡ k.params s.honey_badger
    pub our_id : k.our_id (k.netinfo j.honey_badger) ≡ id
    pub all_ids : k.all_ids (k.netinfo j.honey_badger) ≡ keys s.pub_keys
    pub public_key_set :
        k.public_key_set (k.netinfo j.honey_badger) ≡ k.public_key_set (k.netinfo s.honey_badger)

  -- The new node is neither refused nor does it panic; its first step may fail, or not.
  abbrev pub Agrees : DynamicHoneyBadger d k → d.NodeId → d.SecretKey → Joined d k C e → Type 0
  Agrees s id sk (refused error) = ⊥
  Agrees s id sk panicked = ⊥
  Agrees s id sk (joined r w) = Agreed s id sk (core d k C e w.node)

  module _ (s : DynamicHoneyBadger d k) (id : d.NodeId) (sk : d.SecretKey)
      (counter_era : s.vote_counter.era ≡ s.era)
      (counter_keys : s.vote_counter.pub_keys ≡ s.pub_keys) where
    abbrev AgreedWorld : World d k C e → Type 0
    AgreedWorld w = Agreed s id sk (core d k C e w.node)

    restart-Agreed :
        (next : ℕ) (params : Params d k.Strategy) (netinfo : k.NetworkInfo)
        → next ≡ s.era
        → Ensures
            (λ w.
              AgreedWorld w
              × (params ≡ k.params w.node.honey_badger)
              × (netinfo ≡ k.netinfo w.node.honey_badger))
            (λ u w. AgreedWorld w)
            AgreedWorld
            (restart d k C e next params netinfo)
    unfolding restart restart_honey_badger mina_os.HoneyBadger.Votes.new
    restart-Agreed next params netinfo q = Ensures-modify _ λ w h.
        let same_params = k.params-build netinfo next params k.first_epoch in
        let same_netinfo = k.netinfo-build netinfo next params k.first_epoch ∙ h.2 in
        record {
          secret_key = h.0.secret_key;
          era = q;
          pub_keys = h.0.pub_keys;
          counter_key = h.0.secret_key;
          counter_id = h.0.our_id;
          counter_era = q ∙ sym counter_era;
          counter_keys = h.0.pub_keys ∙ sym counter_keys;
          params = same_params ∙ h.1 ∙ h.0.params;
          our_id = ap k.our_id same_netinfo ∙ h.0.our_id;
          all_ids = ap k.all_ids same_netinfo ∙ h.0.all_ids;
          public_key_set = ap k.public_key_set same_netinfo ∙ h.0.public_key_set;
        }

    start_key_gen-Agreed :
        (next : ℕ) (pks : Option (PubKeyMap d))
        → next ≡ s.era
        → Ensures AgreedWorld
            (λ more w. (e.output more ≡ []) × AgreedWorld w)
            AgreedWorld
            (start_key_gen d k C e next pks)
    unfolding start_key_gen
    start_key_gen-Agreed next none q = Ensures-pure _ (λ w h. (e.output-default, h))
    start_key_gen-Agreed next (some pks) q =
        update_key_gen-Quiet d k C e (λ c. Agreed s id sk c) AgreedWorld (λ w h. h) AgreedWorld next
          pks (λ params netinfo. restart-Agreed next params netinfo q)

    left :
        (r : Result d e.Step) (w : World d k C e)
        → Post (λ more w. (e.output more ≡ []) × AgreedWorld w) AgreedWorld r w
        → AgreedWorld w
    left (ok more) w h = h.1
    left (err x) w h = h

    module _ (plan : JoinPlan d k) (era : plan.era ≡ s.era) (pub_keys : plan.pub_keys ≡ s.pub_keys)
        (params : plan.params ≡ k.params s.honey_badger)
        (key_set : plan.pub_key_set ≡ k.public_key_set (k.netinfo s.honey_badger)) where
      launch-Agrees :
          (new_keys : Option (PubKeyMap d)) (rng : Rng)
          → let netinfo = k.new_netinfo id none plan.pub_key_set (keys plan.pub_keys) in
            Agrees s id sk (
              launch d k C e plan.era new_keys
                (new d k C e sk plan.pub_keys netinfo plan.params plan.era 0)
                rng)
      unfolding launch new mina_os.HoneyBadger.Votes.new
      launch-Agrees new_keys rng =
          let netinfo = k.new_netinfo id none plan.pub_key_set (keys plan.pub_keys) in
          let ids = k.all_ids-new_netinfo id none plan.pub_key_set (keys plan.pub_keys) in
          rw (if_pos (ids_eq d k C e (k.all_ids netinfo) (keys plan.pub_keys)) ids, new)
            (let world : World d k C e = record { node = _; rng = rng } in
              let agreed : AgreedWorld world = record {
                secret_key = refl;
                era = era;
                pub_keys = pub_keys;
                counter_key = refl;
                counter_id = k.our_id-new_netinfo id none plan.pub_key_set (keys plan.pub_keys);
                counter_era = era ∙ sym counter_era;
                counter_keys = pub_keys ∙ sym counter_keys;
                params = k.params-build netinfo plan.era plan.params 0 ∙ params;
                our_id =
                    ap k.our_id (k.netinfo-build netinfo plan.era plan.params 0)
                    ∙ k.our_id-new_netinfo id none plan.pub_key_set (keys plan.pub_keys);
                all_ids =
                    ap k.all_ids (k.netinfo-build netinfo plan.era plan.params 0)
                    ∙ ids
                    ∙ ap keys pub_keys;
                public_key_set =
                    ap k.public_key_set (k.netinfo-build netinfo plan.era plan.params 0)
                    ∙ k.public_key_set-new_netinfo id none plan.pub_key_set (keys plan.pub_keys)
                    ∙ key_set;
              } in
              left _ _ ((start_key_gen-Agreed plan.era new_keys era).at world agreed))

  module _ (o : List (Batch d k C)) (era : ℕ) (hb : HbBatch d k C) (step : e.Step)
      (w : World d k C e) where
    Moved-Restarted :
        (change : ChangeState d) (next : ℕ)
        → change ≢ no_change
        → Moved d k C e o era change next w
        → Restarted d k C e o era next w
    Moved-Restarted no_change next n m = absurd (n refl)
    Moved-Restarted (in_progress (node_change pks)) next n m = m
    Moved-Restarted (in_progress (encryption_schedule s)) next n m = elim m [ ]
    Moved-Restarted (complete (node_change pks)) next n m = m.0
    Moved-Restarted (complete (encryption_schedule s)) next n m = m.0

    new_pub_keys_fit :
        (change : ChangeState d) (next : ℕ) (plan : JoinPlan d k)
        → plan.pub_keys ≡ w.node.pub_keys
        → plan.params ≡ k.params w.node.honey_badger
        → Moved d k C e o era change next w
        → (new_keys : Option (PubKeyMap d)) × (new_pub_keys d k C e change plan ≡ ok new_keys)
    unfolding new_pub_keys completed
    new_pub_keys_fit no_change next plan p q m = (none, refl)
    new_pub_keys_fit (in_progress (node_change pks)) next plan p q m = (some pks, refl)
    new_pub_keys_fit (in_progress (encryption_schedule s)) next plan p q m = (none, refl)
    new_pub_keys_fit (complete (node_change pks)) next plan p q m =
        let same : node_change pks ≡ node_change plan.pub_keys = ap node_change (m.1 ∙ sym p) in
        (none, rw (if_pos (change_eq d (node_change pks) (node_change plan.pub_keys)) same) refl)
    new_pub_keys_fit (complete (encryption_schedule s)) next plan p q m =
        let same : s ≡ plan.params.encryption_schedule =
          sym (ap (λ (p : Params d k.Strategy). p.encryption_schedule) q ∙ m.1) in
        (none, rw (if_pos (d.schedule_eq s plan.params.encryption_schedule) same) refl)

    -- What a plan takes from the batch it is made of.
    join_plan-fields :
        (b : Batch d k C) (plan : JoinPlan d k)
        → join_plan d k C b ≡ some plan
        → (b.change ≢ no_change)
          × (plan.era ≡ u64 (b.epoch + 1))
          × (plan.change ≡ b.change)
          × (plan.pub_keys ≡ b.pub_keys)
          × (plan.pub_key_set ≡ k.public_key_set b.netinfo)
          × (plan.params ≡ b.params)
    unfolding join_plan
    join_plan-fields b plan q = elim (change_state_eq d b.change no_change) [
      | yes p ↦
          let q' = rw (if_pos (change_state_eq d b.change no_change) p, join_plan) at q in
          ground arith
      | no n ↦
          let q' = rw (if_neg (change_state_eq d b.change no_change) n, join_plan) at q in
          ground (arith, n)
    ]

    Made-Agrees :
        (m : Made d k C e o era hb step w) (plan : JoinPlan d k) (id : d.NodeId) (sk : d.SecretKey)
        (rng : Rng)
        → join_plan d k C m.batch ≡ some plan
        → Agrees w.node id sk (new_joining d k C e id sk plan rng)
    unfolding new_joining
    Made-Agrees m plan id sk rng q =
        let f = join_plan-fields m.batch plan q in
        let restarted = Moved-Restarted m.batch.change _ f.0 m.moved in
        let same_keys = f.3 ∙ m.pub_keys in
        let same_params = f.5 ∙ m.params in
        let fit = new_pub_keys_fit m.batch.change _ plan same_keys same_params m.moved in
        let fit' : new_pub_keys d k C e plan.change plan ≡ ok fit.0 =
          ap (λ c. new_pub_keys d k C e c plan) f.2 ∙ fit.1 in
        rw (fit', new_joining)
          (launch-Agrees w.node id sk (restarted.1 ∙ sym restarted.0) restarted.2 plan
            (f.1 ∙ sym restarted.0) same_keys same_params (f.4 ∙ ap k.public_key_set m.netinfo)
            fit.0 rng)

  last_eq {ℓ} : {A : Type ℓ} (xs : List A) (a b : A) → xs ++ (a ∷ []) ≡ xs ++ (b ∷ []) → a ≡ b
  last_eq [] a b q = cc
  last_eq (x ∷ xs) a b q = last_eq xs a b cc

  -- If a call of `process_batch` returns, and its batch has a join plan, then a node that joins by
  -- the plan is neither refused nor does it panic, and, whether its first step fails or not, it
  -- agrees with the node that has put out the batch: in the era, the public keys, the parameters and
  -- the public key set, and in the era and the keys of the vote counter.  It has the id and the
  -- secret key that it was given, and knows the nodes of those public keys.
  pub new_joining-Agrees :
      (step step' : e.Step) (hb : HbBatch d k C) (w w' : World d k C e) (b : Batch d k C)
      (plan : JoinPlan d k) (id : d.NodeId) (sk : d.SecretKey) (rng : Rng)
      → process_batch d k C e step hb w ≡ (ok step', w')
      → e.output step' ≡ e.output step ++ (b ∷ [])
      → join_plan d k C b ≡ some plan
      → Agrees w'.node id sk (new_joining d k C e id sk plan rng)
  new_joining-Agrees step step' hb w w' b plan id sk rng ran out planned =
      let made : Made d k C e (e.output step) w.node.era hb step' w' =
        rw ran at (process_batch-Made d k C e (e.output step) step hb w refl) in
      let same = last_eq (e.output step) made.batch b (sym made.put_out ∙ out) in
      Made-Agrees (e.output step) w.node.era hb step' w' made plan id sk rng
        (ap (join_plan d k C) same ∙ planned)
