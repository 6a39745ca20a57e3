-- ===== src/HoneyBadger/Dynamic/Output/Made.antt =====
-- dynamic_honey_badger.rs: the batch that `process_output` makes of one of Honey Badger's.
use mina_os.Base.{ℕ, ◌+◌, ◌≡◌, ◌∙◌, refl, ap, Option, none, some, List, [], ◌∷◌, ◌++◌, arith}
use mina_os.Base.Word.{u64}
use mina_os.HoneyBadger.Deps.{
  Deps, Change, ChangeState, no_change, in_progress, complete, node_change, encryption_schedule,
}
use mina_os.HoneyBadger.Votes.{compute_winner, new}
use mina_os.HoneyBadger.KeyGen.{
  KeyGens, Params, KeyGenState, DynamicHoneyBadger, restart_honey_badger, take_ready_key_gen,
}
use mina_os.HoneyBadger.Batch.{Batch}
use mina_os.HoneyBadger.Engine.{Engine, HbBatch}
use mina_os.HoneyBadger.Exec.{pure, gets, ◌>>=◌}
use mina_os.HoneyBadger.Exec.Rules.{
  Post, Ensures-frame, Ensures-run, Ensures-lift, Ensures, Ensures-pure, Ensures-gets,
  Ensures-modify, Ensures-bind,
}
use mina_os.HoneyBadger.Dynamic.{World, on_node, restart, update_encryption_schedule}
use mina_os.HoneyBadger.Dynamic.Quiet.{Any, update_key_gen-Quiet}
use mina_os.HoneyBadger.Dynamic.Output.Committed.{At, extend_quiet, commit_contributions-At}
use mina_os.HoneyBadger.Dynamic.Output.{
  set_pub_keys, complete_key_gen, follow_winner, decide_change, process_batch,
}

module _ (d : Deps) (k : KeyGens d) (C : Type 0) (e : Engine d k C) (o : List (Batch d k C)) where
  open e use {Step}

  module _ (era : ℕ) where
    -- The node is in era `next`, with a vote counter of that era and of its keys.
    abbrev pub Restarted : ℕ → World d k C e → Type 0
    Restarted next w =
        (w.node.era ≡ next)
        × (w.node.vote_counter.era ≡ next)
        × (w.node.vote_counter.pub_keys ≡ w.node.pub_keys)

    -- What a change says of the node after it, where a restart goes to era `next`.
    abbrev pub Moved : ChangeState d → ℕ → World d k C e → Type 0
    Moved no_change next w = w.node.era ≡ era
    Moved (in_progress (node_change pks)) next w = Restarted next w
    Moved (in_progress (encryption_schedule s)) next w = ⊥
    Moved (complete (node_change pks)) next w = Restarted next w × (pks ≡ w.node.pub_keys)
    Moved (complete (encryption_schedule s)) next w =
        Restarted next w × ((k.params w.node.honey_badger).encryption_schedule ≡ s)

    -- The batches so far, and the change.
    abbrev pub Decided : ℕ → Step × ChangeState d → World d k C e → Type 0
    Decided next r w = (e.output r.0 ≡ o) × Moved r.1 next w

    complete_key_gen-Decided :
        (step : Step) (next : ℕ) (kgs : KeyGenState d k)
        → Ensures
            (At d k C e o era step)
            (λ change w. Decided next (step, change) w)
            (Any d k C e)
            (complete_key_gen d k C e next kgs)
    unfolding complete_key_gen restart restart_honey_badger new set_pub_keys
    complete_key_gen-Decided step next kgs =
        Ensures-bind {Q = λ u w. At d k C e o era step w} _ _ (Ensures-modify _ (λ w h. h)) λ u.
          Ensures-bind {Q = λ made w. At d k C e o era step w} _ _
            (Ensures-lift _ (λ made w h. h) (λ w h. tt))
            λ made.
              Ensures-bind {Q = λ node w. (e.output step ≡ o) × (node.pub_keys ≡ w.node.pub_keys)} _
                _ (Ensures-gets _ (λ w h. (h.0, refl)))
                λ node.
                  Ensures-bind
                    {Q = λ u w. Decided next (step, complete (node_change node.pub_keys)) w} _ _
                    (Ensures-modify _ (λ w h. (h.0, ((refl, refl, refl), h.1))))
                    λ u. Ensures-pure _ (λ w h. h)

    follow_winner-Decided :
        (step : Step) (next : ℕ) (winner : Option (Change d))
        → Ensures
            (At d k C e o era step)
            (Decided next)
            (Any d k C e)
            (follow_winner d k C e step next winner)
    unfolding follow_winner update_encryption_schedule restart restart_honey_badger new
    follow_winner-Decided step next none = Ensures-pure _ (λ w h. h)
    follow_winner-Decided step next (some (node_change pks)) =
        Ensures-bind _ _
          (update_key_gen-Quiet d k C e
            (λ c.
              (e.output step ≡ o)
              × (c.era ≡ next)
              × (c.vote_counter.era ≡ next)
              × (c.vote_counter.pub_keys ≡ c.pub_keys))
            (Any d k C e) (λ w h. tt) (At d k C e o era step) next pks
            (λ params netinfo. Ensures-modify _ (λ w h. (h.0.0, refl, refl, refl))))
          (λ more.
            Ensures-pure _
              (λ w h. (extend_quiet d k C e o era step more h.1.0 h.0, (h.1.1, h.1.2, h.1.3))))
    follow_winner-Decided step next (some (encryption_schedule s)) =
        Ensures-bind {Q = λ u w. Decided next (step, complete (encryption_schedule s)) w} _ _
          (Ensures-bind {Q = λ p w. At d k C e o era step w} _ _ (Ensures-gets _ (λ w h. h))
            λ params.
              Ensures-bind {Q = λ n w. At d k C e o era step w} _ _ (Ensures-gets _ (λ w h. h))
                λ netinfo. Ensures-modify _ (λ w h. (
                  h.0,
                  (
                    (refl, refl, refl),
                    ap (λ (p : Params d k.Strategy). p.encryption_schedule)
                        (k.params-build netinfo next (record params { encryption_schedule = s })
                          k.first_epoch),
                  ),
                )))
          (λ u. Ensures-pure _ (λ w h. h))

    take_ready-fields : (s : DynamicHoneyBadger d k) → (take_ready_key_gen d k s).1.era ≡ s.era
    unfolding take_ready_key_gen
    take_ready-fields s = ground arith

    decide_change-Decided :
        (step : Step) (next : ℕ)
        → Ensures
            (At d k C e o era step)
            (Decided next)
            (Any d k C e)
            (decide_change d k C e step next)
    unfolding decide_change on_node
    decide_change-Decided step next =
        Ensures-bind {Q = λ ready w. At d k C e o era step w} _ _
          (Ensures-run _ (λ w h ready. (h.0, take_ready-fields w.node ∙ h.1)) (λ w h. tt))
          λ ready.
            elim ready
              as (λ ready.
                Ensures (At d k C e o era step) (Decided next) (Any d k C e) (elim ready [
                  | some kgs ↦ complete_key_gen d k C e next kgs >>= λ change. pure (step, change)
                  | none ↦
                      gets (λ w. compute_winner d w.node.vote_counter)
                      >>= follow_winner d k C e step next
                ])) [
                  | some kgs ↦
                      Ensures-bind _ _ (complete_key_gen-Decided step next kgs)
                        (λ change. Ensures-pure _ (λ w h. h))
                  | none ↦
                      Ensures-bind {Q = λ winner w. At d k C e o era step w} _ _
                        (Ensures-gets _ (λ w h. h)) (follow_winner-Decided step next)
                ]

  -- The batch that is put out for the batch `hb` of Honey Badger: it tells the era before it, the
  -- keys, the network and the parameters after it, and what has changed.
  pub record Made (era : ℕ) (hb : HbBatch d k C) (step : Step) (w : World d k C e) : Type 0 where
    pub batch : Batch d k C
    pub put_out : e.output step ≡ o ++ (batch ∷ [])
    pub epoch : batch.epoch ≡ u64 (hb.epoch + era)
    pub old_era : batch.era ≡ era
    pub pub_keys : batch.pub_keys ≡ w.node.pub_keys
    pub netinfo : batch.netinfo ≡ k.netinfo w.node.honey_badger
    pub params : batch.params ≡ k.params w.node.honey_badger
    pub moved : Moved era batch.change (u64 (batch.epoch + 1)) w

  ensured :
      (era : ℕ) (step : Step) (hb : HbBatch d k C)
      → Ensures (At d k C e o era step) (Made era hb) (Any d k C e) (process_batch d k C e step hb)
  unfolding process_batch
  ensured era step hb =
      Ensures-bind {Q = λ n w. At d k C e o era step w × (n ≡ era)} _ _
        (Ensures-gets _ (λ w h. (h, h.1)))
        λ n.
          Ensures-bind {Q = λ r w. At d k C e o era r.0 w × (n ≡ era)} _ _
            (Ensures-frame _ (commit_contributions-At d k C e o era step hb.contributions []))
            λ committed.
              Ensures-bind {Q = λ r w. Decided era (u64 (u64 (hb.epoch + n) + 1)) r w × (n ≡ era)} _
                _ (Ensures-frame _ (decide_change-Decided era committed.0 _))
                λ decided.
                  Ensures-bind
                    {Q = λ node w.
                      Decided era (u64 (u64 (hb.epoch + n) + 1)) decided w
                      × (n ≡ era)
                      × (node ≡ w.node)}
                    _ _ (Ensures-gets _ (λ w h. (h.0, h.1, refl)))
                    λ node.
                      let batch : Batch d k C = record {
                        epoch = u64 (hb.epoch + n);
                        era = n;
                        contributions = committed.1;
                        change = decided.1;
                        pub_keys = node.pub_keys;
                        netinfo = k.netinfo node.honey_badger;
                        params = k.params node.honey_badger;
                      } in
                      Ensures-pure _ (λ w h. record {
                        batch = batch;
                        put_out =
                            e.output-push_output decided.0 batch
                            ∙ ap (λ bs. bs ++ (batch ∷ [])) h.0.0;
                        epoch = ap (λ i. u64 (hb.epoch + i)) h.1;
                        old_era = h.1;
                        pub_keys = ap (λ (s : DynamicHoneyBadger d k). s.pub_keys) h.2;
                        netinfo = ap (λ (s : DynamicHoneyBadger d k). k.netinfo s.honey_badger) h.2;
                        params = ap (λ (s : DynamicHoneyBadger d k). k.params s.honey_badger) h.2;
                        moved = h.0.1;
                      })

  -- If `process_batch` returns, then it has put out one batch after those before.  It carries the
  -- era of the node before the call, its epoch counted from that era, and the keys, the network
  -- information and the parameters of the node after the call.  Without a change the node is still
  -- in that era.  With one it is in the era one after the batch's epoch, with a vote counter of that
  -- era and of the node's keys, and the change, where it is complete, is to those keys or to the
  -- encryption schedule of those parameters.
  pub process_batch-Made :
      (step : Step) (hb : HbBatch d k C) (w : World d k C e)
      → e.output step ≡ o
      → Post
          (Made w.node.era hb)
          (Any d k C e)
          (process_batch d k C e step hb w).0
          (process_batch d k C e step hb w).1
  process_batch-Made step hb w h = (ensured w.node.era step hb).at w (h, refl)
