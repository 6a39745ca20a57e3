-- ===== src/HoneyBadger/Dynamic/Output/Committed.antt =====
-- dynamic_honey_badger.rs: what the contributions of a batch commit puts out no batch, and leaves the
-- era alone.
use mina_os.Base.{◌==◌, ℕ, ◌≡◌, ◌∙◌, refl, ap, not, List, [], ◌∷◌, ◌++◌}
use mina_os.Base.BTreeMap.{BTreeMap}
use mina_os.HoneyBadger.Deps.{Deps}
use mina_os.HoneyBadger.KeyGen.{KeyGens, KeyGenMessage, part, ack, SignedKeyGenMsg}
use mina_os.HoneyBadger.Batch.{Batch}
use mina_os.HoneyBadger.Engine.{Engine, InternalContrib}
use mina_os.HoneyBadger.Exec.Rules.{
  Ensures-run, Ensures, Ensures-pure, Ensures-gets, Ensures-modify, Ensures-bind, Ensures-if,
}
use mina_os.HoneyBadger.Dynamic.{World, on_node}
use mina_os.HoneyBadger.Dynamic.Quiet.{Any, Core, Quiet, handle_part-Quiet, handle_ack-Quiet}
use mina_os.HoneyBadger.Dynamic.Output.{
  commit_votes, drop_messages, handle_key_gen, verified_key_gen, commit_key_gen, commit_key_gens,
  commit_contribution, commit_contributions,
}

module _ (d : Deps) (k : KeyGens d) (C : Type 0) (e : Engine d k C) (o : List (Batch d k C)) where
  open e use {Step}

  module _ (era : ℕ) where
    -- The step has put out the batches `o`, and the node is in the era.
    abbrev pub At : Step → World d k C e → Type 0
    At step w = (e.output step ≡ o) × (w.node.era ≡ era)

    append_nil {ℓ} : {A : Type ℓ} (xs : List A) → xs ++ [] ≡ xs
    append_nil [] = refl
    append_nil (x ∷ xs) = ap (λ ys. x ∷ ys) (append_nil xs)

    pub extend_quiet :
        (step more : Step)
        → e.output step ≡ o
        → e.output more ≡ []
        → e.output (e.extend step more) ≡ o
    extend_quiet step more p q = rw (e.output-extend step more, p, q, append_nil o) refl

    handle_key_gen-Quiet :
        (P : Core d k C e → Type 0) (sender : d.NodeId) (m : KeyGenMessage d k)
        → Quiet d k C e P (Any d k C e) (λ w h. tt) (handle_key_gen d k C e sender m)
    unfolding handle_key_gen
    handle_key_gen-Quiet P sender (part p) =
        handle_part-Quiet d k C e P (Any d k C e) (λ w h. tt) sender p
    handle_key_gen-Quiet P sender (ack a) =
        handle_ack-Quiet d k C e P (Any d k C e) (λ w h. tt) sender a

    verified_key_gen-At :
        (step : Step) (id : d.NodeId) (m : SignedKeyGenMsg d k)
        → Ensures (At step) At (Any d k C e) (verified_key_gen d k C e step id m)
    unfolding verified_key_gen on_node
    verified_key_gen-At step id m =
        Ensures-bind {Q = λ valid w. At step w} _ _ (Ensures-run _ (λ w h valid. h) (λ w h. tt))
          (λ valid.
            Ensures-if (not valid) _ _
              (λ _. Ensures-pure _ (λ w h. (e.output-append_fault step id _ ∙ h.0, h.1)))
              (λ _.
                Ensures-bind _ _
                  (handle_key_gen-Quiet (λ c. (e.output step ≡ o) × (c.era ≡ era)) m.sender
                    m.message)
                  (λ more. Ensures-pure _ (λ w h. (extend_quiet step more h.1.0 h.0, h.1.1)))))

    commit_key_gen-At :
        (step : Step) (id : d.NodeId) (m : SignedKeyGenMsg d k)
        → Ensures (At step) At (Any d k C e) (commit_key_gen d k C e step id m)
    unfolding commit_key_gen
    commit_key_gen-At step id m =
        Ensures-bind {Q = λ n w. At step w} _ _ (Ensures-gets _ (λ w h. h)) λ n.
          Ensures-if (not (m.era == n)) _ _
            (λ _. Ensures-pure _ (λ w h. (e.output-append_fault step id _ ∙ h.0, h.1)))
            (λ _. verified_key_gen-At step id m)

    commit_key_gens-At :
        (step : Step) (id : d.NodeId) (ms : List (SignedKeyGenMsg d k))
        → Ensures (At step) At (Any d k C e) (commit_key_gens d k C e step id ms)
    unfolding commit_key_gens
    commit_key_gens-At step id [] = Ensures-pure _ (λ w h. h)
    commit_key_gens-At step id (m ∷ ms) =
        Ensures-bind _ _ (commit_key_gen-At step id m) (λ step'. commit_key_gens-At step' id ms)

    commit_contribution-At :
        (step : Step) (id : d.NodeId) (c : InternalContrib d k C)
        → Ensures (At step) At (Any d k C e) (commit_contribution d k C e step id c)
    unfolding commit_contribution on_node commit_votes drop_messages
    commit_contribution-At step id c =
        Ensures-bind {Q = λ faults w. At step w} _ _ (Ensures-run _ (λ w h faults. h) (λ w h. tt))
          λ faults.
            Ensures-bind {Q = λ u w. At (e.extend_faults step faults) w} _ _
              (Ensures-modify _ (λ w h. (e.output-extend_faults step faults ∙ h.0, h.1)))
              λ u. commit_key_gens-At (e.extend_faults step faults) id c.key_gen_messages

    pub commit_contributions-At :
        (step : Step) (cs : BTreeMap d.NodeId (InternalContrib d k C)) (done : BTreeMap d.NodeId C)
        → Ensures
            (At step)
            (λ r w. At r.0 w)
            (Any d k C e)
            (commit_contributions d k C e step cs done)
    unfolding commit_contributions
    commit_contributions-At step [] done = Ensures-pure _ (λ w h. h)
    commit_contributions-At step ((id, c) ∷ cs) done =
        Ensures-bind _ _ (commit_contribution-At step id c)
          (λ step'. commit_contributions-At step' cs _)
