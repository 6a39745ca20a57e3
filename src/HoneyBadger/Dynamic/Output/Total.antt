-- ===== src/HoneyBadger/Dynamic/Output/Total.antt =====
-- dynamic_honey_badger.rs: where what it calls does not fail, `process_output` handles every batch to
-- its end.
use mina_os.Base.{
  ℕ, Bool, true, false, not, ◌==◌, Option, none, some, List, [], ◌∷◌, if◌then◌else◌, Bool-cases,
  inl, inr,
}
use mina_os.Base.BTreeMap.{BTreeMap}
use mina_os.HoneyBadger.Deps.{
  Deps, Except-cases, ok, err, Result, FaultLog, Change, node_change, encryption_schedule,
}
use mina_os.HoneyBadger.Votes.{
  SignedVote, VoteCounter, find_committed, committed_reaches, validate, commit_checked,
  add_committed_vote, commit_each, add_committed_votes, compute_winner,
}
use mina_os.HoneyBadger.KeyGen.{
  KeyGens, KeyGenMessage, part, ack, KeyGenState, SignedKeyGenMsg, DynamicHoneyBadger,
  verify_signature,
}
use mina_os.HoneyBadger.Engine.{Engine, InternalContrib, HbBatch}
use mina_os.HoneyBadger.Exec.{pure, gets, ◌>>=◌}
use mina_os.HoneyBadger.Exec.Returns.{
  IsOk, IsOk-map_err, Returns, Returns-pure, Returns-gets, Returns-lift, Returns-modify,
  Returns-bind, Returns-if,
}
use mina_os.HoneyBadger.Dynamic.{on_node}
use mina_os.HoneyBadger.Dynamic.Returns.{
  Works, Returns-on_node, restart-Returns, update_encryption_schedule-Returns,
  update_key_gen-Returns, handle_part-Returns, handle_ack-Returns,
}
use mina_os.HoneyBadger.Dynamic.Output.{
  commit_votes, handle_key_gen, verified_key_gen, commit_key_gen, commit_key_gens,
  commit_contribution, commit_contributions, complete_key_gen, follow_winner, decide_change,
  process_batch, process_batches, process_output,
}

module _ (d : Deps) (k : KeyGens d) (C : Type 0) (e : Engine d k C) (works : Works d k C e) where
  open e use {Step, HbStep}

  pub verify-IsOk :
      (s : DynamicHoneyBadger d k) (n : d.NodeId) (sig : d.Signature) (m : KeyGenMessage d k)
      → IsOk (verify_signature d k e.serialize_key_gen s n sig m)
  unfolding verify_signature
  verify-IsOk s n sig m = elim (Except-cases (e.serialize_key_gen m)) [
    | inl (x, q) ↦ absurd (rw q at (works.messages m))
    | inr (x, q) ↦ rw (q, verify_signature) tt
  ]

  pub validate-IsOk :
      (vc : VoteCounter d) (sv : SignedVote d) → IsOk (validate d e.serialize_vote vc sv)
  unfolding validate
  validate-IsOk vc sv = elim (Except-cases (e.serialize_vote sv.vote)) [
    | inl (x, q) ↦ absurd (rw q at (works.votes sv.vote))
    | inr (x, q) ↦ rw (q, validate) tt
  ]

  commit_checked-IsOk :
      (r : Result d Bool) (vc : VoteCounter d) (id : d.NodeId) (sv : SignedVote d)
      → IsOk r
      → IsOk (commit_checked d e.serialize_vote r vc id sv).0
  unfolding commit_checked
  commit_checked-IsOk (ok true) vc id sv h = tt
  commit_checked-IsOk (ok false) vc id sv h = tt
  commit_checked-IsOk (err x) vc id sv h = h

  checked-IsOk : (b : Bool) (r : Result d Bool) → IsOk r → IsOk (if b then ok false else r)
  checked-IsOk true r h = tt
  checked-IsOk false r h = h

  add_committed_vote-IsOk :
      (vc : VoteCounter d) (id : d.NodeId) (sv : SignedVote d)
      → IsOk (add_committed_vote d e.serialize_vote vc id sv).0
  unfolding add_committed_vote
  add_committed_vote-IsOk vc id sv =
      elim (Bool-cases (committed_reaches d (find_committed d vc sv.voter) sv.vote.num)) [
        | inl t ↦ rw (t, add_committed_vote) tt
        | inr f ↦
            rw (f, add_committed_vote)
              (commit_checked-IsOk _ vc id sv
                (checked-IsOk (not (sv.vote.era == vc.era)) _ (validate-IsOk vc sv)))
      ]

  commit_each-IsOk :
      (svs : List (SignedVote d)) (vc : VoteCounter d) (id : d.NodeId) (log : FaultLog d)
      → IsOk (commit_each d e.serialize_vote vc id svs log).0
  unfolding commit_each
  commit_each-IsOk [] vc id log = tt
  commit_each-IsOk (sv ∷ svs) vc id log =
      let first = add_committed_vote-IsOk vc id sv in
      elim (Except-cases (add_committed_vote d e.serialize_vote vc id sv).0) [
        | inl (x, q) ↦ absurd (rw q at first)
        | inr (l, q) ↦ rw (q, commit_each) (commit_each-IsOk svs _ id _)
      ]

  commit_votes-Returns :
      (id : d.NodeId) (votes : List (SignedVote d))
      → Returns (on_node d k C e (commit_votes d k C e id votes))
  unfolding commit_votes add_committed_votes
  commit_votes-Returns id votes =
      Returns-on_node d k C e works _ (λ s. commit_each-IsOk votes s.vote_counter id d.logs.new)

  handle_key_gen-Returns :
      (sender : d.NodeId) (m : KeyGenMessage d k) → Returns (handle_key_gen d k C e sender m)
  unfolding handle_key_gen
  handle_key_gen-Returns sender (part p) = handle_part-Returns d k C e works sender p
  handle_key_gen-Returns sender (ack a) = handle_ack-Returns d k C e works sender a

  commit_key_gen-Returns :
      (step : Step) (id : d.NodeId) (m : SignedKeyGenMsg d k)
      → Returns (commit_key_gen d k C e step id m)
  unfolding commit_key_gen verified_key_gen
  commit_key_gen-Returns step id m = Returns-bind _ _ (Returns-gets _) λ era.
      Returns-if _ _ _ (Returns-pure _) (
        Returns-bind _ _
          (Returns-on_node d k C e works _ (λ s. verify-IsOk s m.sender m.sig m.message))
          λ valid.
            Returns-if _ _ _ (Returns-pure _) (
              Returns-bind _ _ (handle_key_gen-Returns m.sender m.message)
                (λ more. Returns-pure _)))

  commit_key_gens-Returns :
      (step : Step) (id : d.NodeId) (ms : List (SignedKeyGenMsg d k))
      → Returns (commit_key_gens d k C e step id ms)
  unfolding commit_key_gens
  commit_key_gens-Returns step id [] = Returns-pure _
  commit_key_gens-Returns step id (m ∷ ms) =
      Returns-bind _ _ (commit_key_gen-Returns step id m)
        (λ step'. commit_key_gens-Returns step' id ms)

  commit_contributions-Returns :
      (step : Step) (cs : BTreeMap d.NodeId (InternalContrib d k C)) (done : BTreeMap d.NodeId C)
      → Returns (commit_contributions d k C e step cs done)
  unfolding commit_contributions commit_contribution
  commit_contributions-Returns step [] done = Returns-pure _
  commit_contributions-Returns step ((id, c) ∷ cs) done =
      Returns-bind _ _
        (Returns-bind _ _ (commit_votes-Returns id c.votes) λ faults.
          Returns-bind _ _ (Returns-modify _) λ u. commit_key_gens-Returns _ id c.key_gen_messages)
        (λ step'. commit_contributions-Returns step' cs _)

  complete_key_gen-Returns :
      (era : ℕ) (kgs : KeyGenState d k) → Returns (complete_key_gen d k C e era kgs)
  unfolding complete_key_gen
  complete_key_gen-Returns era kgs = Returns-bind _ _ (Returns-modify _) λ u.
      Returns-bind _ _ (Returns-lift _ (IsOk-map_err _ _ (works.keys kgs.key_gen))) λ made.
        Returns-bind _ _ (Returns-gets _)
          λ node. Returns-bind _ _ (restart-Returns d k C e works era _ _) λ u. Returns-pure _

  follow_winner-Returns :
      (step : Step) (era : ℕ) (winner : Option (Change d))
      → Returns (follow_winner d k C e step era winner)
  unfolding follow_winner
  follow_winner-Returns step era none = Returns-pure _
  follow_winner-Returns step era (some (node_change pks)) =
      Returns-bind _ _ (update_key_gen-Returns d k C e works era pks) (λ more. Returns-pure _)
  follow_winner-Returns step era (some (encryption_schedule schedule)) =
      Returns-bind _ _ (update_encryption_schedule-Returns d k C e works era schedule)
        (λ u. Returns-pure _)

  decide_change-Returns : (step : Step) (era : ℕ) → Returns (decide_change d k C e step era)
  unfolding decide_change
  decide_change-Returns step era =
      Returns-bind _ _ (Returns-on_node d k C e works _ (λ s. tt)) λ ready.
        elim ready
          as (λ ready. Returns (elim ready [
            | some kgs ↦ complete_key_gen d k C e era kgs >>= λ change. pure (step, change)
            | none ↦
                gets (λ w. compute_winner d w.node.vote_counter) >>= follow_winner d k C e step era
          ])) [
            | some kgs ↦
                Returns-bind _ _ (complete_key_gen-Returns era kgs) (λ change. Returns-pure _)
            | none ↦ Returns-bind _ _ (Returns-gets _) (follow_winner-Returns step era)
          ]

  pub process_batches-Returns :
      (step : Step) (bs : List (HbBatch d k C)) → Returns (process_batches d k C e step bs)
  unfolding process_batches process_batch
  process_batches-Returns step [] = Returns-pure _
  process_batches-Returns step (b ∷ bs) =
      Returns-bind _ _
        (Returns-bind _ _ (Returns-gets _) λ era.
          Returns-bind _ _ (commit_contributions-Returns step b.contributions []) λ committed.
            Returns-bind _ _ (decide_change-Returns committed.0 _)
              λ decided. Returns-bind _ _ (Returns-gets _) λ node. Returns-pure _)
        (λ step'. process_batches-Returns step' bs)

  pub process_output-Returns : (hb_step : HbStep) → Returns (process_output d k C e hb_step)
  unfolding process_output
  process_output-Returns hb_step =
      Returns-bind _ _ (Returns-gets _) (λ era. process_batches-Returns _ (e.hb_output hb_step))
