-- ===== src/HoneyBadger/Votes/Public.antt =====
-- votes.rs: committing votes does not depend on whose counter it is, nor on the pending votes.
use mina_os.Base.{
  ◌≡◌, refl, sym, subst, ◌∙◌, Bool, true, false, List, [], ◌∷◌, Bool-cases, inl, inr,
}
use mina_os.Base.BTreeMap.{BTreeMap}
use mina_os.HoneyBadger.Deps.{Deps, Except, Except-cases, ok, err, Result, FaultLog}
use mina_os.HoneyBadger.Votes.{
  Vote, SignedVote, VoteCounter, find_committed, committed_reaches, validate, commit_checked,
  add_committed_vote, commit_each, add_committed_votes, compute_winner,
}

module _ (d : Deps) where
  open d use {NodeId, SecretKey}

  -- Two nodes' counters with one era, the same keys and the same committed votes.
  pub record SameVotes (vc vc' : VoteCounter d) : Type 0 where
    pub era : vc.era ≡ vc'.era
    pub pub_keys : vc.pub_keys ≡ vc'.pub_keys
    pub committed : vc.committed ≡ vc'.committed

  pub compute_winner_same :
      (vc vc' : VoteCounter d) → SameVotes vc vc' → compute_winner d vc ≡ compute_winner d vc'
  unfolding compute_winner
  compute_winner_same vc vc' h = rw (h.pub_keys, h.committed)

  module _ (serialize : Vote d → Except d.SerializeError d.Bytes) where
    abbrev Same :
        Result d (FaultLog d) × VoteCounter d → Result d (FaultLog d) × VoteCounter d → Type 0
    Same out out' = (out.0 ≡ out'.0) × SameVotes out.1 out'.1

    -- A counter with the parts of another node.
    module _ (our_id : NodeId) (secret_key : SecretKey)
        (pending : BTreeMap NodeId (SignedVote d)) where
      moved : VoteCounter d → VoteCounter d
      moved vc = record vc { our_id = our_id; secret_key = secret_key; pending = pending }

      commit_checked-moved :
          (r : Result d Bool) (vc : VoteCounter d) (id : NodeId) (sv : SignedVote d)
          → Same
              (commit_checked d serialize r vc id sv)
              (commit_checked d serialize r (moved vc) id sv)
      unfolding commit_checked moved
      commit_checked-moved (err e) vc id sv =
          (refl, record { era = refl; pub_keys = refl; committed = refl })
      commit_checked-moved (ok false) vc id sv =
          (refl, record { era = refl; pub_keys = refl; committed = refl })
      commit_checked-moved (ok true) vc id sv =
          (refl, record { era = refl; pub_keys = refl; committed = refl })

      add_committed_vote-moved :
          (vc : VoteCounter d) (id : NodeId) (sv : SignedVote d)
          → Same
              (add_committed_vote d serialize vc id sv)
              (add_committed_vote d serialize (moved vc) id sv)
      unfolding add_committed_vote validate moved
      add_committed_vote-moved vc id sv =
          elim (Bool-cases (committed_reaches d (find_committed d vc sv.voter) sv.vote.num)) [
            | inl t ↦ rw t (refl, record { era = refl; pub_keys = refl; committed = refl })
            | inr f ↦ rw f (commit_checked-moved _ vc id sv)
          ]

    moved-eq :
        (vc vc' : VoteCounter d)
        → SameVotes vc vc'
        → moved vc'.our_id vc'.secret_key vc'.pending vc ≡ vc'
    unfolding moved
    moved-eq vc vc' h =
        λ i. record vc' { era = h.era i; pub_keys = h.pub_keys i; committed = h.committed i }

    add_committed_vote-SameVotes :
        (vc vc' : VoteCounter d) (id : NodeId) (sv : SignedVote d)
        → SameVotes vc vc'
        → Same (add_committed_vote d serialize vc id sv) (add_committed_vote d serialize vc' id sv)
    add_committed_vote-SameVotes vc vc' id sv h =
        subst
          (λ v.
            Same (add_committed_vote d serialize vc id sv) (add_committed_vote d serialize v id sv))
          (moved-eq vc vc' h)
          (add_committed_vote-moved vc'.our_id vc'.secret_key vc'.pending vc id sv)

    commit_each-SameVotes :
        (vc vc' : VoteCounter d) (id : NodeId) (svs : List (SignedVote d)) (log : FaultLog d)
        → SameVotes vc vc'
        → Same (commit_each d serialize vc id svs log) (commit_each d serialize vc' id svs log)
    unfolding commit_each
    commit_each-SameVotes vc vc' id [] log h = (refl, h)
    commit_each-SameVotes vc vc' id (sv ∷ svs) log h =
        let first = add_committed_vote-SameVotes vc vc' id sv h in
        elim (Except-cases (add_committed_vote d serialize vc id sv).0) [
          | inl (x, q) ↦ rw (q, sym first.0 ∙ q, commit_each) (refl, first.1)
          | inr (l, q) ↦
              rw (q, sym first.0 ∙ q, commit_each)
                (commit_each-SameVotes (add_committed_vote d serialize vc id sv).1
                  (add_committed_vote d serialize vc' id sv).1 id svs (d.logs.extend log l) first.1)
        ]

    -- The result and the committed votes after a batch are those of any counter that agrees.
    pub add_committed_votes-SameVotes :
        (vc vc' : VoteCounter d) (id : NodeId) (svs : List (SignedVote d))
        → SameVotes vc vc'
        → let out = add_committed_votes d serialize vc id svs in
          let out' = add_committed_votes d serialize vc' id svs in
          (out.0 ≡ out'.0) × SameVotes out.1 out'.1
    unfolding add_committed_votes
    add_committed_votes-SameVotes vc vc' id svs h = commit_each-SameVotes vc vc' id svs d.logs.new h
