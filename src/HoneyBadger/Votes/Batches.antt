-- ===== src/HoneyBadger/Votes/Batches.antt =====
-- votes.rs: `add_committed_votes` over a whole batch, the faults that it reports and the votes that
-- it takes.
use mina_os.Base.{
  ℕ, ◌≡◌, refl, sym, subst, ◌∙◌, Bool, true, false, Option, none, some, List, [], ◌∷◌, arith,
  Bool-cases, ==_iff, inl, inr, All, All-append, All-map,
}
use mathlib.Core.List.{append-nil}
use mina_os.Base.BTreeMap.{get-insert_self}
use mina_os.HoneyBadger.Deps.{
  Deps, Except, Except-cases, ok, err, Result, FaultLog, Kind, invalid_committed_vote,
}
use mina_os.HoneyBadger.Votes.{
  Vote, SignedVote, VoteCounter, find_committed, committed_reaches, validate, commit_checked,
  add_committed_vote, commit_each, add_committed_votes,
}
use mina_os.HoneyBadger.Votes.Order.{Advances, commit_each-Advances}

module _ (d : Deps) (serialize : Vote d → Except d.SerializeError d.Bytes) where
  open d use {NodeId, node_ord}

  -- Every fault of the log is an invalid committed vote, laid to the proposer.
  abbrev pub Blames : NodeId → FaultLog d → Type 0
  Blames proposer log =
      All (λ (e : NodeId × Kind d). e ≡ (proposer, invalid_committed_vote)) (d.logs.entries log)

  commit_checked-Blames :
      (r : Result d Bool) (vc : VoteCounter d) (proposer : NodeId) (sv : SignedVote d)
      (log : FaultLog d)
      → (commit_checked d serialize r vc proposer sv).0 ≡ ok log
      → Blames proposer log
  unfolding commit_checked
  commit_checked-Blames (err e) vc proposer sv log h = cc
  commit_checked-Blames (ok false) vc proposer sv log h =
      let p : d.logs.init proposer invalid_committed_vote ≡ log = cc in
      rw (← p, d.logs.entries-init) (refl, tt)
  commit_checked-Blames (ok true) vc proposer sv log h =
      let p : d.logs.new ≡ log = cc in rw (← p, d.logs.entries-new) tt

  add_committed_vote-Blames :
      (vc : VoteCounter d) (proposer : NodeId) (sv : SignedVote d) (log : FaultLog d)
      → (add_committed_vote d serialize vc proposer sv).0 ≡ ok log
      → Blames proposer log
  unfolding add_committed_vote
  add_committed_vote-Blames vc proposer sv log =
      elim (Bool-cases (committed_reaches d (find_committed d vc sv.voter) sv.vote.num)) [
        | inl t ↦ rw t λ h. let p : d.logs.new ≡ log = cc in rw (← p, d.logs.entries-new) tt
        | inr f ↦ rw f (commit_checked-Blames _ vc proposer sv log)
      ]

  commit_each-Blames :
      (vc : VoteCounter d) (proposer : NodeId) (svs : List (SignedVote d)) (log : FaultLog d)
      (log' : FaultLog d)
      → Blames proposer log
      → (commit_each d serialize vc proposer svs log).0 ≡ ok log'
      → Blames proposer log'
  unfolding commit_each
  commit_each-Blames vc proposer [] log log' b h = let p : log ≡ log' = cc in rw (← p) b
  commit_each-Blames vc proposer (sv ∷ svs) log log' b h =
      elim (Except-cases (add_committed_vote d serialize vc proposer sv).0) [
        | inl (e, q) ↦ let z : err e ≡ ok log' = rw (q, commit_each) at h in cc
        | inr (l, q) ↦
            (commit_each-Blames (add_committed_vote d serialize vc proposer sv).1 proposer svs
              (d.logs.extend log l) log'
              (rw d.logs.entries-extend (
                All-append _ (d.logs.entries log) (d.logs.entries l) b
                  (add_committed_vote-Blames vc proposer sv l q)))
              (rw (q, commit_each) at h))
      ]

  -- Each fault in the log that a batch of committed votes returns is an invalid committed vote, and is
  -- laid to the proposer of the batch.
  pub add_committed_votes-Blames :
      (vc : VoteCounter d) (proposer : NodeId) (svs : List (SignedVote d)) (log : FaultLog d)
      → (add_committed_votes d serialize vc proposer svs).0 ≡ ok log
      → Blames proposer log
  unfolding add_committed_votes
  add_committed_votes-Blames vc proposer svs log =
      commit_each-Blames vc proposer svs d.logs.new log (rw d.logs.entries-new tt)

  -- A vote that the counter has to take: of its era, and genuine.
  abbrev pub IsHonest : VoteCounter d → SignedVote d → Type 0
  IsHonest vc sv = (sv.vote.era ≡ vc.era) × (validate d serialize vc sv ≡ ok true)

  -- The committed vote of the voter is this one or one with at least its number.
  abbrev pub IsTaken : VoteCounter d → SignedVote d → Type 0
  IsTaken vc sv = committed_reaches d (find_committed d vc sv.voter) sv.vote.num ≡ true

  -- What an honest vote brings.
  pub record Honest (vc vc' : VoteCounter d) (r : Result d (FaultLog d)) (sv : SignedVote d)
      : Type 0 where
    pub no_fault : r ≡ ok d.logs.new
    pub taken : IsTaken vc' sv
    pub same_era : vc'.era ≡ vc.era
    pub same_keys : vc'.pub_keys ≡ vc.pub_keys

  pub add_committed_vote-Honest :
      (vc : VoteCounter d) (proposer : NodeId) (sv : SignedVote d)
      → IsHonest vc sv
      → let (r, vc') = add_committed_vote d serialize vc proposer sv in Honest vc vc' r sv
  unfolding add_committed_vote commit_checked
  add_committed_vote-Honest vc proposer sv h =
      elim (Bool-cases (committed_reaches d (find_committed d vc sv.voter) sv.vote.num)) [
        | inl t ↦ rw t (record { no_fault = refl; taken = t; same_era = refl; same_keys = refl })
        | inr f ↦
            rw (f, (==_iff sv.vote.era vc.era).1 h.0, h.1, commit_checked)
              (record {
                no_fault = refl;
                taken =
                    rw (get-insert_self ⦃o = node_ord⦄ sv.voter sv.vote vc.committed)
                      (ground arith);
                same_era = refl;
                same_keys = refl;
              })
      ]

  IsHonest-keys :
      (vc vc' : VoteCounter d) (sv : SignedVote d)
      → vc'.era ≡ vc.era
      → vc'.pub_keys ≡ vc.pub_keys
      → IsHonest vc sv
      → IsHonest vc' sv
  unfolding validate
  IsHonest-keys vc vc' sv e k h = rw (e, k) h

  IsTaken-later :
      (vc vc' : VoteCounter d) (sv : SignedVote d)
      → Advances d serialize (find_committed d vc sv.voter) (find_committed d vc' sv.voter)
      → IsTaken vc sv
      → IsTaken vc' sv
  IsTaken-later vc vc' sv a t =
      reaches (find_committed d vc sv.voter) (find_committed d vc' sv.voter) sv.vote.num a t
    where
      reaches :
          (v w : Option (Vote d)) (num : ℕ)
          → Advances d serialize v w
          → committed_reaches d v num ≡ true
          → committed_reaches d w num ≡ true
      reaches none w num a t = cc
      reaches (some v) none num a t = absurd a
      reaches (some v) (some w) num a t = ground arith

  -- What a loop over honest votes gives, from the log so far.
  pub record AllTaken (log : FaultLog d) (svs : List (SignedVote d))
      (out : Result d (FaultLog d) × VoteCounter d) : Type 0 where
    pub faultless :
        (log' : FaultLog d) × (out.0 ≡ ok log') × (d.logs.entries log' ≡ d.logs.entries log)
    pub taken : All (IsTaken out.1) svs

  AllTaken-cons :
      (vc : VoteCounter d) (proposer : NodeId) (sv : SignedVote d) (svs : List (SignedVote d))
      (log : FaultLog d)
      → IsHonest vc sv
      → AllTaken (d.logs.extend log d.logs.new) svs (
          commit_each d serialize
            (add_committed_vote d serialize vc proposer sv).1
            proposer
            svs
            (d.logs.extend log d.logs.new))
      → AllTaken log (sv ∷ svs) (commit_each d serialize vc proposer (sv ∷ svs) log)
  unfolding commit_each
  AllTaken-cons vc proposer sv svs log h rest =
      subst (AllTaken log (sv ∷ svs)) (sym first) (record {
        faultless = (rest.faultless.0, rest.faultless.1, rest.faultless.2 ∙ same);
        taken = (
          IsTaken-later vc1
              (commit_each d serialize vc1 proposer svs (d.logs.extend log d.logs.new)).1 sv
              (commit_each-Advances d serialize vc1 proposer svs (d.logs.extend log d.logs.new)
                sv.voter)
              step.taken,
          rest.taken,
        );
      })
    where
      vc1 : VoteCounter d
      vc1 = (add_committed_vote d serialize vc proposer sv).1

      step : Honest vc vc1 (add_committed_vote d serialize vc proposer sv).0 sv
      step = add_committed_vote-Honest vc proposer sv h

      first :
          commit_each d serialize vc proposer (sv ∷ svs) log
          ≡ commit_each d serialize vc1 proposer svs (d.logs.extend log d.logs.new)
      first = rw (step.no_fault, commit_each)

      same : d.logs.entries (d.logs.extend log d.logs.new) ≡ d.logs.entries log
      same = rw (d.logs.entries-extend, d.logs.entries-new) (append-nil (d.logs.entries log))

  commit_each-AllTaken :
      (vc : VoteCounter d) (proposer : NodeId) (svs : List (SignedVote d)) (log : FaultLog d)
      → All (IsHonest vc) svs
      → AllTaken log svs (commit_each d serialize vc proposer svs log)
  unfolding commit_each
  commit_each-AllTaken vc proposer [] log h = record { faultless = (log, refl, refl); taken = tt }
  commit_each-AllTaken vc proposer (sv ∷ svs) log h =
      let vc1 = (add_committed_vote d serialize vc proposer sv).1 in
      let step = add_committed_vote-Honest vc proposer sv h.0 in
      AllTaken-cons vc proposer sv svs log h.0 (
        commit_each-AllTaken (add_committed_vote d serialize vc proposer sv).1 proposer svs
          (d.logs.extend log d.logs.new)
          (All-map (IsHonest vc) (IsHonest vc1)
            (λ s. IsHonest-keys vc vc1 s step.same_era step.same_keys) svs h.1))

  -- A batch of votes that are all of the counter's era and genuine is taken without a fault: after
  -- it each voter's committed vote is that of the batch, or has at least its number.
  pub add_committed_votes-AllTaken :
      (vc : VoteCounter d) (proposer : NodeId) (svs : List (SignedVote d))
      → All (IsHonest vc) svs
      → AllTaken d.logs.new svs (add_committed_votes d serialize vc proposer svs)
  unfolding add_committed_votes
  add_committed_votes-AllTaken vc proposer svs h = commit_each-AllTaken vc proposer svs d.logs.new h
