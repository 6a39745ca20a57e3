-- ===== src/HoneyBadger/Votes/Order.antt =====
-- votes.rs: vote numbers.  A committed vote only gives way to a newer one.
use mina_os.Base.{
  ◌<◌, ◌≡◌, ◌⊎◌, refl, Bool, true, false, Option, none, some, List, [], ◌∷◌, arith, Bool-cases, inl,
  inr,
}
use mina_os.Base.BTreeMap.{get-insert_self, get-insert_ne}
use mina_os.HoneyBadger.Deps.{Deps, Except, Except-cases, ok, err, Result, FaultLog}
use mina_os.HoneyBadger.Votes.{
  Vote, SignedVote, VoteCounter, find_committed, committed_reaches, commit_checked,
  add_committed_vote, commit_each, add_committed_votes,
}

module _ (d : Deps) (serialize : Vote d → Except d.SerializeError d.Bytes) where
  open d use {NodeId, node_ord}

  -- The later entry is the earlier one, or a vote with a higher number.
  abbrev pub Advances : Option (Vote d) → Option (Vote d) → Type 0
  Advances none w = Unit {0}
  Advances (some v) none = ⊥
  Advances (some v) (some w) = (v ≡ w) ⊎ (v.num < w.num)

  Advances-refl : (v : Option (Vote d)) → Advances v v
  Advances-refl none = tt
  Advances-refl (some v) = inl refl

  Advances-trans : (u v w : Option (Vote d)) → Advances u v → Advances v w → Advances u w
  Advances-trans none v w p q = tt
  Advances-trans (some u) none w p q = absurd p
  Advances-trans (some u) (some v) none p q = q
  Advances-trans (some u) (some v) (some w) p q = ground arith

  Advances-above :
      (v : Option (Vote d)) (w : Vote d) → committed_reaches d v w.num ≡ false → Advances v (some w)
  Advances-above none w h = tt
  Advances-above (some v) w h = ground arith

  commit_checked-Advances :
      (r : Result d Bool) (vc : VoteCounter d) (proposer : NodeId) (sv : SignedVote d) (n : NodeId)
      → committed_reaches d (find_committed d vc sv.voter) sv.vote.num ≡ false
      → Advances
          (find_committed d vc n)
          (find_committed d (commit_checked d serialize r vc proposer sv).1 n)
  unfolding commit_checked
  commit_checked-Advances (err e) vc proposer sv n h = Advances-refl _
  commit_checked-Advances (ok false) vc proposer sv n h = Advances-refl _
  commit_checked-Advances (ok true) vc proposer sv n h = elim (node_ord.decide_eq sv.voter n) [
    | yes p ↦
        rw (← p, get-insert_self ⦃o = node_ord⦄ sv.voter sv.vote vc.committed)
          (Advances-above _ sv.vote h)
    | no p ↦ rw (get-insert_ne ⦃o = node_ord⦄ sv.voter n sv.vote vc.committed p) (Advances-refl _)
  ]

  add_committed_vote-Advances :
      (vc : VoteCounter d) (proposer : NodeId) (sv : SignedVote d) (n : NodeId)
      → Advances
          (find_committed d vc n)
          (find_committed d (add_committed_vote d serialize vc proposer sv).1 n)
  unfolding add_committed_vote
  add_committed_vote-Advances vc proposer sv n =
      elim (Bool-cases (committed_reaches d (find_committed d vc sv.voter) sv.vote.num)) [
        | inl t ↦ rw t (Advances-refl _)
        | inr f ↦ rw f (commit_checked-Advances _ vc proposer sv n f)
      ]

  pub commit_each-Advances :
      (vc : VoteCounter d) (proposer : NodeId) (svs : List (SignedVote d)) (log : FaultLog d)
      (n : NodeId)
      → Advances
          (find_committed d vc n)
          (find_committed d (commit_each d serialize vc proposer svs log).1 n)
  unfolding commit_each
  commit_each-Advances vc proposer [] log n = Advances-refl _
  commit_each-Advances vc proposer (sv ∷ svs) log n =
      let first = add_committed_vote-Advances vc proposer sv n in
      elim (Except-cases (add_committed_vote d serialize vc proposer sv).0) [
        | inl (e, q) ↦ rw (q, commit_each) first
        | inr (l, q) ↦
            rw (q, commit_each)
              (Advances-trans _ _ _ first (
                commit_each-Advances (add_committed_vote d serialize vc proposer sv).1 proposer svs
                  (d.logs.extend log l) n))
      ]

  -- Whatever votes a batch holds, and also where it ends in an error, each node's committed vote
  -- stays, or gives way to one with a higher number; it is never lost.
  pub add_committed_votes-Advances :
      (vc : VoteCounter d) (proposer : NodeId) (svs : List (SignedVote d)) (n : NodeId)
      → Advances
          (find_committed d vc n)
          (find_committed d (add_committed_votes d serialize vc proposer svs).1 n)
  unfolding add_committed_votes
  add_committed_votes-Advances vc proposer svs n = commit_each-Advances vc proposer svs d.logs.new n
