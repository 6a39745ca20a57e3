-- ===== src/HoneyBadger/Votes/Frame.antt =====
-- votes.rs: the identity, the keys and the era of a counter stay what they are.
use mina_os.Base.{◌≡◌, refl, true, false, List, Bool, [], ◌∷◌, arith, Bool-cases, inl, inr}
use mina_os.HoneyBadger.Deps.{Deps, Except, Except-cases, ok, err, Change, Result, FaultLog}
use mina_os.HoneyBadger.Votes.{
  Vote, SignedVote, VoteCounter, find_committed, committed_reaches, sign_vote_for, accept_pending,
  add_pending_vote, commit_checked, add_committed_vote, commit_each, add_committed_votes,
}

module _ (d : Deps) (serialize : Vote d → Except d.SerializeError d.Bytes) where
  open d use {NodeId}

  -- The fields that no method changes, but for the two maps.
  pub record SameKeys (vc vc' : VoteCounter d) : Type 0 where
    pub our_id : vc'.our_id ≡ vc.our_id
    pub secret_key : vc'.secret_key ≡ vc.secret_key
    pub pub_keys : vc'.pub_keys ≡ vc.pub_keys
    pub era : vc'.era ≡ vc.era

  SameKeys-refl : (vc : VoteCounter d) → SameKeys vc vc
  SameKeys-refl vc = record { our_id = refl; secret_key = refl; pub_keys = refl; era = refl }

  pub SameKeys-trans : (a b c : VoteCounter d) → SameKeys a b → SameKeys b c → SameKeys a c
  SameKeys-trans a b c p q = ground arith

  pub sign_vote_for-SameKeys :
      (vc : VoteCounter d) (c : Change d) → SameKeys vc (sign_vote_for d serialize vc c).1
  unfolding sign_vote_for
  sign_vote_for-SameKeys vc c = ground arith

  accept_pending-SameKeys :
      (vc : VoteCounter d) (sender : NodeId) (sv : SignedVote d)
      → SameKeys vc (accept_pending d serialize vc sender sv).1
  unfolding accept_pending
  accept_pending-SameKeys vc sender sv = ground arith

  pub add_pending_vote-SameKeys :
      (vc : VoteCounter d) (sender : NodeId) (sv : SignedVote d)
      → SameKeys vc (add_pending_vote d serialize vc sender sv).1
  unfolding add_pending_vote
  add_pending_vote-SameKeys vc sender sv = ground (arith, accept_pending-SameKeys vc sender sv)

  commit_checked-SameKeys :
      (r : Result d Bool) (vc : VoteCounter d) (proposer : NodeId) (sv : SignedVote d)
      → SameKeys vc (commit_checked d serialize r vc proposer sv).1
  unfolding commit_checked
  commit_checked-SameKeys (err e) vc proposer sv = SameKeys-refl vc
  commit_checked-SameKeys (ok false) vc proposer sv = SameKeys-refl vc
  commit_checked-SameKeys (ok true) vc proposer sv = ground arith

  add_committed_vote-SameKeys :
      (vc : VoteCounter d) (proposer : NodeId) (sv : SignedVote d)
      → SameKeys vc (add_committed_vote d serialize vc proposer sv).1
  unfolding add_committed_vote
  add_committed_vote-SameKeys vc proposer sv =
      elim (Bool-cases (committed_reaches d (find_committed d vc sv.voter) sv.vote.num)) [
        | inl t ↦ rw t (SameKeys-refl vc)
        | inr f ↦ rw f (commit_checked-SameKeys _ vc proposer sv)
      ]

  pub commit_each-SameKeys :
      (vc : VoteCounter d) (proposer : NodeId) (svs : List (SignedVote d)) (log : FaultLog d)
      → SameKeys vc (commit_each d serialize vc proposer svs log).1
  unfolding commit_each
  commit_each-SameKeys vc proposer [] log = SameKeys-refl vc
  commit_each-SameKeys vc proposer (sv ∷ svs) log =
      let first = add_committed_vote-SameKeys vc proposer sv in
      let vc1 = (add_committed_vote d serialize vc proposer sv).1 in
      elim (Except-cases (add_committed_vote d serialize vc proposer sv).0) [
        | inl (e, q) ↦ rw (q, commit_each) first
        | inr (l, q) ↦
            rw (q, commit_each)
              (SameKeys-trans vc vc1
                (commit_each d serialize vc1 proposer svs (d.logs.extend log l)).1 first
                (commit_each-SameKeys (add_committed_vote d serialize vc proposer sv).1 proposer svs
                  (d.logs.extend log l)))
      ]

  pub add_committed_votes-SameKeys :
      (vc : VoteCounter d) (proposer : NodeId) (svs : List (SignedVote d))
      → SameKeys vc (add_committed_votes d serialize vc proposer svs).1
  unfolding add_committed_votes
  add_committed_votes-SameKeys vc proposer svs = commit_each-SameKeys vc proposer svs d.logs.new
