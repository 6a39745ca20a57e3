-- ===== src/HoneyBadger/Votes/History.antt =====
-- votes.rs: any history of method calls on a counter.
use mina_os.Base.{ℕ, List, [], ◌∷◌}
use mina_os.HoneyBadger.Deps.{Deps, Except, PubKeyMap, Change}
use mina_os.HoneyBadger.Votes.{
  Vote, SignedVote, VoteCounter, new, sign_vote_for, add_pending_vote, add_committed_votes,
}
use mina_os.HoneyBadger.Votes.Integrity.{
  IsValid, KeyFits, new-IsValid, sign_vote_for-IsValid, add_pending_vote-IsValid,
  add_committed_votes-IsValid,
}
use mina_os.HoneyBadger.Votes.Frame.{
  SameKeys, sign_vote_for-SameKeys, add_pending_vote-SameKeys, add_committed_votes-SameKeys,
}

module _ (d : Deps) (serialize : Vote d → Except d.SerializeError d.Bytes) where
  -- A call of a method that changes the counter.
  pub data Call : Type 0 where
    sign : Change d → Call
    pend : d.NodeId → SignedVote d → Call
    commit : d.NodeId → List (SignedVote d) → Call

  pub call : VoteCounter d → Call → VoteCounter d
  call vc (sign c) = (sign_vote_for d serialize vc c).1
  call vc (pend sender sv) = (add_pending_vote d serialize vc sender sv).1
  call vc (commit proposer svs) = (add_committed_votes d serialize vc proposer svs).1

  pub run : VoteCounter d → List Call → VoteCounter d
  run vc [] = vc
  run vc (c ∷ cs) = run (call vc c) cs

  call-IsValid :
      (vc : VoteCounter d) (c : Call)
      → KeyFits d serialize vc
      → IsValid d serialize vc
      → IsValid d serialize (call vc c)
  unfolding call
  call-IsValid vc (sign c) k v = sign_vote_for-IsValid d serialize vc c k v
  call-IsValid vc (pend sender sv) k v = add_pending_vote-IsValid d serialize vc sender sv v
  call-IsValid vc (commit proposer svs) k v =
      add_committed_votes-IsValid d serialize vc proposer svs v

  call-SameKeys : (vc : VoteCounter d) (c : Call) → SameKeys d serialize vc (call vc c)
  unfolding call
  call-SameKeys vc (sign c) = sign_vote_for-SameKeys d serialize vc c
  call-SameKeys vc (pend sender sv) = add_pending_vote-SameKeys d serialize vc sender sv
  call-SameKeys vc (commit proposer svs) = add_committed_votes-SameKeys d serialize vc proposer svs

  KeyFits-SameKeys :
      (vc vc' : VoteCounter d)
      → SameKeys d serialize vc vc'
      → KeyFits d serialize vc
      → KeyFits d serialize vc'
  unfolding KeyFits
  KeyFits-SameKeys vc vc' s k = rw (s.our_id, s.secret_key, s.pub_keys) k

  run-IsValid :
      (cs : List Call) (vc : VoteCounter d)
      → KeyFits d serialize vc
      → IsValid d serialize vc
      → IsValid d serialize (run vc cs)
  unfolding run
  run-IsValid [] vc k v = v
  run-IsValid (c ∷ cs) vc k v =
      run-IsValid cs (call vc c) (KeyFits-SameKeys vc (call vc c) (call-SameKeys vc c) k)
        (call-IsValid vc c k v)

  -- After any history of calls on a new counter whose secret key belongs to its public key, each
  -- node has at most one pending and one committed vote; the pending vote is the node's and
  -- verifies under its key; the committed vote is of the counter's era and was signed by the node.
  pub run-new-IsValid :
      (our_id : d.NodeId) (sk : d.SecretKey) (pks : PubKeyMap d) (era : ℕ) (cs : List Call)
      → KeyFits d serialize (new d our_id sk pks era)
      → IsValid d serialize (run (new d our_id sk pks era) cs)
  run-new-IsValid our_id sk pks era cs k =
      run-IsValid cs (new d our_id sk pks era) k (new-IsValid d serialize our_id sk pks era)
