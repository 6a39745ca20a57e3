-- ===== src/HoneyBadger/Votes/Travel.antt =====
-- votes.rs: a vote from the node that signs it to another node's counter.
use mina_os.Base.{◌≡◌, refl, sym, ap, true, false, some}
use mina_os.Base.BTreeMap.{get, get-insert_self}
use mina_os.HoneyBadger.Deps.{Deps, Except, ok, Change}
use mina_os.HoneyBadger.Votes.{
  Vote, SignedVote, VoteCounter, next_num, find_pending, is_outdated, validate, sign_vote_for,
  accept_pending, add_pending_vote, add_committed_vote,
}
use mina_os.HoneyBadger.Votes.Batches.{IsTaken, add_committed_vote-Honest}

module _ (d : Deps) (serialize : Vote d → Except d.SerializeError d.Bytes) where
  open d use {PublicKey, NodeId, Bytes, node_ord}

  -- The vote that a counter signs next for a change.
  abbrev pub next_vote : VoteCounter d → Change d → Vote d
  next_vote vc change = record {
    change = change;
    era = vc.era;
    num = next_num d (find_pending d vc vc.our_id);
  }

  abbrev signed_next : VoteCounter d → Change d → Bytes → SignedVote d
  signed_next vc change ser = record {
    vote = next_vote vc change;
    voter = vc.our_id;
    sig = d.sign vc.secret_key ser;
  }

  sign_vote_for-ok :
      (vc : VoteCounter d) (change : Change d) (ser : Bytes)
      → serialize (next_vote vc change) ≡ ok ser
      → let out = sign_vote_for d serialize vc change in
        (out.0 ≡ ok (signed_next vc change ser))
        × (find_pending d out.1 vc.our_id ≡ some (signed_next vc change ser))
  unfolding sign_vote_for
  sign_vote_for-ok vc change ser h =
      rw (h, sign_vote_for) (refl, get-insert_self ⦃o = node_ord⦄ vc.our_id _ _)

  add_pending_vote-valid :
      (vc : VoteCounter d) (sender : NodeId) (sv : SignedVote d)
      → is_outdated d serialize vc sv ≡ false
      → validate d serialize vc sv ≡ ok true
      → let out = add_pending_vote d serialize vc sender sv in
        (out.0 ≡ ok d.logs.new) × (find_pending d out.1 sv.voter ≡ some sv)
  unfolding add_pending_vote accept_pending
  add_pending_vote-valid vc sender sv f h =
      rw (f, h, accept_pending) (refl, get-insert_self ⦃o = node_ord⦄ sv.voter sv vc.pending)

  validate-next :
      (vc vc2 : VoteCounter d) (change : Change d) (pk : PublicKey) (ser : Bytes)
      → get ⦃o = node_ord⦄ vc2.pub_keys vc.our_id ≡ some pk
      → d.verify pk (d.sign vc.secret_key ser) ser ≡ true
      → serialize (next_vote vc change) ≡ ok ser
      → validate d serialize vc2 (signed_next vc change ser) ≡ ok true
  unfolding validate
  validate-next vc vc2 change pk ser k v h = rw (h, k, validate) (ap ok v)

  -- What becomes of a vote `sv` that a counter signs and another counter is given.
  pub record Travels (vc vc2 : VoteCounter d) (change : Change d) (sender proposer : NodeId)
      (sv : SignedVote d) : Type 0 where
    pub signs : (sign_vote_for d serialize vc change).0 ≡ ok sv
    pub keeps : find_pending d (sign_vote_for d serialize vc change).1 vc.our_id ≡ some sv
    pub names : (sv.voter ≡ vc.our_id) × (sv.vote ≡ next_vote vc change)
    pub welcome : (add_pending_vote d serialize vc2 sender sv).0 ≡ ok d.logs.new
    pub waits : find_pending d (add_pending_vote d serialize vc2 sender sv).1 vc.our_id ≡ some sv
    pub commits : (add_committed_vote d serialize vc2 proposer sv).0 ≡ ok d.logs.new
    pub counts : IsTaken d serialize (add_committed_vote d serialize vc2 proposer sv).1 sv

  -- Where the vote is serialized, and another counter of the same era has a key for the signing
  -- node that verifies what that node signs, and no pending vote of that node that is as new, a vote
  -- for a change is signed and kept with the next number, the other counter takes it from any sender
  -- as pending and from any proposer as committed, and neither is a fault; committed, it stands unless
  -- a vote of at least its number does.
  pub sign_vote_for-Travels :
      (vc vc2 : VoteCounter d) (change : Change d) (sender proposer : NodeId) (pk : PublicKey)
      (ser : Bytes)
      → serialize (next_vote vc change) ≡ ok ser
      → vc2.era ≡ vc.era
      → get ⦃o = node_ord⦄ vc2.pub_keys vc.our_id ≡ some pk
      → d.verify pk (d.sign vc.secret_key ser) ser ≡ true
      → is_outdated d serialize vc2 (signed_next vc change ser) ≡ false
      → (sv : SignedVote d) × Travels vc vc2 change sender proposer sv
  sign_vote_for-Travels vc vc2 change sender proposer pk ser h e k v new =
      let sv = signed_next vc change ser in
      let genuine = validate-next vc vc2 change pk ser k v h in
      let pend = add_pending_vote-valid vc2 sender sv new genuine in
      let commit = add_committed_vote-Honest d serialize vc2 proposer sv (sym e, genuine) in
      (
        signed_next vc change ser,
        record {
          signs = (sign_vote_for-ok vc change ser h).0;
          keeps = (sign_vote_for-ok vc change ser h).1;
          names = (refl, refl);
          welcome = pend.0;
          waits = pend.1;
          commits = commit.no_fault;
          counts = commit.taken;
        },
      )
