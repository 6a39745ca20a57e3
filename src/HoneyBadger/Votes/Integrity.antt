-- ===== src/HoneyBadger/Votes/Integrity.antt =====
-- votes.rs: what a counter holds is genuine, one vote for each voter.
use mina_os.Base.{
  ℕ, ◌≡◌, refl, Bool, true, false, some, List, [], ◌∷◌, ◌==◌, Bool-cases, ==_iff, inl, inr,
}
use mina_os.Base.BTreeMap.{
  IsSorted, get, insert, remove, get-insert-cases, get-remove-cases, remove-IsSorted,
  insert-IsSorted,
}
use mina_os.HoneyBadger.Deps.{
  Deps, Except, Except-cases, ok, err, PubKeyMap, Change, Result, FaultLog,
}
use mina_os.HoneyBadger.Votes.{
  Vote, SignedVote, VoteCounter, new, next_num, committed_reaches, is_outdated, find_pending,
  find_committed, verifies, validate, sign_vote_for, accept_pending, add_pending_vote,
  commit_checked, add_committed_vote, commit_each, add_committed_votes,
}

module _ (d : Deps) (serialize : Vote d → Except d.SerializeError d.Bytes) where
  open d use {NodeId, Signature, node_ord}

  -- A vote that validates under the counter's keys.
  abbrev pub IsGenuine : VoteCounter d → SignedVote d → Type 0
  IsGenuine vc sv = validate d serialize vc sv ≡ ok true

  -- A signed vote of `n` that stands for `v`.
  abbrev pub signed : NodeId → Vote d → Signature → SignedVote d
  signed n v sig = record { vote = v; voter = n; sig = sig }

  pub record IsValid (vc : VoteCounter d) : Type 0 where
    pub pending_sorted : IsSorted ⦃o = node_ord⦄ vc.pending
    pub committed_sorted : IsSorted ⦃o = node_ord⦄ vc.committed
    pub pending_genuine :
        (n : NodeId) (sv : SignedVote d)
        → find_pending d vc n ≡ some sv
        → (sv.voter ≡ n) × IsGenuine vc sv
    pub committed_genuine :
        (n : NodeId) (v : Vote d)
        → find_committed d vc n ≡ some v
        → (v.era ≡ vc.era) × (sig : Signature) × IsGenuine vc (signed n v sig)

  pub new-IsValid :
      (our_id : NodeId) (sk : d.SecretKey) (pks : PubKeyMap d) (era : ℕ)
      → IsValid (new d our_id sk pks era)
  unfolding new get
  new-IsValid our_id sk pks era = record {
    pending_sorted = tt;
    committed_sorted = tt;
    pending_genuine = λ n sv e. cc;
    committed_genuine = λ n v e. cc;
  }

  put_pending : VoteCounter d → SignedVote d → VoteCounter d
  put_pending vc sv = record vc { pending = insert ⦃o = node_ord⦄ sv.voter sv vc.pending }

  put_committed : VoteCounter d → SignedVote d → VoteCounter d
  put_committed vc sv = record vc {
    committed = insert ⦃o = node_ord⦄ sv.voter sv.vote vc.committed;
  }

  put_pending-IsValid :
      (vc : VoteCounter d) (sv : SignedVote d)
      → IsGenuine vc sv
      → IsValid vc
      → IsValid (put_pending vc sv)
  unfolding put_pending validate
  put_pending-IsValid vc sv g v = record {
    pending_sorted = insert-IsSorted ⦃o = node_ord⦄ sv.voter sv vc.pending v.pending_sorted;
    committed_sorted = v.committed_sorted;
    pending_genuine = λ n w e. elim (get-insert-cases ⦃o = node_ord⦄ sv.voter n sv w vc.pending e) [
      | inl (p, q) ↦ rw (← p, ← q) (refl, g)
      | inr (p, q) ↦ v.pending_genuine n w q
    ];
    committed_genuine = v.committed_genuine;
  }

  put_committed-IsValid :
      (vc : VoteCounter d) (sv : SignedVote d)
      → IsGenuine vc sv
      → sv.vote.era ≡ vc.era
      → IsValid vc
      → IsValid (put_committed vc sv)
  unfolding put_committed validate
  put_committed-IsValid vc sv g h v = record {
    pending_sorted = v.pending_sorted;
    committed_sorted =
        insert-IsSorted ⦃o = node_ord⦄ sv.voter sv.vote vc.committed v.committed_sorted;
    pending_genuine = v.pending_genuine;
    committed_genuine = λ n w e.
        elim (get-insert-cases ⦃o = node_ord⦄ sv.voter n sv.vote w vc.committed e) [
          | inl (p, q) ↦ rw (← p, ← q) (h, sv.sig, g)
          | inr (p, q) ↦ v.committed_genuine n w q
        ];
  }

  -- A new counter's own votes are genuine if its secret key belongs to its public key.
  unfoldable pub KeyFits : VoteCounter d → Type 0
  KeyFits vc =
      (ser : d.Bytes)
      → verifies d serialize (get ⦃o = node_ord⦄ vc.pub_keys vc.our_id) (d.sign vc.secret_key ser)
          ser
        ≡ true

  drop_own : VoteCounter d → VoteCounter d
  drop_own vc = record vc { pending = remove ⦃o = node_ord⦄ vc.our_id vc.pending }

  drop_own-IsValid : (vc : VoteCounter d) → IsValid vc → IsValid (drop_own vc)
  unfolding drop_own validate
  drop_own-IsValid vc v = record {
    pending_sorted = remove-IsSorted ⦃o = node_ord⦄ vc.our_id vc.pending v.pending_sorted;
    committed_sorted = v.committed_sorted;
    pending_genuine =
        λ n w e. v.pending_genuine n w (get-remove-cases ⦃o = node_ord⦄ vc.our_id n w vc.pending e);
    committed_genuine = v.committed_genuine;
  }

  pub sign_vote_for-IsValid :
      (vc : VoteCounter d) (c : Change d)
      → KeyFits vc
      → IsValid vc
      → IsValid (sign_vote_for d serialize vc c).1
  unfolding sign_vote_for KeyFits put_pending drop_own validate
  sign_vote_for-IsValid vc c fits v = elim (Except-cases (serialize vote)) [
    | inl (e, q) ↦ rw (q, sign_vote_for) v
    | inr (ser, q) ↦
        rw (q, sign_vote_for)
          (put_pending-IsValid (drop_own vc) (signed vc.our_id vote (d.sign vc.secret_key ser))
            (rw (q, validate, fits ser)) (drop_own-IsValid vc v))
  ]
    where
      vote : Vote d
      vote = record { change = c; era = vc.era; num = next_num d (find_pending d vc vc.our_id) }

  accept_pending-IsValid :
      (vc : VoteCounter d) (sender : NodeId) (sv : SignedVote d)
      → IsValid vc
      → IsValid (accept_pending d serialize vc sender sv).1
  unfolding accept_pending put_pending
  accept_pending-IsValid vc sender sv v = elim (Except-cases (validate d serialize vc sv)) [
    | inl (e, q) ↦ rw (q, accept_pending) v
    | inr (valid, q) ↦ elim (Bool-cases valid) [
      | inl t ↦ rw (q, accept_pending, t) (put_pending-IsValid vc sv (rw (q, t)) v)
      | inr f ↦ rw (q, accept_pending, f) v
    ]
  ]

  pub add_pending_vote-IsValid :
      (vc : VoteCounter d) (sender : NodeId) (sv : SignedVote d)
      → IsValid vc
      → IsValid (add_pending_vote d serialize vc sender sv).1
  unfolding add_pending_vote
  add_pending_vote-IsValid vc sender sv v = elim (Bool-cases (is_outdated d serialize vc sv)) [
    | inl t ↦ rw t (accept_pending-IsValid vc sender sv v)
    | inr f ↦ rw f (accept_pending-IsValid vc sender sv v)
  ]

  commit_checked-IsValid :
      (r : Result d Bool) (vc : VoteCounter d) (proposer : NodeId) (sv : SignedVote d)
      → validate d serialize vc sv ≡ r
      → sv.vote.era ≡ vc.era
      → IsValid vc
      → IsValid (commit_checked d serialize r vc proposer sv).1
  unfolding commit_checked put_committed
  commit_checked-IsValid (err e) vc proposer sv q h v = v
  commit_checked-IsValid (ok false) vc proposer sv q h v = v
  commit_checked-IsValid (ok true) vc proposer sv q h v = put_committed-IsValid vc sv q h v

  pub add_committed_vote-IsValid :
      (vc : VoteCounter d) (proposer : NodeId) (sv : SignedVote d)
      → IsValid vc
      → IsValid (add_committed_vote d serialize vc proposer sv).1
  unfolding add_committed_vote
  add_committed_vote-IsValid vc proposer sv v =
      elim (Bool-cases (committed_reaches d (find_committed d vc sv.voter) sv.vote.num)) [
        | inl t ↦ rw t v
        | inr f ↦ rw f (elim (Bool-cases (sv.vote.era == vc.era)) [
          | inr g ↦ rw g v
          | inl g ↦ rw g (commit_checked-IsValid _ vc proposer sv refl ((==_iff _ _).0 g) v)
        ])
      ]

  commit_each-IsValid :
      (vc : VoteCounter d) (proposer : NodeId) (svs : List (SignedVote d)) (log : FaultLog d)
      → IsValid vc
      → IsValid (commit_each d serialize vc proposer svs log).1
  unfolding commit_each
  commit_each-IsValid vc proposer [] log v = v
  commit_each-IsValid vc proposer (sv ∷ svs) log v =
      let v' = add_committed_vote-IsValid vc proposer sv v in
      elim (Except-cases (add_committed_vote d serialize vc proposer sv).0) [
        | inl (e, q) ↦ rw (q, commit_each) v'
        | inr (l, q) ↦
            rw (q, commit_each)
              (commit_each-IsValid (add_committed_vote d serialize vc proposer sv).1 proposer svs
                (d.logs.extend log l) v')
      ]

  pub add_committed_votes-IsValid :
      (vc : VoteCounter d) (proposer : NodeId) (svs : List (SignedVote d))
      → IsValid vc
      → IsValid (add_committed_votes d serialize vc proposer svs).1
  unfolding add_committed_votes
  add_committed_votes-IsValid vc proposer svs v = commit_each-IsValid vc proposer svs d.logs.new v
