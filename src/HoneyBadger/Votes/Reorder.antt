-- ===== src/HoneyBadger/Votes/Reorder.antt =====
-- votes.rs: the order in which a batch's votes are committed.
use mathlib.Core.List.Permᴰ
use mathlib.Core.List.{Permᴰ, Pairwise, mem-cons_self}
use mina_os.Base.{
  ◌≡◌, ◌≢◌, refl, sym, ap, ◌∙◌, Bool, true, false, Option, none, some, List, [], ◌∷◌, arith,
  Bool-cases, ◌==◌, ◌&&◌, inl, inr, if◌then◌else◌, All,
}
use mina_os.Base.BTreeMap.{
  BTreeMap, get, insert, get-insert_self, get-insert_ne, insert_comm, insert-insert,
}
use mina_os.HoneyBadger.Deps.{Deps, Except, ok, err, Result, FaultLog}
use mina_os.HoneyBadger.Votes.{
  Vote, SignedVote, VoteCounter, find_committed, committed_reaches, verifies, validate,
  commit_checked, add_committed_vote, commit_each, add_committed_votes, compute_winner,
}
use mina_os.HoneyBadger.Votes.Public.{SameVotes, compute_winner_same, add_committed_votes-SameVotes}

module _ (d : Deps) (serialize : Vote d → Except d.SerializeError d.Bytes) where
  open d use {NodeId, node_ord}

  -- Two votes that are not of one voter with one number.
  abbrev pub Differs : SignedVote d → SignedVote d → Type 0
  Differs a b = ¬ ((a.voter ≡ b.voter) × (a.vote.num ≡ b.vote.num))

  abbrev passes : Result d Bool → Bool
  passes (ok valid) = valid
  passes (err e) = false

  abbrev good : VoteCounter d → SignedVote d → Bool
  good vc sv = (sv.vote.era == vc.era) && passes (validate d serialize vc sv)

  -- What a vote does to the committed votes.
  put : Bool → SignedVote d → BTreeMap NodeId (Vote d) → BTreeMap NodeId (Vote d)
  put fits sv m =
      if committed_reaches d (get ⦃o = node_ord⦄ m sv.voter) sv.vote.num
      then m
      else if fits
      then insert ⦃o = node_ord⦄ sv.voter sv.vote m
      else m

  puts : VoteCounter d → List (SignedVote d) → BTreeMap NodeId (Vote d) → BTreeMap NodeId (Vote d)
  puts vc [] m = m
  puts vc (sv ∷ svs) m = puts vc svs (put (good vc sv) sv m)

  commit_checked-put :
      (r : Result d Bool) (vc : VoteCounter d) (proposer : NodeId) (sv : SignedVote d)
      → (commit_checked d serialize r vc proposer sv).1 ≡ record vc {
        committed =
            if passes r then insert ⦃o = node_ord⦄ sv.voter sv.vote vc.committed else vc.committed;
      }
  unfolding commit_checked
  commit_checked-put (err e) vc proposer sv = refl
  commit_checked-put (ok false) vc proposer sv = refl
  commit_checked-put (ok true) vc proposer sv = refl

  add_committed_vote-put :
      (vc : VoteCounter d) (proposer : NodeId) (sv : SignedVote d)
      → (add_committed_vote d serialize vc proposer sv).1
        ≡ record vc { committed = put (good vc sv) sv vc.committed }
  unfolding add_committed_vote put
  add_committed_vote-put vc proposer sv =
      elim (Bool-cases (committed_reaches d (find_committed d vc sv.voter) sv.vote.num)) [
        | inl t ↦ rw t refl
        | inr f ↦
            rw (f, commit_checked-put _ vc proposer sv)
              (elim (Bool-cases (sv.vote.era == vc.era)) [ inl e ↦ rw e refl | inr e ↦ rw e refl ])
      ]

  put_bad : (a : SignedVote d) (m : BTreeMap NodeId (Vote d)) → put false a m ≡ m
  unfolding put
  put_bad a m = ground arith

  -- Of different voters.
  put_comm_ne :
      (a b : SignedVote d) (m : BTreeMap NodeId (Vote d))
      → a.voter ≢ b.voter
      → put true a (put true b m) ≡ put true b (put true a m)
  unfolding put
  put_comm_ne a b m h = ground (
    arith,
    get-insert_ne ⦃o = node_ord⦄ b.voter a.voter b.vote m,
    get-insert_ne ⦃o = node_ord⦄ a.voter b.voter a.vote m h,
    insert_comm ⦃o = node_ord⦄ a.voter b.voter a.vote b.vote m h,
  )

  -- Of one voter, with different numbers.
  put_comm_same :
      (n : NodeId) (a b : SignedVote d) (m : BTreeMap NodeId (Vote d)) (now : Option (Vote d))
      → a.voter ≡ n
      → b.voter ≡ n
      → get ⦃o = node_ord⦄ m n ≡ now
      → a.vote.num ≢ b.vote.num
      → put true a (put true b m) ≡ put true b (put true a m)
  unfolding put
  put_comm_same n a b m none p q e h =
      rw (p, q, e)
        (ground (
          arith,
          get-insert_self ⦃o = node_ord⦄ n a.vote m,
          get-insert_self ⦃o = node_ord⦄ n b.vote m,
          insert-insert ⦃o = node_ord⦄ n a.vote b.vote m,
          insert-insert ⦃o = node_ord⦄ n b.vote a.vote m,
          e,
        ))
  put_comm_same n a b m (some v) p q e h =
      rw (p, q, e)
        (ground (
          arith,
          get-insert_self ⦃o = node_ord⦄ n a.vote m,
          get-insert_self ⦃o = node_ord⦄ n b.vote m,
          insert-insert ⦃o = node_ord⦄ n a.vote b.vote m,
          insert-insert ⦃o = node_ord⦄ n b.vote a.vote m,
          e,
        ))

  put_comm :
      (f g : Bool) (a b : SignedVote d) (m : BTreeMap NodeId (Vote d))
      → Differs a b
      → put f a (put g b m) ≡ put g b (put f a m)
  put_comm false g a b m h = put_bad a (put g b m) ∙ ap (put g b) (sym (put_bad a m))
  put_comm true false a b m h = ap (put true a) (put_bad b m) ∙ sym (put_bad b (put true a m))
  put_comm true true a b m h = elim (node_ord.decide_eq a.voter b.voter) [
    | no p ↦ put_comm_ne a b m p
    | yes p ↦ put_comm_same b.voter a b m _ p refl refl (λ q. h (p, q))
  ]

  Differs-sym : (a b : SignedVote d) → Differs a b → Differs b a
  Differs-sym a b h e = h (sym e.0, sym e.1)

  puts_perm :
      (vc : VoteCounter d) {svs svs' : List (SignedVote d)}
      → Permᴰ svs svs'
      → Pairwise Differs svs
      → (m : BTreeMap NodeId (Vote d)) → puts vc svs m ≡ puts vc svs' m
  unfolding puts
  puts_perm vc Permᴰ.nil h m = refl
  puts_perm vc (Permᴰ.cons {a = a} {l₁ = l₁} e p) (Pairwise.cons h t) m =
      rw (← e) (puts_perm vc p t (put (good vc a) a m))
  puts_perm vc (Permᴰ.swap {a = a} {b = b} {l = l} e₁ e₂) (Pairwise.cons h t) m =
      rw (← e₁, ← e₂)
        (ap (puts vc l)
          (put_comm (good vc b) (good vc a) b a m (Differs-sym a b (h b mem-cons_self))))
  puts_perm vc (Permᴰ.trans p q) h m =
      puts_perm vc p h m
      ∙ puts_perm vc q (Permᴰ.pairwise {R = Differs} (λ a b. hlevel) Differs-sym p h) m

  -- The votes are serialized without an error.
  abbrev pub Serializes : List (SignedVote d) → Type 0
  Serializes svs = All (λ (sv : SignedVote d). (b : d.Bytes) × (serialize sv.vote ≡ ok b)) svs

  commit_checked-ok :
      (valid : Bool) (vc : VoteCounter d) (proposer : NodeId) (sv : SignedVote d)
      → (log : FaultLog d) × ((commit_checked d serialize (ok valid) vc proposer sv).0 ≡ ok log)
  unfolding commit_checked
  commit_checked-ok true vc proposer sv = (_, refl)
  commit_checked-ok false vc proposer sv = (_, refl)

  validate-ok :
      (vc : VoteCounter d) (sv : SignedVote d) (b : d.Bytes)
      → serialize sv.vote ≡ ok b
      → (valid : Bool) × (validate d serialize vc sv ≡ ok valid)
  unfolding validate
  validate-ok vc sv b h = (
    verifies d serialize (get ⦃o = node_ord⦄ vc.pub_keys sv.voter) sv.sig b,
    rw (h, validate) refl,
  )

  add_committed_vote-ok :
      (vc : VoteCounter d) (proposer : NodeId) (sv : SignedVote d) (b : d.Bytes)
      → serialize sv.vote ≡ ok b
      → (log : FaultLog d) × ((add_committed_vote d serialize vc proposer sv).0 ≡ ok log)
  unfolding add_committed_vote
  add_committed_vote-ok vc proposer sv b h =
      elim (Bool-cases (committed_reaches d (find_committed d vc sv.voter) sv.vote.num)) [
        | inl t ↦ rw t (_, refl)
        | inr f ↦
            rw (f, (validate-ok vc sv b h).1)
              (elim (Bool-cases (sv.vote.era == vc.era)) [
                | inl e ↦ rw e (commit_checked-ok _ vc proposer sv)
                | inr e ↦ rw e (commit_checked-ok false vc proposer sv)
              ])
      ]

  -- Whether a vote fits does not depend on the committed votes.
  puts_same :
      (vc : VoteCounter d) (c : BTreeMap NodeId (Vote d)) (svs : List (SignedVote d))
      (m : BTreeMap NodeId (Vote d))
      → puts (record vc { committed = c }) svs m ≡ puts vc svs m
  unfolding puts validate
  puts_same vc c [] m = refl
  puts_same vc c (sv ∷ svs) m = puts_same vc c svs (put (good vc sv) sv m)

  commit_each-puts :
      (vc : VoteCounter d) (proposer : NodeId) (svs : List (SignedVote d)) (log : FaultLog d)
      → Serializes svs
      → (commit_each d serialize vc proposer svs log).1
        ≡ record vc { committed = puts vc svs vc.committed }
  unfolding commit_each puts
  commit_each-puts vc proposer [] log h = refl
  commit_each-puts vc proposer (sv ∷ svs) log ((b, h), hs) =
      let (l, q) = add_committed_vote-ok vc proposer sv b h in
      rw (q, commit_each)
        (commit_each-puts (add_committed_vote d serialize vc proposer sv).1 proposer svs
            (d.logs.extend log l) hs
          ∙ rw (add_committed_vote-put vc proposer sv) (
              ap (λ m. record vc { committed = m })
                (puts_same vc (put (good vc sv) sv vc.committed) svs _)))

  one_counter :
      (vc : VoteCounter d) (proposer proposer' : NodeId) (svs svs' : List (SignedVote d))
      → Permᴰ svs svs'
      → Pairwise Differs svs
      → Serializes svs
      → Serializes svs'
      → (add_committed_votes d serialize vc proposer svs).1
        ≡ (add_committed_votes d serialize vc proposer' svs').1
  unfolding add_committed_votes
  one_counter vc proposer proposer' svs svs' p h z z' =
      commit_each-puts vc proposer svs d.logs.new z
      ∙ ap (λ m. record vc { committed = m }) (puts_perm vc p h vc.committed)
      ∙ sym (commit_each-puts vc proposer' svs' d.logs.new z')

  -- Two nodes' counters of one era, with the same public keys and the same committed votes, whatever
  -- their own ids, secret keys and pending votes are, commit a batch each, the second the first's
  -- votes in another order, and each from its own proposer: if every vote is serialized, and no two of
  -- them are of one voter with one number, then both counters have the same committed votes again, in
  -- the same era with the same keys, and compute the same winner.
  pub add_committed_votes_perm :
      (vc vc' : VoteCounter d) (proposer proposer' : NodeId) (svs svs' : List (SignedVote d))
      → SameVotes d vc vc'
      → Permᴰ svs svs'
      → Pairwise Differs svs
      → Serializes svs
      → Serializes svs'
      → let vc1 = (add_committed_votes d serialize vc proposer svs).1 in
        let vc2 = (add_committed_votes d serialize vc' proposer' svs').1 in
        SameVotes d vc1 vc2 × (compute_winner d vc1 ≡ compute_winner d vc2)
  add_committed_votes_perm vc vc' proposer proposer' svs svs' same p h z z' =
      (both, compute_winner_same d _ _ both)
    where
      both :
          SameVotes d
            (add_committed_votes d serialize vc proposer svs).1
            (add_committed_votes d serialize vc' proposer' svs').1
      both =
          rw (one_counter vc proposer proposer' svs svs' p h z z')
            (add_committed_votes-SameVotes d serialize vc vc' proposer' svs' same).1
