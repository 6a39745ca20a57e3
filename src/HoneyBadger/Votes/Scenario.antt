-- ===== src/HoneyBadger/Votes/Scenario.antt =====
-- votes.rs: the unit tests of the module, as functions that return what they assert on.  `none` is a
-- panic: of `expect`, or of an index out of range.
use mina_os.Base.{ℕ, zero, suc, Option, none, some, List, [], ◌∷◌, get_elem?}
use mina_os.Base.BTreeMap.{BTreeMap, get, insert}
use mina_os.HoneyBadger.Deps.{
  Deps, Except, ok, err, PubKeyMap, FaultLog, Result, Change, node_change,
}
use mina_os.HoneyBadger.Votes.{
  Vote, SignedVote, VoteCounter, new, sign_vote_for, add_pending_vote, pending_votes,
  add_committed_votes, add_committed_vote, compute_winner,
}

infixl 5 ◌>>=◌
abbrev ◌>>=◌ : {A B : Type 0} → Option A → (A → Option B) → Option B
◌>>=◌ m f = elim m [ none ↦ none | some a ↦ f a ]

abbrev pure : {A : Type 0} → A → Option A
pure a = some a

-- `from..from + n`
abbrev range : ℕ → ℕ → List ℕ
range from zero = []
range from (suc n) = from ∷ range (suc from) n

module _ (d : Deps) (serialize : Vote d → Except d.SerializeError d.Bytes) (id : ℕ → d.NodeId)
    (gen : ℕ → d.SecretKey) (to_pub_keys : BTreeMap d.NodeId d.SecretKey → PubKeyMap d) where
  open d use {NodeId, SecretKey, node_ord}

  abbrev expect : {A : Type 0} → Result d A → Option A
  expect (ok a) = some a
  expect (err e) = none

  -- A counter after a call that is expected to succeed, with what it returned.
  abbrev expect_on : {A : Type 0} → Result d A × VoteCounter d → Option (A × VoteCounter d)
  expect_on (r, ct) = do a ← expect r; pure (a, ct)

  unfoldable pub collect_keys : List ℕ → BTreeMap NodeId SecretKey
  collect_keys [] = []
  collect_keys (n ∷ ns) = insert ⦃o = node_ord⦄ (id n) (gen n) (collect_keys ns)

  unfoldable pub create_counters :
      PubKeyMap d → ℕ → BTreeMap NodeId SecretKey → List (VoteCounter d)
  create_counters pub_keys era [] = []
  create_counters pub_keys era ((n, sk) ∷ keys) =
      new d n sk pub_keys era ∷ create_counters pub_keys era keys

  -- The votes of one counter, one for each node.
  unfoldable pub sign_votes :
      PubKeyMap d → List ℕ → VoteCounter d → Option (List (SignedVote d) × VoteCounter d)
  sign_votes pub_keys [] ct = some ([], ct)
  sign_votes pub_keys (j ∷ js) ct = do
    pk ← get ⦃o = node_ord⦄ pub_keys (id j)
    (sv, ct') ← expect_on (sign_vote_for d serialize ct (node_change ((id j, pk) ∷ [])))
    (svs, last) ← sign_votes pub_keys js ct'
    pure (sv ∷ svs, last)

  unfoldable pub sign_all :
      PubKeyMap d
      → List ℕ
      → List (VoteCounter d)
      → Option (List (VoteCounter d) × List (List (SignedVote d)))
  sign_all pub_keys js [] = some ([], [])
  sign_all pub_keys js (ct ∷ cts) = do
    (svs, ct') ← sign_votes pub_keys js ct
    (cts', rest) ← sign_all pub_keys js cts
    pure (ct' ∷ cts', svs ∷ rest)

  unfoldable pub setup : ℕ → ℕ → Option (List (VoteCounter d) × List (List (SignedVote d)))
  unfolding sign_all
  setup node_num era =
      let sec_keys = collect_keys (range 0 node_num) in
      let pub_keys = to_pub_keys sec_keys in
      sign_all pub_keys (range 0 node_num) (create_counters pub_keys era sec_keys)

  abbrev vote_at : List (List (SignedVote d)) → ℕ → ℕ → Option (SignedVote d)
  vote_at sv i j = do svs ← get_elem? sv i; get_elem? svs j

  -- The fault logs and the pending votes that `test_pending_votes` asserts on, in order.
  pub record PendingRun : Type 0 where
    pub first : FaultLog d
    pub fake : FaultLog d
    pub waiting : List (SignedVote d)
    pub outdated : FaultLog d
    pub second : FaultLog d
    pub updated : List (SignedVote d)
    pub left : List (SignedVote d)

  unfoldable pub test_pending_votes : Option PendingRun
  test_pending_votes = do
    (counters, sv) ← setup 4 5
    ct ← get_elem? counters 0
    sv12 ← vote_at sv 1 2
    (first, ct1) ← expect_on (add_pending_vote d serialize ct (id 1) sv12)
    sv21 ← vote_at sv 2 1
    sv31 ← vote_at sv 3 1
    (fake, ct2) ←
        expect_on (add_pending_vote d serialize ct1 (id 1) (record sv31 { sig = sv21.sig }))
    sv11 ← vote_at sv 1 1
    (outdated, ct3) ← expect_on (add_pending_vote d serialize ct2 (id 3) sv11)
    sv22 ← vote_at sv 2 2
    (second, ct4) ← expect_on (add_pending_vote d serialize ct3 (id 1) sv22)
    sv13 ← vote_at sv 1 3
    sv03 ← vote_at sv 0 3
    (log, ct5) ← expect_on (add_committed_votes d serialize ct4 (id 1) (sv13 ∷ sv21 ∷ sv03 ∷ []))
    pure (record {
      first = first;
      fake = fake;
      waiting = pending_votes d ct2;
      outdated = outdated;
      second = second;
      updated = pending_votes d ct4;
      left = pending_votes d ct5;
    })

  -- What `test_committed_votes` asserts on, in order.
  pub record CommittedRun : Type 0 where
    pub faults : FaultLog d
    pub early : Option (Change d)
    pub last : FaultLog d
    pub winner : Option (Change d)

  unfoldable pub test_committed_votes : Option CommittedRun
  test_committed_votes = do
    (counters, sv) ← setup 4 5
    ct ← get_elem? counters 0
    sv11 ← vote_at sv 1 1
    sv21 ← vote_at sv 2 1
    sv31 ← vote_at sv 3 1
    (faults, ct1) ←
        expect_on
          (add_committed_votes d serialize ct (id 1) (sv11 ∷ record sv31 { sig = sv21.sig } ∷ []))
    (last, ct2) ← expect_on (add_committed_vote d serialize ct1 (id 1) sv21)
    pure (record {
      faults = faults;
      early = compute_winner d ct1;
      last = last;
      winner = compute_winner d ct2;
    })
