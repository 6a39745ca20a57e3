-- ===== src/HoneyBadger/Votes/Tests.antt =====
-- votes.rs on four nodes: runs, and the theorems at concrete counters.
use mathlib.Core.Logic.Or
use mathlib.Core.List.{Permᴰ, Pairwise, mem-cons, not-mem-nil}
use mina_os.Base.{◌≡◌, refl, none, some, List, [], ◌∷◌, ℕ_discrete, ==_iff, arith, ◌≤◌, ◌<◌, ◌↔◌}
use mina_os.Base.BTreeMap.{get, insert}
use mina_os.HoneyBadger.Deps.{invalid_committed_vote, ok, Change, encryption_schedule, change_eq}
use mina_os.HoneyBadger.Votes.{
  VoteCounter, SignedVote, pending_votes, compute_winner, tally, raise, add_committed_votes,
  commit_each, add_committed_vote, commit_checked, validate, add_pending_vote, sign_vote_for,
  find_pending, find_committed, new, values,
}
use mina_os.HoneyBadger.Votes.Integrity.{IsValid, KeyFits}
use mina_os.HoneyBadger.Votes.History.{sign, pend, commit, run, run-new-IsValid}
use mina_os.HoneyBadger.Votes.Winner.{count, compute_winner_lem}
use mina_os.HoneyBadger.Votes.Order.{Advances, add_committed_votes-Advances}
use mina_os.HoneyBadger.Votes.Batches.{
  Blames, add_committed_votes-Blames, AllTaken, add_committed_votes-AllTaken,
}
use mina_os.HoneyBadger.Votes.Travel.{Travels, sign_vote_for-Travels}
use mina_os.HoneyBadger.Votes.Reorder.{Differs, add_committed_votes_perm}
use mina_os.HoneyBadger.Votes.Public.{SameVotes}
use mina_os.HoneyBadger.Sample.{deps, serialize, vote, signed_vote, counter}

first_vote :
    (sign_vote_for deps serialize counter (encryption_schedule 9)).0 ≡ ok (signed_vote 0 (vote 9 0))
unfolding sign_vote_for get ℕ_discrete
first_vote = refl

waiting : pending_votes deps counter ≡ signed_vote 2 (vote 7 4) ∷ []
unfolding pending_votes get ℕ_discrete
waiting = refl

abbrev two : List (SignedVote deps)
two = signed_vote 3 (vote 7 1) ∷ signed_vote 1 (vote 7 2) ∷ []

no_winner : compute_winner deps counter ≡ none
unfolding compute_winner tally raise change_eq ℕ_discrete
no_winner = refl

winner :
    compute_winner deps (add_committed_votes deps serialize counter 3 two).1
    ≡ some (encryption_schedule 7)
unfolding compute_winner tally raise change_eq add_committed_votes commit_each add_committed_vote
    commit_checked validate get insert ℕ_discrete
winner = refl

-- Node 1 sends an old vote of node 2.
abbrev old_vote : SignedVote deps
old_vote = signed_vote 2 (vote 8 1)

KeyFits-sample : KeyFits deps serialize (new deps 0 10 counter.pub_keys 5)
unfolding KeyFits new get ℕ_discrete
KeyFits-sample ser = (==_iff ser ser).1 refl

run-new-IsValid_example : IsValid deps serialize (
    run deps serialize
      (new deps 0 10 counter.pub_keys 5)
      (sign (encryption_schedule 9) ∷ pend 1 old_vote ∷ commit 3 two ∷ []))
run-new-IsValid_example =
    run-new-IsValid deps serialize 0 10 counter.pub_keys 5
      (sign (encryption_schedule 9) ∷ pend 1 old_vote ∷ commit 3 two ∷ []) KeyFits-sample

compute_winner_lem_example :
    ((c : Change deps)
      → compute_winner deps counter ≡ some c
      → 1 < count deps c (values deps counter.committed))
    × (compute_winner deps counter ≡ none
        ↔ ((c : Change deps) → count deps c (values deps counter.committed) ≤ 1))
compute_winner_lem_example = compute_winner_lem deps counter

add_committed_votes-Advances_example :
    Advances deps serialize
      (find_committed deps counter 1)
      (find_committed deps (add_committed_votes deps serialize counter 3 two).1 1)
add_committed_votes-Advances_example = add_committed_votes-Advances deps serialize counter 3 two 1

add_committed_votes-Blames_example : Blames deps serialize 3 ((3, invalid_committed_vote) ∷ [])
unfolding add_committed_votes commit_each add_committed_vote commit_checked validate get ℕ_discrete
add_committed_votes-Blames_example =
    add_committed_votes-Blames deps serialize counter 3
      (record (signed_vote 3 (vote 7 1)) { sig = (12, 0) } ∷ []) ((3, invalid_committed_vote) ∷ [])
      refl

add_committed_votes-AllTaken_example :
    AllTaken deps serialize [] two (add_committed_votes deps serialize counter 3 two)
unfolding validate get ℕ_discrete
add_committed_votes-AllTaken_example =
    add_committed_votes-AllTaken deps serialize counter 3 two ((refl, refl), ((refl, refl), tt))

-- The newer vote number 4 of node 2 is gone, since the value of the early exit is dropped.
old_vote_taken :
    ((add_pending_vote deps serialize counter 1 old_vote).0 ≡ ok [])
    × (find_pending deps (add_pending_vote deps serialize counter 1 old_vote).1 2 ≡ some old_vote)
unfolding validate get ℕ_discrete add_pending_vote insert
old_vote_taken = (refl, refl)

-- Two votes of node 2, the newer one last.
abbrev changed : List (SignedVote deps)
changed = signed_vote 2 (vote 8 5) ∷ signed_vote 2 (vote 9 6) ∷ []

abbrev changed_back : List (SignedVote deps)
changed_back = signed_vote 2 (vote 9 6) ∷ signed_vote 2 (vote 8 5) ∷ []

changed-Pairwise : Pairwise (Differs deps serialize) changed
changed-Pairwise =
    Pairwise.cons
      (λ sv m.
        Or.elim (hlevel) (mem-cons.0 m) (λ e. rw e (λ p. omega arith))
          (λ n. absurd (not-mem-nil n)))
      (Pairwise.cons (λ sv m. absurd (not-mem-nil m)) Pairwise.nil)

-- The counter of node 3, which has nothing pending.
abbrev other : VoteCounter deps
other = record counter { our_id = 3; secret_key = 13; pending = [] }

add_committed_votes_perm_example :
    let vc1 = (add_committed_votes deps serialize counter 1 changed).1 in
    let vc2 = (add_committed_votes deps serialize other 3 changed_back).1 in
    SameVotes deps vc1 vc2 × (compute_winner deps vc1 ≡ compute_winner deps vc2)
add_committed_votes_perm_example =
    add_committed_votes_perm deps serialize counter other 1 3 changed changed_back
      (record { era = refl; pub_keys = refl; committed = refl }) (Permᴰ.swap refl refl)
      changed-Pairwise ((_, refl), ((_, refl), tt)) ((_, refl), ((_, refl), tt))

-- Node 0 votes, and node 1 hears of it from node 3.
sign_vote_for-Travels_example :
    (sv : SignedVote deps) × Travels deps serialize counter
      (new deps 1 11 counter.pub_keys 5)
      (encryption_schedule 9)
      3
      2
      sv
unfolding get ℕ_discrete new
sign_vote_for-Travels_example =
    sign_vote_for-Travels deps serialize counter (new deps 1 11 counter.pub_keys 5)
      (encryption_schedule 9) 3 2 10 5000109 refl refl refl refl refl
