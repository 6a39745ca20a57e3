-- ===== src/HoneyBadger/Votes/ScenarioTests.antt =====
-- votes.rs: what the unit tests of the module come to on the sample's keys.
use mina_os.Base.{ℕ, ◌+◌, ◌*◌, ◌≡◌, refl, Option, none, some, [], ◌∷◌, ℕ_discrete}
use mina_os.Base.BTreeMap.{get, insert, remove}
use mina_os.HoneyBadger.Deps.{
  Change, node_change, invalid_vote_signature, invalid_committed_vote, change_eq,
}
use mina_os.HoneyBadger.Votes.{
  SignedVote, new, sign_vote_for, validate, accept_pending, add_pending_vote, pending_votes,
  commit_checked, commit_each, add_committed_votes, add_committed_vote, raise, tally,
  compute_winner,
}
use mina_os.HoneyBadger.Votes.Scenario.{
  PendingRun, collect_keys, create_counters, sign_votes, sign_all, setup, test_pending_votes,
  test_committed_votes,
}
use mina_os.HoneyBadger.Sample.{deps, serialize}

-- The change to a network of node `j` alone.
abbrev change_to : ℕ → Change deps
change_to j = node_change ((j, 10 + j) ∷ [])

abbrev sv : ℕ → ℕ → SignedVote deps
sv i j = record {
  vote = record { change = change_to j; era = 5; num = j };
  voter = i;
  sig = (10 + i, 1 + 1000 * j + 5000000);
}

abbrev pending_run : Option (PendingRun deps serialize (λ n. n) (λ n. 10 + n) (λ m. m))
pending_run = test_pending_votes deps serialize (λ n. n) (λ n. 10 + n) (λ m. m)

-- The vote of node 2 that the test counts as pending was never given to the counter, and the
-- outdated vote of node 1 takes the place of the newer one.
pending_comes_to :
    pending_run
    ≡ some (record {
      first = [];
      fake = (1, invalid_vote_signature) ∷ [];
      waiting = sv 0 3 ∷ sv 1 2 ∷ [];
      outdated = [];
      second = [];
      updated = sv 0 3 ∷ sv 1 1 ∷ sv 2 2 ∷ [];
      left = sv 2 2 ∷ [];
    })
unfolding test_pending_votes setup sign_all sign_votes create_counters collect_keys sign_vote_for
    validate accept_pending add_pending_vote pending_votes commit_checked commit_each
    add_committed_votes add_committed_vote new get insert ℕ_discrete remove
pending_comes_to = refl

committed_comes_to :
    test_committed_votes deps serialize (λ n. n) (λ n. 10 + n) (λ m. m)
    ≡ some (record {
      faults = (1, invalid_committed_vote) ∷ [];
      early = none;
      last = [];
      winner = some (change_to 1);
    })
unfolding test_committed_votes setup sign_all sign_votes create_counters collect_keys sign_vote_for
    validate commit_checked commit_each add_committed_votes add_committed_vote new get insert
    ℕ_discrete raise tally compute_winner change_eq remove
committed_comes_to = refl
