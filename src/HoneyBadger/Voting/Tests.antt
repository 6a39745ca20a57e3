-- ===== src/HoneyBadger/Voting/Tests.antt =====
-- A validator votes to add a node and to remove one, and the theorem at a concrete input.
use mina_os.Base.{◌≡◌, refl, Option, some, [], ◌∷◌, ℕ_discrete}
use mina_os.Base.BTreeMap.{insert, remove}
use mina_os.HoneyBadger.Deps.{Result, Change, ok, encryption_schedule, node_change}
use mina_os.HoneyBadger.Votes.{sign_vote_for}
use mina_os.HoneyBadger.Sample
use mina_os.HoneyBadger.Sample.Badger.{gens, badger}
use mina_os.HoneyBadger.Sample.{deps, counter}
use mina_os.HoneyBadger.KeyGen.{Message, signed_vote}
use mina_os.HoneyBadger.Voting.{
  vote_for, vote_to_add, vote_to_remove, Announced, vote_for-Announced,
}

-- The change that a step carries, if it carries a vote.
abbrev change_of : Result deps (Option (Message deps gens)) → Change deps
change_of (ok (some (signed_vote sv))) = sv.vote.change
change_of _ = encryption_schedule 0

added_keys :
    change_of (vote_to_add deps gens Sample.serialize badger 7 17).0
    ≡ node_change ((0, 10) ∷ (1, 11) ∷ (2, 12) ∷ (3, 13) ∷ (7, 17) ∷ [])
unfolding vote_to_add sign_vote_for insert ℕ_discrete
added_keys = refl

removed_keys :
    change_of (vote_to_remove deps gens Sample.serialize badger 2).0
    ≡ node_change ((0, 10) ∷ (1, 11) ∷ (3, 13) ∷ [])
unfolding vote_to_remove sign_vote_for remove ℕ_discrete
removed_keys = refl

vote_for-Announced_example :
    Announced deps gens Sample.serialize badger
      (encryption_schedule 9)
      (vote_for deps gens Sample.serialize badger (encryption_schedule 9)).0
      (vote_for deps gens Sample.serialize badger (encryption_schedule 9)).1
vote_for-Announced_example =
    vote_for-Announced deps gens Sample.serialize badger (encryption_schedule 9)
