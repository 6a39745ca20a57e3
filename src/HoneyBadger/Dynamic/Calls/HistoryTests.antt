-- ===== src/HoneyBadger/Dynamic/Calls/HistoryTests.antt =====
-- The theorem on histories of calls at a concrete node.
use mina_os.Base.{ℕ, ◌≡◌, refl, some, none, List, [], ◌∷◌, ℕ_discrete}
use mina_os.HoneyBadger.Deps.{encryption_schedule}
use mina_os.HoneyBadger.Votes
use mina_os.HoneyBadger.KeyGen.{DynamicHoneyBadger, part, key_gen, signed_vote}
use mina_os.HoneyBadger.Sample.{deps, counter, vote}
use mina_os.HoneyBadger.Sample.Badger.{gens, params, network}
use mina_os.HoneyBadger.Sample
use mina_os.HoneyBadger.Sample.Machine.{machine}
use mina_os.HoneyBadger.Dynamic.Sound.{IsSound}
use mina_os.HoneyBadger.Dynamic.Joining.{new, ids_eq}
use mina_os.HoneyBadger.Dynamic.Calls.{user, change}
use mina_os.HoneyBadger.Dynamic.Calls.Sound.{Call, input, message, after, after-new-IsSound}

-- Node 0 in era 5, which has just been made.
abbrev node : DynamicHoneyBadger deps gens
node = record {
  secret_key = 10;
  pub_keys = counter.pub_keys;
  max_future_epochs = 3;
  era = 5;
  vote_counter = Votes.new deps 0 10 counter.pub_keys 5;
  key_gen_msg_buffer = [];
  honey_badger = record { netinfo = network; params = params 7; epoch = 1 };
  key_gen_state = none;
}

made : new deps gens ℕ machine 10 counter.pub_keys network (params 7) 5 1 ≡ some node
unfolding new ids_eq ℕ_discrete
made = refl

-- It votes, gets a vote and a key generation message, and proposes.
abbrev calls : List (Call deps gens 10 ℕ machine)
calls =
    input (change (encryption_schedule 9))
    ∷ message 2 (signed_vote (Sample.signed_vote 2 (vote 9 3)))
    ∷ message 1 (key_gen 5 (part 8) (11, 16))
    ∷ input (user 40)
    ∷ []

after-new-IsSound_example :
    IsSound deps gens 10 (after deps gens 10 ℕ machine calls (record { node = node; rng = 3 })).node
after-new-IsSound_example =
    after-new-IsSound deps gens 10 ℕ machine counter.pub_keys network (params 7) 5 1 node 3 calls
      made
