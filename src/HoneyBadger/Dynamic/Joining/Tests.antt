-- ===== src/HoneyBadger/Dynamic/Joining/Tests.antt =====
-- Node 0 completes its key generation with a batch, and node 4 joins by the plan of the batch.
use mina_os.Base.{ℕ, ◌≡◌, refl, some, [], ◌∷◌, ℕ_discrete}
use mina_os.Base.BTreeMap.{get, insert}
use mina_os.HoneyBadger.Deps.{ok, complete, node_change, change_state_eq}
use mina_os.HoneyBadger.Votes.{add_committed_votes, add_committed_vote, validate}
use mina_os.HoneyBadger.KeyGen.{take_ready_key_gen, restart_honey_badger}
use mina_os.HoneyBadger.Batch.{Batch, JoinPlan, join_plan}
use mina_os.HoneyBadger.Sample.{deps}
use mina_os.HoneyBadger.Sample.Badger.{gens, params}
use mina_os.HoneyBadger.Sample.Machine.{machine, world, hb_batch}
use mina_os.HoneyBadger.Exec.{◌>>=◌, gets, modify, pure, lift}
use mina_os.HoneyBadger.Dynamic.{World}
use mina_os.HoneyBadger.Dynamic.Output.{process_batch}
use mina_os.HoneyBadger.Dynamic.Joining.{new_joining}
use mina_os.HoneyBadger.Dynamic.Joining.Agreement.{Agrees, new_joining-Agrees}

abbrev batch : Batch deps gens ℕ
batch = record {
  epoch = 7;
  era = 5;
  contributions = (1, 40) ∷ [];
  change = complete (node_change ((0, 10) ∷ (1, 11) ∷ (4, 14) ∷ []));
  pub_keys = (0, 10) ∷ (1, 11) ∷ (4, 14) ∷ [];
  netinfo = record { our_id = 0; public_key_set = 3; all_ids = 0 ∷ 1 ∷ 4 ∷ [] };
  params = params 7;
}

abbrev plan : JoinPlan deps gens
plan = record {
  era = 8;
  change = batch.change;
  pub_keys = batch.pub_keys;
  pub_key_set = 3;
  params = params 7;
}

abbrev after : World deps gens ℕ machine
after = (process_batch deps gens ℕ machine [] hb_batch world).1

made : process_batch deps gens ℕ machine [] hb_batch world ≡ (ok (batch ∷ []), after)
unfolding process_batch ◌>>=◌ gets add_committed_votes add_committed_vote get ℕ_discrete validate
    modify pure take_ready_key_gen lift insert restart_honey_badger
made = refl

planned : join_plan deps gens ℕ batch ≡ some plan
unfolding join_plan change_state_eq
planned = refl

new_joining-Agrees_example :
    Agrees deps gens ℕ machine after.node 4 14 (new_joining deps gens ℕ machine 4 14 plan 0)
new_joining-Agrees_example =
    new_joining-Agrees deps gens ℕ machine [] (batch ∷ []) hb_batch world after batch plan 4 14 0
      made refl planned
