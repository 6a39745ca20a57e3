-- ===== src/HoneyBadger/Dynamic/Calls/AgreementTests.antt =====
-- Nodes 0 and 3 of one network propose the same, with other calls before and after.
use mina_os.Base.{ℕ, ◌≡◌, refl, List, [], ◌∷◌, ◌++◌, ℕ_discrete}
use mina_os.Base.BTreeMap.{get, insert}
use mina_os.HoneyBadger.Deps.{encryption_schedule}
use mina_os.HoneyBadger.KeyGen.{
  signed_vote, key_gen, part, message_era, handle_key_gen_message, verify_signature,
}
use mina_os.HoneyBadger.Votes.{add_pending_vote, validate, pending_votes}
use mina_os.HoneyBadger.Exec.{◌>>=◌, gets, pure}
use mina_os.HoneyBadger.Sample
use mina_os.HoneyBadger.Sample.{deps, vote}
use mina_os.HoneyBadger.Sample.Badger.{gens}
use mina_os.HoneyBadger.Sample.Machine.{machine, world}
use mina_os.HoneyBadger.Sample.Working.{works, synchronous, peer, world-Alike}
use mina_os.HoneyBadger.Dynamic.Calls.{user, change, run_propose, handle_message}
use mina_os.HoneyBadger.Dynamic.Calls.Events.{Steady, Event, input, message, shown_by, agreed_by}
use mina_os.HoneyBadger.Dynamic.Calls.Agreement.{shown_by-agreed_by}
use mina_os.HoneyBadger.Dynamic.Calls.Prefix.{shown_by_prefix}
use mina_os.HoneyBadger.Batch.PublicView.{PublicView}

steady : Steady deps gens ℕ machine
steady = record {
  propose_netinfo = λ b c r. refl;
  propose_params = λ b c r. refl;
  message_netinfo = λ b n m. refl;
  message_params = λ b n m. refl;
}

abbrev events : List (Event deps gens ℕ machine)
events = input (user 40) ∷ input (change (encryption_schedule 9)) ∷ []

abbrev peer_events : List (Event deps gens ℕ machine)
peer_events =
    message 2 (signed_vote (Sample.signed_vote 2 (vote 7 4)))
    ∷ message 1 (key_gen 5 (part 8) (11, 16))
    ∷ input (user 40)
    ∷ []

same_batches :
    agreed_by deps gens ℕ machine events world ≡ agreed_by deps gens ℕ machine peer_events peer
unfolding message_era run_propose handle_message ◌>>=◌ gets add_pending_vote get validate ℕ_discrete
    pure insert pending_votes handle_key_gen_message verify_signature
same_batches = refl

shown_by-agreed_by_example :
    shown_by deps gens ℕ machine events world ≡ shown_by deps gens ℕ machine peer_events peer
shown_by-agreed_by_example =
    shown_by-agreed_by deps gens ℕ machine (λ g g'. g ≡ g') synchronous works steady events
      peer_events world peer world-Alike same_batches

-- Node 0 has not proposed yet.
shown_by_prefix_example :
    (more : List (PublicView deps gens ℕ)) × (shown_by deps gens ℕ machine peer_events peer
      ≡ shown_by deps gens ℕ machine (input (change (encryption_schedule 9)) ∷ []) world ++ more)
shown_by_prefix_example =
    shown_by_prefix deps gens ℕ machine (λ g g'. g ≡ g') synchronous works steady
      (input (change (encryption_schedule 9)) ∷ []) peer_events world peer
      (agreed_by deps gens ℕ machine peer_events peer) world-Alike refl
