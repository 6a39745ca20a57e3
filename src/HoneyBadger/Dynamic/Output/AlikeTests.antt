-- ===== src/HoneyBadger/Dynamic/Output/AlikeTests.antt =====
-- Nodes 0 and 3 of one network, in the middle of a key generation, go through the same batch.
use mina_os.Base.{ℕ, ◌≡◌, refl, [], ◌∷◌}
use mina_os.HoneyBadger.Sample.{deps}
use mina_os.HoneyBadger.Sample.Badger.{gens}
use mina_os.HoneyBadger.Sample.Machine.{machine, world, hb_batch}
use mina_os.HoneyBadger.Sample.Working.{works, synchronous, peer, world-Alike}
use mina_os.HoneyBadger.Exec.Agree.{Returned}
use mina_os.HoneyBadger.Dynamic.Output.{process_output}
use mina_os.HoneyBadger.Dynamic.Output.AlikeContributions.{SameSteps}
use mina_os.HoneyBadger.Dynamic.Output.Alike.{process_output-SameSteps}

process_output-SameSteps_example :
    Returned
      (SameSteps deps gens ℕ machine (λ g g'. g ≡ g') synchronous [])
      (process_output deps gens ℕ machine (hb_batch ∷ []) world)
      (process_output deps gens ℕ machine (hb_batch ∷ []) peer)
process_output-SameSteps_example =
    process_output-SameSteps deps gens ℕ machine (λ g g'. g ≡ g') synchronous world peer
      (hb_batch ∷ []) (hb_batch ∷ []) works refl world-Alike
