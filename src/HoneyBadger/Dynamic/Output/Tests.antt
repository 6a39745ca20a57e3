-- ===== src/HoneyBadger/Dynamic/Output/Tests.antt =====
-- The theorem on a batch at a node whose key generation is ready.
use mina_os.Base.{ℕ, refl, []}
use mina_os.HoneyBadger.Sample.{deps}
use mina_os.HoneyBadger.Sample.Badger.{gens}
use mina_os.HoneyBadger.Sample.Machine.{machine, world, hb_batch}
use mina_os.HoneyBadger.Exec.Rules.{Post}
use mina_os.HoneyBadger.Dynamic.Quiet.{Any}
use mina_os.HoneyBadger.Dynamic.Output.{process_batch}
use mina_os.HoneyBadger.Dynamic.Output.Made.{Made, process_batch-Made}

process_batch-Made_example :
    Post
      (Made deps gens ℕ machine [] 5 hb_batch)
      (Any deps gens ℕ machine)
      (process_batch deps gens ℕ machine [] hb_batch world).0
      (process_batch deps gens ℕ machine [] hb_batch world).1
process_batch-Made_example = process_batch-Made deps gens ℕ machine [] [] hb_batch world refl
