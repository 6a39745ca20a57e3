-- ===== src/Console/Tests.antt =====
-- console.rs: a console that two processes wait for, and the theorems at concrete inputs.
use mina_os.Base.{◌≡◌, refl, none, some, List, [], ◌∷◌}
use mina_os.Console.{Console, init, drain, push_stdin, pop_stdin, pust_stdout}
use mina_os.Console.Fifo.{Call, push, pop, put, queue, run, taken, given, Holds, run-init-Holds}
use mina_os.Console.Wake.{run-init_unset}

abbrev unset : Console
unset = record { in_buffer = none; out_buffer = none; console_queue = none; running = [] }

abbrev waited : Console
waited = record {
  in_buffer = some (65 ∷ []);
  out_buffer = some [];
  console_queue = some (3 ∷ 4 ∷ []);
  running = 7 ∷ [];
}

abbrev calls : List Call
calls = queue 5 ∷ push 66 ∷ pop ∷ push 10 ∷ pop ∷ queue 6 ∷ []

waited_runs : run calls waited ≡ record {
  in_buffer = some (10 ∷ []);
  out_buffer = some [];
  console_queue = some (6 ∷ []);
  running = 5 ∷ 4 ∷ 3 ∷ 7 ∷ [];
}
unfolding run mina_os.Console.Fifo.step mina_os.Console.push_queue pop_stdin push_stdin
waited_runs = refl

run-init-Holds_example :
    Holds (taken calls (init unset)) (given calls (init unset)) (run calls (init unset))
run-init-Holds_example = run-init-Holds calls unset

run-init_unset_example : (run calls (init unset)).running ≡ []
run-init_unset_example = run-init_unset calls unset refl
