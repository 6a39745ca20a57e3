-- ===== src/Console/Wake.antt =====
-- console.rs: no process waits for a line, since the queue for them is never set up.
use mina_os.Base.{
  ℕ, ◌≡◌, refl, ◌∙◌, ◌||◌, none, some, List, [], ◌∷◌, ◌++◌, ltb, ◌==◌, length, Bool-cases, inl, inr,
}
use mina_os.Console.{
  Console, default_in_buffer_size, wake, push_stdin, pop_stdin, pust_stdout, push_queue, init,
}
use mina_os.Console.Fifo.{Call, push, pop, put, queue, step, run}

abbrev Idle : Console → Console → Type 0
Idle s s' = (s'.console_queue ≡ none) × (s'.running ≡ s.running)

wake_unset : (s : Console) → s.console_queue ≡ none → Idle s (wake s)
unfolding wake
wake_unset s e = rw e (refl, refl)

push_unset : (c : ℕ) (s : Console) → s.console_queue ≡ none → Idle s (push_stdin c s)
unfolding push_stdin
push_unset c s e = elim s.in_buffer as (λ b. Idle s (push_stdin c (record s { in_buffer = b }))) [
  | none ↦ (e, refl)
  | some buf ↦ elim (Bool-cases (ltb (length buf) default_in_buffer_size)) [
    | inr f ↦ rw f (e, refl)
    | inl t ↦ rw t (elim (Bool-cases ((c == 10) || (c == 11))) [
      | inl l ↦ rw l (wake_unset (record s { in_buffer = some (buf ++ (c ∷ [])) }) e)
      | inr l ↦ rw l (e, refl)
    ])
  ]
]

step_unset : (c : Call) (s : Console) → s.console_queue ≡ none → Idle s (step c s)
unfolding step pop_stdin pust_stdout push_queue
step_unset (push c) s e = push_unset c s e
step_unset pop s e = elim s.in_buffer as (λ b. Idle s (pop_stdin (record s { in_buffer = b })).1) [
  | none ↦ (e, refl)
  | some buf ↦ (e, refl)
]
step_unset (put c) s e =
    elim s.out_buffer as (λ b. Idle s (pust_stdout c (record s { out_buffer = b })).1) [
      | none ↦ (e, refl)
      | some buf ↦ (e, refl)
    ]
step_unset (queue pid) s e = rw e (refl, refl)

run_unset : (cs : List Call) (s : Console) → s.console_queue ≡ none → (run cs s).running ≡ s.running
unfolding run
run_unset [] s e = refl
run_unset (c ∷ cs) s e = let idle = step_unset c s e in run_unset cs (step c s) idle.0 ∙ idle.1

-- `init` does not set up the queue of waiting processes: while it is not, no history of calls sets
-- a process running, whatever is typed.
pub run-init_unset :
    (cs : List Call) (s : Console) → s.console_queue ≡ none → (run cs (init s)).running ≡ s.running
unfolding init
run-init_unset cs s e = run_unset cs (init s) e
