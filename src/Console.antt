-- ===== src/Console.antt =====
-- minaos/src/console.rs: the buffers of the console, and the processes that wait for a line.
-- A static that is not set up yet is `none`.  The locks are left out: each operation is one step.
pub mod Fifo
pub mod Wake
mod Tests
use mina_os.Base.{
  ℕ, zero, suc, Bool, true, false, ◌||◌, Option, none, some, List, [], ◌∷◌, ◌++◌, ltb, ◌==◌,
  if◌then◌else◌, length,
}

abbrev pub default_out_buffer_size : ℕ
default_out_buffer_size = 10_000

abbrev pub default_in_buffer_size : ℕ
default_in_buffer_size = 1_000

-- The oldest byte and the longest waiting process come first.  `running` has the processes that
-- were set running, newest first.
pub record Console : Type 0 where
  pub in_buffer : Option (List ℕ)
  pub out_buffer : Option (List ℕ)
  pub console_queue : Option (List ℕ)
  pub running : List ℕ

unfoldable pub init : Console → Console
init s = record s { in_buffer = some []; out_buffer = some [] }

-- `pop_front`, and the rest.
unfoldable pub pop_front : List ℕ → Option ℕ × List ℕ
pop_front [] = (none, [])
pop_front (c ∷ cs) = (some c, cs)

abbrev pub unwrap_or : Option ℕ → ℕ → ℕ
unwrap_or none d = d
unwrap_or (some c) d = c

-- As written: the byte that is given is not used, and a byte is taken.
unfoldable pub pust_stdout : ℕ → Console → ℕ × Console
unfolding pop_front
pust_stdout c s = elim s.out_buffer [
  | none ↦ (0, s)
  | some buf ↦ (unwrap_or (pop_front buf).0 0, record s { out_buffer = some (pop_front buf).1 })
]

-- `for i in q.drain(..) { set_running(i) }`.
unfoldable pub drain : List ℕ → List ℕ → List ℕ
drain [] running = running
drain (i ∷ q) running = drain q (i ∷ running)

unfoldable pub wake : Console → Console
unfolding drain
wake s = elim s.console_queue [
  | none ↦ s
  | some q ↦ record s { console_queue = some []; running = drain q s.running }
]

unfoldable pub push_stdin : ℕ → Console → Console
unfolding wake
push_stdin c s = elim s.in_buffer [
  | none ↦ s
  | some buf ↦
      if ltb (length buf) default_in_buffer_size
      then (let s' = record s { in_buffer = some (buf ++ (c ∷ [])) } in
          if (c == 10) || (c == 11) then wake s' else s')
      else s
]

unfoldable pub pop_stdin : Console → ℕ × Console
unfolding pop_front
pop_stdin s = elim s.in_buffer [
  | none ↦ (0, s)
  | some buf ↦ (unwrap_or (pop_front buf).0 0, record s { in_buffer = some (pop_front buf).1 })
]

unfoldable pub push_queue : ℕ → Console → Console
push_queue pid s = elim s.console_queue [
  | none ↦ s
  | some q ↦ record s { console_queue = some (q ++ (pid ∷ [])) }
]
