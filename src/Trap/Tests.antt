-- ===== src/Trap/Tests.antt =====
-- Two processes, whose frames stand at 1 and 2, and the theorems on traps of the first.
use mina_os.Base.{ℕ, ◌+◌, ◌^◌, ◌≡◌, ◌≢◌, ◌⊎◌, refl, Bool, true, false, arith, ◌==◌, if◌then◌else◌}
use mina_os.Base.Word.{u16}
use mina_os.Trap.{Kernel, switched, returned, is_async, m_trap}
use mina_os.Trap.Faults.{Processes, illegal_instruction, m_trap-other}
use mina_os.Trap.Switch.{Ends, m_trap-Ends}

-- Which of the processes are there.
pub record Pair : Type 0 where
  pub first : Bool
  pub second : Bool

abbrev pick : Pair → ℕ
pick s = if s.first then 1 else if s.second then 2 else 0

abbrev delete : ℕ → Pair → Pair
delete p s = record {
  first = if p == 1 then false else s.first;
  second = if p == 2 then false else s.second;
}

abbrev kernel : Kernel
kernel = record {
  State = Pair;
  context_switch_time = 100;
  pid = λ s f. f;
  delete_process = delete;
  schedule = λ s. (pick s, s);
  do_syscall = λ pc f s. s;
  handle_interrupt = λ s. s;
  mtime = λ s. 5;
  set_mtimecmp = λ t s. s;
}

abbrev Alive : Pair → ℕ → Type 0
Alive s p = ((p ≡ 1) × (s.first ≡ true)) ⊎ ((p ≡ 2) × (s.second ≡ true))

deleted : (p : ℕ) (s : Pair) → ¬ Alive (delete p s) p
deleted p s h = ground arith

picked : (s : Pair) → pick s ≢ 0 → Alive s (u16 (pick s))
picked s n = ground arith

processes : Processes kernel
processes = record {
  Alive = Alive;
  deleted = deleted;
  scheduled = picked;
  pid-set_mtimecmp = λ t s f. refl;
}

abbrev both : Pair
both = record { first = true; second = true }

abbrev second : Pair
second = record { first = false; second = true }

switches : m_trap kernel 4096 2 1 both ≡ (switched 2, second)
unfolding m_trap
switches = refl

m_trap-other_example : u16 (kernel.pid second 2) ≢ u16 (kernel.pid both 1)
unfolding is_async
m_trap-other_example =
    m_trap-other kernel processes 4096 2 1 2 both second refl illegal_instruction switches (λ q. cc)

m_trap-Ends_example : Ends kernel (is_async 3) 3 4096 both (m_trap kernel 4096 3 1 both)
m_trap-Ends_example = m_trap-Ends kernel 4096 3 1 both

breakpoint : m_trap kernel 4096 3 1 both ≡ (returned 4098, both)
unfolding m_trap
breakpoint = refl

-- The highest bit of the cause is set.
interrupt : m_trap kernel 4096 (2 ^ 63 + 7) 1 both ≡ (switched 1, both)
unfolding m_trap
interrupt = refl
