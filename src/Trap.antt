-- ===== src/Trap.antt =====
-- minaos/src/trap.rs: what the machine does on a trap.
pub mod Faults
pub mod Switch
mod Tests
use mina_os.Base.{ℕ, ◌+◌, ◌*◌, ◌/◌, ◌%◌, ◌^◌, Bool, true, false, ◌||◌, ◌==◌, if◌then◌else◌, not}
use mina_os.Base.Word.{u16, u64}

-- The scheduler, the processes, the system calls, the interrupt controller and the timer.
-- `pid` is `(*frame).pid`.
pub record Kernel : Type 1 where
  pub State : Type 0
  pub context_switch_time : ℕ
  pub pid : State → ℕ → ℕ
  pub delete_process : ℕ → State → State
  pub schedule : State → ℕ × State
  pub do_syscall : ℕ → ℕ → State → State
  pub handle_interrupt : State → State
  pub mtime : State → ℕ
  pub set_mtimecmp : ℕ → State → State

-- The trap handler returns to a program counter, switches to a frame and does not return, or panics.
pub data Outcome : Type 0 where
  returned : ℕ → Outcome
  switched : ℕ → Outcome
  panicked : Outcome

unfoldable pub is_async : ℕ → Bool
is_async cause = (cause / 2 ^ 63) % 2 == 1

module _ (k : Kernel) where
  open k use {State}

  unfoldable pub schedule_next_context_switch : ℕ → State → State
  schedule_next_context_switch qm s =
      k.set_mtimecmp (u64 (k.mtime s + u64 (k.context_switch_time * qm))) s

  -- `schedule`, the timer, and `rust_switch_to_user`.
  unfoldable pub switch : State → Outcome × State
  unfolding schedule_next_context_switch
  switch s = let (frame, s') = k.schedule s in (switched frame, schedule_next_context_switch 1 s')

  -- The process of the frame is deleted, and another one runs.
  unfoldable pub fault : ℕ → State → Outcome × State
  unfolding switch
  fault frame s = switch (k.delete_process (u16 (k.pid s frame)) s)

  unfoldable pub tick : ℕ → State → Outcome × State
  unfolding schedule_next_context_switch
  tick return_pc s =
      let (new_frame, s') = k.schedule s in
      let s'' = schedule_next_context_switch 1 s' in
      if not (new_frame == 0) then (switched new_frame, s'') else (returned return_pc, s'')

  unfoldable pub async_trap : ℕ → ℕ → State → Outcome × State
  unfolding tick
  async_trap cause_num return_pc s =
      if cause_num == 3
      then (returned return_pc, s)
      else if cause_num == 7
      then tick return_pc s
      else if cause_num == 11
      then (returned return_pc, k.handle_interrupt s)
      else (panicked, s)

  unfoldable pub sync_trap : ℕ → ℕ → ℕ → State → Outcome × State
  unfolding fault switch
  sync_trap cause_num return_pc frame s =
      if cause_num == 2
      then fault frame s
      else if cause_num == 3
      then (returned (u64 (return_pc + 2)), s)
      else if cause_num == 7
      then fault frame s
      else if cause_num == 8 || cause_num == 9 || cause_num == 11
      then switch (k.do_syscall return_pc frame s)
      else if cause_num == 12
      then fault frame s
      else if cause_num == 13
      then fault frame s
      else if cause_num == 15
      then fault frame s
      else (panicked, s)

  -- `cause` is an argument that the signature of the source has lost.  The arguments that are only
  -- printed are left out.
  unfoldable pub m_trap : ℕ → ℕ → ℕ → State → Outcome × State
  unfolding async_trap sync_trap is_async
  m_trap epc cause frame s =
      let cause_num = cause % 4096 in
      if is_async cause then async_trap cause_num epc s else sync_trap cause_num epc frame s
