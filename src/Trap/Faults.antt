-- ===== src/Trap/Faults.antt =====
-- trap.rs: a process that faults does not run on.
use mina_os.Base.{ℕ, ◌+◌, ◌*◌, ◌%◌, ◌≡◌, ◌≢◌, refl, sym, ap, ◌∙◌, subst, false}
use mina_os.Base.Word.{u16, u64}
use mina_os.Trap.{
  Kernel, switched, is_async, sync_trap, fault, switch, schedule_next_context_switch, m_trap,
}

-- Illegal instructions, access faults of a store, and page faults.
pub data IsFault : ℕ → Type 0 where
  illegal_instruction : IsFault 2
  store_access : IsFault 7
  instruction_page : IsFault 12
  load_page : IsFault 13
  store_page : IsFault 15

-- What the code relies on: a deleted process is gone, the scheduler picks a process that is there,
-- or none, and the timer leaves the processes alone.
pub record Processes (k : Kernel) : Type 1 where
  pub Alive : k.State → ℕ → Type 0
  pub deleted : (p : ℕ) (s : k.State) → ¬ Alive (k.delete_process p s) p
  pub scheduled :
      (s : k.State) → (k.schedule s).0 ≢ 0 → Alive s (u16 (k.pid (k.schedule s).1 (k.schedule s).0))
  pub pid-set_mtimecmp : (t : ℕ) (s : k.State) (f : ℕ) → k.pid (k.set_mtimecmp t s) f ≡ k.pid s f

switched_inj : (a b : ℕ) → switched a ≡ switched b → a ≡ b
switched_inj a b q = cc

module _ (k : Kernel) where
  sync_trap-fault :
      (n return_pc frame : ℕ) (s : k.State)
      → IsFault n
      → sync_trap k n return_pc frame s ≡ fault k frame s
  unfolding sync_trap
  sync_trap-fault _ return_pc frame s illegal_instruction = refl
  sync_trap-fault _ return_pc frame s store_access = refl
  sync_trap-fault _ return_pc frame s instruction_page = refl
  sync_trap-fault _ return_pc frame s load_page = refl
  sync_trap-fault _ return_pc frame s store_page = refl

  module _ (p : Processes k) where
    fault-other :
        (frame next : ℕ) (s s' : k.State)
        → fault k frame s ≡ (switched next, s')
        → next ≢ 0
        → u16 (k.pid s' next) ≢ u16 (k.pid s frame)
    unfolding fault switch schedule_next_context_switch
    fault-other frame next s s' q n same =
        let victim = u16 (k.pid s frame) in
        let s0 = k.delete_process victim s in
        let next_eq : (k.schedule s0).0 ≡ next = switched_inj _ _ (ap (λ r. r.0) q) in
        let t = u64 (k.mtime (k.schedule s0).1 + u64 (k.context_switch_time * 1)) in
        let state_eq : k.set_mtimecmp t (k.schedule s0).1 ≡ s' = ap (λ r. r.1) q in
        let alive = p.scheduled s0 (λ z. n (sym next_eq ∙ z)) in
        let pid_eq : u16 (k.pid (k.schedule s0).1 (k.schedule s0).0) ≡ victim =
          ap (λ f. u16 (k.pid (k.schedule s0).1 f)) next_eq
          ∙ ap u16 (sym (p.pid-set_mtimecmp t (k.schedule s0).1 next))
          ∙ ap (λ r. u16 (k.pid r next)) state_eq
          ∙ same in
        p.deleted victim s (subst (λ v. p.Alive s0 v) pid_eq alive)

    -- Where the processes are as the code relies on: after an illegal instruction, an access fault
    -- of a store, or a page fault, if the handler switches to a frame that is not null, that frame
    -- is of another process than the one that has trapped.
    pub m_trap-other :
        (epc cause frame next : ℕ) (s s' : k.State)
        → is_async cause ≡ false
        → IsFault (cause % 4096)
        → m_trap k epc cause frame s ≡ (switched next, s')
        → next ≢ 0
        → u16 (k.pid s' next) ≢ u16 (k.pid s frame)
    unfolding m_trap
    m_trap-other epc cause frame next s s' sync f q n =
        let to_fault : m_trap k epc cause frame s ≡ fault k frame s =
          rw (sync, m_trap) (sync_trap-fault (cause % 4096) epc frame s f) in
        fault-other frame next s s' (sym to_fault ∙ q) n
