-- ===== src/Trap/Switch.antt =====
-- trap.rs: every way in which the trap handler ends.
use mina_os.Base.{
  ℕ, ◌+◌, ◌%◌, ◌≡◌, ◌≢◌, refl, Bool, true, false, arith, ◌==◌, ◌||◌, not, if◌then◌else◌,
}
use mina_os.Base.Word.{u64}
use mina_os.Trap.{
  Kernel, Outcome, returned, switched, panicked, is_async, async_trap, sync_trap, tick, fault,
  switch, schedule_next_context_switch, m_trap,
}

module _ (k : Kernel) where
  open k use {State}

  -- The scheduler has picked the frame, and the timer is set after it.
  pub record Picked (frame : ℕ) (s : State) : Type 0 where
    pub before : State
    pub picked : (k.schedule before).0 ≡ frame
    pub timed : schedule_next_context_switch k 1 (k.schedule before).1 ≡ s

  -- No handler is for the number of an interrupt, or of an exception.
  abbrev pub Unhandled : Bool → ℕ → Type 0
  Unhandled true n = (n ≢ 3) × (n ≢ 7) × (n ≢ 11)
  Unhandled false n =
      (n ≢ 2) × (n ≢ 3) × (n ≢ 7) × (n ≢ 8) × (n ≢ 9) × (n ≢ 11) × (n ≢ 12) × (n ≢ 13) × (n ≢ 15)

  -- Of an interrupt (`true`) or an exception with its number, and the outcome with the state.
  abbrev pub Ends : Bool → ℕ → ℕ → State → Outcome × State → Type 0
  Ends is_async n epc s (switched frame, s') = Picked frame s'
  Ends true n epc s (returned pc, s') = pc ≡ epc
  Ends false n epc s (returned pc, s') = (n ≡ 3) × (pc ≡ u64 (epc + 2)) × (s' ≡ s)
  Ends is_async n epc s (panicked, s') = Unhandled is_async n × (s' ≡ s)

  test :
      (b c : Bool) (n epc : ℕ) (s : State) (x y : Outcome × State)
      → (c ≡ true → Ends b n epc s x)
      → (c ≡ false → Ends b n epc s y)
      → Ends b n epc s (if c then x else y)
  test b true n epc s x y hx hy = hx refl
  test b false n epc s x y hx hy = hy refl

  switch-Ends : (b : Bool) (n epc : ℕ) (s s0 : State) → Ends b n epc s (switch k s0)
  unfolding switch
  switch-Ends true n epc s s0 = record { before = s0; picked = refl; timed = refl }
  switch-Ends false n epc s s0 = record { before = s0; picked = refl; timed = refl }

  fault-Ends : (n epc frame : ℕ) (s : State) → Ends false n epc s (fault k frame s)
  unfolding fault
  fault-Ends n epc frame s = switch-Ends false n epc s _

  tick-Ends : (n epc : ℕ) (s : State) → Ends true n epc s (tick k epc s)
  unfolding tick
  tick-Ends n epc s =
      test true (not ((k.schedule s).0 == 0)) n epc s _ _
        (λ _. record { before = s; picked = refl; timed = refl }) (λ _. refl)

  async_trap-Ends : (n epc : ℕ) (s : State) → Ends true n epc s (async_trap k n epc s)
  unfolding async_trap
  async_trap-Ends n epc s =
      test true (n == 3) n epc s _ _ (λ _. refl)
        λ h3.
          test true (n == 7) n epc s _ _ (λ _. tick-Ends n epc s)
            λ h7. test true (n == 11) n epc s _ _ (λ _. refl) λ h11. (ground arith, refl)

  sync_trap-Ends : (n epc frame : ℕ) (s : State) → Ends false n epc s (sync_trap k n epc frame s)
  unfolding sync_trap
  sync_trap-Ends n epc frame s =
      test false (n == 2) n epc s _ _ (λ _. fault-Ends n epc frame s)
        λ h2.
          test false (n == 3) n epc s _ _ (λ h. (ground arith, refl, refl))
            λ h3.
              test false (n == 7) n epc s _ _ (λ _. fault-Ends n epc frame s)
                λ h7.
                  test false (n == 8 || n == 9 || n == 11) n epc s _ _
                    (λ _. switch-Ends false n epc s _)
                    λ hs.
                      test false (n == 12) n epc s _ _ (λ _. fault-Ends n epc frame s)
                        λ h12.
                          test false (n == 13) n epc s _ _ (λ _. fault-Ends n epc frame s)
                            λ h13.
                              test false (n == 15) n epc s _ _ (λ _. fault-Ends n epc frame s)
                                λ h15. (ground arith, refl)

  -- The handler switches only to a frame that the scheduler has picked, with the timer set after it.
  -- It returns from an interrupt to where that came, and from an exception only if that is a
  -- breakpoint, to two bytes behind it.  It panics only on a number that it has no case for; a
  -- breakpoint and a panic leave the machine as it is.
  pub m_trap-Ends :
      (epc cause frame : ℕ) (s : State)
      → Ends (is_async cause) (cause % 4096) epc s (m_trap k epc cause frame s)
  unfolding m_trap
  m_trap-Ends epc cause frame s =
      elim (is_async cause)
        as (λ b. Ends b (cause % 4096) epc s (
          if b
          then async_trap k (cause % 4096) epc s
          else sync_trap k (cause % 4096) epc frame s)) [
            | true ↦ async_trap-Ends (cause % 4096) epc s
            | false ↦ sync_trap-Ends (cause % 4096) epc frame s
          ]
