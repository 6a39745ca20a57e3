-- ===== src/Uart/Input.antt =====
-- uart.rs: what an interrupt of the port does to the console.
use Prim.Native.Nat.{bit_and}
use mina_os.Base.{
  ap, Option, ℕ, ◌≡◌, refl, false, ◌||◌, none, some, List, ◌∷◌, ltb, ◌==◌, length, Bool-cases, inl,
  inr,
}
use mina_os.Console.{Console, default_in_buffer_size, push_stdin}
use mina_os.Uart.{Event, got, line, Bus, handle_interrupt, get, new, echo}

-- What the interrupt finds: the status, and the byte behind it.
abbrev pub status : Bus → List Event → ℕ
status bus es = bus es 0x1000_0005

abbrev pub byte : Bus → List Event → ℕ
byte bus es = bus (got 0x1000_0005 (status bus es) ∷ es) 0x1000_0000

get-waiting :
    (bus : Bus) (es : List Event)
    → (bit_and (status bus es) 1 == 0) ≡ false
    → get bus (new 0x1000_0000) es
      ≡ (some (byte bus es), got 0x1000_0000 (byte bus es) ∷ got 0x1000_0005 (status bus es) ∷ es)
unfolding get new
get-waiting bus es h = rw h refl

handled :
    (bus : Bus) (es : List Event) (s : Console)
    → (bit_and (status bus es) 1 == 0) ≡ false
    → handle_interrupt bus es s ≡ (
      echo (byte bus es) ∷ got 0x1000_0000 (byte bus es) ∷ got 0x1000_0005 (status bus es) ∷ es,
      push_stdin (byte bus es) s,
    )
unfolding handle_interrupt
handled bus es s h =
    rw (get-waiting bus es h, handle_interrupt)
      (ap (λ (r : Option ℕ × List Event). (echo (byte bus es) ∷ r.1, push_stdin (byte bus es) s))
        (get-waiting bus es h))

other_byte :
    (c : ℕ) (s : Console)
    → ((c == 10) || (c == 11)) ≡ false
    → ((push_stdin c s).console_queue ≡ s.console_queue) × ((push_stdin c s).running ≡ s.running)
unfolding push_stdin
other_byte c s h =
    elim s.in_buffer
      as (λ b.
        ((push_stdin c (record s { in_buffer = b })).console_queue ≡ s.console_queue)
        × ((push_stdin c (record s { in_buffer = b })).running ≡ s.running)) [
          | none ↦ (refl, refl)
          | some buf ↦ elim (Bool-cases (ltb (length buf) default_in_buffer_size)) [
            | inl t ↦ rw (t, h) (refl, refl)
            | inr t ↦ rw t (refl, refl)
          ]
        ]

-- A carriage return that the port holds is read and shown as a new line, but wakes no process: the
-- processes that wait still wait, and none is set running.
pub handle_interrupt_return :
    (bus : Bus) (es : List Event) (s : Console)
    → (bit_and (status bus es) 1 == 0) ≡ false
    → byte bus es ≡ 13
    → let (es', s') = handle_interrupt bus es s in
      (es' ≡ line ∷ got 0x1000_0000 13 ∷ got 0x1000_0005 (status bus es) ∷ es)
      × (s'.console_queue ≡ s.console_queue)
      × (s'.running ≡ s.running)
unfolding echo
handle_interrupt_return bus es s h e =
    let idle = other_byte 13 s refl in rw (handled bus es s h, e) (refl, idle.0, idle.1)
