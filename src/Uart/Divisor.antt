-- ===== src/Uart/Divisor.antt =====
-- uart.rs: `init` on a port of the 16550 family.
use Prim.Native.Nat.{bit_and}
use mina_os.Base.{
  ℕ, ◌+◌, ◌*◌, ◌≡◌, refl, ◌++◌, List, [], ◌∷◌, ◌==◌, if◌then◌else◌, true, false, not, arith, ◌^◌,
}
use mina_os.Uart.{Event, wrote, init, new}

-- The registers of such a port.  While bit 7 of the line control register is set, the first two
-- addresses are the halves of the divisor; else they are the byte to send and the interrupt enable
-- register.
pub record Port : Type 0 where
  pub line_control : ℕ
  pub fifo_control : ℕ
  pub interrupt_enable : ℕ
  pub divisor_least : ℕ
  pub divisor_most : ℕ
  pub sent : List ℕ

-- The port at `base` after a write to an address.
pub store : ℕ → ℕ → ℕ → Port → Port
store base a v p =
    let latch = not (bit_and p.line_control (2 ^ 7) == 0) in
    if a == base + 0
    then (if latch then record p { divisor_least = v } else record p { sent = p.sent ++ (v ∷ []) })
    else if a == base + 1
    then (if latch then record p { divisor_most = v } else record p { interrupt_enable = v })
    else if a == base + 2
    then record p { fifo_control = v }
    else if a == base + 3
    then record p { line_control = v }
    else p

pub after : ℕ → List Event → Port → Port
after base [] p = p
after base (wrote a v ∷ es) p = store base a v (after base es p)
after base (_ ∷ es) p = after base es p

store_least :
    (base v : ℕ) (p : Port)
    → (bit_and p.line_control (2 ^ 7) == 0) ≡ false
    → store base (base + 0) v p ≡ record p { divisor_least = v }
unfolding store
store_least base v p h = ground (arith, h)

store_enable :
    (base v : ℕ) (p : Port)
    → (bit_and p.line_control (2 ^ 7) == 0) ≡ true
    → store base (base + 1) v p ≡ record p { interrupt_enable = v }
unfolding store
store_enable base v p h = ground (arith, h)

store_most :
    (base v : ℕ) (p : Port)
    → (bit_and p.line_control (2 ^ 7) == 0) ≡ false
    → store base (base + 1) v p ≡ record p { divisor_most = v }
unfolding store
store_most base v p h = ground (arith, h)

store_fifo : (base v : ℕ) (p : Port) → store base (base + 2) v p ≡ record p { fifo_control = v }
unfolding store
store_fifo base v p = ground arith

store_line : (base v : ℕ) (p : Port) → store base (base + 3) v p ≡ record p { line_control = v }
unfolding store
store_line base v p = ground arith

after-init :
    (base : ℕ) (es : List Event) (p : Port)
    → after base (init (new base) es) p ≡ record {
      line_control = 3;
      fifo_control = 1;
      interrupt_enable = 1;
      divisor_least = 80;
      divisor_most = 2;
      sent = (after base es p).sent;
    }
unfolding init new after
after-init base es p =
    let p0 = after base es p in
    let p1 : Port = record p0 { line_control = 3 } in
    let p2 : Port = record p1 { fifo_control = 1 } in
    let p3 : Port = record p2 { interrupt_enable = 1 } in
    let p4 : Port = record p3 { line_control = 131 } in
    let p5 : Port = record p4 { divisor_least = 80 } in
    let p6 : Port = record p5 { divisor_most = 2 } in
    rw
      (
        store_line base 3 p0,
        store_fifo base 1 p1,
        store_enable base 1 p2 refl,
        store_line base 131 p3,
        store_least base 80 p4 refl,
        store_most base 2 p5 refl,
      )
      (store_line base 3 p6)

-- `init` leaves a port of the family, whatever state it was in, with 8-bit words, the FIFO and the
-- receiver's interrupt on, the divisor at 592 and its latch closed, and nothing sent.
pub init_lem :
    (base : ℕ) (es : List Event) (p : Port)
    → let p' = after base (init (new base) es) p in
      (p'.line_control ≡ 3)
      × (p'.fifo_control ≡ 1)
      × (p'.interrupt_enable ≡ 1)
      × (p'.divisor_least + 2 ^ 8 * p'.divisor_most ≡ 592)
      × (p'.sent ≡ (after base es p).sent)
init_lem base es p = rw (after-init base es p) (refl, refl, refl, refl, refl)
