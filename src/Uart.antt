-- ===== src/Uart.antt =====
-- minaos/src/uart.rs: the serial port.  A step reads and writes the port's registers, a byte each;
-- what a register reads is a function of all accesses before it.
pub mod Divisor
pub mod Input
mod Tests
use Prim.Native.Nat.{bit_and, bit_or}
use mina_os.Base.{
  ℕ, ◌+◌, ◌*◌, ◌/◌, ◌%◌, ◌^◌, Bool, true, false, ◌||◌, Option, none, some, List, [], ◌∷◌, ◌==◌,
  if◌then◌else◌,
}
use mina_os.Console.{Console, push_stdin}

-- What the port does, and what is printed; the newest event comes first in a list.
pub data Event : Type 0 where
  wrote : ℕ → ℕ → Event
  got : ℕ → ℕ → Event
  printed : List ℕ → Event
  line : Event

pub record Uart : Type 0 where
  pub base_address : ℕ

abbrev pub Bus : Type 0
Bus = List Event → ℕ → ℕ

unfoldable pub new : ℕ → Uart
new base_address = record { base_address = base_address }

abbrev lcr : ℕ
lcr = bit_or 1 (2 ^ 1)

abbrev divisor : ℕ
divisor = 592

-- The writes of `init`, in order.
unfoldable pub init : Uart → List Event → List Event
init u es =
    let ptr = u.base_address in
    wrote (ptr + 3) lcr
    ∷ wrote (ptr + 1) (divisor / 2 ^ 8)
    ∷ wrote (ptr + 0) (bit_and divisor 0xff)
    ∷ wrote (ptr + 3) (bit_or lcr (2 ^ 7))
    ∷ wrote (ptr + 1) 1
    ∷ wrote (ptr + 2) 1
    ∷ wrote (ptr + 3) lcr
    ∷ es

unfoldable pub put : Uart → ℕ → List Event → List Event
put u c es = wrote (u.base_address + 0) c ∷ es

-- `for c in out.bytes()`.
unfoldable pub write_str : Uart → List ℕ → List Event → List Event
unfolding put
write_str u [] es = es
write_str u (c ∷ cs) es = write_str u cs (put u c es)

unfoldable pub get : Bus → Uart → List Event → Option ℕ × List Event
get bus u es =
    let status = bus es (u.base_address + 5) in
    let es' = got (u.base_address + 5) status ∷ es in
    let c = bus es' (u.base_address + 0) in
    if bit_and status 1 == 0 then (none, es') else (some c, got (u.base_address + 0) c ∷ es')

-- What is printed for a byte: a backspace is shown as backspace, space, backspace.
unfoldable pub echo : ℕ → Event
echo c =
    if c == 8
    then printed (8 ∷ 32 ∷ 8 ∷ [])
    else if (c == 10) || (c == 13)
    then line
    else printed (c ∷ [])

unfoldable pub handle_interrupt : Bus → List Event → Console → List Event × Console
unfolding get new echo
handle_interrupt bus es s =
    let (r, es') = get bus (new 0x1000_0000) es in
    elim r [ none ↦ (es', s) | some c ↦ (echo c ∷ es', push_stdin c s) ]
