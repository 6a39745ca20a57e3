-- ===== src/Io/Machine.antt =====
-- The state that the drivers of minaos/src change, and the monad of their steps.
use mina_os.Base.{ℕ, ◌+◌, ◌*◌, Bool, Option, none, some, List, ◌∷◌, set, length, ltb, if◌then◌else◌}
use mina_os.Io.{IoDevice, Descriptor, MmioOffsets, scale32}

pub record Available : Type 0 where
  pub flags : ℕ
  pub idx : ℕ
  pub ring : List ℕ
  pub event : ℕ

pub record UsedElem : Type 0 where
  pub id : ℕ
  pub len : ℕ

pub record Used : Type 0 where
  pub flags : ℕ
  pub idx : ℕ
  pub ring : List UsedElem
  pub event : ℕ

-- The padding between the rings is left out.
pub record Queue : Type 0 where
  pub desc : List Descriptor
  pub avail : Available
  pub used : Used

-- minaos/src/block.rs: `BlockDevice`, with the queue that it points to.
pub record BlockDevice : Type 0 where
  pub queue : Queue
  pub dev : ℕ
  pub idx : ℕ
  pub ack_used_idx : ℕ
  pub read_only : Bool

pub record Header : Type 0 where
  pub blktype : ℕ
  pub reserved : ℕ
  pub sector : ℕ

pub record Request : Type 0 where
  pub header : Header
  pub buffer : ℕ
  pub status : ℕ
  pub head : ℕ
  pub watcher : ℕ

-- What happens outside the kernel's own data, in order.
pub data Event : Type 0 where
  wrote : ℕ → ℕ → Event
  got : ℕ → ℕ → Event
  freed : ℕ → Event
  set_running : ℕ → Event
  set_a0 : ℕ → ℕ → Event
  handled : ℕ → Event

-- `events` is newest first; `requests` is the heap, as far as it holds requests; `processes` tells
-- for which numbers `get_by_pid` finds a process.
pub record Machine : Type 0 where
  pub events : List Event
  pub io_devices : List (Option IoDevice)
  pub block_devices : List (Option BlockDevice)
  pub requests : ℕ → Option Request
  pub processes : ℕ → Bool

-- `none` is a panic: an index out of range, or the read of memory that holds nothing.
abbrev pub M : Type 0 → Type 0
M A = Machine → Option (A × Machine)

abbrev pub pure : {A : Type 0} → A → M A
pure a m = some (a, m)

abbrev pub panic : {A : Type 0} → M A
panic m = none

infixl 5 ◌>>=◌ ◌>>◌
abbrev pub ◌>>=◌ : {A B : Type 0} → M A → (A → M B) → M B
◌>>=◌ m f s = elim (m s) [ none ↦ none | some (a, s') ↦ f a s' ]

abbrev pub ◌>>◌ : {B : Type 0} → M (Unit {0}) → M B → M B
m >> k = m >>= λ _. k

abbrev pub emit : Event → M (Unit {0})
emit e s = some (tt, record s { events = e ∷ s.events })

-- `ptr.add(off.scale32())`, as an address.
unfoldable pub register : ℕ → MmioOffsets → ℕ
unfolding scale32
register ptr off = ptr + 4 * scale32 off

unfoldable pub write_volatile : ℕ → ℕ → M (Unit {0})
write_volatile a v = emit (wrote a v)

-- The value that a register reads after the given events.
abbrev pub Bus : Type 0
Bus = List Event → ℕ → ℕ

unfoldable pub read_volatile : Bus → ℕ → M ℕ
read_volatile bus a s = let v = bus s.events a in some (v, record s { events = got a v ∷ s.events })

-- `[i] = v` on an array.
abbrev pub store_at : {A : Type 0} → List A → ℕ → A → Option (List A)
store_at xs i v = if ltb i (length xs) then some (set xs i v) else none
