-- ===== src/Block/Bounds/Steps.antt =====
-- block.rs: any sequence of the driver's calls and the devices' answers.
use mina_os.Base.{Bool, ℕ, ◌^◌, ◌<◌, ◌≤◌, ◌≡◌, Bool, Option, some, List, get_elem?, set}
use mina_os.Io.{mmio_io_start, mmio_io_end}
use mina_os.Io.Machine.{Machine, BlockDevice, Request, Used, Bus, Event}
use mina_os.Block.{Result, block_op, handle_interrupt, setup_block_device}
use mina_os.Block.Pending.{lt_of_get}
use mina_os.Block.Setup.{setup_block_device_lem}
use mina_os.Block.Bounds.{
  IsBounded, block_op-IsBounded, SetUp-IsBounded, handle_interrupt-IsBounded, set_device-IsBounded,
  answered-IsValid,
}

-- What changes the machine: a set-up, a read or write, an interrupt, or a device that answers in
-- whatever way, as far as a counter of 16 bits and the writing of memory allow.
pub data Step (bus : Bus) (page_size : ℕ) (zalloc : List Event → ℕ)
    (kmalloc : (ℕ → Option Request) → ℕ) (stale : ℕ) (s s' : Machine) : Type 0 where
  sets_up :
      (ptr : ℕ) (b : Bool)
      → mmio_io_start ≤ ptr
      → ptr ≤ mmio_io_end
      → setup_block_device bus page_size zalloc ptr s ≡ some (b, s')
      → Step bus page_size zalloc kmalloc stale s s'
  operates :
      (dev buffer size offset : ℕ) (write : Bool) (watcher : ℕ) (r : Result)
      → block_op kmalloc stale dev buffer size offset write watcher s ≡ some (r, s')
      → Step bus page_size zalloc kmalloc stale s s'
  interrupts :
      (i : ℕ) → handle_interrupt i s ≡ some (tt, s') → Step bus page_size zalloc kmalloc stale s s'
  answers :
      (i : ℕ) (bd : BlockDevice) (used : Used) (requests : ℕ → Option Request)
      → get_elem? s.block_devices i ≡ some (some bd)
      → used.idx < 2 ^ 16
      → s' ≡ record s {
        block_devices =
            set s.block_devices i (some (record bd { queue = record bd.queue { used = used } }));
        requests = requests;
      }
      → Step bus page_size zalloc kmalloc stale s s'
  schedules :
      (processes : ℕ → Bool)
      → s' ≡ record s { processes = processes }
      → Step bus page_size zalloc kmalloc stale s s'

pub data Reach (bus : Bus) (page_size : ℕ) (zalloc : List Event → ℕ)
    (kmalloc : (ℕ → Option Request) → ℕ) (stale : ℕ) (s : Machine) : Machine → Type 0 where
  here : Reach bus page_size zalloc kmalloc stale s s
  next :
      {t u : Machine}
      → Reach bus page_size zalloc kmalloc stale s t
      → Step bus page_size zalloc kmalloc stale t u
      → Reach bus page_size zalloc kmalloc stale s u

module _ (bus : Bus) (page_size : ℕ) (zalloc : List Event → ℕ) (kmalloc : (ℕ → Option Request) → ℕ)
    (stale : ℕ) where
  Step-IsBounded :
      (s s' : Machine) → Step bus page_size zalloc kmalloc stale s s' → IsBounded s → IsBounded s'
  Step-IsBounded s s' (Step.sets_up ptr r lo hi e) b = rw e at (
      SetUp-IsBounded bus page_size zalloc ptr s (setup_block_device bus page_size zalloc ptr s)
        (setup_block_device_lem bus page_size zalloc ptr s b.slots lo hi) lo hi b)
  Step-IsBounded s s' (Step.operates dev buffer size offset write watcher r e) b =
      rw e at (block_op-IsBounded kmalloc stale dev buffer size offset write watcher s b)
  Step-IsBounded s s' (Step.interrupts i e) b = rw e at (handle_interrupt-IsBounded i s b)
  Step-IsBounded s s' (Step.answers i bd used requests h u e) b =
      set_device-IsBounded i _ s s' b (lt_of_get s.block_devices i h)
        (answered-IsValid bd used u (b.valid i bd h)) (rw e)
  Step-IsBounded s s' (Step.schedules processes e) b =
      rw e (record { slots = b.slots; valid = b.valid })

  -- From a table of eight slots whose devices, if any, are valid, whatever sequence of set-ups,
  -- operations and interrupts the driver runs, and whatever the devices return in their used rings
  -- and whichever processes start and end meanwhile, every device keeps its descriptor table and
  -- available ring of 128 entries, its next descriptor inside of them, and its counters inside 16
  -- bits.
  pub Reach-IsBounded :
      (s s' : Machine) → IsBounded s → Reach bus page_size zalloc kmalloc stale s s' → IsBounded s'
  Reach-IsBounded s s' b Reach.here = b
  Reach-IsBounded s s' b (Reach.next {t} r st) = Step-IsBounded t s' st (Reach-IsBounded s t b r)
