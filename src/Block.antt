-- ===== src/Block.antt =====
-- minaos/src/block.rs: the block devices.  A method is a step of the machine of `Io.Machine`; a
-- device number or a pointer out of range is a panic.
pub mod Filled
pub mod Chain
pub mod Pending
pub mod Fuel
pub mod Setup
pub mod Outcomes
pub mod Process
pub mod Service
pub mod Config
pub mod Bounds
mod Sample
mod Tests
mod ServiceTests
use Prim.Native.Nat.{bit_or}
use mina_os.Base.{
  ℕ, zero, suc, ◌+◌, ◌-◌, ◌*◌, ◌/◌, ◌%◌, ◌^◌, Bool, true, false, not, ◌&&◌, ◌||◌, Option, none,
  some, List, [], ◌∷◌, ltb, leb, ◌==◌, if◌then◌else◌, get_elem?, get_or, set, replicate,
}
use mina_os.Base.Word.{u16, u32, u64, sub64, has_bit, clear_bit}
use mina_os.Io.{
  Descriptor, MmioOffsets, StatusField, val32, acknowledge, driver_ok, features_ok, failed,
  is_features_ok, host_features, guest_features, queue_num_max, queue_num, queue_sel,
  guest_page_size, queue_pfn, queue_notify, io_desc_f_next, io_desc_f_write, io_ring_size,
  mmio_io_start,
}
use mina_os.Io.Machine.{
  Machine, M, pure, ◌>>=◌, ◌>>◌, emit, Event, freed, set_running, set_a0, register, write_volatile,
  read_volatile, Bus, Queue, Available, Used, UsedElem, BlockDevice, Request, Header, store_at,
}

abbrev pub io_blk_t_in : ℕ
io_blk_t_in = 0

abbrev pub io_blk_t_out : ℕ
io_blk_t_out = 1

abbrev pub io_blk_f_ro : ℕ
io_blk_f_ro = 5

pub data BlockErrors : Type 0 where
  success block_device_not_found invalid_argument read_only : BlockErrors

pub data Result : Type 0 where
  ok : ℕ → Result
  err : BlockErrors → Result

-- What `zalloc` returns of a queue: all zero.
unfoldable pub zero_queue : Queue
zero_queue = record {
  desc = replicate io_ring_size (record { addr = 0; len = 0; flags = 0; next = 0 });
  avail = record { flags = 0; idx = 0; ring = replicate io_ring_size 0; event = 0 };
  used = record {
    flags = 0;
    idx = 0;
    ring = replicate io_ring_size (record { id = 0; len = 0 });
    event = 0;
  };
}

-- `BLOCK_DEVICES[i] = bd`.
unfoldable pub set_device : ℕ → Option BlockDevice → M (Unit {0})
set_device i bd s = elim (store_at s.block_devices i bd) [
  | none ↦ none
  | some ds ↦ some (tt, record s { block_devices = ds })
]

-- `zalloc` picks the address of a new queue, and the code does not ask whether it is null; `page_size` is `page::PAGE_SIZE`.
module _ (bus : Bus) (page_size : ℕ) (zalloc : List Event → ℕ) where
  unfoldable pub allocate : M ℕ
  allocate s = some (zalloc s.events, s)

  unfoldable pub finish_setup : ℕ → ℕ → Bool → M Bool
  unfolding write_volatile val32 allocate
  finish_setup ptr slot ro = do
    write_volatile (register ptr queue_sel) 0
    queue_ptr ← allocate
    write_volatile (register ptr guest_page_size) page_size
    write_volatile (register ptr queue_pfn) (u32 queue_ptr / page_size)
    set_device slot
        (some (record { queue = zero_queue; dev = ptr; idx = 0; ack_used_idx = 0; read_only = ro }))
    write_volatile (register ptr MmioOffsets.status) (
        bit_or (bit_or (bit_or (val32 acknowledge) (val32 driver_ok)) (val32 features_ok))
          (val32 driver_ok))
    pure true

  unfoldable pub size_queue : ℕ → ℕ → Bool → M Bool
  unfolding write_volatile read_volatile
  size_queue ptr slot ro = do
    qnmax ← read_volatile bus (register ptr queue_num_max)
    write_volatile (register ptr queue_num) io_ring_size
    let rest = finish_setup ptr slot ro
    if ltb qnmax io_ring_size then pure false else rest

  unfoldable pub fail_setup : ℕ → M Bool
  unfolding write_volatile val32
  fail_setup ptr = do write_volatile (register ptr MmioOffsets.status) (val32 failed); pure false

  unfoldable pub setup_block_device : ℕ → M Bool
  unfolding write_volatile read_volatile val32
  setup_block_device ptr = do
    let slot = (ptr - mmio_io_start) / 2 ^ 12
    write_volatile (register ptr MmioOffsets.status) 0
    write_volatile (register ptr MmioOffsets.status) (val32 acknowledge)
    write_volatile (register ptr MmioOffsets.status) (bit_or (val32 acknowledge) (val32 driver_ok))
    features ← read_volatile bus (register ptr host_features)
    write_volatile (register ptr guest_features) (clear_bit features io_blk_f_ro)
    write_volatile (register ptr MmioOffsets.status)
        (bit_or (bit_or (val32 acknowledge) (val32 driver_ok)) (val32 features_ok))
    status_ok ← read_volatile bus (register ptr MmioOffsets.status)
    let rest = size_queue ptr slot (has_bit features io_blk_f_ro)
    let rejected = fail_setup ptr
    if not (is_features_ok status_ok) then rejected else rest

-- `fill_next_descriptor`: the device with its next descriptor filled, and the index of it.
unfoldable pub next_idx : BlockDevice → ℕ
next_idx bd = u16 (bd.idx + 1) % io_ring_size

unfoldable pub linked : Descriptor → ℕ → Descriptor
linked d next = if has_bit d.flags 0 then record d { next = next } else d

unfoldable pub fill_next_descriptor : BlockDevice → Descriptor → BlockDevice × ℕ
unfolding next_idx linked
fill_next_descriptor bd d =
    let i = next_idx bd in
    (
      record bd {
        idx = i;
        queue = record bd.queue {
          desc = set bd.queue.desc i (linked d (u16 (i + 1) % io_ring_size));
        };
      },
      i,
    )

-- Where the parts of a request at `p` lie, and their sizes, laid out by `repr(C)`.
abbrev pub status_offset : ℕ
status_offset = 24

abbrev pub size_of_header : ℕ
size_of_header = 16

unfoldable pub header_desc : ℕ → Descriptor
header_desc p = record { addr = p; len = size_of_header; flags = io_desc_f_next; next = 0 }

unfoldable pub data_desc : ℕ → ℕ → Bool → Descriptor
data_desc buffer size write = record {
  addr = buffer;
  len = size;
  flags = bit_or io_desc_f_next (if not write then io_desc_f_write else 0);
  next = 0;
}

unfoldable pub status_desc : ℕ → Descriptor
status_desc p = record { addr = p + status_offset; len = 1; flags = io_desc_f_write; next = 0 }

-- `avail.ring[avail.idx % IO_RING_SIZE] = head; avail.idx = avail.idx.wrapping_add(1)`.
unfoldable pub offer : BlockDevice → ℕ → BlockDevice
offer bd head =
    let a = bd.queue.avail in
    record bd {
      queue = record bd.queue {
        avail = record a { ring = set a.ring (a.idx % io_ring_size) head; idx = u16 (a.idx + 1) };
      };
    }

-- The three descriptors of a request at `p`, and its head made available.
unfoldable pub submit : BlockDevice → ℕ → ℕ → ℕ → Bool → BlockDevice
unfolding fill_next_descriptor header_desc data_desc status_desc offer
submit bd p buffer size write =
    let (bd1, head_idx) = fill_next_descriptor bd (header_desc p) in
    let (bd2, data_idx) = fill_next_descriptor bd1 (data_desc buffer size write) in
    let (bd3, status_idx) = fill_next_descriptor bd2 (status_desc p) in offer bd3 head_idx

-- `head` is not written: `kmalloc` leaves what the memory held.
unfoldable pub request : ℕ → ℕ → ℕ → Bool → ℕ → Request
request head buffer offset write watcher = record {
  header = record {
    blktype = if write then io_blk_t_out else io_blk_t_in;
    reserved = 0;
    sector = offset / 512;
  };
  buffer = buffer;
  status = 111;
  head = head;
  watcher = watcher;
}

-- `kmalloc` picks the address of a new request by what the heap holds, and the code does not ask
-- whether it is null: the request is written there.  `stale` is the memory's old content at the field
-- that is not written.
module _ (kmalloc : (ℕ → Option Request) → ℕ) (stale : ℕ) where
  unfoldable pub enqueue : ℕ → BlockDevice → ℕ → ℕ → ℕ → Bool → ℕ → M Result
  unfolding submit request write_volatile set_device
  enqueue slot bd buffer size offset write watcher s =
      let p = kmalloc s.requests in
      let placed = record s {
        requests =
            λ a. if a == p then some (request stale buffer offset write watcher) else s.requests a;
      } in
      (do
        set_device slot (some (submit bd p buffer size write))
        write_volatile (register bd.dev queue_notify) 0
        pure (ok size))
        placed

  unfoldable pub checked_op : ℕ → Option BlockDevice → ℕ → ℕ → ℕ → Bool → ℕ → M Result
  unfolding enqueue
  checked_op slot none buffer size offset write watcher = pure (err block_device_not_found)
  checked_op slot (some bd) buffer size offset write watcher =
      let go = enqueue slot bd buffer size offset write watcher in
      if bd.read_only && write
      then pure (err BlockErrors.read_only)
      else if not (size % 512 == 0)
      then pure (err invalid_argument)
      else go

  unfoldable pub block_op : ℕ → ℕ → ℕ → ℕ → Bool → ℕ → M Result
  unfolding checked_op
  block_op dev buffer size offset write watcher s = elim (get_elem? s.block_devices (sub64 dev 1)) [
    | none ↦ none
    | some slot ↦ checked_op (sub64 dev 1) slot buffer size offset write watcher s
  ]

  unfoldable pub read : ℕ → ℕ → ℕ → ℕ → M Result
  unfolding block_op
  read dev buffer size offset = block_op dev buffer size offset false 0

  unfoldable pub write : ℕ → ℕ → ℕ → ℕ → M Result
  unfolding block_op
  write dev buffer size offset = block_op dev buffer size offset true 0

-- One round of `pending`: the next used element's request wakes its watcher and is freed.  Where
-- the element names no descriptor, or no request lies at its address, memory is read that holds
-- nothing; where `get_by_pid` finds no process for the watcher, its null pointer is followed.
unfoldable pub complete : BlockDevice → M BlockDevice
complete bd s = elim (get_elem? bd.queue.used.ring (bd.ack_used_idx % io_ring_size)) [
  | none ↦ none
  | some e ↦ elim (get_elem? bd.queue.desc e.id) [
    | none ↦ none
    | some d ↦ elim (s.requests d.addr) [
      | none ↦ none
      | some rq ↦
          if ltb 0 rq.watcher && not (s.processes rq.watcher)
          then none
          else some (
            record bd { ack_used_idx = u16 (bd.ack_used_idx + 1) },
            record s {
              events =
                  freed d.addr
                  ∷ (if ltb 0 rq.watcher
                      then set_a0 rq.watcher rq.status ∷ set_running rq.watcher ∷ s.events
                      else s.events);
              requests = λ a. if a == d.addr then none else s.requests a;
            },
          )
    ]
  ]
]

-- `while ack_used_idx != used.idx`, with a bound on the rounds.
unfoldable pub pending : ℕ → BlockDevice → M BlockDevice
pending zero bd s = none
pending (suc fuel) bd s = elim (bd.ack_used_idx == bd.queue.used.idx) [
  | true ↦ some (bd, s)
  | false ↦ elim (complete bd s) [ none ↦ none | some (bd', s') ↦ pending fuel bd' s' ]
]

-- A device's index is its interrupt's number less one.
unfoldable pub handle_interrupt : ℕ → M (Unit {0})
unfolding pending set_device
handle_interrupt i s = elim (get_elem? s.block_devices i) [
  | none ↦ none
  | some none ↦ some (tt, s)
  | some (some bd) ↦ elim (pending (2 ^ 16) bd s) [
    | none ↦ none
    | some (bd', s') ↦ set_device i (some bd') s'
  ]
]
