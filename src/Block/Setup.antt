-- ===== src/Block/Setup.antt =====
-- block.rs: the handshake of `setup_block_device`, and the outcomes of `block_op`.
use mina_os.Base.{
  ℕ, ◌-◌, ◌/◌, ◌^◌, ◌≤◌, ◌<◌, ◌≡◌, inl, inr, refl, Bool, true, not, ◌&&◌, Option, none, some, List,
  [], ◌∷◌, arith, ◌==◌, ltb, lt→ltb, if◌then◌else◌, leb, length, set, Bool-cases, ◌≢◌,
}
use mina_os.Base.Word.{has_bit, clear_bit, u32}
use mina_os.Io.{
  mmio_io_end, MmioOffsets, is_features_ok, io_ring_size, mmio_io_start, host_features,
  queue_num_max, guest_features, queue_num, queue_sel, guest_page_size, queue_pfn,
}
use mina_os.Io.Machine.{Machine, Event, wrote, got, Bus, register, BlockDevice}
use mina_os.Block.{
  io_blk_f_ro, setup_block_device, size_queue, finish_setup, fail_setup, set_device, zero_queue,
}

-- The values written to one register, oldest first.
pub written : ℕ → List Event → List ℕ → List ℕ
written a [] vs = vs
written a (wrote b v ∷ es) vs = written a es (if b == a then v ∷ vs else vs)
written a (_ ∷ es) vs = written a es vs

module _ (ptr v : ℕ) (es : List Event) (vs : List ℕ) where
  abbrev Skips : MmioOffsets → Type 0
  Skips o =
      written (register ptr MmioOffsets.status) (wrote (register ptr o) v ∷ es) vs
      ≡ written (register ptr MmioOffsets.status) es vs

  skips : (o : MmioOffsets) → register ptr o ≢ register ptr MmioOffsets.status → Skips o
  unfolding written
  skips o h = ground (arith, h)

  written_status :
      written (register ptr MmioOffsets.status) (wrote (register ptr MmioOffsets.status) v ∷ es) vs
      ≡ written (register ptr MmioOffsets.status) es (v ∷ vs)
  unfolding written
  written_status = ground arith

  written_got :
      (a : ℕ)
      → written (register ptr MmioOffsets.status) (got a v ∷ es) vs
        ≡ written (register ptr MmioOffsets.status) es vs
  unfolding written
  written_got a = refl

  written_guest_features : Skips guest_features
  unfolding register
  written_guest_features = skips guest_features (omega arith)

  written_queue_num : Skips queue_num
  unfolding register
  written_queue_num = skips queue_num (omega arith)

  written_queue_sel : Skips queue_sel
  unfolding register
  written_queue_sel = skips queue_sel (omega arith)

  written_guest_page_size : Skips guest_page_size
  unfolding register
  written_guest_page_size = skips guest_page_size (omega arith)

  written_queue_pfn : Skips queue_pfn
  unfolding register
  written_queue_pfn = skips queue_pfn (omega arith)

ruleset status_writes = (
  written_status, written_got, written_guest_features, written_queue_num, written_queue_sel,
  written_guest_page_size, written_queue_pfn,
)

module _ (bus : Bus) (page_size : ℕ) (zalloc : List Event → ℕ) (ptr slot : ℕ) (ro : Bool)
    (s : Machine) where
  finish_setup_lem :
      slot < length s.block_devices
      → finish_setup bus page_size zalloc ptr slot ro s
        ≡ some (
          true,
          record s {
            events =
                wrote (register ptr MmioOffsets.status) 13
                ∷ wrote
                    (register ptr queue_pfn)
                    (u32 (zalloc (wrote (register ptr queue_sel) 0 ∷ s.events)) / page_size)
                ∷ wrote (register ptr guest_page_size) page_size
                ∷ wrote (register ptr queue_sel) 0
                ∷ s.events;
            block_devices = set s.block_devices slot (
                some (record {
                  queue = zero_queue;
                  dev = ptr;
                  idx = 0;
                  ack_used_idx = 0;
                  read_only = ro;
                }));
          },
        )
  unfolding finish_setup set_device
  finish_setup_lem h = ground (arith, lt→ltb slot (length s.block_devices) h)

module _ (bus : Bus) (page_size : ℕ) (zalloc : List Event → ℕ) (ptr : ℕ) (s : Machine) where
  -- The accesses so far at three points of the handshake, and what is read there.
  abbrev greeted : List Event
  greeted =
      wrote (register ptr MmioOffsets.status) 5
      ∷ wrote (register ptr MmioOffsets.status) 1
      ∷ wrote (register ptr MmioOffsets.status) 0
      ∷ s.events

  abbrev pub features : ℕ
  features = bus greeted (register ptr host_features)

  abbrev negotiated : List Event
  negotiated =
      wrote (register ptr MmioOffsets.status) 13
      ∷ wrote (register ptr MmioOffsets.guest_features) (clear_bit features io_blk_f_ro)
      ∷ got (register ptr host_features) features
      ∷ greeted

  abbrev pub answer : ℕ
  answer = bus negotiated (register ptr MmioOffsets.status)

  abbrev pub entries : ℕ
  entries =
      bus (got (register ptr MmioOffsets.status) answer ∷ negotiated) (register ptr queue_num_max)

  abbrev sized : Machine
  sized = record s {
    events =
        wrote (register ptr queue_num) io_ring_size
        ∷ got (register ptr queue_num_max) entries
        ∷ got (register ptr MmioOffsets.status) answer
        ∷ negotiated;
  }

  abbrev pub slot : ℕ
  slot = (ptr - mmio_io_start) / 2 ^ 12

  abbrev pub fresh : BlockDevice
  fresh = record {
    queue = zero_queue;
    dev = ptr;
    idx = 0;
    ack_used_idx = 0;
    read_only = has_bit features io_blk_f_ro;
  }

  -- The last status value that a call writes, if any.
  abbrev pub verdict : List ℕ
  verdict =
      if not (is_features_ok answer)
      then 128 ∷ []
      else if ltb entries io_ring_size
      then []
      else 13 ∷ []

  abbrev pub SetUp : Option (Bool × Machine) → Type 0
  SetUp none = ⊥
  SetUp (some (b, s')) =
      (b ≡ (is_features_ok answer && leb io_ring_size entries))
      × (s'.block_devices ≡ (if b then set s.block_devices slot (some fresh) else s.block_devices))
      × (s'.io_devices ≡ s.io_devices)
      × (written (register ptr MmioOffsets.status) s'.events []
          ≡ written (register ptr MmioOffsets.status) s.events (0 ∷ 1 ∷ 5 ∷ 13 ∷ verdict))

  told :
      {vs ws : List ℕ}
      → vs ≡ ws
      → written (register ptr MmioOffsets.status) s.events (0 ∷ 1 ∷ 5 ∷ 13 ∷ vs)
        ≡ written (register ptr MmioOffsets.status) s.events (0 ∷ 1 ∷ 5 ∷ 13 ∷ ws)
  told e = rw e

  -- With eight slots and a device of the MMIO range, the set-up does not panic. It succeeds exactly
  -- if the device keeps FeaturesOk and offers at least a ring of entries; then its own slot of the
  -- device table holds a fresh device, read-only if the device says so, and else the table is as it
  -- was. The status register is written 0, Acknowledge, Acknowledge with DriverOk, and these with
  -- FeaturesOk, and then Failed, nothing, or DriverOk once more: Driver is never among them.
  pub setup_block_device_lem :
      length s.block_devices ≡ 8
      → mmio_io_start ≤ ptr
      → ptr ≤ mmio_io_end
      → SetUp (setup_block_device bus page_size zalloc ptr s)
  unfolding setup_block_device fail_setup size_queue finish_setup
  setup_block_device_lem l lo hi = elim (Bool-cases (is_features_ok answer)) [
    | inr f ↦ rw f (rw f refl, refl, refl, simp status_writes (told (rw f)))
    | inl t ↦ rw t (elim (Bool-cases (ltb entries io_ring_size)) [
      | inl few ↦ rw few (ground arith, refl, refl, simp status_writes (told (rw (t, few))))
      | inr enough ↦
          rw
            (
              enough,
              finish_setup_lem bus page_size zalloc ptr slot (has_bit features io_blk_f_ro) sized
                  inside,
            )
            (ground arith, refl, refl, simp status_writes (told (rw (t, enough))))
    ])
  ]
    where
      inside : slot < length s.block_devices
      inside = omega arith
