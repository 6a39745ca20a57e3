-- ===== src/Block/Outcomes.antt =====
-- block.rs: the outcomes of `block_op`, errors included.
use mina_os.Base.{
  ℕ, ◌%◌, ◌<◌, ◌≡◌, ◌≢◌, refl, Bool, true, false, ◌&&◌, Option, none, some, ◌∷◌, arith, ◌==◌,
  ==_iff, lt→ltb, if◌then◌else◌, length, get_elem?, set, Bool-cases, inl, inr,
}
use mina_os.Base.Word.{sub64}
use mina_os.Io.Machine.{Machine, BlockDevice, Request, wrote, register}
use mina_os.Io.{queue_notify}
use mina_os.Block.{
  Result, ok, err, BlockErrors, block_device_not_found, invalid_argument, block_op, checked_op,
  enqueue, submit, request, set_device,
}
use mina_os.Block.Pending.{lt_of_get}

module _ (kmalloc : (ℕ → Option Request) → ℕ) (stale dev buffer size offset : ℕ) (write : Bool)
    (watcher : ℕ) where
  -- Why an operation on the device of a slot is refused.
  abbrev pub Refused : Option BlockDevice → BlockErrors → Type 0
  Refused none block_device_not_found = Unit {0}
  Refused (some bd) BlockErrors.read_only = (bd.read_only ≡ true) × (write ≡ true)
  Refused (some bd) invalid_argument = size % 512 ≢ 0
  Refused _ _ = ⊥

  -- What an operation does that is taken.
  pub record Queued (s s' : Machine) (i : ℕ) (bd : BlockDevice) : Type 0 where
    pub aligned : size % 512 ≡ 0
    pub writable : (bd.read_only && write) ≡ false
    pub submitted :
        s'.block_devices
        ≡ set s.block_devices i (some (submit bd (kmalloc s.requests) buffer size write))
    pub placed : s'.requests (kmalloc s.requests) ≡ some (request stale buffer offset write watcher)
    pub others : (a : ℕ) → a ≢ kmalloc s.requests → s'.requests a ≡ s.requests a
    pub notified : s'.events ≡ wrote (register bd.dev queue_notify) 0 ∷ s.events

  abbrev pub Outcome : Machine → Option BlockDevice → Option (Result × Machine) → Type 0
  Outcome s slot none = ⊥
  Outcome s slot (some (err e, s')) = Refused slot e × (s' ≡ s)
  Outcome s none (some (ok n, s')) = ⊥
  Outcome s (some bd) (some (ok n, s')) = (n ≡ size) × Queued s s' (sub64 dev 1) bd

  abbrev pub after : Machine → BlockDevice → Machine
  after s bd = record s {
    events = wrote (register bd.dev queue_notify) 0 ∷ s.events;
    block_devices =
        set s.block_devices (sub64 dev 1) (some (submit bd (kmalloc s.requests) buffer size write));
    requests = λ a.
        if a == kmalloc s.requests
        then some (request stale buffer offset write watcher)
        else s.requests a;
  }

  -- The machine after an operation that is taken.
  enqueue-after :
      (s : Machine) (bd : BlockDevice)
      → sub64 dev 1 < length s.block_devices
      → enqueue kmalloc stale (sub64 dev 1) bd buffer size offset write watcher s
        ≡ some (ok size, after s bd)
  unfolding enqueue set_device
  enqueue-after s bd h = ground (arith, lt→ltb (sub64 dev 1) (length s.block_devices) h)

  enqueue-Queued :
      (s : Machine) (bd : BlockDevice)
      → sub64 dev 1 < length s.block_devices
      → size % 512 ≡ 0
      → (bd.read_only && write) ≡ false
      → Outcome s
          (some bd)
          (enqueue kmalloc stale (sub64 dev 1) bd buffer size offset write watcher s)
  enqueue-Queued s bd h z w = rw (enqueue-after s bd h) (
    refl,
    record {
      aligned = z;
      writable = w;
      submitted = refl;
      placed = ground arith;
      others = λ a n. ground arith;
      notified = refl;
    },
  )

  checked_op-Outcome :
      (s : Machine) (slot : Option BlockDevice)
      → sub64 dev 1 < length s.block_devices
      → Outcome s slot
          (checked_op kmalloc stale (sub64 dev 1) slot buffer size offset write watcher s)
  unfolding checked_op
  checked_op-Outcome s none h = (tt, refl)
  checked_op-Outcome s (some bd) h = elim (Bool-cases (bd.read_only && write)) [
    | inl ro ↦ rw ro ((ground arith, ground arith), refl)
    | inr rw_ok ↦ rw rw_ok (elim (Bool-cases (size % 512 == 0)) [
      | inl z ↦ rw z (enqueue-Queued s bd h ((==_iff _ _).0 z) rw_ok)
      | inr z ↦ rw z (ground arith, refl)
    ])
  ]

  -- An operation on a slot of the device table does not panic. It is refused, with the machine as it
  -- was, only where the slot is empty, the device is read-only and the operation a write, or the size
  -- is no multiple of a sector; and where none of these holds, the request is placed in memory, its
  -- descriptors are submitted to that device alone, and the device is notified.
  pub block_op-Outcome :
      (s : Machine) (slot : Option BlockDevice)
      → get_elem? s.block_devices (sub64 dev 1) ≡ some slot
      → Outcome s slot (block_op kmalloc stale dev buffer size offset write watcher s)
  unfolding block_op
  block_op-Outcome s slot h =
      rw (h, block_op) (checked_op-Outcome s slot (lt_of_get s.block_devices (sub64 dev 1) h))

  -- An operation that nothing is against is taken.
  pub block_op-after :
      (s : Machine) (bd : BlockDevice)
      → get_elem? s.block_devices (sub64 dev 1) ≡ some (some bd)
      → size % 512 ≡ 0
      → (bd.read_only && write) ≡ false
      → block_op kmalloc stale dev buffer size offset write watcher s ≡ some (ok size, after s bd)
  unfolding block_op checked_op
  block_op-after s bd h z w =
      rw (h, block_op, checked_op, w, (==_iff _ _).1 z)
        (enqueue-after s bd (lt_of_get s.block_devices (sub64 dev 1) h))
