-- ===== src/Block/Bounds.antt =====
-- block.rs: the indices of a device and the inside of its rings, call by call.
pub mod Steps
use mina_os.Base.{
  ltb, ◌&&◌, not, ℕ, ◌+◌, ◌-◌, ◌%◌, ◌/◌, ◌^◌, ◌<◌, ◌≤◌, ◌≡◌, refl, sym, ◌∙◌, subst, Bool, true,
  false, Option, none, some, List, arith, ◌==◌, length, get_elem?, set, length-set, ℕ_discrete,
  get_elem?-set_self, get_elem?-set_ne, Bool-cases, Option-cases, zero, suc, inl, inr,
}
use mina_os.Base.Word.{u16, sub64}
use mina_os.Io.{io_ring_size, mmio_io_start, mmio_io_end}
use mina_os.Io.Machine.{Machine, BlockDevice, Request, Used, Bus, Event}
use mina_os.Block.{block_op, Result, ok, err, handle_interrupt, pending, complete, zero_queue}
use mina_os.Block.Chain.{IsValid, submit-IsValid}
use mina_os.Block.Pending.{lt_of_get, set_device-in}
use mina_os.Block.Setup.{SetUp}
use mina_os.Block.Outcomes.{block_op-Outcome, Outcome}

-- Every device of the table is valid.
abbrev pub AllValid : List (Option BlockDevice) → Type 0
AllValid ds = (i : ℕ) (bd : BlockDevice) → get_elem? ds i ≡ some (some bd) → IsValid bd

set-AllValid :
    (ds : List (Option BlockDevice)) (i : ℕ) (bd : BlockDevice)
    → i < length ds
    → IsValid bd
    → AllValid ds
    → AllValid (set ds i (some bd))
set-AllValid ds i bd h v a j bd' e = elim (ℕ_discrete i j) [
  | yes p ↦
      let q = get_elem?-set_self ds i (some bd) h in
      let same : bd ≡ bd' = cc in subst IsValid same v
  | no p ↦ a j bd' (sym (get_elem?-set_ne ds (some bd) p) ∙ e)
]

-- After a step on a device, it is valid, and the table is as it was.
abbrev Keeps : List (Option BlockDevice) → Option (BlockDevice × Machine) → Type 0
Keeps ds none = Unit {0}
Keeps ds (some (bd', s')) = IsValid bd' × (s'.block_devices ≡ ds)

acknowledged-IsValid :
    (bd : BlockDevice)
    → IsValid bd
    → IsValid (record bd { ack_used_idx = u16 (bd.ack_used_idx + 1) })
acknowledged-IsValid bd v = record {
  descs = v.descs;
  ring = v.ring;
  idx_in = v.idx_in;
  avail_in = v.avail_in;
  ack_in = omega arith;
  used_in = v.used_in;
}

complete-Keeps :
    (bd : BlockDevice) (s : Machine) → IsValid bd → Keeps s.block_devices (complete bd s)
unfolding complete
complete-Keeps bd s v =
    elim (Option-cases (get_elem? bd.queue.used.ring (bd.ack_used_idx % io_ring_size))) [
      | inl n ↦ rw (n, complete) tt
      | inr (e, he) ↦ elim (Option-cases (get_elem? bd.queue.desc e.id)) [
        | inl n ↦ rw (he, n, complete) tt
        | inr (d, hd) ↦ elim (Option-cases (s.requests d.addr)) [
          | inl n ↦ rw (he, hd, n, complete) tt
          | inr (rq, hr) ↦ elim (Bool-cases (ltb 0 rq.watcher && not (s.processes rq.watcher))) [
            | inl n ↦ rw (he, hd, hr, n, complete) tt
            | inr f ↦ rw (he, hd, hr, f, complete) (acknowledged-IsValid bd v, refl)
          ]
        ]
      ]
    ]

pending-Keeps :
    (fuel : ℕ) (bd : BlockDevice) (s : Machine) (ds : List (Option BlockDevice))
    → s.block_devices ≡ ds
    → IsValid bd
    → Keeps ds (pending fuel bd s)
unfolding pending
pending-Keeps zero bd s ds e v = tt
pending-Keeps (suc fuel) bd s ds e v = elim (Bool-cases (bd.ack_used_idx == bd.queue.used.idx)) [
  | inl t ↦ rw (t, pending) (v, e)
  | inr f ↦ elim (Option-cases (complete bd s)) [
    | inl n ↦ rw (f, n, pending) tt
    | inr (r, h) ↦
        let kept : Keeps s.block_devices (some r) = rw h at (complete-Keeps bd s v) in
        rw (f, h, pending) (pending-Keeps fuel r.0 r.1 ds (kept.1 ∙ e) kept.0)
  ]
]

-- The table of eight slots, with valid devices.
pub record IsBounded (s : Machine) : Type 0 where
  pub slots : length s.block_devices ≡ 8
  pub valid : AllValid s.block_devices

-- The machine that a call leaves, if it does not panic.
abbrev pub Leaves : {A : Type 0} → Option (A × Machine) → Type 0
Leaves none = Unit {0}
Leaves (some (a, s')) = IsBounded s'

pub set_device-IsBounded :
    (i : ℕ) (bd : BlockDevice) (s s' : Machine)
    → IsBounded s
    → i < length s.block_devices
    → IsValid bd
    → s'.block_devices ≡ set s.block_devices i (some bd)
    → IsBounded s'
set_device-IsBounded i bd s s' b h v e = record {
  slots = rw e (length-set s.block_devices i (some bd) ∙ b.slots);
  valid = rw e (set-AllValid s.block_devices i bd h v b.valid);
}

same-IsBounded : (s s' : Machine) → s'.block_devices ≡ s.block_devices → IsBounded s → IsBounded s'
same-IsBounded s s' e b = record { slots = rw e b.slots; valid = rw e b.valid }

pub handle_interrupt-IsBounded : (i : ℕ) (s : Machine) → IsBounded s → Leaves (handle_interrupt i s)
unfolding handle_interrupt
handle_interrupt-IsBounded i s b = elim (Option-cases (get_elem? s.block_devices i)) [
  | inl n ↦ rw (n, handle_interrupt) tt
  | inr (none, h) ↦ rw (h, handle_interrupt) b
  | inr (some bd, h) ↦ elim (Option-cases (pending (2 ^ 16) bd s)) [
    | inl n ↦ rw (h, n, handle_interrupt) tt
    | inr (r, q) ↦
        let kept : Keeps s.block_devices (some r) =
          rw q at (pending-Keeps (2 ^ 16) bd s s.block_devices refl (b.valid i bd h)) in
        let inside : i < length r.1.block_devices = rw kept.1 (lt_of_get s.block_devices i h) in
        rw (h, q, handle_interrupt, set_device-in i (some r.0) r.1 inside)
          (set_device-IsBounded i r.0 r.1 _ (same-IsBounded s r.1 kept.1 b) inside kept.0 refl)
  ]
]

module _ (kmalloc : (ℕ → Option Request) → ℕ) (stale : ℕ) where
  Outcome-IsBounded :
      (dev buffer size offset : ℕ) (write : Bool) (watcher : ℕ) (s : Machine)
      (slot : Option BlockDevice) (out : Option (Result × Machine))
      → get_elem? s.block_devices (sub64 dev 1) ≡ some slot
      → Outcome kmalloc stale dev buffer size offset write watcher s slot out
      → IsBounded s
      → Leaves out
  Outcome-IsBounded dev buffer size offset write watcher s slot none h o b = tt
  Outcome-IsBounded dev buffer size offset write watcher s slot (some (err e, s')) h o b = rw o.1 b
  Outcome-IsBounded dev buffer size offset write watcher s none (some (ok n, s')) h o b = absurd o
  Outcome-IsBounded dev buffer size offset write watcher s (some bd) (some (ok n, s')) h o b =
      set_device-IsBounded (sub64 dev 1) _ s s' b (lt_of_get s.block_devices (sub64 dev 1) h)
        (submit-IsValid bd (kmalloc s.requests) buffer size write (b.valid (sub64 dev 1) bd h))
        o.1.submitted

  pub block_op-IsBounded :
      (dev buffer size offset : ℕ) (write : Bool) (watcher : ℕ) (s : Machine)
      → IsBounded s
      → Leaves (block_op kmalloc stale dev buffer size offset write watcher s)
  unfolding block_op
  block_op-IsBounded dev buffer size offset write watcher s b =
      elim (Option-cases (get_elem? s.block_devices (sub64 dev 1))) [
        | inl n ↦ rw (n, block_op) tt
        | inr (slot, h) ↦
            Outcome-IsBounded dev buffer size offset write watcher s slot
              (block_op kmalloc stale dev buffer size offset write watcher s) h
              (block_op-Outcome kmalloc stale dev buffer size offset write watcher s slot h) b
      ]

fresh-IsValid :
    (dev : ℕ) (ro : Bool)
    → IsValid (record { queue = zero_queue; dev = dev; idx = 0; ack_used_idx = 0; read_only = ro })
unfolding zero_queue
fresh-IsValid dev ro = record {
  descs = refl;
  ring = refl;
  idx_in = omega arith;
  avail_in = omega arith;
  ack_in = omega arith;
  used_in = omega arith;
}

module _ (bus : Bus) (page_size : ℕ) (zalloc : List Event → ℕ) (ptr : ℕ) where
  pub SetUp-IsBounded :
      (s : Machine) (out : Option (Bool × Machine))
      → SetUp bus page_size zalloc ptr s out
      → mmio_io_start ≤ ptr
      → ptr ≤ mmio_io_end
      → IsBounded s
      → Leaves out
  SetUp-IsBounded s none h lo hi b = absurd h
  SetUp-IsBounded s (some (false, s')) h lo hi b = same-IsBounded s s' h.1 b
  SetUp-IsBounded s (some (true, s')) h lo hi b =
      set_device-IsBounded ((ptr - mmio_io_start) / 2 ^ 12) _ s s' b (omega (arith, b.slots))
        (fresh-IsValid ptr _) h.1

pub answered-IsValid :
    (bd : BlockDevice) (used : Used)
    → used.idx < 2 ^ 16
    → IsValid bd
    → IsValid (record bd { queue = record bd.queue { used = used } })
answered-IsValid bd used u v = record {
  descs = v.descs;
  ring = v.ring;
  idx_in = v.idx_in;
  avail_in = v.avail_in;
  ack_in = v.ack_in;
  used_in = u;
}
