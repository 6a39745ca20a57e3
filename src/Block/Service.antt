-- ===== src/Block/Service.antt =====
-- block.rs: a process's read or write from the call to the wake-up, across the kernel process that
-- submits the request and the interrupt that answers it.
use mina_os.Base.{
  ℕ, ◌+◌, ◌%◌, ◌<◌, ◌≡◌, ◌≢◌, refl, ap, Bool, true, false, ◌&&◌, Option, none, some, ◌∷◌, [], arith,
  ◌==◌, if◌then◌else◌, get_elem?,
}
use mina_os.Base.Word.{u16, sub64}
use mina_os.Io.{io_ring_size}
use mina_os.Io.Machine.{Machine, BlockDevice, Request, Used, UsedElem, freed, set_running, set_a0}
use mina_os.Block.{header_desc, handle_interrupt, request, submit}
use mina_os.Block.Filled.{ahead}
use mina_os.Block.Chain.{IsValid, submit-head, submit-rest, submit_lem}
use mina_os.Block.Outcomes.{after, block_op-after}
use mina_os.Block.Pending.{unseen, finish_all_wakes, NamesAll, handle_interrupt_lem}
use mina_os.Block.Process.{
  ProcArgs, Kernel, Job, read_proc_at, write_proc_at, run_op, read_proc, write_proc, process_read,
  process_write,
}

-- What a virtio device does that answers the last request made available on `bd`, the device of
-- slot `i`: it returns the head of the request's chain in the next used element, counts it, and
-- writes the request's status.
pub record Answered (i p status : ℕ) (bd : BlockDevice) (rq : Request) (m : Machine) : Type 0 where
  pub used : Used
  pub elem : UsedElem
  pub device :
      get_elem? m.block_devices i
      ≡ some (some (record bd { queue = record bd.queue { used = used } }))
  pub counted : used.idx ≡ u16 (bd.queue.used.idx + 1)
  pub returned : get_elem? used.ring (bd.queue.used.idx % io_ring_size) ≡ some elem
  pub named :
      get_elem? bd.queue.avail.ring (u16 (bd.queue.avail.idx + 65535) % io_ring_size) ≡ some elem.id
  pub written : m.requests p ≡ some (record rq { status = status })

module _ (kmalloc : (ℕ → Option Request) → ℕ) (stale : ℕ) (place : (ℕ → Option ProcArgs) → ℕ)
    (pid dev buffer size offset : ℕ) where
  -- The call of the process, and the kernel process that it adds.
  abbrev pub ask : Bool → Kernel → Kernel
  ask write s =
      if write
      then process_write kmalloc stale place pid dev buffer size offset s
      else process_read kmalloc stale place pid dev buffer size offset s

  abbrev pub job : Bool → ℕ → Job
  job write p = if write then write_proc_at p else read_proc_at p

  abbrev pub serve : Bool → ℕ → Kernel → Option Kernel
  serve write p s =
      if write then write_proc kmalloc stale place p s else read_proc kmalloc stale place p s

  -- The kernel after the kernel process.
  abbrev pub handed : Bool → Kernel → BlockDevice → Kernel
  handed write s bd = record (ask write s) {
    machine = after kmalloc stale dev buffer size offset write pid s.machine bd;
    boxed = λ a. if a == place s.boxed then none else (ask write s).boxed a;
  }

  -- The arguments of the call.
  abbrev args : ProcArgs
  args = record { pid = pid; dev = dev; buffer = buffer; size = size; offset = offset }

  run_op-after :
      (write : Bool) (s : Kernel) (p : ℕ) (bd : BlockDevice)
      → s.boxed p ≡ some args
      → get_elem? s.machine.block_devices (sub64 dev 1) ≡ some (some bd)
      → size % 512 ≡ 0
      → (bd.read_only && write) ≡ false
      → run_op kmalloc stale place write p s
        ≡ some (record s {
          machine = after kmalloc stale dev buffer size offset write pid s.machine bd;
          boxed = λ a. if a == p then none else s.boxed a;
        })
  unfolding run_op
  run_op-after write s p bd b h z w =
      rw (
        b,
        run_op,
        block_op-after kmalloc stale dev buffer size offset write pid s.machine bd h z w,
      )

  serve-ask :
      (write : Bool) (s : Kernel) (bd : BlockDevice)
      → get_elem? s.machine.block_devices (sub64 dev 1) ≡ some (some bd)
      → size % 512 ≡ 0
      → (bd.read_only && write) ≡ false
      → serve write (place s.boxed) (ask write s) ≡ some (handed write s bd)
  unfolding read_proc write_proc process_read process_write
  serve-ask true s bd h z w = run_op-after true (ask true s) (place s.boxed) bd (ground arith) h z w
  serve-ask false s bd h z w =
      run_op-after false (ask false s) (place s.boxed) bd (ground arith) h z w

  -- What the interrupt of an answered request leaves: the process is running again with the status
  -- in its return register, and the request's memory is free.
  pub record Woken (p status : ℕ) (m m' : Machine) : Type 0 where
    pub events : m'.events ≡ freed p ∷ set_a0 pid status ∷ set_running pid ∷ m.events
    pub free : m'.requests p ≡ none
    pub others : (q : ℕ) → p ≢ q → m'.requests q ≡ m.requests q

  module _ (write : Bool) (p status : ℕ) (bd : BlockDevice) (m : Machine) (v : IsValid bd)
      (idle : bd.ack_used_idx ≡ bd.queue.used.idx) (named : 0 < pid)
      (done : Answered
        (sub64 dev 1)
        p
        status
        (submit bd p buffer size write)
        (request stale buffer offset write pid)
        m)
      (alive : m.processes pid ≡ true) where
    answered : BlockDevice
    answered =
        let sent = submit bd p buffer size write in
        record sent { queue = record sent.queue { used = done.used } }

    last_head :
        (k : ℕ)
        → k ≡ bd.queue.avail.idx % io_ring_size
        → get_elem? (submit bd p buffer size write).queue.avail.ring k ≡ some (ahead bd 1)
    last_head k e = rw e (submit_lem bd p buffer size write v).0

    elem-id : done.elem.id ≡ ahead bd 1
    elem-id =
        let last =
          last_head (u16 ((submit bd p buffer size write).queue.avail.idx + 65535) % io_ring_size)
            (omega (arith, (submit_lem bd p buffer size write v).2, v.avail_in)) in
        let back = done.named in cc

    answered-Names : NamesAll answered answered.ack_used_idx (p ∷ [])
    unfolding answered
    answered-Names = (
      (
        done.elem,
        record (header_desc p) { next = ahead bd 2 },
        rw
            (
              (submit-rest bd p buffer size write).0,
              idle,
              ← ap (λ (u : Used). u.idx) (submit-rest bd p buffer size write).1,
            )
            done.returned,
        rw elem-id (submit-head bd p buffer size write v),
        unfold header_desc in refl,
      ),
      tt,
    )

    answered-unseen : 1 ≡ unseen answered
    unfolding answered
    answered-unseen = omega (
      arith,
      done.counted,
      idle,
      v.used_in,
      (submit-rest bd p buffer size write).0,
      ap (λ (u : Used). u.idx) (submit-rest bd p buffer size write).1,
    )

    woken :
        (m' : Machine) × (handle_interrupt (sub64 dev 1) m ≡ some (tt, m')) × Woken p status m m'
    unfolding answered request
    woken =
        let lem =
          handle_interrupt_lem (sub64 dev 1) (p ∷ []) answered m done.device
            (omega (arith, (submit-rest bd p buffer size write).0, v.ack_in))
            (omega (arith, done.counted)) answered-unseen answered-Names (tt, tt)
            ((_, done.written, λ h. alive), tt) in
        (
          _,
          lem.0,
          record {
            events = finish_all_wakes m p _ done.written named;
            free = lem.1.0;
            others = λ q n. lem.2 q (n, tt);
          },
        )

  -- Where the device of the slot is valid and has nothing unseen, the process's number is positive,
  -- the size is a whole number of sectors and a write does not meet a read-only device, a process
  -- that asks is set waiting, and the kernel process that its call adds submits the request and
  -- frees its arguments; and in any machine where the device has answered that request, and nothing
  -- else has been submitted to it or returned by it, and the process still exists, the interrupt is
  -- handled without a panic, sets the process running with the device's status in its return
  -- register, and frees the request alone.
  pub ask-Woken :
      (write : Bool) (s : Kernel) (bd : BlockDevice) (status : ℕ) (m : Machine)
      → get_elem? s.machine.block_devices (sub64 dev 1) ≡ some (some bd)
      → IsValid bd
      → bd.ack_used_idx ≡ bd.queue.used.idx
      → 0 < pid
      → size % 512 ≡ 0
      → (bd.read_only && write) ≡ false
      → m.processes pid ≡ true
      → let p = kmalloc s.machine.requests in
        Answered
          (sub64 dev 1)
          p
          status
          (submit bd p buffer size write)
          (request stale buffer offset write pid)
          m
        → let box = place s.boxed in
          ((ask write s).waiting ≡ pid ∷ s.waiting)
          × ((ask write s).added ≡ job write box ∷ s.added)
          × (serve write box (ask write s) ≡ some (handed write s bd))
          × ((handed write s bd).boxed box ≡ none)
          × (m' : Machine) × (handle_interrupt (sub64 dev 1) m ≡ some (tt, m'))
          × Woken (kmalloc s.machine.requests) status m m'
  unfolding process_read process_write
  ask-Woken write s bd status m h v idle named z w alive done = (
    ground arith,
    ground arith,
    serve-ask write s bd h z w,
    ground arith,
    wakes.0,
    wakes.1,
    wakes.2,
  )
    where
      wakes :
          (m' : Machine) × (handle_interrupt (sub64 dev 1) m ≡ some (tt, m'))
          × Woken (kmalloc s.machine.requests) status m m'
      wakes = woken write (kmalloc s.machine.requests) status bd m v idle named done alive
