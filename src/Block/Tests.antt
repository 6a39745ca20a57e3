-- ===== src/Block/Tests.antt =====
-- block.rs: a device that is set up, used and interrupted, and the theorems at concrete inputs.
use mina_os.Base.{
  ℕ, ◌≡◌, ◌≢◌, refl, true, false, none, some, [], ◌∷◌, arith, ◌==◌, if◌then◌else◌, replicate, All,
}
use mina_os.Io.{io_ring_size, mmio_io_start}
use mina_os.Io.Machine.{Machine, freed, set_a0, set_running, BlockDevice}
use mina_os.Block.{
  Result, ok, err, BlockErrors, invalid_argument, block_device_not_found, zero_queue,
  setup_block_device, submit, request, block_op, read, write, handle_interrupt, set_device,
}
use mina_os.Block.Sample.{bus, zalloc, kmalloc, device, machine, device-IsValid}
use mina_os.Block.Chain.{walk, submit_lem}
use mina_os.Block.Pending.{unseen, NamesAll, finish_all, handle_interrupt_lem}
use mina_os.Block.Setup.{setup_block_device_lem, SetUp}
use mina_os.Block.Outcomes.{Outcome, block_op-Outcome}

abbrev empty : Machine
empty = record machine { block_devices = replicate 8 none }

-- Two requests of a device: one by a process 5, one by nobody, returned in the other order.
abbrev busy : BlockDevice
busy =
    let two = submit (submit device 65536 4096 1024 false) 66048 8192 512 true in
    record two {
      queue = record two.queue {
        used = record {
          flags = 0;
          idx = 2;
          ring = record { id = 4; len = 0 } ∷ record { id = 1; len = 1024 } ∷ [];
          event = 0;
        };
      };
    }

abbrev served : Machine
served = record machine {
  block_devices = some busy ∷ replicate 7 none;
  requests = λ a.
      if a == 65536
      then some (request 0 4096 0 false 5)
      else if a == 66048
      then some (request 0 8192 512 true 0)
      else none;
}

submit_lem_example :
    (walk io_ring_size (submit device 65536 4096 1024 false).queue.desc 1)
    ≡ record { addr = 65536; len = 16; flags = 1; next = 2 }
      ∷ record { addr = 4096; len = 1024; flags = 3; next = 3 }
      ∷ record { addr = 65560; len = 1; flags = 2; next = 0 }
      ∷ []
unfolding mina_os.Block.header_desc mina_os.Block.data_desc mina_os.Block.status_desc
submit_lem_example = (submit_lem device 65536 4096 1024 false device-IsValid).1

setup_block_device_lem_example :
    SetUp bus 4096 zalloc mmio_io_start empty
      (setup_block_device bus 4096 zalloc mmio_io_start empty)
setup_block_device_lem_example =
    setup_block_device_lem bus 4096 zalloc mmio_io_start empty refl (omega arith) (omega arith)

block_op-Outcome_example :
    Outcome kmalloc 0 1 4096 1024 0 false 5 machine
      (some device)
      (block_op kmalloc 0 1 4096 1024 0 false 5 machine)
block_op-Outcome_example =
    block_op-Outcome kmalloc 0 1 4096 1024 0 false 5 machine (some device) refl

busy-Names : NamesAll busy busy.ack_used_idx (66048 ∷ 65536 ∷ [])
unfolding submit zero_queue
busy-Names = (
  (record { id = 4; len = 0 }, _, refl, refl, refl),
  ((record { id = 1; len = 1024 }, _, refl, refl, refl), tt),
)

-- The machine after the interrupt.
answered : Machine
answered = record (finish_all served (66048 ∷ 65536 ∷ [])) {
  block_devices = some (record busy { ack_used_idx = busy.queue.used.idx }) ∷ replicate 7 none;
}

busy-next : (busy.ack_used_idx ≡ 0) × (busy.queue.used.idx ≡ 2)
unfolding submit
busy-next = (refl, refl)

handle_interrupt_lem_example :
    (handle_interrupt 0 served ≡ some (tt, answered))
    × All (λ p. answered.requests p ≡ none) (66048 ∷ 65536 ∷ [])
    × ((q : ℕ) → All (λ p. p ≢ q) (66048 ∷ 65536 ∷ []) → answered.requests q ≡ served.requests q)
    × (unseen (record busy { ack_used_idx = busy.queue.used.idx }) ≡ 0)
unfolding answered
handle_interrupt_lem_example =
    handle_interrupt_lem 0 (66048 ∷ 65536 ∷ []) busy served refl (omega (arith, busy-next.0))
      (omega (arith, busy-next.1)) (unfold submit in refl) busy-Names
      ((λ e. omega arith, tt), (tt, tt))
      (
        (request 0 8192 512 true 0, refl, λ h. refl),
        ((request 0 4096 0 false 5, refl, λ h. refl), tt),
      )

-- The process of the first request wakes, and both requests are freed.
answered_events :
    (elim (handle_interrupt 0 served) [ none ↦ [] | some (_, s) ↦ s.events ])
    ≡ freed 65536 ∷ set_a0 5 111 ∷ set_running 5 ∷ freed 66048 ∷ []
unfolding handle_interrupt submit zero_queue request mina_os.Block.complete
answered_events = refl

-- A read of no whole sector, and a device that is not there.
read_half : read kmalloc 0 1 4096 100 0 machine ≡ some (err invalid_argument, machine)
unfolding read
read_half = refl

read_absent : read kmalloc 0 2 4096 512 0 machine ≡ some (err block_device_not_found, machine)
unfolding read
read_absent = refl

write_one :
    (elim (write kmalloc 0 1 4096 512 1024 machine) [
      | none ↦ err invalid_argument
      | some (r, _) ↦ r
    ])
    ≡ ok 512
unfolding write
write_one = refl
