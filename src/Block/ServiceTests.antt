-- ===== src/Block/ServiceTests.antt =====
-- block.rs: a read of a process, from the call to the wake-up, at concrete inputs.
use mina_os.Block.Chain.{IsValid}
use mina_os.Base.{
  zero, suc, ◌≢◌, subst, get_elem?, ℕ, ◌≡◌, refl, false, Option, none, some, [], ◌∷◌, arith, ◌==◌,
  if◌then◌else◌, replicate,
}
use mina_os.Io.Machine.{Machine, BlockDevice}
use mina_os.Block.{submit, request, zero_queue, handle_interrupt}
use mina_os.Block.{ok}
use mina_os.Block.Outcomes.{after, block_op-after}
use mina_os.Block.Bounds.{IsBounded, AllValid}
use mina_os.Block.Bounds.Steps.{here, next, operates, answers, Reach-IsBounded}
use mina_os.Block.Sample.{kmalloc, device, machine, device-IsValid}
use mina_os.Block.Process.{ProcArgs, Kernel, read_proc_at}
use mina_os.Block.Service.{Answered, Woken, ask, serve, handed, ask-Woken}

abbrev place : (ℕ → Option ProcArgs) → ℕ
place h = 1000

abbrev kernel : Kernel
kernel = record { machine = machine; boxed = λ a. none; waiting = []; added = [] }

-- The device has answered the request with status 0.
abbrev returned : BlockDevice
returned =
    let sent = submit device 65536 4096 1024 false in
    record sent {
      queue = record sent.queue {
        used = record { flags = 0; idx = 1; ring = record { id = 1; len = 1024 } ∷ []; event = 0 };
      };
    }

abbrev later : Machine
later = record machine {
  block_devices = some returned ∷ replicate 7 none;
  requests =
      λ a. if a == 65536 then some (record (request 0 4096 0 false 5) { status = 0 }) else none;
}

later-Answered :
    Answered 0 65536 0 (submit device 65536 4096 1024 false) (request 0 4096 0 false 5) later
unfolding submit zero_queue
later-Answered = record {
  used = _;
  elem = record { id = 1; len = 1024 };
  device = refl;
  counted = refl;
  returned = refl;
  named = refl;
  written = refl;
}

ask-Woken_example :
    ((ask kmalloc 0 place 5 1 4096 1024 0 false kernel).waiting ≡ 5 ∷ [])
    × ((ask kmalloc 0 place 5 1 4096 1024 0 false kernel).added ≡ read_proc_at 1000 ∷ [])
    × (serve kmalloc 0 place 5 1 4096 1024 0 false 1000
          (ask kmalloc 0 place 5 1 4096 1024 0 false kernel)
        ≡ some (handed kmalloc 0 place 5 1 4096 1024 0 false kernel device))
    × ((handed kmalloc 0 place 5 1 4096 1024 0 false kernel device).boxed 1000 ≡ none)
    × (m' : Machine) × (handle_interrupt 0 later ≡ some (tt, m'))
    × Woken kmalloc 0 place 5 1 4096 1024 0 65536 0 later m'
unfolding zero_queue
ask-Woken_example =
    ask-Woken kmalloc 0 place 5 1 4096 1024 0 false kernel device 0 later refl device-IsValid refl
      (omega arith) refl refl refl later-Answered

-- The device reads a block and answers.
abbrev finished : Machine
finished = record (after kmalloc 0 1 4096 1024 0 false 5 machine device) {
  block_devices = some returned ∷ replicate 7 none;
  requests = λ a. none;
}

no_devices : (n i : ℕ) (bd : BlockDevice) → get_elem? (replicate n none) i ≢ some (some bd)
no_devices zero i bd e = cc
no_devices (suc n) zero bd e = cc
no_devices (suc n) (suc i) bd e = no_devices n i bd e

machine-AllValid : AllValid machine.block_devices
machine-AllValid zero bd e = let p : device ≡ bd = cc in subst IsValid p device-IsValid
machine-AllValid (suc i) bd e = absurd (no_devices 7 i bd e)

machine-IsBounded : IsBounded machine
machine-IsBounded = record { slots = refl; valid = machine-AllValid }

Reach-IsBounded_example : IsBounded finished
unfolding submit zero_queue
Reach-IsBounded_example =
    Reach-IsBounded (λ es a. 1032) 4096 (λ es. 8192) kmalloc 0 machine finished machine-IsBounded
      (next
        (next here (
          operates 1 4096 1024 0 false 5 (ok 1024)
            (block_op-after kmalloc 0 1 4096 1024 0 false 5 machine device refl refl refl)))
        (answers 0 (submit device 65536 4096 1024 false) returned.queue.used (λ a. none) refl
          (omega arith) refl))
