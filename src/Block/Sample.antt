-- ===== src/Block/Sample.antt =====
-- block.rs: a device and a machine for the tests.
use mina_os.Base.{ℕ, refl, true, false, Option, none, some, List, [], ◌∷◌, arith, replicate}
use mina_os.Io.{mmio_io_start}
use mina_os.Io.Machine.{Machine, Event, Bus, BlockDevice, Request}
use mina_os.Block.{zero_queue}
use mina_os.Block.Chain.{IsValid}

-- Every register reads 1032: FeaturesOk is kept, and there is room for the ring.
abbrev pub bus : Bus
bus es a = 1032

abbrev pub zalloc : List Event → ℕ
zalloc es = 8192

-- The first free address from 2 ^ 16 on, two requests at most.
abbrev pub kmalloc : (ℕ → Option Request) → ℕ
kmalloc h = elim (h 65536) [ none ↦ 65536 | some rq ↦ 66048 ]

abbrev pub device : BlockDevice
device = record {
  queue = zero_queue;
  dev = mmio_io_start;
  idx = 0;
  ack_used_idx = 0;
  read_only = false;
}

abbrev pub machine : Machine
machine = record {
  events = [];
  io_devices = replicate 8 none;
  block_devices = some device ∷ replicate 7 none;
  requests = λ a. none;
  processes = λ pid. true;
}

pub device-IsValid : IsValid device
unfolding zero_queue
device-IsValid = record {
  descs = refl;
  ring = refl;
  idx_in = omega arith;
  avail_in = omega arith;
  ack_in = omega arith;
  used_in = omega arith;
}
