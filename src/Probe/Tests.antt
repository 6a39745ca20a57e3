-- ===== src/Probe/Tests.antt =====
-- osroutines.rs: a machine with a block device in its last slot and a GPU in its first.
use mina_os.Base.{
  ℕ, zero, suc, ◌+◌, ◌%◌, ◌≡◌, refl, true, false, Option, none, some, List, [], ◌∷◌, ◌==◌,
  if◌then◌else◌, get_elem?, replicate, ◌≢◌,
}
use mina_os.Io.{IoDevice, DeviceTypes, block, gpu, mmio_io_start, mmio_io_magic}
use mina_os.Io.Machine.{Machine, M, pure, Event, Bus}
use mina_os.Probe.{Drivers, probe, handle_interrupt}
use mina_os.Probe.Slots.{IsReady, Keeps, AllBehave, probe-IsReady}

-- The magic value and the numbers of the devices; every other register reads 1032.
abbrev bus : Bus
bus es a =
    if a % 4096 == 0
    then mmio_io_magic
    else if a == mmio_io_start + 8
    then 16
    else if a == mmio_io_start + 0x7008
    then 2
    else if a % 4096 == 8
    then 0
    else 1032

abbrev zalloc : List Event → ℕ
zalloc es = 8192

abbrev drivers : Drivers
drivers = record {
  setup_entropy_device = λ ptr. pure true;
  setup_gpu_device = λ ptr. pure true;
  setup_input_device = λ ptr. pure false;
  gpu_interrupt = λ i. pure tt;
  input_interrupt = λ i. pure tt;
}

abbrev machine : Machine
machine = record {
  events = [];
  io_devices = replicate 8 none;
  block_devices = replicate 8 none;
  processes = λ pid. true;
  requests = λ a. none;
}

drivers-AllBehave : AllBehave drivers
drivers-AllBehave = record {
  entropy = λ ptr. λ s. (true, s, refl, refl, refl);
  gpu_set_up = λ ptr. λ s. (true, s, refl, refl, refl);
  input_set_up = λ ptr. λ s. (false, s, refl, refl, refl);
}

abbrev vacant : Option IoDevice
vacant = none

empty_slots :
    (i n : ℕ) → get_elem? (replicate n vacant) i ≢ some (some (record { devtype = block }))
empty_slots i zero h = cc
empty_slots zero (suc n) h = cc
empty_slots (suc i) (suc n) h = empty_slots i n h

machine-IsReady : IsReady machine
machine-IsReady = record {
  io_slots = refl;
  block_slots = refl;
  behind = λ i e. absurd (empty_slots i 8 e);
}

probe-IsReady_example : Keeps (probe drivers bus 4096 zalloc machine)
probe-IsReady_example =
    probe-IsReady drivers bus 4096 zalloc drivers-AllBehave machine machine-IsReady

probed_devices :
    (elim (probe drivers bus 4096 zalloc machine) [ none ↦ [] | some (_, s) ↦ s.io_devices ])
    ≡ some (record { devtype = gpu })
      ∷ none
      ∷ none
      ∷ none
      ∷ none
      ∷ none
      ∷ none
      ∷ some (record { devtype = block })
      ∷ []
unfolding probe mina_os.Probe.probe_slot mina_os.Block.setup_block_device mina_os.Io.is_features_ok
    mina_os.Io.Machine.register mina_os.Block.size_queue mina_os.Block.finish_setup
    mina_os.Block.set_device
probed_devices = refl
