-- ===== src/Probe.antt =====
-- minaos/src/osroutines.rs: `probe`, which sets up the device behind each MMIO slot, and
-- `handle_interrupt`, which hands an interrupt to the driver of its slot.
pub mod Slots
mod Tests
use mina_os.Base.{
  ℕ, zero, suc, ◌+◌, ◌-◌, ◌*◌, ◌/◌, ◌^◌, Bool, true, false, Option, none, some, List, [], ◌∷◌, ◌==◌,
  not, if◌then◌else◌, get_elem?, ltb,
}
use mina_os.Base.Word.{sub64}
use mina_os.Io.{
  IoDevice, DeviceTypes, block, gpu, input, mmio_io_start, mmio_io_end, mmio_io_stride,
  mmio_io_magic,
}
use mina_os.Io.Machine.{
  Machine, M, pure, panic, ◌>>=◌, ◌>>◌, emit, Event, Bus, read_volatile, store_at,
}
use mina_os.Block
use mina_os.Block.{setup_block_device}

-- The drivers of other modules: their set-up, and their interrupt handlers.
pub record Drivers : Type 0 where
  pub setup_entropy_device : ℕ → M Bool
  pub setup_gpu_device : ℕ → M Bool
  pub setup_input_device : ℕ → M Bool
  pub gpu_interrupt : ℕ → M (Unit {0})
  pub input_interrupt : ℕ → M (Unit {0})

unfoldable pub setup_network_device : ℕ → M Bool
setup_network_device ptr = pure false

-- `IO_DEVICES[idx] = Some(IoDevice::new_with(t))`.
unfoldable pub set_io_device : ℕ → DeviceTypes → M (Unit {0})
set_io_device i t s = elim (store_at s.io_devices i (some (record { devtype = t }))) [
  | none ↦ none
  | some ds ↦ some (tt, record s { io_devices = ds })
]

-- A set-up, and the entry of the slot where it succeeds.
unfoldable pub set_up : M Bool → ℕ → DeviceTypes → M (Unit {0})
unfolding set_io_device
set_up setup addr t = do
  done ← setup
  if done then set_io_device ((addr - mmio_io_start) / 2 ^ 12) t else pure tt

unfoldable pub ignore : M Bool → M (Unit {0})
ignore setup = do done ← setup; pure tt

module _ (drivers : Drivers) (bus : Bus) (page_size : ℕ) (zalloc : List Event → ℕ) where
  open drivers use {
    setup_entropy_device, setup_gpu_device, setup_input_device, gpu_interrupt, input_interrupt,
  }

  -- The set-up that a device's number asks for.
  unfoldable pub set_up_device : ℕ → ℕ → M (Unit {0})
  unfolding set_up ignore setup_network_device
  set_up_device deviceid addr =
      if deviceid == 1
      then ignore (setup_network_device addr)
      else if deviceid == 2
      then set_up (setup_block_device bus page_size zalloc addr) addr block
      else if deviceid == 4
      then ignore (setup_entropy_device addr)
      else if deviceid == 16
      then set_up (setup_gpu_device addr) addr gpu
      else if deviceid == 18
      then set_up (setup_input_device addr) addr input
      else pure tt

  -- One round of `probe`: the magic value and the device's number are read first.
  unfoldable pub probe_slot : ℕ → M (Unit {0})
  unfolding set_up_device read_volatile
  probe_slot addr = do
    magicvalue ← read_volatile bus addr
    deviceid ← read_volatile bus (addr + 4 * 2)
    let connected = set_up_device deviceid addr
    if not (mmio_io_magic == magicvalue)
        then pure tt
        else if 0 == deviceid
        then pure tt
        else connected

  -- `for addr in (a..=end).step_by(stride)`, with the rounds that are left.
  unfoldable pub probe_from : ℕ → ℕ → M (Unit {0})
  probe_from zero addr s = some (tt, s)
  probe_from (suc n) addr s = elim (probe_slot addr s) [
    | none ↦ none
    | some (_, s') ↦ probe_from n (addr + mmio_io_stride) s'
  ]

  unfoldable pub probe : M (Unit {0})
  unfolding probe_from
  probe = probe_from ((mmio_io_end - mmio_io_start) / mmio_io_stride + 1) mmio_io_start

  -- The handler of a slot; a device of another type, and a slot without one, is only reported.
  unfoldable pub dispatch : ℕ → Option IoDevice → M (Unit {0})
  dispatch i none = pure tt
  dispatch i (some vd) = elim vd.devtype [
    | block ↦ Block.handle_interrupt i
    | gpu ↦ gpu_interrupt i
    | input ↦ input_interrupt i
    | _ ↦ pure tt
  ]

  unfoldable pub handle_interrupt : ℕ → M (Unit {0})
  unfolding dispatch
  handle_interrupt interrupt s = elim (get_elem? s.io_devices (sub64 interrupt 1)) [
    | none ↦ none
    | some slot ↦ dispatch (sub64 interrupt 1) slot s
  ]
