-- ===== src/Io.antt =====
-- minaos/src/osroutines.rs: the MMIO devices, the rings that they share with the kernel, and the
-- machine that the drivers run on.  What a register reads is a function of all accesses before it.
pub mod Machine
pub mod Layout
mod Tests
use Prim.Native.Nat.{bit_and}
use mina_os.Base.{ℕ, ◌/◌, ◌^◌, Bool, not, ◌==◌}

abbrev pub io_desc_f_next : ℕ
io_desc_f_next = 1

abbrev pub io_desc_f_write : ℕ
io_desc_f_write = 2

abbrev pub io_ring_size : ℕ
io_ring_size = 2 ^ 7

pub data MmioOffsets : Type 0 where
  magic_value version device_id vendor_id host_features host_features_sel : MmioOffsets
  guest_features guest_features_sel guest_page_size queue_sel queue_num_max : MmioOffsets
  queue_num queue_align queue_pfn queue_notify interrupt_status interrupt_ack : MmioOffsets
  status config : MmioOffsets

unfoldable pub val : MmioOffsets → ℕ
val magic_value = 0x000
val version = 0x004
val device_id = 0x008
val vendor_id = 0x00c
val host_features = 0x010
val host_features_sel = 0x014
val guest_features = 0x020
val guest_features_sel = 0x024
val guest_page_size = 0x028
val queue_sel = 0x030
val queue_num_max = 0x034
val queue_num = 0x038
val queue_align = 0x03c
val queue_pfn = 0x040
val queue_notify = 0x050
val interrupt_status = 0x060
val interrupt_ack = 0x064
val status = 0x070
val config = 0x100

unfoldable pub scaled : MmioOffsets → ℕ → ℕ
unfolding val
scaled o scale = val o / scale

unfoldable pub scale32 : MmioOffsets → ℕ
unfolding scaled
scale32 o = scaled o 4

pub data DeviceTypes : Type 0 where
  none network block console entropy gpu input memory : DeviceTypes

pub data StatusField : Type 0 where
  acknowledge driver failed features_ok driver_ok device_needs_reset : StatusField

unfoldable pub val32 : StatusField → ℕ
val32 acknowledge = 1
val32 driver = 2
val32 failed = 128
val32 features_ok = 8
val32 driver_ok = 4
val32 device_needs_reset = 64

unfoldable pub test : ℕ → StatusField → Bool
unfolding val32
test sf bit = not (bit_and sf (val32 bit) == 0)

unfoldable pub is_failed : ℕ → Bool
unfolding test
is_failed sf = test sf failed

unfoldable pub needs_reset : ℕ → Bool
unfolding test
needs_reset sf = test sf device_needs_reset

unfoldable pub is_driver_ok : ℕ → Bool
unfolding test
is_driver_ok sf = test sf driver_ok

unfoldable pub is_features_ok : ℕ → Bool
unfolding test
is_features_ok sf = test sf features_ok

abbrev pub mmio_io_start : ℕ
mmio_io_start = 0x1000_1000

abbrev pub mmio_io_end : ℕ
mmio_io_end = 0x1000_8000

abbrev pub mmio_io_stride : ℕ
mmio_io_stride = 0x1000

abbrev pub mmio_io_magic : ℕ
mmio_io_magic = 0x74_72_69_76

pub record IoDevice : Type 0 where
  pub devtype : DeviceTypes

-- The rings of a queue.
pub record Descriptor : Type 0 where
  pub addr : ℕ
  pub len : ℕ
  pub flags : ℕ
  pub next : ℕ
