-- ===== src/Io/Tests.antt =====
-- osroutines.rs: a register at its place.
use mina_os.Base.{ℕ, ◌+◌, ◌≡◌, some}
use mina_os.Io.{queue_notify}
use mina_os.Io.Machine.{register}
use mina_os.Io.Layout.{find_offset, places, mmio_device, register-mmio_device}

register-mmio_device_example :
    (at : ℕ) × (find_offset queue_notify (places 0 mmio_device) ≡ some at)
    × (register 0x1000_1000 queue_notify ≡ 0x1000_1000 + at)
register-mmio_device_example = register-mmio_device 0x1000_1000 queue_notify (λ e. cc)
