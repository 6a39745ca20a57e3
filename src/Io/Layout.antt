-- ===== src/Io/Layout.antt =====
-- minaos/src/osroutines.rs: `MmioDevice`, the registers of a device as `repr(C)` lays them out.
use mina_os.Base.{ℕ, ◌+◌, ◌-◌, ◌*◌, ◌/◌, ◌≡◌, ◌≢◌, refl, Option, none, some, List, [], ◌∷◌, ite}
use mina_os.Io.{
  MmioOffsets, magic_value, version, device_id, vendor_id, host_features, host_features_sel,
  guest_features, guest_features_sel, guest_page_size, queue_sel, queue_num_max, queue_num,
  queue_align, queue_pfn, queue_notify, interrupt_status, interrupt_ack, status, config, val,
  scaled, scale32,
}
use mina_os.Io.Machine.{register}

abbrev pub io_f_ring_indirect_desc : ℕ
io_f_ring_indirect_desc = 28

abbrev pub io_f_ring_event_idx : ℕ
io_f_ring_event_idx = 29

abbrev pub io_f_version_1 : ℕ
io_f_version_1 = 32

-- A field of a struct: what it is, its size and its alignment.
pub record Field (A : Type 0) : Type 0 where
  pub name : A
  pub size : ℕ
  pub align : ℕ

abbrev pub word32 : {A : Type 0} → A → Field A
word32 a = record { name = a; size = 4; align = 4 }

abbrev pub word64 : {A : Type 0} → A → Field A
word64 a = record { name = a; size = 8; align = 8 }

abbrev pub bytes : {A : Type 0} → A → ℕ → Field A
bytes a n = record { name = a; size = n; align = 1 }

-- The next address from `at` on that a field of the alignment may have.
unfoldable pub aligned : ℕ → ℕ → ℕ
aligned at align = (at + (align - 1)) / align * align

-- Where the fields of a `repr(C)` struct lie that starts at `at`.
unfoldable pub places : {A : Type 0} → ℕ → List (Field A) → List (A × ℕ)
unfolding aligned
places at [] = []
places at (f ∷ fs) = let here = aligned at f.align in (f.name, here) ∷ places (here + f.size) fs

unfoldable pub offset_eq : Discrete (Option MmioOffsets)
offset_eq = hlevel

unfoldable pub find_offset : MmioOffsets → List (Option MmioOffsets × ℕ) → Option ℕ
unfolding offset_eq
find_offset o [] = none
find_offset o ((f, at) ∷ fs) = ite (offset_eq f (some o)) (some at) (find_offset o fs)

-- `none` is a reserved field.
abbrev pub mmio_device : List (Field (Option MmioOffsets))
mmio_device =
    word32 (some magic_value)
    ∷ word32 (some version)
    ∷ word32 (some device_id)
    ∷ word32 (some vendor_id)
    ∷ word32 (some host_features)
    ∷ word32 (some host_features_sel)
    ∷ bytes none 8
    ∷ word32 (some guest_features)
    ∷ word32 (some guest_features_sel)
    ∷ word32 (some guest_page_size)
    ∷ bytes none 4
    ∷ word32 (some queue_sel)
    ∷ word32 (some queue_num_max)
    ∷ word32 (some queue_num)
    ∷ word32 (some queue_align)
    ∷ word64 (some queue_pfn)
    ∷ bytes none 8
    ∷ word32 (some queue_notify)
    ∷ bytes none 12
    ∷ word32 (some interrupt_status)
    ∷ word32 (some interrupt_ack)
    ∷ bytes none 8
    ∷ word32 (some status)
    ∷ []

-- A pointer to a device's registers that is moved by the scaled offset of a register other than the
-- configuration space is at the field of that name in the device's struct.
pub register-mmio_device :
    (ptr : ℕ) (o : MmioOffsets)
    → o ≢ config
    → (at : ℕ) × (find_offset o (places 0 mmio_device) ≡ some at) × (register ptr o ≡ ptr + at)
unfolding find_offset places register scale32 scaled val offset_eq
register-mmio_device ptr magic_value h = (_, refl, refl)
register-mmio_device ptr version h = (_, refl, refl)
register-mmio_device ptr device_id h = (_, refl, refl)
register-mmio_device ptr vendor_id h = (_, refl, refl)
register-mmio_device ptr host_features h = (_, refl, refl)
register-mmio_device ptr host_features_sel h = (_, refl, refl)
register-mmio_device ptr guest_features h = (_, refl, refl)
register-mmio_device ptr guest_features_sel h = (_, refl, refl)
register-mmio_device ptr guest_page_size h = (_, refl, refl)
register-mmio_device ptr queue_sel h = (_, refl, refl)
register-mmio_device ptr queue_num_max h = (_, refl, refl)
register-mmio_device ptr queue_num h = (_, refl, refl)
register-mmio_device ptr queue_align h = (_, refl, refl)
register-mmio_device ptr queue_pfn h = (_, refl, refl)
register-mmio_device ptr queue_notify h = (_, refl, refl)
register-mmio_device ptr interrupt_status h = (_, refl, refl)
register-mmio_device ptr interrupt_ack h = (_, refl, refl)
register-mmio_device ptr status h = (_, refl, refl)
register-mmio_device ptr config h = absurd (h refl)
