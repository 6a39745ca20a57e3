-- ===== src/Block/Fuel.antt =====
-- block.rs: the loop of `pending` stops.
use mina_os.Base.{◌+◌, ◌≡◌, Option, none, some}
use mina_os.Base.Word.{u16}
use mina_os.Io.Machine.{Machine, BlockDevice}

-- A round that ends without a panic has counted one element.
abbrev Counted : BlockDevice → Option (BlockDevice × Machine) → Type 0
Counted bd none = Unit {0}
Counted bd (some (bd', s')) = bd' ≡ record bd { ack_used_idx = u16 (bd.ack_used_idx + 1) }
