-- ===== src/Block/Config.antt =====
-- minaos/src/block.rs: the structs and numbers of the device interface that the driver declares.
use mina_os.Base.{ℕ, ◌≡◌, refl, Option, none, List, [], ◌∷◌, replicate}
use mina_os.Io.Layout.{Field, word64, bytes, places, aligned}
use mina_os.Io.Machine.{BlockDevice}
use mina_os.Block.{status_offset, size_of_header}

pub record Geometry : Type 0 where
  pub cylinders : ℕ
  pub heads : ℕ
  pub sectors : ℕ

pub record Topology : Type 0 where
  pub physical_block_exp : ℕ
  pub alignment_offset : ℕ
  pub min_io_size : ℕ
  pub opt_io_size : ℕ

-- The unused bytes are left out.
pub record Config : Type 0 where
  pub capacity : ℕ
  pub size_max : ℕ
  pub seg_max : ℕ
  pub geometry : Geometry
  pub blk_size : ℕ
  pub topology : Topology
  pub writeback : ℕ
  pub max_discard_sector : ℕ
  pub max_discard_seg : ℕ
  pub discard_sector_alignment : ℕ
  pub max_write_zeroes_sectors : ℕ
  pub max_write_zeroes_seg : ℕ
  pub write_zeroes_may_unmap : ℕ

-- The numbers of the request types that no operation uses yet.
abbrev pub io_blk_t_flush : ℕ
io_blk_t_flush = 4

abbrev pub io_blk_t_discard : ℕ
io_blk_t_discard = 11

abbrev pub io_blk_t_write_zeroes : ℕ
io_blk_t_write_zeroes = 13

-- The statuses that a device writes.
abbrev pub io_blk_s_ok : ℕ
io_blk_s_ok = 0

abbrev pub io_blk_s_ioerr : ℕ
io_blk_s_ioerr = 1

abbrev pub io_blk_s_unsupp : ℕ
io_blk_s_unsupp = 2

-- The feature bits, besides the one for read-only devices.
abbrev pub io_blk_f_size_max : ℕ
io_blk_f_size_max = 1

abbrev pub io_blk_f_seg_max : ℕ
io_blk_f_seg_max = 2

abbrev pub io_blk_f_geometry : ℕ
io_blk_f_geometry = 4

abbrev pub io_blk_f_blk_size : ℕ
io_blk_f_blk_size = 6

abbrev pub io_blk_f_flush : ℕ
io_blk_f_flush = 9

abbrev pub io_blk_f_topology : ℕ
io_blk_f_topology = 10

abbrev pub io_blk_f_config_wce : ℕ
io_blk_f_config_wce = 11

abbrev pub io_blk_f_discard : ℕ
io_blk_f_discard = 13

abbrev pub io_blk_f_write_zeroes : ℕ
io_blk_f_write_zeroes = 14

-- `BLOCK_DEVICES` before any device is set up.
abbrev pub no_block_devices : List (Option BlockDevice)
no_block_devices = replicate 8 none

-- The parts of a header and of a request.
data Part : Type 0 where
  blktype reserved sector header data_pointer status head watcher : Part

abbrev header_fields : List (Field Part)
header_fields =
    record { name = blktype; size = 4; align = 4 }
    ∷ record { name = reserved; size = 4; align = 4 }
    ∷ word64 sector
    ∷ []

abbrev request_fields : List (Field Part)
request_fields =
    record { name = header; size = size_of_header; align = 8 }
    ∷ word64 data_pointer
    ∷ bytes status 1
    ∷ record { name = head; size = 2; align = 2 }
    ∷ record { name = watcher; size = 2; align = 2 }
    ∷ []

-- The offsets that the driver uses are those of `repr(C)`.
header_places : places 0 header_fields ≡ (blktype, 0) ∷ (reserved, 4) ∷ (sector, 8) ∷ []
unfolding places aligned
header_places = refl

request_places :
    places 0 request_fields
    ≡ (header, 0) ∷ (data_pointer, 16) ∷ (status, status_offset) ∷ (head, 26) ∷ (watcher, 28) ∷ []
unfolding places aligned
request_places = refl
