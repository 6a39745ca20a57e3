-- ===== src/Fs.antt =====
-- minaos/src/fs.rs: the Minix file system.  The structures on the disk and the reader of an
-- inode's record.  `Fs.Read` has the reader of a file's contents.
pub mod Read
pub mod Content
pub mod Range
pub mod Slots
pub mod Cache
pub mod Listing
pub mod Process
pub mod Service
mod Tests
mod DiskTests
use mina_os.Base.{
  ℕ, ◌+◌, ◌-◌, ◌*◌, ◌/◌, ◌%◌, Option, none, some, List, [], ◌∷◌, ◌==◌, if◌then◌else◌, drop,
}
use mina_os.Base.Word.{u16, u32, sub64, byte_at, u16_at, u32_at}

abbrev pub magic_number : ℕ
magic_number = 0x4d5a

abbrev pub block_size : ℕ
block_size = 1024

-- Pointers in an indirect block.
abbrev pub num_iptrs : ℕ
num_iptrs = block_size / 4

abbrev pub s_ifdir : ℕ
s_ifdir = 0o040000

abbrev pub s_ifreg : ℕ
s_ifreg = 0o100000

pub record SuperBlock : Type 0 where
  pub ninodes : ℕ
  pub pad0 : ℕ
  pub imap_blocks : ℕ
  pub zmap_blocks : ℕ
  pub first_data_zone : ℕ
  pub log_zone_size : ℕ
  pub pad1 : ℕ
  pub max_size : ℕ
  pub zones : ℕ
  pub magic : ℕ
  pub pad2 : ℕ
  pub block_size : ℕ
  pub disk_version : ℕ

pub record Inode : Type 0 where
  pub mode : ℕ
  pub nlinks : ℕ
  pub uid : ℕ
  pub gid : ℕ
  pub size : ℕ
  pub atime : ℕ
  pub mtime : ℕ
  pub ctime : ℕ
  pub zones : List ℕ

-- `size_of::<Inode>()`: four `u16`, four `u32` and ten `u32`, with no padding.
abbrev pub inode_size : ℕ
inode_size = 64

-- `&*(buffer as *mut SuperBlock)`, laid out by `repr(C)`.
unfoldable pub super_block_at : (ℕ → ℕ) → SuperBlock
super_block_at f = record {
  ninodes = u32_at f 0;
  pad0 = u16_at f 4;
  imap_blocks = u16_at f 6;
  zmap_blocks = u16_at f 8;
  first_data_zone = u16_at f 10;
  log_zone_size = u16_at f 12;
  pad1 = u16_at f 14;
  max_size = u32_at f 16;
  zones = u32_at f 20;
  magic = u16_at f 24;
  pad2 = u16_at f 26;
  block_size = u16_at f 28;
  disk_version = f 30;
}

-- The record at address `p`, laid out by `repr(C)`.
unfoldable pub inode_at : (ℕ → ℕ) → ℕ → Inode
inode_at f p = record {
  mode = u16_at f p;
  nlinks = u16_at f (p + 2);
  uid = u16_at f (p + 4);
  gid = u16_at f (p + 6);
  size = u32_at f (p + 8);
  atime = u32_at f (p + 12);
  mtime = u32_at f (p + 16);
  ctime = u32_at f (p + 20);
  zones =
      u32_at f (p + 24)
      ∷ u32_at f (p + 28)
      ∷ u32_at f (p + 32)
      ∷ u32_at f (p + 36)
      ∷ u32_at f (p + 40)
      ∷ u32_at f (p + 44)
      ∷ u32_at f (p + 48)
      ∷ u32_at f (p + 52)
      ∷ u32_at f (p + 56)
      ∷ u32_at f (p + 60)
      ∷ [];
}

-- The block that holds the record of an inode, as a byte offset.
unfoldable pub inode_offset : SuperBlock → ℕ → ℕ
inode_offset sb inode_num =
    u16 (u16 (2 + sb.imap_blocks) + sb.zmap_blocks) * block_size
    + sub64 inode_num 1 / (block_size / inode_size) * block_size

-- `syscall_block_read bdev size offset` is what a read leaves in the buffer that it fills.
module _ (syscall_block_read : ℕ → ℕ → ℕ → List ℕ) where
  abbrev pub syc_read : ℕ → ℕ → ℕ → List ℕ
  syc_read = syscall_block_read

  unfoldable pub get_inode : ℕ → ℕ → Option Inode
  get_inode bdev inode_num =
      let super_block = super_block_at (byte_at (syc_read bdev 512 1024)) in
      if super_block.magic == magic_number
      then some (
          inode_at (byte_at (syc_read bdev 1024 (u32 (inode_offset super_block inode_num))))
            (sub64 inode_num 1 % (block_size / inode_size) * inode_size))
      else none
