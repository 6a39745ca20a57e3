-- ===== src/Fs/Slots.antt =====
-- minaos/src/fs.rs: where `get_inode` finds the record of an inode.
use mina_os.Base.{
  ℕ, ◌+◌, ◌-◌, ◌*◌, ◌/◌, ◌%◌, ◌^◌, ◌≤◌, ◌<◌, ◌≡◌, ap, ap₂, List, some, none, arith, ◌==◌,
  if◌then◌else◌,
}
use native.Mathlib.Nat.{add_assoc, add-zero}
use mina_os.Base.Word.{u32, sub64, byte_at, u16_at, u32_at}
use mina_os.Fs.{
  SuperBlock, super_block_at, inode_at, inode_offset, get_inode, magic_number, block_size,
  inode_size,
}

-- The memory `f` from `p` on holds what `g` holds from `q` on, for `n` bytes.
abbrev Agree : ℕ → (ℕ → ℕ) → ℕ → (ℕ → ℕ) → ℕ → Type 0
Agree n f p g q = (i : ℕ) → i < n → f (p + i) ≡ g (q + i)

u16_at-cong :
    (n o : ℕ) (f g : ℕ → ℕ) (p q : ℕ)
    → o + 2 ≤ n
    → Agree n f p g q
    → u16_at f (p + o) ≡ u16_at g (q + o)
u16_at-cong n o f g p q b h =
    ap₂ (λ x y. x + 2 ^ 8 * y) (h o (omega arith))
      (rw (add_assoc p o 1, add_assoc q o 1) (h (o + 1) (omega arith)))

u32_at-cong :
    (n o : ℕ) (f g : ℕ → ℕ) (p q : ℕ)
    → o + 4 ≤ n
    → Agree n f p g q
    → u32_at f (p + o) ≡ u32_at g (q + o)
u32_at-cong n o f g p q b h =
    ap₂ (λ x y. x + 2 ^ 16 * y) (u16_at-cong n o f g p q (omega arith) h)
      (rw (add_assoc p o 2, add_assoc q o 2) (u16_at-cong n (o + 2) f g p q (omega arith) h))

inode_at-cong : (f g : ℕ → ℕ) (p q : ℕ) → Agree 64 f p g q → inode_at f p ≡ inode_at g q
unfolding inode_at
inode_at-cong f g p q h = cc (
  u16_at-cong 64 2 f g p q (omega arith) h,
  u16_at-cong 64 4 f g p q (omega arith) h,
  u16_at-cong 64 6 f g p q (omega arith) h,
  u32_at-cong 64 8 f g p q (omega arith) h,
  u32_at-cong 64 12 f g p q (omega arith) h,
  u32_at-cong 64 16 f g p q (omega arith) h,
  u32_at-cong 64 20 f g p q (omega arith) h,
  u32_at-cong 64 24 f g p q (omega arith) h,
  u32_at-cong 64 28 f g p q (omega arith) h,
  u32_at-cong 64 32 f g p q (omega arith) h,
  u32_at-cong 64 36 f g p q (omega arith) h,
  u32_at-cong 64 40 f g p q (omega arith) h,
  u32_at-cong 64 44 f g p q (omega arith) h,
  u32_at-cong 64 48 f g p q (omega arith) h,
  u32_at-cong 64 52 f g p q (omega arith) h,
  u32_at-cong 64 56 f g p q (omega arith) h,
  u32_at-cong 64 60 f g p q (omega arith) h,
  first,
)
  where
    first : u16_at f p ≡ u16_at g q
    first =
        ap₂ (λ x y. x + 2 ^ 8 * y) (rw (← add-zero p, ← add-zero q) (h 0 (omega arith)))
          (h 1 (omega arith))

-- The record of inode `n` lies in the table behind the boot block, the superblock and the two maps.
abbrev pub inode_address : SuperBlock → ℕ → ℕ
inode_address sb n = (2 + sb.imap_blocks + sb.zmap_blocks) * block_size + (n - 1) * inode_size

abbrev pub super_block : (ℕ → ℕ → ℕ → List ℕ) → ℕ → SuperBlock
super_block syc_read bdev = super_block_at (byte_at (syc_read bdev 512 1024))

-- On a device whose reads return the bytes of `disk`, `get_inode` of an inode number from 1 on
-- decodes the 64 bytes at that inode's place in the inode table if the superblock has the magic
-- number, and is `none` if not, provided that the table's offsets fit the machine's integers.
pub get_inode_lem :
    (syc_read : ℕ → ℕ → ℕ → List ℕ) (disk : ℕ → ℕ) (bdev n : ℕ)
    → ((size at i : ℕ) → i < size → byte_at (syc_read bdev size at) i ≡ disk (at + i))
    → 1 ≤ n
    → n < 2 ^ 32
    → 2 + (super_block syc_read bdev).imap_blocks + (super_block syc_read bdev).zmap_blocks < 2 ^ 16
    → inode_address (super_block syc_read bdev) n < 2 ^ 32
    → get_inode syc_read bdev n ≡ (
        if (super_block syc_read bdev).magic == magic_number
        then some (inode_at disk (inode_address (super_block syc_read bdev) n))
        else none)
unfolding get_inode inode_offset
get_inode_lem syc_read disk bdev n reads pos small fits below =
    ap (λ x. if sb.magic == magic_number then some x else none)
      (inode_at-cong (byte_at (syc_read bdev 1024 at)) disk (slot * inode_size) (inode_address sb n)
        λ i h. ground (arith, place, reads 1024 at (slot * inode_size + i)))
  where
    sb : SuperBlock
    sb = super_block syc_read bdev

    at : ℕ
    at = u32 (inode_offset sb n)

    slot : ℕ
    slot = sub64 n 1 % (block_size / inode_size)

    place : (at + slot * inode_size ≡ inode_address sb n) × (slot < 16)
    place = omega arith
