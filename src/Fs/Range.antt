-- ===== src/Fs/Range.antt =====
-- minaos/src/fs.rs: which bytes `read` copies, and how many.
use mina_os.Base.{
  ℕ, ◌⊎◌, ◌+◌, ◌-◌, ◌*◌, ◌/◌, ◌^◌, ◌≤◌, ◌<◌, min, ◌≡◌, List, [], ◌∷◌, ◌&&◌, arith, ltb, leb,
  if◌then◌else◌, inl, inr, length, get_or-append,
}
use mina_os.Base.Word.{u32, byte_at}
use mina_os.Fs.{Inode, block_size}
use mina_os.Fs.Read.{
  Cursor, running, returned, for_each, memcpy, zone_block, advance, result, read_zones, start, read,
}
use mina_os.Fs.Content.{data_zones, content, read_zones-for_each, length-data_zones}

module _ (syc_read : ℕ → ℕ → List ℕ)
    (delivers : (size offset : ℕ) → length (syc_read size offset) ≡ size) (ob : ℕ) where
  -- Bytes of the zones still to come that are not wanted.
  abbrev skip : Cursor → ℕ
  skip c = (ob - c.blocks_seen) * block_size + c.offset_byte

  -- What a loop over `zs` does to the number of bytes and to the byte at `k`.
  record Copied (zs : List ℕ) (c r : Cursor) (k : ℕ) : Type 0 where
    count : r.bytes_read ≡ c.bytes_read + min c.bytes_left (block_size * length zs - skip c)
    byte : r.dest k ≡ (
        if leb c.bytes_read k && ltb k r.bytes_read
        then byte_at (content syc_read zs) (skip c + (k - c.bytes_read))
        else c.dest k)

  record InRange (zs : List ℕ) (c : Cursor) : Type 0 where
    offset : c.offset_byte < block_size
    blocks : c.blocks_seen + length zs < 2 ^ 32
    bytes : c.bytes_read + c.bytes_left < 2 ^ 32

  passed : Cursor → Cursor
  passed c = record c { blocks_seen = c.blocks_seen + 1 }

  copied : ℕ → ℕ → Cursor → Cursor
  copied z n c = record {
    blocks_seen = c.blocks_seen + 1;
    offset_byte = 0;
    bytes_left = c.bytes_left - n;
    bytes_read = c.bytes_read + n;
    dest = memcpy c.dest c.bytes_read (zone_block syc_read z) c.offset_byte n;
  }

  -- A zone is passed over, or its wanted end is copied, or the rest of the request is.
  advance-cases :
      (z : ℕ) (c : Cursor)
      → InRange (z ∷ []) c
      → ((c.blocks_seen < ob) × (advance syc_read ob z c ≡ running (passed c)))
        ⊎ ((ob ≤ c.blocks_seen)
            × (block_size - c.offset_byte < c.bytes_left)
            × (advance syc_read ob z c ≡ running (copied z (block_size - c.offset_byte) c)))
        ⊎ ((ob ≤ c.blocks_seen)
            × (c.bytes_left ≤ block_size - c.offset_byte)
            × (advance syc_read ob z c
                ≡ returned (record (copied z c.bytes_left c) { blocks_seen = c.blocks_seen })))
  unfolding advance passed copied
  advance-cases z c v = ground arith

  byte_at-content :
      (z : ℕ) (zs : List ℕ) (i : ℕ)
      → byte_at (content syc_read (z ∷ zs)) i ≡ (
          if ltb i block_size
          then byte_at (zone_block syc_read z) i
          else byte_at (content syc_read zs) (i - block_size))
  byte_at-content z zs i = ground (
    arith,
    get_or-append (zone_block syc_read z) (content syc_read zs) i 0,
    delivers block_size (u32 (block_size * z)),
  )

  Copied-passed :
      (z : ℕ) (zs : List ℕ) (c r : Cursor) (k : ℕ)
      → c.blocks_seen < ob
      → Copied zs (passed c) r k
      → Copied (z ∷ zs) c r k
  unfolding passed
  Copied-passed z zs c r k h p = ground (arith, byte_at-content z zs (skip c + (k - c.bytes_read)))

  Copied-copied :
      (z : ℕ) (zs : List ℕ) (c r : Cursor) (k : ℕ)
      → ob ≤ c.blocks_seen
      → c.offset_byte < block_size
      → block_size - c.offset_byte < c.bytes_left
      → Copied zs (copied z (block_size - c.offset_byte) c) r k
      → Copied (z ∷ zs) c r k
  unfolding copied
  Copied-copied z zs c r k h o l p =
      ground (arith, byte_at-content z zs (skip c + (k - c.bytes_read)))

  Copied-last :
      (z : ℕ) (zs : List ℕ) (c : Cursor) (k : ℕ)
      → ob ≤ c.blocks_seen
      → c.offset_byte < block_size
      → c.bytes_left ≤ block_size - c.offset_byte
      → Copied (z ∷ zs) c (record (copied z c.bytes_left c) { blocks_seen = c.blocks_seen }) k
  unfolding copied
  Copied-last z zs c k h o l = ground (arith, byte_at-content z zs (skip c + (k - c.bytes_read)))

  for_each-Copied :
      (zs : List ℕ) (c : Cursor) (k : ℕ)
      → InRange zs c
      → Copied zs c (result (for_each (advance syc_read ob) zs c)) k
  unfolding for_each
  for_each-Copied [] c k v = ground arith
  for_each-Copied (z ∷ zs) c k v = elim (advance-cases z c (omega arith)) [
    | inl (before, e) ↦ rw e (
        Copied-passed z zs c _ k before
          (for_each-Copied zs (passed c) k (unfold passed in omega arith)))
    | inr (inl (after, more, e)) ↦ rw e (
        Copied-copied z zs c _ k after v.offset more (
          for_each-Copied zs (copied z (block_size - c.offset_byte) c) k
            (unfold copied in omega arith)))
    | inr (inr (after, enough, e)) ↦ rw e (Copied-last z zs c k after v.offset enough)
  ]

read-Copied_at :
    (syc_read : ℕ → ℕ → List ℕ) (delivers : (n at : ℕ) → length (syc_read n at) ≡ n) (inode : Inode)
    (buffer : ℕ → ℕ) (size offset : ℕ)
    → size < 2 ^ 32
    → (k : ℕ)
    → Copied syc_read delivers
        (offset / block_size)
        (data_zones syc_read inode)
        (start syc_read inode buffer size offset)
        (result (
          read_zones syc_read
            (offset / block_size)
            inode
            (start syc_read inode buffer size offset)))
        k
unfolding start
read-Copied_at syc_read delivers inode buffer size offset h k =
    rw (read_zones-for_each syc_read (offset / block_size) inode) (
      for_each-Copied syc_read delivers (offset / block_size) (data_zones syc_read inode) _ k
        (ground (arith, length-data_zones syc_read inode)))

-- If every block read fills its buffer and the size is below 2 ^ 32, `read` returns the number of
-- bytes that the data zones hold behind the offset, limited by the size and by the file's, puts
-- exactly those bytes of the zones, in order, at the start of the caller's buffer, and leaves every
-- other byte of the caller's memory alone.
pub read-Copied :
    (syc_read : ℕ → ℕ → List ℕ) (inode : Inode) (buffer : ℕ → ℕ) (size offset : ℕ)
    → ((n at : ℕ) → length (syc_read n at) ≡ n)
    → size < 2 ^ 32
    → let (n, dest) = read syc_read inode buffer size offset in
      let zones = data_zones syc_read inode in
      (n ≡ min (min size inode.size) (block_size * length zones - offset))
      × ((k : ℕ)
          → dest k ≡ (if ltb k n then byte_at (content syc_read zones) (offset + k) else buffer k))
unfolding read start
read-Copied syc_read inode buffer size offset delivers h =
    (ground (arith, copied_at 0), λ k. ground (arith, copied_at k))
  where
    copied_at :
        (k : ℕ)
        → Copied syc_read delivers
            (offset / block_size)
            (data_zones syc_read inode)
            (start syc_read inode buffer size offset)
            (result (
              read_zones syc_read
                (offset / block_size)
                inode
                (start syc_read inode buffer size offset)))
            k
    copied_at = read-Copied_at syc_read delivers inode buffer size offset h
