-- ===== src/Fs/Read.antt =====
-- minaos/src/fs.rs, `FileSystem::read`: the four loops over the zones of an inode.
-- The destination is the caller's memory from `buffer` on, a byte for each offset.
use mina_os.Base.{
  ℕ, zero, suc, ◌+◌, ◌-◌, ◌*◌, ◌/◌, ◌%◌, ◌&&◌, List, [], ◌∷◌, ltb, leb, ◌==◌, if◌then◌else◌, take,
  get_or,
}
use mina_os.Base.Word.{u32, byte_at, u32_at}
use mina_os.Fs.{Inode, block_size, num_iptrs}

-- The variables that the loops change.
pub record Cursor : Type 0 where
  pub blocks_seen : ℕ
  pub offset_byte : ℕ
  pub bytes_left : ℕ
  pub bytes_read : ℕ
  pub dest : ℕ → ℕ

-- A loop goes on with its variables, or the function has returned.
pub data Flow : Type 0 where
  running : Cursor → Flow
  returned : Cursor → Flow

abbrev pub and_then : Flow → (Cursor → Flow) → Flow
and_then (running c) k = k c
and_then (returned c) k = returned c

-- `for z in zs { body(z) }`.
unfoldable pub for_each : (ℕ → Cursor → Flow) → List ℕ → Cursor → Flow
for_each body [] c = running c
for_each body (z ∷ zs) c = and_then (body z c) (for_each body zs)

-- `memcpy(dest + at, src + from, n)`.
abbrev pub memcpy : (ℕ → ℕ) → ℕ → List ℕ → ℕ → ℕ → ℕ → ℕ
memcpy dest at src from n k =
    if leb at k && ltb k (at + n) then byte_at src (from + (k - at)) else dest k

-- The block of pointers read as `*const u32`, its first `n` entries from byte `i` on.
unfoldable pub words : List ℕ → ℕ → ℕ → List ℕ
words bs i zero = []
words bs i (suc n) = u32_at (byte_at bs) i ∷ words bs (i + 4) n

abbrev pub result : Flow → Cursor
result (running c) = c
result (returned c) = c

-- `syc_read` of one block at an offset, on the device that is read.
module _ (syc_read : ℕ → ℕ → List ℕ) where
  -- The block of a zone: the offset is a product of `u32`.
  abbrev pub zone_block : ℕ → List ℕ
  zone_block z = syc_read block_size (u32 (block_size * z))

  abbrev pub pointers : ℕ → List ℕ
  pointers z = words (zone_block z) 0 num_iptrs

  -- A zone of data that is no hole: passed over before the offset, or copied.
  unfoldable pub advance : ℕ → ℕ → Cursor → Flow
  advance offset_block z c =
      if leb offset_block c.blocks_seen
      then (let n =
            if ltb c.bytes_left (block_size - c.offset_byte)
            then c.bytes_left
            else block_size - c.offset_byte in
          let c' : Cursor = record {
            blocks_seen = c.blocks_seen;
            offset_byte = 0;
            bytes_left = c.bytes_left - n;
            bytes_read = u32 (c.bytes_read + n);
            dest = memcpy c.dest c.bytes_read (zone_block z) c.offset_byte n;
          } in
          if c'.bytes_left == 0
          then returned c'
          else running (record c' { blocks_seen = u32 (c.blocks_seen + 1) }))
      else running (record c { blocks_seen = u32 (c.blocks_seen + 1) })

  -- One round of a loop over data zones.
  unfoldable pub visit : ℕ → ℕ → Cursor → Flow
  visit offset_block z c = if z == 0 then running c else advance offset_block z c

  -- A zone of pointers, each handed to `body`.
  unfoldable pub indirect : (ℕ → Cursor → Flow) → ℕ → Cursor → Flow
  indirect body z c = if z == 0 then running c else for_each body (pointers z) c

  unfoldable pub single : ℕ → ℕ → Cursor → Flow
  single offset_block = indirect (visit offset_block)

  unfoldable pub double : ℕ → ℕ → Cursor → Flow
  double offset_block = indirect (single offset_block)

  unfoldable pub triple : ℕ → ℕ → Cursor → Flow
  triple offset_block = indirect (double offset_block)

  abbrev pub zone : Inode → ℕ → ℕ
  zone inode i = get_or inode.zones i 0

  unfoldable pub start : Inode → (ℕ → ℕ) → ℕ → ℕ → Cursor
  start inode buffer size offset = record {
    blocks_seen = 0;
    offset_byte = offset % block_size;
    bytes_left = if ltb inode.size size then inode.size else size;
    bytes_read = 0;
    dest = buffer;
  }

  unfoldable pub read_zones : ℕ → Inode → Cursor → Flow
  read_zones offset_block inode c =
      and_then (for_each (visit offset_block) (take 7 inode.zones) c) λ c1.
        and_then (single offset_block (zone inode 7) c1) λ c2.
          and_then (double offset_block (zone inode 8) c2)
            λ c3. triple offset_block (zone inode 9) c3

  -- What `read` returns, with the caller's memory after it.
  unfoldable pub read : Inode → (ℕ → ℕ) → ℕ → ℕ → ℕ × (ℕ → ℕ)
  read inode buffer size offset =
      let c = result (read_zones (offset / block_size) inode (start inode buffer size offset)) in
      (c.bytes_read, c.dest)
