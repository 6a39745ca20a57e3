-- ===== src/Buffer.antt =====
-- minaos/src/buffer.rs: bytes on the heap with one owner.
pub mod Clone
mod Tests
use mina_os.Base.{
  ℕ, ◌+◌, ◌≤◌, ◌<◌, ◌≡◌, ◌≢◌, ◌^◌, ◌⊎◌, Bool, true, false, not, Option, none, some, ◌==◌,
  if◌then◌else◌,
}
use mina_os.Base.Word.{u64}

-- No byte is in both of the blocks.
abbrev pub Apart : ℕ → ℕ → ℕ → ℕ → Type 0
Apart p n q m = (p + n ≤ q) ⊎ (q + m ≤ p)

-- The allocator of kmem.rs, `memcpy`, and the bytes of the memory.  `Owns h p n` says that at `p` a
-- block of `n` bytes is allocated.  An allocation is apart from the blocks that are there, and
-- leaves them and their bytes as they are, and so does the release of another block.
pub record Memory : Type 1 where
  pub Heap : Type 0
  pub byte : Heap → ℕ → ℕ
  pub set : ℕ → ℕ → Heap → Heap
  pub byte-set : (h : Heap) (a v b : ℕ) → byte (set a v h) b ≡ (if a == b then v else byte h b)
  pub memcpy : ℕ → ℕ → ℕ → Heap → Heap
  pub byte-memcpy :
      (h : Heap) (p q n i : ℕ)
      → Apart p n q n
      → i < n
      → byte (memcpy p q n h) (p + i) ≡ byte h (q + i)
  pub byte-memcpy_outside :
      (h : Heap) (p q n b : ℕ) → (b < p) ⊎ (p + n ≤ b) → byte (memcpy p q n h) b ≡ byte h b
  pub Owns : Heap → ℕ → ℕ → Type 0
  pub in_memory : (h : Heap) (p n : ℕ) → Owns h p n → (0 < p) × (p + n ≤ 2 ^ 64)
  pub kmalloc : ℕ → Heap → ℕ × Heap
  pub owned : (h : Heap) (n : ℕ) → (kmalloc n h).0 ≢ 0 → Owns (kmalloc n h).1 (kmalloc n h).0 n
  pub apart :
      (h : Heap) (n q m : ℕ) → (kmalloc n h).0 ≢ 0 → Owns h q m → Apart (kmalloc n h).0 n q m
  pub byte-kmalloc :
      (h : Heap) (n q m i : ℕ) → Owns h q m → i < m → byte (kmalloc n h).1 (q + i) ≡ byte h (q + i)
  pub kfree : ℕ → Heap → Heap

module _ (k : Memory) where
  open k use {Heap}

  pub record Buffer : Type 0 where
    pub buffer : ℕ
    pub total_len : ℕ

  unfoldable pub new : ℕ → Heap → Buffer × Heap
  new sz h = let (p, h') = k.kmalloc sz h in (record { buffer = p; total_len = sz }, h')

  unfoldable pub get_mut : Buffer → ℕ
  get_mut b = b.buffer

  unfoldable pub get : Buffer → ℕ
  get b = b.buffer

  unfoldable pub buffer_len : Buffer → ℕ
  buffer_len b = b.total_len

  unfoldable pub default : Heap → Buffer × Heap
  unfolding new
  default h = new 1024 h

  -- `as_ref().unwrap()` of a pointer: the null pointer is a panic.
  unfoldable pub index : Buffer → ℕ → Heap → Option ℕ
  index b idx h = let a = u64 (b.buffer + idx) in if a == 0 then none else some (k.byte h a)

  -- A byte is stored through `index_mut`.
  unfoldable pub index_mut : Buffer → ℕ → ℕ → Heap → Option Heap
  index_mut b idx v h = let a = u64 (b.buffer + idx) in if a == 0 then none else some (k.set a v h)

  unfoldable pub clone : Buffer → Heap → Buffer × Heap
  clone b h =
      let (p, h') = k.kmalloc b.total_len h in
      (record { buffer = p; total_len = b.total_len }, k.memcpy p b.buffer b.total_len h')

  unfoldable pub drop : Buffer → Heap → Buffer × Heap
  drop b h = if not (b.buffer == 0) then (record b { buffer = 0 }, k.kfree b.buffer h) else (b, h)
