-- ===== src/Buffer/Clone.antt =====
-- buffer.rs: a clone has the bytes of the buffer, and a memory of its own.
use mina_os.Base.{
  ℕ, ◌+◌, ◌≤◌, ◌<◌, ◌≡◌, ◌≢◌, ◌^◌, ◌⊎◌, inl, inr, ◌∙◌, refl, sym, ap, false, some, ◌==◌, arith,
}
use mina_os.Base.Word.{u64}
use mina_os.Buffer.{Memory, Apart, Buffer, index, index_mut, clone}

module _ (k : Memory) where
  open k use {Heap}

  -- The index is in the block: the byte there is read, and the byte there is stored.
  index-in :
      (p n : ℕ) (idx : ℕ) (h : Heap)
      → 0 < p
      → p + n ≤ 2 ^ 64
      → idx < n
      → index k (record { buffer = p; total_len = n }) idx h ≡ some (k.byte h (p + idx))
  unfolding index
  index-in p n idx h pos fits less =
      let a : u64 (p + idx) ≡ p + idx = omega arith in
      let z : (p + idx == 0) ≡ false = ground arith in rw (a, z) refl

  index_mut-in :
      (p n : ℕ) (idx v : ℕ) (h : Heap)
      → 0 < p
      → p + n ≤ 2 ^ 64
      → idx < n
      → index_mut k (record { buffer = p; total_len = n }) idx v h ≡ some (k.set (p + idx) v h)
  unfolding index_mut
  index_mut-in p n idx v h pos fits less =
      let a : u64 (p + idx) ≡ p + idx = omega arith in
      let z : (p + idx == 0) ≡ false = ground arith in rw (a, z) refl

  outside : (p n q j : ℕ) → Apart p n q n → j < n → (q + j < p) ⊎ (p + n ≤ q + j)
  outside p n q j (inl l) less = inr (omega arith)
  outside p n q j (inr l) less = inl (omega arith)

  distinct : (p n q i j : ℕ) → Apart p n q n → i < n → j < n → p + i ≢ q + j
  distinct p n q i j (inl l) hi hj = λ e. omega arith
  distinct p n q i j (inr l) hi hj = λ e. omega arith

  other : (h : Heap) (p i v a : ℕ) → p + i ≢ a → k.byte (k.set (p + i) v h) a ≡ k.byte h a
  other h p i v a ne =
      let e = k.byte-set h (p + i) v a in
      let f : (p + i == a) ≡ false = ground (arith, ne) in ground (arith, e, f)

  -- What the clone and the buffer read at an index, then and after a store through the clone.
  pub record Cloned (b : Buffer k) (h : Heap) (idx v : ℕ) (c : Buffer k) (h' : Heap) : Type 0 where
    pub same : index k c idx h' ≡ index k b idx h
    pub kept : index k b idx h' ≡ index k b idx h
    pub stored : Heap
    pub store : index_mut k c idx v h' ≡ some stored
    pub changed : index k c idx stored ≡ some v
    pub untouched : (j : ℕ) → j < b.total_len → index k b j stored ≡ index k b j h

  -- Where there is memory left, the clone of a buffer reads at each index inside what the buffer
  -- reads, before as after.  A byte that is then stored through the clone is read there, and the
  -- buffer reads at each of its indices what it read before.
  pub clone-Cloned :
      (b : Buffer k) (h : Heap) (idx v : ℕ)
      → k.Owns h b.buffer b.total_len
      → (k.kmalloc b.total_len h).0 ≢ 0
      → idx < b.total_len
      → Cloned b h idx v (clone k b h).0 (clone k b h).1
  unfolding clone
  clone-Cloned b h idx v own room less =
      let p = (k.kmalloc b.total_len h).0 in
      let n = b.total_len in
      let h1 = (k.kmalloc n h).1 in
      let h2 = k.memcpy p b.buffer n h1 in
      let mine = k.in_memory h1 p n (k.owned h n room) in
      let old = k.in_memory h b.buffer n own in
      let sep = k.apart h n b.buffer n room own in
      let kept : (j : ℕ) → j < n → k.byte h2 (b.buffer + j) ≡ k.byte h (b.buffer + j) = λ j l.
        k.byte-memcpy_outside h1 p b.buffer n (b.buffer + j) (outside p n b.buffer j sep l)
        ∙ k.byte-kmalloc h n b.buffer n j own l in
      let reads : (g : Heap) (j : ℕ) → j < n → index k b j g ≡ some (k.byte g (b.buffer + j)) =
        λ g j l. index-in b.buffer n j g old.0 old.1 l in
      let copied =
        k.byte-memcpy h1 p b.buffer n idx sep less ∙ k.byte-kmalloc h n b.buffer n idx own less in
      let stored = k.set (p + idx) v h2 in
      let there : k.byte stored (p + idx) ≡ v =
        let e = k.byte-set h2 (p + idx) v (p + idx) in ground (arith, e) in
      let elsewhere : (j : ℕ) → j < n → k.byte stored (b.buffer + j) ≡ k.byte h (b.buffer + j) =
        λ j l.
          other h2 p idx v (b.buffer + j) (distinct p n b.buffer idx j sep less l) ∙ kept j l in
      record {
        same = index-in p n idx h2 mine.0 mine.1 less ∙ ap some copied ∙ sym (reads h idx less);
        kept = reads h2 idx less ∙ ap some (kept idx less) ∙ sym (reads h idx less);
        stored = stored;
        store = index_mut-in p n idx v h2 mine.0 mine.1 less;
        changed = index-in p n idx stored mine.0 mine.1 less ∙ ap some there;
        untouched = λ j l. reads stored j l ∙ ap some (elsewhere j l) ∙ sym (reads h j l);
      }
