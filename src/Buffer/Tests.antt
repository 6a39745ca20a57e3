-- ===== src/Buffer/Tests.antt =====
-- A memory that never takes a block back, and the theorem on a buffer in it.
use mina_os.Base.{
  ℕ, ◌+◌, ◌-◌, ◌≤◌, ◌<◌, ◌≡◌, ◌≢◌, ◌^◌, ◌⊎◌, refl, true, false, ◌&&◌, ◌==◌, leb, ltb, if◌then◌else◌,
  arith,
}
use mina_os.Buffer.{Memory, Apart, Buffer, clone}
use mina_os.Buffer.Clone.{Cloned, clone-Cloned}

-- `next` is the first address that is free.
pub record Bump : Type 0 where
  pub bytes : ℕ → ℕ
  pub next : ℕ

abbrev Owns : Bump → ℕ → ℕ → Type 0
Owns h p n = (0 < p) × (p + n ≤ h.next) × (h.next ≤ 2 ^ 64)

abbrev kmalloc : ℕ → Bump → ℕ × Bump
kmalloc n h = if leb (h.next + n) (2 ^ 64) then (h.next, record h { next = h.next + n }) else (0, h)

abbrev memcpy : ℕ → ℕ → ℕ → Bump → Bump
memcpy p q n h = record h {
  bytes = λ b. if leb p b && ltb b (p + n) then h.bytes (q + (b - p)) else h.bytes b;
}

memcpy_in :
    (h : Bump) (p q n i : ℕ)
    → Apart p n q n
    → i < n
    → (memcpy p q n h).bytes (p + i) ≡ h.bytes (q + i)
memcpy_in h p q n i s l =
    let inside : (leb p (p + i) && ltb (p + i) (p + n)) ≡ true = ground arith in
    let back : (p + i) - p ≡ i = omega arith in rw (inside, back) refl

memcpy_outside :
    (h : Bump) (p q n b : ℕ) → (b < p) ⊎ (p + n ≤ b) → (memcpy p q n h).bytes b ≡ h.bytes b
memcpy_outside h p q n b s =
    let outside : (leb p b && ltb b (p + n)) ≡ false = ground arith in rw outside refl

owned : (h : Bump) (n : ℕ) → (kmalloc n h).0 ≢ 0 → Owns (kmalloc n h).1 (kmalloc n h).0 n
owned h n r = ground arith

apart : (h : Bump) (n q m : ℕ) → (kmalloc n h).0 ≢ 0 → Owns h q m → Apart (kmalloc n h).0 n q m
apart h n q m r o = ground arith

kept :
    (h : Bump) (n q m i : ℕ) → Owns h q m → i < m → (kmalloc n h).1.bytes (q + i) ≡ h.bytes (q + i)
kept h n q m i o l = ground arith

abbrev memory : Memory
memory = record {
  Heap = Bump;
  byte = λ h a. h.bytes a;
  set = λ a v h. record h { bytes = λ b. if a == b then v else h.bytes b };
  byte-set = λ h a v b. refl;
  memcpy = memcpy;
  byte-memcpy = memcpy_in;
  byte-memcpy_outside = memcpy_outside;
  Owns = Owns;
  in_memory = λ h p n o. (o.0, omega arith);
  kmalloc = kmalloc;
  owned = owned;
  apart = apart;
  byte-kmalloc = kept;
  kfree = λ p h. h;
}

abbrev heap : Bump
heap = record { bytes = λ a. a + 5; next = 116 }

abbrev buffer : Buffer memory
buffer = record { buffer = 100; total_len = 16 }

clone-Cloned_example :
    Cloned memory buffer heap 3 77 (clone memory buffer heap).0 (clone memory buffer heap).1
clone-Cloned_example =
    clone-Cloned memory buffer heap 3 77 (omega arith, omega arith, omega arith) (omega arith)
      (omega arith)
