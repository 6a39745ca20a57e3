-- ===== src/Base/BTreeMap.antt =====
-- Rust's `BTreeMap`, as far as the program uses it: entries in the order of their keys.
use mathlib.Core.Path.{◌≡◌, refl, sym, subst}
use mathlib.Core.Logic.{◌≢◌, ◌⊎◌, ite, if_pos, if_neg, inl, inr}
use mathlib.Core.Bool.{Bool, true, false}
use mathlib.Core.Option.{Option, none, some}
use mathlib.Core.List.{List, [], ◌∷◌}
use native.Mathlib.Omega.{arith}
use mina_os.Base.Tests.{Bool-cases, if◌then◌else◌}

-- The trait `Ord` of the keys.
pub record Ord (K : Type 0) : Type 0 where
  pub decide_eq : Discrete K
  pub lt : K → K → Bool
  pub lt_irrefl : (a : K) → lt a a ≡ false
  pub lt_trans : (a b c : K) → lt a b ≡ true → lt b c ≡ true → lt a c ≡ true
  pub lt_total : (a b : K) → a ≢ b → lt a b ≡ false → lt b a ≡ true

abbrev pub BTreeMap : Type 0 → Type 0 → Type 0
BTreeMap K V = List (K × V)

pub lt_asym : {K : Type 0} ⦃o : Ord K⦄ (a b : K) → o.lt a b ≡ true → o.lt b a ≡ false
lt_asym ⦃o⦄ a b h = elim (Bool-cases (o.lt b a)) [
  | inl t ↦ let z = o.lt_trans a b a h t in let f = o.lt_irrefl a in absurd (cc)
  | inr f ↦ f
]

module _ {K V : Type 0} ⦃o : Ord K⦄ where
  -- m.get(k)
  unfoldable pub get : BTreeMap K V → K → Option V
  get [] k = none
  get ((j, v) ∷ m) k = ite (o.decide_eq j k) (some v) (get m k)

  -- m.insert(k, v)
  unfoldable pub insert : K → V → BTreeMap K V → BTreeMap K V
  insert k v [] = (k, v) ∷ []
  insert k v ((j, w) ∷ m) =
      ite (o.decide_eq j k) ((k, v) ∷ m)
        (if o.lt k j then (k, v) ∷ (j, w) ∷ m else (j, w) ∷ insert k v m)

  -- m.remove(k)
  unfoldable pub remove : K → BTreeMap K V → BTreeMap K V
  remove k [] = []
  remove k ((j, w) ∷ m) = let rest = remove k m in ite (o.decide_eq j k) rest ((j, w) ∷ rest)

  pub get-insert :
      (k j : K) (v : V) (m : BTreeMap K V)
      → get (insert k v m) j ≡ ite (o.decide_eq k j) (some v) (get m j)
  unfolding get insert
  get-insert k j v [] = refl
  get-insert k j v ((i, w) ∷ m) = ground (arith, get-insert k j v m)

  pub get-remove :
      (k j : K) (m : BTreeMap K V) → get (remove k m) j ≡ ite (o.decide_eq k j) none (get m j)
  unfolding get remove
  get-remove k j [] = ground arith
  get-remove k j ((i, w) ∷ m) = ground (arith, get-remove k j m)

  -- The first key of a map, if any, is behind `k`.
  abbrev pub Starts : K → BTreeMap K V → Type 0
  Starts k [] = Unit {0}
  Starts k ((j, w) ∷ m) = o.lt k j ≡ true

  -- The keys rise along the entries, so that no key has two.
  abbrev pub IsSorted : BTreeMap K V → Type 0
  IsSorted [] = Unit {0}
  IsSorted ((k, v) ∷ m) = Starts k m × IsSorted m

  insert-Starts :
      (i k : K) (v : V) (m : BTreeMap K V) → o.lt i k ≡ true → Starts i m → Starts i (insert k v m)
  unfolding insert
  insert-Starts i k v [] h s = h
  insert-Starts i k v ((j, w) ∷ m) h s = ground arith

  pub insert-IsSorted : (k : K) (v : V) (m : BTreeMap K V) → IsSorted m → IsSorted (insert k v m)
  unfolding insert
  insert-IsSorted k v [] s = (tt, tt)
  insert-IsSorted k v ((j, w) ∷ m) s = elim (o.decide_eq j k) [
    | yes same ↦ rw (if_pos (o.decide_eq j k) same) (subst (λ i. Starts i m) same s.0, s.1)
    | no other ↦ rw (if_neg (o.decide_eq j k) other) (elim (Bool-cases (o.lt k j)) [
      | inl before ↦ rw before (before, s)
      | inr behind ↦ rw behind (
        insert-Starts j k v m (o.lt_total k j (λ e. other (sym e)) behind) s.0,
        insert-IsSorted k v m s.1,
      )
    ])
  ]

  -- What an entry after an insertion was.
  pub get-insert-cases :
      (k j : K) (v w : V) (m : BTreeMap K V)
      → get (insert k v m) j ≡ some w
      → ((k ≡ j) × (v ≡ w)) ⊎ ((k ≢ j) × (get m j ≡ some w))
  get-insert-cases k j v w m e = elim (o.decide_eq k j) [
    | yes p ↦ inl (
      p,
      let e' : some v ≡ some w = rw (get-insert k j v m, if_pos (o.decide_eq k j) p) at e in cc,
    )
    | no p ↦ inr (p, rw (get-insert k j v m, if_neg (o.decide_eq k j) p) at e)
  ]

  -- What an entry after a removal was.
  pub get-remove-cases :
      (k j : K) (w : V) (m : BTreeMap K V) → get (remove k m) j ≡ some w → get m j ≡ some w
  get-remove-cases k j w m e = ground (arith, get-remove k j m)

  Starts-trans : (i j : K) (m : BTreeMap K V) → o.lt i j ≡ true → Starts j m → Starts i m
  Starts-trans i j [] h s = tt
  Starts-trans i j ((k, w) ∷ m) h s = o.lt_trans i j k h s

  remove-Starts : (i k : K) (m : BTreeMap K V) → Starts i m → IsSorted m → Starts i (remove k m)
  unfolding remove
  remove-Starts i k [] s t = s
  remove-Starts i k ((j, w) ∷ m) s t = elim (o.decide_eq j k) [
    | yes same ↦
        rw (if_pos (o.decide_eq j k) same) (remove-Starts i k m (Starts-trans i j m s t.0) t.1)
    | no other ↦ rw (if_neg (o.decide_eq j k) other) s
  ]

  pub remove-IsSorted : (k : K) (m : BTreeMap K V) → IsSorted m → IsSorted (remove k m)
  unfolding remove
  remove-IsSorted k [] s = tt
  remove-IsSorted k ((j, w) ∷ m) s = elim (o.decide_eq j k) [
    | yes same ↦ rw (if_pos (o.decide_eq j k) same) (remove-IsSorted k m s.1)
    | no other ↦
        rw (if_neg (o.decide_eq j k) other) (remove-Starts j k m s.0 s.1, remove-IsSorted k m s.1)
  ]

  pub get-insert_self : (k : K) (v : V) (m : BTreeMap K V) → get (insert k v m) k ≡ some v
  get-insert_self k v m = rw (get-insert k k v m, if_pos (o.decide_eq k k) refl)

  pub get-insert_ne : (k j : K) (v : V) (m : BTreeMap K V) → k ≢ j → get (insert k v m) j ≡ get m j
  get-insert_ne k j v m h = rw (get-insert k j v m, if_neg (o.decide_eq k j) h)

  -- The later of two insertions at a key counts.
  pub insert-insert :
      (k : K) (v w : V) (m : BTreeMap K V) → insert k v (insert k w m) ≡ insert k v m
  unfolding insert
  insert-insert k v w [] = ground arith
  insert-insert k v w ((i, u) ∷ m) = ground (arith, insert-insert k v w m, o.lt_irrefl k)

  insert_comm_lt :
      (k j : K) (v w : V) (m : BTreeMap K V)
      → o.lt k j ≡ true
      → k ≢ j
      → insert k v (insert j w m) ≡ insert j w (insert k v m)
  unfolding insert
  insert_comm_lt k j v w [] h n = ground (arith, lt_asym k j h)
  insert_comm_lt k j v w ((i, u) ∷ m) h n = ground (
    arith,
    lt_asym k j h,
    insert_comm_lt k j v w m h n,
    o.lt_trans k j i h,
    o.lt_total j i,
    o.lt_total i j,
    o.lt_irrefl k,
    o.lt_irrefl j,
  )

  -- Two insertions at different keys may change places.
  pub insert_comm :
      (k j : K) (v w : V) (m : BTreeMap K V)
      → k ≢ j
      → insert k v (insert j w m) ≡ insert j w (insert k v m)
  insert_comm k j v w m n = elim (Bool-cases (o.lt k j)) [
    | inl t ↦ insert_comm_lt k j v w m t n
    | inr f ↦ sym (insert_comm_lt j k w v m (o.lt_total k j n f) (λ e. n (sym e)))
  ]
