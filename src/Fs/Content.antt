-- ===== src/Fs/Content.antt =====
-- minaos/src/fs.rs: what a file holds.  The data zones of an inode in order, holes left out, and
-- their bytes; and the four loops of `read` as one loop over those zones.
use mina_os.Base.{
  ℕ, zero, suc, ◌+◌, ◌*◌, ◌^◌, ◌≤◌, ◌≡◌, refl, sym, ap, fun_ext, List, [], ◌∷◌, ◌++◌, arith, ◌==◌,
  if◌then◌else◌, Bool-cases, inl, inr, length, length-append, take, length-take_le,
}
use mina_os.Fs.{Inode, num_iptrs}
use mina_os.Fs.Read.{
  Cursor, Flow, running, returned, and_then, for_each, words, pointers, zone_block, advance, visit,
  indirect, single, double, triple, zone, read_zones,
}

abbrev pub concat_map : (ℕ → List ℕ) → List ℕ → List ℕ
concat_map f [] = []
concat_map f (z ∷ zs) = f z ++ concat_map f zs

and_then_assoc :
    (r : Flow) (f g : Cursor → Flow)
    → and_then (and_then r f) g ≡ and_then r (λ c. and_then (f c) g)
and_then_assoc (running c) f g = refl
and_then_assoc (returned c) f g = refl

and_then_running : (r : Flow) → r ≡ and_then r running
and_then_running (running c) = refl
and_then_running (returned c) = refl

for_each-append :
    (body : ℕ → Cursor → Flow) (xs ys : List ℕ) (c : Cursor)
    → for_each body (xs ++ ys) c ≡ and_then (for_each body xs c) (for_each body ys)
unfolding for_each
for_each-append body [] ys c = refl
for_each-append body (x ∷ xs) ys c =
    rw (fun_ext (for_each-append body xs ys)) (sym (and_then_assoc (body x c) _ _))

for_each-append4 :
    (body : ℕ → Cursor → Flow) (ws xs ys zs : List ℕ) (c : Cursor)
    → for_each body (ws ++ (xs ++ (ys ++ zs))) c
      ≡ and_then (for_each body ws c) λ c1.
        and_then (for_each body xs c1) λ c2. and_then (for_each body ys c2) (for_each body zs)
for_each-append4 body ws xs ys zs c = rw (for_each-append body ws (xs ++ (ys ++ zs)) c) (
    ap (and_then (for_each body ws c)) (
      fun_ext λ c1.
        rw (for_each-append body xs (ys ++ zs) c1)
          (ap (and_then (for_each body xs c1)) (fun_ext (for_each-append body ys zs)))))

-- A loop whose body is itself a loop over the leaves below a zone is the loop over all leaves.
for_each-concat_map :
    (step body : ℕ → Cursor → Flow) (leaves : ℕ → List ℕ)
    → ((z : ℕ) (c : Cursor) → body z c ≡ for_each step (leaves z) c)
    → (zs : List ℕ) (c : Cursor) → for_each body zs c ≡ for_each step (concat_map leaves zs) c
unfolding for_each
for_each-concat_map step body leaves h [] c = refl
for_each-concat_map step body leaves h (z ∷ zs) c =
    rw (h z c, fun_ext (for_each-concat_map step body leaves h zs))
      (sym (for_each-append step (leaves z) (concat_map leaves zs) c))

length-concat_map :
    (f : ℕ → List ℕ) (m : ℕ)
    → ((z : ℕ) → length (f z) ≤ m)
    → (zs : List ℕ) → length (concat_map f zs) ≤ length zs * m
length-concat_map f m h [] = omega arith
length-concat_map f m h (z ∷ zs) =
    omega (arith, length-append (f z) (concat_map f zs), h z, length-concat_map f m h zs)

length-words : (bs : List ℕ) (i n : ℕ) → length (words bs i n) ≡ n
unfolding words
length-words bs i zero = refl
length-words bs i (suc n) = ap suc (length-words bs (i + 4) n)

module _ (syc_read : ℕ → ℕ → List ℕ) where
  -- The data zones below a pointer of each level; a zero pointer is a hole.
  unfoldable pub leaves0 : ℕ → List ℕ
  leaves0 z = if z == 0 then [] else z ∷ []

  unfoldable pub leaves1 : ℕ → List ℕ
  leaves1 z = if z == 0 then [] else concat_map leaves0 (pointers syc_read z)

  unfoldable pub leaves2 : ℕ → List ℕ
  leaves2 z = if z == 0 then [] else concat_map leaves1 (pointers syc_read z)

  unfoldable pub leaves3 : ℕ → List ℕ
  leaves3 z = if z == 0 then [] else concat_map leaves2 (pointers syc_read z)

  unfoldable pub data_zones : Inode → List ℕ
  data_zones inode =
      concat_map leaves0 (take 7 inode.zones)
      ++ (leaves1 (zone syc_read inode 7)
          ++ (leaves2 (zone syc_read inode 8) ++ leaves3 (zone syc_read inode 9)))

  -- The bytes of the data zones, one after the other.
  abbrev pub content : List ℕ → List ℕ
  content = concat_map (zone_block syc_read)

  module _ (ob : ℕ) where
    visit-leaves0 :
        (z : ℕ) (c : Cursor) → visit syc_read ob z c ≡ for_each (advance syc_read ob) (leaves0 z) c
    unfolding leaves0 for_each visit
    visit-leaves0 z c = elim (Bool-cases (z == 0)) [
      | inl hole ↦ rw hole
      | inr full ↦ rw full (and_then_running (advance syc_read ob z c))
    ]

    indirect-leaves :
        (body : ℕ → Cursor → Flow) (leaves : ℕ → List ℕ)
        → ((z : ℕ) (c : Cursor) → body z c ≡ for_each (advance syc_read ob) (leaves z) c)
        → (z : ℕ) (c : Cursor)
        → indirect syc_read body z c
          ≡ for_each
              (advance syc_read ob)
              (if z == 0 then [] else concat_map leaves (pointers syc_read z))
              c
    unfolding indirect for_each
    indirect-leaves body leaves h z c = elim (Bool-cases (z == 0)) [
      | inl hole ↦ rw hole
      | inr full ↦
          rw full (for_each-concat_map (advance syc_read ob) body leaves h (pointers syc_read z) c)
    ]

    single-leaves1 :
        (z : ℕ) (c : Cursor) → single syc_read ob z c ≡ for_each (advance syc_read ob) (leaves1 z) c
    unfolding single leaves1
    single-leaves1 = indirect-leaves _ leaves0 visit-leaves0

    double-leaves2 :
        (z : ℕ) (c : Cursor) → double syc_read ob z c ≡ for_each (advance syc_read ob) (leaves2 z) c
    unfolding double leaves2
    double-leaves2 = indirect-leaves _ leaves1 single-leaves1

    triple-leaves3 :
        (z : ℕ) (c : Cursor) → triple syc_read ob z c ≡ for_each (advance syc_read ob) (leaves3 z) c
    unfolding triple leaves3
    triple-leaves3 = indirect-leaves _ leaves2 double-leaves2

    -- On any cursor the loop over the direct zones and the nested loops over the pointer blocks do
    -- what one loop over the file's data zones in order does.
    pub read_zones-for_each :
        (inode : Inode) (c : Cursor)
        → read_zones syc_read ob inode c ≡ for_each (advance syc_read ob) (data_zones inode) c
    unfolding read_zones data_zones
    read_zones-for_each inode c =
        rw
          (for_each-concat_map (advance syc_read ob) (visit syc_read ob) leaves0 visit-leaves0
            (take 7 inode.zones) c)
          (simp (for_each-append4, single-leaves1, double-leaves2, triple-leaves3))

  length-leaves0 : (z : ℕ) → length (leaves0 z) ≤ 1
  unfolding leaves0
  length-leaves0 z = ground arith

  length-indirect :
      (leaves : ℕ → List ℕ) (m : ℕ)
      → ((z : ℕ) → length (leaves z) ≤ m)
      → (z : ℕ)
      → length (if z == 0 then [] else concat_map leaves (pointers syc_read z)) ≤ num_iptrs * m
  length-indirect leaves m h z = elim (Bool-cases (z == 0)) [
    | inl hole ↦ rw hole (omega arith)
    | inr full ↦ rw full (
        omega (
          arith,
          length-concat_map leaves m h (pointers syc_read z),
          ap (λ (k : ℕ). k * m) (length-words (zone_block syc_read z) 0 num_iptrs),
        ))
  ]

  length-leaves1 : (z : ℕ) → length (leaves1 z) ≤ num_iptrs * 1
  unfolding leaves1
  length-leaves1 = length-indirect leaves0 1 length-leaves0

  length-leaves2 : (z : ℕ) → length (leaves2 z) ≤ num_iptrs * (num_iptrs * 1)
  unfolding leaves2
  length-leaves2 = length-indirect leaves1 (num_iptrs * 1) length-leaves1

  length-leaves3 : (z : ℕ) → length (leaves3 z) ≤ num_iptrs * (num_iptrs * (num_iptrs * 1))
  unfolding leaves3
  length-leaves3 = length-indirect leaves2 (num_iptrs * (num_iptrs * 1)) length-leaves2

  -- A file has at most 7 + 256 + 256 ^ 2 + 256 ^ 3 data zones.
  pub length-data_zones : (inode : Inode) → length (data_zones inode) ≤ 7 + 256 + 256 ^ 2 + 256 ^ 3
  unfolding data_zones
  length-data_zones inode = omega (
    arith,
    length-append (concat_map leaves0 (take 7 inode.zones)) _,
    length-append (leaves1 (zone syc_read inode 7)) _,
    length-append (leaves2 (zone syc_read inode 8)) (leaves3 (zone syc_read inode 9)),
    length-concat_map leaves0 1 length-leaves0 (take 7 inode.zones),
    length-take_le 7 inode.zones,
    length-leaves1 (zone syc_read inode 7),
    length-leaves2 (zone syc_read inode 8),
    length-leaves3 (zone syc_read inode 9),
  )
