-- ===== src/Fs/Listing.antt =====
-- fs.rs: the cache holds the files of the tree of directories.
use mina_os.Base.{
  ℕ, zero, suc, ◌≤◌, ◌≡◌, ◌∙◌, refl, sym, ap, true, false, Option, none, some, List, [], ◌∷◌, ◌++◌,
  arith, ite, if◌then◌else◌, ltb, get_elem?, set,
}
use mina_os.Base.BTreeMap.{BTreeMap, Ord, get, insert, get-insert}
use mina_os.Base.Word.{sub64}
use mina_os.Fs.{Inode, get_inode}
use mina_os.Fs.Cache.{
  String, DirEntry, join, is_dir, entries, walk, cache_at, init, Opened, err, file_not_found,
  opened, open_file,
}

-- What a directory lists behind its first two entries: files, and directories with what they list.
pub data Listing : Type 0 where
  done : Listing
  file : DirEntry → Inode → Listing → Listing
  dir : DirEntry → Inode → Listing → Listing → Listing

abbrev pub depth : Listing → ℕ
depth done = 0
depth (file d ino rest) = depth rest
depth (dir d ino sub rest) =
    let a = suc (depth sub) in let b = depth rest in if ltb a b then b else a

-- The paths of the files with their inodes, in the order in which they are listed.
abbrev pub files : String → ℕ → Listing → List (String × Inode)
files cwd n done = []
files cwd n (file d ino rest) = (join cwd n d.name, ino) ∷ files cwd n rest
files cwd n (dir d ino sub rest) = files (join cwd n d.name) d.inode sub ++ files cwd n rest

max_le : (a b n : ℕ) → (if ltb a b then b else a) ≤ n → (a ≤ n) × (b ≤ n)
max_le a b n h = ground arith

some_inj {ℓ} : {A : Type ℓ} {a b : A} → some a ≡ some b → a ≡ b
some_inj q = cc

put_back {ℓ} :
    {A : Type ℓ} (xs : List A) (i : ℕ) (x y : A)
    → get_elem? xs i ≡ some x
    → set (set xs i y) i x ≡ xs
put_back [] i x y h = refl
put_back (z ∷ xs) zero x y h = ap (λ x. x ∷ xs) (some_inj (sym h))
put_back (z ∷ xs) (suc i) x y h = ap (λ xs. z ∷ xs) (put_back xs i x y h)

module _ (fetch : ℕ → ℕ → ℕ → List ℕ) (string_ord : Ord String) (stale : ℕ → ℕ) (bdev : ℕ) where
  abbrev Files : Type 0
  Files = BTreeMap String Inode

  -- The entries are those of the listing, and so are the entries of its directories on the disk.
  abbrev pub Lists : List DirEntry → Listing → Type 0
  Lists [] done = Unit
  Lists (e ∷ es) (file d ino rest) =
      (e ≡ d) × (get_inode fetch bdev d.inode ≡ some ino) × (is_dir ino ≡ false) × Lists es rest
  Lists (e ∷ es) (dir d ino sub rest) =
      (e ≡ d)
      × (get_inode fetch bdev d.inode ≡ some ino)
      × (is_dir ino ≡ true)
      × ((inner : List DirEntry) × (entries fetch string_ord stale bdev ino ≡ some inner)
          × Lists inner sub)
      × Lists es rest
  Lists _ _ = ⊥

  abbrev pub insert_all : List (String × Inode) → Files → Files
  insert_all [] btm = btm
  insert_all ((p, ino) ∷ fs) btm = insert_all fs (insert ⦃o = string_ord⦄ p ino btm)

  insert_all-append :
      (xs ys : List (String × Inode)) (btm : Files)
      → insert_all (xs ++ ys) btm ≡ insert_all ys (insert_all xs btm)
  insert_all-append [] ys btm = refl
  insert_all-append ((p, ino) ∷ xs) ys btm =
      insert_all-append xs ys (insert ⦃o = string_ord⦄ p ino btm)

  walk-files :
      (l : Listing) (fuel : ℕ) (cwd : String) (n : ℕ) (es : List DirEntry) (btm : Files)
      → Lists es l
      → depth l ≤ fuel
      → walk fetch string_ord stale (cache_at fetch string_ord stale fuel bdev) bdev cwd n es btm
        ≡ some (insert_all (files cwd n l) btm)
  unfolding walk cache_at
  walk-files done fuel cwd n [] btm h le = refl
  walk-files (file d ino rest) fuel cwd n (e ∷ es) btm h le =
      ap
        (λ e.
          walk fetch string_ord stale (cache_at fetch string_ord stale fuel bdev) bdev cwd n
            (e ∷ es) btm)
        h.0
      ∙ rw (h.1, h.2, walk)
          (walk-files rest fuel cwd n es (insert ⦃o = string_ord⦄ (join cwd n d.name) ino btm) h.3
            le)
  walk-files (dir d ino sub rest) zero cwd n (e ∷ es) btm h le =
      absurd (let b = max_le (suc (depth sub)) (depth rest) zero le in omega (arith, b.0))
  walk-files (dir d ino sub rest) (suc fuel) cwd n (e ∷ es) btm h le =
      let b = max_le (suc (depth sub)) (depth rest) (suc fuel) le in
      let inner =
        walk-files sub fuel (join cwd n d.name) d.inode h.3.0 btm h.3.2 (omega (arith, b.0)) in
      let all = insert_all (files (join cwd n d.name) d.inode sub) btm in
      ap
        (λ e.
          walk fetch string_ord stale (cache_at fetch string_ord stale (suc fuel) bdev) bdev cwd n
            (e ∷ es) btm)
        h.0
      ∙ rw (h.1, h.2, walk, h.3.1, inner, insert_all-append)
          (walk-files rest (suc fuel) cwd n es all h.4 b.1)
  walk-files done fuel cwd n (e ∷ es) btm h le = elim h [ ]
  walk-files (file d ino rest) fuel cwd n [] btm h le = elim h [ ]
  walk-files (dir d ino sub rest) fuel cwd n [] btm h le = elim h [ ]

  cache_at-files :
      (l : Listing) (fuel : ℕ) (cwd : String) (n : ℕ) (ino : Inode) (es : List DirEntry)
      (btm : Files)
      → get_inode fetch bdev n ≡ some ino
      → entries fetch string_ord stale bdev ino ≡ some es
      → Lists es l
      → depth l ≤ fuel
      → cache_at fetch string_ord stale (suc fuel) bdev btm cwd n
        ≡ some (insert_all (files cwd n l) btm)
  unfolding cache_at
  cache_at-files l fuel cwd n ino es btm found fits lists le =
      rw (found, fits, cache_at) (walk-files l fuel cwd n es btm lists le)

  -- The inode of the last of the files with a path.
  abbrev pub last_of : List (String × Inode) → String → Option Inode → Option Inode
  last_of [] path found = found
  last_of ((p, ino) ∷ fs) path found =
      last_of fs path (ite (string_ord.decide_eq p path) (some ino) found)

  get-insert_all :
      (fs : List (String × Inode)) (btm : Files) (path : String)
      → get ⦃o = string_ord⦄ (insert_all fs btm) path
        ≡ last_of fs path (get ⦃o = string_ord⦄ btm path)
  get-insert_all [] btm path = refl
  get-insert_all ((p, ino) ∷ fs) btm path =
      get-insert_all fs (insert ⦃o = string_ord⦄ p ino btm) path
      ∙ ap (last_of fs path) (get-insert ⦃o = string_ord⦄ p path ino btm)

  pub init_lem :
      (l : Listing) (fuel : ℕ) (ino : Inode) (es : List DirEntry) (caches : List (Option Files))
      → get_elem? caches (sub64 bdev 1) ≡ some none
      → get_inode fetch bdev 1 ≡ some ino
      → entries fetch string_ord stale bdev ino ≡ some es
      → Lists es l
      → depth l ≤ fuel
      → (btm : Files) × (init fetch string_ord stale (suc fuel) bdev caches
          ≡ some (set caches (sub64 bdev 1) (some btm)))
        × ((path : String)
            → get ⦃o = string_ord⦄ btm path ≡ last_of (files (47 ∷ []) 1 l) path none)
  unfolding init get
  init_lem l fuel ino es caches empty root fits lists le =
      let built = cache_at-files l fuel (47 ∷ []) 1 ino es [] root fits lists le in
      (
        insert_all (files (47 ∷ []) 1 l) [],
        rw (empty, init, built) refl,
        get-insert_all (files (47 ∷ []) 1 l) [],
      )

  -- `open` of a device that is in range leaves the caches as they are, however it looks a path up.
  open_file-caches :
      (look_up : Files → String → Option Inode) (path : String) (caches : List (Option Files))
      (cache : Option Files)
      → get_elem? caches (sub64 bdev 1) ≡ some cache
      → (o : Opened) × (open_file fetch string_ord stale look_up bdev path caches
          ≡ some (o, caches))
  unfolding open_file
  open_file-caches look_up path caches none h = (err file_not_found, rw (h, open_file) refl)
  open_file-caches look_up path caches (some btm) h = (
    opened (look_up btm path),
    rw (h, open_file, put_back caches (sub64 bdev 1) (some btm) none h) refl,
  )
