-- ===== src/Fs/DiskTests.antt =====
-- A disk with two directories of 17 entries each, and the theorem on the cache of its files.
use mina_os.Base.{
  ℕ, zero, suc, ◌≡◌, ◌≢◌, refl, ap₂, Bool, true, false, none, List, [], ◌∷◌, ◌++◌, arith, ◌==◌, ltb,
  if◌then◌else◌, ℕ_discrete,
}
use mina_os.Base.BTreeMap.{BTreeMap, Ord}
use mina_os.Fs.{Inode}
use mina_os.Fs.Read.{read, read_zones, for_each, visit, advance, start}
use mina_os.Fs.Cache.{String, DirEntry, room, entries}
use mina_os.Fs.Listing.{Listing, done, file, dir}

-- Strings by their first character that differs.
abbrev lt : String → String → Bool
lt [] [] = false
lt [] (y ∷ ys) = true
lt (x ∷ xs) [] = false
lt (x ∷ xs) (y ∷ ys) =
    let rest = lt xs ys in if ltb x y then true else if x == y then rest else false

lt_irrefl : (a : String) → lt a a ≡ false
lt_irrefl [] = refl
lt_irrefl (x ∷ xs) = ground (arith, lt_irrefl xs)

lt_trans : (a b c : String) → lt a b ≡ true → lt b c ≡ true → lt a c ≡ true
lt_trans [] [] c h k = cc
lt_trans [] (y ∷ ys) [] h k = cc
lt_trans [] (y ∷ ys) (z ∷ zs) h k = refl
lt_trans (x ∷ xs) [] c h k = cc
lt_trans (x ∷ xs) (y ∷ ys) [] h k = cc
lt_trans (x ∷ xs) (y ∷ ys) (z ∷ zs) h k = ground (arith, lt_trans xs ys zs)

lt_total : (a b : String) → a ≢ b → lt a b ≡ false → lt b a ≡ true
lt_total [] [] n h = absurd (n refl)
lt_total [] (y ∷ ys) n h = cc
lt_total (x ∷ xs) [] n h = refl
lt_total (x ∷ xs) (y ∷ ys) n h =
    let rest = lt_total xs ys in
    let parts : x ≡ y → xs ≡ ys → ⊥ = λ p q. n (ap₂ (λ x xs. x ∷ xs) p q) in
    ground (arith, rest, parts)

abbrev string_ord : Ord String
string_ord = record {
  decide_eq = hlevel ℕ_discrete;
  lt = lt;
  lt_irrefl = lt_irrefl;
  lt_trans = lt_trans;
  lt_total = lt_total;
}

abbrev zeros : ℕ → List ℕ
zeros zero = []
zeros (suc n) = 0 ∷ zeros n

abbrev inode_bytes : ℕ → ℕ → ℕ → ℕ → List ℕ
inode_bytes mode low high zone =
    (0 ∷ mode ∷ zeros 6) ++ (low ∷ high ∷ zeros 14) ++ (zone ∷ zeros 39)

abbrev entry_bytes : ℕ → ℕ → List ℕ
entry_bytes inode char = (inode ∷ 0 ∷ 0 ∷ 0 ∷ char ∷ zeros 59)

-- `n` entries of the file b, which is inode 3.
abbrev file_bytes : ℕ → List ℕ
file_bytes zero = []
file_bytes (suc n) = entry_bytes 3 98 ++ file_bytes n

-- The superblock, the inodes 1 to 3, and the directories in zones 5 and 6, of 17 entries each.
abbrev fetch : ℕ → ℕ → ℕ → List ℕ
fetch bdev n at =
    if at == 1024
    then zeros 6 ++ (1 ∷ 0 ∷ 1 ∷ zeros 15) ++ (0x5a ∷ 0x4d ∷ [])
    else if at == 4096
    then inode_bytes 0x40 64 4 5 ++ inode_bytes 0x40 64 4 6 ++ inode_bytes 0x80 7 0 9
    else if at == 5120
    then zeros 128 ++ entry_bytes 2 100 ++ file_bytes 13
    else zeros 128 ++ file_bytes 14

abbrev entry : ℕ → ℕ → DirEntry
entry inode char = record { inode = inode; name = char ∷ zeros 59 }

abbrev inode : ℕ → ℕ → ℕ → Inode
inode mode size zone = record {
  mode = mode;
  nlinks = 0;
  uid = 0;
  gid = 0;
  size = size;
  atime = 0;
  mtime = 0;
  ctime = 0;
  zones = zone ∷ zeros 9;
}

-- The first block of a directory has 14 entries behind the first two: the directory d and the file b
-- in the root, and the file b in d.
abbrev all_files : ℕ → Listing
all_files zero = done
all_files (suc n) = file (entry 3 98) (inode 0x8000 7 9) (all_files n)

abbrev file_entries : ℕ → List DirEntry
file_entries zero = []
file_entries (suc n) = entry 3 98 ∷ file_entries n

abbrev listing : Listing
listing = dir (entry 2 100) (inode 0x4000 1088 6) (all_files 14) (all_files 13)

-- A directory of no more than one block does not fit the buffer that is made for it.
small_directory : entries fetch string_ord (λ i. 0) 1 (inode 0x4000 1024 5) ≡ none
unfolding entries room read read_zones for_each visit advance start
small_directory = refl
