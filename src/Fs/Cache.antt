-- ===== src/Fs/Cache.antt =====
-- minaos/src/fs.rs: the cache of a device's files by their paths (cache_at, init, open, which is
-- `open_file` here), and stat. A string is the list of its characters' codes.
use mina_os.Base.{
  ℕ, zero, suc, ◌+◌, ◌-◌, ◌*◌, ◌/◌, ◌%◌, Bool, not, Option, none, some, List, [], ◌∷◌, ◌++◌, ◌==◌,
  if◌then◌else◌, ltb, get_elem?, set,
}
use mina_os.Base.BTreeMap.{BTreeMap, Ord, insert}
use mina_os.Base.Word.{u32, sub64, u32_at, clear_bit}
use mina_os.Fs.{Inode, block_size, s_ifdir, get_inode}
use mina_os.Fs.Read.{read}

abbrev pub String : Type 0
String = List ℕ

pub record DirEntry : Type 0 where
  pub inode : ℕ
  pub name : List ℕ

-- `size_of::<DirEntry>()`.
abbrev pub dir_entry_size : ℕ
dir_entry_size = 64

pub record Stat : Type 0 where
  pub mode : ℕ
  pub size : ℕ
  pub uid : ℕ
  pub gid : ℕ

pub data FsError : Type 0 where
  success : FsError
  file_not_found : FsError
  permission : FsError
  is_file : FsError
  is_directory : FsError

pub data Opened : Type 0 where
  ok : Inode → Opened
  err : FsError → Opened

unfoldable pub stat : Inode → Stat
stat inode = record { mode = inode.mode; size = inode.size; uid = inode.uid; gid = inode.gid }

-- `n` bytes from `i` on.
unfoldable pub bytes : (ℕ → ℕ) → ℕ → ℕ → List ℕ
bytes f i zero = []
bytes f i (suc n) = f i ∷ bytes f (i + 1) n

-- `*dirents.add(i)`, laid out by `repr(C)`.
unfoldable pub dir_entry_at : (ℕ → ℕ) → ℕ → DirEntry
unfolding bytes
dir_entry_at f i = record {
  inode = u32_at f (i * dir_entry_size);
  name = bytes f (i * dir_entry_size + 4) 60;
}

-- `n` entries from the `i`-th on.
unfoldable pub dir_entries : (ℕ → ℕ) → ℕ → ℕ → List DirEntry
unfolding dir_entry_at
dir_entries f i zero = []
dir_entries f i (suc n) = dir_entry_at f i ∷ dir_entries f (i + 1) n

-- The characters up to the first that is 0.
unfoldable pub name_of : List ℕ → String
name_of [] = []
name_of (c ∷ cs) = let rest = name_of cs in if c == 0 then [] else c ∷ rest

-- 47 is the code of `/`.
unfoldable pub join : String → ℕ → List ℕ → String
unfolding name_of
join cwd inode_num name =
    if not (inode_num == 1) then (cwd ++ (47 ∷ [])) ++ name_of name else cwd ++ name_of name

-- `mode & S_IFDIR != 0`: `S_IFDIR` is one bit.
unfoldable pub is_dir : Inode → Bool
is_dir ino = not ((ino.mode / s_ifdir) % 2 == 0)

abbrev pub bind {ℓ} : {A B : Type ℓ} → Option A → (A → Option B) → Option B
bind none f = none
bind (some a) f = f a

abbrev pub opened : Option Inode → Opened
opened none = err file_not_found
opened (some ino) = ok ino

-- The size of the buffer for a directory, `(ino.size + BLOCK_SIZE - 1) & !BLOCK_SIZE`: the mask takes
-- out the one bit of the block size.
unfoldable pub room : Inode → ℕ
room ino = clear_bit (u32 (ino.size + block_size - 1)) 10

-- `stale` is what a new buffer holds.
module _ (fetch : ℕ → ℕ → ℕ → List ℕ) (string_ord : Ord String) (stale : ℕ → ℕ) where
  abbrev pub Files : Type 0
  Files = BTreeMap String Inode

  -- The entries of a directory behind the first two, as far as they lie in its first block; `none`
  -- is a read that runs over the end of the buffer.
  unfoldable pub entries : ℕ → Inode → Option (List DirEntry)
  unfolding dir_entries room
  entries bdev ino =
      let (sz, buf) = read (fetch bdev) ino stale block_size 0 in
      if ltb (room ino) sz then none else some (dir_entries buf 2 (sz / dir_entry_size - 2))

  -- The loop over the entries of the directory `inode_num`; `cache` is `cache_at`.
  unfoldable pub walk :
      (Files → String → ℕ → Option Files) → ℕ → String → ℕ → List DirEntry → Files → Option Files
  unfolding join
  walk cache bdev cwd inode_num [] btm = some btm
  walk cache bdev cwd inode_num (d ∷ ds) btm = bind (get_inode fetch bdev d.inode) λ d_ino.
      let new_cwd = join cwd inode_num d.name in
      bind
        (if is_dir d_ino
          then cache btm new_cwd d.inode
          else some (insert ⦃o = string_ord⦄ new_cwd d_ino btm))
        (λ btm'. walk cache bdev cwd inode_num ds btm')

  -- `none` is a panic, a buffer that is run over, or the end of the fuel, which bounds the depth of
  -- the directories.
  unfoldable pub cache_at : ℕ → ℕ → Files → String → ℕ → Option Files
  unfolding walk entries
  cache_at zero bdev btm cwd inode_num = none
  cache_at (suc fuel) bdev btm cwd inode_num =
      bind (get_inode fetch bdev inode_num)
        λ ino. bind (entries bdev ino) (λ es. walk (cache_at fuel bdev) bdev cwd inode_num es btm)

  -- `MFS_INODE_CACHE[bdev - 1]` of a device out of range is a panic.
  unfoldable pub init : ℕ → ℕ → List (Option Files) → Option (List (Option Files))
  unfolding cache_at
  init fuel bdev caches = bind (get_elem? caches (sub64 bdev 1)) λ cache. elim cache [
    | some files ↦ some caches
    | none ↦
        bind (cache_at fuel bdev [] (47 ∷ []) 1) λ btm. some (set caches (sub64 bdev 1) (some btm))
  ]

  -- The line that looks the path up is missing in the source: `look_up` stands for it.  `cache` is
  -- put back.
  unfoldable pub open_file :
      (Files → String → Option Inode)
      → ℕ
      → String
      → List (Option Files)
      → Option (Opened × List (Option Files))
  open_file look_up bdev path caches = bind (get_elem? caches (sub64 bdev 1)) λ cache. elim cache [
    | none ↦ some (err file_not_found, caches)
    | some files ↦ some (
      opened (look_up files path),
      set (set caches (sub64 bdev 1) none) (sub64 bdev 1) (some files),
    )
  ]
