-- ===== src/Fs/Tests.antt =====
-- fs.rs on a small disk: runs, and the theorems at concrete inputs.
use mina_os.Base.{
  ℕ, zero, suc, ◌+◌, ◌-◌, ◌*◌, ◌/◌, ◌<◌, min, ◌≡◌, refl, ap, List, [], ◌∷◌, some, none, arith, ◌==◌,
  ltb, if◌then◌else◌, length, true,
}
use mina_os.Base.Word.{byte_at}
use mina_os.Fs.{Inode, magic_number, super_block_at, inode_at, inode_offset, get_inode}
use mina_os.Fs.Read.{
  advance, visit, for_each, single, double, triple, indirect, start, read_zones, read,
}
use mina_os.Fs.Content.{
  data_zones, content, leaves0, leaves1, leaves2, leaves3, read_zones-for_each,
}
use mina_os.Fs.Process.{Kernel, read_proc, process_read}
use mina_os.Fs.Service.{Served, process_read-Served}
use mina_os.Fs.Range.{read-Copied}
use mina_os.Fs.Slots.{super_block, inode_address, get_inode_lem}

-- The first `n` values of a function from `i` on.
abbrev tabulate : (ℕ → ℕ) → ℕ → ℕ → List ℕ
tabulate f i zero = []
tabulate f i (suc n) = f i ∷ tabulate f (i + 1) n

length-tabulate : (f : ℕ → ℕ) (i n : ℕ) → length (tabulate f i n) ≡ n
length-tabulate f i zero = refl
length-tabulate f i (suc n) = ap suc (length-tabulate f (i + 1) n)

byte_at-tabulate : (f : ℕ → ℕ) (i n k : ℕ) → k < n → byte_at (tabulate f i n) k ≡ f (i + k)
byte_at-tabulate f i zero k h = elim h [ ]
byte_at-tabulate f i (suc n) zero h = ap f (omega arith)
byte_at-tabulate f i (suc n) (suc k) h = ground (arith, byte_at-tabulate f (i + 1) n k)

-- A disk with two map blocks, a Minix superblock, and every other byte equal to its zone.
abbrev disk : ℕ → ℕ
disk i =
    if i == 1030
    then 1
    else if i == 1032
    then 1
    else if i == 1048
    then 0x5a
    else if i == 1049
    then 0x4d
    else if ltb i 4096
    then 0
    else i / 1024

abbrev fetch : ℕ → ℕ → ℕ → List ℕ
fetch bdev n at = tabulate disk at n

-- A file of 1500 bytes in zones 9 and 5, with a hole between them.
abbrev file : Inode
file = record {
  mode = 0o100644;
  nlinks = 1;
  uid = 0;
  gid = 0;
  size = 1500;
  atime = 0;
  mtime = 0;
  ctime = 0;
  zones = 9 ∷ 0 ∷ 5 ∷ 0 ∷ 0 ∷ 0 ∷ 0 ∷ 0 ∷ 0 ∷ 0 ∷ [];
}

-- 1000 bytes from offset 1000: 24 of zone 9, then zone 5.
reads_on :
    let (n, dest) = read (fetch 1) file (λ _. 77) 1000 1000 in
    (n ≡ 1000) × (dest 23 ≡ 9) × (dest 24 ≡ 5) × (dest 1000 ≡ 77)
unfolding read read_zones start for_each visit advance single double triple indirect
reads_on = (refl, refl, refl, refl)

delivers : (n at : ℕ) → length (fetch 1 n at) ≡ n
delivers n at = length-tabulate disk at n

file_zones : data_zones (fetch 1) file ≡ 9 ∷ 5 ∷ []
unfolding data_zones leaves0 leaves1 leaves2 leaves3
file_zones = refl

read_zones-for_each_example :
    read_zones (fetch 1) 1 file (start (fetch 1) file (λ _. 77) 1000 1400)
    ≡ for_each
        (advance (fetch 1) 1)
        (data_zones (fetch 1) file)
        (start (fetch 1) file (λ _. 77) 1000 1400)
read_zones-for_each_example =
    read_zones-for_each (fetch 1) 1 file (start (fetch 1) file (λ _. 77) 1000 1400)

read-Copied_example :
    let (n, dest) = read (fetch 1) file (λ _. 77) 1000 1400 in
    let zones = data_zones (fetch 1) file in
    (n ≡ min (min 1000 1500) (1024 * length zones - 1400))
    × ((k : ℕ) → dest k ≡ (if ltb k n then byte_at (content (fetch 1) zones) (1400 + k) else 77))
read-Copied_example = read-Copied (fetch 1) file (λ _. 77) 1000 1400 delivers (omega arith)

-- The file ends at 1500; at offset 1600 there are still bytes of its last zone.
read_past : ltb 0 (read (fetch 1) file (λ _. 77) 10 1600).0 ≡ true
unfolding read read_zones for_each visit advance start
read_past = refl

get_inode_lem_example : get_inode fetch 1 3 ≡ (
    if (super_block fetch 1).magic == magic_number
    then some (inode_at disk (inode_address (super_block fetch 1) 3))
    else none)
unfolding super_block_at
get_inode_lem_example =
    get_inode_lem fetch disk 1 3 (λ size at i h. byte_at-tabulate disk at size i h) (omega arith)
      (omega arith) (omega arith) (omega arith)

-- The magic number is found, and inode 3 lies in block 4.
third_inode : get_inode fetch 1 3 ≡ some (inode_at disk (4096 + 128))
unfolding get_inode super_block_at inode_at inode_offset
third_inode = refl

abbrev kernel : Kernel
kernel = record { memory = λ a. 7; boxed = λ a. none; events = [] }

-- Process 6 reads inode 3 into its buffer at 8192.
process_read-Served_example :
    (s' : Kernel) × (read_proc fetch
        (λ es pid. true)
        (λ h. 500)
        500
        (process_read fetch (λ es pid. true) (λ h. 500) 6 1 3 8192 100 0 kernel)
      ≡ some s')
    × Served fetch
        (λ es pid. true)
        (λ h. 500)
        6
        1
        3
        8192
        100
        0
        (inode_at disk (4096 + 128))
        delivers
        (omega arith)
        kernel
        s'
process_read-Served_example =
    process_read-Served fetch (λ es pid. true) (λ h. 500) 6 1 3 8192 100 0
      (inode_at disk (4096 + 128)) delivers (omega arith) kernel third_inode refl
