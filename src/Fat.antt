-- ===== src/Fat.antt =====
-- fs/fat.rs: the allocation table of a FAT12, FAT16 or FAT32 volume, its cluster chains, and the
-- sectors and clusters on the disk.
use mmurtl_rs.Base.{
  ℕ, zero, suc, ◌+◌, ◌-◌, ◌*◌, ◌/◌, ◌%◌, ◌^◌, min, Bool, true, false, not, ◌&&◌, ◌||◌, ◌==◌, leb,
  ltb, if◌then◌else◌, ◌>>=◌, Option, none, some, List, [], ◌∷◌, ◌++◌, length, get_or, set,
}
pub mod Bytes
pub mod Entry
pub mod Chain
pub mod Select
pub mod Disk
pub mod Files
mod Tests

-- SECTOR, MAX_METADATA, MAX_FILE
abbrev pub sector_size : ℕ
sector_size = 512

abbrev pub max_metadata : ℕ
max_metadata = 8 * 1024 * 1024

abbrev pub max_file : ℕ
max_file = 16 * 1024 * 1024

pub data Kind : Type 0 where
  fat12 fat16 fat32 : Kind

pub record Dir : Type 0 where
  pub cluster : ℕ
  pub root : Bool

pub record Volume : Type 0 where
  pub kind : Kind
  pub fat_lba : ℕ
  pub fat_sectors : ℕ
  pub fats : ℕ
  pub active : ℕ
  pub mirrored : Bool
  pub data_lba : ℕ
  pub spc : ℕ
  pub clusters : ℕ
  pub root_lba : ℕ
  pub root_entries : ℕ
  pub root_cluster : ℕ
  pub fat : List ℕ
  pub hint : ℕ
  pub fsinfo : Option ℕ
  pub backup_fsinfo : Option ℕ
  pub hints_invalid : Bool
  pub free_count : ℕ
  pub failed : Bool

-- The bytes at `n`, least significant first. `Entry` reads inside the table only.
abbrev pub u16le : List ℕ → ℕ → ℕ
u16le b n = get_or b n 0 + 256 * get_or b (n + 1) 0

abbrev pub u32le : List ℕ → ℕ → ℕ
u32le b n = u16le b n + 65536 * u16le b (n + 2)

-- `copy_from_slice(&v.to_le_bytes())`
abbrev pub put_u16 : List ℕ → ℕ → ℕ → List ℕ
put_u16 b n v = set (set b n (v % 256)) (n + 1) (v / 256 % 256)

abbrev pub put_u32 : List ℕ → ℕ → ℕ → List ℕ
put_u32 b n v = put_u16 (put_u16 b n (v % 65536)) (n + 2) (v / 65536)

abbrev pub root : Volume → Dir
root v = record { cluster = v.root_cluster; root = true }

abbrev pub cluster_bytes : Volume → ℕ
cluster_bytes v = v.spc * sector_size

abbrev pub valid : Volume → ℕ → Bool
valid v cluster = leb 2 cluster && ltb cluster (v.clusters + 2)

-- The cluster is at least 2 wherever this is used.
abbrev pub lba : Volume → ℕ → ℕ
lba v cluster = v.data_lba + (cluster - 2) * v.spc

abbrev pub eof : Kind → ℕ
eof Kind.fat12 = 0xfff
eof Kind.fat16 = 0xffff
eof Kind.fat32 = 0x0fffffff

abbrev pub is_eof : Kind → ℕ → Bool
is_eof k value = leb (eof k - 7) value

abbrev pub is_fat32 : Kind → Bool
is_fat32 Kind.fat32 = true
is_fat32 _ = false

-- Where the entry of a cluster begins.
abbrev pub entry_offset : Kind → ℕ → ℕ
entry_offset Kind.fat12 n = n + n / 2
entry_offset Kind.fat16 n = n * 2
entry_offset Kind.fat32 n = n * 4

abbrev pub entry_bytes : Kind → ℕ
entry_bytes Kind.fat12 = 2
entry_bytes Kind.fat16 = 2
entry_bytes Kind.fat32 = 4

-- The entry of a cluster, as `get` reads it.
unfoldable pub entry : Kind → List ℕ → ℕ → ℕ
entry Kind.fat12 b n = let v = u16le b (n + n / 2) in if n % 2 == 0 then v % 4096 else v / 16
entry Kind.fat16 b n = u16le b (n * 2)
entry Kind.fat32 b n = u32le b (n * 4) % 2 ^ 28

-- The table once `set` has written an entry; the bits beside a 12-bit or 28-bit entry stay.
unfoldable pub with_entry : Kind → List ℕ → ℕ → ℕ → List ℕ
with_entry Kind.fat12 b n value =
    let off = n + n / 2 in
    let old = u16le b off in
    put_u16 b off
      (if n % 2 == 0 then old / 4096 * 4096 + value % 4096 else old % 16 + value % 4096 * 16)
with_entry Kind.fat16 b n value = put_u16 b (n * 2) (value % 65536)
with_entry Kind.fat32 b n value =
    put_u32 b (n * 4) (u32le b (n * 4) / 2 ^ 28 * 2 ^ 28 + value % 2 ^ 28)

-- `none` is an `Err`.
unfoldable pub get : Volume → ℕ → Option ℕ
unfolding entry
get v cluster = if not (valid v cluster) then none else some (entry v.kind v.fat cluster)

-- `out.contains(&cluster)`
abbrev pub contains : ℕ → List ℕ → Bool
contains c [] = false
contains c (x ∷ out) = x == c || contains c out

-- The loop of `chain`. Every round adds a cluster and none are added past `max`, so `max + 1`
-- rounds are enough.
unfoldable pub chain_from : Volume → ℕ → ℕ → List ℕ → ℕ → Option (List ℕ)
unfolding get
chain_from v cluster max out zero = none
chain_from v cluster max out (suc fuel) =
    if not (valid v cluster) || leb max (length out) || contains cluster out then none else do
      next ← get v cluster
      let rest = chain_from v next max (out ++ cluster ∷ []) fuel
      if is_eof v.kind next then some (out ++ cluster ∷ []) else rest

unfoldable pub chain : Volume → ℕ → ℕ → Option (List ℕ)
unfolding chain_from
chain v first max =
    if v.failed then none else if first == 0 then some [] else chain_from v first max [] (max + 1)

-- The loop of `allocate` from offset `offset`, with `left` rounds to go: the first `count` free
-- clusters after the hint.
unfoldable pub select : Volume → ℕ → ℕ → ℕ → Option (List ℕ)
unfolding get
select v zero offset left = some []
select v (suc more) offset zero = some []
select v (suc more) offset (suc left) =
    let cluster = 2 + (v.hint - 2 + offset) % v.clusters in
    do
      value ← get v cluster
      rest ← select v (if value == 0 then more else suc more) (suc offset) left
      some (if value == 0 then cluster ∷ rest else rest)
