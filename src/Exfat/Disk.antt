-- ===== src/Exfat/Disk.antt =====
-- fs/exfat.rs: sectors, the table of clusters, chains and the bitmap of allocated clusters.
use mmurtl_rs.Base.{
  ℕ, zero, suc, ◌+◌, ◌-◌, ◌*◌, ◌/◌, ◌%◌, ◌^◌, Bool, true, false, ◌||◌, ◌==◌, leb, ltb, holds,
  if◌then◌else◌, is_empty, Option, none, some, List, [], ◌∷◌, ◌++◌, length, get_or, take, drop, set,
  replicate, le32, bytes32,
}
use mmurtl_rs.Exfat.{Volume, sector_size, cluster_bytes, cluster_lba, fat_eof}
use mmurtl_rs.Exfat.Io.{Io, Device, ◌>>=◌, ◌>>◌, succeed, need, ignore}
use mmurtl_rs.Fat.Disk.{overwrite}

-- A sector with `bytes` at its start, and zeros behind them.
abbrev pub pad_sector : List ℕ → List ℕ
pad_sector bytes = bytes ++ replicate (sector_size - length bytes) 0

-- Bit `n` of a buffer: `buf[n / 8] & (1 << (n % 8)) != 0`, and what sets and clears it.
abbrev pub test_bit : List ℕ → ℕ → Bool
test_bit buf n = get_or buf (n / 8) 0 / 2 ^ (n % 8) % 2 == 1

abbrev pub put_bit : Bool → List ℕ → ℕ → List ℕ
put_bit allocated buf n =
    if test_bit buf n
    then (if allocated then buf else set buf (n / 8) (get_or buf (n / 8) 0 - 2 ^ (n % 8)))
    else (if allocated then set buf (n / 8) (get_or buf (n / 8) 0 + 2 ^ (n % 8)) else buf)

abbrev pub bits_per_sector : ℕ
bits_per_sector = 512 * 8

-- The chain ends at a free or reserved entry, at the end mark, and at one out of range.
abbrev pub ends_chain : Volume → ℕ → Bool
ends_chain vol next = ltb next 2 || next == fat_eof || ltb (vol.cluster_count + 1) next

-- `for c in first..first + n`
unfoldable pub range : ℕ → ℕ → List ℕ
range first zero = []
range first (suc n) = first ∷ range (suc first) n

-- `((data_length + cbytes - 1) / cbytes) as u32`, in 64 bits that wrap.
abbrev pub clusters_of : Volume → ℕ → ℕ
clusters_of vol len = (len + cluster_bytes vol - 1) % 2 ^ 64 / cluster_bytes vol % 2 ^ 32

unfoldable pub insert_sorted : ℕ → List ℕ → List ℕ
insert_sorted c [] = c ∷ []
insert_sorted c (x ∷ xs) = if leb c x then c ∷ x ∷ xs else x ∷ insert_sorted c xs

-- `sort_unstable`
unfoldable pub sort : List ℕ → List ℕ
unfolding insert_sorted
sort [] = []
sort (c ∷ cs) = insert_sorted c (sort cs)

-- The search for a run of free bits: still looking, with the run so far, or over.
pub data Search : Type 0 where
  looking : (run_start run_len : ℕ) → Search
  over : Option ℕ → Search

-- One bit. Past the last cluster the search is over.
unfoldable pub look_at : ℕ → ℕ → List ℕ → ℕ → ℕ → ℕ → ℕ → Search
look_at cluster_count count buf bit bit_in_sector run_start run_len =
    let run_start' = if run_len == 0 then bit else run_start in
    if leb cluster_count bit
    then over none
    else if test_bit buf bit_in_sector
    then looking run_start 0
    else if suc run_len == count
    then over (some run_start')
    else looking run_start' (suc run_len)

unfoldable pub look_in : ℕ → ℕ → List ℕ → ℕ → ℕ → ℕ → Search → Search
unfolding look_at
look_in cluster_count count buf base bit_in_sector left (over found) = over found
look_in cluster_count count buf base bit_in_sector zero (looking run_start run_len) =
    looking run_start run_len
look_in cluster_count count buf base bit_in_sector (suc left) (looking run_start run_len) =
    look_in cluster_count count buf base (suc bit_in_sector) left
      (look_at cluster_count count buf (base + bit_in_sector) bit_in_sector run_start run_len)

module _ {D : Type 0} (dev : Device D) (vol : Volume) where
  -- A failed read is not an end of the chain.
  unfoldable pub fat_read : ℕ → Io D ℕ
  fat_read cluster = do
    buf ← dev.read_sector (vol.fat_lba + cluster * 4 / sector_size)
    succeed (le32 buf (cluster * 4 % sector_size))

  unfoldable pub fat_write : ℕ → ℕ → Io D Unit
  fat_write cluster value = do
    buf ← dev.read_sector (vol.fat_lba + cluster * 4 / sector_size)
    dev.write_sector (vol.fat_lba + cluster * 4 / sector_size)
        (overwrite buf (cluster * 4 % sector_size) (bytes32 value))

  unfoldable pub read_sectors : ℕ → ℕ → Io D (List ℕ)
  read_sectors lba zero = succeed []
  read_sectors lba (suc left) = do
    buf ← dev.read_sector lba
    rest ← read_sectors (suc lba) left
    succeed (buf ++ rest)

  unfoldable pub read_cluster : ℕ → Io D (List ℕ)
  unfolding read_sectors
  read_cluster cluster = read_sectors (cluster_lba vol cluster) (vol.sectors_per_cluster)

  unfoldable pub write_sectors : ℕ → ℕ → List ℕ → Io D Unit
  write_sectors lba zero bytes = succeed tt
  write_sectors lba (suc left) bytes = do
    dev.write_sector lba (pad_sector (take sector_size bytes))
    write_sectors (suc lba) left (drop sector_size bytes)

  unfoldable pub write_cluster : ℕ → List ℕ → Io D Unit
  unfolding write_sectors
  write_cluster cluster bytes =
      write_sectors (cluster_lba vol cluster) (vol.sectors_per_cluster) bytes

  abbrev pub zero_cluster : ℕ → Io D Unit
  zero_cluster cluster = write_cluster cluster []

  -- The loop through the table, at most `left` clusters long.
  unfoldable pub walk_chain : ℕ → ℕ → Io D (List ℕ)
  unfolding fat_read
  walk_chain zero c = succeed []
  walk_chain (suc left) c = do
    next ← fat_read c
    rest ← if ends_chain vol next then succeed [] else walk_chain left next
    succeed (c ∷ rest)

  unfoldable pub collect_chain : ℕ → Bool → ℕ → Io D (List ℕ)
  unfolding range walk_chain
  collect_chain first no_fat_chain len =
      if ltb first 2
      then succeed []
      else if no_fat_chain
      then succeed (range first ((first + clusters_of vol len) % 2 ^ 32 - first))
      else walk_chain (vol.cluster_count + 1) first

  abbrev pub bitmap_lba : ℕ
  bitmap_lba = cluster_lba vol (vol.bitmap_cluster)

  -- A bitmap sector that was changed is written before another is read.
  abbrev pub flush : Option ℕ → List ℕ → Io D Unit
  flush none buf = succeed tt
  flush (some sector) buf = dev.write_sector (bitmap_lba + sector) buf

  unfoldable pub set_bits : Bool → Option ℕ → List ℕ → List ℕ → Io D Unit
  set_bits allocated loaded buf [] = flush loaded buf
  set_bits allocated loaded buf (cluster ∷ rest) =
      let bit = cluster - 2 in
      let sector = bit / bits_per_sector in
      if ltb cluster 2
      then set_bits allocated loaded buf rest
      else if holds loaded sector
      then set_bits allocated loaded (put_bit allocated buf (bit % bits_per_sector)) rest
      else (do
        flush loaded buf
        buf' ← dev.read_sector (bitmap_lba + sector)
        set_bits allocated (some sector) (put_bit allocated buf' (bit % bits_per_sector)) rest)

  unfoldable pub bitmap_set : List ℕ → Bool → Io D Unit
  unfolding sort set_bits
  bitmap_set clusters allocated = set_bits allocated none (replicate sector_size 0) (sort clusters)

  -- The sectors of the bitmap from `s` on, `left` of them.
  unfoldable pub find_run : ℕ → ℕ → ℕ → Search → Io D (Option ℕ)
  unfolding look_in
  find_run count s left (over found) = succeed found
  find_run count s zero (looking run_start run_len) = succeed none
  find_run count s (suc left) (looking run_start run_len) = do
    buf ← dev.read_sector (bitmap_lba + s)
    find_run count (suc s) left (
        look_in (vol.cluster_count) count buf (s * bits_per_sector) 0 bits_per_sector
          (looking run_start run_len))

  abbrev pub bitmap_sectors : ℕ
  bitmap_sectors = (vol.bitmap_bytes + sector_size - 1) / sector_size

  unfoldable pub bitmap_alloc : ℕ → Io D ℕ
  unfolding range find_run bitmap_set
  bitmap_alloc count = do
    found ← find_run count 0 bitmap_sectors (looking 0 0)
    start ← need found
    bitmap_set (range (start + 2) count) true
    succeed (start + 2)

  unfoldable pub clear_fat : List ℕ → Io D Unit
  unfolding fat_write
  clear_fat [] = succeed tt
  clear_fat (c ∷ rest) = do ignore (fat_write c 0); clear_fat rest

  -- Where the chain cannot be read, nothing is freed.
  unfoldable pub free_clusters : ℕ → Bool → ℕ → Io D Unit
  unfolding collect_chain bitmap_set clear_fat
  free_clusters first no_fat_chain len = ignore (do
    chain ← collect_chain first no_fat_chain len
    if is_empty chain then succeed tt else (do
      ignore (bitmap_set chain false)
      if no_fat_chain then succeed tt else clear_fat chain))
