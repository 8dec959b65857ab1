-- ===== src/Fat/Disk.antt =====
-- The operations of fs/fat.rs that read and write the disk. One sector is read or written at a
-- time, by the driver of virtio/blk.rs, which is a parameter here.
use mmurtl_rs.Base.{
  ℕ, zero, suc, ◌+◌, ◌-◌, ◌*◌, ◌/◌, ◌%◌, ◌^◌, min, Bool, true, false, not, ◌&&◌, ◌||◌, ◌==◌, ltb,
  if◌then◌else◌, is_empty, Option, none, some, List, [], ◌∷◌, ◌++◌, length, get_or, replicate, take,
  drop,
}
use mmurtl_rs.Fat.{
  Volume, Dir, sector_size, max_metadata, max_file, u32le, cluster_bytes, valid, lba, eof,
  entry_offset, is_fat32, entry_bytes, with_entry, chain, select,
}

-- `none` in a result is an `Err`; the changes made before it stay.
abbrev pub Result : Type 0 → Type 0 → Type 0
Result S A = Option A × S

abbrev pub and_then : {S A B : Type 0} → Result S A → (A → S → Result S B) → Result S B
and_then (none, s) f = (none, s)
and_then (some a, s) f = f a s

-- `b[n..n + bytes.len()].copy_from_slice(bytes)`
abbrev pub overwrite : List ℕ → ℕ → List ℕ → List ℕ
overwrite b n bytes = take n b ++ bytes ++ drop (n + length bytes) b

abbrev pub slice : List ℕ → ℕ → ℕ → List ℕ
slice b start len = take len (drop start b)

abbrev pub le_bytes32 : ℕ → List ℕ
le_bytes32 n = n % 256 ∷ n / 256 % 256 ∷ n / 65536 % 256 ∷ n / 16777216 % 256 ∷ []

-- `[a, b].into_iter().flatten()`
abbrev pub flatten : Option ℕ → Option ℕ → List ℕ
flatten none none = []
flatten (some a) none = a ∷ []
flatten none (some b) = b ∷ []
flatten (some a) (some b) = a ∷ b ∷ []

-- The three signatures of an FSInfo sector.
abbrev pub is_fsinfo : List ℕ → Bool
is_fsinfo data' =
    u32le data' 0 == 0x41615252 && u32le data' 484 == 0x61417272 && u32le data' 508 == 0xaa550000

module _ {D : Type 0} (read_sector : ℕ → D → Option (List ℕ))
    (put_sector : ℕ → List ℕ → D → Option D) where
  -- A volume and the disk that it lies on.
  pub record Mounted : Type 0 where
    pub volume : Volume
    pub disk : D

  -- A failed write stops the volume.
  unfoldable pub write_sector : ℕ → List ℕ → Mounted → Result Mounted Unit
  write_sector at bytes m =
      if m.volume.failed || not (length bytes == sector_size)
      then (none, m)
      else elim (put_sector at bytes m.disk) [
        | none ↦ (none, record m { volume = record (m.volume) { failed = true } })
        | some d ↦ (some tt, record m { disk = d })
      ]

  -- `for index in off / SECTOR..=(off + len - 1) / SECTOR`, for one copy of the table.
  unfoldable pub write_indices : ℕ → ℕ → ℕ → Mounted → Result Mounted Unit
  unfolding write_sector
  write_indices copy index zero m = (some tt, m)
  write_indices copy index (suc left) m =
      let v = m.volume in
      and_then
        (write_sector (v.fat_lba + copy * v.fat_sectors + index)
          (slice v.fat (index * sector_size) sector_size) m)
        (λ _. write_indices copy (suc index) left)

  unfoldable pub write_copies : ℕ → ℕ → ℕ → ℕ → Mounted → Result Mounted Unit
  unfolding write_indices
  write_copies off len copy zero m = (some tt, m)
  write_copies off len copy (suc left) m =
      let first = off / sector_size in
      let count = (off + len - 1) / sector_size + 1 - first in
      let rest = write_copies off len (suc copy) left in
      if not m.volume.mirrored && not (copy == m.volume.active)
      then rest m
      else and_then (write_indices copy first count m) (λ _. rest)

  -- `set`
  unfoldable pub set_entry : ℕ → ℕ → Mounted → Result Mounted Unit
  unfolding write_copies with_entry
  set_entry cluster value m =
      let v = m.volume in
      if v.failed || not (valid v cluster)
      then (none, m)
      else write_copies (entry_offset v.kind cluster) (entry_bytes v.kind) 0 v.fats
          (record m { volume = record v { fat = with_entry v.kind v.fat cluster value } })

  -- The loop that `invalidate_hints` and `sync_hints` share: an FSInfo sector gets new bytes.
  unfoldable pub put_hints : List ℕ → List ℕ → Mounted → Result Mounted Unit
  unfolding write_sector
  put_hints [] bytes m = (some tt, m)
  put_hints (at ∷ rest) bytes m = elim (read_sector at m.disk) [
    | none ↦ (none, m)
    | some data' ↦
        if is_fsinfo data'
        then and_then (write_sector at (overwrite data' 488 bytes) m) (λ _. put_hints rest bytes)
        else put_hints rest bytes m
  ]

  unfoldable pub invalidate_hints : Mounted → Result Mounted Unit
  unfolding put_hints
  invalidate_hints m =
      if m.volume.hints_invalid
      then (some tt, m)
      else and_then
          (put_hints (flatten m.volume.fsinfo m.volume.backup_fsinfo) (replicate 8 0xff) m)
          (λ _ n. (some tt, record n { volume = record (n.volume) { hints_invalid = true } }))

  unfoldable pub sync_hints : Mounted → Result Mounted Unit
  unfolding put_hints
  sync_hints m =
      let v = m.volume in
      and_then
        (put_hints (flatten v.fsinfo v.backup_fsinfo) (le_bytes32 v.free_count ++ le_bytes32 v.hint)
          m)
        (λ _ n. (some tt, record n { volume = record (n.volume) { hints_invalid = false } }))

  -- Each selected cluster is linked to the next one, the last to the end mark.
  unfoldable pub link : List ℕ → Mounted → Result Mounted Unit
  unfolding set_entry
  link [] m = (some tt, m)
  link (c ∷ []) m = set_entry c (eof m.volume.kind) m
  link (c ∷ d ∷ rest) m = and_then (set_entry c d m) (λ _. link (d ∷ rest))

  abbrev pub last_of : ℕ → List ℕ → ℕ
  last_of c [] = c
  last_of c (d ∷ rest) = last_of d rest

  -- A release build wraps the count of free clusters, a `u32`.
  unfoldable pub allocate : ℕ → Mounted → Result Mounted (List ℕ)
  unfolding select invalidate_hints link sync_hints
  allocate count m =
      if m.volume.failed
      then (none, m)
      else if count == 0
      then (some [], m)
      else elim (select m.volume count 0 m.volume.clusters) [
        | none ↦ (none, m)
        | some selected ↦
            if not (length selected == count)
            then (none, m)
            else and_then (invalidate_hints m) (λ _ m1. and_then (link selected m1) (λ _ m2.
              let v = m2.volume in
              let moved = record v {
                hint = 2 + (last_of 0 selected - 1) % v.clusters;
                free_count = (v.free_count + 2 ^ 32 - length selected) % 2 ^ 32;
              } in
              and_then (sync_hints (record m2 { volume = moved })) (λ _ m3. (some selected, m3))))
      ]

  -- The loop of `free`.
  unfoldable pub unlink : List ℕ → Mounted → Result Mounted Unit
  unfolding set_entry
  unlink [] m = (some tt, m)
  unlink (c ∷ rest) m = and_then (set_entry c 0 m) (λ _ n. unlink rest (record n {
    volume = record (n.volume) {
      hint = min n.volume.hint c;
      free_count = (n.volume.free_count + 1) % 2 ^ 32;
    };
  }))

  unfoldable pub free : ℕ → Mounted → Result Mounted Unit
  unfolding chain invalidate_hints unlink sync_hints
  free first m = elim (chain m.volume first (max_file / cluster_bytes m.volume + 1)) [
    | none ↦ (none, m)
    | some cs ↦ and_then (invalidate_hints m) (λ _ m1. and_then (unlink cs m1) (λ _. sync_hints))
  ]

  -- `count` sectors from `at` on, one after the other.
  unfoldable pub read_run : D → ℕ → ℕ → Option (List ℕ)
  read_run d at zero = some []
  read_run d at (suc count) = elim (read_sector at d) [
    | none ↦ none
    | some bytes ↦ elim (read_run d (suc at) count) [
      | none ↦ none
      | some rest ↦ some (bytes ++ rest)
    ]
  ]

  unfoldable pub read_cluster : Mounted → ℕ → Option (List ℕ)
  unfolding read_run
  read_cluster m cluster =
      if not (valid m.volume cluster)
      then none
      else read_run m.disk (lba m.volume cluster) m.volume.spc

  unfoldable pub write_run : ℕ → List ℕ → ℕ → Mounted → Result Mounted Unit
  unfolding write_sector
  write_run at bytes zero m = (some tt, m)
  write_run at bytes (suc left) m =
      and_then (write_sector at (take sector_size bytes) m)
        (λ _. write_run (suc at) (drop sector_size bytes) left)

  unfoldable pub write_cluster : ℕ → List ℕ → Mounted → Result Mounted Unit
  unfolding write_run
  write_cluster cluster bytes m =
      if not (valid m.volume cluster) || not (length bytes == cluster_bytes m.volume)
      then (none, m)
      else write_run (lba m.volume cluster) bytes m.volume.spc m

  unfoldable pub read_clusters : Mounted → List ℕ → Option (List ℕ)
  unfolding read_cluster
  read_clusters m [] = some []
  read_clusters m (c ∷ cs) = elim (read_cluster m c) [
    | none ↦ none
    | some bytes ↦ elim (read_clusters m cs) [ none ↦ none | some rest ↦ some (bytes ++ rest) ]
  ]

  unfoldable pub load_dir : Mounted → Dir → Option (List ℕ × List ℕ)
  unfolding read_run chain read_clusters
  load_dir m dir =
      let v = m.volume in
      if v.failed
      then none
      else if dir.root && not (is_fat32 v.kind)
      then (elim (read_run m.disk v.root_lba
          ((v.root_entries * 32 + sector_size - 1) / sector_size)) [
            | none ↦ none
            | some bytes ↦ some ([], take (v.root_entries * 32) bytes)
          ])
      else elim (chain v dir.cluster (max_metadata / cluster_bytes v)) [
        | none ↦ none
        | some cs ↦
            if is_empty cs
            then none
            else elim (read_clusters m cs) [ none ↦ none | some bytes ↦ some (cs, bytes) ]
      ]

  -- The loop of `store_dir` over the sectors that the change touches.
  unfoldable pub store_sectors : Dir → List ℕ → List ℕ → ℕ → ℕ → Mounted → Result Mounted Unit
  unfolding write_sector
  store_sectors dir cs bytes index zero m = (some tt, m)
  store_sectors dir cs bytes index (suc left) m =
      let v = m.volume in
      let begin = index * sector_size in
      let taken = min sector_size (length bytes - begin) in
      let at =
        if dir.root && not (is_fat32 v.kind)
        then v.root_lba + index
        else lba v (get_or cs (begin / cluster_bytes v) 0)
          + begin % cluster_bytes v / sector_size in
      let old =
        if ltb taken sector_size
        then read_sector (v.root_lba + index) m.disk
        else some (replicate sector_size 0) in
      elim old [
        | none ↦ (none, m)
        | some sector ↦
            and_then (write_sector at (overwrite sector 0 (slice bytes begin taken)) m)
              (λ _. store_sectors dir cs bytes (suc index) left)
      ]

  unfoldable pub store_dir : Dir → List ℕ → List ℕ → ℕ → ℕ → Mounted → Result Mounted Unit
  unfolding store_sectors
  store_dir dir cs bytes start len m =
      let first = start / sector_size in
      if ltb (length bytes) (start + len)
      then (none, m)
      else store_sectors dir cs bytes first ((start + len + sector_size - 1) / sector_size - first)
          m
