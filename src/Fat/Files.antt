-- ===== src/Fat/Files.antt =====
-- The contents of files in fs/fat.rs: `data`, `write_data` and `update`.
use mmurtl_rs.Base.{
  ℕ, ◌+◌, ◌-◌, ◌/◌, ◌%◌, Bool, true, false, not, ◌&&◌, ◌==◌, ltb, if◌then◌else◌, Option, none, some,
  List, [], ◌∷◌, ◌++◌, length, replicate, take, drop,
}
use mmurtl_rs.Fat.{Kind, Dir, max_file, cluster_bytes, is_fat32, chain, put_u16}
use mmurtl_rs.Fat.Disk.{
  Result, and_then, Mounted, overwrite, slice, le_bytes32, read_cluster, write_cluster, allocate,
  load_dir, store_dir,
}

-- A directory record, less its two names.
pub record Record : Type 0 where
  pub short : List ℕ
  pub attr : ℕ
  pub cluster : ℕ
  pub size : ℕ
  pub offset : ℕ
  pub start : ℕ

abbrev pub is_dir : Record → Bool
is_dir r = r.attr / 16 % 2 == 1

-- The first of a list of clusters, or 0 for an empty file.
abbrev pub first_or_zero : List ℕ → ℕ
first_or_zero [] = 0
first_or_zero (c ∷ cs) = c

abbrev pub same_bytes : List ℕ → List ℕ → Bool
same_bytes [] [] = true
same_bytes (a ∷ xs) (b ∷ ys) = a == b && same_bytes xs ys
same_bytes _ _ = false

-- The high half is only kept on FAT32.
unfoldable pub put_cluster : List ℕ → ℕ → Kind → List ℕ
put_cluster entry first kind =
    put_u16 (put_u16 entry 26 (first % 65536)) 20
      (if is_fat32 kind then first / 65536 % 65536 else 0)

module _ {D : Type 0} (read_sector : ℕ → D → Option (List ℕ))
    (put_sector : ℕ → List ℕ → D → Option D) where
  -- The loop of `data`: what the clusters hold, up to the size of the file.
  unfoldable pub read_contents :
      Mounted read_sector put_sector → List ℕ → ℕ → List ℕ → Option (List ℕ)
  read_contents m [] size out = some out
  read_contents m (c ∷ cs) size out = elim (read_cluster read_sector put_sector m c) [
    | none ↦ none
    | some chunk ↦ read_contents m cs size (out ++ take (size - length out) chunk)
  ]

  unfoldable pub contents : Mounted read_sector put_sector → Record → Option (List ℕ)
  unfolding read_contents
  contents m r =
      let v = m.volume in
      let needed = (r.size + cluster_bytes v - 1) / cluster_bytes v in
      if is_dir r
      then none
      else if ltb max_file r.size
      then none
      else elim (chain v r.cluster (max_file / cluster_bytes v + 1)) [
        | none ↦ none
        | some cs ↦
            if ltb (length cs) needed then none else read_contents m (take needed cs) r.size []
      ]

  -- The loop of `write_data`: the last cluster is filled up with zeros.
  unfoldable pub write_contents :
      List ℕ
      → List ℕ
      → Mounted read_sector put_sector
      → Result (Mounted read_sector put_sector) Unit
  write_contents [] bytes m = (some tt, m)
  write_contents (c ∷ cs) bytes m =
      let n = cluster_bytes m.volume in
      let chunk = take n bytes in
      and_then (write_cluster read_sector put_sector c (chunk ++ replicate (n - length chunk) 0) m)
        (λ _. write_contents cs (drop n bytes))

  unfoldable pub write_data :
      List ℕ → Mounted read_sector put_sector → Result (Mounted read_sector put_sector) ℕ
  unfolding write_contents
  write_data bytes m =
      let n = cluster_bytes m.volume in
      if ltb max_file (length bytes)
      then (none, m)
      else and_then (allocate read_sector put_sector ((length bytes + n - 1) / n) m)
          (λ cs m1. and_then (write_contents cs bytes m1) (λ _ m2. (some (first_or_zero cs), m2)))

  -- The entry of a record gets a new first cluster and size, if it is still that record's.
  unfoldable pub update_record :
      Dir
      → Record
      → ℕ
      → ℕ
      → Mounted read_sector put_sector
      → Result (Mounted read_sector put_sector) Unit
  unfolding put_cluster
  update_record dir r first size m = elim (load_dir read_sector put_sector m dir) [
    | none ↦ (none, m)
    | some (cs, bytes) ↦
        if not (same_bytes (slice bytes r.offset 11) r.short)
        then (none, m)
        else let entry = put_cluster (slice bytes r.offset 32) first m.volume.kind in
          let placed = overwrite bytes r.offset (overwrite entry 28 (le_bytes32 size)) in
          store_dir read_sector put_sector dir cs placed r.offset 32 m
  ]
