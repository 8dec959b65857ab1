-- ===== src/Exfat/Dirs.antt =====
-- fs/exfat.rs: loading and storing directories, finding a path, and mounting.
use mmurtl_rs.Base.{
  ℕ, zero, suc, ◌+◌, ◌-◌, ◌*◌, ◌/◌, ◌%◌, ◌^◌, min, max, Bool, true, false, not, ◌&&◌, ◌==◌, leb,
  ltb, if◌then◌else◌, is_empty, Option, none, some, List, [], ◌∷◌, ◌++◌, length, get_or, get_elem?,
  take, map, le32, le64,
}
use mmurtl_rs.Exfat.{
  Volume, DirRef, DirFile, sector_size, cluster_bytes, cluster_lba, root_ref, dir_ref_of, is_dir,
  names_equal_ascii, components, parse_entries, entries_of,
}
use mmurtl_rs.Exfat.Io.{Io, Device, ◌>>=◌, ◌>>◌, succeed, fail, need, check, attempt}
use mmurtl_rs.Exfat.Disk.{collect_chain, read_cluster}
use mmurtl_rs.Fat.Disk.{slice}

-- `iter().find(p)`
unfoldable pub find : {A : Type 0} → (A → Bool) → List A → Option A
find p [] = none
find p (x ∷ xs) = if p x then some x else find p xs

-- `split_last`
unfoldable pub split_last : {A : Type 0} → List A → Option (List A × A)
split_last [] = none
split_last (x ∷ xs) = elim (split_last xs) [ none ↦ some ([], x) | some r ↦ some (x ∷ r.0, r.1) ]

abbrev pub has_name : List ℕ → DirFile → Bool
has_name name f = names_equal_ascii f.name name

abbrev pub is_dir_named : List ℕ → DirFile → Bool
is_dir_named name f = is_dir f && names_equal_ascii f.name name

-- The volume that the boot sector describes, before its bitmap is known.
abbrev pub volume_of : List ℕ → Volume
volume_of bs = record {
  sectors_per_cluster = 2 ^ (get_or bs 109 0 % 32);
  fat_lba = le32 bs 80;
  heap_lba = le32 bs 88;
  cluster_count = le32 bs 92;
  root_cluster = le32 bs 96;
  bitmap_cluster = 0;
  bitmap_bytes = 0;
}

-- `&bs[3..11] == b"EXFAT   "`, the signature at the end, and sectors of 2 ^ 9 bytes.
abbrev pub is_exfat : List ℕ → Bool
is_exfat bs =
    le64 bs 3 == 0x2020205441465845
    && get_or bs 510 0 == 0x55
    && get_or bs 511 0 == 0xaa
    && get_or bs 108 0 == 9

-- The allocation bitmap among the entries of one cluster, and whether the directory ends there.
unfoldable pub note_bitmap : List (List ℕ) → Volume → Volume × Bool
note_bitmap [] vol = (vol, false)
note_bitmap (e ∷ rest) vol =
    let vol' =
      if get_or e 0 0 == 0x81
      then record vol { bitmap_cluster = le32 e 20; bitmap_bytes = le64 e 24 }
      else vol in
    let later = note_bitmap rest vol' in if get_or e 0 0 == 0 then (vol, true) else later

module _ {D : Type 0} (dev : Device D) where
  unfoldable pub read_clusters : Volume → List ℕ → Io D (List ℕ)
  read_clusters vol [] = succeed []
  read_clusters vol (c ∷ rest) = do
    bytes ← read_cluster dev vol c
    later ← read_clusters vol rest
    succeed (bytes ++ later)

  unfoldable pub load_dir : Volume → DirRef → Io D (List ℕ × List ℕ)
  unfolding read_clusters
  load_dir vol dir = do
    chain ← collect_chain dev vol dir.first_cluster dir.no_fat_chain dir.data_length
    check (not (is_empty chain))
    bytes ← read_clusters vol chain
    succeed (chain, bytes)

  -- The touched sectors of one cluster, `left` of them from `off` in the directory on.
  unfoldable pub store_sectors : ℕ → List ℕ → ℕ → ℕ → Io D Unit
  store_sectors lba bytes off zero = succeed tt
  store_sectors lba bytes off (suc left) = do
    dev.write_sector lba (slice bytes off sector_size)
    store_sectors (suc lba) bytes (off + sector_size) left

  -- The touched clusters of a directory, `left` of them from number `ci` on.
  unfoldable pub store_clusters : Volume → List ℕ → List ℕ → ℕ → ℕ → ℕ → ℕ → Io D Unit
  unfolding store_sectors
  store_clusters vol chain bytes start len ci zero = succeed tt
  store_clusters vol chain bytes start len ci (suc left) =
      let cl_start = ci * cluster_bytes vol in
      let first_sec = (max start cl_start - cl_start) / sector_size in
      let last_sec =
        (min (start + len) (cl_start + cluster_bytes vol) - 1 - cl_start) / sector_size in
      (do
        cluster ← need (get_elem? chain ci)
        store_sectors (cluster_lba vol cluster + first_sec) bytes
            (cl_start + first_sec * sector_size) (last_sec + 1 - first_sec)
        store_clusters vol chain bytes start len (suc ci) left)

  unfoldable pub store_dir_range : Volume → List ℕ → List ℕ → ℕ → ℕ → Io D Unit
  unfolding store_clusters
  store_dir_range vol chain bytes start len =
      let first_cl = start / cluster_bytes vol in
      store_clusters vol chain bytes start len first_cl
        ((start + len - 1) / cluster_bytes vol + 1 - first_cl)

  -- The directories of a path, from `cur` down.
  unfoldable pub descend : Volume → List (List ℕ) → DirRef → Io D DirRef
  unfolding load_dir find
  descend vol [] cur = succeed cur
  descend vol (name ∷ rest) cur = do
    loaded ← load_dir vol cur
    found ← need (find (is_dir_named name) (parse_entries (loaded.1)))
    descend vol rest (dir_ref_of found)

  unfoldable pub resolve_parent : Volume → List ℕ → Io D (DirRef × List ℕ)
  unfolding descend split_last
  resolve_parent vol path = do
    parts ← need (split_last (components path))
    cur ← descend vol (parts.0) (root_ref vol)
    succeed (cur, parts.1)

  unfoldable pub lookup : Volume → List ℕ → Io D (DirRef × DirFile)
  unfolding resolve_parent
  lookup vol path = do
    place ← resolve_parent vol path
    loaded ← load_dir vol (place.0)
    f ← need (find (has_name (place.1)) (parse_entries (loaded.1)))
    succeed (place.0, f)

  -- The clusters of the root directory, up to one that cannot be read.
  unfoldable pub scan_root : List ℕ → Volume → Io D Volume
  unfolding note_bitmap
  scan_root [] vol = succeed vol
  scan_root (c ∷ rest) vol = do
    read ← attempt (read_cluster dev vol c)
    elim read [
      | none ↦ succeed vol
      | some buf ↦
          let noted = note_bitmap (entries_of buf) vol in
          if noted.1 then succeed (noted.0) else scan_root rest (noted.0)
    ]

  -- The volume that is then VOLUME; where this fails, VOLUME is as before. The label, which is
  -- only printed, is left out.
  unfoldable pub mount : Io D Volume
  unfolding scan_root
  mount = do
    check dev.available
    bs ← dev.read_sector 0
    check (is_exfat bs)
    chain ← collect_chain dev (volume_of bs) (volume_of bs).root_cluster false 0
    vol ← scan_root chain (volume_of bs)
    check (not (ltb vol.bitmap_cluster 2))
    succeed vol

  abbrev pub as_dir : DirRef × DirFile → Io D DirRef
  as_dir found = if is_dir (found.1) then succeed (dir_ref_of (found.1)) else fail

  -- The operations below take VOLUME, `none` before a volume is mounted.
  unfoldable pub read_dir : Option Volume → List ℕ → Io D (List (List ℕ × Bool × ℕ))
  unfolding lookup
  read_dir mounted path = do
    vol ← need mounted
    dir ←
        if is_empty (components path) then succeed (root_ref vol) else (lookup vol path >>= as_dir)
    loaded ← load_dir vol dir
    succeed (map (λ (f : DirFile). (f.name, is_dir f, f.data_length)) (parse_entries (loaded.1)))

  unfoldable pub metadata : Option Volume → List ℕ → Io D (Bool × ℕ)
  metadata mounted path = do
    vol ← need mounted
    found ← lookup vol path
    succeed (is_dir (found.1), (found.1).data_length)

  unfoldable pub directory_id : Option Volume → List ℕ → Io D ℕ
  directory_id mounted path = do
    vol ← need mounted
    if is_empty (components path)
        then succeed vol.root_cluster
        else (do found ← lookup vol path; dir ← as_dir found; succeed dir.first_cluster)

  -- The clusters of a chain, up to `remaining` bytes.
  unfoldable pub read_bytes : Volume → List ℕ → ℕ → Io D (List ℕ)
  read_bytes vol [] remaining = succeed []
  read_bytes vol (c ∷ rest) remaining = if remaining == 0 then succeed [] else (do
    bytes ← read_cluster dev vol c
    later ← read_bytes vol rest (remaining - min remaining (cluster_bytes vol))
    succeed (take (min remaining (cluster_bytes vol)) bytes ++ later))

  unfoldable pub read_file_inner : Volume → DirFile → Io D (List ℕ)
  unfolding read_bytes
  read_file_inner vol f = if f.data_length == 0 then succeed [] else (do
    chain ← collect_chain dev vol f.first_cluster f.no_fat_chain f.data_length
    check (leb f.data_length (length chain * cluster_bytes vol))
    read_bytes vol chain f.data_length)

  unfoldable pub read_file : Option Volume → List ℕ → Io D (List ℕ)
  unfolding read_file_inner
  read_file mounted path = do
    vol ← need mounted
    found ← lookup vol path
    check (not (is_dir (found.1)))
    read_file_inner vol (found.1)
