-- ===== src/Exfat/Files.antt =====
-- fs/exfat.rs: creating, writing, appending to and deleting files, and making directories.
use mmurtl_rs.Base.{
  ℕ, zero, suc, ◌+◌, ◌-◌, ◌*◌, ◌/◌, ◌%◌, Bool, true, false, not, ◌&&◌, ◌==◌, leb, ltb,
  if◌then◌else◌, is_empty, Option, none, some, List, [], ◌∷◌, ◌++◌, length, get_or, take, drop, set,
  replicate, any, bytes16, bytes32, bytes64,
}
use mmurtl_rs.Exfat.{
  Volume, DirRef, DirFile, entry_size, fat_eof, attr_directory, attr_archive, flag_alloc_possible,
  flag_no_fat_chain, cluster_bytes, dir_ref_of, is_dir, in_use, entries_of, parse_entries,
  entry_set_checksum, build_entry_set, checksum_from,
}
use mmurtl_rs.Exfat.Io.{
  Io, Device, ◌>>=◌, ◌>>◌, succeed, fail, need, check, attempt, ignore, on_failure,
}
use mmurtl_rs.Exfat.Disk.{
  bitmap_alloc, bitmap_set, fat_write, zero_cluster, write_cluster, free_clusters,
}
use mmurtl_rs.Exfat.Dirs.{
  has_name, load_dir, store_dir_range, resolve_parent, lookup, read_file_inner,
}
use mmurtl_rs.Fat.Disk.{overwrite, slice}

-- Where a set can go: a run of deleted entries, else the end mark where there is one.
unfoldable pub find_home : ℕ → ℕ → ℕ → ℕ → List (List ℕ) → Option ℕ × Option ℕ
find_home needed idx run_start run_len [] = (none, none)
find_home needed idx run_start run_len (e ∷ rest) =
    let run_start' = if run_len == 0 then idx else run_start in
    let used = find_home needed (suc idx) run_start 0 rest in
    let longer = find_home needed (suc idx) run_start' (suc run_len) rest in
    if get_or e 0 0 == 0
    then (none, some idx)
    else if in_use (get_or e 0 0)
    then used
    else if suc run_len == needed
    then (some run_start', none)
    else longer

abbrev pub end_of : Option ℕ → ℕ → ℕ
end_of none len = len
end_of (some idx) len = idx * entry_size

-- `resize(n, 0)`
abbrev pub resize : List ℕ → ℕ → List ℕ
resize bytes n = take n bytes ++ replicate (n - length bytes) 0

abbrev pub last_of : List ℕ → ℕ → ℕ
last_of [] c = c
last_of (x ∷ xs) c = last_of xs x

-- `data[off + i * DIR_ENTRY] &= !ET_IN_USE`, for `left` entries.
unfoldable pub mark_unused : ℕ → ℕ → List ℕ → List ℕ
mark_unused off zero bytes = bytes
mark_unused off (suc left) bytes =
    mark_unused (off + entry_size) left (set bytes off (get_or bytes off 0 % 128))

-- The fields of a stream extension at `off`, and then the checksum of its set.
abbrev pub put_stream : ℕ → ℕ → ℕ → ℕ → List ℕ → List ℕ
put_stream off flags first len bytes =
    overwrite
      (overwrite (overwrite (set bytes (off + 33) flags) (off + 40) (bytes64 len)) (off + 52)
        (bytes32 first))
      (off + 56) (bytes64 len)

abbrev pub refresh_checksum : ℕ → ℕ → List ℕ → List ℕ
refresh_checksum off set_len bytes =
    overwrite bytes (off + 2) (bytes16 (entry_set_checksum (slice bytes off set_len)))

-- `is_ascii`, and no slash either way.
abbrev pub is_name_byte : ℕ → Bool
is_name_byte b = ltb b 128 && not (b == b'/') && not (b == b'\\')

unfoldable pub all_name_bytes : List ℕ → Bool
all_name_bytes [] = true
all_name_bytes (b ∷ rest) = is_name_byte b && all_name_bytes rest

unfoldable pub validate_name : List ℕ → Bool
unfolding all_name_bytes
validate_name name = not (is_empty name) && leb (length name) 255 && all_name_bytes name

abbrev pub flags_for : List ℕ → ℕ
flags_for bytes =
    if is_empty bytes then flag_alloc_possible else flag_alloc_possible + flag_no_fat_chain

module _ {D : Type 0} (dev : Device D) where
  -- What undoes the allocation of one cluster.
  abbrev pub give_back : Volume → ℕ → Io D Unit
  give_back vol cluster = do
    ignore (fat_write dev vol cluster 0)
    bitmap_set dev vol (cluster ∷ []) false

  abbrev pub init_cluster : Volume → ℕ → Io D Unit
  init_cluster vol cluster = do zero_cluster dev vol cluster; fat_write dev vol cluster fat_eof

  -- The root directory grows by one cluster at a time until a set of `size` bytes fits at `end`.
  -- Each round adds a cluster, so `size` rounds are enough.
  unfoldable pub grow : ℕ → Volume → Bool → ℕ → ℕ → List ℕ → List ℕ → Io D (List ℕ × List ℕ)
  grow zero vol is_root end size chain bytes =
      if leb (end + size) (length bytes) then succeed (chain, bytes) else fail
  grow (suc left) vol is_root end size chain bytes =
      if leb (end + size) (length bytes) then succeed (chain, bytes) else (do
        check is_root
        cluster ← bitmap_alloc dev vol 1
        on_failure (init_cluster vol cluster) (give_back vol cluster)
        on_failure (fat_write dev vol (last_of chain 0) cluster) (give_back vol cluster)
        grow left vol is_root end size (chain ++ cluster ∷ [])
            (resize bytes ((length chain + 1) * cluster_bytes vol)))

  unfoldable pub place_entry_set : Volume → DirRef → List ℕ → Io D Unit
  unfolding find_home grow
  place_entry_set vol dir set' = do
    loaded ← load_dir dev vol dir
    let home = find_home (length set' / entry_size) 0 0 0 (entries_of (loaded.1))
    placed ← elim (home.0) [
      | some idx ↦ succeed (loaded.0, loaded.1, idx * entry_size)
      | none ↦
          let end = end_of (home.1) (length (loaded.1)) in
          (do
            grown ← grow (length set') vol dir.is_root end (length set') (loaded.0) (loaded.1)
            succeed (grown.0, grown.1, end))
    ]
    let (chain, bytes, offset) = placed
    store_dir_range dev vol chain (overwrite bytes offset set') offset (length set')

  unfoldable pub update_stream_entry : Volume → DirRef → DirFile → ℕ → ℕ → ℕ → Io D Unit
  unfolding checksum_from
  update_stream_entry vol dir file flags first len =
      let off = file.set_offset in
      let set_len = file.set_entries * entry_size in
      (do
        loaded ← load_dir dev vol dir
        check (leb (off + set_len) (length (loaded.1)) && get_or (loaded.1) off 0 == 0x85)
        check (get_or (loaded.1) (off + 32) 0 == 0xc0)
        store_dir_range dev vol (loaded.0)
            (refresh_checksum off set_len (put_stream off flags first len (loaded.1))) off set_len)

  unfoldable pub rollback_contiguous : Volume → ℕ → ℕ → Io D Unit
  rollback_contiguous vol first len =
      if leb 2 first && ltb 0 len then free_clusters dev vol first true len else succeed tt

  unfoldable pub write_run : Volume → ℕ → ℕ → List ℕ → Io D Unit
  write_run vol cluster zero bytes = succeed tt
  write_run vol cluster (suc left) bytes = do
    write_cluster dev vol cluster (take (cluster_bytes vol) bytes)
    write_run vol (suc cluster) left (drop (cluster_bytes vol) bytes)

  unfoldable pub write_data_contiguous : Volume → List ℕ → Io D ℕ
  unfolding rollback_contiguous write_run
  write_data_contiguous vol bytes =
      let clusters = (length bytes + cluster_bytes vol - 1) / cluster_bytes vol in
      if is_empty bytes then succeed 0 else (do
        first ← bitmap_alloc dev vol clusters
        on_failure (write_run vol first clusters bytes)
            (rollback_contiguous vol first (length bytes))
        succeed first)

  -- No entry of a directory has the name.
  unfoldable pub check_absent : Volume → DirRef → List ℕ → Io D Unit
  check_absent vol parent name = do
    loaded ← load_dir dev vol parent
    check (not (any (has_name name) (parse_entries (loaded.1))))

  unfoldable pub create_file : Option Volume → List ℕ → List ℕ → Io D Unit
  unfolding validate_name check_absent write_data_contiguous build_entry_set place_entry_set
  create_file mounted path bytes = do
    vol ← need mounted
    place ← resolve_parent dev vol path
    check (validate_name (place.1))
    check_absent vol (place.0) (place.1)
    first ← write_data_contiguous vol bytes
    on_failure
        (place_entry_set vol (place.0)
          (build_entry_set (place.1) attr_archive (flags_for bytes) first (length bytes)))
        (rollback_contiguous vol first (length bytes))

  -- The new data is written before the entry points at it, and the old clusters are freed last.
  unfoldable pub overwrite_file : Volume → DirRef → DirFile → List ℕ → Io D Unit
  unfolding update_stream_entry
  overwrite_file vol parent f bytes = do
    check (not (is_dir f))
    first ← write_data_contiguous vol bytes
    on_failure (update_stream_entry vol parent f (flags_for bytes) first (length bytes))
        (rollback_contiguous vol first (length bytes))
    free_clusters dev vol f.first_cluster f.no_fat_chain f.data_length

  unfoldable pub write_file : Option Volume → List ℕ → List ℕ → Io D Unit
  unfolding create_file overwrite_file
  write_file mounted path bytes = do
    vol ← need mounted
    found ← attempt (lookup dev vol path)
    elim found [
      | some r ↦ overwrite_file vol (r.0) (r.1) bytes
      | none ↦ create_file mounted path bytes
    ]

  unfoldable pub append_file : Option Volume → List ℕ → List ℕ → Io D Unit
  unfolding write_file
  append_file mounted path bytes = do
    vol ← need mounted
    found ← attempt (lookup dev vol path)
    existing ← elim found [
      | some r ↦ (do check (not (is_dir (r.1))); read_file_inner dev vol (r.1))
      | none ↦ succeed []
    ]
    write_file mounted path (existing ++ bytes)

  -- A directory has no entries left.
  abbrev pub check_empty : Volume → DirFile → Io D Unit
  check_empty vol f =
      if is_dir f
      then (do
        loaded ← load_dir dev vol (dir_ref_of f)
        check (is_empty (parse_entries (loaded.1))))
      else succeed tt

  -- The entries are unlinked before the clusters are freed.
  unfoldable pub delete : Option Volume → List ℕ → Io D Unit
  unfolding mark_unused
  delete mounted path = do
    vol ← need mounted
    found ← lookup dev vol path
    check_empty vol (found.1)
    loaded ← load_dir dev vol (found.0)
    let f = found.1
    let set_len = f.set_entries * entry_size
    check (
        leb (f.set_offset + set_len) (length (loaded.1))
        && get_or (loaded.1) f.set_offset 0 == 0x85)
    store_dir_range dev vol (loaded.0) (mark_unused f.set_offset f.set_entries (loaded.1))
        f.set_offset set_len
    free_clusters dev vol f.first_cluster f.no_fat_chain f.data_length

  unfoldable pub mkdir : Option Volume → List ℕ → Io D Unit
  mkdir mounted path = do
    vol ← need mounted
    place ← resolve_parent dev vol path
    check (validate_name (place.1))
    check_absent vol (place.0) (place.1)
    cluster ← bitmap_alloc dev vol 1
    on_failure
        (do
          init_cluster vol cluster
          place_entry_set vol (place.0) (
              build_entry_set (place.1) attr_directory flag_alloc_possible cluster
                (cluster_bytes vol)))
        (give_back vol cluster)
