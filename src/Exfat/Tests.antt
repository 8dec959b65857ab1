-- ===== src/Exfat/Tests.antt =====
-- fs/exfat.rs on a small disk: its state gives each sector.
use mmurtl_rs.Base.{
  ℕ, ◌+◌, ◌≡◌, refl, sym, ap, Bool, true, false, ◌==◌, if◌then◌else◌, none, some, List, [], ◌∷◌,
  ◌++◌, arith, replicate, ltb, ltb→lt, ◌&&◌, &&_both,
}
use mmurtl_rs.Exfat.{
  Volume, chunks, components, build_entry_set, parse_entries, parse_from, no_parse,
  names_equal_ascii, name_entry_count, components_from, root_ref,
}
use mmurtl_rs.Exfat.Io.{Device, result_inj}
use mmurtl_rs.Exfat.Disk.{collect_chain, read_cluster, bitmap_alloc, bitmap_lba}
use mmurtl_rs.Exfat.Dirs.{lookup}
use mmurtl_rs.Exfat.Files.{append_file, overwrite_file, grow, refresh_checksum}
use mmurtl_rs.Exfat.Checksum.{IsSealed, build_entry_set-IsSealed}
use mmurtl_rs.Exfat.Names.{IsAscii}
use mmurtl_rs.Exfat.Roundtrip.{file_of, parse-build_entry_set}
use mmurtl_rs.Exfat.Chain.{IsChain, collect_chain_total}
use mmurtl_rs.Exfat.Alloc.{IsFreeRun, bitmap_alloc-IsFreeRun}
use mmurtl_rs.Exfat.Grow.{grow_fuel}
use mmurtl_rs.Exfat.Refresh.{refresh_checksum-IsSealed}
use mmurtl_rs.Fat.Disk.{slice}

abbrev Sectors : Type 0
Sectors = ℕ → List ℕ

abbrev disk : Device Sectors
disk = record {
  available = true;
  read_sector = λ lba d. (some (d lba), d);
  write_sector = λ lba bytes d. (some tt, λ l. if l == lba then bytes else d l);
}

-- The table is in sector 1, and clusters begin at sector 10. Cluster 2 leads to 3, and 3 to 2. The
-- bitmap is cluster 4, sector 12; its first two bits are set.
abbrev small : Volume
small = record {
  sectors_per_cluster = 1;
  fat_lba = 1;
  heap_lba = 10;
  cluster_count = 5;
  root_cluster = 2;
  bitmap_cluster = 4;
  bitmap_bytes = 1;
}

abbrev loop_table : List ℕ
loop_table = replicate 8 0 ++ 3 ∷ 0 ∷ 0 ∷ 0 ∷ 2 ∷ 0 ∷ 0 ∷ 0 ∷ []

abbrev sectors : Sectors
sectors = λ l. if l == 1 then loop_table else if l == 12 then 3 ∷ [] else []

-- A chain that runs in a circle is cut off.
abbrev circle : List ℕ
circle = 2 ∷ 3 ∷ 2 ∷ 3 ∷ 2 ∷ 3 ∷ []

collect-circle : collect_chain disk small 2 false 0 sectors ≡ (some circle, sectors)
unfolding collect_chain
collect-circle = refl

collect_chain_total_example :
    (chain : List ℕ) × (d' : Sectors) × (collect_chain disk small 3 false 0 sectors
      ≡ (some chain, d'))
    × IsChain small 6 3 chain
collect_chain_total_example =
    collect_chain_total disk small (λ lba d. (d lba, d, refl)) 3 0 sectors (omega arith)

components-nested :
    components (b'/' ∷ b'a' ∷ b'/' ∷ b'/' ∷ b'b' ∷ b'c' ∷ [])
    ≡ (b'a' ∷ []) ∷ (b'b' ∷ b'c' ∷ []) ∷ []
unfolding components_from
components-nested = refl

names-case : names_equal_ascii (b'A' ∷ b'1' ∷ []) (b'a' ∷ b'1' ∷ []) ≡ true
unfolding names_equal_ascii
names-case = refl

abbrev all_ascii : List ℕ → Bool
all_ascii [] = true
all_ascii (c ∷ name) = ltb 0 c && ltb c 128 && all_ascii name

all_ascii-IsAscii : (name : List ℕ) → all_ascii name ≡ true → IsAscii name
all_ascii-IsAscii [] h = tt
all_ascii-IsAscii (c ∷ name) h =
    let (two, rest) = &&_both (ltb 0 c && ltb c 128) (all_ascii name) h in
    let (pos, small') = &&_both (ltb 0 c) (ltb c 128) two in
    (ltb→lt 0 c pos, ltb→lt c 128 small', all_ascii-IsAscii name rest)

-- A name of 17 bytes takes two entries.
abbrev long_name : List ℕ
long_name = replicate 16 b'x' ++ b'y' ∷ []

parse-long_name :
    parse_entries (build_entry_set long_name 0x20 3 5 700) ≡ file_of 0 long_name 0x20 3 5 700 ∷ []
unfolding parse_entries build_entry_set
parse-long_name = refl

parse-build_entry_set_example :
    parse_from 1
      (chunks
        (2 + name_entry_count long_name + 1)
        (build_entry_set long_name 0x20 3 5 700 ++ replicate 32 0))
      no_parse
    ≡ parse_from (1 + 2 + name_entry_count long_name) (chunks 1 (replicate 32 0)) (record {
      out = file_of 1 long_name 0x20 3 5 700 ∷ [];
      current = none;
      secondaries_left = 0;
    })
parse-build_entry_set_example =
    parse-build_entry_set 1 1 long_name 0x20 3 5 700 (replicate 32 0) no_parse
      (all_ascii-IsAscii long_name refl) (omega arith) (omega arith) (omega arith) (omega arith)
      (omega arith)

build_entry_set-IsSealed_example : IsSealed (build_entry_set long_name 0x20 3 5 700)
build_entry_set-IsSealed_example = build_entry_set-IsSealed long_name 0x20 3 5 700

refresh_checksum-IsSealed_example :
    IsSealed (slice (refresh_checksum 1 5 (9 ∷ 0x85 ∷ 2 ∷ 0 ∷ 0 ∷ 7 ∷ 8 ∷ [])) 1 5)
refresh_checksum-IsSealed_example =
    refresh_checksum-IsSealed (9 ∷ 0x85 ∷ 2 ∷ 0 ∷ 0 ∷ 7 ∷ 8 ∷ []) 1 5 (omega arith) (omega arith)

-- A root directory that is full grows by a cluster for a set of 96 bytes.
grow_fuel_example :
    grow disk 100 small true 512 96 (2 ∷ []) (replicate 512 1) sectors
    ≡ grow disk 96 small true 512 96 (2 ∷ []) (replicate 512 1) sectors
grow_fuel_example =
    grow_fuel disk small true 512 96 100 (2 ∷ []) (replicate 512 1) sectors (omega arith) refl
      (omega arith) (omega arith)

-- Two clusters are asked for, and bits 2 and 3 are the first that are clear.
abbrev bitmap : ℕ → List ℕ
bitmap = λ s. sectors (bitmap_lba disk small + s)

bitmap_alloc-two :
    bitmap_alloc disk small 2 sectors ≡ (some 4, (bitmap_alloc disk small 2 sectors).1)
unfolding bitmap_alloc
bitmap_alloc-two = refl

bitmap_alloc-IsFreeRun_example : (start : ℕ) × (4 ≡ start + 2) × IsFreeRun bitmap small start 2
bitmap_alloc-IsFreeRun_example =
    bitmap_alloc-IsFreeRun bitmap small disk sectors
      (λ s buf d' e. (sym (result_inj e), sym (ap (λ r. r.1) e))) 2 (omega arith) bitmap_alloc-two

-- A device on which the first read fails. Its state counts the reads. The root directory, cluster 2,
-- holds a file.
abbrev short_name : List ℕ
short_name = b'A' ∷ []

abbrev one_file : Sectors
one_file = λ l.
    if l == 1
    then replicate 8 0 ++ 255 ∷ 255 ∷ 255 ∷ 255 ∷ []
    else if l == 10
    then build_entry_set short_name 0x20 3 5 700 ++ replicate 32 0
    else []

abbrev flaky : Device ℕ
flaky = record {
  available = true;
  read_sector = λ lba n. if n == 0 then (none, 1) else (some (one_file lba), n + 1);
  write_sector = λ lba bytes n. (some tt, n);
}

lookup-fails : lookup flaky small short_name 0 ≡ (none, 1)
unfolding lookup components_from collect_chain
lookup-fails = refl

lookup-finds :
    lookup flaky small short_name 1 ≡ (some (root_ref small, file_of 0 short_name 0x20 3 5 700), 3)
unfolding lookup components_from parse_entries build_entry_set names_equal_ascii collect_chain
    read_cluster
lookup-finds = refl

append_file-flaky :
    append_file flaky (some small) short_name (7 ∷ []) 0
    ≡ overwrite_file flaky small (root_ref small) (file_of 0 short_name 0x20 3 5 700) (7 ∷ []) 3
unfolding append_file
append_file-flaky = rw (lookup-fails, lookup-finds) refl
