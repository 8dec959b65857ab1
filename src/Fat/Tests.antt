-- ===== src/Fat/Tests.antt =====
-- Runs on a small FAT12 table, and the instances of its theorems there.
use mmurtl_rs.Base.{
  ℕ, zero, suc, ◌%◌, ◌^◌, ◌≤◌, ◌<◌, ◌≡◌, ◌↔◌, refl, List, [], ◌∷◌, replicate, arith, true, false,
  Bool, ltb, ◌&&◌, some, none,
}
use mmurtl_rs.Fat.{Kind, Volume, entry, with_entry, chain, select, valid, get, contains}
use mmurtl_rs.Fat.Entry.{IsBytes, entry-with_entry, entry-with_entry_ne}
use mmurtl_rs.Fat.Select.{AreFree, select_lem}
use mmurtl_rs.Fat.Chain.{Follows, NoRepeat, chain_lem}

-- Clusters 2, 4 and 3 are one chain, and cluster 5 points at itself.
abbrev table : List ℕ
table = 0xf8 ∷ 0xff ∷ 0xff ∷ 0x04 ∷ 0xf0 ∷ 0xff ∷ 0x03 ∷ 0x50 ∷ 0x00 ∷ replicate 7 0

abbrev volume : Volume
volume = record {
  kind = Kind.fat12;
  fat_lba = 1;
  fat_sectors = 1;
  fats = 2;
  active = 0;
  mirrored = true;
  data_lba = 10;
  spc = 1;
  clusters = 6;
  root_lba = 3;
  root_entries = 16;
  root_cluster = 0;
  fat = table;
  hint = 2;
  fsinfo = none;
  backup_fsinfo = none;
  hints_invalid = false;
  free_count = 2;
  failed = false;
}

walked : chain volume 2 8 ≡ some (2 ∷ 4 ∷ 3 ∷ [])
unfolding chain
walked = refl

cyclic : chain volume 5 8 ≡ none
unfolding chain
cyclic = refl

abbrev are_bytes : List ℕ → Bool
are_bytes [] = true
are_bytes (x ∷ xs) = ltb x 256 && are_bytes xs

are_bytes-IsBytes : (b : List ℕ) → are_bytes b ≡ true → IsBytes b
are_bytes-IsBytes [] e i = omega arith
are_bytes-IsBytes (x ∷ xs) e zero = ground arith
are_bytes-IsBytes (x ∷ xs) e (suc i) = are_bytes-IsBytes xs (ground arith) i

table-IsBytes : IsBytes table
table-IsBytes = are_bytes-IsBytes table refl

entry-with_entry_example :
    entry Kind.fat12 (with_entry Kind.fat12 table 3 0x1abc) 3 ≡ 0x1abc % 2 ^ 12
entry-with_entry_example = entry-with_entry Kind.fat12 table 3 0x1abc table-IsBytes (omega arith)

entry-with_entry_ne_example :
    entry Kind.fat12 (with_entry Kind.fat12 table 3 0xabc) 2 ≡ entry Kind.fat12 table 2
entry-with_entry_ne_example =
    entry-with_entry_ne Kind.fat12 table 3 2 0xabc table-IsBytes (omega arith) (omega arith)

chain_lem_example :
    (chain volume 2 8 ≡ some (2 ∷ 4 ∷ 3 ∷ []))
    ↔ (Follows volume 2 (2 ∷ 4 ∷ 3 ∷ []) × NoRepeat [] (2 ∷ 4 ∷ 3 ∷ []) × (3 ≤ 8))
chain_lem_example = chain_lem volume 2 8 (2 ∷ 4 ∷ 3 ∷ []) refl refl

-- Three clusters are wanted and two are free.
two_free : select volume 3 0 6 ≡ some (6 ∷ 7 ∷ [])
unfolding select
two_free = refl

select_lem_example :
    AreFree volume (6 ∷ 7 ∷ [])
    × (2 ≤ 3)
    × ((c : ℕ)
        → 2 < 3
        → valid volume c ≡ true
        → get volume c ≡ some 0
        → contains c (6 ∷ 7 ∷ []) ≡ true)
select_lem_example = select_lem volume 3 two_free
