-- ===== src/Exfat.antt =====
-- fs/exfat.rs: the layout of a volume, directory entry sets with their checksum, and the parts of a
-- path. Numbers are little-endian; a byte, a UTF-16 unit or a checksum is a number.
use mmurtl_rs.Base.{
  ℕ, zero, suc, ◌+◌, ◌-◌, ◌*◌, ◌/◌, ◌%◌, ◌^◌, Bool, true, false, not, ◌&&◌, ◌||◌, ◌==◌, leb, ltb,
  if◌then◌else◌, is_empty, is_some, Option, none, some, List, [], ◌∷◌, ◌++◌, length, get_or, take,
  drop, replicate, map, le16, le32, le64, bytes16, bytes32, bytes64,
}
pub mod Io
pub mod Disk
pub mod Dirs
pub mod Files
pub mod Checksum
pub mod Names
pub mod Chunks
pub mod Roundtrip
pub mod Chain
pub mod Alloc
pub mod Grow
pub mod Refresh
mod Tests

-- SECTOR, DIR_ENTRY and FAT_EOF.
abbrev pub sector_size : ℕ
sector_size = 512

abbrev pub entry_size : ℕ
entry_size = 32

abbrev pub fat_eof : ℕ
fat_eof = 0xffffffff

-- The attribute bits of created files and directories, and FLAG_ALLOC_POSSIBLE and
-- FLAG_NO_FAT_CHAIN.
abbrev pub attr_directory : ℕ
attr_directory = 0x10

abbrev pub attr_archive : ℕ
attr_archive = 0x20

abbrev pub flag_alloc_possible : ℕ
flag_alloc_possible = 1

abbrev pub flag_no_fat_chain : ℕ
flag_no_fat_chain = 2

abbrev pub timestamp : ℕ
timestamp = (2026 - 1980) * 2 ^ 25 + 7 * 2 ^ 21 + 17 * 2 ^ 16 + 8 * 2 ^ 11

pub record Volume : Type 0 where
  pub sectors_per_cluster : ℕ
  pub fat_lba : ℕ
  pub heap_lba : ℕ
  pub cluster_count : ℕ
  pub root_cluster : ℕ
  pub bitmap_cluster : ℕ
  pub bitmap_bytes : ℕ

abbrev pub cluster_bytes : Volume → ℕ
cluster_bytes vol = vol.sectors_per_cluster * sector_size

-- Every cluster that is read or written is 2 or more.
abbrev pub cluster_lba : Volume → ℕ → ℕ
cluster_lba vol cluster = vol.heap_lba + (cluster - 2) * vol.sectors_per_cluster

-- `u16::rotate_right(1)` and `wrapping_add`.
abbrev pub rotate_add : ℕ → ℕ → ℕ
rotate_add sum b = (sum / 2 + sum % 2 * 32768 + b) % 65536

-- The checksum of the bytes from index `i` on; those at 2 and 3 hold the checksum itself.
unfoldable pub checksum_from : ℕ → ℕ → List ℕ → ℕ
checksum_from i sum [] = sum
checksum_from i sum (b ∷ rest) =
    checksum_from (suc i) (if i == 2 || i == 3 then sum else rotate_add sum b) rest

abbrev pub entry_set_checksum : List ℕ → ℕ
entry_set_checksum set' = checksum_from 0 0 set'

unfoldable pub hash_from : ℕ → List ℕ → ℕ
hash_from sum [] = sum
hash_from sum (ch ∷ rest) = hash_from (rotate_add (rotate_add sum (ch % 256)) (ch / 256 % 256)) rest

abbrev pub name_hash : List ℕ → ℕ
name_hash name = hash_from 0 name

-- `to_ascii_uppercase`
abbrev pub upcase : ℕ → ℕ
upcase b = if leb b'a' b && leb b b'z' then b - 32 else b

unfoldable pub names_equal_ascii : List ℕ → List ℕ → Bool
names_equal_ascii [] [] = true
names_equal_ascii (x ∷ a) (y ∷ b) = upcase x == upcase y && names_equal_ascii a b
names_equal_ascii _ _ = false

pub record DirRef : Type 0 where
  pub first_cluster : ℕ
  pub no_fat_chain : Bool
  pub data_length : ℕ
  pub is_root : Bool

pub record DirFile : Type 0 where
  pub name : List ℕ
  pub attributes : ℕ
  pub first_cluster : ℕ
  pub data_length : ℕ
  pub no_fat_chain : Bool
  pub set_offset : ℕ
  pub set_entries : ℕ

abbrev pub is_dir : DirFile → Bool
is_dir f = f.attributes / 16 % 2 == 1

abbrev pub root_ref : Volume → DirRef
root_ref vol = record {
  first_cluster = vol.root_cluster;
  no_fat_chain = false;
  data_length = 0;
  is_root = true;
}

abbrev pub dir_ref_of : DirFile → DirRef
dir_ref_of f = record {
  first_cluster = f.first_cluster;
  no_fat_chain = f.no_fat_chain;
  data_length = f.data_length;
  is_root = false;
}

-- `path.split('/')` without the empty parts; `part` is what was read of the present one.
abbrev pub add_part : List ℕ → List (List ℕ) → List (List ℕ)
add_part [] parts = parts
add_part (b ∷ part) parts = (b ∷ part) ∷ parts

unfoldable pub components_from : List ℕ → List ℕ → List (List ℕ)
components_from part [] = add_part part []
components_from part (b ∷ path) =
    let next = components_from [] path in
    let same = components_from (part ++ b ∷ []) path in
    if b == b'/' then add_part part next else same

abbrev pub components : List ℕ → List (List ℕ)
components path = components_from [] path

-- `chunks_exact(DIR_ENTRY)`, the first `n` of them.
unfoldable pub chunks : ℕ → List ℕ → List (List ℕ)
chunks zero bytes = []
chunks (suc n) bytes = take entry_size bytes ∷ chunks n (drop entry_size bytes)

abbrev pub entries_of : List ℕ → List (List ℕ)
entries_of bytes = chunks (length bytes / entry_size) bytes

-- What the loop over directory entries carries along.
pub record Parse : Type 0 where
  pub out : List DirFile
  pub current : Option DirFile
  pub secondaries_left : ℕ

abbrev pub in_use : ℕ → Bool
in_use t = t / 128 % 2 == 1

-- One UTF-16 unit of a name.
abbrev pub push_unit : ℕ → List ℕ → List ℕ
push_unit c name =
    if not (c == 0) && ltb (length name) 255
    then name ++ (if ltb c 128 then c else b'?') ∷ []
    else name

unfoldable pub push_units : ℕ → List ℕ → List ℕ → List ℕ
push_units zero units name = name
push_units (suc left) units name = push_units left (drop 2 units) (push_unit (le16 units 0) name)

abbrev pub first_entry : ℕ → List ℕ → DirFile
first_entry idx e = record {
  name = [];
  attributes = le16 e 4;
  first_cluster = 0;
  data_length = 0;
  no_fat_chain = false;
  set_offset = idx * entry_size;
  set_entries = 1 + get_or e 1 0;
}

-- A stream extension, a part of the name, or another secondary entry.
unfoldable pub add_secondary : List ℕ → DirFile → DirFile
unfolding push_units
add_secondary e f =
    if get_or e 0 0 == 0xc0
    then record f {
      no_fat_chain = get_or e 1 0 / 2 % 2 == 1;
      first_cluster = le32 e 20;
      data_length = le64 e 24;
    }
    else if get_or e 0 0 == 0xc1
    then record f { name = push_units 15 (drop 2 e) f.name }
    else f

-- A set is listed once its last secondary entry was read.
abbrev pub count_secondary : DirFile → Parse → Parse
count_secondary f p = elim (p.secondaries_left) [
  | zero ↦ record p { current = some f }
  | suc left ↦
      if left == 0
      then record { out = p.out ++ f ∷ []; current = none; secondaries_left = 0 }
      else record p { current = some f; secondaries_left = left }
]

abbrev pub interrupted : Parse → Parse
interrupted p = record p { current = none; secondaries_left = 0 }

-- One entry other than the end marker.
unfoldable pub parse_entry : ℕ → List ℕ → Parse → Parse
unfolding add_secondary
parse_entry idx e p =
    if get_or e 0 0 == 0x85
    then record p { current = some (first_entry idx e); secondaries_left = get_or e 1 0 }
    else elim (p.current) [
      | none ↦ interrupted p
      | some f ↦
          if in_use (get_or e 0 0) then count_secondary (add_secondary e f) p else interrupted p
    ]

unfoldable pub parse_from : ℕ → List (List ℕ) → Parse → List DirFile
unfolding parse_entry
parse_from idx [] p = p.out
parse_from idx (e ∷ rest) p =
    let later = parse_from (suc idx) rest (parse_entry idx e p) in
    if get_or e 0 0 == 0 then p.out else later

abbrev pub no_parse : Parse
no_parse = record { out = []; current = none; secondaries_left = 0 }

unfoldable pub parse_entries : List ℕ → List DirFile
unfolding chunks parse_from
parse_entries bytes = parse_from 0 (entries_of bytes) no_parse

-- The entries of a set that is built: the file, its stream extension, and the name in parts of 15.
abbrev pub file_entry : ℕ → ℕ → List ℕ
file_entry name_entries attributes =
    0x85 ∷ (1 + name_entries) % 256 ∷ 0 ∷ 0 ∷ []
    ++ bytes16 attributes
    ++ 0 ∷ 0 ∷ []
    ++ bytes32 timestamp
    ++ bytes32 timestamp
    ++ bytes32 timestamp
    ++ 0 ∷ 0 ∷ 0x80 ∷ 0x80 ∷ 0x80 ∷ []
    ++ replicate 7 0

abbrev pub stream_entry : List ℕ → ℕ → ℕ → ℕ → List ℕ
stream_entry name flags first len =
    0xc0 ∷ flags ∷ 0 ∷ length name % 256 ∷ []
    ++ bytes16 (name_hash (map upcase name))
    ++ 0 ∷ 0 ∷ []
    ++ bytes64 len
    ++ replicate 4 0
    ++ bytes32 first
    ++ bytes64 len

unfoldable pub name_units : ℕ → List ℕ → List ℕ
name_units zero name = []
name_units (suc left) [] = 0 ∷ 0 ∷ name_units left []
name_units (suc left) (c ∷ name) = c ∷ 0 ∷ name_units left name

unfoldable pub name_parts : ℕ → List ℕ → List (List ℕ)
unfolding name_units
name_parts zero name = []
name_parts (suc n) name = (0xc1 ∷ 0 ∷ name_units 15 name) ∷ name_parts n (drop 15 name)

unfoldable pub concat : List (List ℕ) → List ℕ
concat [] = []
concat (e ∷ rest) = e ++ concat rest

abbrev pub name_entry_count : List ℕ → ℕ
name_entry_count name = (length name + 14) / 15

unfoldable pub raw_entries : List ℕ → ℕ → ℕ → ℕ → ℕ → List (List ℕ)
unfolding name_parts hash_from
raw_entries name attributes flags first len =
    file_entry (name_entry_count name) attributes
    ∷ stream_entry name flags first len
    ∷ name_parts (name_entry_count name) name

-- `set[2..4].copy_from_slice(&checksum.to_le_bytes())`
abbrev pub put_checksum : ℕ → List ℕ → List ℕ
put_checksum sum set' = take 2 set' ++ bytes16 sum ++ drop 4 set'

unfoldable pub build_entry_set : List ℕ → ℕ → ℕ → ℕ → ℕ → List ℕ
unfolding concat raw_entries checksum_from
build_entry_set name attributes flags first len =
    let set' = concat (raw_entries name attributes flags first len) in
    put_checksum (entry_set_checksum set') set'
