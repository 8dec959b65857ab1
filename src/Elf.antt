-- ===== src/Elf.antt =====
-- memory/elf.rs: the check of a program image before it is mapped. `none` is an `Err`. Every read is
-- inside the file: the header is 64 bytes, the table of program headers and the tables that the
-- image names are checked to lie in the file before they are read.
use Prim.Native.Nat.{bit_and}
use mmurtl_rs.Base.{
  ℕ, zero, suc, ◌+◌, ◌-◌, ◌*◌, ◌/◌, ◌%◌, ◌^◌, max, Bool, true, false, not, ◌&&◌, ◌||◌, ◌==◌, leb,
  ltb, if◌then◌else◌, is_some, guard, ◌>>=◌, ◌>>◌, Option, none, some, List, [], ◌∷◌, ◌++◌, length,
  get_or, any, le16, le32, le64,
}
pub mod Loads
pub mod Safe
mod Tests

-- PAGE, MAX_IMAGE, MAX_RELOCS, and the room of the list of segments.
abbrev pub page : ℕ
page = 4096

abbrev pub max_image : ℕ
max_image = 64 * 1024 * 1024

abbrev pub max_relocs : ℕ
max_relocs = 4096

abbrev pub max_segments : ℕ
max_segments = 16

pub record Segment : Type 0 where
  pub vaddr : ℕ
  pub memsz : ℕ
  pub offset : ℕ
  pub filesz : ℕ
  pub writable : Bool
  pub executable : Bool

pub record Region : Type 0 where
  pub start : ℕ
  pub limit : ℕ

pub record Image : Type 0 where
  pub entry : ℕ
  pub pie : Bool
  pub alignment : ℕ
  pub segments : List Segment
  pub relro : Option Region
  pub reloc_file : ℕ
  pub reloc_count : ℕ

-- Whether `len` bytes from address `va` on come from the file, for one segment.
abbrev pub in_file : ℕ → ℕ → Segment → Bool
in_file va len s =
    leb s.vaddr va && leb (va - s.vaddr) s.filesz && leb len (s.filesz - (va - s.vaddr))

unfoldable pub file_range : List Segment → ℕ → ℕ → Option ℕ
file_range [] va len = none
file_range (s ∷ rest) va len =
    if in_file va len s then some (s.offset + (va - s.vaddr)) else file_range rest va len

-- The pages that addresses below `n` reach into, and the page that an address lies in.
abbrev pub page_up : ℕ → ℕ
page_up n = (n + page - 1) / page * page

abbrev pub page_down : ℕ → ℕ
page_down n = n / page * page

-- `readonly_page`
unfoldable pub readonly_page : Image → ℕ → Bool
readonly_page image at = elim (image.relro) [
  | none ↦ false
  | some r ↦ leb r.start at && leb (at + page) r.limit
]

-- `relocations`: where each relocation writes, and what it adds.
unfoldable pub relocations_from : List ℕ → ℕ → ℕ → List (ℕ × ℕ)
relocations_from bytes at zero = []
relocations_from bytes at (suc left) =
    (le64 bytes at, le64 bytes (at + 16)) ∷ relocations_from bytes (at + 24) left

abbrev pub relocations : List ℕ → Image → List (ℕ × ℕ)
relocations bytes image = relocations_from bytes (image.reloc_file) (image.reloc_count)

-- One program header.
pub record Header : Type 0 where
  pub kind : ℕ
  pub flags : ℕ
  pub offset : ℕ
  pub va : ℕ
  pub filesz : ℕ
  pub memsz : ℕ
  pub align : ℕ

abbrev pub read_header : List ℕ → ℕ → Header
read_header bytes at = record {
  kind = le32 bytes at;
  flags = le32 bytes (at + 4);
  offset = le64 bytes (at + 8);
  va = le64 bytes (at + 16);
  filesz = le64 bytes (at + 32);
  memsz = le64 bytes (at + 40);
  align = le64 bytes (at + 48);
}

-- What the loop over the program headers carries along.
pub record Scan : Type 0 where
  pub image : Image
  pub dynamic : Option (ℕ × ℕ × ℕ)
  pub total : ℕ

abbrev pub is_power_of_two : ℕ → Bool
is_power_of_two n = not (n == 0) && bit_and n (n - 1) == 0

abbrev pub is_aligned : Header → Bool
is_aligned h =
    leb h.align 1
    || (is_power_of_two h.align && bit_and h.va (h.align - 1) == bit_and h.offset (h.align - 1))

-- `first < round_up(s) && round_down(s) < last`
abbrev pub shares_page : Header → Segment → Bool
shares_page h s =
    ltb (page_down h.va) (page_up (s.vaddr + s.memsz))
    && ltb (page_down s.vaddr) (page_up (h.va + h.memsz))

abbrev pub is_writable : ℕ → Bool
is_writable flags = flags / 2 % 2 == 1

abbrev pub is_executable : ℕ → Bool
is_executable flags = flags % 2 == 1

-- The tests that a segment to be loaded passes, in the source's order.
unfoldable pub accepts : ℕ → ℕ → ℕ → Header → Scan → Bool
accepts size user_base user_limit h s =
    is_aligned h
    && not (s.image.pie && ltb 65536 h.align)
    && (h.flags / 8 == 0 && h.flags / 4 % 2 == 1)
    && (leb h.filesz h.memsz
        && ltb (h.offset + h.filesz) (2 ^ 64)
        && leb (h.offset + h.filesz) size)
    && not (is_writable h.flags && is_executable h.flags)
    && (if s.image.pie
        then leb (h.va + h.memsz) max_image
        else leb user_base h.va && leb (h.va + h.memsz) user_limit)
    && leb (s.total + h.memsz) max_image
    && ltb (h.va + h.memsz + page - 1) (2 ^ 64)
    && not (any (shares_page h) s.image.segments)
    && ltb (length s.image.segments) max_segments

abbrev pub segment_of : Header → Segment
segment_of h = record {
  vaddr = h.va;
  memsz = h.memsz;
  offset = h.offset;
  filesz = h.filesz;
  writable = is_writable h.flags;
  executable = is_executable h.flags;
}

abbrev pub add_segment : Header → Scan → Scan
add_segment h s = record s {
  image = record (s.image) {
    alignment = max s.image.alignment h.align;
    segments = s.image.segments ++ segment_of h ∷ [];
  };
  total = s.total + h.memsz;
}

unfoldable pub load_segment : ℕ → ℕ → ℕ → Header → Scan → Option Scan
unfolding accepts
load_segment size user_base user_limit h s =
    if not (h.kind == 1) || h.memsz == 0
    then some s
    else (do guard (accepts size user_base user_limit h s); some (add_segment h s))

-- `kind == 2`, the dynamic table.
unfoldable pub note_dynamic : Header → Scan → Option Scan
note_dynamic h s =
    if h.kind == 2
    then (do
      guard (
          not (is_some s.dynamic)
          && s.image.pie
          && not (h.filesz == 0)
          && leb h.filesz h.memsz
          && h.filesz % 16 == 0
          && leb h.filesz 4096)
      some (record s { dynamic = some (h.va, h.filesz, h.offset) }))
    else some s

-- The region that is read-only once the image is relocated.
unfoldable pub note_relro : Header → Scan → Option Scan
note_relro h s =
    if h.kind == 0x6474e552 && not (h.memsz == 0)
    then (do
      guard (not (is_some s.image.relro) && h.va % page == 0 && (h.va + h.memsz) % page == 0)
      some (record s {
        image = record (s.image) { relro = some (record { start = h.va; limit = h.va + h.memsz }) };
      }))
    else some s

-- One round of the loop.
unfoldable pub scan_header : ℕ → ℕ → ℕ → Header → Scan → Option Scan
unfolding note_dynamic note_relro load_segment
scan_header size user_base user_limit h s = do
  guard (ltb (h.va + h.memsz) (2 ^ 64))
  guard (not (h.kind == 3))
  guard (not (h.kind == 0x6474e551 && is_executable h.flags))
  s1 ← note_dynamic h s
  s2 ← note_relro h s1
  load_segment size user_base user_limit h s2

unfoldable pub scan_table : List ℕ → ℕ → ℕ → ℕ → ℕ → ℕ → Scan → Option Scan
unfolding scan_header
scan_table bytes user_base user_limit step at zero s = some s
scan_table bytes user_base user_limit step at (suc left) s = do
  s' ← scan_header (length bytes) user_base user_limit (read_header bytes at) s
  scan_table bytes user_base user_limit step (at + step) left s'

-- The entry point in an executable segment.
abbrev pub runs_at : ℕ → Segment → Bool
runs_at entry s = s.executable && leb s.vaddr entry && ltb entry (s.vaddr + s.memsz)

-- A region inside a writable segment.
abbrev pub holds_region : Region → Segment → Bool
holds_region r s = s.writable && leb s.vaddr r.start && leb r.limit (s.vaddr + s.memsz)

abbrev pub relro_inside : Image → Bool
relro_inside image = elim (image.relro) [
  | none ↦ true
  | some r ↦ any (holds_region r) image.segments
]

-- What the dynamic table says of the relocations.
pub record Relocs : Type 0 where
  pub rela : Option ℕ
  pub relasz : Option ℕ
  pub relaent : Option ℕ

abbrev pub unsupported_tag : ℕ → Bool
unsupported_tag tag =
    tag == 1
    || tag == 2
    || tag == 17
    || tag == 18
    || tag == 19
    || tag == 20
    || tag == 22
    || tag == 23
    || tag == 35
    || tag == 36
    || tag == 37

unfoldable pub note_tag : ℕ → ℕ → Relocs → Option Relocs
note_tag tag value r =
    if tag == 7
    then (if is_some r.rela then none else some (record r { rela = some value }))
    else if tag == 8
    then (if is_some r.relasz then none else some (record r { relasz = some value }))
    else if tag == 9
    then (if is_some r.relaent then none else some (record r { relaent = some value }))
    else if unsupported_tag tag
    then none
    else some r

-- The loop over the dynamic table, `left` entries from `at` on; a table with no end is refused.
unfoldable pub read_dynamic : List ℕ → ℕ → ℕ → Relocs → Option Relocs
unfolding note_tag
read_dynamic bytes at zero r = none
read_dynamic bytes at (suc left) r =
    let rest = do
      r' ← note_tag (le64 bytes at) (le64 bytes (at + 8)) r
      read_dynamic bytes (at + 16) left r'
    in if le64 bytes at == 0 then some r else rest

-- The kind of a symbol-free relative relocation.
unfoldable pub relative_kind : ℕ → Option ℕ
relative_kind machine = if machine == 62 then some 8 else if machine == 183 then some 1027 else none

abbrev pub takes_word : ℕ → Segment → Bool
takes_word target s =
    s.writable
    && leb s.vaddr target
    && ltb (target + 8) (2 ^ 64)
    && leb (target + 8) (s.vaddr + s.memsz)

-- The tests of one relocation. An addend from 2 ^ 63 on is a negative number.
unfoldable pub good_reloc : List ℕ → ℕ → List Segment → ℕ → Bool
good_reloc bytes relative segments at =
    le64 bytes (at + 8) == relative
    && le64 bytes at % 8 == 0
    && any (takes_word (le64 bytes at)) segments
    && ltb (le64 bytes (at + 16)) (2 ^ 63)
    && leb (le64 bytes (at + 16)) max_image

unfoldable pub good_relocs : List ℕ → ℕ → List Segment → ℕ → ℕ → Bool
unfolding good_reloc
good_relocs bytes relative segments at zero = true
good_relocs bytes relative segments at (suc left) =
    good_reloc bytes relative segments at && good_relocs bytes relative segments (at + 24) left

unfoldable pub place_relocs : List ℕ → ℕ → Relocs → Image → Option Image
unfolding file_range relative_kind good_relocs
place_relocs bytes machine r image = elim (r.rela) [
  | none ↦ if is_some r.relasz || is_some r.relaent then none else some image
  | some va ↦ elim (r.relasz) [
    | none ↦ none
    | some len ↦ elim (r.relaent) [
      | none ↦ none
      | some each ↦ (do
        guard (each == 24 && len % 24 == 0 && leb (len / 24) max_relocs)
        at ← file_range image.segments va len
        relative ← relative_kind machine
        guard (good_relocs bytes relative image.segments at (len / 24))
        some (record image { reloc_file = at; reloc_count = len / 24 }))
    ]
  ]
]

abbrev pub no_relocs : Relocs
no_relocs = record { rela = none; relasz = none; relaent = none }

unfoldable pub relocate : List ℕ → ℕ → Option (ℕ × ℕ × ℕ) → Image → Option Image
unfolding file_range read_dynamic place_relocs
relocate bytes machine none image = some image
relocate bytes machine (some (va, len, offset)) image = do
  file ← file_range image.segments va len
  guard (file == offset)
  r ← read_dynamic bytes file (len / 16) no_relocs
  place_relocs bytes machine r image

abbrev pub has_magic : List ℕ → Bool
has_magic bytes =
    get_or bytes 0 0 == 0x7f
    && get_or bytes 1 0 == b'E'
    && get_or bytes 2 0 == b'L'
    && get_or bytes 3 0 == b'F'

-- The tests of the file header.
unfoldable pub good_header : List ℕ → ℕ → Bool
good_header bytes machine =
    leb 64 (length bytes)
    && has_magic bytes
    && (get_or bytes 4 0 == 2 && get_or bytes 5 0 == 1 && get_or bytes 6 0 == 1)
    && le32 bytes 20 == 1
    && (le16 bytes 16 == 2 || le16 bytes 16 == 3)
    && le16 bytes 18 == machine
    && le16 bytes 52 == 64

unfoldable pub good_table : List ℕ → Bool
good_table bytes =
    leb 56 (le16 bytes 54)
    && not (le16 bytes 56 == 0)
    && leb (le16 bytes 56) 32
    && ltb (le64 bytes 32 + le16 bytes 54 * le16 bytes 56) (2 ^ 64)
    && leb (le64 bytes 32 + le16 bytes 54 * le16 bytes 56) (length bytes)

abbrev pub first_scan : List ℕ → Scan
first_scan bytes = record {
  image = record {
    entry = le64 bytes 24;
    pie = le16 bytes 16 == 3;
    alignment = page;
    segments = [];
    relro = none;
    reloc_file = 0;
    reloc_count = 0;
  };
  dynamic = none;
  total = 0;
}

unfoldable pub parse : List ℕ → ℕ → ℕ → ℕ → Option Image
unfolding good_header good_table scan_table relocate
parse bytes machine user_base user_limit = do
  guard (good_header bytes machine)
  guard (good_table bytes)
  s ←
      scan_table bytes user_base user_limit (le16 bytes 54) (le64 bytes 32) (le16 bytes 56)
        (first_scan bytes)
  guard (any (runs_at s.image.entry) s.image.segments)
  guard (relro_inside s.image)
  relocate bytes machine s.dynamic s.image
