-- ===== src/Exfat/Roundtrip.antt =====
-- fs/exfat.rs: an entry set that `build_entry_set` makes is read back by `parse_entries`, in
-- whatever place of a directory it stands.
use mmurtl_rs.Base.{
  ℕ, suc, ◌+◌, ◌-◌, ◌*◌, ◌/◌, ◌%◌, ◌^◌, ◌≤◌, ◌<◌, ◌≡◌, refl, ap, ◌∙◌, false, ◌==◌, none, List, [],
  ◌∷◌, ◌++◌, length, arith, le64, bytes64,
}
use mmurtl_rs.Exfat.{
  DirFile, Parse, entry_size, chunks, parse_entry, parse_from, name_parts, file_entry, stream_entry,
  name_entry_count, put_checksum, build_entry_set,
}
use mmurtl_rs.Exfat.Names.{IsAscii, parse_from_cons, under_way, finished, parse-name_parts}
use mmurtl_rs.Exfat.Chunks.{chunks-build_entry_set}

-- What is listed for a set at entry `idx` of a directory.
abbrev pub file_of : ℕ → List ℕ → ℕ → ℕ → ℕ → ℕ → DirFile
file_of idx name attributes flags first len = record {
  name = name;
  attributes = attributes;
  first_cluster = first;
  data_length = len;
  no_fat_chain = flags / 2 % 2 == 1;
  set_offset = idx * entry_size;
  set_entries = 2 + name_entry_count name;
}

le32_bytes :
    (v : ℕ)
    → v < 2 ^ 32
    → v % 256 + 256 * (v / 256 % 256) + 65536 * (v / 65536 % 256 + 256 * (v / 16777216 % 256)) ≡ v
le32_bytes v h = omega arith

le32_wrapped :
    (v : ℕ)
    → v % 256 + 256 * (v / 256 % 256) + 65536 * (v / 65536 % 256 + 256 * (v / 16777216 % 256))
      ≡ v % 4294967296
le32_wrapped v = omega arith

le16_bytes : (v : ℕ) → v < 65536 → v % 256 + 256 * (v / 256 % 256) ≡ v
le16_bytes v h = omega arith

abbrev with_stream : DirFile → ℕ → ℕ → ℕ → DirFile
with_stream f flags first len = record f {
  no_fat_chain = flags / 2 % 2 == 1;
  first_cluster = first;
  data_length = len;
}

le64_bytes : (v : ℕ) (rest : List ℕ) → v < 2 ^ 64 → le64 (bytes64 v ++ rest) 0 ≡ v
le64_bytes v rest h = omega (arith, le32_wrapped v, le32_bytes (v / 4294967296) (omega arith))

parse_stream :
    (n idx : ℕ) (name : List ℕ) (flags first len : ℕ) (out : List DirFile) (f : DirFile)
    → first < 2 ^ 32
    → len < 2 ^ 64
    → parse_entry idx (stream_entry name flags first len) (under_way out f (suc (suc n)))
      ≡ under_way out (with_stream f flags first len) (suc n)
unfolding parse_entry
parse_stream n idx name flags first len out f small fits =
    let more : (suc n == 0) ≡ false = ground arith in
    rw more (
      ap (λ v. under_way out (with_stream f flags v (le64 (bytes64 len) 0)) (suc n))
        (le32_bytes first small)
      ∙ ap (λ v. under_way out (with_stream f flags first v) (suc n)) (le64_bytes len [] fits))

-- A set whose first entry was read, with the number of entries that are to come.
abbrev started : ℕ → ℕ → ℕ → List DirFile → Parse
started idx attributes left out =
    under_way out (record (file_of idx [] attributes 0 0 0) { set_entries = 1 + left }) left

parse_file :
    (n idx sum attributes : ℕ) (rest : List (List ℕ)) (p : Parse)
    → 1 + n < 256
    → attributes < 65536
    → parse_from idx (put_checksum sum (file_entry n attributes) ∷ rest) p
      ≡ parse_from (suc idx) rest (started idx attributes (1 + n) p.out)
unfolding parse_from
parse_file n idx sum attributes rest p few small =
    let count : (1 + n) % 256 ≡ 1 + n = omega arith in
    ap (λ a. parse_from (suc idx) rest (started idx a ((1 + n) % 256) p.out))
      (le16_bytes attributes small)
    ∙ ap (λ k. parse_from (suc idx) rest (started idx attributes k p.out)) count

-- The entries of a set, one after the other.
parse_set :
    (n idx sum : ℕ) (name : List ℕ) (attributes flags first len : ℕ) (later : List (List ℕ))
    (p : Parse)
    → IsAscii name
    → length name ≤ 255
    → name_entry_count name ≡ suc n
    → attributes < 65536
    → first < 2 ^ 32
    → len < 2 ^ 64
    → parse_from idx
        (put_checksum sum (file_entry (suc n) attributes)
            ∷ stream_entry name flags first len
            ∷ name_parts (suc n) name
          ++ later)
        p
      ≡ parse_from
          (idx + (3 + n))
          later
          (finished p.out (file_of idx name attributes flags first len))
parse_set n idx sum name attributes flags first len later p h short count a b c =
    let f : DirFile = record (file_of idx [] attributes 0 0 0) { set_entries = 3 + n } in
    let rest : List (List ℕ) = name_parts (suc n) name ++ later in
    parse_file (suc n) idx sum attributes (stream_entry name flags first len ∷ rest) p (omega arith)
      a
    ∙ ap (λ q. parse_from (suc idx) (stream_entry name flags first len ∷ rest) q)
        (ap
            (λ k.
              under_way p.out (record (file_of idx [] attributes 0 0 0) { set_entries = k })
                (1 + suc n))
            (omega arith)
          ∙ ap (λ k. under_way p.out f k) (omega arith))
    ∙ parse_from_cons (suc idx) (stream_entry name flags first len) rest
        (under_way p.out f (suc (suc n))) refl
    ∙ ap (λ q. parse_from (suc (suc idx)) rest q)
        (parse_stream n (suc idx) name flags first len p.out f b c)
    ∙ parse-name_parts n (suc (suc idx)) name later p.out (with_stream f flags first len) h
        (omega arith) (omega arith)
    ∙ ap
        (λ k. parse_from (suc (suc idx) + suc n) later (
          finished p.out
            (record (file_of idx name attributes flags first len) { set_entries = k })))
        (omega arith)
    ∙ ap (λ i. parse_from i later (finished p.out (file_of idx name attributes flags first len)))
        (omega arith)

-- A set that is built is read back wherever it stands in a directory: from entry `idx` on, after
-- any other entries (`p` is what was read of them), reading the set and the `m` entries behind it
-- adds the file with its name, attributes, first cluster, length and place to the list, and goes
-- on behind the set. The name has 1 to 255 bytes, all ASCII and none of them 0, and the numbers fit
-- into their fields.
pub parse-build_entry_set :
    (idx m : ℕ) (name : List ℕ) (attributes flags first len : ℕ) (rest : List ℕ) (p : Parse)
    → IsAscii name
    → 0 < length name
    → length name ≤ 255
    → attributes < 65536
    → first < 2 ^ 32
    → len < 2 ^ 64
    → parse_from idx
        (chunks
          (2 + name_entry_count name + m)
          (build_entry_set name attributes flags first len ++ rest))
        p
      ≡ parse_from (idx + 2 + name_entry_count name) (chunks m rest) (record {
        out = p.out ++ file_of idx name attributes flags first len ∷ [];
        current = none;
        secondaries_left = 0;
      })
parse-build_entry_set idx m name attributes flags first len rest p h pos short a b c =
    let n : ℕ = name_entry_count name - 1 in
    let count : name_entry_count name ≡ suc n = omega arith in
    let (sum, split) = chunks-build_entry_set m name attributes flags first len rest in
    ap (λ k. parse_from idx (chunks k (build_entry_set name attributes flags first len ++ rest)) p)
      (omega arith)
    ∙ ap (λ t. parse_from idx t p) split
    ∙ ap
        (λ k.
          parse_from idx
            (put_checksum sum (file_entry k attributes)
                ∷ stream_entry name flags first len
                ∷ name_parts k name
              ++ chunks m rest)
            p)
        count
    ∙ parse_set n idx sum name attributes flags first len (chunks m rest) p h short count a b c
    ∙ ap
        (λ i.
          parse_from i (chunks m rest)
            (finished p.out (file_of idx name attributes flags first len)))
        (omega arith)
