-- ===== src/Elf/Safe.antt =====
-- memory/elf.rs: what `parse` promises of an image it accepts.
use mmurtl_rs.Base.{
  ℕ, zero, suc, ◌+◌, ◌*◌, ◌/◌, ◌≤◌, ◌<◌, ◌%◌, ◌≡◌, ◌⊎◌, inl, inr, refl, sym, subst, Bool, true,
  ◌&&◌, ◌==◌, Option, none, some, List, length, get_elem?, arith, leb, any, any-true, &&_both,
  >>=-eq-some, some_inj, le16, le64, leb→le, ltb→lt, guarded,
}
use mmurtl_rs.Elf.{
  relocations, relocations_from, Segment, Region, Image, Scan, max_image, max_relocs, first_scan,
  parse, good_header, good_table, relocate, place_relocs, good_reloc, good_relocs, takes_word,
  holds_region, runs_at, relro_inside, scan_table, read_dynamic, file_range, relative_kind,
  no_relocs,
}
use mmurtl_rs.Elf.Loads.{IsLoaded, Keeps, scan_table-Keeps, first_scan-Keeps}

-- Some segment of the list passes a test.
abbrev pub HasSegment : (Segment → Type 0) → List Segment → Type 0
HasSegment P segs = (i : ℕ) × (s : Segment) × (get_elem? segs i ≡ some s) × P s

abbrev pub Runs : ℕ → Segment → Type 0
Runs entry s = (s.executable ≡ true) × (s.vaddr ≤ entry) × (entry < s.vaddr + s.memsz)

abbrev pub Holds : Region → Segment → Type 0
Holds r s = (s.writable ≡ true) × (s.vaddr ≤ r.start) × (r.limit ≤ s.vaddr + s.memsz)

abbrev pub TakesWord : ℕ → Segment → Type 0
TakesWord target s = (s.writable ≡ true) × (s.vaddr ≤ target) × (target + 8 ≤ s.vaddr + s.memsz)

pub record IsSafe (bytes : List ℕ) (base limit : ℕ) (image : Image) : Type 0 where
  pub loaded : IsLoaded (length bytes) (image.pie) base limit (image.segments)
  pub starts : HasSegment (Runs (image.entry)) (image.segments)
  pub relro_held : (r : Region) → image.relro ≡ some r → HasSegment (Holds r) (image.segments)
  pub few_relocs : image.reloc_count ≤ max_relocs
  pub words :
      (n : ℕ) (r : ℕ × ℕ)
      → get_elem? (relocations bytes image) n ≡ some r
      → HasSegment (TakesWord (r.0)) (image.segments) × (r.1 ≤ max_image)

has_segment :
    (P : Segment → Type 0) (p : Segment → Bool) (segs : List Segment)
    → ((s : Segment) → p s ≡ true → P s)
    → any p segs ≡ true
    → HasSegment P segs
has_segment P p segs f h = let (i, s, at, ok) = any-true p segs h in (i, s, at, f s ok)

runs_at-Runs : (entry : ℕ) (s : Segment) → runs_at entry s ≡ true → Runs entry s
runs_at-Runs entry s h =
    let (h1, c) = &&_both _ _ h in
    let (a, b) = &&_both _ _ h1 in (a, leb→le (s.vaddr) entry b, ltb→lt entry (s.vaddr + s.memsz) c)

holds_region-Holds : (r : Region) (s : Segment) → holds_region r s ≡ true → Holds r s
holds_region-Holds r s h =
    let (h1, c) = &&_both _ _ h in
    let (a, b) = &&_both _ _ h1 in
    (a, leb→le (s.vaddr) (r.start) b, leb→le (r.limit) (s.vaddr + s.memsz) c)

takes_word-TakesWord : (t : ℕ) (s : Segment) → takes_word t s ≡ true → TakesWord t s
takes_word-TakesWord t s h =
    let (h1, d) = &&_both _ _ h in
    let (h2, c) = &&_both _ _ h1 in
    let (a, b) = &&_both _ _ h2 in (a, leb→le (s.vaddr) t b, leb→le (t + 8) (s.vaddr + s.memsz) d)

-- One relocation that passes.
good_reloc_lem :
    (bytes : List ℕ) (relative : ℕ) (segs : List Segment) (at : ℕ)
    → good_reloc bytes relative segs at ≡ true
    → HasSegment (TakesWord (le64 bytes at)) segs × (le64 bytes (at + 16) ≤ max_image)
unfolding good_reloc
good_reloc_lem bytes relative segs at h =
    let (h1, e) = &&_both _ _ h in
    let (h2, d) = &&_both _ _ h1 in
    let (h3, c) = &&_both _ _ h2 in
    (
      has_segment (TakesWord (le64 bytes at)) (takes_word (le64 bytes at)) segs
          (takes_word-TakesWord (le64 bytes at)) c,
      leb→le (le64 bytes (at + 16)) max_image e,
    )

-- Each of the relocations that pass.
good_relocs_each :
    (bytes : List ℕ) (relative : ℕ) (segs : List Segment) (at left n : ℕ)
    → good_relocs bytes relative segs at left ≡ true
    → n < left
    → good_reloc bytes relative segs (at + n * 24) ≡ true
unfolding good_relocs
good_relocs_each bytes relative segs at zero n h lt = absurd (omega arith)
good_relocs_each bytes relative segs at (suc left) zero h lt =
    let (a, b) =
      &&_both (good_reloc bytes relative segs at) (good_relocs bytes relative segs (at + 24) left)
        h in
    subst (λ x. good_reloc bytes relative segs x ≡ true) (omega arith) a
good_relocs_each bytes relative segs at (suc left) (suc n) h lt =
    let (a, b) =
      &&_both (good_reloc bytes relative segs at) (good_relocs bytes relative segs (at + 24) left)
        h in
    subst (λ x. good_reloc bytes relative segs x ≡ true) (omega arith)
      (good_relocs_each bytes relative segs (at + 24) left n b (omega arith))

-- Where the entries of `relocations` are read.
relocations_each :
    (bytes : List ℕ) (at left n : ℕ) {r : ℕ × ℕ}
    → get_elem? (relocations_from bytes at left) n ≡ some r
    → (n < left) × (r ≡ (le64 bytes (at + n * 24), le64 bytes (at + n * 24 + 16)))
unfolding relocations_from
relocations_each bytes at zero n h = cc
relocations_each bytes at (suc left) zero {r} h = (
  omega arith,
  subst (λ x. r ≡ (le64 bytes x, le64 bytes (x + 16))) (omega arith) (sym (some_inj h)),
)
relocations_each bytes at (suc left) (suc n) {r} h =
    let (lt, e) = relocations_each bytes (at + 24) left n h in
    (omega arith, subst (λ x. r ≡ (le64 bytes x, le64 bytes (x + 16))) (omega arith) e)

-- What `relocate` makes of an image: nothing, or it notes relocations that all pass.
Relocated : List ℕ → Image → Image → Type 0
Relocated bytes image image' =
    (image' ≡ image)
    ⊎ ((at : ℕ) × (count : ℕ) × (relative : ℕ) × (count ≤ max_relocs)
        × (good_relocs bytes relative (image.segments) at count ≡ true)
        × (image' ≡ record image { reloc_file = at; reloc_count = count }))

place_relocs-Relocated :
    (bytes : List ℕ) (machine : ℕ) (rela relasz relaent : Option ℕ) (image : Image) {image' : Image}
    → place_relocs bytes machine (record { rela = rela; relasz = relasz; relaent = relaent }) image
      ≡ some image'
    → Relocated bytes image image'
unfolding place_relocs Relocated
place_relocs-Relocated bytes machine none none none image done = inl (sym (some_inj done))
place_relocs-Relocated bytes machine none none (some each) image done = cc
place_relocs-Relocated bytes machine none (some len) relaent image done = cc
place_relocs-Relocated bytes machine (some va) none relaent image done = cc
place_relocs-Relocated bytes machine (some va) (some len) none image done = cc
place_relocs-Relocated bytes machine (some va) (some len) (some each) image done =
    let (ok, done1) = guarded (each == 24 && len % 24 == 0 && leb (len / 24) max_relocs) _ done in
    let (at, found, done2) = >>=-eq-some (file_range (image.segments) va len) _ done1 in
    let (relative, kind, done3) = >>=-eq-some (relative_kind machine) _ done2 in
    let (good, done4) =
      guarded (good_relocs bytes relative (image.segments) at (len / 24)) _ done3 in
    let (ok1, few) = &&_both (each == 24 && len % 24 == 0) (leb (len / 24) max_relocs) ok in
    inr (at, len / 24, relative, leb→le (len / 24) max_relocs few, good, sym (some_inj done4))

relocate-Relocated :
    (bytes : List ℕ) (machine : ℕ) (dynamic : Option (ℕ × ℕ × ℕ)) (image : Image) {image' : Image}
    → relocate bytes machine dynamic image ≡ some image'
    → Relocated bytes image image'
unfolding relocate Relocated
relocate-Relocated bytes machine none image done = inl (sym (some_inj done))
relocate-Relocated bytes machine (some (va, len, offset)) image done =
    let (file, found, done1) = >>=-eq-some (file_range (image.segments) va len) _ done in
    let (ok, done2) = guarded (file == offset) _ done1 in
    let (r, read, done3) = >>=-eq-some (read_dynamic bytes file (len / 16) no_relocs) _ done2 in
    place_relocs-Relocated bytes machine (r.rela) (r.relasz) (r.relaent) image done3

-- What the loop leaves is safe without relocations, and with them.
unrelocated :
    (bytes : List ℕ) (base limit : ℕ) (s : Scan)
    → Keeps (length bytes) base limit s
    → HasSegment (Runs (s.image.entry)) (s.image.segments)
    → ((r : Region) → s.image.relro ≡ some r → HasSegment (Holds r) (s.image.segments))
    → (image' : Image) → Relocated bytes (s.image) image'
    → IsSafe bytes base limit image'
unfolding Relocated
unrelocated bytes base limit s k starts held image' (inl same) =
    subst (IsSafe bytes base limit) (sym same) (record {
      loaded = k.loaded;
      starts = starts;
      relro_held = held;
      few_relocs = omega (arith, k.unplaced);
      words = λ n r at. absurd (
          omega (
            arith,
            k.unplaced,
            (relocations_each bytes (s.image.reloc_file) (s.image.reloc_count) n at).0,
          ));
    })
unrelocated bytes base limit s k starts held image' (inr (at, count, relative, few, good, same)) =
    subst (IsSafe bytes base limit) (sym same) (record {
      loaded = k.loaded;
      starts = starts;
      relro_held = held;
      few_relocs = few;
      words = λ n r each. word n r (relocations_each bytes at count n each);
    })
  where
    word :
        (n : ℕ) (r : ℕ × ℕ)
        → (n < count) × (r ≡ (le64 bytes (at + n * 24), le64 bytes (at + n * 24 + 16)))
        → HasSegment (TakesWord (r.0)) (s.image.segments) × (r.1 ≤ max_image)
    word n r (lt, e) =
        subst (λ (q : ℕ × ℕ). HasSegment (TakesWord (q.0)) (s.image.segments) × (q.1 ≤ max_image))
          (sym e)
          (good_reloc_lem bytes relative (s.image.segments) (at + n * 24)
            (good_relocs_each bytes relative (s.image.segments) at count n good lt))

relro_inside_lem :
    (image : Image)
    → relro_inside image ≡ true
    → (r : Region) → image.relro ≡ some r
    → HasSegment (Holds r) (image.segments)
relro_inside_lem image h r e =
    has_segment (Holds r) (holds_region r) (image.segments) (holds_region-Holds r)
      (rw (sym h, e) refl)

-- An image that `parse` accepts is safe to map: it has at most 16 segments with at most 64 MiB of
-- memory together; each has its data inside the file, is not both writable and executable, and
-- lies below 64 MiB (a position-independent image) or in the window of user programs; no two
-- segments reach into one page; the entry point lies in an executable segment; the region that
-- becomes read-only lies in a writable segment; and `relocations` lists at most 4096 relocations,
-- each with its 8-byte target in a writable segment and an addend of at most 64 MiB.
pub parse-IsSafe :
    (bytes : List ℕ) (machine base limit : ℕ) {image : Image}
    → parse bytes machine base limit ≡ some image
    → IsSafe bytes base limit image
unfolding parse
parse-IsSafe bytes machine base limit {image} done =
    let (_, done1) = guarded (good_header bytes machine) _ done in
    let (_, done2) = guarded (good_table bytes) _ done1 in
    let (s, scanned, done3) =
      >>=-eq-some
        (scan_table bytes base limit (le16 bytes 54) (le64 bytes 32) (le16 bytes 56)
          (first_scan bytes))
        _ done2 in
    let (runs, done4) = guarded (any (runs_at (s.image.entry)) (s.image.segments)) _ done3 in
    let (held, done5) = guarded (relro_inside (s.image)) _ done4 in
    unrelocated bytes base limit s
      (scan_table-Keeps bytes base limit (le16 bytes 54) (le64 bytes 32) (le16 bytes 56)
        (first_scan bytes) scanned (first_scan-Keeps bytes base limit))
      (has_segment (Runs (s.image.entry)) (runs_at (s.image.entry)) (s.image.segments)
        (runs_at-Runs (s.image.entry)) runs)
      (relro_inside_lem (s.image) held) image
      (relocate-Relocated bytes machine (s.dynamic) (s.image) done5)
