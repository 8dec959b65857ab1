-- ===== src/Elf/Loads.antt =====
-- memory/elf.rs: what the loop over the program headers keeps of the segments it has collected.
use mmurtl_rs.Base.{
  ℕ, zero, suc, ◌+◌, ◌≤◌, ◌<◌, ◌≡◌, ◌≢◌, ◌⊎◌, inl, inr, refl, sym, subst, ◌∙◌, Bool, true, false,
  not, ◌&&◌, ◌||◌, ◌==◌, leb→le, ltb→lt, Option, some, List, [], ◌∷◌, ◌++◌, length, get_elem?,
  arith, Bool-cases, ltb, leb, any, any-false, if◌then◌else◌, &&_both, >>=-eq-some, ◌>>◌, guard,
  guarded, ◌^◌, length-append, snoc_cases, some_inj,
}
use mmurtl_rs.Elf.{
  Segment, Header, Scan, max_image, max_segments, page_up, page_down, shares_page, accepts,
  segment_of, add_segment, load_segment, note_dynamic, note_relro, scan_header, scan_table,
  read_header, first_scan, is_executable,
}

-- The memory that a list of segments takes.
unfoldable pub memory_of : List Segment → ℕ
memory_of [] = 0
memory_of (s ∷ rest) = s.memsz + memory_of rest

-- The place of a segment: below the size limit, or in the window of user programs.
abbrev pub IsPlaced : Bool → ℕ → ℕ → Segment → Type 0
IsPlaced true base limit s = s.vaddr + s.memsz ≤ max_image
IsPlaced false base limit s = (base ≤ s.vaddr) × (s.vaddr + s.memsz ≤ limit)

-- No page that one segment reaches into is one of the other's.
abbrev pub IsApart : Segment → Segment → Type 0
IsApart s t =
    (page_up (s.vaddr + s.memsz) ≤ page_down t.vaddr)
    ⊎ (page_up (t.vaddr + t.memsz) ≤ page_down s.vaddr)

-- A segment may be loaded: its data lies in the file, and it is not both writable and executable.
pub record IsLoadable (size : ℕ) (pie : Bool) (base limit : ℕ) (s : Segment) : Type 0 where
  pub data_fits : s.filesz ≤ s.memsz
  pub data_in_file : s.offset + s.filesz ≤ size
  pub w_xor_x : (s.writable && s.executable) ≡ false
  pub placed : IsPlaced pie base limit s

pub record IsLoaded (size : ℕ) (pie : Bool) (base limit : ℕ) (segs : List Segment) : Type 0 where
  pub few : length segs ≤ max_segments
  pub bounded : memory_of segs ≤ max_image
  pub each : (i : ℕ) (s : Segment) → get_elem? segs i ≡ some s → IsLoadable size pie base limit s
  pub apart :
      (i j : ℕ) (s t : Segment)
      → i ≢ j
      → get_elem? segs i ≡ some s
      → get_elem? segs j ≡ some t
      → IsApart s t

-- What the loop keeps: the segments are loaded, `total` is their memory, and no relocation is noted.
pub record Keeps (size base limit : ℕ) (s : Scan) : Type 0 where
  pub loaded : IsLoaded size (s.image.pie) base limit (s.image.segments)
  pub counted : s.total ≡ memory_of (s.image.segments)
  pub unplaced : s.image.reloc_count ≡ 0

memory_of-append :
    (xs : List Segment) (s : Segment) → memory_of (xs ++ s ∷ []) ≡ memory_of xs + s.memsz
unfolding memory_of
memory_of-append [] s = omega arith
memory_of-append (x ∷ xs) s = omega (arith, memory_of-append xs s)

IsApart-sym : (s t : Segment) → IsApart s t → IsApart t s
IsApart-sym s t (inl h) = inr h
IsApart-sym s t (inr h) = inl h

-- A segment that shares no page with a header's is apart from it.
shares_page-IsApart :
    (h : Header) (t : Segment) → shares_page h t ≡ false → IsApart (segment_of h) t
shares_page-IsApart h t k =
    apart_of (page_down h.va) (page_up (t.vaddr + t.memsz)) (page_down t.vaddr)
      (page_up (h.va + h.memsz)) k
  where
    apart_of : (a b c d : ℕ) → (ltb a b && ltb c d) ≡ false → (d ≤ c) ⊎ (b ≤ a)
    apart_of a b c d k = ground arith

-- The tests of a segment, as propositions.
record Accepted (size base limit : ℕ) (h : Header) (s : Scan) : Type 0 where
  loadable : IsLoadable size (s.image.pie) base limit (segment_of h)
  room : length (s.image.segments) < max_segments
  memory : s.total + h.memsz ≤ max_image
  alone : any (shares_page h) (s.image.segments) ≡ false

IsPlaced-of :
    (pie : Bool) (base limit : ℕ) (h : Header)
    → (if pie then leb (h.va + h.memsz) max_image else leb base h.va && leb (h.va + h.memsz) limit)
      ≡ true
    → IsPlaced pie base limit (segment_of h)
IsPlaced-of true base limit h k = ground arith
IsPlaced-of false base limit h k = (ground arith, ground arith)

not-true : (b : Bool) → not b ≡ true → b ≡ false
not-true b h = ground arith

accepts-Accepted :
    (size base limit : ℕ) (h : Header) (s : Scan)
    → accepts size base limit h s ≡ true
    → Accepted size base limit h s
unfolding accepts
accepts-Accepted size base limit h s k =
    let (k1, room) = &&_both _ _ k in
    let (k2, alone) = &&_both _ _ k1 in
    let (k3, wraps) = &&_both _ _ k2 in
    let (k4, total) = &&_both _ _ k3 in
    let (k5, place) = &&_both _ _ k4 in
    let (k6, wx) = &&_both _ _ k5 in
    let (k7, file) = &&_both _ _ k6 in
    let (k8, in_size) = &&_both _ _ file in
    let (below, wraps2) = &&_both _ _ k8 in
    record {
      loadable = record {
        data_fits = leb→le h.filesz h.memsz below;
        data_in_file = leb→le (h.offset + h.filesz) size in_size;
        w_xor_x = not-true _ wx;
        placed = IsPlaced-of (s.image.pie) base limit h place;
      };
      room = ltb→lt (length (s.image.segments)) max_segments room;
      memory = leb→le (s.total + h.memsz) max_image total;
      alone = not-true _ alone;
    }

-- A segment that passed the tests is added.
add_segment-Keeps :
    (size base limit : ℕ) (h : Header) (s : Scan)
    → Accepted size base limit h s
    → Keeps size base limit s
    → Keeps size base limit (add_segment h s)
add_segment-Keeps size base limit h s ok k = record {
  loaded = record {
    few = omega (arith, length-append (s.image.segments) (segment_of h ∷ []), ok.room);
    bounded =
        omega (arith, memory_of-append (s.image.segments) (segment_of h), ok.memory, k.counted);
    each = λ i t at. elim (snoc_cases (s.image.segments) i (segment_of h) at) [
      | inl (e, f) ↦ subst (IsLoadable size (s.image.pie) base limit) (sym f) ok.loadable
      | inr f ↦ k.loaded.each i t f
    ];
    apart = λ i j t u ne at at'. elim (snoc_cases (s.image.segments) i (segment_of h) at) [
      | inl (e, f) ↦ elim (snoc_cases (s.image.segments) j (segment_of h) at') [
        | inl (e', f') ↦ absurd (ne (e ∙ sym e'))
        | inr f' ↦
            subst (λ v. IsApart v u) (sym f)
              (shares_page-IsApart h u (any-false (shares_page h) (s.image.segments) j ok.alone f'))
      ]
      | inr f ↦ elim (snoc_cases (s.image.segments) j (segment_of h) at') [
        | inl (e', f') ↦
            subst (λ v. IsApart t v) (sym f')
              (IsApart-sym (segment_of h) t (
                shares_page-IsApart h t
                  (any-false (shares_page h) (s.image.segments) i ok.alone f)))
        | inr f' ↦ k.loaded.apart i j t u ne f f'
      ]
    ];
  };
  counted = omega (arith, memory_of-append (s.image.segments) (segment_of h), k.counted);
  unplaced = k.unplaced;
}

load_segment-Keeps :
    (size base limit : ℕ) (h : Header) (s : Scan) {s' : Scan}
    → load_segment size base limit h s ≡ some s'
    → Keeps size base limit s
    → Keeps size base limit s'
unfolding load_segment
load_segment-Keeps size base limit h s {s'} done k =
    elim (Bool-cases (not (h.kind == 1) || h.memsz == 0)) [
      | inl e ↦
          let same : s ≡ s' = some_inj (rw (sym done, e) refl) in
          subst (Keeps size base limit) same k
      | inr e ↦ elim (Bool-cases (accepts size base limit h s)) [
        | inl f ↦
            let same : add_segment h s ≡ s' = some_inj (rw (sym done, e, f) refl) in
            subst (Keeps size base limit) same
              (add_segment-Keeps size base limit h s (accepts-Accepted size base limit h s f) k)
        | inr f ↦
            let stops : load_segment size base limit h s ≡ Option.none = rw (e, f) refl in
            absurd (cc)
      ]
    ]

-- A step that is checked where it applies: its result is the old scan or the new one.
checked_step :
    (P : Scan → Type 0) (applies ok : Bool) (old new : Scan) {s : Scan}
    → (if applies then (do guard ok; some new) else some old) ≡ some s
    → P old
    → P new
    → P s
checked_step P true true old new done k l = subst P (some_inj done) l
checked_step P true false old new done k l = cc
checked_step P false ok old new done k l = subst P (some_inj done) k

note_dynamic-Keeps :
    (size base limit : ℕ) (h : Header) (s : Scan) {s' : Scan}
    → note_dynamic h s ≡ some s'
    → Keeps size base limit s
    → Keeps size base limit s'
unfolding note_dynamic
note_dynamic-Keeps size base limit h s {s'} done k =
    checked_step (Keeps size base limit) _ _ s _ done k
      (record { loaded = k.loaded; counted = k.counted; unplaced = k.unplaced })

note_relro-Keeps :
    (size base limit : ℕ) (h : Header) (s : Scan) {s' : Scan}
    → note_relro h s ≡ some s'
    → Keeps size base limit s
    → Keeps size base limit s'
unfolding note_relro
note_relro-Keeps size base limit h s {s'} done k =
    checked_step (Keeps size base limit) _ _ s _ done k
      (record { loaded = k.loaded; counted = k.counted; unplaced = k.unplaced })

scan_header-Keeps :
    (size base limit : ℕ) (h : Header) (s : Scan) {s' : Scan}
    → scan_header size base limit h s ≡ some s'
    → Keeps size base limit s
    → Keeps size base limit s'
unfolding scan_header
scan_header-Keeps size base limit h s done k =
    let (_, done1) = guarded (ltb (h.va + h.memsz) (2 ^ 64)) _ done in
    let (_, done2) = guarded (not (h.kind == 3)) _ done1 in
    let (_, done3) = guarded (not (h.kind == 0x6474e551 && is_executable (h.flags))) _ done2 in
    let (s1, first, done4) = >>=-eq-some (note_dynamic h s) _ done3 in
    let (s2, second, third) = >>=-eq-some (note_relro h s1) _ done4 in
    load_segment-Keeps size base limit h s2 third (
      note_relro-Keeps size base limit h s1 second (note_dynamic-Keeps size base limit h s first k))

-- The whole loop.
pub scan_table-Keeps :
    (bytes : List ℕ) (base limit step at left : ℕ) (s : Scan) {s' : Scan}
    → scan_table bytes base limit step at left s ≡ some s'
    → Keeps (length bytes) base limit s
    → Keeps (length bytes) base limit s'
unfolding scan_table
scan_table-Keeps bytes base limit step at zero s done k =
    subst (Keeps (length bytes) base limit) (some_inj done) k
scan_table-Keeps bytes base limit step at (suc left) s done k =
    let (s1, first, rest) =
      >>=-eq-some (scan_header (length bytes) base limit (read_header bytes at) s) _ done in
    scan_table-Keeps bytes base limit step (at + step) left s1 rest
      (scan_header-Keeps (length bytes) base limit (read_header bytes at) s first k)

pub first_scan-Keeps :
    (bytes : List ℕ) (base limit : ℕ) → Keeps (length bytes) base limit (first_scan bytes)
unfolding memory_of
first_scan-Keeps bytes base limit = record {
  loaded = record {
    few = omega arith;
    bounded = omega arith;
    each = λ i s at. cc;
    apart = λ i j s t ne at at'. cc;
  };
  counted = refl;
  unplaced = refl;
}
