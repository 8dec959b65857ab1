-- ===== src/Frames/Single.antt =====
-- What allocating and freeing one frame promise.
use mmurtl_rs.Base.{
  ℕ, zero, suc, ◌+◌, ◌*◌, ◌/◌, ◌%◌, ◌≤◌, ◌<◌, ◌≡◌, ◌≢◌, refl, sym, ◌∙◌, subst, ◌⊎◌, inl, inr, true,
  false, ◌==◌, ltb, Option, none, some, some_inj, arith, Bool-cases, Option-cases, cycle_covers,
}
use mmurtl_rs.Frames.{
  Frames, frame_size, is_free, mark, search, take_frame, allocate_zeroed_frame, give_back,
  deallocate_frame,
}
use mmurtl_rs.Frames.Counts.{IsValid, count-update_used, count-update_free}

-- `mark` keeps the two facts about the bitmaps and the memory.
pub record IsScrubbed (a : Frames) : Type 0 where
  pub zeroed_clean : (i : ℕ) → a.used i ≡ false → a.zeroed i ≡ true → a.clean i ≡ true
  pub used_unmarked : (i : ℕ) → a.used i ≡ true → a.zeroed i ≡ false

pub mark-IsScrubbed : (idx : ℕ) (a : Frames) → IsScrubbed a → IsScrubbed (mark idx a)
unfolding mark
mark-IsScrubbed idx a v = record {
  zeroed_clean = λ i free zero_bit. ground (arith, v.zeroed_clean i);
  used_unmarked = λ i taken. ground (arith, v.used_unmarked i);
}

-- A frame that was free holds only zeros once it is marked.
pub mark-clean :
    (idx : ℕ) (a : Frames) → IsScrubbed a → a.used idx ≡ false → (mark idx a).clean idx ≡ true
unfolding mark
mark-clean idx a v free = ground (arith, v.zeroed_clean idx free)

search-hit :
    (a : Frames) (i left : ℕ)
    → is_free a ((a.last_search + i) % a.total_frames) ≡ true
    → search a i (suc left) ≡ some ((a.last_search + i) % a.total_frames)
unfolding search
search-hit a i left e = rw e

search-miss :
    (a : Frames) (i left : ℕ)
    → is_free a ((a.last_search + i) % a.total_frames) ≡ false
    → search a i (suc left) ≡ search a (suc i) left
unfolding search
search-miss a i left e = rw e

search-some :
    (a : Frames) (i left : ℕ) {idx : ℕ}
    → 0 < a.total_frames
    → search a i left ≡ some idx
    → (idx < a.total_frames) × (a.used idx ≡ false)
search-some a i zero h e = absurd (unfold search in cc e)
search-some a i (suc left) {idx} h e =
    elim (Bool-cases (is_free a ((a.last_search + i) % a.total_frames))) [
      | inl f ↦
          let at = some_inj (sym (search-hit a i left f) ∙ e) in
          (omega arith, subst (λ k. a.used k ≡ false) at (ground arith))
      | inr f ↦ search-some a (suc i) left h (sym (search-miss a i left f) ∙ e)
    ]

search-none :
    (a : Frames) (i left m : ℕ)
    → search a i left ≡ none
    → i ≤ m
    → m < i + left
    → a.used ((a.last_search + m) % a.total_frames) ≡ true
search-none a i zero m e le lt = absurd (omega arith)
search-none a i (suc left) m e le lt =
    elim (Bool-cases (is_free a ((a.last_search + i) % a.total_frames))) [
      | inl f ↦ absurd (cc (sym (search-hit a i left f) ∙ e))
      | inr f ↦ elim (Bool-cases (i == m)) [
        | inl same ↦
            let e' : i ≡ m = ground arith in
            subst (λ k. a.used ((a.last_search + k) % a.total_frames) ≡ true) e' (ground arith)
        | inr other ↦
            search-none a (suc i) left m (sym (search-miss a i left f) ∙ e) (ground arith)
              (omega arith)
      ]
    ]

-- No frame of the covered memory is free.
abbrev pub IsFull : Frames → Type 0
IsFull a = (i : ℕ) → i < a.total_frames → a.used i ≡ true

search-none-IsFull : (a : Frames) → search a 0 a.total_frames ≡ none → IsFull a
search-none-IsFull a e i lt =
    let (m, m_lt, at) = cycle_covers a.last_search a.total_frames i lt in
    subst (λ k. a.used k ≡ true) at (search-none a 0 a.total_frames m e (omega arith) (omega arith))

pub IsValid-IsScrubbed : (a : Frames) → IsValid a → IsScrubbed a
IsValid-IsScrubbed a v = record { zeroed_clean = v.zeroed_clean; used_unmarked = v.used_unmarked }

take_frame-IsValid :
    (idx : ℕ) (a : Frames)
    → IsValid a
    → a.used idx ≡ false
    → idx < a.total_frames
    → IsValid (take_frame idx a)
unfolding mark
take_frame-IsValid idx a v free lt =
    let s = mark-IsScrubbed idx a (IsValid-IsScrubbed a v) in
    record {
      covered = v.covered;
      counted = omega (arith, v.counted, count-update_used a.used idx a.total_frames free lt);
      zeroed_clean = s.zeroed_clean;
      used_unmarked = s.used_unmarked;
    }

-- Either a free frame inside the memory is handed out, holding only zeros, or every frame is used
-- and nothing changes.
pub Allocates : Frames → Option ℕ × Frames → Type 0
Allocates a r =
    ((idx : ℕ) × (idx < a.total_frames)
      × (a.used idx ≡ false)
      × (r ≡ (some (idx * frame_size), take_frame idx a))
      × (r.1.clean idx ≡ true)
      × IsValid r.1)
    ⊎ (IsFull a × (r ≡ (none, a)))

-- On a valid allocator, either a free frame inside the memory is handed out, holds only zeros and
-- leaves the allocator valid, or every frame is used, none is returned and nothing changes.
pub allocate_zeroed_frame_lem : (a : Frames) → IsValid a → Allocates a (allocate_zeroed_frame a)
unfolding Allocates allocate_zeroed_frame
allocate_zeroed_frame_lem a v = elim (Option-cases (search a 0 a.total_frames)) [
  | inl e ↦ inr (search-none-IsFull a e, rw (e, allocate_zeroed_frame))
  | inr (idx, e) ↦
      let some_frames : 0 < a.total_frames = nonempty a.total_frames e in
      let (lt, free) = search-some a 0 a.total_frames some_frames e in
      rw (e, allocate_zeroed_frame)
        (inl (
          idx,
          lt,
          free,
          refl,
          mark-clean idx a (IsValid-IsScrubbed a v) free,
          take_frame-IsValid idx a v free lt,
        ))
]
  where
    nonempty : (n : ℕ) {idx : ℕ} → search a 0 n ≡ some idx → 0 < n
    nonempty zero e = absurd (unfold search in cc e)
    nonempty (suc n) e = omega arith

give_back-IsValid :
    (idx : ℕ) (a : Frames)
    → IsValid a
    → a.used idx ≡ true
    → idx < a.total_frames
    → IsValid (give_back idx a)
give_back-IsValid idx a v taken lt = record {
  covered = v.covered;
  counted = omega (arith, v.counted, count-update_free a.used idx a.total_frames taken lt);
  zeroed_clean = λ i free zero_bit. ground (arith, v.zeroed_clean i);
  used_unmarked = λ i still. ground (arith, v.used_unmarked i);
}

-- Either frame `idx` was free and nothing changes, or it becomes free and zero, the count of free
-- frames goes up by one and every other frame stays as it was.
pub Frees : ℕ → Frames → Frames → Type 0
Frees idx a b =
    ((a.used idx ≡ false) × (b ≡ a))
    ⊎ ((a.used idx ≡ true)
        × (b.used idx ≡ false)
        × (b.clean idx ≡ true)
        × (b.free_frames ≡ a.free_frames + 1)
        × ((i : ℕ) → i ≢ idx → (b.used i ≡ a.used i) × (b.clean i ≡ a.clean i)))

-- On a valid allocator, freeing a frame inside the memory returns and keeps the allocator valid;
-- the frame is then free and holds only zeros unless it was free before, in which case nothing
-- changes, and every other frame stays as it was.
pub deallocate_frame_lem :
    (idx : ℕ) (a : Frames)
    → IsValid a
    → idx < a.total_frames
    → (b : Frames) × (deallocate_frame (idx * frame_size) a ≡ some b) × IsValid b × Frees idx a b
unfolding deallocate_frame Frees
deallocate_frame_lem idx a v lt =
    let back : idx * 4096 / 4096 ≡ idx = omega arith in
    let aligned : (idx * 4096 % 4096 == 0) ≡ true = ground arith in
    let inside : ltb idx a.total_frames ≡ true = ground arith in
    elim (Bool-cases (is_free a idx)) [
      | inl free ↦ (a, rw (back, aligned, inside, free), v, inl (ground arith, refl))
      | inr taken ↦ (
        give_back idx a,
        rw (back, aligned, inside, taken),
        give_back-IsValid idx a v (ground arith) lt,
        inr (ground arith, ground arith, ground arith, refl, λ i ne. (ground arith, ground arith)),
      )
    ]

-- A physical address that no frame of the memory begins at is refused.
pub deallocate_frame-panics :
    (phys : ℕ) (a : Frames)
    → (phys % frame_size ≢ 0) ⊎ (a.total_frames ≤ phys / frame_size)
    → deallocate_frame phys a ≡ none
unfolding deallocate_frame
deallocate_frame-panics phys a h = ground arith
