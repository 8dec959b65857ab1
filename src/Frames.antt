-- ===== src/Frames.antt =====
-- memory/frame_allocator.rs: the bitmap allocator of physical frames.
use mmurtl_rs.Base.{
  ℕ, zero, suc, ◌+◌, ◌-◌, ◌*◌, ◌/◌, ◌%◌, ◌^◌, ◌<◌, min, Bool, true, false, not, ◌&&◌, ◌||◌, ◌==◌,
  leb, ltb, if◌then◌else◌, ◌>>=◌, ◌>>◌, guard, Option, none, some, List, [], ◌∷◌,
}
pub mod Counts
pub mod Single
pub mod Contiguous
pub mod Runs
pub mod Claim
mod Tests

-- FRAME_SIZE, MAX_PHYSICAL_MEMORY, and the frames that the bitmap covers.
abbrev pub frame_size : ℕ
frame_size = 4096

abbrev pub max_physical_memory : ℕ
max_physical_memory = 32 * 1024 * 1024 * 1024

abbrev pub bitmap_bits : ℕ
bitmap_bits = max_physical_memory / frame_size / 32 * 32

-- `used` and `zeroed` are the two bitmaps, read a bit at a time: bit `idx % 32` of word `idx / 32`.
-- `clean` is the memory, as far as this code looks at it: whether a frame holds only zeros.
pub record Frames : Type 0 where
  pub used : ℕ → Bool
  pub zeroed : ℕ → Bool
  pub total_frames : ℕ
  pub free_frames : ℕ
  pub last_search : ℕ
  pub clean : ℕ → Bool

abbrev pub update : (ℕ → Bool) → ℕ → Bool → ℕ → Bool
update f i v j = if i == j then v else f j

pub record PhysRange : Type 0 where
  pub start : ℕ
  pub limit : ℕ

-- Rounding up to whole frames.
abbrev pub frames_up : ℕ → ℕ
frames_up n = (n + frame_size - 1) / frame_size

-- `set_range`: marks frames that overlap the range used, or those that lie inside it free.
unfoldable pub set_range : PhysRange → Bool → (ℕ → Bool) → ℕ → Bool
set_range r mark_used used i =
    let limit = min r.limit max_physical_memory in
    let first = if mark_used then r.start / frame_size else frames_up r.start in
    let last = if mark_used then frames_up limit else limit / frame_size in
    if leb first i && ltb i (min last bitmap_bits) then mark_used else used i

unfoldable pub set_ranges : List PhysRange → Bool → (ℕ → Bool) → ℕ → Bool
set_ranges [] mark_used used = used
set_ranges (r ∷ rs) mark_used used = set_ranges rs mark_used (set_range r mark_used used)

-- The bitmap that `init` builds: all used, then usable ranges free, then reserved ranges and the
-- allocator's own frames used.
unfoldable pub initial_bitmap : List PhysRange → List PhysRange → PhysRange → ℕ → Bool
unfolding set_range set_ranges
initial_bitmap usable reserved own =
    set_range own true (set_ranges reserved true (set_ranges usable false (λ _. true)))

unfoldable pub count_free : (ℕ → Bool) → ℕ → ℕ
count_free used zero = 0
count_free used (suc n) = (if used n then 0 else 1) + count_free used n

abbrev pub is_free : Frames → ℕ → Bool
is_free a idx = not (a.used idx)

-- `mark`: a frame that is not known to be zero is scrubbed first.
unfoldable pub mark : ℕ → Frames → Frames
mark idx a = record a {
  clean = if a.zeroed idx then a.clean else update a.clean idx true;
  zeroed = update a.zeroed idx false;
  used = update a.used idx true;
}

-- The loop of `allocate_zeroed_frame` at round `i`, with `left` rounds to go.
unfoldable pub search : Frames → ℕ → ℕ → Option ℕ
search a i zero = none
search a i (suc left) =
    let idx = (a.last_search + i) % a.total_frames in
    let rest = search a (suc i) left in if is_free a idx then some idx else rest

abbrev pub take_frame : ℕ → Frames → Frames
take_frame idx a = record (mark idx a) { free_frames = a.free_frames - 1; last_search = idx + 1 }

unfoldable pub allocate_zeroed_frame : Frames → Option ℕ × Frames
unfolding search mark
allocate_zeroed_frame a = elim (search a 0 a.total_frames) [
  | some idx ↦ (some (idx * frame_size), take_frame idx a)
  | none ↦ (none, a)
]

-- The loop of `allocate_zeroed_contiguous` from frame `idx` on: the start of a run of `count`.
unfoldable pub find_run : Frames → ℕ → ℕ → ℕ → ℕ → ℕ → Option ℕ
find_run a count idx run_start run_len zero = none
find_run a count idx run_start run_len (suc left) =
    let free = is_free a idx in
    let start = if run_len == 0 then idx else run_start in
    let rest =
      find_run a count (suc idx) (if free then start else run_start)
        (if free then run_len + 1 else 0) left in
    if free && run_len + 1 == count then some start else rest

-- `for i in first..first + count { self.mark(i) }`
unfoldable pub mark_all : ℕ → ℕ → Frames → Frames
unfolding mark
mark_all first zero a = a
mark_all first (suc count) a = mark_all (suc first) count (mark first a)

unfoldable pub take_run : ℕ → ℕ → Frames → Frames
unfolding mark_all
take_run first count a =
    let b = mark_all first count a in record b { free_frames = b.free_frames - count }

unfoldable pub allocate_zeroed_contiguous : ℕ → Frames → Option ℕ × Frames
unfolding find_run take_run
allocate_zeroed_contiguous count a =
    if count == 0 then (none, a) else elim (find_run a count 0 0 0 a.total_frames) [
      | some start ↦ (some (start * frame_size), take_run start count a)
      | none ↦ (none, a)
    ]

unfoldable pub all_free : Frames → ℕ → ℕ → Bool
all_free a first zero = true
all_free a first (suc count) = is_free a first && all_free a (suc first) count

unfoldable pub claim_range : ℕ → ℕ → Frames → Bool × Frames
unfolding all_free take_run
claim_range start count a =
    let first = start / frame_size in
    if not (start % frame_size == 0)
    then (false, a)
    else if ltb a.total_frames first
        || ltb (a.total_frames - first) count
        || not (all_free a first count)
    then (false, a)
    else (true, take_run first count a)

abbrev pub give_back : ℕ → Frames → Frames
give_back idx a = record a {
  clean = update a.clean idx true;
  zeroed = update a.zeroed idx true;
  used = update a.used idx false;
  free_frames = a.free_frames + 1;
}

-- The two `assert!`s panic; freeing a free frame does nothing.
unfoldable pub deallocate_frame : ℕ → Frames → Option Frames
deallocate_frame phys a = do
  let idx = phys / frame_size
  guard (phys % frame_size == 0)
  guard (ltb idx a.total_frames)
  some (if is_free a idx then a else give_back idx a)

-- `scrub_free_memory`, a frame at a time.
unfoldable pub scrub_free_memory : Frames → Frames
scrub_free_memory a =
    let hit = λ (i : ℕ). ltb i a.total_frames && is_free a i in
    record a {
      clean = λ i. if hit i then true else a.clean i;
      zeroed = λ i. if hit i then true else a.zeroed i;
    }
