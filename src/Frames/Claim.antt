-- ===== src/Frames/Claim.antt =====
-- What `allocate_zeroed_contiguous` and `claim_range` promise on each of their branches.
use mmurtl_rs.Base.{
  ℕ, zero, suc, ◌+◌, ◌-◌, ◌*◌, ◌/◌, ◌%◌, ◌≤◌, ◌<◌, ◌≡◌, refl, sym, ap, subst, ◌⊎◌, inl, inr, Bool,
  true, false, ◌||◌, ◌==◌, ltb, Option, none, some, arith, Bool-cases, Option-cases,
}
use mmurtl_rs.Frames.{
  Frames, frame_size, find_run, take_run, all_free, allocate_zeroed_contiguous, claim_range,
}
use mmurtl_rs.Frames.Counts.{IsValid}
use mmurtl_rs.Frames.Contiguous.{IsFreeRun, Seen, find_run-some, find_run-none}
use mmurtl_rs.Frames.Runs.{Takes, take_run-Takes}

-- Either a run of `count` frames is handed out, or there is none and nothing changes.
pub TakesRun : ℕ → Frames → Option ℕ × Frames → Type 0
TakesRun count a r =
    ((s : ℕ) × (r.0 ≡ some (s * frame_size)) × Takes s count a r.1)
    ⊎ (((s : ℕ) → s + count ≤ a.total_frames → ¬ IsFreeRun a s count) × (r ≡ (none, a)))

unseen : (a : Frames) (count : ℕ) → 0 < count → Seen a count 0 0 0
unseen a count pos = record {
  run = λ i le lt. absurd (omega arith);
  starts = λ e. absurd (ground arith);
  behind = omega arith;
  short = pos;
}

-- On a valid allocator, asking for a positive number of adjacent frames hands out a run that was
-- free, lies inside the memory and is then used and holds only zeros, or, where no such run
-- exists, returns none and changes nothing.
pub allocate_zeroed_contiguous_lem :
    (count : ℕ) (a : Frames)
    → 0 < count
    → IsValid a
    → TakesRun count a (allocate_zeroed_contiguous count a)
unfolding TakesRun allocate_zeroed_contiguous
allocate_zeroed_contiguous_lem count a pos v =
    let some_count : (count == 0) ≡ false = ground arith in
    elim (Option-cases (find_run a count 0 0 0 a.total_frames)) [
      | inl e ↦
          rw (some_count, e, allocate_zeroed_contiguous)
            (inr (
              λ s lt.
                  find_run-none a count 0 0 0 a.total_frames s pos pos e (omega arith)
                    (omega arith),
              refl,
            ))
      | inr (s, e) ↦
          let (lt, run) = find_run-some a count 0 0 0 a.total_frames (unseen a count pos) e in
          rw (some_count, e, allocate_zeroed_contiguous)
            (inl (s, refl, take_run-Takes s count a v (omega arith) run))
    ]

all_free-IsFreeRun :
    (a : Frames) (first count : ℕ) → all_free a first count ≡ true → IsFreeRun a first count
unfolding all_free
all_free-IsFreeRun a first zero e i le lt = absurd (omega arith)
all_free-IsFreeRun a first (suc count) e i le lt = elim (Bool-cases (i == first)) [
  | inl same ↦ ground arith
  | inr other ↦ all_free-IsFreeRun a (suc first) count (ground arith) i (ground arith) (omega arith)
]

IsFreeRun-all_free :
    (a : Frames) (first count : ℕ) → IsFreeRun a first count → all_free a first count ≡ true
unfolding all_free
IsFreeRun-all_free a first zero run = refl
IsFreeRun-all_free a first (suc count) run =
    let head = run first (omega arith) (omega arith) in
    let tail =
      IsFreeRun-all_free a (suc first) count (λ i le lt. run i (omega arith) (omega arith)) in
    ground arith

-- A range can be claimed when it begins at a frame, lies inside the memory and is free.
pub record IsClaimable (start count : ℕ) (a : Frames) : Type 0 where
  pub aligned : start % frame_size ≡ 0
  pub inside : start / frame_size + count ≤ a.total_frames
  pub free : IsFreeRun a (start / frame_size) count

pub Claims : ℕ → ℕ → Frames → Bool × Frames → Type 0
Claims start count a r =
    (IsClaimable start count a × (r.0 ≡ true) × Takes (start / frame_size) count a r.1)
    ⊎ ((¬ IsClaimable start count a) × (r ≡ (false, a)))

-- On a valid allocator, a range is claimed exactly when it begins at a frame, lies inside the
-- memory and is free; it is then used and holds only zeros, and otherwise nothing changes.
pub claim_range_lem :
    (start count : ℕ) (a : Frames) → IsValid a → Claims start count a (claim_range start count a)
unfolding Claims claim_range
claim_range_lem start count a v = elim (Bool-cases (start % 4096 == 0)) [
  | inr odd ↦ inr (λ c. let h = c.aligned in absurd (ground arith), rw odd refl)
  | inl even ↦
      elim (Bool-cases
        (ltb a.total_frames (start / 4096) || ltb (a.total_frames - start / 4096) count)) [
          | inl out ↦ inr (λ c. let h = c.inside in absurd (ground arith), ground arith)
          | inr inside ↦ elim (Bool-cases (all_free a (start / 4096) count)) [
            | inl free ↦
                let run = all_free-IsFreeRun a (start / 4096) count free in
                let lt : start / 4096 + count ≤ a.total_frames = ground arith in
                let t = take_run-Takes (start / 4096) count a v lt run in
                let c : IsClaimable start count a = record {
                  aligned = ground arith;
                  inside = lt;
                  free = run;
                } in
                let e : claim_range start count a ≡ (true, take_run (start / 4096) count a) =
                  ground arith in
                inl (
                  c,
                  ap (λ r. r.0) e,
                  subst (Takes (start / 4096) count a) (sym (ap (λ r. r.1) e)) t,
                )
            | inr taken ↦ inr (
              λ c.
                  let h = IsFreeRun-all_free a (start / 4096) count c.free in
                  absurd (cc (h, taken)),
              ground arith,
            )
          ]
        ]
]
