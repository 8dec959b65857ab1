-- ===== src/Frames/Runs.antt =====
-- Marking a run of adjacent frames used.
use mmurtl_rs.Base.{
  ℕ, zero, suc, ◌+◌, ◌-◌, ◌≤◌, ◌<◌, ◌≡◌, ◌≢◌, refl, sym, ◌∙◌, subst, ◌⊎◌, inl, inr, true, ◌==◌,
  arith, Bool-cases,
}
use mmurtl_rs.Frames.{Frames, count_free, mark, mark_all, take_run}
use mmurtl_rs.Frames.Counts.{IsValid, count-update_used}
use mmurtl_rs.Frames.Single.{IsScrubbed, mark-IsScrubbed, mark-clean, IsValid-IsScrubbed}
use mmurtl_rs.Frames.Contiguous.{IsFreeRun}

-- The frames from `first` on, `count` of them, are used and hold only zeros, and the rest is
-- as before.
pub record IsMarked (first count : ℕ) (a b : Frames) : Type 0 where
  pub taken : (i : ℕ) → first ≤ i → i < first + count → (b.used i ≡ true) × (b.clean i ≡ true)
  pub others :
      (i : ℕ) → (i < first) ⊎ (first + count ≤ i) → (b.used i ≡ a.used i) × (b.clean i ≡ a.clean i)
  pub total : b.total_frames ≡ a.total_frames

-- The counters that `mark_all` leaves alone, and the frames that it takes from the free ones.
record Counted (count : ℕ) (a b : Frames) : Type 0 where
  free_same : b.free_frames ≡ a.free_frames
  fewer : count_free b.used a.total_frames + count ≡ count_free a.used a.total_frames

mark-outside :
    (idx i : ℕ) (a : Frames)
    → i ≢ idx
    → ((mark idx a).used i ≡ a.used i) × ((mark idx a).clean i ≡ a.clean i)
unfolding mark
mark-outside idx i a ne = (ground arith, ground arith)

mark-used : (idx : ℕ) (a : Frames) → (mark idx a).used idx ≡ true
unfolding mark
mark-used idx a = ground arith

mark-IsFreeRun :
    (idx count : ℕ) (a : Frames)
    → IsFreeRun a idx (suc count)
    → IsFreeRun (mark idx a) (suc idx) count
mark-IsFreeRun idx count a run i le lt =
    (mark-outside idx i a (omega arith)).0 ∙ run i (omega arith) (omega arith)

mark_all-IsScrubbed :
    (first count : ℕ) (a : Frames) → IsScrubbed a → IsScrubbed (mark_all first count a)
unfolding mark_all
mark_all-IsScrubbed first zero a v = v
mark_all-IsScrubbed first (suc count) a v =
    mark_all-IsScrubbed (suc first) count (mark first a) (mark-IsScrubbed first a v)

mark_all-IsMarked :
    (first count : ℕ) (a : Frames)
    → IsScrubbed a
    → IsFreeRun a first count
    → IsMarked first count a (mark_all first count a)
unfolding mark_all
mark_all-IsMarked first zero a v run = record {
  taken = λ i le lt. absurd (omega arith);
  others = λ i out. (refl, refl);
  total = refl;
}
mark_all-IsMarked first (suc count) a v run =
    let m =
      mark_all-IsMarked (suc first) count (mark first a) (mark-IsScrubbed first a v)
        (mark-IsFreeRun first count a run) in
    record {
      taken = λ i le lt. elim (Bool-cases (i == first)) [
        | inl same ↦
            let at : i ≡ first = ground arith in
            let (used_same, clean_same) = m.others first (inl (omega arith)) in
            subst
              (λ k.
                ((mark_all (suc first) count (mark first a)).used k ≡ true)
                × ((mark_all (suc first) count (mark first a)).clean k ≡ true))
              (sym at)
              (
                used_same ∙ mark-used first a,
                clean_same ∙ mark-clean first a v (run first (omega arith) (omega arith)),
              )
        | inr other ↦ m.taken i (ground arith) (omega arith)
      ];
      others = λ i out.
          let (used_same, clean_same) = m.others i (ground arith) in
          let (used_before, clean_before) = mark-outside first i a (ground arith) in
          (used_same ∙ used_before, clean_same ∙ clean_before);
      total = unfold mark in m.total;
    }

mark_all-Counted :
    (first count : ℕ) (a : Frames)
    → IsFreeRun a first count
    → first + count ≤ a.total_frames
    → Counted count a (mark_all first count a)
unfolding mark_all mark
mark_all-Counted first zero a run lt = record { free_same = refl; fewer = omega arith }
mark_all-Counted first (suc count) a run lt =
    let m =
      mark_all-Counted (suc first) count (mark first a) (mark-IsFreeRun first count a run)
        (omega arith) in
    record {
      free_same = m.free_same;
      fewer = omega (
        arith,
        m.fewer,
        count-update_used a.used first a.total_frames (run first (omega arith) (omega arith))
            (omega arith),
      );
    }

-- The run of frames is handed out: it was free, it lies inside the memory, it is used and holds
-- only zeros afterwards, nothing else changes but the count of free frames, which drops by it.
pub record Takes (first count : ℕ) (a b : Frames) : Type 0 where
  pub inside : first + count ≤ a.total_frames
  pub was_free : IsFreeRun a first count
  pub marked : IsMarked first count a b
  pub fewer : b.free_frames + count ≡ a.free_frames
  pub valid : IsValid b

pub take_run-Takes :
    (first count : ℕ) (a : Frames)
    → IsValid a
    → first + count ≤ a.total_frames
    → IsFreeRun a first count
    → Takes first count a (take_run first count a)
unfolding take_run
take_run-Takes first count a v lt run =
    let m = mark_all-IsMarked first count a (IsValid-IsScrubbed a v) run in
    let n = mark_all-Counted first count a run lt in
    let s = mark_all-IsScrubbed first count a (IsValid-IsScrubbed a v) in
    record {
      inside = lt;
      was_free = run;
      marked = record { taken = m.taken; others = m.others; total = m.total };
      fewer = omega (arith, n.free_same, n.fewer, v.counted);
      valid = record {
        covered = omega (arith, v.covered, m.total);
        counted = counted_after m n;
        zeroed_clean = s.zeroed_clean;
        used_unmarked = s.used_unmarked;
      };
    }
  where
    counted_after :
        IsMarked first count a (mark_all first count a)
        → Counted count a (mark_all first count a)
        → (take_run first count a).free_frames
          ≡ count_free (take_run first count a).used (take_run first count a).total_frames
    counted_after m n =
        subst
          (λ k.
            (mark_all first count a).free_frames - count
            ≡ count_free (mark_all first count a).used k)
          (sym m.total) (omega (arith, n.free_same, n.fewer, v.counted))
