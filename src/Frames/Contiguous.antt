-- ===== src/Frames/Contiguous.antt =====
-- The scan of `allocate_zeroed_contiguous` for a run of free frames.
use mmurtl_rs.Base.{
  ℕ, zero, suc, ◌+◌, ◌-◌, ◌≤◌, ◌<◌, ◌≡◌, refl, sym, ◌∙◌, inl, inr, true, false, ◌==◌, leb,
  if◌then◌else◌, none, some, some_inj, arith, Bool-cases,
}
use mmurtl_rs.Frames.{Frames, is_free, find_run}

-- `count` frames from `s` on are free.
abbrev pub IsFreeRun : Frames → ℕ → ℕ → Type 0
IsFreeRun a s count = (i : ℕ) → s ≤ i → i < s + count → a.used i ≡ false

-- What the loop has seen: the frames just before `idx` that are free.
pub record Seen (a : Frames) (count idx run_start run_len : ℕ) : Type 0 where
  pub run : IsFreeRun a (idx - run_len) run_len
  pub starts : (run_len == 0) ≡ false → run_start + run_len ≡ idx
  pub behind : run_len ≤ idx
  pub short : run_len < count

module _ (a : Frames) (count : ℕ) where
  find-used :
      (idx run_start run_len left : ℕ)
      → is_free a idx ≡ false
      → find_run a count idx run_start run_len (suc left)
        ≡ find_run a count (suc idx) run_start 0 left
  unfolding find_run
  find-used idx run_start run_len left e = rw e refl

  find-free :
      (idx run_start run_len left : ℕ)
      → is_free a idx ≡ true
      → (run_len + 1 == count) ≡ false
      → find_run a count idx run_start run_len (suc left)
        ≡ find_run a count (suc idx) (if run_len == 0 then idx else run_start) (run_len + 1) left
  unfolding find_run
  find-free idx run_start run_len left e f = rw (e, f) refl

  find-done :
      (idx run_start run_len left : ℕ)
      → is_free a idx ≡ true
      → (run_len + 1 == count) ≡ true
      → find_run a count idx run_start run_len (suc left)
        ≡ some (if run_len == 0 then idx else run_start)
  unfolding find_run
  find-done idx run_start run_len left e f = rw (e, f) refl

  Seen-used : (idx run_start run_len : ℕ) → 0 < count → Seen a count (suc idx) run_start 0
  Seen-used idx run_start run_len pos = record {
    run = λ i le lt. absurd (omega arith);
    starts = λ e. absurd (ground arith);
    behind = omega arith;
    short = pos;
  }

  Seen-free :
      (idx run_start run_len : ℕ)
      → Seen a count idx run_start run_len
      → is_free a idx ≡ true
      → (run_len + 1 == count) ≡ false
      → Seen a count (suc idx) (if run_len == 0 then idx else run_start) (run_len + 1)
  Seen-free idx run_start run_len v e f = record {
    run = λ i le lt. elim (Bool-cases (i == idx)) [
      | inl same ↦ ground arith
      | inr other ↦ v.run i (omega arith) (ground (arith, v.behind))
    ];
    starts = λ g. ground (arith, v.starts);
    behind = omega (arith, v.behind);
    short = ground (arith, v.short);
  }

  -- A run that is found is free and ends inside the memory.
  pub find_run-some :
      (idx run_start run_len left : ℕ) {s : ℕ}
      → Seen a count idx run_start run_len
      → find_run a count idx run_start run_len left ≡ some s
      → (s + count ≤ idx + left) × IsFreeRun a s count
  find_run-some idx run_start run_len zero v e = absurd (unfold find_run in cc e)
  find_run-some idx run_start run_len (suc left) {s} v e = elim (Bool-cases (is_free a idx)) [
    | inr taken ↦
        let (le, run) =
          find_run-some (suc idx) run_start 0 left
            (Seen-used idx run_start run_len (omega (arith, v.short)))
            (sym (find-used idx run_start run_len left taken) ∙ e) in
        (omega arith, run)
    | inl free ↦ elim (Bool-cases (run_len + 1 == count)) [
      | inr more ↦
          let (le, run) =
            find_run-some (suc idx) (if run_len == 0 then idx else run_start) (run_len + 1) left
              (Seen-free idx run_start run_len v free more)
              (sym (find-free idx run_start run_len left free more) ∙ e) in
          (omega arith, run)
      | inl done ↦
          let at : (if run_len == 0 then idx else run_start) ≡ s =
            some_inj (sym (find-done idx run_start run_len left free done) ∙ e) in
          let begins : s + run_len ≡ idx = ground (arith, v.starts) in
          (
            ground arith,
            λ i le lt. elim (Bool-cases (i == idx)) [
              | inl same ↦ ground arith
              | inr other ↦ v.run i (omega arith) (ground (arith, v.behind))
            ],
          )
    ]
  ]

  -- Where none is found there is no free run that begins among the frames still to be seen.
  pub find_run-none :
      (idx run_start run_len left s : ℕ)
      → 0 < count
      → run_len < count
      → find_run a count idx run_start run_len left ≡ none
      → idx ≤ s + run_len
      → s + count ≤ idx + left
      → ¬ IsFreeRun a s count
  find_run-none idx run_start run_len zero s pos short e le lt run = absurd (omega arith)
  find_run-none idx run_start run_len (suc left) s pos short e le lt run =
      elim (Bool-cases (is_free a idx)) [
        | inr taken ↦ elim (Bool-cases (leb s idx)) [
          | inl within ↦
              let free : a.used idx ≡ false = run idx (ground arith) (omega arith) in
              absurd (ground arith)
          | inr ahead ↦
              find_run-none (suc idx) run_start 0 left s pos pos
                (sym (find-used idx run_start run_len left taken) ∙ e) (ground arith) (omega arith)
                run
        ]
        | inl free ↦ elim (Bool-cases (run_len + 1 == count)) [
          | inl done ↦ absurd (cc (sym (find-done idx run_start run_len left free done) ∙ e))
          | inr more ↦
              find_run-none (suc idx) (if run_len == 0 then idx else run_start) (run_len + 1) left s
                pos (ground arith) (sym (find-free idx run_start run_len left free more) ∙ e)
                (omega arith) (omega arith) run
        ]
      ]
