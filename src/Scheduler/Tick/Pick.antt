-- ===== src/Scheduler/Tick/Pick.antt =====
-- What `pick_next` promises: the next runnable task in round-robin order, or the idle task.
use mmurtl_rs.Base.{
  cycle_covers, ℕ, zero, suc, ◌+◌, ◌≤◌, ◌<◌, ◌%◌, ◌≡◌, sym, ◌∙◌, subst, ap, ◌⊎◌, inl, inr, true,
  false, none, some, some_inj, List, length, Bool-cases, Option-cases, ==_iff, ◌==◌, arith,
}
use mmurtl_rs.Scheduler.{Task, Scheduler}
use mmurtl_rs.Scheduler.Tick.{runnable_at, pick_from, pick_next}

-- The index that the loop visits at an offset.
abbrev pub slot : List Task → ℕ → ℕ → ℕ
slot ts cursor n = (cursor + n) % length ts

pick_from-hit :
    (cpu : ℕ) (ts : List Task) (cursor off left : ℕ)
    → runnable_at cpu ts (slot ts cursor off) ≡ true
    → pick_from cpu ts cursor off (suc left) ≡ some (slot ts cursor off)
unfolding pick_from
pick_from-hit cpu ts cursor off left e = rw e

pick_from-miss :
    (cpu : ℕ) (ts : List Task) (cursor off left : ℕ)
    → runnable_at cpu ts (slot ts cursor off) ≡ false
    → pick_from cpu ts cursor off (suc left) ≡ pick_from cpu ts cursor (suc off) left
unfolding pick_from
pick_from-miss cpu ts cursor off left e = rw e

-- No task among the offsets from `off` up to `n` may run on the CPU.
abbrev pub NoneBefore : ℕ → List Task → ℕ → ℕ → ℕ → Type 0
NoneBefore cpu ts cursor off n =
    (m : ℕ) → off ≤ m → m < n → runnable_at cpu ts (slot ts cursor m) ≡ false

NoneBefore-cons :
    (cpu : ℕ) (ts : List Task) (cursor off n : ℕ)
    → runnable_at cpu ts (slot ts cursor off) ≡ false
    → NoneBefore cpu ts cursor (suc off) n
    → NoneBefore cpu ts cursor off n
NoneBefore-cons cpu ts cursor off n e rest m le lt = elim (Bool-cases (off == m)) [
  | inl same ↦ subst (λ x. runnable_at cpu ts (slot ts cursor x) ≡ false) ((==_iff off m).0 same) e
  | inr other ↦ rest m (ground arith) lt
]

-- The loop returns the index at the first offset whose task may run.
pub pick_from-some :
    (cpu : ℕ) (ts : List Task) (cursor off left : ℕ) {i : ℕ}
    → pick_from cpu ts cursor off left ≡ some i
    → (n : ℕ) × (off ≤ n)
      × (n < off + left)
      × (i ≡ slot ts cursor n)
      × (runnable_at cpu ts i ≡ true)
      × NoneBefore cpu ts cursor off n
pick_from-some cpu ts cursor off zero h = absurd (unfold pick_from in cc h)
pick_from-some cpu ts cursor off (suc left) {i} h =
    elim (Bool-cases (runnable_at cpu ts (slot ts cursor off))) [
      | inl e ↦
          let at : slot ts cursor off ≡ i =
            some_inj (sym (pick_from-hit cpu ts cursor off left e) ∙ h) in
          (
            off,
            omega arith,
            omega arith,
            sym at,
            subst (λ x. runnable_at cpu ts x ≡ true) at e,
            λ m le lt. absurd (omega arith),
          )
      | inr e ↦
          let (n, le, lt, at, ok, before) =
            pick_from-some cpu ts cursor (suc off) left {i = i}
              (sym (pick_from-miss cpu ts cursor off left e) ∙ h) in
          (n, omega arith, omega arith, at, ok, NoneBefore-cons cpu ts cursor off n e before)
    ]

-- It returns nothing only if no offset holds a task that may run.
pub pick_from-none :
    (cpu : ℕ) (ts : List Task) (cursor off left : ℕ)
    → pick_from cpu ts cursor off left ≡ none
    → NoneBefore cpu ts cursor off (off + left)
pick_from-none cpu ts cursor off zero h = λ m le lt. absurd (omega arith)
pick_from-none cpu ts cursor off (suc left) h =
    elim (Bool-cases (runnable_at cpu ts (slot ts cursor off))) [
      | inl e ↦ absurd (cc (sym (pick_from-hit cpu ts cursor off left e) ∙ h))
      | inr e ↦ NoneBefore-cons cpu ts cursor off (off + suc left) e λ m le lt.
          pick_from-none cpu ts cursor (suc off) left
            (sym (pick_from-miss cpu ts cursor off left e) ∙ h) m le (omega arith)
    ]

-- Every index of the queue is visited within one round.
slot_covers :
    (cursor len i : ℕ) → i < len → (m : ℕ) × (1 ≤ m) × (m < 1 + len) × ((cursor + m) % len ≡ i)
slot_covers cursor len i h =
    let (m, lt, at) = cycle_covers (cursor + 1) len i h in
    let e : cursor + (1 + m) ≡ cursor + 1 + m = omega arith in
    (1 + m, omega arith, omega arith, ap (λ (x : ℕ). x % len) e ∙ at)

-- The choice `r` is the first runnable task after the cursor, or the idle task where none may run.
abbrev pub PicksNext : ℕ → ℕ → Scheduler → ℕ × ℕ → Type 0
PicksNext cpu idle s r =
    ((n : ℕ) × (1 ≤ n)
      × (n < 1 + length s.tasks)
      × (r ≡ (slot s.tasks s.rr_cursor n, slot s.tasks s.rr_cursor n))
      × (runnable_at cpu s.tasks (slot s.tasks s.rr_cursor n) ≡ true)
      × NoneBefore cpu s.tasks s.rr_cursor 1 n)
    ⊎ ((r ≡ (idle, s.rr_cursor))
        × ((i : ℕ) → i < length s.tasks → runnable_at cpu s.tasks i ≡ false))

-- `pick_next` takes the runnable task that comes first after the cursor and moves the cursor there;
-- where no task of the queue may run it takes the idle task and leaves the cursor alone.
pub pick_next_lem : (cpu idle : ℕ) (s : Scheduler) → PicksNext cpu idle s (pick_next cpu idle s)
unfolding pick_next
pick_next_lem cpu idle s =
    elim (Option-cases (pick_from cpu s.tasks s.rr_cursor 1 (length s.tasks))) [
      | inl e ↦ inr (
        rw (e, pick_next),
        λ i lt.
            let (m, le, below, at) = slot_covers s.rr_cursor (length s.tasks) i lt in
            subst (λ x. runnable_at cpu s.tasks x ≡ false) at
              (pick_from-none cpu s.tasks s.rr_cursor 1 (length s.tasks) e m le below),
      )
      | inr (i, e) ↦
          let (n, le, lt, at, ok, before) =
            pick_from-some cpu s.tasks s.rr_cursor 1 (length s.tasks) e in
          inl (
            n,
            le,
            lt,
            rw (e, pick_next, at),
            subst (λ x. runnable_at cpu s.tasks x ≡ true) at ok,
            before,
          )
    ]
