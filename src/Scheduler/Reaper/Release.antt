-- ===== src/Scheduler/Reaper/Release.antt =====
-- What `collect_exited` hands out, and that observers lose sight of no task meanwhile.
use mmurtl_rs.Base.{
  ℕ, ◌+◌, ◌-◌, ◌≤◌, ◌≡◌, inl, inr, true, false, List, [], ◌∷◌, length, ◌==◌, if◌then◌else◌, arith,
  Bool-cases,
}
use mmurtl_rs.Scheduler.{Task, Kernel}
use mmurtl_rs.Scheduler.Reaper.{
  is_dead, reapable, released, collect, collect_exited, count_unreaped, unreaped_tasks,
  finish_batch,
}

-- The dead tasks of the queue, in order.
abbrev pub dead : List Task → List Task
dead [] = []
dead (t ∷ ts) = if is_dead t then t ∷ dead ts else dead ts

pub collect-skip :
    (room : ℕ) (t : Task) (ts : List Task)
    → is_dead t ≡ false
    → collect room (t ∷ ts) ≡ (t ∷ (collect room ts).0, (collect room ts).1)
unfolding collect
collect-skip room t ts e = rw e

pub collect-full :
    (room : ℕ) (t : Task) (ts : List Task)
    → is_dead t ≡ true
    → (room == 0) ≡ true
    → collect room (t ∷ ts) ≡ (t ∷ ts, [])
unfolding collect
collect-full room t ts e f = rw (e, f)

pub collect-take :
    (room : ℕ) (t : Task) (ts : List Task)
    → is_dead t ≡ true
    → (room == 0) ≡ false
    → collect room (t ∷ ts)
      ≡ (released t ∷ (collect (room - 1) ts).0, reapable t ∷ (collect (room - 1) ts).1)
unfolding collect
collect-take room t ts e f = rw (e, f)

count-released :
    (t : Task) (ts us : List Task) (n : ℕ)
    → is_dead t ≡ true
    → count_unreaped us + n ≡ count_unreaped ts
    → count_unreaped (released t ∷ us) + (n + 1) ≡ count_unreaped (t ∷ ts)
unfolding count_unreaped released
count-released t ts us n h e = ground arith

count-kept :
    (t : Task) (ts us : List Task) (n : ℕ)
    → count_unreaped us + n ≡ count_unreaped ts
    → count_unreaped (t ∷ us) + n ≡ count_unreaped (t ∷ ts)
unfolding count_unreaped
count-kept t ts us n e = ground arith

count-collect :
    (room : ℕ) (ts : List Task)
    → count_unreaped (collect room ts).0 + length (collect room ts).1 ≡ count_unreaped ts
count-collect room [] = unfold collect count_unreaped in omega arith
count-collect room (t ∷ ts) = elim (Bool-cases (is_dead t)) [
  | inl e ↦ elim (Bool-cases (room == 0)) [
    | inl f ↦ rw (collect-full room t ts e f) (omega arith)
    | inr f ↦ rw (collect-take room t ts e f) (
        omega (
          arith,
          count-released t ts (collect (room - 1) ts).0 (length (collect (room - 1) ts).1) e
              (count-collect (room - 1) ts),
        ))
  ]
  | inr e ↦
      rw (collect-skip room t ts e)
        (count-kept t ts (collect room ts).0 (length (collect room ts).1) (count-collect room ts))
]

length-collect : (room : ℕ) (ts : List Task) → length (collect room ts).1 ≤ room
length-collect room [] = unfold collect in omega arith
length-collect room (t ∷ ts) = elim (Bool-cases (is_dead t)) [
  | inl e ↦ elim (Bool-cases (room == 0)) [
    | inl f ↦ rw (collect-full room t ts e f) (omega arith)
    | inr f ↦ rw (collect-take room t ts e f) (ground (arith, length-collect (room - 1) ts))
  ]
  | inr e ↦ rw (collect-skip room t ts e) (length-collect room ts)
]

-- A round of the reaper takes at most 16 tasks. While it frees what they held, observers count
-- exactly as many unreaped tasks as before; once the batch is finished, as many fewer as it held.
pub unreaped-collect_exited :
    (k : Kernel)
    → (length (collect_exited k).1 ≤ 16)
      × (unreaped_tasks (collect_exited k).0 ≡ unreaped_tasks k)
      × (unreaped_tasks (finish_batch (collect_exited k).1 (collect_exited k).0)
            + length (collect_exited k).1
          ≡ unreaped_tasks k)
unfolding collect_exited unreaped_tasks finish_batch
unreaped-collect_exited k =
    omega (arith, length-collect 16 k.sched.tasks, count-collect 16 k.sched.tasks)
