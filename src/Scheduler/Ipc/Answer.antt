-- ===== src/Scheduler/Ipc/Answer.antt =====
-- What replying and exiting do to the run queue.
use mmurtl_rs.Base.{
  ℕ, ◌≡◌, ◌≢◌, refl, sym, ap, ◌∙◌, inl, inr, true, false, Option, none, some, List, [], ◌∷◌,
  get_elem?, set, map, arith, Bool-cases, Option-cases, get_elem?-set_ne, get_elem?-set_self,
  get_elem?-lt, if◌then◌else◌, get_elem?-map, get_elem?-map-some, set_cases,
}
use mmurtl_rs.Rqb.{Rqb, RqbStatus}
use mmurtl_rs.Scheduler.{TaskState, Task, Scheduler, with_tasks, current_idx}
use mmurtl_rs.Scheduler.Tasks.{find_idle_cpu, find_live}
use mmurtl_rs.Scheduler.Ipc.{
  Outcome, delivered, refused, stamp, awaits, post_reply, aborted_notice, abort_waiter, or_else,
  abort_waiters, exit_task, mark_exited,
}
use mmurtl_rs.Scheduler.Ipc.Deliver.{readied, make_ready_lem, find_live-some}

abbrev pub answered : Rqb → Task → Task
answered m w = record w { reply = some m; state = TaskState.ready }

-- What `post_reply` may do, for the task `t` that runs on the calling CPU.
pub data Replied (s : Scheduler) (t : Task) (sender : ℕ) (msg : Rqb)
    : Outcome → Scheduler → Type 0 where
  gone : find_live sender s.tasks ≡ none → Replied s t sender msg (refused RqbStatus.not_found) s
  not_waiting :
      (si : ℕ) (w : Task)
      → find_live sender s.tasks ≡ some si
      → get_elem? s.tasks si ≡ some w
      → awaits t.id w ≡ false
      → Replied s t sender msg (refused RqbStatus.invalid_param) s
  replied :
      (si : ℕ) (w : Task) (kick : Option ℕ) (ts : List Task)
      → find_live sender s.tasks ≡ some si
      → get_elem? s.tasks si ≡ some w
      → awaits t.id w ≡ true
      → get_elem? ts si ≡ some (answered (stamp t.id sender msg) w)
      → ((j : ℕ) → j ≢ si → get_elem? ts j ≡ get_elem? s.tasks j)
      → Replied s t sender msg (delivered kick) (with_tasks ts s)

readied_answer :
    (my_id : ℕ) (m : Rqb) (w : Task)
    → awaits my_id w ≡ true
    → readied TaskState.waiting_reply (record w { reply = some m }) ≡ answered m w
readied_answer my_id m w h = ground arith

-- `post_reply` always returns. It refuses with NotFound a reply to no live task, and with
-- InvalidParam one to a task that does not wait for this task's answer or has it already, changing
-- nothing. Otherwise it puts the stamped reply into the sender's slot, makes the sender ready, and
-- touches no other task.
pub post_reply_lem :
    (cpu sender : ℕ) (msg : Rqb) {s : Scheduler} {me : ℕ} {t : Task}
    → current_idx s cpu ≡ some me
    → get_elem? s.tasks me ≡ some t
    → (o : Outcome) × (s' : Scheduler) × (post_reply cpu sender msg s ≡ some (o, s'))
      × Replied s t sender msg o s'
unfolding post_reply
post_reply_lem cpu sender msg {s} {me} {t} cur t_at =
    elim (Option-cases (find_live sender s.tasks)) [
      | inl f ↦ (refused RqbStatus.not_found, s, rw (cur, t_at, f), gone f)
      | inr (si, f) ↦
          let (w, w_at, same, alive) = find_live-some sender s.tasks f in
          elim (Bool-cases (awaits t.id w)) [
            | inl yes_waits ↦
                let full = record w { reply = some (stamp t.id sender msg) } in
                let (kick, ts, made, si_after, others) =
                  make_ready_lem si TaskState.waiting_reply cpu (with_tasks (set s.tasks si full) s)
                    (get_elem?-set_self s.tasks si full (get_elem?-lt s.tasks si w_at)) in
                (
                  delivered kick,
                  with_tasks ts s,
                  rw (cur, t_at, f, w_at, yes_waits, made),
                  replied si w kick ts f w_at yes_waits
                      (si_after ∙ ap {B = Option Task} some (readied_answer t.id _ w yes_waits))
                      (λ j ne. others j ne ∙ get_elem?-set_ne s.tasks si j full (λ e. ne (sym e))),
                )
            | inr no_waits ↦ (
              refused RqbStatus.invalid_param,
              s,
              rw (cur, t_at, f, w_at, no_waits),
              not_waiting si w f w_at no_waits,
            )
          ]
    ]

-- The loop of `mark_exited` is a map over the run queue.
pub abort_waiters-map :
    (my_id : ℕ) (idle : Option ℕ) (ts : List Task) (kick : Option ℕ)
    → (abort_waiters my_id idle ts kick).0 ≡ map (abort_waiter my_id) ts
unfolding abort_waiters
abort_waiters-map my_id idle [] kick = refl
abort_waiters-map my_id idle (t ∷ ts) kick =
    ap (λ (r : List Task). abort_waiter my_id t ∷ r)
      (abort_waiters-map my_id idle ts (if awaits my_id t then or_else kick idle else kick))

awaits-abort_waiter : (my_id : ℕ) (t : Task) → awaits my_id (abort_waiter my_id t) ≡ false
unfolding abort_waiter
awaits-abort_waiter my_id t = ground arith

abort_waiter-exit : (my_id : ℕ) (t : Task) → abort_waiter my_id (exit_task t) ≡ exit_task t
unfolding abort_waiter
abort_waiter-exit my_id t = refl

abort_waiter-awaits :
    (my_id : ℕ) (w : Task)
    → awaits my_id w ≡ true
    → abort_waiter my_id w ≡ answered (aborted_notice my_id w.id) w
unfolding abort_waiter
abort_waiter-awaits my_id w h = rw h

abort_waiter-other : (my_id : ℕ) (w : Task) → awaits my_id w ≡ false → abort_waiter my_id w ≡ w
unfolding abort_waiter
abort_waiter-other my_id w h = rw h

-- `mark_exited` always returns, and its queue is a map over the old one.
pub mark_exited-map :
    (cpu : ℕ) (s : Scheduler) {me : ℕ} {t : Task}
    → current_idx s cpu ≡ some me
    → get_elem? s.tasks me ≡ some t
    → (kick : Option ℕ) × (mark_exited cpu s
        ≡ some (kick, with_tasks (map (abort_waiter t.id) (set s.tasks me (exit_task t))) s))
unfolding mark_exited
mark_exited-map cpu s {me} {t} cur t_at =
    let stopped = set s.tasks me (exit_task t) in
    let idle = find_idle_cpu cpu s in
    (
      (abort_waiters t.id idle stopped none).1,
      rw (cur, t_at)
          (ap {B = Option (Option ℕ × Scheduler)}
            (λ (ts : List Task). some ((abort_waiters t.id idle stopped none).1, with_tasks ts s))
            (abort_waiters-map t.id idle stopped none)),
    )

-- What an exit leaves at each index of the run queue.
pub record Exits (s : Scheduler) (me : ℕ) (t : Task) (ts : List Task) : Type 0 where
  pub itself : get_elem? ts me ≡ some (exit_task t)
  pub aborted :
      (i : ℕ) (w : Task)
      → i ≢ me
      → get_elem? s.tasks i ≡ some w
      → awaits t.id w ≡ true
      → get_elem? ts i ≡ some (answered (aborted_notice t.id w.id) w)
  pub others :
      (i : ℕ) (w : Task)
      → i ≢ me
      → get_elem? s.tasks i ≡ some w
      → awaits t.id w ≡ false
      → get_elem? ts i ≡ some w
  pub known :
      (i : ℕ) (u : Task) → get_elem? ts i ≡ some u → (w : Task) × (get_elem? s.tasks i ≡ some w)
  pub nobody_waits : (i : ℕ) (u : Task) → get_elem? ts i ≡ some u → awaits t.id u ≡ false

-- `mark_exited` always returns. The task is exited with an empty inbox; each task that waited for
-- its answer is ready with an Aborted notice in its slot; no task is left waiting for its answer;
-- and every other task is as it was.
pub mark_exited_lem :
    (cpu : ℕ) {s : Scheduler} {me : ℕ} {t : Task}
    → current_idx s cpu ≡ some me
    → get_elem? s.tasks me ≡ some t
    → (kick : Option ℕ) × (ts : List Task) × (mark_exited cpu s ≡ some (kick, with_tasks ts s))
      × Exits s me t ts
mark_exited_lem cpu {s} {me} {t} cur t_at =
    let (kick, done) = mark_exited-map cpu s cur t_at in
    let stopped = set s.tasks me (exit_task t) in
    let mapped = λ (i : ℕ) (w : Task) (at : get_elem? stopped i ≡ some w).
      get_elem?-map-some (abort_waiter t.id) stopped i at in
    let elsewhere =
      λ (i : ℕ) (ne : i ≢ me). get_elem?-set_ne s.tasks me i (exit_task t) (λ e. ne (sym e)) in
    (
      kick,
      map (abort_waiter t.id) stopped,
      done,
      record {
        itself =
            mapped me (exit_task t)
              (get_elem?-set_self s.tasks me (exit_task t) (get_elem?-lt s.tasks me t_at))
            ∙ ap {B = Option Task} some (abort_waiter-exit t.id t);
        aborted = λ i w ne at waits.
            mapped i w (elsewhere i ne ∙ at)
            ∙ ap {B = Option Task} some (abort_waiter-awaits t.id w waits);
        others = λ i w ne at waits.
            mapped i w (elsewhere i ne ∙ at)
            ∙ ap {B = Option Task} some (abort_waiter-other t.id w waits);
        known = λ i u at.
            let (w, w_at, e) = get_elem?-map (abort_waiter t.id) stopped i at in
            elim (set_cases s.tasks me i (exit_task t) w_at) [
              | inl (same, f) ↦ (t, ap (get_elem? s.tasks) (sym same) ∙ t_at)
              | inr (ne, old) ↦ (w, old)
            ];
        nobody_waits = λ i u at.
            let (w, w_at, e) = get_elem?-map (abort_waiter t.id) stopped i at in
            rw e (awaits-abort_waiter t.id w);
      },
    )
