-- ===== src/Scheduler/Ipc/Preserve.antt =====
-- The message passing, sleeping and reaping keep the scheduler valid, and never panic.
use mmurtl_rs.Base.{
  ℕ, ◌≡◌, refl, sym, ap, ◌∙◌, inl, inr, Bool, true, false, Option, none, some, List, [], ◌∷◌,
  get_elem?, set, map, arith, Bool-cases, >>=-eq-some, ◌==◌, ◌-◌,
}
use mmurtl_rs.Rqb.{Rqb}
use mmurtl_rs.Scheduler.{TaskState, same_state, Task, PerCpu, Scheduler, with_tasks, current_idx}
use mmurtl_rs.Scheduler.Keeps.{
  Keep, Keep-refl, Keeps, Keeps-refl, Keeps-set, Keeps-map, Keeps-trans, changed-Steady,
  on_cpu-Keep,
}
use mmurtl_rs.Scheduler.Invariant.{IsValid, Steady-IsValid, Keeps-IsValid}
use mmurtl_rs.Scheduler.Tick.{sleep_until}
use mmurtl_rs.Scheduler.Reaper.{collect, is_dead, released}
use mmurtl_rs.Scheduler.Ipc.{
  Outcome, await_reply, enqueue, awaits, pop_request, take_request, abort_waiter, exit_task,
  mark_exited, collect_reply, take_reply,
}
use mmurtl_rs.Scheduler.Ipc.Deliver.{readied, Posted, to_itself, to_nobody, inbox_full, posted}
use mmurtl_rs.Scheduler.Ipc.Answer.{answered, Replied, gone, not_waiting, replied, mark_exited-map}

-- Waking a task out of a state in which it neither runs nor is dead.
readied-Keep :
    (from : TaskState) (t : Task)
    → (same_state TaskState.exited from ≡ true → ⊥)
    → (u : Task) → u.id ≡ t.id
    → u.pinned_cpu ≡ t.pinned_cpu
    → u.on_cpu ≡ t.on_cpu
    → u.state ≡ t.state
    → u.reaped ≡ t.reaped
    → Keep t (readied from u)
readied-Keep from t live u id pin cpu state reaped = elim (Bool-cases (same_state u.state from)) [
  | inl e ↦ rw e (record {
    same_id = id;
    same_pin = pin;
    same_cpu = cpu;
    running_before = λ h. cc;
    exit_unpinned = λ h. cc;
    reaped_dead = λ d r.
        absurd (live (ap (λ x. same_state x from) (sym (d (sym reaped ∙ r)).0 ∙ sym state) ∙ e));
  })
  | inr e ↦ rw e (record {
    same_id = id;
    same_pin = pin;
    same_cpu = cpu;
    running_before = λ h. sym state ∙ h;
    exit_unpinned = λ h. inl (sym state ∙ h);
    reaped_dead = λ d r. let (dead, off) = d (sym reaped ∙ r) in (state ∙ dead, cpu ∙ off);
  })
]

answered-Keep : (my_id : ℕ) (m : Rqb) (w : Task) → awaits my_id w ≡ true → Keep w (answered m w)
answered-Keep my_id m w h = record {
  same_id = refl;
  same_pin = refl;
  same_cpu = refl;
  running_before = λ e. cc;
  exit_unpinned = λ e. cc;
  reaped_dead = λ d r. absurd (ground (arith, (d r).0));
}

pub Posted-IsValid :
    {s : Scheduler} {me : ℕ} {t : Task} {receiver : ℕ} {msg : Rqb} {o : Outcome} {s' : Scheduler}
    → get_elem? s.tasks me ≡ some t
    → (c : ℕ) → t.on_cpu ≡ some c
    → Posted s me t receiver msg o s'
    → IsValid s
    → IsValid s'
Posted-IsValid t_at c on (to_itself e) v = v
Posted-IsValid t_at c on (to_nobody ne e) v = v
Posted-IsValid t_at c on (inbox_full ri r ne f at full) v = v
Posted-IsValid {s} {me} {t} {receiver} t_at c on (posted ri r kick ts f r_at ne room me' ri' others)
      v =
    Steady-IsValid s ts
      (changed-Steady s.tasks ts me ri t_at r_at me' ri'
        (on_cpu-Keep t (await_reply receiver t) on refl refl refl (λ h. cc) (λ h. cc) refl)
        (readied-Keep TaskState.waiting_rqb r (λ h. cc) (enqueue _ r) refl refl refl refl refl)
        others)
      v

pub Replied-IsValid :
    {s : Scheduler} {t : Task} {sender : ℕ} {msg : Rqb} {o : Outcome} {s' : Scheduler}
    → Replied s t sender msg o s'
    → IsValid s
    → IsValid s'
Replied-IsValid (gone f) v = v
Replied-IsValid (not_waiting si w f at no_waits) v = v
Replied-IsValid {s} {t} (replied si w kick ts f w_at waits si' others) v =
    Steady-IsValid s ts
      (changed-Steady s.tasks ts si si w_at w_at si' si' (answered-Keep t.id _ w waits)
        (answered-Keep t.id _ w waits) (λ k ne _. others k ne))
      v

-- The task that a CPU runs exists.
pub current-task :
    {s : Scheduler} (cpu me : ℕ)
    → IsValid s
    → current_idx s cpu ≡ some me
    → (t : Task) × (get_elem? s.tasks me ≡ some t) × (t.on_cpu ≡ some cpu)
unfolding current_idx
current-task {s} cpu me v cur =
    let (p, p_at, p_cur) = >>=-eq-some (get_elem? s.cpus cpu) (λ (c : PerCpu). c.current) cur in
    let (t, t_at, on) = v.current_on_cpu cpu me p p_at p_cur in (t, t_at, on)

pop_request-Keep :
    (block : Bool) (t : Task) (inbox : List Rqb) {c : ℕ}
    → t.on_cpu ≡ some c
    → Keep t (pop_request block t inbox).1
pop_request-Keep true t [] on = on_cpu-Keep t _ on refl refl refl (λ h. cc) (λ h. cc) refl
pop_request-Keep false t [] on = Keep-refl t
pop_request-Keep block t (m ∷ rest) on = on_cpu-Keep t _ on refl refl refl (λ h. h) (λ h. h) refl

collect_reply-Keep :
    (t : Task) (r : Option Rqb) {c : ℕ} → t.on_cpu ≡ some c → Keep t (collect_reply t r)
collect_reply-Keep t none on = on_cpu-Keep t _ on refl refl refl (λ h. cc) (λ h. cc) refl
collect_reply-Keep t (some r) on = on_cpu-Keep t _ on refl refl refl (λ h. h) (λ h. h) refl

abort_waiter-Keep : (my_id : ℕ) (t : Task) → Keep t (abort_waiter my_id t)
unfolding abort_waiter
abort_waiter-Keep my_id t = elim (Bool-cases (awaits my_id t)) [
  | inl e ↦ rw e (answered-Keep my_id _ t e)
  | inr e ↦ rw e (Keep-refl t)
]

exit_task-Keep :
    (t : Task) → t.pinned_cpu ≡ none → {c : ℕ} → t.on_cpu ≡ some c → Keep t (exit_task t)
exit_task-Keep t free on = record {
  same_id = refl;
  same_pin = refl;
  same_cpu = refl;
  running_before = λ h. cc;
  exit_unpinned = λ h. inr free;
  reaped_dead = λ d r. absurd (cc (d r).1);
}

released-Keep : (t : Task) → is_dead t ≡ true → Keep t (released t)
unfolding released
released-Keep t h = record {
  same_id = refl;
  same_pin = refl;
  same_cpu = refl;
  running_before = λ e. e;
  exit_unpinned = λ e. inl e;
  reaped_dead = λ d r. (ground arith, ground arith);
}

pub collect-Keeps : (room : ℕ) (ts : List Task) → Keeps ts (collect room ts).0
unfolding collect
collect-Keeps room [] = tt
collect-Keeps room (t ∷ ts) = elim (Bool-cases (is_dead t)) [
  | inl dead ↦ elim (Bool-cases (room == 0)) [
    | inl full ↦ rw (dead, full) (Keep-refl t, Keeps-refl ts)
    | inr free ↦ rw (dead, free) (released-Keep t dead, collect-Keeps (room - 1) ts)
  ]
  | inr other ↦ rw other (Keep-refl t, collect-Keeps room ts)
]

module _ {s : Scheduler} (cpu : ℕ) {me : ℕ} (v : IsValid s)
    (cur : current_idx s cpu ≡ some me) where
  pub take_request-IsValid :
      (block : Bool)
      → (r : Option Rqb × Scheduler) × (take_request cpu block s ≡ some r) × IsValid r.1
  unfolding take_request
  take_request-IsValid block =
      let (t, t_at, on) = current-task cpu me v cur in
      let t' = (pop_request block t t.inbox).1 in
      (
        ((pop_request block t t.inbox).0, with_tasks (set s.tasks me t') s),
        rw (cur, t_at),
        Keeps-IsValid s _ (Keeps-set s.tasks me t' t_at (pop_request-Keep block t t.inbox on)) v,
      )

  pub take_reply-IsValid : (r : Option Rqb × Scheduler) × (take_reply cpu s ≡ some r) × IsValid r.1
  unfolding take_reply
  take_reply-IsValid =
      let (t, t_at, on) = current-task cpu me v cur in
      let t' = collect_reply t t.reply in
      (
        (t.reply, with_tasks (set s.tasks me t') s),
        rw (cur, t_at),
        Keeps-IsValid s _ (Keeps-set s.tasks me t' t_at (collect_reply-Keep t t.reply on)) v,
      )

  pub sleep_until-IsValid :
      (until : ℕ) → (s' : Scheduler) × (sleep_until cpu until s ≡ some s') × IsValid s'
  unfolding sleep_until
  sleep_until-IsValid until =
      let (t, t_at, on) = current-task cpu me v cur in
      let t' = record t { wake_tick = until; state = TaskState.sleeping } in
      (
        with_tasks (set s.tasks me t') s,
        rw (cur, t_at),
        Keeps-IsValid s _
            (Keeps-set s.tasks me t' t_at
              (on_cpu-Keep t t' on refl refl refl (λ h. cc) (λ h. cc) refl))
            v,
      )

  -- Only a task that is bound to no CPU may exit.
  pub mark_exited-IsValid :
      {t : Task} {c : ℕ}
      → get_elem? s.tasks me ≡ some t
      → t.on_cpu ≡ some c
      → t.pinned_cpu ≡ none
      → (r : Option ℕ × Scheduler) × (mark_exited cpu s ≡ some r) × IsValid r.1
  mark_exited-IsValid {t} t_at on free =
      let (kick, done) = mark_exited-map cpu s cur t_at in
      let stopped = set s.tasks me (exit_task t) in
      let ts = map (abort_waiter t.id) stopped in
      (
        (kick, with_tasks ts s),
        done,
        Keeps-IsValid s ts
            (Keeps-trans s.tasks stopped ts
              (Keeps-set s.tasks me (exit_task t) t_at (exit_task-Keep t free on))
              (Keeps-map (abort_waiter t.id) (abort_waiter-Keep t.id) stopped))
            v,
      )
