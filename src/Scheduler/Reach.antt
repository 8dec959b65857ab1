-- ===== src/Scheduler/Reach.antt =====
-- Every history of the scheduler: CPUs coming up, tasks created, ticks and yields on any CPU, and
-- the calls that running tasks make, in any order.
use mmurtl_rs.Base.{
  ℕ, zero, suc, ◌<◌, ◌≡◌, sym, ap, ◌∙◌, subst, Bool, false, Option, none, some, some_inj, List, [],
  get_elem?, replicate, length-replicate, arith, ◌-◌, ◌^◌,
}
use mmurtl_rs.Rqb.{Rqb}
use mmurtl_rs.Scheduler.{
  Task, PerCpu, Scheduler, Kernel, Effect, max_cpus, current_idx, next_task_id,
}
use mmurtl_rs.Scheduler.Tasks.{KernelStack, new_task, new_user, register_cpu, add_task}
use mmurtl_rs.Scheduler.Tick.{on_tick, sleep_until}
use mmurtl_rs.Scheduler.Ipc.{
  Outcome, post_request, take_request, post_reply, take_reply, mark_exited,
}
use mmurtl_rs.Scheduler.Ipc.Deliver.{post_request_lem}
use mmurtl_rs.Scheduler.Ipc.Answer.{post_reply_lem}
use mmurtl_rs.Scheduler.Ipc.Preserve.{
  Posted-IsValid, Replied-IsValid, current-task, take_request-IsValid, take_reply-IsValid,
  sleep_until-IsValid, mark_exited-IsValid, collect-Keeps,
}
use mmurtl_rs.Scheduler.Reaper.{collect_exited}
use mmurtl_rs.Scheduler.Invariant.{IsValid, Keeps-IsValid, current_unique}
use mmurtl_rs.Scheduler.Invariant.Switch.{on_tick-IsValid}
use mmurtl_rs.Scheduler.Invariant.Grow.{IsFresh, add_task-IsValid, register_cpu-IsValid}

-- PerCpu::EMPTY, Scheduler::new and the statics before boot.
abbrev pub empty_cpu : PerCpu
empty_cpu = record { registered = false; hw_id = 0; current = none; idle_idx = 0 }

unfoldable pub boot : Kernel
boot = record {
  sched = record { tasks = []; cpus = replicate max_cpus empty_cpu; rr_cursor = 0; tick_count = 0 };
  jiffies = 0;
  next_id = 1;
  reaping = 0;
}

abbrev at : Kernel → Scheduler → Kernel
at k s = record k { sched = s }

-- The size of the saved context and whether CPUs can interrupt one another are the machine's.
module _ (size_of_context : ℕ) (ipi_available : Bool) where
  pub data Step : Kernel → Kernel → Type 0 where
    register :
        (x hw_id : ℕ) (k : Kernel) (p : PerCpu) (r : ℕ × Kernel)
        → x < max_cpus
        → get_elem? k.sched.cpus x ≡ some p
        → p.current ≡ none
        → k.next_id < 2 ^ 32 - 1
        → register_cpu x hw_id k ≡ some r
        → Step k r.1
    create :
        (stack : KernelStack) (priority : ℕ) (k : Kernel) (r : Task × Kernel)
        → new_task size_of_context stack priority k ≡ some r
        → Step k (at r.1 (add_task r.0 r.1.sched).1)
    create_user :
        (space user_slot priority : ℕ) (stack : KernelStack) (k : Kernel) (r : Task × Kernel)
        → new_user size_of_context space user_slot stack priority k ≡ some r
        → Step k (at r.1 (add_task r.0 r.1.sched).1)
    tick :
        (x rsp : ℕ) (timer : Bool) (k : Kernel) (r : Kernel × ℕ × List Effect)
        → x < max_cpus
        → on_tick ipi_available x rsp timer k ≡ some r
        → Step k r.0
    send :
        (x receiver me : ℕ) (msg : Rqb) (k : Kernel) (r : Outcome × Scheduler)
        → current_idx k.sched x ≡ some me
        → post_request x receiver msg k.sched ≡ some r
        → Step k (at k r.1)
    receive :
        (x me : ℕ) (block : Bool) (k : Kernel) (r : Option Rqb × Scheduler)
        → current_idx k.sched x ≡ some me
        → take_request x block k.sched ≡ some r
        → Step k (at k r.1)
    answer :
        (x sender me : ℕ) (msg : Rqb) (k : Kernel) (r : Outcome × Scheduler)
        → current_idx k.sched x ≡ some me
        → post_reply x sender msg k.sched ≡ some r
        → Step k (at k r.1)
    resume :
        (x me : ℕ) (k : Kernel) (r : Option Rqb × Scheduler)
        → current_idx k.sched x ≡ some me
        → take_reply x k.sched ≡ some r
        → Step k (at k r.1)
    sleep :
        (x until me : ℕ) (k : Kernel) (s : Scheduler)
        → current_idx k.sched x ≡ some me
        → sleep_until x until k.sched ≡ some s
        → Step k (at k s)
    exit :
        (x me : ℕ) (k : Kernel) (t : Task) (r : Option ℕ × Scheduler)
        → current_idx k.sched x ≡ some me
        → get_elem? k.sched.tasks me ≡ some t
        → t.pinned_cpu ≡ none
        → mark_exited x k.sched ≡ some r
        → Step k (at k r.1)
    reap : (k : Kernel) → Step k (collect_exited k).0

  pub data Reach : Kernel → Type 0 where
    here : Reach boot
    next : {k l : Kernel} → Reach k → Step k l → Reach l

  new_task-IsFresh :
      (stack : KernelStack) (priority : ℕ) (k : Kernel) (r : Task × Kernel)
      → new_task size_of_context stack priority k ≡ some r
      → IsFresh r.0 × (r.1.sched ≡ k.sched)
  unfolding new_task next_task_id
  new_task-IsFresh stack priority k r h = ground arith

  new_user-IsFresh :
      (space user_slot priority : ℕ) (stack : KernelStack) (k : Kernel) (r : Task × Kernel)
      → new_user size_of_context space user_slot stack priority k ≡ some r
      → IsFresh r.0 × (r.1.sched ≡ k.sched)
  unfolding new_user new_task next_task_id
  new_user-IsFresh space user_slot priority stack k r h = ground arith

  Step-IsValid : {k l : Kernel} → Step k l → IsValid k.sched → IsValid l.sched
  Step-IsValid (register x hw_id k p r lt p_at off ids h) v =
      let (q, done, w) = register_cpu-IsValid x hw_id k v lt p_at off ids in
      subst (λ (z : ℕ × Kernel). IsValid z.1.sched) (some_inj (sym done ∙ h)) w
  Step-IsValid (create stack priority k r h) v =
      let (f, same) = new_task-IsFresh stack priority k r h in
      add_task-IsValid r.0 (subst IsValid (sym same) v) f
  Step-IsValid (create_user space user_slot priority stack k r h) v =
      let (f, same) = new_user-IsFresh space user_slot priority stack k r h in
      add_task-IsValid r.0 (subst IsValid (sym same) v) f
  Step-IsValid (tick x rsp timer k r lt h) v =
      let (q, done, w) = on_tick-IsValid ipi_available x rsp timer k v lt in
      subst (λ (z : Kernel × ℕ × List Effect). IsValid z.0.sched) (some_inj (sym done ∙ h)) w
  Step-IsValid (send x receiver me msg k r cur h) v =
      let (t, t_at, on) = current-task x me v cur in
      let (o, s', done, what) = post_request_lem x receiver msg cur t_at in
      subst (λ (z : Outcome × Scheduler). IsValid z.1) (some_inj (sym done ∙ h))
        (Posted-IsValid t_at x on what v)
  Step-IsValid (receive x me block k r cur h) v =
      let (q, done, w) = take_request-IsValid x v cur block in
      subst (λ (z : Option Rqb × Scheduler). IsValid z.1) (some_inj (sym done ∙ h)) w
  Step-IsValid (answer x sender me msg k r cur h) v =
      let (t, t_at, on) = current-task x me v cur in
      let (o, s', done, what) = post_reply_lem x sender msg cur t_at in
      subst (λ (z : Outcome × Scheduler). IsValid z.1) (some_inj (sym done ∙ h))
        (Replied-IsValid what v)
  Step-IsValid (resume x me k r cur h) v =
      let (q, done, w) = take_reply-IsValid x v cur in
      subst (λ (z : Option Rqb × Scheduler). IsValid z.1) (some_inj (sym done ∙ h)) w
  Step-IsValid (sleep x until me k s cur h) v =
      let (q, done, w) = sleep_until-IsValid x v cur until in
      subst IsValid (some_inj (sym done ∙ h)) w
  Step-IsValid (exit x me k t r cur t_at free h) v =
      let (u, u_at, on) = current-task x me v cur in
      let (q, done, w) =
        mark_exited-IsValid x v cur t_at
          (ap (λ (z : Task). z.on_cpu) (some_inj (sym t_at ∙ u_at)) ∙ on) free in
      subst (λ (z : Option ℕ × Scheduler). IsValid z.1) (some_inj (sym done ∙ h)) w
  Step-IsValid (reap k) v =
      unfold collect_exited in Keeps-IsValid k.sched _ (collect-Keeps 16 k.sched.tasks) v

  replicate-get : (n i : ℕ) {p q : PerCpu} → get_elem? (replicate n p) i ≡ some q → q ≡ p
  replicate-get zero i h = cc
  replicate-get (suc n) zero h = sym (some_inj h)
  replicate-get (suc n) (suc i) h = replicate-get n i h

  boot-IsValid : IsValid boot.sched
  unfolding boot
  boot-IsValid = record {
    cpu_count = length-replicate max_cpus empty_cpu;
    current_on_cpu = λ c i p p_at cur.
        absurd (cc (sym (ap (λ (w : PerCpu). w.current) (replicate-get max_cpus c p_at)) ∙ cur));
    on_cpu_current = λ i c t t_at on. absurd (cc t_at);
    running_on_cpu = λ i t t_at r. absurd (cc t_at);
    idle_own = λ c p p_at reg.
        absurd (cc (sym (ap (λ (w : PerCpu). w.registered) (replicate-get max_cpus c p_at)) ∙ reg));
    pin_respected = λ i c d t t_at pin on. absurd (cc t_at);
    registered_busy = λ c p p_at reg.
        absurd (cc (sym (ap (λ (w : PerCpu). w.registered) (replicate-get max_cpus c p_at)) ∙ reg));
    reaped_dead = λ i t t_at. absurd (cc t_at);
  }

  -- The scheduler is valid after every history of steps from boot.
  pub Reach-IsValid : {k : Kernel} → Reach k → IsValid k.sched
  Reach-IsValid here = boot-IsValid
  Reach-IsValid (next r st) = Step-IsValid st (Reach-IsValid r)

  -- After every history, two CPUs that run the same task are one CPU.
  pub Reach-exclusive :
      (c d i : ℕ) {k : Kernel} {p q : PerCpu}
      → Reach k
      → get_elem? k.sched.cpus c ≡ some p
      → get_elem? k.sched.cpus d ≡ some q
      → p.current ≡ some i
      → q.current ≡ some i
      → c ≡ d
  Reach-exclusive c d i r p_at q_at p_cur q_cur =
      current_unique c d i (Reach-IsValid r) p_at q_at p_cur q_cur
