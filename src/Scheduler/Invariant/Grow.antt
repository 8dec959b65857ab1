-- ===== src/Scheduler/Invariant/Grow.antt =====
-- Registering a CPU and adding a task keep the scheduler valid.
use mmurtl_rs.Base.{
  ℕ, ◌<◌, ◌≡◌, refl, sym, ap, ◌∙◌, subst, inl, inr, true, false, Option, none, some, some_inj, [],
  ◌∷◌, ◌++◌, length, get_elem?, set, set_cases, snoc_cases, position, position-some, get_elem?-lt,
  get_elem?-set_self, get_elem?-set_ne, get_elem?_det, length-set, get_elem?-snoc_old,
  get_elem?-snoc_new, arith, Option-cases, ◌%◌, ◌-◌, ◌+◌, ◌^◌, ◌==◌,
}
use mmurtl_rs.Scheduler.{
  TaskState, Task, PerCpu, Scheduler, Kernel, max_cpus, priority_idle, with_tasks, next_task_id,
}
use mmurtl_rs.Scheduler.Tasks.{
  is_free_slot, place, add_task, adopted, on_idle, adopt_current, register_cpu,
}
use mmurtl_rs.Scheduler.Invariant.{IsValid}

-- A task as its constructor leaves it.
pub record IsFresh (t : Task) : Type 0 where
  pub is_ready : t.state ≡ TaskState.ready
  pub nowhere : t.on_cpu ≡ none
  pub unbound : t.pinned_cpu ≡ none
  pub not_reaped : t.reaped ≡ false

module _ {s : Scheduler} (t : Task) (v : IsValid s) (f : IsFresh t) where
  append-IsValid : IsValid (with_tasks (s.tasks ++ t ∷ []) s)
  append-IsValid = record {
    cpu_count = v.cpu_count;
    current_on_cpu = λ c i p p_at cur.
        let (u, u_at, on) = v.current_on_cpu c i p p_at cur in
        (u, get_elem?-snoc_old s.tasks i t u_at, on);
    on_cpu_current = λ i c u u_at on. elim (snoc_cases s.tasks i t u_at) [
      | inl (e, g) ↦ absurd (cc (sym on ∙ ap (λ (w : Task). w.on_cpu) g ∙ f.nowhere))
      | inr old ↦ v.on_cpu_current i c u old on
    ];
    running_on_cpu = λ i u u_at r. elim (snoc_cases s.tasks i t u_at) [
      | inl (e, g) ↦ absurd (cc f.is_ready)
      | inr old ↦ v.running_on_cpu i u old r
    ];
    idle_own = λ c p p_at reg.
        let (u, u_at, idle) = v.idle_own c p p_at reg in
        (u, get_elem?-snoc_old s.tasks p.idle_idx t u_at, idle);
    pin_respected = λ i c d u u_at pin on. elim (snoc_cases s.tasks i t u_at) [
      | inl (e, g) ↦ absurd (cc (sym on ∙ ap (λ (w : Task). w.on_cpu) g ∙ f.nowhere))
      | inr old ↦ v.pin_respected i c d u old pin on
    ];
    registered_busy = v.registered_busy;
    reaped_dead = λ i u u_at. elim (snoc_cases s.tasks i t u_at) [
      | inl (e, g) ↦ λ r. absurd (cc f.not_reaped)
      | inr old ↦ v.reaped_dead i u old
    ];
  }

  -- The slot of a reaped task is no CPU's current or idle task.
  reuse-IsValid :
      (i : ℕ) (old : Task)
      → get_elem? s.tasks i ≡ some old
      → old.state ≡ TaskState.exited
      → old.reaped ≡ true
      → IsValid (with_tasks (set s.tasks i t) s)
  reuse-IsValid i old at dead reaped = record {
    cpu_count = v.cpu_count;
    current_on_cpu = λ c j p p_at cur.
        let (u, u_at, on) = v.current_on_cpu c j p p_at cur in
        (
          u,
          get_elem?-set_ne s.tasks i j t
                (λ e. cc (get_elem?_det s.tasks e at u_at, (v.reaped_dead i old at reaped).1))
              ∙ u_at,
          on,
        );
    on_cpu_current = λ j c u u_at on. elim (set_cases s.tasks i j t u_at) [
      | inl (e, g) ↦ absurd (cc (sym on ∙ ap (λ (w : Task). w.on_cpu) g ∙ f.nowhere))
      | inr (ne, was) ↦ v.on_cpu_current j c u was on
    ];
    running_on_cpu = λ j u u_at r. elim (set_cases s.tasks i j t u_at) [
      | inl (e, g) ↦ absurd (cc f.is_ready)
      | inr (ne, was) ↦ v.running_on_cpu j u was r
    ];
    idle_own = λ c p p_at reg.
        let (u, u_at, idle) = v.idle_own c p p_at reg in
        (
          u,
          get_elem?-set_ne s.tasks i p.idle_idx t (λ e.
                idle.alive
                  (ap (λ (w : Task). w.state) (sym (get_elem?_det s.tasks e at u_at)) ∙ dead))
              ∙ u_at,
          idle,
        );
    pin_respected = λ j c d u u_at pin on. elim (set_cases s.tasks i j t u_at) [
      | inl (e, g) ↦ absurd (cc (sym on ∙ ap (λ (w : Task). w.on_cpu) g ∙ f.nowhere))
      | inr (ne, was) ↦ v.pin_respected j c d u was pin on
    ];
    registered_busy = v.registered_busy;
    reaped_dead = λ j u u_at. elim (set_cases s.tasks i j t u_at) [
      | inl (e, g) ↦ λ r. absurd (cc f.not_reaped)
      | inr (ne, was) ↦ v.reaped_dead j u was
    ];
  }

  pub add_task-IsValid : IsValid (add_task t s).1
  unfolding add_task
  add_task-IsValid = elim (Option-cases (position is_free_slot s.tasks)) [
    | inl e ↦ rw (e, place) append-IsValid
    | inr (i, e) ↦
        let (old, at, free) = position-some is_free_slot s.tasks e in
        rw (e, place) (reuse-IsValid i old at (ground arith) (ground arith))
  ]

module _ (x : ℕ) {s : Scheduler} (t : Task) (own : PerCpu) {p : PerCpu} (v : IsValid s)
    (p_at : get_elem? s.cpus x ≡ some p) (off : p.current ≡ none) (on_x : t.on_cpu ≡ some x)
    (bound : t.pinned_cpu ≡ some x) (running : t.state ≡ TaskState.running)
    (kept : t.reaped ≡ false) (runs : own.current ≡ some (length s.tasks))
    (idles_on : own.idle_idx ≡ length s.tasks) where
  x_in : x < length s.cpus
  x_in = get_elem?-lt s.cpus x p_at

  new_at : get_elem? (s.tasks ++ t ∷ []) (length s.tasks) ≡ some t
  new_at = get_elem?-snoc_new s.tasks t

  -- The idle task at the end of the queue, and its CPU, join a valid scheduler.
  install-IsValid : IsValid (record s { tasks = s.tasks ++ t ∷ []; cpus = set s.cpus x own })
  install-IsValid = record {
    cpu_count = length-set s.cpus x own ∙ v.cpu_count;
    current_on_cpu = λ c i q q_at cur. elim (set_cases s.cpus x c own q_at) [
      | inl (e, g) ↦
          let here : length s.tasks ≡ i =
            some_inj (sym runs ∙ sym (ap (λ (w : PerCpu). w.current) g) ∙ cur) in
          (
            t,
            subst (λ n. get_elem? (s.tasks ++ t ∷ []) n ≡ some t) here new_at,
            on_x ∙ ap {B = Option ℕ} some e,
          )
      | inr (ne, old) ↦
          let (u, u_at, on) = v.current_on_cpu c i q old cur in
          (u, get_elem?-snoc_old s.tasks i t u_at, on)
    ];
    on_cpu_current = λ i c u u_at on. elim (snoc_cases s.tasks i t u_at) [
      | inl (e, g) ↦
          let here : x ≡ c = some_inj (sym on_x ∙ sym (ap (λ (w : Task). w.on_cpu) g) ∙ on) in
          (
            own,
            subst (λ n. get_elem? (set s.cpus x own) n ≡ some own) here
                (get_elem?-set_self s.cpus x own x_in),
            runs ∙ ap {B = Option ℕ} some (sym e),
          )
      | inr old ↦
          let (q, q_at, q_cur) = v.on_cpu_current i c u old on in
          (
            q,
            get_elem?-set_ne s.cpus x c own (λ e. cc (get_elem?_det s.cpus e p_at q_at)) ∙ q_at,
            q_cur,
          )
    ];
    running_on_cpu = λ i u u_at r. elim (snoc_cases s.tasks i t u_at) [
      | inl (e, g) ↦ (x, ap (λ (w : Task). w.on_cpu) g ∙ on_x)
      | inr old ↦ v.running_on_cpu i u old r
    ];
    idle_own = λ c q q_at reg. elim (set_cases s.cpus x c own q_at) [
      | inl (e, g) ↦ (
        t,
        ap (get_elem? (s.tasks ++ t ∷ [])) (ap (λ (w : PerCpu). w.idle_idx) g ∙ idles_on) ∙ new_at,
        record { bound = bound ∙ ap {B = Option ℕ} some e; alive = λ d. cc (sym running ∙ d) },
      )
      | inr (ne, old) ↦
          let (u, u_at, idle) = v.idle_own c q old reg in
          (u, get_elem?-snoc_old s.tasks q.idle_idx t u_at, idle)
    ];
    pin_respected = λ i c d u u_at pin on. elim (snoc_cases s.tasks i t u_at) [
      | inl (e, g) ↦ some_inj (
          sym on
          ∙ ap (λ (w : Task). w.on_cpu) g
          ∙ on_x
          ∙ sym bound
          ∙ sym (ap (λ (w : Task). w.pinned_cpu) g)
          ∙ pin)
      | inr old ↦ v.pin_respected i c d u old pin on
    ];
    registered_busy = λ c q q_at reg. elim (set_cases s.cpus x c own q_at) [
      | inl (e, g) ↦ (length s.tasks, ap (λ (w : PerCpu). w.current) g ∙ runs)
      | inr (ne, old) ↦ v.registered_busy c q old reg
    ];
    reaped_dead = λ i u u_at. elim (snoc_cases s.tasks i t u_at) [
      | inl (e, g) ↦ λ r. absurd (cc (sym (ap (λ (w : Task). w.reaped) g) ∙ r))
      | inr old ↦ v.reaped_dead i u old
    ];
  }

-- While identities are left, registering a CPU that runs nothing succeeds, keeps the scheduler
-- valid and the CPU then runs its idle task.
pub register_cpu-IsValid :
    (x hw_id : ℕ) (k : Kernel) {p : PerCpu}
    → IsValid k.sched
    → x < max_cpus
    → get_elem? k.sched.cpus x ≡ some p
    → p.current ≡ none
    → k.next_id < 2 ^ 32 - 1
    → (r : ℕ × Kernel) × (register_cpu x hw_id k ≡ some r) × IsValid r.1.sched
unfolding register_cpu adopt_current next_task_id
register_cpu-IsValid x hw_id k {p} v lt p_at off ids =
    let eight : some (x % 256) ≡ some x = ap {B = Option ℕ} some (omega arith) in
    let more : (k.next_id == 2 ^ 32 - 1) ≡ false = ground arith in
    let idle = adopted k.next_id priority_idle x in
    let own = on_idle hw_id (length k.sched.tasks) in
    let s = record (k.sched) {
      tasks = k.sched.tasks ++ idle ∷ [];
      cpus = set k.sched.cpus x own;
    } in
    (
      (k.next_id, record k { next_id = k.next_id + 1; sched = s }),
      rw (more, p_at),
      install-IsValid x idle own v p_at off eight eight refl refl refl refl,
    )
