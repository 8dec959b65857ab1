-- ===== src/Scheduler/Invariant/Switch.antt =====
-- `on_tick` keeps the invariant, and never panics on a valid scheduler.
use mmurtl_rs.Base.{
  ℕ, ◌<◌, ◌≡◌, ◌≢◌, refl, sym, ap, ◌∙◌, subst, inl, inr, Bool, true, false, Option, none, some,
  some_inj, List, length, get_elem?, set, set_cases, get_elem?-lt, get_elem?-set_self, length-set,
  get_elem?-set_ne, arith, map, Option-cases, get_elem?_det, set_after, Bool-cases, ◌%◌, not, ◌||◌,
  is_empty, [], ◌++◌, lt-get_elem?,
}
use mmurtl_rs.Scheduler.{TaskState, Task, PerCpu, Scheduler, Kernel, Effect, max_cpus, with_tasks}
use mmurtl_rs.Scheduler.Keeps.{ReapedIsDead, Keep, Keep-refl, Keeps-map}
use mmurtl_rs.Scheduler.Tick.{
  wake, is_due, save_task, save_current, runnable, runnable_at, run_on, pick_next, switch_to_next,
  count_tick, reschedule, on_tick, switched, kicks,
}
use mmurtl_rs.Scheduler.Tick.Pick.{slot, pick_next_lem}
use mmurtl_rs.Scheduler.Invariant.{IsValid, IsIdleOf, Keeps-IsValid}

-- A valid scheduler between the save and the switch: CPU `x` is on no task.
pub record IsOff (x : ℕ) (s : Scheduler) : Type 0 where
  pub cpu_count : length s.cpus ≡ max_cpus
  pub current_on_cpu :
      (c i : ℕ) (p : PerCpu)
      → get_elem? s.cpus c ≡ some p
      → c ≢ x
      → p.current ≡ some i
      → (t : Task) × (get_elem? s.tasks i ≡ some t) × (t.on_cpu ≡ some c)
  pub on_cpu_current :
      (i c : ℕ) (t : Task)
      → get_elem? s.tasks i ≡ some t
      → t.on_cpu ≡ some c
      → (p : PerCpu) × (c ≢ x) × (get_elem? s.cpus c ≡ some p) × (p.current ≡ some i)
  pub running_on_cpu :
      (i : ℕ) (t : Task)
      → get_elem? s.tasks i ≡ some t
      → t.state ≡ TaskState.running
      → (c : ℕ) × (t.on_cpu ≡ some c)
  pub idle_own :
      (c : ℕ) (p : PerCpu)
      → get_elem? s.cpus c ≡ some p
      → p.registered ≡ true
      → (t : Task) × (get_elem? s.tasks p.idle_idx ≡ some t) × IsIdleOf c t
  pub pin_respected :
      (i c d : ℕ) (t : Task)
      → get_elem? s.tasks i ≡ some t
      → t.pinned_cpu ≡ some c
      → t.on_cpu ≡ some d
      → d ≡ c
  pub registered_busy :
      (c : ℕ) (p : PerCpu)
      → get_elem? s.cpus c ≡ some p
      → p.registered ≡ true
      → (i : ℕ) × (p.current ≡ some i)
  pub reaped_dead : (i : ℕ) (t : Task) → get_elem? s.tasks i ≡ some t → ReapedIsDead t

module _ (x i rsp : ℕ) (timer : Bool) {s : Scheduler} {p : PerCpu} {t : Task} (v : IsValid s)
    (p_at : get_elem? s.cpus x ≡ some p) (cur : p.current ≡ some i)
    (t_at : get_elem? s.tasks i ≡ some t) where
  was_on : t.on_cpu ≡ some x
  was_on =
      let (u, u_at, on) = v.current_on_cpu x i p p_at cur in
      ap (λ (w : Task). w.on_cpu) (some_inj (sym t_at ∙ u_at)) ∙ on

  -- A task on another CPU is not the one that is saved.
  elsewhere :
      (c j : ℕ) (u : Task) → c ≢ x → get_elem? s.tasks j ≡ some u → u.on_cpu ≡ some c → i ≢ j
  elsewhere c j u ne u_at on e = ne (
      some_inj
        (sym on ∙ ap (λ (w : Task). w.on_cpu) (sym (get_elem?_det s.tasks e t_at u_at)) ∙ was_on))

  -- A CPU that is on another task is another CPU.
  other_cpu :
      (c j : ℕ) (q : PerCpu) → i ≢ j → get_elem? s.cpus c ≡ some q → q.current ≡ some j → c ≢ x
  other_cpu c j q ne q_at q_cur e = ne (
      some_inj
        (sym cur ∙ ap (λ (w : PerCpu). w.current) (sym (get_elem?_det s.cpus e q_at p_at)) ∙ q_cur))

  -- Saving the current task of a CPU takes the CPU off it.
  pub save-IsOff : IsOff x (with_tasks (set s.tasks i (save_task rsp timer t)) s)
  unfolding save_task
  save-IsOff = record {
    cpu_count = v.cpu_count;
    current_on_cpu = λ c j q q_at ne q_cur.
        let (u, u_at, on) = v.current_on_cpu c j q q_at q_cur in
        (u, get_elem?-set_ne s.tasks i j _ (elsewhere c j u ne u_at on) ∙ u_at, on);
    on_cpu_current = λ j c u u_at on. elim (set_cases s.tasks i j _ u_at) [
      | inl (e, f) ↦ absurd (cc (ap (λ (w : Task). w.on_cpu) f))
      | inr (ne, old) ↦
          let (q, q_at, q_cur) = v.on_cpu_current j c u old on in
          (q, other_cpu c j q ne q_at q_cur, q_at, q_cur)
    ];
    running_on_cpu = λ j u u_at r. elim (set_cases s.tasks i j _ u_at) [
      | inl (e, f) ↦ absurd (ground (arith, ap (λ (w : Task). w.state) f))
      | inr (ne, old) ↦ v.running_on_cpu j u old r
    ];
    idle_own = λ c q q_at reg.
        let (u, u_at, idle) = v.idle_own c q q_at reg in
        let (w, w_at, which) = set_after s.tasks i q.idle_idx (save_task rsp timer t) t_at u_at in
        (
          w,
          w_at,
          elim which [
            | inl (e, f, g) ↦ ground arith
            | inr (ne, f) ↦ subst (IsIdleOf c) (sym f) idle
          ],
        );
    pin_respected = λ j c d u u_at pin on. elim (set_cases s.tasks i j _ u_at) [
      | inl (e, f) ↦ absurd (cc (ap (λ (w : Task). w.on_cpu) f))
      | inr (ne, old) ↦ v.pin_respected j c d u old pin on
    ];
    registered_busy = v.registered_busy;
    reaped_dead = λ j u u_at. elim (set_cases s.tasks i j _ u_at) [
      | inl (e, f) ↦ λ r.
          let (dead, off) = v.reaped_dead i t t_at (sym (ap (λ (w : Task). w.reaped) f) ∙ r) in
          absurd (cc was_on)
      | inr (ne, old) ↦ v.reaped_dead j u old
    ];
  }

module _ (x next : ℕ) {s : Scheduler} {p : PerCpu} {t : Task} (v : IsOff x s) (x_lt : x < max_cpus)
    (p_at : get_elem? s.cpus x ≡ some p) (t_at : get_elem? s.tasks next ≡ some t)
    (free : t.on_cpu ≡ none) (pin : (c : ℕ) → t.pinned_cpu ≡ some c → c ≡ x)
    (fresh : t.reaped ≡ false) where
  -- `cpu as u8` loses nothing.
  eight_bits : x % 256 ≡ x
  eight_bits = omega arith

  now_running : PerCpu
  now_running = record p { current = some next }

  idle_before :
      (c : ℕ) (q : PerCpu)
      → get_elem? (set s.cpus x (record p { current = some next })) c ≡ some q
      → q.registered ≡ true
      → (u : Task) × (get_elem? s.tasks q.idle_idx ≡ some u) × IsIdleOf c u
  idle_before c q q_at reg = elim (set_cases s.cpus x c _ q_at) [
    | inl (e, f) ↦
        let (u, u_at, idle) =
          v.idle_own x p p_at (ground (arith, ap (λ (w : PerCpu). w.registered) f)) in
        (
          u,
          ap (λ (w : PerCpu). get_elem? s.tasks w.idle_idx) f ∙ u_at,
          subst (λ k. IsIdleOf k u) e idle,
        )
    | inr (ne, old) ↦ v.idle_own c q old reg
  ]

  -- Putting a free task on the CPU makes the scheduler valid again.
  pub run-IsValid :
      (cursor : ℕ)
      → IsValid (record s {
        tasks = set s.tasks next (run_on x t);
        cpus = set s.cpus x (record p { current = some next });
        rr_cursor = cursor;
      })
  run-IsValid cursor = record {
    cpu_count = length-set s.cpus x _ ∙ v.cpu_count;
    current_on_cpu = λ c j q q_at q_cur. elim (set_cases s.cpus x c _ q_at) [
      | inl (e, f) ↦
          let here : next ≡ j = some_inj (sym (ap (λ (w : PerCpu). w.current) f) ∙ q_cur) in
          (
            run_on x t,
            subst (λ k. get_elem? (set s.tasks next (run_on x t)) k ≡ some (run_on x t)) here
                (get_elem?-set_self s.tasks next _ (get_elem?-lt s.tasks next t_at)),
            ap {B = Option ℕ} some (eight_bits ∙ e),
          )
      | inr (ne, old) ↦
          let (u, u_at, on) = v.current_on_cpu c j q old (λ e. ne (sym e)) q_cur in
          let apart : next ≢ j = λ e. cc (get_elem?_det s.tasks e t_at u_at) in
          (u, get_elem?-set_ne s.tasks next j _ apart ∙ u_at, on)
    ];
    on_cpu_current = λ j c u u_at on. elim (set_cases s.tasks next j _ u_at) [
      | inl (e, f) ↦
          let here : x ≡ c =
            some_inj (
              ap {B = Option ℕ} some (sym eight_bits) ∙ sym (ap (λ (w : Task). w.on_cpu) f) ∙ on) in
          (
            record p { current = some next },
            subst
                (λ k.
                  get_elem? (set s.cpus x (record p { current = some next })) k
                  ≡ some (record p { current = some next }))
                here (get_elem?-set_self s.cpus x _ (get_elem?-lt s.cpus x p_at)),
            ap {B = Option ℕ} some e,
          )
      | inr (ne, old) ↦
          let (q, other, q_at, q_cur) = v.on_cpu_current j c u old on in
          (q, get_elem?-set_ne s.cpus x c _ (λ e. other (sym e)) ∙ q_at, q_cur)
    ];
    running_on_cpu = λ j u u_at r. elim (set_cases s.tasks next j _ u_at) [
      | inl (e, f) ↦ (x % 256, ap (λ (w : Task). w.on_cpu) f)
      | inr (ne, old) ↦ v.running_on_cpu j u old r
    ];
    idle_own = λ c q q_at reg.
        let (u, u_at, idle) = idle_before c q q_at reg in
        let (w, w_at, which) = set_after s.tasks next q.idle_idx (run_on x t) t_at u_at in
        (
          w,
          w_at,
          elim which [
            | inl (e, f, g) ↦ ground arith
            | inr (ne, f) ↦ subst (IsIdleOf c) (sym f) idle
          ],
        );
    pin_respected = λ j c d u u_at bound on. elim (set_cases s.tasks next j _ u_at) [
      | inl (e, f) ↦ ground (arith, pin c)
      | inr (ne, old) ↦ v.pin_respected j c d u old bound on
    ];
    registered_busy = λ c q q_at reg. elim (set_cases s.cpus x c _ q_at) [
      | inl (e, f) ↦ (next, ap (λ (w : PerCpu). w.current) f)
      | inr (ne, old) ↦ v.registered_busy c q old reg
    ];
    reaped_dead = λ j u u_at. elim (set_cases s.tasks next j _ u_at) [
      | inl (e, f) ↦ λ r. absurd (cc (sym (ap (λ (w : Task). w.reaped) f) ∙ r))
      | inr (ne, old) ↦ v.reaped_dead j u old
    ];
  }

runnable_at-some :
    (cpu : ℕ) (ts : List Task) (i : ℕ)
    → runnable_at cpu ts i ≡ true
    → (t : Task) × (get_elem? ts i ≡ some t) × (runnable cpu t ≡ true)
runnable_at-some cpu ts i h = elim (Option-cases (get_elem? ts i)) [
  | inl e ↦ absurd (ground arith)
  | inr (t, e) ↦ (t, e, ground arith)
]

-- Whatever `pick_next` chooses exists, is on no CPU, and may run here.
abbrev CanRun : ℕ → Scheduler → ℕ → Type 0
CanRun x s next =
    (t : Task) × (get_elem? s.tasks next ≡ some t)
    × (t.on_cpu ≡ none)
    × ((c : ℕ) → t.pinned_cpu ≡ some c → c ≡ x)
    × (t.reaped ≡ false)

-- A task that has not exited is not reaped.
not_reaped : (t : Task) → ReapedIsDead t → t.state ≢ TaskState.exited → t.reaped ≡ false
not_reaped t d alive = elim (Bool-cases t.reaped) [ inl r ↦ absurd (alive (d r).0) | inr n ↦ n ]

pick-CanRun :
    (x : ℕ) {s : Scheduler} {p : PerCpu}
    → IsOff x s
    → get_elem? s.cpus x ≡ some p
    → p.registered ≡ true
    → CanRun x s (pick_next x p.idle_idx s).0
pick-CanRun x {s} {p} v p_at reg = elim (pick_next_lem x p.idle_idx s) [
  | inl (n, le, lt, e, ok, before) ↦
      let (t, t_at, may) = runnable_at-some x s.tasks (slot s.tasks s.rr_cursor n) ok in
      rw e (
        t,
        t_at,
        ground arith,
        λ c pin. ground arith,
        not_reaped t (v.reaped_dead _ t t_at) (ground arith),
      )
  | inr (e, none_ready) ↦
      let (t, t_at, idle) = v.idle_own x p p_at reg in
      rw e (
        t,
        t_at,
        elim (Option-cases t.on_cpu) [
          | inl free ↦ free
          | inr (d, on) ↦
              let (q, away, q_at, q_cur) = v.on_cpu_current p.idle_idx d t t_at on in
              absurd (away (v.pin_respected p.idle_idx x d t t_at idle.bound on))
        ],
        λ c pin. some_inj (sym pin ∙ idle.bound),
        not_reaped t (v.reaped_dead _ t t_at) idle.alive,
      )
]

switch-IsValid :
    (x : ℕ) {s : Scheduler} {p : PerCpu}
    → IsOff x s
    → x < max_cpus
    → get_elem? s.cpus x ≡ some p
    → p.registered ≡ true
    → (r : Scheduler × ℕ × List Effect) × (switch_to_next x p s ≡ some r) × IsValid r.0
unfolding switch_to_next
switch-IsValid x {s} {p} v lt p_at reg =
    let (t, t_at, free, pin, fresh) = pick-CanRun x v p_at reg in
    let (next, cursor) = pick_next x p.idle_idx s in
    (switched x p s next cursor t, rw t_at refl, run-IsValid x _ v lt p_at t_at free pin fresh _)

count-IsValid :
    (x : ℕ) (timer : Bool) (k : Kernel) → IsValid k.sched → IsValid (count_tick x timer k).sched
unfolding count_tick
count-IsValid x false k v = v
count-IsValid x true k v = record {
  cpu_count = v.cpu_count;
  current_on_cpu = v.current_on_cpu;
  on_cpu_current = v.on_cpu_current;
  running_on_cpu = v.running_on_cpu;
  idle_own = v.idle_own;
  pin_respected = v.pin_respected;
  registered_busy = v.registered_busy;
  reaped_dead = v.reaped_dead;
}

wake-Keep : (now : ℕ) (t : Task) → Keep t (wake now t)
wake-Keep now t = elim (Bool-cases (is_due now t)) [
  | inl e ↦ rw e (record {
    same_id = refl;
    same_pin = refl;
    same_cpu = refl;
    running_before = λ h. cc;
    exit_unpinned = λ h. cc;
    reaped_dead = λ d r. absurd (ground (arith, (d r).0));
  })
  | inr e ↦ rw e (Keep-refl t)
]

cpus-count_tick :
    (x : ℕ) (timer : Bool) (k : Kernel) → (count_tick x timer k).sched.cpus ≡ k.sched.cpus
unfolding count_tick
cpus-count_tick x false k = refl
cpus-count_tick x true k = refl

-- The current context of a registered CPU can be saved.
save-total :
    (x rsp : ℕ) (timer : Bool) {s : Scheduler} {p : PerCpu}
    → IsValid s
    → get_elem? s.cpus x ≡ some p
    → p.registered ≡ true
    → (ts : List Task) × (save_current p.current rsp timer s.tasks ≡ some ts)
      × IsOff x (with_tasks ts s)
unfolding save_current
save-total x rsp timer {s} {p} v p_at reg =
    let (i, cur) = v.registered_busy x p p_at reg in
    let (t, t_at, on) = v.current_on_cpu x i p p_at cur in
    (
      set s.tasks i (save_task rsp timer t),
      rw (cur, t_at),
      save-IsOff x i rsp timer v p_at cur t_at,
    )

module _ (ipi_available : Bool) where
  reschedule-IsValid :
      (x rsp : ℕ) (timer : Bool) (k : Kernel) {p : PerCpu}
      → IsValid k.sched
      → x < max_cpus
      → get_elem? k.sched.cpus x ≡ some p
      → p.registered ≡ true
      → (r : Kernel × ℕ × List Effect) × (reschedule ipi_available x rsp timer p k ≡ some r)
        × IsValid r.0.sched
  reschedule-IsValid x rsp timer k0 {p} v0 lt p_at0 reg =
      let k = count_tick x timer k0 in
      let p_at : get_elem? k.sched.cpus x ≡ some p = rw (cpus-count_tick x timer k0) p_at0 in
      let awake = map (wake k.jiffies) k.sched.tasks in
      let v1 =
        Keeps-IsValid k.sched awake (Keeps-map (wake k.jiffies) (wake-Keep k.jiffies) k.sched.tasks)
          (count-IsValid x timer k0 v0) in
      let (ts, saved, off) = save-total x rsp timer v1 p_at reg in
      let (r, done, v2) = switch-IsValid x off lt p_at reg in
      (
        (record k { sched = r.0 }, r.1, kicks ipi_available x k ++ r.2),
        unfold reschedule in rw (saved, done),
        v2,
      )

  -- On a valid scheduler a tick, an interrupt or a yield on any CPU never panics, and leaves the
  -- scheduler valid.
  pub on_tick-IsValid :
      (x rsp : ℕ) (timer : Bool) (k : Kernel)
      → IsValid k.sched
      → x < max_cpus
      → (r : Kernel × ℕ × List Effect) × (on_tick ipi_available x rsp timer k ≡ some r)
        × IsValid r.0.sched
  unfolding on_tick
  on_tick-IsValid x rsp timer k v lt =
      let (p, p_at) = lt-get_elem? k.sched.cpus x (omega (arith, v.cpu_count)) in
      elim (Bool-cases (not p.registered || is_empty k.sched.tasks)) [
        | inl skip ↦ ((k, rsp, []), rw (p_at, skip), v)
        | inr go ↦
            let (r, done, v') = reschedule-IsValid x rsp timer k v lt p_at (ground arith) in
            (r, rw (p_at, go) done, v')
      ]
