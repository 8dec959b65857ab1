-- ===== src/Scheduler/Invariant.antt =====
-- The representation invariant of `Scheduler`: which CPU runs which task.
use mmurtl_rs.Base.{
  ℕ, ◌≡◌, ◌≢◌, sym, ap, ◌∙◌, subst, Bool, true, false, Option, none, some, some_inj, List, length,
  get_elem?, set, arith, ◌<◌, get_elem?-lt,
}
use mmurtl_rs.Scheduler.{TaskState, Task, PerCpu, Scheduler, max_cpus, with_tasks}
use mmurtl_rs.Scheduler.Keeps.{ReapedIsDead, Keeps, Steady, Keeps-Steady}
pub mod Switch
pub mod Grow

-- The idle task of CPU `c`: bound to it, and never exited.
pub record IsIdleOf (c : ℕ) (t : Task) : Type 0 where
  pub bound : t.pinned_cpu ≡ some c
  pub alive : t.state ≢ TaskState.exited

pub record IsValid (s : Scheduler) : Type 0 where
  pub cpu_count : length s.cpus ≡ max_cpus
  -- The current task of a CPU is on that CPU, and on no other.
  pub current_on_cpu :
      (c i : ℕ) (p : PerCpu)
      → get_elem? s.cpus c ≡ some p
      → p.current ≡ some i
      → (t : Task) × (get_elem? s.tasks i ≡ some t) × (t.on_cpu ≡ some c)
  pub on_cpu_current :
      (i c : ℕ) (t : Task)
      → get_elem? s.tasks i ≡ some t
      → t.on_cpu ≡ some c
      → (p : PerCpu) × (get_elem? s.cpus c ≡ some p) × (p.current ≡ some i)
  pub running_on_cpu :
      (i : ℕ) (t : Task)
      → get_elem? s.tasks i ≡ some t
      → t.state ≡ TaskState.running
      → (c : ℕ) × (t.on_cpu ≡ some c)
  pub idle_own :
      (c : ℕ) (p : PerCpu)
      → get_elem? s.cpus c ≡ some p
      → p.registered ≡ true
      → (t : Task) × (get_elem? s.tasks p.idle_idx ≡ some t) × IsIdleOf c t
  pub pin_respected :
      (i c d : ℕ) (t : Task)
      → get_elem? s.tasks i ≡ some t
      → t.pinned_cpu ≡ some c
      → t.on_cpu ≡ some d
      → d ≡ c
  pub registered_busy :
      (c : ℕ) (p : PerCpu)
      → get_elem? s.cpus c ≡ some p
      → p.registered ≡ true
      → (i : ℕ) × (p.current ≡ some i)
  pub reaped_dead : (i : ℕ) (t : Task) → get_elem? s.tasks i ≡ some t → ReapedIsDead t

-- A change that keeps every task in place keeps the invariant.
pub Steady-IsValid :
    (s : Scheduler) (ts : List Task) → Steady s.tasks ts → IsValid s → IsValid (with_tasks ts s)
Steady-IsValid s ts k v = record {
  cpu_count = v.cpu_count;
  current_on_cpu = λ c i p at cur.
      let (t, t_at, on) = v.current_on_cpu c i p at cur in
      let (u, u_at, ku) = k.after i t t_at in (u, u_at, ku.same_cpu ∙ on);
  on_cpu_current = λ i c u u_at on.
      let (t, t_at, ku) = k.before i u u_at in v.on_cpu_current i c t t_at (sym ku.same_cpu ∙ on);
  running_on_cpu = λ i u u_at r.
      let (t, t_at, ku) = k.before i u u_at in
      let (c, on) = v.running_on_cpu i t t_at (ku.running_before r) in (c, ku.same_cpu ∙ on);
  idle_own = λ c p at reg.
      let (t, t_at, idle) = v.idle_own c p at reg in
      let (u, u_at, ku) = k.after p.idle_idx t t_at in
      (
        u,
        u_at,
        record {
          bound = ku.same_pin ∙ idle.bound;
          alive = λ e. grind (arith, ku.exit_unpinned e, idle.bound, idle.alive);
        },
      );
  pin_respected = λ i c d u u_at pin on.
      let (t, t_at, ku) = k.before i u u_at in
      v.pin_respected i c d t t_at (sym ku.same_pin ∙ pin) (sym ku.same_cpu ∙ on);
  registered_busy = v.registered_busy;
  reaped_dead =
      λ i u u_at. let (t, t_at, ku) = k.before i u u_at in ku.reaped_dead (v.reaped_dead i t t_at);
}

pub Keeps-IsValid :
    (s : Scheduler) (ts : List Task) → Keeps s.tasks ts → IsValid s → IsValid (with_tasks ts s)
Keeps-IsValid s ts k v = Steady-IsValid s ts (Keeps-Steady s.tasks ts k) v

-- Two CPUs never run the same task.
pub current_unique :
    {s : Scheduler} (c d i : ℕ) {p q : PerCpu}
    → IsValid s
    → get_elem? s.cpus c ≡ some p
    → get_elem? s.cpus d ≡ some q
    → p.current ≡ some i
    → q.current ≡ some i
    → c ≡ d
current_unique c d i {p} {q} v p_at q_at pi qi =
    let (t, t_at, on_c) = v.current_on_cpu c i p p_at pi in
    let (u, u_at, on_d) = v.current_on_cpu d i q q_at qi in
    let same : t ≡ u = some_inj (sym t_at ∙ u_at) in
    some_inj (sym on_c ∙ ap (λ (x : Task). x.on_cpu) same ∙ on_d)
