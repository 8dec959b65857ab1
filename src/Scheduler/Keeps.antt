-- ===== src/Scheduler/Keeps.antt =====
-- Changes of the run queue that leave every task where it is: on its CPU, with its pin and its
-- identity. All of the message passing, waking, sleeping and reaping is of this kind.
use native.Mathlib.Decide.{ℕ_discrete}
use mmurtl_rs.Base.{
  ℕ, ◌≡◌, ◌≢◌, ◌⊎◌, inl, inr, refl, true, sym, ap, ◌∙◌, subst, get_elem?_det, none, some, List,
  get_elem?, set, map, Pointwise, Pointwise-refl, Pointwise-before, Pointwise-after, Pointwise-map,
  Pointwise-set, Pointwise-trans,
}
use mmurtl_rs.Scheduler.{TaskState, Task}

-- A reaped task has exited and is on no CPU.
abbrev pub ReapedIsDead : Task → Type 0
ReapedIsDead t = t.reaped ≡ true → (t.state ≡ TaskState.exited) × (t.on_cpu ≡ none)

-- A task may stop running, and only a task that no CPU is bound to may exit.
pub record Keep (t t' : Task) : Type 0 where
  pub same_id : t'.id ≡ t.id
  pub same_pin : t'.pinned_cpu ≡ t.pinned_cpu
  pub same_cpu : t'.on_cpu ≡ t.on_cpu
  pub running_before : t'.state ≡ TaskState.running → t.state ≡ TaskState.running
  pub exit_unpinned :
      t'.state ≡ TaskState.exited → (t.state ≡ TaskState.exited) ⊎ (t.pinned_cpu ≡ none)
  pub reaped_dead : ReapedIsDead t → ReapedIsDead t'

pub Keep-refl : (t : Task) → Keep t t
Keep-refl t = record {
  same_id = refl;
  same_pin = refl;
  same_cpu = refl;
  running_before = λ h. h;
  exit_unpinned = λ h. inl h;
  reaped_dead = λ h. h;
}

-- A running task that blocks, sleeps or goes on.
pub on_cpu-Keep :
    (t u : Task) {c : ℕ}
    → t.on_cpu ≡ some c
    → u.id ≡ t.id
    → u.pinned_cpu ≡ t.pinned_cpu
    → u.on_cpu ≡ t.on_cpu
    → (u.state ≡ TaskState.running → t.state ≡ TaskState.running)
    → (u.state ≡ TaskState.exited → t.state ≡ TaskState.exited)
    → u.reaped ≡ t.reaped
    → Keep t u
on_cpu-Keep t u on id pin cpu run exit reaped = record {
  same_id = id;
  same_pin = pin;
  same_cpu = cpu;
  running_before = run;
  exit_unpinned = λ h. inl (exit h);
  reaped_dead = λ d r. absurd (cc (d (sym reaped ∙ r)).1);
}

Keep-trans : (t u v : Task) → Keep t u → Keep u v → Keep t v
Keep-trans t u v k l = record {
  same_id = l.same_id ∙ k.same_id;
  same_pin = l.same_pin ∙ k.same_pin;
  same_cpu = l.same_cpu ∙ k.same_cpu;
  running_before = λ h. k.running_before (l.running_before h);
  exit_unpinned = λ h. elim (l.exit_unpinned h) [
    | inl e ↦ k.exit_unpinned e
    | inr e ↦ inr (sym k.same_pin ∙ e)
  ];
  reaped_dead = λ h. l.reaped_dead (k.reaped_dead h);
}

abbrev pub Keeps : List Task → List Task → Type 0
Keeps = Pointwise Keep

pub Keeps-refl : (ts : List Task) → Keeps ts ts
Keeps-refl = Pointwise-refl Keep Keep-refl

pub Keeps-trans : (ts us vs : List Task) → Keeps ts us → Keeps us vs → Keeps ts vs
Keeps-trans = Pointwise-trans Keep Keep-trans

pub Keeps-set :
    (ts : List Task) (i : ℕ) {t : Task} (t' : Task)
    → get_elem? ts i ≡ some t
    → Keep t t'
    → Keeps ts (set ts i t')
Keeps-set ts i t' at k = Pointwise-set Keep Keep-refl ts i t' at k

pub Keeps-map :
    (f : Task → Task) → ((t : Task) → Keep t (f t)) → (ts : List Task) → Keeps ts (map f ts)
Keeps-map = Pointwise-map Keep

-- What a task was before, and what it is after.
pub Keeps-before :
    (ts us : List Task) (i : ℕ) {u : Task}
    → Keeps ts us
    → get_elem? us i ≡ some u
    → (t : Task) × (get_elem? ts i ≡ some t) × Keep t u
Keeps-before ts us i k at = Pointwise-before Keep ts us i k at

pub Keeps-after :
    (ts us : List Task) (i : ℕ) {t : Task}
    → Keeps ts us
    → get_elem? ts i ≡ some t
    → (u : Task) × (get_elem? us i ≡ some u) × Keep t u
Keeps-after ts us i k at = Pointwise-after Keep ts us i k at

-- The same seen from the indices.
pub record Steady (ts us : List Task) : Type 0 where
  pub before :
      (i : ℕ) (u : Task)
      → get_elem? us i ≡ some u
      → (t : Task) × (get_elem? ts i ≡ some t) × Keep t u
  pub after :
      (i : ℕ) (t : Task)
      → get_elem? ts i ≡ some t
      → (u : Task) × (get_elem? us i ≡ some u) × Keep t u

pub Keeps-Steady : (ts us : List Task) → Keeps ts us → Steady ts us
Keeps-Steady ts us k = record {
  before = λ i u at. Keeps-before ts us i k at;
  after = λ i t at. Keeps-after ts us i k at;
}

-- It is enough to look at the two tasks that may have changed.
pub changed-Steady :
    (ts us : List Task) (i j : ℕ) {x y x' y' : Task}
    → get_elem? ts i ≡ some x
    → get_elem? ts j ≡ some y
    → get_elem? us i ≡ some x'
    → get_elem? us j ≡ some y'
    → Keep x x'
    → Keep y y'
    → ((k : ℕ) → k ≢ i → k ≢ j → get_elem? us k ≡ get_elem? ts k)
    → Steady ts us
changed-Steady ts us i j {x} {y} {x'} {y'} xi yj xi' yj' kx ky others = record {
  before = λ k u at. elim (ℕ_discrete k i) [
    | yes e ↦ (x, ap (get_elem? ts) e ∙ xi, subst (Keep x) (get_elem?_det us (sym e) xi' at) kx)
    | no ne ↦ elim (ℕ_discrete k j) [
      | yes e ↦ (y, ap (get_elem? ts) e ∙ yj, subst (Keep y) (get_elem?_det us (sym e) yj' at) ky)
      | no ne' ↦ (u, sym (others k ne ne') ∙ at, Keep-refl u)
    ]
  ];
  after = λ k t at. elim (ℕ_discrete k i) [
    | yes e ↦
        (x', ap (get_elem? us) e ∙ xi', subst (λ w. Keep w x') (get_elem?_det ts (sym e) xi at) kx)
    | no ne ↦ elim (ℕ_discrete k j) [
      | yes e ↦ (
        y',
        ap (get_elem? us) e ∙ yj',
        subst (λ w. Keep w y') (get_elem?_det ts (sym e) yj at) ky,
      )
      | no ne' ↦ (t, others k ne ne' ∙ at, Keep-refl t)
    ]
  ];
}
