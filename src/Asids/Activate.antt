-- ===== src/Asids/Activate.antt =====
-- Loading an address space on a CPU: no panic, and the pool stays valid.
use mmurtl_rs.Base.{
  ◌+◌, ℕ, ◌-◌, ◌^◌, ◌<◌, ◌≡◌, ◌≢◌, refl, sym, ap, ◌∙◌, subst, ◌⊎◌, inl, inr, Bool, true, false,
  ◌==◌, Option, none, some, List, length, get_elem?, set, set_cases, get_elem?_det,
  get_elem?-set_self, get_elem?-lt, lt-get_elem?, arith, Bool-cases,
}
use mmurtl_rs.Asids.{Space, Asids, with_space, load, assign, activate}
use mmurtl_rs.Asids.Valid.{IsTag, IsValid, Runs, given-IsTagged, given-Runs}
use mmurtl_rs.Asids.Reload.{IsRun, position-root}
use mmurtl_rs.Asids.Obtain.{Obtains, obtain_lem}

-- A CPU that runs a root with the tag of its space, or runs none.
pub load-IsValid :
    (cpu root tag : ℕ) (a : Asids)
    → IsValid a
    → (root ≢ 0 → Runs a.generation a root tag)
    → IsValid (record a { active = set a.active cpu (root, tag) })
load-IsValid cpu root tag a v runs = record {
  tagged = record {
    small = v.tagged.small;
    some_tags = v.tagged.some_tags;
    next_in = v.tagged.next_in;
    reserved = v.tagged.reserved;
    roots = v.tagged.roots;
    tags = v.tagged.tags;
    apart = v.tagged.apart;
    marked = v.tagged.marked;
    empty = v.tagged.empty;
    old = v.tagged.old;
  };
  begun = v.begun;
  running = λ c r t at user. elim (set_cases a.active cpu c (root, tag) at) [
    | inl (same, e) ↦
        let here : root ≢ 0 = λ f. user (ap (λ (x : ℕ × ℕ). x.0) e ∙ f) in
        subst (λ (p : ℕ × ℕ). Runs a.generation a p.0 p.1) (sym e) (runs here)
    | inr (other, old) ↦ v.running c r t old user
  ];
}

-- What loading a root promises: the CPU runs it with its tag, or every tag of a new generation is run
-- by a CPU, all CPUs must flush, and what runs is as before.
pub record Loads (cpu root : ℕ) (a : Asids) (r : (Option ℕ × Bool) × Asids) : Type 0 where
  pub valid : IsValid r.1
  pub outcome :
      ((t : ℕ) × (r.0.0 ≡ some t)
        × (get_elem? r.1.active cpu ≡ some (root, t))
        × Runs r.1.generation r.1 root t)
      ⊎ ((r.0 ≡ (none, true))
          × (r.1.active ≡ a.active)
          × (r.1.generation ≡ a.generation + 1)
          × ((t : ℕ) → IsTag r.1 t → (r.1.used t ≡ true) × IsRun r.1.active t))

load-Loads :
    (cpu root tag : ℕ) (flush : Bool) (a b : Asids)
    → IsValid b
    → b.active ≡ a.active
    → cpu < length a.active
    → Runs b.generation b root tag
    → Loads cpu root a (load cpu root tag flush b)
load-Loads cpu root tag flush a b v same lt runs = record {
  valid = load-IsValid cpu root tag b v (λ user. runs);
  outcome = inl (
    tag,
    refl,
    get_elem?-set_self b.active cpu (root, tag)
        (subst (λ (l : List (ℕ × ℕ)). cpu < length l) (sym same) lt),
    runs,
  );
}

assign-Loads :
    (cpu index : ℕ) (a : Asids) (s : Space) (r : Option ℕ × Bool × Asids)
    → cpu < length a.active
    → get_elem? a.spaces index ≡ some s
    → s.root ≢ 0
    → Obtains index a r
    → Loads cpu s.root a (assign cpu s.root index s r)
assign-Loads cpu index a s (none, flush, b) lt at user x = record {
  valid = x.valid;
  outcome =
      let (all_flush, newer, full) = x.told refl in
      inr (ap (λ (f : Bool). (none, f)) all_flush, x.active, newer, full);
}
assign-Loads cpu index a s (some tag, flush, b) lt at user x =
    let o = x.own tag refl in
    let (p, p_at, p_root) = x.roots index s at in
    let p_user : p.root ≢ 0 = λ e. user (sym p_root ∙ e) in
    let c = with_space index (record p { tag = tag; generation = b.generation }) b in
    let v =
      given-IsTagged b.generation b index p tag x.valid.tagged p_at p_user o.in_range o.in_use
        (omega arith) o.alone in
    let carry =
      given-Runs b.generation b index p tag x.valid.tagged p_at p_user o.in_range o.in_use
        (omega arith) o.alone in
    let valid : IsValid c = record {
      tagged = v;
      begun = x.valid.begun;
      running = λ k r t k_at k_user.
          carry r t b.generation (omega arith) (λ y yr py late. o.kept p p_at p_user late)
            (x.valid.running k r t k_at k_user);
    } in
    let runs : Runs b.generation c s.root tag = (
      index,
      record p { tag = tag; generation = b.generation },
      get_elem?-set_self b.spaces index _ (get_elem?-lt b.spaces index p_at),
      p_root,
      refl,
      omega arith,
    ) in
    let same : c ≡ with_space index (record s { tag = tag; generation = b.generation }) b =
      ap (λ (k : ℕ). with_space index (record { root = k; tag = tag; generation = b.generation }) b)
        p_root in
    subst (λ (d : Asids). Loads cpu s.root a (load cpu s.root tag flush d)) same
      (load-Loads cpu s.root tag flush a c valid x.active lt runs)

-- On a valid pool whose generation is below 2^64 - 1, a CPU that loads a registered address space
-- never panics; the pool stays valid, and the CPU runs the space with its tag of the current
-- generation, or no tag is returned, and then a new generation was begun in which every tag that a
-- space may have is in use and run by some CPU, a flush of all CPUs is asked for and what the CPUs
-- run is as before.
pub activate_lem :
    (cpu index : ℕ) (a : Asids) (s : Space)
    → IsValid a
    → cpu < length a.active
    → get_elem? a.spaces index ≡ some s
    → s.root ≢ 0
    → a.generation < 2 ^ 64 - 1
    → (r : (Option ℕ × Bool) × Asids) × (activate cpu s.root a ≡ some r) × Loads cpu s.root a r
unfolding activate
activate_lem cpu index a s v lt at user left =
    let (old, old_at) = lt-get_elem? a.active cpu lt in
    let is_user : (s.root == 0) ≡ false = ground arith in
    let place = position-root a index s v.tagged at user in
    elim (Bool-cases (s.generation == a.generation)) [
      | inl now ↦ (
        load cpu s.root s.tag false a,
        rw (old_at, is_user, place, at, now) refl,
        load-Loads cpu s.root s.tag false a a v refl lt (index, s, at, refl, refl, ground arith),
      )
      | inr stale ↦
          let (r, e, x) = obtain_lem index a s v at user (ground arith) left in
          (
            assign cpu s.root index s r,
            rw (old_at, is_user, place, at, stale, e) refl,
            assign-Loads cpu index a s r lt at user x,
          )
    ]

-- Two CPUs that run different address spaces run them with different tags.
pub running_apart :
    (a : Asids) (c d q r t u : ℕ)
    → IsValid a
    → get_elem? a.active c ≡ some (q, t)
    → get_elem? a.active d ≡ some (r, u)
    → q ≢ 0
    → r ≢ 0
    → q ≢ r
    → t ≢ u
running_apart a c d q r t u v c_at d_at q_user r_user apart same =
    let (i, s, at_i, s_root, s_tag, s_late) = v.running c q t c_at q_user in
    let (j, p, at_j, p_root, p_tag, p_late) = v.running d r u d_at r_user in
    let place : i ≡ j =
      v.tagged.apart i j s p at_i at_j (λ e. q_user (sym s_root ∙ e)) (λ e. r_user (sym p_root ∙ e))
        s_late p_late (s_tag ∙ same ∙ sym p_tag) in
    apart
      (sym s_root ∙ ap (λ (x : Space). x.root) (get_elem?_det a.spaces place at_i at_j) ∙ p_root)
