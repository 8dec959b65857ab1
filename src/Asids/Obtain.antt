-- ===== src/Asids/Obtain.antt =====
-- The tag that a space without one of this generation takes.
use mmurtl_rs.Base.{
  ◌+◌, ℕ, ◌-◌, ◌^◌, ◌≤◌, ◌<◌, ◌≡◌, ◌≢◌, refl, sym, ap, ◌∙◌, subst, inl, inr, Bool, true, false,
  ◌==◌, Option, none, some, some_inj, get_elem?, get_elem?_det, arith, Bool-cases, if◌then◌else◌,
}
use mmurtl_rs.Asids.{Space, Asids, mark, allocate, rollover, obtain}
use mmurtl_rs.Asids.Valid.{IsTag, IsValid}
use mmurtl_rs.Asids.Alloc.{
  Finds, found, missed, allocate-Finds, IsFull, allocate-IsFull, moved, mark-IsTagged,
  moved-IsTagged,
}
use mmurtl_rs.Asids.Reload.{SameRoots, IsRun, rollover_lem}

-- A tag that the space at `index` may take: no other space of this generation has it.
pub record IsOwn (index tag : ℕ) (a : Asids) : Type 0 where
  pub in_range : IsTag a tag
  pub in_use : a.used tag ≡ true
  pub alone :
      (j : ℕ) (t : Space)
      → get_elem? a.spaces j ≡ some t
      → index ≢ j
      → t.root ≢ 0
      → a.generation ≤ t.generation
      → t.tag ≢ tag
  pub kept :
      (t : Space)
      → get_elem? a.spaces index ≡ some t
      → t.root ≢ 0
      → a.generation ≤ t.generation
      → t.tag ≡ tag

-- What `obtain` gives.
pub record Obtains (index : ℕ) (a : Asids) (r : Option ℕ × Bool × Asids) : Type 0 where
  pub valid : IsValid r.2
  pub active : r.2.active ≡ a.active
  pub roots : SameRoots a r.2
  pub own : (tag : ℕ) → r.0 ≡ some tag → IsOwn index tag r.2
  pub told :
      r.0 ≡ none
      → (r.1 ≡ true)
        × (r.2.generation ≡ a.generation + 1)
        × ((t : ℕ) → IsTag r.2 t → (r.2.used t ≡ true) × IsRun r.2.active t)

marked-IsValid :
    (n t : ℕ) (a : Asids) → IsValid a → (1 ≤ n) × (n ≤ a.limit) → IsValid (mark t (moved n a))
marked-IsValid n t a v n_in = record {
  tagged = mark-IsTagged a.generation n t a v.tagged n_in;
  begun = v.begun;
  running = v.running;
}

moved-IsValid : (n : ℕ) (a : Asids) → IsValid a → (1 ≤ n) × (n ≤ a.limit) → IsValid (moved n a)
moved-IsValid n a v n_in = record {
  tagged = moved-IsTagged a.generation n a v.tagged n_in;
  begun = v.begun;
  running = v.running;
}

-- A tag that was not in use belongs to no space of this generation.
fresh-IsOwn :
    (index n t : ℕ) (a : Asids) {s : Space}
    → IsValid a
    → get_elem? a.spaces index ≡ some s
    → s.generation ≢ a.generation
    → IsTag a t
    → a.used t ≡ false
    → IsOwn index t (mark t (moved n a))
fresh-IsOwn index n t a {s} v at stale t_in free = record {
  in_range = t_in;
  in_use = ground arith;
  alone = λ j p j_at ne user late same.
      let now : p.generation ≡ a.generation = omega (arith, v.tagged.old j p j_at) in
      absurd (cc (v.tagged.marked j p j_at user now, ap a.used same, free));
  kept = λ p p_at user late.
      let now : p.generation ≡ a.generation = omega (arith, v.tagged.old index p p_at) in
      absurd (stale (ap (λ (x : Space). x.generation) (get_elem?_det a.spaces refl at p_at) ∙ now));
}

-- The space that is current has its tag for itself.
current-IsOwn :
    (index : ℕ) (a : Asids) (s : Space)
    → IsValid a
    → get_elem? a.spaces index ≡ some s
    → s.root ≢ 0
    → s.generation ≡ a.generation
    → IsOwn index s.tag a
current-IsOwn index a s v at user now = record {
  in_range = v.tagged.tags index s at user (omega arith);
  in_use = v.tagged.marked index s at user now;
  alone = λ j p j_at ne p_user late same.
      absurd (ne (v.tagged.apart index j s p at j_at user p_user (omega arith) late (sym same)));
  kept = λ p p_at p_user late. ap (λ (x : Space). x.tag) (get_elem?_det a.spaces refl p_at at);
}

abbrev retry : ℕ → Asids → Space → Option ℕ × Bool × Asids
retry index b s =
    if s.generation == b.generation
    then (some s.tag, true, b)
    else ((allocate b).0, true, (allocate b).1)

obtain-some :
    (index : ℕ) (a : Asids) {t : ℕ}
    → (allocate a).0 ≡ some t
    → obtain index a ≡ some (some t, false, (allocate a).1)
unfolding obtain
obtain-some index a e = rw (e, obtain) refl

obtain-none :
    (index : ℕ) (a b : Asids) {s : Space}
    → (allocate a).0 ≡ none
    → rollover (allocate a).1 ≡ some b
    → get_elem? b.spaces index ≡ some s
    → obtain index a ≡ some (retry index b s)
unfolding obtain
obtain-none index a b e f g = rw (e, obtain) (rw (f, g) refl)

-- After a new generation, with the tag kept or a new one.
retry-Obtains :
    (index : ℕ) (a b : Asids) (s : Space)
    → IsValid b
    → b.active ≡ a.active
    → SameRoots a b
    → b.generation ≡ a.generation + 1
    → ((t : ℕ) → IsTag b t → b.used t ≡ true → IsRun b.active t)
    → get_elem? b.spaces index ≡ some s
    → s.root ≢ 0
    → Obtains index a (retry index b s)
retry-Obtains index a b s v active roots newer only_run at user =
    elim (Bool-cases (s.generation == b.generation)) [
      | inl now ↦ rw now (record {
        valid = v;
        active = active;
        roots = roots;
        own = λ t e.
            subst (λ x. IsOwn index x b) (some_inj e)
              (current-IsOwn index b s v at user (ground arith));
        told = λ e. absurd (cc e);
      })
      | inr stale ↦
          rw stale (
            go (allocate b) (allocate-Finds b v.tagged) (allocate-IsFull b v.tagged) (ground arith))
    ]
  where
    go :
        (r : Option ℕ × Asids)
        → Finds b r
        → (r.0 ≡ none → IsFull b)
        → s.generation ≢ b.generation
        → Obtains index a (r.0, true, r.1)
    go r (found n t n_in t_in free) full stale = record {
      valid = marked-IsValid n t b v n_in;
      active = active;
      roots = roots;
      own = λ x e.
          subst (λ y. IsOwn index y (mark t (moved n b))) (some_inj e)
            (fresh-IsOwn index n t b v at stale t_in free);
      told = λ e. absurd (cc e);
    }
    go r (missed n n_in) full stale = record {
      valid = moved-IsValid n b v n_in;
      active = active;
      roots = roots;
      own = λ x e. absurd (cc e);
      told =
          λ e. (refl, newer, λ t t_in. let used = full refl t t_in in (used, only_run t t_in used));
    }

pub obtain_lem :
    (index : ℕ) (a : Asids) (s : Space)
    → IsValid a
    → get_elem? a.spaces index ≡ some s
    → s.root ≢ 0
    → s.generation ≢ a.generation
    → a.generation < 2 ^ 64 - 1
    → (r : Option ℕ × Bool × Asids) × (obtain index a ≡ some r) × Obtains index a r
obtain_lem index a s v at user stale left = go (allocate a) refl (allocate-Finds a v.tagged)
  where
    go :
        (r : Option ℕ × Asids)
        → allocate a ≡ r
        → Finds a r
        → (q : Option ℕ × Bool × Asids) × (obtain index a ≡ some q) × Obtains index a q
    go r e (found n t n_in t_in free) =
        let whole : obtain index a ≡ some (some t, false, mark t (moved n a)) =
          obtain-some index a (ap (λ (x : Option ℕ × Asids). x.0) e)
          ∙ ap (λ (x : Option ℕ × Asids). some (some t, false, x.1)) e in
        (
          (some t, false, mark t (moved n a)),
          whole,
          record {
            valid = marked-IsValid n t a v n_in;
            active = refl;
            roots = λ i p p_at. (p, p_at, refl);
            own = λ x f.
                subst (λ y. IsOwn index y (mark t (moved n a))) (some_inj f)
                  (fresh-IsOwn index n t a v at stale t_in free);
            told = λ f. absurd (cc f);
          },
        )
    go r e (missed n n_in) =
        let (b, rolled, x) = rollover_lem (moved n a) (moved-IsValid n a v n_in) left in
        let (p, p_at, p_root) = x.roots index s at in
        let rolled' : rollover (allocate a).1 ≡ some b =
          ap (λ (y : Option ℕ × Asids). rollover y.1) e ∙ rolled in
        (
          retry index b p,
          obtain-none index a b (ap (λ (y : Option ℕ × Asids). y.0) e) rolled' p_at,
          retry-Obtains index a b p x.valid x.active x.roots x.newer x.only_run p_at
              (λ f. user (sym p_root ∙ f)),
        )
