-- ===== src/Asids/Valid.antt =====
-- The invariant of the tag pool, and the changes of one space that keep it.
use mmurtl_rs.Base.{
  ℕ, ◌^◌, ◌≤◌, ◌<◌, ◌≡◌, ◌≢◌, refl, sym, ap, ◌∙◌, subst, inl, inr, true, ◌==◌, some, get_elem?,
  set_cases, get_elem?_det, get_elem?-set_self, get_elem?-set_ne, get_elem?-lt, arith, Bool-cases,
}
use mmurtl_rs.Asids.{Space, Asids, with_space}

-- A tag that a user space may have.
abbrev pub IsTag : Asids → ℕ → Type 0
IsTag a t = (1 ≤ t) × (t ≤ a.limit) × (t ≢ 255)

-- Each space of generation `g` or later has a tag that is in use and no other such space's.
pub record IsTagged (g : ℕ) (a : Asids) : Type 0 where
  pub small : a.limit < 2 ^ 16
  pub some_tags : 1 ≤ a.limit
  pub next_in : (1 ≤ a.next) × (a.next ≤ a.limit)
  pub reserved : (a.used 0 ≡ true) × (a.used 255 ≡ true)
  pub roots :
      (i j : ℕ) (s t : Space)
      → get_elem? a.spaces i ≡ some s
      → get_elem? a.spaces j ≡ some t
      → s.root ≢ 0
      → s.root ≡ t.root
      → i ≡ j
  pub tags :
      (i : ℕ) (s : Space)
      → get_elem? a.spaces i ≡ some s
      → s.root ≢ 0
      → g ≤ s.generation
      → IsTag a s.tag
  pub apart :
      (i j : ℕ) (s t : Space)
      → get_elem? a.spaces i ≡ some s
      → get_elem? a.spaces j ≡ some t
      → s.root ≢ 0
      → t.root ≢ 0
      → g ≤ s.generation
      → g ≤ t.generation
      → s.tag ≡ t.tag
      → i ≡ j
  pub marked :
      (i : ℕ) (s : Space)
      → get_elem? a.spaces i ≡ some s
      → s.root ≢ 0
      → s.generation ≡ a.generation
      → a.used s.tag ≡ true
  pub empty : (i : ℕ) (s : Space) → get_elem? a.spaces i ≡ some s → s.root ≡ 0 → s.generation ≡ 0
  pub old : (i : ℕ) (s : Space) → get_elem? a.spaces i ≡ some s → s.generation ≤ a.generation

-- A CPU that runs a user root runs it with the tag of the space, of generation `g` or later.
abbrev pub Runs : ℕ → Asids → ℕ → ℕ → Type 0
Runs g a r t =
    (i : ℕ) × (s : Space) × (get_elem? a.spaces i ≡ some s)
    × (s.root ≡ r)
    × (s.tag ≡ t)
    × (g ≤ s.generation)

pub record IsValid (a : Asids) : Type 0 where
  pub tagged : IsTagged a.generation a
  pub begun : 1 ≤ a.generation
  pub running : (c r t : ℕ) → get_elem? a.active c ≡ some (r, t) → r ≢ 0 → Runs a.generation a r t

-- A space that takes a tag of its own keeps the rest apart.
module _ (g : ℕ) (a : Asids) (i : ℕ) (s : Space) (tag : ℕ) (v : IsTagged g a)
    (at : get_elem? a.spaces i ≡ some s) (is_user : s.root ≢ 0) (in_range : IsTag a tag)
    (in_use : a.used tag ≡ true) (now : g ≤ a.generation)
    (own : (j : ℕ) (t : Space)
      → get_elem? a.spaces j ≡ some t
      → i ≢ j
      → t.root ≢ 0
      → g ≤ t.generation
      → t.tag ≢ tag) where
  abbrev given : Space
  given = record s { tag = tag; generation = a.generation }

  pub given-IsTagged : IsTagged g (with_space i given a)
  given-IsTagged = record {
    small = v.small;
    some_tags = v.some_tags;
    next_in = v.next_in;
    reserved = v.reserved;
    roots = λ j k p q j_at k_at user same. elim (set_cases a.spaces i j given j_at) [
      | inl (ij, p_is) ↦ elim (set_cases a.spaces i k given k_at) [
        | inl (ik, q_is) ↦ sym ij ∙ ik
        | inr (ik, k_old) ↦
            let p_root : p.root ≡ s.root = ap (λ (x : Space). x.root) p_is in
            sym ij ∙ v.roots i k s q at k_old (λ e. user (p_root ∙ e)) (sym p_root ∙ same)
      ]
      | inr (ij, j_old) ↦ elim (set_cases a.spaces i k given k_at) [
        | inl (ik, q_is) ↦
            let q_root : q.root ≡ s.root = ap (λ (x : Space). x.root) q_is in
            v.roots j i p s j_old at user (same ∙ q_root) ∙ ik
        | inr (ik, k_old) ↦ v.roots j k p q j_old k_old user same
      ]
    ];
    tags = λ j p j_at user late. elim (set_cases a.spaces i j given j_at) [
      | inl (ij, p_is) ↦ subst (IsTag a) (sym (ap (λ (x : Space). x.tag) p_is)) in_range
      | inr (ij, j_old) ↦ v.tags j p j_old user late
    ];
    apart = λ j k p q j_at k_at user_p user_q late_p late_q same.
        elim (set_cases a.spaces i j given j_at) [
          | inl (ij, p_is) ↦ elim (set_cases a.spaces i k given k_at) [
            | inl (ik, q_is) ↦ sym ij ∙ ik
            | inr (ik, k_old) ↦
                absurd (own k q k_old ik user_q late_q (sym same ∙ ap (λ (x : Space). x.tag) p_is))
          ]
          | inr (ij, j_old) ↦ elim (set_cases a.spaces i k given k_at) [
            | inl (ik, q_is) ↦
                absurd (own j p j_old ij user_p late_p (same ∙ ap (λ (x : Space). x.tag) q_is))
            | inr (ik, k_old) ↦ v.apart j k p q j_old k_old user_p user_q late_p late_q same
          ]
        ];
    marked = λ j p j_at user late. elim (set_cases a.spaces i j given j_at) [
      | inl (ij, p_is) ↦ subst (λ x. a.used x ≡ true) (sym (ap (λ (x : Space). x.tag) p_is)) in_use
      | inr (ij, j_old) ↦ v.marked j p j_old user late
    ];
    empty = λ j p j_at none_here. elim (set_cases a.spaces i j given j_at) [
      | inl (ij, p_is) ↦ absurd (is_user (sym (ap (λ (x : Space). x.root) p_is) ∙ none_here))
      | inr (ij, j_old) ↦ v.empty j p j_old none_here
    ];
    old = λ j p j_at. elim (set_cases a.spaces i j given j_at) [
      | inl (ij, p_is) ↦ omega (arith, ap (λ (x : Space). x.generation) p_is)
      | inr (ij, j_old) ↦ v.old j p j_old
    ];
  }

  -- What runs stays running, if the space ran with that tag or not at all.
  pub given-Runs :
      (r t : ℕ) (h : ℕ)
      → h ≤ a.generation
      → ((x : ℕ) → x ≡ r → s.root ≡ x → h ≤ s.generation → s.tag ≡ tag)
      → Runs h a r t
      → Runs h (with_space i given a) r t
  given-Runs r t h late same (j, p, j_at, p_root, p_tag, p_late) = elim (Bool-cases (i == j)) [
    | inl e ↦
        let ij : i ≡ j = ground arith in
        let p_is : s ≡ p = get_elem?_det a.spaces ij at j_at in
        let s_root : s.root ≡ r = ap (λ (x : Space). x.root) p_is ∙ p_root in
        let s_tag : s.tag ≡ t = ap (λ (x : Space). x.tag) p_is ∙ p_tag in
        let s_late : h ≤ s.generation = omega (arith, ap (λ (x : Space). x.generation) p_is) in
        (
          i,
          given,
          get_elem?-set_self a.spaces i given (get_elem?-lt a.spaces i at),
          s_root,
          sym (same r refl s_root s_late) ∙ s_tag,
          late,
        )
    | inr e ↦
        let ij : i ≢ j = ground arith in
        (j, p, get_elem?-set_ne a.spaces i j given ij ∙ j_at, p_root, p_tag, p_late)
  ]
