-- ===== src/Asids/Spaces.antt =====
-- An address space that is added or taken away keeps the pool valid.
use mmurtl_rs.Base.{
  ℕ, ◌≡◌, ◌≢◌, refl, sym, ap, ◌∙◌, subst, inl, inr, Bool, true, false, not, ◌&&◌, ◌==◌, none, some,
  some_inj, get_elem?, get_elem?_det, get_elem?-set_ne, set_cases, position, position-some, any,
  any-false, arith, Bool-cases, Option-cases,
}
use mmurtl_rs.Asids.{Space, Asids, is_root, runs_root, empty_space, with_space, register, release}
use mmurtl_rs.Asids.Valid.{IsValid}

-- A place whose space runs nowhere gets a space that is not current, with a root of its own or none.
swap-IsValid :
    (i : ℕ) (s p : Space) (a : Asids)
    → IsValid a
    → get_elem? a.spaces i ≡ some s
    → p.generation ≡ 0
    → ((j : ℕ) (t : Space) → get_elem? a.spaces j ≡ some t → p.root ≢ 0 → t.root ≢ p.root)
    → ((c r t : ℕ) → get_elem? a.active c ≡ some (r, t) → r ≢ 0 → s.root ≢ r)
    → IsValid (with_space i p a)
swap-IsValid i s p a v at none_yet own idle = record {
  tagged = record {
    small = v.tagged.small;
    some_tags = v.tagged.some_tags;
    next_in = v.tagged.next_in;
    reserved = v.tagged.reserved;
    roots = λ j k x y j_at k_at user same. elim (set_cases a.spaces i j p j_at) [
      | inl (ij, x_is) ↦ elim (set_cases a.spaces i k p k_at) [
        | inl (ik, y_is) ↦ sym ij ∙ ik
        | inr (ik, k_old) ↦
            let x_root : x.root ≡ p.root = ap (λ (z : Space). z.root) x_is in
            absurd (own k y k_old (λ e. user (x_root ∙ e)) (sym same ∙ x_root))
      ]
      | inr (ij, j_old) ↦ elim (set_cases a.spaces i k p k_at) [
        | inl (ik, y_is) ↦
            let y_root : y.root ≡ p.root = ap (λ (z : Space). z.root) y_is in
            absurd (own j x j_old (λ e. user (same ∙ y_root ∙ e)) (same ∙ y_root))
        | inr (ik, k_old) ↦ v.tagged.roots j k x y j_old k_old user same
      ]
    ];
    tags = λ j x j_at user late. elim (set_cases a.spaces i j p j_at) [
      | inl (ij, x_is) ↦ absurd (omega (arith, v.begun, ap (λ (z : Space). z.generation) x_is))
      | inr (ij, j_old) ↦ v.tagged.tags j x j_old user late
    ];
    apart = λ j k x y j_at k_at user_x user_y late_x late_y same.
        elim (set_cases a.spaces i j p j_at) [
          | inl (ij, x_is) ↦ absurd (omega (arith, v.begun, ap (λ (z : Space). z.generation) x_is))
          | inr (ij, j_old) ↦ elim (set_cases a.spaces i k p k_at) [
            | inl (ik, y_is) ↦
                absurd (omega (arith, v.begun, ap (λ (z : Space). z.generation) y_is))
            | inr (ik, k_old) ↦ v.tagged.apart j k x y j_old k_old user_x user_y late_x late_y same
          ]
        ];
    marked = λ j x j_at user now. elim (set_cases a.spaces i j p j_at) [
      | inl (ij, x_is) ↦ absurd (omega (arith, v.begun, ap (λ (z : Space). z.generation) x_is))
      | inr (ij, j_old) ↦ v.tagged.marked j x j_old user now
    ];
    empty = λ j x j_at none_here. elim (set_cases a.spaces i j p j_at) [
      | inl (ij, x_is) ↦ ap (λ (z : Space). z.generation) x_is ∙ none_yet
      | inr (ij, j_old) ↦ v.tagged.empty j x j_old none_here
    ];
    old = λ j x j_at. elim (set_cases a.spaces i j p j_at) [
      | inl (ij, x_is) ↦ omega (arith, ap (λ (z : Space). z.generation) x_is)
      | inr (ij, j_old) ↦ v.tagged.old j x j_old
    ];
  };
  begun = v.begun;
  running = λ c r t c_at user.
      let (j, x, j_at, x_root, x_tag, x_late) = v.running c r t c_at user in
      let apart : i ≢ j = λ e.
        idle c r t c_at user
          (ap (λ (z : Space). z.root) (get_elem?_det a.spaces e at j_at) ∙ x_root) in
      (j, x, get_elem?-set_ne a.spaces i j p apart ∙ j_at, x_root, x_tag, x_late);
}

pub register-IsValid :
    (root : ℕ) (a : Asids) {r : Bool × Asids} → IsValid a → register root a ≡ some r → IsValid r.1
unfolding register
register-IsValid root a {r} v e =
    elim (Bool-cases (not (root == 0) && not (any (is_root root) a.spaces))) [
      | inr bad ↦
          let stopped : register root a ≡ none = rw (bad, register) refl in absurd (cc (stopped, e))
      | inl fine ↦ elim (Option-cases (position (is_root 0) a.spaces)) [
        | inl full ↦
            let refused : register root a ≡ some (false, a) = rw (fine, register) (rw full refl) in
            subst (λ (x : Bool × Asids). IsValid x.1) (some_inj (sym refused ∙ e)) v
        | inr (i, place) ↦
            let (s, at, is_free) = position-some (is_root 0) a.spaces place in
            let s_free : s.root ≡ 0 = ground arith in
            let taken : register root a ≡ some (true, with_space i (record s { root = root }) a) =
              rw (fine, register) (rw (place, at) refl) in
            subst (λ (x : Bool × Asids). IsValid x.1) (some_inj (sym taken ∙ e))
              (swap-IsValid i s (record s { root = root }) a v at (v.tagged.empty i s at s_free)
                (λ j t j_at user same.
                  let missed = any-false (is_root root) a.spaces j (ground arith) j_at in
                  absurd (ground arith))
                (λ c r t c_at user same. user (sym same ∙ s_free)))
      ]
    ]

pub release-IsValid :
    (root : ℕ) (a : Asids) {b : Asids} → IsValid a → release root a ≡ some b → IsValid b
unfolding release
release-IsValid root a {b} v e = elim (Bool-cases (any (runs_root root) a.active)) [
  | inl bad ↦
      let stopped : release root a ≡ none = rw (bad, release) refl in absurd (cc (stopped, e))
  | inr idle ↦ elim (Option-cases (position (is_root root) a.spaces)) [
    | inl missing ↦
        let stopped : release root a ≡ none = rw (idle, release) (rw missing refl) in
        absurd (cc (stopped, e))
    | inr (i, place) ↦
        let (s, at, is_its) = position-some (is_root root) a.spaces place in
        let s_root : s.root ≡ root = ground arith in
        let freed : release root a ≡ some (with_space i empty_space a) =
          rw (idle, release) (rw place refl) in
        subst IsValid (some_inj (sym freed ∙ e)) (
          swap-IsValid i s empty_space a v at refl (λ j t j_at user. absurd (user refl))
            (λ c r t c_at user same.
              let missed = any-false (runs_root root) a.active c idle c_at in
              absurd (ground arith)))
  ]
]
