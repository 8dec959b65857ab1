-- ===== src/Fat/Select.antt =====
-- The choice of clusters in `allocate`.
use mmurtl_rs.Base.{
  ℕ, zero, suc, ◌+◌, ◌-◌, ◌%◌, ◌≤◌, ◌<◌, ◌≡◌, refl, sym, ap, ◌∙◌, subst, inl, inr, true, false,
  ◌==◌, none, some, some_inj, List, [], ◌∷◌, length, arith, Bool-cases, Option-cases, cycle_covers,
}
use mmurtl_rs.Fat.{Volume, valid, get, contains, select}

-- Every cluster of the list is free.
abbrev pub AreFree : Volume → List ℕ → Type 0
AreFree v [] = Unit
AreFree v (c ∷ cs) = (get v c ≡ some 0) × AreFree v cs

-- The cluster that the loop looks at in round `offset`.
abbrev pub at : Volume → ℕ → ℕ
at v offset = 2 + (v.hint - 2 + offset) % v.clusters

-- What `left` rounds from `offset` on promise, when they are asked for `count` clusters.
pub record Selects (v : Volume) (count offset left : ℕ) (cs : List ℕ) : Type 0 where
  pub free : AreFree v cs
  pub few : length cs ≤ count
  pub all :
      (m : ℕ)
      → length cs < count
      → offset ≤ m
      → m < offset + left
      → get v (at v m) ≡ some 0
      → contains (at v m) cs ≡ true

select-hit :
    (v : Volume) (more offset left : ℕ) {rest : List ℕ}
    → get v (at v offset) ≡ some 0
    → select v more (suc offset) left ≡ some rest
    → select v (suc more) offset (suc left) ≡ some (at v offset ∷ rest)
unfolding select
select-hit v more offset left e f = rw (e, f) refl

select-miss :
    (v : Volume) (more offset left value : ℕ)
    → get v (at v offset) ≡ some value
    → (value == 0) ≡ false
    → select v (suc more) offset (suc left) ≡ select v (suc more) (suc offset) left
unfolding select
select-miss v more offset left value e f =
    elim (Option-cases (select v (suc more) (suc offset) left)) [
      | inl g ↦ rw (e, f, g) refl
      | inr (rest, g) ↦ rw (e, f, g) refl
    ]

select-gone :
    (v : Volume) (more offset left : ℕ)
    → get v (at v offset) ≡ some 0
    → select v more (suc offset) left ≡ none
    → select v (suc more) offset (suc left) ≡ none
unfolding select
select-gone v more offset left e f = rw (e, f) refl

select-bad :
    (v : Volume) (more offset left : ℕ)
    → get v (at v offset) ≡ none
    → select v (suc more) offset (suc left) ≡ none
unfolding select
select-bad v more offset left e = rw e refl

select-Selects :
    (v : Volume) (count offset left : ℕ) {cs : List ℕ}
    → select v count offset left ≡ some cs
    → Selects v count offset left cs
select-Selects v zero offset left {cs} h =
    let e : [] ≡ cs = some_inj (unfold select in h) in
    subst (Selects v zero offset left) e
      (record { free = tt; few = omega arith; all = λ m lt. absurd (omega arith) })
select-Selects v (suc more) offset zero {cs} h =
    let e : [] ≡ cs = some_inj (unfold select in h) in
    subst (Selects v (suc more) offset zero) e
      (record { free = tt; few = omega arith; all = λ m lt le below. absurd (omega arith) })
select-Selects v (suc more) offset (suc left) {cs} h = elim (Option-cases (get v (at v offset))) [
  | inl bad ↦ absurd (cc (sym (select-bad v more offset left bad) ∙ h))
  | inr (value, e) ↦ elim (Bool-cases (value == 0)) [
    | inl is_zero ↦
        let nil : value ≡ 0 = ground arith in
        let e0 : get v (at v offset) ≡ some 0 = e ∙ ap (λ (x : ℕ). some x) nil in
        elim (Option-cases (select v more (suc offset) left)) [
          | inl gone ↦ absurd (cc (sym (select-gone v more offset left e0 gone) ∙ h))
          | inr (rest, f) ↦
              let r = select-Selects v more (suc offset) left f in
              let whole : (at v offset ∷ rest) ≡ cs =
                some_inj (sym (select-hit v more offset left e0 f) ∙ h) in
              subst (Selects v (suc more) offset (suc left)) whole (record {
                free = (e0, r.free);
                few = omega (arith, r.few);
                all = λ m lt le below is_free. elim (Bool-cases (offset == m)) [
                  | inl same ↦ ground arith
                  | inr other ↦
                      let later = r.all m (omega arith) (ground arith) (omega arith) is_free in
                      ground arith
                ];
              })
        ]
    | inr busy ↦
        let r =
          select-Selects v (suc more) (suc offset) left
            (sym (select-miss v more offset left value e busy) ∙ h) in
        record {
          free = r.free;
          few = r.few;
          all = λ m lt le below is_free. elim (Bool-cases (offset == m)) [
            | inl same ↦
                let k : offset ≡ m = ground arith in
                let e' : get v (at v offset) ≡ some 0 =
                  subst (λ x. get v (at v x) ≡ some 0) (sym k) is_free in
                let nil : value ≡ 0 = some_inj (sym e ∙ e') in absurd (ground arith)
            | inr other ↦ r.all m lt (ground arith) (omega arith) is_free
          ];
        }
  ]
]

-- The clusters that the scan of `allocate` selects are free and at most as many as asked for; and
-- where they are fewer, each free cluster of the volume is among them.
pub select_lem :
    (v : Volume) (count : ℕ) {cs : List ℕ}
    → select v count 0 v.clusters ≡ some cs
    → AreFree v cs
      × (length cs ≤ count)
      × ((c : ℕ) → length cs < count → valid v c ≡ true → get v c ≡ some 0 → contains c cs ≡ true)
select_lem v count {cs} h =
    let r = select-Selects v count 0 v.clusters h in
    (
      r.free,
      r.few,
      λ c lt ok is_free.
          let (m, m_lt, there) = cycle_covers (v.hint - 2) v.clusters (c - 2) (ground arith) in
          let same : at v m ≡ c = ground arith in
          subst (λ x. contains x cs ≡ true) same
            (r.all m lt (omega arith) (omega arith)
              (subst (λ x. get v x ≡ some 0) (sym same) is_free)),
    )
