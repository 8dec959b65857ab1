-- ===== src/Services/Registry.antt =====
-- A name is served by the task that registered it last.
use mmurtl_rs.Base.{
  ℕ, ◌≡◌, refl, ap, ◌∙◌, inl, inr, true, false, ◌||◌, ltb, is_empty, some, List, [], ◌∷◌, ◌++◌,
  length, arith, Bool-cases,
}
use mmurtl_rs.Services.{
  Services, same_name, retain_others, register_service, lookup_service, service_name_max,
}

same_name_self : (name : List ℕ) → same_name name name ≡ true
same_name_self [] = refl
same_name_self (c ∷ cs) = ground (arith, same_name_self cs)

same_name-eq : (a b : List ℕ) → same_name a b ≡ true → a ≡ b
same_name-eq [] [] h = refl
same_name-eq [] (y ∷ ys) h = absurd (cc h)
same_name-eq (x ∷ xs) [] h = absurd (cc h)
same_name-eq (x ∷ xs) (y ∷ ys) h =
    let heads : x ≡ y = ground arith in
    let tails = same_name-eq xs ys (ground arith) in cc (heads, tails)

lookup_self :
    (name : List ℕ) (tid : ℕ) (s : Services)
    → lookup_service name (retain_others name s ++ (name, tid) ∷ []) ≡ some tid
unfolding lookup_service retain_others
lookup_self name tid [] = rw (same_name_self name) refl
lookup_self name tid (e ∷ s) = elim (Bool-cases (same_name e.0 name)) [
  | inl same ↦ rw same (lookup_self name tid s)
  | inr other ↦ rw (other, other) (lookup_self name tid s)
]

lookup_other :
    (name other : List ℕ) (tid : ℕ) (s : Services)
    → same_name name other ≡ false
    → lookup_service other (retain_others name s ++ (name, tid) ∷ []) ≡ lookup_service other s
unfolding lookup_service retain_others
lookup_other name other tid [] apart = rw apart refl
lookup_other name other tid (e ∷ s) apart = elim (Bool-cases (same_name e.0 name)) [
  | inl same ↦
      let is : e.0 ≡ name = same_name-eq e.0 name same in
      let not_other : same_name e.0 other ≡ false = ap (λ x. same_name x other) is ∙ apart in
      rw (same, not_other) (lookup_other name other tid s apart)
  | inr different ↦ elim (Bool-cases (same_name e.0 other)) [
    | inl found ↦ rw (different, found) refl
    | inr missed ↦ rw (different, missed) (lookup_other name other tid s apart)
  ]
]

-- Registering a name of 1 to 16 bytes succeeds; the name is then served by that task, and every
-- other name by the task that served it before.
pub register_service_lem :
    (name : List ℕ) (tid : ℕ) (s : Services)
    → (is_empty name || ltb service_name_max (length name)) ≡ false
    → ((register_service name tid s).0 ≡ true)
      × (lookup_service name (register_service name tid s).1 ≡ some tid)
      × ((other : List ℕ)
          → same_name name other ≡ false
          → lookup_service other (register_service name tid s).1 ≡ lookup_service other s)
unfolding register_service
register_service_lem name tid s ok = (
  rw ok refl,
  rw ok (lookup_self name tid s),
  λ other apart. rw ok (lookup_other name other tid s apart),
)
