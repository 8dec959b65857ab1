-- ===== src/Base/Lists.antt =====
-- Lists measured and indexed by the native numbers.
use Prim.Native.Nat.{ℕ, zero, suc, ◌+◌, ◌-◌, ◌<◌, min}
use mathlib.Core.Path.{◌≡◌, refl, ap, subst, ◌∙◌}
use mathlib.Core.Logic.{◌≢◌, ◌⊎◌, inl, inr}
use mathlib.Core.Bool.{Bool, true, false}
use mathlib.Core.List.{List, [], ◌∷◌, ◌++◌, map}
use mathlib.Core.Option.{Option, none, some}
use native.Mathlib.Omega.{arith}
use mmurtl_rs.Base.Tests.{◌==◌, ==_iff, Bool-cases, if◌then◌else◌}

module _ {ℓ} {A : Type ℓ} where
  abbrev pub length : List A → ℕ
  length [] = 0
  length (x ∷ xs) = suc (length xs)

  abbrev pub get_elem? : List A → ℕ → Option A
  get_elem? [] i = none
  get_elem? (x ∷ xs) zero = some x
  get_elem? (x ∷ xs) (suc i) = get_elem? xs i

  abbrev pub get_or : List A → ℕ → A → A
  get_or [] i d = d
  get_or (x ∷ xs) zero d = x
  get_or (x ∷ xs) (suc i) d = get_or xs i d

  -- A write out of bounds changes nothing.
  abbrev pub set : List A → ℕ → A → List A
  set [] i v = []
  set (x ∷ xs) zero v = v ∷ xs
  set (x ∷ xs) (suc i) v = x ∷ set xs i v

  abbrev pub take : ℕ → List A → List A
  take zero xs = []
  take (suc n) [] = []
  take (suc n) (x ∷ xs) = x ∷ take n xs

  abbrev pub drop : ℕ → List A → List A
  drop zero xs = xs
  drop (suc n) [] = []
  drop (suc n) (x ∷ xs) = drop n xs

  abbrev pub replicate : ℕ → A → List A
  replicate zero a = []
  replicate (suc n) a = a ∷ replicate n a

  abbrev pub is_empty : List A → Bool
  is_empty [] = true
  is_empty (x ∷ xs) = false

  pub length-append : (xs ys : List A) → length (xs ++ ys) ≡ length xs + length ys
  length-append [] ys = omega arith
  length-append (x ∷ xs) ys = omega (arith, length-append xs ys)

  pub length-set : (xs : List A) (i : ℕ) (v : A) → length (set xs i v) ≡ length xs
  length-set [] i v = refl
  length-set (x ∷ xs) zero v = refl
  length-set (x ∷ xs) (suc i) v = ap suc (length-set xs i v)

  pub length-replicate : (n : ℕ) (a : A) → length (replicate n a) ≡ n
  length-replicate zero a = refl
  length-replicate (suc n) a = ap suc (length-replicate n a)

  pub length-take : (n : ℕ) (xs : List A) → length (take n xs) ≡ min n (length xs)
  length-take zero xs = omega arith
  length-take (suc n) [] = omega arith
  length-take (suc n) (x ∷ xs) = omega (arith, length-take n xs)

  pub length-drop : (n : ℕ) (xs : List A) → length (drop n xs) ≡ length xs - n
  length-drop zero xs = omega arith
  length-drop (suc n) [] = omega arith
  length-drop (suc n) (x ∷ xs) = omega (arith, length-drop n xs)

  pub take-append-drop : (n : ℕ) (xs : List A) → take n xs ++ drop n xs ≡ xs
  take-append-drop zero xs = refl
  take-append-drop (suc n) [] = refl
  take-append-drop (suc n) (x ∷ xs) = ap (λ (r : List A). x ∷ r) (take-append-drop n xs)

  pub get_elem?-lt : (xs : List A) (i : ℕ) {x : A} → get_elem? xs i ≡ some x → i < length xs
  get_elem?-lt [] i h = ground arith
  get_elem?-lt (y ∷ xs) zero h = omega arith
  get_elem?-lt (y ∷ xs) (suc i) h = omega (arith, get_elem?-lt xs i h)

  pub lt-get_elem? : (xs : List A) (i : ℕ) → i < length xs → (x : A) × (get_elem? xs i ≡ some x)
  lt-get_elem? [] i h = absurd (omega arith)
  lt-get_elem? (x ∷ xs) zero h = (x, refl)
  lt-get_elem? (x ∷ xs) (suc i) h = lt-get_elem? xs i (omega arith)

  -- What stands at `j` after a write at an index `i` that is in range.
  pub get_elem?-set :
      (xs : List A) (i j : ℕ) (v : A)
      → i < length xs
      → get_elem? (set xs i v) j ≡ (if i == j then some v else get_elem? xs j)
  get_elem?-set [] i j v h = absurd (omega arith)
  get_elem?-set (x ∷ xs) zero zero v h = refl
  get_elem?-set (x ∷ xs) zero (suc j) v h = ground arith
  get_elem?-set (x ∷ xs) (suc i) zero v h = ground arith
  get_elem?-set (x ∷ xs) (suc i) (suc j) v h = ground (arith, get_elem?-set xs i j v)

  pub get_elem?-set_self :
      (xs : List A) (i : ℕ) (v : A) → i < length xs → get_elem? (set xs i v) i ≡ some v
  get_elem?-set_self [] i v h = absurd (omega arith)
  get_elem?-set_self (x ∷ xs) zero v h = refl
  get_elem?-set_self (x ∷ xs) (suc i) v h = get_elem?-set_self xs i v (omega arith)

  pub get_elem?-set_ne :
      (xs : List A) (i j : ℕ) (v : A) → i ≢ j → get_elem? (set xs i v) j ≡ get_elem? xs j
  get_elem?-set_ne [] i j v h = refl
  get_elem?-set_ne (x ∷ xs) zero zero v h = absurd (h refl)
  get_elem?-set_ne (x ∷ xs) zero (suc j) v h = refl
  get_elem?-set_ne (x ∷ xs) (suc i) zero v h = refl
  get_elem?-set_ne (x ∷ xs) (suc i) (suc j) v h = get_elem?-set_ne xs i j v (λ e. h (ap suc e))

  -- What stands at `j` after a write at `i` is what was written, or what stood there.
  pub set_cases :
      (xs : List A) (i j : ℕ) (v : A) {y : A}
      → get_elem? (set xs i v) j ≡ some y
      → ((i ≡ j) × (y ≡ v)) ⊎ ((i ≢ j) × (get_elem? xs j ≡ some y))
  set_cases [] i j v h = cc
  set_cases (x ∷ xs) zero zero v h = inl (refl, ground arith)
  set_cases (x ∷ xs) zero (suc j) v h = inr (omega arith, h)
  set_cases (x ∷ xs) (suc i) zero v h = inr (omega arith, h)
  set_cases (x ∷ xs) (suc i) (suc j) v h = elim (set_cases xs i j v h) [
    | inl (e, f) ↦ inl (ap suc e, f)
    | inr (n, f) ↦ inr (omega arith, f)
  ]

  -- One entry stands at an index.
  pub get_elem?_det :
      (xs : List A) {i j : ℕ} {x y : A}
      → i ≡ j
      → get_elem? xs i ≡ some x
      → get_elem? xs j ≡ some y
      → x ≡ y
  get_elem?_det xs e f g = cc

  -- What becomes of the entry at `j` when the one at `i` is replaced.
  pub set_after :
      (xs : List A) (i j : ℕ) (v : A) {x y : A}
      → get_elem? xs i ≡ some x
      → get_elem? xs j ≡ some y
      → (z : A) × (get_elem? (set xs i v) j ≡ some z)
        × (((i ≡ j) × (x ≡ y) × (z ≡ v)) ⊎ ((i ≢ j) × (z ≡ y)))
  set_after xs i j v {x} {y} f g = elim (Bool-cases (i == j)) [
    | inl e ↦
        let same = (==_iff i j).0 e in
        (
          v,
          subst (λ k. get_elem? (set xs i v) k ≡ some v) same
              (get_elem?-set_self xs i v (get_elem?-lt xs i f)),
          inl (same, get_elem?_det xs same f g, refl),
        )
    | inr e ↦
        let other : i ≢ j = ground arith in
        (y, get_elem?-set_ne xs i j v other ∙ g, inr (other, refl))
  ]

  -- What stands at `j` after an append is new and last, or old.
  pub snoc_cases :
      (xs : List A) (j : ℕ) (v : A) {y : A}
      → get_elem? (xs ++ v ∷ []) j ≡ some y
      → ((j ≡ length xs) × (y ≡ v)) ⊎ (get_elem? xs j ≡ some y)
  snoc_cases [] zero v h = inl (refl, ground arith)
  snoc_cases [] (suc j) v h = cc
  snoc_cases (x ∷ xs) zero v h = inr h
  snoc_cases (x ∷ xs) (suc j) v h = elim (snoc_cases xs j v h) [
    | inl (e, f) ↦ inl (ap suc e, f)
    | inr f ↦ inr f
  ]

  pub get_elem?-snoc_old :
      (xs : List A) (j : ℕ) (v : A) {y : A}
      → get_elem? xs j ≡ some y
      → get_elem? (xs ++ v ∷ []) j ≡ some y
  get_elem?-snoc_old [] j v h = cc
  get_elem?-snoc_old (x ∷ xs) zero v h = h
  get_elem?-snoc_old (x ∷ xs) (suc j) v h = get_elem?-snoc_old xs j v h

  pub get_elem?-snoc_new : (xs : List A) (v : A) → get_elem? (xs ++ v ∷ []) (length xs) ≡ some v
  get_elem?-snoc_new [] v = refl
  get_elem?-snoc_new (x ∷ xs) v = get_elem?-snoc_new xs v

  -- An append leaves the old entries where they are.
  pub get_elem?-snoc :
      (xs : List A) (j : ℕ) (v : A)
      → get_elem? (xs ++ v ∷ []) j ≡ (if length xs == j then some v else get_elem? xs j)
  get_elem?-snoc [] zero v = refl
  get_elem?-snoc [] (suc j) v = ground arith
  get_elem?-snoc (x ∷ xs) zero v = ground arith
  get_elem?-snoc (x ∷ xs) (suc j) v = ground (arith, get_elem?-snoc xs j v)

module _ {ℓ κ} {A : Type ℓ} {B : Type κ} (f : A → B) where
  pub length-map : (xs : List A) → length (map f xs) ≡ length xs
  length-map [] = refl
  length-map (x ∷ xs) = ap suc (length-map xs)

  pub get_elem?-map :
      (xs : List A) (i : ℕ) {y : B}
      → get_elem? (map f xs) i ≡ some y
      → (x : A) × (get_elem? xs i ≡ some x) × (y ≡ f x)
  get_elem?-map [] i h = cc
  get_elem?-map (x ∷ xs) zero h = (x, refl, ground arith)
  get_elem?-map (x ∷ xs) (suc i) h = get_elem?-map xs i h

  pub get_elem?-map-some :
      (xs : List A) (i : ℕ) {x : A} → get_elem? xs i ≡ some x → get_elem? (map f xs) i ≡ some (f x)
  get_elem?-map-some [] i h = cc
  get_elem?-map-some (x ∷ xs) zero h = ground arith
  get_elem?-map-some (x ∷ xs) (suc i) h = get_elem?-map-some xs i h
