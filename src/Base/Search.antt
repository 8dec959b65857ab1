-- ===== src/Base/Search.antt =====
-- `iter().position(p)` and `iter().any(p)`, with what they promise.
use Prim.Native.Nat.{ℕ, zero, suc}
use mathlib.Core.Path.{◌≡◌, refl}
use mathlib.Core.Bool.{Bool, true, false, ◌||◌}
use mathlib.Core.List.{List, [], ◌∷◌}
use mathlib.Core.Option.{Option, none, some}
use native.Mathlib.Omega.{arith}
use mathlib.Core.Logic.{inl, inr}
use mmurtl_rs.Base.Tests.{if◌then◌else◌, Bool-cases, Option-cases}
use mmurtl_rs.Base.Lists.{get_elem?}

abbrev shift : Option ℕ → Option ℕ
shift none = none
shift (some i) = some (suc i)

module _ {ℓ} {A : Type ℓ} (p : A → Bool) where
  unfoldable pub position : List A → Option ℕ
  position [] = none
  position (x ∷ xs) = if p x then some 0 else shift (position xs)

  unfoldable pub any : List A → Bool
  any [] = false
  any (x ∷ xs) = p x || any xs

  -- The index found holds an entry that passes the test.
  pub position-some :
      (xs : List A) {i : ℕ}
      → position xs ≡ some i
      → (x : A) × (get_elem? xs i ≡ some x) × (p x ≡ true)
  unfolding position
  position-some [] h = cc
  position-some (x ∷ xs) {i} h = elim (Bool-cases (p x)) [
    | inl e ↦ (x, ground arith, e)
    | inr e ↦ elim (Option-cases (position xs)) [
      | inl f ↦ ground arith
      | inr (j, f) ↦ let (y, at, ok) = position-some xs f in (y, ground arith, ok)
    ]
  ]

  -- Where nothing is found, no entry passes the test.
  pub position-none :
      (xs : List A) (i : ℕ) {x : A} → position xs ≡ none → get_elem? xs i ≡ some x → p x ≡ false
  unfolding position
  position-none [] i h e = cc
  position-none (y ∷ xs) zero h e = ground arith
  position-none (y ∷ xs) (suc i) h e = position-none xs i (ground arith) e

  pub any-false :
      (xs : List A) (i : ℕ) {x : A} → any xs ≡ false → get_elem? xs i ≡ some x → p x ≡ false
  unfolding any
  any-false [] i h e = cc
  any-false (y ∷ xs) zero h e = ground arith
  any-false (y ∷ xs) (suc i) h e = any-false xs i (ground arith) e

  pub any-true :
      (xs : List A) → any xs ≡ true → (i : ℕ) × (x : A) × (get_elem? xs i ≡ some x) × (p x ≡ true)
  unfolding any
  any-true [] h = cc
  any-true (y ∷ xs) h = elim (Bool-cases (p y)) [
    | inl e ↦ (0, y, refl, e)
    | inr e ↦ let (i, x, at, ok) = any-true xs (ground arith) in (suc i, x, at, ok)
  ]
