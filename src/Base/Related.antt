-- ===== src/Base/Related.antt =====
-- Two lists whose entries are related one by one.
use Prim.Native.Nat.{ℕ, zero, suc}
use mathlib.Core.Path.{◌≡◌, refl, sym, ap, subst}
use mathlib.Core.List.{List, [], ◌∷◌, map}
use mathlib.Core.Option.{some}
use mmurtl_rs.Base.Tests.{some_inj}
use mmurtl_rs.Base.Lists.{length, get_elem?, set}

module _ {ℓ} {A : Type ℓ} (R : A → A → Type 0) where
  abbrev pub Pointwise : List A → List A → Type 0
  Pointwise [] [] = Unit
  Pointwise (x ∷ xs) (y ∷ ys) = R x y × Pointwise xs ys
  Pointwise _ _ = ⊥

  pub Pointwise-length : (xs ys : List A) → Pointwise xs ys → length ys ≡ length xs
  Pointwise-length [] [] k = refl
  Pointwise-length (x ∷ xs) (y ∷ ys) k = ap suc (Pointwise-length xs ys k.1)
  Pointwise-length (x ∷ xs) [] k = elim k [ ]
  Pointwise-length [] (y ∷ ys) k = elim k [ ]

  -- Where the second list has an entry, the first has a related one.
  pub Pointwise-before :
      (xs ys : List A) (i : ℕ) {y : A}
      → Pointwise xs ys
      → get_elem? ys i ≡ some y
      → (x : A) × (get_elem? xs i ≡ some x) × R x y
  Pointwise-before [] [] i k at = cc
  Pointwise-before (x ∷ xs) (y ∷ ys) zero k at = (x, refl, subst (R x) (some_inj at) k.0)
  Pointwise-before (x ∷ xs) (y ∷ ys) (suc i) k at = Pointwise-before xs ys i k.1 at
  Pointwise-before (x ∷ xs) [] i k at = elim k [ ]
  Pointwise-before [] (y ∷ ys) i k at = elim k [ ]

  pub Pointwise-after :
      (xs ys : List A) (i : ℕ) {x : A}
      → Pointwise xs ys
      → get_elem? xs i ≡ some x
      → (y : A) × (get_elem? ys i ≡ some y) × R x y
  Pointwise-after [] [] i k at = cc
  Pointwise-after (x ∷ xs) (y ∷ ys) zero k at = (y, refl, subst (λ v. R v y) (some_inj at) k.0)
  Pointwise-after (x ∷ xs) (y ∷ ys) (suc i) k at = Pointwise-after xs ys i k.1 at
  Pointwise-after (x ∷ xs) [] i k at = elim k [ ]
  Pointwise-after [] (y ∷ ys) i k at = elim k [ ]

  pub Pointwise-map : (f : A → A) → ((x : A) → R x (f x)) → (xs : List A) → Pointwise xs (map f xs)
  Pointwise-map f k [] = tt
  Pointwise-map f k (x ∷ xs) = (k x, Pointwise-map f k xs)

  module _ (reflexive : (x : A) → R x x) where
    pub Pointwise-refl : (xs : List A) → Pointwise xs xs
    Pointwise-refl [] = tt
    Pointwise-refl (x ∷ xs) = (reflexive x, Pointwise-refl xs)

    -- A related entry may be written over an old one.
    pub Pointwise-set :
        (xs : List A) (i : ℕ) {x : A} (x' : A)
        → get_elem? xs i ≡ some x
        → R x x'
        → Pointwise xs (set xs i x')
    Pointwise-set [] i x' at k = cc
    Pointwise-set (y ∷ xs) zero x' at k =
        (subst (λ v. R v x') (sym (some_inj at)) k, Pointwise-refl xs)
    Pointwise-set (y ∷ xs) (suc i) x' at k = (reflexive y, Pointwise-set xs i x' at k)

  pub Pointwise-trans :
      (transitive : (x y z : A) → R x y → R y z → R x z)
      → (xs ys zs : List A) → Pointwise xs ys
      → Pointwise ys zs
      → Pointwise xs zs
  Pointwise-trans transitive [] [] [] k l = tt
  Pointwise-trans transitive (x ∷ xs) (y ∷ ys) (z ∷ zs) k l =
      (transitive x y z k.0 l.0, Pointwise-trans transitive xs ys zs k.1 l.1)
  Pointwise-trans transitive (x ∷ xs) [] zs k l = elim k [ ]
  Pointwise-trans transitive [] (y ∷ ys) zs k l = elim k [ ]
  Pointwise-trans transitive [] [] (z ∷ zs) k l = elim l [ ]
  Pointwise-trans transitive (x ∷ xs) (y ∷ ys) [] k l = elim l [ ]
