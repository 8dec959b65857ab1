-- ===== src/Ownership/Lists.antt =====
-- virtio/ownership.rs: lists that are linked through an array, and where a descriptor stands in them.
use mmurtl_rs.Base.{
  ◌⊎◌, inl, inr, ℕ, zero, suc, ◌+◌, ◌≤◌, ◌<◌, ◌≡◌, ◌≢◌, refl, sym, ap, subst, ◌∙◌, Option, some,
  List, [], ◌∷◌, ◌++◌, length, get_elem?, set, arith, get_elem?-set_ne, length-append, some_inj,
  replicate,
}
use mmurtl_rs.Ownership.{walk}

-- The descriptors `ids` stand one behind the other from `head` on, and `end` is behind the last.
abbrev pub IsLinked : List ℕ → ℕ → List ℕ → ℕ → Type 0
IsLinked next head [] end = head ≡ end
IsLinked next head (x ∷ xs) end =
    (x ≡ head) × (n : ℕ) × (get_elem? next x ≡ some n) × IsLinked next n xs end

-- A descriptor's place: the head of its chain, none for a free one, and how many stand behind it.
abbrev pub IsPlaced : (ℕ → Option ℕ × ℕ) → Option ℕ → List ℕ → Type 0
IsPlaced place o [] = Unit
IsPlaced place o (x ∷ xs) = (place x ≡ (o, length xs)) × IsPlaced place o xs

abbrev pub IsWithout : ℕ → List ℕ → Type 0
IsWithout t [] = Unit
IsWithout t (x ∷ xs) = (t ≢ x) × IsWithout t xs

-- The descriptor is one of a list.
abbrev pub IsIn : ℕ → List ℕ → Type 0
IsIn id [] = ⊥
IsIn id (x ∷ xs) = (x ≡ id) ⊎ IsIn id xs

pub IsIn-append_left : (id : ℕ) (xs ys : List ℕ) → IsIn id xs → IsIn id (xs ++ ys)
IsIn-append_left id [] ys k = absurd k
IsIn-append_left id (x ∷ xs) ys (inl e) = inl e
IsIn-append_left id (x ∷ xs) ys (inr k) = inr (IsIn-append_left id xs ys k)

pub IsIn-append_right : (id : ℕ) (xs ys : List ℕ) → IsIn id ys → IsIn id (xs ++ ys)
IsIn-append_right id [] ys k = k
IsIn-append_right id (x ∷ xs) ys k = inr (IsIn-append_right id xs ys k)

pub IsIn-split : (id : ℕ) (xs ys : List ℕ) → IsIn id (xs ++ ys) → IsIn id xs ⊎ IsIn id ys
IsIn-split id [] ys k = inr k
IsIn-split id (x ∷ xs) ys (inl e) = inl (inl e)
IsIn-split id (x ∷ xs) ys (inr k) = elim (IsIn-split id xs ys k) [
  | inl l ↦ inl (inr l)
  | inr r ↦ inr r
]

-- A write at a descriptor that is not in a list leaves it linked.
pub set-IsLinked :
    (next : List ℕ) (t v head end : ℕ) (xs : List ℕ)
    → IsWithout t xs
    → IsLinked next head xs end
    → IsLinked (set next t v) head xs end
set-IsLinked next t v head end [] w k = k
set-IsLinked next t v head end (x ∷ xs) w (e, n, at, k) =
    (e, n, get_elem?-set_ne next t x v w.0 ∙ at, set-IsLinked next t v n end xs w.1 k)

-- A linked list, taken apart at an entry.
pub IsLinked-split :
    (next : List ℕ) (head end : ℕ) (xs : List ℕ) (t : ℕ) (ys : List ℕ)
    → IsLinked next head (xs ++ t ∷ ys) end
    → IsLinked next head xs t × (n : ℕ) × (get_elem? next t ≡ some n) × IsLinked next n ys end
IsLinked-split next head end [] t ys (e, n, at, k) = (sym e, n, at, k)
IsLinked-split next head end (x ∷ xs) t ys (e, n, at, k) =
    let (front, m, at', back) = IsLinked-split next n end xs t ys k in
    ((e, n, at, front), m, at', back)

pub IsLinked-append :
    (next : List ℕ) (head mid end : ℕ) (xs ys : List ℕ)
    → IsLinked next head xs mid
    → IsLinked next mid ys end
    → IsLinked next head (xs ++ ys) end
IsLinked-append next head mid end [] ys k l = subst (λ h. IsLinked next h ys end) (sym k) l
IsLinked-append next head mid end (x ∷ xs) ys (e, n, at, k) l =
    (e, n, at, IsLinked-append next n mid end xs ys k l)

-- As many steps as a list is long lead to its end.
pub walk-IsLinked :
    (next : List ℕ) (head end : ℕ) (xs : List ℕ)
    → IsLinked next head xs end
    → walk next (length xs) head ≡ some end
unfolding walk
walk-IsLinked next head end [] k = ap some k
walk-IsLinked next head end (x ∷ xs) (e, n, at, k) =
    let step : get_elem? next head ≡ some n = subst (λ h. get_elem? next h ≡ some n) e at in
    rw step (walk-IsLinked next n end xs k)

-- Some number of steps leads to each descriptor of a list.
pub walk-IsIn :
    (next : List ℕ) (head end id : ℕ) (xs : List ℕ)
    → IsLinked next head xs end
    → IsIn id xs
    → (i : ℕ) × (i < length xs) × (walk next i head ≡ some id)
unfolding walk
walk-IsIn next head end id [] k m = absurd m
walk-IsIn next head end id (x ∷ xs) (e, n, at, k) (inl f) = (0, omega arith, ap some (sym e ∙ f))
walk-IsIn next head end id (x ∷ xs) (e, n, at, k) (inr m) =
    let (i, lt, steps) = walk-IsIn next n end id xs k m in
    let step : get_elem? next head ≡ some n = subst (λ h. get_elem? next h ≡ some n) e at in
    (suc i, omega (arith, lt), rw step steps)

-- What is placed further back, or in another list, is not in a list.
pub behind-IsWithout :
    (place : ℕ → Option ℕ × ℕ) (o : Option ℕ) (t r : ℕ) (xs : List ℕ)
    → place t ≡ (o, r)
    → length xs ≤ r
    → IsPlaced place o xs
    → IsWithout t xs
behind-IsWithout place o t r [] at le k = tt
behind-IsWithout place o t r (x ∷ xs) at le (here, k) = (
  λ e.
      let same : r ≡ length xs = ap (λ p. p.1) (sym at ∙ ap place e ∙ here) in
      absurd (omega (arith, same, le)),
  behind-IsWithout place o t r xs at (omega arith) k,
)

pub elsewhere-IsWithout :
    (place : ℕ → Option ℕ × ℕ) (o o' : Option ℕ) (t r : ℕ) (xs : List ℕ)
    → place t ≡ (o', r)
    → o' ≢ o
    → IsPlaced place o xs
    → IsWithout t xs
elsewhere-IsWithout place o o' t r [] at ne k = tt
elsewhere-IsWithout place o o' t r (x ∷ xs) at ne (here, k) = (
  λ e. ne (ap (λ p. p.0) (sym at ∙ ap place e ∙ here)),
  elsewhere-IsWithout place o o' t r xs at ne k,
)

-- A list, taken apart at an index.
pub split_at :
    (k : ℕ) (xs : List ℕ)
    → k < length xs
    → (front : List ℕ) × (t : ℕ) × (rest : List ℕ) × (xs ≡ front ++ t ∷ rest) × (length front ≡ k)
split_at k [] lt = absurd (omega arith)
split_at zero (x ∷ xs) lt = ([], x, xs, refl, refl)
split_at (suc k) (x ∷ xs) lt =
    let (front, t, rest, e, f) = split_at k xs (omega arith) in
    (x ∷ front, t, rest, ap (λ ys. x ∷ ys) e, ap suc f)

-- The sum of a list, and what a write changes in it.
unfoldable pub total : List ℕ → ℕ
total [] = 0
total (x ∷ xs) = x + total xs

pub total-set :
    (xs : List ℕ) (i v : ℕ) {x : ℕ}
    → get_elem? xs i ≡ some x
    → total (set xs i v) + x ≡ total xs + v
unfolding total
total-set [] i v h = cc
total-set (y ∷ xs) zero v h = omega (arith, some_inj h)
total-set (y ∷ xs) (suc i) v h = omega (arith, total-set xs i v h)

pub total-replicate : (n : ℕ) → total (replicate n 0) ≡ 0
unfolding total
total-replicate zero = refl
total-replicate (suc n) = omega (arith, total-replicate n)

-- What is placed behind the end of a list is not in it.
pub ahead-IsWithout :
    (place : ℕ → Option ℕ × ℕ) (o : Option ℕ) (t r : ℕ) (xs ys : List ℕ)
    → place t ≡ (o, r)
    → r < length ys
    → IsPlaced place o (xs ++ ys)
    → IsWithout t xs
ahead-IsWithout place o t r [] ys at lt k = tt
ahead-IsWithout place o t r (x ∷ xs) ys at lt (here, k) = (
  λ e.
      let same : r ≡ length (xs ++ ys) = ap (λ p. p.1) (sym at ∙ ap place e ∙ here) in
      absurd (omega (arith, same, lt, length-append xs ys)),
  ahead-IsWithout place o t r xs ys at lt k,
)

pub IsPlaced-back :
    (place : ℕ → Option ℕ × ℕ) (o : Option ℕ) (xs ys : List ℕ)
    → IsPlaced place o (xs ++ ys)
    → IsPlaced place o ys
IsPlaced-back place o [] ys k = k
IsPlaced-back place o (x ∷ xs) ys k = IsPlaced-back place o xs ys k.1
