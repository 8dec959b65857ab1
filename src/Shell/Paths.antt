-- ===== src/Shell/Paths.antt =====
-- A resolved path begins at the root and fits its buffer.
use mmurtl_rs.Base.{
  ℕ, zero, suc, ◌+◌, ◌-◌, ◌≤◌, ◌≡◌, refl, subst, ◌⊎◌, inl, inr, Bool, true, false, not, ◌&&◌, ◌||◌,
  ◌==◌, ltb, if◌then◌else◌, is_empty, List, [], ◌∷◌, ◌++◌, length, length-append, length-take, take,
  any, arith, Bool-cases,
}
use mmurtl_rs.Shell.{
  max_line, root, PathError, shorten, last_byte, strip_name, parent, append_name, is_dot, is_dots,
  step_into, walk, resolve, to_utf8, starts_at_root, is_control, split,
}

abbrev pub from_root : List ℕ → Bool
from_root [] = false
from_root (b ∷ rest) = b == b'/'

pub record IsPath (path : List ℕ) : Type 0 where
  pub rooted : from_root path ≡ true
  pub fits : length path ≤ max_line

from_root-append : (p q : List ℕ) → from_root p ≡ true → from_root (p ++ q) ≡ true
from_root-append [] q h = absurd (cc h)
from_root-append (b ∷ p) q h = h

from_root-take : (n : ℕ) (p : List ℕ) → from_root p ≡ true → from_root (take (suc n) p) ≡ true
from_root-take n [] h = absurd (cc h)
from_root-take n (b ∷ p) h = h

shorten-IsPath : (p : List ℕ) → IsPath p → ltb 1 (length p) ≡ true → IsPath (shorten p)
shorten-IsPath p v long =
    let n : suc (length p - 2) ≡ length p - 1 = ground arith in
    record {
      rooted =
          subst (λ k. from_root (take k p) ≡ true) n (from_root-take (length p - 2) p v.rooted);
      fits = omega (arith, length-take (length p - 1) p, v.fits);
    }

strip_name-IsPath : (fuel : ℕ) (p : List ℕ) → IsPath p → IsPath (strip_name fuel p)
unfolding strip_name
strip_name-IsPath zero p v = v
strip_name-IsPath (suc fuel) p v =
    elim (Bool-cases (ltb 1 (length p) && not (last_byte p == b'/'))) [
      | inl e ↦ rw e (strip_name-IsPath fuel (shorten p) (shorten-IsPath p v (ground arith)))
      | inr e ↦ rw e v
    ]

parent-IsPath : (p : List ℕ) → IsPath p → IsPath (parent p)
unfolding parent
parent-IsPath p v =
    let w = strip_name-IsPath (length p) p v in
    elim (Bool-cases (ltb 1 (length (strip_name (length p) p)))) [
      | inl e ↦ rw e (shorten-IsPath (strip_name (length p) p) w e)
      | inr e ↦ rw e w
    ]

-- What a result promises: an error, or a path.
pub Yields : PathError ⊎ List ℕ → Type 0
Yields (inl e) = Unit
Yields (inr p) = IsPath p

append_name-Yields : (p part : List ℕ) → IsPath p → Yields (append_name p part)
unfolding append_name Yields
append_name-Yields p part v =
    let slash : List ℕ = if ltb 1 (length p) then b'/' ∷ [] else [] in
    elim (Bool-cases (ltb max_line (length p + length slash + length part))) [
      | inl e ↦ rw e tt
      | inr e ↦ rw e (record {
        rooted = from_root-append (p ++ slash) part (from_root-append p slash v.rooted);
        fits = ground (arith, length-append (p ++ slash) part, length-append p slash);
      })
    ]

step_into-Yields : (p part : List ℕ) → IsPath p → Yields (step_into p part)
unfolding step_into Yields
step_into-Yields p part v = elim (Bool-cases (is_empty part || is_dot part)) [
  | inl e ↦ rw e v
  | inr e ↦ elim (Bool-cases (is_dots part)) [
    | inl f ↦ rw (e, f) (parent-IsPath p v)
    | inr f ↦ rw (e, f) (append_name-Yields p (to_utf8 part) v)
  ]
]

walk-Yields : (p : List ℕ) (parts : List (List ℕ)) → IsPath p → Yields (walk p parts)
unfolding walk Yields
walk-Yields p [] v = v
walk-Yields p (part ∷ parts) v =
    go (step_into p part) (step_into-Yields p part v) (λ q w. walk-Yields q parts w)
  where
    go :
        (r : PathError ⊎ List ℕ)
        → Yields r
        → ((q : List ℕ) → IsPath q → Yields (walk q parts))
        → Yields (elim r as (λ _. PathError ⊎ List ℕ) [ inl e ↦ inl e | inr q ↦ walk q parts ])
    go (inl e) w next = tt
    go (inr q) w next = next q w

-- Resolving any name against a path that begins at the root and fits 256 bytes is an error or gives
-- such a path again, however many parent steps the name takes.
pub resolve-Yields : (p name : List ℕ) → IsPath p → Yields (resolve p name)
unfolding resolve Yields
resolve-Yields p name v = elim (Bool-cases (any (λ c. c == b':') name || any is_control name)) [
  | inl e ↦ rw e tt
  | inr e ↦ elim (Bool-cases (starts_at_root name)) [
    | inl f ↦
        rw (e, f) (walk-Yields root (split name) (record { rooted = refl; fits = omega arith }))
    | inr f ↦ rw (e, f) (walk-Yields p (split name) v)
  ]
]
