-- ===== src/Ownership/Fresh.antt =====
-- virtio/ownership.rs: a new queue has all its descriptors in the free list.
use mmurtl_rs.Base.{
  ◌≤◌, inl, inr, Bool-cases, ℕ, zero, suc, ◌+◌, ◌-◌, ◌<◌, ◌≡◌, refl, ap, ◌∙◌, true, false, ◌==◌,
  if◌then◌else◌, none, some, List, [], ◌∷◌, length, get_elem?, arith, replicate, length-replicate,
}
use mmurtl_rs.Ownership.{Ownership, end_mark, links}
use mmurtl_rs.Ownership.Lists.{IsLinked, IsIn, IsPlaced, total-replicate}
use mmurtl_rs.Ownership.Valid.{Place, IsValid}

-- `i`, `i + 1` and so on.
unfoldable pub count_up : ℕ → ℕ → List ℕ
count_up i zero = []
count_up i (suc left) = i ∷ count_up (i + 1) left

length-count_up : (i left : ℕ) → length (count_up i left) ≡ left
unfolding count_up
length-count_up i zero = refl
length-count_up i (suc left) = ap suc (length-count_up (i + 1) left)

length-links : (i left : ℕ) → length (links i left) ≡ left
unfolding links
length-links i zero = refl
length-links i (suc left) = ap suc (length-links (i + 1) left)

get_elem?-links :
    (i left j : ℕ)
    → j < left
    → get_elem? (links i left) j ≡ some (if suc j == left then end_mark else i + j + 1)
unfolding links
get_elem?-links i zero j lt = absurd (omega arith)
get_elem?-links i (suc left) zero lt = ground arith
get_elem?-links i (suc left) (suc j) lt =
    let rest = get_elem?-links (i + 1) left j (omega arith) in
    let shift : i + 1 + j + 1 ≡ i + suc j + 1 = omega arith in
    let same : (suc (suc j) == suc left) ≡ (suc j == left) = ground arith in
    rest ∙ rw (same, shift) refl

count_up-IsLinked :
    (size i left : ℕ)
    → i + suc left ≡ size
    → IsLinked (links 0 size) i (count_up i (suc left)) end_mark
unfolding count_up
count_up-IsLinked size i zero e =
    let last : (suc i == size) ≡ true = ground arith in
    (refl, end_mark, get_elem?-links 0 size i (omega arith) ∙ rw last refl, refl)
count_up-IsLinked size i (suc left) e =
    let inner : (suc i == size) ≡ false = ground arith in
    let step : 0 + i + 1 ≡ i + 1 = omega arith in
    (
      refl,
      i + 1,
      get_elem?-links 0 size i (omega arith) ∙ rw (inner, step) refl,
      count_up-IsLinked size (i + 1) left (omega arith),
    )

abbrev first_place : ℕ → Place
first_place size = λ id. (none, size - 1 - id)

count_up-IsPlaced :
    (size i left : ℕ) → i + left ≡ size → IsPlaced (first_place size) none (count_up i left)
unfolding count_up
count_up-IsPlaced size i zero e = tt
count_up-IsPlaced size i (suc left) e =
    let rank : size - 1 - i ≡ length (count_up (i + 1) left) =
      omega (arith, length-count_up (i + 1) left) in
    (ap (λ n. (none, n)) rank, count_up-IsPlaced size (i + 1) left (omega arith))

get_elem?-replicate : (n i c : ℕ) → get_elem? (replicate n 0) i ≡ some c → c ≡ 0
get_elem?-replicate zero i c h = cc
get_elem?-replicate (suc n) zero c h = ground arith
get_elem?-replicate (suc n) (suc i) c h = get_elem?-replicate n i c h

IsIn-count_up : (i left id : ℕ) → i ≤ id → id < i + left → IsIn id (count_up i left)
unfolding count_up
IsIn-count_up i zero id lo hi = absurd (omega arith)
IsIn-count_up i (suc left) id lo hi = elim (Bool-cases (i == id)) [
  | inl e ↦ inl (ground arith)
  | inr e ↦ inr (IsIn-count_up (i + 1) left id (ground arith) (omega arith))
]

abbrev pub fresh_queue : ℕ → Ownership
fresh_queue size = record {
  next = links 0 size;
  pending = replicate size 0;
  free_head = 0;
  free = size;
  broken = false;
}

pub fresh_queue-IsValid :
    (n : ℕ)
    → suc n < 65536
    → IsValid (suc n) (first_place (suc n)) (count_up 0 (suc n)) (λ h. []) (fresh_queue (suc n))
fresh_queue-IsValid n small = record {
  small = small;
  next_size = length-links 0 (suc n);
  pending_size = length-replicate (suc n) 0;
  last = end_mark;
  linked = count_up-IsLinked (suc n) 0 n (omega arith);
  counted = length-count_up 0 (suc n);
  placed = count_up-IsPlaced (suc n) 0 (suc n) (omega arith);
  lent = λ h c at pos. absurd (omega (arith, get_elem?-replicate (suc n) h c at, pos));
  conserved = omega (arith, total-replicate (suc n));
  covered = λ id lt. inl (IsIn-count_up 0 (suc n) id (omega arith) (omega arith));
}
