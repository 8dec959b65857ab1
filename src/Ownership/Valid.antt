-- ===== src/Ownership/Valid.antt =====
-- virtio/ownership.rs: the free descriptors and the chains lent to the device, each in one list.
use mmurtl_rs.Base.{
  ◌⊎◌, ℕ, ◌+◌, ◌-◌, ◌≤◌, ◌<◌, ◌≡◌, ◌≢◌, refl, sym, ap, ◌∙◌, true, false, ◌==◌, ltb, if◌then◌else◌,
  Option, none, some, List, [], ◌∷◌, ◌++◌, length, get_elem?, set, arith, length-append,
  get_elem?-lt, get_elem?-set_self,
}
use mmurtl_rs.Ownership.{Ownership}
use mmurtl_rs.Ownership.Lists.{
  IsLinked, IsIn, IsPlaced, IsWithout, set-IsLinked, IsLinked-append, total,
}

abbrev pub Place : Type 0
Place = ℕ → Option ℕ × ℕ

-- The chain lent at `head`, of `count` descriptors.
pub record IsChain (place : Place) (ids : List ℕ) (next : List ℕ) (head count : ℕ) : Type 0 where
  pub last : ℕ
  pub linked : IsLinked next head ids last
  pub counted : length ids ≡ count
  pub placed : IsPlaced place (some head) ids

-- The descriptor is free or in a chain that is lent.
abbrev pub IsCovered : List ℕ → (ℕ → List ℕ) → List ℕ → ℕ → Type 0
IsCovered free_ids chains pending id =
    IsIn id free_ids
    ⊎ ((head : ℕ) × (count : ℕ) × (get_elem? pending head ≡ some count)
        × (0 < count)
        × IsIn id (chains head))

pub record IsValid (size : ℕ) (place : Place) (free_ids : List ℕ) (chains : ℕ → List ℕ)
    (o : Ownership) : Type 0 where
  pub small : size < 65536
  pub next_size : length (o.next) ≡ size
  pub pending_size : length (o.pending) ≡ size
  pub last : ℕ
  pub linked : IsLinked (o.next) (o.free_head) free_ids last
  pub counted : length free_ids ≡ o.free
  pub placed : IsPlaced place none free_ids
  pub lent :
      (head count : ℕ)
      → get_elem? (o.pending) head ≡ some count
      → 0 < count
      → IsChain place (chains head) (o.next) head count
  pub conserved : o.free + total (o.pending) ≡ size
  pub covered : (id : ℕ) → id < size → IsCovered free_ids chains (o.pending) id

-- What becomes of the places when the free descriptors with `r` or more behind them are lent.
abbrev pub lend_place : ℕ → ℕ → Option ℕ × ℕ → Option ℕ × ℕ
lend_place head r (none, n) = if ltb n r then (none, n) else (some head, n - r)
lend_place head r (some h, n) = (some h, n)

abbrev pub lend : ℕ → ℕ → Place → Place
lend head r place = λ id. lend_place head r (place id)

pub lend-front :
    (head : ℕ) (place : Place) (xs ys : List ℕ)
    → IsPlaced place none (xs ++ ys)
    → IsPlaced (lend head (length ys) place) (some head) xs
lend-front head place [] ys k = tt
lend-front head place (x ∷ xs) ys (here, k) =
    let more : ltb (length (xs ++ ys)) (length ys) ≡ false = ground (arith, length-append xs ys) in
    let rank : length (xs ++ ys) - length ys ≡ length xs = omega (arith, length-append xs ys) in
    (ap (lend_place head (length ys)) here ∙ rw (more, rank) refl, lend-front head place xs ys k)

pub lend-rest :
    (head r : ℕ) (place : Place) (ys : List ℕ)
    → length ys ≤ r
    → IsPlaced place none ys
    → IsPlaced (lend head r place) none ys
lend-rest head r place [] le k = tt
lend-rest head r place (y ∷ ys) le (here, k) =
    let less : ltb (length ys) r ≡ true = ground arith in
    (ap (lend_place head r) here ∙ rw less refl, lend-rest head r place ys (omega arith) k)

pub lend-chain :
    (head r h : ℕ) (place : Place) (zs : List ℕ)
    → IsPlaced place (some h) zs
    → IsPlaced (lend head r place) (some h) zs
lend-chain head r h place [] k = tt
lend-chain head r h place (z ∷ zs) (here, k) =
    (ap (lend_place head r) here, lend-chain head r h place zs k)

-- What becomes of the places when the chain at `head` is put before `r` free descriptors.
abbrev pub regain_place : ℕ → ℕ → Option ℕ × ℕ → Option ℕ × ℕ
regain_place head r (none, n) = (none, n)
regain_place head r (some h, n) = if h == head then (none, n + r) else (some h, n)

abbrev pub regain : ℕ → ℕ → Place → Place
regain head r place = λ id. regain_place head r (place id)

regain-free :
    (head r : ℕ) (place : Place) (ys : List ℕ)
    → IsPlaced place none ys
    → IsPlaced (regain head r place) none ys
regain-free head r place [] k = tt
regain-free head r place (y ∷ ys) (here, k) =
    (ap (regain_place head r) here, regain-free head r place ys k)

pub regain-front :
    (head : ℕ) (place : Place) (xs ys : List ℕ)
    → IsPlaced place (some head) xs
    → IsPlaced place none ys
    → IsPlaced (regain head (length ys) place) none (xs ++ ys)
regain-front head place [] ys k l = regain-free head (length ys) place ys l
regain-front head place (x ∷ xs) ys (here, k) l =
    let same : (head == head) ≡ true = ground arith in
    let rank : length xs + length ys ≡ length (xs ++ ys) = sym (length-append xs ys) in
    (
      ap (regain_place head (length ys)) here ∙ rw (same, rank) refl,
      regain-front head place xs ys k l,
    )

pub regain-chain :
    (head r h : ℕ) (place : Place) (zs : List ℕ)
    → h ≢ head
    → IsPlaced place (some h) zs
    → IsPlaced (regain head r place) (some h) zs
regain-chain head r h place [] ne k = tt
regain-chain head r h place (z ∷ zs) ne (here, k) =
    let other : (h == head) ≡ false = ground arith in
    (ap (regain_place head r) here ∙ rw other refl, regain-chain head r h place zs ne k)

-- A chain that ends at `t` is linked there to what is written at `t`.
pub relinked :
    (next : List ℕ) (head t v m : ℕ) (front : List ℕ)
    → IsWithout t front
    → IsLinked next head front t
    → get_elem? next t ≡ some m
    → IsLinked (set next t v) head (front ++ t ∷ []) v
relinked next head t v m front w k at =
    IsLinked-append (set next t v) head t v front (t ∷ []) (set-IsLinked next t v head t front w k)
      (refl, v, get_elem?-set_self next t v (get_elem?-lt next t at), refl)
