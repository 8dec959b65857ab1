-- ===== src/Ownership/Reach.antt =====
-- virtio/ownership.rs: over every history of calls, each descriptor is in one place.
use mmurtl_rs.Base.{
  inl, inr, ℕ, zero, suc, ◌-◌, ◌<◌, ◌≡◌, refl, sym, ap, subst, ◌∙◌, Option, none, some, List, [],
  ◌∷◌, length, get_elem?, arith, some_inj, guarded, not, ◌==◌,
}
use mmurtl_rs.Ownership.{Ownership, new, reserve, complete, poison, walk}
use mmurtl_rs.Ownership.Lists.{walk-IsIn, IsLinked, IsPlaced}
use mmurtl_rs.Ownership.Valid.{IsCovered, Place, IsValid}
use mmurtl_rs.Ownership.Fresh.{fresh_queue, fresh_queue-IsValid}
use mmurtl_rs.Ownership.Calls.{IsOwned, reserve_lem, complete_lem, poison-IsOwned}

-- The states of a queue of `size` descriptors that calls lead to.
pub data Reach (size : ℕ) : Ownership → Type 0 where
  created : {o : Ownership} → new size ≡ some o → Reach size o
  reserved :
      {o o' : Ownership} (count : ℕ) (r : Option ℕ)
      → Reach size o
      → reserve count o ≡ some (r, o')
      → Reach size o'
  completed :
      {o o' : Ownership} (id count : ℕ) (expected r : Option ℕ)
      → Reach size o
      → complete id count expected o ≡ some (r, o')
      → Reach size o'
  poisoned : {o : Ownership} → Reach size o → Reach size (poison o)

new-IsOwned : (size : ℕ) (o : Ownership) → size < 65536 → new size ≡ some o → IsOwned size o
unfolding new IsOwned
new-IsOwned zero o small h = cc
new-IsOwned (suc n) o small h =
    let (_, made) = guarded (not (suc n == 0)) (some (fresh_queue (suc n))) h in
    subst (IsOwned (suc n)) (some_inj made) (_, _, _, fresh_queue-IsValid n small)

pub Reach-IsOwned : (size : ℕ) (o : Ownership) → size < 65536 → Reach size o → IsOwned size o
Reach-IsOwned size o small (created made) = new-IsOwned size o small made
Reach-IsOwned size o small (reserved {o = p} count r before done) =
    let (r', p', done', v, _) = reserve_lem size count p (Reach-IsOwned size p small before) in
    subst (IsOwned size) (ap (λ (q : Option ℕ × Ownership). q.1) (some_inj (sym done' ∙ done))) v
Reach-IsOwned size o small (completed {o = p} id count expected r before done) =
    let (r', p', done', v, _) =
      complete_lem size id count expected p (Reach-IsOwned size p small before) in
    subst (IsOwned size) (ap (λ (q : Option ℕ × Ownership). q.1) (some_inj (sym done' ∙ done))) v
Reach-IsOwned size o small (poisoned {o = p} before) =
    poison-IsOwned size p (Reach-IsOwned size p small before)

-- Descriptor `id` is entry `i` of the free list, or of the chain that is lent at a head.
abbrev pub IsHeld : Ownership → Option ℕ → ℕ → ℕ → Type 0
IsHeld o none i id = (i < o.free) × (walk o.next i o.free_head ≡ some id)
IsHeld o (some head) i id =
    (count : ℕ) × (get_elem? o.pending head ≡ some count)
    × (i < count)
    × (walk o.next i head ≡ some id)

walk_place :
    (place : Place) (owner : Option ℕ) (next : List ℕ) (head end i : ℕ) (ids : List ℕ) {id : ℕ}
    → IsLinked next head ids end
    → IsPlaced place owner ids
    → i < length ids
    → walk next i head ≡ some id
    → place id ≡ (owner, length ids - 1 - i)
unfolding walk
walk_place place owner next head end i [] k l lt w = absurd (omega arith)
walk_place place owner next head end zero (x ∷ ids) (e, n, at, k) (here, l) lt w =
    subst (λ y. place y ≡ (owner, suc (length ids) - 1 - 0)) (e ∙ some_inj w)
      (here ∙ ap (λ n. (owner, n)) (omega arith))
walk_place place owner next head end (suc i) (x ∷ ids) {id} (e, n, at, k) (here, l) lt w =
    let step : get_elem? next head ≡ some n = subst (λ h. get_elem? next h ≡ some n) e at in
    let later : walk next i n ≡ some id = rw (sym w, step) refl in
    walk_place place owner next n end i ids k l (omega arith) later
    ∙ ap (λ n. (owner, n)) (omega arith)

-- How long the list of an owner is.
abbrev length_of : List ℕ → (ℕ → List ℕ) → Option ℕ → ℕ
length_of free_ids chains none = length free_ids
length_of free_ids chains (some head) = length (chains head)

held_place :
    (size : ℕ) (place : Place) (free_ids : List ℕ) (chains : ℕ → List ℕ) (o : Ownership)
    → IsValid size place free_ids chains o
    → (owner : Option ℕ) (i id : ℕ) → IsHeld o owner i id
    → (i < length_of free_ids chains owner)
      × (place id ≡ (owner, length_of free_ids chains owner - 1 - i))
held_place size place free_ids chains o v none i id (lt, w) =
    let lt' : i < length free_ids = omega (arith, lt, v.counted) in
    (lt', walk_place place none o.next o.free_head v.last i free_ids v.linked v.placed lt' w)
held_place size place free_ids chains o v (some head) i id (count, lent, lt, w) =
    let chain = v.lent head count lent (omega arith) in
    let lt' : i < length (chains head) = omega (arith, lt, chain.counted) in
    (
      lt',
      walk_place place (some head) o.next head chain.last i (chains head) chain.linked chain.placed
          lt' w,
    )

IsHeld-some :
    (size : ℕ) (place : Place) (free_ids : List ℕ) (chains : ℕ → List ℕ) (o : Ownership)
    → IsValid size place free_ids chains o
    → (id : ℕ) → IsCovered free_ids chains o.pending id
    → (owner : Option ℕ) × (i : ℕ) × IsHeld o owner i id
IsHeld-some size place free_ids chains o v id (inl member) =
    let (i, lt, steps) = walk-IsIn o.next o.free_head v.last id free_ids v.linked member in
    (none, i, (omega (arith, lt, v.counted), steps))
IsHeld-some size place free_ids chains o v id (inr (head, count, lent, pos, member)) =
    let chain = v.lent head count lent pos in
    let (i, lt, steps) = walk-IsIn o.next head chain.last id (chains head) chain.linked member in
    (some head, i, (count, lent, omega (arith, lt, chain.counted), steps))

held_same :
    (size : ℕ) (place : Place) (free_ids : List ℕ) (chains : ℕ → List ℕ) (o : Ownership)
    → IsValid size place free_ids chains o
    → (owner owner' : Option ℕ) (i j id : ℕ) → IsHeld o owner i id
    → IsHeld o owner' j id
    → (owner' ≡ owner) × (j ≡ i)
held_same size place free_ids chains o v owner owner' i j id here there =
    let (lt, at) = held_place size place free_ids chains o v owner i id here in
    let (lt', at') = held_place size place free_ids chains o v owner' j id there in
    let both = sym at' ∙ at in
    let same : owner' ≡ owner = ap (λ p. p.0) both in
    let rank = ap (λ p. p.1) both in
    (same, omega (arith, lt, lt', rank, ap (length_of free_ids chains) same))

-- Whatever calls a queue of fewer than 65536 descriptors has seen, every descriptor stands in exactly
-- one place: it is an entry of the free list or of the chain that is lent at some head, and wherever
-- it is an entry, that is this list and this entry.
pub Reach-IsHeld_once :
    (size : ℕ) (o : Ownership) (id : ℕ)
    → size < 65536
    → Reach size o
    → id < size
    → (owner : Option ℕ) × (i : ℕ) × IsHeld o owner i id
      × ((owner' : Option ℕ) (j : ℕ) → IsHeld o owner' j id → (owner' ≡ owner) × (j ≡ i))
unfolding IsOwned
Reach-IsHeld_once size o id small reach lt =
    let (place, free_ids, chains, v) = Reach-IsOwned size o small reach in
    let (owner, i, here) = IsHeld-some size place free_ids chains o v id (v.covered id lt) in
    (
      owner,
      i,
      here,
      λ owner' j there. held_same size place free_ids chains o v owner owner' i j id here there,
    )
