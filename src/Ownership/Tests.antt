-- ===== src/Ownership/Tests.antt =====
-- virtio/ownership.rs on a queue of four descriptors.
use mmurtl_rs.Base.{ℕ, ◌≡◌, refl, false, Option, none, some, [], ◌∷◌, arith}
use mmurtl_rs.Ownership.{Ownership, new, reserve, complete, poison, end_mark}
use mmurtl_rs.Ownership.Calls.{IsOwned, Reserves, Completes, reserve_lem, complete_lem}
use mmurtl_rs.Ownership.Reach.{IsHeld, Reach, created, reserved, Reach-IsOwned, Reach-IsHeld_once}

abbrev four : Ownership
four = record {
  next = 1 ∷ 2 ∷ 3 ∷ end_mark ∷ [];
  pending = 0 ∷ 0 ∷ 0 ∷ 0 ∷ [];
  free_head = 0;
  free = 4;
  broken = false;
}

-- Descriptors 0 and 1 are lent.
abbrev two_lent : Ownership
two_lent = record {
  next = 1 ∷ end_mark ∷ 3 ∷ end_mark ∷ [];
  pending = 2 ∷ 0 ∷ 0 ∷ 0 ∷ [];
  free_head = 2;
  free = 2;
  broken = false;
}

new-four : new 4 ≡ some four
unfolding new
new-four = refl

reserve-two : reserve 2 four ≡ some (some 0, two_lent)
unfolding reserve
reserve-two = refl

reserve-three : reserve 3 two_lent ≡ some (none, two_lent)
unfolding reserve
reserve-three = refl

complete-wrong_count : complete 0 1 none two_lent ≡ some (none, poison two_lent)
unfolding complete
complete-wrong_count = refl

-- The chain goes back to the front of the free list.
complete-two :
    complete 0 2 (some 0) two_lent ≡ some (some 0, record four { next = 1 ∷ 2 ∷ 3 ∷ end_mark ∷ [] })
unfolding complete
complete-two = refl

reaches : Reach 4 two_lent
reaches = reserved 2 (some 0) (created new-four) reserve-two

-- Descriptor 1 is in the chain that is lent at 0.
Reach-IsHeld_once_example :
    (owner : Option ℕ) × (i : ℕ) × IsHeld two_lent owner i 1
    × ((owner' : Option ℕ) (j : ℕ) → IsHeld two_lent owner' j 1 → (owner' ≡ owner) × (j ≡ i))
Reach-IsHeld_once_example = Reach-IsHeld_once 4 two_lent 1 (omega arith) reaches (omega arith)

reserve_lem_example :
    (r : Option ℕ) × (o' : Ownership) × (reserve 1 two_lent ≡ some (r, o'))
    × IsOwned 4 o'
    × Reserves 4 1 two_lent r o'
reserve_lem_example = reserve_lem 4 1 two_lent (Reach-IsOwned 4 two_lent (omega arith) reaches)

complete_lem_example :
    (r : Option ℕ) × (o' : Ownership) × (complete 0 2 none two_lent ≡ some (r, o'))
    × IsOwned 4 o'
    × Completes 0 2 none two_lent r o'
complete_lem_example =
    complete_lem 4 0 2 none two_lent (Reach-IsOwned 4 two_lent (omega arith) reaches)
