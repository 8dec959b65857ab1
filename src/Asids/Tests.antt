-- ===== src/Asids/Tests.antt =====
-- Two address spaces on two CPUs, a tag space that runs out, and the instances of the theorems.
use mmurtl_rs.Base.{
  ℕ, ◌≡◌, ◌≢◌, refl, true, false, Bool, Option, some, none, [], ◌∷◌, arith, position, any,
}
use mmurtl_rs.Asids.{Asids, Space, empty_space, mark, reserved_tags, new, register, activate}
use mmurtl_rs.Asids.Valid.{IsValid}
use mmurtl_rs.Asids.Activate.{Loads, activate_lem}
use mmurtl_rs.Asids.Reach.{registers, activates, Reach, here, next, Reach-IsValid, Reach-apart}

abbrev fresh_pool : Asids
fresh_pool = record {
  spaces = empty_space ∷ empty_space ∷ [];
  active = (0, 0) ∷ (0, 0) ∷ [];
  used = reserved_tags;
  limit = 255;
  next = 1;
  generation = 1;
}

abbrev first : Space
first = record { root = 4096; tag = 0; generation = 0 }

abbrev second : Space
second = record { root = 8192; tag = 0; generation = 0 }

abbrev one_space : Asids
one_space = record fresh_pool { spaces = first ∷ empty_space ∷ [] }

abbrev two_spaces : Asids
two_spaces = record fresh_pool { spaces = first ∷ second ∷ [] }

abbrev one_running : Asids
one_running = record (mark 1 two_spaces) {
  spaces = record first { tag = 1; generation = 1 } ∷ second ∷ [];
  active = (4096, 1) ∷ (0, 0) ∷ [];
  next = 2;
}

abbrev two_running : Asids
two_running = record (mark 2 one_running) {
  spaces =
      record first { tag = 1; generation = 1 } ∷ record second { tag = 2; generation = 1 } ∷ [];
  active = (4096, 1) ∷ (8192, 2) ∷ [];
  next = 3;
}

history : Reach 2 2 8 two_running
unfolding new register activate position any
history =
    next
      (next
        (next (next (here refl) (registers 4096 (true, one_space) refl))
          (registers 8192 (true, two_spaces) refl))
        (activates 0 4096 ((some 1, false), one_running) (omega arith) (omega arith) refl))
      (activates 1 8192 ((some 2, false), two_running) (omega arith) (omega arith) refl)

Reach-apart_example : (◌≢◌ {A = ℕ} 1 2) × (◌≢◌ {A = ℕ} 1 0) × (◌≢◌ {A = ℕ} 1 255)
Reach-apart_example =
    Reach-apart 0 1 4096 8192 1 2 history refl refl (omega arith) (omega arith) (omega arith)

two_spaces-IsValid : IsValid two_spaces
unfolding new register position any
two_spaces-IsValid = Reach-IsValid {spaces = 2} {cpus = 2} {bits = 8} (
    next (next (here refl) (registers 4096 (true, one_space) refl))
      (registers 8192 (true, two_spaces) refl))

activate_lem_example :
    (r : (Option ℕ × Bool) × Asids) × (activate 1 8192 two_spaces ≡ some r)
    × Loads 1 8192 two_spaces r
activate_lem_example =
    activate_lem 1 1 two_spaces second two_spaces-IsValid (omega arith) refl (omega arith)
      (omega arith)

-- One user tag: the second space starts a generation, in which the tag that runs is kept, and finds
-- none left.
abbrev narrow : Asids
narrow = record one_running { limit = 1; next = 1 }

abbrev answer : Option ((Option ℕ × Bool) × Asids) → Option (Option ℕ × Bool)
answer none = none
answer (some r) = some r.0

exhausted : answer (activate 1 8192 narrow) ≡ some (none, true)
unfolding activate position
exhausted = refl
