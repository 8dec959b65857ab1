-- ===== src/Topology/Tests.antt =====
-- Admitting CPUs one after the other, and the instance of the theorem there.
use mmurtl_rs.Base.{ℕ, ◌≡◌, refl, true, false, none, any}
use mmurtl_rs.Topology.{Core, Source, Admission, new, bsp, admit, overlaps}
use mmurtl_rs.Topology.Admit.{IsApart, admit-IsApart, bsp-IsApart}

-- A thread with two siblings to a core, the lowest bit of the identity telling them apart.
abbrev thread : ℕ → ℕ → Core
thread id base = record {
  logical = id;
  base = base;
  mask = 1;
  package_id = none;
  threads = 2;
  source = Source.intel1f;
}

abbrev booted : Admission
booted = bsp (thread 0 0) (new 4 true)

sibling_refused : (admit 1 (thread 1 0) booted).0 ≡ false
unfolding admit overlaps bsp new any
sibling_refused = refl

other_core_taken : (admit 2 (thread 2 2) (admit 1 (thread 1 0) booted).1).0 ≡ true
unfolding admit overlaps bsp new any
other_core_taken = refl

admit-IsApart_example : IsApart (admit 1 (thread 2 2) booted).1
admit-IsApart_example = admit-IsApart 1 (thread 2 2) booted booted_off (bsp-IsApart (thread 0 0) 4)
  where
    booted_off : booted.disable_smt ≡ true
    booted_off = unfold bsp in unfold new in refl
