-- ===== src/Base/Cycle.antt =====
-- Going round an array once meets every index.
use Prim.Native.Nat.{ℕ, ◌+◌, ◌-◌, ◌%◌, ◌<◌}
use mathlib.Core.Path.{◌≡◌, sym, ap, ◌∙◌}
use mathlib.Core.Logic.{inl, inr}
use native.Mathlib.Omega.{arith}
use native.Mathlib.Nat.{mod-add-mod, add-mod_right, mod-eq_of_lt}
use mmurtl_rs.Base.Tests.{ltb, Bool-cases}

pub cycle_covers : (start len i : ℕ) → i < len → (m : ℕ) × (m < len) × ((start + m) % len ≡ i)
cycle_covers start len i h = elim (Bool-cases (ltb i (start % len))) [
  | inl lt ↦ (
    i + len - start % len,
    ground arith,
    visit (i + len - start % len) (i + len) (ground arith) (add-mod_right i len ∙ mod-eq_of_lt h),
  )
  | inr ge ↦
      (i - start % len, ground arith, visit (i - start % len) i (ground arith) (mod-eq_of_lt h))
]
  where
    visit : (m t : ℕ) → start % len + m ≡ t → t % len ≡ i → (start + m) % len ≡ i
    visit m t e f = sym (mod-add-mod start len m) ∙ ap (λ (x : ℕ). x % len) e ∙ f
