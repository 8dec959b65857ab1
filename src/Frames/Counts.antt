-- ===== src/Frames/Counts.antt =====
-- The invariant of the frame allocator, and how its free count moves.
use mmurtl_rs.Base.{
  ℕ, zero, suc, ◌+◌, ◌≤◌, ◌<◌, ◌≡◌, refl, Bool, true, false, ◌==◌, arith, Bool-cases, inl, inr,
}
use mmurtl_rs.Frames.{Frames, update, count_free, bitmap_bits}

pub record IsValid (a : Frames) : Type 0 where
  pub covered : a.total_frames ≤ bitmap_bits
  pub counted : a.free_frames ≡ count_free a.used a.total_frames
  -- A free frame that is marked zero is zero.
  pub zeroed_clean : (i : ℕ) → a.used i ≡ false → a.zeroed i ≡ true → a.clean i ≡ true
  -- An allocated frame is never marked zero.
  pub used_unmarked : (i : ℕ) → a.used i ≡ true → a.zeroed i ≡ false

count-beyond :
    (used : ℕ → Bool) (idx n : ℕ) (v : Bool)
    → n ≤ idx
    → count_free (update used idx v) n ≡ count_free used n
unfolding count_free
count-beyond used idx zero v h = refl
count-beyond used idx (suc n) v h = ground (arith, count-beyond used idx n v)

pub count-update_used :
    (used : ℕ → Bool) (idx n : ℕ)
    → used idx ≡ false
    → idx < n
    → count_free (update used idx true) n + 1 ≡ count_free used n
unfolding count_free
count-update_used used idx zero free h = absurd (omega arith)
count-update_used used idx (suc n) free h = elim (Bool-cases (idx == n)) [
  | inl e ↦ ground (arith, count-beyond used idx n true)
  | inr e ↦ ground (arith, count-update_used used idx n)
]

pub count-update_free :
    (used : ℕ → Bool) (idx n : ℕ)
    → used idx ≡ true
    → idx < n
    → count_free (update used idx false) n ≡ count_free used n + 1
unfolding count_free
count-update_free used idx zero taken h = absurd (omega arith)
count-update_free used idx (suc n) taken h = elim (Bool-cases (idx == n)) [
  | inl e ↦ ground (arith, count-beyond used idx n false)
  | inr e ↦ ground (arith, count-update_free used idx n)
]

pub count-positive :
    (used : ℕ → Bool) (idx n : ℕ) → used idx ≡ false → idx < n → 1 ≤ count_free used n
count-positive used idx n free h = omega (arith, count-update_used used idx n free h)
