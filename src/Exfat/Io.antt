-- ===== src/Exfat/Io.antt =====
-- Code that reads and writes a device. A result `none` is `false`, `None` or an `Err` of the source;
-- what was written before it stays. The device is the driver of virtio/blk.rs, a parameter here:
-- its state may be anything, and the same sector may be read twice with different results.
use mmurtl_rs.Base.{ℕ, ◌≡◌, refl, ap, some_inj, Bool, true, false, Option, none, some, List}

abbrev pub Io : Type 0 → Type 0 → Type 0
Io D A = D → Option A × D

abbrev pub and_then : {D A B : Type 0} → Option A × D → (A → Io D B) → Option B × D
and_then (none, d) f = (none, d)
and_then (some a, d) f = f a d

infixl 5 ◌>>=◌ ◌>>◌
abbrev pub ◌>>=◌ : {D A B : Type 0} → Io D A → (A → Io D B) → Io D B
(m >>= f) d = and_then (m d) f

abbrev pub ◌>>◌ : {D B : Type 0} → Io D Unit → Io D B → Io D B
m >> k = m >>= λ _. k

abbrev pub succeed : {D A : Type 0} → A → Io D A
succeed a d = (some a, d)

abbrev pub fail : {D A : Type 0} → Io D A
fail d = (none, d)

-- `?` and `ok_or` on an optional value.
abbrev pub need : {D A : Type 0} → Option A → Io D A
need o d = (o, d)

-- An early return of an error unless a test is passed.
abbrev pub check : {D : Type 0} → Bool → Io D Unit
check true d = (some tt, d)
check false d = (none, d)

-- The result of a call as a value, which does not end the caller.
abbrev pub attempt : {D A : Type 0} → Io D A → Io D (Option A)
attempt m d = let (o, d') = m d in (some o, d')

abbrev pub ignore : {D A : Type 0} → Io D A → Io D Unit
ignore m d = let (o, d') = m d in (some tt, d')

abbrev clean : {D A : Type 0} → Option A × D → Io D Unit → Option A × D
clean (some a, d) undo = (some a, d)
clean (none, d) undo = let (o, d') = undo d in (none, d')

-- `if failed { undo; return Err }`
abbrev pub on_failure : {D A : Type 0} → Io D A → Io D Unit → Io D A
on_failure m undo d = clean (m d) undo

pub record Device (D : Type 0) : Type 0 where
  pub available : Bool
  pub read_sector : ℕ → Io D (List ℕ)
  pub write_sector : ℕ → List ℕ → Io D Unit

-- A successful step, taken apart.
pub bind_inv :
    {D A B : Type 0} (r : Option A × D) (f : A → Io D B) {b : B} {d' : D}
    → and_then r f ≡ (some b, d')
    → (a : A) × (d : D) × (r ≡ (some a, d)) × (f a d ≡ (some b, d'))
bind_inv (none, d) f h = cc
bind_inv (some a, d) f h = (a, d, refl, h)

pub result_inj :
    {D A : Type 0} {a b : A} {d d' : D} → ◌≡◌ {A = Option A × D} (some a, d) (some b, d') → a ≡ b
result_inj h = some_inj (ap (λ r. r.0) h)
