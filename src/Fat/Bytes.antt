-- ===== src/Fat/Bytes.antt =====
-- Bytes that are written to the table and read back.
use mmurtl_rs.Base.{
  ℕ, zero, suc, ◌+◌, ◌/◌, ◌%◌, ◌<◌, ◌≡◌, refl, List, [], ◌∷◌, length, get_or, set, length-set,
  arith, ◌==◌, if◌then◌else◌,
}
use mmurtl_rs.Fat.{put_u16, put_u32}

pub get_or-set :
    (b : List ℕ) (i j v : ℕ)
    → i < length b
    → get_or (set b i v) j 0 ≡ (if i == j then v else get_or b j 0)
get_or-set [] i j v h = absurd (omega arith)
get_or-set (x ∷ xs) zero zero v h = refl
get_or-set (x ∷ xs) zero (suc j) v h = ground arith
get_or-set (x ∷ xs) (suc i) zero v h = ground arith
get_or-set (x ∷ xs) (suc i) (suc j) v h = ground (arith, get_or-set xs i j v)

pub length-put_u16 : (b : List ℕ) (n v : ℕ) → length (put_u16 b n v) ≡ length b
length-put_u16 b n v =
    omega (arith, length-set (set b n (v % 256)) (n + 1) (v / 256 % 256), length-set b n (v % 256))

-- A byte after two were written.
pub get_or-put_u16 :
    (b : List ℕ) (n v j : ℕ)
    → n + 1 < length b
    → get_or (put_u16 b n v) j 0
      ≡ (if n + 1 == j then v / 256 % 256 else if n == j then v % 256 else get_or b j 0)
get_or-put_u16 b n v j h =
    let inner : n < length b = omega arith in
    let outer : n + 1 < length (set b n (v % 256)) = omega (arith, length-set b n (v % 256)) in
    rw
      (
        get_or-set (set b n (v % 256)) (n + 1) j (v / 256 % 256) outer,
        get_or-set b n j (v % 256) inner,
      )
      refl

-- A byte after four were written.
pub get_or-put_u32 :
    (b : List ℕ) (n v j : ℕ)
    → n + 3 < length b
    → get_or (put_u32 b n v) j 0 ≡ (
        if n + 3 == j
        then v / 65536 / 256 % 256
        else if n + 2 == j
        then v / 65536 % 256
        else if n + 1 == j
        then v % 65536 / 256 % 256
        else if n == j
        then v % 65536 % 256
        else get_or b j 0)
get_or-put_u32 b n v j h =
    let size = length-put_u16 b n (v % 65536) in
    let outer =
      get_or-put_u16 (put_u16 b n (v % 65536)) (n + 2) (v / 65536) j (omega (arith, size)) in
    let inner = get_or-put_u16 b n (v % 65536) j (omega arith) in ground arith
