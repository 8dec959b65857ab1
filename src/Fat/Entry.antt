-- ===== src/Fat/Entry.antt =====
-- Writing one entry of the allocation table: it reads back, and no other entry changes.
use mmurtl_rs.Base.{
  ℕ, ◌+◌, ◌*◌, ◌/◌, ◌%◌, ◌^◌, ◌<◌, ◌≤◌, ◌≡◌, ◌≢◌, List, length, get_or, arith, Bool-cases, inl, inr,
  ◌==◌,
}
use mmurtl_rs.Fat.{Kind, u16le, u32le, entry, with_entry, entry_offset, entry_bytes}
use mmurtl_rs.Fat.Bytes.{get_or-put_u16, get_or-put_u32}

-- The bits of an entry.
abbrev pub width : Kind → ℕ
width Kind.fat12 = 12
width Kind.fat16 = 16
width Kind.fat32 = 28

-- Every element is a byte.
abbrev pub IsBytes : List ℕ → Type 0
IsBytes b = (i : ℕ) → get_or b i 0 < 256

abbrev pub Fits : Kind → List ℕ → ℕ → Type 0
Fits k b n = entry_offset k n + entry_bytes k ≤ length b

-- The value is kept, cut to the width of the entry.
pub entry-with_entry :
    (k : Kind) (b : List ℕ) (n value : ℕ)
    → IsBytes b
    → Fits k b n
    → entry k (with_entry k b n value) n ≡ value % 2 ^ width k
unfolding entry with_entry
entry-with_entry Kind.fat12 b n value bytes h = elim (Bool-cases (n % 2 == 0)) [
  | inl even ↦
      let v = u16le b (n + n / 2) / 4096 * 4096 + value % 4096 in
      let lo = get_or-put_u16 b (n + n / 2) v (n + n / 2) (omega arith) in
      let hi = get_or-put_u16 b (n + n / 2) v (n + n / 2 + 1) (omega arith) in
      let x = bytes (n + n / 2) in let y = bytes (n + n / 2 + 1) in ground arith
  | inr odd ↦
      let v = u16le b (n + n / 2) % 16 + value % 4096 * 16 in
      let lo = get_or-put_u16 b (n + n / 2) v (n + n / 2) (omega arith) in
      let hi = get_or-put_u16 b (n + n / 2) v (n + n / 2 + 1) (omega arith) in ground arith
]
entry-with_entry Kind.fat16 b n value bytes h =
    let lo = get_or-put_u16 b (n * 2) (value % 65536) (n * 2) (omega arith) in
    let hi = get_or-put_u16 b (n * 2) (value % 65536) (n * 2 + 1) (omega arith) in ground arith
entry-with_entry Kind.fat32 b n value bytes h =
    let v = u32le b (n * 4) / 2 ^ 28 * 2 ^ 28 + value % 2 ^ 28 in
    let b0 = get_or-put_u32 b (n * 4) v (n * 4) (omega arith) in
    let b1 = get_or-put_u32 b (n * 4) v (n * 4 + 1) (omega arith) in
    let b2 = get_or-put_u32 b (n * 4) v (n * 4 + 2) (omega arith) in
    let b3 = get_or-put_u32 b (n * 4) v (n * 4 + 2 + 1) (omega arith) in
    let x0 = bytes (n * 4) in
    let x1 = bytes (n * 4 + 1) in
    let x2 = bytes (n * 4 + 2) in let x3 = bytes (n * 4 + 2 + 1) in ground arith

-- Every other entry keeps its value, also the 12-bit one that shares a byte.
pub entry-with_entry_ne :
    (k : Kind) (b : List ℕ) (n m value : ℕ)
    → IsBytes b
    → Fits k b n
    → n ≢ m
    → entry k (with_entry k b n value) m ≡ entry k b m
unfolding entry with_entry
entry-with_entry_ne Kind.fat12 b n m value bytes h ne = elim (Bool-cases (n % 2 == 0)) [
  | inl even ↦
      let v = u16le b (n + n / 2) / 4096 * 4096 + value % 4096 in
      let lo = get_or-put_u16 b (n + n / 2) v (m + m / 2) (omega arith) in
      let hi = get_or-put_u16 b (n + n / 2) v (m + m / 2 + 1) (omega arith) in
      let x = bytes (n + n / 2) in let y = bytes (n + n / 2 + 1) in ground arith
  | inr odd ↦
      let v = u16le b (n + n / 2) % 16 + value % 4096 * 16 in
      let lo = get_or-put_u16 b (n + n / 2) v (m + m / 2) (omega arith) in
      let hi = get_or-put_u16 b (n + n / 2) v (m + m / 2 + 1) (omega arith) in
      let x = bytes (n + n / 2) in let y = bytes (n + n / 2 + 1) in ground arith
]
entry-with_entry_ne Kind.fat16 b n m value bytes h ne =
    let lo = get_or-put_u16 b (n * 2) (value % 65536) (m * 2) (omega arith) in
    let hi = get_or-put_u16 b (n * 2) (value % 65536) (m * 2 + 1) (omega arith) in ground arith
entry-with_entry_ne Kind.fat32 b n m value bytes h ne =
    let v = u32le b (n * 4) / 2 ^ 28 * 2 ^ 28 + value % 2 ^ 28 in
    let b0 = get_or-put_u32 b (n * 4) v (m * 4) (omega arith) in
    let b1 = get_or-put_u32 b (n * 4) v (m * 4 + 1) (omega arith) in
    let b2 = get_or-put_u32 b (n * 4) v (m * 4 + 2) (omega arith) in
    let b3 = get_or-put_u32 b (n * 4) v (m * 4 + 2 + 1) (omega arith) in ground arith
