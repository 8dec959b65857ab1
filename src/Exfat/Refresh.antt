-- ===== src/Exfat/Refresh.antt =====
-- fs/exfat.rs: an entry set that `update_stream_entry` changes in place carries its new checksum.
use mmurtl_rs.Base.{
  ℕ, suc, ◌+◌, ◌-◌, ◌≤◌, ◌≡◌, sym, ap, subst, ◌∙◌, List, [], ◌∷◌, ◌++◌, length, take, drop, arith,
  take-append-drop, length-take, length-drop, ◌%◌, ◌/◌, bytes16,
}
use mmurtl_rs.Exfat.{entry_set_checksum, put_checksum}
use mmurtl_rs.Exfat.Checksum.{IsSealed, put_checksum-IsSealed}
use mmurtl_rs.Exfat.Files.{refresh_checksum}
use mmurtl_rs.Fat.Disk.{overwrite, slice}
use mathlib.Core.List.{append_assoc}

take_past : (p q : List ℕ) (n : ℕ) → take (length p + n) (p ++ q) ≡ p ++ take n q
take_past [] q n = ap (λ k. take k q) (omega arith)
take_past (x ∷ p) q n =
    ap (λ k. take k (x ∷ (p ++ q))) {y = suc (length p + n)} (omega arith)
    ∙ ap (λ t. x ∷ t) (take_past p q n)

drop_past : (p q : List ℕ) (n : ℕ) → drop (length p + n) (p ++ q) ≡ drop n q
drop_past [] q n = ap (λ k. drop k q) (omega arith)
drop_past (x ∷ p) q n =
    ap (λ k. drop k (x ∷ (p ++ q))) {y = suc (length p + n)} (omega arith) ∙ drop_past p q n

slice_past : (p q : List ℕ) (len : ℕ) → slice (p ++ q) (length p) len ≡ take len q
slice_past p q len =
    ap (λ k. take len (drop k (p ++ q))) (omega arith) ∙ ap (take len) (drop_past p q 0)

-- A write of two bytes behind `p`.
overwrite_past :
    (p q : List ℕ) (n v : ℕ)
    → overwrite (p ++ q) (length p + n) (bytes16 v) ≡ p ++ (take n q ++ bytes16 v ++ drop (n + 2) q)
overwrite_past p q n v =
    ap (λ t. t ++ bytes16 v ++ drop (length p + n + 2) (p ++ q)) (take_past p q n)
    ∙ ap (λ k. (p ++ take n q) ++ bytes16 v ++ drop k (p ++ q)) (omega arith)
    ∙ ap (λ t. (p ++ take n q) ++ bytes16 v ++ t) (drop_past p q (n + 2))
    ∙ ap (λ t. t ++ drop (n + 2) q) (append_assoc p (take n q) (bytes16 v))
    ∙ append_assoc p (take n q ++ bytes16 v) (drop (n + 2) q)

take_four :
    (a b c d : ℕ) (q : List ℕ) (m : ℕ) → take (4 + m) (a ∷ b ∷ c ∷ d ∷ q) ≡ a ∷ b ∷ c ∷ d ∷ take m q
take_four a b c d q m =
    ap (λ k. take k (a ∷ b ∷ c ∷ d ∷ q)) {y = suc (suc (suc (suc m)))} (omega arith)

-- The set at the front of `q`.
IsSealed-front :
    (q : List ℕ) (m : ℕ)
    → 4 + m ≤ length q
    → IsSealed (take (4 + m) (put_checksum (entry_set_checksum (take (4 + m) q)) q))
IsSealed-front (a ∷ b ∷ c ∷ d ∷ q) m h =
    let front : List ℕ = a ∷ b ∷ c ∷ d ∷ take m q in
    let sum : ℕ = entry_set_checksum front in
    subst (λ t. IsSealed (take (4 + m) (put_checksum (entry_set_checksum t) (a ∷ b ∷ c ∷ d ∷ q))))
      (sym (take_four a b c d q m))
      (subst IsSealed (sym (take_four a b (sum % 256) (sum / 256 % 256) q m))
        (put_checksum-IsSealed a b c d (take m q)))
IsSealed-front (a ∷ b ∷ c ∷ []) m h = absurd (omega arith)
IsSealed-front (a ∷ b ∷ []) m h = absurd (omega arith)
IsSealed-front (a ∷ []) m h = absurd (omega arith)
IsSealed-front [] m h = absurd (omega arith)

refresh_past :
    (p q : List ℕ) (m : ℕ)
    → 4 + m ≤ length q
    → IsSealed (slice (refresh_checksum (length p) (4 + m) (p ++ q)) (length p) (4 + m))
refresh_past p q m h =
    let sum : ℕ = entry_set_checksum (take (4 + m) q) in
    subst
      (λ t. IsSealed (
        slice (overwrite (p ++ q) (length p + 2) (bytes16 (entry_set_checksum t))) (length p)
          (4 + m)))
      (sym (slice_past p q (4 + m)))
      (subst (λ t. IsSealed (slice t (length p) (4 + m))) (sym (overwrite_past p q 2 sum))
        (subst IsSealed (sym (slice_past p (put_checksum sum q) (4 + m))) (IsSealed-front q m h)))

-- The set of `len` bytes at `off` in a directory carries its own checksum once `update_stream_entry`
-- has refreshed it, whatever was changed in the set before, where the set has at least four bytes
-- and lies within the directory.
pub refresh_checksum-IsSealed :
    (bytes : List ℕ) (off len : ℕ)
    → 4 ≤ len
    → off + len ≤ length bytes
    → IsSealed (slice (refresh_checksum off len bytes) off len)
refresh_checksum-IsSealed bytes off len four inside =
    let before : length (take off bytes) ≡ off = omega (arith, length-take off bytes, inside) in
    let size : 4 + (len - 4) ≡ len = omega arith in
    subst (λ k. IsSealed (slice (refresh_checksum off k bytes) off k)) size
      (subst (λ k. IsSealed (slice (refresh_checksum k (4 + (len - 4)) bytes) k (4 + (len - 4))))
        before
        (subst
          (λ b. IsSealed (
            slice (refresh_checksum (length (take off bytes)) (4 + (len - 4)) b)
              (length (take off bytes)) (4 + (len - 4))))
          (take-append-drop off bytes)
          (refresh_past (take off bytes) (drop off bytes) (len - 4)
            (omega (arith, length-drop off bytes, inside, four)))))
