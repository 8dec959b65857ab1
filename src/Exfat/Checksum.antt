-- ===== src/Exfat/Checksum.antt =====
-- fs/exfat.rs: the checksum that an entry set carries is the checksum of the set.
use mmurtl_rs.Base.{
  ℕ, suc, ◌+◌, ◌*◌, ◌/◌, ◌%◌, ◌<◌, ◌≡◌, Bool, true, false, ◌||◌, ◌==◌, if◌then◌else◌, List, [], ◌∷◌,
  drop, le16, arith,
}
use mmurtl_rs.Exfat.{
  rotate_add, checksum_from, entry_set_checksum, put_checksum, build_entry_set, raw_entries, concat,
  name_entry_count,
}

rotate_add_bound : (sum b : ℕ) → rotate_add sum b < 65536
rotate_add_bound sum b = omega arith

checksum_from_bound : (i sum : ℕ) (bytes : List ℕ) → sum < 65536 → checksum_from i sum bytes < 65536
unfolding checksum_from
checksum_from_bound i sum [] h = h
checksum_from_bound i sum (b ∷ rest) h =
    checksum_from_bound (suc i) (if i == 2 || i == 3 then sum else rotate_add sum b) rest
      (either (i == 2 || i == 3))
  where
    either : (t : Bool) → (if t then sum else rotate_add sum b) < 65536
    either true = h
    either false = rotate_add_bound sum b

le16-bytes16 : (v : ℕ) → v < 65536 → v % 256 + 256 * (v / 256 % 256) ≡ v
le16-bytes16 v h = omega arith

-- What carries its own checksum.
pub IsSealed : List ℕ → Type 0
IsSealed set' = le16 set' 2 ≡ entry_set_checksum set'

-- A set of at least four bytes carries its checksum once that is put into it.
pub put_checksum-IsSealed :
    (a b c d : ℕ) (rest : List ℕ)
    → IsSealed (put_checksum (entry_set_checksum (a ∷ b ∷ c ∷ d ∷ rest)) (a ∷ b ∷ c ∷ d ∷ rest))
unfolding checksum_from IsSealed
put_checksum-IsSealed a b c d rest =
    le16-bytes16 (entry_set_checksum (a ∷ b ∷ c ∷ d ∷ rest))
      (checksum_from_bound 0 0 (a ∷ b ∷ c ∷ d ∷ rest) (omega arith))

-- A set that is built carries its own checksum, whatever the name, attributes, flags, first cluster
-- and length: the number in its bytes 2 and 3 is the checksum of the set, in which these two bytes
-- are left out.
pub build_entry_set-IsSealed :
    (name : List ℕ) (attributes flags first len : ℕ)
    → IsSealed (build_entry_set name attributes flags first len)
unfolding build_entry_set
build_entry_set-IsSealed name attributes flags first len =
    put_checksum-IsSealed 0x85 ((1 + name_entry_count name) % 256) 0 0
      (drop 4 (concat (raw_entries name attributes flags first len)))
