-- ===== src/Base/Bytes.antt =====
-- Numbers in little-endian bytes, as Rust's `from_le_bytes` and `to_le_bytes` read and write them.
use Prim.Native.Nat.{ℕ, ◌+◌, ◌*◌, ◌/◌, ◌%◌}
use mathlib.Core.List.{List, [], ◌∷◌, ◌++◌}
use mmurtl_rs.Base.Lists.{get_or}

abbrev pub le16 : List ℕ → ℕ → ℕ
le16 b n = get_or b n 0 + 256 * get_or b (n + 1) 0

abbrev pub le32 : List ℕ → ℕ → ℕ
le32 b n = le16 b n + 65536 * le16 b (n + 2)

abbrev pub le64 : List ℕ → ℕ → ℕ
le64 b n = le32 b n + 4294967296 * le32 b (n + 4)

abbrev pub bytes16 : ℕ → List ℕ
bytes16 v = v % 256 ∷ v / 256 % 256 ∷ []

abbrev pub bytes32 : ℕ → List ℕ
bytes32 v = v % 256 ∷ v / 256 % 256 ∷ v / 65536 % 256 ∷ v / 16777216 % 256 ∷ []

abbrev pub bytes64 : ℕ → List ℕ
bytes64 v = bytes32 v ++ bytes32 (v / 4294967296)
