-- ===== src/Ownership.antt =====
-- virtio/ownership.rs: which descriptors of a queue are free, and which are lent to the device. A Rust
-- panic is `none`.
use mmurtl_rs.Base.{
  ℕ, zero, suc, ◌+◌, ◌-◌, ◌%◌, ◌^◌, Bool, true, false, not, ◌&&◌, ◌||◌, ◌==◌, leb, ltb,
  if◌then◌else◌, guard, ◌>>=◌, ◌>>◌, Option, none, some, List, [], ◌∷◌, length, get_elem?, set,
  replicate,
}
pub mod Lists
pub mod Valid
pub mod Reserve
pub mod Complete
pub mod Fresh
pub mod Calls
pub mod Reach
mod Tests

-- END
abbrev pub end_mark : ℕ
end_mark = 65535

pub record Ownership : Type 0 where
  pub next : List ℕ
  pub pending : List ℕ
  pub free_head : ℕ
  pub free : ℕ
  pub broken : Bool

-- Each descriptor leads to the one behind it, and the last to END.
unfoldable pub links : ℕ → ℕ → List ℕ
links i zero = []
links i (suc left) = (if left == 0 then end_mark else i + 1) ∷ links (i + 1) left

unfoldable pub new : ℕ → Option Ownership
unfolding links
new size = do
  guard (not (size == 0))
  some (record {
    next = links 0 size;
    pending = replicate size 0;
    free_head = 0;
    free = size;
    broken = false;
  })

abbrev pub poison : Ownership → Ownership
poison o = record o { broken = true }

-- `for _ in 1..count { tail = self.next(tail) }`, with `n` rounds.
unfoldable pub walk : List ℕ → ℕ → ℕ → Option ℕ
walk next zero id = some id
walk next (suc n) id = do id' ← get_elem? next id; walk next n id'

unfoldable pub reserve : ℕ → Ownership → Option (Option ℕ × Ownership)
unfolding walk
reserve count o = if o.broken || count == 0 || ltb o.free count then some (none, o) else (do
  tail ← walk o.next (count - 1) o.free_head
  rest ← get_elem? o.next tail
  some (
    some o.free_head,
    record o {
      next = set o.next tail end_mark;
      pending = set o.pending o.free_head (count % 2 ^ 16);
      free_head = rest;
      free = o.free - count;
    },
  ))

-- Whether the device names a chain that it was lent.
abbrev pub expects : Option ℕ → ℕ → Bool
expects none id = true
expects (some head) id = id == head

unfoldable pub complete : ℕ → ℕ → Option ℕ → Ownership → Option (Option ℕ × Ownership)
unfolding walk
complete id count expected o = if o.broken then some (none, o) else elim (get_elem? o.pending id) [
  | none ↦ some (none, poison o)
  | some lent ↦
      if count == 0 || not (lent == count) || not (expects expected id)
      then some (none, poison o)
      else (do
        tail ← walk o.next (count - 1) id
        some (
          some id,
          record o {
            next = set o.next tail o.free_head;
            pending = set o.pending id 0;
            free_head = id;
            free = o.free + count;
          },
        ))
]
