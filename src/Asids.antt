-- ===== src/Asids.antt =====
-- arch/arm64/asid_pool.rs: which address-space tag each address space has, by generations. A Rust
-- panic is `none`.
use mmurtl_rs.Base.{
  ℕ, zero, suc, ◌+◌, ◌-◌, ◌%◌, ◌^◌, Bool, true, false, not, ◌&&◌, ◌||◌, ◌==◌, leb, ltb,
  if◌then◌else◌, is_some, guard, ◌>>=◌, ◌>>◌, Option, none, some, List, [], ◌∷◌, length, get_elem?,
  set, replicate, position, any,
}
pub mod Valid
pub mod Alloc
pub mod Reload
pub mod Obtain
pub mod Activate
pub mod Spaces
pub mod Reach
mod Tests

pub record Space : Type 0 where
  pub root : ℕ
  pub tag : ℕ
  pub generation : ℕ

-- EMPTY
abbrev pub empty_space : Space
empty_space = record { root = 0; tag = 0; generation = 0 }

-- The bitmap `used` is read one tag at a time.
pub record Asids : Type 0 where
  pub spaces : List Space
  pub active : List (ℕ × ℕ)
  pub used : ℕ → Bool
  pub limit : ℕ
  pub next : ℕ
  pub generation : ℕ

-- Tag 0 is the empty user table, tag 255 the identity map of the boot.
abbrev pub reserved_tags : ℕ → Bool
reserved_tags tag = tag == 0 || tag == 255

unfoldable pub new : ℕ → ℕ → ℕ → Option Asids
new spaces cpus bits = do
  guard (ltb 0 bits && leb bits 16)
  some (record {
    spaces = replicate spaces empty_space;
    active = replicate cpus (0, 0);
    used = reserved_tags;
    limit = 2 ^ bits - 1;
    next = 1;
    generation = 1;
  })

abbrev pub is_root : ℕ → Space → Bool
is_root root s = s.root == root

abbrev pub with_space : ℕ → Space → Asids → Asids
with_space i s a = record a { spaces = set a.spaces i s }

abbrev pub has_root : Space → Bool
has_root s = not (s.root == 0)

abbrev pub runs : ℕ × ℕ → Bool
runs r = not (r.0 == 0)

unfoldable pub configure : ℕ → Asids → Option Asids
unfolding new
configure bits a = do
  guard (not (any has_root a.spaces))
  guard (not (any runs a.active))
  new (length a.spaces) (length a.active) bits

-- The first free place takes the root; `false` where there is none.
unfoldable pub register : ℕ → Asids → Option (Bool × Asids)
register root a = do
  guard (not (root == 0) && not (any (is_root root) a.spaces))
  elim (position (is_root 0) a.spaces) [
    | none ↦ some (false, a)
    | some i ↦ (do s ← get_elem? a.spaces i; some (true, with_space i (record s { root = root }) a))
  ]

abbrev pub mark : ℕ → Asids → Asids
mark tag a = record a { used = λ t. if tag == t then true else a.used t }

-- The loop of `allocate`, with `left` rounds to go; `tag as u16` keeps sixteen bits.
unfoldable pub allocate_in : ℕ → Asids → Option ℕ × Asids
allocate_in zero a = (none, a)
allocate_in (suc left) a =
    let tag = a.next in
    let moved = record a { next = if tag == a.limit then 1 else tag + 1 } in
    let rest = allocate_in left moved in
    if not (a.used tag) then (some (tag % 2 ^ 16), mark tag moved) else rest

unfoldable pub allocate : Asids → Option ℕ × Asids
unfolding allocate_in
allocate a = allocate_in a.limit a

-- The loop of `rollover`: the tags that CPUs still run with keep their owners.
unfoldable pub reload : List (ℕ × ℕ) → Asids → Option Asids
reload [] a = some a
reload ((root, tag) ∷ rest) a =
    let skip = reload rest a in
    let keep = do
      guard (not (tag == 0) && leb tag a.limit)
      i ← position (is_root root) a.spaces
      s ← get_elem? a.spaces i
      reload rest (with_space i (record s { tag = tag; generation = a.generation }) (mark tag a))
    in if root == 0 then skip else keep

unfoldable pub rollover : Asids → Option Asids
unfolding reload
rollover a =
    if a.generation == 2 ^ 64 - 1
    then none
    else reload a.active
        (record a { generation = a.generation + 1; used = reserved_tags; next = 1 })

-- A tag for the space at `index`, whether all CPUs must flush, and the pool.
unfoldable pub obtain : ℕ → Asids → Option (Option ℕ × Bool × Asids)
unfolding allocate rollover
obtain index a = elim ((allocate a).0) [
  | some tag ↦ some (some tag, false, (allocate a).1)
  | none ↦ do
    b ← rollover (allocate a).1
    s ← get_elem? b.spaces index
    some (
        if s.generation == b.generation
        then (some s.tag, true, b)
        else ((allocate b).0, true, (allocate b).1))
]

abbrev pub load : ℕ → ℕ → ℕ → Bool → Asids → (Option ℕ × Bool) × Asids
load cpu root tag flush a = ((some tag, flush), record a { active = set a.active cpu (root, tag) })

-- `activate` once the tag is known or is not to be had.
abbrev pub assign : ℕ → ℕ → ℕ → Space → Option ℕ × Bool × Asids → (Option ℕ × Bool) × Asids
assign cpu root index s (none, flush, a) = ((none, flush), a)
assign cpu root index s (some tag, flush, a) =
    load cpu root tag flush (with_space index (record s { tag = tag; generation = a.generation }) a)

-- The number of the CPU is checked first here.
unfoldable pub activate : ℕ → ℕ → Asids → Option ((Option ℕ × Bool) × Asids)
unfolding obtain
activate cpu root a = do
  _ ← get_elem? a.active cpu
  if root == 0 then some ((some 0, false), record a { active = set a.active cpu (0, 0) }) else do
    index ← position (is_root root) a.spaces
    s ← get_elem? a.spaces index
    if s.generation == a.generation
        then some (load cpu root s.tag false a)
        else do r ← obtain index a; some (assign cpu root index s r)

abbrev pub is_current : ℕ → ℕ → Space → Bool
is_current root generation s = s.root == root && s.generation == generation

unfoldable pub tag : ℕ → Asids → Option ℕ
tag root a = do
  i ← position (is_current root a.generation) a.spaces
  s ← get_elem? a.spaces i
  some s.tag

abbrev pub runs_root : ℕ → ℕ × ℕ → Bool
runs_root root r = r.0 == root

unfoldable pub release : ℕ → Asids → Option Asids
release root a = do
  guard (not (any (runs_root root) a.active))
  i ← position (is_root root) a.spaces
  some (with_space i empty_space a)
