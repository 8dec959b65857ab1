-- ===== src/Topology.antt =====
-- topology/policy.rs: which CPUs may come online when sibling threads are switched off.
use Prim.Native.Nat.{bit_and, bit_or, bit_xor}
use mmurtl_rs.Base.{
  ℕ, zero, suc, ◌+◌, ◌-◌, ◌*◌, ◌/◌, ◌%◌, ◌^◌, Bool, true, false, not, ◌&&◌, ◌||◌, ◌==◌, leb, ltb,
  if◌then◌else◌, Option, none, some, List, [], ◌∷◌, length, get_or, replicate, set, any,
}
pub mod Admit
mod Tests

pub data Source : Type 0 where
  intel1f intel_b amd1e legacy arm_affinity unknown_source : Source

pub record Core : Type 0 where
  pub logical : ℕ
  pub base : ℕ
  pub mask : ℕ
  pub package_id : Option ℕ
  pub threads : ℕ
  pub source : Source

unfoldable pub unknown : ℕ → Core
unknown logical = record {
  logical = logical;
  base = logical;
  mask = 0;
  package_id = none;
  threads = 0;
  source = Source.unknown_source;
}

-- The mask is one less than a power of two, so `id & !mask` clears the bits below that power.
unfoldable pub x86 : ℕ → ℕ → ℕ → ℕ → Source → Option Core
x86 id smt_shift package_shift threads source =
    if ltb 31 smt_shift
      || ltb 31 package_shift
      || ltb package_shift smt_shift
      || threads == 0
      || ltb (2 ^ smt_shift) threads
    then none
    else some (record {
      logical = id;
      base = id - id % 2 ^ smt_shift;
      mask = 2 ^ smt_shift - 1;
      package_id = some (id / 2 ^ package_shift);
      threads = threads;
      source = source;
    })

unfoldable pub arm : ℕ → Core
arm mpidr =
    let id = bit_and mpidr 0xff00ffffff in
    let mask = if bit_and mpidr (2 ^ 24) == 0 then 0 else 255 in
    record {
      logical = id;
      base = id - id % (mask + 1);
      mask = mask;
      package_id = none;
      threads = if mask == 0 then 1 else 256;
      source = Source.arm_affinity;
    }

abbrev pub known : Core → Bool
known c = elim (c.source) [ Source.unknown_source ↦ false | _ ↦ true ]

-- `!` of a `u64`
abbrev pub not_u64 : ℕ → ℕ
not_u64 n = 2 ^ 64 - 1 - n

unfoldable pub overlaps : Core → Core → Bool
overlaps c other = bit_and (bit_xor c.base other.base) (not_u64 (bit_or c.mask other.mask)) == 0

pub data Reason : Type 0 where
  empty online sibling unknown_core : Reason

abbrev pub is_online : Reason → Bool
is_online Reason.online = true
is_online _ = false

abbrev pub is_empty_slot : Reason → Bool
is_empty_slot Reason.empty = true
is_empty_slot _ = false

pub record Record : Type 0 where
  pub core : Core
  pub reason : Reason

abbrev pub empty_record : Record
empty_record = record { core = unknown 0; reason = Reason.empty }

pub record Admission : Type 0 where
  pub disable_smt : Bool
  pub records : List Record

unfoldable pub new : ℕ → Bool → Admission
new cpus disable_smt = record { disable_smt = disable_smt; records = replicate cpus empty_record }

unfoldable pub bsp : Core → Admission → Admission
bsp core a = record a { records = set a.records 0 (record { core = core; reason = Reason.online }) }

abbrev pub covers : ℕ → Record → Bool
covers id r =
    is_online r.reason
    && known r.core
    && bit_and (bit_xor id r.core.base) (not_u64 r.core.mask) == 0

unfoldable pub covered_candidate : ℕ → Admission → Bool
covered_candidate id a = a.disable_smt && any (covers id) a.records

-- Whether an admitted CPU shares the core.
abbrev pub shares : Core → Record → Bool
shares core r = is_online r.reason && overlaps core r.core

-- The record of a CPU that was never touched stands in for one out of range, which `admit` refuses.
unfoldable pub judge : Core → Admission → Reason
judge core a =
    if not a.disable_smt
    then Reason.online
    else if not (known core) || not (known (get_or a.records 0 empty_record).core)
    then Reason.unknown_core
    else if any (shares core) a.records
    then Reason.sibling
    else Reason.online

unfoldable pub admit : ℕ → Core → Admission → Bool × Admission
unfolding judge
admit cpu core a =
    let reason = judge core a in
    if cpu == 0
      || leb (length a.records) cpu
      || not (is_empty_slot (get_or a.records cpu empty_record).reason)
    then (false, a)
    else (
      is_online reason,
      record a { records = set a.records cpu (record { core = core; reason = reason }) },
    )
