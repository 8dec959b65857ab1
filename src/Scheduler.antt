-- ===== src/Scheduler.antt =====
-- scheduler/task.rs and the state of scheduler/mod.rs, for the amd64 build (the fields that exist
-- on arm64 only are absent). The statics that the scheduler reads and writes are fields of
-- `Kernel`. A Rust panic is `none`. What the scheduler asks of the hardware is a list of effects.
use mmurtl_rs.Base.{
  ℕ, ◌+◌, ◌-◌, ◌%◌, ◌^◌, Bool, true, false, ◌==◌, if◌then◌else◌, ◌>>=◌, ◌>>◌, Option, none, some,
  List, [], ◌∷◌, get_elem?, set,
}
use mmurtl_rs.Rqb.{Rqb}
pub mod Tasks
pub mod Tick
pub mod Ipc
pub mod Reaper
pub mod Keeps
pub mod Invariant
pub mod Reach
pub mod Api
mod Tests

pub data TaskState : Type 0 where
  ready running waiting_rqb sleeping exited blocked waiting_reply : TaskState

-- The test `==` of the derived `PartialEq`.
abbrev pub same_state : TaskState → TaskState → Bool
same_state TaskState.ready TaskState.ready = true
same_state TaskState.running TaskState.running = true
same_state TaskState.waiting_rqb TaskState.waiting_rqb = true
same_state TaskState.sleeping TaskState.sleeping = true
same_state TaskState.exited TaskState.exited = true
same_state TaskState.blocked TaskState.blocked = true
same_state TaskState.waiting_reply TaskState.waiting_reply = true
same_state _ _ = false

-- PRIORITY_DEFAULT, PRIORITY_IDLE
abbrev pub priority_default : ℕ
priority_default = 16

abbrev pub priority_idle : ℕ
priority_idle = 31

-- TaskControlBlock. The name is for debugging only.
pub record Task : Type 0 where
  pub id : ℕ
  pub state : TaskState
  pub priority : ℕ
  pub context_ptr : ℕ
  pub kernel_stack_top : ℕ
  pub kernel_stack_bottom : ℕ
  pub total_ticks : ℕ
  pub pinned_cpu : Option ℕ
  pub on_cpu : Option ℕ
  pub inbox : List Rqb
  pub reply : Option Rqb
  pub wait_for : ℕ
  pub wake_tick : ℕ
  pub user : Bool
  pub high_res_time : Bool
  pub spec_store_bypass_disable : Bool
  pub address_space : ℕ
  pub user_slot : Option ℕ
  pub kstack_phys : ℕ
  pub reaped : Bool

pub record PerCpu : Type 0 where
  pub registered : Bool
  pub hw_id : ℕ
  pub current : Option ℕ
  pub idle_idx : ℕ

pub record Scheduler : Type 0 where
  pub tasks : List Task
  pub cpus : List PerCpu
  pub rr_cursor : ℕ
  pub tick_count : ℕ

-- The scheduler with JIFFIES, NEXT_TASK_ID and REAPING.
pub record Kernel : Type 0 where
  pub sched : Scheduler
  pub jiffies : ℕ
  pub next_id : ℕ
  pub reaping : ℕ

pub data Effect : Type 0 where
  resched_ipi : ℕ → Effect
  set_current_task : ℕ → ℕ → Effect
  context_switch : ℕ → Bool → ℕ → Effect
  switch_address_space : ℕ → ℕ → Effect
  set_user_counter_access : Bool → Effect
  prepare_task : Bool → ℕ → Effect
  on_switch_to_user : ℕ → ℕ → Effect

-- MAX_CPUS, INBOX_CAPACITY
abbrev pub max_cpus : ℕ
max_cpus = 64

abbrev pub inbox_capacity : ℕ
inbox_capacity = 32

-- A release build wraps `u64` additions.
abbrev pub add_u64 : ℕ → ℕ → ℕ
add_u64 a b = (a + b) % 2 ^ 64

abbrev pub with_tasks : List Task → Scheduler → Scheduler
with_tasks ts s = record s { tasks = ts }

-- `self.cpus[cpu].current.expect(..)`: the index of the task that runs on `cpu`.
unfoldable pub current_idx : Scheduler → ℕ → Option ℕ
current_idx s cpu = do c ← get_elem? s.cpus cpu; c.current

-- `next_task_id`: the identity space ends with a panic, never with a reused id.
unfoldable pub next_task_id : Kernel → Option (ℕ × Kernel)
next_task_id k =
    if k.next_id == 2 ^ 32 - 1 then none else some (k.next_id, record k { next_id = k.next_id + 1 })
