-- ===== src/Scheduler/Tasks.antt =====
-- Making tasks and registering CPUs: `TaskControlBlock::{new, new_user, adopt_current}`,
-- `register_cpu`, `add_task`, and the queries `find_idle_cpu`, `current_id` and `find_live`.
use mmurtl_rs.Base.{
  ℕ, suc, ◌+◌, ◌-◌, ◌%◌, Bool, true, false, not, ◌&&◌, ◌==◌, holds, if◌then◌else◌, ◌>>=◌, Option,
  none, some, List, [], ◌∷◌, ◌++◌, length, get_elem?, set, position,
}
use mmurtl_rs.Scheduler.{
  TaskState, same_state, Task, PerCpu, Scheduler, Kernel, priority_idle, next_task_id,
}

-- KernelStack
pub record KernelStack : Type 0 where
  pub virt : ℕ
  pub phys : ℕ
  pub size : ℕ

-- `(stack_top - size_of::<TaskContext>()) & !0xF`
unfoldable pub context_address : ℕ → ℕ → ℕ
context_address size_of_context stack_top = let a = stack_top - size_of_context in a - a % 16

-- `new`, less the write of the first context to the stack. The size of the architecture's
-- `TaskContext` is a parameter.
module _ (size_of_context : ℕ) where
  unfoldable pub new_task : KernelStack → ℕ → Kernel → Option (Task × Kernel)
  unfolding context_address
  new_task stack priority k = do
    (id, k') ← next_task_id k
    let top = stack.virt + stack.size
    some (
      record {
        id = id;
        state = TaskState.ready;
        priority = priority;
        context_ptr = context_address size_of_context top;
        kernel_stack_top = top;
        kernel_stack_bottom = stack.virt;
        total_ticks = 0;
        pinned_cpu = none;
        on_cpu = none;
        inbox = [];
        reply = none;
        wait_for = 0;
        wake_tick = 0;
        user = false;
        high_res_time = false;
        spec_store_bypass_disable = false;
        address_space = 0;
        user_slot = none;
        kstack_phys = stack.phys;
        reaped = false;
      },
      k',
    )

  unfoldable pub new_user : ℕ → ℕ → KernelStack → ℕ → Kernel → Option (Task × Kernel)
  new_user space slot stack priority k = do
    (t, k') ← new_task stack priority k
    some (
      record t {
        user = true;
        spec_store_bypass_disable = true;
        address_space = space;
        user_slot = some slot;
      },
      k',
    )

-- The boot or park loop of a CPU as its idle task; `cpu as u8` keeps eight bits.
abbrev pub adopted : ℕ → ℕ → ℕ → Task
adopted id priority cpu = record {
  id = id;
  state = TaskState.running;
  priority = priority;
  context_ptr = 0;
  kernel_stack_top = 0;
  kernel_stack_bottom = 0;
  total_ticks = 0;
  pinned_cpu = some (cpu % 256);
  on_cpu = some (cpu % 256);
  inbox = [];
  reply = none;
  wait_for = 0;
  wake_tick = 0;
  user = false;
  high_res_time = false;
  spec_store_bypass_disable = false;
  address_space = 0;
  user_slot = none;
  kstack_phys = 0;
  reaped = false;
}

unfoldable pub adopt_current : ℕ → ℕ → Kernel → Option (Task × Kernel)
adopt_current priority cpu k = do (id, k') ← next_task_id k; some (adopted id priority cpu, k')

-- The state of a CPU that runs its idle task at index `idx`.
abbrev pub on_idle : ℕ → ℕ → PerCpu
on_idle hw_id idx = record { registered = true; hw_id = hw_id; current = some idx; idle_idx = idx }

-- `register_cpu`: the new idle task goes to the end of the run queue.
unfoldable pub register_cpu : ℕ → ℕ → Kernel → Option (ℕ × Kernel)
unfolding adopt_current
register_cpu cpu hw_id k = do
  (idle, k') ← adopt_current priority_idle cpu k
  _ ← get_elem? k'.sched.cpus cpu
  let s = k'.sched
  let cpus = set s.cpus cpu (on_idle hw_id (length s.tasks))
  some (idle.id, record k' { sched = record s { tasks = s.tasks ++ idle ∷ []; cpus = cpus } })

-- The slot of a task that exited and whose resources are released.
abbrev pub is_free_slot : Task → Bool
is_free_slot t = same_state t.state TaskState.exited && t.reaped

-- `add_task`
unfoldable pub place : Task → List Task → List Task
place task ts = elim (position is_free_slot ts) [ some i ↦ set ts i task | none ↦ ts ++ task ∷ [] ]

unfoldable pub add_task : Task → Scheduler → ℕ × Scheduler
unfolding place
add_task task s = (task.id, record s { tasks = place task s.tasks })

-- Whether CPU number `i`, not `exclude`, runs its idle task.
abbrev pub idles : ℕ → ℕ → PerCpu → Bool
idles exclude i c = c.registered && not (i == exclude) && holds c.current c.idle_idx

-- The loop of `find_idle_cpu`, from CPU number `i` on.
unfoldable pub find_idle_from : ℕ → ℕ → List PerCpu → Option ℕ
find_idle_from exclude i [] = none
find_idle_from exclude i (c ∷ cs) =
    if idles exclude i c then some c.hw_id else find_idle_from exclude (suc i) cs

unfoldable pub find_idle_cpu : ℕ → Scheduler → Option ℕ
unfolding find_idle_from
find_idle_cpu exclude s = find_idle_from exclude 0 s.cpus

-- `current_id`: 0 where the CPU runs no task.
unfoldable pub current_id : ℕ → Scheduler → Option ℕ
current_id cpu s = do
  c ← get_elem? s.cpus cpu
  elim (c.current) [ none ↦ some 0 | some i ↦ (do t ← get_elem? s.tasks i; some t.id) ]

abbrev pub is_live : ℕ → Task → Bool
is_live tid t = t.id == tid && not (same_state t.state TaskState.exited)

unfoldable pub find_live : ℕ → List Task → Option ℕ
find_live tid ts = position (is_live tid) ts
