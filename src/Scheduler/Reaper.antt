-- ===== src/Scheduler/Reaper.antt =====
-- `collect_exited` and the observers of scheduler/mod.rs: `unreaped_tasks`, `task_state` and
-- `task_snapshot`.
use mmurtl_rs.Base.{
  ℕ, suc, ◌+◌, ◌-◌, Bool, true, false, not, ◌&&◌, ◌==◌, if◌then◌else◌, is_none, Option, none, some,
  List, [], ◌∷◌, length, get_elem?, position, ◌>>=◌,
}
use mmurtl_rs.Scheduler.{TaskState, same_state, Task, Scheduler, Kernel, with_tasks}
pub mod Release

pub record Reapable : Type 0 where
  pub kstack_phys : ℕ
  pub kstack_virt : ℕ
  pub space : ℕ
  pub slot : Option ℕ

-- Exited, not collected yet, and no CPU is still on its stack.
abbrev pub is_dead : Task → Bool
is_dead t = same_state t.state TaskState.exited && not t.reaped && is_none t.on_cpu

unfoldable pub reapable : Task → Reapable
reapable t = record {
  kstack_phys = t.kstack_phys;
  kstack_virt = t.kernel_stack_bottom;
  space = t.address_space;
  slot = t.user_slot;
}

unfoldable pub released : Task → Task
released t = record t { reaped = true; kstack_phys = 0; address_space = 0; user_slot = none }

-- The loop of `collect_exited`, which stops at a dead task when the batch has no room left.
unfoldable pub collect : ℕ → List Task → List Task × List Reapable
unfolding reapable released
collect room [] = ([], [])
collect room (t ∷ ts) =
    let rest = collect room ts in
    let fewer = collect (room - 1) ts in
    if is_dead t
    then (if room == 0 then (t ∷ ts, []) else (released t ∷ fewer.0, reapable t ∷ fewer.1))
    else (t ∷ rest.0, rest.1)

-- The reaper hands in an empty batch of 16; REAPING counts what is collected and not freed yet.
unfoldable pub collect_exited : Kernel → Kernel × List Reapable
unfolding collect
collect_exited k =
    let (ts, batch) = collect 16 k.sched.tasks in
    (record k { sched = with_tasks ts k.sched; reaping = k.reaping + length batch }, batch)

-- The last line of the reaper's round, when the frames of a batch are back.
unfoldable pub finish_batch : List Reapable → Kernel → Kernel
finish_batch batch k = record k { reaping = k.reaping - length batch }

unfoldable pub count_unreaped : List Task → ℕ
count_unreaped [] = 0
count_unreaped (t ∷ ts) =
    (if same_state t.state TaskState.exited && not t.reaped then 1 else 0) + count_unreaped ts

unfoldable pub unreaped_tasks : Kernel → ℕ
unfolding count_unreaped
unreaped_tasks k = count_unreaped k.sched.tasks + k.reaping

unfoldable pub task_state : ℕ → Scheduler → Option TaskState
task_state tid s = do i ← position (λ t. t.id == tid) s.tasks; t ← get_elem? s.tasks i; some t.state

-- At most `room` live tasks, and whether there were more.
unfoldable pub task_snapshot : ℕ → List Task → List (ℕ × TaskState × Bool) × Bool
task_snapshot room [] = ([], false)
task_snapshot room (t ∷ ts) =
    let rest = task_snapshot room ts in
    let fewer = task_snapshot (room - 1) ts in
    if same_state t.state TaskState.exited
    then rest
    else if room == 0
    then ([], true)
    else ((t.id, t.state, t.user) ∷ fewer.0, fewer.1)
