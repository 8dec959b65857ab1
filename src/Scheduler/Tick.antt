-- ===== src/Scheduler/Tick.antt =====
-- `on_tick` and `pick_next` of scheduler/mod.rs: the context switch of one CPU, and `sleep_until`.
use mmurtl_rs.Base.{
  ℕ, zero, suc, ◌+◌, ◌-◌, ◌*◌, ◌/◌, ◌%◌, ◌^◌, max, Bool, true, false, not, ◌&&◌, ◌||◌, ◌==◌, ltb,
  leb, holds, if◌then◌else◌, is_none, is_empty, ◌>>=◌, Option, none, some, List, [], ◌∷◌, ◌++◌, map,
  length, get_elem?, set,
}
use mmurtl_rs.Scheduler.{
  TaskState, same_state, Task, PerCpu, Scheduler, Kernel, Effect, priority_idle, add_u64,
  with_tasks, current_idx,
}
use mmurtl_rs.Scheduler.Tasks.{idles}
pub mod Pick

-- The tick accounting: CPU 0 advances the system clock.
unfoldable pub count_tick : ℕ → Bool → Kernel → Kernel
count_tick cpu timer k =
    if timer
    then record k {
      sched = record (k.sched) { tick_count = add_u64 k.sched.tick_count 1 };
      jiffies = if cpu == 0 then add_u64 k.jiffies 1 else k.jiffies;
    }
    else k

abbrev pub is_due : ℕ → Task → Bool
is_due now t = same_state t.state TaskState.sleeping && leb t.wake_tick now

abbrev pub wake : ℕ → Task → Task
wake now t = if is_due now t then record t { state = TaskState.ready } else t

unfoldable pub woken : ℕ → List Task → ℕ
woken now [] = 0
woken now (t ∷ ts) = (if is_due now t then 1 else 0) + woken now ts

-- One interrupt for each idle CPU, while more than one woken task is left.
unfoldable pub kick_idle : ℕ → ℕ → ℕ → List PerCpu → List Effect
kick_idle cpu left i [] = []
kick_idle cpu left i (c ∷ cs) =
    let sent = Effect.resched_ipi c.hw_id ∷ kick_idle cpu (left - 1) (suc i) cs in
    let rest = kick_idle cpu left (suc i) cs in
    if leb left 1 then [] else if idles cpu i c then sent else rest

-- The interrupted context goes into the task that ran.
unfoldable pub save_task : ℕ → Bool → Task → Task
save_task rsp timer t = record t {
  context_ptr = rsp;
  on_cpu = none;
  total_ticks = if timer then add_u64 t.total_ticks 1 else t.total_ticks;
  state = if same_state t.state TaskState.running then TaskState.ready else t.state;
}

unfoldable pub save_current : Option ℕ → ℕ → Bool → List Task → Option (List Task)
unfolding save_task
save_current none rsp timer ts = some ts
save_current (some i) rsp timer ts = do t ← get_elem? ts i; some (set ts i (save_task rsp timer t))

-- The pin of a task, if any, is this CPU.
abbrev pub may_run_on : ℕ → Option ℕ → Bool
may_run_on cpu none = true
may_run_on cpu (some p) = p == cpu

-- What the loop of `pick_next` asks of a task.
abbrev pub runnable : ℕ → Task → Bool
runnable cpu t =
    same_state t.state TaskState.ready
    && is_none t.on_cpu
    && not (t.priority == priority_idle)
    && may_run_on cpu t.pinned_cpu

-- The indices that the loop meets are below the number of tasks.
abbrev pub runnable_at : ℕ → List Task → ℕ → Bool
runnable_at cpu ts i = elim (get_elem? ts i) [ none ↦ false | some t ↦ runnable cpu t ]

-- The loop of `pick_next` from offset `off`, with `left` rounds to go.
unfoldable pub pick_from : ℕ → List Task → ℕ → ℕ → ℕ → Option ℕ
pick_from cpu ts cursor off zero = none
pick_from cpu ts cursor off (suc left) =
    let idx = (cursor + off) % length ts in
    let rest = pick_from cpu ts cursor (suc off) left in
    if runnable_at cpu ts idx then some idx else rest

-- The task to run, and where the round-robin cursor then stands.
unfoldable pub pick_next : ℕ → ℕ → Scheduler → ℕ × ℕ
pick_next cpu idle_idx s = elim (pick_from cpu s.tasks s.rr_cursor 1 (length s.tasks)) [
  | some idx ↦ (idx, idx)
  | none ↦ (idle_idx, s.rr_cursor)
]

-- What the switch to `t` asks of the hardware, in order.
unfoldable pub switch_effects : ℕ → Option ℕ → ℕ → Task → List Effect
switch_effects cpu old next t =
    Effect.set_current_task cpu t.id
    ∷ ((if holds old next then [] else Effect.context_switch cpu t.user t.id ∷ [])
        ++ (Effect.switch_address_space cpu t.address_space
            ∷ Effect.set_user_counter_access (t.user && t.high_res_time)
            ∷ Effect.prepare_task t.spec_store_bypass_disable t.context_ptr
            ∷ (if t.user then Effect.on_switch_to_user cpu t.kernel_stack_top ∷ [] else [])))

abbrev pub run_on : ℕ → Task → Task
run_on cpu t = record t { state = TaskState.running; on_cpu = some (cpu % 256) }

-- The scheduler, the stack pointer and the effects once task `t` at index `next` is picked.
abbrev pub switched : ℕ → PerCpu → Scheduler → ℕ → ℕ → Task → Scheduler × ℕ × List Effect
switched cpu c s next cursor t = (
  record s {
    tasks = set s.tasks next (run_on cpu t);
    cpus = set s.cpus cpu (record c { current = some next });
    rr_cursor = cursor;
  },
  t.context_ptr,
  switch_effects cpu c.current next t,
)

-- The last part of `on_tick`: pick a task and make it the current one.
unfoldable pub switch_to_next : ℕ → PerCpu → Scheduler → Option (Scheduler × ℕ × List Effect)
switch_to_next cpu c s = do
  let (next, cursor) = pick_next cpu c.idle_idx s
  t ← get_elem? s.tasks next
  some (switched cpu c s next cursor t)

-- Whether other CPUs can be interrupted is a fact of the machine.
module _ (ipi_available : Bool) where
  -- The interrupts for the tasks that a tick woke, but one: this CPU takes that one.
  unfoldable pub kicks : ℕ → Kernel → List Effect
  unfolding woken kick_idle
  kicks cpu k =
      let n = woken k.jiffies k.sched.tasks in
      if ltb 1 n && ipi_available then kick_idle cpu n 0 k.sched.cpus else []

  unfoldable pub reschedule : ℕ → ℕ → Bool → PerCpu → Kernel → Option (Kernel × ℕ × List Effect)
  unfolding count_tick kicks save_current switch_to_next
  reschedule cpu rsp timer c k0 = do
    let k = count_tick cpu timer k0
    ts ← save_current c.current rsp timer (map (wake k.jiffies) k.sched.tasks)
    (s, sp, effects) ← switch_to_next cpu c (with_tasks ts k.sched)
    some (record k { sched = s }, sp, kicks cpu k ++ effects)

  unfoldable pub on_tick : ℕ → ℕ → Bool → Kernel → Option (Kernel × ℕ × List Effect)
  unfolding reschedule
  on_tick cpu rsp timer k = do
    c ← get_elem? k.sched.cpus cpu
    if not c.registered || is_empty k.sched.tasks
        then some (k, rsp, [])
        else reschedule cpu rsp timer c k

unfoldable pub sleep_until : ℕ → ℕ → Scheduler → Option Scheduler
unfolding current_idx
sleep_until cpu until s = do
  me ← current_idx s cpu
  t ← get_elem? s.tasks me
  some (with_tasks (set s.tasks me (record t { wake_tick = until; state = TaskState.sleeping })) s)

-- The deadline of `sleep_ms`; SCHEDULER_FREQUENCY_HZ is 100.
unfoldable pub sleep_deadline : ℕ → ℕ → ℕ
sleep_deadline jiffies ms =
    let ticks = (ms * 100 % 2 ^ 64 + 999) % 2 ^ 64 / 1000 in add_u64 jiffies (max ticks 1)
