-- ===== src/Scheduler/Ipc.antt =====
-- The blocking message passing of scheduler/mod.rs: `post_request`, `take_request`, `post_reply`,
-- `make_ready`, `mark_exited`, and the two halves of `send_rqb`.
pub mod Deliver
pub mod Answer
pub mod Preserve
pub mod Answerable
pub mod Stranded
use mmurtl_rs.Base.{
  ℕ, Bool, not, ◌&&◌, ◌==◌, leb, if◌then◌else◌, is_none, ◌>>=◌, Option, none, some, List, [], ◌∷◌,
  ◌++◌, length, get_elem?, set,
}
use mmurtl_rs.Rqb.{Rqb, RqbStatus}
use mmurtl_rs.Rqb
use mmurtl_rs.Scheduler.{
  TaskState, same_state, Task, Scheduler, inbox_capacity, with_tasks, current_idx,
}
use mmurtl_rs.Scheduler.Tasks.{find_idle_cpu, find_live}

-- `Result<Option<u32>, RqbStatus>`: the CPU to interrupt, or the reason of the refusal.
pub data Outcome : Type 0 where
  delivered : Option ℕ → Outcome
  refused : RqbStatus → Outcome

-- `make_ready`
unfoldable pub make_ready : ℕ → TaskState → ℕ → Scheduler → Option (Option ℕ × Scheduler)
make_ready idx from cpu s = do
  t ← get_elem? s.tasks idx
  some (
      if same_state t.state from
      then (
        find_idle_cpu cpu s,
        with_tasks (set s.tasks idx (record t { state = TaskState.ready })) s,
      )
      else (none, s))

-- The message as the kernel stamps it.
abbrev pub stamp : ℕ → ℕ → Rqb → Rqb
stamp sender receiver m = record m { sender_id = sender; receiver_id = receiver }

abbrev pub await_reply : ℕ → Task → Task
await_reply receiver t = record t {
  state = TaskState.waiting_reply;
  wait_for = receiver;
  reply = none;
}

abbrev pub enqueue : Rqb → Task → Task
enqueue m t = record t { inbox = t.inbox ++ m ∷ [] }

-- The part of `post_request` after its three refusals.
unfoldable pub deliver : ℕ → ℕ → ℕ → ℕ → ℕ → Rqb → Task → Scheduler → Option (Outcome × Scheduler)
unfolding make_ready
deliver cpu me my_id ri receiver msg r s = do
  let sent = set s.tasks ri (enqueue (stamp my_id receiver msg) r)
  t ← get_elem? sent me
  (kick, s') ←
      make_ready ri TaskState.waiting_rqb cpu (with_tasks (set sent me (await_reply receiver t)) s)
  some (Outcome.delivered kick, s')

unfoldable pub post_request : ℕ → ℕ → Rqb → Scheduler → Option (Outcome × Scheduler)
unfolding current_idx deliver
post_request cpu receiver msg s = do
  me ← current_idx s cpu
  t ← get_elem? s.tasks me
  if receiver == t.id
      then some (Outcome.refused RqbStatus.invalid_param, s)
      else elim (find_live receiver s.tasks) [
        | none ↦ some (Outcome.refused RqbStatus.not_found, s)
        | some ri ↦ do
          r ← get_elem? s.tasks ri
          if leb inbox_capacity (length r.inbox)
              then some (Outcome.refused RqbStatus.busy, s)
              else deliver cpu me t.id ri receiver msg r s
      ]

-- Pop the oldest request, or block if asked to.
abbrev pub pop_request : Bool → Task → List Rqb → Option Rqb × Task
pop_request block t (m ∷ rest) = (some m, record t { inbox = rest })
pop_request block t [] = (none, if block then record t { state = TaskState.waiting_rqb } else t)

unfoldable pub take_request : ℕ → Bool → Scheduler → Option (Option Rqb × Scheduler)
unfolding current_idx
take_request cpu block s = do
  me ← current_idx s cpu
  t ← get_elem? s.tasks me
  let (m, t') = pop_request block t t.inbox
  some (m, with_tasks (set s.tasks me t') s)

-- Whether a task is blocked on an answer of task `my_id` that it has not got yet.
abbrev pub awaits : ℕ → Task → Bool
awaits my_id t =
    same_state t.state TaskState.waiting_reply && t.wait_for == my_id && is_none t.reply

unfoldable pub post_reply : ℕ → ℕ → Rqb → Scheduler → Option (Outcome × Scheduler)
unfolding current_idx make_ready
post_reply cpu sender msg s = do
  me ← current_idx s cpu
  t ← get_elem? s.tasks me
  elim (find_live sender s.tasks) [
    | none ↦ some (Outcome.refused RqbStatus.not_found, s)
    | some si ↦ do
      w ← get_elem? s.tasks si
      if not (awaits t.id w) then some (Outcome.refused RqbStatus.invalid_param, s) else do
        let answered = record w { reply = some (stamp t.id sender msg) }
        (kick, s') ←
            make_ready si TaskState.waiting_reply cpu (with_tasks (set s.tasks si answered) s)
        some (Outcome.delivered kick, s')
  ]

-- The notice that the task which owed the answer is gone.
unfoldable pub aborted_notice : ℕ → ℕ → Rqb
unfolding Rqb.new Rqb.set_status
aborted_notice my_id receiver = record (Rqb.set_status RqbStatus.aborted Rqb.new) {
  sender_id = my_id;
  receiver_id = receiver;
}

unfoldable pub abort_waiter : ℕ → Task → Task
unfolding aborted_notice
abort_waiter my_id t =
    if awaits my_id t
    then record t { reply = some (aborted_notice my_id t.id); state = TaskState.ready }
    else t

abbrev pub or_else : Option ℕ → Option ℕ → Option ℕ
or_else none b = b
or_else (some a) b = some a

-- The loop of `mark_exited`. It changes no CPU, so each `make_ready` in it finds the same `idle`
-- CPU; the last component is `kick`.
unfoldable pub abort_waiters : ℕ → Option ℕ → List Task → Option ℕ → List Task × Option ℕ
unfolding abort_waiter
abort_waiters my_id idle [] kick = ([], kick)
abort_waiters my_id idle (t ∷ ts) kick =
    let (ts', kick') =
      abort_waiters my_id idle ts (if awaits my_id t then or_else kick idle else kick) in
    (abort_waiter my_id t ∷ ts', kick')

abbrev pub exit_task : Task → Task
exit_task t = record t { state = TaskState.exited; inbox = [] }

unfoldable pub mark_exited : ℕ → Scheduler → Option (Option ℕ × Scheduler)
unfolding current_idx abort_waiters
mark_exited cpu s = do
  me ← current_idx s cpu
  t ← get_elem? s.tasks me
  let (ts, kick) = abort_waiters t.id (find_idle_cpu cpu s) (set s.tasks me (exit_task t)) none
  some (kick, with_tasks ts s)

-- The closure that `send_rqb` runs after each yield: take the reply, or block again.
abbrev pub collect_reply : Task → Option Rqb → Task
collect_reply t none = record t { reply = none; state = TaskState.waiting_reply }
collect_reply t (some r) = record t { reply = none }

unfoldable pub take_reply : ℕ → Scheduler → Option (Option Rqb × Scheduler)
unfolding current_idx
take_reply cpu s = do
  me ← current_idx s cpu
  t ← get_elem? s.tasks me
  some (t.reply, with_tasks (set s.tasks me (collect_reply t t.reply)) s)
