-- ===== src/Scheduler/Api.antt =====
-- The functions of scheduler/mod.rs that the rest of the kernel calls, each run under the lock on
-- behalf of one CPU. Log lines are not modelled.
use mmurtl_rs.Base.{
  ℕ, ◌≡◌, ◌≢◌, refl, Bool, true, false, if◌then◌else◌, ◌>>=◌, Option, none, some, List, [], ◌∷◌,
  get_elem?,
}
use mmurtl_rs.Rqb.{Rqb, RqbStatus, set_status, from_u16}
use mmurtl_rs.Rqb.Payload.{from_u16-as_u16}
use mmurtl_rs.Scheduler.{Task, Scheduler, Kernel, Effect, priority_default, current_idx}
use mmurtl_rs.Scheduler.Tasks.{KernelStack, new_task, new_user, add_task, find_idle_cpu}
use mmurtl_rs.Scheduler.Ipc.{
  Outcome, delivered, refused, post_request, post_reply, take_request, mark_exited, take_reply,
  await_reply,
}
use mmurtl_rs.Scheduler.Ipc.Deliver.{
  Posted, to_itself, to_nobody, inbox_full, posted, post_request_lem,
}

-- `kick`, on a machine whose CPUs can or cannot interrupt one another.
abbrev pub kick : Bool → Option ℕ → List Effect
kick ipi_available none = []
kick ipi_available (some hw_id) = if ipi_available then Effect.resched_ipi hw_id ∷ [] else []

-- What `create_task` and `create_user_task_with_speculation` do with the task that is made.
unfoldable pub publish : Bool → ℕ → Task × Kernel → ℕ × Kernel × List Effect
unfolding add_task find_idle_cpu
publish ipi_available cpu made =
    let (tid, s) = add_task made.0 made.1.sched in
    (tid, record (made.1) { sched = s }, kick ipi_available (find_idle_cpu cpu s))

-- The stack that `alloc_stack` returns is an argument.
module _ (size_of_context : ℕ) (ipi_available : Bool) where
  unfoldable pub create_task : ℕ → KernelStack → ℕ → Kernel → Option (ℕ × Kernel × List Effect)
  unfolding publish
  create_task cpu stack priority k = do
    made ← new_task size_of_context stack priority k
    some (publish ipi_available cpu made)

  unfoldable pub create_user_task_with_speculation :
      ℕ → KernelStack → ℕ → ℕ → Bool → Bool → Kernel → Option (ℕ × Kernel × List Effect)
  unfolding publish
  create_user_task_with_speculation cpu stack space slot high_res disable k = do
    (t, k') ← new_user size_of_context space slot stack priority_default k
    let task = record t { high_res_time = high_res; spec_store_bypass_disable = disable }
    some (publish ipi_available cpu (task, k'))

  unfoldable pub create_user_task_with_time :
      ℕ → KernelStack → ℕ → ℕ → Bool → Kernel → Option (ℕ × Kernel × List Effect)
  unfolding create_user_task_with_speculation
  create_user_task_with_time cpu stack space slot high_res =
      create_user_task_with_speculation cpu stack space slot high_res true

  unfoldable pub create_user_task :
      ℕ → KernelStack → ℕ → ℕ → Kernel → Option (ℕ × Kernel × List Effect)
  unfolding create_user_task_with_time
  create_user_task cpu stack space slot = create_user_task_with_time cpu stack space slot false

-- `false` where the CPU runs no task.
unfoldable pub current_store_bypass_flag : ℕ → Scheduler → Option Bool
current_store_bypass_flag cpu s = do
  c ← get_elem? s.cpus cpu
  elim (c.current) [
    | none ↦ some false
    | some i ↦ (do t ← get_elem? s.tasks i; some t.spec_store_bypass_disable)
  ]

-- `send_rqb` up to its first yield: it returns, or the sender sleeps until an answer.
pub data Sent : Type 0 where
  returned : RqbStatus → Rqb → Sent
  waits : List Effect → Sent

abbrev pub sent : Bool → Rqb → Outcome × Scheduler → Sent × Scheduler
sent ipi_available msg (delivered target, s) = (waits (kick ipi_available target), s)
sent ipi_available msg (refused status, s) = (returned status (set_status status msg), s)

unfoldable pub send_rqb : Bool → ℕ → ℕ → Rqb → Scheduler → Option (Sent × Scheduler)
send_rqb ipi_available cpu receiver msg s = do
  r ← post_request cpu receiver msg s
  some (sent ipi_available msg r)

-- One round of the loop of `send_rqb`: the reply and its status, or another yield.
unfoldable pub await_round : ℕ → Scheduler → Option (Option (RqbStatus × Rqb) × Scheduler)
unfolding take_reply
await_round cpu s = do
  (reply, s') ← take_reply cpu s
  some (elim reply [ none ↦ none | some r ↦ some (from_u16 r.status, r) ], s')

-- A round of `receive_rqb`, and `try_receive_rqb`.
unfoldable pub receive_round : ℕ → Scheduler → Option (Option Rqb × Scheduler)
unfolding take_request
receive_round cpu = take_request cpu true

unfoldable pub try_receive_rqb : ℕ → Scheduler → Option (Option Rqb × Scheduler)
unfolding take_request
try_receive_rqb cpu = take_request cpu false

abbrev pub replied_status : Bool → Outcome × Scheduler → RqbStatus × List Effect × Scheduler
replied_status ipi_available (delivered target, s) =
    (RqbStatus.success, kick ipi_available target, s)
replied_status ipi_available (refused status, s) = (status, [], s)

unfoldable pub reply_rqb :
    Bool → ℕ → ℕ → Rqb → Scheduler → Option (RqbStatus × List Effect × Scheduler)
unfolding post_reply
reply_rqb ipi_available cpu sender msg s = do
  r ← post_reply cpu sender msg s
  some (replied_status ipi_available r)

unfoldable pub mark_current_exited : Bool → ℕ → Scheduler → Option (List Effect × Scheduler)
unfolding mark_exited
mark_current_exited ipi_available cpu s = do
  (target, s') ← mark_exited cpu s
  some (kick ipi_available target, s')

-- What a call of `send_rqb` promises: on a refusal the scheduler is as before and the request
-- carries the status that is returned; else the sender is blocked on the receiver without a reply.
pub Sends : Scheduler → ℕ → Task → ℕ → Sent → Scheduler → Type 0
Sends s me t receiver (returned status msg) s' =
    (from_u16 msg.status ≡ status) × (status ≢ RqbStatus.success) × (s' ≡ s)
Sends s me t receiver (waits effects) s' = get_elem? s'.tasks me ≡ some (await_reply receiver t)

sent-Sends :
    (ipi_available : Bool) (msg : Rqb) (s : Scheduler) (me : ℕ) (t : Task) (receiver : ℕ)
    {o : Outcome} {s' : Scheduler}
    → Posted s me t receiver msg o s'
    → Sends s me t receiver (sent ipi_available msg (o, s')).0 (sent ipi_available msg (o, s')).1
unfolding Sends set_status
sent-Sends ipi msg s me t receiver (to_itself e) =
    (from_u16-as_u16 RqbStatus.invalid_param, (λ h. cc), refl)
sent-Sends ipi msg s me t receiver (to_nobody ne e) =
    (from_u16-as_u16 RqbStatus.not_found, (λ h. cc), refl)
sent-Sends ipi msg s me t receiver (inbox_full ri r ne f at full) =
    (from_u16-as_u16 RqbStatus.busy, (λ h. cc), refl)
sent-Sends ipi msg s me t receiver (posted ri r kick ts f r_at apart room me' ri' others) = me'

-- On a CPU that runs a task, `send_rqb` never panics before its first yield. Either it returns an
-- error that the request carries too, with the scheduler as before, or the sender is blocked on the
-- receiver without a reply.
pub send_rqb_lem :
    (ipi_available : Bool) (cpu receiver : ℕ) (msg : Rqb) (s : Scheduler) {me : ℕ} {t : Task}
    → current_idx s cpu ≡ some me
    → get_elem? s.tasks me ≡ some t
    → (r : Sent) × (s' : Scheduler) × (send_rqb ipi_available cpu receiver msg s ≡ some (r, s'))
      × Sends s me t receiver r s'
unfolding send_rqb
send_rqb_lem ipi cpu receiver msg s {me} {t} cur t_at =
    let (o, s', e, p) = post_request_lem cpu receiver msg cur t_at in
    (
      (sent ipi msg (o, s')).0,
      (sent ipi msg (o, s')).1,
      rw e refl,
      sent-Sends ipi msg s me t receiver p,
    )
