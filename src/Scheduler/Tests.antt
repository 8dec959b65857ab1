-- ===== src/Scheduler/Tests.antt =====
-- Runs of the scheduler at concrete states, and the instances of its theorems there.
use mmurtl_rs.Base.{
  ℕ, ◌≤◌, ◌≡◌, refl, true, Option, none, some, List, [], ◌∷◌, length, get_elem?, replicate, arith,
  ◌+◌, zero, suc, some_inj, ap, subst,
}
use mmurtl_rs.Rqb.{Rqb}
use mmurtl_rs.Rqb
use mmurtl_rs.Scheduler.{
  TaskState, Task, Scheduler, Kernel, Effect, inbox_capacity, with_tasks, current_idx, next_task_id,
}
use mmurtl_rs.Scheduler.Tasks.{adopted, on_idle, register_cpu}
use mmurtl_rs.Scheduler.Tick.{on_tick, pick_next, pick_from}
use mmurtl_rs.Scheduler.Tick.Pick.{PicksNext, pick_next_lem}
use mmurtl_rs.Scheduler.Api.{Sent, Sends, send_rqb, send_rqb_lem}
use mmurtl_rs.Scheduler.Ipc.{Outcome, post_request, post_reply, mark_exited}
use mmurtl_rs.Scheduler.Ipc.Deliver.{Posted, post_request_lem}
use mmurtl_rs.Scheduler.Ipc.Answer.{Replied, post_reply_lem, Exits, mark_exited_lem}
use mmurtl_rs.Scheduler.Ipc.Answerable.{IsAnswerable, IsBlocked, Lives}
use mmurtl_rs.Scheduler.Ipc.Stranded.{mark_exited-IsAnswerable, post_request-IsAnswerable}
use mmurtl_rs.Scheduler.Reaper.{collect_exited, unreaped_tasks, finish_batch}
use mmurtl_rs.Scheduler.Reaper.Release.{unreaped-collect_exited}
use mmurtl_rs.Scheduler.Invariant.{IsValid}
use mmurtl_rs.Scheduler.Invariant.Switch.{on_tick-IsValid}
use mmurtl_rs.Scheduler.Invariant.Grow.{register_cpu-IsValid}
use mmurtl_rs.Scheduler.Reach.{
  boot, empty_cpu, register, Reach, here, next, Reach-IsValid, Reach-exclusive,
}

abbrev cpu_0_up : Kernel
cpu_0_up = record {
  sched = record {
    tasks = adopted 1 31 0 ∷ [];
    cpus = on_idle 7 0 ∷ replicate 63 empty_cpu;
    rr_cursor = 0;
    tick_count = 0;
  };
  jiffies = 0;
  next_id = 2;
  reaping = 0;
}

cpu_0_up-Reach : Reach 176 true cpu_0_up
unfolding boot register_cpu next_task_id
cpu_0_up-Reach =
    next here (register 0 7 boot empty_cpu (1, cpu_0_up) (omega arith) refl refl (omega arith) refl)

Reach-IsValid_example : IsValid cpu_0_up.sched
Reach-IsValid_example = Reach-IsValid 176 true cpu_0_up-Reach

Reach-exclusive_example : ◌≡◌ {A = ℕ} 0 0
Reach-exclusive_example = Reach-exclusive 176 true 0 0 0 cpu_0_up-Reach refl refl refl refl

on_tick-IsValid_example :
    (r : Kernel × ℕ × List Effect) × (on_tick true 0 4096 true cpu_0_up ≡ some r)
    × IsValid r.0.sched
on_tick-IsValid_example =
    on_tick-IsValid true 0 4096 true cpu_0_up (Reach-IsValid 176 true cpu_0_up-Reach) (omega arith)

register_cpu-IsValid_example :
    (r : ℕ × Kernel) × (register_cpu 1 9 cpu_0_up ≡ some r) × IsValid r.1.sched
register_cpu-IsValid_example =
    register_cpu-IsValid 1 9 cpu_0_up (Reach-IsValid 176 true cpu_0_up-Reach) (omega arith) refl
      refl (omega arith)

-- A client (index 1, on CPU 0) and a server (index 2) that waits for requests.
abbrev client : Task
client = record (adopted 5 16 0) { pinned_cpu = none }

abbrev server : Task
server = record (adopted 6 16 0) { pinned_cpu = none; on_cpu = none; state = TaskState.waiting_rqb }

abbrev idle : Task
idle = record (adopted 1 31 0) { on_cpu = none; state = TaskState.ready }

abbrev busy : Scheduler
busy = record {
  tasks = idle ∷ client ∷ server ∷ [];
  cpus = record (on_idle 7 0) { current = some 1 } ∷ replicate 63 empty_cpu;
  rr_cursor = 1;
  tick_count = 9;
}

-- Nothing is ready but the idle task, so CPU 0 idles.
pick_next_lem_example : PicksNext 0 0 busy (pick_next 0 0 busy)
pick_next_lem_example = pick_next_lem 0 0 busy

busy_idles : pick_next 0 0 busy ≡ (0, 1)
unfolding pick_next pick_from
busy_idles = refl

post_request_lem_example :
    (o : Outcome) × (s' : Scheduler) × (post_request 0 6 Rqb.new busy ≡ some (o, s'))
    × Posted busy 1 client 6 Rqb.new o s'
unfolding current_idx
post_request_lem_example = post_request_lem 0 6 Rqb.new refl refl

-- The client waits for the server, which is now on CPU 0.
abbrev serving : Scheduler
serving = record busy {
  tasks =
      idle
      ∷ record client { on_cpu = none; state = TaskState.waiting_reply; wait_for = 6 }
      ∷ record server { on_cpu = some 0; state = TaskState.running }
      ∷ [];
  cpus = record (on_idle 7 0) { current = some 2 } ∷ replicate 63 empty_cpu;
}

abbrev running_server : Task
running_server = record server { on_cpu = some 0; state = TaskState.running }

post_reply_lem_example :
    (o : Outcome) × (s' : Scheduler) × (post_reply 0 5 Rqb.new serving ≡ some (o, s'))
    × Replied serving running_server 5 Rqb.new o s'
unfolding current_idx
post_reply_lem_example = post_reply_lem 0 5 Rqb.new {s = serving} {me = 2} refl refl

mark_exited_lem_example :
    (kick : Option ℕ) × (ts : List Task) × (mark_exited 0 serving
      ≡ some (kick, with_tasks ts serving))
    × Exits serving 2 running_server ts
unfolding current_idx
mark_exited_lem_example = mark_exited_lem 0 refl refl

unreaped-collect_exited_example :
    (length (collect_exited cpu_0_up).1 ≤ 16)
    × (unreaped_tasks (collect_exited cpu_0_up).0 ≡ unreaped_tasks cpu_0_up)
    × (unreaped_tasks (finish_batch (collect_exited cpu_0_up).1 (collect_exited cpu_0_up).0)
          + length (collect_exited cpu_0_up).1
        ≡ unreaped_tasks cpu_0_up)
unreaped-collect_exited_example = unreaped-collect_exited cpu_0_up

-- The client is blocked on the server, which is alive; the others wait for no reply.
serving-waits :
    (i : ℕ) (t : Task)
    → get_elem? serving.tasks i ≡ some t
    → IsBlocked t
    → Lives t.wait_for serving.tasks
serving-waits zero t at h = absurd (cc (some_inj at, h.0))
serving-waits (suc zero) t at h =
    (2, running_server, refl, ap (λ (u : Task). u.wait_for) (some_inj at), λ e. cc e)
serving-waits (suc (suc zero)) t at h = absurd (cc (some_inj at, h.0))
serving-waits (suc (suc (suc i))) t at h = cc

serving-inboxes :
    (i : ℕ) (t : Task) → get_elem? serving.tasks i ≡ some t → length t.inbox ≤ inbox_capacity
serving-inboxes zero t at = subst (λ (u : Task). length u.inbox ≤ 32) (some_inj at) (omega arith)
serving-inboxes (suc zero) t at =
    subst (λ (u : Task). length u.inbox ≤ 32) (some_inj at) (omega arith)
serving-inboxes (suc (suc zero)) t at =
    subst (λ (u : Task). length u.inbox ≤ 32) (some_inj at) (omega arith)
serving-inboxes (suc (suc (suc i))) t at = cc

serving-IsAnswerable : IsAnswerable serving.tasks
serving-IsAnswerable = record { waits_for_live = serving-waits; inbox_bounded = serving-inboxes }

serving_runs : current_idx serving 0 ≡ some 2
unfolding current_idx
serving_runs = refl

serving_task : get_elem? serving.tasks 2 ≡ some running_server
serving_task = refl

-- The server exits while the client waits for it.
mark_exited-IsAnswerable_example :
    (kick : Option ℕ) × (s' : Scheduler) × (mark_exited 0 serving ≡ some (kick, s'))
    × IsAnswerable s'.tasks
mark_exited-IsAnswerable_example =
    mark_exited-IsAnswerable 0 serving serving_runs serving_task serving-IsAnswerable

-- The server, though it owes an answer, asks a task that does not exist.
post_request-IsAnswerable_example :
    (o : Outcome) × (s' : Scheduler) × (post_request 0 99 Rqb.new serving ≡ some (o, s'))
    × IsAnswerable s'.tasks
post_request-IsAnswerable_example =
    post_request-IsAnswerable 0 serving serving_runs serving_task serving-IsAnswerable 99 Rqb.new

send_rqb_lem_example :
    (r : Sent) × (s' : Scheduler) × (send_rqb true 0 9 Rqb.new busy ≡ some (r, s'))
    × Sends busy 1 client 9 r s'
unfolding current_idx
send_rqb_lem_example = send_rqb_lem true 0 9 Rqb.new busy refl refl
