-- ===== src/Scheduler/Ipc/Stranded.antt =====
-- No call of the message exchange leaves a sender waiting for a dead task.
use mmurtl_rs.Base.{ℕ, ◌≡◌, Option, some, get_elem?}
use mmurtl_rs.Rqb.{Rqb}
use mmurtl_rs.Scheduler.{Task, Scheduler, current_idx, with_tasks}
use mmurtl_rs.Scheduler.Ipc.{Outcome, post_request, mark_exited}
use mmurtl_rs.Scheduler.Ipc.Deliver.{post_request_lem}
use mmurtl_rs.Scheduler.Ipc.Answer.{mark_exited_lem}
use mmurtl_rs.Scheduler.Ipc.Answerable.{IsAnswerable, Posted-IsAnswerable, Exits-IsAnswerable}

module _ (cpu : ℕ) (s : Scheduler) {me : ℕ} {t : Task} (cur : current_idx s cpu ≡ some me)
    (t_at : get_elem? s.tasks me ≡ some t) (v : IsAnswerable s.tasks) where
  -- Where every sender blocked without a reply waits for a live task and no inbox is over its
  -- capacity, the task that runs on the CPU exits without a panic, and after `mark_exited` both hold
  -- still.
  pub mark_exited-IsAnswerable :
      (kick : Option ℕ) × (s' : Scheduler) × (mark_exited cpu s ≡ some (kick, s'))
      × IsAnswerable s'.tasks
  mark_exited-IsAnswerable =
      let (kick, ts, done, x) = mark_exited_lem cpu cur t_at in
      (kick, with_tasks ts s, done, Exits-IsAnswerable t_at x v)

  -- Where every sender blocked without a reply waits for a live task and no inbox is over its
  -- capacity, the task that runs on the CPU posts any request without a panic, and after
  -- `post_request`, which refuses or delivers it, both hold still.
  pub post_request-IsAnswerable :
      (receiver : ℕ) (msg : Rqb)
      → (o : Outcome) × (s' : Scheduler) × (post_request cpu receiver msg s ≡ some (o, s'))
        × IsAnswerable s'.tasks
  post_request-IsAnswerable receiver msg =
      let (o, s', done, x) = post_request_lem cpu receiver msg cur t_at in
      (o, s', done, Posted-IsAnswerable t_at x v)
