-- ===== src/Scheduler/Ipc/Deliver.antt =====
-- What each call of the message passing does to the run queue.
use mmurtl_rs.Base.{
  ℕ, ◌<◌, ◌≤◌, ◌≡◌, ◌≢◌, refl, sym, ap, ◌∙◌, subst, inl, inr, ◌==◌, leb, Option, none, some, List,
  length, get_elem?, set, arith, Bool-cases, Option-cases, get_elem?_det, get_elem?-set_ne,
  get_elem?-set_self, get_elem?-lt, position-some, if◌then◌else◌,
}
use mmurtl_rs.Rqb.{Rqb, RqbStatus}
use mmurtl_rs.Scheduler.{
  TaskState, same_state, Task, Scheduler, inbox_capacity, with_tasks, current_idx,
}
use mmurtl_rs.Scheduler.Tasks.{find_idle_cpu, find_live, is_live}
use mmurtl_rs.Scheduler.Ipc.{
  Outcome, delivered, refused, make_ready, stamp, await_reply, enqueue, deliver, post_request,
}

-- The task that `find_live` finds has the identity and has not exited.
pub find_live-some :
    (tid : ℕ) (ts : List Task) {i : ℕ}
    → find_live tid ts ≡ some i
    → (t : Task) × (get_elem? ts i ≡ some t) × (t.id ≡ tid) × (t.state ≢ TaskState.exited)
unfolding find_live
find_live-some tid ts h =
    let (t, at, ok) = position-some (is_live tid) ts h in (t, at, ground arith, ground arith)

-- What `make_ready` leaves of a task.
abbrev pub readied : TaskState → Task → Task
readied from t = if same_state t.state from then record t { state = TaskState.ready } else t

-- `make_ready` finds its task, wakes it if it is in the given state, and touches no other.
pub make_ready_lem :
    (idx : ℕ) (from : TaskState) (cpu : ℕ) (s : Scheduler) {t : Task}
    → get_elem? s.tasks idx ≡ some t
    → (kick : Option ℕ) × (ts : List Task) × (make_ready idx from cpu s
        ≡ some (kick, with_tasks ts s))
      × (get_elem? ts idx ≡ some (readied from t))
      × ((j : ℕ) → j ≢ idx → get_elem? ts j ≡ get_elem? s.tasks j)
unfolding make_ready
make_ready_lem idx from cpu s {t} at = elim (Bool-cases (same_state t.state from)) [
  | inl e ↦ (
    find_idle_cpu cpu s,
    set s.tasks idx (record t { state = TaskState.ready }),
    rw (at, e),
    rw e (get_elem?-set_self s.tasks idx _ (get_elem?-lt s.tasks idx at)),
    λ j ne. get_elem?-set_ne s.tasks idx j _ (λ f. ne (sym f)),
  )
  | inr e ↦ (none, s.tasks, rw (at, e), rw e at, λ j ne. refl)
]

-- What `post_request` may do, for a task `t` at index `me` that runs on the calling CPU.
pub data Posted (s : Scheduler) (me : ℕ) (t : Task) (receiver : ℕ) (msg : Rqb)
    : Outcome → Scheduler → Type 0 where
  to_itself : receiver ≡ t.id → Posted s me t receiver msg (refused RqbStatus.invalid_param) s
  to_nobody :
      receiver ≢ t.id
      → find_live receiver s.tasks ≡ none
      → Posted s me t receiver msg (refused RqbStatus.not_found) s
  inbox_full :
      (ri : ℕ) (r : Task)
      → receiver ≢ t.id
      → find_live receiver s.tasks ≡ some ri
      → get_elem? s.tasks ri ≡ some r
      → inbox_capacity ≤ length r.inbox
      → Posted s me t receiver msg (refused RqbStatus.busy) s
  posted :
      (ri : ℕ) (r : Task) (kick : Option ℕ) (ts : List Task)
      → find_live receiver s.tasks ≡ some ri
      → get_elem? s.tasks ri ≡ some r
      → me ≢ ri
      → length r.inbox < inbox_capacity
      → get_elem? ts me ≡ some (await_reply receiver t)
      → get_elem? ts ri ≡ some (readied TaskState.waiting_rqb (enqueue (stamp t.id receiver msg) r))
      → ((j : ℕ) → j ≢ me → j ≢ ri → get_elem? ts j ≡ get_elem? s.tasks j)
      → Posted s me t receiver msg (delivered kick) (with_tasks ts s)

module _ (cpu receiver : ℕ) (msg : Rqb) {s : Scheduler} {me : ℕ} {t : Task}
    (cur : current_idx s cpu ≡ some me) (t_at : get_elem? s.tasks me ≡ some t) where
  deliver_lem :
      (ri : ℕ) (r : Task)
      → receiver ≢ t.id
      → find_live receiver s.tasks ≡ some ri
      → get_elem? s.tasks ri ≡ some r
      → length r.inbox < inbox_capacity
      → (o : Outcome) × (s' : Scheduler) × (deliver cpu me t.id ri receiver msg r s ≡ some (o, s'))
        × Posted s me t receiver msg o s'
  unfolding deliver
  deliver_lem ri r other found r_at room =
      let (r', r'_at, same, alive) = find_live-some receiver s.tasks found in
      let apart : me ≢ ri = λ e. other (
        sym same
        ∙ ap (λ (w : Task). w.id)
            (get_elem?_det s.tasks refl r'_at
              (subst (λ k. get_elem? s.tasks k ≡ some t) e t_at))) in
      let grown = enqueue (stamp t.id receiver msg) r in
      let sent = set s.tasks ri grown in
      let me_at : get_elem? sent me ≡ some t =
        get_elem?-set_ne s.tasks ri me grown (λ e. apart (sym e)) ∙ t_at in
      let blocked = set sent me (await_reply receiver t) in
      let ri_at : get_elem? blocked ri ≡ some grown =
        get_elem?-set_ne sent me ri _ apart
        ∙ get_elem?-set_self s.tasks ri grown (get_elem?-lt s.tasks ri r_at) in
      let (kick, ts, made, ri_after, others) =
        make_ready_lem ri TaskState.waiting_rqb cpu (with_tasks blocked s) ri_at in
      (
        delivered kick,
        with_tasks ts s,
        rw (me_at, made),
        posted ri r kick ts found r_at apart room
            (others me apart ∙ get_elem?-set_self sent me _ (get_elem?-lt sent me me_at)) ri_after
            (λ j not_me not_ri.
              others j not_ri
              ∙ get_elem?-set_ne sent me j _ (λ e. not_me (sym e))
              ∙ get_elem?-set_ne s.tasks ri j _ (λ e. not_ri (sym e))),
      )

  -- `post_request` always returns. It refuses with InvalidParam a request to itself, with NotFound
  -- one to no live task and with Busy one to a full inbox, changing nothing. Otherwise it appends
  -- the stamped request to the receiver's inbox, wakes the receiver if it waits for requests,
  -- blocks the sender until the receiver answers, and touches no other task.
  pub post_request_lem :
      (o : Outcome) × (s' : Scheduler) × (post_request cpu receiver msg s ≡ some (o, s'))
      × Posted s me t receiver msg o s'
  unfolding post_request
  post_request_lem = elim (Bool-cases (receiver == t.id)) [
    | inl e ↦ (refused RqbStatus.invalid_param, s, rw (cur, t_at, e), to_itself (ground arith))
    | inr e ↦ elim (Option-cases (find_live receiver s.tasks)) [
      | inl f ↦ (refused RqbStatus.not_found, s, rw (cur, t_at, e, f), to_nobody (ground arith) f)
      | inr (ri, f) ↦
          let (r, r_at, same, alive) = find_live-some receiver s.tasks f in
          elim (Bool-cases (leb inbox_capacity (length r.inbox))) [
            | inl g ↦ (
              refused RqbStatus.busy,
              s,
              rw (cur, t_at, e, f, r_at, g),
              inbox_full ri r (ground arith) f r_at (ground arith),
            )
            | inr g ↦
                let (o, s', done, what) = deliver_lem ri r (ground arith) f r_at (ground arith) in
                (o, s', rw (cur, t_at, e, f, r_at, g) done, what)
          ]
    ]
  ]
