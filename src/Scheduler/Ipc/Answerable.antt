-- ===== src/Scheduler/Ipc/Answerable.antt =====
-- Nobody waits for the dead: a sender that is blocked without a reply waits for a live task.
use mmurtl_rs.Base.{
  ℕ, ◌≤◌, ◌<◌, ◌≡◌, ◌≢◌, refl, sym, ap, ◌∙◌, subst, inl, inr, false, none, some, List, [], ◌∷◌,
  length, get_elem?, arith, Bool-cases, get_elem?_det, length-append,
}
use native.Mathlib.Decide.{ℕ_discrete}
use mmurtl_rs.Rqb.{Rqb}
use mmurtl_rs.Scheduler.{TaskState, Task, Scheduler, inbox_capacity}
use mmurtl_rs.Scheduler.Ipc.{Outcome, awaits, await_reply, enqueue, stamp}
use mmurtl_rs.Scheduler.Ipc.Deliver.{
  readied, find_live-some, Posted, to_itself, to_nobody, inbox_full, posted,
}
use mmurtl_rs.Scheduler.Ipc.Answer.{Exits, Replied, gone, not_waiting, replied, answered}

-- Some live task has the identity.
abbrev pub Lives : ℕ → List Task → Type 0
Lives tid ts =
    (j : ℕ) × (u : Task) × (get_elem? ts j ≡ some u) × (u.id ≡ tid) × (u.state ≢ TaskState.exited)

abbrev pub IsBlocked : Task → Type 0
IsBlocked t = (t.state ≡ TaskState.waiting_reply) × (t.reply ≡ none)

pub record IsAnswerable (ts : List Task) : Type 0 where
  pub waits_for_live :
      (i : ℕ) (t : Task) → get_elem? ts i ≡ some t → IsBlocked t → Lives t.wait_for ts
  pub inbox_bounded : (i : ℕ) (t : Task) → get_elem? ts i ≡ some t → length t.inbox ≤ inbox_capacity

-- The receiver of a request, after the delivery.
module _ (r : Task) (m : Rqb) where
  readied_alive :
      r.state ≢ TaskState.exited
      → (readied TaskState.waiting_rqb (enqueue m r)).state ≢ TaskState.exited
  readied_alive alive e = ground arith

  readied-IsBlocked :
      IsBlocked (readied TaskState.waiting_rqb (enqueue m r))
      → IsBlocked r × (r.wait_for ≡ (readied TaskState.waiting_rqb (enqueue m r)).wait_for)
  readied-IsBlocked h = ground arith

  readied_inbox :
      length r.inbox < inbox_capacity
      → length (readied TaskState.waiting_rqb (enqueue m r)).inbox ≤ inbox_capacity
  readied_inbox room = ground (arith, length-append r.inbox (m ∷ []))

readied_id :
    (r : Task) (msg : Rqb) (receiver id : ℕ)
    → (readied TaskState.waiting_rqb (enqueue (stamp id receiver msg) r)).id ≡ r.id
readied_id r msg receiver id = ground arith

blocked_on_other :
    (w : Task) (my_id : ℕ) → IsBlocked w → awaits my_id w ≡ false → w.wait_for ≢ my_id
blocked_on_other w my_id h other e = ground arith

-- What is known of the tasks after a call: each was there before, and one that was alive before is
-- alive still.
module _ (ss ts : List Task) where
  abbrev StillAlive : Type 0
  StillAlive =
      (j : ℕ) (u : Task)
      → get_elem? ss j ≡ some u
      → u.state ≢ TaskState.exited
      → (w : Task) × (get_elem? ts j ≡ some w) × (w.id ≡ u.id) × (w.state ≢ TaskState.exited)

  Lives-still : (tid : ℕ) → StillAlive → Lives tid ss → Lives tid ts
  Lives-still tid still (j, u, at, same, alive) =
      let (w, w_at, same', alive') = still j u at alive in (j, w, w_at, same' ∙ same, alive')

pub Posted-IsAnswerable :
    {s : Scheduler} {me : ℕ} {t : Task} {receiver : ℕ} {msg : Rqb} {o : Outcome} {s' : Scheduler}
    → get_elem? s.tasks me ≡ some t
    → Posted s me t receiver msg o s'
    → IsAnswerable s.tasks
    → IsAnswerable s'.tasks
Posted-IsAnswerable t_at (to_itself e) v = v
Posted-IsAnswerable t_at (to_nobody ne e) v = v
Posted-IsAnswerable t_at (inbox_full ri r ne f at full) v = v
Posted-IsAnswerable {s} {me} {t} {receiver} {msg} t_at
      (posted ri r kick ts f r_at apart room me' ri' others) v =
    let (r2, r2_at, same, alive2) = find_live-some receiver s.tasks f in
    let r_same : r2 ≡ r = get_elem?_det s.tasks refl r2_at r_at in
    let alive : r.state ≢ TaskState.exited = λ e. alive2 (ap (λ (w : Task). w.state) r_same ∙ e) in
    let r_id : r.id ≡ receiver = ap (λ (w : Task). w.id) (sym r_same) ∙ same in
    let still : StillAlive s.tasks ts = λ j u at live. elim (ℕ_discrete j me) [
      | yes e ↦ (
        await_reply receiver t,
        ap (get_elem? ts) e ∙ me',
        ap (λ (w : Task). w.id) (get_elem?_det s.tasks (sym e) t_at at),
        λ h. cc,
      )
      | no ne ↦ elim (ℕ_discrete j ri) [
        | yes e ↦ (
          readied TaskState.waiting_rqb (enqueue (stamp t.id receiver msg) r),
          ap (get_elem? ts) e ∙ ri',
          readied_id r msg receiver t.id
              ∙ ap (λ (w : Task). w.id) (get_elem?_det s.tasks (sym e) r_at at),
          readied_alive r (stamp t.id receiver msg) alive,
        )
        | no ne' ↦ (u, others j ne ne' ∙ at, refl, live)
      ]
    ] in
    record {
      waits_for_live = λ i u at blocked. elim (ℕ_discrete i me) [
        | yes e ↦
            let w = get_elem?_det ts (sym e) me' at in
            subst (λ (z : Task). Lives z.wait_for ts) w
              (
                ri,
                readied TaskState.waiting_rqb (enqueue (stamp t.id receiver msg) r),
                ri',
                readied_id r msg receiver t.id ∙ r_id,
                readied_alive r (stamp t.id receiver msg) alive,
              )
        | no ne ↦ elim (ℕ_discrete i ri) [
          | yes e ↦
              let w = get_elem?_det ts (sym e) ri' at in
              let (was, waits) =
                readied-IsBlocked r (stamp t.id receiver msg) (subst IsBlocked (sym w) blocked) in
              subst (λ n. Lives n ts) (waits ∙ ap (λ (z : Task). z.wait_for) w)
                (Lives-still s.tasks ts r.wait_for still (v.waits_for_live ri r r_at was))
          | no ne' ↦
              Lives-still s.tasks ts u.wait_for still
                (v.waits_for_live i u (sym (others i ne ne') ∙ at) blocked)
        ]
      ];
      inbox_bounded = λ i u at. elim (ℕ_discrete i me) [
        | yes e ↦
            subst (λ (z : Task). length z.inbox ≤ inbox_capacity) (get_elem?_det ts (sym e) me' at)
              (v.inbox_bounded me t t_at)
        | no ne ↦ elim (ℕ_discrete i ri) [
          | yes e ↦
              subst (λ (z : Task). length z.inbox ≤ inbox_capacity)
                (get_elem?_det ts (sym e) ri' at) (readied_inbox r (stamp t.id receiver msg) room)
          | no ne' ↦ v.inbox_bounded i u (sym (others i ne ne') ∙ at)
        ]
      ];
    }

pub Replied-IsAnswerable :
    {s : Scheduler} {t : Task} {sender : ℕ} {msg : Rqb} {o : Outcome} {s' : Scheduler}
    → Replied s t sender msg o s'
    → IsAnswerable s.tasks
    → IsAnswerable s'.tasks
Replied-IsAnswerable (gone f) v = v
Replied-IsAnswerable (not_waiting si w f at no_waits) v = v
Replied-IsAnswerable {s} {t} {sender} {msg} (replied si w kick ts f w_at waits si' others) v =
    let still : StillAlive s.tasks ts = λ j u at live. elim (ℕ_discrete j si) [
      | yes e ↦ (
        answered (stamp t.id sender msg) w,
        ap (get_elem? ts) e ∙ si',
        ap (λ (z : Task). z.id) (get_elem?_det s.tasks (sym e) w_at at),
        λ h. cc,
      )
      | no ne ↦ (u, others j ne ∙ at, refl, live)
    ] in
    record {
      waits_for_live = λ i u at blocked. elim (ℕ_discrete i si) [
        | yes e ↦
            absurd (cc (ap (λ (z : Task). z.state) (get_elem?_det ts (sym e) si' at) ∙ blocked.0))
        | no ne ↦
            Lives-still s.tasks ts u.wait_for still
              (v.waits_for_live i u (sym (others i ne) ∙ at) blocked)
      ];
      inbox_bounded = λ i u at. elim (ℕ_discrete i si) [
        | yes e ↦
            subst (λ (z : Task). length z.inbox ≤ inbox_capacity) (get_elem?_det ts (sym e) si' at)
              (v.inbox_bounded si w w_at)
        | no ne ↦ v.inbox_bounded i u (sym (others i ne) ∙ at)
      ];
    }

pub Exits-IsAnswerable :
    {s : Scheduler} {me : ℕ} {t : Task} {ts : List Task}
    → get_elem? s.tasks me ≡ some t
    → Exits s me t ts
    → IsAnswerable s.tasks
    → IsAnswerable ts
Exits-IsAnswerable {s} {me} {t} {ts} t_at x v = record {
  waits_for_live = λ i u at blocked. elim (ℕ_discrete i me) [
    | yes e ↦
        absurd (cc (ap (λ (z : Task). z.state) (get_elem?_det ts (sym e) x.itself at) ∙ blocked.0))
    | no ne ↦
        let (w, w_at) = x.known i u at in
        elim (Bool-cases (awaits t.id w)) [
          | inl waits ↦ absurd (
              cc (
                ap (λ (z : Task). z.state) (get_elem?_det ts refl (x.aborted i w ne w_at waits) at)
                ∙ blocked.0))
          | inr other ↦
              let same : w ≡ u = get_elem?_det ts refl (x.others i w ne w_at other) at in
              let was : IsBlocked w = subst IsBlocked (sym same) blocked in
              let (j, y, y_at, y_id, alive) = v.waits_for_live i w w_at was in
              let not_me : j ≢ me = λ e.
                blocked_on_other w t.id was other
                  (sym y_id ∙ ap (λ (z : Task). z.id) (get_elem?_det s.tasks e y_at t_at)) in
              subst (λ (z : Task). Lives z.wait_for ts) same
                (elim (Bool-cases (awaits t.id y)) [
                  | inl y_waits ↦ (j, _, x.aborted j y not_me y_at y_waits, y_id, λ h. cc)
                  | inr y_other ↦ (j, y, x.others j y not_me y_at y_other, y_id, alive)
                ])
        ]
  ];
  inbox_bounded = λ i u at. elim (ℕ_discrete i me) [
    | yes e ↦
        subst (λ (z : Task). length z.inbox ≤ inbox_capacity) (get_elem?_det ts (sym e) x.itself at)
          (omega arith)
    | no ne ↦
        let (w, w_at) = x.known i u at in
        elim (Bool-cases (awaits t.id w)) [
          | inl waits ↦
              subst (λ (z : Task). length z.inbox ≤ inbox_capacity)
                (get_elem?_det ts refl (x.aborted i w ne w_at waits) at) (v.inbox_bounded i w w_at)
          | inr other ↦
              subst (λ (z : Task). length z.inbox ≤ inbox_capacity)
                (get_elem?_det ts refl (x.others i w ne w_at other) at) (v.inbox_bounded i w w_at)
        ]
  ];
}
