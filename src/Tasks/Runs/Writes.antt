-- ===== src/Tasks/Runs/Writes.antt =====
-- The writes to the tables in any order: those of the task store, and the callbacks.
use amby.Common.{
  ℕ, ◌≤◌, ◌≡◌, ◌⊎◌, refl, ◌∙◌, inl, inr, Bool, true, ◌&&◌, Option, none, some, List, [], ◌∷◌, any,
  All, arith, or_else, is_some, Bool-cases,
}
use amby.Common.Text.{Text, text_eq}
use amby.Tasks.Status.{Status, Kind}
use amby.Tasks.Rows.{Task, TaskEvent, TaskDb, Payload}
use amby.Tasks.Store
use amby.Tasks.Store.{
  transact, is_behind, progressed, is_unfinished, completed, update_where, insert_event, Progress,
  NewEvent, TaskCompletion, committed, is_event,
}
use amby.Tasks.Callback
use amby.Tasks.Callback.{
  Body, ExecutionData, completed_row, patched, is_open_for, is_status_ok, is_completion,
  is_replayed, normalize_event_kind, bumped, report_event, notify_backend, event_of, or_unchanged,
}
use amby.Tasks.Runs.{
  Evolves, Evolve, Evolve-refl, Evolve-trans, Evolve-append, Evolve-update_where, insert_event_lem,
}

pub data Write : Type 0 where
  create_task : Task → Option Payload → (event_id : Text) → Write
  update_task : Text → (Task → Task) → Write
  append_event : NewEvent → (fresh : Text) → Write
  append_progress_event : Progress → (fresh : Text) → Write
  complete_task : TaskCompletion → (fresh : Text) → Write
  heartbeat : Text → Write
  touch_probe : Text → Write
  mark_notified : Text → Status → Write
  callback : Task → Body → Option ExecutionData → Write

abbrev pub after : Option (TaskDb × Bool) → TaskDb → TaskDb
after none db = db
after (some (db', changed)) db = db'

-- A refused write leaves the tables as they are. `callback` is a callback that was admitted for the
-- row `task`, which it read at any time before.
unfoldable pub write : ℕ → ℕ → Write → TaskDb → TaskDb
write now later (Write.create_task row payload event_id) db =
    or_unchanged (Store.create_task row payload event_id now later db) db
write now later (Write.update_task task_id patch) db = Store.update_task task_id patch db
write now later (Write.append_event e fresh) db =
    or_unchanged (Store.append_event e fresh now db) db
write now later (Write.append_progress_event p fresh) db =
    after (Store.append_progress_event p fresh now later db) db
write now later (Write.complete_task c fresh) db =
    after (Store.complete_task c fresh now later db) db
write now later (Write.heartbeat task_id) db = Store.heartbeat task_id now db
write now later (Write.touch_probe task_id) db = Store.touch_probe task_id now db
write now later (Write.mark_notified task_id status) db = Store.mark_notified task_id status now db
write now later (Write.callback task body data_) db = (Callback.accept task body data_ now db).0

unfoldable pub run : List (ℕ × (ℕ × Write)) → TaskDb → TaskDb
unfolding write
run [] db = db
run ((now, (later, w)) ∷ writes) db = run writes (write now later w db)

-- A plain update keeps to what evolves, and a callback has a sequence number
-- unless it is a notification of the backend.
abbrev pub IsOrderly : Write → Type 0
IsOrderly (Write.update_task task_id patch) = (t : Task) → Evolves t (patch t)
IsOrderly (Write.callback task body data_) =
    (is_some body.seq ≡ true) ⊎ (normalize_event_kind body.event_type ≡ some Kind.backend_notify)
IsOrderly w = Unit {0}

-- The tasks after an insertion that may fail, over what they were before.
or_unchanged-Evolve :
    (e : TaskEvent) (mid db : TaskDb)
    → Evolve db.tasks mid.tasks
    → Evolve db.tasks (or_unchanged (insert_event e mid) db).tasks
or_unchanged-Evolve e mid db h = elim (insert_event_lem e mid) [
  | inl none_ ↦ rw none_ (Evolve-refl db.tasks)
  | inr (some_, new) ↦ rw some_ h
]

pub transact-Evolve :
    (hit : Task → Bool) (set : Task → Task) (e : TaskEvent) (db : TaskDb)
    → ((t : Task) → hit t ≡ true → Evolves t (set t))
    → Evolve db.tasks (after (transact hit set e db) db).tasks
unfolding transact
transact-Evolve hit set e db h = elim (Bool-cases (any hit db.tasks)) [
  | inr unhit ↦ rw unhit (Evolve-refl db.tasks)
  | inl found ↦ elim (insert_event_lem e (record db { tasks = update_where hit set db.tasks })) [
    | inl none_ ↦ rw (found, none_) (Evolve-refl db.tasks)
    | inr (some_, new) ↦ rw (found, some_) (Evolve-update_where hit set h db.tasks)
  ]
]

completed_row-keeps :
    (body : Body) (kind : Kind) (data_ : Option ExecutionData) (at : ℕ) (t : Task)
    → ((completed_row body kind data_ at t).id ≡ t.id)
      × ((completed_row body kind data_ at t).callback_id ≡ t.callback_id)
      × ((completed_row body kind data_ at t).last_event_seq ≡ t.last_event_seq)
unfolding completed_row
completed_row-keeps body kind data_ at t = ground arith

bumped_seq :
    (task : Task) (body : Body) (now : ℕ) (t : Task)
    → is_some body.seq ≡ true
    → is_open_for task body t ≡ true
    → t.last_event_seq ≤ (bumped task body now t).last_event_seq
unfolding bumped
bumped_seq task body now t s h = ground arith

patched-Evolves :
    (task : Task) (body : Body) (kind : Kind) (data_ : Option ExecutionData) (now : ℕ) (t : Task)
    → is_some body.seq ≡ true
    → is_open_for task body t ≡ true
    → Evolves t (patched task body kind data_ now t)
unfolding patched
patched-Evolves task body kind data_ now t s h =
    let row = bumped task body now t in
    let (id, callback_id, seq) =
      completed_row-keeps body kind data_ (or_else body.sent_at now) row in
    let rises = bumped_seq task body now t s h in
    elim (Bool-cases (is_status_ok task body && is_completion kind)) [
      | inl e ↦ rw e (record {
        id = id ∙ (unfold bumped in refl);
        callback_id = callback_id ∙ (unfold bumped in refl);
        seq = rw seq rises;
        status = inl (ground arith);
      })
      | inr e ↦ rw e (record {
        id = unfold bumped in refl;
        callback_id = unfold bumped in refl;
        seq = rises;
        status = inl (ground arith);
      })
    ]

report-Evolve :
    (task : Task) (body : Body) (kind : Kind) (data_ : Option ExecutionData) (now : ℕ) (db : TaskDb)
    → is_some body.seq ≡ true
    → Evolve db.tasks (report_event task body kind data_ now db).tasks
unfolding report_event
report-Evolve task body kind data_ now db s =
    elim (Bool-cases (any (is_open_for task body) db.tasks)) [
      | inr unhit ↦ rw unhit (Evolve-refl db.tasks)
      | inl found ↦ rw found (
          or_unchanged-Evolve _ _ db
            (Evolve-update_where _ _ (λ t. patched-Evolves task body kind data_ now t s) db.tasks))
    ]

notify-Evolve :
    (task : Task) (body : Body) (now : ℕ) (db : TaskDb)
    → Evolve db.tasks (notify_backend task body now db).tasks
unfolding notify_backend
notify-Evolve task body now db =
    elim (insert_event_lem (event_of task body Kind.backend_notify none now) db) [
      | inl none_ ↦ rw (none_, notify_backend) (Evolve-refl db.tasks)
      | inr (some_, new) ↦
          rw (some_, notify_backend)
            (Evolve-update_where _ _
              (λ t e. record {
                id = refl;
                callback_id = refl;
                seq = omega arith;
                status = inr refl;
              })
              db.tasks)
    ]

progressed-Evolves :
    (p : Progress) (now later : ℕ) (t : Task)
    → is_behind p t ≡ true
    → Evolves t (progressed p now later t)
unfolding progressed
progressed-Evolves p now later t h = record {
  id = refl;
  callback_id = refl;
  seq = ground arith;
  status = inl (ground arith);
}

pub completed-Evolves :
    (c : TaskCompletion) (current : Option (List (Text × Text))) (now : ℕ) (t : Task)
    → is_unfinished c t ≡ true
    → Evolves t (completed c current now t)
unfolding completed
completed-Evolves c current now t h = record {
  id = refl;
  callback_id = refl;
  seq = omega arith;
  status = inl (ground arith);
}

pub update-Evolve :
    (task_id : Text) (patch : Task → Task) (db : TaskDb)
    → ((t : Task) → Evolves t (patch t))
    → Evolve db.tasks (Store.update_task task_id patch db).tasks
unfolding Store.update_task
update-Evolve task_id patch db h = Evolve-update_where _ patch (λ t e. h t) db.tasks

numbered-Evolve :
    (task : Task) (body : Body) (data_ : Option ExecutionData) (now : ℕ) (db : TaskDb)
    → is_some body.seq ≡ true
    → Evolve db.tasks (Callback.accept task body data_ now db).0.tasks
unfolding Callback.accept
numbered-Evolve task body data_ now db s = grind (
  arith,
  Evolve-refl db.tasks,
  notify-Evolve task body now db,
  report-Evolve task body _ data_ now db s,
)

notification-Evolve :
    (task : Task) (body : Body) (data_ : Option ExecutionData) (now : ℕ) (db : TaskDb)
    → normalize_event_kind body.event_type ≡ some Kind.backend_notify
    → Evolve db.tasks (Callback.accept task body data_ now db).0.tasks
unfolding Callback.accept
notification-Evolve task body data_ now db e = elim (Bool-cases (is_replayed task body)) [
  | inl replayed ↦ rw (Callback.accept, replayed) (Evolve-refl db.tasks)
  | inr fresh ↦ rw (Callback.accept, fresh, e) (notify-Evolve task body now db)
]

create-Evolve :
    (row : Task) (payload : Option Payload) (event_id : Text) (now later : ℕ) (db : TaskDb)
    → Evolve db.tasks (or_unchanged (Store.create_task row payload event_id now later db) db).tasks
unfolding Store.create_task
create-Evolve row payload event_id now later db =
    elim (Bool-cases (any (λ t. text_eq t.id row.id) db.tasks)) [
      | inl taken ↦ rw taken (Evolve-refl db.tasks)
      | inr free ↦ rw free (or_unchanged-Evolve _ _ db (Evolve-append db.tasks (row ∷ [])))
    ]

pub write-Evolve :
    (now later : ℕ) (w : Write) (db : TaskDb)
    → IsOrderly w
    → Evolve db.tasks (write now later w db).tasks
unfolding write Store.create_task Store.append_event Store.append_progress_event Store.complete_task
    Store.heartbeat Store.touch_probe Store.mark_notified
write-Evolve now later (Write.create_task row payload event_id) db o =
    create-Evolve row payload event_id now later db
write-Evolve now later (Write.update_task task_id patch) db o = update-Evolve task_id patch db o
write-Evolve now later (Write.append_event e fresh) db o =
    or_unchanged-Evolve _ db db (Evolve-refl db.tasks)
write-Evolve now later (Write.append_progress_event p fresh) db o =
    transact-Evolve _ _ _ db (progressed-Evolves p now later)
write-Evolve now later (Write.complete_task c fresh) db o =
    transact-Evolve _ _ (Store.completion_event c fresh now later) db
      (completed-Evolves c (Store.current_runtime_data c.task_id db) now)
write-Evolve now later (Write.heartbeat task_id) db o =
    update-Evolve task_id _ db
      (λ t. record { id = refl; callback_id = refl; seq = omega arith; status = inr refl })
write-Evolve now later (Write.touch_probe task_id) db o =
    update-Evolve task_id _ db
      (λ t. record { id = refl; callback_id = refl; seq = omega arith; status = inr refl })
write-Evolve now later (Write.mark_notified task_id status) db o =
    update-Evolve task_id _ db
      (λ t. record { id = refl; callback_id = refl; seq = omega arith; status = inr refl })
write-Evolve now later (Write.callback task body data_) db (inl o) =
    numbered-Evolve task body data_ now db o
write-Evolve now later (Write.callback task body data_) db (inr e) =
    notification-Evolve task body data_ now db e

-- Over any sequence of writes that succeed or fail, admitted callbacks included that
-- read their row at any time before, the rows of the tasks stay in place, and each keeps its id
-- and callback id, never lowers its sequence number, and keeps its status once that is terminal.
-- The plain updates are to do so, and a callback has a sequence number or is a notification of
-- the backend.
pub run-Evolve :
    (writes : List (ℕ × (ℕ × Write))) (db : TaskDb)
    → All (λ w. IsOrderly w.1.1) writes
    → Evolve db.tasks (run writes db).tasks
unfolding run
run-Evolve [] db o = Evolve-refl db.tasks
run-Evolve ((now, (later, w)) ∷ writes) db (o, rest) =
    let db' = write now later w db in
    Evolve-trans db.tasks db'.tasks (run writes db').tasks (write-Evolve now later w db o)
      (run-Evolve writes db' rest)
