-- ===== src/Tasks/Callback/Once.antt =====
-- Repeated deliveries of a callback (apps/api/src/handlers/task-events.ts).
use amby.Common.{
  ℕ, ◌≡◌, ◌⊎◌, refl, sym, ap, ◌∙◌, inl, inr, Bool, true, ◌&&◌, Option, none, some, List, [], ◌∷◌,
  ◌++◌, find?, any, arith, if◌then◌else◌, Bool-cases,
}
use amby.Common.Text.{Text, text_eq_refl}
use amby.Tasks.Status.{Kind}
use amby.Tasks.Rows.{Task, TaskEvent, TaskDb}
use amby.Tasks.Store.{update_where, insert_event, is_event}
use amby.Tasks.Callback.{
  Platform, Request, Body, ExecutionData, admitted, admit, accept, has_callback, header,
  handle_task_event_post, report_event, notify_backend, event_of, is_open_for, patched,
  is_status_ok, is_completion, bumped, completed_row,
}
use amby.Tasks.Callback.Auth.{admit_lem, Admission-cases}
use amby.Tasks.Runs.{insert_event_lem}

-- The id of the task that has the callback id.
abbrev owner : Text → List Task → Option Text
owner callback_id [] = none
owner callback_id (t ∷ ts) = if has_callback callback_id t then some t.id else owner callback_id ts

owner-update_where :
    (callback_id : Text) (hit : Task → Bool) (set : Task → Task)
    → ((t : Task) → (set t).id ≡ t.id)
    → ((t : Task) → (set t).callback_id ≡ t.callback_id)
    → (ts : List Task) → owner callback_id (update_where hit set ts) ≡ owner callback_id ts
unfolding update_where
owner-update_where callback_id hit set i c [] = refl
owner-update_where callback_id hit set i c (t ∷ ts) =
    let rest = owner-update_where callback_id hit set i c ts in
    elim (Bool-cases (hit t)) [ inl e ↦ rw (e, i t, c t, rest) refl | inr e ↦ rw (e, rest) refl ]

-- An event that is there already is not inserted.
insert_event_known :
    (e : TaskEvent) (db : TaskDb)
    → any (is_event e.task_id e.event_id) db.events ≡ true
    → insert_event e db ≡ none
unfolding insert_event
insert_event_known e db h = ground arith

any_last :
    (p : TaskEvent → Bool) (es : List TaskEvent) (e : TaskEvent)
    → p e ≡ true
    → any p (es ++ (e ∷ [])) ≡ true
any_last p [] e h = ground arith
any_last p (x ∷ es) e h = ground (arith, any_last p es e h)

module _ (task : Task) (body : Body) (now : ℕ) where
  notify_known :
      (db : TaskDb)
      → any (is_event task.id body.event_id) db.events ≡ true
      → notify_backend task body now db ≡ db
  unfolding notify_backend
  notify_known db h =
      rw (insert_event_known (event_of task body Kind.backend_notify none now) db h, notify_backend)
        refl

  report_known :
      (kind : Kind) (data_ : Option ExecutionData) (db : TaskDb)
      → any (is_event task.id body.event_id) db.events ≡ true
      → report_event task body kind data_ now db ≡ db
  unfolding report_event
  report_known kind data_ db h =
      let mid : TaskDb = record db {
        tasks = update_where (is_open_for task body) (patched task body kind data_ now) db.tasks;
      } in
      ground (arith, insert_event_known (event_of task body kind body.seq now) mid h)

  -- A callback that is recorded already writes nothing.
  accept_known :
      (data_ : Option ExecutionData) (db : TaskDb)
      → any (is_event task.id body.event_id) db.events ≡ true
      → (accept task body data_ now db).0 ≡ db
  unfolding accept
  accept_known data_ db h = grind (
    arith,
    notify_known db h,
    report_known Kind.task_created data_ db h,
    report_known _ data_ db h,
  )

  -- What a callback leaves: everything as it was, or its event among the events, and the task
  -- under each callback id as before.
  IsRecorded : TaskDb → TaskDb → Type 0
  IsRecorded db db' =
      (db' ≡ db)
      ⊎ ((any (is_event task.id body.event_id) db'.events ≡ true)
          × ((callback_id : Text) → owner callback_id db'.tasks ≡ owner callback_id db.tasks))

  recorded :
      (e : TaskEvent) (es : List TaskEvent)
      → e.task_id ≡ task.id
      → e.event_id ≡ body.event_id
      → any (is_event task.id body.event_id) (es ++ (e ∷ [])) ≡ true
  recorded e es t b =
      any_last (is_event task.id body.event_id) es e
        (rw (t, b, text_eq_refl task.id, text_eq_refl body.event_id) refl)

  notify-IsRecorded : (db : TaskDb) → IsRecorded db (notify_backend task body now db)
  unfolding IsRecorded notify_backend
  notify-IsRecorded db =
      let e = event_of task body Kind.backend_notify none now in
      elim (insert_event_lem e db) [
        | inl none_ ↦ inl (rw (none_, notify_backend) refl)
        | inr (some_, new) ↦ inr (
          rw (some_, notify_backend) (recorded e db.events refl refl),
          λ c.
              rw (some_, notify_backend)
                (owner-update_where c _ _ (λ t. refl) (λ t. refl) db.tasks),
        )
      ]

  patched-names :
      (kind : Kind) (data_ : Option ExecutionData) (t : Task)
      → ((patched task body kind data_ now t).id ≡ t.id)
        × ((patched task body kind data_ now t).callback_id ≡ t.callback_id)
  patched-names kind data_ t =
      unfold patched in
      elim (Bool-cases (is_status_ok task body && is_completion kind)) [
        | inl e ↦ rw e (unfold bumped completed_row in ground arith)
        | inr e ↦ rw e (unfold bumped in (refl, refl))
      ]

  report-IsRecorded :
      (kind : Kind) (data_ : Option ExecutionData) (db : TaskDb)
      → IsRecorded db (report_event task body kind data_ now db)
  unfolding report_event IsRecorded
  report-IsRecorded kind data_ db =
      let e = event_of task body kind body.seq now in
      let mid : TaskDb = record db {
        tasks = update_where (is_open_for task body) (patched task body kind data_ now) db.tasks;
      } in
      elim (Bool-cases (any (is_open_for task body) db.tasks)) [
        | inr unhit ↦ inl (rw unhit refl)
        | inl found ↦ elim (insert_event_lem e mid) [
          | inl none_ ↦ inl (rw (found, none_) refl)
          | inr (some_, new) ↦ inr (
            rw (found, some_) (recorded e db.events refl refl),
            λ c.
                rw (found, some_)
                  (owner-update_where c _ _ (λ t. (patched-names kind data_ t).0)
                    (λ t. (patched-names kind data_ t).1) db.tasks),
          )
        ]
      ]

  same-IsRecorded : (db : TaskDb) → IsRecorded db db
  unfolding IsRecorded
  same-IsRecorded db = inl refl

  accept-IsRecorded :
      (data_ : Option ExecutionData) (db : TaskDb) → IsRecorded db (accept task body data_ now db).0
  unfolding accept
  accept-IsRecorded data_ db =
      grind (arith, same-IsRecorded db, notify-IsRecorded db, report-IsRecorded _ data_ db)

owner-find? :
    (callback_id : Text) (ts : List Task) (task : Task)
    → find? (has_callback callback_id) ts ≡ some task
    → owner callback_id ts ≡ some task.id
owner-find? callback_id [] task h = cc h
owner-find? callback_id (t ∷ ts) task h = elim (Bool-cases (has_callback callback_id t)) [
  | inl e ↦ ground (arith, e)
  | inr e ↦ ground (arith, e, owner-find? callback_id ts task)
]

module _ (p : Platform) (r : Request) where
  -- Once the tables hold the event of a request, and name the same task for its callback id as
  -- when it was admitted, its next delivery changes nothing.
  redelivered :
      (now later : ℕ) (second : Option ExecutionData) (db db' : TaskDb) (task : Task) (body : Body)
      → admit p now r db ≡ admitted task body
      → any (is_event task.id body.event_id) db'.events ≡ true
      → owner (header r.callback_id) db'.tasks ≡ owner (header r.callback_id) db.tasks
      → (handle_task_event_post p later r second db').0 ≡ db'
  unfolding handle_task_event_post
  redelivered now later second db db' task body a known names =
      elim (Admission-cases (admit p later r db')) [
        | inl (response, e) ↦ rw (handle_task_event_post, e) refl
        | inr (task', body', e) ↦
            let first = admit_lem p now r db task body a in
            let again = admit_lem p later r db' task' body' e in
            let same_id : some task'.id ≡ some task.id =
              sym (owner-find? (header r.callback_id) db'.tasks task' again.found)
              ∙ names
              ∙ owner-find? (header r.callback_id) db.tasks task first.found in
            let same_body : some body' ≡ some body = sym again.parsed ∙ first.parsed in
            let known' : any (is_event task'.id body'.event_id) db'.events ≡ true =
              let same_task : task'.id ≡ task.id = cc same_id in
              let same : body' ≡ body = cc same_body in
              let same_event : body'.event_id ≡ body.event_id =
                ap (λ (b : Body). b.event_id) same in
              rw (same_task, same_event) known in
            rw (handle_task_event_post, e) (accept_known task' body' later second db' known')
      ]

  once :
      (now later : ℕ) (first second : Option ExecutionData) (db : TaskDb) (task : Task)
      (body : Body)
      → admit p now r db ≡ admitted task body
      → ((accept task body first now db).0 ≡ db)
        ⊎ ((handle_task_event_post p later r second (accept task body first now db).0).0
            ≡ (accept task body first now db).0)
  unfolding IsRecorded
  once now later first second db task body a = elim (accept-IsRecorded task body now first db) [
    | inl same ↦ inl same
    | inr (known, names) ↦
        inr (redelivered now later second db _ task body a known (names (header r.callback_id)))
  ]

  -- A request that is delivered twice, with whatever time and execution data each time, changes the
  -- tables at most once: the first delivery or the second leaves them as they are.
  pub handle_task_event_post-once :
      (now later : ℕ) (first second : Option ExecutionData) (db : TaskDb)
      → ((handle_task_event_post p now r first db).0 ≡ db)
        ⊎ ((handle_task_event_post p later r second (handle_task_event_post p now r first db).0).0
            ≡ (handle_task_event_post p now r first db).0)
  unfolding handle_task_event_post
  handle_task_event_post-once now later first second db =
      elim (Admission-cases (admit p now r db)) [
        | inl (response, e) ↦ inl (rw (handle_task_event_post, e) refl)
        | inr (task, body, e) ↦
            let same : (handle_task_event_post p now r first db).0
                ≡ (accept task body first now db).0 =
              rw (handle_task_event_post, e) refl in
            rw same (once now later first second db task body e)
      ]
