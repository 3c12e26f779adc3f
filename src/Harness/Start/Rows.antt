-- ===== src/Harness/Start/Rows.antt =====
-- What starting a task does to the rows of the tasks.
use amby.Common.{
  ℕ, ◌+◌, ◌≤◌, ◌≡◌, refl, sym, ap, subst, ◌∙◌, inl, inr, Bool, true, ◌&&◌, Option, none, some, List,
  [], ◌∷◌, ◌++◌, any, filter, length, All, arith, if◌then◌else◌, or_else, Bool-cases,
}
use amby.Common.Text.{Text, text_eq}
use amby.Tasks.Status.{server, task_created}
use amby.Tasks.Rows.{Task, TaskDb, TaskEvent, Payload}
use amby.Tasks.Store
use amby.Tasks.Store.{update_where, update_task, insert_event, transact, TaskCompletion}
use amby.Tasks.Queries.{is_sandbox, is_active_status}
use amby.Tasks.Runs.{insert_event_lem}
use amby.Tasks.Runs.Writes.{after}
use amby.Harness.World.{World, Moment, completion_of, delete_session}
use amby.Harness.Start
use amby.Harness.Start.{
  Params, Drawn, Directory, Prepared, Launch, Started, Inserted, inserted, rejected, id_of,
}

abbrev pub has_id : Text → Task → Bool
has_id id t = text_eq t.id id

-- The count of the store, of a list of rows.
abbrev pub is_active_of : Text → Task → Bool
is_active_of user_id t = text_eq t.user_id user_id && is_sandbox t && is_active_status t.status

abbrev pub count_active : Text → List Task → ℕ
count_active user_id ts = length (filter (is_active_of user_id) ts)

count_cons :
    (user_id : Text) (t : Task) (ts : List Task)
    → count_active user_id (t ∷ ts)
      ≡ (if is_active_of user_id t then 1 else 0) + count_active user_id ts
count_cons user_id t ts = ground arith

pub count_last :
    (user_id : Text) (ts : List Task) (t : Task)
    → count_active user_id (ts ++ (t ∷ []))
      ≤ count_active user_id ts + (if text_eq t.user_id user_id then 1 else 0)
count_last user_id [] t = ground arith
count_last user_id (u ∷ ts) t =
    let rest = count_last user_id ts t in
    let old = count_cons user_id u ts in
    let new = count_cons user_id u (ts ++ (t ∷ [])) in rw (old, new) (omega (arith, rest))

-- An update that makes no row active leaves no more active rows.
abbrev pub MakesNone : Text → (Task → Bool) → (Task → Task) → Task → Type 0
MakesNone user_id hit set t =
    (hit t ≡ true) → (is_active_of user_id (set t) ≡ true) → is_active_of user_id t ≡ true

one_le :
    (user_id : Text) (hit : Task → Bool) (set : Task → Task) (t : Task)
    → MakesNone user_id hit set t
    → (if is_active_of user_id (if hit t then set t else t) then 1 else 0)
      ≤ (if is_active_of user_id t then 1 else 0)
one_le user_id hit set t h = elim (Bool-cases (hit t)) [
  | inr e ↦ rw e (omega arith)
  | inl e ↦ elim (Bool-cases (is_active_of user_id (set t))) [
    | inl active ↦ rw (e, active, h e active) (omega arith)
    | inr over ↦ rw (e, over) (omega arith)
  ]
]

pub count_update :
    (user_id : Text) (hit : Task → Bool) (set : Task → Task) (ts : List Task)
    → All (MakesNone user_id hit set) ts
    → count_active user_id (update_where hit set ts) ≤ count_active user_id ts
unfolding update_where
count_update user_id hit set [] h = omega arith
count_update user_id hit set (t ∷ ts) (h, hs) =
    let rest = count_update user_id hit set ts hs in
    let one = one_le user_id hit set t h in
    let old = count_cons user_id t ts in
    let new = count_cons user_id (if hit t then set t else t) (update_where hit set ts) in
    omega (arith, rest, one, old, new)

pub everywhere : {P : Task → Type 0} → ((t : Task) → P t) → (ts : List Task) → All P ts
everywhere h [] = tt
everywhere h (t ∷ ts) = (h t, everywhere h ts)

pub count_transact :
    (user_id : Text) (hit : Task → Bool) (set : Task → Task) (event : TaskEvent) (db : TaskDb)
    → ((t : Task) → MakesNone user_id hit set t)
    → count_active user_id (after (transact hit set event db) db).tasks
      ≤ count_active user_id db.tasks
unfolding transact
count_transact user_id hit set event db h = elim (Bool-cases (any hit db.tasks)) [
  | inr unhit ↦ rw unhit (omega arith)
  | inl found ↦
      elim (insert_event_lem event (record db { tasks = update_where hit set db.tasks })) [
        | inl none_ ↦ rw (found, none_) (omega arith)
        | inr (some_, new) ↦
            rw (found, some_) (count_update user_id hit set db.tasks (everywhere h db.tasks))
      ]
]

delete_session-tasks : (id : Text) (w : World) → (delete_session id w).tasks ≡ w.tasks
unfolding delete_session
delete_session-tasks id w = ground arith

rolled_back-tasks :
    (session_id : Option Text) (o : Option (TaskDb × Bool)) (w : World)
    → (Start.rolled_back session_id o w).tasks ≡ after o w.tasks
unfolding Start.rolled_back
rolled_back-tasks session_id none w = refl
rolled_back-tasks session_id (some (db, changed)) w = delete_session-tasks _ _

-- A failed start leaves no more active tasks.
pub count_roll_back :
    (user_id : Text) (d : Directory) (m : Moment) (id : Text) (session_id : Option Text)
    (text : Text) (w : World)
    → count_active user_id (Start.roll_back d m id session_id text w).tasks.tasks
      ≤ count_active user_id w.tasks.tasks
unfolding Start.roll_back Store.complete_task
count_roll_back user_id d m id session_id text w =
    let c = completion_of id (Start.failure_ending d text) in
    subst (λ (db : TaskDb). count_active user_id db.tasks ≤ count_active user_id w.tasks.tasks)
      (sym (rolled_back-tasks session_id _ w))
      (count_transact user_id (Store.is_unfinished c) _
        (Store.completion_event c m.fresh m.now m.later) w.tasks (λ t e active. ground arith))

abbrev pub tasks_of : Option TaskDb → List Task
tasks_of none = []
tasks_of (some db) = db.tasks

-- A new row stands at the end.
pub create_task_lem :
    (row : Task) (payload : Option Payload) (event_id : Text) (now later : ℕ) (db db' : TaskDb)
    → Store.create_task row payload event_id now later db ≡ some db'
    → db'.tasks ≡ db.tasks ++ (row ∷ [])
unfolding Store.create_task insert_event
create_task_lem row payload event_id now later db db' h =
    elim (Bool-cases (any (has_id row.id) db.tasks)) [
      | inl taken ↦
          let refused : Store.create_task row payload event_id now later db ≡ none =
            rw taken refl in
          absurd (cc (refused, h))
      | inr free ↦
          let grown : TaskDb = record db { tasks = db.tasks ++ (row ∷ []) } in
          let event : TaskEvent = record {
            task_id = row.id;
            event_id = event_id;
            source = server;
            kind = task_created;
            seq = none;
            payload = some (or_else payload Payload.empty);
            occurred_at = now;
            created_at = later;
          } in
          elim (insert_event_lem event grown) [
            | inl none_ ↦
                let refused : Store.create_task row payload event_id now later db ≡ none =
                  rw (free, none_) refl in
                absurd (cc (refused, h))
            | inr (some_, new) ↦
                let there : Store.create_task row payload event_id now later db
                    ≡ some (record grown { events = db.events ++ (event ∷ []) }) =
                  rw (free, some_) refl in
                let same : some db' ≡ some (record grown { events = db.events ++ (event ∷ []) }) =
                  sym h ∙ there in
                ap tasks_of same
          ]
    ]
