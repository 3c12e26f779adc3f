-- ===== src/Tasks/Queries.antt =====
-- packages/db/src/repositories/task-store-live.ts: the operations that read. Rows come in the order
-- of the table where the query names none.
use amby.Common.{
  ℕ, Bool, true, false, not, ◌&&◌, ◌||◌, Option, none, some, List, [], ◌∷◌, map, filter, find?,
  take, length, ltb, leb, ◌==◌, if◌then◌else◌, is_some,
}
use amby.Common.Text.{Text, text_eq}
use amby.Tasks.Status.{Status, preparing, running, same_status, is_terminal}
use amby.Tasks.Rows.{Task, sandbox, TaskEvent, TaskDb}

-- The newest first, and of those at one time the one that was inserted last.
abbrev pub is_later : TaskEvent → TaskEvent → Bool
is_later e f =
    ltb f.occurred_at e.occurred_at
    || (e.occurred_at == f.occurred_at && ltb f.created_at e.created_at)

unfoldable pub insert_sorted : TaskEvent → List TaskEvent → List TaskEvent
insert_sorted e [] = e ∷ []
insert_sorted e (f ∷ es) =
    let rest = insert_sorted e es in if is_later f e then f ∷ rest else e ∷ f ∷ es

unfoldable pub sort_events : List TaskEvent → List TaskEvent
unfolding insert_sorted
sort_events [] = []
sort_events (e ∷ es) = insert_sorted e (sort_events es)

unfoldable pub list_recent_events : Text → ℕ → TaskDb → List TaskEvent
unfolding sort_events
list_recent_events task_id limit db =
    take limit (sort_events (filter (λ e. text_eq e.task_id task_id) db.events))

unfoldable pub get_by_id : Text → TaskDb → Option Task
get_by_id task_id db = find? (λ t. text_eq t.id task_id) db.tasks

unfoldable pub get_by_id_and_user : Text → Text → TaskDb → Option Task
get_by_id_and_user task_id user_id db =
    find? (λ t. text_eq t.id task_id && text_eq t.user_id user_id) db.tasks

abbrev pub is_sandbox : Task → Bool
is_sandbox t = elim t.runtime [ sandbox ↦ true | _ ↦ false ]

abbrev pub is_active_status : Status → Bool
is_active_status status = same_status status preparing || same_status status running

unfoldable pub count_active_sandbox_tasks : Text → TaskDb → ℕ
count_active_sandbox_tasks user_id db =
    length (
      filter (λ t. text_eq t.user_id user_id && is_sandbox t && is_active_status t.status) db.tasks)

unfoldable pub find_running_sandbox_tasks : TaskDb → List Task
find_running_sandbox_tasks db = filter (λ t. same_status t.status running && is_sandbox t) db.tasks

unfoldable pub find_stale_preparing_sandbox_tasks : ℕ → TaskDb → List (Text × Option Text)
find_stale_preparing_sandbox_tasks cutoff db =
    map (λ (t : Task). (t.id, t.trace_id))
      (filter (λ t. same_status t.status preparing && is_sandbox t && leb t.created_at cutoff)
        db.tasks)

-- `SELECT DISTINCT`.
unfoldable pub distinct : List Text → List Text
distinct [] = []
distinct (a ∷ l) = let rest = distinct l in a ∷ filter (λ b. not (text_eq a b)) rest

unfoldable pub find_active_task_user_ids : TaskDb → List Text
unfolding distinct
find_active_task_user_ids db = distinct (
    map (λ (t : Task). t.user_id)
      (filter (λ t. is_sandbox t && is_active_status t.status) db.tasks))

-- No heartbeat yet, or one before the time.
abbrev pub is_stale : ℕ → Option ℕ → Bool
is_stale stale_before none = true
is_stale stale_before (some at) = ltb at stale_before

unfoldable pub find_stale_sandbox_tasks : ℕ → TaskDb → List Task
find_stale_sandbox_tasks stale_before db =
    filter (λ t. is_sandbox t && is_active_status t.status && is_stale stale_before t.heartbeat_at)
      db.tasks

-- The status of which the user was told is not the present one.
abbrev pub is_untold : Option Status → Status → Bool
is_untold none status = true
is_untold (some told) status = not (same_status told status)

unfoldable pub find_pending_notifications : TaskDb → List Task
find_pending_notifications db =
    filter
      (λ t. is_terminal t.status && is_some t.reply_target && is_untold t.notified_status t.status)
      db.tasks
