-- ===== src/Tests/Tasks.antt =====
-- The tasks at concrete inputs.
use amby.Common.{
  ℕ, ◌<◌, ◌≡◌, ◌⊎◌, ◌↔◌, refl, true, false, Option, none, some, List, [], ◌∷◌, map, inl, is_some,
  or_else, head?,
}
use amby.Common.Text.{Text, lit, text_eq, starts_with, trim, is_space}
use amby.Tasks.Status
use amby.Tasks.Status.{Status, stage, is_legal_transition}
use amby.Tasks.Rows.{Task, TaskRuntime, TaskProvider, TaskDb}
use amby.Tasks.Store
use amby.Tasks.Store.{Progress, TaskCompletion, TerminalStatus, merge_runtime_data, lookup}
use amby.Tasks.Store.RuntimeData
use amby.Tasks.Callback
use amby.Tasks.Callback.{Body, Request, Platform, ExecutionData, accept}
use amby.Tasks.Callback.Auth
use amby.Tasks.Callback.Auth.{IsAdmitted}
use amby.Tasks.Callback.Once
use amby.Tasks.Runs.{Evolve}
use amby.Tasks.Runs.Writes
use amby.Tasks.Runs.Writes.{Write, run, IsOrderly}

abbrev task : Task
task = record {
  id = lit "t1";
  user_id = lit "u";
  runtime = TaskRuntime.sandbox;
  provider = TaskProvider.codex;
  status = Status.preparing;
  thread_id = none;
  trace_id = none;
  parent_task_id = none;
  root_task_id = none;
  specialist = none;
  runner_kind = none;
  input = none;
  output = none;
  artifacts = none;
  confirmation_state = none;
  prompt = lit "p";
  requires_browser = false;
  runtime_data = some ((lit "a", lit "1") ∷ (lit "b", lit "2") ∷ []);
  output_summary = none;
  error = none;
  exit_code = none;
  started_at = none;
  heartbeat_at = none;
  completed_at = none;
  created_at = 1;
  updated_at = 1;
  metadata = none;
  conversation_id = none;
  reply_target = none;
  callback_id = some (lit "c1");
  callback_secret_hash = some (lit "s");
  last_event_seq = 0;
  last_event_at = none;
  last_probe_at = none;
  notified_status = none;
  last_notification_at = none;
}

abbrev db : TaskDb
db = record { tasks = task ∷ []; events = [] }

abbrev body : Body
body = record {
  event_id = lit "e1";
  event_type = lit "task.completed";
  task_id = lit "t1";
  status = none;
  message = some (lit "ok");
  seq = some 3;
  exit_code = none;
  sent_at = none;
  payload = none;
}

-- The token is its own hash and the signature the body itself; any body reads as the one above.
abbrev platform : Platform
platform = record {
  hash_secret = λ t. t;
  verify_signature = λ raw secret timestamp signature. text_eq raw signature;
  parse_number = λ t. some 1000;
  parse_body = λ t. some body;
}

abbrev request : Request
request = record {
  callback_id = some (lit "c1");
  timestamp = some (lit "1000");
  signature = some (lit "{}");
  authorization = some (lit "Bearer s");
  body = lit "{}";
}

is_legal_transition-stage_example :
    (is_legal_transition Status.running Status.preparing ≡ true)
    ↔ ((Status.running ≡ Status.preparing) ⊎ (stage Status.running < stage Status.preparing))
is_legal_transition-stage_example = Status.is_legal_transition-stage Status.running Status.preparing

-- The task is completed by a callback, and later reports change nothing.
abbrev writes : List (ℕ × (ℕ × Write))
writes =
    (
      10,
      (
        11,
        Write.append_progress_event
            (record {
              task_id = lit "t1";
              source = none;
              kind = none;
              seq = 1;
              payload = none;
              occurred_at = none;
              status = some Status.running;
            })
            (lit "f1"),
      ),
    )
    ∷ (20, (21, Write.callback task body none))
    ∷ (
      30,
      (
        31,
        Write.complete_task
            (record {
              task_id = lit "t1";
              status = TerminalStatus.lost;
              output = none;
              artifacts = none;
              summary = [];
              error = none;
              exit_code = none;
              runtime_data = none;
              payload = none;
            })
            (lit "f2"),
      ),
    )
    ∷ []

run-Evolve_example : Evolve db.tasks (run writes db).tasks
run-Evolve_example = Writes.run-Evolve writes db (tt, (inl refl, (tt, tt)))

handle_task_event_post-IsAdmitted_example :
    ((Callback.handle_task_event_post platform 1200 request none db).0 ≡ db)
    ⊎ ((t : Task) × (b : Body) × (Callback.handle_task_event_post platform 1200 request none db
          ≡ accept t b none 1200 db)
        × IsAdmitted platform 1200 request db t b)
handle_task_event_post-IsAdmitted_example =
    Auth.handle_task_event_post-IsAdmitted platform 1200 request none db

handle_task_event_post-once_example :
    ((Callback.handle_task_event_post platform 1200 request none db).0 ≡ db)
    ⊎ ((Callback.handle_task_event_post platform 9000 request none
          (Callback.handle_task_event_post platform 1200 request none db).0).0
        ≡ (Callback.handle_task_event_post platform 1200 request none db).0)
handle_task_event_post-once_example =
    Once.handle_task_event_post-once platform request 1200 9000 none none db

-- This request is accepted.
accepted :
    map
      (λ (t : Task). t.status)
      (Callback.handle_task_event_post platform 1200 request none db).0.tasks
    ≡ Status.succeeded ∷ []
unfolding Callback.handle_task_event_post Callback.admit Callback.check_task Callback.accept
    Callback.normalize_event_kind Callback.report_event Callback.patched Callback.bumped
    Callback.map_harness_event_to_status Callback.completed_row Store.update_where
    Store.insert_event is_legal_transition text_eq starts_with trim is_space
accepted = refl

abbrev change : List (Text × Option Text)
change = (lit "b", none) ∷ (lit "a", some (lit "5")) ∷ []

merge_runtime_data_example :
    (lookup (lit "b") (or_else (merge_runtime_data task.runtime_data change) [])
      ≡ (elim (lookup (lit "b") change) [
        | none ↦ lookup (lit "b") (or_else task.runtime_data [])
        | some w ↦ w
      ]))
    × (is_some (merge_runtime_data task.runtime_data change)
        ≡ is_some (head? (or_else (merge_runtime_data task.runtime_data change) [])))
unfolding text_eq
merge_runtime_data_example =
    RuntimeData.merge_runtime_data_lem (lit "b") task.runtime_data change (refl, (refl, tt))
