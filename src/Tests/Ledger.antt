-- ===== src/Tests/Ledger.antt =====
-- The ledger at concrete inputs.
use amby.Common.{ℕ, ◌≡◌, refl, none, some, List, [], ◌∷◌, map}
use amby.Common.Text.{Text, lit, text_eq}
use amby.Tasks.Status.{Status}
use amby.Execution.Tasks.{SpecialistKind, ExecutionMode}
use amby.Ledger
use amby.Ledger.{Run, RunStatus, Runs, RunEvent, RunEventKind, EventPayload, is_of}
use amby.Ledger.Log
use amby.Ledger.Log.{Op, Represents, Log, apply_all, spec_all}

abbrev run : Text → Run
run id = record {
  id = id;
  conversation_id = lit "c";
  thread_id = none;
  message_id = none;
  parent_run_id = none;
  root_run_id = none;
  task_id = none;
  specialist = SpecialistKind.conversation;
  runner_kind = none;
  mode = ExecutionMode.direct;
  depth = 0;
  metadata = none;
  status = RunStatus.running;
  completed_at = none;
}

abbrev empty : Runs
empty = record { runs = []; events = [] }

abbrev ops : List (ℕ × Op)
ops =
    (1, Op.create_run (run (lit "a")))
    ∷ (2, Op.create_run (run (lit "b")))
    ∷ (
      3,
      Op.append_many (lit "a") (RunEventKind.context_built, EventPayload.given (lit "1"))
          ((RunEventKind.tool_call, EventPayload.given (lit "2")) ∷ []),
    )
    ∷ (4, Op.append_many (lit "b") (RunEventKind.error, EventPayload.given (lit "3")) [])
    ∷ (
      5,
      Op.append_terminal_event (record {
        trace_id = some (lit "a");
        task_id = lit "t";
        status = Status.lost;
        message = none;
        exit_code = none;
        reason = some (lit "r");
      }),
    )
    ∷ (6, Op.append_many (lit "z") (RunEventKind.error, EventPayload.given (lit "4")) [])
    ∷ []

apply_all-Represents_example :
    Represents (lit "a") (spec_all (lit "a") ops none) (apply_all ops empty)
unfolding Ledger.numbered
apply_all-Represents_example =
    Log.apply_all-Represents (lit "a") ops none empty (record { found = refl; events = refl })

-- The events of one run are numbered past those of the other.
numbers :
    map {B = Text × ℕ} (λ (e : RunEvent). (e.run_id, e.seq)) (apply_all ops empty).events
    ≡ (lit "a", 0) ∷ (lit "a", 1) ∷ (lit "b", 0) ∷ (lit "a", 2) ∷ []
unfolding apply_all Log.apply Ledger.create_run Ledger.insert_events Ledger.next_seq Ledger.last_seq
    Ledger.numbered Ledger.append_terminal_event Ledger.end_of_task Ledger.update_run text_eq
numbers = refl
