-- ===== src/Tests/Execution.antt =====
-- The execution of a plan at concrete inputs.
use amby.Common.{
  ℕ, ◌≤◌, ◌≡◌, ◌≢◌, ◌↔◌, refl, sym, ap, true, false, Option, none, some, List, [], ◌∷◌, map, any,
  length, All, arith, is_some,
}
use amby.Common.Text.{Text, lit, text_eq, starts_with, trim, is_space}
use amby.Execution.Tasks.{
  ExecutionTask, ExecutionTaskResult, ResultStatus, SpecialistKind, RunnerKind, ExecutionMode,
  Results, get,
}
use amby.Execution.Locks.{
  locks_conflict, normalize_path, paths_overlap, parse_lock, parsed_conflict, collapse,
  ends_with_slash, drop_last,
}
use amby.Execution.Batch.{build_ready_batch, locks_of, is_ready, fill_batch, task_conflicts}
use amby.Execution.Batch.Exclusion
use amby.Execution.Batch.Exclusion.{IsExclusive}
use amby.Execution.Coordinator.{
  Progress, Outcome, finished, run_tasks, round, run_batch, run_all, runnable, settle, sweep,
  input_bindings_of,
}
use amby.Execution.Coordinator.Termination
use amby.Execution.Coordinator.Completeness
use amby.Execution.Reducer
use amby.Execution.Reducer.{build_execution_summary, SummaryStatus, all_tasks}

abbrev task : Text → List Text → List Text → ExecutionTask
task id dependencies locks = record {
  id = id;
  root_task_id = lit "r";
  parent_task_id = none;
  depth = 1;
  spawned_by_specialist = none;
  specialist = SpecialistKind.builder;
  runner_kind = RunnerKind.toolloop;
  mode = ExecutionMode.parallel;
  input = lit "{}";
  dependencies = dependencies;
  input_bindings = [];
  resource_locks = locks;
  mutates = true;
  writes_external = false;
  requires_confirmation = false;
  requires_validation = false;
}

abbrev tasks : List ExecutionTask
tasks =
    task (lit "a") [] (lit "fs-write:/x" ∷ [])
    ∷ task (lit "b") [] (lit "fs-read:/x/y" ∷ [])
    ∷ task (lit "c") (lit "a" ∷ []) []
    ∷ []

-- Every task completes.
abbrev result_of : ExecutionTask → ExecutionTaskResult
result_of t = record {
  task_id = t.id;
  root_task_id = t.root_task_id;
  parent_task_id = none;
  depth = 1;
  specialist = t.specialist;
  status = ResultStatus.completed;
  summary = lit "done";
  data_ = none;
  artifacts = none;
  issues = none;
  metrics = none;
  runtime_data = none;
  trace_id = lit "t";
  background_ref = none;
}

abbrev run_one : ℕ → ExecutionTask → Option ExecutionTaskResult
run_one n t = some (result_of t)

abbrev start : Progress
start = record { pending = tasks; completed = [] }

conflicting : locks_conflict (lit "fs-write:/x/") (lit "fs-read://x//y") ≡ true
unfolding locks_conflict normalize_path paths_overlap parse_lock parsed_conflict collapse
    ends_with_slash drop_last text_eq starts_with trim is_space
conflicting = refl

-- The root is taken to overlap only itself.
root_is_alone : locks_conflict (lit "fs-write:/") (lit "fs-write:/x") ≡ false
unfolding locks_conflict normalize_path paths_overlap parse_lock parsed_conflict collapse
    ends_with_slash drop_last text_eq starts_with trim is_space
root_is_alone = refl

build_ready_batch_example :
    IsExclusive (locks_of []) (build_ready_batch tasks [] [] 2)
    × All (λ t. is_ready [] (locks_of []) t ≡ true) (build_ready_batch tasks [] [] 2)
    × (length (build_ready_batch tasks [] [] 2) ≤ 2)
build_ready_batch_example = Exclusion.build_ready_batch_lem tasks [] [] 2

-- The writer and the reader below its path do not run together, and the third task waits.
first_batch : map (λ (t : ExecutionTask). t.id) (build_ready_batch tasks [] [] 2) ≡ lit "a" ∷ []
unfolding build_ready_batch fill_batch task_conflicts locks_of locks_conflict normalize_path
    paths_overlap parse_lock parsed_conflict collapse ends_with_slash drop_last text_eq starts_with
    trim is_space
first_batch = refl

same_id :
    (n : ℕ) (t : ExecutionTask) (r : ExecutionTaskResult) → run_one n t ≡ some r → r.task_id ≡ t.id
same_id n t r e =
    let same : result_of t ≡ r = cc e in ap (λ (x : ExecutionTaskResult). x.task_id) (sym same)

run_tasks_ends_example :
    run_tasks run_one (lit "t") ExecutionMode.parallel 2 3 start ≢ Outcome.out_of_fuel
run_tasks_ends_example =
    Termination.run_tasks_ends run_one same_id (lit "t") ExecutionMode.parallel 2 3 start
      (omega arith)

abbrev outcome_results : Outcome → Results
outcome_results (Outcome.finished results) = results
outcome_results _ = []

finishes :
    run_tasks run_one (lit "t") ExecutionMode.parallel 2 3 start
    ≡ finished (outcome_results (run_tasks run_one (lit "t") ExecutionMode.parallel 2 3 start))
unfolding run_tasks round run_batch run_all runnable settle sweep input_bindings_of
    build_ready_batch fill_batch task_conflicts locks_of locks_conflict normalize_path paths_overlap
    parse_lock parsed_conflict collapse ends_with_slash drop_last text_eq starts_with trim is_space
finishes = refl

run_tasks_completes_example :
    All
      (λ t.
        is_some (
          get t.id (outcome_results (run_tasks run_one (lit "t") ExecutionMode.parallel 2 3 start)))
        ≡ true)
      start.pending
run_tasks_completes_example =
    Completeness.run_tasks_completes run_one (lit "t") ExecutionMode.parallel 2 3 start _ finishes

abbrev failed_result : ExecutionTaskResult
failed_result = record (result_of (task (lit "a") [] [])) { status = ResultStatus.failed }

build_execution_summary_example :
    let summary =
      build_execution_summary
        (λ key value. [])
        ExecutionMode.parallel
        (result_of (task (lit "b") [] []) ∷ failed_result ∷ [])
        none in
    ((summary.status ≡ SummaryStatus.completed)
      ↔ All
          (λ r. r.status ≡ ResultStatus.completed)
          (all_tasks (result_of (task (lit "b") [] []) ∷ failed_result ∷ []) none))
    × ((summary.status ≡ SummaryStatus.failed) ↔ (
        any Reducer.is_failed
          (all_tasks (result_of (task (lit "b") [] []) ∷ failed_result ∷ []) none)
        ≡ true))
build_execution_summary_example =
    Reducer.build_execution_summary_lem (λ key value. []) ExecutionMode.parallel
      (result_of (task (lit "b") [] []) ∷ failed_result ∷ []) none
