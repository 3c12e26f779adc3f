-- ===== src/Execution/Batch.antt =====
-- packages/agent/src/execution/locks.ts: the tasks that may run at once.
pub mod Exclusion
use amby.Common.{
  ℕ, zero, suc, Bool, true, false, not, ◌&&◌, Option, none, some, List, [], ◌∷◌, ◌++◌, any, all,
  filter, length, leb, if◌then◌else◌,
}
use amby.Common.Text.{Text, text_eq}
use amby.Execution.Tasks.{
  ExecutionTask, ExecutionTaskResult, ResultStatus, failed, escalate, Results, get,
}
use amby.Execution.Locks.{locks_conflict}

unfoldable pub locks_of : List ExecutionTask → List Text
locks_of [] = []
locks_of (t ∷ ts) = t.resource_locks ++ locks_of ts

unfoldable pub task_conflicts : ExecutionTask → List Text → Bool
task_conflicts task active =
    any (λ lock. any (λ other. locks_conflict lock other) active) task.resource_locks

abbrev pub is_blocking : ResultStatus → Bool
is_blocking failed = true
is_blocking escalate = true
is_blocking _ = false

abbrev pub dependency_allows_execution : Option ExecutionTaskResult → Bool
dependency_allows_execution none = false
dependency_allows_execution (some result) = not (is_blocking result.status)

abbrev pub is_ready : Results → List Text → ExecutionTask → Bool
is_ready completed active task =
    all (λ id. dependency_allows_execution (get id completed)) task.dependencies
    && not (task_conflicts task active)

-- The loop over the ready tasks, with the batch that it has so far.
unfoldable pub fill_batch :
    ℕ → List Text → List ExecutionTask → List ExecutionTask → List ExecutionTask
unfolding task_conflicts locks_of
fill_batch limit active batch [] = batch
fill_batch limit active batch (task ∷ ready) =
    let skipped = fill_batch limit active batch ready in
    let taken = fill_batch limit active (batch ++ (task ∷ [])) ready in
    if leb limit (length batch)
    then batch
    else (if task_conflicts task (active ++ locks_of batch) then skipped else taken)

unfoldable pub build_ready_batch :
    List ExecutionTask → Results → List ExecutionTask → ℕ → List ExecutionTask
unfolding fill_batch locks_of task_conflicts
build_ready_batch pending completed in_flight max_parallel_agents =
    let active = locks_of in_flight in
    fill_batch max_parallel_agents active [] (filter (is_ready completed active) pending)
