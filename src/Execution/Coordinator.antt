-- ===== src/Execution/Coordinator.antt =====
-- packages/agent/src/execution/coordinator.ts: the loop that runs the tasks of a plan. What running
-- one task gives is a parameter: `run` takes the number of the round that is left and the task,
-- and gives nothing where `runTaskWithTrace` throws.
pub mod Termination
pub mod Completeness
use amby.Common.{
  ℕ, zero, suc, Bool, true, false, Option, none, some, List, [], ◌∷◌, ◌++◌, map, or_else,
  if◌then◌else◌,
}
use amby.Common.Text.{Text, lit, text_eq}
use amby.Execution.Tasks.{
  ExecutionTask, ExecutionTaskResult, ResultStatus, failed, escalate, Results, get, put, Binding,
  given, summary_of, dependency, ExecutionMode, parallel,
}
use amby.Execution.Batch.{is_blocking, build_ready_batch}

-- The first dependency that failed or escalated.
abbrev pub find_blocking : List Text → Results → Option ExecutionTaskResult
find_blocking [] completed = none
find_blocking (id ∷ ids) completed = elim (get id completed) [
  | none ↦ find_blocking ids completed
  | some r ↦ if is_blocking r.status then some r else find_blocking ids completed
]

abbrev pub find_blocking_dependency : ExecutionTask → Results → Option ExecutionTaskResult
find_blocking_dependency task completed = find_blocking task.dependencies completed

unfoldable pub build_blocked_dependency_result :
    ExecutionTask → ExecutionTaskResult → Text → ExecutionTaskResult
build_blocked_dependency_result task blocking root_trace_id =
    let message =
      lit "Blocked by dependency " ++ blocking.task_id ++ lit ": " ++ blocking.summary in
    record {
      task_id = task.id;
      root_task_id = task.root_task_id;
      parent_task_id = task.parent_task_id;
      depth = task.depth;
      specialist = task.specialist;
      status = failed;
      summary = message;
      data_ = none;
      artifacts = none;
      issues = some (
          record {
            code = lit "blocked_dependency";
            message = message;
            metadata = some (dependency blocking.task_id blocking.status);
          }
          ∷ []);
      metrics = none;
      runtime_data = none;
      trace_id = root_trace_id;
      background_ref = none;
    }

-- `findIndex` by id, and `splice`.
abbrev pub remove_task : Text → List ExecutionTask → List ExecutionTask
remove_task id [] = []
remove_task id (t ∷ ts) = if text_eq t.id id then ts else t ∷ remove_task id ts

pub record Progress : Type 0 where
  pub pending : List ExecutionTask
  pub completed : Results

-- The pass over a copy of the pending tasks, and whether it found a blocked one.
unfoldable pub sweep : Text → List ExecutionTask → Progress → Bool → Progress × Bool
unfolding build_blocked_dependency_result
sweep trace [] p found = (p, found)
sweep trace (task ∷ tasks) p found = elim (find_blocking_dependency task p.completed) [
  | none ↦ sweep trace tasks p found
  | some blocking ↦
      sweep trace tasks
        (record {
          pending = remove_task task.id p.pending;
          completed = put task.id (build_blocked_dependency_result task blocking trace) p.completed;
        })
        true
]

abbrev pub put_binding : Text → Binding → List (Text × Binding) → List (Text × Binding)
put_binding key b [] = (key, b) ∷ []
put_binding key b ((k, a) ∷ l) = if text_eq k key then (k, b) ∷ l else (k, a) ∷ put_binding key b l

abbrev pub binding_of : ExecutionTaskResult → Binding
binding_of r = elim r.data_ [ none ↦ summary_of r.summary | some value ↦ given value ]

-- `Object.fromEntries` over the results of the dependencies.
unfoldable pub input_bindings_of :
    List Text → Results → List (Text × Binding) → List (Text × Binding)
input_bindings_of [] completed acc = acc
input_bindings_of (id ∷ ids) completed acc = elim (get id completed) [
  | none ↦ input_bindings_of ids completed acc
  | some r ↦ input_bindings_of ids completed (put_binding r.task_id (binding_of r) acc)
]

unfoldable pub runnable : Results → ExecutionTask → ExecutionTask
unfolding input_bindings_of
runnable completed task = record task {
  input_bindings = input_bindings_of task.dependencies completed [];
}

-- `Promise.all`: one that throws throws them all.
unfoldable pub run_all :
    (ExecutionTask → Option ExecutionTaskResult)
    → List ExecutionTask
    → Option (List ExecutionTaskResult)
run_all run [] = some []
run_all run (t ∷ ts) =
    let rest = run_all run ts in
    elim (run t) [ none ↦ none | some r ↦ elim rest [ none ↦ none | some rs ↦ some (r ∷ rs) ] ]

unfoldable pub settle : List ExecutionTaskResult → Progress → Progress
settle [] p = p
settle (r ∷ rs) p =
    settle rs (record {
      pending = remove_task r.task_id p.pending;
      completed = put r.task_id r p.completed;
    })

pub data Outcome : Type 0 where
  finished : Results → Outcome
  blocked : Outcome
  threw : Outcome
  out_of_fuel : Outcome

abbrev pub is_parallel : ExecutionMode → Bool
is_parallel parallel = true
is_parallel _ = false

-- Without `parallel` the batch has one task at most, and only the first is run.
abbrev pub chosen : ExecutionMode → ExecutionTask → List ExecutionTask → List ExecutionTask
chosen strategy first rest = if is_parallel strategy then first ∷ rest else first ∷ []

-- What a round comes to.
pub data Round : Type 0 where
  again : Progress → Round
  stopped : Outcome → Round

-- The batch of a round whose sweep found nothing.
unfoldable pub run_batch :
    (ExecutionTask → Option ExecutionTaskResult)
    → ExecutionMode
    → Progress
    → List ExecutionTask
    → Round
unfolding settle run_all runnable
run_batch run strategy p [] = stopped blocked
run_batch run strategy p (first ∷ rest) =
    elim (run_all run (map (runnable p.completed) (chosen strategy first rest))) [
      | none ↦ stopped threw
      | some results ↦ again (settle results p)
    ]

unfoldable pub round :
    (ExecutionTask → Option ExecutionTaskResult) → Text → ExecutionMode → ℕ → Progress → Round
unfolding sweep run_batch
round run trace strategy max_parallel_agents p =
    let (p', found) = sweep trace p.pending p false in
    if found
    then again p'
    else run_batch run strategy p' (
        build_ready_batch p'.pending p'.completed []
          (if is_parallel strategy then max_parallel_agents else 1))

module _ (run : ℕ → ExecutionTask → Option ExecutionTaskResult) (trace : Text)
    (strategy : ExecutionMode) (max_parallel_agents : ℕ) where
  -- `while (pending.length > 0)`, in at most as many rounds as there is fuel.
  unfoldable pub run_tasks : ℕ → Progress → Outcome
  unfolding round
  run_tasks zero p = elim p.pending [ [] ↦ finished p.completed | t ∷ ts ↦ out_of_fuel ]
  run_tasks (suc fuel) p = elim p.pending [
    | [] ↦ finished p.completed
    | t ∷ ts ↦ elim (round (run fuel) trace strategy max_parallel_agents p) [
      | again p' ↦ run_tasks fuel p'
      | stopped outcome ↦ outcome
    ]
  ]
