-- ===== src/Execution/Reducer.antt =====
-- packages/agent/src/execution/reducer.ts: the summary of an execution. `string_ids` reads the
-- strings of an array under a key of a JSON object.
use amby.Common.{
  ◌≡◌, ◌↔◌, refl, Bool, true, false, Option, none, some, List, [], ◌∷◌, ◌++◌, map, any, filter, All,
  arith, if◌then◌else◌,
}
use amby.Common.Text.{Text, lit}
use amby.Execution.Tasks.{
  ExecutionTaskResult, ResultStatus, SpecialistKind, conversation, planner, research, builder,
  integration, computer, browser, memory, settings, validator, ExecutionMode,
}

abbrev pub specialist_name : SpecialistKind → Text
specialist_name conversation = lit "conversation"
specialist_name planner = lit "planner"
specialist_name research = lit "research"
specialist_name builder = lit "builder"
specialist_name integration = lit "integration"
specialist_name computer = lit "computer"
specialist_name browser = lit "browser"
specialist_name memory = lit "memory"
specialist_name settings = lit "settings"
specialist_name validator = lit "validator"

abbrev pub summarize_task : ExecutionTaskResult → Text
summarize_task r = specialist_name r.specialist ++ lit ": " ++ r.summary

-- `join(" | ")`.
abbrev pub join_texts : List Text → Text
join_texts [] = []
join_texts (t ∷ []) = t
join_texts (t ∷ u ∷ ts) = t ++ lit " | " ++ join_texts (u ∷ ts)

-- The status of a background task is always "running" and is left out.
abbrev pub collect_background_tasks : List ExecutionTaskResult → List (Text × Text)
collect_background_tasks [] = []
collect_background_tasks (r ∷ rs) =
    let rest = collect_background_tasks rs in
    elim r.background_ref [ none ↦ rest | some ref ↦ ref ∷ rest ]

pub data SummaryStatus : Type 0 where
  completed partial failed : SummaryStatus

pub record ExecutionSummary : Type 0 where
  pub mode : ExecutionMode
  pub status : SummaryStatus
  pub summary : Text
  pub task_results : List ExecutionTaskResult
  pub background_tasks : List (Text × Text)
  pub memories_saved : List Text
  pub scheduled_jobs : List Text
  pub external_writes : List Text

abbrev pub is_failed : ExecutionTaskResult → Bool
is_failed r = elim r.status [ ResultStatus.failed ↦ true | _ ↦ false ]

abbrev pub is_partial : ExecutionTaskResult → Bool
is_partial r = elim r.status [
  | ResultStatus.partial ↦ true
  | ResultStatus.escalate ↦ true
  | _ ↦ false
]

abbrev pub is_memory : ExecutionTaskResult → Bool
is_memory r = elim r.specialist [ memory ↦ true | _ ↦ false ]

abbrev pub is_settings : ExecutionTaskResult → Bool
is_settings r = elim r.specialist [ settings ↦ true | _ ↦ false ]

abbrev pub is_integration : ExecutionTaskResult → Bool
is_integration r = elim r.specialist [ integration ↦ true | _ ↦ false ]

abbrev pub all_tasks :
    List ExecutionTaskResult → Option ExecutionTaskResult → List ExecutionTaskResult
all_tasks results none = results
all_tasks results (some verdict) = results ++ (verdict ∷ [])

-- The ids under a key of the data of each result.
abbrev pub ids_under : (Text → Text → List Text) → Text → List ExecutionTaskResult → List Text
ids_under string_ids key [] = []
ids_under string_ids key (r ∷ rs) =
    let rest = ids_under string_ids key rs in
    elim r.data_ [ none ↦ rest | some value ↦ string_ids key value ++ rest ]

unfoldable pub build_execution_summary :
    (Text → Text → List Text)
    → ExecutionMode
    → List ExecutionTaskResult
    → Option ExecutionTaskResult
    → ExecutionSummary
build_execution_summary string_ids mode results verdict =
    let all = all_tasks results verdict in
    record {
      mode = mode;
      status =
          if any is_failed all
          then SummaryStatus.failed
          else (if any is_partial all then SummaryStatus.partial else SummaryStatus.completed);
      summary = elim all [
        | [] ↦ lit "Answered directly."
        | r ∷ rs ↦ join_texts (map summarize_task (r ∷ rs))
      ];
      task_results = all;
      background_tasks = collect_background_tasks all;
      memories_saved = ids_under string_ids (lit "memoryIds") (filter is_memory all);
      scheduled_jobs = ids_under string_ids (lit "scheduledJobIds") (filter is_settings all);
      external_writes = map (λ (r : ExecutionTaskResult). r.summary) (filter is_integration all);
    }

All-completed :
    (rs : List ExecutionTaskResult)
    → ((any is_failed rs ≡ false) × (any is_partial rs ≡ false))
      ↔ All (λ r. r.status ≡ ResultStatus.completed) rs
All-completed [] = ((λ h. tt), (λ h. (refl, refl)))
All-completed (r ∷ rs) = ground (arith, All-completed rs)

-- An execution is summed up as completed exactly if every task and the verdict of the validator,
-- if there is one, completed, and as failed exactly if one of them failed.
pub build_execution_summary_lem :
    (string_ids : Text → Text → List Text) (mode : ExecutionMode)
    (results : List ExecutionTaskResult) (verdict : Option ExecutionTaskResult)
    → (((build_execution_summary string_ids mode results verdict).status ≡ SummaryStatus.completed)
        ↔ All (λ r. r.status ≡ ResultStatus.completed) (all_tasks results verdict))
      × (((build_execution_summary string_ids mode results verdict).status ≡ SummaryStatus.failed)
          ↔ (any is_failed (all_tasks results verdict) ≡ true))
unfolding build_execution_summary
build_execution_summary_lem string_ids mode results verdict =
    let all = all_tasks results verdict in (ground (arith, All-completed all), ground arith)
