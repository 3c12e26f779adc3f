-- ===== src/Execution/Batch/Exclusion.antt =====
-- The locks of the tasks in a batch that `buildReadyBatch` makes (packages/agent/src/execution/locks.ts).
use amby.Common.{
  ℕ, ◌≤◌, ◌≡◌, sym, ap, ◌∙◌, inl, inr, true, false, List, [], ◌∷◌, ◌++◌, filter, length,
  length-append, leb, arith, All, All-append, Bool-cases, append_assoc, append-nil,
}
use amby.Common.Text.{Text}
use amby.Execution.Tasks.{ExecutionTask, Results}
use amby.Execution.Batch.{locks_of, task_conflicts, is_ready, fill_batch, build_ready_batch}

-- Each task conflicts with none of the active locks and with none of the tasks before it.
abbrev pub IsExclusive : List Text → List ExecutionTask → Type 0
IsExclusive active [] = Unit {0}
IsExclusive active (t ∷ ts) =
    (task_conflicts t active ≡ false) × IsExclusive (active ++ t.resource_locks) ts

IsExclusive-snoc :
    (active : List Text) (ts : List ExecutionTask) (t : ExecutionTask)
    → IsExclusive active ts
    → task_conflicts t (active ++ locks_of ts) ≡ false
    → IsExclusive active (ts ++ (t ∷ []))
unfolding locks_of
IsExclusive-snoc active [] t h c = (ap (task_conflicts t) (sym (append-nil active)) ∙ c, tt)
IsExclusive-snoc active (u ∷ ts) t (d, h) c = (
  d,
  IsExclusive-snoc (active ++ u.resource_locks) ts t h
      (ap (task_conflicts t) (append_assoc active u.resource_locks (locks_of ts)) ∙ c),
)

fill_batch-IsExclusive :
    (limit : ℕ) (active : List Text) (batch ready : List ExecutionTask)
    → IsExclusive active batch
    → IsExclusive active (fill_batch limit active batch ready)
unfolding fill_batch
fill_batch-IsExclusive limit active batch [] h = h
fill_batch-IsExclusive limit active batch (t ∷ ready) h =
    elim (Bool-cases (leb limit (length batch))) [
      | inl full ↦ rw full h
      | inr room ↦ elim (Bool-cases (task_conflicts t (active ++ locks_of batch))) [
        | inl c ↦ rw (room, c) (fill_batch-IsExclusive limit active batch ready h)
        | inr c ↦
            rw (room, c)
              (fill_batch-IsExclusive limit active (batch ++ (t ∷ [])) ready
                (IsExclusive-snoc active batch t h c))
      ]
    ]

pub fill_batch-All :
    (P : ExecutionTask → Type 0) (limit : ℕ) (active : List Text) (batch ready : List ExecutionTask)
    → All P batch
    → All P ready
    → All P (fill_batch limit active batch ready)
unfolding fill_batch
fill_batch-All P limit active batch [] h r = h
fill_batch-All P limit active batch (t ∷ ready) h (p, r) = ground (
  arith,
  fill_batch-All P limit active batch ready h r,
  fill_batch-All P limit active (batch ++ (t ∷ [])) ready (All-append P batch (t ∷ []) h (p, tt)) r,
)

length-fill_batch :
    (limit : ℕ) (active : List Text) (batch ready : List ExecutionTask)
    → length batch ≤ limit
    → length (fill_batch limit active batch ready) ≤ limit
unfolding fill_batch
length-fill_batch limit active batch [] h = h
length-fill_batch limit active batch (t ∷ ready) h = ground (
  arith,
  length-fill_batch limit active batch ready h,
  length-append batch (t ∷ []),
  length-fill_batch limit active (batch ++ (t ∷ [])) ready,
)

filter-All-is_ready :
    (completed : Results) (active : List Text) (ts : List ExecutionTask)
    → All (λ t. is_ready completed active t ≡ true) (filter (is_ready completed active) ts)
filter-All-is_ready completed active [] = tt
filter-All-is_ready completed active (t ∷ ts) =
    ground (arith, filter-All-is_ready completed active ts)

-- The tasks of a batch have no conflicting locks, neither with each other nor with the tasks in
-- flight; each depends only on tasks that completed and neither failed nor escalated; and there
-- are no more of them than may run at once.
pub build_ready_batch_lem :
    (pending : List ExecutionTask) (completed : Results) (in_flight : List ExecutionTask)
    (limit : ℕ)
    → IsExclusive (locks_of in_flight) (build_ready_batch pending completed in_flight limit)
      × All
          (λ t. is_ready completed (locks_of in_flight) t ≡ true)
          (build_ready_batch pending completed in_flight limit)
      × (length (build_ready_batch pending completed in_flight limit) ≤ limit)
unfolding build_ready_batch
build_ready_batch_lem pending completed in_flight limit =
    let active = locks_of in_flight in
    let ready = filter (is_ready completed active) pending in
    (
      fill_batch-IsExclusive limit active [] ready tt,
      fill_batch-All _ limit active [] ready tt (filter-All-is_ready completed active pending),
      length-fill_batch limit active [] ready (omega arith),
    )
