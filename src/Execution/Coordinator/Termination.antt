-- ===== src/Execution/Coordinator/Termination.antt =====
-- The number of rounds of the loop of packages/agent/src/execution/coordinator.ts.
use amby.Common.{
  ℕ, zero, suc, ◌≤◌, ◌<◌, ◌≡◌, ◌≢◌, ◌⊎◌, refl, subst, inl, inr, Bool, true, false, Option, none,
  some, List, [], ◌∷◌, map, any, filter, length, arith, All, All-imp, All-filter, Bool-cases,
  Option-cases,
}
use amby.Common.Text.{Text, text_eq, text_eq_refl}
use amby.Execution.Tasks.{ExecutionTask, ExecutionTaskResult, Results, put, ExecutionMode}
use amby.Execution.Batch.{build_ready_batch, is_ready, locks_of}
use amby.Execution.Batch.Exclusion.{fill_batch-All}
use amby.Execution.Coordinator.{
  Progress, find_blocking_dependency, build_blocked_dependency_result, remove_task, sweep, settle,
  run_all, runnable, Outcome, out_of_fuel, is_parallel, run_tasks, run_batch, round, Round, again,
  stopped,
}

-- A task with the id is pending.
abbrev pub has_id : Text → List ExecutionTask → Bool
has_id id ts = any (λ t. text_eq t.id id) ts

length-remove_task-le :
    (id : Text) (ts : List ExecutionTask) → length (remove_task id ts) ≤ length ts
length-remove_task-le id [] = omega arith
length-remove_task-le id (t ∷ ts) = ground (arith, length-remove_task-le id ts)

length-remove_task-lt :
    (id : Text) (ts : List ExecutionTask)
    → has_id id ts ≡ true
    → length (remove_task id ts) < length ts
length-remove_task-lt id [] h = absurd (cc h)
length-remove_task-lt id (t ∷ ts) h = ground (arith, length-remove_task-lt id ts)

length-sweep-le :
    (trace : Text) (tasks : List ExecutionTask) (p : Progress) (found : Bool)
    → length (sweep trace tasks p found).0.pending ≤ length p.pending
unfolding sweep
length-sweep-le trace [] p found = omega arith
length-sweep-le trace (t ∷ tasks) p found =
    elim (Option-cases (find_blocking_dependency t p.completed)) [
      | inl e ↦ rw (e, sweep) (length-sweep-le trace tasks p found)
      | inr (b, e) ↦
          rw (e, sweep)
            (omega (
              arith,
              length-sweep-le trace tasks
                  (record {
                    pending = remove_task t.id p.pending;
                    completed = put t.id (build_blocked_dependency_result t b trace) p.completed;
                  })
                  true,
              length-remove_task-le t.id p.pending,
            ))
    ]

sweep_found :
    (trace : Text) (tasks : List ExecutionTask) (p : Progress) → (sweep trace tasks p true).1 ≡ true
unfolding sweep
sweep_found trace [] p = refl
sweep_found trace (t ∷ tasks) p = elim (Option-cases (find_blocking_dependency t p.completed)) [
  | inl e ↦ rw (e, sweep) (sweep_found trace tasks p)
  | inr (b, e) ↦ rw (e, sweep) (sweep_found trace tasks _)
]

-- If the sweep finds a blocked task, it takes one off; if not, it changes nothing.
length-sweep-lt :
    (trace : Text) (tasks : List ExecutionTask) (p : Progress)
    → All (λ t. has_id t.id p.pending ≡ true) tasks
    → (sweep trace tasks p false ≡ (p, false))
      ⊎ ((sweep trace tasks p false).1 ≡ true)
        × (length (sweep trace tasks p false).0.pending < length p.pending)
unfolding sweep
length-sweep-lt trace [] p h = inl refl
length-sweep-lt trace (t ∷ tasks) p (m, h) =
    elim (Option-cases (find_blocking_dependency t p.completed)) [
      | inl e ↦ rw (e, sweep) (length-sweep-lt trace tasks p h)
      | inr (b, e) ↦
          let p' : Progress = record {
            pending = remove_task t.id p.pending;
            completed = put t.id (build_blocked_dependency_result t b trace) p.completed;
          } in
          inr (
            rw (e, sweep) (sweep_found trace tasks p'),
            rw (e, sweep)
                (omega (
                  arith,
                  length-sweep-le trace tasks p' true,
                  length-remove_task-lt t.id p.pending m,
                )),
          )
    ]

length-settle-le :
    (rs : List ExecutionTaskResult) (p : Progress) → length (settle rs p).pending ≤ length p.pending
unfolding settle
length-settle-le [] p = omega arith
length-settle-le (r ∷ rs) p = omega (
  arith,
  length-settle-le rs (record {
    pending = remove_task r.task_id p.pending;
    completed = put r.task_id r p.completed;
  }),
  length-remove_task-le r.task_id p.pending,
)

-- The pending tasks are pending.
pub pending_ids : (ts : List ExecutionTask) → All (λ t. has_id t.id ts ≡ true) ts
pending_ids [] = tt
pending_ids (t ∷ ts) = (
  rw (text_eq_refl t.id) refl,
  All-imp (λ u. has_id u.id ts ≡ true) (λ u. has_id u.id (t ∷ ts) ≡ true) (λ u h. ground (arith, h))
      ts (pending_ids ts),
)

batch_ids :
    (pending : List ExecutionTask) (completed : Results) (in_flight : List ExecutionTask)
    (limit : ℕ)
    → All (λ t. has_id t.id pending ≡ true) (build_ready_batch pending completed in_flight limit)
unfolding build_ready_batch
batch_ids pending completed in_flight limit =
    let active = locks_of in_flight in
    let P : ExecutionTask → Type 0 = λ t. has_id t.id pending ≡ true in
    fill_batch-All P limit active [] (filter (is_ready completed active) pending) tt
      (All-filter P (is_ready completed active) pending (pending_ids pending))

-- A round goes on with fewer tasks, or stops with an outcome.
abbrev Shrinks : ℕ → Round → Type 0
Shrinks n (again p) = length p.pending < n
Shrinks n (stopped outcome) = outcome ≢ out_of_fuel

module _ (run : ExecutionTask → Option ExecutionTaskResult)
    (ids : (t : ExecutionTask) (r : ExecutionTaskResult) → run t ≡ some r → r.task_id ≡ t.id) where
  ran : Progress → Option (List ExecutionTaskResult) → Round
  ran p none = stopped Outcome.threw
  ran p (some results) = again (settle results p)

  head-Shrinks :
      (p : Progress) (t : ExecutionTask) (tasks : List ExecutionTask)
      → has_id t.id p.pending ≡ true
      → Shrinks (length p.pending) (ran p (run_all run (t ∷ tasks)))
  unfolding ran run_all
  head-Shrinks p t tasks m = elim (Option-cases (run t)) [
    | inl e ↦ rw (run_all, e) (λ h. cc h)
    | inr (r, e) ↦ elim (Option-cases (run_all run tasks)) [
      | inl f ↦ rw (run_all, e, f) (λ h. cc h)
      | inr (rs, f) ↦
          let first : has_id r.task_id p.pending ≡ true = rw (ids t r e) m in
          let p' : Progress = record {
            pending = remove_task r.task_id p.pending;
            completed = put r.task_id r p.completed;
          } in
          rw (run_all, e, f)
            (unfold settle in
              omega
                (arith, length-settle-le rs p', length-remove_task-lt r.task_id p.pending first))
    ]
  ]

  batch-Shrinks :
      (strategy : ExecutionMode) (p : Progress) (batch : List ExecutionTask)
      → All (λ t. has_id t.id p.pending ≡ true) batch
      → Shrinks (length p.pending) (run_batch run strategy p batch)
  unfolding run_batch ran runnable
  batch-Shrinks strategy p [] h = λ e. cc e
  batch-Shrinks strategy p (first ∷ rest) (m, h) = elim (Bool-cases (is_parallel strategy)) [
    | inl e ↦
        rw (run_batch, e)
          (head-Shrinks p (runnable p.completed first) (map (runnable p.completed) rest) m)
    | inr e ↦ rw (run_batch, e) (head-Shrinks p (runnable p.completed first) [] m)
  ]

  round-Shrinks :
      (trace : Text) (strategy : ExecutionMode) (limit : ℕ) (p : Progress)
      → Shrinks (length p.pending) (round run trace strategy limit p)
  unfolding round
  round-Shrinks trace strategy limit p =
      elim (length-sweep-lt trace p.pending p (pending_ids p.pending)) [
        | inl e ↦ rw (round, e) (batch-Shrinks strategy p _ (batch_ids p.pending p.completed [] _))
        | inr (found, lt) ↦ rw (round, found) lt
      ]

pub Round-cases :
    (r : Round) → ((p : Progress) × (r ≡ again p)) ⊎ ((outcome : Outcome) × (r ≡ stopped outcome))
Round-cases (again p) = inl (p, refl)
Round-cases (stopped outcome) = inr (outcome, refl)

pub List-cases :
    (l : List ExecutionTask)
    → (l ≡ []) ⊎ ((t : ExecutionTask) × (ts : List ExecutionTask) × (l ≡ t ∷ ts))
List-cases [] = inl refl
List-cases (t ∷ ts) = inr (t, ts, refl)

module _ (run : ℕ → ExecutionTask → Option ExecutionTaskResult)
    (ids : (n : ℕ) (t : ExecutionTask) (r : ExecutionTaskResult)
      → run n t ≡ some r
      → r.task_id ≡ t.id)
    (trace : Text) (strategy : ExecutionMode) (max_parallel_agents : ℕ) where
  -- If every result carries the id of its task, the loop ends within as many rounds as there are
  -- tasks: with all of them completed, blocked, or with an exception.
  pub run_tasks_ends :
      (fuel : ℕ) (p : Progress)
      → length p.pending ≤ fuel
      → run_tasks run trace strategy max_parallel_agents fuel p ≢ out_of_fuel
  unfolding run_tasks
  run_tasks_ends zero p h = ground (arith, h)
  run_tasks_ends (suc fuel) p h = elim (List-cases p.pending) [
    | inl e ↦ rw (run_tasks, e) (λ x. cc x)
    | inr (t, ts, e) ↦
        let shrinks = round-Shrinks (run fuel) (ids fuel) trace strategy max_parallel_agents p in
        elim (Round-cases (round (run fuel) trace strategy max_parallel_agents p)) [
          | inl (p', f) ↦
              let lt : length p'.pending < length p.pending =
                subst (Shrinks (length p.pending)) f shrinks in
              rw (run_tasks, e, f) (run_tasks_ends fuel p' (omega (arith, lt, h)))
          | inr (o, f) ↦ rw (run_tasks, e, f) (subst (Shrinks (length p.pending)) f shrinks)
        ]
  ]
