-- ===== src/Execution/Coordinator/Completeness.antt =====
-- The results at the end of the loop of packages/agent/src/execution/coordinator.ts.
use amby.Common.{
  ℕ, zero, suc, ◌≡◌, ◌≢◌, refl, sym, subst, ◌∙◌, inl, inr, Bool, true, false, ◌||◌, Option, some,
  List, [], ◌∷◌, map, arith, if◌then◌else◌, is_some, All, All-imp, Bool-cases, Option-cases,
}
use amby.Common.Text.{Text, text_eq, text_eq_iff}
use amby.Execution.Tasks.{ExecutionTask, ExecutionTaskResult, Results, get, put, ExecutionMode}
use amby.Execution.Coordinator.{
  Progress, find_blocking_dependency, build_blocked_dependency_result, remove_task, sweep, settle,
  run_all, runnable, finished, chosen, run_tasks, run_batch, round, Round, again, stopped,
}
use amby.Execution.Coordinator.Termination.{has_id, pending_ids, Round-cases, List-cases}

-- The id is among the pending tasks or has a result.
abbrev is_accounted : Text → Progress → Bool
is_accounted id p = is_some (get id p.completed) || has_id id p.pending

get-put :
    (id key : Text) (r : ExecutionTaskResult) (rs : Results)
    → get id (put key r rs) ≡ (if text_eq key id then some r else get id rs)
get-put id key r [] = refl
get-put id key r ((k, s) ∷ rs) =
    ground (arith, get-put id key r rs, text_eq_iff k key, text_eq_iff key id, text_eq_iff k id)

has_id-remove_task :
    (id key : Text) (ts : List ExecutionTask)
    → text_eq key id ≡ false
    → has_id id (remove_task key ts) ≡ has_id id ts
has_id-remove_task id key [] h = refl
has_id-remove_task id key (t ∷ ts) h = ground (
  arith,
  has_id-remove_task id key ts,
  text_eq_iff t.id key,
  text_eq_iff t.id id,
  text_eq_iff key id,
)

module _ (id : Text) where
  moved :
      (key : Text) (r : ExecutionTaskResult) (p : Progress)
      → is_accounted id p ≡ true
      → is_accounted id
          (record { pending = remove_task key p.pending; completed = put key r p.completed })
        ≡ true
  moved key r p h = elim (Bool-cases (text_eq key id)) [
    | inl e ↦ rw (get-put id key r p.completed, e) refl
    | inr e ↦ rw (get-put id key r p.completed, has_id-remove_task id key p.pending e, e) h
  ]

  sweep_accounts :
      (trace : Text) (tasks : List ExecutionTask) (p : Progress) (found : Bool)
      → is_accounted id p ≡ true
      → is_accounted id (sweep trace tasks p found).0 ≡ true
  unfolding sweep
  sweep_accounts trace [] p found h = h
  sweep_accounts trace (t ∷ tasks) p found h =
      elim (Option-cases (find_blocking_dependency t p.completed)) [
        | inl e ↦ rw (e, sweep) (sweep_accounts trace tasks p found h)
        | inr (b, e) ↦
            rw (e, sweep)
              (sweep_accounts trace tasks _ true
                (moved t.id (build_blocked_dependency_result t b trace) p h))
      ]

  settle_accounts :
      (rs : List ExecutionTaskResult) (p : Progress)
      → is_accounted id p ≡ true
      → is_accounted id (settle rs p) ≡ true
  unfolding settle
  settle_accounts [] p h = h
  settle_accounts (r ∷ rs) p h = settle_accounts rs _ (moved r.task_id r p h)

  -- What a round goes on with accounts for the id, and it does not stop as finished.
  Accounts : Round → Type 0
  Accounts (again p) = is_accounted id p ≡ true
  Accounts (stopped outcome) = (completed : Results) → outcome ≢ finished completed

  batch-Accounts :
      (run : ExecutionTask → Option ExecutionTaskResult) (strategy : ExecutionMode) (p : Progress)
      (batch : List ExecutionTask)
      → is_accounted id p ≡ true
      → Accounts (run_batch run strategy p batch)
  unfolding run_batch Accounts
  batch-Accounts run strategy p [] h = λ c e. cc e
  batch-Accounts run strategy p (first ∷ rest) h =
      elim (Option-cases (run_all run (map (runnable p.completed) (chosen strategy first rest)))) [
        | inl e ↦ rw (run_batch, e) (λ c x. cc x)
        | inr (rs, e) ↦ rw (run_batch, e) (settle_accounts rs p h)
      ]

  round-Accounts :
      (run : ExecutionTask → Option ExecutionTaskResult) (trace : Text) (strategy : ExecutionMode)
      (limit : ℕ) (p : Progress)
      → is_accounted id p ≡ true
      → Accounts (round run trace strategy limit p)
  unfolding round Accounts
  round-Accounts run trace strategy limit p h =
      let swept = sweep_accounts trace p.pending p false h in
      elim (Bool-cases (sweep trace p.pending p false).1) [
        | inl e ↦ rw (round, e) swept
        | inr e ↦ rw (round, e) (batch-Accounts run strategy _ _ swept)
      ]

  finished_accounts :
      (run : ℕ → ExecutionTask → Option ExecutionTaskResult) (trace : Text)
      (strategy : ExecutionMode) (limit fuel : ℕ) (p : Progress) (completed : Results)
      → is_accounted id p ≡ true
      → run_tasks run trace strategy limit fuel p ≡ finished completed
      → is_some (get id completed) ≡ true
  unfolding run_tasks Accounts
  finished_accounts run trace strategy limit zero p completed h e = ground (arith, h, e)
  finished_accounts run trace strategy limit (suc fuel) p completed h e =
      elim (List-cases p.pending) [
        | inl f ↦
            let ends : run_tasks run trace strategy limit (suc fuel) p ≡ finished p.completed =
              rw (run_tasks, f) refl in
            let same : p.completed ≡ completed = cc (sym ends ∙ e) in
            let has : is_some (get id p.completed) ≡ true = ground (arith, h, f) in
            subst (λ (c : Results). is_some (get id c) ≡ true) same has
        | inr (t, ts, f) ↦
            let next = round-Accounts (run fuel) trace strategy limit p h in
            elim (Round-cases (round (run fuel) trace strategy limit p)) [
              | inl (p', g) ↦
                  let goes : run_tasks run trace strategy limit (suc fuel) p
                      ≡ run_tasks run trace strategy limit fuel p' =
                    rw (run_tasks, f, g) refl in
                  finished_accounts run trace strategy limit fuel p' completed
                    (subst Accounts g next) (sym goes ∙ e)
              | inr (o, g) ↦
                  let goes : run_tasks run trace strategy limit (suc fuel) p ≡ o =
                    rw (run_tasks, f, g) refl in
                  absurd (subst Accounts g next completed (sym goes ∙ e))
            ]
      ]

-- If the loop finishes, every task that was pending has a result.
pub run_tasks_completes :
    (run : ℕ → ExecutionTask → Option ExecutionTaskResult) (trace : Text) (strategy : ExecutionMode)
    (limit fuel : ℕ) (p : Progress) (completed : Results)
    → run_tasks run trace strategy limit fuel p ≡ finished completed
    → All (λ t. is_some (get t.id completed) ≡ true) p.pending
run_tasks_completes run trace strategy limit fuel p completed e =
    All-imp (λ t. has_id t.id p.pending ≡ true) (λ t. is_some (get t.id completed) ≡ true)
      (λ t h.
        finished_accounts t.id run trace strategy limit fuel p completed (ground (arith, h)) e)
      p.pending (pending_ids p.pending)
