-- ===== src/Harness/Steps.antt =====
-- The rows of the tasks over the steps of the supervisor.
use amby.Common.{
  ℕ, suc, ◌≡◌, refl, sym, subst, ◌∙◌, inl, inr, Bool, true, false, Option, none, some, List, leb,
  [], ◌∷◌, arith, if◌then◌else◌, Bool-cases,
}
use amby.Common.Text.{Text}
use amby.Tasks.Rows.{Task, TaskDb}
use amby.Tasks.Store
use amby.Tasks.Store.{complete_task, TaskCompletion}
use amby.Tasks.Runs.{Evolve, Evolve-refl, Evolve-trans}
use amby.Tasks.Runs.Writes.{after, transact-Evolve, completed-Evolves, update-Evolve}
use amby.Ledger.{TaskEnd}
use amby.Harness.World.{
  ActiveTask, World, Moment, Ending, Note, Outcome, done, threw, state_of, then_, settle, end_task,
  completion_of, end_of, untrack, delete_session, track,
}
use amby.Harness.Heartbeat.{
  Json, Sight, finalize_task, timeout_task, failed_beat, give_up, max_heartbeat_failures,
  count_failures, catching, or_timeout, seen, polled, beat, beat_all, release,
}
use amby.Harness.Recovery
use amby.Harness.Recovery.{
  recover_running, recover_task, recover_tasks, lose_preparing, lose_all_preparing,
}

abbrev pub rows : World → List Task
rows w = w.tasks.tasks

-- The rows after a step evolve from those before.
pub record Keeps (w : World) (o : Outcome) : Type 0 where
  pub evolve : Evolve (rows w) (rows (state_of o))

pub refl-Keeps : (w : World) → Keeps w (done w)
refl-Keeps w = record { evolve = Evolve-refl (rows w) }

pub trans-Keeps : (w u : World) (o : Outcome) → Keeps w (done u) → Keeps u o → Keeps w o
trans-Keeps w u o a b = record {
  evolve = Evolve-trans (rows w) (rows u) (rows (state_of o)) a.evolve b.evolve;
}

pub settle-tasks :
    (m : Moment) (p : TaskEnd) (o : Option (TaskDb × Bool)) (w : World)
    → (state_of (settle m p o w)).tasks ≡ after o w.tasks
unfolding settle
settle-tasks m p none w = refl
settle-tasks m p (some (db, true)) w = refl
settle-tasks m p (some (db, false)) w = refl

pub end_task-Keeps :
    (m : Moment) (trace_id : Option Text) (task_id : Text) (e : Ending) (note : Note) (w : World)
    → Keeps w (end_task m trace_id task_id e note w)
unfolding end_task complete_task
end_task-Keeps m trace_id task_id e note w =
    let c = completion_of task_id e in
    let current = Store.current_runtime_data task_id w.tasks in
    record {
      evolve =
          subst (λ (db : TaskDb). Evolve (rows w) db.tasks)
            (sym (
              settle-tasks m (end_of trace_id task_id e note)
                (complete_task c m.fresh m.now m.later w.tasks) w))
            (transact-Evolve (Store.is_unfinished c) (Store.completed c current m.now)
              (Store.completion_event c m.fresh m.now m.later) w.tasks
              (completed-Evolves c current m.now));
    }

-- A step that goes on without touching the rows.
pub then-Keeps :
    (w : World) (o : Outcome) (f : World → World)
    → ((u : World) → (f u).tasks ≡ u.tasks)
    → Keeps w o
    → Keeps w (then_ o f)
then-Keeps w (done u) f same h = record {
  evolve = subst (λ (db : TaskDb). Evolve (rows w) db.tasks) (sym (same u)) h.evolve;
}
then-Keeps w (threw u) f same h = record { evolve = h.evolve }

pub either-Keeps :
    (w : World) (b : Bool) (x y : Outcome) → Keeps w x → Keeps w y → Keeps w (if b then x else y)
either-Keeps w true x y hx hy = hx
either-Keeps w false x y hx hy = hy

-- A step that starts after a change that leaves the rows alone.
from_same : (w u : World) (o : Outcome) → u.tasks ≡ w.tasks → Keeps u o → Keeps w o
from_same w u o same h = record {
  evolve = subst (λ (db : TaskDb). Evolve db.tasks (rows (state_of o))) same h.evolve;
}

pub same-Keeps : (w u : World) → u.tasks ≡ w.tasks → Keeps w (done u)
same-Keeps w u same = record {
  evolve = subst (λ (db : TaskDb). Evolve (rows w) db.tasks) (sym same) (Evolve-refl (rows w));
}

pub delete-tasks : (id : Text) (w : World) → (delete_session id w).tasks ≡ w.tasks
unfolding delete_session
delete-tasks id w = ground arith

untrack-tasks : (id : Text) (w : World) → (untrack id w).tasks ≡ w.tasks
unfolding untrack
untrack-tasks id w = refl

release-tasks : (a : ActiveTask) (w : World) → (release a w).tasks ≡ w.tasks
release-tasks a w = untrack-tasks a.task_id _ ∙ delete-tasks a.session_id w

count-tasks : (id : Text) (n : ℕ) (w : World) → (count_failures id n w).tasks ≡ w.tasks
unfolding count_failures
count-tasks id n w = refl

pub finalize-Keeps :
    (json : Json) (m : Moment) (o : Sight) (a : ActiveTask) (exit_code : ℕ) (w : World)
    → Keeps w (finalize_task json m o a exit_code w)
unfolding finalize_task
finalize-Keeps json m o a exit_code w = either-Keeps w _ _ _ (refl-Keeps w) (
    either-Keeps w _ _ _ (same-Keeps w (release a w) (release-tasks a w))
      (then-Keeps w _ (release a) (release-tasks a) (end_task-Keeps m _ a.task_id _ _ w)))

timeout-Keeps :
    (json : Json) (m : Moment) (o : Sight) (a : ActiveTask) (w : World)
    → Keeps w (timeout_task json m o a w)
unfolding timeout_task
timeout-Keeps json m o a w =
    let w' = delete_session a.session_id w in
    let kept = same-Keeps w' (untrack a.task_id w') (untrack-tasks a.task_id w') in
    from_same w w' _ (delete-tasks a.session_id w) (
      either-Keeps w' _ _ _
        (either-Keeps w' _ _ _ kept (
          then-Keeps w' _ (untrack a.task_id) (untrack-tasks a.task_id)
            (end_task-Keeps m _ a.task_id _ _ w')))
        kept)

give_up-Keeps :
    (json : Json) (m : Moment) (o : Sight) (a : ActiveTask) (w : World)
    → Keeps w (give_up json m o a w)
unfolding give_up
give_up-Keeps json m o a w =
    let kept = same-Keeps w (untrack a.task_id w) (untrack-tasks a.task_id w) in
    either-Keeps w _ _ _
      (either-Keeps w _ _ _ kept (
        then-Keeps w _ (untrack a.task_id) (untrack-tasks a.task_id)
          (end_task-Keeps m _ a.task_id _ _ w)))
      kept

failed-Keeps :
    (json : Json) (m : Moment) (o : Sight) (a : ActiveTask) (failures : ℕ) (w : World)
    → Keeps w (failed_beat json m o a failures w)
unfolding failed_beat
failed-Keeps json m o a failures w =
    let w' = count_failures a.task_id failures w in
    from_same w w' _ (count-tasks a.task_id failures w) (
      either-Keeps w' (leb max_heartbeat_failures failures) _ _ (give_up-Keeps json m o a w')
        (refl-Keeps w'))

catching-Keeps :
    (json : Json) (m : Moment) (o : Sight) (a : ActiveTask) (failures : ℕ) (w : World) (x : Outcome)
    → Keeps w x
    → Keeps w (catching json m o a failures x)
unfolding catching
catching-Keeps json m o a failures w (done u) h = h
catching-Keeps json m o a failures w (threw u) h =
    trans-Keeps w u _ (record { evolve = h.evolve }) (failed-Keeps json m o a (suc failures) u)

or_timeout-Keeps :
    (json : Json) (m : Moment) (o : Sight) (a : ActiveTask) (w : World)
    → Keeps w (or_timeout json m o a w)
or_timeout-Keeps json m o a w = either-Keeps w _ _ _ (timeout-Keeps json m o a w) (refl-Keeps w)

beaten-Keeps :
    (id : Text) (now : ℕ) (w : World)
    → Keeps w (done (record w { tasks = Store.heartbeat id now w.tasks }))
unfolding Store.heartbeat
beaten-Keeps id now w = record {
  evolve =
      update-Evolve id _ w.tasks
        (λ t. record { id = refl; callback_id = refl; seq = omega arith; status = inr refl });
}

seen-Keeps : (m : Moment) (o : Sight) (a : ActiveTask) (w : World) → Keeps w (done (seen m o a w))
unfolding seen count_failures
seen-Keeps m o a w = elim (Bool-cases o.writes) [
  | inl e ↦ record { evolve = rw e (beaten-Keeps a.task_id m.now w).evolve }
  | inr e ↦ record { evolve = rw e (Evolve-refl (rows w)) }
]

after_seen :
    (m : Moment) (o : Sight) (a : ActiveTask) (w : World) (x : Outcome)
    → Keeps (seen m o a w) x
    → Keeps w x
after_seen m o a w x h = trans-Keeps w (seen m o a w) x (seen-Keeps m o a w) h

polled-Keeps :
    (json : Json) (m : Moment) (o : Sight) (a : ActiveTask) (command : Option (Option ℕ))
    (w : World)
    → Keeps w (polled json m o a command w)
unfolding polled
polled-Keeps json m o a none w = failed-Keeps json m o a _ w
polled-Keeps json m o a (some (some exit_code)) w =
    catching-Keeps json m o a 0 w _
      (after_seen m o a w _ (finalize-Keeps json m o a exit_code (seen m o a w)))
polled-Keeps json m o a (some none) w =
    catching-Keeps json m o a 0 w _
      (after_seen m o a w _ (or_timeout-Keeps json m o a (seen m o a w)))

beat-Keeps :
    (json : Json) (m : Moment) (o : Sight) (a : ActiveTask) (w : World)
    → Keeps w (beat json m o a w)
unfolding beat
beat-Keeps json m o a w =
    either-Keeps w o.refreshes _ _
      (either-Keeps w a.has_callbacks _ _
        (catching-Keeps json m o a a.consecutive_failures w _ (or_timeout-Keeps json m o a w))
        (polled-Keeps json m o a o.command w))
      (failed-Keeps json m o a (suc a.consecutive_failures) w)

-- One outcome after another, of which the first that throws is the last.
next-Keeps :
    (w : World) (x : Outcome) (f : World → Outcome)
    → Keeps w x
    → ((u : World) → Keeps u (f u))
    → Keeps w (elim x [ done u ↦ f u | threw u ↦ threw u ])
next-Keeps w (done u) f h next = trans-Keeps w u (f u) h (next u)
next-Keeps w (threw u) f h next = h

pub beat_all-Keeps :
    (json : Json) (sight : Text → Moment × Sight) (as_ : List ActiveTask) (w : World)
    → Keeps w (beat_all json sight as_ w)
unfolding beat_all
beat_all-Keeps json sight [] w = refl-Keeps w
beat_all-Keeps json sight (a ∷ as_) w =
    next-Keeps w _ (beat_all json sight as_) (beat-Keeps json _ _ a w)
      (λ u. beat_all-Keeps json sight as_ u)

lose-Keeps :
    (json : Json) (m : Moment) (row : Text × Option Text) (w : World)
    → Keeps w (done (lose_preparing json m row w))
unfolding lose_preparing
lose-Keeps json m (id, trace_id) w = record {
  evolve = (end_task-Keeps m trace_id id (Recovery.late_ending json) _ w).evolve;
}

pub lose_all-Keeps :
    (json : Json) (moments : Text → Moment) (stale : List (Text × Option Text)) (w : World)
    → Keeps w (done (lose_all_preparing json moments stale w))
unfolding lose_all_preparing
lose_all-Keeps json moments [] w = refl-Keeps w
lose_all-Keeps json moments ((id, trace_id) ∷ stale) w =
    trans-Keeps w (lose_preparing json (moments id) (id, trace_id) w) _
      (lose-Keeps json (moments id) (id, trace_id) w) (lose_all-Keeps json moments stale _)

sessionless-Keeps :
    (json : Json) (m : Moment) (t : Task) (w : World)
    → Keeps w (Recovery.lose_sessionless json m t w)
unfolding Recovery.lose_sessionless
sessionless-Keeps json m t w = end_task-Keeps m t.trace_id t.id _ _ w

track-tasks : (a : ActiveTask) (w : World) → (track a w).tasks ≡ w.tasks
unfolding track
track-tasks a w = refl

resume-Keeps :
    (json : Json) (m : Moment) (answers : Bool) (t : Task) (session : Text × Text) (w : World)
    → Keeps w (Recovery.resume json m answers t session w)
unfolding Recovery.resume
resume-Keeps json m answers t (session_id, command_id) w =
    either-Keeps w answers _ _
      (same-Keeps w _ (track-tasks (Recovery.entry_of t session_id command_id m.now) w))
      (end_task-Keeps m t.trace_id t.id _ _ w)

session-Keeps :
    (json : Json) (m : Moment) (answers named : Bool) (t : Task) (session : Option (Text × Text))
    (w : World)
    → Keeps w (Recovery.recover_session json m answers named t session w)
unfolding Recovery.recover_session
session-Keeps json m answers named t none w = sessionless-Keeps json m t w
session-Keeps json m answers named t (some session) w =
    either-Keeps w named _ _ (resume-Keeps json m answers t session w)
      (sessionless-Keeps json m t w)

recover_task-Keeps :
    (json : Json) (m : Moment) (answers : Bool) (t : Task) (w : World)
    → Keeps w (recover_task json m answers t w)
unfolding recover_task
recover_task-Keeps json m answers t w = session-Keeps json m answers _ t _ w

pub recover_tasks-Keeps :
    (json : Json) (sight : Text → Moment × Bool) (ts : List Task) (w : World)
    → Keeps w (recover_tasks json sight ts w)
unfolding recover_tasks
recover_tasks-Keeps json sight [] w = refl-Keeps w
recover_tasks-Keeps json sight (t ∷ ts) w =
    next-Keeps w _ (recover_tasks json sight ts) (recover_task-Keeps json _ _ t w)
      (λ u. recover_tasks-Keeps json sight ts u)
