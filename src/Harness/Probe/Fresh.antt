-- ===== src/Harness/Probe/Fresh.antt =====
-- The rows of the tasks over probes, and the tasks whose callbacks still come.
use amby.Common.{
  ℕ, ◌==◌, ◌≡◌, refl, ap, ◌∙◌, inl, inr, Bool, true, false, Option, none, some, List, [], ◌∷◌, map,
  arith, if◌then◌else◌, is_some, Bool-cases,
}
use amby.Common.Text.{Text, text_eq}
use amby.Tasks.Status.{Status, is_terminal}
use amby.Tasks.Rows.{Value, Task, TaskDb}
use amby.Tasks.Store
use amby.Tasks.Store.{update_where, NewEvent}
use amby.Harness.RuntimeData.{read_sandbox_runtime_data, is_sandbox_task}
use amby.Harness.World.{World, Moment, Outcome, done, threw, state_of}
use amby.Harness.Recovery.{session_of}
use amby.Harness.Probe.{
  ProbeSight, Spelling, should_skip_probe_finalize, touch, log_probe, probe_event, note_probe,
  probe_exited, probe_running, probe_command, probe_session, caught, probe_single_task, or_same_db,
}
use amby.Harness.Steps.{rows}

abbrev pub status_of : Task → Text × Status
status_of t = (t.id, t.status)

-- The ids and statuses of the rows.
abbrev pub statuses : World → List (Text × Status)
statuses w = map status_of w.tasks.tasks

-- Adding an event leaves the rows alone.
pub append_event-tasks :
    (e : NewEvent) (fresh : Text) (now : ℕ) (db : TaskDb)
    → (or_same_db (Store.append_event e fresh now db) db).tasks ≡ db.tasks
unfolding Store.append_event Store.insert_event
append_event-tasks e fresh now db = ground arith

pub log_probe-rows :
    (m : Moment) (o : ProbeSight) (id : Text) (value : Value) (w : World)
    → rows (log_probe m o id value w) ≡ rows w
unfolding log_probe
log_probe-rows m o id value w = append_event-tasks (probe_event id value) o.fresh m.now w.tasks

touched :
    (hit : Task → Bool) (now : ℕ) (ts : List Task)
    → map status_of
        (update_where hit (λ t. record t { last_probe_at = some now; updated_at = now }) ts)
      ≡ map status_of ts
unfolding update_where
touched hit now [] = refl
touched hit now (t ∷ ts) = elim (Bool-cases (hit t)) [
  | inl e ↦ rw e (ap (λ l. status_of t ∷ l) (touched hit now ts))
  | inr e ↦ rw e (ap (λ l. status_of t ∷ l) (touched hit now ts))
]

touch-statuses :
    (m : Moment) (o : ProbeSight) (id : Text) (w : World) → statuses (touch m o id w) ≡ statuses w
unfolding touch Store.touch_probe Store.update_task
touch-statuses m o id w = elim (Bool-cases o.touches) [
  | inl e ↦ rw e (touched (λ t. text_eq t.id id) m.now w.tasks.tasks)
  | inr e ↦ rw e refl
]

note_probe-statuses :
    (m : Moment) (o : ProbeSight) (t : Task) (value : Value) (w : World)
    → statuses (note_probe m o t value w) ≡ statuses w
note_probe-statuses m o t value w =
    ap (map status_of) (log_probe-rows m o t.id value (touch m o t.id w))
    ∙ touch-statuses m o t.id w

fresh_seq :
    (t : Task) (at : ℕ) → should_skip_probe_finalize t at ≡ true → (t.last_event_seq == 0) ≡ false
unfolding should_skip_probe_finalize
fresh_seq t at h = ground arith

fresh_exited :
    (s : Spelling) (m : Moment) (o : ProbeSight) (t : Task) (root : Text) (exit_code : ℕ)
    (w : World)
    → should_skip_probe_finalize t o.at ≡ true
    → statuses (state_of (probe_exited s m o t root exit_code w)) ≡ statuses w
unfolding probe_exited
fresh_exited s m o t root exit_code w h = rw (probe_exited, h) (note_probe-statuses m o t _ w)

fresh_running :
    (s : Spelling) (m : Moment) (o : ProbeSight) (t : Task) (root : Text) (said : Option Bool)
    (w : World)
    → (t.last_event_seq == 0) ≡ false
    → statuses (state_of (probe_running s m o t root said w)) ≡ statuses w
unfolding probe_running
fresh_running s m o t root none w h = note_probe-statuses m o t _ w
fresh_running s m o t root (some succeeds) w h =
    rw (probe_running, h) (note_probe-statuses m o t _ w)

-- The command that a probe looks at, while callbacks still come.
fresh_command :
    (s : Spelling) (m : Moment) (o : ProbeSight) (t : Task) (root : Text)
    (command : Option (Option ℕ)) (w : World)
    → should_skip_probe_finalize t o.at ≡ true
    → statuses (state_of (probe_command s m o t root command w)) ≡ statuses w
unfolding probe_command
fresh_command s m o t root none w h = refl
fresh_command s m o t root (some (some exit_code)) w h = fresh_exited s m o t root exit_code w h
fresh_command s m o t root (some none) w h = fresh_running s m o t root _ w (fresh_seq t o.at h)

caught-statuses :
    (m : Moment) (o : ProbeSight) (t : Task) (x : Outcome)
    → statuses (state_of (caught m o t x)) ≡ statuses (state_of x)
unfolding caught
caught-statuses m o t (done w) = refl
caught-statuses m o t (threw w) = touch-statuses m o t.id w

fresh_session :
    (s : Spelling) (m : Moment) (o : ProbeSight) (t : Task) (root : Text)
    (session : Option (Text × Text)) (w : World)
    → should_skip_probe_finalize t o.at ≡ true
    → is_some session ≡ true
    → statuses (state_of (probe_session s m o t root session w)) ≡ statuses w
unfolding probe_session
fresh_session s m o t root none w h named = absurd (cc named)
fresh_session s m o t root (some session) w h named =
    caught-statuses m o t (probe_command s m o t root o.command w)
    ∙ fresh_command s m o t root o.command w h

either-statuses :
    (b : Bool) (x y : Outcome) (l : List (Text × Status))
    → statuses (state_of x) ≡ l
    → statuses (state_of y) ≡ l
    → statuses (state_of (if b then x else y)) ≡ l
either-statuses true x y l hx hy = hx
either-statuses false x y l hx hy = hy

-- While the callbacks of a task still come, a probe of it changes no task's status, whatever
-- the sandbox, `status.json` and the clock show and whether or not the database answers, provided
-- that the row names a session and a command.
pub probe_single_task-statuses :
    (read : Value → Option Text) (s : Spelling) (m : Moment) (o : ProbeSight) (t : Task) (w : World)
    → should_skip_probe_finalize t o.at ≡ true
    → is_some (session_of (read_sandbox_runtime_data read t)) ≡ true
    → statuses (state_of (probe_single_task read s m o t w)) ≡ statuses w
unfolding probe_single_task
probe_single_task-statuses read s m o t w h named =
    either-statuses (is_sandbox_task t) _ _ _
      (either-statuses o.ensures _ _ _
        (either-statuses (is_terminal t.status) _ _ _ refl (fresh_session s m o t _ _ w h named))
        refl)
      refl
