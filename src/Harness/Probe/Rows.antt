-- ===== src/Harness/Probe/Rows.antt =====
-- The rows of the tasks over a probe.
use amby.Common.{
  ℕ, ◌==◌, ◌≡◌, refl, sym, subst, inl, inr, Bool, true, false, Option, none, some, arith,
  Bool-cases,
}
use amby.Common.Text.{Text}
use amby.Tasks.Rows.{Value, Task, TaskDb}
use amby.Tasks.Status.{is_terminal}
use amby.Tasks.Store
use amby.Tasks.Runs.{Evolve, Evolve-refl}
use amby.Tasks.Runs.Writes.{after, transact-Evolve, completed-Evolves, update-Evolve}
use amby.Harness.RuntimeData.{TaskExecutionData, is_sandbox_task}
use amby.Harness.World.{World, Moment, Ending, Note, Outcome, done, threw, state_of, completion_of}
use amby.Harness.Probe.{
  ProbeSight, Spelling, Finding, should_skip_probe_finalize, touch, log_probe, note_probe,
  end_probed, end_collected, probe_exited, probe_running, probe_command, probe_session, caught,
  probe_single_task, probe_event, settle_probe,
}
use amby.Harness.Probe.Fresh.{log_probe-rows, append_event-tasks}
use amby.Harness.Steps.{Keeps, rows, refl-Keeps, trans-Keeps, either-Keeps}

-- A step that leaves the rows alone at the end.
rows-Keeps : (w u v : World) → Keeps w (done u) → rows v ≡ rows u → Keeps w (done v)
rows-Keeps w u v h same = record { evolve = subst (Evolve (rows w)) (sym same) h.evolve }

touch-Keeps :
    (m : Moment) (o : ProbeSight) (id : Text) (w : World) → Keeps w (done (touch m o id w))
unfolding touch Store.touch_probe
touch-Keeps m o id w = elim (Bool-cases o.touches) [
  | inl e ↦ record {
    evolve = rw e (
        update-Evolve id _ w.tasks
          (λ t. record { id = refl; callback_id = refl; seq = omega arith; status = inr refl }));
  }
  | inr e ↦ record { evolve = rw e (Evolve-refl (rows w)) }
]

note-Keeps :
    (m : Moment) (o : ProbeSight) (t : Task) (value : Value) (w : World)
    → Keeps w (done (note_probe m o t value w))
note-Keeps m o t value w =
    rows-Keeps w (touch m o t.id w) _ (touch-Keeps m o t.id w)
      (log_probe-rows m o t.id value (touch m o t.id w))

settle_probe-rows :
    (m : Moment) (o : ProbeSight) (t : Task) (e : Ending) (note : Note) (value : Value)
    (x : Option (TaskDb × Bool)) (w : World)
    → rows (state_of (settle_probe m o t e note value x w)) ≡ (after x w.tasks).tasks
unfolding settle_probe log_probe
settle_probe-rows m o t e note value none w = refl
settle_probe-rows m o t e note value (some (db, false)) w = refl
settle_probe-rows m o t e note value (some (db, true)) w =
    append_event-tasks (probe_event t.id value) o.fresh m.now db

end_probed-Keeps :
    (m : Moment) (o : ProbeSight) (t : Task) (e : Ending) (note : Note) (value : Value) (w : World)
    → Keeps w (end_probed m o t e note value w)
unfolding end_probed Store.complete_task
end_probed-Keeps m o t e note value w =
    let c = completion_of t.id e in
    let current = Store.current_runtime_data t.id w.tasks in
    record {
      evolve =
          subst (Evolve (rows w))
            (sym (
              settle_probe-rows m o t e note value
                (Store.complete_task c m.fresh m.now m.later w.tasks) w))
            (transact-Evolve (Store.is_unfinished c) (Store.completed c current m.now)
              (Store.completion_event c m.fresh m.now m.later) w.tasks
              (completed-Evolves c current m.now));
    }

collected-Keeps :
    (s : Spelling) (m : Moment) (o : ProbeSight) (t : Task) (finding : Finding) (succeeds : Bool)
    (exit_code : ℕ) (result : Option TaskExecutionData) (w : World)
    → Keeps w (end_collected s m o t finding succeeds exit_code result w)
unfolding end_collected
collected-Keeps s m o t finding succeeds exit_code none w = record { evolve = Evolve-refl (rows w) }
collected-Keeps s m o t finding succeeds exit_code (some result) w = end_probed-Keeps m o t _ _ _ w

running-Keeps :
    (s : Spelling) (m : Moment) (o : ProbeSight) (t : Task) (root : Text) (said : Option Bool)
    (w : World)
    → Keeps w (probe_running s m o t root said w)
unfolding probe_running
running-Keeps s m o t root none w = note-Keeps m o t _ w
running-Keeps s m o t root (some succeeds) w =
    either-Keeps w (t.last_event_seq == 0) _ _ (collected-Keeps s m o t _ succeeds _ _ w)
      (note-Keeps m o t _ w)

command-Keeps :
    (s : Spelling) (m : Moment) (o : ProbeSight) (t : Task) (root : Text)
    (command : Option (Option ℕ)) (w : World)
    → Keeps w (probe_command s m o t root command w)
unfolding probe_command probe_exited
command-Keeps s m o t root none w = record { evolve = Evolve-refl (rows w) }
command-Keeps s m o t root (some (some exit_code)) w =
    either-Keeps w (should_skip_probe_finalize t o.at) _ _ (note-Keeps m o t _ w)
      (collected-Keeps s m o t _ _ exit_code _ w)
command-Keeps s m o t root (some none) w = running-Keeps s m o t root _ w

caught-Keeps :
    (m : Moment) (o : ProbeSight) (t : Task) (w : World) (x : Outcome)
    → Keeps w x
    → Keeps w (caught m o t x)
unfolding caught
caught-Keeps m o t w (done u) h = h
caught-Keeps m o t w (threw u) h =
    trans-Keeps w u _ (record { evolve = h.evolve }) (touch-Keeps m o t.id u)

session-Keeps :
    (s : Spelling) (m : Moment) (o : ProbeSight) (t : Task) (root : Text)
    (session : Option (Text × Text)) (w : World)
    → Keeps w (probe_session s m o t root session w)
unfolding probe_session
session-Keeps s m o t root none w = end_probed-Keeps m o t _ _ _ w
session-Keeps s m o t root (some session) w =
    caught-Keeps m o t w _ (command-Keeps s m o t root o.command w)

pub probe-Keeps :
    (read : Value → Option Text) (s : Spelling) (m : Moment) (o : ProbeSight) (t : Task) (w : World)
    → Keeps w (probe_single_task read s m o t w)
unfolding probe_single_task
probe-Keeps read s m o t w =
    either-Keeps w (is_sandbox_task t) _ _
      (either-Keeps w o.ensures _ _
        (either-Keeps w (is_terminal t.status) _ _ (refl-Keeps w) (session-Keeps s m o t _ _ w))
        (record { evolve = Evolve-refl (rows w) }))
      (refl-Keeps w)
