-- ===== src/Harness/Sequence.antt =====
-- The supervisor, the probes and the callbacks in any order.
use amby.Common.{ℕ, All, ◌-◌, Bool, true, false, List, [], ◌∷◌, if◌then◌else◌}
use amby.Common.Text.{Text}
use amby.Tasks.Rows.{Task}
use amby.Tasks.Queries.{find_stale_preparing_sandbox_tasks}
use amby.Tasks.Runs.{Evolve, Evolve-refl, Evolve-trans}
use amby.Tasks.Runs.Writes.{Write, write, IsOrderly, write-Evolve}
use amby.Harness.World.{World, Moment, done, state_of}
use amby.Harness.Heartbeat
use amby.Harness.Heartbeat.{
  Json, Sight, finalize_task, timeout_task, failed_beat, give_up, max_heartbeat_failures,
  count_failures, catching, or_timeout, seen, polled, beat, beat_all, release,
}
use amby.Harness.Recovery
use amby.Harness.Recovery.{
  recover_running, recover_task, recover_tasks, lose_preparing, lose_all_preparing,
}
use amby.Harness.Probe.{ProbeSight, Spelling, probe_single_task}
use amby.Harness.Probe.Rows.{probe-Keeps}
use amby.Harness.Steps.{
  Keeps, rows, refl-Keeps, trans-Keeps, either-Keeps, lose_all-Keeps, recover_tasks-Keeps,
  beat_all-Keeps,
}

-- A step of the supervisor, the probe of a row that was read at any time before, or a write to the
-- tables, a callback among them, each with what it meets.
pub data Step : Type 0 where
  heartbeat : (Text → Moment × Sight) → Step
  probe : Moment → ProbeSight → Task → Step
  table_write : (now later : ℕ) → Write → Step
  recover : (Text → Moment × Bool) → (now : ℕ) → (running_found stale_found : Bool) → Step

unfoldable pub step : Json → Spelling → Step → World → World
step json s (Step.probe m o t) w = state_of (probe_single_task json.read s m o t w)
step json s (Step.table_write now later wr) w = record w { tasks = write now later wr w.tasks }
step json s (Step.heartbeat sight) w = state_of (Heartbeat.heartbeat json sight w)
step json s (Step.recover sight now running_found stale_found) w =
    state_of (recover_running json sight now running_found stale_found w)

unfoldable pub steps : Json → Spelling → List Step → World → World
unfolding step
steps json s [] w = w
steps json s (a ∷ as_) w = steps json s as_ (step json s a w)

-- A write is to be one that `IsOrderly` admits.
abbrev pub IsOrderlyStep : Step → Type 0
IsOrderlyStep (Step.table_write now later wr) = IsOrderly wr
IsOrderlyStep s = Unit {0}

start-Keeps :
    (w : World) (b : Bool) (u : World) → Keeps w (done u) → Keeps w (done (if b then u else w))
start-Keeps w true u h = h
start-Keeps w false u h = refl-Keeps w

pub step-Keeps :
    (json : Json) (s : Spelling) (a : Step) (w : World)
    → IsOrderlyStep a
    → Keeps w (done (step json s a w))
unfolding step Heartbeat.heartbeat recover_running
step-Keeps json s (Step.probe m o t) w h = record {
  evolve = (probe-Keeps json.read s m o t w).evolve;
}
step-Keeps json s (Step.table_write now later wr) w h = record {
  evolve = write-Evolve now later wr w.tasks h;
}
step-Keeps json s (Step.heartbeat sight) w h = record {
  evolve = (beat_all-Keeps json sight w.active w).evolve;
}
step-Keeps json s (Step.recover sight now running_found stale_found) w h =
    let cleaned =
      lose_all-Keeps json (λ id. (sight id).0)
        (find_stale_preparing_sandbox_tasks (now - Recovery.preparing_timeout_ms) w.tasks) w in
    let begun = start-Keeps w stale_found _ cleaned in
    record {
      evolve =
          (either-Keeps w running_found _ _
            (trans-Keeps w _ _ begun (recover_tasks-Keeps json sight _ _)) (refl-Keeps w)).evolve;
    }

-- Over any sequence of heartbeats, recoveries, probes and writes to the tables, callbacks among
-- them, whatever the sandboxes and the database answer, the rows of the tasks stay in
-- place, and each keeps its id and callback id, never lowers its sequence number, and keeps its
-- status once that is terminal. A probe may have read its row at any time before; a plain update is
-- to do the same of every row, and a callback has a sequence number or is a notification of the
-- backend.
pub steps-Evolve :
    (json : Json) (s : Spelling) (as_ : List Step) (w : World)
    → All IsOrderlyStep as_
    → Evolve (rows w) (rows (steps json s as_ w))
unfolding steps
steps-Evolve json s [] w h = Evolve-refl (rows w)
steps-Evolve json s (a ∷ as_) w (h, rest) =
    Evolve-trans (rows w) (rows (step json s a w)) _ (step-Keeps json s a w h).evolve
      (steps-Evolve json s as_ (step json s a w) rest)
