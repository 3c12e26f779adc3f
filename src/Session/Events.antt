-- ===== src/Session/Events.antt =====
-- The events that reach the object, in any order that the runtime allows, as one step function.
pub mod Flow
pub mod Claims
pub mod Runs
pub mod Debounce
use amby.Common.{
  ℕ, Bool, true, false, Option, none, some, List, [], ◌∷◌, ◌++◌, if◌then◌else◌, is_some, ◌≡◌,
}
use amby.Common.Text.{Text}
use amby.Session.State.{Session, hydrated_state, default_state}
use amby.Session.Handlers
use amby.Session.Handlers.{IngestPayload, Completion, Claim}

-- While the alarm handler waits for the workflow to be created, every other call may come in. A
-- crash loses the memory and keeps the storage; the runtime runs an alarm handler that did not
-- finish again.
pub data Event : Type 0 where
  ingest_message : (now : ℕ) → IngestPayload → Event
  alarm_start : (bound : Bool) (now later : ℕ) (token : Text) → Event
  alarm_finish : (created : Option Text) (later : ℕ) → Event
  claim_first_outbound : (now : ℕ) (token : Text) → Event
  complete_execution : (now : ℕ) → Completion → Event
  crash : (now : ℕ) → Event

unfoldable pub new_session : Session
unfolding default_state
new_session = record {
  state = default_state;
  stored = none;
  pending_from = none;
  alarm = none;
  launching = false;
}

unfoldable pub restart : ℕ → Session → Session
unfolding hydrated_state
restart now s = record s {
  state = hydrated_state s.stored;
  alarm = if s.launching then some now else s.alarm;
  launching = false;
}

unfoldable pub step : (Text → Text) → Event → Session → Session
unfolding restart
step to_lower (Event.ingest_message now payload) s = Handlers.ingest_message to_lower now payload s
step to_lower (Event.alarm_start bound now later token) s =
    (Handlers.alarm_start bound now later token s).0
step to_lower (Event.alarm_finish created later) s = Handlers.alarm_finish created later s
step to_lower (Event.claim_first_outbound now token) s =
    (Handlers.claim_first_outbound now token s).0
step to_lower (Event.complete_execution now result) s = (Handlers.complete_execution now result s).0
step to_lower (Event.crash now) s = restart now s

abbrev pub is_launch_crash : Event → Session → Bool
is_launch_crash (Event.crash now) s = s.launching
is_launch_crash event s = false

-- When the runtime lets an event in: the handler starts at an alarm, one at a time, and finishes
-- what it started.
abbrev pub IsAllowed : Event → Session → Type 0
IsAllowed (Event.alarm_start bound now later token) s =
    (is_some s.alarm ≡ true) × (s.launching ≡ false)
IsAllowed (Event.alarm_finish created later) s = s.launching ≡ true
IsAllowed event s = Unit {0}
