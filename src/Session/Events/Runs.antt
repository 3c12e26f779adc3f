-- ===== src/Session/Events/Runs.antt =====
-- Whole runs of the object from its first event on.
use amby.Common.{◌≡◌, false, List, [], ◌∷◌, ◌++◌, is_some, if◌then◌else◌}
use amby.Common.Text.{Text}
use amby.Message.{Part}
use amby.Session.State.{Session}
use amby.Session.Handlers.{is_active}
use amby.Session.Events.{Event, step, IsAllowed, is_launch_crash}
use amby.Session.Events.Flow.{parts_of}

module _ (to_lower : Text → Text) where
  unfoldable pub run : List Event → Session → Session
  run [] s = s
  run (event ∷ events) s = run events (step to_lower event s)

  -- Each event is allowed where it comes, and none is a crash while a launch is under way.
  abbrev pub IsRun : List Event → Session → Type 0
  IsRun [] s = Unit {0}
  IsRun (event ∷ events) s =
      IsAllowed event s × (is_launch_crash event s ≡ false) × IsRun events (step to_lower event s)

  -- The parts that an event brings, and those that an accepted completion lets go as answered.
  abbrev pub received : Event → List Part
  received (Event.ingest_message now payload) = payload.message.parts
  received event = []

  abbrev pub answered : Event → Session → List Part
  answered (Event.complete_execution now result) s =
      if is_active result.execution_token s.state.active_execution_token
      then (if is_some s.state.superseded_at then [] else parts_of s.state.in_flight_messages)
      else []
  answered event s = []

  abbrev pub all_received : List Event → List Part
  all_received [] = []
  all_received (event ∷ events) = received event ++ all_received events

  abbrev pub all_answered : List Event → Session → List Part
  all_answered [] s = []
  all_answered (event ∷ events) s = answered event s ++ all_answered events (step to_lower event s)
