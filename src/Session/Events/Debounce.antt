-- ===== src/Session/Events/Debounce.antt =====
-- The times of the alarm (`scheduleDebounce`), and a crash during a launch.
use amby.Common.{
  ℕ, false, ◌+◌, ◌≡◌, ◌≢◌, min, true, some, [], ◌∷◌, arith, is_some, or_else, if◌then◌else◌,
}
use amby.Common.Text.{Text}
use amby.Session.State.{Session, processing, schedule_debounce}
use amby.Session.Handlers.{
  IngestPayload, Completion, Claim, is_active, alarm_start, ingest_message, claim_first_outbound,
  complete_execution,
}
use amby.Session.Events.{Event, step}

-- A message that comes while no workflow runs sets the alarm to 400 ms from now, or to 1500 ms
-- after the first message of the burst if that is sooner.
pub ingest_message-alarm :
    (to_lower : Text → Text) (now : ℕ) (payload : IngestPayload) (s : Session)
    → s.state.status ≢ processing
    → (ingest_message to_lower now payload s).alarm
      ≡ some (min (or_else s.state.buffer_started_at now + 1500) (now + 400))
unfolding ingest_message schedule_debounce
ingest_message-alarm to_lower now payload s h = ground arith

-- The accepted completion of a run sets the alarm for the messages that were buffered meanwhile:
-- to 250 ms from now if the run was superseded, and otherwise as a new message would.
pub complete_execution-alarm :
    (now : ℕ) (result : Completion) (s : Session)
    → is_active result.execution_token s.state.active_execution_token ≡ true
    → s.state.buffer ≢ []
    → (complete_execution now result s).0.alarm
      ≡ some (
          if is_some s.state.superseded_at
          then now + 250
          else min (or_else s.state.buffer_started_at now + 1500) (now + 400))
unfolding complete_execution schedule_debounce
complete_execution-alarm now result s h k = ground arith

-- A launch, a message while it waits for the workflow, a crash, and the second run of the alarm
-- handler that the runtime then makes.
abbrev pub crashed_launch : (Text → Text) → ℕ → Text → Text → IngestPayload → Session → Session
crashed_launch to_lower now first second payload s =
    step to_lower (Event.alarm_start true now now second) (
      step to_lower (Event.crash now) (
        step to_lower (Event.ingest_message now payload)
          (step to_lower (Event.alarm_start true now now first) s)))

-- What such a sequence leaves: only the later message, in flight, and a first token that neither
-- claims the output nor completes a run.
pub record Forgets (first : Text) (payload : IngestPayload) (s : Session) : Type 0 where
  pub in_flight : s.state.in_flight_messages ≡ payload.message ∷ []
  pub buffer : s.state.buffer ≡ []
  pub claims : (now : ℕ) → claim_first_outbound now first s ≡ (s, Claim.stale)
  pub completes :
      (now : ℕ) (result : Completion)
      → result.execution_token ≡ first
      → complete_execution now result s ≡ (s, record { accepted = false; should_rerun = false })
