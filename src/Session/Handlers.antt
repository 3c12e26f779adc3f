-- ===== src/Session/Handlers.antt =====
-- The handlers of the durable object: `ingestMessage`, `alarm`, `claimFirstOutbound` and
-- `completeExecution`. Logging and tracing are left out. An object is hydrated before it handles a
-- call, so the handlers start from the state in memory.
use amby.Common.{
  ℕ, suc, ◌+◌, Bool, true, false, Option, none, some, List, [], ◌∷◌, ◌++◌, ◌==◌, if◌then◌else◌,
  is_some, or_else,
}
use amby.Common.Text.{Text, text_eq, is_truthy}
use amby.Message.{BufferedMessage}
use amby.Session.Logic.{is_correction_message, buffer_message}
use amby.Session.State.{
  idle, debouncing, processing, SessionState, Sender, Session, persist, reset_execution_state,
  reset_debounce_state, schedule_debounce,
}

pub record IngestPayload : Type 0 where
  pub message : BufferedMessage
  pub chat_id : ℕ
  pub from : Sender

-- A message that comes while the workflow runs.
unfoldable pub ingest_mid_run : (Text → Text) → ℕ → BufferedMessage → SessionState → SessionState
ingest_mid_run to_lower now message s =
    if is_correction_message to_lower message
    then (if is_some s.first_outbound_claimed_at
        then follow_up
        else record s { superseded_at = some (or_else s.superseded_at now) })
    else follow_up
  where
    follow_up : SessionState
    follow_up = record s { mid_run_followup_count = suc s.mid_run_followup_count }

-- The state with the message in the buffer.
unfoldable pub buffered : IngestPayload → SessionState → SessionState
buffered payload s = record s {
  chat_id = if s.chat_id == 0 then payload.chat_id else s.chat_id;
  buffer = buffer_message payload.message s.buffer;
}

unfoldable pub debounce : ℕ → Bool → Session → Session
unfolding persist
debounce now is_rerun s =
    let (state, deadline) = schedule_debounce now is_rerun s.state in
    persist (record s { state = state; alarm = some deadline })

unfoldable pub ingest_message : (Text → Text) → ℕ → IngestPayload → Session → Session
unfolding ingest_mid_run buffered debounce persist
ingest_message to_lower now payload s =
    let s' : Session = record s {
      state = buffered payload s.state;
      pending_from = some payload.from;
    } in
    let waits =
      debounce now false
        (record s' { state = record (s'.state) { last_buffered_at = some now } }) in
    elim s.state.status [
      | idle ↦ waits
      | debouncing ↦ waits
      | processing ↦
          persist (record s' { state = ingest_mid_run to_lower now payload.message s'.state })
    ]

-- What the workflow is created with.
pub record Launch : Type 0 where
  pub chat_id : ℕ
  pub messages : List BufferedMessage
  pub user_id : Option Text
  pub from : Option Sender
  pub execution_token : Text

abbrev pub launch_retry_ms : ℕ
launch_retry_ms = 5000

-- The launch failed: the messages go back to the front of the buffer.
unfoldable pub restored : SessionState → SessionState
unfolding reset_execution_state
restored s =
    record (reset_execution_state (record s { buffer = s.in_flight_messages ++ s.buffer })) {
      status = idle;
    }

unfoldable pub launch_failed : ℕ → Session → Session
unfolding restored persist
launch_failed later s = persist (record s {
  state = restored s.state;
  alarm = some (later + launch_retry_ms);
  launching = false;
})

-- The buffer moves into flight under a new execution token.
unfoldable pub started : ℕ → Text → SessionState → SessionState
unfolding reset_execution_state reset_debounce_state
started now token s =
    reset_debounce_state (record (reset_execution_state (record s { buffer = [] })) {
      in_flight_messages = s.buffer;
      active_execution_token = some token;
      active_execution_started_at = some now;
      status = processing;
    })

-- `alarm` up to the creation of the workflow, which it waits for; the runtime has taken the alarm
-- off. `bound` says whether the workflow binding is there, `later` is the time of a failure.
unfoldable pub alarm_start : Bool → ℕ → ℕ → Text → Session → Session × Option Launch
unfolding started launch_failed persist reset_debounce_state
alarm_start bound now later token s =
    let s' : Session = record s { alarm = none } in
    elim s.state.buffer [
      | [] ↦ (
        persist (record s' { state = reset_debounce_state (record (s.state) { status = idle }) }),
        none,
      )
      | message ∷ rest ↦
          let run : Session = record s' { state = started now token s.state } in
          if bound
          then (
            record run { launching = true },
            some (record {
              chat_id = s.state.chat_id;
              messages = run.state.in_flight_messages;
              user_id = s.state.user_id;
              from = s.pending_from;
              execution_token = token;
            }),
          )
          else (launch_failed later run, none)
    ]

-- `alarm` from there on: with the id of the workflow, or with nothing if creating it threw.
unfoldable pub alarm_finish : Option Text → ℕ → Session → Session
unfolding launch_failed persist
alarm_finish (some id) later s =
    persist
      (record s { state = record (s.state) { active_workflow_id = some id }; launching = false })
alarm_finish none later s = launch_failed later s

pub data Claim : Type 0 where
  ok stale superseded already_claimed : Claim

-- Whether the token is that of the active execution.
abbrev pub is_active : Text → Option Text → Bool
is_active token none = false
is_active token (some active) = text_eq token active

unfoldable pub claim_first_outbound : ℕ → Text → Session → Session × Claim
unfolding persist
claim_first_outbound now token s =
    if is_active token s.state.active_execution_token
    then (if is_some s.state.superseded_at
        then (s, superseded)
        else (if is_some s.state.first_outbound_claimed_at then (s, already_claimed) else (
          persist (record s { state = record (s.state) { first_outbound_claimed_at = some now } }),
          ok,
        )))
    else (s, stale)

pub record Completion : Type 0 where
  pub execution_token : Text
  pub user_id : Option Text
  pub conversation_id : Option Text

-- `if (value) field = value`
abbrev pub assign : Option Text → Option Text → Option Text
assign none old = old
assign (some value) old = if is_truthy value then some value else old

pub record Reply : Type 0 where
  pub accepted : Bool
  pub should_rerun : Bool

-- The completion of a run that was not superseded, after the identities are noted.
unfoldable pub finish_run : ℕ → Session → Session
unfolding debounce persist reset_execution_state reset_debounce_state
finish_run now s =
    let s' : Session = record s { state = reset_execution_state s.state } in
    let waits = debounce now false s' in
    let rests : Session =
      persist (record s' { state = reset_debounce_state (record (s'.state) { status = idle }) }) in
    elim s.state.buffer [ [] ↦ rests | message ∷ rest ↦ waits ]

-- The completion of a superseded run: its messages are run again, before the buffered ones.
unfoldable pub rerun : ℕ → Session → Session
unfolding debounce persist reset_execution_state
rerun now s = debounce now true (record s {
  state =
      reset_execution_state
        (record (s.state) { buffer = s.state.in_flight_messages ++ s.state.buffer });
})

unfoldable pub complete_execution : ℕ → Completion → Session → Session × Reply
unfolding finish_run rerun
complete_execution now result s =
    let s' : Session = record s {
      state = record (s.state) {
        user_id = assign result.user_id s.state.user_id;
        conversation_id = assign result.conversation_id s.state.conversation_id;
      };
    } in
    if is_active result.execution_token s.state.active_execution_token
    then (if is_some s.state.superseded_at
        then (rerun now s', record { accepted = true; should_rerun = true })
        else (finish_run now s', record { accepted = true; should_rerun = false }))
    else (s, record { accepted = false; should_rerun = false })
