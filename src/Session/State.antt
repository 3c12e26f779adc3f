-- ===== src/Session/State.antt =====
-- The state of the durable object, its stored copy, and the helpers that reset and schedule.
use amby.Common.{ℕ, Bool, Option, none, some, List, [], map, or_else}
use amby.Common.Text.{Text}
use amby.Message.{Scalar, BufferedMessage}
use amby.Session.Logic.{StoredEntry, current, migrate_buffer_entries, compute_debounce_deadline}

pub data Status : Type 0 where
  idle debouncing processing : Status

pub record SessionState : Type 0 where
  pub status : Status
  pub user_id : Option Text
  pub conversation_id : Option Text
  pub chat_id : ℕ
  pub buffer : List BufferedMessage
  pub active_workflow_id : Option Text
  pub buffer_started_at : Option ℕ
  pub debounce_deadline_at : Option ℕ
  pub last_buffered_at : Option ℕ
  pub in_flight_messages : List BufferedMessage
  pub active_execution_token : Option Text
  pub active_execution_started_at : Option ℕ
  pub first_outbound_claimed_at : Option ℕ
  pub superseded_at : Option ℕ
  pub mid_run_followup_count : ℕ

unfoldable pub default_state : SessionState
default_state = record {
  status = idle;
  user_id = none;
  conversation_id = none;
  chat_id = 0;
  buffer = [];
  active_workflow_id = none;
  buffer_started_at = none;
  debounce_deadline_at = none;
  last_buffered_at = none;
  in_flight_messages = [];
  active_execution_token = none;
  active_execution_started_at = none;
  first_outbound_claimed_at = none;
  superseded_at = none;
  mid_run_followup_count = 0;
}

-- What lies in storage under "state": its messages may be of the older format.
pub record Stored : Type 0 where
  pub state : SessionState
  pub buffer : List StoredEntry
  pub in_flight_messages : List StoredEntry

-- `pendingFrom` of the storage.
abbrev pub Sender : Type 0
Sender = List (Text × Scalar)

-- The object: the state in memory, the storage, and the alarm. `launching` says that the alarm
-- handler waits for the workflow to be created, the one wait during which other calls come in.
pub record Session : Type 0 where
  pub state : SessionState
  pub open state use *
  pub stored : Option Stored
  pub pending_from : Option Sender
  pub alarm : Option ℕ
  pub launching : Bool

unfoldable pub hydrated_state : Option Stored → SessionState
unfolding default_state migrate_buffer_entries
hydrated_state none = default_state
hydrated_state (some stored) = record (stored.state) {
  buffer = migrate_buffer_entries stored.buffer;
  in_flight_messages = migrate_buffer_entries stored.in_flight_messages;
}

unfoldable pub persist : Session → Session
persist s = record s {
  stored = some (record {
    state = s.state;
    buffer = map current s.state.buffer;
    in_flight_messages = map current s.state.in_flight_messages;
  });
}

unfoldable pub reset_execution_state : SessionState → SessionState
reset_execution_state s = record s {
  in_flight_messages = [];
  active_workflow_id = none;
  active_execution_token = none;
  active_execution_started_at = none;
  first_outbound_claimed_at = none;
  superseded_at = none;
  mid_run_followup_count = 0;
}

unfoldable pub reset_debounce_state : SessionState → SessionState
reset_debounce_state s = record s {
  buffer_started_at = none;
  debounce_deadline_at = none;
  last_buffered_at = none;
}

-- The state and the alarm that are set.
unfoldable pub schedule_debounce : ℕ → Bool → SessionState → SessionState × ℕ
unfolding compute_debounce_deadline
schedule_debounce now is_rerun s =
    let started = or_else s.buffer_started_at now in
    let deadline = compute_debounce_deadline now (some started) is_rerun in
    (
      record s {
        buffer_started_at = some started;
        debounce_deadline_at = some deadline;
        status = debouncing;
      },
      deadline,
    )
