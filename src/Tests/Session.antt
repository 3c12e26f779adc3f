-- ===== src/Tests/Session.antt =====
-- The conversation session at concrete inputs.
use amby.Common.{
  ◌+◌, ◌≤◌, min, ◌≡◌, ◌≢◌, refl, true, none, some, List, [], ◌∷◌, if◌then◌else◌, is_some, or_else,
}
use amby.Common.Text.{Text, ne_of_text_eq, lit, text_eq, ne_of_text_eq, starts_with, trim, is_space}
use amby.Message.{BufferedMessage, text}
use amby.Session.Logic.{is_correction_message, buffer_message}
use amby.Session.State.{Session, processing, schedule_debounce}
use amby.Session.Handlers
use amby.Session.Handlers.{IngestPayload, Completion, Claim, is_active}
use amby.Session.Events.{Event, new_session}
use amby.Session.Events.Claims
use amby.Session.Events.Claims.{allowed_claims, budget}
use amby.Session.Events.Runs
use amby.Session.Events.Debounce

-- Lower-casing stands for the runtime's; these texts have none to change.
abbrev lower : Text → Text
lower t = t

abbrev message : Text → BufferedMessage
message t = record {
  source_message_id = 1;
  date = 5;
  text_summary = t;
  parts = text t ∷ [];
  media_group_id = none;
  from = none;
  raw_source = none;
}

abbrev says : Text → IngestPayload
says t = record { message = message t; chat_id = 7; from = [] }

abbrev done : Completion
done = record { execution_token = lit "e1"; user_id = some (lit "u"); conversation_id = none }

-- A run that is corrected before its first output, and run again.
abbrev corrected : List Event
corrected =
    Event.ingest_message 1000 (says (lit "hi"))
    ∷ Event.alarm_start true 1400 1401 (lit "e1")
    ∷ Event.ingest_message 1402 (says (lit "wait, no"))
    ∷ Event.alarm_finish (some (lit "w")) 1403
    ∷ Event.claim_first_outbound 1500 (lit "e1")
    ∷ Event.complete_execution 1600 done
    ∷ []

abbrev waiting : Session
waiting = Handlers.ingest_message lower 1000 (says (lit "hi")) new_session

abbrev running : Session
running = (Handlers.alarm_start true 1400 1401 (lit "e1") waiting).0

abbrev followed : Session
followed = Handlers.ingest_message lower 1402 (says (lit "wait, no")) running

e2_not_e1 : ◌≢◌ {A = Text} (lit "e2") (lit "e1")
unfolding text_eq
e2_not_e1 = ne_of_text_eq (lit "e2") (lit "e1") refl

-- Two claims of one token, with a crash between them.
abbrev claimed_twice : List Event
claimed_twice =
    Event.alarm_finish (some (lit "w")) 1403
    ∷ Event.claim_first_outbound 1500 (lit "e1")
    ∷ Event.crash 1501
    ∷ Event.alarm_start true 1600 1601 (lit "e2")
    ∷ Event.claim_first_outbound 1502 (lit "e1")
    ∷ []

claims_once_example :
    (allowed_claims lower (lit "e1") claimed_twice running ≤ budget (lit "e1") running)
    × (budget (lit "e1") running ≤ 1)
claims_once_example =
    Claims.claims_once lower (lit "e1") claimed_twice running
      (tt, (tt, (tt, (e2_not_e1, (tt, tt)))))

followed_is_superseded :
    (Handlers.claim_first_outbound 1500 (lit "e1") followed).1 ≡ Claim.superseded
unfolding Handlers.claim_first_outbound Handlers.ingest_message Handlers.alarm_start
    schedule_debounce new_session is_correction_message text_eq trim starts_with buffer_message
    is_space
followed_is_superseded = refl

not_processing : new_session.state.status ≢ processing
unfolding new_session
not_processing e = cc e

ingest_message-alarm_example :
    (Handlers.ingest_message lower 1000 (says (lit "hi")) new_session).alarm
    ≡ some (min (or_else new_session.state.buffer_started_at 1000 + 1500) (1000 + 400))
ingest_message-alarm_example =
    Debounce.ingest_message-alarm lower 1000 (says (lit "hi")) new_session not_processing

has_buffer : followed.state.buffer ≢ []
unfolding Handlers.ingest_message Handlers.alarm_start schedule_debounce new_session buffer_message
    is_correction_message trim starts_with text_eq is_space
has_buffer e = cc e

followed_runs : is_active done.execution_token followed.state.active_execution_token ≡ true
unfolding Handlers.ingest_message Handlers.alarm_start schedule_debounce new_session buffer_message
    is_correction_message trim starts_with text_eq is_space
followed_runs = refl

complete_execution-alarm_example :
    (Handlers.complete_execution 1600 done followed).0.alarm
    ≡ some (
        if is_some followed.state.superseded_at
        then 1600 + 250
        else min (or_else followed.state.buffer_started_at 1600 + 1500) (1600 + 400))
complete_execution-alarm_example =
    Debounce.complete_execution-alarm 1600 done followed followed_runs has_buffer
