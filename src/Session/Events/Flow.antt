-- ===== src/Session/Events/Flow.antt =====
-- The way of the message parts through the object, event by event.
use amby.Common.{
  ℕ, ◌≡◌, ◌≢◌, refl, sym, ap, ◌∙◌, Bool, true, false, Option, none, some, List, [], ◌∷◌, ◌++◌, map,
  append_assoc, append-nil, arith, is_some, if◌then◌else◌, Bool-cases, inl, inr,
}
use amby.Common.Text.{Text}
use amby.Message.{BufferedMessage, Part}
use amby.Session.Logic.{
  current, migrate_buffer_entries, same_group, merge_buffered_messages, buffer_message,
}
use amby.Session.State.{
  idle, processing, SessionState, Session, hydrated_state, persist, schedule_debounce,
  default_state, reset_execution_state, reset_debounce_state,
}
use amby.Session.Handlers
use amby.Session.Handlers.{
  is_active, buffered, ingest_mid_run, restored, started, assign, IngestPayload, Completion,
}
use amby.Session.Events.{Event, step, restart, new_session, IsAllowed, is_launch_crash}

abbrev pub parts_of : List BufferedMessage → List Part
parts_of [] = []
parts_of (m ∷ ms) = m.parts ++ parts_of ms

pub parts_of-append :
    (xs ys : List BufferedMessage) → parts_of (xs ++ ys) ≡ parts_of xs ++ parts_of ys
parts_of-append [] ys = refl
parts_of-append (m ∷ ms) ys =
    ap (◌++◌ m.parts) (parts_of-append ms ys)
    ∙ sym (append_assoc m.parts (parts_of ms) (parts_of ys))

-- Buffering adds the message's parts at the end, merged into the last message or not.
parts_of-buffer_message :
    (m : BufferedMessage) (buffer : List BufferedMessage)
    → parts_of (buffer_message m buffer) ≡ parts_of buffer ++ m.parts
unfolding buffer_message merge_buffered_messages
parts_of-buffer_message m [] = append-nil m.parts
parts_of-buffer_message m (last ∷ []) =
    elim (Bool-cases (same_group last.media_group_id m.media_group_id)) [
      | inl e ↦ rw e (simp (append-nil))
      | inr e ↦ rw e (simp (append-nil))
    ]
parts_of-buffer_message m (first ∷ second ∷ rest) =
    ap (◌++◌ first.parts) (parts_of-buffer_message m (second ∷ rest))
    ∙ sym (append_assoc first.parts (parts_of (second ∷ rest)) m.parts)

-- What the object still has to answer: the messages in flight, then the buffered ones.
abbrev pub carried : Session → List Part
carried s = parts_of (s.state.in_flight_messages ++ s.state.buffer)

-- What an event should leave of that: a message adds its parts at the end, and the accepted
-- completion of a run that was not superseded takes off what was in flight.
abbrev pub expected : Event → Session → List Part
expected (Event.ingest_message now payload) s = carried s ++ payload.message.parts
expected (Event.complete_execution now result) s =
    if is_active result.execution_token s.state.active_execution_token
    then (if is_some s.state.superseded_at then carried s else parts_of s.state.buffer)
    else carried s
expected event s = carried s

pub record Inv (s : Session) : Type 0 where
  pub running :
      s.state.status ≡ processing
      → (s.alarm ≡ none) × (is_some s.state.active_execution_token ≡ true)
  pub resting :
      s.state.status ≢ processing
      → (s.state.in_flight_messages ≡ []) × (s.state.active_execution_token ≡ none)
  pub waiting : s.state.status ≢ processing → s.state.buffer ≢ [] → is_some s.alarm ≡ true
  pub saved : s.launching ≡ false → hydrated_state s.stored ≡ s.state

pub new_session-Inv : Inv new_session
unfolding new_session hydrated_state default_state
new_session-Inv = record {
  running = λ e. cc;
  resting = λ e. (refl, refl);
  waiting = λ e h. absurd (h refl);
  saved = λ e. refl;
}

migrate_current : (ms : List BufferedMessage) → migrate_buffer_entries (map current ms) ≡ ms
unfolding migrate_buffer_entries
migrate_current [] = refl
migrate_current (m ∷ ms) = ap (◌∷◌ m) (migrate_current ms)

-- Reading back what was stored gives the state that was stored.
pub hydrated_state-persist : (s : Session) → hydrated_state (persist s).stored ≡ s.state
unfolding hydrated_state persist
hydrated_state-persist s =
    rw (migrate_current s.state.buffer, migrate_current s.state.in_flight_messages) refl

saved_state :
    (st : SessionState)
    → hydrated_state (
        some (record {
          state = st;
          buffer = map current st.buffer;
          in_flight_messages = map current st.in_flight_messages;
        }))
      ≡ st
unfolding hydrated_state
saved_state st = rw (migrate_current st.buffer, migrate_current st.in_flight_messages) refl

abbrev noted : Completion → SessionState → SessionState
noted result s = record s {
  user_id = assign result.user_id s.user_id;
  conversation_id = assign result.conversation_id s.conversation_id;
}

ingest-Inv :
    (to_lower : Text → Text) (now : ℕ) (payload : IngestPayload) (s : Session)
    → Inv s
    → Inv (Handlers.ingest_message to_lower now payload s)
unfolding Handlers.ingest_message schedule_debounce
ingest-Inv to_lower now payload s v = record {
  running = λ h. ground arith;
  resting = λ h. ground arith;
  waiting = λ h k. ground arith;
  saved = λ h. ground (
    arith,
    saved_state
        (schedule_debounce now false
          (record (buffered payload s.state) { last_buffered_at = some now })).0,
    saved_state (ingest_mid_run to_lower now payload.message (buffered payload s.state)),
  );
}

claim-Inv :
    (now : ℕ) (token : Text) (s : Session)
    → Inv s
    → Inv (Handlers.claim_first_outbound now token s).0
unfolding Handlers.claim_first_outbound
claim-Inv now token s v = record {
  running = λ h. ground arith;
  resting = λ h. ground arith;
  waiting = λ h k. ground arith;
  saved = λ h.
      ground
        (arith, saved_state (record (s.state) { first_outbound_claimed_at = some now }), v.saved);
}

complete-Inv :
    (now : ℕ) (result : Completion) (s : Session)
    → Inv s
    → Inv (Handlers.complete_execution now result s).0
unfolding Handlers.complete_execution schedule_debounce
complete-Inv now result s v = record {
  running = λ h. ground arith;
  resting = λ h. ground arith;
  waiting = λ h k. ground arith;
  saved = λ h. ground (
    arith,
    saved_state
        (schedule_debounce now true (
          reset_execution_state (record (noted result s.state) {
            buffer = s.state.in_flight_messages ++ s.state.buffer;
          }))).0,
    saved_state (schedule_debounce now false (reset_execution_state (noted result s.state))).0,
    saved_state (
        reset_debounce_state
          (record (reset_execution_state (noted result s.state)) { status = idle })),
    v.saved,
  );
}

alarm_start-Inv :
    (bound : Bool) (now later : ℕ) (token : Text) (s : Session)
    → is_some s.alarm ≡ true
    → s.launching ≡ false
    → Inv s
    → Inv (Handlers.alarm_start bound now later token s).0
unfolding Handlers.alarm_start
alarm_start-Inv bound now later token s a l v = record {
  running = λ h. ground arith;
  resting = λ h. ground arith;
  waiting = λ h k. ground arith;
  saved = λ h. ground (
    arith,
    saved_state (reset_debounce_state (record (s.state) { status = idle })),
    saved_state (restored (started now token s.state)),
  );
}

alarm_finish-Inv :
    (created : Option Text) (later : ℕ) (s : Session)
    → Inv s
    → Inv (Handlers.alarm_finish created later s)
unfolding Handlers.alarm_finish
alarm_finish-Inv created later s v = record {
  running = λ h. ground arith;
  resting = λ h. ground arith;
  waiting = λ h k. ground arith;
  saved = λ h. ground (
    arith,
    saved_state (record (s.state) { active_workflow_id = created }),
    saved_state (restored s.state),
  );
}

-- A restart of an object whose state is stored changes nothing.
restart-eq :
    (now : ℕ) (s : Session)
    → s.launching ≡ false
    → (s.launching ≡ false → hydrated_state s.stored ≡ s.state)
    → restart now s ≡ s
unfolding restart
restart-eq now s l saved = ground (arith, saved l)

-- In every order that the runtime allows, with no crash while a launch is under way: a run in
-- progress has a token and no alarm is set; at rest nothing is in flight and no token is active;
-- what is buffered at rest waits for an alarm; and the stored state is the one in memory.
pub step-Inv :
    (to_lower : Text → Text) (event : Event) (s : Session)
    → IsAllowed event s
    → is_launch_crash event s ≡ false
    → Inv s
    → Inv (step to_lower event s)
unfolding step
step-Inv to_lower (Event.ingest_message now payload) s a c v = ingest-Inv to_lower now payload s v
step-Inv to_lower (Event.alarm_start bound now later drawn) s a c v =
    alarm_start-Inv bound now later drawn s a.0 a.1 v
step-Inv to_lower (Event.alarm_finish created later) s a c v = alarm_finish-Inv created later s v
step-Inv to_lower (Event.claim_first_outbound now t) s a c v = claim-Inv now t s v
step-Inv to_lower (Event.complete_execution now result) s a c v = complete-Inv now result s v
step-Inv to_lower (Event.crash now) s a c v = rw (restart-eq now s c v.saved) v

ingest_fields :
    (to_lower : Text → Text) (now : ℕ) (payload : IngestPayload) (s : Session)
    → ((Handlers.ingest_message to_lower now payload s).state.in_flight_messages
        ≡ s.state.in_flight_messages)
      × ((Handlers.ingest_message to_lower now payload s).state.buffer
          ≡ buffer_message payload.message s.state.buffer)
unfolding Handlers.ingest_message schedule_debounce
ingest_fields to_lower now payload s = ground arith

ingest-carried :
    (to_lower : Text → Text) (now : ℕ) (payload : IngestPayload) (s : Session)
    → carried (Handlers.ingest_message to_lower now payload s) ≡ carried s ++ payload.message.parts
ingest-carried to_lower now payload s =
    rw ((ingest_fields to_lower now payload s).0, (ingest_fields to_lower now payload s).1)
      (simp (parts_of-append, parts_of-buffer_message, append_assoc))

alarm_start-carried :
    (bound : Bool) (now later : ℕ) (token : Text) (s : Session)
    → is_some s.alarm ≡ true
    → Inv s
    → carried (Handlers.alarm_start bound now later token s).0 ≡ carried s
unfolding Handlers.alarm_start
alarm_start-carried bound now later token s a v =
    let empty : s.state.in_flight_messages ≡ [] = (v.resting (λ e. cc ((v.running e).0, a))).0 in
    elim (Bool-cases bound) [
      | inl e ↦ ground (arith, append-nil s.state.buffer)
      | inr e ↦ ground (arith, append-nil s.state.buffer)
    ]

alarm_finish-carried :
    (created : Option Text) (later : ℕ) (s : Session)
    → carried (Handlers.alarm_finish created later s) ≡ carried s
unfolding Handlers.alarm_finish
alarm_finish-carried created later s = ground arith

claim-carried :
    (now : ℕ) (token : Text) (s : Session)
    → carried (Handlers.claim_first_outbound now token s).0 ≡ carried s
unfolding Handlers.claim_first_outbound
claim-carried now token s = ground arith

complete-carried :
    (now : ℕ) (result : Completion) (s : Session)
    → carried (Handlers.complete_execution now result s).0
      ≡ expected (Event.complete_execution now result) s
unfolding Handlers.complete_execution schedule_debounce
complete-carried now result s = ground arith

-- In every order that the runtime allows, with no crash while a launch is under way, no part of a
-- message is lost, doubled or moved: a message adds its parts behind those that are in flight or
-- buffered, the accepted completion of a run that was not superseded takes off those in flight,
-- and no other event changes them. A superseded run's messages stay in front.
pub step-carried :
    (to_lower : Text → Text) (event : Event) (s : Session)
    → IsAllowed event s
    → is_launch_crash event s ≡ false
    → Inv s
    → carried (step to_lower event s) ≡ expected event s
unfolding step
step-carried to_lower (Event.ingest_message now payload) s a c v =
    ingest-carried to_lower now payload s
step-carried to_lower (Event.alarm_start bound now later drawn) s a c v =
    alarm_start-carried bound now later drawn s a.0 v
step-carried to_lower (Event.alarm_finish created later) s a c v =
    alarm_finish-carried created later s
step-carried to_lower (Event.claim_first_outbound now t) s a c v = claim-carried now t s
step-carried to_lower (Event.complete_execution now result) s a c v = complete-carried now result s
step-carried to_lower (Event.crash now) s a c v = ap carried (restart-eq now s c v.saved)
