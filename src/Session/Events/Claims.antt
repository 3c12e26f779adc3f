-- ===== src/Session/Events/Claims.antt =====
-- The gate before a run's first output.
use amby.Common.{
  ℕ, ◌+◌, ◌≤◌, max, ◌≡◌, ◌≢◌, ◌⊎◌, refl, Bool, Option, List, [], ◌∷◌, arith, is_some, if◌then◌else◌,
  All,
}
use amby.Common.Text.{Text, text_eq, text_eq_iff}
use amby.Session.State.{SessionState, Session, hydrated_state, persist, schedule_debounce}
use amby.Session.Handlers
use amby.Session.Handlers.{is_active, Claim, ok, buffered, ingest_mid_run}
use amby.Session.Events.{Event, step, restart}

-- How many claims of the token may still be allowed in a state.
abbrev pub open_for : Text → SessionState → ℕ
open_for token s =
    if is_active token s.active_execution_token
    then (if is_some s.superseded_at
        then 0
        else (if is_some s.first_outbound_claimed_at then 0 else 1))
    else 0

-- The same in an object, which may be restarted from its storage.
abbrev pub budget : Text → Session → ℕ
budget token s = max (open_for token s.state) (open_for token (hydrated_state s.stored))

abbrev pub is_ok : Claim → ℕ
is_ok Claim.ok = 1
is_ok _ = 0

abbrev pub allowed_by : Text → Event → Session → ℕ
allowed_by token (Event.claim_first_outbound now t) s =
    if text_eq t token then is_ok (Handlers.claim_first_outbound now t s).1 else 0
allowed_by token event s = 0

-- The claims of the token that are allowed over a run.
pub allowed_claims : (Text → Text) → Text → List Event → Session → ℕ
allowed_claims to_lower token [] s = 0
allowed_claims to_lower token (event ∷ events) s =
    allowed_by token event s + allowed_claims to_lower token events (step to_lower event s)

-- The token is not the one that a new run gets.
abbrev pub IsNotDrawn : Text → Event → Type 0
IsNotDrawn token (Event.alarm_start bound now later drawn) = drawn ≢ token
IsNotDrawn token event = Unit {0}

module _ (token : Text) where
  persist-open_for :
      (s : Session) → open_for token (hydrated_state (persist s).stored) ≡ open_for token s.state
  unfolding persist hydrated_state
  persist-open_for s = refl

  claim-budget :
      (now : ℕ) (t : Text) (s : Session)
      → allowed_by token (Event.claim_first_outbound now t) s
          + budget token (Handlers.claim_first_outbound now t s).0
        ≤ budget token s
  unfolding Handlers.claim_first_outbound hydrated_state
  claim-budget now t s = ground (arith, text_eq_iff t token)

  ingest-budget :
      (to_lower : Text → Text) (now : ℕ) (payload : Handlers.IngestPayload) (s : Session)
      → budget token (Handlers.ingest_message to_lower now payload s) ≤ budget token s
  unfolding Handlers.ingest_message hydrated_state schedule_debounce
  ingest-budget to_lower now payload s = ground arith

  complete-budget :
      (now : ℕ) (result : Handlers.Completion) (s : Session)
      → budget token (Handlers.complete_execution now result s).0 ≤ budget token s
  unfolding Handlers.complete_execution hydrated_state schedule_debounce
  complete-budget now result s = ground arith

  alarm_start-budget :
      (bound : Bool) (now later : ℕ) (drawn : Text) (s : Session)
      → drawn ≢ token
      → budget token (Handlers.alarm_start bound now later drawn s).0 ≤ budget token s
  unfolding Handlers.alarm_start hydrated_state
  alarm_start-budget bound now later drawn s h = ground (arith, text_eq_iff token drawn)

  alarm_finish-budget :
      (created : Option Text) (later : ℕ) (s : Session)
      → budget token (Handlers.alarm_finish created later s) ≤ budget token s
  unfolding Handlers.alarm_finish hydrated_state
  alarm_finish-budget created later s = ground arith

  restart-budget : (now : ℕ) (s : Session) → budget token (restart now s) ≤ budget token s
  unfolding restart
  restart-budget now s = omega arith

  -- What a claim takes is taken off the budget, and nothing else adds to it.
  step-budget :
      (to_lower : Text → Text) (event : Event) (s : Session)
      → IsNotDrawn token event
      → allowed_by token event s + budget token (step to_lower event s) ≤ budget token s
  unfolding step
  step-budget to_lower (Event.ingest_message now payload) s h =
      omega (arith, ingest-budget to_lower now payload s)
  step-budget to_lower (Event.alarm_start bound now later drawn) s h =
      omega (arith, alarm_start-budget bound now later drawn s h)
  step-budget to_lower (Event.alarm_finish created later) s h =
      omega (arith, alarm_finish-budget created later s)
  step-budget to_lower (Event.claim_first_outbound now t) s h = claim-budget now t s
  step-budget to_lower (Event.complete_execution now result) s h =
      omega (arith, complete-budget now result s)
  step-budget to_lower (Event.crash now) s h = omega (arith, restart-budget now s)

  -- Over any run in which the token is not drawn again, whatever calls, launches and crashes it
  -- has, at most as many claims of the token are allowed as were open at the start.
  allowed_claims-le-budget :
      (to_lower : Text → Text) (events : List Event) (s : Session)
      → All (IsNotDrawn token) events
      → allowed_claims to_lower token events s ≤ budget token s
  unfolding allowed_claims
  allowed_claims-le-budget to_lower [] s h = omega arith
  allowed_claims-le-budget to_lower (event ∷ events) s (fresh, h) = omega (
    arith,
    step-budget to_lower event s fresh,
    allowed_claims-le-budget to_lower events (step to_lower event s) h,
  )

  budget-le-one : (s : Session) → budget token s ≤ 1
  budget-le-one s = ground arith

-- Whatever the order of calls, launches and crashes, the claims that are allowed for an execution
-- token that is drawn no more are at most its budget, which is one at most, and zero if, in memory
-- and in storage, its run is not the active one, is superseded or has claimed already.
pub claims_once :
    (to_lower : Text → Text) (token : Text) (events : List Event) (s : Session)
    → All (IsNotDrawn token) events
    → (allowed_claims to_lower token events s ≤ budget token s) × (budget token s ≤ 1)
claims_once to_lower token events s h =
    (allowed_claims-le-budget token to_lower events s h, budget-le-one token s)

-- The gate tells a stale token, a superseded run and a second claim apart, in that order, and
-- changes nothing unless it allows the claim.
pub claim_first_outbound_lem :
    (now : ℕ) (token : Text) (s : Session)
    → ((Handlers.claim_first_outbound now token s).1 ≡ (
        if is_active token s.state.active_execution_token
        then (if is_some s.state.superseded_at
            then Claim.superseded
            else (if is_some s.state.first_outbound_claimed_at
                then Claim.already_claimed
                else Claim.ok))
        else Claim.stale))
      × (((Handlers.claim_first_outbound now token s).1 ≡ Claim.ok)
          ⊎ ((Handlers.claim_first_outbound now token s).0 ≡ s))
unfolding Handlers.claim_first_outbound
claim_first_outbound_lem now token s = (ground arith, ground arith)
