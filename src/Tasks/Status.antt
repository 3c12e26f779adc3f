-- ===== src/Tasks/Status.antt =====
-- packages/core/src/domain/task.ts and packages/computer/src/harness/task-state.ts: the statuses of
-- a task and the transitions between them.
use amby.Common.{
  ℕ, ◌<◌, ◌≡◌, ◌↔◌, ◌⊎◌, Bool, true, false, ◌||◌, List, [], ◌∷◌, any, arith, if◌then◌else◌, ◌==◌,
}

pub data Status : Type 0 where
  pending awaiting_auth preparing running : Status
  succeeded partial escalated failed cancelled timed_out lost : Status

-- A number for each status, for comparing them.
abbrev pub index : Status → ℕ
index pending = 0
index awaiting_auth = 1
index preparing = 2
index running = 3
index succeeded = 4
index partial = 5
index escalated = 6
index failed = 7
index cancelled = 8
index timed_out = 9
index lost = 10

abbrev pub same_status : Status → Status → Bool
same_status a b = index a == index b

abbrev pub terminal_statuses : List Status
terminal_statuses = succeeded ∷ partial ∷ escalated ∷ failed ∷ cancelled ∷ timed_out ∷ lost ∷ []

abbrev pub is_terminal : Status → Bool
is_terminal status = any (same_status status) terminal_statuses

unfoldable pub is_legal_transition : Status → Status → Bool
is_legal_transition from to =
    if same_status from to
    then true
    else (if is_terminal from
        then false
        else (if is_terminal to then true else elim to [
          | running ↦
              same_status from pending
              || same_status from awaiting_auth
              || same_status from preparing
              || same_status from running
          | preparing ↦ same_status from pending || same_status from awaiting_auth
          | awaiting_auth ↦ same_status from pending || same_status from awaiting_auth
          | pending ↦ same_status from pending
          | _ ↦ false
        ]))

-- How far a status is on the way to the end.
abbrev pub stage : Status → ℕ
stage pending = 0
stage awaiting_auth = 1
stage preparing = 2
stage running = 3
stage _ = 4

-- A transition is legal if it changes nothing or leads to a later stage, of which there are four
-- before the last, that of the terminal statuses; a terminal status leads nowhere else.
pub is_legal_transition-stage :
    (from to : Status)
    → (is_legal_transition from to ≡ true) ↔ ((from ≡ to) ⊎ (stage from < stage to))
unfolding is_legal_transition
is_legal_transition-stage from to = ground arith

pub data Kind : Type 0 where
  task_created task_started task_progress task_heartbeat task_completed task_partial : Kind
  task_escalated task_failed task_timed_out task_lost task_notification_sent : Kind
  backend_notify maintenance_probe : Kind

pub data Source : Type 0 where
  server runtime backend maintenance : Source
