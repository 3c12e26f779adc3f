-- ===== src/Automations/Dispatch.antt =====
-- packages/computer/src/harness/reconciliation.ts, `dispatchDueAutomations`: the automations that
-- are due send their reminder, and their rows say when they run next.
pub mod Fired
use amby.Common.{ℕ, Bool, true, false, Option, none, some, List, [], ◌∷◌, ◌++◌, if◌then◌else◌}
use amby.Common.Text.{Text, lit}
use amby.Tasks.Rows.{Value}
use amby.Harness.Notify.{RawTarget, parse_reply_target}
use amby.Automations.{
  Kind, Kind.cron, Kind.scheduled, Kind.event, AutomationStatus, Automation, Fields, find_due,
  update_status,
}

abbrev pub Sent : Type 0
Sent = List (Text × Text)

-- What croner does with an expression and a time zone: it throws, has no next run or names one.
pub data NextRun : Type 0 where
  throws never : NextRun
  at : ℕ → NextRun

-- packages/plugins/src/automations/cron.ts.
unfoldable pub compute_next_cron_run : (croner : Text → Text → NextRun) → Text → Text → Option ℕ
compute_next_cron_run croner schedule tz = elim (croner schedule tz) [
  | NextRun.throws ↦ none
  | NextRun.never ↦ none
  | NextRun.at n ↦ some n
]

-- How the columns are read (the fields of a target, the text of a payload, the schedule and its
-- time zone), what the calls of other code do, and whether a message or a row gets through.
pub record Runner : Type 0 where
  pub raw_of : Value → RawTarget
  pub description_of : Value → Option Text
  pub schedule_of : Value → Option Text
  pub timezone_of : Value → Option Text
  pub next_run : Option (Text → Text → Option ℕ)
  pub sends : Text → Bool
  pub saves : Text → Bool

abbrev pub read : (Value → Option Text) → Option Value → Option Text
read f none = none
read f (some raw) = f raw

abbrev pub or_default : Option Text → Text → Text
or_default none d = d
or_default (some t) d = t

abbrev pub reminder : Runner → Automation → Text
reminder r row = lit "Reminder: " ++ or_default (read r.description_of row.payload) (lit "Reminder")

unfoldable pub target_of : Runner → Automation → Option Text
unfolding parse_reply_target
target_of r row = read (λ raw. parse_reply_target (r.raw_of raw)) row.delivery_target

-- The fields that the updates give.
abbrev pub as_it_is : Fields
as_it_is = record { last_run_at = none; next_run_at = none }

abbrev pub ran : ℕ → Fields
ran now = record { last_run_at = some now; next_run_at = none }

abbrev pub ran_until : ℕ → ℕ → Fields
ran_until now n = record { last_run_at = some now; next_run_at = some (some n) }

-- An error of the repository is ignored.
unfoldable pub save :
    Runner → Text → AutomationStatus → Fields → ℕ → List Automation → List Automation
unfolding update_status
save r id status fields now rows =
    if r.saves id then update_status id status fields now rows else rows

-- The next run of a cron automation; an empty schedule is none.
abbrev pub next_of : Option (Text → Text → Option ℕ) → Option Text → Text → Option ℕ
next_of none schedule tz = none
next_of (some next) none tz = none
next_of (some next) (some []) tz = none
next_of (some next) (some (c ∷ s)) tz = next (c ∷ s) tz

abbrev pub next_run_of : Runner → Automation → Option ℕ
next_run_of r row =
    next_of r.next_run (read r.schedule_of row.schedule)
      (or_default (read r.timezone_of row.schedule) (lit "UTC"))

unfoldable pub save_cron : Runner → ℕ → Text → Option ℕ → List Automation → List Automation
unfolding save
save_cron r now id none rows = save r id AutomationStatus.failed (ran now) now rows
save_cron r now id (some n) rows = save r id AutomationStatus.active (ran_until now n) now rows

-- What is written once the reminder is out. A run that was scheduled once leaves its time in the
-- row, since an undefined field is not written.
unfoldable pub save_run : Runner → ℕ → Automation → Kind → List Automation → List Automation
unfolding save save_cron
save_run r now row Kind.scheduled rows = save r row.id AutomationStatus.completed (ran now) now rows
save_run r now row Kind.cron rows = save_cron r now row.id (next_run_of r row) rows
save_run r now row Kind.event rows = rows

-- One automation that is due; a message that cannot be sent fails it.
unfoldable pub fire_to :
    Runner → ℕ → Automation → Option Text → List Automation × Sent → List Automation × Sent
unfolding save save_run
fire_to r now row none (rows, sent) = (rows, sent)
fire_to r now row (some chat) (rows, sent) =
    if r.sends chat
    then (save_run r now row row.kind rows, sent ++ ((chat, reminder r row) ∷ []))
    else (save r row.id AutomationStatus.failed as_it_is now rows, sent)

unfoldable pub fire_all :
    Runner → ℕ → List Automation → List Automation × Sent → List Automation × Sent
unfolding fire_to target_of
fire_all r now [] x = x
fire_all r now (row ∷ rest) x = fire_all r now rest (fire_to r now row (target_of r row) x)

-- Whether the rows can be read; without a channel or a repository nothing is done.
unfoldable pub dispatch_due_automations :
    Option Runner → (reads : Bool) → ℕ → List Automation → List Automation × Sent
unfolding find_due fire_all
dispatch_due_automations none reads now rows = (rows, [])
dispatch_due_automations (some r) reads now rows =
    if reads then fire_all r now (find_due now rows) (rows, []) else (rows, [])
