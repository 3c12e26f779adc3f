-- ===== src/Automations.antt =====
-- packages/plugins/src/automations/service.ts and packages/db/src/schema/automations.ts: the
-- automations of a user, which the reconciliation fires when they are due.
pub mod Dispatch
use amby.Common.{
  ℕ, Bool, true, false, not, ◌&&◌, Option, none, some, List, [], ◌∷◌, ◌++◌, find?, filter, leb,
  if◌then◌else◌,
}
use amby.Common.Text.{Text, text_eq}
use amby.Tasks.Rows.{Value}

pub data Kind : Type 0 where
  cron scheduled event : Kind

pub data AutomationStatus : Type 0 where
  active pending running completed failed : AutomationStatus

-- `nextRunAt` and `lastRunAt` are null until they are written.
pub record Automation : Type 0 where
  pub id : Text
  pub user_id : Text
  pub kind : Kind
  pub status : AutomationStatus
  pub schedule : Option Value
  pub next_run_at : Option ℕ
  pub last_run_at : Option ℕ
  pub payload : Option Value
  pub delivery_target : Option Value
  pub created_at : ℕ
  pub updated_at : ℕ

-- A field that is not given leaves its column as it is.
pub record Fields : Type 0 where
  pub last_run_at : Option ℕ
  pub next_run_at : Option (Option ℕ)

abbrev pub or_kept : {A : Type 0} → Option A → A → A
or_kept none old = old
or_kept (some new) old = new

abbrev pub or_old : Option ℕ → Option ℕ → Option ℕ
or_old none old = old
or_old (some new) old = some new

abbrev pub set_status : AutomationStatus → Fields → ℕ → Automation → Automation
set_status status fields now row = record row {
  status = status;
  last_run_at = or_old fields.last_run_at row.last_run_at;
  next_run_at = or_kept fields.next_run_at row.next_run_at;
  updated_at = now;
}

unfoldable pub find_by_id : Text → List Automation → Option Automation
find_by_id id rows = find? (λ row. text_eq row.id id) rows

abbrev pub is_active : AutomationStatus → Bool
is_active AutomationStatus.active = true
is_active AutomationStatus.pending = false
is_active AutomationStatus.running = false
is_active AutomationStatus.completed = false
is_active AutomationStatus.failed = false

abbrev pub is_reached : Option ℕ → ℕ → Bool
is_reached none as_of = false
is_reached (some at) as_of = leb at as_of

abbrev pub is_due : ℕ → Automation → Bool
is_due as_of row = is_active row.status && is_reached row.next_run_at as_of

unfoldable pub find_due : ℕ → List Automation → List Automation
find_due as_of rows = filter (is_due as_of) rows

unfoldable pub update_status :
    Text → AutomationStatus → Fields → (now : ℕ) → List Automation → List Automation
update_status id status fields now [] = []
update_status id status fields now (row ∷ rows) =
    (if text_eq row.id id then set_status status fields now row else row)
    ∷ update_status id status fields now rows

unfoldable pub delete : Text → List Automation → List Automation
delete id rows = filter (λ row. not (text_eq row.id id)) rows
