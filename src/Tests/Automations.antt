-- ===== src/Tests/Automations.antt =====
-- Two automations and a pass over them.
use amby.Common.{
  ℕ, ◌≡◌, refl, ap, true, false, Option, none, some, List, [], ◌∷◌, map, arith, ◌<◌, ◌∙◌,
}
use amby.Common.Text.{Text, lit, text_eq}
use mathlib.Core.List.{Memᴰ}
use amby.Harness.Notify.{RawTarget, ChatNumber}
use amby.Automations
use amby.Automations.{Kind, AutomationStatus, Automation, is_due}
use amby.Automations.Dispatch
use amby.Automations.Dispatch.{NextRun, Runner, compute_next_cron_run, dispatch_due_automations}
use amby.Automations.Dispatch.Fired
use amby.Automations.Dispatch.Fired.{IsLater, Rests}

abbrev reminder_of : Text → Kind → ℕ → Automation
reminder_of id kind at = record {
  id = id;
  user_id = lit "u";
  kind = kind;
  status = AutomationStatus.active;
  schedule = some (lit "* * * * *");
  next_run_at = some at;
  last_run_at = none;
  payload = some (lit "Drink");
  delivery_target = some (lit "7");
  created_at = 0;
  updated_at = 0;
}

abbrev rows : List Automation
rows =
    reminder_of (lit "a") Kind.cron 5
    ∷ reminder_of (lit "b") Kind.scheduled 6
    ∷ reminder_of (lit "c") Kind.scheduled 60
    ∷ []

abbrev croner : Text → Text → NextRun
croner schedule tz = NextRun.at 70

abbrev runner : Runner
runner = record {
  raw_of = λ raw. RawTarget.object (some (lit "telegram")) (some (ChatNumber.finite raw));
  description_of = λ raw. some raw;
  schedule_of = λ raw. some raw;
  timezone_of = λ raw. none;
  next_run = some (compute_next_cron_run croner);
  sends = λ chat. true;
  saves = λ id. true;
}

at-70 : (n : ℕ) → ◌≡◌ {A = Option ℕ} (some 70) (some n) → 10 < n
at-70 n h = grind arith

abbrev call : Option (Text → Text → Option ℕ) → Text → Text → Option ℕ
call none schedule tz = none
call (some next) schedule tz = next schedule tz

is_later : IsLater runner.next_run 10
unfolding compute_next_cron_run
is_later next same schedule tz n h = at-70 n (ap (λ o. call o schedule tz) same ∙ h)

dispatch_due_automations-Rests_example :
    Rests (lit "b") 10 (dispatch_due_automations (some runner) true 10 rows).0
unfolding Dispatch.target_of text_eq
dispatch_due_automations-Rests_example =
    Fired.dispatch_due_automations-Rests runner 10 rows (reminder_of (lit "b") Kind.scheduled 6)
      is_later (Memᴰ.tail (Memᴰ.head refl)) refl refl refl refl

sends :
    (dispatch_due_automations (some runner) true 10 rows).1
    ≡ (lit "7", lit "Reminder: Drink") ∷ (lit "7", lit "Reminder: Drink") ∷ []
unfolding dispatch_due_automations Automations.find_due Dispatch.fire_all Dispatch.fire_to text_eq
sends = refl

-- The run that was scheduled once keeps its time.
next_runs :
    map {B = Option ℕ}
      (λ (row : Automation). row.next_run_at)
      (dispatch_due_automations (some runner) true 10 rows).0
    ≡ some 70 ∷ some 6 ∷ some 60 ∷ []
unfolding dispatch_due_automations Automations.find_due Dispatch.fire_all Dispatch.fire_to
    Dispatch.save_run Dispatch.save_cron Dispatch.save Automations.update_status
    compute_next_cron_run text_eq
next_runs = refl

-- A reminder that cannot be sent fails its automation for good, also one that recurs.
statuses :
    map {B = AutomationStatus}
      (λ (row : Automation). row.status)
      (dispatch_due_automations (some (record runner { sends = λ chat. false })) true 10 rows).0
    ≡ AutomationStatus.failed ∷ AutomationStatus.failed ∷ AutomationStatus.active ∷ []
unfolding dispatch_due_automations Automations.find_due Dispatch.fire_all Dispatch.fire_to
    Dispatch.save Automations.update_status text_eq
statuses = refl
