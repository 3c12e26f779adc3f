-- ===== src/Harness/Notify.antt =====
-- packages/computer/src/harness/reconciliation.ts and reply-target.ts: the pass over stale tasks, and
-- the messages about tasks that have ended. Keeping the sandboxes awake changes no state that is
-- modelled, and the dispatch of automations is in Automations/Dispatch.
pub mod Told
use amby.Common.{
  ℕ, ◌-◌, ◌≡◌, ◌⊎◌, refl, sym, ap, ◌∙◌, inl, inr, Bool, true, false, not, ◌&&◌, Option, none, some,
  List, [], ◌∷◌, ◌++◌, map, any, filter, All, All-filter, arith, if◌then◌else◌, or_else, is_some,
  Bool-cases, Option-cases,
}
use amby.Common.Text.{Text, lit, text_eq, text_eq_iff, text_eq_refl, trim, is_truthy}
use amby.Tasks.Status.{Status, same_status, succeeded, failed, timed_out, lost, is_terminal}
use amby.Tasks.Rows.{Value, Task, TaskDb}
use amby.Tasks.Store.{mark_notified, update_task, update_where}
use amby.Tasks.Queries.{find_pending_notifications, find_stale_sandbox_tasks, is_untold}
use amby.Harness.World.{World, Moment, Outcome, state_of}
use amby.Harness.Probe.{ProbeSight, Spelling, probe_single_task, stale_heartbeat_ms}

abbrev pub blank_line : Text
blank_line = 10 ∷ 10 ∷ []

abbrev pub or_text : Text → Text → Text
or_text [] b = b
or_text (c ∷ a) b = c ∷ a

abbrev pub trimmed : Option Text → Text
trimmed none = []
trimmed (some s) = trim s

-- An error stands on lines of its own.
abbrev pub error_part : Text → Text
error_part [] = []
error_part (c ∷ err) = blank_line ++ (c ∷ err)

unfoldable pub build_notification_message : Task → Option Text
build_notification_message t =
    let summary = or_text (trimmed t.output_summary) (lit "Task finished.") in
    let err = trimmed t.error in
    elim t.status [
      | succeeded ↦ some (lit "Your task is done." ++ blank_line ++ summary)
      | failed ↦ some (
          lit "Your task failed."
          ++ error_part err
          ++ blank_line
          ++ lit "You can ask me to try again.")
      | timed_out ↦ some (
          lit
            "Your task timed out. You can ask me to try again or split the work into smaller steps.")
      | lost ↦ some (lit "I lost track of your task. You can ask me to start it again.")
      | _ ↦ none
    ]

-- A chat is named by the text of its number.
abbrev pub Sent : Type 0
Sent = List (Text × Text)

-- A JSON number, as its text, and the fields of a JSON value that are looked at: its text, if
-- `channel` is one, and its number, if `chatId` is one. All other values are `other`.
pub data ChatNumber : Type 0 where
  finite : (text : Text) → ChatNumber
  not_finite : ChatNumber

pub data RawTarget : Type 0 where
  other : RawTarget
  object : (channel : Option Text) (chat_id : Option ChatNumber) → RawTarget

abbrev pub chat_in : Option Text → Option ChatNumber → Option Text
chat_in none chat_id = none
chat_in (some channel) none = none
chat_in (some channel) (some ChatNumber.not_finite) = none
chat_in (some channel) (some (ChatNumber.finite text)) =
    if text_eq channel (lit "telegram") then some text else none

unfoldable pub parse_reply_target : RawTarget → Option Text
parse_reply_target RawTarget.other = none
parse_reply_target (RawTarget.object channel chat_id) = chat_in channel chat_id

-- The reading of JSON, and whether sending to a chat and writing a row succeed.
pub record Channel : Type 0 where
  pub raw_of : Value → RawTarget
  pub sends : Text → Bool
  pub saves : Text → Bool

unfoldable pub target_of : Channel → Task → Option Text
unfolding parse_reply_target
target_of c t = elim t.reply_target [ none ↦ none | some raw ↦ parse_reply_target (c.raw_of raw) ]

-- A message that is sent is noted in the row, where that succeeds.
unfoldable pub send_to :
    Channel → ℕ → Task → Option Text → Option Text → TaskDb × Sent → TaskDb × Sent
unfolding mark_notified
send_to c now t none text (db, sent) = (db, sent)
send_to c now t (some chat) none (db, sent) = (db, sent)
send_to c now t (some chat) (some text) (db, sent) =
    let told = if c.saves t.id then mark_notified t.id t.status now db else db in
    if c.sends chat then (told, sent ++ ((chat, text) ∷ [])) else (db, sent)

unfoldable pub notify_task : Channel → ℕ → Task → TaskDb × Sent → TaskDb × Sent
unfolding send_to build_notification_message target_of
notify_task c now t = send_to c now t (target_of c t) (build_notification_message t)

unfoldable pub notify_tasks : Channel → ℕ → List Task → TaskDb × Sent → TaskDb × Sent
unfolding notify_task
notify_tasks c now [] x = x
notify_tasks c now (t ∷ ts) x = notify_tasks c now ts (notify_task c now t x)

unfoldable pub notify_pending : Channel → ℕ → TaskDb → TaskDb × Sent
unfolding notify_tasks
notify_pending c now db = notify_tasks c now (find_pending_notifications db) (db, [])

-- The probes of the stale tasks, one after another; an error of one is ignored.
unfoldable pub probe_tasks :
    (Value → Option Text) → Spelling → (Text → Moment × ProbeSight) → List Task → World → World
unfolding probe_single_task
probe_tasks read s sight [] w = w
probe_tasks read s sight (t ∷ ts) w =
    let (m, o) = sight t.id in
    probe_tasks read s sight ts (state_of (probe_single_task read s m o t w))

-- The scheduled pass, with what it sends; without a channel it only probes.
unfoldable pub run_scheduled_reconciliation :
    (Value → Option Text)
    → Spelling
    → (Text → Moment × ProbeSight)
    → Option Channel
    → (now : ℕ) → World
    → World × Sent
unfolding probe_tasks notify_pending
run_scheduled_reconciliation read s sight channel now w =
    let stale = find_stale_sandbox_tasks (now - stale_heartbeat_ms) w.tasks in
    let probed = probe_tasks read s sight stale w in
    elim channel [
      | none ↦ (probed, [])
      | some c ↦
          let (db, sent) = notify_pending c now probed.tasks in (record probed { tasks = db }, sent)
    ]
