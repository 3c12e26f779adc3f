-- ===== src/ChatState/Cleanup.antt =====
-- The alarm handler, which deletes what has expired and sets the next alarm.
pub mod Calls
pub mod Frame
pub mod Coverage
pub mod Runs
pub mod Alarm
pub mod Keys
use amby.Common.{
  ℕ, ◌+◌, ◌≡◌, refl, inl, inr, Bool, true, false, Option-cases, not, Option, none, some, List, [],
  ◌∷◌, leb, if◌then◌else◌, filter,
}
use amby.ChatState.State.{LockRow, CacheRow, QueueRow, Db, next_expiry}
use amby.ChatState.Cache.{is_expired}

-- Where the body of the handler may throw: in the transaction, which is then rolled back, in the
-- search for the next expiry, or in the call that sets the next alarm; and whether the call that
-- sets the alarm once more after that succeeds.
pub data Fault : Type 0 where
  no_fault : Fault
  transaction_fails next_expiry_fails set_alarm_fails : (retried : Bool) → Fault

unfoldable pub delete_all_expired : ℕ → Db → Db
delete_all_expired now db = record db {
  locks = filter (λ r. not (leb r.expires_at now)) db.locks;
  cache = filter (λ r. not (is_expired now r.expires_at)) db.cache;
  queue_entries = filter (λ r. not (leb r.expires_at now)) db.queue_entries;
}

-- `await this.ctx.storage.setAlarm(Date.now() + 30_000)`
abbrev pub retry_ms : ℕ
retry_ms = 30000

-- The handler's `catch`: if its `setAlarm` fails too, the handler throws, and no alarm is set.
abbrev pub retry : (retried : Bool) → (later : ℕ) → Db → Db
retry retried later db = if retried then record db { alarm = some (later + retry_ms) } else db

-- The tables when the handler looks for the next expiry. The runtime takes the alarm off before it
-- calls the handler.
abbrev pub swept : ℕ → Db → Db
swept now db = delete_all_expired now (record db { alarm = none })

-- `later` is the time at which the handler reports a fault.
unfoldable pub alarm : Fault → ℕ → ℕ → Db → Db
unfolding delete_all_expired
alarm no_fault now later db = elim (next_expiry now (swept now db)) [
  | none ↦ swept now db
  | some next ↦ record (swept now db) { alarm = some next }
]
alarm (transaction_fails retried) now later db = retry retried later (record db { alarm = none })
alarm (next_expiry_fails retried) now later db = retry retried later (swept now db)
alarm (set_alarm_fails retried) now later db = elim (next_expiry now (swept now db)) [
  | none ↦ swept now db
  | some next ↦ retry retried later (swept now db)
]

-- The tables that the handler leaves, up to the alarm.
abbrev pub tables_left : Fault → ℕ → Db → Db
tables_left (transaction_fails retried) now db = db
tables_left fault now db = delete_all_expired now db

retry-eq :
    (retried : Bool) (later : ℕ) (db : Db)
    → (a : Option ℕ) × (retry retried later db ≡ record db { alarm = a })
retry-eq true later db = (some (later + retry_ms), refl)
retry-eq false later db = (db.alarm, refl)

pub alarm-eq :
    (fault : Fault) (now later : ℕ) (db : Db)
    → (a : Option ℕ) × (alarm fault now later db ≡ record (tables_left fault now db) { alarm = a })
unfolding alarm delete_all_expired
alarm-eq no_fault now later db = elim (Option-cases (next_expiry now (swept now db))) [
  | inl e ↦ (none, rw (e, alarm) refl)
  | inr (t, e) ↦ (some t, rw (e, alarm) refl)
]
alarm-eq (transaction_fails retried) now later db =
    retry-eq retried later (record db { alarm = none })
alarm-eq (next_expiry_fails retried) now later db = retry-eq retried later (swept now db)
alarm-eq (set_alarm_fails retried) now later db =
    elim (Option-cases (next_expiry now (swept now db))) [
      | inl e ↦ (none, rw (e, alarm) refl)
      | inr (t, e) ↦
          let (a, same) = retry-eq retried later (swept now db) in (a, rw (e, alarm) same)
    ]
