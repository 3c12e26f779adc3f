-- ===== src/ChatState/State.antt =====
-- The tables of the durable object, and what its operations share (`migrate`, `nextExpiry`,
-- `scheduleCleanupIfNeeded`, and the readers of JSON values).
-- A table is a list of rows in the order of insertion. Times are milliseconds and no negative
-- numbers; the runtime holds the clock still while an operation runs, so each takes one `now`.
use amby.Common.{
  ℕ, min, not, Option, none, some, List, [], ◌∷◌, ◌++◌, map, ltb, if◌then◌else◌, filter, any, Bool,
  true, Bool-cases, inl, inr, ◌≡◌, refl, ap, Option-cases,
}
use amby.Common.Text.{Text, text_eq}

pub record LockRow : Type 0 where
  pub thread_id : Text
  pub token : Text
  pub expires_at : ℕ

pub record CacheRow : Type 0 where
  pub key : Text
  pub value : Text
  pub expires_at : Option ℕ

pub record QueueRow : Type 0 where
  pub id : ℕ
  pub thread_id : Text
  pub value : Text
  pub expires_at : ℕ

-- `next_id` is the counter of the AUTOINCREMENT column, `alarm` the one alarm of the object.
-- `takes_alarms` says whether the runtime's `setAlarm` succeeds at the time, or rejects.
pub record Db : Type 0 where
  pub subscriptions : List Text
  pub locks : List LockRow
  pub cache : List CacheRow
  pub queue_entries : List QueueRow
  pub next_id : ℕ
  pub alarm : Option ℕ
  pub takes_alarms : Bool

-- The tables that the migration creates.
unfoldable pub empty_db : Db
empty_db = record {
  subscriptions = [];
  locks = [];
  cache = [];
  queue_entries = [];
  next_id = 1;
  alarm = none;
  takes_alarms = true;
}

-- What `JSON.parse` gives, as far as the object looks at it.
pub data Entry : Type 0 where
  str : Text → Entry
  other : Entry

pub data Parsed : Type 0 where
  array : List Entry → Parsed
  object : (expires_at : Option ℕ) → Parsed
  scalar : Parsed

-- The JSON functions of the runtime; `parse` gives `none` where it throws.
pub record Json : Type 0 where
  pub parse : Text → Option Parsed
  pub stringify : List Text → Text

abbrev pub strings : List Entry → List Text
strings [] = []
strings (str s ∷ es) = s ∷ strings es
strings (other ∷ es) = strings es

unfoldable pub parse_string_list : Json → Text → List Text
parse_string_list json raw = elim (json.parse raw) [
  | none ↦ []
  | some parsed ↦ elim parsed [ array es ↦ strings es | object e ↦ [] | scalar ↦ [] ]
]

unfoldable pub read_queue_expiry : Json → Text → Option ℕ
read_queue_expiry json raw = elim (json.parse raw) [
  | none ↦ none
  | some parsed ↦ elim parsed [ array es ↦ none | object e ↦ e | scalar ↦ none ]
]

-- The expiry column of the cache as a list: a NULL has no place in it.
abbrev pub cache_expiries : List CacheRow → List ℕ
cache_expiries [] = []
cache_expiries (r ∷ rs) =
    let rest = cache_expiries rs in elim r.expires_at [ none ↦ rest | some e ↦ e ∷ rest ]

abbrev pub expiries : Db → List ℕ
expiries db =
    map (λ r. r.expires_at) db.locks
    ++ (cache_expiries db.cache ++ map (λ r. r.expires_at) db.queue_entries)

-- `MIN` of the expiry times after `now`; `none` is the NULL of no row.
unfoldable pub min_after : ℕ → List ℕ → Option ℕ
min_after now [] = none
min_after now (e ∷ es) = elim (min_after now es) [
  | none ↦ if ltb now e then some e else none
  | some m ↦ if ltb now e then some (min e m) else some m
]

unfoldable pub next_expiry : ℕ → Db → Option ℕ
unfolding min_after
next_expiry now db = min_after now (expiries db)

-- `setAlarm` replaces the alarm. Its failure is only logged, and the alarm stays as it was.
unfoldable pub schedule_cleanup : ℕ → Db → Db
schedule_cleanup now db = elim (next_expiry now db) [
  | none ↦ db
  | some next ↦ if db.takes_alarms then record db { alarm = some next } else db
]

-- `INSERT OR IGNORE`.
unfoldable pub subscribe : Text → Db → Db
subscribe thread db =
    if any (λ t. text_eq t thread) db.subscriptions
    then db
    else record db { subscriptions = db.subscriptions ++ (thread ∷ []) }

unfoldable pub unsubscribe : Text → Db → Db
unsubscribe thread db = record db {
  subscriptions = filter (λ t. not (text_eq t thread)) db.subscriptions;
}

unfoldable pub is_subscribed : Text → Db → Bool
is_subscribed thread db = any (λ t. text_eq t thread) db.subscriptions

-- Scheduling writes the alarm alone.
pub schedule_cleanup-eq :
    (now : ℕ) (db : Db) → (a : Option ℕ) × (schedule_cleanup now db ≡ record db { alarm = a })
unfolding schedule_cleanup
schedule_cleanup-eq now db = elim (Option-cases (next_expiry now db)) [
  | inl e ↦ (db.alarm, rw (e, schedule_cleanup) refl)
  | inr (t, e) ↦ elim (Bool-cases db.takes_alarms) [
    | inl up ↦ (some t, rw (e, up, schedule_cleanup) refl)
    | inr down ↦ (db.alarm, rw (e, down, schedule_cleanup) refl)
  ]
]

abbrev pub with_next : Option ℕ → Db → Db
with_next none db = db
with_next (some next) db = record db { alarm = some next }

-- Where the runtime takes the alarm, it is set to the next expiry, if there is one.
pub schedule_cleanup-with_next :
    (now : ℕ) (db : Db)
    → db.takes_alarms ≡ true
    → schedule_cleanup now db ≡ with_next (next_expiry now db) db
unfolding schedule_cleanup
schedule_cleanup-with_next now db up = elim (Option-cases (next_expiry now db)) [
  | inl e ↦ rw (e, schedule_cleanup) refl
  | inr (t, e) ↦
      rw (e, schedule_cleanup) (ap (λ b. if b then record db { alarm = some t } else db) up)
]

module _ (now : ℕ) (db : Db) where
  pub locks-schedule_cleanup : (schedule_cleanup now db).locks ≡ db.locks
  locks-schedule_cleanup = ap (λ (d : Db). d.locks) (schedule_cleanup-eq now db).1

  pub cache-schedule_cleanup : (schedule_cleanup now db).cache ≡ db.cache
  cache-schedule_cleanup = ap (λ (d : Db). d.cache) (schedule_cleanup-eq now db).1

  pub queue_entries-schedule_cleanup : (schedule_cleanup now db).queue_entries ≡ db.queue_entries
  queue_entries-schedule_cleanup = ap (λ (d : Db). d.queue_entries) (schedule_cleanup-eq now db).1

  pub takes_alarms-schedule_cleanup : (schedule_cleanup now db).takes_alarms ≡ db.takes_alarms
  takes_alarms-schedule_cleanup = ap (λ (d : Db). d.takes_alarms) (schedule_cleanup-eq now db).1

  pub next_id-schedule_cleanup : (schedule_cleanup now db).next_id ≡ db.next_id
  next_id-schedule_cleanup = ap (λ (d : Db). d.next_id) (schedule_cleanup-eq now db).1
