-- ===== src/ChatState/Cleanup/Calls.antt =====
-- The calls that the object receives, one at a time, as one step function. The runtime's `setAlarm`
-- may also begin to fail, or to work again.
use amby.Common.{ℕ, Bool, Option, none, some, List, [], ◌∷◌, ◌++◌}
use amby.Common.Text.{Text}
use amby.ChatState.State
use amby.ChatState.State.{LockRow, Db, Json}
use amby.ChatState.Lock
use amby.ChatState.Cache
use amby.ChatState.Queue
use amby.ChatState.Cleanup
use amby.ChatState.Cleanup.{Fault}

pub data Call : Type 0 where
  subscribe : Text → Call
  unsubscribe : Text → Call
  acquire_lock : (thread : Text) (ttl : ℕ) (token : Text) → Call
  force_release_lock : (thread : Text) → Call
  release_lock : (thread token : Text) → Call
  extend_lock : (thread token : Text) (ttl : ℕ) → Call
  cache_get : (key : Text) → Call
  cache_set : (key value : Text) (ttl : Option ℕ) → Call
  cache_set_if_not_exists : (key value : Text) (ttl : Option ℕ) → Call
  cache_delete : (key : Text) → Call
  list_append : (key value : Text) (max_length ttl : Option ℕ) → Call
  list_get : (key : Text) → Call
  enqueue : (thread value : Text) (max_size : ℕ) → Call
  dequeue : (thread : Text) → Call
  queue_depth : (thread : Text) → Call
  alarm : Fault → (later : ℕ) → Call
  set_takes_alarms : Bool → Call

-- The new tables, and the lock that the call hands out.
unfoldable pub step : Json → ℕ → Call → Db → Db × Option LockRow
step json now (Call.subscribe thread) db = (State.subscribe thread db, none)
step json now (Call.unsubscribe thread) db = (State.unsubscribe thread db, none)
step json now (Call.acquire_lock thread ttl token) db = Lock.acquire_lock thread ttl token now db
step json now (Call.force_release_lock thread) db = (Lock.force_release_lock thread db, none)
step json now (Call.release_lock thread token) db = (Lock.release_lock thread token db, none)
step json now (Call.extend_lock thread token ttl) db =
    ((Lock.extend_lock thread token ttl now db).0, none)
step json now (Call.cache_get key) db = ((Cache.cache_get key now db).0, none)
step json now (Call.cache_set key value ttl) db = (Cache.cache_set key value ttl now db, none)
step json now (Call.cache_set_if_not_exists key value ttl) db =
    ((Cache.cache_set_if_not_exists key value ttl now db).0, none)
step json now (Call.cache_delete key) db = (Cache.cache_delete key db, none)
step json now (Call.list_append key value max_length ttl) db =
    (Cache.list_append json key value max_length ttl now db, none)
step json now (Call.list_get key) db = ((Cache.list_get json key now db).0, none)
step json now (Call.enqueue thread value max_size) db =
    ((Queue.enqueue json thread value max_size now db).0, none)
step json now (Call.dequeue thread) db = ((Queue.dequeue thread now db).0, none)
step json now (Call.queue_depth thread) db = ((Queue.queue_depth thread now db).0, none)
step json now (Call.alarm fault later) db = (Cleanup.alarm fault now later db, none)
step json now (Call.set_takes_alarms b) db = (record db { takes_alarms = b }, none)

unfoldable pub run : Json → List (ℕ × Call) → Db → Db
run json [] db = db
run json ((now, call) ∷ calls) db = run json calls (step json now call db).0

abbrev pub granted_by : Option LockRow → List LockRow
granted_by none = []
granted_by (some row) = row ∷ []

-- The locks handed out over a run.
unfoldable pub grants : Json → List (ℕ × Call) → Db → List LockRow
grants json [] db = []
grants json ((now, call) ∷ calls) db =
    let (db', granted) = step json now call db in granted_by granted ++ grants json calls db'
