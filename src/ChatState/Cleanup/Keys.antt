-- ===== src/ChatState/Cleanup/Keys.antt =====
-- The primary keys of the tables (`migrate`).
use amby.Common.{
  ℕ, ◌+◌, ◌≡◌, ◌≢◌, sym, subst, Bool, true, false, not, Option, List, [], ◌∷◌, ◌++◌, map, arith,
  filter, any, is_some, Bool-cases, inl, inr, All, All-filter, All-append,
}
use amby.Common.Text.{Text, text_eq, text_eq_iff}
use amby.ChatState.State
use amby.ChatState.State.{
  LockRow, CacheRow, QueueRow, Db, Json, empty_db, schedule_cleanup, schedule_cleanup-eq,
  cache-schedule_cleanup,
}
use amby.ChatState.Lock
use amby.ChatState.Lock.{is_extended, extend_row}
use amby.ChatState.Lock.Exclusion.{is_held, fresh_lock, acquire_lock_held, acquire_lock_free}
use amby.ChatState.Cache
use amby.ChatState.Cache.{is_expired, ttl_expiry, put_row, schedule_if, find_row}
use amby.ChatState.Queue
use amby.ChatState.Queue.Deletion.{filter-Rises}
use amby.ChatState.Queue.Order.{IsOrdered, enqueue-IsOrdered, dequeue-IsOrdered}
use amby.ChatState.Cleanup
use amby.ChatState.Cleanup.{Fault, no_fault, transaction_fails, next_expiry_fails, set_alarm_fails}
use amby.ChatState.Cleanup.Frame.{locks-enqueue, locks-dequeue}
use amby.ChatState.Cleanup.Calls.{Call, step, run}

module _ {A : Type 0} (key : A → Text) where
  abbrev pub Differ : A → List A → Type 0
  Differ x = All (λ y. key y ≢ key x)

  abbrev pub Distinct : List A → Type 0
  Distinct [] = Unit {0}
  Distinct (x ∷ xs) = Differ x xs × Distinct xs

  filter-Distinct : (p : A → Bool) (xs : List A) → Distinct xs → Distinct (filter p xs)
  filter-Distinct p [] h = tt
  filter-Distinct p (x ∷ xs) (d, h) =
      ground (arith, All-filter (λ y. key y ≢ key x) p xs d, filter-Distinct p xs h)

  concat-Distinct : (x : A) (xs : List A) → Differ x xs → Distinct xs → Distinct (xs ++ (x ∷ []))
  concat-Distinct x [] d h = (tt, tt)
  concat-Distinct x (y ∷ xs) (n, d) (e, h) =
      (All-append _ xs (x ∷ []) e ((λ q. n (sym q)), tt), concat-Distinct x xs d h)

  Differ-of_any :
      (x : A) (xs : List A) → any (λ y. text_eq (key y) (key x)) xs ≡ false → Differ x xs
  Differ-of_any x [] h = tt
  Differ-of_any x (y ∷ xs) h =
      ((λ e. ground (arith, text_eq_iff (key y) (key x))), Differ-of_any x xs (ground arith))

  Differ-filter : (x : A) (xs : List A) → Differ x (filter (λ y. not (text_eq (key y) (key x))) xs)
  Differ-filter x [] = tt
  Differ-filter x (y ∷ xs) = elim (Bool-cases (text_eq (key y) (key x))) [
    | inl e ↦ rw e (Differ-filter x xs)
    | inr e ↦ rw e ((λ q. cc (e, (text_eq_iff (key y) (key x)).1 q)), Differ-filter x xs)
  ]

Differ-extend :
    (x : LockRow) (thread token : Text) (now until : ℕ) (rows : List LockRow)
    → Differ (λ r. r.thread_id) x rows
    → Differ
        (λ r. r.thread_id)
        (extend_row thread token now until x)
        (map (extend_row thread token now until) rows)
Differ-extend x thread token now until [] h = tt
Differ-extend x thread token now until (r ∷ rows) (d, h) =
    ((λ e. ground arith), Differ-extend x thread token now until rows h)

Distinct-extend :
    (thread token : Text) (now until : ℕ) (rows : List LockRow)
    → Distinct (λ r. r.thread_id) rows
    → Distinct (λ r. r.thread_id) (map (extend_row thread token now until) rows)
Distinct-extend thread token now until [] h = tt
Distinct-extend thread token now until (r ∷ rows) (d, h) =
    (Differ-extend r thread token now until rows d, Distinct-extend thread token now until rows h)

-- One lock for a thread, one row for a key of the cache, and ids in order.
pub record IsValid (db : Db) : Type 0 where
  pub locks : Distinct (λ r. r.thread_id) db.locks
  pub cache : Distinct (λ r. r.key) db.cache
  pub queue : IsOrdered db

schedule-IsValid : (now : ℕ) (db : Db) → IsValid db → IsValid (schedule_cleanup now db)
schedule-IsValid now db v =
    let (a, e) = schedule_cleanup-eq now db in
    subst IsValid (sym e) (record { locks = v.locks; cache = v.cache; queue = v.queue })

schedule_if-IsValid : (b : Bool) (now : ℕ) (db : Db) → IsValid db → IsValid (schedule_if b now db)
schedule_if-IsValid true now db v = schedule-IsValid now db v
schedule_if-IsValid false now db v = v

module _ (now : ℕ) (db : Db) (v : IsValid db) where
  with_locks :
      (rows : List LockRow)
      → Distinct (λ r. r.thread_id) rows
      → IsValid (record db { locks = rows })
  with_locks rows h = record { locks = h; cache = v.cache; queue = v.queue }

  with_cache :
      (rows : List CacheRow) → Distinct (λ r. r.key) rows → IsValid (record db { cache = rows })
  with_cache rows h = record { locks = v.locks; cache = h; queue = v.queue }

  acquire_lock-IsValid :
      (thread : Text) (ttl : ℕ) (token : Text)
      → IsValid (Lock.acquire_lock thread ttl token now db).0
  acquire_lock-IsValid thread ttl token =
      let kept : Distinct (λ r. r.thread_id) (Lock.delete_expired thread now db.locks) =
        unfold Lock.delete_expired in filter-Distinct _ _ db.locks v.locks in
      elim (Bool-cases (is_held thread now db)) [
        | inl e ↦ rw (acquire_lock_held thread ttl token now db e) (with_locks _ kept)
        | inr e ↦ rw (acquire_lock_free thread ttl token now db e) (
            schedule-IsValid now _ (
              with_locks _ (
                concat-Distinct _ _ _
                  (Differ-of_any (λ (r : LockRow). r.thread_id) (fresh_lock thread ttl token now db)
                    _ e)
                  kept)))
      ]

  extend_lock-IsValid :
      (thread token : Text) (ttl : ℕ) → IsValid (Lock.extend_lock thread token ttl now db).0
  unfolding Lock.extend_lock
  extend_lock-IsValid thread token ttl =
      let moved = with_locks _ (Distinct-extend thread token now (now + ttl) db.locks v.locks) in
      elim (Bool-cases (any (is_extended thread token now) db.locks)) [
        | inl e ↦ rw (e, Lock.extend_lock) (schedule-IsValid now _ moved)
        | inr e ↦ rw (e, Lock.extend_lock) moved
      ]

  delete_key-IsValid : (key : Text) → IsValid (record db { cache = Cache.delete_key key db.cache })
  unfolding Cache.delete_key
  delete_key-IsValid key = with_cache _ (filter-Distinct _ _ db.cache v.cache)

  put_row-IsValid :
      (key value : Text) (e : Option ℕ)
      → IsValid (record db { cache = put_row key value e db.cache })
  unfolding put_row Cache.delete_key
  put_row-IsValid key value e = with_cache _ (
      concat-Distinct _ _ _
        (Differ-filter (λ r. r.key) (record { key = key; value = value; expires_at = e }) db.cache)
        (filter-Distinct _ _ db.cache v.cache))

  cache_get-IsValid : (key : Text) → IsValid (Cache.cache_get key now db).0
  unfolding Cache.cache_get
  cache_get-IsValid key = ground (arith, delete_key-IsValid key, v)

  list_get-IsValid : (json : Json) (key : Text) → IsValid (Cache.list_get json key now db).0
  unfolding Cache.list_get
  list_get-IsValid json key = ground (arith, cache_get-IsValid key)

  cache_set-IsValid :
      (key value : Text) (ttl : Option ℕ)
      → IsValid (
          schedule_if
            (is_some (ttl_expiry now ttl))
            now
            (record db { cache = put_row key value (ttl_expiry now ttl) db.cache }))
  cache_set-IsValid key value ttl = schedule_if-IsValid _ now _ (put_row-IsValid key value _)

  cache_set_if_not_exists-IsValid :
      (key value : Text) (ttl : Option ℕ)
      → IsValid (Cache.cache_set_if_not_exists key value ttl now db).0
  unfolding Cache.cache_set_if_not_exists
  cache_set_if_not_exists-IsValid key value ttl = ground (arith, cache_set-IsValid key value ttl, v)

  enqueue-IsValid :
      (json : Json) (thread value : Text) (max_size : ℕ)
      → IsValid (Queue.enqueue json thread value max_size now db).0
  enqueue-IsValid json thread value max_size = record {
    locks = rw (locks-enqueue now db json thread value max_size) v.locks;
    cache = rw (cache-enqueue json thread value max_size) v.cache;
    queue = enqueue-IsOrdered json thread value now db max_size v.queue;
  }
    where
      cache-enqueue :
          (json : Json) (thread value : Text) (max_size : ℕ)
          → (Queue.enqueue json thread value max_size now db).0.cache ≡ db.cache
      cache-enqueue json thread value max_size =
          unfold Queue.enqueue in grind (arith, cache-schedule_cleanup)

  dequeue-IsValid : (thread : Text) → IsValid (Queue.dequeue thread now db).0
  dequeue-IsValid thread = record {
    locks = rw (locks-dequeue now db thread) v.locks;
    cache = rw (cache-dequeue thread) v.cache;
    queue = dequeue-IsOrdered thread now db v.queue;
  }
    where
      cache-dequeue : (thread : Text) → (Queue.dequeue thread now db).0.cache ≡ db.cache
      cache-dequeue thread = unfold Queue.dequeue in ground arith

  subscribe-IsValid : (thread : Text) → IsValid (State.subscribe thread db)
  unfolding State.subscribe
  subscribe-IsValid thread = elim (Bool-cases (any (λ t. text_eq t thread) db.subscriptions)) [
    | inl e ↦ rw (e, State.subscribe) v
    | inr e ↦ rw (e, State.subscribe) (record { locks = v.locks; cache = v.cache; queue = v.queue })
  ]

  delete_all_expired-IsValid : IsValid (Cleanup.delete_all_expired now db)
  unfolding Cleanup.delete_all_expired
  delete_all_expired-IsValid = record {
    locks = filter-Distinct _ _ db.locks v.locks;
    cache = filter-Distinct _ _ db.cache v.cache;
    queue = filter-Rises _ 0 db.next_id db.queue_entries v.queue;
  }

  tables_left-IsValid : (fault : Fault) → IsValid (Cleanup.tables_left fault now db)
  tables_left-IsValid no_fault = delete_all_expired-IsValid
  tables_left-IsValid (transaction_fails retried) = v
  tables_left-IsValid (next_expiry_fails retried) = delete_all_expired-IsValid
  tables_left-IsValid (set_alarm_fails retried) = delete_all_expired-IsValid

  alarm-IsValid : (fault : Fault) (later : ℕ) → IsValid (Cleanup.alarm fault now later db)
  alarm-IsValid fault later =
      let (a, e) = Cleanup.alarm-eq fault now later db in
      let left = tables_left-IsValid fault in
      subst IsValid (sym e) (record { locks = left.locks; cache = left.cache; queue = left.queue })

-- Every call keeps the keys apart and the ids in order, so that no insertion meets a primary key
-- that is taken, whatever the clock and the storage do.
step-IsValid :
    (json : Json) (now : ℕ) (call : Call) (db : Db) → IsValid db → IsValid (step json now call db).0
unfolding step
step-IsValid json now (Call.subscribe thread) db v = subscribe-IsValid now db v thread
step-IsValid json now (Call.unsubscribe thread) db v =
    unfold State.unsubscribe in record { locks = v.locks; cache = v.cache; queue = v.queue }
step-IsValid json now (Call.acquire_lock thread ttl token) db v =
    acquire_lock-IsValid now db v thread ttl token
step-IsValid json now (Call.force_release_lock thread) db v =
    unfold Lock.force_release_lock in with_locks now db v _ (filter-Distinct _ _ db.locks v.locks)
step-IsValid json now (Call.release_lock thread token) db v =
    unfold Lock.release_lock in with_locks now db v _ (filter-Distinct _ _ db.locks v.locks)
step-IsValid json now (Call.extend_lock thread token ttl) db v =
    extend_lock-IsValid now db v thread token ttl
step-IsValid json now (Call.cache_get key) db v = cache_get-IsValid now db v key
step-IsValid json now (Call.cache_set key value ttl) db v =
    unfold Cache.cache_set in cache_set-IsValid now db v key value ttl
step-IsValid json now (Call.cache_set_if_not_exists key value ttl) db v =
    cache_set_if_not_exists-IsValid now db v key value ttl
step-IsValid json now (Call.cache_delete key) db v =
    unfold Cache.cache_delete in delete_key-IsValid now db v key
step-IsValid json now (Call.list_append key value max_length ttl) db v =
    unfold Cache.list_append in schedule_if-IsValid _ now _ (put_row-IsValid now db v key _ _)
step-IsValid json now (Call.list_get key) db v = list_get-IsValid now db v json key
step-IsValid json now (Call.enqueue thread value max_size) db v =
    enqueue-IsValid now db v json thread value max_size
step-IsValid json now (Call.dequeue thread) db v = dequeue-IsValid now db v thread
step-IsValid json now (Call.queue_depth thread) db v =
    unfold Queue.queue_depth Queue.delete_expired in
    record {
      locks = v.locks;
      cache = v.cache;
      queue = filter-Rises _ 0 db.next_id db.queue_entries v.queue;
    }
step-IsValid json now (Call.alarm fault later) db v = alarm-IsValid now db v fault later
step-IsValid json now (Call.set_takes_alarms b) db v = record {
  locks = v.locks;
  cache = v.cache;
  queue = v.queue;
}

run-IsValid :
    (json : Json) (calls : List (ℕ × Call)) (db : Db) → IsValid db → IsValid (run json calls db)
unfolding run
run-IsValid json [] db v = v
run-IsValid json ((now, call) ∷ calls) db v =
    run-IsValid json calls _ (step-IsValid json now call db v)

-- After any run of calls from the empty tables, at any times and with any failures of the alarm
-- handler and of `setAlarm`, a thread has at most one lock, a key at most one row in the cache, and the ids of
-- the queue rise along the table below the counter: no insertion has met a key that was taken.
pub run-empty_db-IsValid :
    (json : Json) (calls : List (ℕ × Call)) → IsValid (run json calls empty_db)
unfolding empty_db
run-empty_db-IsValid json calls =
    run-IsValid json calls empty_db (record { locks = tt; cache = tt; queue = omega arith })
