-- ===== src/ChatState/Cleanup/Runs.antt =====
-- The times that the alarm covers, over runs of calls.
use amby.Common.{
  ℕ, ◌+◌, ◌≤◌, max, ◌≡◌, refl, Bool, true, false, subst, not, Option, none, some, List, [], ◌∷◌,
  ◌++◌, map, arith, ltb, filter, any, is_some, Bool-cases, Option-cases, inl, inr, All, All-filter,
  All-imp, length, head?,
}
use amby.Common.Text.{Text, text_eq}
use amby.ChatState.State
use amby.ChatState.State.{
  LockRow, CacheRow, QueueRow, Db, Json, empty_db, cache_expiries, expiries, min_after, next_expiry,
  with_next, schedule_cleanup, locks-schedule_cleanup, cache-schedule_cleanup,
  queue_entries-schedule_cleanup,
}
use amby.ChatState.Lock
use amby.ChatState.Lock.{is_extended, extend_row}
use amby.ChatState.Lock.Exclusion.{is_held, acquire_lock_held, acquire_lock_free}
use amby.ChatState.Cache
use amby.ChatState.Cache.{is_expired, ttl_expiry, put_row, schedule_if, find_row}
use amby.ChatState.Queue
use amby.ChatState.Queue.Order.{inserted}
use amby.ChatState.Cleanup
use amby.ChatState.Cleanup.{Fault, no_fault, swept}
use amby.ChatState.Cleanup.Calls.{Call, step, run}
use amby.ChatState.Cleanup.Coverage.{
  Covers, IsCovered, schedule_cleanup-IsCovered, with_next-IsCovered,
}

Covers-mono : (a : Option ℕ) (t now e : ℕ) → t ≤ now → Covers a t e → Covers a now e
Covers-mono a t now e h (inl k) = inl (omega arith)
Covers-mono a t now e h (inr k) = inr k

IsCovered-mono : {db : Db} (t now : ℕ) → t ≤ now → IsCovered t db → IsCovered now db
IsCovered-mono {db} t now h c = record {
  locks = All-imp _ _ (λ (r : LockRow). Covers-mono db.alarm t now r.expires_at h) db.locks c.locks;
  cache = All-imp _ _ (λ e. Covers-mono db.alarm t now e h) (cache_expiries db.cache) c.cache;
  queue =
      All-imp _ _ (λ (r : QueueRow). Covers-mono db.alarm t now r.expires_at h) db.queue_entries
        c.queue;
  takes = c.takes;
}

module _ (P : ℕ → Type 0) where
  filter-cache_expiries :
      (p : CacheRow → Bool) (rows : List CacheRow)
      → All P (cache_expiries rows)
      → All P (cache_expiries (filter p rows))
  filter-cache_expiries p [] h = tt
  filter-cache_expiries p (r ∷ rows) h = ground (arith, filter-cache_expiries p rows)

  -- A row without an expiry adds none.
  append-cache_expiries :
      (rows : List CacheRow) (r : CacheRow)
      → r.expires_at ≡ none
      → All P (cache_expiries rows)
      → All P (cache_expiries (rows ++ (r ∷ [])))
  append-cache_expiries [] r e h = ground arith
  append-cache_expiries (s ∷ rows) r e h = ground (arith, append-cache_expiries rows r e)

map-extend_row_none :
    (thread token : Text) (now until : ℕ) (rows : List LockRow)
    → any (is_extended thread token now) rows ≡ false
    → map (extend_row thread token now until) rows ≡ rows
map-extend_row_none thread token now until [] h = refl
map-extend_row_none thread token now until (r ∷ rows) h =
    ground (arith, map-extend_row_none thread token now until rows)

module _ (now : ℕ) (db : Db) (c : IsCovered now db) where
  filter_locks : (p : LockRow → Bool) → IsCovered now (record db { locks = filter p db.locks })
  filter_locks p = record {
    locks = All-filter _ p db.locks c.locks;
    cache = c.cache;
    queue = c.queue;
    takes = c.takes;
  }

  filter_cache : (p : CacheRow → Bool) → IsCovered now (record db { cache = filter p db.cache })
  filter_cache p = record {
    locks = c.locks;
    cache = filter-cache_expiries _ p db.cache c.cache;
    queue = c.queue;
    takes = c.takes;
  }

  filter_queue :
      (p : QueueRow → Bool)
      → IsCovered now (record db { queue_entries = filter p db.queue_entries })
  filter_queue p = record {
    locks = c.locks;
    cache = c.cache;
    queue = All-filter _ p db.queue_entries c.queue;
    takes = c.takes;
  }

  acquire_lock-IsCovered :
      (thread : Text) (ttl : ℕ) (token : Text)
      → IsCovered now (Lock.acquire_lock thread ttl token now db).0
  acquire_lock-IsCovered thread ttl token = elim (Bool-cases (is_held thread now db)) [
    | inl e ↦
        rw (acquire_lock_held thread ttl token now db e)
          (unfold Lock.delete_expired in filter_locks _)
    | inr e ↦
        rw (acquire_lock_free thread ttl token now db e) (schedule_cleanup-IsCovered now _ c.takes)
  ]

  extend_lock-IsCovered :
      (thread token : Text) (ttl : ℕ) → IsCovered now (Lock.extend_lock thread token ttl now db).0
  unfolding Lock.extend_lock
  extend_lock-IsCovered thread token ttl =
      elim (Bool-cases (any (is_extended thread token now) db.locks)) [
        | inl e ↦ rw (e, Lock.extend_lock) (schedule_cleanup-IsCovered now _ c.takes)
        | inr e ↦
            rw (e, Lock.extend_lock)
              (rw (map-extend_row_none thread token now (now + ttl) db.locks e) c)
      ]

  cache_get-IsCovered : (key : Text) → IsCovered now (Cache.cache_get key now db).0
  unfolding Cache.cache_get Cache.delete_key
  cache_get-IsCovered key = ground (arith, filter_cache (λ r. not (text_eq r.key key)), c)

  list_get-IsCovered : (json : Json) (key : Text) → IsCovered now (Cache.list_get json key now db).0
  unfolding Cache.list_get
  list_get-IsCovered json key = ground (arith, cache_get-IsCovered key)

  put-IsCovered :
      (key value : Text) (expires : Option ℕ)
      → IsCovered now (
          schedule_if
            (is_some expires)
            now
            (record db { cache = put_row key value expires db.cache }))
  unfolding put_row Cache.delete_key
  put-IsCovered key value none = record {
    locks = c.locks;
    cache =
        append-cache_expiries _ (filter _ db.cache) _ refl
          (filter-cache_expiries _ _ db.cache c.cache);
    queue = c.queue;
    takes = c.takes;
  }
  put-IsCovered key value (some e) = schedule_cleanup-IsCovered now _ c.takes

  cache_set_if_not_exists-IsCovered :
      (key value : Text) (ttl : Option ℕ)
      → IsCovered now (Cache.cache_set_if_not_exists key value ttl now db).0
  unfolding Cache.cache_set_if_not_exists
  cache_set_if_not_exists-IsCovered key value ttl =
      ground (arith, put-IsCovered key value (ttl_expiry now ttl), c)

  enqueue-IsCovered :
      (json : Json) (thread value : Text) (max_size : ℕ)
      → IsCovered now (Queue.enqueue json thread value max_size now db).0
  unfolding Queue.enqueue
  enqueue-IsCovered json thread value max_size =
      elim (Bool-cases (
        ltb (max 1 max_size) (length (Queue.rows_of thread (inserted json thread value now db))))) [
          | inl e ↦ rw (e, Queue.enqueue) (schedule_cleanup-IsCovered now _ c.takes)
          | inr e ↦ rw (e, Queue.enqueue) (schedule_cleanup-IsCovered now _ c.takes)
        ]

  dequeue-IsCovered : (thread : Text) → IsCovered now (Queue.dequeue thread now db).0
  unfolding Queue.dequeue
  dequeue-IsCovered thread =
      elim (Option-cases
        (head? (Queue.rows_of thread (Queue.delete_expired thread now db.queue_entries)))) [
          | inl e ↦ rw (e, Queue.dequeue) expired_gone
          | inr (r, e) ↦ rw (e, Queue.dequeue) (one_gone r)
        ]
    where
      expired_gone :
          IsCovered now
            (record db { queue_entries = Queue.delete_expired thread now db.queue_entries })
      expired_gone = unfold Queue.delete_expired in filter_queue _

      one_gone :
          (r : QueueRow)
          → IsCovered now (record db {
            queue_entries =
                Queue.delete_ids (r ∷ []) (Queue.delete_expired thread now db.queue_entries);
          })
      one_gone r = record {
        locks = c.locks;
        cache = c.cache;
        queue = unfold Queue.delete_ids in All-filter _ _ _ expired_gone.queue;
        takes = c.takes;
      }

  subscribe-IsCovered : (thread : Text) → IsCovered now (State.subscribe thread db)
  unfolding State.subscribe
  subscribe-IsCovered thread = elim (Bool-cases (any (λ t. text_eq t thread) db.subscriptions)) [
    | inl e ↦ rw (e, State.subscribe) c
    | inr e ↦
        rw (e, State.subscribe)
          (record { locks = c.locks; cache = c.cache; queue = c.queue; takes = c.takes })
  ]

alarm-IsCovered :
    (now later : ℕ) (db : Db)
    → db.takes_alarms ≡ true
    → IsCovered now (Cleanup.alarm no_fault now later db)
unfolding Cleanup.alarm Cleanup.delete_all_expired
alarm-IsCovered now later db up =
    let covered = with_next-IsCovered now (swept now db) up in
    elim (Option-cases (next_expiry now (swept now db))) [
      | inl e ↦
          rw (e, Cleanup.alarm) (subst (λ o. IsCovered now (with_next o (swept now db))) e covered)
      | inr (t, e) ↦
          rw (e, Cleanup.alarm) (subst (λ o. IsCovered now (with_next o (swept now db))) e covered)
    ]

-- A call at which no storage operation of the alarm handler fails and `setAlarm` goes on to work.
abbrev pub IsFaultless : Call → Type 0
IsFaultless (Call.alarm fault later) = fault ≡ no_fault
IsFaultless (Call.set_takes_alarms b) = b ≡ true
IsFaultless call = Unit {0}

-- No call makes the alarm late: if it was due by every expiry to come, it still is.
step-IsCovered :
    (json : Json) (now : ℕ) (call : Call) (db : Db)
    → IsFaultless call
    → IsCovered now db
    → IsCovered now (step json now call db).0
unfolding step
step-IsCovered json now (Call.subscribe thread) db h c = subscribe-IsCovered now db c thread
step-IsCovered json now (Call.unsubscribe thread) db h c =
    unfold State.unsubscribe in
    record { locks = c.locks; cache = c.cache; queue = c.queue; takes = c.takes }
step-IsCovered json now (Call.acquire_lock thread ttl token) db h c =
    acquire_lock-IsCovered now db c thread ttl token
step-IsCovered json now (Call.force_release_lock thread) db h c =
    unfold Lock.force_release_lock in filter_locks now db c _
step-IsCovered json now (Call.release_lock thread token) db h c =
    unfold Lock.release_lock in filter_locks now db c _
step-IsCovered json now (Call.extend_lock thread token ttl) db h c =
    extend_lock-IsCovered now db c thread token ttl
step-IsCovered json now (Call.cache_get key) db h c = cache_get-IsCovered now db c key
step-IsCovered json now (Call.cache_set key value ttl) db h c =
    unfold Cache.cache_set in put-IsCovered now db c key value (ttl_expiry now ttl)
step-IsCovered json now (Call.cache_set_if_not_exists key value ttl) db h c =
    cache_set_if_not_exists-IsCovered now db c key value ttl
step-IsCovered json now (Call.cache_delete key) db h c =
    unfold Cache.cache_delete Cache.delete_key in filter_cache now db c _
step-IsCovered json now (Call.list_append key value max_length ttl) db h c =
    unfold Cache.list_append in put-IsCovered now db c key _ (ttl_expiry now ttl)
step-IsCovered json now (Call.list_get key) db h c = list_get-IsCovered now db c json key
step-IsCovered json now (Call.enqueue thread value max_size) db h c =
    enqueue-IsCovered now db c json thread value max_size
step-IsCovered json now (Call.dequeue thread) db h c = dequeue-IsCovered now db c thread
step-IsCovered json now (Call.queue_depth thread) db h c =
    unfold Queue.queue_depth Queue.delete_expired in filter_queue now db c _
step-IsCovered json now (Call.alarm fault later) db h c =
    rw h (alarm-IsCovered now later db c.takes)
step-IsCovered json now (Call.set_takes_alarms b) db h c = record {
  locks = c.locks;
  cache = c.cache;
  queue = c.queue;
  takes = h;
}

-- Calls at times that do not go back, from `t` on.
abbrev pub IsTimely : ℕ → List (ℕ × Call) → Type 0
IsTimely t [] = Unit {0}
IsTimely t ((now, call) ∷ calls) = (t ≤ now) × IsFaultless call × IsTimely now calls

abbrev pub end_time : ℕ → List (ℕ × Call) → ℕ
end_time t [] = t
end_time t ((now, call) ∷ calls) = end_time now calls

-- Over any run of calls at times that do not go back, in which neither a storage operation of the
-- alarm handler fails nor a `setAlarm` of the other calls, the alarm stays due by every expiry to
-- come, if it was at the start.
pub run-IsCovered :
    (json : Json) (t : ℕ) (calls : List (ℕ × Call)) (db : Db)
    → IsTimely t calls
    → IsCovered t db
    → IsCovered (end_time t calls) (run json calls db)
unfolding run
run-IsCovered json t [] db h c = c
run-IsCovered json t ((now, call) ∷ calls) db h c =
    run-IsCovered json now calls (step json now call db).0 h.2
      (step-IsCovered json now call db h.1 (IsCovered-mono t now h.0 c))
