-- ===== src/ChatState/Lock/Exclusion.antt =====
-- Locks over runs of calls (`acquireLock` and the calls that touch the same table).
use mathlib.Core.List.{Memᴰ}
use amby.Common.{
  subst, sym, ℕ, ◌<◌, ◌⊎◌, ◌≡◌, ◌≢◌, refl, sym, Bool, true, false, not, ◌&&◌, Option, none, some,
  List, [], ◌∷◌, ◌++◌, map, arith, leb, ltb, any, All, All-append, filter-Mem, any_of_Mem,
  append_left-Mem, map-Mem_fixed, ◌+◌, Bool-cases, inl, inr, if◌then◌else◌,
}
use amby.Common.Text.{Text, text_eq, text_eq_iff}
use amby.ChatState.State
use amby.ChatState.State.{LockRow, Db, Json, schedule_cleanup, locks-schedule_cleanup}
use amby.ChatState.Lock.{
  delete_expired, acquire_lock, force_release_lock, release_lock, extend_lock, extend_row,
  is_extended,
}
use amby.ChatState.Cache
use amby.ChatState.Queue
use amby.ChatState.Cleanup
use amby.ChatState.Cleanup.{Fault}
use amby.ChatState.Cleanup.Frame.{
  locks-subscribe, locks-cache_get, locks-list_get, locks-cache_set, locks-cache_set_if_not_exists,
  locks-list_append, locks-enqueue, locks-dequeue,
}
use amby.ChatState.Cleanup.Calls.{Call, step, run, grants, granted_by}

-- Whether a lock on the thread is left once its expired ones are deleted.
abbrev pub is_held : Text → ℕ → Db → Bool
is_held thread now db = any (λ r. text_eq r.thread_id thread) (delete_expired thread now db.locks)

module _ (thread : Text) (ttl : ℕ) (token : Text) (now : ℕ) (db : Db) where
  abbrev pub fresh_lock : LockRow
  fresh_lock = record { thread_id = thread; token = token; expires_at = now + ttl }

  -- What `acquire_lock` does on its two branches.
  pub acquire_lock_held :
      is_held thread now db ≡ true
      → acquire_lock thread ttl token now db
        ≡ (record db { locks = delete_expired thread now db.locks }, none)
  unfolding acquire_lock
  acquire_lock_held e = ground arith

  pub acquire_lock_free :
      is_held thread now db ≡ false
      → acquire_lock thread ttl token now db ≡ (
        schedule_cleanup now
            (record db { locks = delete_expired thread now db.locks ++ (fresh_lock ∷ []) }),
        some fresh_lock,
      )
  unfolding acquire_lock
  acquire_lock_free e = ground arith

-- A call that neither breaks the lock by force nor comes from its holder, before it expires.
abbrev pub IsForeign : LockRow → ℕ × Call → Type 0
IsForeign row (now, Call.force_release_lock thread) =
    (now < row.expires_at) × (row.thread_id ≢ thread)
IsForeign row (now, Call.release_lock thread token) =
    (now < row.expires_at) × ((row.thread_id ≢ thread) ⊎ (row.token ≢ token))
IsForeign row (now, Call.extend_lock thread token ttl) =
    (now < row.expires_at) × ((row.thread_id ≢ thread) ⊎ (row.token ≢ token))
IsForeign row (now, call) = (now < row.expires_at) × Unit {0}

schedule-Mem :
    {row : LockRow} (now : ℕ) (db : Db)
    → Memᴰ row db.locks
    → Memᴰ row (schedule_cleanup now db).locks
schedule-Mem now db m = rw (locks-schedule_cleanup now db) m

module _ (row : LockRow) where
  delete_expired-Mem :
      (thread : Text) (now : ℕ) (rows : List LockRow)
      → now < row.expires_at
      → Memᴰ row rows
      → Memᴰ row (delete_expired thread now rows)
  unfolding delete_expired
  delete_expired-Mem thread now rows h m = filter-Mem _ rows m (ground arith)

  -- While the row stands, its thread's lock is refused, and the row stays.
  acquire_lock-Mem :
      (thread : Text) (ttl : ℕ) (token : Text) (now : ℕ) (db : Db)
      → now < row.expires_at
      → Memᴰ row db.locks
      → Memᴰ row (acquire_lock thread ttl token now db).0.locks
        × All
            (λ r. r.thread_id ≢ row.thread_id)
            (granted_by (acquire_lock thread ttl token now db).1)
  acquire_lock-Mem thread ttl token now db h m =
      let kept : Memᴰ row (delete_expired thread now db.locks) =
        delete_expired-Mem thread now db.locks h m in
      elim (Bool-cases (is_held thread now db)) [
        | inl held ↦ rw (acquire_lock_held thread ttl token now db held) (kept, tt)
        | inr free ↦ rw (acquire_lock_free thread ttl token now db free) (
          schedule-Mem now _ (append_left-Mem _ _ kept),
          (
            (λ e. cc (
              free,
              any_of_Mem (λ r. text_eq r.thread_id thread) _ kept
                  ((text_eq_iff row.thread_id thread).1 (sym e)),
            )),
            tt,
          ),
        )
      ]

  release_lock-Mem :
      (thread token : Text) (db : Db)
      → ((row.thread_id ≢ thread) ⊎ (row.token ≢ token))
      → Memᴰ row db.locks
      → Memᴰ row (release_lock thread token db).locks
  unfolding release_lock
  release_lock-Mem thread token db h m =
      filter-Mem _ db.locks m
        (ground (arith, text_eq_iff row.thread_id thread, text_eq_iff row.token token))

  extend_lock-Mem :
      (thread token : Text) (ttl now : ℕ) (db : Db)
      → ((row.thread_id ≢ thread) ⊎ (row.token ≢ token))
      → Memᴰ row db.locks
      → Memᴰ row (extend_lock thread token ttl now db).0.locks
  unfolding extend_lock
  extend_lock-Mem thread token ttl now db h m =
      let m' : Memᴰ row (map (extend_row thread token now (now + ttl)) db.locks) =
        map-Mem_fixed _ db.locks m
          (ground (arith, text_eq_iff row.thread_id thread, text_eq_iff row.token token)) in
      elim (Bool-cases (any (is_extended thread token now) db.locks)) [
        | inl some_row ↦ rw (some_row, extend_lock) (schedule-Mem now _ m')
        | inr no_row ↦ rw (no_row, extend_lock) m'
      ]

  alarm-Mem :
      (fault : Fault) (now later : ℕ) (db : Db)
      → now < row.expires_at
      → Memᴰ row db.locks
      → Memᴰ row (Cleanup.alarm fault now later db).locks
  alarm-Mem fault now later db h m =
      let (a, e) = Cleanup.alarm-eq fault now later db in
      subst (λ (d : Db). Memᴰ row d.locks) (sym e) (left fault)
    where
      kept : Memᴰ row (Cleanup.delete_all_expired now db).locks
      kept =
          unfold Cleanup.delete_all_expired in
          filter-Mem (λ (r : LockRow). not (leb r.expires_at now)) db.locks m (ground arith)

      left : (f : Fault) → Memᴰ row (Cleanup.tables_left f now db).locks
      left Fault.no_fault = kept
      left (Fault.transaction_fails retried) = m
      left (Fault.next_expiry_fails retried) = kept
      left (Fault.set_alarm_fails retried) = kept

  force_release_lock-Mem :
      (thread : Text) (db : Db)
      → row.thread_id ≢ thread
      → Memᴰ row db.locks
      → Memᴰ row (force_release_lock thread db).locks
  unfolding force_release_lock
  force_release_lock-Mem thread db h m =
      filter-Mem _ db.locks m (ground (arith, text_eq_iff row.thread_id thread))

  module _ (json : Json) where
    -- What a foreign call leaves: the row, and no lock on its thread handed out.
    abbrev Keeps : Db × Option LockRow → Type 0
    Keeps (db', granted) =
        Memᴰ row db'.locks × All (λ r. r.thread_id ≢ row.thread_id) (granted_by granted)

    step-Mem :
        (now : ℕ) (call : Call) (db : Db)
        → IsForeign row (now, call)
        → Memᴰ row db.locks
        → Keeps (step json now call db)
    unfolding step
    step-Mem now (Call.subscribe thread) db h m = (rw (locks-subscribe thread db) m, tt)
    step-Mem now (Call.unsubscribe thread) db h m = (unfold State.unsubscribe in m, tt)
    step-Mem now (Call.acquire_lock thread ttl token) db h m =
        acquire_lock-Mem thread ttl token now db h.0 m
    step-Mem now (Call.force_release_lock thread) db h m =
        (force_release_lock-Mem thread db h.1 m, tt)
    step-Mem now (Call.release_lock thread token) db h m =
        (release_lock-Mem thread token db h.1 m, tt)
    step-Mem now (Call.extend_lock thread token ttl) db h m =
        (extend_lock-Mem thread token ttl now db h.1 m, tt)
    step-Mem now (Call.cache_get key) db h m = (rw (locks-cache_get now db key) m, tt)
    step-Mem now (Call.cache_set key value ttl) db h m =
        (rw (locks-cache_set now db key value ttl) m, tt)
    step-Mem now (Call.cache_set_if_not_exists key value ttl) db h m =
        (rw (locks-cache_set_if_not_exists now db key value ttl) m, tt)
    step-Mem now (Call.cache_delete key) db h m = (unfold Cache.cache_delete in m, tt)
    step-Mem now (Call.list_append key value max_length ttl) db h m =
        (rw (locks-list_append now db json key value max_length ttl) m, tt)
    step-Mem now (Call.list_get key) db h m = (rw (locks-list_get now db json key) m, tt)
    step-Mem now (Call.enqueue thread value max_size) db h m =
        (rw (locks-enqueue now db json thread value max_size) m, tt)
    step-Mem now (Call.dequeue thread) db h m = (rw (locks-dequeue now db thread) m, tt)
    step-Mem now (Call.queue_depth thread) db h m = (unfold Queue.queue_depth in m, tt)
    step-Mem now (Call.alarm fault later) db h m = (alarm-Mem fault now later db h.0 m, tt)
    step-Mem now (Call.set_takes_alarms b) db h m = (m, tt)

    -- Once a lock is in the table, then over any run of calls that come before it expires, and of
    -- which none releases it by force or is a release or an extension with its token, no lock on
    -- its thread is handed out, and it is still in the table at the end.
    pub grants-exclusive :
        (calls : List (ℕ × Call)) (db : Db)
        → Memᴰ row db.locks
        → All (IsForeign row) calls
        → All (λ r. r.thread_id ≢ row.thread_id) (grants json calls db)
          × Memᴰ row (run json calls db).locks
    unfolding grants run
    grants-exclusive [] db m h = (tt, m)
    grants-exclusive ((now, call) ∷ calls) db m (foreign, h) =
        let (m', refused) = step-Mem now call db foreign m in
        let (others, m'') = grants-exclusive calls (step json now call db).0 m' h in
        (All-append _ (granted_by (step json now call db).1) _ refused others, m'')

is_held_iff :
    (thread : Text) (now : ℕ) (rows : List LockRow)
    → any (λ r. text_eq r.thread_id thread) (delete_expired thread now rows)
      ≡ any (λ r. text_eq r.thread_id thread && ltb now r.expires_at) rows
unfolding delete_expired
is_held_iff thread now [] = refl
is_held_iff thread now (r ∷ rows) = ground (arith, is_held_iff thread now rows)

-- A lock is refused exactly when the thread has a lock that has not expired; otherwise the caller
-- gets one with its own token that expires after the time to live.
pub acquire_lock_lem :
    (thread : Text) (ttl : ℕ) (token : Text) (now : ℕ) (db : Db)
    → (acquire_lock thread ttl token now db).1 ≡ (
        if any (λ r. text_eq r.thread_id thread && ltb now r.expires_at) db.locks
        then none
        else some (record { thread_id = thread; token = token; expires_at = now + ttl }))
acquire_lock_lem thread ttl token now db =
    rw (← is_held_iff thread now db.locks) (elim (Bool-cases (is_held thread now db)) [
      | inl e ↦ rw (acquire_lock_held thread ttl token now db e, e)
      | inr e ↦ rw (acquire_lock_free thread ttl token now db e, e)
    ])
