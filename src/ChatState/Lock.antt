-- ===== src/ChatState/Lock.antt =====
-- The lock operations: `acquireLock`, `forceReleaseLock`, `releaseLock`, `extendLock`.
pub mod Exclusion
use amby.Common.{
  ℕ, ◌+◌, Bool, true, false, not, ◌&&◌, Option, none, some, List, [], ◌∷◌, ◌++◌, map, ltb, leb,
  if◌then◌else◌, filter, any,
}
use amby.Common.Text.{Text, text_eq}
use amby.ChatState.State.{LockRow, Db, schedule_cleanup}

-- `DELETE FROM locks WHERE thread_id = ? AND expires_at <= ?`
unfoldable pub delete_expired : Text → ℕ → List LockRow → List LockRow
delete_expired thread now = filter (λ r. not (text_eq r.thread_id thread && leb r.expires_at now))

-- The transaction of `acquireLock`. `token` is the fresh UUID that it would draw.
unfoldable pub acquire_in : Text → ℕ → Text → ℕ → Db → Db × Option LockRow
unfolding delete_expired
acquire_in thread ttl token now db =
    let kept = delete_expired thread now db.locks in
    let row : LockRow = record { thread_id = thread; token = token; expires_at = now + ttl } in
    if any (λ r. text_eq r.thread_id thread) kept
    then (record db { locks = kept }, none)
    else (record db { locks = kept ++ (row ∷ []) }, some row)

unfoldable pub acquire_lock : Text → ℕ → Text → ℕ → Db → Db × Option LockRow
unfolding acquire_in
acquire_lock thread ttl token now db =
    let (db', result) = acquire_in thread ttl token now db in
    elim result [ none ↦ (db', none) | some row ↦ (schedule_cleanup now db', some row) ]

unfoldable pub force_release_lock : Text → Db → Db
force_release_lock thread db = record db {
  locks = filter (λ r. not (text_eq r.thread_id thread)) db.locks;
}

unfoldable pub release_lock : Text → Text → Db → Db
release_lock thread token db = record db {
  locks = filter (λ r. not (text_eq r.thread_id thread && text_eq r.token token)) db.locks;
}

-- The WHERE clause of the UPDATE in `extendLock`.
abbrev pub is_extended : Text → Text → ℕ → LockRow → Bool
is_extended thread token now r =
    text_eq r.thread_id thread && text_eq r.token token && ltb now r.expires_at

abbrev pub extend_row : Text → Text → ℕ → ℕ → LockRow → LockRow
extend_row thread token now until r =
    if is_extended thread token now r then record r { expires_at = until } else r

unfoldable pub extend_lock : Text → Text → ℕ → ℕ → Db → Db × Bool
extend_lock thread token ttl now db =
    let extended = any (is_extended thread token now) db.locks in
    let db' : Db = record db { locks = map (extend_row thread token now (now + ttl)) db.locks } in
    if extended then (schedule_cleanup now db', true) else (db', false)
