-- ===== src/ChatState/Queue.antt =====
-- The queue operations: `enqueue`, `dequeue`, `queueDepth`.
pub mod Deletion
pub mod Order
use amby.Common.{
  ℕ, suc, ◌+◌, ◌-◌, max, Bool, not, ◌&&◌, Option, none, some, List, [], ◌∷◌, ◌++◌, leb, ltb, ◌==◌,
  if◌then◌else◌, filter, any, length, take, head?, or_else,
}
use amby.Common.Text.{Text, text_eq}
use amby.ChatState.State.{QueueRow, Db, Json, read_queue_expiry, schedule_cleanup}

abbrev pub in_thread : Text → QueueRow → Bool
in_thread thread r = text_eq r.thread_id thread

-- The rows of a thread. AUTOINCREMENT gives a new row a larger id than any before it, so the
-- order of insertion is `ORDER BY id ASC`.
unfoldable pub rows_of : Text → List QueueRow → List QueueRow
rows_of thread = filter (in_thread thread)

-- `DELETE FROM queue_entries WHERE thread_id = ? AND expires_at <= ?`
unfoldable pub delete_expired : Text → ℕ → List QueueRow → List QueueRow
delete_expired thread now = filter (λ r. not (in_thread thread r && leb r.expires_at now))

-- `DELETE FROM queue_entries WHERE id IN (…)`
unfoldable pub delete_ids : List QueueRow → List QueueRow → List QueueRow
delete_ids victims = filter (λ r. not (any (λ v. v.id == r.id) victims))

-- The time to live of a value that names no expiry of its own.
abbrev pub default_ttl : ℕ
default_ttl = 90000

unfoldable pub new_row : Json → Text → Text → ℕ → Db → QueueRow
new_row json thread value now db = record {
  id = db.next_id;
  thread_id = thread;
  value = value;
  expires_at = or_else (read_queue_expiry json value) (now + default_ttl);
}

unfoldable pub enqueue : Json → Text → Text → ℕ → ℕ → Db → Db × ℕ
enqueue json thread value max_size now db =
    let bounded = max 1 max_size in
    let rows =
      delete_expired thread now db.queue_entries ++ (new_row json thread value now db ∷ []) in
    let count = length (rows_of thread rows) in
    let inserted : Db = record db { queue_entries = rows; next_id = suc db.next_id } in
    if ltb bounded count
    then (
      schedule_cleanup now (record inserted {
        queue_entries = delete_ids (take (count - bounded) (rows_of thread rows)) rows;
      }),
      bounded,
    )
    else (schedule_cleanup now inserted, count)

unfoldable pub dequeue : Text → ℕ → Db → Db × Option Text
dequeue thread now db =
    let rows = delete_expired thread now db.queue_entries in
    elim (head? (rows_of thread rows)) [
      | none ↦ (record db { queue_entries = rows }, none)
      | some row ↦ (record db { queue_entries = delete_ids (row ∷ []) rows }, some row.value)
    ]

unfoldable pub queue_depth : Text → ℕ → Db → Db × ℕ
queue_depth thread now db =
    let rows = delete_expired thread now db.queue_entries in
    (record db { queue_entries = rows }, length (rows_of thread rows))
