-- ===== src/ChatState/Queue/Order.antt =====
-- The order and the bound of a queue over the calls of `enqueue` and `dequeue`.
use mathlib.Core.Option
use amby.Common.{
  ℕ, suc, ◌-◌, min, max, ◌≡◌, ◌≢◌, refl, sym, ap, ◌∙◌, ◌&&◌, List, [], ◌∷◌, ◌++◌, arith, ltb,
  if◌then◌else◌, filter, filter-append, length, append-nil, take, drop, head?, Bool-cases, inl, inr,
}
use amby.Common.Text.{Text, text_eq_iff, text_eq_refl}
use amby.ChatState.State.{
  QueueRow, Db, Json, queue_entries-schedule_cleanup, next_id-schedule_cleanup,
}
use amby.ChatState.Queue.{
  in_thread, rows_of, delete_expired, delete_ids, new_row, enqueue, dequeue, queue_depth,
}
use amby.ChatState.Queue.Deletion.{
  Rises, filter-Rises, append-Rises, rows_of-delete_ids, delete_ids-nil, rows_of-delete_ids_other,
}

-- The entries of a thread that have not expired, oldest first.
abbrev pub pending : Text → ℕ → List QueueRow → List QueueRow
pending thread now = filter (λ r. in_thread thread r && ltb now r.expires_at)

rows_of-delete_expired :
    (thread : Text) (now : ℕ) (rows : List QueueRow)
    → rows_of thread (delete_expired thread now rows) ≡ pending thread now rows
unfolding rows_of delete_expired
rows_of-delete_expired thread now [] = refl
rows_of-delete_expired thread now (r ∷ rows) =
    ground (arith, rows_of-delete_expired thread now rows)

pending-delete_expired :
    (thread : Text) (now : ℕ) (rows : List QueueRow)
    → pending thread now (delete_expired thread now rows) ≡ pending thread now rows
unfolding delete_expired
pending-delete_expired thread now [] = refl
pending-delete_expired thread now (r ∷ rows) =
    ground (arith, pending-delete_expired thread now rows)

rows_of-delete_expired_other :
    (thread other : Text) (now : ℕ) (rows : List QueueRow)
    → thread ≢ other
    → rows_of other (delete_expired thread now rows) ≡ rows_of other rows
unfolding rows_of delete_expired
rows_of-delete_expired_other thread other now [] h = refl
rows_of-delete_expired_other thread other now (r ∷ rows) h = ground (
  arith,
  rows_of-delete_expired_other thread other now rows h,
  text_eq_iff r.thread_id thread,
  text_eq_iff r.thread_id other,
)

rows_of-append :
    (thread : Text) (xs ys : List QueueRow)
    → rows_of thread (xs ++ ys) ≡ rows_of thread xs ++ rows_of thread ys
unfolding rows_of
rows_of-append thread xs ys = filter-append (in_thread thread) xs ys

-- Ids rise along the queue table and stay below the counter of the AUTOINCREMENT column.
abbrev pub IsOrdered : Db → Type 0
IsOrdered db = Rises 0 db.next_id db.queue_entries

module _ (json : Json) (thread value : Text) (now : ℕ) (db : Db) where
  abbrev pub queued : List QueueRow
  queued = pending thread now db.queue_entries ++ (new_row json thread value now db ∷ [])

  abbrev pub inserted : List QueueRow
  inserted = delete_expired thread now db.queue_entries ++ (new_row json thread value now db ∷ [])

  rows_of_new :
      rows_of thread (new_row json thread value now db ∷ []) ≡ new_row json thread value now db ∷ []
  unfolding rows_of new_row
  rows_of_new = rw (text_eq_refl thread)

  rows_of-inserted : rows_of thread inserted ≡ queued
  rows_of-inserted =
      rows_of-append thread (delete_expired thread now db.queue_entries) _
      ∙ rw (rows_of-delete_expired thread now db.queue_entries, rows_of_new)

  inserted-Rises : IsOrdered db → Rises 0 (suc db.next_id) inserted
  unfolding delete_expired new_row
  inserted-Rises a =
      append-Rises 0 db.next_id _ _ refl (filter-Rises _ 0 db.next_id db.queue_entries a)

  rows_of_new_other :
      (other : Text) → thread ≢ other → rows_of other (new_row json thread value now db ∷ []) ≡ []
  unfolding rows_of new_row
  rows_of_new_other other h = ground (arith, text_eq_iff thread other)

  rows_of-inserted_other :
      (other : Text) → thread ≢ other → rows_of other inserted ≡ rows_of other db.queue_entries
  rows_of-inserted_other other h =
      rows_of-append other (delete_expired thread now db.queue_entries) _
      ∙ rw
          (
            rows_of-delete_expired_other thread other now db.queue_entries h,
            rows_of_new_other other h,
          )
          (append-nil _)

  module _ (max_size : ℕ) where
    abbrev bounded : ℕ
    bounded = max 1 max_size

    enqueue_eq :
        ((enqueue json thread value max_size now db).0.queue_entries ≡ (
          if ltb bounded (length (rows_of thread inserted))
          then delete_ids
              (take (length (rows_of thread inserted) - bounded) (rows_of thread inserted))
              inserted
          else inserted))
        × ((enqueue json thread value max_size now db).1
            ≡ min bounded (length (rows_of thread inserted)))
        × ((enqueue json thread value max_size now db).0.next_id ≡ suc db.next_id)
    unfolding enqueue
    enqueue_eq = grind (arith, queue_entries-schedule_cleanup, next_id-schedule_cleanup)

    -- With nothing to drop, no id is deleted.
    enqueue_entries :
        (enqueue json thread value max_size now db).0.queue_entries
        ≡ delete_ids
            (take (length (rows_of thread inserted) - bounded) (rows_of thread inserted))
            inserted
    enqueue_entries = enqueue_eq.0 ∙ over (rows_of thread inserted)
      where
        over :
            (rows : List QueueRow)
            → (if ltb bounded (length rows)
                then delete_ids (take (length rows - bounded) rows) inserted
                else inserted)
              ≡ delete_ids (take (length rows - bounded) rows) inserted
        over rows = elim (Bool-cases (ltb bounded (length rows))) [
          | inl e ↦ rw e refl
          | inr e ↦
              let zero_over : length rows - bounded ≡ 0 = ground arith in
              rw (e, zero_over) (sym (delete_ids-nil inserted))
        ]

    -- If the ids are in order, the new entry goes to the end of the thread's pending entries, and
    -- the oldest are dropped until at most `max_size` are left, but never the new one; the result
    -- is their number. The other threads keep their rows.
    pub enqueue_lem :
        (other : Text)
        → thread ≢ other
        → IsOrdered db
        → (rows_of thread (enqueue json thread value max_size now db).0.queue_entries
            ≡ drop (length queued - bounded) queued)
          × ((enqueue json thread value max_size now db).1 ≡ min bounded (length queued))
          × (rows_of other (enqueue json thread value max_size now db).0.queue_entries
              ≡ rows_of other db.queue_entries)
    enqueue_lem other h a = (
      rw (enqueue_entries, ← rows_of-inserted)
          (rows_of-delete_ids thread _ 0 (suc db.next_id) inserted (inserted-Rises a)),
      rw (← rows_of-inserted) enqueue_eq.1,
      rw enqueue_entries (
          rows_of-delete_ids_other thread other _ 0 (suc db.next_id) inserted h (inserted-Rises a)
          ∙ rows_of-inserted_other other h),
    )

    pub enqueue-IsOrdered : IsOrdered db → IsOrdered (enqueue json thread value max_size now db).0
    enqueue-IsOrdered a =
        rw (enqueue_entries, enqueue_eq.2)
          (unfold delete_ids in filter-Rises _ 0 (suc db.next_id) inserted (inserted-Rises a))

module _ (thread : Text) (now : ℕ) (db : Db) where
  abbrev unexpired : List QueueRow
  unexpired = delete_expired thread now db.queue_entries

  dequeue_eq :
      ((dequeue thread now db).0.queue_entries
        ≡ delete_ids (take 1 (rows_of thread unexpired)) unexpired)
      × ((dequeue thread now db).0.next_id ≡ db.next_id)
      × ((dequeue thread now db).1
          ≡ Option.map (λ (r : QueueRow). r.value) (head? (rows_of thread unexpired)))
  unfolding dequeue
  dequeue_eq = ground (arith, delete_ids-nil unexpired)

  unexpired-Rises : IsOrdered db → Rises 0 db.next_id unexpired
  unfolding delete_expired
  unexpired-Rises a = filter-Rises _ 0 db.next_id db.queue_entries a

  pub dequeue-IsOrdered : IsOrdered db → IsOrdered (dequeue thread now db).0
  dequeue-IsOrdered a =
      rw (dequeue_eq.0, dequeue_eq.1)
        (unfold delete_ids in filter-Rises _ 0 db.next_id unexpired (unexpired-Rises a))

-- If the ids are in order, the oldest pending entry of the thread is taken off and its value given
-- back, or nothing if there is none; the other threads keep their rows.
pub dequeue_lem :
    (thread other : Text) (now : ℕ) (db : Db)
    → thread ≢ other
    → IsOrdered db
    → ((dequeue thread now db).1
        ≡ Option.map (λ (r : QueueRow). r.value) (head? (pending thread now db.queue_entries)))
      × (rows_of thread (dequeue thread now db).0.queue_entries
          ≡ drop 1 (pending thread now db.queue_entries))
      × (rows_of other (dequeue thread now db).0.queue_entries ≡ rows_of other db.queue_entries)
dequeue_lem thread other now db h a = (
  rw (← rows_of-delete_expired thread now db.queue_entries) (dequeue_eq thread now db).2,
  rw ((dequeue_eq thread now db).0, ← rows_of-delete_expired thread now db.queue_entries)
      (rows_of-delete_ids thread 1 0 db.next_id _ (unexpired-Rises thread now db a)),
  rw (dequeue_eq thread now db).0 (
      rows_of-delete_ids_other thread other 1 0 db.next_id _ h (unexpired-Rises thread now db a)
      ∙ rows_of-delete_expired_other thread other now db.queue_entries h),
)

-- The depth is the number of pending entries of the thread, and asking for it keeps them all.
pub queue_depth_lem :
    (thread : Text) (now : ℕ) (db : Db)
    → ((queue_depth thread now db).1 ≡ length (pending thread now db.queue_entries))
      × (pending thread now (queue_depth thread now db).0.queue_entries
          ≡ pending thread now db.queue_entries)
unfolding queue_depth
queue_depth_lem thread now db = (
  ap length (rows_of-delete_expired thread now db.queue_entries),
  pending-delete_expired thread now db.queue_entries,
)
