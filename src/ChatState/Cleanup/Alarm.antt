-- ===== src/ChatState/Cleanup/Alarm.antt =====
-- What the alarm handler leaves, whichever of its storage operations fails.
use amby.Common.{
  ℕ, ◌<◌, ◌≡◌, ◌≢◌, refl, sym, Bool, ap, ◌∙◌, true, not, none, List, [], ◌∷◌, map, arith, ltb, leb,
  filter, filter-append, is_some, Option-cases, inl, inr, All,
}
use amby.ChatState.State.{
  LockRow, CacheRow, QueueRow, Db, cache_expiries, expiries, min_after, next_expiry,
}
use amby.ChatState.Cache.{is_expired}
use amby.ChatState.Cleanup.{
  Fault, no_fault, transaction_fails, next_expiry_fails, set_alarm_fails, delete_all_expired, alarm,
  alarm-eq, tables_left, retry, swept,
}

module _ {ℓ} {A : Type ℓ} (f : A → ℕ) (now : ℕ) where
  map-filter :
      (xs : List A) → map f (filter (λ x. not (leb (f x) now)) xs) ≡ filter (ltb now) (map f xs)
  map-filter [] = refl
  map-filter (x ∷ xs) = ground (arith, map-filter xs)

cache_expiries-filter :
    (now : ℕ) (rows : List CacheRow)
    → cache_expiries (filter (λ r. not (is_expired now r.expires_at)) rows)
      ≡ filter (ltb now) (cache_expiries rows)
cache_expiries-filter now [] = refl
cache_expiries-filter now (r ∷ rows) = ground (arith, cache_expiries-filter now rows)

expiries-delete_all_expired :
    (now : ℕ) (db : Db) → expiries (delete_all_expired now db) ≡ filter (ltb now) (expiries db)
unfolding delete_all_expired
expiries-delete_all_expired now db =
    rw
      (
        map-filter (λ (r : LockRow). r.expires_at) now db.locks,
        cache_expiries-filter now db.cache,
        map-filter (λ (r : QueueRow). r.expires_at) now db.queue_entries,
      )
      (rw
        (
          filter-append (ltb now) (map (λ (r : LockRow). r.expires_at) db.locks) _,
          filter-append (ltb now) (cache_expiries db.cache) _,
        )
        refl)

expiries-swept : (now : ℕ) (db : Db) → expiries (swept now db) ≡ filter (ltb now) (expiries db)
expiries-swept now db = expiries-delete_all_expired now (record db { alarm = none })

All-filter-ltb : (now : ℕ) (es : List ℕ) → All (λ e. now < e) (filter (ltb now) es)
All-filter-ltb now [] = tt
All-filter-ltb now (e ∷ es) = ground (arith, All-filter-ltb now es)

min_after-ne-none :
    (now : ℕ) (es : List ℕ) → All (λ e. now < e) es → min_after now es ≡ none → es ≡ []
unfolding min_after
min_after-ne-none now [] h e = refl
min_after-ne-none now (x ∷ es) h e = ground arith

-- If no next expiry is found there, no row with an expiry is left.
next_expiry-swept :
    (now : ℕ) (db : Db) → next_expiry now (swept now db) ≡ none → expiries (swept now db) ≡ []
unfolding next_expiry
next_expiry-swept now db e =
    min_after-ne-none now (expiries (swept now db))
      (rw (expiries-swept now db) (All-filter-ltb now _)) e

-- After the handler has run, whichever of its operations fails, the expiries left are exactly
-- those that were still to come; only after a failed transaction they are what they were.
pub expiries-alarm :
    (fault : Fault) (now later : ℕ) (db : Db)
    → expiries (alarm fault now later db) ≡ (elim fault [
      | no_fault ↦ filter (ltb now) (expiries db)
      | transaction_fails retried ↦ expiries db
      | next_expiry_fails retried ↦ filter (ltb now) (expiries db)
      | set_alarm_fails retried ↦ filter (ltb now) (expiries db)
    ])
expiries-alarm fault now later db = ap expiries (alarm-eq fault now later db).1 ∙ left fault
  where
    left :
        (f : Fault)
        → expiries (tables_left f now db) ≡ (elim f [
          | no_fault ↦ filter (ltb now) (expiries db)
          | transaction_fails retried ↦ expiries db
          | next_expiry_fails retried ↦ filter (ltb now) (expiries db)
          | set_alarm_fails retried ↦ filter (ltb now) (expiries db)
        ])
    left no_fault = expiries-delete_all_expired now db
    left (transaction_fails retried) = refl
    left (next_expiry_fails retried) = expiries-delete_all_expired now db
    left (set_alarm_fails retried) = expiries-delete_all_expired now db

-- Whether the handler ends without throwing: nothing fails, or the alarm is set once more.
abbrev pub recovers : Fault → Bool
recovers no_fault = true
recovers (transaction_fails retried) = retried
recovers (next_expiry_fails retried) = retried
recovers (set_alarm_fails retried) = retried

retry-some :
    (retried : Bool) (later : ℕ) (db : Db)
    → retried ≡ true
    → is_some (retry retried later db).alarm ≡ true
retry-some retried later db h = ground arith

-- Where the search for the next expiry finds one or the rows are gone.
next_or_none :
    (now : ℕ) (db : Db) (es : List ℕ)
    → es ≡ filter (ltb now) (expiries db)
    → es ≢ []
    → next_expiry now (swept now db) ≡ none
    → ⊥
next_or_none now db es same h e =
    h (same ∙ (sym (expiries-swept now db) ∙ next_expiry-swept now db e))

-- If rows with an expiry are left after the handler, the next alarm is set, whatever fails, provided
-- that the `setAlarm` by which the handler recovers from a failure does not fail too.
pub alarm_goes_on :
    (fault : Fault) (now later : ℕ) (db : Db)
    → recovers fault ≡ true
    → expiries (alarm fault now later db) ≢ []
    → is_some (alarm fault now later db).alarm ≡ true
unfolding alarm
alarm_goes_on no_fault now later db r h = elim (Option-cases (next_expiry now (swept now db))) [
  | inl e ↦ absurd (next_or_none now db _ (expiries-alarm no_fault now later db) h e)
  | inr (t, e) ↦ rw (e, alarm) refl
]
alarm_goes_on (transaction_fails retried) now later db r h = retry-some retried later _ r
alarm_goes_on (next_expiry_fails retried) now later db r h = retry-some retried later _ r
alarm_goes_on (set_alarm_fails retried) now later db r h =
    elim (Option-cases (next_expiry now (swept now db))) [
      | inl e ↦
          absurd (next_or_none now db _ (expiries-alarm (set_alarm_fails retried) now later db) h e)
      | inr (t, e) ↦ rw (e, alarm) (retry-some retried later _ r)
    ]
