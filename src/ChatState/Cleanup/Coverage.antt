-- ===== src/ChatState/Cleanup/Coverage.antt =====
-- The expiry times that an alarm covers (`scheduleCleanupIfNeeded`).
use amby.Common.{
  ℕ, ◌⊎◌, ◌≤◌, ◌≡◌, sym, true, Option, none, some, List, [], ◌∷◌, map, arith, Option-cases, inl,
  inr, All, All-imp, All-append_left, All-append_right, subst,
}
use amby.ChatState.State.{
  LockRow, Db, cache_expiries, expiries, min_after, next_expiry, schedule_cleanup, with_next,
  schedule_cleanup-with_next,
}

abbrev pub Reaches : Option ℕ → ℕ → Type 0
Reaches none e = ⊥
Reaches (some a) e = a ≤ e

-- An alarm that is due by `e`, unless `e` is over.
abbrev pub Covers : Option ℕ → ℕ → ℕ → Type 0
Covers a now e = (e ≤ now) ⊎ Reaches a e

-- The alarm is due by every expiry to come, and the runtime takes the alarms that are set.
pub record IsCovered (now : ℕ) (db : Db) : Type 0 where
  pub locks : All (λ r. Covers db.alarm now r.expires_at) db.locks
  pub cache : All (Covers db.alarm now) (cache_expiries db.cache)
  pub queue : All (λ r. Covers db.alarm now r.expires_at) db.queue_entries
  pub takes : db.takes_alarms ≡ true

min_after-head : (now e : ℕ) (es : List ℕ) → Covers (min_after now (e ∷ es)) now e
unfolding min_after
min_after-head now e es = ground arith

min_after-tail :
    (now e : ℕ) (es : List ℕ) (x : ℕ)
    → Covers (min_after now es) now x
    → Covers (min_after now (e ∷ es)) now x
unfolding min_after
min_after-tail now e es x c = ground arith

min_after-Covers : (now : ℕ) (es : List ℕ) → All (Covers (min_after now es) now) es
min_after-Covers now [] = tt
min_after-Covers now (e ∷ es) =
    (min_after-head now e es, All-imp _ _ (min_after-tail now e es) es (min_after-Covers now es))

-- Without an expiry to come, anything covers.
pub min_after-none :
    (a : Option ℕ) (now : ℕ) (es : List ℕ) → min_after now es ≡ none → All (Covers a now) es
unfolding min_after
min_after-none a now [] h = tt
min_after-none a now (e ∷ es) h = (ground arith, min_after-none a now es (ground arith))

module _ {ℓ} {A : Type ℓ} (f : A → ℕ) (P : ℕ → Type 0) where
  All-map : (xs : List A) → All P (map f xs) → All (λ x. P (f x)) xs
  All-map [] h = tt
  All-map (x ∷ xs) (p, h) = (p, All-map xs h)

IsCovered-of_expiries :
    (now : ℕ) (db : Db)
    → All (Covers db.alarm now) (expiries db)
    → db.takes_alarms ≡ true
    → IsCovered now db
IsCovered-of_expiries now db h up =
    let tables = All-append_right _ (map (λ (r : LockRow). r.expires_at) db.locks) _ h in
    record {
      locks = All-map _ _ db.locks (All-append_left _ _ _ h);
      cache = All-append_left _ (cache_expiries db.cache) _ tables;
      queue = All-map _ _ db.queue_entries (All-append_right _ (cache_expiries db.cache) _ tables);
      takes = up;
    }

-- Setting the next expiry as the alarm establishes the coverage, whatever the alarm was.
pub with_next-IsCovered :
    (now : ℕ) (db : Db) → db.takes_alarms ≡ true → IsCovered now (with_next (next_expiry now db) db)
unfolding next_expiry
with_next-IsCovered now db up = elim (Option-cases (next_expiry now db)) [
  | inl e ↦ rw e (IsCovered-of_expiries now db (min_after-none db.alarm now (expiries db) e) up)
  | inr (t, e) ↦ rw e (
      IsCovered-of_expiries now (record db { alarm = some t })
        (subst (λ (a : Option ℕ). All (Covers a now) (expiries db)) e
          (min_after-Covers now (expiries db)))
        up)
]

pub schedule_cleanup-IsCovered :
    (now : ℕ) (db : Db) → db.takes_alarms ≡ true → IsCovered now (schedule_cleanup now db)
schedule_cleanup-IsCovered now db up =
    subst (IsCovered now) (sym (schedule_cleanup-with_next now db up))
      (with_next-IsCovered now db up)
