-- ===== src/ChatState/Cache.antt =====
-- The cache and list operations: `cacheGet`, `cacheSet`, `cacheSetIfNotExists`, `cacheDelete`,
-- `listAppend` and `listGet`.
pub mod Laws
use amby.Common.{
  ℕ, ◌+◌, ◌-◌, Bool, true, false, not, ◌||◌, Option, none, some, List, [], ◌∷◌, ◌++◌, ltb, leb,
  ◌==◌, if◌then◌else◌, filter, find?, is_some, length, drop,
}
use amby.Common.Text.{Text, text_eq}
use amby.ChatState.State.{CacheRow, Db, Json, parse_string_list, schedule_cleanup}

-- `ttlMs ? now + ttlMs : null`: a zero is no time to live.
abbrev pub ttl_expiry : ℕ → Option ℕ → Option ℕ
ttl_expiry now none = none
ttl_expiry now (some ttl) = if ttl == 0 then none else some (now + ttl)

abbrev pub is_expired : ℕ → Option ℕ → Bool
is_expired now none = false
is_expired now (some e) = leb e now

unfoldable pub find_row : Text → List CacheRow → Option CacheRow
find_row key = find? (λ r. text_eq r.key key)

unfoldable pub delete_key : Text → List CacheRow → List CacheRow
delete_key key = filter (λ r. not (text_eq r.key key))

-- `INSERT OR REPLACE`; a plain `INSERT` is the same on a table without the key.
unfoldable pub put_row : Text → Text → Option ℕ → List CacheRow → List CacheRow
put_row key value expires rows =
    delete_key key rows ++ (record { key = key; value = value; expires_at = expires } ∷ [])

unfoldable pub cache_get : Text → ℕ → Db → Db × Option Text
cache_get key now db = elim (find_row key db.cache) [
  | none ↦ (db, none)
  | some row ↦
      if is_expired now row.expires_at
      then (record db { cache = delete_key key db.cache }, none)
      else (db, some row.value)
]

-- `if (expiresAt !== null) this.scheduleCleanupIfNeeded()`
abbrev pub schedule_if : Bool → ℕ → Db → Db
schedule_if true now db = schedule_cleanup now db
schedule_if false now db = db

unfoldable pub cache_set : Text → Text → Option ℕ → ℕ → Db → Db
cache_set key value ttl now db =
    let expires = ttl_expiry now ttl in
    schedule_if (is_some expires) now (record db { cache = put_row key value expires db.cache })

unfoldable pub cache_set_if_not_exists : Text → Text → Option ℕ → ℕ → Db → Db × Bool
cache_set_if_not_exists key value ttl now db = elim (find_row key db.cache) [
  | none ↦ inserted
  | some row ↦ if is_expired now row.expires_at then inserted else (db, false)
]
  where
    inserted : Db × Bool
    inserted =
        let expires = ttl_expiry now ttl in
        (
          schedule_if (is_some expires) now
              (record db { cache = put_row key value expires db.cache }),
          true,
        )

unfoldable pub cache_delete : Text → Db → Db
cache_delete key db = record db { cache = delete_key key db.cache }

-- `list.slice(list.length - maxLength)`, where the list is longer than that.
abbrev pub trim_list : Option ℕ → List Text → List Text
trim_list none l = l
trim_list (some n) l = if ltb n (length l) then drop (length l - n) l else l

-- The strings that `listAppend` starts from: those of a row that has not expired.
abbrev pub live_strings : Json → ℕ → Option CacheRow → List Text
live_strings json now none = []
live_strings json now (some row) =
    if is_expired now row.expires_at then [] else parse_string_list json row.value

unfoldable pub list_append : Json → Text → Text → Option ℕ → Option ℕ → ℕ → Db → Db
list_append json key value max_length ttl now db =
    let expires = ttl_expiry now ttl in
    let list =
      trim_list max_length (live_strings json now (find_row key db.cache) ++ (value ∷ [])) in
    schedule_if (is_some expires) now
      (record db { cache = put_row key (json.stringify list) expires db.cache })

unfoldable pub list_get : Json → Text → ℕ → Db → Db × List Text
unfolding cache_get
list_get json key now db =
    let (db', raw) = cache_get key now db in
    elim raw [ none ↦ (db', []) | some text ↦ (db', parse_string_list json text) ]
