-- ===== src/ChatState/Cache/Laws.antt =====
-- What is read back from the cache, and from the lists that are kept in it.
use amby.Common.{
  ℕ, ◌-◌, ◌≤◌, ◌≡◌, refl, ap, ◌∙◌, Bool, true, false, not, Option, none, some, List, [], ◌∷◌, ◌++◌,
  map, arith, if◌then◌else◌, is_some, length, length-drop, Option-cases,
}
use amby.Common.Text.{Text, text_eq, text_eq_iff, text_eq_refl}
use amby.ChatState.State.{
  CacheRow, Db, Json, str, array, strings, parse_string_list, cache-schedule_cleanup,
}
use amby.ChatState.Cache.{
  ttl_expiry, is_expired, find_row, delete_key, put_row, cache_get, schedule_if, cache_set,
  cache_set_if_not_exists, trim_list, live_strings, list_append, list_get,
}

find_row-delete_key :
    (j k : Text) (rows : List CacheRow)
    → find_row j (delete_key k rows) ≡ (if text_eq k j then none else find_row j rows)
unfolding find_row delete_key
find_row-delete_key j k [] = ground arith
find_row-delete_key j k (r ∷ rows) =
    ground (
      arith,
      find_row-delete_key j k rows,
      text_eq_iff r.key k,
      text_eq_iff r.key j,
      text_eq_iff k j,
    )

find_row-append :
    (j : Text) (rows : List CacheRow) (row : CacheRow)
    → find_row j (rows ++ (row ∷ []))
      ≡ (if is_some (find_row j rows) then find_row j rows else find_row j (row ∷ []))
unfolding find_row
find_row-append j [] row = refl
find_row-append j (r ∷ rows) row = ground (arith, find_row-append j rows row)

find_row-put_row :
    (j k v : Text) (e : Option ℕ) (rows : List CacheRow)
    → find_row j (put_row k v e rows) ≡ (
        if text_eq k j
        then some (record { key = k; value = v; expires_at = e })
        else find_row j rows)
unfolding put_row
find_row-put_row j k v e rows =
    find_row-append j (delete_key k rows) (record { key = k; value = v; expires_at = e })
    ∙ rw (find_row-delete_key j k rows)
        (unfold find_row in ground (arith, Option-cases (find_row j rows)))

-- The value of a row that has not expired.
abbrev pub live_value : ℕ → Option CacheRow → Option Text
live_value now none = none
live_value now (some row) = if is_expired now row.expires_at then none else some row.value

cache_get-live_value :
    (key : Text) (now : ℕ) (db : Db)
    → (cache_get key now db).1 ≡ live_value now (find_row key db.cache)
unfolding cache_get
cache_get-live_value key now db = ground arith

cache-schedule_if : (b : Bool) (now : ℕ) (db : Db) → (schedule_if b now db).cache ≡ db.cache
cache-schedule_if true now db = cache-schedule_cleanup now db
cache-schedule_if false now db = refl

cache-cache_set :
    (k v : Text) (ttl : Option ℕ) (now : ℕ) (db : Db)
    → (cache_set k v ttl now db).cache ≡ put_row k v (ttl_expiry now ttl) db.cache
unfolding cache_set
cache-cache_set k v ttl now db = cache-schedule_if _ now _

-- A read at any time after a write gives the new value under its key until the time to live is
-- over (for good without one, or with a zero), and under every other key what it gave before.
pub cache_get-cache_set :
    (j k v : Text) (ttl : Option ℕ) (now later : ℕ) (db : Db)
    → (cache_get j later (cache_set k v ttl now db)).1 ≡ (
        if text_eq k j
        then (if is_expired later (ttl_expiry now ttl) then none else some v)
        else (cache_get j later db).1)
cache_get-cache_set j k v ttl now later db =
    rw
      (
        cache_get-live_value j later (cache_set k v ttl now db),
        cache_get-live_value j later db,
        cache-cache_set k v ttl now db,
        find_row-put_row j k v (ttl_expiry now ttl) db.cache,
      )
      (ground arith)

cache-cache_set_if_not_exists :
    (k v : Text) (ttl : Option ℕ) (now : ℕ) (db : Db)
    → ((cache_set_if_not_exists k v ttl now db).1
        ≡ not (is_some (live_value now (find_row k db.cache))))
      × ((cache_set_if_not_exists k v ttl now db).0.cache ≡ (
          if is_some (live_value now (find_row k db.cache))
          then db.cache
          else put_row k v (ttl_expiry now ttl) db.cache))
unfolding cache_set_if_not_exists
cache-cache_set_if_not_exists k v ttl now db = ground (
  arith,
  cache-schedule_if (is_some (ttl_expiry now ttl)) now
      (record db { cache = put_row k v (ttl_expiry now ttl) db.cache }),
)

-- The conditional write succeeds exactly when a read would give nothing. Then it stores the value
-- as an unconditional write would; otherwise every later read is as before.
pub cache_set_if_not_exists_lem :
    (j k v : Text) (ttl : Option ℕ) (now later : ℕ) (db : Db)
    → ((cache_set_if_not_exists k v ttl now db).1 ≡ not (is_some (cache_get k now db).1))
      × ((cache_get j later (cache_set_if_not_exists k v ttl now db).0).1 ≡ (
          if is_some (cache_get k now db).1
          then (cache_get j later db).1
          else (cache_get j later (cache_set k v ttl now db)).1))
cache_set_if_not_exists_lem j k v ttl now later db =
    let facts = cache-cache_set_if_not_exists k v ttl now db in
    rw
      (
        cache_get-live_value j later (cache_set_if_not_exists k v ttl now db).0,
        cache_get-live_value j later (cache_set k v ttl now db),
        cache_get-live_value j later db,
        cache_get-live_value k now db,
        cache-cache_set k v ttl now db,
        facts.1,
      )
      (facts.0, ground arith)

length-trim_list : (n : ℕ) (l : List Text) → length (trim_list (some n) l) ≤ n
length-trim_list n l = ground (arith, length-drop (length l - n) l)

module _ (json : Json) where
  list_get-live_strings :
      (key : Text) (now : ℕ) (db : Db)
      → (list_get json key now db).1 ≡ live_strings json now (find_row key db.cache)
  unfolding list_get
  list_get-live_strings key now db = ground arith

  cache-list_append :
      (key value : Text) (max_length ttl : Option ℕ) (now : ℕ) (db : Db)
      → (list_append json key value max_length ttl now db).cache
        ≡ put_row key
            (json.stringify (trim_list max_length ((list_get json key now db).1 ++ (value ∷ []))))
            (ttl_expiry now ttl)
            db.cache
  unfolding list_append
  cache-list_append key value max_length ttl now db =
      rw (list_get-live_strings key now db) (cache-schedule_if _ now _)

  strings-map_str : (l : List Text) → strings (map str l) ≡ l
  strings-map_str [] = refl
  strings-map_str (t ∷ l) = ap (◌∷◌ t) (strings-map_str l)

  module _
      (parse-stringify : (l : List Text)
        → json.parse (json.stringify l) ≡ some (array (map str l))) where
    parse_string_list-stringify : (l : List Text) → parse_string_list json (json.stringify l) ≡ l
    unfolding parse_string_list
    parse_string_list-stringify l = rw (parse-stringify l, parse_string_list) (strings-map_str l)

    -- If parsing undoes stringifying, then after an append a read of the list gives, until the
    -- time to live is over, what it gave at the append with the value at its end, cut down to the
    -- last `max_length` entries; the lists under other keys are read as before.
    pub list_get-list_append :
        (j key value : Text) (max_length ttl : Option ℕ) (now later : ℕ) (db : Db)
        → (list_get json j later (list_append json key value max_length ttl now db)).1 ≡ (
            if text_eq key j
            then (if is_expired later (ttl_expiry now ttl)
                then []
                else trim_list max_length ((list_get json key now db).1 ++ (value ∷ [])))
            else (list_get json j later db).1)
    list_get-list_append j key value max_length ttl now later db =
        let new = trim_list max_length ((list_get json key now db).1 ++ (value ∷ [])) in
        rw
          (
            list_get-live_strings j later (list_append json key value max_length ttl now db),
            list_get-live_strings j later db,
            cache-list_append key value max_length ttl now db,
            find_row-put_row j key (json.stringify new) (ttl_expiry now ttl) db.cache,
          )
          (ground (arith, parse_string_list-stringify new))

    -- Under the same condition a list is never read longer than its last append allowed.
    pub length-list_get-list_append :
        (key value : Text) (n : ℕ) (ttl : Option ℕ) (now later : ℕ) (db : Db)
        → length (list_get json key later (list_append json key value (some n) ttl now db)).1 ≤ n
    length-list_get-list_append key value n ttl now later db =
        rw (list_get-list_append key key value (some n) ttl now later db, text_eq_refl key)
          (ground (arith, length-trim_list n ((list_get json key now db).1 ++ (value ∷ []))))
