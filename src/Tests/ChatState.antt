-- ===== src/Tests/ChatState.antt =====
-- The chat state object at concrete inputs.
use mathlib.Core.List.{Memᴰ}
use mathlib.Core.Option
use amby.Common.{
  ℕ, zero, suc, ◌-◌, min, ◌≡◌, ◌≢◌, refl, sym, ap, ◌∙◌, true, not, none, some, List, [], ◌∷◌, ◌++◌,
  map, arith, append_assoc, append-nil, if◌then◌else◌, All, inr, length, drop, head?, filter, ltb,
  is_some,
}
use amby.Common.Text.{Text, lit, text_eq, ne_of_text_eq}
use amby.ChatState.State.{
  LockRow, QueueRow, Db, Json, array, str, empty_db, expiries, schedule_cleanup, next_expiry,
  read_queue_expiry,
}
use amby.ChatState.Lock.Exclusion
use amby.ChatState.Cache
use amby.ChatState.Cache.{trim_list}
use amby.ChatState.Cache.Laws
use amby.ChatState.Queue
use amby.ChatState.Queue.{rows_of, delete_expired, delete_ids, new_row}
use amby.ChatState.Queue.Order
use amby.ChatState.Queue.Order.{pending, queued}
use amby.ChatState.Cleanup
use amby.ChatState.Cleanup.{Fault, no_fault}
use amby.ChatState.Cleanup.Alarm
use amby.ChatState.Cleanup.Coverage.{IsCovered}
use amby.ChatState.Cleanup.Runs
use amby.ChatState.Cleanup.Keys
use amby.ChatState.Cleanup.Keys.{IsValid}
use amby.ChatState.Cleanup.Calls.{Call, run, grants}

-- A codec that stands for the runtime's: each string ends with a zero.
encode : List Text → Text
encode [] = []
encode (t ∷ l) = map suc t ++ (0 ∷ encode l)

decode : Text → Text → List Text
decode acc [] = []
decode acc (zero ∷ s) = acc ∷ decode [] s
decode acc (suc c ∷ s) = decode (acc ++ (c ∷ [])) s

decode-word : (acc t s : Text) → decode acc (map suc t ++ (0 ∷ s)) ≡ (acc ++ t) ∷ decode [] s
unfolding decode
decode-word acc [] s = ap (λ (a : Text). a ∷ decode [] s) (sym (append-nil acc))
decode-word acc (c ∷ t) s =
    decode-word (acc ++ (c ∷ [])) t s
    ∙ ap (λ (a : Text). a ∷ decode [] s) (append_assoc acc (c ∷ []) t)

decode-encode : (l : List Text) → decode [] (encode l) ≡ l
unfolding encode decode
decode-encode [] = refl
decode-encode (t ∷ l) = decode-word [] t (encode l) ∙ ap (◌∷◌ t) (decode-encode l)

abbrev codec : Json
codec = record { parse = λ t. some (array (map str (decode [] t))); stringify = encode }

codec_law : (l : List Text) → codec.parse (codec.stringify l) ≡ some (array (map str l))
codec_law l = ap (λ (m : List Text). some (array (map str m))) (decode-encode l)

abbrev held : LockRow
held = record { thread_id = lit "t"; token = lit "a"; expires_at = 100 }

abbrev busy : Db
busy = record {
  subscriptions = [];
  locks = held ∷ [];
  cache = record { key = lit "k"; value = lit "v"; expires_at = some 30 } ∷ [];
  queue_entries =
      record { id = 1; thread_id = lit "t"; value = lit "x"; expires_at = 50 }
      ∷ record { id = 2; thread_id = lit "u"; value = lit "y"; expires_at = 20 }
      ∷ record { id = 3; thread_id = lit "t"; value = lit "z"; expires_at = 60 }
      ∷ [];
  next_id = 4;
  alarm = some 20;
  takes_alarms = true;
}

abbrev calls : List (ℕ × Call)
calls =
    (10, Call.acquire_lock (lit "t") 5 (lit "b"))
    ∷ (20, Call.alarm no_fault 21)
    ∷ (40, Call.release_lock (lit "t") (lit "b"))
    ∷ (99, Call.acquire_lock (lit "t") 5 (lit "c"))
    ∷ []

a_not_b : ◌≢◌ {A = Text} (lit "a") (lit "b")
unfolding text_eq
a_not_b = ne_of_text_eq (lit "a") (lit "b") refl

t_not_u : ◌≢◌ {A = Text} (lit "t") (lit "u")
unfolding text_eq
t_not_u = ne_of_text_eq (lit "t") (lit "u") refl

grants-exclusive_example :
    All (λ r. r.thread_id ≢ held.thread_id) (grants codec calls busy)
    × Memᴰ held (run codec calls busy).locks
grants-exclusive_example =
    Exclusion.grants-exclusive held codec calls busy (Memᴰ.head refl) (
      (omega arith, tt),
      ((omega arith, tt), ((omega arith, inr a_not_b), ((omega arith, tt), tt))),
    )

enqueue_example :
    (rows_of (lit "t") (Queue.enqueue codec (lit "t") (lit "w") 2 55 busy).0.queue_entries
      ≡ drop
          (length (queued codec (lit "t") (lit "w") 55 busy) - 2)
          (queued codec (lit "t") (lit "w") 55 busy))
    × ((Queue.enqueue codec (lit "t") (lit "w") 2 55 busy).1
        ≡ min 2 (length (queued codec (lit "t") (lit "w") 55 busy)))
    × (rows_of (lit "u") (Queue.enqueue codec (lit "t") (lit "w") 2 55 busy).0.queue_entries
        ≡ rows_of (lit "u") busy.queue_entries)
enqueue_example =
    Order.enqueue_lem codec (lit "t") (lit "w") 55 busy 2 (lit "u") t_not_u (omega arith)

dequeue_example :
    ((Queue.dequeue (lit "t") 10 busy).1
      ≡ Option.map (λ (r : QueueRow). r.value) (head? (pending (lit "t") 10 busy.queue_entries)))
    × (rows_of (lit "t") (Queue.dequeue (lit "t") 10 busy).0.queue_entries
        ≡ drop 1 (pending (lit "t") 10 busy.queue_entries))
    × (rows_of (lit "u") (Queue.dequeue (lit "t") 10 busy).0.queue_entries
        ≡ rows_of (lit "u") busy.queue_entries)
dequeue_example = Order.dequeue_lem (lit "t") (lit "u") 10 busy t_not_u (omega arith)

-- Of two entries that are pending the older is dropped when a third would pass the limit.
enqueue_drops_oldest :
    (Queue.dequeue (lit "t") 12 (Queue.enqueue codec (lit "t") (lit "w") 2 11 busy).0).1
    ≡ some (lit "z")
unfolding Queue.dequeue Queue.enqueue rows_of delete_expired delete_ids new_row text_eq
    schedule_cleanup next_expiry read_queue_expiry decode
enqueue_drops_oldest = refl

run-IsCovered_example : IsCovered 99 (run codec calls empty_db)
run-IsCovered_example =
    Runs.run-IsCovered codec 0 calls empty_db
      (omega arith, tt, (omega arith, refl, (omega arith, tt, (omega arith, tt, tt))))
      (unfold empty_db in record { locks = tt; cache = tt; queue = tt; takes = refl })

run-empty_db-IsValid_example : IsValid (run codec calls empty_db)
run-empty_db-IsValid_example = Keys.run-empty_db-IsValid codec calls

expiries-alarm_example :
    expiries (Cleanup.alarm (Fault.set_alarm_fails true) 20 21 busy)
    ≡ filter (ltb 20) (expiries busy)
expiries-alarm_example = Alarm.expiries-alarm (Fault.set_alarm_fails true) 20 21 busy

some_left : expiries (Cleanup.alarm (Fault.set_alarm_fails true) 20 21 busy) ≢ []
some_left e = cc (sym (Alarm.expiries-alarm (Fault.set_alarm_fails true) 20 21 busy) ∙ e)

alarm_goes_on_example : is_some (Cleanup.alarm (Fault.set_alarm_fails true) 20 21 busy).alarm ≡ true
alarm_goes_on_example = Alarm.alarm_goes_on (Fault.set_alarm_fails true) 20 21 busy refl some_left

cache_get-cache_set_example :
    (Cache.cache_get (lit "k") 25 (Cache.cache_set (lit "k") (lit "w") (some 5) 10 busy)).1 ≡ none
unfolding text_eq
cache_get-cache_set_example =
    Laws.cache_get-cache_set (lit "k") (lit "k") (lit "w") (some 5) 10 25 busy

cache_set_if_not_exists_example :
    ((Cache.cache_set_if_not_exists (lit "k") (lit "w") none 10 busy).1
      ≡ not (is_some (Cache.cache_get (lit "k") 10 busy).1))
    × ((Cache.cache_get
          (lit "k")
          12
          (Cache.cache_set_if_not_exists (lit "k") (lit "w") none 10 busy).0).1
        ≡ (if is_some (Cache.cache_get (lit "k") 10 busy).1
            then (Cache.cache_get (lit "k") 12 busy).1
            else (Cache.cache_get
                (lit "k")
                12
                (Cache.cache_set (lit "k") (lit "w") none 10 busy)).1))
cache_set_if_not_exists_example =
    Laws.cache_set_if_not_exists_lem (lit "k") (lit "k") (lit "w") none 10 12 busy

list_get-list_append_example :
    (Cache.list_get codec
      (lit "l")
      12
      (Cache.list_append codec (lit "l") (lit "w") (some 3) none 10 busy)).1
    ≡ trim_list (some 3) ((Cache.list_get codec (lit "l") 10 busy).1 ++ (lit "w" ∷ []))
unfolding text_eq
list_get-list_append_example =
    Laws.list_get-list_append codec codec_law (lit "l") (lit "l") (lit "w") (some 3) none 10 12 busy
