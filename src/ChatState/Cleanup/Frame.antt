-- ===== src/ChatState/Cleanup/Frame.antt =====
-- What the calls on subscriptions, the cache and the queues do with the locks.
use amby.Common.{ℕ, ◌≡◌, refl, arith, Option, Bool, true, false}
use amby.Common.Text.{Text}
use amby.ChatState.State
use amby.ChatState.State.{Db, Json, schedule_cleanup, locks-schedule_cleanup}
use amby.ChatState.Cache
use amby.ChatState.Queue

locks-schedule_if : (b : Bool) (now : ℕ) (db : Db) → (Cache.schedule_if b now db).locks ≡ db.locks
locks-schedule_if true now db = locks-schedule_cleanup now db
locks-schedule_if false now db = refl

module _ (now : ℕ) (db : Db) where
  pub locks-cache_get : (key : Text) → (Cache.cache_get key now db).0.locks ≡ db.locks
  unfolding Cache.cache_get
  locks-cache_get key = ground arith

  pub locks-list_get :
      (json : Json) (key : Text) → (Cache.list_get json key now db).0.locks ≡ db.locks
  unfolding Cache.list_get
  locks-list_get json key = ground arith

  pub locks-cache_set :
      (key value : Text) (ttl : Option ℕ) → (Cache.cache_set key value ttl now db).locks ≡ db.locks
  unfolding Cache.cache_set
  locks-cache_set key value ttl = locks-schedule_if _ now _

  pub locks-cache_set_if_not_exists :
      (key value : Text) (ttl : Option ℕ)
      → (Cache.cache_set_if_not_exists key value ttl now db).0.locks ≡ db.locks
  unfolding Cache.cache_set_if_not_exists
  locks-cache_set_if_not_exists key value ttl = grind (arith, locks-schedule_cleanup)

  pub locks-list_append :
      (json : Json) (key value : Text) (max_length ttl : Option ℕ)
      → (Cache.list_append json key value max_length ttl now db).locks ≡ db.locks
  unfolding Cache.list_append
  locks-list_append json key value max_length ttl = locks-schedule_if _ now _

  pub locks-enqueue :
      (json : Json) (thread value : Text) (max_size : ℕ)
      → (Queue.enqueue json thread value max_size now db).0.locks ≡ db.locks
  unfolding Queue.enqueue
  locks-enqueue json thread value max_size = grind (arith, locks-schedule_cleanup)

  pub locks-dequeue : (thread : Text) → (Queue.dequeue thread now db).0.locks ≡ db.locks
  unfolding Queue.dequeue
  locks-dequeue thread = ground arith

pub locks-subscribe : (thread : Text) (db : Db) → (State.subscribe thread db).locks ≡ db.locks
unfolding State.subscribe
locks-subscribe thread db = ground arith
