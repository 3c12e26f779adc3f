-- ===== src/Harness/Heartbeat/Loss.antt =====
-- A task whose sandbox does not answer.
use amby.Common.{
  ℕ, ◌≡◌, refl, sym, ap, ◌∙◌, inl, inr, Bool, true, false, Option, none, some, List, [], ◌∷◌, ◌++◌,
  any, find?, arith, or_else, Bool-cases,
}
use amby.Common.Text.{Text, text_eq}
use amby.Tasks.Status.{Status, is_terminal, lost}
use amby.Tasks.Rows.{Value, Task, TaskDb}
use amby.Tasks.Store.{
  TaskCompletion, update_where, insert_event, transact, is_unfinished, completed, completion_event,
  complete_task, current_runtime_data, is_event, terminal_status,
}
use amby.Tasks.Queries.{get_by_id}
use amby.Harness.World.{
  ActiveTask, World, Moment, Ending, Note, state_of, end_task, settle, read_task, has_active,
  untrack, remove_active, completion_of, then_,
}
use amby.Harness.Heartbeat.{Json, Sight, give_up}

abbrev pub has_id : Text → Task → Bool
has_id id t = text_eq t.id id

abbrev pub map_status : Option Task → Option Status
map_status none = none
map_status (some t) = some t.status

remove_active-gone :
    (id : Text) (as_ : List ActiveTask) → has_active id (remove_active id as_) ≡ false
unfolding remove_active
remove_active-gone id [] = refl
remove_active-gone id (a ∷ as_) = ground (arith, remove_active-gone id as_)

find-head :
    (p : Task → Bool) (t u : Task) (ts : List Task) → p u ≡ true → find? p (u ∷ ts) ≡ some t → u ≡ t
find-head p t u ts e h =
    let first : find? p (u ∷ ts) ≡ some u = rw e refl in
    let same : some u ≡ some t = sym first ∙ h in ap (λ (o : Option Task). or_else o u) same

find-tail :
    (p : Task → Bool) (t u : Task) (ts : List Task)
    → p u ≡ false
    → find? p (u ∷ ts) ≡ some t
    → find? p ts ≡ some t
find-tail p t u ts e h = let rest : find? p (u ∷ ts) ≡ find? p ts = rw e refl in sym rest ∙ h

hit_any :
    (c : TaskCompletion) (t : Task) (ts : List Task)
    → find? (has_id c.task_id) ts ≡ some t
    → is_terminal t.status ≡ false
    → any (is_unfinished c) ts ≡ true
hit_any c t [] h open_ = absurd (cc h)
hit_any c t (u ∷ ts) h open_ = elim (Bool-cases (text_eq u.id c.task_id)) [
  | inl e ↦
      let same = find-head (has_id c.task_id) t u ts e h in
      let open_u : is_terminal u.status ≡ false =
        ap (λ (x : Task). is_terminal x.status) same ∙ open_ in
      rw (e, open_u) refl
  | inr e ↦ rw e (hit_any c t ts (find-tail (has_id c.task_id) t u ts e h) open_)
]

-- The row after the completion, where it was found and open.
found_completed :
    (c : TaskCompletion) (current : Option (List (Text × Value))) (now : ℕ) (t : Task)
    (ts : List Task)
    → find? (has_id c.task_id) ts ≡ some t
    → is_terminal t.status ≡ false
    → find? (has_id c.task_id) (update_where (is_unfinished c) (completed c current now) ts)
      ≡ some (completed c current now t)
unfolding update_where completed
found_completed c current now t [] h open_ = absurd (cc h)
found_completed c current now t (u ∷ ts) h open_ = elim (Bool-cases (text_eq u.id c.task_id)) [
  | inl e ↦
      let same = find-head (has_id c.task_id) t u ts e h in
      let open_u : is_terminal u.status ≡ false =
        ap (λ (x : Task). is_terminal x.status) same ∙ open_ in
      rw (e, open_u, e) (ap (λ (x : Task). some (completed c current now x)) same)
  | inr e ↦
      rw (e, e) (found_completed c current now t ts (find-tail (has_id c.task_id) t u ts e h) open_)
]

find_any : (p : Task → Bool) (t : Task) (ts : List Task) → find? p ts ≡ some t → any p ts ≡ true
find_any p t [] h = absurd (cc h)
find_any p t (u ∷ ts) h = elim (Bool-cases (p u)) [
  | inl e ↦ rw e refl
  | inr e ↦ rw e (find_any p t ts (find-tail p t u ts e h))
]

-- A completion of an open row, with an event that is new, is carried out.
complete_task-some :
    (c : TaskCompletion) (fresh : Text) (now later : ℕ) (db : TaskDb) (t : Task)
    → find? (has_id c.task_id) db.tasks ≡ some t
    → is_terminal t.status ≡ false
    → any (is_event c.task_id fresh) db.events ≡ false
    → (db' : TaskDb) × (complete_task c fresh now later db ≡ some (db', true))
      × (find? (has_id c.task_id) db'.tasks
          ≡ some (completed c (current_runtime_data c.task_id db) now t))
unfolding complete_task transact insert_event
complete_task-some c fresh now later db t h open_ new =
    let current = current_runtime_data c.task_id db in
    let event = completion_event c fresh now later in
    let ts = update_where (is_unfinished c) (completed c current now) db.tasks in
    let found = found_completed c current now t db.tasks h open_ in
    let there = find_any (has_id c.task_id) _ ts found in
    (
      record { tasks = ts; events = db.events ++ (event ∷ []) },
      rw (hit_any c t db.tasks h open_, there, new) refl,
      found,
    )

-- What a beat meets when the sandbox does not answer but the database does.
pub record IsSilent (o : Sight) : Type 0 where
  pub refreshes : o.refreshes ≡ false
  pub reads : o.reads ≡ true

completed-status :
    (c : TaskCompletion) (current : Option (List (Text × Value))) (now : ℕ) (t : Task)
    → (completed c current now t).status ≡ terminal_status c.status
unfolding completed
completed-status c current now t = refl

-- Ending an open task, and then no longer tracking it.
ended_lem :
    (m : Moment) (trace_id : Option Text) (id : Text) (e : Ending) (note : Note) (w : World)
    (t : Task)
    → get_by_id id w.tasks ≡ some t
    → is_terminal t.status ≡ false
    → any (is_event id m.fresh) w.tasks.events ≡ false
    → (has_active id (state_of (then_ (end_task m trace_id id e note w) (untrack id))).active
        ≡ false)
      × (map_status
            (get_by_id id (state_of (then_ (end_task m trace_id id e note w) (untrack id))).tasks)
          ≡ some (terminal_status e.status))
unfolding end_task settle untrack get_by_id
ended_lem m trace_id id e note w t h open_ new =
    let c = completion_of id e in
    let (db, done_, found) = complete_task-some c m.fresh m.now m.later w.tasks t h open_ new in
    rw (settle, done_)
      (
        remove_active-gone id w.active,
        rw found (ap some (completed-status c (current_runtime_data id w.tasks) m.now t)),
      )

pub give_up_lem :
    (json : Json) (m : Moment) (o : Sight) (a : ActiveTask) (w : World) (t : Task)
    → o.reads ≡ true
    → get_by_id a.task_id w.tasks ≡ some t
    → is_terminal t.status ≡ false
    → any (is_event a.task_id m.fresh) w.tasks.events ≡ false
    → (has_active a.task_id (state_of (give_up json m o a w)).active ≡ false)
      × (map_status (get_by_id a.task_id (state_of (give_up json m o a w)).tasks) ≡ some lost)
unfolding give_up
give_up_lem json m o a w t reads h open_ new =
    let read : read_task o.reads a.task_id w ≡ some t = rw reads h in
    rw (give_up, read, open_) (ended_lem m _ a.task_id _ _ w t h open_ new)
