-- ===== src/Tasks/Runs.antt =====
-- How rows of the tasks may change from one write to the next.
pub mod Writes
use amby.Common.{
  ℕ, suc, ◌+◌, ◌≤◌, ◌≡◌, ◌≢◌, ◌⊎◌, refl, sym, ap, ◌∙◌, inl, inr, Bool, true, false, not, ◌&&◌,
  Option, none, some, List, [], ◌∷◌, ◌++◌, map, any, All, arith, if◌then◌else◌, or_else, is_some,
  Bool-cases, Option-cases, append_assoc, append-nil,
}
use amby.Common.Text.{Text, text_eq, text_eq_iff}
use amby.Tasks.Status.{Status, is_terminal, same_status, index}
use amby.Tasks.Rows.{Task, TaskEvent, TaskDb, Payload}
use amby.Tasks.Store
use amby.Tasks.Store.{
  update_where, insert_event, Progress, NewEvent, TaskCompletion, committed, is_event,
}

-- What a write may make of a row: it keeps the task's id and callback, its sequence number does
-- not fall, and its status does not change once it is terminal.
pub record Evolves (old new : Task) : Type 0 where
  pub id : new.id ≡ old.id
  pub callback_id : new.callback_id ≡ old.callback_id
  pub seq : old.last_event_seq ≤ new.last_event_seq
  pub status : (is_terminal old.status ≡ false) ⊎ (new.status ≡ old.status)

-- Row by row, with new rows at the end.
abbrev pub Evolve : List Task → List Task → Type 0
Evolve [] new = Unit {0}
Evolve (t ∷ old) [] = ⊥
Evolve (t ∷ old) (u ∷ new) = Evolves t u × Evolve old new

pub Evolves-refl : (t : Task) → Evolves t t
Evolves-refl t = record { id = refl; callback_id = refl; seq = omega arith; status = inr refl }

Evolves-trans : (t u v : Task) → Evolves t u → Evolves u v → Evolves t v
Evolves-trans t u v a b = record {
  id = b.id ∙ a.id;
  callback_id = b.callback_id ∙ a.callback_id;
  seq = omega (arith, a.seq, b.seq);
  status = ground (arith, a.status, b.status);
}

pub Evolve-refl : (ts : List Task) → Evolve ts ts
Evolve-refl [] = tt
Evolve-refl (t ∷ ts) = (Evolves-refl t, Evolve-refl ts)

pub Evolve-trans : (ts us vs : List Task) → Evolve ts us → Evolve us vs → Evolve ts vs
Evolve-trans [] us vs a b = tt
Evolve-trans (t ∷ ts) [] vs a b = absurd a
Evolve-trans (t ∷ ts) (u ∷ us) [] a b = absurd b
Evolve-trans (t ∷ ts) (u ∷ us) (v ∷ vs) (a, a_rest) (b, b_rest) =
    (Evolves-trans t u v a b, Evolve-trans ts us vs a_rest b_rest)

pub Evolve-append : (ts us : List Task) → Evolve ts (ts ++ us)
Evolve-append [] us = tt
Evolve-append (t ∷ ts) us = (Evolves-refl t, Evolve-append ts us)

-- A conditional update whose new rows evolve from the old ones.
pub Evolve-update_where :
    (hit : Task → Bool) (set : Task → Task)
    → ((t : Task) → hit t ≡ true → Evolves t (set t))
    → (ts : List Task) → Evolve ts (update_where hit set ts)
unfolding update_where
Evolve-update_where hit set h [] = tt
Evolve-update_where hit set h (t ∷ ts) = elim (Bool-cases (hit t)) [
  | inl e ↦ rw e (h t e, Evolve-update_where hit set h ts)
  | inr e ↦ rw e (Evolves-refl t, Evolve-update_where hit set h ts)
]

-- Inserting an event leaves the tasks alone and adds one event at the end.
pub insert_event_lem :
    (e : TaskEvent) (db : TaskDb)
    → (insert_event e db ≡ none)
      ⊎ ((insert_event e db ≡ some (record db { events = db.events ++ (e ∷ []) }))
          × (any (is_event e.task_id e.event_id) db.events ≡ false))
unfolding insert_event
insert_event_lem e db = ground arith
