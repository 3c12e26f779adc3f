-- ===== src/Ledger/Log.antt =====
-- The events of a run against an append-only log: what the readers of a run rely on.
use amby.Common.{
  ℕ, suc, max, ◌+◌, ◌≡◌, refl, sym, ap, subst, ◌∙◌, inl, inr, true, false, Option, none, some, List,
  [], ◌∷◌, ◌++◌, map, any, any-append, filter, length, filter-append, append-nil, arith,
  if◌then◌else◌, or_else, is_some, Bool-cases, Option-cases,
}
use amby.Common.Text.{Text, text_eq, text_eq_iff, text_eq_refl}
use amby.Tasks.Rows.{Value}
use amby.Execution.Tasks.{ExecutionMode}
use amby.Ledger
use amby.Ledger.{
  Run, Runs, RunEvent, RunStatus, RunEventKind, Entry, TaskEnd, is_run, is_of, last_seq, next_seq,
  numbered, insert_events, update_run, end_of_task, task_end, to_run_event_kind,
}

-- The operations of the writers. A list of events is given as its first one and the rest.
pub data Op : Type 0 where
  create_run : Run → Op
  append_many : Text → Entry → List Entry → Op
  set_mode : Text → ExecutionMode → Op
  update_metadata : Text → Value → Op
  link_message : Text → Option Text → Op
  complete_run : Text → RunStatus → Option Value → Op
  append_terminal_event : TaskEnd → Op

abbrev pub or_same : Option Runs → Runs → Runs
or_same none db = db
or_same (some db') db = db'

-- An operation that the database refuses changes nothing.
unfoldable pub apply : ℕ → Op → Runs → Runs
apply now (Op.create_run row) db = or_same (Ledger.create_run row db) db
apply now (Op.append_many run_id entry entries) db =
    or_same (insert_events run_id (entry ∷ entries) db) db
apply now (Op.set_mode run_id mode) db = Ledger.set_mode run_id mode db
apply now (Op.update_metadata run_id metadata) db = Ledger.update_metadata run_id metadata db
apply now (Op.link_message run_id message_id) db = Ledger.link_message run_id message_id db
apply now (Op.complete_run run_id status metadata) db =
    Ledger.complete_run run_id status metadata now db
apply now (Op.append_terminal_event p) db = or_same (Ledger.append_terminal_event p now db) db

unfoldable pub apply_all : List (ℕ × Op) → Runs → Runs
unfolding apply
apply_all [] db = db
apply_all ((now, op) ∷ ops) db = apply_all ops (apply now op db)

-- What is promised of one run: it is not there yet, or it has a log.
abbrev pub Log : Type 0
Log = Option (List Entry)

abbrev pub add : Text → Text → List Entry → Log → Log
add run_id target entries none = none
add run_id target entries (some log) =
    if text_eq target run_id then some (log ++ entries) else some log

abbrev pub start : Text → Text → Log → Log
start run_id id none = if text_eq id run_id then some [] else none
start run_id id (some log) = some log

abbrev pub spec_end : Text → Text → TaskEnd → Log → Log
spec_end run_id [] p log = log
spec_end run_id (c ∷ cs) p log =
    add run_id (c ∷ cs)
      ((to_run_event_kind p.status, task_end p.task_id p.status p.message p.exit_code p.reason)
        ∷ [])
      log

-- The entries that an operation adds, and the run it adds them to.
abbrev pub spec : Text → Op → Log → Log
spec run_id (Op.create_run row) log = start run_id row.id log
spec run_id (Op.append_many target entry entries) log = add run_id target (entry ∷ entries) log
spec run_id (Op.append_terminal_event p) log = spec_end run_id (or_else p.trace_id []) p log
spec run_id op log = log

unfoldable pub spec_all : Text → List (ℕ × Op) → Log → Log
spec_all run_id [] log = log
spec_all run_id ((now, op) ∷ ops) log = spec_all run_id ops (spec run_id op log)

-- The tables hold the log of a run: its events are the log's entries in order, numbered from 0.
pub record Represents (run_id : Text) (log : Log) (db : Runs) : Type 0 where
  pub found : any (is_run run_id) db.runs ≡ is_some log
  pub events : filter (is_of run_id) db.events ≡ numbered run_id 0 (or_else log [])

-- Facts on numbered lists.
numbered-append :
    (r : Text) (n : ℕ) (a b : List Entry)
    → numbered r n (a ++ b) ≡ numbered r n a ++ numbered r (n + length a) b
unfolding numbered
numbered-append r n [] b = ap (λ k. numbered r k b) (omega arith)
numbered-append r n (e ∷ a) b =
    let shifted : suc n + length a ≡ n + suc (length a) = omega arith in
    rw (numbered-append r (suc n) a b, shifted) refl

filter-numbered_same :
    (r : Text) (n : ℕ) (a : List Entry) → filter (is_of r) (numbered r n a) ≡ numbered r n a
unfolding numbered
filter-numbered_same r n [] = refl
filter-numbered_same r n (e ∷ a) = rw (text_eq_refl r, filter-numbered_same r (suc n) a) refl

filter-numbered_other :
    (r s : Text) (n : ℕ) (a : List Entry)
    → text_eq s r ≡ false
    → filter (is_of r) (numbered s n a) ≡ []
unfolding numbered
filter-numbered_other r s n [] h = refl
filter-numbered_other r s n (e ∷ a) h = rw (h, filter-numbered_other r s (suc n) a h) refl

-- Only the run's own events count.
last_seq-filter : (r : Text) (es : List RunEvent) → last_seq r (filter (is_of r) es) ≡ last_seq r es
unfolding last_seq
last_seq-filter r [] = refl
last_seq-filter r (e ∷ es) = elim (Bool-cases (is_of r e)) [
  | inl own ↦ rw (own, own, last_seq-filter r es) refl
  | inr other ↦ rw (other, last_seq-filter r es) refl
]

last_seq-own :
    (r : Text) (n : ℕ) (e : Entry) (es : List RunEvent)
    → last_seq r (record { run_id = r; seq = n; entry = e } ∷ es)
      ≡ (elim (last_seq r es) [ none ↦ some n | some m ↦ some (max n m) ])
unfolding last_seq
last_seq-own r n e es = rw (text_eq_refl r) refl

last_seq-numbered :
    (r : Text) (n : ℕ) (e : Entry) (a : List Entry)
    → last_seq r (numbered r n (e ∷ a)) ≡ some (n + length a)
unfolding last_seq numbered
last_seq-numbered r n e [] = rw (text_eq_refl r) (ap some (omega arith))
last_seq-numbered r n e (f ∷ a) =
    let step = last_seq-own r n e (numbered r (suc n) (f ∷ a)) in
    let larger : max n (suc n + length a) ≡ n + suc (length a) = omega arith in
    step
    ∙ ap (λ (o : Option ℕ). elim o as (λ x. Option ℕ) [ none ↦ some n | some m ↦ some (max n m) ])
        (last_seq-numbered r (suc n) f a)
    ∙ ap some larger

next_seq_lem :
    (r : Text) (log : List Entry) (es : List RunEvent)
    → filter (is_of r) es ≡ numbered r 0 log
    → next_seq r es ≡ length log
unfolding next_seq numbered last_seq
next_seq_lem r [] es h =
    let last : last_seq r es ≡ none = sym (last_seq-filter r es) ∙ ap (last_seq r) h in
    rw (next_seq, last) refl
next_seq_lem r (e ∷ log) es h =
    let last : last_seq r es ≡ some (length log) =
      sym (last_seq-filter r es)
      ∙ ap (last_seq r) h
      ∙ last_seq-numbered r 0 e log
      ∙ ap some (omega arith) in
    rw (next_seq, last) refl

-- Appending entries to a run, seen from another one, from itself, and from any.
insert_other-Represents :
    (r target : Text) (entries : List Entry) (log : Log) (db : Runs)
    → text_eq target r ≡ false
    → Represents r log db
    → Represents r log (or_same (insert_events target entries db) db)
unfolding insert_events
insert_other-Represents r target entries log db other h =
    elim (Bool-cases (any (is_run target) db.runs)) [
      | inr missing ↦ rw missing h
      | inl there ↦ rw there (record {
        found = h.found;
        events =
            filter-append (is_of r) db.events _
            ∙ ap (λ l. filter (is_of r) db.events ++ l)
                (filter-numbered_other r target _ entries other)
            ∙ append-nil (filter (is_of r) db.events)
            ∙ h.events;
      })
    ]

insert_own-Represents :
    (r : Text) (entries log : List Entry) (db : Runs)
    → Represents r (some log) db
    → Represents r (some (log ++ entries)) (or_same (insert_events r entries db) db)
unfolding insert_events
insert_own-Represents r entries log db h =
    rw (h.found, next_seq_lem r log db.events h.events)
      (record {
        found = h.found;
        events =
            filter-append (is_of r) db.events _
            ∙ ap (λ l. l ++ filter (is_of r) (numbered r (length log) entries)) h.events
            ∙ ap (λ l. numbered r 0 log ++ l) (filter-numbered_same r (length log) entries)
            ∙ ap (λ n. numbered r 0 log ++ numbered r n entries) (omega arith)
            ∙ sym (numbered-append r 0 log entries);
      })

insert_missing-Represents :
    (r : Text) (entries : List Entry) (db : Runs)
    → Represents r none db
    → Represents r none (or_same (insert_events r entries db) db)
unfolding insert_events
insert_missing-Represents r entries db h = rw h.found h

insert-Represents :
    (r target : Text) (entries : List Entry) (log : Log) (db : Runs)
    → Represents r log db
    → Represents r (add r target entries log) (or_same (insert_events target entries db) db)
insert-Represents r target entries none db h = elim (Bool-cases (text_eq target r)) [
  | inr other ↦ insert_other-Represents r target entries none db other h
  | inl own ↦
      let same : r ≡ target = sym ((text_eq_iff target r).0 own) in
      subst (λ t. Represents r none (or_same (insert_events t entries db) db)) same
        (insert_missing-Represents r entries db h)
]
insert-Represents r target entries (some log) db h = elim (Bool-cases (text_eq target r)) [
  | inr other ↦ rw other (insert_other-Represents r target entries (some log) db other h)
  | inl own ↦
      let same : r ≡ target = sym ((text_eq_iff target r).0 own) in
      rw own (
        subst (λ t. Represents r (some (log ++ entries)) (or_same (insert_events t entries db) db))
          same (insert_own-Represents r entries log db h))
]

update-found :
    (r target : Text) (set : Run → Run) (runs : List Run)
    → ((x : Run) → (set x).id ≡ x.id)
    → any (is_run r) (map (λ x. if is_run target x then set x else x) runs) ≡ any (is_run r) runs
update-found r target set [] keeps = refl
update-found r target set (x ∷ runs) keeps = elim (Bool-cases (is_run target x)) [
  | inl hit ↦ rw (hit, keeps x, update-found r target set runs keeps) refl
  | inr miss ↦ rw (miss, update-found r target set runs keeps) refl
]

update-Represents :
    (r target : Text) (set : Run → Run) (log : Log) (db : Runs)
    → ((x : Run) → (set x).id ≡ x.id)
    → Represents r log db
    → Represents r log (update_run target set db)
unfolding update_run
update-Represents r target set log db keeps h = record {
  found = update-found r target set db.runs keeps ∙ h.found;
  events = h.events;
}

-- A run whose id is taken is refused, and a new one has no event.
create-Represents :
    (r : Text) (row : Run) (log : Log) (db : Runs)
    → Represents r log db
    → Represents r (start r row.id log) (or_same (Ledger.create_run row db) db)
unfolding Ledger.create_run numbered
create-Represents r row none db h = elim (Bool-cases (any (is_run row.id) db.runs)) [
  | inl taken ↦ elim (Bool-cases (text_eq row.id r)) [
    | inr other ↦ rw (taken, other) h
    | inl own ↦
        let same : row.id ≡ r = (text_eq_iff row.id r).0 own in
        let there : any (is_run r) db.runs ≡ true =
          subst (λ i. any (is_run i) db.runs ≡ true) same taken in
        cc (h.found, there)
  ]
  | inr free ↦ elim (Bool-cases (text_eq row.id r)) [
    | inr other ↦
        rw (free, other)
          (record {
            found = any-append (is_run r) db.runs _ ∙ rw (h.found, other) refl;
            events = h.events;
          })
    | inl own ↦
        rw (free, own)
          (record {
            found = any-append (is_run r) db.runs _ ∙ rw (h.found, own) refl;
            events = h.events;
          })
  ]
]
create-Represents r row (some log) db h = elim (Bool-cases (any (is_run row.id) db.runs)) [
  | inl taken ↦ rw taken h
  | inr free ↦
      rw free
        (record { found = any-append (is_run r) db.runs _ ∙ rw h.found refl; events = h.events })
]

end-Represents :
    (r target : Text) (p : TaskEnd) (now : ℕ) (log : Log) (db : Runs)
    → Represents r log db
    → Represents r (spec_end r target p log) (or_same (end_of_task target p now db) db)
unfolding end_of_task
end-Represents r [] p now log db h = h
end-Represents r (c ∷ cs) p now log db h =
    let entries =
      (to_run_event_kind p.status, task_end p.task_id p.status p.message p.exit_code p.reason)
      ∷ [] in
    let added = insert-Represents r (c ∷ cs) entries log db h in
    elim (Option-cases (insert_events (c ∷ cs) entries db)) [
      | inl none_ ↦
          let kept : or_same (insert_events (c ∷ cs) entries db) db ≡ db = rw none_ refl in
          rw (or_same, none_) (subst (Represents r (add r (c ∷ cs) entries log)) kept added)
      | inr (db', some_) ↦
          let moved : or_same (insert_events (c ∷ cs) entries db) db ≡ db' = rw some_ refl in
          rw (or_same, some_)
            (update-Represents r (c ∷ cs) _ _ db' (λ x. refl)
              (subst (Represents r (add r (c ∷ cs) entries log)) moved added))
    ]

apply-Represents :
    (r : Text) (now : ℕ) (op : Op) (log : Log) (db : Runs)
    → Represents r log db
    → Represents r (spec r op log) (apply now op db)
unfolding apply Ledger.set_mode Ledger.update_metadata Ledger.link_message Ledger.complete_run
    Ledger.append_terminal_event
apply-Represents r now (Op.create_run row) log db h = create-Represents r row log db h
apply-Represents r now (Op.append_many target entry entries) log db h =
    insert-Represents r target (entry ∷ entries) log db h
apply-Represents r now (Op.set_mode target mode) log db h =
    update-Represents r target _ log db (λ x. refl) h
apply-Represents r now (Op.update_metadata target metadata) log db h =
    update-Represents r target _ log db (λ x. refl) h
apply-Represents r now (Op.link_message target message_id) log db h =
    update-Represents r target _ log db (λ x. refl) h
apply-Represents r now (Op.complete_run target status metadata) log db h =
    update-Represents r target _ log db (λ x. refl) h
apply-Represents r now (Op.append_terminal_event p) log db h =
    end-Represents r (or_else p.trace_id []) p now log db h

-- From tables that hold the log of a run, any sequence of operations on any runs, some of which
-- the database may refuse, leads to tables that hold the log to which the specification leads: the
-- entries of those operations that append to this run, in their order and numbered from 0 without a
-- gap. No operation on another run shows, and nothing else changes the log.
pub apply_all-Represents :
    (r : Text) (ops : List (ℕ × Op)) (log : Log) (db : Runs)
    → Represents r log db
    → Represents r (spec_all r ops log) (apply_all ops db)
unfolding apply_all spec_all
apply_all-Represents r [] log db h = h
apply_all-Represents r ((now, op) ∷ ops) log db h =
    apply_all-Represents r ops (spec r op log) (apply now op db)
      (apply-Represents r now op log db h)
