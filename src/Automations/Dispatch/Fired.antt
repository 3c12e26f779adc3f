-- ===== src/Automations/Dispatch/Fired.antt =====
-- What the pass over the due automations leaves in the rows.
use amby.Common.{
  ℕ, ◌<◌, ◌≡◌, refl, sym, inl, inr, Bool, true, false, Option, none, some, List, [], ◌∷◌, filter,
  filter-Mem, All, arith, is_some, Bool-cases,
}
use amby.Common.Text.{Text, text_eq}
use mathlib.Core.List.{Memᴰ}
use amby.Automations.{
  Kind, AutomationStatus, Automation, Fields, set_status, is_due, find_due, update_status,
}
use amby.Automations.Dispatch.{
  Sent, Runner, target_of, next_of, next_run_of, as_it_is, ran, ran_until, save, save_cron,
  save_run, fire_to, fire_all, dispatch_due_automations,
}

-- No row with the id is due.
abbrev pub Rests : Text → ℕ → List Automation → Type 0
Rests id now rows = All (λ row. (text_eq row.id id ≡ true) → is_due now row ≡ false) rows

-- What is written makes a row that is not due.
abbrev Settles : AutomationStatus → Fields → ℕ → Type 0
Settles status fields now =
    (row : Automation) → (at : ℕ) → is_due now (set_status status fields at row) ≡ false

update_status-Rests :
    (id other : Text) (status : AutomationStatus) (fields : Fields) (now : ℕ)
    (rows : List Automation)
    → Settles status fields now
    → Rests id now rows
    → Rests id now (update_status other status fields now rows)
unfolding update_status
update_status-Rests id other status fields now [] s h = tt
update_status-Rests id other status fields now (row ∷ rows) s (h, hs) =
    elim (Bool-cases (text_eq row.id other)) [
      | inl same ↦
          rw same ((λ e. s row now), update_status-Rests id other status fields now rows s hs)
      | inr differs ↦ rw differs (h, update_status-Rests id other status fields now rows s hs)
    ]

-- The update of the rows with an id.
update_status_settled :
    (id : Text) (status : AutomationStatus) (fields : Fields) (now : ℕ) (rows : List Automation)
    → Settles status fields now
    → Rests id now (update_status id status fields now rows)
unfolding update_status
update_status_settled id status fields now [] s = tt
update_status_settled id status fields now (row ∷ rows) s = elim (Bool-cases (text_eq row.id id)) [
  | inl same ↦ rw same ((λ e. s row now), update_status_settled id status fields now rows s)
  | inr differs ↦
      rw differs
        ((λ e. absurd (cc (e, differs))), update_status_settled id status fields now rows s)
]

-- croner names times that are later than the time of the call.
abbrev pub IsLater : Option (Text → Text → Option ℕ) → ℕ → Type 0
IsLater next_run now =
    (next : Text → Text → Option ℕ)
    → (next_run ≡ some next)
    → (schedule tz : Text) → (n : ℕ) → (next schedule tz ≡ some n)
    → now < n

next_of_later :
    (next_run : Option (Text → Text → Option ℕ)) (schedule : Option Text) (tz : Text) (now n : ℕ)
    → IsLater next_run now
    → next_of next_run schedule tz ≡ some n
    → now < n
next_of_later none schedule tz now n later h = absurd (cc h)
next_of_later (some next) none tz now n later h = absurd (cc h)
next_of_later (some next) (some []) tz now n later h = absurd (cc h)
next_of_later (some next) (some (c ∷ s)) tz now n later h = later next refl (c ∷ s) tz n h

-- The rows that rest go on resting, and a row whose run is saved rests.
save-Rests :
    (r : Runner) (id other : Text) (status : AutomationStatus) (fields : Fields) (now : ℕ)
    (rows : List Automation)
    → Settles status fields now
    → Rests id now rows
    → Rests id now (save r other status fields now rows)
unfolding save
save-Rests r id other status fields now rows s h = elim (Bool-cases (r.saves other)) [
  | inl e ↦ rw e (update_status-Rests id other status fields now rows s h)
  | inr e ↦ rw e h
]

save_settled :
    (r : Runner) (id : Text) (status : AutomationStatus) (fields : Fields) (now : ℕ)
    (rows : List Automation)
    → Settles status fields now
    → r.saves id ≡ true
    → Rests id now (save r id status fields now rows)
unfolding save
save_settled r id status fields now rows s e =
    rw e (update_status_settled id status fields now rows s)

at_later : (now n : ℕ) → now < n → Settles AutomationStatus.active (ran_until now n) now
at_later now n h row at = ground arith

-- What a pass does to the rows of an id, whichever automation it fires.
module _ (r : Runner) (now : ℕ) (later : IsLater r.next_run now) (id : Text) where
  save_cron-Rests :
      (other : Text) (next : Option ℕ) (rows : List Automation)
      → ((n : ℕ) → next ≡ some n → now < n)
      → Rests id now rows
      → Rests id now (save_cron r now other next rows)
  unfolding save_cron
  save_cron-Rests other none rows l h =
      save-Rests r id other AutomationStatus.failed (ran now) now rows (λ row at. refl) h
  save_cron-Rests other (some n) rows l h =
      save-Rests r id other AutomationStatus.active (ran_until now n) now rows
        (at_later now n (l n refl)) h

  save_run-Rests :
      (row : Automation) (kind : Kind) (rows : List Automation)
      → Rests id now rows
      → Rests id now (save_run r now row kind rows)
  unfolding save_run
  save_run-Rests row Kind.scheduled rows h =
      save-Rests r id row.id AutomationStatus.completed (ran now) now rows (λ x at. refl) h
  save_run-Rests row Kind.cron rows h =
      save_cron-Rests row.id (next_run_of r row) rows
        (λ n. next_of_later r.next_run _ _ now n later) h
  save_run-Rests row Kind.event rows h = h

  fire_to-Rests :
      (row : Automation) (chat : Option Text) (rows : List Automation) (sent : Sent)
      → Rests id now rows
      → Rests id now (fire_to r now row chat (rows, sent)).0
  unfolding fire_to
  fire_to-Rests row none rows sent h = h
  fire_to-Rests row (some chat) rows sent h = elim (Bool-cases (r.sends chat)) [
    | inl e ↦ rw e (save_run-Rests row row.kind rows h)
    | inr e ↦
        rw e (save-Rests r id row.id AutomationStatus.failed as_it_is now rows (λ x at. refl) h)
  ]

  fire_all-Rests :
      (due rows : List Automation) (sent : Sent)
      → Rests id now rows
      → Rests id now (fire_all r now due (rows, sent)).0
  unfolding fire_all
  fire_all-Rests [] rows sent h = h
  fire_all-Rests (row ∷ due) rows sent h =
      let x = fire_to r now row (target_of r row) (rows, sent) in
      fire_all-Rests due x.0 x.1 (fire_to-Rests row (target_of r row) rows sent h)

-- Kinds that run at a time.
abbrev pub is_timed : Kind → Bool
is_timed Kind.cron = true
is_timed Kind.scheduled = true
is_timed Kind.event = false

module _ (r : Runner) (now : ℕ) (later : IsLater r.next_run now) where
  save_cron_settled :
      (id : Text) (next : Option ℕ) (rows : List Automation)
      → ((n : ℕ) → next ≡ some n → now < n)
      → r.saves id ≡ true
      → Rests id now (save_cron r now id next rows)
  unfolding save_cron
  save_cron_settled id none rows l h =
      save_settled r id AutomationStatus.failed (ran now) now rows (λ row at. refl) h
  save_cron_settled id (some n) rows l h =
      save_settled r id AutomationStatus.active (ran_until now n) now rows
        (at_later now n (l n refl)) h

  save_run_settled :
      (row : Automation) (kind : Kind) (rows : List Automation)
      → is_timed kind ≡ true
      → r.saves row.id ≡ true
      → Rests row.id now (save_run r now row kind rows)
  unfolding save_run
  save_run_settled row Kind.scheduled rows t h =
      save_settled r row.id AutomationStatus.completed (ran now) now rows (λ x at. refl) h
  save_run_settled row Kind.cron rows t h =
      save_cron_settled row.id (next_run_of r row) rows
        (λ n. next_of_later r.next_run _ _ now n later) h
  save_run_settled row Kind.event rows t h = absurd (cc t)

  fire_to_settled :
      (row : Automation) (chat : Option Text) (rows : List Automation) (sent : Sent)
      → is_some chat ≡ true
      → is_timed row.kind ≡ true
      → r.saves row.id ≡ true
      → Rests row.id now (fire_to r now row chat (rows, sent)).0
  unfolding fire_to
  fire_to_settled row none rows sent c t h = absurd (cc c)
  fire_to_settled row (some chat) rows sent c t h = elim (Bool-cases (r.sends chat)) [
    | inl e ↦ rw e (save_run_settled row row.kind rows t h)
    | inr e ↦
        rw e (save_settled r row.id AutomationStatus.failed as_it_is now rows (λ x at. refl) h)
  ]

  fire_all_settled :
      (row : Automation) (due rows : List Automation) (sent : Sent)
      → Memᴰ row due
      → is_some (target_of r row) ≡ true
      → is_timed row.kind ≡ true
      → r.saves row.id ≡ true
      → Rests row.id now (fire_all r now due (rows, sent)).0
  unfolding fire_all
  fire_all_settled row [] rows sent m c t h = elim m [ ]
  fire_all_settled row (u ∷ due) rows sent (Memᴰ.head e) c t h =
      let x = fire_to r now u (target_of r u) (rows, sent) in
      let rests : Rests row.id now x.0 =
        rw (sym e) (fire_to_settled row (target_of r row) rows sent c t h) in
      fire_all-Rests r now later row.id due x.0 x.1 rests
  fire_all_settled row (u ∷ due) rows sent (Memᴰ.tail m) c t h =
      let x = fire_to r now u (target_of r u) (rows, sent) in
      fire_all_settled row due x.0 x.1 m c t h

-- Once a due automation of a kind that runs at a time, with a chat to send to, has been dispatched
-- by a pass that can read the rows and write this one, no row with its id is due any more, whether
-- the message was sent or not, provided that croner only names later times.
pub dispatch_due_automations-Rests :
    (r : Runner) (now : ℕ) (rows : List Automation) (row : Automation)
    → IsLater r.next_run now
    → Memᴰ row rows
    → is_due now row ≡ true
    → is_some (target_of r row) ≡ true
    → is_timed row.kind ≡ true
    → r.saves row.id ≡ true
    → Rests row.id now (dispatch_due_automations (some r) true now rows).0
unfolding dispatch_due_automations find_due
dispatch_due_automations-Rests r now rows row later m due c t h =
    fire_all_settled r now later row (filter (is_due now) rows) rows []
      (filter-Mem (is_due now) rows m due) c t h
