-- ===== src/Harness/Notify/Told.antt =====
-- The rows that still await a message after the pass.
use amby.Common.{
  ap, sym, subst, ◌∙◌, ℕ, ◌≡◌, ◌⊎◌, refl, inl, inr, Bool, true, false, ◌&&◌, Option, none, some,
  List, [], ◌∷◌, any, any_of_Mem, filter, filter-Mem, All, All-imp, All-filter, arith, is_some,
  Bool-cases,
}
use amby.Common.Text.{Text, text_eq, text_eq_iff, text_eq_refl}
use mathlib.Core.List.{Memᴰ}
use amby.Tasks.Status.{Status, same_status, is_terminal}
use amby.Tasks.Rows.{Task, TaskDb}
use amby.Tasks.Store.{mark_notified, update_task, update_where}
use amby.Tasks.Queries.{find_pending_notifications, is_untold}
use amby.Harness.Notify.{
  parse_reply_target, Channel, Sent, build_notification_message, target_of, send_to, notify_task,
  notify_tasks, notify_pending,
}

abbrev pub is_pending : Task → Bool
is_pending t =
    is_terminal t.status && is_some t.reply_target && is_untold t.notified_status t.status

-- There is no message for the status of the row, or no chat in its target.
abbrev pub Waits : Channel → Task → Type 0
Waits c t = (build_notification_message t ≡ none) ⊎ (target_of c t ≡ none)

-- Rows with one id have one status and one target.
abbrev pub Agrees : Task → Task → Type 0
Agrees t u = (text_eq u.id t.id ≡ true) → (u.status ≡ t.status) × (u.reply_target ≡ t.reply_target)

message-status :
    (t u : Task)
    → u.status ≡ t.status
    → build_notification_message t ≡ none
    → build_notification_message u ≡ none
unfolding build_notification_message
message-status t u same h = ground arith

target-same :
    (c : Channel) (t u : Task) → u.reply_target ≡ t.reply_target → target_of c u ≡ target_of c t
unfolding target_of
target-same c t u same =
    ap (λ o. elim o [ none ↦ none | some raw ↦ parse_reply_target (c.raw_of raw) ]) same

Waits-same :
    (c : Channel) (t u : Task) → Agrees t u → text_eq u.id t.id ≡ true → Waits c t → Waits c u
Waits-same c t u agrees same (inl h) = inl (message-status t u (agrees same).0 h)
Waits-same c t u agrees same (inr h) = inr (target-same c t u (agrees same).1 ∙ h)

abbrev pub is_same : Task → Task → Bool
is_same x t = text_eq x.id t.id

-- A row that awaits a message has none to get, or is still to come.
abbrev pub Settles : Channel → List Task → Task → Type 0
Settles c rest x = (is_pending x ≡ true) → Waits c x ⊎ (any (is_same x) rest ≡ true)

-- What the row becomes.
abbrev pub told : Status → ℕ → Task → Task
told status now t = record t {
  notified_status = some status;
  last_notification_at = some now;
  updated_at = now;
}

same_status_refl : (s : Status) → same_status s s ≡ true
same_status_refl s = ground arith

told_not_pending :
    (status : Status) (now : ℕ) (x : Task)
    → x.status ≡ status
    → is_pending (told status now x) ≡ false
told_not_pending status now x e = ground (arith, same_status_refl x.status)

pass-Settles :
    (c : Channel) (t : Task) (rest : List Task) (x : Task)
    → Agrees t x
    → Waits c t
    → Settles c (t ∷ rest) x
    → Settles c rest x
pass-Settles c t rest x agrees waits h p = elim (Bool-cases (text_eq x.id t.id)) [
  | inl same ↦ inl (Waits-same c t x agrees same waits)
  | inr other ↦ elim (h p) [ inl w ↦ inl w | inr there ↦ inr (ground (arith, there, other)) ]
]

-- The rows after one message, or after none.
passed :
    (c : Channel) (t : Task) (rest ts : List Task)
    → Waits c t
    → All (Agrees t) ts
    → All (Settles c (t ∷ rest)) ts
    → All (Settles c rest) ts
passed c t rest [] waits a h = tt
passed c t rest (x ∷ ts) waits (a, as_) (h, hs) =
    (pass-Settles c t rest x a waits h, passed c t rest ts waits as_ hs)

marked :
    (c : Channel) (t : Task) (now : ℕ) (rest ts : List Task)
    → All (Agrees t) ts
    → All (Settles c (t ∷ rest)) ts
    → All (Settles c rest) (update_where (λ x. text_eq x.id t.id) (told t.status now) ts)
unfolding update_where
marked c t now rest [] a h = tt
marked c t now rest (x ∷ ts) (a, as_) (h, hs) = elim (Bool-cases (text_eq x.id t.id)) [
  | inl same ↦ rw same (
    (λ p. absurd (cc (p, told_not_pending t.status now x (a same).0))),
    marked c t now rest ts as_ hs,
  )
  | inr other ↦ rw other (
    (λ p. elim (h p) [ inl w ↦ inl w | inr there ↦ inr (ground (arith, there, other)) ]),
    marked c t now rest ts as_ hs,
  )
]

-- Statuses and ids stay, so rows go on agreeing.
marked-Agrees :
    (t u : Task) (now : ℕ) (ts : List Task)
    → All (Agrees u) ts
    → All (Agrees u) (update_where (λ x. text_eq x.id t.id) (told t.status now) ts)
unfolding update_where
marked-Agrees t u now [] h = tt
marked-Agrees t u now (x ∷ ts) (h, hs) = elim (Bool-cases (text_eq x.id t.id)) [
  | inl same ↦ rw same (h, marked-Agrees t u now ts hs)
  | inr other ↦ rw other (h, marked-Agrees t u now ts hs)
]

-- A channel on which every message is sent and every row is written.
pub record IsUp (c : Channel) : Type 0 where
  pub sends : (chat : Text) → c.sends chat ≡ true
  pub saves : (id : Text) → c.saves id ≡ true

-- The rows while the pass goes on.
record Going (c : Channel) (rest ts : List Task) : Type 0 where
  settles : All (Settles c rest) ts
  agrees : All (λ t. All (Agrees t) ts) rest

mark-rows :
    (id : Text) (status : Status) (now : ℕ) (db : TaskDb)
    → (mark_notified id status now db).tasks
      ≡ update_where (λ x. text_eq x.id id) (told status now) db.tasks
unfolding mark_notified update_task
mark-rows id status now db = refl

sent_goes :
    (c : Channel) (now : ℕ) (t : Task) (rest : List Task) (chat text : Option Text) (db : TaskDb)
    (sent : Sent)
    → IsUp c
    → build_notification_message t ≡ text
    → target_of c t ≡ chat
    → Going c (t ∷ rest) db.tasks
    → Going c rest (send_to c now t chat text (db, sent)).0.tasks
unfolding send_to
sent_goes c now t rest none text db sent up e k g = record {
  settles = passed c t rest db.tasks (inr k) g.agrees.0 g.settles;
  agrees = g.agrees.1;
}
sent_goes c now t rest (some chat) none db sent up e k g = record {
  settles = passed c t rest db.tasks (inl e) g.agrees.0 g.settles;
  agrees = g.agrees.1;
}
sent_goes c now t rest (some chat) (some text) db sent up e k g =
    rw (up.sends chat, up.saves t.id, mark-rows t.id t.status now db)
      (record {
        settles = marked c t now rest db.tasks g.agrees.0 g.settles;
        agrees =
            All-imp (λ u. All (Agrees u) db.tasks) _ (λ u h. marked-Agrees t u now db.tasks h) rest
              g.agrees.1;
      })

notify_tasks_lem :
    (c : Channel) (now : ℕ) (rest : List Task) (db : TaskDb) (sent : Sent)
    → IsUp c
    → Going c rest db.tasks
    → All (Settles c []) (notify_tasks c now rest (db, sent)).0.tasks
unfolding notify_tasks notify_task
notify_tasks_lem c now [] db sent up g = g.settles
notify_tasks_lem c now (t ∷ rest) db sent up g =
    let x = send_to c now t (target_of c t) (build_notification_message t) (db, sent) in
    notify_tasks_lem c now rest x.0 x.1 up
      (sent_goes c now t rest (target_of c t) (build_notification_message t) db sent up refl refl g)

-- A pending row is among the pending rows.
filter-any :
    (c : Channel) (xs ts : List Task)
    → ((x : Task) → Memᴰ x xs → Memᴰ x ts)
    → All (Settles c (filter is_pending ts)) xs
filter-any c [] ts sub = tt
filter-any c (x ∷ xs) ts sub = (
  (λ p. inr (
      any_of_Mem (is_same x) _ (filter-Mem is_pending ts (sub x (Memᴰ.head refl)) p)
        (text_eq_refl x.id))),
  filter-any c xs ts (λ y m. sub y (Memᴰ.tail m)),
)

-- A row that an update is not for stays.
update_where-Mem :
    (hit : Task → Bool) (set : Task → Task) (x : Task) (ts : List Task)
    → hit x ≡ false
    → Memᴰ x ts
    → Memᴰ x (update_where hit set ts)
unfolding update_where
update_where-Mem hit set x [] h m = elim m [ ]
update_where-Mem hit set x (t ∷ ts) h (Memᴰ.head e) =
    let other : hit t ≡ false = ap hit (sym e) ∙ h in rw other (Memᴰ.head e)
update_where-Mem hit set x (t ∷ ts) h (Memᴰ.tail m) = Memᴰ.tail (update_where-Mem hit set x ts h m)

-- A row that waits does not share its id with one that is told.
not_told :
    (c : Channel) (t x : Task) (chat text : Text)
    → build_notification_message t ≡ some text
    → target_of c t ≡ some chat
    → Agrees x t
    → Waits c x
    → text_eq x.id t.id ≡ false
not_told c t x chat text e k agrees waits = elim (Bool-cases (text_eq x.id t.id)) [
  | inr other ↦ other
  | inl same ↦
      elim (Waits-same c x t agrees
        (ap (text_eq t.id) ((text_eq_iff x.id t.id).0 same) ∙ text_eq_refl t.id) waits) [
          | inl none_ ↦ absurd (cc (none_, e))
          | inr none_ ↦ absurd (cc (none_, k))
        ]
]

sent_stays :
    (c : Channel) (now : ℕ) (t x : Task) (chat text : Option Text) (db : TaskDb) (sent : Sent)
    → build_notification_message t ≡ text
    → target_of c t ≡ chat
    → Agrees x t
    → Waits c x
    → Memᴰ x db.tasks
    → Memᴰ x (send_to c now t chat text (db, sent)).0.tasks
unfolding send_to
sent_stays c now t x none text db sent e k agrees waits m = m
sent_stays c now t x (some chat) none db sent e k agrees waits m = m
sent_stays c now t x (some chat) (some text) db sent e k agrees waits m =
    let other = not_told c t x chat text e k agrees waits in
    let kept : Memᴰ x (mark_notified t.id t.status now db).tasks =
      rw (mark-rows t.id t.status now db)
        (update_where-Mem (λ y. text_eq y.id t.id) (told t.status now) x db.tasks other m) in
    elim (Bool-cases (c.sends chat)) [
      | inr down ↦ rw down m
      | inl up ↦ elim (Bool-cases (c.saves t.id)) [
        | inl saved ↦ rw (up, saved) kept
        | inr lost_ ↦ rw (up, lost_) m
      ]
    ]

notify_tasks_stays :
    (c : Channel) (now : ℕ) (rest : List Task) (x : Task) (db : TaskDb) (sent : Sent)
    → All (Agrees x) rest
    → Waits c x
    → Memᴰ x db.tasks
    → Memᴰ x (notify_tasks c now rest (db, sent)).0.tasks
unfolding notify_tasks notify_task
notify_tasks_stays c now [] x db sent agrees waits m = m
notify_tasks_stays c now (t ∷ rest) x db sent (a, agrees) waits m =
    let y = send_to c now t (target_of c t) (build_notification_message t) (db, sent) in
    notify_tasks_stays c now rest x y.0 y.1 agrees waits (
      sent_stays c now t x (target_of c t) (build_notification_message t) db sent refl refl a waits
        m)

all_of_Mem : (P : Task → Type 0) {x : Task} (ts : List Task) → All P ts → Memᴰ x ts → P x
all_of_Mem P [] h m = elim m [ ]
all_of_Mem P (t ∷ ts) (h, hs) (Memᴰ.head e) = subst P (sym e) h
all_of_Mem P (t ∷ ts) (h, hs) (Memᴰ.tail m) = all_of_Mem P ts hs m

-- After a pass on which every message is sent and every row is written, the rows that still await a
-- message are those for whose status there is none (a task that is partial, escalated or
-- cancelled) or whose target names no chat; and every such row of before stands unchanged among the
-- rows. Rows with one id are to have one status and one target.
pub notify_pending-Waits :
    (c : Channel) (now : ℕ) (db : TaskDb)
    → IsUp c
    → All (λ t. All (Agrees t) db.tasks) db.tasks
    → All (λ t. (is_pending t ≡ true) → Waits c t) (notify_pending c now db).0.tasks
      × ((x : Task) → Memᴰ x db.tasks → Waits c x → Memᴰ x (notify_pending c now db).0.tasks)
unfolding notify_pending find_pending_notifications
notify_pending-Waits c now db up agrees =
    let pending = filter is_pending db.tasks in
    (
      All-imp (Settles c []) _ (λ t h p. elim (h p) [ inl w ↦ w | inr there ↦ absurd (cc there) ]) _
          (notify_tasks_lem c now pending db [] up (record {
            settles = filter-any c db.tasks db.tasks (λ x m. m);
            agrees = All-filter _ is_pending db.tasks agrees;
          })),
      λ x m waits.
          notify_tasks_stays c now pending x db []
            (All-filter _ is_pending db.tasks
              (all_of_Mem (λ t. All (Agrees t) db.tasks) db.tasks agrees m))
            waits m,
    )
