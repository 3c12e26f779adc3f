-- ===== src/Harness/Start/Bounds.antt =====
-- How many active tasks a user has while starts of tasks overlap.
use amby.Common.{
  ℕ, zero, suc, ◌+◌, ◌≤◌, ◌<◌, ◌≡◌, refl, sym, ap, inl, inr, Bool, true, false, Option, none, some,
  List, [], ◌∷◌, leb, All, length, filter, arith, if◌then◌else◌, Bool-cases, Option-cases,
}
use amby.Common.Text.{Text, text_eq, text_eq_iff}
use amby.Tasks.Rows.{Value, Task}
use amby.Tasks.Store
use amby.Tasks.Store.{update_task}
use amby.Tasks.Queries.{count_active_sandbox_tasks, is_active_status}
use amby.Harness.Codex
use amby.Harness.Codex.{AuthMode}
use amby.Harness.World.{World, Moment, track}
use amby.Harness.Start
use amby.Harness.Start.{
  Params, Drawn, Directory, Prepared, Launch, Inserted, inserted, rejected, Checked, admitted,
  turned_away, id_of,
}
use amby.Harness.Start.Rows.{
  has_id, count_active, count_last, count_update, count_roll_back, create_task_lem, MakesNone,
}

abbrev pub Admitted : Type 0
Admitted = AuthMode × Params

-- The state, and the starts that have been counted but not inserted yet.
pub record System : Type 0 where
  pub world : World
  pub waiting : List Admitted

-- The parts of a start between which others may come, each for any user, and whatever else changes
-- the state. An insertion names the place of its start among those that wait.
pub data Step : Type 0 where
  check : Codex.Surroundings → Params → Prepared → Step
  insert : (n : ℕ) → Directory → Drawn → Moment → Step
  launch : Directory → AuthMode → Params → Drawn → Moment → Launch → Step
  other : (World → World) → Step

abbrev pub nth : ℕ → List Admitted → Option Admitted
nth n [] = none
nth zero (x ∷ l) = some x
nth (suc n) (x ∷ l) = nth n l

abbrev pub without : ℕ → List Admitted → List Admitted
without n [] = []
without zero (x ∷ l) = l
without (suc n) (x ∷ l) = x ∷ without n l

abbrev pub admit : Params → Checked → List Admitted → List Admitted
admit p (admitted mode) l = (mode, p) ∷ l
admit p (turned_away error) l = l

abbrev pub inserted_or : Inserted → World → World
inserted_or (inserted w') w = w'
inserted_or (rejected error) w = w

unfoldable pub insert_admitted : Directory → Drawn → Moment → Option Admitted → World → World
unfolding Start.insert_start
insert_admitted d r m none w = w
insert_admitted d r m (some (mode, p)) w = inserted_or (Start.insert_start d mode p r m w) w

unfoldable pub step : Step → System → System
unfolding Start.check_start Start.launch insert_admitted
step (Step.check s p ready_) y =
    let (w, checked) = Start.check_start s p ready_ y.world in
    record { world = w; waiting = admit p checked y.waiting }
step (Step.insert n d r m) y = record {
  world = insert_admitted d r m (nth n y.waiting) y.world;
  waiting = without n y.waiting;
}
step (Step.launch d mode p r m l) y = record y { world = (Start.launch d mode p r m l y.world).0 }
step (Step.other f) y = record y { world = f y.world }

unfoldable pub run : List Step → System → System
unfolding step
run [] y = y
run (s ∷ steps) y = run steps (step s y)

-- How many starts of a user wait between their count and their insertion.
abbrev pub count_waiting : Text → List Admitted → ℕ
count_waiting user_id l = length (filter (λ x. text_eq x.1.user_id user_id) l)

abbrev pub count_of : Text → System → ℕ
count_of user_id y = count_active_sandbox_tasks user_id y.world.tasks

-- A check is to leave no more than `k` starts of the user waiting, a launch to find the rows of its
-- task still active, and what else happens to leave the user no more active tasks.
abbrev pub IsAllowed : ℕ → Text → Step → System → Type 0
IsAllowed k user_id (Step.check s p ready_) y =
    count_waiting user_id (step (Step.check s p ready_) y).waiting ≤ k
IsAllowed k user_id (Step.insert n d r m) y = Unit {0}
IsAllowed k user_id (Step.launch d mode p r m l) y =
    All (λ t. (has_id (id_of p r) t ≡ true) → is_active_status t.status ≡ true) y.world.tasks.tasks
IsAllowed k user_id (Step.other f) y =
    count_active_sandbox_tasks user_id (f y.world).tasks ≤ count_of user_id y

abbrev pub IsAllowedRun : ℕ → Text → List Step → System → Type 0
IsAllowedRun k user_id [] y = Unit {0}
IsAllowedRun k user_id (s ∷ steps) y =
    IsAllowed k user_id s y × IsAllowedRun k user_id steps (step s y)

-- The active tasks with the starts that wait.
abbrev Fits : ℕ → Text → System → Type 0
Fits k user_id y =
    count_active user_id y.world.tasks.tasks + count_waiting user_id y.waiting
    < Start.max_active_tasks_per_user + k

count_admit :
    (user_id : Text) (mode : AuthMode) (p : Params) (l : List Admitted)
    → count_waiting user_id ((mode, p) ∷ l)
      ≡ (if text_eq p.user_id user_id then 1 else 0) + count_waiting user_id l
count_admit user_id mode p l = ground arith

-- A start is admitted only while its user has room.
abbrev Room : ℕ → Checked → Type 0
Room active (admitted mode) = active < Start.max_active_tasks_per_user
Room active (turned_away error) = Unit {0}

guarded :
    (active : ℕ) (b : Bool) (x y : Checked)
    → (b ≡ true → Room active x)
    → (b ≡ false → Room active y)
    → Room active (if b then x else y)
guarded active true x y hx hy = hx refl
guarded active false x y hx hy = hy refl

check_ready-Room :
    (mode : AuthMode) (p : Params) (ready_ : Prepared) (w : World)
    → Room (count_active p.user_id w.tasks.tasks) (Start.check_ready mode p ready_ w)
unfolding Start.check_ready count_active_sandbox_tasks
check_ready-Room mode p ready_ w =
    let active = count_active p.user_id w.tasks.tasks in
    let guard = guarded active in
    guard ready_.installs _ _
      (λ i.
        guard ready_.counts _ _
          (λ c.
            guard (leb Start.max_active_tasks_per_user active) _ _ (λ f. tt)
              (λ room. guard ready_.mints _ _ (λ h. ground (arith, room)) (λ h. tt)))
          (λ c. tt))
      (λ i. tt)

check_authorized-Room :
    (p : Params) (ready_ : Prepared) (required : Codex.Required) (w : World)
    → Room (count_active p.user_id w.tasks.tasks) (Start.check_authorized p ready_ required w)
unfolding Start.check_authorized
check_authorized-Room p ready_ (Codex.failed failure) w = tt
check_authorized-Room p ready_ (Codex.ready mode) w = check_ready-Room mode p ready_ w

-- The checks change no table, and admit a start in room.
record Sound (p : Params) (w : World) (x : World × Checked) : Type 0 where
  tasks : x.0.tasks ≡ w.tasks
  room : Room (count_active p.user_id w.tasks.tasks) x.1

check_start-Sound :
    (s : Codex.Surroundings) (p : Params) (ready_ : Prepared) (w : World)
    → Sound p w (Start.check_start s p ready_ w)
unfolding Start.check_start
check_start-Sound s p ready_ w = elim (Bool-cases ready_.ensures) [
  | inl e ↦
      rw (e, Start.check_start)
        (record {
          tasks = refl;
          room =
              check_authorized-Room p ready_ (Codex.require_codex_auth s w.login).1
                (record w { login = (Codex.require_codex_auth s w.login).0 });
        })
  | inr e ↦ rw (e, Start.check_start) (record { tasks = refl; room = tt })
]

admit-fits :
    (k : ℕ) (user_id : Text) (p : Params) (c : Checked) (l : List Admitted) (own count : ℕ)
    → Room own c
    → (text_eq p.user_id user_id ≡ true → count ≡ own)
    → count_waiting user_id (admit p c l) ≤ k
    → count + count_waiting user_id l < Start.max_active_tasks_per_user + k
    → count + count_waiting user_id (admit p c l) < Start.max_active_tasks_per_user + k
admit-fits k user_id p (turned_away error) l own count room same few h = h
admit-fits k user_id p (admitted mode) l own count room same few h =
    elim (Bool-cases (text_eq p.user_id user_id)) [
      | inl e ↦ omega (arith, room, same e, few)
      | inr e ↦ ground (arith, e, h)
    ]

-- What an insertion adds, and what it takes from those that wait.
abbrev added : Text → Option Admitted → ℕ
added user_id none = 0
added user_id (some (mode, p)) = if text_eq p.user_id user_id then 1 else 0

count_without :
    (user_id : Text) (n : ℕ) (l : List Admitted)
    → added user_id (nth n l) + count_waiting user_id (without n l) ≡ count_waiting user_id l
count_without user_id n [] = refl
count_without user_id zero ((mode, p) ∷ l) = sym (count_admit user_id mode p l)
count_without user_id (suc n) ((mode, p) ∷ l) =
    let rest = count_without user_id n l in
    let old = count_admit user_id mode p l in
    let new = count_admit user_id mode p (without n l) in omega (arith, rest, old, new)

insert_row_count :
    (user_id : Text) (d : Directory) (mode : AuthMode) (p : Params) (r : Drawn) (m : Moment)
    (target : Option (Option Value)) (w : World)
    → count_active user_id (inserted_or (Start.insert_row d mode p r m target w) w).tasks.tasks
      ≤ count_active user_id w.tasks.tasks + (if text_eq p.user_id user_id then 1 else 0)
unfolding Start.insert_row Start.new_row
insert_row_count user_id d mode p r m none w = omega arith
insert_row_count user_id d mode p r m (some target) w =
    let row = Start.new_row d mode p r target m.now in
    let payload = some (d.event_payload p (id_of p r)) in
    elim (Option-cases (Store.create_task row payload r.event_id m.now m.later w.tasks)) [
      | inl e ↦ rw (Start.insert_row, e) (omega arith)
      | inr (db, e) ↦
          let grown = create_task_lem row payload r.event_id m.now m.later w.tasks db e in
          rw (Start.insert_row, e) (rw grown (count_last user_id w.tasks.tasks row))
    ]

insert_admitted_count :
    (user_id : Text) (d : Directory) (r : Drawn) (m : Moment) (o : Option Admitted) (w : World)
    → count_active user_id (insert_admitted d r m o w).tasks.tasks
      ≤ count_active user_id w.tasks.tasks + added user_id o
unfolding insert_admitted Start.insert_start
insert_admitted_count user_id d r m none w = omega arith
insert_admitted_count user_id d r m (some (mode, p)) w =
    insert_row_count user_id d mode p r m (Start.reply_target_of d p.conversation_id) w

-- A launch whose rows are active leaves them active.
set_running-MakesNone :
    (user_id : Text) (d : Directory) (mode : AuthMode) (r : Drawn) (id command_id : Text) (now : ℕ)
    (ts : List Task)
    → All (λ t. (has_id id t ≡ true) → is_active_status t.status ≡ true) ts
    → All (MakesNone user_id (has_id id) (Start.set_running d mode r id command_id now)) ts
unfolding Start.set_running
set_running-MakesNone user_id d mode r id command_id now [] h = tt
set_running-MakesNone user_id d mode r id command_id now (t ∷ ts) (h, hs) = (
  (λ e active. ground (arith, h e, active)),
  set_running-MakesNone user_id d mode r id command_id now ts hs,
)

launch_count :
    (user_id : Text) (d : Directory) (mode : AuthMode) (p : Params) (r : Drawn) (m : Moment)
    (l : Launch) (w : World)
    → All (λ t. (has_id (id_of p r) t ≡ true) → is_active_status t.status ≡ true) w.tasks.tasks
    → count_active user_id (Start.launch d mode p r m l w).0.tasks.tasks
      ≤ count_active user_id w.tasks.tasks
unfolding Start.launch update_task track
launch_count user_id d mode p r m (Launch.unprepared text) w h =
    count_roll_back user_id d m (id_of p r) none text w
launch_count user_id d mode p r m (Launch.unstarted text) w h =
    count_roll_back user_id d m (id_of p r) (some (Start.task_session_id (id_of p r))) text w
launch_count user_id d mode p r m (Launch.launched command_id) w h =
    count_update user_id (has_id (id_of p r)) _ w.tasks.tasks
      (set_running-MakesNone user_id d mode r (id_of p r) command_id m.now w.tasks.tasks h)

step-Fits :
    (k : ℕ) (user_id : Text) (s : Step) (y : System)
    → IsAllowed k user_id s y
    → Fits k user_id y
    → Fits k user_id (step s y)
unfolding step count_active_sandbox_tasks
step-Fits k user_id (Step.check s p ready_) y few h =
    let sound = check_start-Sound s p ready_ y.world in
    rw sound.tasks (
      admit-fits k user_id p (Start.check_start s p ready_ y.world).1 y.waiting
        (count_active p.user_id y.world.tasks.tasks) (count_active user_id y.world.tasks.tasks)
        sound.room
        (λ e.
          ap (λ u. count_active u y.world.tasks.tasks) (sym ((text_eq_iff p.user_id user_id).0 e)))
        few h)
step-Fits k user_id (Step.insert n d r m) y allowed h =
    let grown = insert_admitted_count user_id d r m (nth n y.waiting) y.world in
    let taken = count_without user_id n y.waiting in omega (arith, grown, taken, h)
step-Fits k user_id (Step.launch d mode p r m l) y active h =
    let fewer = launch_count user_id d mode p r m l y.world active in omega (arith, fewer, h)
step-Fits k user_id (Step.other f) y fewer h = omega (arith, fewer, h)

run-Fits :
    (k : ℕ) (user_id : Text) (steps : List Step) (y : System)
    → IsAllowedRun k user_id steps y
    → Fits k user_id y
    → Fits k user_id (run steps y)
unfolding run
run-Fits k user_id [] y allowed h = h
run-Fits k user_id (s ∷ steps) y (allowed, rest) h =
    run-Fits k user_id steps (step s y) rest (step-Fits k user_id s y allowed h)

-- If no more than k starts of a user wait at a time, counted and not yet inserted, the user has at
-- most 4 + k active tasks in sandboxes after any sequence of counts, insertions and launches of any
-- starts: at most five if the starts of the user do not overlap. At first no start waits and the
-- user has at most 4 + k; launches are to find the rows of their tasks still active, and whatever
-- else happens is to leave no more active tasks of the user.
pub run_bound :
    (k : ℕ) (user_id : Text) (steps : List Step) (w : World)
    → IsAllowedRun k user_id steps (record { world = w; waiting = [] })
    → count_active_sandbox_tasks user_id w.tasks < Start.max_active_tasks_per_user + k
    → count_of user_id (run steps (record { world = w; waiting = [] }))
      < Start.max_active_tasks_per_user + k
unfolding count_active_sandbox_tasks
run_bound k user_id steps w allowed room =
    let start : System = record { world = w; waiting = [] } in
    let fits = run-Fits k user_id steps start allowed (omega (arith, room)) in omega (arith, fits)
