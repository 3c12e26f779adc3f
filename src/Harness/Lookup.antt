-- ===== src/Harness/Lookup.antt =====
-- What looking a task up does to the rows, and how often it looks.
use amby.Common.{
  ℕ, zero, suc, ◌+◌, ◌-◌, ◌*◌, ◌≤◌, ◌≡◌, ◌⊎◌, refl, ap, inl, inr, Bool, true, false, Option, none,
  some, List, [], ◌∷◌, take, min, arith, if◌then◌else◌, Option-cases,
}
use amby.Common.Text.{Text}
use amby.Tasks.Rows.{Task}
use amby.Tasks.Status.{is_terminal}
use amby.Harness.RuntimeData.{read_sandbox_runtime_data}
use amby.Harness.World.{ActiveTask, World, Moment, done, has_active, track}
use amby.Harness.Heartbeat.{Json, Sight, finalize_task}
use amby.Harness.Recovery.{
  Check, get_task, found_task, poll, poll_interval_ms, max_wait_seconds, check_task, check_found,
  live_check, is_checked, entry_of, session_of,
}

-- A task that is not tracked is not finalized.
finalize_untracked :
    (json : Json) (m : Moment) (o : Sight) (a : ActiveTask) (exit_code : ℕ) (w : World)
    → has_active a.task_id w.active ≡ false
    → finalize_task json m o a exit_code w ≡ done w
unfolding finalize_task
finalize_untracked json m o a exit_code w h = rw (finalize_task, h) refl

live_check-tasks :
    (json : Json) (m : Moment) (o : Sight) (command : Option (Option ℕ)) (refetches : Bool)
    (user_id : Text) (t : Task) (session : Text × Text) (w : World)
    → has_active t.id w.active ≡ false
    → (live_check json m o command refetches user_id t session w).0.tasks ≡ w.tasks
unfolding live_check track
live_check-tasks json m o none refetches user_id t session w h = refl
live_check-tasks json m o (some (some exit_code)) refetches user_id t (session_id, command_id) w h =
    let skipped =
      finalize_untracked json m o (entry_of t session_id command_id m.now) exit_code w h in
    rw (live_check, skipped) refl
live_check-tasks json m o (some none) refetches user_id t (session_id, command_id) w h = refl

-- What other handlers do while the sandbox is asked does not make a task tracked that was not.
abbrev pub TracksNoMore : (World → World) → World → Type 0
TracksNoMore meanwhile w =
    (id : Text) → (has_active id w.active ≡ false) → has_active id (meanwhile w).active ≡ false

-- The tables are those of before, or those that the other handlers leave.
abbrev pub Leaves : World → World → World × Option Task → Type 0
Leaves w w' x = (x.0.tasks ≡ w.tasks) ⊎ (x.0.tasks ≡ w'.tasks)

either_way :
    (w w' : World) (b : Bool) (x y : World × Option Task)
    → (b ≡ true → Leaves w w' x)
    → Leaves w w' y
    → Leaves w w' (if b then x else y)
either_way w w' true x y hx hy = hx refl
either_way w w' false x y hx hy = hy

check_task-tasks :
    (json : Json) (m : Moment) (o : Sight) (c : Check) (meanwhile : World → World) (user_id : Text)
    (t : Task) (w : World)
    → TracksNoMore meanwhile w
    → Leaves w (meanwhile w) (check_task json m o c meanwhile user_id t w)
unfolding check_task
check_task-tasks json m o c meanwhile user_id t w u =
    let stays = either_way w (meanwhile w) in
    elim (Option-cases (session_of (read_sandbox_runtime_data json.read t))) [
      | inl e ↦ rw (check_task, e) (inl refl)
      | inr (session, e) ↦
          rw (check_task, e)
            (stays (is_checked t w) _ _
              (λ h.
                stays c.ensures _ _
                  (λ k. inr (
                    live_check-tasks json m o c.command c.refetched user_id t session (meanwhile w)
                      (u t.id (ground (arith, h)))))
                  (inr refl))
              (inl refl))
    ]

check_found-tasks :
    (json : Json) (m : Moment) (o : Sight) (c : Check) (meanwhile : World → World) (user_id : Text)
    (found : Option Task) (w : World)
    → TracksNoMore meanwhile w
    → Leaves w (meanwhile w) (check_found json m o c meanwhile user_id found w)
unfolding check_found
check_found-tasks json m o c meanwhile user_id none w u = inl refl
check_found-tasks json m o c meanwhile user_id (some t) w u =
    check_task-tasks json m o c meanwhile user_id t w u

-- Looking a task up writes nothing in the tables itself, also where the live check finds that the
-- command of a running task has ended, if no other handler comes to track a task while the live
-- check asks the sandbox: the tables are those of before, or those that the other handlers left.
-- For the check is made only of tasks that are not tracked, and these are not finalized.
pub get_task-tasks :
    (json : Json) (m : Moment) (o : Sight) (c : Check) (meanwhile : World → World) (user_id : Text)
    (wait_seconds : Option ℕ) (last : Option Task) (looks : List (ℕ × Option Task)) (w : World)
    → TracksNoMore meanwhile w
    → Leaves w (meanwhile w) (get_task json m o c meanwhile user_id wait_seconds last looks w)
unfolding get_task
get_task-tasks json m o c meanwhile user_id wait_seconds last looks w u =
    check_found-tasks json m o c meanwhile user_id _ w u

-- Looks after the deadline make no difference.
poll-take :
    (n left : ℕ) (last : Option Task) (looks : List (ℕ × Option Task))
    → left ≤ n * poll_interval_ms
    → poll left last (take n looks) ≡ poll left last looks
unfolding poll
poll-take zero zero last looks h = refl
poll-take zero (suc left) last looks h = absurd (omega (arith, h))
poll-take (suc n) zero last looks h = refl
poll-take (suc n) (suc left) last [] h = refl
poll-take (suc n) (suc left) last ((delay, none) ∷ looks) h = refl
poll-take (suc n) (suc left) last ((delay, some t) ∷ looks) h =
    let rest = poll-take n (suc left - (poll_interval_ms + delay)) last looks (omega (arith, h)) in
    ap (λ r. if is_terminal t.status then some t else r) rest

-- However long the caller asks to wait, at most eight looks at the row count before the last
-- one: what is found does not depend on any later look.
pub found_task_bound :
    (wait_seconds : Option ℕ) (last : Option Task) (looks : List (ℕ × Option Task))
    → found_task wait_seconds last (take 8 looks) ≡ found_task wait_seconds last looks
unfolding found_task
found_task_bound none last looks = poll-take 8 0 last looks (omega arith)
found_task_bound (some seconds) last looks =
    poll-take 8 (min seconds max_wait_seconds * 1000) last looks (omega arith)
