-- ===== src/Harness/Heartbeat/Silence.antt =====
-- The heartbeats of a task, one after another, while its sandbox does not answer.
use amby.Common.{
  ℕ, suc, ◌≡◌, refl, sym, ap, ◌∙◌, inl, inr, false, leb, Option, none, some, List, [], ◌∷◌, map,
  any, find?, if◌then◌else◌, or_else, Bool-cases,
}
use amby.Common.Text.{Text, text_eq}
use amby.Tasks.Status.{is_terminal, lost}
use amby.Tasks.Rows.{Task}
use amby.Tasks.Store.{is_event}
use amby.Tasks.Queries.{get_by_id}
use amby.Harness.World.{ActiveTask, World, Moment, state_of, has_active, is_entry}
use amby.Harness.Heartbeat.{Json, Sight, beat, failed_beat, count_failures, max_heartbeat_failures}
use amby.Harness.Heartbeat.Loss.{IsSilent, give_up_lem, map_status}

-- The heartbeat of the task with this id, if it is tracked.
unfoldable pub beat_tracked : Json → Moment → Sight → Text → World → World
beat_tracked json m o id w = elim (find? (is_entry id) w.active) [
  | none ↦ w
  | some a ↦ state_of (beat json m o a w)
]

count-find :
    (id : Text) (n : ℕ) (a : ActiveTask) (as_ : List ActiveTask)
    → find? (is_entry id) as_ ≡ some a
    → find? (is_entry id) (
        map
          (λ (b : ActiveTask). if is_entry id b then record b { consecutive_failures = n } else b)
          as_)
      ≡ some (record a { consecutive_failures = n })
count-find id n a [] h = absurd (cc h)
count-find id n a (b ∷ as_) h = elim (Bool-cases (text_eq b.task_id id)) [
  | inl e ↦
      let first : find? (is_entry id) (b ∷ as_) ≡ some b = rw e refl in
      let same : b ≡ a = ap (λ (o : Option ActiveTask). or_else o b) (sym first ∙ h) in
      rw (e, e) (ap (λ (x : ActiveTask). some (record x { consecutive_failures = n })) same)
  | inr e ↦
      let rest : find? (is_entry id) (b ∷ as_) ≡ find? (is_entry id) as_ = rw e refl in
      rw (e, e) (count-find id n a as_ (sym rest ∙ h))
]

tracked_lem :
    (json : Json) (m : Moment) (o : Sight) (id : Text) (a : ActiveTask) (w : World)
    → find? (is_entry id) w.active ≡ some a
    → o.refreshes ≡ false
    → beat_tracked json m o id w ≡ state_of (failed_beat json m o a (suc a.consecutive_failures) w)
unfolding beat_tracked beat
tracked_lem json m o id a w h silent = rw (beat_tracked, h, silent) refl

-- One of the first two failures is counted.
early_lem :
    (json : Json) (m : Moment) (o : Sight) (a : ActiveTask) (failures : ℕ) (w : World)
    → leb max_heartbeat_failures failures ≡ false
    → state_of (failed_beat json m o a failures w) ≡ count_failures a.task_id failures w
unfolding failed_beat
early_lem json m o a failures w h = rw h refl

-- A tracked task without failures whose sandbox does not answer at three heartbeats in a row is
-- afterwards no longer tracked, and its row says that it is lost. The database answers, the row
-- is there and not terminal, and the id of the event at the last heartbeat is new.
pub three_beats_lose :
    (json : Json) (m1 m2 m3 : Moment) (o1 o2 o3 : Sight) (a : ActiveTask) (w : World) (t : Task)
    → IsSilent o1
    → IsSilent o2
    → IsSilent o3
    → find? (is_entry a.task_id) w.active ≡ some a
    → a.consecutive_failures ≡ 0
    → get_by_id a.task_id w.tasks ≡ some t
    → is_terminal t.status ≡ false
    → any (is_event a.task_id m3.fresh) w.tasks.events ≡ false
    → (has_active a.task_id
          (beat_tracked json m3 o3 a.task_id
            (beat_tracked json m2 o2 a.task_id (beat_tracked json m1 o1 a.task_id w))).active
        ≡ false)
      × (map_status (
            get_by_id a.task_id
              (beat_tracked json m3 o3 a.task_id
                (beat_tracked json m2 o2 a.task_id (beat_tracked json m1 o1 a.task_id w))).tasks)
          ≡ some lost)
unfolding count_failures
three_beats_lose json m1 m2 m3 o1 o2 o3 a w t s1 s2 s3 tracked none_yet row open_ new =
    let id = a.task_id in
    let a1 : ActiveTask = record a { consecutive_failures = 1 } in
    let a2 : ActiveTask = record a { consecutive_failures = 2 } in
    let w1 = count_failures id 1 w in
    let w2 = count_failures id 2 w1 in
    let first : beat_tracked json m1 o1 id w ≡ w1 =
      tracked_lem json m1 o1 id a w tracked s1.refreshes
      ∙ ap (λ n. state_of (failed_beat json m1 o1 a (suc n) w)) none_yet
      ∙ early_lem json m1 o1 a 1 w refl in
    let tracked1 = count-find id 1 a w.active tracked in
    let second : beat_tracked json m2 o2 id w1 ≡ w2 =
      tracked_lem json m2 o2 id a1 w1 tracked1 s2.refreshes ∙ early_lem json m2 o2 a1 2 w1 refl in
    let tracked2 = count-find id 2 a1 w1.active tracked1 in
    let third = tracked_lem json m3 o3 id a2 w2 tracked2 s3.refreshes in
    let w3 = count_failures id 3 w2 in
    rw (first, second, third)
      (unfold failed_beat in give_up_lem json m3 o3 a2 w3 t s3.reads row open_ new)
