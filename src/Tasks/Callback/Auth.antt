-- ===== src/Tasks/Callback/Auth.antt =====
-- The checks before a callback writes (apps/api/src/handlers/task-events.ts).
use amby.Common.{
  ℕ, ◌≡◌, ◌⊎◌, refl, ap, ◌∙◌, inl, inr, true, false, Option, some, find?, arith, Bool-cases,
  Option-cases,
}
use amby.Common.Text.{Text, text_eq_iff}
use amby.Tasks.Status.{is_terminal}
use amby.Tasks.Rows.{Task, TaskDb}
use amby.Tasks.Callback.{
  Platform, Request, Body, Response, Admission, rejected, admitted, admit, check_task, has_callback,
  header, is_timestamp_valid, bearer, has_headers, handle_task_event_post, ExecutionData, accept,
}

-- What an admitted request has shown.
pub record IsAdmitted (p : Platform) (now : ℕ) (r : Request) (db : TaskDb) (task : Task)
    (body : Body) : Type 0 where
  pub found : find? (has_callback (header r.callback_id)) db.tasks ≡ some task
  pub open_ : is_terminal task.status ≡ false
  pub secret : task.callback_secret_hash ≡ some (p.hash_secret (bearer r))
  pub fresh : is_timestamp_valid now (p.parse_number (header r.timestamp)) ≡ true
  pub signed : p.verify_signature r.body (bearer r) (header r.timestamp) (header r.signature) ≡ true
  pub parsed : p.parse_body r.body ≡ some body
  pub same_task : body.task_id ≡ task.id

module _ (p : Platform) (now : ℕ) (r : Request) where
  check_task_lem :
      (timestamp signature bearer raw : Text) (t task : Task) (body : Body)
      → check_task p now timestamp signature bearer raw t ≡ admitted task body
      → (t ≡ task)
        × (is_terminal task.status ≡ false)
        × (task.callback_secret_hash ≡ some (p.hash_secret bearer))
        × (is_timestamp_valid now (p.parse_number timestamp) ≡ true)
        × (p.verify_signature raw bearer timestamp signature ≡ true)
        × (p.parse_body raw ≡ some body)
        × (body.task_id ≡ task.id)
  unfolding check_task
  check_task_lem timestamp signature bearer raw t task body h = grind (arith, text_eq_iff)

  pub admit_lem :
      (db : TaskDb) (task : Task) (body : Body)
      → admit p now r db ≡ admitted task body
      → IsAdmitted p now r db task body
  unfolding admit
  admit_lem db task body h = elim (Bool-cases (has_headers r)) [
    | inr e ↦ absurd (ground (arith, e, h))
    | inl e ↦ elim (Option-cases (find? (has_callback (header r.callback_id)) db.tasks)) [
      | inl missing ↦ absurd (ground (arith, e, h, missing))
      | inr (t, found) ↦
          let checked : check_task p now (header r.timestamp) (header r.signature) (bearer r) r.body
                t
              ≡ admitted task body =
            ground (arith, e, h, found) in
          let (same, open_, secret, fresh, signed, parsed, same_task) =
            check_task_lem (header r.timestamp) (header r.signature) (bearer r) r.body t task body
              checked in
          record {
            found = found ∙ ap (λ (u : Task). some u) same;
            open_ = open_;
            secret = secret;
            fresh = fresh;
            signed = signed;
            parsed = parsed;
            same_task = same_task;
          }
    ]
  ]

pub Admission-cases :
    (a : Admission)
    → ((response : Response) × (a ≡ rejected response))
      ⊎ ((task : Task) × (body : Body) × (a ≡ admitted task body))
Admission-cases (rejected response) = inl (response, refl)
Admission-cases (admitted task body) = inr (task, body, refl)

-- A request leaves the tables as they are, or it is admitted for a task and goes on to its event:
-- the task that carries the request's callback id has not ended, the hash of the bearer token is
-- the one that the task holds, the timestamp is within five minutes of now, the signature of the
-- body and the timestamp under the token is right, and the parsed body names the task.
pub handle_task_event_post-IsAdmitted :
    (p : Platform) (now : ℕ) (r : Request) (data_ : Option ExecutionData) (db : TaskDb)
    → ((handle_task_event_post p now r data_ db).0 ≡ db)
      ⊎ ((task : Task) × (body : Body) × (handle_task_event_post p now r data_ db
            ≡ accept task body data_ now db)
          × IsAdmitted p now r db task body)
unfolding handle_task_event_post
handle_task_event_post-IsAdmitted p now r data_ db = elim (Admission-cases (admit p now r db)) [
  | inl (response, e) ↦ inl (rw (handle_task_event_post, e) refl)
  | inr (task, body, e) ↦
      inr (task, body, rw (handle_task_event_post, e) refl, admit_lem p now r db task body e)
]
