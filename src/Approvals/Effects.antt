-- ===== src/Approvals/Effects.antt =====
-- What a resolution stores, and that it happens once.
use phodex.Base.{
  ℕ, suc, String, ◌≡◌, refl, true, false, Option, some, arith, ◌==◌, if◌then◌else◌, inl, inr,
  set_row, get_row-set_row, key-get_row, All, All-set_row, Bool-cases,
}
use phodex.Models.{TaskStatus, Task, ApprovalStatus, ApprovalRequest}
use phodex.World.{World, Error, Result, ok, err}
use phodex.Approvals.{resolve, write_resolution, resolved, failed_by_rejection, is_rejected}
use phodex.Approvals.Resolution.{find_approval, Keyed, IsOpen, resolve_found, resolve_outcome}
use phodex.Events.Sequence.{SameRuntime}
use phodex.Tasks.Transitions.{find_task}
use phodex.Tasks.Lifecycle.{IsTimed, AllTimed}

module _ (a : ApprovalRequest) (status : ApprovalStatus) (note : Option String) (w : World) where
  abbrev written : Result ApprovalRequest × World
  written = write_resolution a status note w

  abbrev pub settled : ApprovalRequest → ApprovalRequest
  settled = resolved status (w.env.now w.calls) note

  abbrev pub failed_task : Task → Task
  failed_task = failed_by_rejection (w.env.now (suc w.calls)) (w.env.now (suc (suc w.calls)))

  pub write_returns : written.0 ≡ ok (settled a)
  unfolding write_resolution
  write_returns = ground arith

  pub write_approvals : written.1.db.approvals ≡ set_row (λ x. x.id) a.id settled w.db.approvals
  unfolding write_resolution
  write_approvals = ground arith

  pub write_tasks : written.1.db.tasks ≡ (
      if is_rejected status
      then set_row (λ x. x.id) a.task_id failed_task w.db.tasks
      else w.db.tasks)
  unfolding write_resolution
  write_tasks = ground arith

  pub failed-IsTimed :
      AllTimed w.db
      → All IsTimed (
          if is_rejected status
          then set_row (λ x. x.id) a.task_id failed_task w.db.tasks
          else w.db.tasks)
  failed-IsTimed timed = elim (Bool-cases (is_rejected status)) [
    | inl yes_rejected ↦ rw yes_rejected (
        All-set_row (λ (x : Task). x.id) IsTimed a.task_id failed_task w.db.tasks timed
          (λ x e before. ground arith))
    | inr kept ↦ rw kept timed
  ]

  pub write_resolution-SameRuntime : SameRuntime w written.1
  unfolding write_resolution
  write_resolution-SameRuntime = ground arith

module _ (user_id approval_id : ℕ) (status : ApprovalStatus) (note : Option String) (w : World)
    (keyed : Keyed w.db) where
  -- The owner's resolution of an open request returns it with the new status and its time, and
  -- changes no other request. A rejection fails the task, which ends now with its reason, and no
  -- other task; an approval leaves every task as it is, waiting for its worker.
  pub resolve_effect :
      (a : ApprovalRequest) (t : Task)
      → find_approval approval_id w.db ≡ some a
      → IsOpen user_id a t w.db
      → let (r, w') = resolve user_id approval_id status note w in
        (a' : ApprovalRequest) × (r ≡ ok a')
        × (a'.status ≡ status)
        × (a'.resolved_at ≡ some (w.env.now w.calls))
        × ((j : ℕ)
            → find_approval j w'.db ≡ (if approval_id == j then some a' else find_approval j w.db))
        × (is_rejected status ≡ false → w'.db.tasks ≡ w.db.tasks)
        × (is_rejected status ≡ true
            → (t' : Task) × (t'.status ≡ TaskStatus.failed)
              × (t'.error_message ≡ some "Approval rejected")
              × (t'.finished_at ≡ some (w.env.now (suc w.calls)))
              × ((j : ℕ) → find_task j w'.db ≡ (if t.id == j then some t' else find_task j w.db)))
  resolve_effect a t found o =
      let e = resolve_found user_id approval_id status note w keyed a t found o in
      let named = key-get_row (λ (x : ApprovalRequest). x.id) approval_id w.db.approvals a found in
      let of_task = key-get_row (λ (x : Task). x.id) a.task_id w.db.tasks t o.of_request in
      (
        settled a status note w a,
        rw e (write_returns a status note w),
        refl,
        refl,
        λ j. rw e (
            rw (write_approvals a status note w) (
              ground (
                arith,
                get_row-set_row (λ (x : ApprovalRequest). x.id) j a.id (settled a status note w)
                    w.db.approvals (λ x. refl),
              ))),
        λ kept. rw e (rw (write_tasks a status note w) (rw kept)),
        λ rejected. (
          failed_task a status note w t,
          refl,
          refl,
          refl,
          λ j. rw e (
              rw (write_tasks a status note w) (
                rw rejected (
                  ground (
                    arith,
                    o.of_request,
                    get_row-set_row (λ (x : Task). x.id) j a.task_id (failed_task a status note w)
                        w.db.tasks (λ x. refl),
                  )))),
        ),
      )

  -- A request is resolved exactly when it is open to the user: there is one with this id, it is
  -- pending, and its task is the user's and waits for an approval. Then the call writes the verdict and
  -- returns the request with it; in every other case it raises and changes nothing.
  pub resolve_exactly :
      ((a : ApprovalRequest) (t : Task)
        → find_approval approval_id w.db ≡ some a
        → IsOpen user_id a t w.db
        → (resolve user_id approval_id status note w ≡ write_resolution a status note w)
          × ((resolve user_id approval_id status note w).0 ≡ ok (settled a status note w a)))
      × (((a : ApprovalRequest) (t : Task)
            → find_approval approval_id w.db ≡ some a
            → ¬ IsOpen user_id a t w.db)
          → (e : Error) × (resolve user_id approval_id status note w ≡ (err e, w)))
  resolve_exactly = (
    λ a t found o.
        let e = resolve_found user_id approval_id status note w keyed a t found o in
        (e, rw e (write_returns a status note w)),
    λ shut. elim (resolve_outcome user_id approval_id status note w keyed) [
      | inl refused ↦ refused
      | inr (a, t, found, o, _) ↦ absurd (shut a t found o)
    ],
  )
