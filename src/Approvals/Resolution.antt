-- ===== src/Approvals/Resolution.antt =====
-- `_resolve`: who may resolve a request, when, and how often.
use phodex.Base.{
  ℕ, String, ◌≡◌, true, Option, some, arith, ◌==◌, ◌⊎◌, inl, inr, Option-cases, Bool-cases, get_row,
  IsKeyed, keep_if, first_row-IsKeyed,
}
use phodex.Models.{Task, ApprovalStatus, ApprovalRequest, is_pending, is_waiting}
use phodex.World.{World, Db, Error, not_found, conflict, err}
use phodex.Approvals.{get_with_task, task_of, owns, resolve, write_resolution}

abbrev pub find_approval : ℕ → Db → Option ApprovalRequest
find_approval approval_id db = get_row (λ a. a.id) approval_id db.approvals

abbrev pub Keyed : Db → Type 0
Keyed db = IsKeyed (λ (a : ApprovalRequest). a.id) db.approvals

-- the request may be resolved: it is pending, and its task belongs to the user and waits
pub record IsOpen (user_id : ℕ) (a : ApprovalRequest) (t : Task) (db : Db) : Type 0 where
  pub unresolved : is_pending a.status ≡ true
  pub of_request : task_of a db ≡ some t
  pub owned : t.user_id ≡ user_id
  pub waiting : is_waiting t.status ≡ true

module _ (user_id approval_id : ℕ) (status : ApprovalStatus) (note : Option String) (w : World)
    (keyed : Keyed w.db) where
  get_with_task_lem :
      get_with_task approval_id user_id w.db
      ≡ keep_if (λ a. owns user_id (task_of a w.db)) (find_approval approval_id w.db)
  unfolding get_with_task
  get_with_task_lem =
      first_row-IsKeyed (λ (a : ApprovalRequest). a.id) (λ a. owns user_id (task_of a w.db))
        approval_id w.db.approvals keyed

  pub resolve_found :
      (a : ApprovalRequest) (t : Task)
      → find_approval approval_id w.db ≡ some a
      → IsOpen user_id a t w.db
      → resolve user_id approval_id status note w ≡ write_resolution a status note w
  unfolding resolve
  resolve_found a t found o = ground (arith, get_with_task_lem)

  abbrev Outcome : Type 0
  Outcome =
      ((e : Error) × (resolve user_id approval_id status note w ≡ (err e, w)))
      ⊎ ((a : ApprovalRequest) × (t : Task) × (find_approval approval_id w.db ≡ some a)
          × IsOpen user_id a t w.db
          × (resolve user_id approval_id status note w ≡ write_resolution a status note w))

  outcome_known :
      (a : ApprovalRequest) (t : Task)
      → find_approval approval_id w.db ≡ some a
      → task_of a w.db ≡ some t
      → Outcome
  unfolding resolve
  outcome_known a t found has = elim (Bool-cases (t.user_id == user_id)) [
    | inr foreign ↦ inl (not_found "Approval request not found", ground (arith, get_with_task_lem))
    | inl own ↦ elim (Bool-cases (is_pending a.status)) [
      | inr settled ↦
          inl (conflict "Approval request already resolved", ground (arith, get_with_task_lem))
      | inl unresolved ↦ elim (Bool-cases (is_waiting t.status)) [
        | inr busy ↦
            inl (conflict "Task is not waiting for approval", ground (arith, get_with_task_lem))
        | inl waiting ↦
            let o : IsOpen user_id a t w.db = record {
              unresolved = unresolved;
              of_request = has;
              owned = ground arith;
              waiting = waiting;
            } in
            inr (a, t, found, o, resolve_found a t found o)
      ]
    ]
  ]

  -- A request is resolved when it is pending and its task belongs to the user and waits for an
  -- approval; in every other case the call raises and changes nothing.
  pub resolve_outcome :
      ((e : Error) × (resolve user_id approval_id status note w ≡ (err e, w)))
      ⊎ ((a : ApprovalRequest) × (t : Task) × (find_approval approval_id w.db ≡ some a)
          × IsOpen user_id a t w.db
          × (resolve user_id approval_id status note w ≡ write_resolution a status note w))
  unfolding resolve
  resolve_outcome = elim (Option-cases (find_approval approval_id w.db)) [
    | inl missing ↦ inl (not_found "Approval request not found", ground (arith, get_with_task_lem))
    | inr (a, found) ↦ elim (Option-cases (task_of a w.db)) [
      | inl orphan ↦ inl (not_found "Approval request not found", ground (arith, get_with_task_lem))
      | inr (t, has) ↦ outcome_known a t found has
    ]
  ]
