-- ===== src/Git/Review.antt =====
-- Who may confirm or discard a git operation, and what running git leaves alone.
use phodex.Base.{
  ℕ, ◌≡◌, refl, ap, ◌∙◌, true, false, ◌&&◌, Option, some, ◌==◌, inl, inr, Bool-cases, get_row,
  IsKeyed, keep_if, first_row-IsKeyed, ==_iff,
}
use phodex.Models.{TaskEvent, GitOperation, is_pending_review}
use phodex.World.{World, Db, Error, not_found, conflict, ok, err}
use phodex.Events.Adds.{Adds}
use phodex.Git.{get_pending, load_pending, is_owner}

abbrev pub find_operation : ℕ → Db → Option GitOperation
find_operation id db = get_row (λ op. op.id) id db.git_operations

abbrev pub Keyed : Db → Type 0
Keyed db = IsKeyed (λ (op : GitOperation). op.id) db.git_operations

-- the operation is the user's, of this task, and waits for the review
pub record IsOpen (user_id task_id : ℕ) (op : GitOperation) (db : Db) : Type 0 where
  pub of_task : op.task_id ≡ task_id
  pub owned : is_owner user_id (get_row (λ t. t.id) task_id db.tasks) ≡ true
  pub waiting : is_pending_review op.status ≡ true

module _ (user_id task_id id : ℕ) (w : World) (keyed : Keyed w.db) where
  get_pending_lem :
      get_pending id task_id user_id w.db
      ≡ keep_if
          (λ op.
            op.task_id == task_id && is_owner user_id (get_row (λ t. t.id) op.task_id w.db.tasks))
          (find_operation id w.db)
  unfolding get_pending
  get_pending_lem =
      first_row-IsKeyed (λ (op : GitOperation). op.id)
        (λ op.
          op.task_id == task_id && is_owner user_id (get_row (λ t. t.id) op.task_id w.db.tasks))
        id w.db.git_operations keyed

  pub load_pending_open :
      (op : GitOperation)
      → find_operation id w.db ≡ some op
      → IsOpen user_id task_id op w.db
      → load_pending user_id task_id id w ≡ (ok op, w)
  unfolding load_pending
  load_pending_open op found o =
      let same : (op.task_id == task_id) ≡ true = (==_iff op.task_id task_id).1 o.of_task in
      rw get_pending_lem (rw found (rw same (rw o.of_task (rw o.owned (rw o.waiting refl)))))

  pub load_pending_closed :
      (op : GitOperation)
      → find_operation id w.db ≡ some op
      → is_pending_review op.status ≡ false
      → (e : Error) × (load_pending user_id task_id id w ≡ (err e, w))
  unfolding load_pending
  load_pending_closed op found closed =
      let mine =
        op.task_id == task_id && is_owner user_id (get_row (λ t. t.id) op.task_id w.db.tasks) in
      elim (Bool-cases mine) [
        | inl yours ↦ (
          conflict "Git operation already resolved",
          rw get_pending_lem (rw found (rw yours (rw closed refl))),
        )
        | inr foreign ↦
            (not_found "Git operation not found", rw get_pending_lem (rw found (rw foreign refl)))
      ]

-- what running git leaves alone
pub record SameRows (w w' : World) : Type 0 where
  pub operations : w'.db.git_operations ≡ w.db.git_operations
  pub tasks : w'.db.tasks ≡ w.db.tasks

pub SameRows-refl : (w : World) → SameRows w w
SameRows-refl w = record { operations = refl; tasks = refl }

pub SameRows-trans : (u v w : World) → SameRows u v → SameRows v w → SameRows u w
SameRows-trans u v w p q = record {
  operations = q.operations ∙ p.operations;
  tasks = q.tasks ∙ p.tasks;
}

pub Adds-SameRows : (P : TaskEvent → Type 0) (w w' : World) → Adds P w w' → SameRows w w'
Adds-SameRows P w w' a = record {
  operations = ap (λ db. db.git_operations) a.stored;
  tasks = ap (λ db. db.tasks) a.stored;
}
