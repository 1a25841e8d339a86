-- ===== src/Git/Confirmed.antt =====
-- What `confirm` leaves of an operation, whatever the git commands do.
use phodex.Base.{ℕ, String, ◌≡◌, refl, Option, some, ◌==◌, ◌⊎◌, inl, inr, if◌then◌else◌}
use phodex.Models.{GitOperation, GitOperationStatus}
use phodex.World.{World, Error, Result, ok, err, git_command_error}
use phodex.Git.{
  Git, changed, set_status, settle, completed_with, failed_with, running_with, completed_payload,
  failed_payload, confirm, chosen_message, close_operation,
}
use phodex.Git.Review.{find_operation, Keyed, IsOpen, load_pending_open, SameRows}
use phodex.Git.Frame.{IsQuiet, close_lem}
use phodex.Git.Outcome.{
  op1, v_rows, v_found, v-Keyed, closed_rows, closed-Keyed, commit_and_push_cases,
}

-- The operation in the world after `confirm`, and what was returned: it is completed with a branch, or
-- failed with an error, or it is left running because an exception was raised. No other operation has
-- changed.
pub record IsConfirmed (id : ℕ) (message : String) (w w' : World) (r : Result GitOperation)
    : Type 0 where
  pub op : GitOperation
  pub rows : (j : ℕ) → find_operation j w'.db ≡ (if id == j then some op else find_operation j w.db)
  pub keyed : Keyed w.db → Keyed w'.db
  pub message_lem : op.commit_message ≡ message
  pub verdict :
      ((op.status ≡ GitOperationStatus.completed)
        × ((b : String) × (op.pushed_branch ≡ some b))
        × (r ≡ ok op))
      ⊎ ((op.status ≡ GitOperationStatus.failed)
          × ((e : String) × (op.error_message ≡ some e))
          × (r ≡ ok op))
      ⊎ ((op.status ≡ GitOperationStatus.running) × ((e : Error) × (r ≡ err e)))

-- how `settle` goes on: the operation is closed, or the exception goes up
data Settled (task_id id : ℕ) (r : Result String) : Type 0 where
  finished :
      (b : String)
      → settle task_id id r
        ≡ close_operation task_id id (completed_with b) "git.completed" completed_payload
      → Settled task_id id r
  failed :
      (e : String)
      → settle task_id id r
        ≡ close_operation task_id id (failed_with e) "git.failed" (failed_payload e)
      → Settled task_id id r
  raised : (e : Error) → ((w : World) → settle task_id id r w ≡ (err e, w)) → Settled task_id id r

settle_cases : (task_id id : ℕ) (r : Result String) → Settled task_id id r
unfolding settle
settle_cases task_id id (ok b) = finished b refl
settle_cases task_id id (err (git_command_error e)) = failed e refl
settle_cases task_id id (err e) = raised e (λ w. refl)

module _ (task_id id : ℕ) (message : String) (op : GitOperation) (w v : World)
    (found : find_operation id w.db ≡ some op)
    (same : SameRows (set_status id (running_with message) w).1 v) where
  pub settle-IsConfirmed :
      (r : Result String)
      → IsConfirmed id message w (settle task_id id r v).1 (settle task_id id r v).0
  settle-IsConfirmed r = elim (settle_cases task_id id r) [
    | finished b e ↦ rw e (record {
      op = changed (completed_with b) (op1 task_id id message op w v found same);
      rows =
          closed_rows task_id id message op w v found same (completed_with b) "git.completed"
            completed_payload;
      keyed =
          closed-Keyed task_id id message op w v found same (completed_with b) "git.completed"
            completed_payload;
      message_lem = refl;
      verdict = inl (
        refl,
        (b, refl),
        (close_lem task_id id (completed_with b) "git.completed" completed_payload
            (op1 task_id id message op w v found same) v
            (v_found task_id id message op w v found same)).0,
      );
    })
    | failed e stop ↦ rw stop (record {
      op = changed (failed_with e) (op1 task_id id message op w v found same);
      rows =
          closed_rows task_id id message op w v found same (failed_with e) "git.failed"
            (failed_payload e);
      keyed =
          closed-Keyed task_id id message op w v found same (failed_with e) "git.failed"
            (failed_payload e);
      message_lem = refl;
      verdict = inr (
          inl (
            refl,
            (e, refl),
            (close_lem task_id id (failed_with e) "git.failed" (failed_payload e)
                (op1 task_id id message op w v found same) v
                (v_found task_id id message op w v found same)).0,
          ));
    })
    | raised e up ↦ rw (up v) (record {
      op = op1 task_id id message op w v found same;
      rows = v_rows task_id id message op w v found same;
      keyed = v-Keyed task_id id message op w v found same;
      message_lem = refl;
      verdict = inr (inr (refl, (e, refl)));
    })
  ]

module _ (g : Git) (quiet : IsQuiet g) (user_id task_id : ℕ) (w : World) (keyed : Keyed w.db)
    (op : GitOperation) (found : find_operation op.id w.db ≡ some op)
    (opened : IsOpen user_id task_id op w.db) where
  -- Confirming an operation that is the user's and waits for its review stores the message, and
  -- leaves the operation completed with the branch that was pushed, or failed with the error of a git
  -- command, and returns it so; if instead an exception goes up, the operation is left running. No
  -- other operation changes. The callbacks are assumed to leave operations and tasks alone.
  pub confirm-IsConfirmed :
      (text : Option String)
      → IsConfirmed op.id
          (chosen_message text op.commit_message)
          w
          (confirm g user_id task_id op.id text w).1
          (confirm g user_id task_id op.id text w).0
  unfolding confirm set_status
  confirm-IsConfirmed text =
      let m = chosen_message text op.commit_message in
      let w1 = (set_status op.id (running_with m) w).1 in
      let op1 = record op { commit_message = m } in
      rw (load_pending_open user_id task_id op.id w keyed op found opened)
        (elim (commit_and_push_cases g quiet user_id task_id op1 w1) [
          | inl (r, v, same, _, e) ↦ rw e (settle-IsConfirmed task_id op.id m op w v found same r)
          | inr (e, v, same, _, up) ↦ rw up (record {
            op = changed (running_with m) op;
            rows = v_rows task_id op.id m op w v found same;
            keyed = v-Keyed task_id op.id m op w v found same;
            message_lem = refl;
            verdict = inr (inr (refl, (e, refl)));
          })
        ])
