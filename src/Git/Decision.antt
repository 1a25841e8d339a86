-- ===== src/Git/Decision.antt =====
-- Discarding an operation, and that an operation is decided once.
use phodex.Base.{
  ℕ, String, ◌≡◌, refl, ◌∙◌, Bool, false, Option, some, ◌==◌, ◌⊎◌, inl, inr, Option-cases,
  if◌then◌else◌, ==_self,
}
use phodex.Json.{Fields}
use phodex.Models.{GitOperation, GitOperationStatus, is_pending_review}
use phodex.World.{World, Error, Result, Exec, ok, err, cancelled_error, ◌>>◌}
use phodex.Events.{append_event}
use phodex.Events.Sequence.{append_event_returns, append_event_stores}
use phodex.Git.{
  Git, Changes, changed, set_status, to_status, confirm, discard, reset_workspace, report_reset,
  discarded_payload, reload, get_by_id,
}
use phodex.Git.Review.{
  find_operation, Keyed, IsOpen, load_pending_open, load_pending_closed, SameRows, SameRows-refl,
  SameRows-trans,
}
use phodex.Git.Frame.{IsQuiet}
use phodex.Git.Outcome.{rows_changed, changed-Keyed}
use phodex.Git.Confirmed.{confirm-IsConfirmed}

-- what a discarded operation is left as: rejected, with no other operation changed
pub record IsDiscarded (id : ℕ) (w w' : World) (r : Result GitOperation) : Type 0 where
  pub op : GitOperation
  pub rows : (j : ℕ) → find_operation j w'.db ≡ (if id == j then some op else find_operation j w.db)
  pub keyed : Keyed w.db → Keyed w'.db
  pub rejected : op.status ≡ GitOperationStatus.rejected
  pub verdict : (r ≡ ok op) ⊎ (r ≡ err cancelled_error)

event-SameRows :
    (task_id : ℕ) (kind : String) (payload : Fields) (w : World)
    → SameRows w (append_event task_id kind payload w).1
event-SameRows task_id kind payload w = record {
  operations = rw append_event_stores refl;
  tasks = rw append_event_stores refl;
}

module _ (task_id : ℕ) where
  announce_lem :
      (id : ℕ) (op : GitOperation) (reset : Bool) (v : World)
      → find_operation id v.db ≡ some op
      → let (r, w') =
          (append_event task_id "git.discarded" (discarded_payload reset) >> reload id) v in
        (r ≡ ok op) × SameRows v w'
  unfolding reload get_by_id
  announce_lem id op reset v found = rw append_event_returns (
      rw append_event_stores
        (rw found (refl, event-SameRows task_id "git.discarded" (discarded_payload reset) v)))

-- the reset of the workspace answers, or the request is cancelled meanwhile
abbrev Answers : (task_id : ℕ) → World → Result Bool × World → Type 0
Answers task_id w (r, v) = (((b : Bool) × (r ≡ ok b)) ⊎ (r ≡ err cancelled_error)) × SameRows w v

report_reset_lem :
    (task_id : ℕ) (r : Result Bool) (w : World) → Answers task_id w (report_reset task_id r w)
unfolding report_reset
report_reset_lem task_id (ok b) w = (inl (b, refl), SameRows-refl w)
report_reset_lem task_id (err cancelled_error) w = (inr refl, SameRows-refl w)
report_reset_lem task_id (err e) w =
    rw append_event_returns (inl (false, refl), event-SameRows task_id _ _ w)

module _ (g : Git) (quiet : IsQuiet g) (user_id task_id : ℕ) where
  reset_workspace_lem :
      (path : String) (w : World)
      → Answers task_id w (reset_workspace g.discard_hook user_id task_id path w)
  unfolding reset_workspace
  reset_workspace_lem path w = elim (Option-cases g.discard_hook) [
    | inl unset ↦ rw unset (inl (false, refl), SameRows-refl w)
    | inr (f, set) ↦
        let (answer, after) = report_reset_lem task_id (f user_id path w).0 (f user_id path w).1 in
        rw set
          (answer, SameRows-trans w (f user_id path w).1 _ (quiet.hook f set user_id path w) after)
  ]

-- what a user decides on an operation
pub data Decision : Type 0 where
  confirmed : Option String → Decision
  discarded : Decision

abbrev pub decide : Git → Decision → ℕ → ℕ → ℕ → Exec GitOperation
decide g (confirmed text) user_id task_id id = confirm g user_id task_id id text
decide g discarded user_id task_id id = discard g user_id task_id id

decide_closed :
    (g : Git) (d : Decision) (user_id task_id id : ℕ) (w : World)
    → Keyed w.db
    → (op : GitOperation) → find_operation id w.db ≡ some op
    → is_pending_review op.status ≡ false
    → (e : Error) × (decide g d user_id task_id id w ≡ (err e, w))
unfolding confirm discard
decide_closed g (confirmed text) user_id task_id id w keyed op found closed =
    let (e, refused) = load_pending_closed user_id task_id id w keyed op found closed in
    (e, rw refused refl)
decide_closed g discarded user_id task_id id w keyed op found closed =
    let (e, refused) = load_pending_closed user_id task_id id w keyed op found closed in
    (e, rw refused refl)

module _ (g : Git) (quiet : IsQuiet g) (user_id task_id : ℕ) (w : World) (keyed : Keyed w.db)
    (op : GitOperation) (found : find_operation op.id w.db ≡ some op)
    (opened : IsOpen user_id task_id op w.db) where
  abbrev rejecting : Changes
  rejecting = to_status GitOperationStatus.rejected

  v_found :
      (v : World)
      → SameRows (set_status op.id rejecting w).1 v
      → find_operation op.id v.db ≡ some (changed rejecting op)
  unfolding set_status
  v_found v same =
      rows_changed op.id op w found rejecting v same.operations op.id ∙ rw (==_self op.id) refl

  left_rejected :
      (v : World) (r : Result GitOperation)
      → SameRows (set_status op.id rejecting w).1 v
      → (r ≡ ok (changed rejecting op)) ⊎ (r ≡ err cancelled_error)
      → IsDiscarded op.id w v r
  unfolding set_status
  left_rejected v r same verdict = record {
    op = changed rejecting op;
    rows = rows_changed op.id op w found rejecting v same.operations;
    keyed = changed-Keyed op.id op w found rejecting v same.operations;
    rejected = refl;
    verdict = verdict;
  }

  -- Discarding an operation that is the user's and waits for its review leaves it rejected, also when
  -- the reset of the workspace fails, and returns it so unless the request was cancelled during the
  -- reset. No other operation changes. The callbacks are assumed to leave operations and tasks alone.
  pub discard-IsDiscarded :
      IsDiscarded op.id w
        (discard g user_id task_id op.id w).1
        (discard g user_id task_id op.id w).0
  unfolding discard set_status
  discard-IsDiscarded =
      let w1 = (set_status op.id rejecting w).1 in
      let (answer, same) = reset_workspace_lem g quiet user_id task_id op.repo_path w1 in
      let v = (reset_workspace g.discard_hook user_id task_id op.repo_path w1).1 in
      rw (load_pending_open user_id task_id op.id w keyed op found opened) (elim answer [
        | inl (b, answered) ↦
            let (done, after) =
              announce_lem task_id op.id (changed rejecting op) b v (v_found v same) in
            rw answered (left_rejected _ _ (SameRows-trans w1 v _ same after) (inl done))
        | inr cancelled ↦ rw cancelled (left_rejected v _ same (inr refl))
      ])

  -- An operation is decided at most once: after a confirm or a discard of an operation that waited
  -- for its review, however that ended, every further confirm or discard of it, by whomever, raises
  -- and changes nothing. The callbacks are assumed to leave operations and tasks alone.
  pub decide_once :
      (first again : Decision) (u t : ℕ)
      → let w' = (decide g first user_id task_id op.id w).1 in
        (e : Error) × (decide g again u t op.id w' ≡ (err e, w'))
  decide_once (confirmed text) again u t =
      let c = confirm-IsConfirmed g quiet user_id task_id w keyed op found opened text in
      decide_closed g again u t op.id _ (c.keyed keyed) c.op
        (c.rows op.id ∙ rw (==_self op.id) refl)
        (elim c.verdict [
          | inl (s, _, _) ↦ rw s refl
          | inr rest ↦ elim rest [ inl (s, _, _) ↦ rw s refl | inr (s, _) ↦ rw s refl ]
        ])
  decide_once discarded again u t =
      let d = discard-IsDiscarded in
      decide_closed g again u t op.id _ (d.keyed keyed) d.op
        (d.rows op.id ∙ rw (==_self op.id) refl) (rw (d.rejected) refl)
