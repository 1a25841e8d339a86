-- ===== src/Runners/Report.antt =====
-- What a run reports when its process has ended.
use phodex.Base.{
  ℕ, suc, String, ◌&&◌, [], ◌∷◌, concat, ◌≡◌, refl, ◌∙◌, Bool, true, false, not, Option, none, some,
  arith, ◌==◌, if◌then◌else◌, Bool-cases, inl, inr, get_row-set_row,
}
use phodex.Json.{ℤ, Fields, is_zero}
use phodex.Models.{TaskStatus, Task, is_cancelled}
use phodex.World.{World, Result, ok}
use phodex.Events.{append_event}
use phodex.Events.Sequence.{append_event_returns, append_event_stores}
use phodex.Tasks.{transition_for_worker, get_status, with_changes, worker_changes}
use phodex.Tasks.Transitions.{find_task, moved, transition_stores}
use phodex.Orchestrator.Jobs.{find_state}
use phodex.Runners.{Machine, fail_task, complete_task, summary_or, reported_error}
use phodex.Runners.Codex
use phodex.Runners.Claude

-- no other task has changed
abbrev pub Stored : ℕ → Task → World → World → Type 0
Stored task_id t' w w' =
    (j : ℕ) → find_task j w'.db ≡ (if task_id == j then some t' else find_task j w.db)

-- the task is failed with this error
abbrev pub Failed : ℕ → String → World → World → Type 0
Failed task_id error w w' =
    (t' : Task) × (t'.status ≡ TaskStatus.failed)
    × (t'.error_message ≡ some error)
    × Stored task_id t' w w'

-- the task is completed with this summary
abbrev pub Completed : ℕ → String → World → World → Type 0
Completed task_id summary w w' =
    (t' : Task) × (t'.status ≡ TaskStatus.completed)
    × (t'.final_summary ≡ some summary)
    × Stored task_id t' w w'

module _ (task_id : ℕ) (t : Task) where
  moved_rows :
      (status : TaskStatus) (phase error summary : Option String) (w : World)
      → find_task task_id w.db ≡ some t
      → Stored task_id
          (moved task_id status phase error summary w t)
          w
          (transition_for_worker task_id status phase error summary w).1
  moved_rows status phase error summary w found j =
      rw ((transition_stores task_id status phase error summary w t found).1) (
        ground (
          arith,
          get_row-set_row (λ (x : Task). x.id) j task_id
              (with_changes (w.env.now (suc w.calls)) status
                (worker_changes (w.env.now w.calls) status t phase error summary))
              w.db.tasks (λ x. refl),
        ))

  pub fail_task_lem :
      (phase error : String) (summary : Option String) (payload : Fields) (w : World)
      → find_task task_id w.db ≡ some t
      → let (r, w') = fail_task task_id phase error summary payload w in
        (r ≡ ok tt) × Failed task_id error w w'
  unfolding fail_task
  fail_task_lem phase error summary payload w found =
      let s = TaskStatus.failed in
      rw ((transition_stores task_id s (some phase) (some error) summary w t found).0) (
        rw append_event_returns (
          refl,
          (
            moved task_id s (some phase) (some error) summary w t,
            refl,
            refl,
            λ j. rw append_event_stores (moved_rows s (some phase) (some error) summary w found j),
          ),
        ))

  pub complete_task_lem :
      (summary : String) (payload : Fields) (w : World)
      → find_task task_id w.db ≡ some t
      → let (r, w') = complete_task task_id summary payload w in
        (r ≡ ok tt) × Completed task_id summary w w'
  unfolding complete_task
  complete_task_lem summary payload w found =
      let s = TaskStatus.completed in
      let w1 = (append_event task_id "task.completed" payload w).1 in
      let found1 : find_task task_id w1.db ≡ some t = rw append_event_stores found in
      rw append_event_returns (
        rw ((transition_stores task_id s (some "done") none (some summary) w1 t found1).0) (
          refl,
          (
            moved task_id s (some "done") none (some summary) w1 t,
            refl,
            refl,
            λ j.
                moved_rows s (some "done") none (some summary) w1 found1 j
                ∙ rw append_event_stores refl,
          ),
        ))

-- A report that returns: the task is completed with the summary if the run succeeded, and otherwise
-- failed with the error.
abbrev pub Decides :
    ℕ → (succeeded : Bool) → (summary error : String) → World → Result (Unit {0}) × World → Type 0
Decides task_id succeeded summary error w (r, w') =
    (r ≡ ok tt)
    × (succeeded ≡ true → Completed task_id summary w w')
    × (succeeded ≡ false → Failed task_id error w w')

module _ (task_id : ℕ) (t : Task) (w : World) (found : find_task task_id w.db ≡ some t) where
  failing :
      (kept : String) (phase error : String) (summary : Option String) (payload : Fields)
      → Decides task_id false kept error w (fail_task task_id phase error summary payload w)
  failing kept phase error summary payload =
      let (done, is) = fail_task_lem task_id t phase error summary payload w found in
      (done, λ e. absurd (cc), λ e. is)

  completing :
      (error summary : String) (payload : Fields)
      → Decides task_id true summary error w (complete_task task_id summary payload w)
  completing error summary payload =
      let (done, is) = complete_task_lem task_id t summary payload w found in
      (done, λ e. is, λ e. absurd (cc))

module _ (m : Machine) (task_id ref : ℕ) (exit_code : ℤ) (timed_out : Bool) (t : Task) (w : World)
    (found : find_task task_id w.db ≡ some t) where
  get_status_lem : get_status task_id w ≡ (ok t.status, w)
  unfolding get_status
  get_status_lem = rw found refl

  module _ (c : Codex.Settings) where
    abbrev pub codex_summary : String
    codex_summary = summary_or "Codex worker completed successfully." (find_state ref w)

    -- the process exited in time, with code 0, and the summary does not say that it was blocked
    abbrev pub codex_succeeded : Bool
    codex_succeeded =
        not timed_out && (is_zero exit_code && not (Codex.is_blocked_outcome m.upper codex_summary))

    abbrev pub codex_error : String
    codex_error =
        if timed_out
        then "Codex runtime timed out"
        else if is_zero exit_code
        then codex_summary
        else concat ("Codex runtime exited with code " ∷ m.int_str exit_code ∷ [])

    codex_exit :
        Decides task_id codex_succeeded codex_summary codex_error w
          (Codex.report_exit m c task_id exit_code timed_out (find_state ref w) w)
    unfolding Codex.report_exit
    codex_exit =
        let S = codex_summary in
        elim (Bool-cases timed_out) [
          | inl late ↦ rw late (failing task_id t w found S _ _ none _)
          | inr in_time ↦ elim (Bool-cases (is_zero exit_code)) [
            | inr bad ↦ rw in_time (rw bad (failing task_id t w found S _ _ none _))
            | inl zero_code ↦ elim (Bool-cases (Codex.is_blocked_outcome m.upper codex_summary)) [
              | inl blocked ↦
                  rw in_time
                    (rw zero_code (rw blocked (failing task_id t w found S _ _ (some S) _)))
              | inr free ↦ rw in_time (rw zero_code (rw free (completing task_id t w found _ S _)))
            ]
          ]
        ]

    -- When the process of a Codex run has ended, the report leaves a task that was cancelled meanwhile,
    -- and everything else, as it is. Any other task it leaves completed with the summary if the
    -- process exited in time, with code 0, and the summary does not say that it was blocked, and failed with the error
    -- otherwise; no other task changes, and the report returns.
    pub codex_report_outcome :
        (is_cancelled t.status ≡ true
          → Codex.report m c task_id ref exit_code timed_out w ≡ (ok tt, w))
        × (is_cancelled t.status ≡ false
            → Decides task_id codex_succeeded codex_summary codex_error w
                (Codex.report m c task_id ref exit_code timed_out w))
    unfolding Codex.report
    codex_report_outcome =
        (λ gone. rw get_status_lem (rw gone refl), λ there. rw get_status_lem (rw there codex_exit))

  module _ (c : Claude.Settings) where
    abbrev pub claude_summary : String
    claude_summary = summary_or "Claude worker completed successfully." (find_state ref w)

    -- the process exited in time, with code 0, and the runtime reported no error
    abbrev pub claude_succeeded : Bool
    claude_succeeded =
        not timed_out && (is_zero exit_code && not (reported_error (find_state ref w)))

    abbrev pub claude_error : String
    claude_error =
        if timed_out
        then "Claude runtime timed out"
        else if is_zero exit_code
        then claude_summary
        else concat ("Claude runtime exited with code " ∷ m.int_str exit_code ∷ [])

    claude_exit :
        Decides task_id claude_succeeded claude_summary claude_error w
          (Claude.report_exit m c task_id exit_code timed_out (find_state ref w) w)
    unfolding Claude.report_exit
    claude_exit =
        let S = claude_summary in
        elim (Bool-cases timed_out) [
          | inl late ↦ rw late (failing task_id t w found S _ _ none _)
          | inr in_time ↦ elim (Bool-cases (is_zero exit_code)) [
            | inr bad ↦ rw in_time (rw bad (failing task_id t w found S _ _ none _))
            | inl zero_code ↦ elim (Bool-cases (reported_error (find_state ref w))) [
              | inl blocked ↦
                  rw in_time
                    (rw zero_code (rw blocked (failing task_id t w found S _ _ (some S) _)))
              | inr free ↦ rw in_time (rw zero_code (rw free (completing task_id t w found _ S _)))
            ]
          ]
        ]

    -- When the process of a Claude run has ended, the report leaves a task that was cancelled meanwhile,
    -- and everything else, as it is. Any other task it leaves completed with the summary if the
    -- process exited in time, with code 0, and the runtime reported no error, and failed with the error
    -- otherwise; no other task changes, and the report returns.
    claude_report_outcome :
        (is_cancelled t.status ≡ true
          → Claude.report m c task_id ref exit_code timed_out w ≡ (ok tt, w))
        × (is_cancelled t.status ≡ false
            → Decides task_id claude_succeeded claude_summary claude_error w
                (Claude.report m c task_id ref exit_code timed_out w))
    unfolding Claude.report
    claude_report_outcome = (
      λ gone. rw get_status_lem (rw gone refl),
      λ there. rw get_status_lem (rw there claude_exit),
    )
