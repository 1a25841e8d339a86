-- ===== src/Managed/Outcome.antt =====
-- How an event of a session ends its task.
use phodex.Base.{ℕ, String, ◌≡◌, refl, Bool, true, false, none, some, [], if◌then◌else◌}
use phodex.Json.{Fields, get_field}
use phodex.Models.{Task, is_finished}
use phodex.World.{World, ok, pure}
use phodex.Tasks.{get_status}
use phodex.Tasks.Transitions.{find_task}
use phodex.Orchestrator.Jobs.{find_state}
use phodex.Runners.{summary_or}
use phodex.Runners.Report.{Failed, Completed, fail_task_lem, complete_task_lem}
use phodex.Managed.Client.{Managed, LiveSession, fail, complete}
use phodex.Managed.Events.{
  complete_idle, default_summary, finished, end_failed, on_terminated, on_idle, idle, go_on,
  handle_kind, is_budget, queued, error_text_of,
}

module _ (task_id : ℕ) (t : Task) (w : World) (found : find_task task_id w.db ≡ some t) where
  fail_lem :
      (phase text code : String) (retryable : Bool)
      → ((fail task_id phase text code retryable w).0 ≡ ok tt)
        × Failed task_id text w (fail task_id phase text code retryable w).1
  unfolding fail
  fail_lem phase text code retryable = fail_task_lem task_id t phase text none _ w found

  complete_lem :
      (summary : String)
      → ((complete task_id summary w).0 ≡ ok tt)
        × Completed task_id summary w (complete task_id summary w).1
  unfolding complete
  complete_lem summary = complete_task_lem task_id t summary _ w found

  module _ (m : Managed) (ref : ℕ) (live : LiveSession) (event : Fields) where
    abbrev text : String
    text = "Managed session ended before the task completed"

    end_failed_lem :
        (phase reason code : String) (retryable : Bool)
        → let (r, w') = end_failed m task_id ref phase reason code retryable w in
          (r ≡ ok finished) × Failed task_id reason w w'
    unfolding end_failed
    end_failed_lem phase reason code retryable =
        let (r, failed) = fail_lem phase reason code retryable in rw r (refl, failed)

    terminated_cases :
        (b : Bool)
        → let (r, w') =
            (if b
                then pure finished
                else end_failed m task_id ref "managed_session_terminated" text
                    "MANAGED_SESSION_TERMINATED" true)
              w in
          (r ≡ ok finished) × (b ≡ true → w' ≡ w) × (b ≡ false → Failed task_id text w w')
    terminated_cases true = (refl, λ h. refl, λ h. absurd (cc))
    terminated_cases false =
        let (r, failed) =
          end_failed_lem "managed_session_terminated" text "MANAGED_SESSION_TERMINATED" true in
        (r, λ h. absurd (cc), λ h. failed)

    idle_cases :
        (b : Bool)
        → let (r, w') =
            (if b
                then end_failed m task_id ref "managed_budget_reached"
                    "Managed session reached its budget" "MANAGED_BUDGET_REACHED" false
                else complete_idle m task_id ref)
              w in
          (r ≡ ok finished)
          × (b ≡ true → Failed task_id "Managed session reached its budget" w w')
          × (b ≡ false → Completed task_id (summary_or default_summary (find_state ref w)) w w')
    unfolding complete_idle
    idle_cases true =
        let (r, failed) =
          end_failed_lem "managed_budget_reached" "Managed session reached its budget"
            "MANAGED_BUDGET_REACHED" false in
        (r, λ h. failed, λ h. absurd (cc))
    idle_cases false =
        let (r, completed) = complete_lem (summary_or default_summary (find_state ref w)) in
        (rw r refl, λ h. absurd (cc), λ h. rw r completed)

    -- How an event ends a run, where no tool waits for an approval, no reply is in the queue and the
    -- run is not over. An error of the session fails the task with its text. A session that terminates
    -- leaves a task that has ended, and everything else, as it is, and fails any other. A session that
    -- is idle fails the task if its budget is used up, and completes it with the last message of the
    -- agent otherwise. In all these cases the run is over, and no other task changes.
    pub end_outcome :
        live.completed ≡ false
        → live.pending_tool ≡ none
        → queued (find_state ref w) ≡ []
        → (let (r, w') = handle_kind m task_id ref live event "session.error" w in
            (r ≡ ok finished) × Failed task_id (error_text_of m task_id ref event) w w')
          × (let (r, w') = handle_kind m task_id ref live event "session.status_terminated" w in
              (r ≡ ok finished)
              × (is_finished t.status ≡ true → w' ≡ w)
              × (is_finished t.status ≡ false → Failed task_id text w w'))
          × (let (r, w') = handle_kind m task_id ref live event "session.status_idle" w in
              (r ≡ ok finished)
              × (is_budget (get_field "stop_reason" event) ≡ true
                  → Failed task_id "Managed session reached its budget" w w')
              × (is_budget (get_field "stop_reason" event) ≡ false
                  → Completed task_id (summary_or default_summary (find_state ref w)) w w'))
    unfolding handle_kind on_terminated on_idle idle go_on get_status
    end_outcome going no_tool none_queued = (
      end_failed_lem "worker_error" (error_text_of m task_id ref event) "WORKER_ERROR" true,
      rw going (rw found (terminated_cases (is_finished t.status))),
      rw no_tool (rw none_queued (idle_cases (is_budget (get_field "stop_reason" event)))),
    )
