-- ===== src/Accounts/Limits.antt =====
-- The usage summary and the limits that a client is shown, beside the limit that `create_task` tests.
use phodex.Base.{ℕ, suc, ◌+◌, ◌≡◌, refl, ◌&&◌, none, some, List, [], ◌∷◌, arith, ◌==◌, count_rows}
use phodex.Models.{TaskStatus, Task, status_eq, status_in}
use phodex.World.{World, UsageSummary, ok}
use phodex.Tasks.{unfinished, count_concurrent}
use phodex.Accounts.{
  LimitStatus, limit_status, count_tasks, fresh_usage, usage_summary, get_json, compute_usage,
  set_json, limits,
}

module _ (user_id : ℕ) where
  abbrev of_status : TaskStatus → List Task → ℕ
  of_status status = count_rows (λ t. t.user_id == user_id && status_eq t.status status)

  by_status :
      (ts : List Task)
      → count_rows (λ t. t.user_id == user_id) ts
        ≡ of_status TaskStatus.queued ts
          + (of_status TaskStatus.starting ts
              + (of_status TaskStatus.running ts
                  + (of_status TaskStatus.waiting_approval ts
                      + (of_status TaskStatus.completed ts
                          + (of_status TaskStatus.failed ts + of_status TaskStatus.cancelled ts)))))
  by_status [] = refl
  by_status (t ∷ ts) = ground (arith, by_status ts)

  unfinished_lem :
      (ts : List Task)
      → count_rows (λ t. t.user_id == user_id && status_in t.status unfinished) ts
        ≡ of_status TaskStatus.queued ts
          + (of_status TaskStatus.starting ts
              + (of_status TaskStatus.running ts + of_status TaskStatus.waiting_approval ts))
  unfinished_lem [] = refl
  unfinished_lem (t ∷ ts) = ground (arith, unfinished_lem ts)

  pub usage_summary_fresh :
      (w : World)
      → (get_json user_id w).0 ≡ ok none
      → (usage_summary user_id w).0 ≡ ok (fresh_usage user_id (w.env.now (suc w.calls)) w.db)
  unfolding usage_summary compute_usage set_json get_json
  usage_summary_fresh w h = ground arith

  usage_summary_keeps : (w : World) → (usage_summary user_id w).1.settings ≡ w.settings
  unfolding usage_summary compute_usage set_json get_json
  usage_summary_keeps w = ground arith

  -- A summary that the cache does not answer counts every task of the user once by its status, but for
  -- the starting ones, which are in the total alone.
  pub usage_summary_total :
      (w : World)
      → (get_json user_id w).0 ≡ ok none
      → (u : UsageSummary) × ((usage_summary user_id w).0 ≡ ok u)
        × (u.total_tasks
            ≡ u.queued_tasks
              + (count_tasks user_id (some TaskStatus.starting) w.db
                  + (u.running_tasks
                      + (u.waiting_approval_tasks
                          + (u.completed_tasks + (u.failed_tasks + u.cancelled_tasks))))))
  usage_summary_total w h = (
    fresh_usage user_id (w.env.now (suc w.calls)) w.db,
    usage_summary_fresh w h,
    by_status w.db.tasks,
  )

  -- The limits that are shown when the cache does not answer count one task less for each starting task
  -- than the test of `create_task` does.
  pub limits-count_concurrent :
      (w : World)
      → (get_json user_id w).0 ≡ ok none
      → (l : LimitStatus) × ((limits user_id w).0 ≡ ok l)
        × (l.current_concurrent_tasks + count_tasks user_id (some TaskStatus.starting) w.db
            ≡ count_concurrent user_id unfinished w.db)
  unfolding limits count_concurrent
  limits-count_concurrent w h =
      let u = fresh_usage user_id (w.env.now (suc w.calls)) w.db in
      let e = unfinished_lem w.db.tasks in
      (
        limit_status w.settings u,
        rw (usage_summary_fresh w h) (rw (usage_summary_keeps w) refl),
        omega arith,
      )
