-- ===== src/Accounts.antt =====
-- backend/app/services/account_service.py and backend/app/repositories/session_repo.py: the sessions of a
-- user, the usage summary with its cache in Redis, and the limits. A key that has expired is one that
-- Redis does not answer (`redis_accepts`).
pub mod Limits
pub mod Revocation
use phodex.Base.{
  ℕ, suc, ◌+◌, ◌-◌, ltb, Bool, true, false, ◌&&◌, not, Option, none, some, List, [], ◌∷◌, ◌==◌,
  if◌then◌else◌, is_none, get_row, set_row, where_rows, count_rows, update_rows, order_by,
}
use phodex.Models.{TaskStatus, Task, Session, ApprovalRequest, TaskEvent, status_eq, is_pending}
use phodex.World.{
  World, Db, Settings, Exec, UsageSummary, CachedUsage, not_found, ok, pure, raise, gets, or_raise,
  raise_if, query, commit, modify, when, utcnow, ◌>>=◌, ◌>>◌,
}

-- the test of the queries for active sessions
abbrev pub is_active : ℕ → ℕ → Session → Bool
is_active user_id now s = s.user_id == user_id && is_none s.revoked_at && ltb now s.expires_at

-- AccountService.active_sessions_count
unfoldable pub active_sessions_count : ℕ → Exec ℕ
active_sessions_count user_id = do
  now ← utcnow
  query (λ db. count_rows (is_active user_id now) db.sessions)

-- SessionRepository.list_active, newest first
unfoldable pub list_active : ℕ → Exec (List Session)
list_active user_id = do
  now ← utcnow
  query (λ db.
      mathlib.Core.List.reverse
        (order_by (λ s. s.created_at) (where_rows (is_active user_id now) db.sessions)))

-- AccountService._count_tasks
abbrev pub count_tasks : ℕ → Option TaskStatus → Db → ℕ
count_tasks user_id none db = count_rows (λ t. t.user_id == user_id) db.tasks
count_tasks user_id (some status) db =
    count_rows (λ t. t.user_id == user_id && status_eq t.status status) db.tasks

-- the join with the task: whether it belongs to the user
abbrev pub is_of_user : ℕ → ℕ → Db → Bool
is_of_user user_id task_id db = elim (get_row (λ t. t.id) task_id db.tasks) [
  | none ↦ false
  | some t ↦ t.user_id == user_id
]

-- the queries of AccountService.usage_summary
abbrev pub fresh_usage : ℕ → ℕ → Db → UsageSummary
fresh_usage user_id now db = record {
  total_tasks = count_tasks user_id none db;
  queued_tasks = count_tasks user_id (some TaskStatus.queued) db;
  running_tasks = count_tasks user_id (some TaskStatus.running) db;
  waiting_approval_tasks = count_tasks user_id (some TaskStatus.waiting_approval) db;
  completed_tasks = count_tasks user_id (some TaskStatus.completed) db;
  failed_tasks = count_tasks user_id (some TaskStatus.failed) db;
  cancelled_tasks = count_tasks user_id (some TaskStatus.cancelled) db;
  pending_approvals =
      count_rows (λ a. is_of_user user_id a.task_id db && is_pending a.status) db.approvals;
  total_events = count_rows (λ e. is_of_user user_id e.task_id db) db.events;
  active_sessions = count_rows (is_active user_id now) db.sessions;
}

-- RedisService.get_json for the key of the user: a miss is a key that is not there or has expired; an error
-- of Redis is not modelled
unfoldable pub get_json : ℕ → Exec (Option UsageSummary)
get_json user_id w = (
  ok (
      if w.env.redis_enabled && w.env.redis_accepts w.calls
      then elim (get_row (λ c. c.user_id) user_id w.cache) [ none ↦ none | some c ↦ some c.usage ]
      else none),
  record w { calls = suc w.calls },
)

-- RedisService.set_json for the key of the user, with a Redis that answers
unfoldable pub set_json : ℕ → UsageSummary → Exec (Unit {0})
set_json user_id usage w = (
  ok tt,
  if w.env.redis_enabled
      then record w {
        cache =
            record { user_id = user_id; usage = usage }
            ∷ where_rows (λ c. not (c.user_id == user_id)) w.cache;
      }
      else w,
)

unfoldable pub compute_usage : ℕ → Exec UsageSummary
unfolding set_json
compute_usage user_id = do
  now ← utcnow
  usage ← query (fresh_usage user_id now)
  set_json user_id usage
  pure usage

abbrev pub use_cached : ℕ → Option UsageSummary → Exec UsageSummary
use_cached user_id none = compute_usage user_id
use_cached user_id (some usage) = pure usage

-- AccountService.usage_summary
unfoldable pub usage_summary : ℕ → Exec UsageSummary
unfolding get_json compute_usage
usage_summary user_id = do cached ← get_json user_id; use_cached user_id cached

-- `LimitStatus`
pub record LimitStatus : Type 0 where
  pub max_active_sessions : Option ℕ
  pub active_sessions : ℕ
  pub remaining_active_sessions : Option ℕ
  pub max_concurrent_tasks : Option ℕ
  pub current_concurrent_tasks : ℕ
  pub remaining_concurrent_tasks : Option ℕ

-- `setting or None`
abbrev pub or_none : ℕ → Option ℕ
or_none ℕ.zero = none
or_none (suc n) = some (suc n)

-- `None if maximum is None else max(maximum - used, 0)`: subtraction stops at 0
abbrev pub remaining : Option ℕ → ℕ → Option ℕ
remaining none used = none
remaining (some maximum) used = some (maximum - used)

-- the `LimitStatus` that AccountService.limits makes of a summary
abbrev pub limit_status : Settings → UsageSummary → LimitStatus
limit_status settings usage =
    let max_sessions = or_none settings.max_active_sessions_per_user in
    let max_concurrent = or_none settings.max_concurrent_tasks_per_user in
    let current = usage.queued_tasks + usage.running_tasks + usage.waiting_approval_tasks in
    record {
      max_active_sessions = max_sessions;
      active_sessions = usage.active_sessions;
      remaining_active_sessions = remaining max_sessions usage.active_sessions;
      max_concurrent_tasks = max_concurrent;
      current_concurrent_tasks = current;
      remaining_concurrent_tasks = remaining max_concurrent current;
    }

-- AccountService.limits
unfoldable pub limits : ℕ → Exec LimitStatus
unfolding usage_summary
limits user_id = do
  usage ← usage_summary user_id
  settings ← gets (λ w. w.settings)
  pure (limit_status settings usage)

abbrev pub revoked : ℕ → Session → Session
revoked now s = record s { revoked_at = some now }

-- AccountService.revoke_session
unfoldable pub revoke_session : ℕ → ℕ → Exec (Unit {0})
revoke_session user_id session_id = do
  found ← query (λ db. get_row (λ s. s.id) session_id db.sessions)
  session ← or_raise (not_found "Session not found") found
  raise_if (not (session.user_id == user_id)) (not_found "Session not found")
  when (is_none session.revoked_at) (do
    now ← utcnow
    commit
        (λ db. record db { sessions = set_row (λ s. s.id) session_id (revoked now) db.sessions }))

-- the test of the query of SessionRepository.revoke_others
abbrev pub is_other : ℕ → ℕ → Session → Bool
is_other user_id keep_session_id s =
    s.user_id == user_id && not (s.id == keep_session_id) && is_none s.revoked_at

-- SessionRepository.revoke_others, and so AccountService.revoke_other_sessions
unfoldable pub revoke_others : ℕ → ℕ → Exec ℕ
revoke_others user_id keep_session_id = do
  count ← query (λ db. count_rows (is_other user_id keep_session_id) db.sessions)
  now ← utcnow
  commit (λ db. record db {
    sessions = update_rows (is_other user_id keep_session_id) (revoked now) db.sessions;
  })
  pure count
