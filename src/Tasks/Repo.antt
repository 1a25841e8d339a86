-- ===== src/Tasks/Repo.antt =====
-- backend/app/repositories/task_repo.py: the queries and the one write.
use phodex.Base.{
  ℕ, String, ◌&&◌, Option, none, some, List, ◌==◌, or_else, get_row, set_row, first_row, count_rows,
}
use phodex.Models.{TaskStatus, Task, status_in}
use phodex.World.{Db, Exec, pure, query, commit, utcnow, ◌>>=◌, ◌>>◌}

-- TaskRepository.count_concurrent
unfoldable pub count_concurrent : ℕ → List TaskStatus → Db → ℕ
count_concurrent user_id statuses db =
    count_rows (λ t. t.user_id == user_id && status_in t.status statuses) db.tasks

-- TaskRepository.get_by_id_and_user
unfoldable pub by_id_and_user : ℕ → ℕ → Db → Option Task
by_id_and_user task_id user_id db =
    first_row (λ t. t.id == task_id && t.user_id == user_id) db.tasks

unfoldable pub touch : ℕ → Task → Task
touch now t = record t { updated_at = now }

-- the keyword arguments of TaskRepository.update_status
pub record Changes : Type 0 where
  pub current_phase : Option String
  pub error_message : Option String
  pub final_summary : Option String
  pub started_at : Option ℕ
  pub finished_at : Option ℕ
  pub cancelled_at : Option ℕ

abbrev pub no_changes : Changes
no_changes = record {
  current_phase = none;
  error_message = none;
  final_summary = none;
  started_at = none;
  finished_at = none;
  cancelled_at = none;
}

-- the assignments of TaskRepository.update_status: `if x is not None: task.x = x`
abbrev pub with_changes : ℕ → TaskStatus → Changes → Task → Task
with_changes now status c t = record t {
  status = status;
  current_phase = or_else c.current_phase t.current_phase;
  error_message = or_else c.error_message t.error_message;
  final_summary = or_else c.final_summary t.final_summary;
  started_at = or_else c.started_at t.started_at;
  finished_at = or_else c.finished_at t.finished_at;
  cancelled_at = or_else c.cancelled_at t.cancelled_at;
  updated_at = now;
}

if_found : Option Task → Exec (Option Task) → Exec (Option Task)
if_found none body = pure none
if_found (some _) body = body

-- TaskRepository.update_status: the row is locked, written and read again
unfoldable pub update_status : ℕ → TaskStatus → Changes → Exec (Option Task)
unfolding if_found
update_status task_id status changes = do
  found ← query (λ db. get_row (λ t. t.id) task_id db.tasks)
  if_found found (do
    now ← utcnow
    commit (λ db. record db {
      tasks = set_row (λ t. t.id) task_id (with_changes now status changes) db.tasks;
    })
    query (λ db. get_row (λ t. t.id) task_id db.tasks))
