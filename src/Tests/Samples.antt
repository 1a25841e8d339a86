-- ===== src/Tests/Samples.antt =====
-- A small world: two users, a task that waits for an approval, one that runs, and the engine that
-- runs them.
use phodex.Base.{◌+◌, refl, true, false, Option, none, some, [], ◌∷◌, arith}
use phodex.Json.{str, end, field}
use phodex.Models.{
  User, Session, Device, SyncedRepository, ProjectContext, Task, TaskEvent, ApprovalRequest,
  TaskStatus, ApprovalStatus, SourceType,
}
use phodex.World.{World, RuntimeState, Job, pure, raise, runtime_error}
use phodex.Orchestrator.{Orchestrator, engine}
use phodex.System.Numbering.{Orderly}
use phodex.Worker.{dispatcher}
use phodex.Orchestrator.Contract.{reply-IsSequenced, IsQuiet, engine-IsLawful}
use phodex.Worker.{WorkerEngine, Lawful}
use phodex.Events.Sequence.{IsSequenced}
use phodex.Tasks.Lifecycle.{AllTimed}

abbrev pub ada : User
ada = record {
  id = 1;
  google_sub = none;
  email = "ada@example.org";
  name = "Ada";
  avatar_url = none;
  password_hash = some "hash";
}

abbrev pub phone : Session
phone = record {
  id = 5;
  user_id = 1;
  jwt_jti = "phone";
  expires_at = 1000;
  created_at = 10;
  revoked_at = none;
}

abbrev pub tablet : Session
tablet = record {
  id = 6;
  user_id = 1;
  jwt_jti = "tablet";
  expires_at = 1000;
  created_at = 11;
  revoked_at = some 20;
}

abbrev pub laptop : Device
laptop = record {
  id = 7;
  user_id = 1;
  name = "laptop";
  platform = "linux";
  status = "online";
  agent_version = some "1.0";
  last_seen_at = some 12;
  updated_at = 12;
}

abbrev pub desktop : Device
desktop = record laptop { id = 8; user_id = 2; name = "desktop" }

abbrev pub library : SyncedRepository
library = record {
  id = 9;
  user_id = 2;
  device_id = 8;
  name = "library";
  local_path = "/home/bob/library";
  git_root = "/home/bob/library";
  current_branch = some "main";
  default_branch = some "main";
  is_active = true;
  last_scanned_at = some 12;
  last_opened_at = none;
  metadata_json = end;
}

abbrev pub context : ProjectContext
context = record {
  id = 10;
  user_id = 1;
  source_type = SourceType.manual;
  synced_repository_id = none;
  name = "notes";
  repo_url = none;
  branch = none;
  metadata_json = end;
  is_current = true;
}

abbrev pub waiting_task : Task
waiting_task = record {
  id = 20;
  user_id = 1;
  project_context_id = none;
  title = none;
  prompt = "Fix the build";
  status = TaskStatus.waiting_approval;
  current_phase = some "awaiting_user_approval";
  started_at = some 30;
  finished_at = none;
  error_message = none;
  final_summary = none;
  cancelled_at = none;
  created_at = 25;
  updated_at = 31;
}

abbrev pub running_task : Task
running_task = record waiting_task {
  id = 21;
  status = TaskStatus.running;
  current_phase = some "running";
}

abbrev pub event : TaskEvent
event = record {
  id = 22;
  task_id = 20;
  seq_no = 1;
  event_type = "task.created";
  payload_json = field "message" (str "Task created and queued") end;
  created_at = 26;
}

abbrev pub request : ApprovalRequest
request = record {
  id = 30;
  task_id = 20;
  kind = "command_execution";
  title = "Approve";
  description = "Approve the command";
  payload_json = end;
  status = ApprovalStatus.pending;
  created_at = 32;
  resolved_at = none;
}

abbrev pub state : RuntimeState
state = record {
  ref = 40;
  task_id = 20;
  job = some Job.running;
  process = none;
  approval_id = some 30;
  approval_event = false;
  approval_granted = none;
  pending_replies = [];
  final_summary = none;
  stderr_tail = [];
  runtime_reported_error = false;
}

abbrev pub world : World
world = record {
  db = record {
    users = ada ∷ [];
    sessions = phone ∷ tablet ∷ [];
    devices = laptop ∷ desktop ∷ [];
    repositories = library ∷ [];
    contexts = context ∷ [];
    tasks = waiting_task ∷ running_task ∷ [];
    messages = [];
    events = event ∷ [];
    approvals = request ∷ [];
    git_operations = [];
    subscriptions = record { id = 23; user_id = 1; fcm_token = "token"; platform = "android" } ∷ [];
    ai_settings = [];
  };
  subscribers = [];
  cache = [];
  effects = [];
  heap = state ∷ [];
  fake_jobs = [];
  live = [];
  states = record { task_id = 20; ref = 40 } ∷ [];
  settings = record {
    max_concurrent_tasks_per_user = 3;
    max_active_sessions_per_user = 2;
    access_token_ttl_minutes = 60;
    demo_account_email = none;
    demo_account_password = none;
  };
  env = record {
    now = λ n. 100 + n;
    uuid = λ n. 200 + n;
    uuid_str = λ n. "id";
    redis_enabled = false;
    redis_accepts = λ n. false;
    push_enabled = true;
  };
  calls = 0;
}

abbrev pub orchestrator : Orchestrator
orchestrator = record {
  label = "Codex";
  prefix = "codex";
  require_initial_approval = true;
  risk_level = "medium";
  build = λ task_id. raise (runtime_error "Task not found for execution context");
  run = λ task_id ref c. pure tt;
  command_preview = "codex exec";
  write_to_stdin = λ task_id process content. pure tt;
}

pub quiet : IsQuiet orchestrator
quiet = record {
  write_ok = λ id p s w. refl;
  write_tasks = λ id p s w. refl;
  write_approvals = λ id p s w. refl;
}

abbrev pub codex : Option WorkerEngine
codex = some (engine orchestrator)

pub codex-Lawful : Lawful codex
codex-Lawful = engine-IsLawful orchestrator quiet

pub world-IsSequenced : IsSequenced world
world-IsSequenced t = (λ same. refl, tt)

pub world-AllTimed : AllTimed world.db
world-AllTimed = (
  record { ended = λ p. ground arith; began = λ p. ground arith; dropped = λ p. ground arith },
  (
    record { ended = λ p. ground arith; began = λ p. ground arith; dropped = λ p. ground arith },
    tt,
  ),
)

pub codex-Orderly : Orderly codex
unfolding dispatcher
codex-Orderly = reply-IsSequenced orchestrator (λ id p s w seq. seq)
