-- ===== src/World/State.antt =====
-- The shared state: the database, the event bus, the usage cache, the runtime states of the worker
-- engine, and what is handed to systems outside (push messages, metrics, Redis). `Env` is what comes
-- from outside: the clock, the UUID generator and Redis answer the n-th question by a function of n.
use phodex.Base.{ℕ, String, Bool, Option, List}
use phodex.Json.{Fields}
use phodex.Models.{
  TaskStatus, User, Session, Device, SyncedRepository, ProjectContext, Task, TaskMessage, TaskEvent,
  ApprovalRequest, GitOperation, PushSubscription, UserAiSettings,
}

-- `Settings` of core/config.py: the fields that the modelled services read
pub record Settings : Type 0 where
  pub max_concurrent_tasks_per_user : ℕ
  pub max_active_sessions_per_user : ℕ
  pub access_token_ttl_minutes : ℕ
  pub demo_account_email : Option String
  pub demo_account_password : Option String

pub record Env : Type 0 where
  pub now : ℕ → ℕ
  pub uuid : ℕ → ℕ
  pub uuid_str : ℕ → String
  pub redis_enabled : Bool
  pub redis_accepts : ℕ → Bool
  pub push_enabled : Bool

-- the tables of app/db
pub record Db : Type 0 where
  pub users : List User
  pub sessions : List Session
  pub devices : List Device
  pub repositories : List SyncedRepository
  pub contexts : List ProjectContext
  pub tasks : List Task
  pub messages : List TaskMessage
  pub events : List TaskEvent
  pub approvals : List ApprovalRequest
  pub git_operations : List GitOperation
  pub subscriptions : List PushSubscription
  pub ai_settings : List UserAiSettings

-- `TaskEventEnvelope` of schemas/tasks.py
pub record Envelope : Type 0 where
  pub event_id : ℕ
  pub task_id : ℕ
  pub sequence : ℕ
  pub event_type : String
  pub timestamp : ℕ
  pub payload : Fields

-- one `asyncio.Queue` among the subscribers of its task
pub record Queue : Type 0 where
  pub id : ℕ
  pub task_id : ℕ
  pub items : List Envelope

-- `UsageSummary` of services/account_service.py
pub record UsageSummary : Type 0 where
  pub total_tasks : ℕ
  pub queued_tasks : ℕ
  pub running_tasks : ℕ
  pub waiting_approval_tasks : ℕ
  pub completed_tasks : ℕ
  pub failed_tasks : ℕ
  pub cancelled_tasks : ℕ
  pub pending_approvals : ℕ
  pub total_events : ℕ
  pub active_sessions : ℕ

-- the entry `account:usage:{user_id}` of the cache
pub record CachedUsage : Type 0 where
  pub user_id : ℕ
  pub usage : UsageSummary

-- an event that is sent to a managed session
pub data SessionInput : Type 0 where
  user_message : String → SessionInput
  tool_confirmation : (tool_use_id : String) (allow : Bool) (message : Option String) → SessionInput
  interrupt : SessionInput

-- what is handed to Redis, to Firebase, to Prometheus, to a subprocess and to a session
pub data Effect : Type 0 where
  relay : Envelope → Effect
  push : (fcm_token title body : String) → Fields → Effect
  transition : TaskStatus → Effect
  duration : TaskStatus → ℕ → Effect
  -- a text for the standard input of a process, by its pid
  input : ℕ → String → Effect
  -- what the API took for a session, by its id
  session_input : String → SessionInput → Effect

-- an `asyncio.Task`
pub data Job : Type 0 where
  running cancelling done : Job

-- the subprocess as the orchestrator sees it: `returncode is None`, and whether its stdin is there
-- and not closing
pub record Process : Type 0 where
  pub pid : ℕ
  pub is_alive : Bool
  pub stdin_open : Bool

-- `RuntimeState` of workers/common/state.py; `ref` is the identity of the object
pub record RuntimeState : Type 0 where
  pub ref : ℕ
  pub task_id : ℕ
  pub job : Option Job
  pub process : Option Process
  pub approval_id : Option ℕ
  pub approval_event : Bool
  pub approval_granted : Option Bool
  pub pending_replies : List String
  pub final_summary : Option String
  pub stderr_tail : List String
  pub runtime_reported_error : Bool

-- an entry of the dict `_states`
pub record StateEntry : Type 0 where
  pub task_id : ℕ
  pub ref : ℕ

-- the coroutine of a job of the fake worker: `_run_until_approval`, or `_resume_after_approval` with the
-- id of the approval
pub data Coroutine : Type 0 where
  until_approval : Coroutine
  after_approval : ℕ → Coroutine

-- an entry of the dict `_task_jobs` of the fake worker
pub record FakeJob : Type 0 where
  pub task_id : ℕ
  pub coroutine : Coroutine
  pub job : Job

-- an entry of the dict `_live` of the managed sessions
pub record LiveEntry : Type 0 where
  pub task_id : ℕ
  pub session_id : String
  pub api_key : Option String

pub record World : Type 0 where
  pub db : Db
  pub subscribers : List Queue
  pub cache : List CachedUsage
  pub effects : List Effect
  pub heap : List RuntimeState
  pub states : List StateEntry
  pub fake_jobs : List FakeJob
  pub live : List LiveEntry
  pub settings : Settings
  pub env : Env
  pub calls : ℕ
