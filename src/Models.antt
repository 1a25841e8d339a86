-- ===== src/Models.antt =====
-- The rows of the database: backend/app/models. A UUID is a number, and so is a point of time. The
-- relationships of a row are its foreign keys.
pub mod Enums
pub use Enums.*
use phodex.Base.{ℕ, String, Bool, Option}
use phodex.Json.{Fields}

pub record User : Type 0 where
  pub id : ℕ
  pub google_sub : Option String
  pub email : String
  pub name : String
  pub avatar_url : Option String
  pub password_hash : Option String

pub record Session : Type 0 where
  pub id : ℕ
  pub user_id : ℕ
  pub jwt_jti : String
  pub expires_at : ℕ
  pub created_at : ℕ
  pub revoked_at : Option ℕ

pub record Device : Type 0 where
  pub id : ℕ
  pub user_id : ℕ
  pub name : String
  pub platform : String
  pub status : String
  pub agent_version : Option String
  pub last_seen_at : Option ℕ
  pub updated_at : ℕ

pub record SyncedRepository : Type 0 where
  pub id : ℕ
  pub user_id : ℕ
  pub device_id : ℕ
  pub name : String
  pub local_path : String
  pub git_root : String
  pub current_branch : Option String
  pub default_branch : Option String
  pub is_active : Bool
  pub last_scanned_at : Option ℕ
  pub last_opened_at : Option ℕ
  pub metadata_json : Fields

pub record ProjectContext : Type 0 where
  pub id : ℕ
  pub user_id : ℕ
  pub source_type : SourceType
  pub synced_repository_id : Option ℕ
  pub name : String
  pub repo_url : Option String
  pub branch : Option String
  pub metadata_json : Fields
  pub is_current : Bool

pub record Task : Type 0 where
  pub id : ℕ
  pub user_id : ℕ
  pub project_context_id : Option ℕ
  pub title : Option String
  pub prompt : String
  pub status : TaskStatus
  pub current_phase : Option String
  pub started_at : Option ℕ
  pub finished_at : Option ℕ
  pub error_message : Option String
  pub final_summary : Option String
  pub cancelled_at : Option ℕ
  pub created_at : ℕ
  pub updated_at : ℕ

pub record TaskMessage : Type 0 where
  pub id : ℕ
  pub task_id : ℕ
  pub role : TaskMessageRole
  pub content : String
  pub created_at : ℕ

pub record TaskEvent : Type 0 where
  pub id : ℕ
  pub task_id : ℕ
  pub seq_no : ℕ
  pub event_type : String
  pub payload_json : Fields
  pub created_at : ℕ

pub record ApprovalRequest : Type 0 where
  pub id : ℕ
  pub task_id : ℕ
  pub kind : String
  pub title : String
  pub description : String
  pub payload_json : Fields
  pub status : ApprovalStatus
  pub created_at : ℕ
  pub resolved_at : Option ℕ

pub record GitOperation : Type 0 where
  pub id : ℕ
  pub task_id : ℕ
  pub repo_path : String
  pub commit_message : String
  pub status : GitOperationStatus
  pub status_output : Option String
  pub diff_stat_output : Option String
  pub pushed_branch : Option String
  pub error_message : Option String

pub record PushSubscription : Type 0 where
  pub id : ℕ
  pub user_id : ℕ
  pub fcm_token : String
  pub platform : String

pub record UserAiSettings : Type 0 where
  pub id : ℕ
  pub user_id : ℕ
  pub anthropic_api_key_encrypted : Option String
  pub openai_api_key_encrypted : Option String
  pub github_token_encrypted : Option String
  pub preferred_claude_model : Option String
  pub preferred_codex_model : Option String
