-- ===== src/Models/Enums.antt =====
-- backend/app/models/enums.py, and the sets of statuses that the services test for.
use phodex.Base.{ℕ, Bool, true, false, ◌||◌, List, [], ◌∷◌, ◌==◌}

pub data SourceType : Type 0 where
  local_synced manual github : SourceType

pub data TaskStatus : Type 0 where
  queued starting running waiting_approval completed failed cancelled : TaskStatus

pub data TaskMessageRole : Type 0 where
  user assistant system : TaskMessageRole

pub data ApprovalStatus : Type 0 where
  pending approved rejected expired : ApprovalStatus

pub data GitOperationStatus : Type 0 where
  pending_review approved running completed failed rejected : GitOperationStatus

-- the declaration order, by which two statuses are compared
abbrev status_index : TaskStatus → ℕ
status_index TaskStatus.queued = 0
status_index TaskStatus.starting = 1
status_index TaskStatus.running = 2
status_index TaskStatus.waiting_approval = 3
status_index TaskStatus.completed = 4
status_index TaskStatus.failed = 5
status_index TaskStatus.cancelled = 6

-- `a == b`
abbrev pub status_eq : TaskStatus → TaskStatus → Bool
status_eq a b = status_index a == status_index b

-- `a in statuses`
abbrev pub status_in : TaskStatus → List TaskStatus → Bool
status_in a [] = false
status_in a (b ∷ bs) = status_eq a b || status_in a bs

-- `a in {COMPLETED, FAILED, CANCELLED}`
abbrev pub is_finished : TaskStatus → Bool
is_finished TaskStatus.completed = true
is_finished TaskStatus.failed = true
is_finished TaskStatus.cancelled = true
is_finished _ = false

-- `a in {STARTING, RUNNING}`
abbrev pub is_started : TaskStatus → Bool
is_started TaskStatus.starting = true
is_started TaskStatus.running = true
is_started _ = false

abbrev pub is_cancelled : TaskStatus → Bool
is_cancelled TaskStatus.cancelled = true
is_cancelled _ = false

abbrev pub is_waiting : TaskStatus → Bool
is_waiting TaskStatus.waiting_approval = true
is_waiting _ = false

abbrev pub is_pending : ApprovalStatus → Bool
is_pending ApprovalStatus.pending = true
is_pending _ = false

abbrev pub is_pending_review : GitOperationStatus → Bool
is_pending_review GitOperationStatus.pending_review = true
is_pending_review _ = false
