-- ===== src/System/Frame.antt =====
-- What the calls of the services keep of the tables, whatever their outcome: a property that the appending
-- of events and the writes of the call keep.
use phodex.Base.{
  ℕ, suc, String, ◌≡◌, refl, Bool, true, false, Option, none, some, arith, Option-cases, Bool-cases,
  inl, inr, set_row, List,
}
use phodex.Json.{Fields}
use phodex.Models.{
  TaskStatus, Task, TaskMessage, TaskMessageRole, ApprovalStatus, ApprovalRequest, is_finished,
  is_cancelled, is_pending,
}
use phodex.World.{
  World, Db, Error, Exec, not_found, or_raise, utcnow, pure, emit, transition, ◌>>=◌, ◌>>◌,
}
use phodex.World.Keeps.{bind-Keeps}
use phodex.Worker.{WorkerEngine, Lawful, dispatcher, dispatch_keeps, cancel_keeps, approval_keeps}
use phodex.Events.{append_event}
use phodex.Tasks.{
  Changes, no_changes, create_task, check_limit, check_context, insert_task, announce_task, message,
  invalidate_usage, cancel_task, get_task, by_id_and_user, finish_cancel, announce_cancel,
  update_status, transition_for_worker, append_assistant_message, add_reply, touch,
}
use phodex.Tasks.Transitions.{find_task, transition_missing, transition_stores}
use phodex.Approvals.{
  resolve, approve, reject, announce_approval, announce_rejection, approved_payload,
  rejected_payload, failure_payload, invalidate_usage_for_task,
}

module _ (P : Db → Type 0) where
  -- the action keeps the property
  abbrev pub Holds : {A : Type 0} → Exec A → Type 0
  Holds m = (w : World) → P w.db → P (m w).1.db

  pub bind-Holds :
      {A B : Type 0} (m : Exec A) (f : A → Exec B)
      → Holds m
      → ((a : A) → Holds (f a))
      → Holds (m >>= f)
  bind-Holds = bind-Keeps (λ w w'. P w.db → P w'.db) (λ w p. p) (λ u v w f g p. g (f p))

  pub then-Holds : {A B : Type 0} (m : Exec A) (k : Exec B) → Holds m → Holds k → Holds (m >> k)
  then-Holds m k h g = bind-Holds m (λ _. k) h (λ _. g)

  pub same-Holds : {A : Type 0} (m : Exec A) → ((w : World) → (m w).1.db ≡ w.db) → Holds m
  same-Holds m same w p = rw (same w) p

  or_raise-Holds : {A : Type 0} (e : Error) (found : Option A) → Holds (or_raise e found)
  or_raise-Holds {A} e none = same-Holds {A = A} (or_raise e none) (λ w. refl)
  or_raise-Holds {A} e (some a) = same-Holds {A = A} (or_raise e (some a)) (λ w. refl)

  pure-Holds : {A : Type 0} (a : A) → Holds (pure a)
  pure-Holds a = same-Holds (pure a) (λ w. refl)

  usage-Holds : (task_id : ℕ) → Holds (invalidate_usage_for_task task_id)
  unfolding invalidate_usage_for_task invalidate_usage
  usage-Holds task_id = same-Holds (invalidate_usage_for_task task_id) (λ w. ground arith)

  module _ (engine : Option WorkerEngine) (lawful : Lawful engine)
      (appends : (task_id : ℕ) (kind : String) (payload : Fields)
        → Holds (append_event task_id kind payload)) where
    verdict-Holds :
        (a : ApprovalRequest) (b : Bool)
        → Holds (
            dispatcher engine (λ e. e.handle_approval a.task_id a.id b)
            >> (invalidate_usage_for_task a.task_id >> pure a))
    verdict-Holds a b =
        let told = dispatcher engine (λ e. e.handle_approval a.task_id a.id b) in
        let usage = invalidate_usage_for_task a.task_id in
        then-Holds told (usage >> pure a)
          (same-Holds told (approval_keeps engine lawful a.task_id a.id b))
          (then-Holds usage (pure a) (usage-Holds a.task_id) (pure-Holds a))

    pub announce_approval-Holds :
        (note : Option String) (a : ApprovalRequest) → Holds (announce_approval engine note a)
    unfolding announce_approval
    announce_approval-Holds note a w =
        let told = dispatcher engine (λ e. e.handle_approval a.task_id a.id true) in
        let payload = approved_payload (w.env.uuid_str a.id) note in
        then-Holds (append_event a.task_id "approval.approved" payload)
          (told >> (invalidate_usage_for_task a.task_id >> pure a)) (appends a.task_id _ payload)
          (verdict-Holds a true) w

    pub announce_rejection-Holds :
        (note : Option String) (a : ApprovalRequest) → Holds (announce_rejection engine note a)
    unfolding announce_rejection
    announce_rejection-Holds note a w =
        let told = dispatcher engine (λ e. e.handle_approval a.task_id a.id false) in
        let payload = rejected_payload (w.env.uuid_str a.id) note in
        let failed = append_event a.task_id "task.failed" failure_payload in
        let after = told >> (invalidate_usage_for_task a.task_id >> pure a) in
        then-Holds (append_event a.task_id "approval.rejected" payload) (failed >> after)
          (appends a.task_id _ payload)
          (then-Holds failed after (appends a.task_id _ failure_payload) (verdict-Holds a false)) w

    module _
        (resolves : (user_id approval_id : ℕ) (status : ApprovalStatus) (note : Option String)
          → is_pending status ≡ false
          → Holds (resolve user_id approval_id status note)) where
      pub approve-Holds :
          (user_id approval_id : ℕ) (note : Option String)
          → Holds (approve engine user_id approval_id note)
      unfolding approve
      approve-Holds user_id approval_id note =
          bind-Holds (resolve user_id approval_id ApprovalStatus.approved note)
            (announce_approval engine note) (resolves user_id approval_id _ note refl)
            (announce_approval-Holds note)

      pub reject-Holds :
          (user_id approval_id : ℕ) (note : Option String)
          → Holds (reject engine user_id approval_id note)
      unfolding reject
      reject-Holds user_id approval_id note =
          bind-Holds (resolve user_id approval_id ApprovalStatus.rejected note)
            (announce_rejection engine note) (resolves user_id approval_id _ note refl)
            (announce_rejection-Holds note)

    module _
        (touches : (db : Db) (id now : ℕ) (ms : List TaskMessage)
          → P db
          → P (record db {
            messages = ms;
            tasks = set_row (λ (t : Task). t.id) id (touch now) db.tasks;
          }))
        (replies : (task_id : ℕ) (content : String)
          → Holds (dispatcher engine (λ e. e.handle_user_reply task_id content))) where
      pub add_reply-Holds :
          (user_id task_id : ℕ) (content : String)
          → Holds (add_reply engine user_id task_id content)
      unfolding add_reply get_task
      add_reply-Holds user_id task_id content w p =
          elim (Option-cases (by_id_and_user task_id user_id w.db)) [
            | inl missing ↦ rw missing p
            | inr (t, found) ↦ elim (Bool-cases (is_finished t.status)) [
              | inl ended ↦ rw found (rw ended p)
              | inr live ↦
                  let reply : TaskMessage = record {
                    id = w.env.uuid w.calls;
                    task_id = t.id;
                    role = TaskMessageRole.user;
                    content = content;
                    created_at = w.env.now (suc w.calls);
                  } in
                  let told = dispatcher engine (λ e. e.handle_user_reply task_id content) in
                  rw found (
                    rw live (
                      then-Holds
                        (append_event task_id "task.progress" (message "User follow-up received"))
                        (told >> pure reply) (appends task_id _ _)
                        (then-Holds told (pure reply) (replies task_id content) (pure-Holds reply))
                        _ (touches w.db t.id _ _ p)))
            ]
          ]

    -- the calls that write to the tasks and the messages
    module _
        (writes : (db : Db) (ts : List Task) (ms : List TaskMessage)
          → P db
          → P (record db { tasks = ts; messages = ms })) where
      written :
          {A : Type 0} (m : Exec A)
          → ((w : World)
              → (m w).1.db
                ≡ record w.db { tasks = (m w).1.db.tasks; messages = (m w).1.db.messages })
          → Holds m
      written m same w p = rw (same w) (writes w.db _ _ p)

      pub message-Holds :
          (task_id : ℕ) (text : String) → Holds (append_assistant_message task_id text)
      unfolding append_assistant_message
      message-Holds task_id text = written (append_assistant_message task_id text) (λ w. refl)

      dispatched : (id : ℕ) → Holds (dispatcher engine (λ e. e.dispatch_task id))
      dispatched id =
          same-Holds (dispatcher engine (λ e. e.dispatch_task id)) (dispatch_keeps engine lawful id)

      stopped : (id : ℕ) → Holds (dispatcher engine (λ e. e.cancel_task id))
      stopped id =
          same-Holds (dispatcher engine (λ e. e.cancel_task id)) (cancel_keeps engine lawful id)

      check_limit-Holds : (user_id : ℕ) → Holds (check_limit user_id)
      unfolding check_limit
      check_limit-Holds user_id = same-Holds (check_limit user_id) (λ w. ground arith)

      check_context-Holds : (user_id : ℕ) (id : Option ℕ) → Holds (check_context user_id id)
      unfolding check_context
      check_context-Holds user_id none = same-Holds (check_context user_id none) (λ w. refl)
      check_context-Holds user_id (some id) =
          same-Holds (check_context user_id (some id)) (λ w. ground arith)

      insert_task-Holds :
          (user_id : ℕ) (prompt : String) (context_id : Option ℕ) (title : Option String)
          → Holds (insert_task user_id prompt context_id title)
      unfolding insert_task
      insert_task-Holds user_id prompt context_id title =
          written (insert_task user_id prompt context_id title) (λ w. refl)

      pub transition-Holds :
          (task_id : ℕ) (status : TaskStatus) (phase error summary : Option String)
          → Holds (transition_for_worker task_id status phase error summary)
      transition-Holds task_id status phase error summary =
          written (transition_for_worker task_id status phase error summary) (λ w.
            elim (Option-cases (find_task task_id w.db)) [
              | inl missing ↦
                  rw (transition_missing task_id status phase error summary w missing) refl
              | inr (t, found) ↦
                  rw ((transition_stores task_id status phase error summary w t found).1) refl
            ])

      update_status-Holds :
          (task_id : ℕ) (status : TaskStatus) (c : Changes) → Holds (update_status task_id status c)
      unfolding update_status
      update_status-Holds task_id status c = written (update_status task_id status c) (λ w.
          elim (Option-cases (find_task task_id w.db)) [
            | inl missing ↦ rw missing refl
            | inr (t, found) ↦ rw found refl
          ])

      announce_task-Holds : (task : Task) → Holds (announce_task engine task)
      unfolding announce_task invalidate_usage
      announce_task-Holds task =
          let told = emit (transition TaskStatus.queued) in
          let usage = invalidate_usage task.user_id in
          let sent = dispatcher engine (λ e. e.dispatch_task task.id) in
          then-Holds (append_event task.id "task.created" (message "Task created and queued"))
            (told >> (usage >> (sent >> pure task))) (appends task.id _ _)
            (then-Holds told (usage >> (sent >> pure task)) (same-Holds told (λ w. refl)) (
              then-Holds usage (sent >> pure task) (same-Holds usage (λ w. refl))
                (then-Holds sent (pure task) (dispatched task.id) (pure-Holds task))))

      pub create_task-Holds :
          (user_id : ℕ) (prompt : String) (context_id : Option ℕ) (title : Option String)
          → Holds (create_task engine user_id prompt context_id title)
      unfolding create_task
      create_task-Holds user_id prompt context_id title =
          let inserted = insert_task user_id prompt context_id title in
          then-Holds (check_limit user_id)
            (check_context user_id context_id >> (inserted >>= announce_task engine))
            (check_limit-Holds user_id)
            (then-Holds (check_context user_id context_id) (inserted >>= announce_task engine)
              (check_context-Holds user_id context_id)
              (bind-Holds inserted (announce_task engine)
                (insert_task-Holds user_id prompt context_id title) announce_task-Holds))

      announce_cancel-Holds :
          (task_id : ℕ) (task : Task) → Holds (announce_cancel engine task_id task)
      unfolding announce_cancel invalidate_usage
      announce_cancel-Holds task_id task =
          let told = emit (transition TaskStatus.cancelled) in
          let usage = invalidate_usage task.user_id in
          let sent = dispatcher engine (λ e. e.cancel_task task_id) in
          then-Holds (append_event task_id "task.cancelled" (message "Task cancelled by user"))
            (usage >> (told >> (sent >> pure task))) (appends task_id _ _)
            (then-Holds usage (told >> (sent >> pure task)) (same-Holds usage (λ w. refl)) (
              then-Holds told (sent >> pure task) (same-Holds told (λ w. refl))
                (then-Holds sent (pure task) (stopped task_id) (pure-Holds task))))

      finish_cancel-Holds : (task_id : ℕ) → Holds (finish_cancel engine task_id)
      unfolding finish_cancel
      finish_cancel-Holds task_id =
          let changes = λ (now : ℕ). record no_changes {
            current_phase = some "cancelled";
            cancelled_at = some now;
            finished_at = some now;
          } in
          let missing = not_found "Task not found" in
          bind-Holds utcnow
            (λ now. update_status task_id TaskStatus.cancelled (changes now) >>= λ c.
              or_raise missing c >>= announce_cancel engine task_id)
            (same-Holds utcnow (λ w. refl))
            (λ now.
              bind-Holds (update_status task_id TaskStatus.cancelled (changes now))
                (λ c. or_raise missing c >>= announce_cancel engine task_id)
                (update_status-Holds task_id TaskStatus.cancelled (changes now))
                (λ c.
                  bind-Holds (or_raise missing c) (announce_cancel engine task_id)
                    (or_raise-Holds missing c) (announce_cancel-Holds task_id)))

      pub cancel_task-Holds : (user_id task_id : ℕ) → Holds (cancel_task engine user_id task_id)
      unfolding cancel_task get_task
      cancel_task-Holds user_id task_id w p =
          elim (Option-cases (by_id_and_user task_id user_id w.db)) [
            | inl missing ↦ rw missing p
            | inr (t, found) ↦ elim (Bool-cases (is_cancelled t.status)) [
              | inl gone ↦ rw found (rw gone p)
              | inr there ↦ elim (Bool-cases (is_finished t.status)) [
                | inl ended ↦ rw found (rw there (rw ended p))
                | inr live ↦ rw found (rw there (rw live (finish_cancel-Holds task_id w p)))
              ]
            ]
          ]
