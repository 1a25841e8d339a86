-- ===== src/FakeWorker/Progress.antt =====
-- How far a job of the fake worker gets.
use phodex.Base.{
  ap, arith, List, [], ◌∷◌, ◌==◌, first_row, update_rows, ℕ, String, ◌≡◌, refl, ◌∙◌, Bool, true,
  false, Option, some, none, ==_self, if◌then◌else◌,
}
use phodex.Json.{Fields}
use phodex.Models.{TaskStatus, Task, is_cancelled}
use phodex.World.{
  Coroutine, until_approval, after_approval, FakeJob, Job, World, Exec, ok, pure, attempt, ◌>>=◌,
  ◌>>◌,
}
use phodex.Events.{append_event}
use phodex.Events.Sequence.{append_event_returns, append_event_stores}
use phodex.Tasks.{transition_for_worker, append_assistant_message, get_status}
use phodex.Tasks.Transitions.{find_task}
use phodex.Tasks.Lifecycle.{transition_effect}
use phodex.Approvals.Request.{request_lem}
use phodex.Approvals.{create_approval_request}
use phodex.FakeWorker.{
  dispatch_task, coroutine_of, end_job, start_job, is_busy, job_of, run_job, run_found, put_job,
  handle_approval, boot, analyze, ask, resume, apply_changes, finish, guarded, run_until_approval,
  resume_after_approval,
}

-- the task is there, with this status
abbrev pub IsAt : ℕ → TaskStatus → World → Type 0
IsAt task_id status w = (t : Task) × (find_task task_id w.db ≡ some t) × (t.status ≡ status)

module _ (task_id : ℕ) where
  -- from one status of the task the action returns and leaves it with another
  Leads : {A : Type 0} → TaskStatus → Exec A → TaskStatus → Type 0
  Leads {A} before m after =
      (w : World)
      → IsAt task_id before w
      → ((a : A) × ((m w).0 ≡ ok a)) × IsAt task_id after (m w).1

  bind-Leads :
      {A B : Type 0} (s1 s2 s3 : TaskStatus) (m : Exec A) (f : A → Exec B)
      → Leads s1 m s2
      → ((a : A) → Leads s2 (f a) s3)
      → Leads s1 (m >>= f) s3
  unfolding Leads
  bind-Leads s1 s2 s3 m f h k w at_first =
      let ((a, done), at_second) = h w at_first in rw done (k a (m w).1 at_second)

  transition-Leads :
      (s status : TaskStatus) (phase error summary : Option String)
      → Leads s (transition_for_worker task_id status phase error summary) status
  unfolding Leads
  transition-Leads s status phase error summary w (t, found, _) =
      let (t', done, rows, is, _, _, _) =
        transition_effect task_id status phase error summary w t found in
      ((t', done), (t', rows task_id ∙ rw (==_self task_id) refl, is))

  event-Leads :
      (s : TaskStatus) (kind : String) (payload : Fields)
      → Leads s (append_event task_id kind payload) s
  unfolding Leads
  event-Leads s kind payload w (t, found, is) =
      ((_, append_event_returns task_id kind payload w), (t, rw append_event_stores found, is))

  reply-Leads : (s : TaskStatus) (text : String) → Leads s (append_assistant_message task_id text) s
  unfolding Leads append_assistant_message
  reply-Leads s text w here = ((_, refl), here)

  pure-Leads : {A : Type 0} (s : TaskStatus) (a : A) → Leads s (pure a) s
  unfolding Leads
  pure-Leads s a w here = ((a, refl), here)

  request-Leads :
      (s : TaskStatus) (kind title description : String) (payload : Fields)
      → Leads s (create_approval_request task_id kind title description payload) s
  unfolding Leads
  request-Leads s kind title description payload w (t, found, is) =
      let (made, kept) = request_lem task_id kind title description payload w in
      ((_, made), (t, rw kept found, is))

  get_status_lem :
      (s : TaskStatus) (w : World) → IsAt task_id s w → get_status task_id w ≡ (ok s, w)
  unfolding get_status
  get_status_lem s w (t, found, is) = rw found (rw is refl)

  event_then :
      {A : Type 0} (s s' : TaskStatus) (kind : String) (payload : Fields) (k : Exec A)
      → Leads s k s'
      → Leads s (append_event task_id kind payload >> k) s'
  event_then s s' kind payload k h =
      bind-Leads s s s' (append_event task_id kind payload) (λ _. k) (event-Leads s kind payload)
        (λ _. h)

  transition_then :
      {A : Type 0} (s status s' : TaskStatus) (phase summary : Option String) (k : Exec A)
      → Leads status k s'
      → Leads s (transition_for_worker task_id status phase none summary >> k) s'
  transition_then s status s' phase summary k h =
      bind-Leads s status s' (transition_for_worker task_id status phase none summary) (λ _. k)
        (transition-Leads s status phase none summary) (λ _. h)

  reply_then :
      {A : Type 0} (s : TaskStatus) (text : String) (k : Exec A)
      → Leads s k s
      → Leads s (append_assistant_message task_id text >> k) s
  reply_then s text k h =
      bind-Leads s s s (append_assistant_message task_id text) (λ _. k) (reply-Leads s text)
        (λ _. h)

  boot-Leads : (s : TaskStatus) → Leads s (boot task_id) TaskStatus.starting
  unfolding boot
  boot-Leads s =
      let at_start = TaskStatus.starting in
      transition_then s at_start at_start _ none _
        (event_then at_start at_start _ _ (pure tt) (pure-Leads at_start tt))

  alive_then :
      {A : Type 0} (s s' : TaskStatus) (stop : A) (k : Exec A)
      → is_cancelled s ≡ false
      → Leads s k s'
      → Leads s (get_status task_id >>= λ status. if is_cancelled status then pure stop else k) s'
  unfolding Leads
  alive_then s s' stop k live h w here = rw (get_status_lem s w here) (rw live (h w here))

  -- the job goes on, and leaves the task running
  GoesOn : TaskStatus → Exec Bool → Type 0
  GoesOn s m =
      (w : World) → IsAt task_id s w → ((m w).0 ≡ ok true) × IsAt task_id TaskStatus.running (m w).1

  step_GoesOn :
      {A : Type 0} (s s' : TaskStatus) (m : Exec A) (k : Exec Bool)
      → Leads s m s'
      → GoesOn s' k
      → GoesOn s (m >> k)
  unfolding Leads GoesOn
  step_GoesOn s s' m k h g w here = let ((a, done), there) = h w here in rw done (g (m w).1 there)

  alive_GoesOn :
      (s : TaskStatus) (k : Exec Bool)
      → is_cancelled s ≡ false
      → GoesOn s k
      → GoesOn s (get_status task_id >>= λ status. if is_cancelled status then pure false else k)
  unfolding GoesOn
  alive_GoesOn s k live h w here = rw (get_status_lem s w here) (rw live (h w here))

  on_GoesOn : GoesOn TaskStatus.running (pure true)
  unfolding GoesOn
  on_GoesOn w here = (refl, here)

  event_GoesOn :
      (kind : String) (payload : Fields) (k : Exec Bool)
      → GoesOn TaskStatus.running k
      → GoesOn TaskStatus.running (append_event task_id kind payload >> k)
  event_GoesOn kind payload k =
      step_GoesOn TaskStatus.running TaskStatus.running (append_event task_id kind payload) k
        (event-Leads TaskStatus.running kind payload)

  reply_GoesOn :
      (text : String) (k : Exec Bool)
      → GoesOn TaskStatus.running k
      → GoesOn TaskStatus.running (append_assistant_message task_id text >> k)
  reply_GoesOn text k =
      step_GoesOn TaskStatus.running TaskStatus.running (append_assistant_message task_id text) k
        (reply-Leads TaskStatus.running text)

  analyze-GoesOn : GoesOn TaskStatus.starting (analyze task_id)
  unfolding analyze
  analyze-GoesOn = alive_GoesOn TaskStatus.starting _ refl (
      step_GoesOn TaskStatus.starting TaskStatus.running
        (transition_for_worker task_id TaskStatus.running (some "analyzing_context") none none) _
        (transition-Leads TaskStatus.starting TaskStatus.running _ none none)
        (event_GoesOn _ _ _ (
          event_GoesOn _ _ _
            (event_GoesOn _ _ _ (reply_GoesOn _ _ (event_GoesOn _ _ _ on_GoesOn))))))

  ask-Leads : Leads TaskStatus.running (ask task_id) TaskStatus.waiting_approval
  unfolding ask
  ask-Leads =
      let waits = TaskStatus.waiting_approval in
      alive_then TaskStatus.running waits tt _ refl (
        bind-Leads TaskStatus.running TaskStatus.running waits
          (create_approval_request task_id _ _ _ _) (λ _. _)
          (request-Leads TaskStatus.running _ _ _ _)
          (λ _.
            transition_then TaskStatus.running waits waits _ none _
              (event_then waits waits _ _ (pure tt) (pure-Leads waits tt))))

  resume-Leads : (s : TaskStatus) (id : String) → Leads s (resume task_id id) TaskStatus.running
  unfolding resume
  resume-Leads s id =
      let runs = TaskStatus.running in
      transition_then s runs runs _ none _ (event_then runs runs _ _ (pure tt) (pure-Leads runs tt))

  apply-GoesOn : GoesOn TaskStatus.running (apply_changes task_id)
  unfolding apply_changes
  apply-GoesOn =
      alive_GoesOn TaskStatus.running _ refl
        (event_GoesOn _ _ _ (event_GoesOn _ _ _ (reply_GoesOn _ _ on_GoesOn)))

  finish-Leads : Leads TaskStatus.running (finish task_id) TaskStatus.completed
  unfolding finish
  finish-Leads =
      let runs = TaskStatus.running in
      let ends = TaskStatus.completed in
      event_then runs ends _ _ _ (transition_then runs ends ends _ _ (pure tt) (pure-Leads ends tt))

  job_lem :
      (text : String) (s s1 s2 : TaskStatus) (first last : Exec (Unit {0})) (middle : Exec Bool)
      → Leads s first s1
      → GoesOn s1 middle
      → Leads TaskStatus.running last s2
      → (w : World) → IsAt task_id s w
      → let (r, w') =
          attempt
            (first >> (middle >>= λ alive. if alive then last else pure tt))
            (guarded task_id text)
            w in
        (r ≡ ok tt) × IsAt task_id s2 w'
  unfolding Leads GoesOn guarded
  job_lem text s s1 s2 first last middle h g k w here =
      let ((_, began), there) = h w here in
      let (on, runs) = g (first w).1 there in
      let ((_, ended), at_end) = k (middle (first w).1).1 runs in
      rw began (rw on (rw ended (refl, at_end)))

  -- no job of the task is under way
  abbrev pub IsIdle : World → Type 0
  IsIdle w = is_busy (job_of task_id w) ≡ false

  first_done :
      (js : List FakeJob)
      → is_busy (
          first_row
            (λ j. j.task_id == task_id)
            (update_rows (λ j. j.task_id == task_id) (λ j. record j { job = Job.done }) js))
        ≡ false
  first_done [] = refl
  first_done (j ∷ js) = ground (arith, first_done js)

  end_job-IsIdle : (w : World) → IsIdle (end_job task_id w)
  unfolding job_of
  end_job-IsIdle w = first_done w.fake_jobs

  job_of-put_job :
      (coroutine : Coroutine) (w : World)
      → job_of task_id (put_job task_id coroutine w)
        ≡ some (record { task_id = task_id; coroutine = coroutine; job = Job.running })
  unfolding job_of put_job
  job_of-put_job coroutine w = ground arith

  run_job_lem :
      (coroutine : Coroutine) (w : World)
      → let (r, w') = coroutine_of task_id coroutine (put_job task_id coroutine w) in
        run_job task_id (put_job task_id coroutine w) ≡ (r, end_job task_id w')
  unfolding run_job
  run_job_lem coroutine w =
      ap (λ found. run_found task_id found (put_job task_id coroutine w))
        (job_of-put_job coroutine w)

  -- If nothing intervenes, a task that is there, whatever its status, is taken to its end: a dispatch
  -- starts a job, which runs until the task waits for the approval and no job is under way; and an
  -- approval that comes then, in whatever world, starts a job that leaves the task completed. None of the
  -- calls and of the jobs raises.
  pub job_ends :
      (approval_id : ℕ)
      → ((t : Task) (w : World)
          → find_task task_id w.db ≡ some t
          → IsIdle w
          → let (r1, w1) = dispatch_task task_id w in
            let (r2, w2) = run_job task_id w1 in
            (r1 ≡ ok tt) × (r2 ≡ ok tt) × IsAt task_id TaskStatus.waiting_approval w2 × IsIdle w2)
        × ((w : World)
            → IsAt task_id TaskStatus.waiting_approval w
            → IsIdle w
            → let (r1, w1) = handle_approval task_id approval_id true w in
              let (r2, w2) = run_job task_id w1 in
              (r1 ≡ ok tt) × (r2 ≡ ok tt) × IsAt task_id TaskStatus.completed w2 × IsIdle w2)
  unfolding run_until_approval resume_after_approval handle_approval dispatch_task start_job put_job
  job_ends approval_id = (
    λ t w found idle.
        let w1 = put_job task_id until_approval w in
        let (returns, there) =
          job_lem "Worker crashed" t.status TaskStatus.starting TaskStatus.waiting_approval
            (boot task_id) (ask task_id) (analyze task_id) (boot-Leads t.status) analyze-GoesOn
            ask-Leads w1 (t, found, refl) in
        rw idle (
          rw (run_job_lem until_approval w)
            (refl, returns, there, end_job-IsIdle (run_until_approval task_id w1).1)),
    λ w here idle.
        let w1 = put_job task_id (after_approval approval_id) w in
        let (returns, there) =
          job_lem "Worker failed after approval" TaskStatus.waiting_approval TaskStatus.running
            TaskStatus.completed (resume task_id (w.env.uuid_str approval_id)) (finish task_id)
            (apply_changes task_id) (resume-Leads TaskStatus.waiting_approval _) apply-GoesOn
            finish-Leads w1 here in
        rw (get_status_lem TaskStatus.waiting_approval w here) (
          rw idle (
            rw (run_job_lem (after_approval approval_id) w) (
              refl,
              returns,
              there,
              end_job-IsIdle (resume_after_approval task_id approval_id w1).1,
            ))),
  )
