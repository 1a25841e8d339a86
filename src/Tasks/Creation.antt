-- ===== src/Tasks/Creation.antt =====
-- `create_task`: the limit on unfinished tasks, and what is stored.
use phodex.Base.{
  List, not, is_none, first_row, count_rows, ℕ, suc, ◌+◌, ◌≤◌, ◌<◌, String, ◌≡◌, refl, Bool, true,
  false, ◌&&◌, Option, none, some, [], ◌∷◌, ◌++◌, arith, ltb, leb, ◌==◌, if◌then◌else◌, Bool-cases,
  inl, inr, count_rows-append, ◌⊎◌,
}
use phodex.Models.{TaskStatus, Task, status_in}
use phodex.World.{World, Db, Result, Error, limit_exceeded, not_found, ok, err}
use phodex.Events.Sequence.{append_event_returns, append_event_stores}
use phodex.Worker.{WorkerEngine, Lawful, dispatch_keeps, dispatch_returns}
use phodex.Tasks.{
  check_limit, check_context, insert_task, announce_task, create_task, unfinished, count_concurrent,
  invalidate_usage,
}

abbrev limit_error : Error
limit_error = limit_exceeded "Concurrent task limit reached" "CONCURRENT_TASK_LIMIT_REACHED"

-- the user has as many unfinished tasks as the settings allow, or more
abbrev pub at_limit : ℕ → World → Bool
at_limit user_id w =
    ltb 0 w.settings.max_concurrent_tasks_per_user
    && leb w.settings.max_concurrent_tasks_per_user (count_concurrent user_id unfinished w.db)

check_limit_full :
    (user_id : ℕ) (w : World)
    → at_limit user_id w ≡ true
    → check_limit user_id w ≡ (err limit_error, w)
unfolding check_limit
check_limit_full user_id w h = ground arith

check_limit_room :
    (user_id : ℕ) (w : World) → at_limit user_id w ≡ false → check_limit user_id w ≡ (ok tt, w)
unfolding check_limit
check_limit_room user_id w h = ground arith

-- the table has a context with this id that belongs to the user, or no context is asked for
abbrev pub has_context : ℕ → Option ℕ → Db → Bool
has_context user_id none db = true
has_context user_id (some id) db =
    ltb 0 (count_rows (λ c. c.id == id && c.user_id == user_id) db.contexts)

first_row-count_rows {ℓ} :
    {A : Type ℓ} (p : A → Bool) (xs : List A)
    → is_none (first_row p xs) ≡ not (ltb 0 (count_rows p xs))
first_row-count_rows p [] = refl
first_row-count_rows p (x ∷ xs) = ground (arith, first_row-count_rows p xs)

check_context_known :
    (user_id : ℕ) (context_id : Option ℕ) (w : World)
    → has_context user_id context_id w.db ≡ true
    → check_context user_id context_id w ≡ (ok tt, w)
unfolding check_context
check_context_known user_id none w h = refl
check_context_known user_id (some id) w h =
    rw (first_row-count_rows (λ c. c.id == id && c.user_id == user_id) w.db.contexts) (rw h refl)

check_context_unknown :
    (user_id : ℕ) (context_id : Option ℕ) (w : World)
    → has_context user_id context_id w.db ≡ false
    → check_context user_id context_id w ≡ (err (not_found "Project context not found"), w)
unfolding check_context
check_context_unknown user_id none w h = absurd (cc)
check_context_unknown user_id (some id) w h =
    rw (first_row-count_rows (λ c. c.id == id && c.user_id == user_id) w.db.contexts) (rw h refl)

abbrev of_user : ℕ → Task → Bool
of_user u t = t.user_id == u && status_in t.status unfinished

-- The row that a request adds: a queued task of the user with the prompt and title given.
abbrev pub new_task : ℕ → String → Option ℕ → Option String → World → Task
new_task user_id prompt context_id title w = record {
  id = w.env.uuid w.calls;
  user_id = user_id;
  project_context_id = context_id;
  title = title;
  prompt = prompt;
  status = TaskStatus.queued;
  current_phase = some "queued";
  started_at = none;
  finished_at = none;
  error_message = none;
  final_summary = none;
  cancelled_at = none;
  created_at = w.env.now (suc (suc w.calls));
  updated_at = w.env.now (suc (suc w.calls));
}

module _ (engine : Option WorkerEngine) (lawful : Lawful engine) where
  announce_task_keeps :
      (task : Task) (w : World)
      → let (r, w') = announce_task engine task w in (r ≡ ok task) × (w'.db.tasks ≡ w.db.tasks)
  unfolding announce_task invalidate_usage
  announce_task_keeps task w = rw append_event_returns (
      rw (dispatch_returns engine lawful task.id)
        (refl, rw (dispatch_keeps engine lawful task.id) (rw append_event_stores)))

module _ (engine : Option WorkerEngine) (lawful : Lawful engine) (user_id : ℕ) (prompt : String)
    (context_id : Option ℕ) (title : Option String) (w : World) where
  abbrev created : Result Task × World
  created = create_task engine user_id prompt context_id title w

  store_lem :
      let (r, w') =
        announce_task engine
          (new_task user_id prompt context_id title w)
          (insert_task user_id prompt context_id title w).1 in
      (r ≡ ok (new_task user_id prompt context_id title w))
      × (w'.db.tasks ≡ w.db.tasks ++ new_task user_id prompt context_id title w ∷ [])
  unfolding insert_task
  store_lem =
      announce_task_keeps engine lawful (new_task user_id prompt context_id title w)
        (insert_task user_id prompt context_id title w).1

  -- A request at the limit is refused with the limit's code and changes nothing. Otherwise it is
  -- refused, and changes nothing, if it names a context and the table has none with this id that
  -- belongs to the user; and if it names none, or there is one, it adds exactly the one queued task that
  -- it returns.
  pub create_task_outcome :
      ((at_limit user_id w ≡ true) × (created ≡ (err limit_error, w)))
      ⊎ ((at_limit user_id w ≡ false)
          × (((has_context user_id context_id w.db ≡ false)
                × (created ≡ (err (not_found "Project context not found"), w)))
              ⊎ ((has_context user_id context_id w.db ≡ true)
                  × (created.0 ≡ ok (new_task user_id prompt context_id title w))
                  × (created.1.db.tasks
                      ≡ w.db.tasks ++ new_task user_id prompt context_id title w ∷ []))))
  unfolding create_task insert_task
  create_task_outcome = elim (Bool-cases (at_limit user_id w)) [
    | inl full ↦ inl (full, rw (check_limit_full user_id w full))
    | inr room ↦ elim (Bool-cases (has_context user_id context_id w.db)) [
      | inl known ↦
          let (returns, stores) = store_lem in
          inr (
            room,
            inr (
              known,
              rw (check_limit_room user_id w room)
                  (rw (check_context_known user_id context_id w known) returns),
              rw (check_limit_room user_id w room)
                  (rw (check_context_known user_id context_id w known) stores),
            ),
          )
      | inr unknown ↦ inr (
        room,
        inl (
          unknown,
          rw (check_limit_room user_id w room)
              (rw (check_context_unknown user_id context_id w unknown)),
        ),
      )
    ]
  ]

  abbrev limit : ℕ
  limit = w.settings.max_concurrent_tasks_per_user

  count_after :
      (u : ℕ)
      → created.1.db.tasks ≡ w.db.tasks ++ new_task user_id prompt context_id title w ∷ []
      → count_concurrent u unfinished created.1.db
        ≡ count_concurrent u unfinished w.db + (if user_id == u then 1 else 0)
  unfolding count_concurrent
  count_after u stored = rw stored (rw (count_rows-append (of_user u)) (ground arith))

  -- Whatever the request, a limit above 0 that bounds the unfinished tasks of every user before it
  -- bounds them after it.
  pub create_task-IsWithin :
      0 < limit
      → ((u : ℕ) → count_concurrent u unfinished w.db ≤ limit)
      → (u : ℕ) → count_concurrent u unfinished created.1.db ≤ limit
  create_task-IsWithin some_limit within u = elim create_task_outcome [
    | inl (full, same) ↦ rw same (within u)
    | inr (room, inl (_, same)) ↦ rw same (within u)
    | inr (room, inr (_, _, stored)) ↦ rw (count_after u stored) (ground (arith, within u))
  ]
