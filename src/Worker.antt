-- ===== src/Worker.antt =====
-- backend/workers/base.py: the interface of a worker engine, which app/services/worker_dispatcher.py
-- passes on. The services hold one, or none before start-up.
use phodex.Base.{ℕ, String, Bool, Option, none, some, ◌≡◌, refl}
use phodex.World.{World, Exec, ok, pure}

pub record WorkerEngine : Type 0 where
  pub dispatch_task : ℕ → Exec (Unit {0})
  pub handle_approval : (task_id approval_id : ℕ) (approved : Bool) → Exec (Unit {0})
  pub handle_user_reply : ℕ → String → Exec (Unit {0})
  pub cancel_task : ℕ → Exec (Unit {0})

-- `if self._worker_dispatcher is not None: await …`
unfoldable pub dispatcher : Option WorkerEngine → (WorkerEngine → Exec (Unit {0})) → Exec (Unit {0})
dispatcher none call = pure tt
dispatcher (some engine) call = call engine

-- What the services rely on of an engine: a dispatch and a cancellation succeed at once and write
-- nothing to the tables (they start or cancel a job), and no call changes the tasks or the approval
-- requests by itself.
pub record IsLawful (engine : WorkerEngine) : Type 0 where
  pub dispatch_ok : (id : ℕ) (w : World) → (engine.dispatch_task id w).0 ≡ ok tt
  pub dispatch_db : (id : ℕ) (w : World) → (engine.dispatch_task id w).1.db ≡ w.db
  pub cancel_ok : (id : ℕ) (w : World) → (engine.cancel_task id w).0 ≡ ok tt
  pub cancel_db : (id : ℕ) (w : World) → (engine.cancel_task id w).1.db ≡ w.db
  pub reply_ok : (id : ℕ) (s : String) (w : World) → (engine.handle_user_reply id s w).0 ≡ ok tt
  pub reply_tasks :
      (id : ℕ) (s : String) (w : World) → (engine.handle_user_reply id s w).1.db.tasks ≡ w.db.tasks
  pub reply_approvals :
      (id : ℕ) (s : String) (w : World)
      → (engine.handle_user_reply id s w).1.db.approvals ≡ w.db.approvals
  pub approval_db :
      (id approval : ℕ) (b : Bool) (w : World)
      → (engine.handle_approval id approval b w).1.db ≡ w.db

abbrev pub Lawful : Option WorkerEngine → Type 0
Lawful none = Unit
Lawful (some engine) = IsLawful engine

pub dispatch_returns :
    (engine : Option WorkerEngine) (lawful : Lawful engine) (id : ℕ) (w : World)
    → (dispatcher engine (λ e. e.dispatch_task id) w).0 ≡ ok tt
unfolding dispatcher
dispatch_returns none lawful id w = refl
dispatch_returns (some engine) lawful id w = lawful.dispatch_ok id w

pub dispatch_keeps :
    (engine : Option WorkerEngine) (lawful : Lawful engine) (id : ℕ) (w : World)
    → (dispatcher engine (λ e. e.dispatch_task id) w).1.db ≡ w.db
unfolding dispatcher
dispatch_keeps none lawful id w = refl
dispatch_keeps (some engine) lawful id w = lawful.dispatch_db id w

pub cancel_returns :
    (engine : Option WorkerEngine) (lawful : Lawful engine) (id : ℕ) (w : World)
    → (dispatcher engine (λ e. e.cancel_task id) w).0 ≡ ok tt
unfolding dispatcher
cancel_returns none lawful id w = refl
cancel_returns (some engine) lawful id w = lawful.cancel_ok id w

pub cancel_keeps :
    (engine : Option WorkerEngine) (lawful : Lawful engine) (id : ℕ) (w : World)
    → (dispatcher engine (λ e. e.cancel_task id) w).1.db ≡ w.db
unfolding dispatcher
cancel_keeps none lawful id w = refl
cancel_keeps (some engine) lawful id w = lawful.cancel_db id w

pub reply_returns :
    (engine : Option WorkerEngine) (lawful : Lawful engine) (id : ℕ) (s : String) (w : World)
    → (dispatcher engine (λ e. e.handle_user_reply id s) w).0 ≡ ok tt
unfolding dispatcher
reply_returns none lawful id s w = refl
reply_returns (some engine) lawful id s w = lawful.reply_ok id s w

pub reply_keeps :
    (engine : Option WorkerEngine) (lawful : Lawful engine) (id : ℕ) (s : String) (w : World)
    → (dispatcher engine (λ e. e.handle_user_reply id s) w).1.db.tasks ≡ w.db.tasks
unfolding dispatcher
reply_keeps none lawful id s w = refl
reply_keeps (some engine) lawful id s w = lawful.reply_tasks id s w

pub reply_keeps_approvals :
    (engine : Option WorkerEngine) (lawful : Lawful engine) (id : ℕ) (s : String) (w : World)
    → (dispatcher engine (λ e. e.handle_user_reply id s) w).1.db.approvals ≡ w.db.approvals
unfolding dispatcher
reply_keeps_approvals none lawful id s w = refl
reply_keeps_approvals (some engine) lawful id s w = lawful.reply_approvals id s w

pub approval_keeps :
    (engine : Option WorkerEngine) (lawful : Lawful engine) (id approval : ℕ) (b : Bool) (w : World)
    → (dispatcher engine (λ e. e.handle_approval id approval b) w).1.db ≡ w.db
unfolding dispatcher
approval_keeps none lawful id approval b w = refl
approval_keeps (some engine) lawful id approval b w = lawful.approval_db id approval b w
