-- ===== src/System/Once.antt =====
-- A request for an approval is decided once, whatever happens afterwards.
use phodex.Base.{
  ℕ, String, ◌≡◌, ◌≢◌, refl, ◌∙◌, Bool, true, false, ◌&&◌, Option, none, some, List, [], ◌∷◌, arith,
  ◌==◌, count_rows, first_row, set_row, get_row, IsKeyed, Option-cases, inl, inr, count_rows-append,
  set_row-IsKeyed, ==_self,
}
use phodex.Json.{Fields}
use phodex.Models.{ApprovalStatus, ApprovalRequest, is_pending}
use phodex.World.{Result-cases, World, Db, Exec, Error, ok, err}
use phodex.Worker.{WorkerEngine, Lawful, dispatcher, reply_keeps_approvals}
use phodex.Events.{append_event}
use phodex.Events.Sequence.{append_event_stores}
use phodex.World.{not_found, conflict}
use phodex.Approvals.{
  approve, reject, resolve, resolved, write_resolution, create_approval_request, get_with_task,
  owns, task_of,
}
use phodex.Approvals.Request.{request_approvals}
use phodex.Approvals.Effects.{write_approvals, resolve_effect}
use phodex.System.{Step, Reach, done, next, resolve_any}
use phodex.System.Frame.{
  Holds, create_task-Holds, cancel_task-Holds, add_reply-Holds, approve-Holds, reject-Holds,
  transition-Holds, message-Holds, announce_approval-Holds, announce_rejection-Holds,
}
use phodex.Approvals.Resolution.{Keyed, resolve_outcome}

-- no row of the request is pending
abbrev pub Settled : ℕ → Db → Type 0
Settled id db = count_rows (λ a. a.id == id && is_pending a.status) db.approvals ≡ 0

count_rows-set_row {ℓ} :
    {A : Type ℓ} (key : A → ℕ) (p : A → Bool) (k : ℕ) (f : A → A) (xs : List A)
    → ((x : A) → p (f x) ≡ false)
    → count_rows p xs ≡ 0
    → count_rows p (set_row key k f xs) ≡ 0
count_rows-set_row key p k f [] off h = refl
count_rows-set_row key p k f (x ∷ xs) off h =
    ground (arith, off x, count_rows-set_row key p k f xs off)

count_rows-first_row {ℓ} :
    {A : Type ℓ} (p q o : A → Bool) (xs : List A) (x : A)
    → count_rows (λ a. p a && q a) xs ≡ 0
    → first_row (λ a. p a && o a) xs ≡ some x
    → q x ≡ false
count_rows-first_row p q o [] x h found = absurd (cc)
count_rows-first_row p q o (y ∷ xs) x h found = ground (arith, count_rows-first_row p q o xs x)

count_rows-none {ℓ} :
    {A : Type ℓ} (key : A → ℕ) (q : A → Bool) (k : ℕ) (xs : List A)
    → get_row key k xs ≡ none
    → count_rows (λ a. key a == k && q a) xs ≡ 0
count_rows-none key q k [] h = refl
count_rows-none key q k (x ∷ xs) h = ground (arith, count_rows-none key q k xs)

count_rows-IsKeyed {ℓ} :
    {A : Type ℓ} (key : A → ℕ) (q : A → Bool) (k : ℕ) (xs : List A) (a : A)
    → IsKeyed key xs
    → get_row key k xs ≡ some a
    → q a ≡ false
    → count_rows (λ a. key a == k && q a) xs ≡ 0
count_rows-IsKeyed key q k [] a keyed h off = refl
count_rows-IsKeyed key q k (x ∷ xs) a keyed h off =
    ground (arith, keyed.0, count_rows-none key q k xs, count_rows-IsKeyed key q k xs a keyed.1)

module _ (id : ℕ) where
  append_event-Settled :
      (task_id : ℕ) (kind : String) (payload : Fields)
      → Holds (Settled id) (append_event task_id kind payload)
  append_event-Settled task_id kind payload w h = rw append_event_stores h

  resolve-Settled :
      (user_id approval_id : ℕ) (status : ApprovalStatus) (note : Option String)
      → is_pending status ≡ false
      → Holds (Settled id) (resolve user_id approval_id status note)
  unfolding write_resolution
  resolve-Settled user_id approval_id status note final w h =
      elim (resolve_any user_id approval_id status note w) [
        | inl idle ↦ rw idle h
        | inr (a, stores) ↦ rw stores (
            rw (write_approvals a status note w) (
              count_rows-set_row (λ (x : ApprovalRequest). x.id)
                (λ x. x.id == id && is_pending x.status) a.id
                (resolved status (w.env.now w.calls) note) w.db.approvals
                (λ x. ground (arith, final)) h))
      ]

  request-Settled :
      (task_id : ℕ) (kind title description : String) (payload : Fields) (w : World)
      → w.env.uuid w.calls ≢ id
      → Settled id w.db
      → Settled id (create_approval_request task_id kind title description payload w).1.db
  request-Settled task_id kind title description payload w fresh h =
      rw (request_approvals task_id kind title description payload w) (
        rw (count_rows-append (λ (a : ApprovalRequest). a.id == id && is_pending a.status))
          (ground (arith, fresh)))

  -- the call raises and changes nothing
  resolve-refuses :
      (user_id : ℕ) (status : ApprovalStatus) (remark : Option String) (w : World)
      → Settled id w.db
      → (e : Error) × (resolve user_id id status remark w ≡ (err e, w))
  unfolding resolve get_with_task
  resolve-refuses user_id status remark w h = elim (Option-cases (get_with_task id user_id w.db)) [
    | inl missing ↦ (not_found "Approval request not found", rw missing refl)
    | inr (a, found) ↦
        let done : is_pending a.status ≡ false =
          count_rows-first_row (λ (x : ApprovalRequest). x.id == id) (λ x. is_pending x.status)
            (λ x. owns user_id (task_of x w.db)) w.db.approvals a h found in
        (conflict "Approval request already resolved", rw found (rw done refl))
  ]

-- `approve`, or `reject`
abbrev pub decide : Option WorkerEngine → Bool → ℕ → ℕ → Option String → Exec ApprovalRequest
decide engine true = approve engine
decide engine false = reject engine

-- the new requests on the way have other ids
abbrev pub Fresh : {engine : Option WorkerEngine} {u v : World} → ℕ → Step engine u v → Type 0
Fresh {u = u} id (Step.requested task_id kind title description payload e) = u.env.uuid u.calls ≢ id
Fresh id _ = Unit

abbrev pub Avoids : {engine : Option WorkerEngine} {u w : World} → ℕ → Reach engine u w → Type 0
Avoids id (done _) = Unit
Avoids id (next step rest) = Fresh id step × Avoids id rest

module _ (engine : Option WorkerEngine) (lawful : Lawful engine) (id : ℕ) where
  reply-Settled :
      (task_id : ℕ) (content : String)
      → Holds (Settled id) (dispatcher engine (λ e. e.handle_user_reply task_id content))
  reply-Settled task_id content w h = rw (reply_keeps_approvals engine lawful task_id content w) h

  step-Settled :
      (u v : World) (s : Step engine u v) → Fresh id s → Settled id u.db → Settled id v.db
  step-Settled u v (Step.created user_id prompt context_id title e) fresh h = rw e (
      create_task-Holds (Settled id) engine lawful (append_event-Settled id) (λ db ts ms h. h)
        user_id prompt context_id title u h)
  step-Settled u v (Step.cancelled user_id task_id e) fresh h = rw e (
      cancel_task-Holds (Settled id) engine lawful (append_event-Settled id) (λ db ts ms h. h)
        user_id task_id u h)
  step-Settled u v (Step.replied user_id task_id content e) fresh h = rw e (
      add_reply-Holds (Settled id) engine lawful (append_event-Settled id) (λ db i now ms h. h)
        reply-Settled user_id task_id content u h)
  step-Settled u v (Step.approved user_id approval_id note e) fresh h = rw e (
      approve-Holds (Settled id) engine lawful (append_event-Settled id) (resolve-Settled id)
        user_id approval_id note u h)
  step-Settled u v (Step.rejected user_id approval_id note e) fresh h = rw e (
      reject-Holds (Settled id) engine lawful (append_event-Settled id) (resolve-Settled id) user_id
        approval_id note u h)
  step-Settled u v (Step.moved task_id status phase error summary e) fresh h = rw e (
      transition-Holds (Settled id) engine lawful (append_event-Settled id) (λ db ts ms h. h)
        task_id status phase error summary u h)
  step-Settled u v (Step.requested task_id kind title description payload e) fresh h =
      rw e (request-Settled id task_id kind title description payload u fresh h)
  step-Settled u v (Step.logged task_id kind payload e) fresh h =
      rw e (append_event-Settled id task_id kind payload u h)
  step-Settled u v (Step.answered task_id text e) fresh h = rw e (
      message-Holds (Settled id) engine lawful (append_event-Settled id) (λ db ts ms h. h) task_id
        text u h)

  Reach-Settled :
      (u w : World) (p : Reach engine u w) → Avoids id p → Settled id u.db → Settled id w.db
  Reach-Settled u w (done _) avoids h = h
  Reach-Settled u w (next {v = v} step rest) avoids h =
      Reach-Settled v w rest avoids.1 (step-Settled u v step avoids.0 h)

  module _ (user_id : ℕ) (note : Option String) (w : World) (keyed : Keyed w.db)
      (status : ApprovalStatus) (final : is_pending status ≡ false) where
    resolve_settles :
        (b : ApprovalRequest)
        → (resolve user_id id status note w).0 ≡ ok b
        → Settled id (resolve user_id id status note w).1.db
    resolve_settles b returns = elim (resolve_outcome user_id id status note w keyed) [
      | inl (e, refused) ↦ absurd (ground (arith, refused))
      | inr (a, t, found, o, same) ↦
          let (a', _, is, _, rows, _, _) =
            resolve_effect user_id id status note w keyed a t found o in
          count_rows-IsKeyed (λ (x : ApprovalRequest). x.id) (λ x. is_pending x.status) id _ a'
            (rw same (
              rw (write_approvals a status note w) (
                set_row-IsKeyed (λ (x : ApprovalRequest). x.id) a.id
                  (resolved status (w.env.now w.calls) note) w.db.approvals (λ x. refl) keyed)))
            (rows id ∙ rw (==_self id) refl) (rw is final)
    ]

  decide-refuses :
      (c : Bool) (user_id : ℕ) (remark : Option String) (w : World)
      → Settled id w.db
      → (e : Error) × (decide engine c user_id id remark w ≡ (err e, w))
  unfolding approve reject
  decide-refuses true user_id remark w h =
      let (e, refused) = resolve-refuses id user_id ApprovalStatus.approved remark w h in
      (e, rw refused refl)
  decide-refuses false user_id remark w h =
      let (e, refused) = resolve-refuses id user_id ApprovalStatus.rejected remark w h in
      (e, rw refused refl)

  module _ (user_id : ℕ) (remark : Option String) (w : World) (keyed : Keyed w.db) where
    decide_settles :
        (b : Bool) (a : ApprovalRequest)
        → (decide engine b user_id id remark w).0 ≡ ok a
        → Settled id (decide engine b user_id id remark w).1.db
    unfolding approve reject
    decide_settles true a returns =
        let status = ApprovalStatus.approved in
        elim (Result-cases (resolve user_id id status remark w).0) [
          | inl (a', stored) ↦ rw stored (
              announce_approval-Holds (Settled id) engine lawful (append_event-Settled id) remark a'
                _ (resolve_settles user_id remark w keyed status refl a' stored))
          | inr (e, refused) ↦ absurd (cc (rw refused at returns))
        ]
    decide_settles false a returns =
        let status = ApprovalStatus.rejected in
        elim (Result-cases (resolve user_id id status remark w).0) [
          | inl (a', stored) ↦ rw stored (
              announce_rejection-Holds (Settled id) engine lawful (append_event-Settled id) remark
                a' _ (resolve_settles user_id remark w keyed status refl a' stored))
          | inr (e, refused) ↦ absurd (cc (rw refused at returns))
        ]

    -- A request is decided at most once: after a call of `approve` or `reject` that succeeded, and after
    -- whatever sequence of calls follows it (those of `Step`, in which no new request is given the same
    -- id), every further call of `approve` or `reject` for it, by whomever, raises and changes nothing.
    pub decided_once :
        (b : Bool) (a : ApprovalRequest)
        → (decide engine b user_id id remark w).0 ≡ ok a
        → (w' : World) (p : Reach engine (decide engine b user_id id remark w).1 w') → Avoids id p
        → (c : Bool) (u : ℕ) (text : Option String)
        → (e : Error) × (decide engine c u id text w' ≡ (err e, w'))
    decided_once b a returns w' p avoids c u text = decide-refuses c u text w' (
        Reach-Settled (decide engine b user_id id remark w).1 w' p avoids
          (decide_settles b a returns))
