-- ===== src/Approvals/Request.antt =====
-- What asking for an approval leaves alone.
use phodex.Base.{[], ◌∷◌, ◌++◌, ℕ, suc, String, ◌≡◌, refl, ◌∙◌, ap, Option, none, some}
use phodex.Json.{Fields, field, str, end}
use phodex.Models.{ApprovalStatus, ApprovalRequest, Task}
use phodex.World.{World, ok}
use phodex.Events.{append_event}
use phodex.Events.Sequence.{append_event_returns, append_event_stores}
use phodex.Push.Delivery.{notify_user_lem}
use phodex.Approvals.{create_approval_request, notify_owner, insert_approval, task_of}

pub notify_owner_lem :
    (o : Option Task) (a : ApprovalRequest) (w : World)
    → ((notify_owner o a w).0 ≡ ok tt) × ((notify_owner o a w).1.db ≡ w.db)
unfolding notify_owner
notify_owner_lem none a w = (refl, refl)
notify_owner_lem (some t) a w = (rw notify_user_lem refl, rw notify_user_lem refl)

module _ (task_id : ℕ) (kind title description : String) (payload : Fields) (w : World) where
  -- the request that is made
  abbrev pub new_request : ApprovalRequest
  new_request = record {
    id = w.env.uuid w.calls;
    task_id = task_id;
    kind = kind;
    title = title;
    description = description;
    payload_json = payload;
    status = ApprovalStatus.pending;
    created_at = w.env.now (suc w.calls);
    resolved_at = none;
  }

  pub request_lem :
      let (r, w') = create_approval_request task_id kind title description payload w in
      (r ≡ ok new_request) × (w'.db.tasks ≡ w.db.tasks)
  unfolding create_approval_request insert_approval
  request_lem =
      let w0 = (insert_approval task_id kind title description payload w).1 in
      let details = field "approval_id" (str (w.env.uuid_str new_request.id)) (
        field "kind" (str kind)
          (field "title" (str title) (field "description" (str description) end))) in
      let w1 = (append_event task_id "approval.requested" details w0).1 in
      let (told, kept) = notify_owner_lem (task_of new_request w0.db) new_request w1 in
      rw append_event_returns
        (rw told (refl, ap (λ db. db.tasks) kept ∙ rw append_event_stores refl))

  abbrev details : Fields
  details = field "approval_id" (str (w.env.uuid_str new_request.id)) (
      field "kind" (str kind)
        (field "title" (str title) (field "description" (str description) end)))

  -- the events after it are those after one that is appended to the old ones
  pub request_events :
      let w' = (create_approval_request task_id kind title description payload w).1 in
      (v : World) × (v.db.events ≡ w.db.events)
      × (w'.db.events ≡ (append_event task_id "approval.requested" details v).1.db.events)
  unfolding create_approval_request insert_approval
  request_events =
      let w0 = (insert_approval task_id kind title description payload w).1 in
      let w1 = (append_event task_id "approval.requested" details w0).1 in
      let (told, kept) = notify_owner_lem (task_of new_request w0.db) new_request w1 in
      (w0, refl, rw append_event_returns (rw told (ap (λ db. db.events) kept)))

  pub request_approvals :
      (create_approval_request task_id kind title description payload w).1.db.approvals
      ≡ w.db.approvals ++ new_request ∷ []
  unfolding create_approval_request insert_approval
  request_approvals =
      let w0 = (insert_approval task_id kind title description payload w).1 in
      let w1 = (append_event task_id "approval.requested" details w0).1 in
      let (told, kept) = notify_owner_lem (task_of new_request w0.db) new_request w1 in
      rw append_event_returns (rw told (ap (λ db. db.approvals) kept ∙ rw append_event_stores refl))
