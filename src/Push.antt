-- ===== src/Push.antt =====
-- backend/app/services/push_service.py and backend/app/repositories/push_repo.py. The POST to
-- Firebase is an effect; its exceptions are swallowed, so it has no other outcome.
pub mod Delivery
use phodex.Base.{
  ℕ, String, Bool, true, false, not, ◌&&◌, Option, none, some, List, [], ◌∷◌, ◌++◌, map, ◌==◌,
  str_eq, if◌then◌else◌, where_rows, first_row, update_rows,
}
use phodex.Json.{Fields}
use phodex.Models.{PushSubscription}
use phodex.World.{
  World, Db, push, Exec, pure, gets, query, commit, modify, emit, when, uuid4, ◌>>=◌, ◌>>◌,
}

-- PushRepository.get_by_token
abbrev pub get_by_token : String → Db → Option PushSubscription
get_by_token fcm_token db = first_row (λ s. str_eq s.fcm_token fcm_token) db.subscriptions

-- PushRepository.get_tokens_by_user
abbrev pub tokens_of : ℕ → Db → List String
tokens_of user_id db =
    map (λ s. s.fcm_token) (where_rows (λ s. s.user_id == user_id) db.subscriptions)

-- the assignments to the row that `get_by_token` found
reassign : String → ℕ → String → Exec (Unit {0})
reassign fcm_token user_id platform = commit (λ db. record db {
  subscriptions =
      update_rows (λ s. str_eq s.fcm_token fcm_token)
        (λ s. record s { user_id = user_id; platform = platform }) db.subscriptions;
})

-- PushRepository.register_token, reached with a token that has no row
insert_subscription : String → ℕ → String → Exec (Unit {0})
insert_subscription fcm_token user_id platform = do
  id ← uuid4
  commit (λ db. record db {
    subscriptions =
        db.subscriptions
        ++ record { id = id; user_id = user_id; fcm_token = fcm_token; platform = platform } ∷ [];
  })

store_token : Option PushSubscription → String → ℕ → String → Exec (Unit {0})
unfolding reassign insert_subscription
store_token (some s) fcm_token user_id platform = reassign fcm_token user_id platform
store_token none fcm_token user_id platform = insert_subscription fcm_token user_id platform

-- PushService.register_token
unfoldable pub register_token : ℕ → String → String → Exec (Unit {0})
unfolding store_token
register_token user_id fcm_token platform = do
  existing ← query (get_by_token fcm_token)
  store_token existing fcm_token user_id platform

-- PushService.unregister_token
unfoldable pub unregister_token : ℕ → String → Exec (Unit {0})
unregister_token user_id fcm_token = commit (λ db. record db {
  subscriptions =
      where_rows (λ s. not (str_eq s.fcm_token fcm_token && s.user_id == user_id)) db.subscriptions;
})

send_all : String → String → Fields → List String → Exec (Unit {0})
send_all title body details [] = pure tt
send_all title body details (token ∷ tokens) = do
  emit (push token title body details)
  send_all title body details tokens

-- PushService.notify_user
unfoldable pub notify_user : ℕ → String → String → Fields → Exec (Unit {0})
unfolding send_all
notify_user user_id title body details = do
  enabled ← gets (λ w. w.env.push_enabled)
  when enabled (do tokens ← query (tokens_of user_id); send_all title body details tokens)
