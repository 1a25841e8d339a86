-- ===== src/Managed/Starts.antt =====
-- The driver with which a run of a managed session starts.
use phodex.Base.{ℕ, suc, ◌≡◌, true, false, arith, String, Option, none, some}
use phodex.World.{Exec, Result, ok, err, cancelled_error, pure, query, ◌>>=◌, ◌>>◌}
use phodex.World.Yields.{Yields, bind-Yields}
use phodex.Tasks.{get_user_id}
use phodex.Runners.{returned}
use phodex.AiSettings.{get_github_token, get_by_user_id}
use phodex.Managed.Client.{SessionRequest, Managed, fail}
use phodex.Managed.Run.{
  Driver, given, api_key_of, ask_session, load_repo, start_run, on_created, create_session,
  with_token, configured, with_repo,
}

-- a driver that is new
abbrev pub Starts : Option Driver → Type 0
Starts none = Unit
Starts (some d) = d.reconnects ≡ 0

module _ (m : Managed) (task_id : ℕ) where
  then_none : {A : Type 0} (action : Exec A) → Yields Starts (action >> pure none)
  then_none action = bind-Yields Starts action (λ _. pure none) (λ _ w. tt)

  on_created-Starts :
      (prompt url : String) (branch api_key : Option String) (r : Result String)
      → Yields Starts (on_created m task_id prompt url branch api_key r)
  unfolding on_created
  on_created-Starts prompt url branch api_key (err cancelled_error) = λ w. tt
  on_created-Starts prompt url branch api_key (err e) = then_none (fail task_id _ _ _ true)
  on_created-Starts prompt url branch api_key (ok session_id) = λ w. ground arith

  ask_session-Starts :
      (prompt : String) (request : SessionRequest) (branch api_key : Option String)
      → Yields Starts (ask_session m task_id prompt request branch api_key)
  unfolding ask_session
  ask_session-Starts prompt request branch api_key w =
      on_created-Starts prompt request.url branch api_key (m.create w api_key request)
        (record w { calls = suc w.calls })

  create_session-Starts :
      (prompt url agent environment_id token : String) (branch : Option String) (user_id : ℕ)
      → Yields Starts
          (create_session m task_id prompt url agent environment_id token branch user_id)
  unfolding create_session
  create_session-Starts prompt url agent environment_id token branch user_id =
      let request : SessionRequest = record {
        agent = agent;
        environment_id = environment_id;
        task_id = task_id;
        url = url;
        authorization_token = token;
        branch = given branch;
      } in
      let asked = λ (key : Option String). ask_session m task_id prompt request branch key in
      bind-Yields Starts (query (get_by_user_id user_id))
        (λ row. returned (api_key_of m task_id row) >>= asked)
        (λ row.
          bind-Yields Starts (returned (api_key_of m task_id row)) asked
            (λ key. ask_session-Starts prompt request branch key))

  with_token-Starts :
      (prompt url agent environment_id : String) (branch : Option String) (user_id : ℕ)
      (token : Option String)
      → Yields Starts (with_token m task_id prompt url agent environment_id branch user_id token)
  unfolding with_token
  with_token-Starts prompt url agent environment_id branch user_id none =
      then_none (fail task_id _ _ _ true)
  with_token-Starts prompt url agent environment_id branch user_id (some token) =
      create_session-Starts prompt url agent environment_id token branch user_id

  configured-Starts :
      (prompt url : String) (branch agent environment_id : Option String)
      → Yields Starts (configured m task_id prompt url branch agent environment_id)
  unfolding configured
  configured-Starts prompt url branch (some agent) (some environment_id) =
      bind-Yields Starts (get_user_id task_id) _ (λ user_id.
        bind-Yields Starts (λ w. (get_github_token m.secrets user_id w, w)) _
          (λ token. with_token-Starts prompt url agent environment_id branch user_id _))
  configured-Starts prompt url branch _ _ = then_none (fail task_id _ _ _ false)

  with_repo-Starts :
      (prompt : String) (repo : Option (String × Option String))
      → Yields Starts (with_repo m task_id prompt repo)
  unfolding with_repo
  with_repo-Starts prompt none = then_none (fail task_id _ _ _ false)
  with_repo-Starts prompt (some (url, branch)) = configured-Starts prompt url branch _ _

  pub start_run-Starts : (prompt : String) → Yields Starts (start_run m task_id prompt)
  unfolding start_run
  start_run-Starts prompt =
      bind-Yields Starts (query (load_repo task_id)) (with_repo m task_id prompt)
        (λ repo. with_repo-Starts prompt repo)
