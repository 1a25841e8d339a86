-- ===== src/Managed/Client.antt =====
-- The session of backend/workers/managed/session_runner.py: the texts it makes of events, what it sends, and
-- how it ends a task. The API and its SDK are parameters. A session event is an object of JSON values, as
-- `_get` sees it.
use phodex.Base.{
  ℕ, suc, String, Bool, true, false, Option, none, some, List, [], ◌∷◌, ◌++◌, ◌==◌, if◌then◌else◌,
  str_eq, is_empty, strip, join, concat, take_text, first_row,
}
use phodex.Json.{Json, Items, Fields, null, str, bool, arr, obj, nil, cons, end, field, get_field}
use phodex.World.{
  World, LiveEntry, SessionInput, user_message, interrupt, session_input, Result, ok, err,
  runtime_error, cancelled_error, Exec, attempt, pure, raise, gets, ◌>>=◌, ◌>>◌,
}
use phodex.Events.{append_event}
use phodex.AiSettings.{Secrets}
use phodex.Runners.{fail_task, complete_task}

-- the arguments of `sessions.create` that differ from task to task
pub record SessionRequest : Type 0 where
  pub agent : String
  pub environment_id : String
  pub task_id : ℕ
  pub url : String
  pub authorization_token : String
  pub branch : Option String

-- The settings and collaborators of ManagedSessionRunner. The API is asked at a world, with the key of
-- the client: it creates a session and returns its id, takes an event, and lists the events so far.
-- `json_str` and `dumps` are Python's `str` and `json.dumps` of a value.
pub record Managed : Type 0 where
  pub agent_id : Option String
  pub environment_id : Option String
  pub risk_level : String
  pub github_default_token : Option String
  pub secrets : Secrets
  pub create : World → Option String → SessionRequest → Result String
  pub accept : World → Option String → String → SessionInput → Result (Unit {0})
  pub list : World → Option String → String → Result (List Fields)
  pub json_str : Json → String
  pub dumps : Json → String

-- `LiveSession`, but for the client, which is known by its key
pub record LiveSession : Type 0 where
  pub session_id : String
  pub api_key : Option String
  pub pending_tool : Option Fields
  pub seen_event_ids : List String
  pub completed : Bool

abbrev pub is_in : String → List String → Bool
is_in s [] = false
is_in s (t ∷ ts) = let more = is_in s ts in if str_eq t s then true else more

-- `v in texts` for a set of texts: a list or a dict has no hash
abbrev pub in_set : Json → List String → Result Bool
in_set (str s) ts = ok (is_in s ts)
in_set (arr vs) ts = err (runtime_error "unhashable type: 'list'")
in_set (obj fs) ts = err (runtime_error "unhashable type: 'dict'")
in_set v ts = ok false

module _ (m : Managed) where
  -- `str(v)`
  abbrev pub shown : Json → String
  shown (str s) = s
  shown v = m.json_str v

  -- `str(_get(obj, name, default))`
  abbrev pub text_field : String → String → Fields → String
  text_field name default d = elim (get_field name d) [ none ↦ default | some v ↦ shown v ]

  -- the text of a block of type text
  abbrev pub block_text : Json → String
  block_text (obj block) = elim (get_field "type" block) [
    | none ↦ ""
    | some v ↦ elim v [
      | str s ↦ if str_eq s "text" then text_field "text" "" block else ""
      | _ ↦ ""
    ]
  ]
  block_text _ = ""

  -- the parts that are not empty
  abbrev pub parts : Items → List String
  parts nil = []
  parts (cons v vs) =
      let rest = parts vs in if is_empty (block_text v) then rest else block_text v ∷ rest

  -- _text_of: a content that is none of the kinds of the API has no text
  unfoldable pub text_of : Option Json → String
  text_of none = ""
  text_of (some (str s)) = s
  text_of (some (arr vs)) = strip (join "\n" (parts vs))
  text_of (some v) = ""

  abbrev pub preview : String → String
  preview text =
      if str_eq (take_text 600 text) text then text else concat (take_text 600 text ∷ "…" ∷ [])

  -- _summarize_input
  unfoldable pub summarize_input : Option Json → String
  summarize_input none = preview (m.dumps null)
  summarize_input (some (str s)) = preview s
  summarize_input (some v) = preview (m.dumps v)

  -- the world behind the call of the API
  abbrev pub delivered :
      String → SessionInput → World → Result (Unit {0}) → Result (Unit {0}) × World
  delivered session_id event w (ok _) = (
    ok tt,
    record w { effects = w.effects ++ session_input session_id event ∷ []; calls = suc w.calls },
  )
  delivered session_id event w (err e) = (err e, record w { calls = suc w.calls })

  -- ManagedSessionRunner._send
  unfoldable pub send : Option String → String → SessionInput → Exec (Unit {0})
  send api_key session_id event w =
      delivered session_id event w (m.accept w api_key session_id event)

  -- `self._live.get(task_id)`
  abbrev pub live_of : ℕ → World → Option LiveEntry
  live_of task_id w = first_row (λ e. e.task_id == task_id) w.live

  -- the `except` of `interrupt`
  unfoldable pub ignore : Result (Unit {0}) → Exec (Unit {0})
  ignore (ok _) = pure tt
  ignore (err cancelled_error) = raise cancelled_error
  ignore (err e) = pure tt

  unfoldable pub interrupt_live : Option LiveEntry → Exec (Unit {0})
  unfolding ignore
  interrupt_live none = pure tt
  interrupt_live (some live) = attempt (send live.api_key live.session_id interrupt) ignore

  -- ManagedSessionRunner.interrupt
  unfoldable pub interrupt_session : ℕ → Exec (Unit {0})
  unfolding interrupt_live
  interrupt_session task_id = do live ← gets (live_of task_id); interrupt_live live

  unfoldable pub forward : ℕ → String → Option LiveEntry → Exec Bool
  forward task_id content none = pure false
  forward task_id content (some live) = do
    send live.api_key live.session_id (user_message content)
    append_event task_id "task.log"
        (field "message" (str "Forwarded follow-up to the managed session") end)
    pure true

  -- ManagedSessionRunner.send_user_message
  unfoldable pub send_user_message : ℕ → String → Exec Bool
  unfolding forward
  send_user_message task_id content = do live ← gets (live_of task_id); forward task_id content live

-- ManagedSessionRunner._fail
unfoldable pub fail : ℕ → (phase message code : String) → (retryable : Bool) → Exec (Unit {0})
fail task_id phase message code retryable = fail_task task_id phase message none (
    field "message" (str message)
      (field "error_code" (str code) (field "is_retryable" (bool retryable) end)))

-- ManagedSessionRunner._complete with the summary
unfoldable pub complete : ℕ → String → Exec (Unit {0})
complete task_id summary =
    complete_task task_id summary
      (field "message" (str "Task completed") (field "summary" (str summary) end))
