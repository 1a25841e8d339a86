-- ===== src/Lib.antt =====
-- Phodex lets a phone start coding tasks on a machine and follow them. This library models its backend
-- (backend/app and backend/workers): tasks and their life cycle, the events that clients follow,
-- approvals, the engine that runs a task in a subprocess with its two runtimes, the fake engine, commits
-- and pushes with git, accounts with sessions and tokens, devices, repositories, the users' AI settings,
-- repositories that are cloned on the server, sessions that another host runs, push messages, and the parsers of what the runtimes print.
--
-- How the parts interact. A request creates a task (TaskService.create_task), which appends its first
-- event and dispatches it to the worker engine. The engine's job moves the task by transitions
-- (transition_for_worker), asks for an approval and waits. ApprovalService resolves the request, appends
-- events and tells the engine. Cancelling a task stops the job. Every event goes
-- to the table and to the subscribers, by Redis if there is one. A transition drops the cached usage of
-- the owner and sends push messages. When a task has left changes, GitService prepares a commit that the
-- user confirms, which commits and pushes, or discards.
--
-- The model. All state is in one record `World` (World/State): the tables, the subscribers, the usage
-- cache, the runtime states of the engine, and the effects that leave the program. An operation is a
-- function of the monad `Exec` (World/Actions), `World → Result A × World`, by do blocks in the order of
-- the source; a service exception is a value of `Error`. An operation runs from its call to its end with
-- no other in between: what two requests do to each other inside an operation is not modelled (the
-- source holds a row lock or an asyncio lock in append_event, _resolve, update_status and the engine,
-- and none in create_task, _issue_token and the git service). The one long wait, for an approval, is modelled as two
-- parts of the job, with the world free to change between them; a run of a runtime is a launch, the
-- lines of its output and a report, a job of the fake worker its parts between the sleeps, and a managed session a start and the steps of a driver
-- that is given what the stream, the clock and the wait bring. System
-- has sequences of the calls of several services. What comes
-- from outside (`Env`) answers the n-th question: the clock, new UUIDs,
-- whether Redis takes or has what it is asked for. UUIDs and times are numbers, and a UUID is made
-- text by `uuid_str`. A write to a key that is not there changes nothing.
--
-- Files and code:
--   Base, Base/Tests, Base/Table, Base/Counts, Base/Text, Base/Replace, Base/Affixes: shared names; tests on numbers; tables as lists
--     of rows with the queries and writes of backend/app/repositories; Python's text operations.
--   Json: JSON values.
--   Models, Models/Enums: backend/app/models.
--   World/State, World/Actions, World/Keeps, World/Yields: the state; the monad, with
--     backend/app/services/exceptions.py; what an action keeps; what it returns.
--   Events: backend/app/services/event_service.py, backend/app/repositories/event_repo.py.
--     Events/Sequence has the theorems, and Events/Adds what adds nothing but events.
--   Push: backend/app/services/push_service.py, backend/app/repositories/push_repo.py; Push/Delivery.
--   Worker: backend/workers/base.py, backend/app/services/worker_dispatcher.py: the interface of an engine,
--     with the contract `IsLawful` that the services rely on.
--   Tasks, Tasks/Repo, Tasks/Queries: backend/app/services/task_service.py,
--     backend/app/repositories/task_repo.py; Tasks/Transitions, Tasks/Creation, Tasks/Lifecycle,
--     Tasks/Cancellation.
--   Approvals: backend/app/services/approval_service.py, backend/app/repositories/approval_repo.py;
--     Approvals/Resolution, Approvals/Effects, Approvals/Request.
--   Orchestrator, Orchestrator/Runtime, Orchestrator/Jobs: backend/workers/common/orchestrator.py,
--     backend/workers/common/state.py; Orchestrator/Verdicts, Orchestrator/Contract,
--     Orchestrator/Launch, Orchestrator/Halt, Orchestrator/Dispatch.
--   Accounts: backend/app/services/account_service.py, backend/app/repositories/session_repo.py;
--     Accounts/Limits, Accounts/Revocation.
--   Auth: backend/app/services/auth_service.py, backend/app/core/security.py; Auth/Tokens, Auth/RoundTrip.
--   Devices: backend/app/services/device_service.py, backend/app/repositories/device_repo.py;
--     Devices/Ownership.
--   Repositories: parts of backend/app/services/repo_sync_service.py and
--     backend/app/repositories/repo_repo.py; Repositories/Selection.
--   Contexts: backend/workers/common/context.py; Contexts/Prompt.
--   Parsers/Claude, Parsers/Codex: backend/workers/claude/output_parser.py,
--     backend/workers/codex/output_parser.py.
--   AiSettings: backend/app/services/user_ai_settings_service.py, backend/app/core/crypto.py,
--     backend/app/repositories/user_ai_settings_repo.py; AiSettings/Keys.
--   Subprocess: backend/workers/common/subprocess_io.py; Subprocess/Rounds is its rule for the output.
--   Git: backend/app/services/git_service.py, backend/app/repositories/git_repo.py; Git/Secrets,
--     Git/Review, Git/Frame, Git/Confirmed, Git/Outcome, Git/Verdict, Git/Decision.
--   Runners, Runners/Codex, Runners/Claude: backend/workers/codex/process_runner.py,
--     backend/workers/claude/process_runner.py; Runners/Report, Runners/Tail.
--   FakeWorker: backend/workers/fake_worker.py; FakeWorker/Progress.
--   Cloud, Cloud/Url, Cloud/Setup, Cloud/Runner, Cloud/Commands:
--     backend/app/services/cloud_repo_service.py; Cloud/Quiet, Cloud/Hooks, Cloud/Access, Cloud/Single,
--     Cloud/Spelling.
--   Managed, Managed/Client, Managed/Events, Managed/Run, Managed/Drive: backend/workers/managed/session_runner.py,
--     backend/workers/managed/engine.py; Managed/Seen, Managed/Known, Managed/Replay, Managed/Starts, Managed/Reconnects,
--     Managed/Verdict, Managed/Contract, Managed/Outcome.
--   System: sequences of the calls of task_service.py, approval_service.py and event_service.py;
--     System/Frame, System/Numbering, System/Once.
--   Tests: concrete runs.
--
-- Bounds and fuel. Python's integers have no bound, and ℕ models those that are never negative. The one
-- search with fuel is the Codex parser's for a nested message; the depth of the payload is enough.
--
-- Parameters: the engine of the services, the process runner and the context builder of the
-- orchestrator, the libraries that sign tokens, hash passwords and parse UUIDs (`Crypto`), the hook that
-- prepares a directory, Fernet (`Secrets`), the operating system with what a command prints and how it
-- exits (`Host`), json.loads and shlex.split (`Machine`), the callbacks of the git service (`Git`), the
-- disk and the texts of paths (`Cloud`), the API of managed sessions with its SDK (`Managed`), Python's `\w` and `lower` (`Texts`), and its `str` of a JSON
-- value.
--
-- Hypotheses that stand for the database: a table with a primary key has no two rows with the same
-- key (`IsKeyed`). Auth/RoundTrip names what it takes from the libraries and from uuid4 (`IsFaithful`,
-- fresh UUIDs), Orchestrator/Dispatch that a new object is new, AiSettings/Keys what it takes from
-- Fernet (`IsSound`), Git/Frame that the callbacks leave operations and tasks alone (`IsQuiet`), and
-- Git/Verdict that git can be run, Managed/Verdict and Managed/Contract that the API takes what is sent,
-- System/Numbering that a reply that is passed to the engine keeps the events numbered (which Orchestrator/Contract
-- proves of the orchestrator), System/Once that new requests get ids of their own, and all of the library that a connected Redis
-- answers get, set and delete without an error; nothing else is assumed of what comes from outside.
--
-- Not modelled: the HTTP routes and schemas, the set-up of libraries, migrations and scripts, which
-- have no logic of their own or only pass calls on; the synchronisation of
-- repositories, which is left for later; an error of Redis in get, set or delete, which
-- the source does not catch (Redis answers, or has not what it is asked for; an error of publish is
-- modelled); a broken pipe to a runtime; the mobile client, which is another program.
pub mod Base
pub mod Json
pub mod Models
pub mod World
pub mod Events
pub mod Worker
pub mod Push
pub mod Tasks
pub mod Approvals
pub mod Orchestrator
pub mod Devices
pub mod Tests
pub mod Repositories
pub mod Contexts
pub mod Parsers
pub mod Accounts
pub mod Auth
pub mod Subprocess
pub mod Git
pub mod AiSettings
pub mod Runners
pub mod System
pub mod FakeWorker
pub mod Cloud
pub mod Managed
