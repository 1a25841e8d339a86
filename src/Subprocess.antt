-- ===== src/Subprocess.antt =====
-- backend/workers/common/subprocess_io.py: a subprocess whose output goes line by line to a callback.
-- The operating system is a parameter: what a command prints, in the order in which its lines arrive,
-- whether it exits in time, and with what code. The lines are consumed before `wait` returns, so a
-- run is one step here.
pub mod Rounds
use phodex.Base.{
  ℕ, suc, String, Bool, true, false, ◌&&◌, not, Option, List, [], ◌∷◌, if◌then◌else◌, strip,
  is_empty,
}
use phodex.Json.{ℤ}
use phodex.World.{World, Result, ok, err, Exec, pure, ◌>>=◌, ◌>>◌}

pub data Source : Type 0 where
  stdout stderr : Source

abbrev pub source_name : Source → String
source_name stdout = "stdout"
source_name stderr = "stderr"

abbrev pub is_stderr : Source → Bool
is_stderr stdout = false
is_stderr stderr = true

-- a line as it was decoded
pub record Output : Type 0 where
  pub source : Source
  pub text : String

pub record Variable : Type 0 where
  pub name : String
  pub value : String

-- the arguments of `spawn` and of `wait`
pub record Command : Type 0 where
  pub args : List String
  pub cwd : Option String
  pub use_stdin : Bool
  pub env : Option (List Variable)
  pub timeout_seconds : ℕ

-- what a process that was started does
pub record Run : Type 0 where
  pub pid : ℕ
  pub lines : List Output
  pub in_time : Bool
  pub exit_code : ℤ

-- the operating system at a world: the run, or the exception of `create_subprocess_exec`
abbrev pub Host : Type 0
Host = Command → World → Result Run

abbrev pub OnLine : Type 0
OnLine = String → Source → Exec (Unit {0})

-- the streams that are read on; one ends when its callback raises
pub record Streams : Type 0 where
  pub out : Bool
  pub errors : Bool

abbrev is_open : Source → Streams → Bool
is_open stdout s = s.out
is_open stderr s = s.errors

abbrev pub after_line : Source → Result (Unit {0}) → Streams → Streams
after_line source (ok _) s = s
after_line stdout (err e) s = record s { out = false }
after_line stderr (err e) s = record s { errors = false }

-- the line reaches the callback
abbrev pub is_heard : Streams → Output → Bool
is_heard s o = is_open o.source s && not (is_empty (strip o.text))

-- one round of ManagedSubprocess._consume
unfoldable pub consume_line : OnLine → Streams → Output → World → Result (Unit {0}) × World
consume_line on_line s o w = if is_heard s o then on_line (strip o.text) o.source w else (ok tt, w)

-- ManagedSubprocess._consume of the two streams
unfoldable pub consume : OnLine → Streams → List Output → World → World
unfolding consume_line
consume on_line s [] w = w
consume on_line s (o ∷ os) w =
    let (r, w') = consume_line on_line s o w in consume on_line (after_line o.source r s) os w'

abbrev pub both : Streams
both = record { out = true; errors = true }

-- ManagedSubprocess.spawn
unfoldable pub spawn : Host → Command → Exec Run
spawn host command w = (host command w, record w { calls = suc w.calls })

-- ManagedSubprocess.wait: the exit code, and whether the timeout fired
unfoldable pub wait : OnLine → Run → Exec (ℤ × Bool)
unfolding consume
wait on_line run w = (ok (run.exit_code, not run.in_time), consume on_line both run.lines w)
