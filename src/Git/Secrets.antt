-- ===== src/Git/Secrets.antt =====
-- What the output of git shows of the token.
use phodex.Base.{
  ℕ, suc, String, ◌≡◌, refl, false, Option, List, [], ◌∷◌, is_empty, Bool-cases, Option-cases, inl,
  inr, if◌then◌else◌, contains, mask, IsStarless, mask-absent, contains-mask_none,
}
use phodex.Models.{TaskEvent}
use phodex.World.{Result-cases, World}
use phodex.Subprocess.{Source, Output, Streams, Run, Variable, consume, both, wait, spawn}
use phodex.Subprocess.Rounds.{consume_rounds}
use phodex.Events.Sequence.{append_event_returns}
use phodex.Events.Adds.{Adds, Adds-none, Adds-trans, append_event-Adds}
use phodex.Git.{Git, scrub, log_payload, log_line, run_git_streamed, command, command_error}

-- No secret occurs in the line. A secret is a text that is not empty; one with a `*` is left aside.
abbrev pub Absent : List String → String → Type 0
Absent [] line = Unit
Absent (s ∷ ss) line =
    (is_empty s ≡ false → IsStarless s → contains line s ≡ false) × Absent ss line

scrub-absent :
    (secrets : List String) (line p : String)
    → is_empty p ≡ false
    → IsStarless p
    → contains line p ≡ false
    → contains (scrub line secrets) p ≡ false
unfolding scrub
scrub-absent [] line p full starless h = h
scrub-absent (s ∷ ss) line p full starless h = elim (Bool-cases (is_empty s)) [
  | inl blank ↦ rw blank (scrub-absent ss line p full starless h)
  | inr some_text ↦ rw some_text (
      scrub-absent ss (mask s line) p full starless
        (contains-mask_none s line some_text p starless full h))
]

-- A line that was scrubbed contains none of the secrets.
pub scrub-Absent : (secrets : List String) (line : String) → Absent secrets (scrub line secrets)
unfolding scrub
scrub-Absent [] line = tt
scrub-Absent (s ∷ ss) line = (
  λ full starless.
      rw full (scrub-absent ss (mask s line) s full starless (mask-absent s line full starless)),
  scrub-Absent ss (if is_empty s then line else mask s line),
)

module _ (task_id : ℕ) (args secrets : List String) where
  -- the event is a line of the log of the task without a secret
  abbrev pub IsCleanLog : TaskEvent → Type 0
  IsCleanLog e =
      (line : String) × (source : Source) × (e.task_id ≡ task_id)
      × (e.event_type ≡ "git.log")
      × (e.payload_json ≡ log_payload args line source)
      × Absent secrets line

  log_line-Adds :
      (line : String) (source : Source) (w : World)
      → Adds IsCleanLog w (log_line task_id args secrets line source w).1
  unfolding log_line
  log_line-Adds line source w =
      let text = scrub line secrets in
      let payload = log_payload args text source in
      rw (append_event_returns task_id "git.log" payload w) (
        append_event-Adds IsCleanLog task_id "git.log" payload w
          (text, source, refl, refl, refl, scrub-Absent secrets line))

  consume-Adds :
      (os : List Output) (s : Streams) (w : World)
      → Adds IsCleanLog w (consume (log_line task_id args secrets) s os w)
  consume-Adds =
      consume_rounds (log_line task_id args secrets) (Adds IsCleanLog)
        (λ w. Adds-none IsCleanLog w w refl) (Adds-trans IsCleanLog) log_line-Adds

module _ (g : Git) (task_id : ℕ) (cwd : String) (args : List String) (env : Option (List Variable))
    (secrets : List String) (w : World) where
  logged :
      (run : Run)
      → Adds (IsCleanLog task_id args secrets) w (
          consume (log_line task_id args secrets) both run.lines (record w { calls = suc w.calls }))
  logged run =
      let P = IsCleanLog task_id args secrets in
      let spawned = record w { calls = suc w.calls } in
      Adds-trans P w spawned _ (Adds-none P w spawned refl)
        (consume-Adds task_id args secrets run.lines both spawned)

  -- Whatever git prints and however it ends, or does not even start, running it changes no table but
  -- that of the events, and each event that it adds is a line of the log of this task in which no
  -- secret occurs, provided that the secret is not empty and has no `*`.
  pub run_git_streamed-Adds :
      Adds (IsCleanLog task_id args secrets) w (run_git_streamed g task_id cwd args env secrets w).1
  unfolding run_git_streamed spawn wait
  run_git_streamed-Adds = elim (Result-cases (g.host (command cwd args env) w)) [
    | inl (run, started) ↦ rw started (elim (Option-cases (command_error g args secrets run)) [
      | inl fine ↦ rw fine (logged run)
      | inr (e, failed) ↦ rw failed (logged run)
    ])
    | inr (e, missing) ↦ rw missing (Adds-none _ w _ refl)
  ]
