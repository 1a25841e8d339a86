-- ===== src/Managed/Reconnects.antt =====
-- How often the stream of a session is opened again.
use mathlib.Core.Path.{subst}
use phodex.Base.{
  ℕ, suc, ◌+◌, ◌≤◌, ◌≡◌, refl, Bool, true, false, not, List, [], ◌∷◌, arith, ltb, ◌⊎◌, inl, inr,
  String, some,
}
use phodex.Json.{Fields}
use phodex.World.{World, Exec, ok, pure, user_message, ◌>>◌}
use phodex.World.Yields.{Post, Yields, bind-Yields, Post-map}
use phodex.Orchestrator.Jobs.{Wake}
use phodex.Events.{append_event}
use phodex.Managed.Client.{Managed, LiveSession, send, fail, interrupt_session}
use phodex.Managed.Events.{Handled, next, finished, asks, handle_event, after_wait}
use phodex.Managed.Seen.{if_Yields}
use phodex.Managed.Run.{Driver, Point, streaming, ended, waiting, opening, start_run}
use phodex.Managed.Drive.{
  moved, ending, replay, Input, opened, closed, deadline, not_opened, event, woken, history,
  on_opened, on_not_opened, on_closed, on_deadline, on_event, on_woken, drive_step,
}
use phodex.Managed.Starts.{Starts, start_run-Starts}
use phodex.Managed.Replay.{Leads, here, then_step}

-- whether the input is the end of an open stream
abbrev pub closing : Point → Input → ℕ
closing streaming closed = 1
closing _ _ = 0

abbrev Same : Driver → Driver → Type 0
Same d d' = d'.reconnects ≡ d.reconnects

abbrev Closed : Driver → Driver → Type 0
Closed d d' =
    ((d'.reconnects ≡ suc d.reconnects) × (d'.reconnects ≤ 3)) ⊎ ((d'.point ≡ ended) × Same d d')

abbrev Steps : ℕ → Driver → Driver → Type 0
Steps n d d' = ((n ≡ 0) × Same d d') ⊎ ((n ≡ 1) × Closed d d')

-- after n ends of the stream
abbrev Counted : ℕ → Driver → Type 0
Counted n d = (d.reconnects ≤ 3) × ((n ≤ d.reconnects) ⊎ ((d.point ≡ ended) × (n ≤ 4)))

Counted-same : (n c : ℕ) (d d' : Driver) → Counted n d → d' ≡ d → c ≡ 0 → Counted (c + n) d'
Counted-same n c d d' (few, inl upto) same zero = rw same (few, inl (omega arith))
Counted-same n c d d' (few, inr (over, upto)) same zero = rw same (few, inr (over, omega arith))

Counted-step :
    (n c : ℕ) (d d' : Driver)
    → d.reconnects ≤ 3
    → n ≤ d.reconnects
    → Steps c d d'
    → Counted (c + n) d'
Counted-step n c d d' few upto (inl (zero, same)) = (omega arith, inl (omega arith))
Counted-step n c d d' few upto (inr (one, inl (more, bound))) = (bound, inl (omega arith))
Counted-step n c d d' few upto (inr (one, inr (over, same))) =
    (omega arith, inr (over, omega arith))

module _ (m : Managed) (task_id ref : ℕ) where
  abbrev SameBy : Driver → Exec Driver → Type 0
  SameBy d action = Yields (Same d) action

  moved_on :
      (d : Driver) (es : List Fields) (h : Handled)
      → ((live : LiveSession) → SameBy d (replay m task_id ref (record d { live = live }) es))
      → SameBy d (elim h [
        | next live ↦ replay m task_id ref (record d { live = live }) es
        | finished ↦ pure (ending d)
        | asks live ↦ pure (moved d es (asks live))
      ])
  moved_on d es (next live) ih = ih live
  moved_on d es finished ih = λ w. refl
  moved_on d es (asks live) ih = λ w. refl

  replay-Same : (es : List Fields) (d : Driver) → SameBy d (replay m task_id ref d es)
  unfolding replay
  replay-Same [] d = λ w. refl
  replay-Same (e ∷ es) d =
      bind-Yields (Same d) (handle_event m task_id ref d.live e) _
        (λ h. moved_on d es h (λ live. replay-Same es (record d { live = live })))

  moved-Same : (d : Driver) (h : Handled) → Same d (moved d [] h)
  moved-Same d (next live) = refl
  moved-Same d finished = refl
  moved-Same d (asks live) = refl

  on_event-Same : (d : Driver) (e : Fields) → SameBy d (on_event m task_id ref d e)
  unfolding on_event
  on_event-Same d e =
      bind-Yields (Same d) (handle_event m task_id ref d.live e) (λ h. pure (moved d [] h))
        (λ h w. moved-Same d h)

  on_woken-Same :
      (d : Driver) (rest : List Fields) (wake : Wake)
      → SameBy d (on_woken m task_id ref d rest wake)
  unfolding on_woken
  on_woken-Same d rest wake =
      bind-Yields (Same d) (after_wait m task_id ref d.live wake) _
        (λ h. moved_on d rest h (λ live. replay-Same rest (record d { live = live })))

  then_pure :
      {A : Type 0} (P : Driver → Type 0) (d : Driver) (action : Exec A)
      → P d
      → Yields P (action >> pure d)
  then_pure P d action h = bind-Yields P action (λ _. pure d) (λ _ w. h)

  on_opened-Same : (d : Driver) → SameBy d (on_opened m task_id ref d)
  unfolding on_opened
  on_opened-Same d =
      if_Yields (Same d) (not d.first_message_sent) _ _
        (then_pure (Same d) (record d { first_message_sent = true; point = streaming })
          (send m d.live.api_key d.live.session_id (user_message d.prompt)) refl)
        (bind-Yields (Same d) (history m task_id ref d.live) _ (λ events. replay-Same events d))

  on_not_opened-Same : (d : Driver) (e : String) → SameBy d (on_not_opened m task_id ref d e)
  unfolding on_not_opened
  on_not_opened-Same d e = then_pure (Same d) (ending d) (fail task_id _ _ _ true) refl

  on_deadline-Same : (d : Driver) → SameBy d (on_deadline m task_id ref d)
  unfolding on_deadline
  on_deadline-Same d =
      bind-Yields (Same d) (interrupt_session m task_id) _
        (λ _. then_pure (Same d) (ending d) (fail task_id _ _ _ true) refl)

  Closed-cases :
      (d : Driver) (attempt : String) (b : Bool)
      → ltb 3 (suc d.reconnects) ≡ b
      → Yields (Closed d) (on_closed m task_id ref d attempt)
  unfolding on_closed
  Closed-cases d attempt true far =
      rw far (then_pure (Closed d) (ending d) (fail task_id _ _ _ true) (inr (refl, refl)))
  Closed-cases d attempt false far = rw far (
      then_pure (Closed d) (record d { reconnects = suc d.reconnects; point = opening })
        (append_event task_id "task.log" _) (inl (refl, ground arith)))

  as_same : (d : Driver) (action : Exec Driver) → SameBy d action → Yields (Steps 0 d) action
  as_same d action same w =
      Post-map (Same d) (Steps 0 d) (λ d' h. inl (refl, h)) (action w).0 (same w)

  drive_step-Steps :
      (d : Driver) (p : Point) (i : Input)
      → Yields (Steps (closing p i) d) (drive_step m task_id ref d p i)
  unfolding drive_step
  drive_step-Steps d opening opened = as_same d (on_opened m task_id ref d) (on_opened-Same d)
  drive_step-Steps d opening (not_opened e) =
      as_same d (on_not_opened m task_id ref d e) (on_not_opened-Same d e)
  drive_step-Steps d streaming (event e) =
      as_same d (on_event m task_id ref d e) (on_event-Same d e)
  drive_step-Steps d streaming deadline =
      as_same d (on_deadline m task_id ref d) (on_deadline-Same d)
  drive_step-Steps d (waiting rest) (woken wake) =
      as_same d (on_woken m task_id ref d rest wake) (on_woken-Same d rest wake)
  drive_step-Steps d streaming closed = λ w.
      Post-map (Closed d) (Steps 1 d) (λ d' h. inr (refl, h)) (on_closed m task_id ref d _ w).0
        (Closed-cases d _ (ltb 3 (suc d.reconnects)) refl w)
  drive_step-Steps d _ _ = λ w. inl (refl, refl)

  -- behind `return` nothing comes
  ended_stays :
      (d : Driver) (p : Point) (i : Input)
      → p ≡ ended
      → (closing p i ≡ 0) × Yields (λ d'. d' ≡ d) (drive_step m task_id ref d p i)
  unfolding drive_step
  ended_stays d p i h = rw h (refl, λ w. refl)

  -- how often an open stream has ended on the way
  abbrev pub closings : {d d' : Driver} → Leads m task_id ref d d' → ℕ
  closings here = 0
  closings (then_step {d1} i w w' before step) = closing d1.point i + closings before

  step-Counted :
      (n : ℕ) (d : Driver) (i : Input) (w : World)
      → Counted n d
      → Post (Counted (closing d.point i + n)) (drive_step m task_id ref d d.point i w).0
  step-Counted n d i w (few, inl upto) =
      let c = closing d.point i in
      Post-map (Steps c d) (Counted (c + n)) (λ d' s. Counted-step n c d d' few upto s)
        (drive_step m task_id ref d d.point i w).0 (drive_step-Steps d d.point i w)
  step-Counted n d i w (few, inr (over, upto)) =
      let c = closing d.point i in
      let (zero, stays) = ended_stays d d.point i over in
      Post-map (λ d'. d' ≡ d) (Counted (c + n))
        (λ d' same. Counted-same n c d d' (few, inr (over, upto)) same zero)
        (drive_step m task_id ref d d.point i w).0 (stays w)

  closings-Counted :
      {d d' : Driver} (p : Leads m task_id ref d d') → d.reconnects ≡ 0 → Counted (closings p) d'
  closings-Counted here none_yet = (omega arith, inl (omega arith))
  closings-Counted (then_step {d1} {d2} i w w' before step) none_yet =
      subst (λ r. Post (Counted (closing d1.point i + closings before)) r.0) step
        (step-Counted (closings before) d1 i w (closings-Counted before none_yet))

  -- A run does not open its stream for ever: when a start has led to a driver, then whatever comes,
  -- the stream ends at most four times, and when it has ended for the fourth time, the run is over.
  pub closings_bound :
      (prompt : String) (w w1 : World) (d d' : Driver)
      → start_run m task_id prompt w ≡ (ok (some d), w1)
      → (p : Leads m task_id ref d d') → (closings p ≤ 4) × (closings p ≡ 4 → d'.point ≡ ended)
  closings_bound prompt w w1 d d' starts p =
      let fresh : Post Starts (ok (some d)) =
        subst (λ r. Post Starts r.0) starts (start_run-Starts m task_id prompt w) in
      let (few, on) = closings-Counted p fresh in
      elim on [
        | inl upto ↦ (omega arith, λ h. absurd (omega arith))
        | inr (over, upto) ↦ (upto, λ h. over)
      ]
