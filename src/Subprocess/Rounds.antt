-- ===== src/Subprocess/Rounds.antt =====
-- What every line that reaches the callback does to the world, the whole output does.
use phodex.Base.{String, List, [], ◌∷◌, strip, Bool-cases, inl, inr}
use phodex.World.{World}
use phodex.Subprocess.{Source, Output, Streams, OnLine, is_heard, after_line, consume_line, consume}

module _ (on_line : OnLine) (R : World → World → Type 0) (R-refl : (w : World) → R w w)
    (R-trans : (u v w : World) → R u v → R v w → R u w)
    (step : (line : String) (source : Source) (w : World) → R w (on_line line source w).1) where
  consume_line_rounds : (s : Streams) (o : Output) (w : World) → R w (consume_line on_line s o w).1
  unfolding consume_line
  consume_line_rounds s o w = elim (Bool-cases (is_heard s o)) [
    | inl heard ↦ rw heard (step (strip o.text) o.source w)
    | inr unheard ↦ rw unheard (R-refl w)
  ]

  pub consume_rounds : (os : List Output) (s : Streams) (w : World) → R w (consume on_line s os w)
  unfolding consume
  consume_rounds [] s w = R-refl w
  consume_rounds (o ∷ os) s w =
      let (r, w') = consume_line on_line s o w in
      R-trans w w' _ (consume_line_rounds s o w) (consume_rounds os (after_line o.source r s) w')
