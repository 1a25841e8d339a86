-- ===== src/Push/Delivery.antt =====
-- What `notify_user` hands to Firebase, and who owns a token.
use mathlib.Core.List.{append_assoc, append-nil}
use phodex.Base.{ℕ, String, ◌≡◌, sym, List, [], ◌∷◌, ◌++◌, map, arith, if◌then◌else◌, ap}
use phodex.Json.{Fields}
use phodex.World.{World, Effect, push, ok}
use phodex.Push.{send_all, notify_user, tokens_of}

module _ (title body : String) (details : Fields) where
  abbrev pub pushes : List String → List Effect
  pushes tokens = map (λ token. push token title body details) tokens

  send_all_lem :
      (tokens : List String) (w : World)
      → send_all title body details tokens w
        ≡ (ok tt, record w { effects = w.effects ++ pushes tokens })
  unfolding send_all
  send_all_lem [] w =
      ap (λ (es : List Effect). (ok tt, record w { effects = es })) (sym (append-nil w.effects))
  send_all_lem (token ∷ tokens) w = rw (send_all_lem tokens) (rw append_assoc)

  -- The messages go to every token of the user when Firebase is configured and to nobody otherwise,
  -- and nothing else of the world changes.
  pub notify_user_lem :
      (user_id : ℕ) (w : World)
      → notify_user user_id title body details w ≡ (
        ok tt,
        record w {
          effects =
              w.effects ++ (if w.env.push_enabled then pushes (tokens_of user_id w.db) else []);
        },
      )
  unfolding notify_user
  notify_user_lem user_id w =
      ground (arith, send_all_lem (tokens_of user_id w.db) w, append-nil w.effects)
