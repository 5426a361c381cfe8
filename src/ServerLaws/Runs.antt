-- ===== src/ServerLaws/Runs.antt =====
-- The loop over the requests (run of internal/server/server.go): what every request keeps, every
-- sequence of requests keeps that the process survives.
use mathlib.Core.Option.{some-injective}
use sg_emulator.Base.{◌≡◌, refl, subst, Option, none, some, List, [], ◌∷◌, All}
use sg_emulator.Base.Action.{Result, ok, err, panic}
use sg_emulator.Errors.{Error}
use sg_emulator.App.{App}
use sg_emulator.Server.{
  Request, Response, Environment, Draw, handle_request, survive, and_then, run,
}
use sg_emulator.AppLaws.Preserves.{Preserves}

module _ (I : App → Type 0) where
  survive-Kept :
      (r : Result Error Response × App) (app : App) → I r.1 → survive r ≡ some app → I app
  survive-Kept (ok u, a) app h e = subst I (some-injective _ _ e) h
  survive-Kept (err x, a) app h e = subst I (some-injective _ _ e) h
  survive-Kept (panic, a) app h e = cc

  and_then-Kept :
      (o : Option App) (f : App → Option App) (app' : App)
      → ((a : App) → o ≡ some a → I a)
      → ((a : App) → I a → f a ≡ some app' → I app')
      → and_then o f ≡ some app'
      → I app'
  and_then-Kept none f app' h keep e = cc
  and_then-Kept (some a) f app' h keep e = keep a (h a refl) e

  pub run-Kept :
      (Q : Request → Type 0) (env : Environment)
      → ((draw : Draw) (r : Request) → Q r → Preserves I (handle_request env draw r))
      → (rs : List (Draw × Request)) (app app' : App) → All (λ p. Q p.1) rs
      → I app
      → run env rs app ≡ some app'
      → I app'
  unfolding run
  run-Kept Q env keep [] app app' q h e = subst I (some-injective _ _ e) h
  run-Kept Q env keep ((draw, r) ∷ rest) app app' q h e =
      and_then-Kept (survive (handle_request env draw r app)) (run env rest) app'
        (λ a. survive-Kept (handle_request env draw r app) a ((keep draw r q.0).apply app h))
        (λ a. run-Kept Q env keep rest a app' q.1) e
