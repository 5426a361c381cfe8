-- ===== src/ServerLaws/History.antt =====
-- The server (internal/server/server.go) keeps the structural invariant of the application, over
-- every sequence of requests.
use sg_emulator.Base.{◌≡◌, some, List}
use sg_emulator.Base.Dict.{lookup}
use sg_emulator.App.{App, new_app}
use sg_emulator.Server.{Request, Environment, Draw, run}
use sg_emulator.AppLaws.Sound.{AllSound, IsSound-AccountInvariant}
use sg_emulator.AppLaws.Keyed.{TokensKeyed, AllKeyed, TokensKeyed-AccountInvariant}
use sg_emulator.ServerLaws.Invariant.{run-Everywhere}
use sg_emulator.AccountLaws.Soundness.{IsSound}

-- From a sound application, after any sequence of requests that the process survives, every account
-- stands under its own identifier, its count of outgoing transactions fits a uint64, and its
-- blockchain is well formed: the head is the first block and the cached length is the number of
-- blocks.
pub run-AllSound :
    (env : Environment) (rs : List (Draw × Request)) (app app' : App)
    → AllSound app
    → run env rs app ≡ some app'
    → AllSound app'
run-AllSound = run-Everywhere IsSound IsSound-AccountInvariant

-- An application with no account is sound.
pub new_app-AllSound : AllSound new_app
unfolding new_app lookup
new_app-AllSound k a e = cc

-- After any sequence of requests that the process survives, every token that an account holds stands
-- under its own identifier, if it was so before. This is what the operations on tokens assume.
pub run-AllKeyed :
    (env : Environment) (rs : List (Draw × Request)) (app app' : App)
    → AllKeyed app
    → run env rs app ≡ some app'
    → AllKeyed app'
run-AllKeyed = run-Everywhere TokensKeyed TokensKeyed-AccountInvariant

-- An application with no account holds no token.
pub new_app-AllKeyed : AllKeyed new_app
unfolding new_app lookup
new_app-AllKeyed k a e = cc
