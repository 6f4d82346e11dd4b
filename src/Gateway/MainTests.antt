-- ===== src/Gateway/MainTests.antt =====
-- The gateway's entry point in two environments.
use open_warehouse_agent.Gateway.State
use open_warehouse_agent.Gateway.State.{stopped}
use open_warehouse_agent.Gateway.Fake
use open_warehouse_agent.Gateway.Main.{fake, App, build_backend, main}
use open_warehouse_agent.Gateway.Main.Served.{Asked, main-Asked}
use open_warehouse_agent.Py.Env.{Env, required}
use open_warehouse_agent.Py.Str.{Str, str, str_eq}
use open_warehouse_agent.Py.Result.{Result, ok}
use open_warehouse_agent.Base.Int.{pos}
use open_warehouse_agent.Base.{ℕ, if◌then◌else◌, ◌≡◌, refl, Option, none, some}

-- Only the token is set.
abbrev only_token : Str → Env
only_token token name = if str_eq name (str "OWA_GATEWAY_TOKEN") then some token else none

abbrev float : Str → Result ℕ
float s = ok 0

abbrev client : Option Str → Result (Unit {0})
client region = ok tt

abbrev by_default : Str → App (Unit {0})
by_default token = record {
  controller = State.init (fake (Fake.init (str "http://localhost:11434/v1") 30)) 3000 2;
  token = token;
  host = str "127.0.0.1";
  port = pos 8000;
}

main-Asked_example :
    (only_token (str "s3cret") (str "OWA_GATEWAY_TOKEN") ≡ some (str "s3cret"))
    × ((by_default (str "s3cret")).controller.state ≡ stopped)
    × ((by_default (str "s3cret")).controller.last_activity ≡ none)
    × Asked float 10
        (λ s. s)
        client
        (only_token (str "s3cret"))
        (str "fake")
        (by_default (str "s3cret")).controller.backend
unfolding main build_backend required
main-Asked_example =
    main-Asked float 10 (λ s. s) client (only_token (str "s3cret")) (by_default (str "s3cret")) refl
