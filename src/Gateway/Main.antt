-- ===== src/Gateway/Main.antt =====
-- gateway/__main__.py: what the gateway serves, from the environment.
pub mod Served
use open_warehouse_agent.Gateway.State
use open_warehouse_agent.Gateway.State.{Controller}
use open_warehouse_agent.Gateway.Fake
use open_warehouse_agent.Gateway.Fake.{FakeGpuBackend}
use open_warehouse_agent.Gateway.Ec2
use open_warehouse_agent.Gateway.Ec2.{Ec2Backend}
use open_warehouse_agent.Py.Env.{Env, required}
use open_warehouse_agent.Py.Number.{int_or}
use open_warehouse_agent.Py.Str.{Str, str, str_eq}
use open_warehouse_agent.Py.Result.{value_error, Result, ok, err, ◌>>=◌}
use open_warehouse_agent.Base.Int.{ℤ, pos}
use open_warehouse_agent.Base.{ℕ, ◌*◌, ◌/◌, if◌then◌else◌, Option, none, some, ◌++◌, or_default}

-- A `ComputeBackend`, by its class.
pub data Backend (World : Type 0) : Type 0 where
  fake : FakeGpuBackend → Backend World
  ec2 : Ec2Backend World → Backend World

-- What `uvicorn.run` is given: the controller and the token of the app, the host and the port.
pub record App (World : Type 0) : Type 0 where
  pub controller : Controller (Backend World)
  pub token : Str
  pub host : Str
  pub port : ℤ

-- `float` reads a number of seconds, in ticks of which `second` are one second; `client` is
-- `boto3.client("ec2", ...)` of a region; `repr` is that of a text.
module _ (float : Str → Result ℕ) (second : ℕ) (repr : Str → Str) {World : Type 0}
    (client : Option Str → Result World) (env : Env) where
  -- `float(value)` of an optional text with a default.
  abbrev pub float_or : Option Str → ℕ → Result ℕ
  float_or none default = ok default
  float_or (some s) default = float s

  abbrev pub build_fake : Result (Backend World)
  build_fake = do
    boot_seconds ← float_or (env (str "OWA_FAKE_GPU_BOOT_SECONDS")) (3 * second)
    ok (
        fake (
          Fake.init
            (or_default (env (str "OWA_GATEWAY_BACKEND_BASE_URL"))
              (str "http://localhost:11434/v1"))
            boot_seconds))

  abbrev pub build_ec2 : Result (Backend World)
  build_ec2 = do
    instance_id ← required env (str "OWA_GPU_INSTANCE_ID")
    vllm_port ← int_or repr (env (str "OWA_VLLM_PORT")) (pos 8000)
    ec2_client ← client (env (str "OWA_AWS_REGION"))
    ok (ec2 (Ec2.init instance_id vllm_port ec2_client))

  unfoldable pub build_backend : Str → Result (Backend World)
  build_backend name =
      if str_eq name (str "fake")
      then build_fake
      else if str_eq name (str "ec2")
      then build_ec2
      else err (
          value_error
            (str "unknown OWA_GATEWAY_BACKEND " ++ repr name ++ str " — supported: fake, ec2"))

  -- Up to the call of `uvicorn.run`; the poll interval of the controller is its default of 0.2
  -- seconds.
  unfoldable pub main : Result (App World)
  main = do
    token ← required env (str "OWA_GATEWAY_TOKEN")
    idle_timeout_seconds ← float_or (env (str "OWA_GATEWAY_IDLE_TIMEOUT_SECONDS")) (300 * second)
    port ← int_or repr (env (str "OWA_GATEWAY_PORT")) (pos 8000)
    backend ← build_backend (or_default (env (str "OWA_GATEWAY_BACKEND")) (str "fake"))
    ok (record {
      controller = State.init backend idle_timeout_seconds (second / 5);
      token = token;
      host = or_default (env (str "OWA_GATEWAY_HOST")) (str "127.0.0.1");
      port = port;
    })
