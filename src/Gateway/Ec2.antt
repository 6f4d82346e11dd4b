-- ===== src/Gateway/Ec2.antt =====
-- gateway/ec2_backend.py: the box as an EC2 instance that runs vLLM.
pub mod Answer
pub mod Health
use open_warehouse_agent.Gateway.Ec2.Answer.{Instance, Description, first_instance, is_running}
use open_warehouse_agent.Gateway.Compute.{ComputeBackend}
use open_warehouse_agent.Py.Str.{Str, str, is_empty}
use open_warehouse_agent.Py.Json.{of_ℤ}
use open_warehouse_agent.Base.Int.{ℤ}
use open_warehouse_agent.Py.Result.{http_error, Result, ok, err}
use open_warehouse_agent.Py.Exec.{◌>>◌, ◌>>=◌, Exec, lift}
use open_warehouse_agent.Base.{ℕ, ◌==◌, if◌then◌else◌, Bool, false, none, some, List, [], ◌∷◌, ◌++◌}

-- The protocol `Ec2Client`, and the HTTP client's `get` of a URL, which gives a status code. The
-- `World` is what these talk to.
pub record Cloud : Type 1 where
  pub World : Type 0
  pub start_instances : List Str → Exec World (Unit {0})
  pub stop_instances : List Str → Exec World (Unit {0})
  pub describe_instances : List Str → Exec World Description
  pub get : Str → Exec World ℕ

-- `EC2Backend`, with the world that it talks to.
pub record Ec2Backend (World : Type 0) : Type 0 where
  pub instance_id : Str
  pub vllm_port : ℤ
  pub base_url : Str
  pub world : World

unfoldable pub init : {World : Type 0} → Str → ℤ → World → Ec2Backend World
init id port w = record { instance_id = id; vllm_port = port; base_url = []; world = w }

-- `f"http://{private_ip}:{self._vllm_port}"` and a path.
unfoldable pub vllm_url : ℤ → Str → Str → Str
vllm_url port ip path = str "http://" ++ ip ++ str ":" ++ of_ℤ port ++ path

-- The end of `_vllm_ready`: `except httpx.HTTPError` takes that class alone.
abbrev pub answered : Result ℕ → Result Bool
answered (ok status) = ok (status == 200)
answered (err (http_error m)) = ok false
answered (err e) = err e

module _ (C : Cloud) where
  abbrev on_world : {A : Type 0} → Exec C.World A → Exec (Ec2Backend C.World) A
  on_world m b = let (r, w) = m b.world in (r, record b { world = w })

  abbrev set_base_url : Str → Exec (Ec2Backend C.World) (Unit {0})
  set_base_url url b = (ok tt, record b { base_url = url })

  unfoldable pub start : ℕ → Exec (Ec2Backend C.World) (Unit {0})
  start now b = on_world (C.start_instances (b.instance_id ∷ [])) b

  unfoldable pub stop : ℕ → Exec (Ec2Backend C.World) (Unit {0})
  stop now = do λ b. on_world (C.stop_instances (b.instance_id ∷ [])) b; set_base_url []

  -- `_describe_instance`
  unfoldable pub describe_instance : Exec (Ec2Backend C.World) Instance
  unfolding first_instance
  describe_instance = do
    response ← λ b. on_world (C.describe_instances (b.instance_id ∷ [])) b
    lift (first_instance response)

  -- `_vllm_ready`
  unfoldable pub vllm_ready : Str → Exec (Ec2Backend C.World) Bool
  vllm_ready ip b =
      let (r, b') = on_world (C.get (vllm_url b.vllm_port ip (str "/health"))) b in (answered r, b')

  -- `is_healthy` below its `try`.
  unfoldable pub check_instance : Instance → Exec (Ec2Backend C.World) Bool
  unfolding vllm_ready
  check_instance i b =
      if is_running i
      then elim i.private_ip_address [
        | none ↦ (ok false, b)
        | some ip ↦
            if is_empty ip
            then (ok false, b)
            else vllm_ready ip (record b { base_url = vllm_url b.vllm_port ip (str "/v1") })
      ]
      else (ok false, b)

  abbrev after_describe : Result Instance × Ec2Backend C.World → Result Bool × Ec2Backend C.World
  after_describe (err e, b) = (ok false, b)
  after_describe (ok i, b) = check_instance i b

  -- `is_healthy`: any exception of the first call reads as "not yet".
  unfoldable pub is_healthy : ℕ → Exec (Ec2Backend C.World) Bool
  unfolding check_instance
  is_healthy now b = after_describe (describe_instance b)

  -- The instance as a `ComputeBackend`.
  abbrev pub backend : ComputeBackend
  backend = record {
    Box = Ec2Backend C.World;
    base_url = λ b. b.base_url;
    start = start;
    stop = stop;
    is_healthy = is_healthy;
  }
