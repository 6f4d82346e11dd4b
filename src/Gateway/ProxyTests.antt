-- ===== src/Gateway/ProxyTests.antt =====
-- Runs of the proxy and of the EC2 backend at concrete inputs.
use open_warehouse_agent.Gateway.State.{
  stopped, run_idle_reaper, starting, ready, Controller, ensure_ready,
}
use open_warehouse_agent.Gateway.Fake.{FakeGpuBackend, is_healthy, backend}
use open_warehouse_agent.Gateway.Ec2
use open_warehouse_agent.Gateway.Ec2.{
  Cloud, Ec2Backend, vllm_url, describe_instance, check_instance,
}
use open_warehouse_agent.Gateway.Ec2.Answer.{Instance, is_running}
use open_warehouse_agent.Gateway.Ec2.Health.{IsServing, is_healthy-IsServing}
use open_warehouse_agent.Gateway.App.{
  Request, Upstream, App, require_bearer_token, compare_digest, forward, post_chat_completions,
}
use open_warehouse_agent.Gateway.Compute.{ComputeBackend}
use open_warehouse_agent.Gateway.App.Lifespan.{
  Other, post, other, reap, build_app, lifespan, Life, live, happen,
}
use open_warehouse_agent.Gateway.App.Lifespan.Reaping.{
  EndsAs, round_of, schedule, lifespan-run_idle_reaper,
}
use open_warehouse_agent.Gateway.App.Lifespan.Failed.{lifespan-never_stops}
use open_warehouse_agent.Gateway.App.Auth.{
  Bears, require_bearer_token_iff, require_bearer_token-no_header,
}
use open_warehouse_agent.Gateway.App.Proxy.{post_chat_completions-guards}
use open_warehouse_agent.Py.Str.{Str, str, lower, partition_space}
use open_warehouse_agent.Py.Result.{runtime_error, http_exception, ok, err}
use open_warehouse_agent.Base.Int.{pos}
use open_warehouse_agent.Base.{ℕ, ◌+◌, ◌≡◌, refl, ◌↔◌, true, none, some, List, [], ◌∷◌, map, arith}

-- A cloud with one running instance, whose server answers 200.
abbrev instance_7 : Instance
instance_7 = record {
  state = some (record { name = some (str "running") });
  private_ip_address = some (str "10.0.0.7");
}

abbrev cloud : Cloud
cloud = record {
  World = Unit;
  start_instances = λ ids w. (ok tt, w);
  stop_instances = λ ids w. (ok tt, w);
  describe_instances = λ ids w.
      (ok (record { reservations = some (record { instances = some (instance_7 ∷ []) } ∷ []) }), w);
  get = λ u w. (ok 200, w);
}

abbrev down : Cloud
down = record cloud {
  describe_instances = λ ids w. (err (http_exception 500 (str "no credentials")), w);
}

abbrev box : Ec2Backend (Unit {0})
box = record { instance_id = str "i-7"; vllm_port = pos 8000; base_url = []; world = tt }

is_healthy-IsServing_example :
    (i : Instance) × (ip : Str) × IsServing cloud box i ip
    × ((Ec2.is_healthy cloud 1 box).1.base_url ≡ vllm_url (pos 8000) ip (str "/v1"))
unfolding Ec2.is_healthy describe_instance check_instance is_running
is_healthy-IsServing_example = is_healthy-IsServing cloud 1 box refl

abbrev token : Str
token = str "s3cret"

require_bearer_token_iff_example :
    (require_bearer_token token (record { authorization = some (str "BEARER s3cret"); body = [] })
      ≡ ok tt)
    ↔ Bears (str "BEARER s3cret") token
require_bearer_token_iff_example = require_bearer_token_iff token (str "BEARER s3cret") [] refl

require_bearer_token-no_header_example :
    require_bearer_token token (record { authorization = none; body = [] })
    ≡ err (http_exception 401 (str "invalid or missing bearer token"))
require_bearer_token-no_header_example = require_bearer_token-no_header token []

-- An upstream that counts its calls.
abbrev upstream : Upstream
upstream = record {
  Net = ℕ;
  post = λ base path body content_type n.
      (ok (record { content = body; status_code = 200; content_type = none }), n + 1);
}

abbrev controller : Controller FakeGpuBackend
controller = record {
  backend = record { base_url = str "http://fake/v1"; boot_seconds = 3; started_at = some 1 };
  idle_timeout_seconds = 10;
  poll_interval_seconds = 1;
  state = starting;
  last_activity = none;
}

abbrev app : App backend upstream
app = record { controller = controller; net = 0 }

abbrev authorized : Request
authorized = record { authorization = some (str "Bearer s3cret"); body = str "{}" }

abbrev anonymous : Request
anonymous = record { authorization = none; body = str "{}" }

post_chat_completions-guards_example :
    (require_bearer_token token authorized ≡ ok tt)
    × ((post_chat_completions backend upstream token 4 4 4 authorized app).1.controller.state
        ≡ ready)
unfolding post_chat_completions ensure_ready is_healthy forward require_bearer_token compare_digest
    lower partition_space
post_chat_completions-guards_example =
    post_chat_completions-guards backend upstream token 4 4 4 authorized app (λ e. omega (arith, e))

-- A life of the app: a request that is served, a round that finds it idle, and a request while the
-- next round is waited for.
abbrev rounds : List (ℕ × List (Other backend upstream))
rounds = (3, post 4 4 4 authorized ∷ []) ∷ (20, post 21 21 21 authorized ∷ []) ∷ []

lifespan-run_idle_reaper_example :
    EndsAs backend upstream token
      (run_idle_reaper backend (map (round_of backend upstream token) rounds) controller)
      (lifespan backend upstream token
        (schedule backend upstream token rounds)
        (build_app backend upstream app))
lifespan-run_idle_reaper_example = lifespan-run_idle_reaper backend upstream token rounds app

-- A box that cannot be stopped.
abbrev jammed : ComputeBackend
jammed = record {
  Box = Unit {0};
  base_url = λ b. str "http://jammed/v1";
  start = λ t b. (ok tt, b);
  stop = λ t b. (err (runtime_error (str "denied")), b);
  is_healthy = λ t b. (ok true, b);
}

abbrev jammed_app : App jammed upstream
jammed_app = record {
  controller = record {
    backend = tt;
    idle_timeout_seconds = 10;
    poll_interval_seconds = 1;
    state = stopped;
    last_activity = none;
  };
  net = 0;
}

lifespan-never_stops_example :
    (l : Life jammed upstream) × (lifespan jammed upstream token
        (other (post 4 4 4 authorized) ∷ reap 15 ∷ reap 1000 ∷ [])
        (build_app jammed upstream jammed_app)
      ≡ some (err (runtime_error (str "denied")), l))
    × (l.app.controller.state ≡ ready)
unfolding live happen post_chat_completions ensure_ready forward require_bearer_token compare_digest
    lower partition_space
lifespan-never_stops_example =
    lifespan-never_stops jammed upstream token (other (post 4 4 4 authorized) ∷ []) (reap 1000 ∷ [])
      15 jammed_app (runtime_error (str "denied")) refl refl refl
