-- ===== src/Gateway/App.antt =====
-- gateway/app.py: the proxy's endpoints and its bearer token.
pub mod Auth
pub mod Proxy
pub mod Lifespan
use open_warehouse_agent.Gateway.Compute.{ComputeBackend}
use open_warehouse_agent.Gateway.State.{
  GatewayState, stopped, starting, ready, Controller, ensure_ready,
}
use open_warehouse_agent.Py.Str.{Str, str, str_eq, is_ascii, lower, partition_space}
use open_warehouse_agent.Py.Result.{http_exception, type_error, Result, ok, err}
use open_warehouse_agent.Py.Exec.{◌>>◌, ◌>>=◌, Exec, pure, lift}
use open_warehouse_agent.Base.{
  ℕ, ◌-◌, ◌/◌, if◌then◌else◌, Bool, true, false, not, ◌&&◌, Option, none, some, [], or_default,
}

-- The parts of a request that are read: the header `authorization`, if there is one, and the body.
pub record Request : Type 0 where
  pub authorization : Option Str
  pub body : Str

pub record Response : Type 0 where
  pub content : Str
  pub status_code : ℕ
  pub retry_after : Option Str
  pub media_type : Option Str

-- What comes back from the server behind the proxy.
pub record Reply : Type 0 where
  pub content : Str
  pub status_code : ℕ
  pub content_type : Option Str

-- `client.post` of an `httpx.AsyncClient` with a base URL: the path, the body and the content type
-- of the request. The `Net` is what the client talks to.
pub record Upstream : Type 1 where
  pub Net : Type 0
  pub post : Str → Str → Str → Str → Exec Net Reply

-- `secrets.compare_digest` of two texts, which refuses any that is not ASCII.
unfoldable pub compare_digest : Str → Str → Result Bool
compare_digest a b =
    if is_ascii a && is_ascii b
    then ok (str_eq a b)
    else err (type_error (str "comparing strings with non-ASCII characters is not supported"))

abbrev unauthorized : Result (Unit {0})
unauthorized = err (http_exception 401 (str "invalid or missing bearer token"))

abbrev check_digest : Result Bool → Result (Unit {0})
check_digest (ok true) = ok tt
check_digest (ok false) = unauthorized
check_digest (err e) = err e

-- `require_bearer_token`; the digests are compared only if the scheme is right.
unfoldable pub require_bearer_token : Str → Request → Result (Unit {0})
require_bearer_token token r =
    let (scheme, credential) = partition_space (or_default r.authorization []) in
    if str_eq (lower scheme) (str "bearer")
    then check_digest (compare_digest credential token)
    else unauthorized

abbrev pub warming_up : Response
warming_up = record {
  content = str "warming up";
  status_code = 503;
  retry_after = some (str "5");
  media_type = none;
}

abbrev pub proxied : Reply → Response
proxied r = record {
  content = r.content;
  status_code = r.status_code;
  retry_after = none;
  media_type = some (or_default r.content_type (str "application/json"));
}

-- `GatewayState`'s values.
abbrev pub value : GatewayState → Str
value stopped = str "stopped"
value starting = str "starting"
value ready = str "ready"

module _ (K : ComputeBackend) (U : Upstream) where
  -- The controller and the network, which the endpoints share.
  pub record App : Type 0 where
    pub controller : Controller K.Box
    pub net : U.Net

  abbrev on_controller : {A : Type 0} → Exec (Controller K.Box) A → Exec App A
  on_controller m a = let (r, c) = m a.controller in (r, record a { controller = c })

  -- The call of the upstream, at the base URL that the backend has at this moment.
  unfoldable pub forward : Str → Exec App Response
  forward body a = forwarded (
      U.post (K.base_url a.controller.backend) (str "/chat/completions") body
        (str "application/json") a.net)
    where
      forwarded : Result Reply × U.Net → Result Response × App
      forwarded (ok reply, net) = (ok (proxied reply), record a { net = net })
      forwarded (err e, net) = (err e, record a { net = net })

  -- `chat_completions`, with the clock's readings for `ensure_ready`.
  unfoldable pub chat_completions : ℕ → ℕ → ℕ → Request → Exec App Response
  chat_completions start_at poll_at now request = do
    up ← on_controller (ensure_ready K start_at poll_at now)
    if up then forward request.body else pure warming_up

  -- POST /v1/chat/completions: the token is checked before the handler runs.
  unfoldable pub post_chat_completions : Str → ℕ → ℕ → ℕ → Request → Exec App Response
  unfolding chat_completions
  post_chat_completions token start_at poll_at now request = do
    lift (require_bearer_token token request)
    chat_completions start_at poll_at now request

  -- GET /healthz: the state, with no token asked for and no lock taken.
  unfoldable pub healthz : App → Str
  healthz a = value a.controller.state
