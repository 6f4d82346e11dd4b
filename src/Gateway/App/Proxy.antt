-- ===== src/Gateway/App/Proxy.antt =====
-- What a request to the proxy changes, and what it is answered.
use open_warehouse_agent.Gateway.Compute.{ComputeBackend}
use open_warehouse_agent.Gateway.State.{ready, ensure_ready}
use open_warehouse_agent.Gateway.App.{
  Request, Upstream, App, require_bearer_token, warming_up, post_chat_completions, forward,
}
use open_warehouse_agent.Py.Str.{Str}
use open_warehouse_agent.Py.Result.{Exc, ok, err}
use open_warehouse_agent.Base.{ℕ, ◌≡◌, ◌≢◌, false, arith}

module _ (K : ComputeBackend) (U : Upstream) where
  -- A request that the token does not let in changes nothing: it neither wakes the box, nor counts
  -- as activity, nor reaches the upstream.
  pub post_chat_completions-refused :
      (token : Str) (s p now : ℕ) (r : Request) (a : App K U) (e : Exc)
      → require_bearer_token token r ≡ err e
      → post_chat_completions K U token s p now r a ≡ (err e, a)
  unfolding post_chat_completions
  post_chat_completions-refused token s p now r a e h = ground arith

  -- While the box is not ready, the answer is 503 with its Retry-After, and the upstream is left
  -- alone.
  pub post_chat_completions-warming_up :
      (token : Str) (s p now : ℕ) (r : Request) (a : App K U)
      → require_bearer_token token r ≡ ok tt
      → (ensure_ready K s p now a.controller).0 ≡ ok false
      → post_chat_completions K U token s p now r a
        ≡ (ok warming_up, record a { controller = (ensure_ready K s p now a.controller).1 })
  unfolding post_chat_completions
  post_chat_completions-warming_up token s p now r a h e = ground arith

  -- The upstream is called only by a request that is let in and leaves the controller READY.
  pub post_chat_completions-guards :
      (token : Str) (s p now : ℕ) (r : Request) (a : App K U)
      → (post_chat_completions K U token s p now r a).1.net ≢ a.net
      → (require_bearer_token token r ≡ ok tt)
        × ((post_chat_completions K U token s p now r a).1.controller.state ≡ ready)
  unfolding post_chat_completions forward ensure_ready
  post_chat_completions-guards token s p now r a h = ground arith
