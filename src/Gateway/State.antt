-- ===== src/Gateway/State.antt =====
-- gateway/state.py: the controller's life cycle, over any compute backend.
pub mod Transitions
pub mod Events
pub mod Balance
pub mod Idle
pub mod Reaper
pub mod Failures
use open_warehouse_agent.Gateway.Compute.{ComputeBackend}
use open_warehouse_agent.Py.Result.{ok}
use open_warehouse_agent.Py.Exec.{◌>>=◌, Exec, pure, continue, ◌>>◌}
use open_warehouse_agent.Base.{
  ℕ, ◌+◌, leb, if◌then◌else◌, Bool, true, false, Option, none, some, List, [], ◌∷◌,
}

pub data GatewayState : Type 0 where
  stopped starting ready : GatewayState

-- `GatewayController`, with times in ticks of the monotonic clock.
pub record Controller (Box : Type 0) : Type 0 where
  pub backend : Box
  pub idle_timeout_seconds : ℕ
  pub poll_interval_seconds : ℕ
  pub state : GatewayState
  pub last_activity : Option ℕ

-- `__init__`
unfoldable pub init : {Box : Type 0} → Box → ℕ → ℕ → Controller Box
init b timeout interval = record {
  backend = b;
  idle_timeout_seconds = timeout;
  poll_interval_seconds = interval;
  state = stopped;
  last_activity = none;
}

module _ (K : ComputeBackend) where
  -- A call of the backend, which is one of the controller's fields.
  abbrev on_backend : {A : Type 0} → Exec K.Box A → Exec (Controller K.Box) A
  on_backend m c = let (r, b) = m c.backend in (r, record c { backend = b })

  abbrev set_state : GatewayState → Exec (Controller K.Box) (Unit {0})
  set_state s c = (ok tt, record c { state = s })

  abbrev touch : ℕ → Exec (Controller K.Box) (Unit {0})
  touch now c = (ok tt, record c { last_activity = some now })

  -- `if self._state == STOPPED:` of `ensure_ready`.
  wake : ℕ → Exec (Controller K.Box) (Unit {0})
  wake t c = elim c.state [
    | stopped ↦ (set_state starting >> on_backend (K.start t)) c
    | starting ↦ (ok tt, c)
    | ready ↦ (ok tt, c)
  ]

  -- `if self._state == STARTING:` of `ensure_ready`; `false` is its early return.
  poll : ℕ → Exec (Controller K.Box) Bool
  poll t c = elim c.state [
    | stopped ↦ (ok true, c)
    | starting ↦
        (do
          healthy ← on_backend (K.is_healthy t)
          if healthy then (set_state ready >> pure true) else pure false)
          c
    | ready ↦ (ok true, c)
  ]

  -- `ensure_ready`, under the lock. The clock reads `start_at` while the box is started,
  -- `poll_at` while its health is asked for, and `now` at the end.
  unfoldable pub ensure_ready : ℕ → ℕ → ℕ → Exec (Controller K.Box) Bool
  unfolding wake poll
  ensure_ready start_at poll_at now = do
    wake start_at
    up ← poll poll_at
    if up then (touch now >> pure true) else pure false

  -- The condition of `reap_if_idle`, its subtraction moved to the other side.
  abbrev pub idle_past : ℕ → GatewayState → Option ℕ → ℕ → Bool
  idle_past now ready (some t) timeout = leb (t + timeout) now
  idle_past now _ _ timeout = false

  -- `reap_if_idle`, under the lock.
  unfoldable pub reap_if_idle : ℕ → Exec (Controller K.Box) Bool
  reap_if_idle now c =
      if idle_past now c.state c.last_activity c.idle_timeout_seconds
      then (do
        on_backend (K.stop now)
        λ d. (ok true, record d { state = stopped; last_activity = none }))
          c
      else (ok false, c)

  -- One round of the reaper's loop: a reap, then what other tasks do to the controller while the
  -- loop waits for its event.
  pub record Round : Type 0 where
    pub now : ℕ
    pub others : Controller K.Box → Controller K.Box

  -- `run_idle_reaper`: the rounds until `stop_event` is set. Only the wait's own `TimeoutError` is
  -- caught, so what a reap raises leaves the loop.
  unfoldable pub run_idle_reaper : List Round → Exec (Controller K.Box) (Unit {0})
  run_idle_reaper [] c = (ok tt, c)
  run_idle_reaper (r ∷ rest) c =
      continue (reap_if_idle r.now c) (λ _ d. run_idle_reaper rest (r.others d))
