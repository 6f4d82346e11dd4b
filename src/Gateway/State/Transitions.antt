-- ===== src/Gateway/State/Transitions.antt =====
-- What one call of a controller's method does to its state, on every branch.
use open_warehouse_agent.Gateway.Compute.{ComputeBackend}
use open_warehouse_agent.Gateway.State.{
  GatewayState, stopped, starting, ready, Controller, init, ensure_ready, reap_if_idle, idle_past,
}
use open_warehouse_agent.Py.Result.{ok}
use open_warehouse_agent.Base.{ℕ, ◌≡◌, ◌↔◌, true, Option, none, some, arith}

-- The activity time is kept exactly while the backend is ready.
abbrev pub Tracks : GatewayState → Option ℕ → Type 0
Tracks ready (some t) = Unit
Tracks ready none = ⊥
Tracks _ (some t) = ⊥
Tracks _ none = Unit

abbrev pub IsConsistent : {Box : Type 0} → Controller Box → Type 0
IsConsistent c = Tracks c.state c.last_activity

-- The edges that a request may follow; a state may also stay.
pub data Wakes : GatewayState → GatewayState → Type 0 where
  from_stopped : Wakes stopped starting
  at_once : Wakes stopped ready
  still_starting : Wakes starting starting
  booted : Wakes starting ready
  still_ready : Wakes ready ready

pub init-IsConsistent :
    {Box : Type 0} (b : Box) (timeout interval : ℕ) → IsConsistent (init b timeout interval)
unfolding init
init-IsConsistent b timeout interval = tt

module _ (K : ComputeBackend) (c : Controller K.Box) where
  pub ensure_ready-IsConsistent :
      (s p now : ℕ) → IsConsistent c → IsConsistent (ensure_ready K s p now c).1
  unfolding ensure_ready
  ensure_ready-IsConsistent s p now h = ground arith

  pub reap_if_idle-IsConsistent : (now : ℕ) → IsConsistent c → IsConsistent (reap_if_idle K now c).1
  unfolding reap_if_idle
  reap_if_idle-IsConsistent now h = ground arith

  -- `ensure_ready` returns True exactly if the controller is READY afterwards.
  pub ensure_ready-true_iff :
      (s p now : ℕ)
      → ((ensure_ready K s p now c).0 ≡ ok true) ↔ ((ensure_ready K s p now c).1.state ≡ ready)
  unfolding ensure_ready
  ensure_ready-true_iff s p now = ground arith

  -- A request never leads to STOPPED, and never from READY to anything else.
  pub ensure_ready-Wakes : (s p now : ℕ) → Wakes c.state (ensure_ready K s p now c).1.state
  unfolding ensure_ready
  ensure_ready-Wakes s p now =
      grind (arith, from_stopped, at_once, still_starting, booted, still_ready)

  -- A reap returns True, and stops, exactly if the call of the backend was due and returned.
  pub reap_if_idle-true_iff :
      (now : ℕ)
      → ((reap_if_idle K now c).0 ≡ ok true) ↔ (
          (idle_past K now c.state c.last_activity c.idle_timeout_seconds ≡ true)
          × ((K.stop now c.backend).0 ≡ ok tt))
  unfolding reap_if_idle
  reap_if_idle-true_iff now = ground arith
