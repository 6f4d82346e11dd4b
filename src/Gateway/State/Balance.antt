-- ===== src/Gateway/State/Balance.antt =====
-- How often the backend is started and stopped, whatever the history of the controller.
use open_warehouse_agent.Gateway.Compute.{
  ComputeBackend, Counted, counted, count_start, count_stop, count_poll,
}
use open_warehouse_agent.Gateway.State.{
  GatewayState, stopped, starting, ready, Controller, init, ensure_ready, reap_if_idle,
}
use open_warehouse_agent.Gateway.State.Events.{
  Event, request, reap, drift, step, run, run_induction,
}
use open_warehouse_agent.Base.{ℕ, ◌+◌, ◌≡◌, List, arith, All}

-- How many starts are not yet undone.
abbrev pub pending : GatewayState → ℕ
pending stopped = 0
pending starting = 1
pending ready = 1

abbrev pub IsBalanced : {Box : Type 0} → Controller (Counted Box) → Type 0
IsBalanced c = c.backend.starts ≡ c.backend.stops + pending c.state

module _ (K : ComputeBackend) where
  -- The outside world changes boxes, not the counts.
  abbrev pub KeepsCounts : Event (Counted K.Box) → Type 0
  KeepsCounts (request s p now) = Unit
  KeepsCounts (reap now) = Unit
  KeepsCounts (drift f) = (b : Counted K.Box) → ((f b).starts ≡ b.starts) × ((f b).stops ≡ b.stops)

  step-IsBalanced :
      (c : Controller (Counted K.Box)) (e : Event (Counted K.Box))
      → KeepsCounts e
      → IsBalanced c
      → IsBalanced (step (counted K) c e)
  unfolding step ensure_ready reap_if_idle count_start count_stop count_poll
  step-IsBalanced c (request s p now) q h = ground arith
  step-IsBalanced c (reap now) q h = ground arith
  step-IsBalanced c (drift f) q h = ground (arith, q c.backend)

  -- The starts of a box are its stops, and one more unless the controller is STOPPED: requests
  -- that arrive while it boots or serves never start it again.
  pub run-IsBalanced :
      (es : List (Event (Counted K.Box))) (b : K.Box) (timeout interval : ℕ)
      → All KeepsCounts es
      → IsBalanced
          (run (counted K) (init (record { box = b; starts = 0; stops = 0 }) timeout interval) es)
  unfolding init
  run-IsBalanced es b timeout interval q =
      run_induction (counted K) IsBalanced KeepsCounts step-IsBalanced es _ q (omega arith)
