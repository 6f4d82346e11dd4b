-- ===== src/Gateway/State/Failures.antt =====
-- What a failed start and a lost box do to the controller.
use open_warehouse_agent.Gateway.Compute.{ComputeBackend, Counted, counted, count_start, count_poll}
use open_warehouse_agent.Gateway.State.{
  stopped, starting, ready, Controller, ensure_ready, reap_if_idle,
}
use open_warehouse_agent.Gateway.State.Events.{
  Event, request, reap, drift, step, run, run_induction,
}
use open_warehouse_agent.Gateway.State.Balance.{KeepsCounts}
use open_warehouse_agent.Py.Result.{Exc, ok, err}
use open_warehouse_agent.Base.{ℕ, ◌+◌, ◌≡◌, ◌≢◌, true, some, List, arith, All}

module _ (K : ComputeBackend) where
  -- STARTING, after the given numbers of starts and stops.
  abbrev pub StartingAt : ℕ → ℕ → Controller (Counted K.Box) → Type 0
  StartingAt m n c = (c.state ≡ starting) × (c.backend.starts ≡ m) × (c.backend.stops ≡ n)

  module _ (unhealthy : (t : ℕ) (b : K.Box) → (K.is_healthy t b).0 ≢ ok true) where
    step-StartingAt :
        (m n : ℕ) (c : Controller (Counted K.Box)) (e : Event (Counted K.Box))
        → KeepsCounts K e
        → StartingAt m n c
        → StartingAt m n (step (counted K) c e)
    unfolding step ensure_ready reap_if_idle count_poll count_start
    step-StartingAt m n c (request s p now) k h = ground (arith, unhealthy p c.backend.box)
    step-StartingAt m n c (reap now) k h = ground arith
    step-StartingAt m n c (drift f) k h = ground (arith, k c.backend)

    -- A request whose start raises leaves the controller STARTING for good: as long as the box is
    -- not healthy by itself, no later request starts it again and no reap stops it.
    pub failed_start-is_final :
        (c : Controller (Counted K.Box)) (s p now : ℕ) (e : Exc) (es : List (Event (Counted K.Box)))
        → c.state ≡ stopped
        → (K.start s c.backend.box).0 ≡ err e
        → All (KeepsCounts K) es
        → ((ensure_ready (counted K) s p now c).0 ≡ err e)
          × StartingAt
              (c.backend.starts + 1)
              c.backend.stops
              (run (counted K) (ensure_ready (counted K) s p now c).1 es)
    unfolding ensure_ready count_start
    failed_start-is_final c s p now e es h f k = (
      ground arith,
      run_induction (counted K) (StartingAt (c.backend.starts + 1) c.backend.stops) (KeepsCounts K)
          (step-StartingAt (c.backend.starts + 1) c.backend.stops) es
          (ensure_ready (counted K) s p now c).1 k (ground arith),
    )

  -- In READY a request returns True without asking the box: whatever became of the box, it is
  -- neither polled nor changed, and the idle timeout begins again.
  pub ensure_ready-of_ready :
      (c : Controller K.Box) (lost : K.Box) (s p now : ℕ)
      → c.state ≡ ready
      → ensure_ready K s p now (record c { backend = lost })
        ≡ (ok true, record c { backend = lost; last_activity = some now })
  unfolding ensure_ready
  ensure_ready-of_ready c lost s p now h = ground arith
