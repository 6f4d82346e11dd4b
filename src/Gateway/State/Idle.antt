-- ===== src/Gateway/State/Idle.antt =====
-- When the idle reaper stops the backend, when it does not, and how its loop ends.
use open_warehouse_agent.Gateway.Compute.{ComputeBackend}
use open_warehouse_agent.Gateway.State.{ready, Controller, ensure_ready, reap_if_idle}
use open_warehouse_agent.Gateway.State.Events.{
  Event, request, reap, drift, step, run, run_induction,
}
use open_warehouse_agent.Py.Result.{ok}
use open_warehouse_agent.Base.{ℕ, ◌+◌, ◌≤◌, ◌<◌, ◌≡◌, true, some, List, arith, All}

module _ (K : ComputeBackend) where
  -- READY, with an activity no earlier than `since`.
  abbrev pub ServedSince : ℕ → ℕ → Controller K.Box → Type 0
  ServedSince since timeout c =
      (t : ℕ) × (c.state ≡ ready)
      × (c.last_activity ≡ some t)
      × (since ≤ t)
      × (c.idle_timeout_seconds ≡ timeout)

  -- Requests end at `since` or later, and reaps run before the timeout is over.
  abbrev pub Within : ℕ → ℕ → Event K.Box → Type 0
  Within since timeout (request s p now) = since ≤ now
  Within since timeout (reap now) = now < since + timeout
  Within since timeout (drift f) = Unit

  step-ServedSince :
      (since timeout : ℕ) (c : Controller K.Box) (e : Event K.Box)
      → Within since timeout e
      → ServedSince since timeout c
      → ServedSince since timeout (step K c e)
  unfolding step ensure_ready reap_if_idle
  step-ServedSince since timeout c (request s p now) w (t, r, a, l, i) =
      (now, ground arith, ground arith, ground arith, ground arith)
  step-ServedSince since timeout c (reap now) w (t, r, a, l, i) =
      (t, ground arith, ground arith, ground arith, ground arith)
  step-ServedSince since timeout c (drift f) w h = h

  -- A backend that was found ready for a request at `since` is READY after any later events, if
  -- every request among them ends at `since` or later and every reap among them runs before `since`
  -- plus the timeout, whatever else happens to the box.
  pub ensure_ready-stays_ready :
      (c : Controller K.Box) (s p since : ℕ) (es : List (Event K.Box))
      → (ensure_ready K s p since c).0 ≡ ok true
      → All (Within since c.idle_timeout_seconds) es
      → (run K (ensure_ready K s p since c).1 es).state ≡ ready
  ensure_ready-stays_ready c s p since es h w =
      (run_induction K (ServedSince since c.idle_timeout_seconds)
        (Within since c.idle_timeout_seconds) (step-ServedSince since c.idle_timeout_seconds) es
        (ensure_ready K s p since c).1 w
        (
          since,
          unfold ensure_ready in ground arith,
          unfold ensure_ready in ground arith,
          omega arith,
          unfold ensure_ready in ground arith,
        )).1
