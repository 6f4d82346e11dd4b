-- ===== src/Gateway/State/Events.antt =====
-- Histories of a controller: requests, rounds of the reaper and changes of the outside world, in
-- any order. The lock makes each method one step.
use open_warehouse_agent.Gateway.Compute.{ComputeBackend}
use open_warehouse_agent.Gateway.State.{Controller, init, ensure_ready, reap_if_idle}
use open_warehouse_agent.Gateway.State.Transitions.{
  IsConsistent, init-IsConsistent, ensure_ready-IsConsistent, reap_if_idle-IsConsistent,
}
use open_warehouse_agent.Base.{ℕ, List, [], ◌∷◌, All}

-- `drift` is a change of the box that the gateway has no part in: a boot that completes, a crash,
-- an instance that someone else stops.
pub data Event (Box : Type 0) : Type 0 where
  request : ℕ → ℕ → ℕ → Event Box
  reap : ℕ → Event Box
  drift : (Box → Box) → Event Box

module _ (K : ComputeBackend) where
  unfoldable pub step : Controller K.Box → Event K.Box → Controller K.Box
  step c (request s p now) = (ensure_ready K s p now c).1
  step c (reap now) = (reap_if_idle K now c).1
  step c (drift f) = record c { backend = f c.backend }

  unfoldable pub run : Controller K.Box → List (Event K.Box) → Controller K.Box
  run c [] = c
  run c (e ∷ es) = run (step c e) es

  -- Induction over a history, for what every event of it keeps.
  pub run_induction :
      (P : Controller K.Box → Type 0) (Q : Event K.Box → Type 0)
      → ((c : Controller K.Box) (e : Event K.Box) → Q e → P c → P (step c e))
      → (es : List (Event K.Box)) (c : Controller K.Box) → All Q es
      → P c
      → P (run c es)
  unfolding run
  run_induction P Q keep [] c q h = h
  run_induction P Q keep (e ∷ es) c q h = run_induction P Q keep es (step c e) q.1 (keep c e q.0 h)

  step-IsConsistent :
      (c : Controller K.Box) (e : Event K.Box) → Unit {0} → IsConsistent c → IsConsistent (step c e)
  unfolding step
  step-IsConsistent c (request s p now) _ h = ensure_ready-IsConsistent K c s p now h
  step-IsConsistent c (reap now) _ h = reap_if_idle-IsConsistent K c now h
  step-IsConsistent c (drift f) _ h = h

  any_event : (es : List (Event K.Box)) → All (λ e. Unit {0}) es
  any_event [] = tt
  any_event (e ∷ es) = (tt, any_event es)

  -- After any history of a new controller, the activity time is kept exactly in READY.
  pub run-IsConsistent :
      (es : List (Event K.Box)) (b : K.Box) (timeout interval : ℕ)
      → IsConsistent (run (init b timeout interval) es)
  run-IsConsistent es b timeout interval =
      run_induction IsConsistent (λ e. Unit {0}) step-IsConsistent es (init b timeout interval)
        (any_event es) (init-IsConsistent b timeout interval)
