-- ===== src/Gateway/State/Reaper.antt =====
-- The reaper's loop over its rounds.
use open_warehouse_agent.Gateway.Compute.{ComputeBackend}
use open_warehouse_agent.Gateway.State.{
  stopped, ready, Controller, reap_if_idle, Round, run_idle_reaper, idle_past,
}
use open_warehouse_agent.Py.Result.{Exc, ok, err}
use open_warehouse_agent.Base.{
  ℕ, ◌+◌, ◌≤◌, ◌<◌, leb, ◌≡◌, refl, ◌⊎◌, inl, inr, true, false, some, List, [], ◌∷◌, arith, All,
  Bool-cases,
}

module _ (K : ComputeBackend) where
  -- No request is served while the loop waits; the box itself may change.
  abbrev pub IsQuiet : Round K → Type 0
  IsQuiet r =
      (c : Controller K.Box)
      → ((r.others c).state ≡ c.state)
        × ((r.others c).last_activity ≡ c.last_activity)
        × ((r.others c).idle_timeout_seconds ≡ c.idle_timeout_seconds)

  -- Some round comes at `due` or later.
  abbrev pub HasRoundAt : ℕ → List (Round K) → Type 0
  HasRoundAt due [] = ⊥
  HasRoundAt due (r ∷ rest) = (due ≤ r.now) ⊎ HasRoundAt due rest

  reaper_stopped :
      (rounds : List (Round K)) (c : Controller K.Box)
      → All IsQuiet rounds
      → c.state ≡ stopped
      → ((run_idle_reaper K rounds c).0 ≡ ok tt) × ((run_idle_reaper K rounds c).1.state ≡ stopped)
  unfolding run_idle_reaper reap_if_idle
  reaper_stopped [] c q h = (refl, h)
  reaper_stopped (r ∷ rest) c (q, qs) h = ground (arith, q c, reaper_stopped rest (r.others c) qs)

  module _ (stops : (t : ℕ) (b : K.Box) → (K.stop t b).0 ≡ ok tt) where
    reap_due :
        (now t : ℕ) (c : Controller K.Box)
        → c.state ≡ ready
        → c.last_activity ≡ some t
        → t + c.idle_timeout_seconds ≤ now
        → ((reap_if_idle K now c).0 ≡ ok true) × ((reap_if_idle K now c).1.state ≡ stopped)
    unfolding reap_if_idle
    reap_due now t c r a d = ground (arith, stops now c.backend)

    reap_early :
        (now t : ℕ) (c : Controller K.Box)
        → c.last_activity ≡ some t
        → now < t + c.idle_timeout_seconds
        → reap_if_idle K now c ≡ (ok false, c)
    unfolding reap_if_idle
    reap_early now t c a d = ground arith

    -- With a backend whose stops return, an idle READY controller is STOPPED when the loop ends,
    -- if some round came late enough and nothing was served between the rounds.
    pub run_idle_reaper-stops :
        (rounds : List (Round K)) (t : ℕ) (c : Controller K.Box)
        → All IsQuiet rounds
        → c.state ≡ ready
        → c.last_activity ≡ some t
        → HasRoundAt (t + c.idle_timeout_seconds) rounds
        → ((run_idle_reaper K rounds c).0 ≡ ok tt)
          × ((run_idle_reaper K rounds c).1.state ≡ stopped)
    unfolding run_idle_reaper
    run_idle_reaper-stops [] t c q r a h = absurd h
    run_idle_reaper-stops (x ∷ rest) t c (q, qs) r a h =
        elim (Bool-cases (leb (t + c.idle_timeout_seconds) x.now)) [
          | inl due ↦ ground (
            arith,
            reap_due x.now t c,
            q (reap_if_idle K x.now c).1,
            reaper_stopped rest (x.others (reap_if_idle K x.now c).1) qs,
          )
          | inr early ↦
              ground
                (arith, reap_early x.now t c, q c, run_idle_reaper-stops rest t (x.others c) qs)
        ]

  -- A stop that raises ends the loop at once, whatever rounds were to follow, and leaves the
  -- controller READY and its activity time in place.
  pub run_idle_reaper-raises :
      (r : Round K) (rest : List (Round K)) (c : Controller K.Box) (e : Exc)
      → idle_past K r.now c.state c.last_activity c.idle_timeout_seconds ≡ true
      → (K.stop r.now c.backend).0 ≡ err e
      → ((run_idle_reaper K (r ∷ rest) c).0 ≡ err e)
        × ((run_idle_reaper K (r ∷ rest) c).1 ≡ record c { backend = (K.stop r.now c.backend).1 })
  unfolding run_idle_reaper reap_if_idle
  run_idle_reaper-raises r rest c e due h = ground arith
