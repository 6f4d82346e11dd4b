-- ===== src/Gateway/App/Lifespan/Failed.antt =====
-- The life of the app after a stop that raised.
use open_warehouse_agent.Gateway.Compute.{ComputeBackend}
use open_warehouse_agent.Gateway.State.{GatewayState, Controller, ready, reap_if_idle, idle_past}
use open_warehouse_agent.Gateway.State.Failures.{ensure_ready-of_ready}
use open_warehouse_agent.Gateway.App.{Request, Upstream, App, require_bearer_token}
use open_warehouse_agent.Gateway.App.Lifespan.{
  awaited, looping, raised, Life, build_app, Other, post, drift, Event, reap, other, happen,
  reaper_turn, end_round, live, startup, lifespan, shutdown,
}
use open_warehouse_agent.Py.Str.{Str}
use open_warehouse_agent.Py.Result.{Exc, Result, ok, err}
use open_warehouse_agent.Base.{
  ℕ, ◌≡◌, refl, ap, ◌∙◌, true, Option, some, List, [], ◌∷◌, ◌++◌, arith,
}
use open_warehouse_agent.Gateway.App.Lifespan.Reaping.{
  effect, happen-effect, reaper_turn-raised, live-raised,
}

module _ (K : ComputeBackend) (U : Upstream) (token : Str) where
  effect-ready :
      (c : Controller K.Box) (s p now : ℕ) (r : Request) (x : Result (Unit {0}))
      → require_bearer_token token r ≡ x
      → c.state ≡ ready
      → (effect K U token c (post s p now r)).state ≡ ready
  unfolding effect
  effect-ready c s p now r (ok u) e h =
      rw (e, effect) (ap (λ y. y.1.state) (ensure_ready-of_ready K c c.backend s p now h) ∙ h)
  effect-ready c s p now r (err x) e h = rw (e, effect) h

  happen-ready :
      (a : App K U) (o : Other K U)
      → a.controller.state ≡ ready
      → (happen K U token a o).controller.state ≡ ready
  unfolding effect
  happen-ready a (post s p now r) h =
      ap (λ c. c.state) (happen-effect K U token a (post s p now r))
      ∙ effect-ready a.controller s p now r (require_bearer_token token r) refl h
  happen-ready a (drift f) h = unfold happen in h

  live-ready :
      (es : List (Event K U)) (l : Life K U) (e : Exc)
      → l.reaper_task ≡ raised e
      → l.app.controller.state ≡ ready
      → (live K U token es l).app.controller.state ≡ ready
  unfolding live
  live-ready [] l e h k = k
  live-ready (reap now ∷ es) l e h k =
      ap (λ m. (live K U token es m).app.controller.state) (reaper_turn-raised K U token now l e h)
      ∙ live-ready es l e h k
  live-ready (other o ∷ es) l e h k =
      live-ready es (record l { app = happen K U token l.app o }) e h (happen-ready l.app o k)

  live-append :
      (before after : List (Event K U)) (l : Life K U)
      → live K U token (before ++ after) l ≡ live K U token after (live K U token before l)
  unfolding live
  live-append [] after l = refl
  live-append (reap now ∷ es) after l =
      live-append es after (reaper_turn K U token now l.reaper_task l)
  live-append (other o ∷ es) after l =
      live-append es after (record l { app = happen K U token l.app o })

  -- The app after a start and some events.
  abbrev pub after_events : List (Event K U) → App K U → Life K U
  after_events es a = live K U token es (startup K U token (build_app K U a))

  due-ready :
      (now timeout : ℕ) (state : GatewayState) (last : Option ℕ)
      → idle_past K now state last timeout ≡ true
      → state ≡ ready
  due-ready now timeout ready last h = refl
  due-ready now timeout state last h = absurd (cc)

  reap-raised :
      (now : ℕ) (c : Controller K.Box) (e : Exc)
      → idle_past K now c.state c.last_activity c.idle_timeout_seconds ≡ true
      → (K.stop now c.backend).0 ≡ err e
      → reap_if_idle K now c ≡ (err e, record c { backend = (K.stop now c.backend).1 })
  unfolding reap_if_idle
  reap-raised now c e due x = ground arith

  stop-raised :
      (now : ℕ) (l : Life K U) (e : Exc)
      → l.reaper_task ≡ looping
      → idle_past K now l.app.controller.state l.app.controller.last_activity
          l.app.controller.idle_timeout_seconds
        ≡ true
      → (K.stop now l.app.controller.backend).0 ≡ err e
      → ((reaper_turn K U token now l.reaper_task l).reaper_task ≡ raised e)
        × ((reaper_turn K U token now l.reaper_task l).app.controller.state ≡ ready)
  unfolding reaper_turn
  stop-raised now l e h due x =
      let q = reap-raised now l.app.controller e due x in
      (
        ap (λ t. (reaper_turn K U token now t l).reaper_task) h
            ∙ ap (λ y. (end_round K U token l y).reaper_task) q,
        ap (λ t. (reaper_turn K U token now t l).app.controller.state) h
            ∙ ap (λ y. (end_round K U token l y).app.controller.state) q
            ∙ due-ready now l.app.controller.idle_timeout_seconds l.app.controller.state
                l.app.controller.last_activity due,
      )

  -- If the stop of a due reap raises, the app never stops its box again: whatever comes after, and
  -- however long no request comes, the controller is READY at the end; and the exception surfaces
  -- only then.
  pub lifespan-never_stops :
      (before after : List (Event K U)) (now : ℕ) (a : App K U) (e : Exc)
      → (after_events before a).reaper_task ≡ looping
      → idle_past K now
          (after_events before a).app.controller.state
          (after_events before a).app.controller.last_activity
          (after_events before a).app.controller.idle_timeout_seconds
        ≡ true
      → (K.stop now (after_events before a).app.controller.backend).0 ≡ err e
      → (l : Life K U) × (lifespan K U token (before ++ (reap now ∷ after)) (build_app K U a)
          ≡ some (err e, l))
        × (l.app.controller.state ≡ ready)
  unfolding lifespan live
  lifespan-never_stops before after now a e h due x =
      let up = after_events before a in
      let (failed, is_up) = stop-raised now up e h due x in
      let end = live K U token after (reaper_turn K U token now up.reaper_task up) in
      (
        record end { reaper_stop = true },
        ap (shutdown K U token)
              (live-append before (reap now ∷ after) (startup K U token (build_app K U a)))
            ∙ ap (λ t. awaited K U token t (record end { reaper_stop = true }))
                (live-raised K U token after (reaper_turn K U token now up.reaper_task up) e
                  failed),
        live-ready after (reaper_turn K U token now up.reaper_task up) e failed is_up,
      )
