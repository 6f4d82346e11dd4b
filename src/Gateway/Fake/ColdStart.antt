-- ===== src/Gateway/Fake/ColdStart.antt =====
-- The controller over the fake box: when a request is served.
use open_warehouse_agent.Gateway.State.{
  GatewayState, stopped, ready, Controller, ensure_ready, reap_if_idle,
}
use open_warehouse_agent.Gateway.State.Events.{
  Event, request, reap, drift, step, run, run_induction,
}
use open_warehouse_agent.Gateway.State
use open_warehouse_agent.Gateway.Fake
use open_warehouse_agent.Gateway.Fake.{FakeGpuBackend, start, stop, is_healthy, backend}
use open_warehouse_agent.Py.Str.{Str}
use open_warehouse_agent.Py.Result.{ok}
use open_warehouse_agent.Base.{
  ℕ, ◌+◌, leb, ◌≡◌, refl, Bool, true, false, ◌||◌, Option, none, some, List, arith, All,
}

-- The fake box has a start time exactly while the controller is not STOPPED.
abbrev pub InStep : GatewayState → Option ℕ → Type 0
InStep stopped none = Unit
InStep stopped (some t) = ⊥
InStep _ none = ⊥
InStep _ (some t) = Unit

abbrev pub BootsIn : ℕ → Controller FakeGpuBackend → Type 0
BootsIn boot c = InStep c.state c.backend.started_at × (c.backend.boot_seconds ≡ boot)

-- Nothing but the gateway touches the fake box.
abbrev pub IsOwn : Event FakeGpuBackend → Type 0
IsOwn (request s p now) = Unit
IsOwn (reap now) = Unit
IsOwn (drift f) = ⊥

step-BootsIn :
    (boot : ℕ) (c : Controller FakeGpuBackend) (e : Event FakeGpuBackend)
    → IsOwn e
    → BootsIn boot c
    → BootsIn boot (step backend c e)
unfolding step ensure_ready reap_if_idle start stop is_healthy
step-BootsIn boot c (request s p now) q h = ground arith
step-BootsIn boot c (reap now) q h = ground arith
step-BootsIn boot c (drift f) q h = elim q [ ]

run-BootsIn :
    (url : Str) (boot timeout interval : ℕ) (es : List (Event FakeGpuBackend))
    → All IsOwn es
    → BootsIn boot (run backend (State.init (Fake.init url boot) timeout interval) es)
unfolding State.init Fake.init
run-BootsIn url boot timeout interval es q =
    run_induction backend (BootsIn boot) IsOwn (step-BootsIn boot) es _ q (tt, refl)

-- The tick at which the running box was started; `s`, if a request at `s` is to start it.
abbrev pub boot_began : Option ℕ → ℕ → ℕ
boot_began none s = s
boot_began (some t) s = t

abbrev pub is_ready : GatewayState → Bool
is_ready ready = true
is_ready _ = false

served :
    (boot : ℕ) (c : Controller FakeGpuBackend) (s p now : ℕ)
    → BootsIn boot c
    → (ensure_ready backend s p now c).0
      ≡ ok (is_ready c.state || leb (boot_began c.backend.started_at s + boot) p)
unfolding ensure_ready start is_healthy
served boot c s p now h = ground arith

-- After any history of requests and reaps over the fake box, a request is served exactly if the
-- controller is READY already or the boot time has passed since the box was started, by an
-- earlier request or by this one. It never raises.
pub ensure_ready-over_fake :
    (url : Str) (boot timeout interval : ℕ) (es : List (Event FakeGpuBackend)) (s p now : ℕ)
    → All IsOwn es
    → let c = run backend (State.init (Fake.init url boot) timeout interval) es in
      (ensure_ready backend s p now c).0
      ≡ ok (is_ready c.state || leb (boot_began c.backend.started_at s + boot) p)
ensure_ready-over_fake url boot timeout interval es s p now q =
    served boot _ s p now (run-BootsIn url boot timeout interval es q)
