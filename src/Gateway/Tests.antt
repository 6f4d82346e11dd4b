-- ===== src/Gateway/Tests.antt =====
-- Runs of the gateway at concrete inputs.
use open_warehouse_agent.Gateway.Compute.{ComputeBackend, Counted, counted}
use open_warehouse_agent.Gateway.State
use open_warehouse_agent.Gateway.State.{
  stopped, starting, ready, Controller, ensure_ready, reap_if_idle, Round, run_idle_reaper,
  idle_past,
}
use open_warehouse_agent.Gateway.State.Events.{Event, request, reap, drift, run}
use open_warehouse_agent.Gateway.State.Balance.{IsBalanced, run-IsBalanced}
use open_warehouse_agent.Gateway.State.Idle.{ensure_ready-stays_ready}
use open_warehouse_agent.Gateway.State.Reaper.{run_idle_reaper-stops}
use open_warehouse_agent.Gateway.State.Failures.{
  StartingAt, failed_start-is_final, ensure_ready-of_ready,
}
use open_warehouse_agent.Gateway.Fake
use open_warehouse_agent.Gateway.Fake.{FakeGpuBackend, start, stop, is_healthy, backend}
use open_warehouse_agent.Gateway.Fake.ColdStart.{is_ready, boot_began, ensure_ready-over_fake}
use open_warehouse_agent.Py.Str.{Str, str}
use open_warehouse_agent.Py.Result.{runtime_error, ok, err}
use open_warehouse_agent.Py.Exec.{Exec}
use open_warehouse_agent.Base.{
  ℕ, ◌+◌, leb, ◌≡◌, refl, inl, inr, true, false, ◌||◌, none, some, List, [], ◌∷◌, arith,
}

abbrev url : Str
url = str "http://localhost:8000/v1"

-- A box that boots in 3 ticks.
abbrev fake : FakeGpuBackend
fake = record { base_url = url; boot_seconds = 3; started_at = none }

abbrev running : FakeGpuBackend
running = record { base_url = url; boot_seconds = 3; started_at = some 1 }

-- A cold start, a request too early, one in time, and a reap of the idle box.
abbrev own : List (Event FakeGpuBackend)
own = request 1 1 1 ∷ request 2 2 2 ∷ request 4 4 5 ∷ reap 9 ∷ reap 15 ∷ request 16 16 16 ∷ []

-- The same with a crash of the box between.
abbrev crashing : List (Event (Counted FakeGpuBackend))
crashing =
    request 1 1 1
    ∷ request 4 4 5
    ∷ drift (λ b. record b { box = fake })
    ∷ request 6 6 6
    ∷ reap 30
    ∷ []

-- A box that neither starts nor stops.
abbrev broken_call : ℕ → Exec (Unit {0}) (Unit {0})
broken_call t b = (err (runtime_error (str "no capacity")), b)

abbrev broken : ComputeBackend
broken = record {
  Box = Unit;
  base_url = λ b. [];
  start = broken_call;
  stop = broken_call;
  is_healthy = λ t b. (ok false, b);
}

abbrev in_ready : {Box : Type 0} → Box → Controller Box
in_ready b = record {
  backend = b;
  idle_timeout_seconds = 10;
  poll_interval_seconds = 1;
  state = ready;
  last_activity = some 5;
}

abbrev in_stopped : {Box : Type 0} → Box → Controller Box
in_stopped b = record (in_ready b) { state = stopped; last_activity = none }

abbrev in_starting : {Box : Type 0} → Box → Controller Box
in_starting b = record (in_ready b) { state = starting; last_activity = none }

abbrev quiet_at : {K : ComputeBackend} → ℕ → Round K
quiet_at now = record { now = now; others = λ c. c }

run-IsBalanced_example : IsBalanced (
    run (counted backend) (State.init (record { box = fake; starts = 0; stops = 0 }) 10 1) crashing)
run-IsBalanced_example =
    run-IsBalanced backend crashing fake 10 1 (tt, (tt, ((λ b. (refl, refl)), (tt, (tt, tt)))))

ensure_ready-stays_ready_example :
    (run backend
      (ensure_ready backend 4 4 5 (in_starting running)).1
      (request 7 7 8 ∷ reap 14 ∷ drift (λ b. fake) ∷ [])).state
    ≡ ready
unfolding ensure_ready is_healthy
ensure_ready-stays_ready_example =
    ensure_ready-stays_ready backend (in_starting running) 4 4 5
      (request 7 7 8 ∷ reap 14 ∷ drift (λ b. fake) ∷ []) refl (omega arith, (omega arith, (tt, tt)))

run_idle_reaper-stops_example :
    ((run_idle_reaper backend (quiet_at 7 ∷ quiet_at 15 ∷ []) (in_ready running)).0 ≡ ok tt)
    × ((run_idle_reaper backend (quiet_at 7 ∷ quiet_at 15 ∷ []) (in_ready running)).1.state
        ≡ stopped)
unfolding stop
run_idle_reaper-stops_example =
    run_idle_reaper-stops backend (λ t b. refl) (quiet_at 7 ∷ quiet_at 15 ∷ []) 5 (in_ready running)
      ((λ c. (refl, refl, refl)), ((λ c. (refl, refl, refl)), tt)) refl refl
      (inr (inl (omega arith)))

failed_start-is_final_example :
    ((ensure_ready
        (counted broken)
        1
        1
        1
        (in_stopped (record { box = tt; starts = 0; stops = 0 }))).0
      ≡ err (runtime_error (str "no capacity")))
    × StartingAt broken 1 0 (
        run
          (counted broken)
          (ensure_ready
            (counted broken)
            1
            1
            1
            (in_stopped (record { box = tt; starts = 0; stops = 0 }))).1
          (request 2 2 2 ∷ reap 90 ∷ request 99 99 99 ∷ []))
failed_start-is_final_example =
    failed_start-is_final broken (λ t b e. cc)
      (in_stopped (record { box = tt; starts = 0; stops = 0 })) 1 1 1
      (runtime_error (str "no capacity")) (request 2 2 2 ∷ reap 90 ∷ request 99 99 99 ∷ []) refl
      refl (tt, (tt, (tt, tt)))

ensure_ready-of_ready_example :
    ensure_ready backend 6 6 7 (record (in_ready running) { backend = fake })
    ≡ (ok true, record (in_ready fake) { last_activity = some 7 })
ensure_ready-of_ready_example = ensure_ready-of_ready backend (in_ready running) fake 6 6 7 refl

ensure_ready-over_fake_example :
    let c = run backend (State.init (Fake.init url 3) 10 1) own in
    (ensure_ready backend 17 19 19 c).0
    ≡ ok (is_ready c.state || leb (boot_began c.backend.started_at 17 + 3) 19)
ensure_ready-over_fake_example =
    ensure_ready-over_fake url 3 10 1 own 17 19 19 (tt, (tt, (tt, (tt, (tt, (tt, tt))))))
