-- ===== src/Gateway/TasksTests.antt =====
-- Two requests and the reaper, interleaved over the fake box.
use open_warehouse_agent.Gateway.State
use open_warehouse_agent.Gateway.State.{Controller, ready, stopped}
use open_warehouse_agent.Gateway.Fake
use open_warehouse_agent.Gateway.Fake.{FakeGpuBackend, start, stop, is_healthy, backend}
use open_warehouse_agent.Gateway.Tasks.{Action, call, turn, begin, move, act, trace, at_rest}
use open_warehouse_agent.Gateway.Tasks.Atomic.{Atomic}
use open_warehouse_agent.Gateway.Tasks.Refines.{trace-inside_once, trace-Atomic}
use open_warehouse_agent.Gateway.Tasks.Progress.{turns-release}
use open_warehouse_agent.Py.Str.{str}
use open_warehouse_agent.Base.{ℕ, ◌≡◌, refl, false, List, [], ◌∷◌, ◌++◌}

-- A box that boots in 3 ticks, and a controller with a timeout of 10.
abbrev new : Controller FakeGpuBackend
new = State.init (Fake.init (str "http://localhost:8000/v1") 3) 10 1

-- A request starts the box while another waits for the lock.
abbrev waking : List (Action backend)
waking = call 0 ∷ turn 0 1 ∷ call 1 ∷ turn 1 1 ∷ turn 0 2 ∷ turn 1 2 ∷ []

-- Both are answered that the box is not up; a third finds it up, and is being proxied.
abbrev serving : List (Action backend)
serving = waking ++ (turn 0 3 ∷ turn 1 3 ∷ turn 1 3 ∷ call 2 ∷ turn 2 5 ∷ turn 2 5 ∷ [])

trace-inside_once_example : ◌≡◌ {A = ℕ} 0 0
unfolding trace act move begin start State.init Fake.init
trace-inside_once_example = trace-inside_once backend new waking 0 0 refl refl

trace-Atomic_example :
    Atomic backend new (trace backend (at_rest backend new) serving).shared.controller
unfolding trace act move begin start is_healthy State.init Fake.init
trace-Atomic_example = trace-Atomic backend new serving refl

turns-release_example :
    (trace backend
      (trace backend (at_rest backend new) (call 0 ∷ turn 0 1 ∷ []))
      (turn 0 2 ∷ turn 0 4 ∷ [])).shared.locked
    ≡ false
unfolding trace act move begin State.init
turns-release_example =
    turns-release backend (trace backend (at_rest backend new) (call 0 ∷ turn 0 1 ∷ [])) 0 2 4 refl
