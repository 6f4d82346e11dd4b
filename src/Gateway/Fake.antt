-- ===== src/Gateway/Fake.antt =====
-- gateway/fake_backend.py: a box that is healthy a fixed time after its start.
pub mod ColdStart
use open_warehouse_agent.Gateway.Compute.{ComputeBackend}
use open_warehouse_agent.Py.Str.{Str}
use open_warehouse_agent.Py.Result.{ok}
use open_warehouse_agent.Py.Exec.{Exec}
use open_warehouse_agent.Base.{ℕ, ◌+◌, leb, Bool, false, Option, none, some}

-- `FakeGPUBackend`, with times in ticks of the monotonic clock.
pub record FakeGpuBackend : Type 0 where
  pub base_url : Str
  pub boot_seconds : ℕ
  pub started_at : Option ℕ

unfoldable pub init : Str → ℕ → FakeGpuBackend
init url boot = record { base_url = url; boot_seconds = boot; started_at = none }

unfoldable pub start : ℕ → Exec FakeGpuBackend (Unit {0})
start now b = elim b.started_at [
  | none ↦ (ok tt, record b { started_at = some now })
  | some t ↦ (ok tt, b)
]

unfoldable pub stop : ℕ → Exec FakeGpuBackend (Unit {0})
stop now b = (ok tt, record b { started_at = none })

-- The subtraction of the source is moved to the other side.
unfoldable pub is_healthy : ℕ → Exec FakeGpuBackend Bool
is_healthy now b = elim b.started_at [
  | none ↦ (ok false, b)
  | some t ↦ (ok (leb (t + b.boot_seconds) now), b)
]

-- The fake as a `ComputeBackend`.
abbrev pub backend : ComputeBackend
backend = record {
  Box = FakeGpuBackend;
  base_url = λ b. b.base_url;
  start = start;
  stop = stop;
  is_healthy = is_healthy;
}
