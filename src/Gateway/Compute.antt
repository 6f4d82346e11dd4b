-- ===== src/Gateway/Compute.antt =====
-- gateway/compute.py: what a compute backend offers, and a backend that counts its calls.
use open_warehouse_agent.Py.Str.{Str}
use open_warehouse_agent.Py.Result.{Result, ok, err}
use open_warehouse_agent.Py.Exec.{Exec}
use open_warehouse_agent.Base.{ℕ, ◌+◌, Bool}

-- The protocol `ComputeBackend`. A `Box` is a backend object together with the outside world that
-- it talks to. Each call is given the reading of the monotonic clock while it runs.
pub record ComputeBackend : Type 1 where
  pub Box : Type 0
  pub base_url : Box → Str
  pub start : ℕ → Exec Box (Unit {0})
  pub stop : ℕ → Exec Box (Unit {0})
  pub is_healthy : ℕ → Exec Box Bool

-- A box with the number of `start` calls made and of `stop` calls that returned.
pub record Counted (Box : Type 0) : Type 0 where
  pub box : Box
  pub starts : ℕ
  pub stops : ℕ

abbrev pub returned : Result (Unit {0}) → ℕ
returned (ok u) = 1
returned (err e) = 0

module _ (K : ComputeBackend) where
  unfoldable pub count_start : ℕ → Exec (Counted K.Box) (Unit {0})
  count_start t b =
      let (r, box) = K.start t b.box in (r, record b { box = box; starts = b.starts + 1 })

  unfoldable pub count_stop : ℕ → Exec (Counted K.Box) (Unit {0})
  count_stop t b =
      let (r, box) = K.stop t b.box in (r, record b { box = box; stops = b.stops + returned r })

  unfoldable pub count_poll : ℕ → Exec (Counted K.Box) Bool
  count_poll t b = let (r, box) = K.is_healthy t b.box in (r, record b { box = box })

  -- The same backend, counting.
  abbrev pub counted : ComputeBackend
  counted = record {
    Box = Counted K.Box;
    base_url = λ b. K.base_url b.box;
    start = count_start;
    stop = count_stop;
    is_healthy = count_poll;
  }
