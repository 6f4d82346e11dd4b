-- ===== src/Gateway/Tasks.antt =====
-- gateway/state.py and gateway/app.py with every `await` a place where another task may run: any
-- number of requests, the reaper, and the world outside, in any order.
pub mod Atomic
pub mod Moves
pub mod Refines
pub mod Progress
use open_warehouse_agent.Gateway.Compute.{ComputeBackend}
use open_warehouse_agent.Gateway.State.{stopped, starting, ready, Controller, idle_past}
use open_warehouse_agent.Py.Result.{Result, ok, err}
use open_warehouse_agent.Base.{ℕ, ◌==◌, if◌then◌else◌, Bool, true, false, none, some, List, [], ◌∷◌}

-- Where a task stands. `waiting` and `due` are at the `async with self._lock` of `ensure_ready` and
-- of `reap_if_idle`; `starting_box`, `polling` and `stopping` await a call of the backend, the last
-- with the time of its check; `proxying` awaits the upstream of `chat_completions`.
pub data Pc : Type 0 where
  idle waiting starting_box polling proxying due : Pc
  stopping : ℕ → Pc
  answered : Result Bool → Pc
  reaped : Result Bool → Pc

-- The controller, and whether its lock is taken.
pub record Shared (Box : Type 0) : Type 0 where
  pub controller : Controller Box
  pub locked : Bool

-- The tasks are numbered.
pub record System (Box : Type 0) : Type 0 where
  pub shared : Shared Box
  pub pc : ℕ → Pc

abbrev pub update : (ℕ → Pc) → ℕ → Pc → ℕ → Pc
update f i p j = if j == i then p else f j

module _ (K : ComputeBackend) where
  abbrev held : Controller K.Box → Shared K.Box
  held c = record { controller = c; locked = true }

  abbrev released : Controller K.Box → Shared K.Box
  released c = record { controller = c; locked = false }

  -- `ensure_ready` from the taking of the lock to the first `await`, or to its end.
  unfoldable pub begin : ℕ → Controller K.Box → Pc × Shared K.Box
  begin now c = elim c.state [
    | stopped ↦ (starting_box, held (record c { state = starting }))
    | starting ↦ (polling, held c)
    | ready ↦ (proxying, released (record c { last_activity = some now }))
  ]

  -- From the end of `backend.start()` on. An exception leaves the `async with`, which unlocks.
  abbrev pub after_start : Result (Unit {0}) × K.Box → Controller K.Box → Pc × Shared K.Box
  after_start (ok u, b) c = (polling, held (record c { backend = b }))
  after_start (err e, b) c = (answered (err e), released (record c { backend = b }))

  -- From the end of `backend.is_healthy()` on.
  abbrev pub after_poll : ℕ → Result Bool × K.Box → Controller K.Box → Pc × Shared K.Box
  after_poll now (ok true, b) c =
      (proxying, released (record c { backend = b; state = ready; last_activity = some now }))
  after_poll now (ok false, b) c = (answered (ok false), released (record c { backend = b }))
  after_poll now (err e, b) c = (answered (err e), released (record c { backend = b }))

  -- `reap_if_idle` from the taking of the lock on.
  unfoldable pub begin_reap : ℕ → Controller K.Box → Pc × Shared K.Box
  begin_reap now c =
      if idle_past K now c.state c.last_activity c.idle_timeout_seconds
      then (stopping now, held c)
      else (reaped (ok false), released c)

  -- From the end of `backend.stop()` on.
  abbrev pub after_stop : Result (Unit {0}) × K.Box → Controller K.Box → Pc × Shared K.Box
  after_stop (ok u, b) c =
      (reaped (ok true), released (record c { backend = b; state = stopped; last_activity = none }))
  after_stop (err e, b) c = (reaped (err e), released (record c { backend = b }))

  -- What a task does when it runs, up to its next `await`. A lock that is taken blocks it.
  unfoldable pub move : ℕ → Pc → Shared K.Box → Pc × Shared K.Box
  unfolding begin begin_reap
  move now waiting s = elim s.locked [ true ↦ (waiting, s) | false ↦ begin now s.controller ]
  move now due s = elim s.locked [ true ↦ (due, s) | false ↦ begin_reap now s.controller ]
  move now starting_box s = after_start (K.start now s.controller.backend) s.controller
  move now polling s = after_poll now (K.is_healthy now s.controller.backend) s.controller
  move now (stopping t) s = after_stop (K.stop t s.controller.backend) s.controller
  move now proxying s = (answered (ok true), s)
  move now p s = (p, s)

  -- What happens next: a request that arrives at a task, a round of the reaper, a task that runs at
  -- a time, or a change of the box from outside.
  pub data Action : Type 0 where
    call : ℕ → Action
    round : ℕ → Action
    turn : ℕ → ℕ → Action
    drift : (K.Box → K.Box) → Action

  abbrev to_wait : Pc → Pc → Pc
  to_wait p idle = p
  to_wait p (answered r) = p
  to_wait p (reaped r) = p
  to_wait p q = q

  unfoldable pub act : System K.Box → Action → System K.Box
  unfolding move
  act s (call i) = record s { pc = update s.pc i (to_wait waiting (s.pc i)) }
  act s (round i) = record s { pc = update s.pc i (to_wait due (s.pc i)) }
  act s (turn i now) =
      let (p, shared) = move now (s.pc i) s.shared in
      record { shared = shared; pc = update s.pc i p }
  act s (drift f) =
      let c = s.shared.controller in
      record s {
        shared = record {
          controller = record c { backend = f c.backend };
          locked = s.shared.locked;
        };
      }

  unfoldable pub trace : System K.Box → List Action → System K.Box
  unfolding act
  trace s [] = s
  trace s (a ∷ rest) = trace (act s a) rest

  -- Before any task has run.
  abbrev pub at_rest : Controller K.Box → System K.Box
  at_rest c = record { shared = released c; pc = λ i. idle }
