-- ===== src/Gateway/Tasks/Progress.antt =====
-- The lock comes free again, and what it does not protect.
use open_warehouse_agent.Gateway.Compute.{ComputeBackend}
use open_warehouse_agent.Gateway.State.{stopped, ready, Controller}
use open_warehouse_agent.Gateway.Tasks.{
  Pc, due, answered, reaped, starting_box, polling, proxying, stopping, Shared, System, held,
  released, after_start, after_poll, after_stop, begin_reap, move, turn, act, trace,
}
use open_warehouse_agent.Gateway.Tasks.Atomic.{inside}
use open_warehouse_agent.Gateway.Tasks.Refines.{update-same}
use open_warehouse_agent.Py.Result.{Result, ok, err}
use open_warehouse_agent.Base.{
  ℕ, ◌+◌, ◌≤◌, ◌≡◌, refl, sym, Bool, true, false, none, some, [], ◌∷◌, arith, subst,
}

module _ (K : ComputeBackend) where
  -- The task is done with its method, and the lock is free.
  abbrev IsOut : Pc × Shared K.Box → Type 0
  IsOut (p, s) = (s.locked ≡ false) × (inside p ≡ false)

  after_poll-IsOut :
      (now : ℕ) (x : Result Bool × K.Box) (c : Controller K.Box) → IsOut (after_poll K now x c)
  after_poll-IsOut now (ok true, b) c = (refl, refl)
  after_poll-IsOut now (ok false, b) c = (refl, refl)
  after_poll-IsOut now (err e, b) c = (refl, refl)

  -- After one turn of a task inside: it is out and the lock is free, or it polls.
  abbrev IsDone : Pc × Shared K.Box → Type 0
  IsDone (proxying, s) = s.locked ≡ false
  IsDone (answered r, s) = s.locked ≡ false
  IsDone (reaped r, s) = s.locked ≡ false
  IsDone (polling, s) = Unit
  IsDone (p, s) = ⊥

  first : (now : ℕ) (p : Pc) (s : Shared K.Box) → inside p ≡ true → IsDone (move K now p s)
  unfolding move
  first now starting_box s h = go (K.start now s.controller.backend)
    where
      go : (x : Result (Unit {0}) × K.Box) → IsDone (after_start K x s.controller)
      go (ok u, b) = tt
      go (err e, b) = refl
  first now polling s h = go (K.is_healthy now s.controller.backend)
    where
      go : (x : Result Bool × K.Box) → IsDone (after_poll K now x s.controller)
      go (ok true, b) = refl
      go (ok false, b) = refl
      go (err e, b) = refl
  first now (stopping t) s h = go (K.stop t s.controller.backend)
    where
      go : (x : Result (Unit {0}) × K.Box) → IsDone (after_stop K x s.controller)
      go (ok u, b) = refl
      go (err e, b) = refl
  first now p s h = absurd (cc)

  second : (now : ℕ) (x : Pc × Shared K.Box) → IsDone x → (move K now x.0 x.1).1.locked ≡ false
  unfolding move
  second now (proxying, s) h = h
  second now (answered r, s) h = h
  second now (reaped r, s) h = h
  second now (polling, s) h =
      (after_poll-IsOut now (K.is_healthy now s.controller.backend) s.controller).0
  second now (p, s) h = absurd h

  -- A method under the lock ends: from any state in which a task is in the middle of one, two turns
  -- of that task leave the lock free, whatever the backend answers or raises.
  pub turns-release :
      (s : System K.Box) (i now later : ℕ)
      → inside (s.pc i) ≡ true
      → (trace K s (turn i now ∷ turn i later ∷ [])).shared.locked ≡ false
  unfolding trace act
  turns-release s i now later h =
      subst (λ p. (move K later p (move K now (s.pc i) s.shared).1).1.locked ≡ false)
        (sym (update-same s.pc i (move K now (s.pc i) s.shared).0))
        (second later (move K now (s.pc i) s.shared) (first now (s.pc i) s.shared h))

  reap_begins :
      (c : Controller K.Box) (t now : ℕ)
      → c.state ≡ ready
      → c.last_activity ≡ some t
      → t + c.idle_timeout_seconds ≤ now
      → move K now due (released K c) ≡ (stopping now, held K c)
  unfolding move begin_reap
  reap_begins c t now r a d = ground arith

  reap_ends :
      (c : Controller K.Box) (now later : ℕ)
      → (K.stop now c.backend).0 ≡ ok tt
      → move K later (stopping now) (held K c) ≡ (
        reaped (ok true),
        released K (record c {
          backend = (K.stop now c.backend).1;
          state = stopped;
          last_activity = none;
        }),
      )
  unfolding move
  reap_ends c now later h = ground arith

  -- The lock does not cover the proxied request: a reap that comes when the timeout has passed since
  -- the last activity, which is when a request began, stops the box while a request still waits for
  -- the upstream, if the stop of the backend returns.
  pub reap-proxying :
      (s : System K.Box) (c : Controller K.Box) (i j t now later : ℕ)
      → s.shared ≡ released K c
      → c.state ≡ ready
      → c.last_activity ≡ some t
      → s.pc i ≡ proxying
      → s.pc j ≡ due
      → t + c.idle_timeout_seconds ≤ now
      → (K.stop now c.backend).0 ≡ ok tt
      → ((trace K s (turn j now ∷ turn j later ∷ [])).shared.controller
          ≡ record c { backend = (K.stop now c.backend).1; state = stopped; last_activity = none })
        × ((trace K s (turn j now ∷ turn j later ∷ [])).pc i ≡ proxying)
  unfolding trace act
  reap-proxying s c i j t now later e r a p q d h =
      let m : move K now (s.pc j) s.shared ≡ (stopping now, held K c) =
        rw (q, e) (reap_begins c t now r a d) in
      ground (arith, m, reap_ends c now later h, update-same s.pc j (stopping now))
