-- ===== src/Gateway/Tasks/Moves.antt =====
-- A step of a task, within the atomic methods.
use open_warehouse_agent.Gateway.Compute.{ComputeBackend}
use open_warehouse_agent.Gateway.State.{stopped, starting, Controller, ensure_ready}
use open_warehouse_agent.Gateway.Tasks.{
  Pc, idle, waiting, starting_box, polling, proxying, due, stopping, answered, reaped, held,
  released, after_poll, move,
}
use open_warehouse_agent.Py.Result.{Result, ok, err}
use open_warehouse_agent.Base.{ℕ, ◌≡◌, refl, sym, inl, inr, Bool, true, false, arith, subst}
use open_warehouse_agent.Gateway.Tasks.Atomic.{
  inside, drifting, Atomic, serves, drifts, Explained, Settled, begin-Settled, begin_reap-Settled,
  after_start-Settled, after_stop-Settled,
}

module _ (K : ComputeBackend) (c₀ : Controller K.Box) where
  -- The outcome of a poll in the state that the whole method leaves.
  outcome : Result Bool → Pc
  outcome (ok true) = proxying
  outcome r = answered r

  poll-starting :
      (now : ℕ) (c : Controller K.Box)
      → c.state ≡ starting
      → after_poll K now (K.is_healthy now c.backend) c ≡ (
        outcome (K.is_healthy now c.backend).0,
        released K (ensure_ready (drifting K (λ b. b)) now now now c).1,
      )
  unfolding ensure_ready outcome
  poll-starting now c e = ground arith

  poll-stopped :
      (now s : ℕ) (f : K.Box → K.Box) (d : Controller K.Box)
      → d.state ≡ stopped
      → (K.start s d.backend).0 ≡ ok tt
      → after_poll K now
          (K.is_healthy now (f (K.start s d.backend).1))
          (record d { state = starting; backend = f (K.start s d.backend).1 })
        ≡ (
          outcome (K.is_healthy now (f (K.start s d.backend).1)).0,
          released K (ensure_ready (drifting K f) s now now d).1,
        )
  unfolding ensure_ready outcome
  poll-stopped now s f d e r = ground arith

  outside-outcome : (r : Result Bool) → inside (outcome r) ≡ false
  unfolding outcome
  outside-outcome (ok true) = refl
  outside-outcome (ok false) = refl
  outside-outcome (err e) = refl

  after_poll-Settled :
      (now : ℕ) (c : Controller K.Box)
      → Explained K c₀ c polling
      → Settled K c₀ (after_poll K now (K.is_healthy now c.backend) c)
  after_poll-Settled now c (inl (h, e)) =
      subst (Settled K c₀) (sym (poll-starting now c e))
        (inl (refl, outside-outcome _, serves (λ b. b) now now now h))
  after_poll-Settled now c (inr (d, s, f, h, e, r, q)) =
      subst (λ x. Settled K c₀ (after_poll K now (K.is_healthy now x.backend) x)) (sym q)
        (subst (Settled K c₀) (sym (poll-stopped now s f d e r))
          (inl (refl, outside-outcome _, serves f s now now h)))

  -- A task outside runs while the lock is free.
  pub move-released :
      (now : ℕ) (p : Pc) (c : Controller K.Box)
      → inside p ≡ false
      → Atomic K c₀ c
      → Settled K c₀ (move K now p (released K c))
  unfolding move
  move-released now idle c e h = inl (refl, refl, h)
  move-released now waiting c e h = begin-Settled K c₀ now c h
  move-released now due c e h = begin_reap-Settled K c₀ now c h
  move-released now proxying c e h = inl (refl, refl, h)
  move-released now (answered r) c e h = inl (refl, refl, h)
  move-released now (reaped r) c e h = inl (refl, refl, h)
  move-released now starting_box c e h = absurd (cc)
  move-released now polling c e h = absurd (cc)
  move-released now (stopping t) c e h = absurd (cc)

  -- The task inside goes on.
  pub move-held :
      (now : ℕ) (p : Pc) (c : Controller K.Box)
      → Explained K c₀ c p
      → Settled K c₀ (move K now p (held K c))
  unfolding move
  move-held now starting_box c h = after_start-Settled K c₀ now c h
  move-held now polling c h = after_poll-Settled now c h
  move-held now (stopping t) c h = after_stop-Settled K c₀ t c h
  move-held now p c h = absurd h

  -- A change of the box from outside, in the middle of a method.
  pub Explained-drift :
      (f : K.Box → K.Box) (p : Pc) (c : Controller K.Box)
      → Explained K c₀ c p
      → Explained K c₀ (record c { backend = f c.backend }) p
  Explained-drift f starting_box c (d, h, e, q) =
      (record d { backend = f d.backend }, drifts f h, e, ground arith)
  Explained-drift f polling c (inl (h, e)) = inl (drifts f h, e)
  Explained-drift f polling c (inr (d, s, g, h, e, r, q)) =
      inr (d, s, (λ b. f (g b)), h, e, r, ground arith)
  Explained-drift f (stopping t) c (h, e) = (drifts f h, e)
  Explained-drift f p c h = absurd h

-- A task outside changes nothing while another is inside.
pub move-blocked :
    (K : ComputeBackend) (now : ℕ) (p : Pc) (c : Controller K.Box)
    → inside p ≡ false
    → ((move K now p (held K c)).1 ≡ held K c) × (inside (move K now p (held K c)).0 ≡ false)
unfolding move
move-blocked K now starting_box c e = absurd (cc)
move-blocked K now polling c e = absurd (cc)
move-blocked K now (stopping t) c e = absurd (cc)
move-blocked K now p c e = (refl, refl)
