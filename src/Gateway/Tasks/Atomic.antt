-- ===== src/Gateway/Tasks/Atomic.antt =====
-- The interleaved tasks refine the atomic methods of Gateway/State.
use open_warehouse_agent.Gateway.Compute.{ComputeBackend}
use open_warehouse_agent.Gateway.State.{
  GatewayState, stopped, starting, ready, Controller, idle_past, ensure_ready, reap_if_idle,
}
use open_warehouse_agent.Gateway.Tasks.{
  Pc, starting_box, polling, proxying, stopping, answered, reaped, Shared, held, released, begin,
  begin_reap, after_start, after_stop,
}
use open_warehouse_agent.Py.Result.{Exc, ok, err, Result-cases}
use open_warehouse_agent.Base.{
  ℕ, ◌≡◌, refl, sym, ◌⊎◌, inl, inr, Bool, true, false, some, arith, Bool-cases, subst,
}

-- The task is in the middle of a method, awaiting the backend.
abbrev pub inside : Pc → Bool
inside starting_box = true
inside polling = true
inside (stopping t) = true
inside p = false

module _ (K : ComputeBackend) where
  -- The backend, changed from outside just before it is polled.
  abbrev pub drifting : (K.Box → K.Box) → ComputeBackend
  drifting f = record K { is_healthy = λ t b. K.is_healthy t (f b) }

  -- The controllers that whole methods, one after the other, and changes of the box between and
  -- within them lead to.
  pub data Atomic (c : Controller K.Box) : Controller K.Box → Type 0 where
    here : Atomic c c
    serves :
        {d : Controller K.Box} (f : K.Box → K.Box) (s p now : ℕ)
        → Atomic c d
        → Atomic c (ensure_ready (drifting f) s p now d).1
    reaps : {d : Controller K.Box} (now : ℕ) → Atomic c d → Atomic c (reap_if_idle K now d).1
    drifts :
        {d : Controller K.Box} (f : K.Box → K.Box)
        → Atomic c d
        → Atomic c (record d { backend = f d.backend })

  module _ (c₀ : Controller K.Box) where
    -- In the middle of a method, by where its task stands: the controller is that of the methods
    -- before, and of the part of this one that is done.
    abbrev pub Explained : Controller K.Box → Pc → Type 0
    Explained c starting_box =
        (d : Controller K.Box) × Atomic c₀ d
        × (d.state ≡ stopped)
        × (c ≡ record d { state = starting })
    Explained c polling =
        (Atomic c₀ c × (c.state ≡ starting))
        ⊎ ((d : Controller K.Box) × (s : ℕ) × (f : K.Box → K.Box) × Atomic c₀ d
            × (d.state ≡ stopped)
            × ((K.start s d.backend).0 ≡ ok tt)
            × (c ≡ record d { state = starting; backend = f (K.start s d.backend).1 }))
    Explained c (stopping t) =
        Atomic c₀ c × (idle_past K t c.state c.last_activity c.idle_timeout_seconds ≡ true)
    Explained c p = ⊥

    -- What a task leaves behind: the lock free and itself outside, or the lock taken and itself
    -- inside.
    abbrev pub Settled : Pc × Shared K.Box → Type 0
    Settled (p, s) =
        ((s.locked ≡ false) × (inside p ≡ false) × Atomic c₀ s.controller)
        ⊎ ((s.locked ≡ true) × (inside p ≡ true) × Explained s.controller p)

    state-cases : (s : GatewayState) → (s ≡ stopped) ⊎ ((s ≡ starting) ⊎ (s ≡ ready))
    state-cases stopped = inl refl
    state-cases starting = inr (inl refl)
    state-cases ready = inr (inr refl)

    ready-serves :
        (now : ℕ) (c : Controller K.Box)
        → c.state ≡ ready
        → (ensure_ready (drifting (λ b. b)) now now now c).1 ≡ record c { last_activity = some now }
    unfolding ensure_ready
    ready-serves now c e = ground arith

    pub begin-Settled : (now : ℕ) (c : Controller K.Box) → Atomic c₀ c → Settled (begin K now c)
    unfolding begin
    begin-Settled now c h = elim (state-cases c.state) [
      | inl e ↦ rw e (inr (refl, refl, (c, h, e, refl)))
      | inr (inl e) ↦
          let q : begin K now c ≡ (polling, held K c) = ground arith in
          subst Settled (sym q) (inr (refl, refl, inl (h, e)))
      | inr (inr e) ↦
          let q : begin K now c ≡ (proxying, released K (record c { last_activity = some now })) =
            ground arith in
          subst Settled (sym q) (
            inl (
              refl,
              refl,
              subst (Atomic c₀) (ready-serves now c e) (serves (λ b. b) now now now h),
            ))
    ]

    pub begin_reap-Settled :
        (now : ℕ) (c : Controller K.Box) → Atomic c₀ c → Settled (begin_reap K now c)
    unfolding begin_reap
    begin_reap-Settled now c h =
        elim (Bool-cases (idle_past K now c.state c.last_activity c.idle_timeout_seconds)) [
          | inl e ↦ rw e (inr (refl, refl, (h, e)))
          | inr e ↦ rw e (inl (refl, refl, h))
        ]

    -- The start of a STOPPED box raises: the method is over.
    raises-serves :
        (now : ℕ) (d : Controller K.Box) (e : Exc)
        → d.state ≡ stopped
        → (K.start now d.backend).0 ≡ err e
        → (ensure_ready (drifting (λ b. b)) now now now d).1
          ≡ record d { state = starting; backend = (K.start now d.backend).1 }
    unfolding ensure_ready
    raises-serves now d e h r = ground arith

    pub after_start-Settled :
        (now : ℕ) (c : Controller K.Box)
        → Explained c starting_box
        → Settled (after_start K (K.start now c.backend) c)
    after_start-Settled now c (d, h, e, q) = elim (Result-cases (K.start now d.backend).0) [
      | inl (u, r) ↦
          let x : after_start K (K.start now c.backend) c ≡ (
            polling,
            held K (record d { state = starting; backend = (K.start now d.backend).1 }),
          ) =
            ground arith in
          subst Settled (sym x) (inr (refl, refl, inr (d, now, (λ b. b), h, e, r, refl)))
      | inr (m, r) ↦
          let x : after_start K (K.start now c.backend) c ≡ (
            answered (err m),
            released K (record d { state = starting; backend = (K.start now d.backend).1 }),
          ) =
            ground arith in
          subst Settled (sym x) (
            inl (
              refl,
              refl,
              subst (Atomic c₀) (raises-serves now d m e r) (serves (λ b. b) now now now h),
            ))
    ]

    pub after_stop-Settled :
        (t : ℕ) (c : Controller K.Box)
        → Explained c (stopping t)
        → Settled (after_stop K (K.stop t c.backend) c)
    after_stop-Settled t c (h, e) = elim (Result-cases (K.stop t c.backend).0) [
      | inl (u, r) ↦
          let x : after_stop K (K.stop t c.backend) c
              ≡ (reaped (ok true), released K (reap_if_idle K t c).1) =
            unfold reap_if_idle in ground arith in
          subst Settled (sym x) (inl (refl, refl, reaps t h))
      | inr (m, r) ↦
          let x : after_stop K (K.stop t c.backend) c
              ≡ (reaped (err m), released K (reap_if_idle K t c).1) =
            unfold reap_if_idle in ground arith in
          subst Settled (sym x) (inl (refl, refl, reaps t h))
    ]
