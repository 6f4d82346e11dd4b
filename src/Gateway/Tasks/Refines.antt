-- ===== src/Gateway/Tasks/Refines.antt =====
-- Whatever the tasks do: one at a time is inside, and between methods all is as if they were atomic.
use open_warehouse_agent.Gateway.Compute.{ComputeBackend}
use open_warehouse_agent.Gateway.State.{Controller}
use open_warehouse_agent.Gateway.Tasks.{
  Pc, idle, waiting, due, answered, reaped, Shared, System, update, held, released, move, Action,
  call, round, turn, drift, to_wait, act, trace, at_rest,
}
use open_warehouse_agent.Gateway.Tasks.Atomic.{inside, Atomic, here, drifts, Explained, Settled}
use open_warehouse_agent.Gateway.Tasks.Moves.{
  move-released, move-held, move-blocked, Explained-drift,
}
use open_warehouse_agent.Base.{
  ℕ, ◌==◌, ◌≡◌, refl, sym, ◌∙◌, ◌≢◌, ◌⊎◌, inl, inr, true, false, List, [], ◌∷◌, arith, Bool-cases,
  ==_iff, subst,
}

pub update-same : (f : ℕ → Pc) (i : ℕ) (p : Pc) → update f i p i ≡ p
update-same f i p = ground arith

module _ (K : ComputeBackend) (c₀ : Controller K.Box) where
  -- The lock is free and all tasks are outside; or one is inside, alone, and holds it.
  abbrev pub IsExclusive : System K.Box → Type 0
  IsExclusive s =
      ((c : Controller K.Box) × (s.shared ≡ released K c)
        × ((i : ℕ) → inside (s.pc i) ≡ false)
        × Atomic K c₀ c)
      ⊎ ((c : Controller K.Box) × (h : ℕ) × (s.shared ≡ held K c)
          × (inside (s.pc h) ≡ true)
          × ((i : ℕ) → inside (s.pc i) ≡ true → i ≡ h)
          × Explained K c₀ c (s.pc h))

  -- Only tasks outside have moved.
  moved_outside :
      (s : System K.Box) (pc : ℕ → Pc)
      → ((i : ℕ) → inside (pc i) ≡ inside (s.pc i))
      → ((i : ℕ) → inside (s.pc i) ≡ true → pc i ≡ s.pc i)
      → IsExclusive s
      → IsExclusive (record s { pc = pc })
  moved_outside s pc same kept (inl (c, e, out, h)) = inl (c, e, (λ i. same i ∙ out i), h)
  moved_outside s pc same kept (inr (c, h, e, is_in, one, x)) = inr (
    c,
    h,
    e,
    same h ∙ is_in,
    (λ i q. one i (sym (same i) ∙ q)),
    subst (Explained K c₀ c) (sym (kept h is_in)) x,
  )

  -- One task has moved, and all others are outside.
  settle-IsExclusive :
      (s : System K.Box) (i : ℕ) (x : Pc × Shared K.Box)
      → ((j : ℕ) → j ≢ i → inside (s.pc j) ≡ false)
      → Settled K c₀ x
      → IsExclusive (record { shared = x.1; pc = update s.pc i x.0 })
  settle-IsExclusive s i (p, sh) out (inl (e, o, h)) =
      inl (sh.controller, ground arith, (λ j. ground (arith, out j)), h)
  settle-IsExclusive s i (p, sh) out (inr (e, o, h)) = inr (
    sh.controller,
    i,
    ground arith,
    ground arith,
    (λ j q. ground (arith, out j)),
    subst (Explained K c₀ sh.controller) (sym (update-same s.pc i p)) h,
  )

  to_wait-inside : (w q : Pc) → inside w ≡ false → inside (to_wait K w q) ≡ inside q
  to_wait-inside w idle e = e
  to_wait-inside w (answered r) e = e
  to_wait-inside w (reaped r) e = e
  to_wait-inside w q e = refl

  to_wait-kept : (w q : Pc) → inside q ≡ true → to_wait K w q ≡ q
  to_wait-kept w idle e = absurd (cc)
  to_wait-kept w (answered r) e = absurd (cc)
  to_wait-kept w (reaped r) e = absurd (cc)
  to_wait-kept w q e = refl

  waits-IsExclusive :
      (w : Pc) (s : System K.Box) (i : ℕ)
      → inside w ≡ false
      → IsExclusive s
      → IsExclusive (record s { pc = update s.pc i (to_wait K w (s.pc i)) })
  waits-IsExclusive w s i e =
      moved_outside s _ (λ j. ground (arith, to_wait-inside w (s.pc i) e))
        (λ j q. ground (arith, to_wait-kept w (s.pc i)))

  turn-IsExclusive :
      (s : System K.Box) (i now : ℕ) → IsExclusive s → IsExclusive (act K s (turn i now))
  unfolding act
  turn-IsExclusive s i now (inl (c, e, out, h)) =
      settle-IsExclusive s i (move K now (s.pc i) s.shared) (λ j n. out j)
        (rw e (move-released K c₀ now (s.pc i) c (out i) h))
  turn-IsExclusive s i now (inr (c, h, e, is_in, one, x)) = elim (Bool-cases (i == h)) [
    | inl q ↦
        let at : i ≡ h = (==_iff i h).0 q in
        settle-IsExclusive s i (move K now (s.pc i) s.shared)
          (λ j n. outside j (λ is_in_j. n (one j is_in_j ∙ sym at)))
          (rw e (move-held K c₀ now (s.pc i) c (subst (λ k. Explained K c₀ c (s.pc k)) (sym at) x)))
    | inr q ↦
        let out : inside (s.pc i) ≡ false = outside i (λ is_in_i. ground (arith, one i is_in_i)) in
        let (kept, still) = move-blocked K now (s.pc i) c out in
        let shared : (move K now (s.pc i) s.shared).1 ≡ s.shared = rw e kept in
        let pc : inside (move K now (s.pc i) s.shared).0 ≡ false = rw e still in
        subst
          (λ sh.
            IsExclusive
              (record { shared = sh; pc = update s.pc i (move K now (s.pc i) s.shared).0 }))
          (sym shared)
          (moved_outside s _ (λ j. ground (arith, pc, out)) (λ j r. ground (arith, out))
            (inr (c, h, e, is_in, one, x)))
  ]
    where
      outside : (j : ℕ) → (inside (s.pc j) ≡ true → ⊥) → inside (s.pc j) ≡ false
      outside j n = ground arith

  drift-IsExclusive :
      (s : System K.Box) (f : K.Box → K.Box) → IsExclusive s → IsExclusive (act K s (drift f))
  unfolding act
  drift-IsExclusive s f (inl (c, e, out, h)) =
      inl (record c { backend = f c.backend }, ground arith, out, drifts f h)
  drift-IsExclusive s f (inr (c, h, e, is_in, one, x)) = inr (
    record c { backend = f c.backend },
    h,
    ground arith,
    is_in,
    one,
    Explained-drift K c₀ f (s.pc h) c x,
  )

  act-IsExclusive : (s : System K.Box) (a : Action K) → IsExclusive s → IsExclusive (act K s a)
  unfolding act
  act-IsExclusive s (call i) h = waits-IsExclusive waiting s i refl h
  act-IsExclusive s (round i) h = waits-IsExclusive due s i refl h
  act-IsExclusive s (turn i now) h = turn-IsExclusive s i now h
  act-IsExclusive s (drift f) h = drift-IsExclusive s f h

  trace-IsExclusive :
      (rest : List (Action K)) (s : System K.Box) → IsExclusive s → IsExclusive (trace K s rest)
  unfolding trace
  trace-IsExclusive [] s h = h
  trace-IsExclusive (a ∷ rest) s h = trace-IsExclusive rest (act K s a) (act-IsExclusive s a h)

  reachable : (actions : List (Action K)) → IsExclusive (trace K (at_rest K c₀) actions)
  reachable actions = trace-IsExclusive actions (at_rest K c₀) (inl (c₀, refl, (λ i. refl), here))

  -- Two tasks are never in the middle of a method together, so the backend gets one call at a time.
  pub trace-inside_once :
      (actions : List (Action K)) (i j : ℕ)
      → inside ((trace K (at_rest K c₀) actions).pc i) ≡ true
      → inside ((trace K (at_rest K c₀) actions).pc j) ≡ true
      → i ≡ j
  trace-inside_once actions i j p q = elim (reachable actions) [
    | inl (c, e, out, h) ↦ absurd (ground (arith, out i))
    | inr (c, h, e, is_in, one, x) ↦ one i p ∙ sym (one j q)
  ]

  -- The interleaved tasks refine the atomic methods: whenever the lock is free, the controller is
  -- one that whole calls of `ensure_ready` and `reap_if_idle`, one after the other, lead to, with
  -- changes of the box from outside.
  pub trace-Atomic :
      (actions : List (Action K))
      → (trace K (at_rest K c₀) actions).shared.locked ≡ false
      → Atomic K c₀ (trace K (at_rest K c₀) actions).shared.controller
  trace-Atomic actions free = elim (reachable actions) [
    | inl (c, e, out, h) ↦ rw e h
    | inr (c, h, e, is_in, one, x) ↦ absurd (ground arith)
  ]
