-- ===== src/Gateway/App/Lifespan/Reaping.antt =====
-- What the reaper does over the life of the app.
use open_warehouse_agent.Gateway.Compute.{ComputeBackend}
use open_warehouse_agent.Gateway.State.{
  Controller, reap_if_idle, ensure_ready, Round, run_idle_reaper,
}
use open_warehouse_agent.Gateway.App.{
  Upstream, App, post_chat_completions, require_bearer_token, forward,
}
use open_warehouse_agent.Gateway.App.Lifespan.{
  awaited, looping, raised, Life, build_app, Other, post, drift, Event, reap, other, happen,
  reaper_turn, end_round, live, startup, lifespan, shutdown,
}
use open_warehouse_agent.Py.Str.{Str}
use open_warehouse_agent.Py.Result.{Exc, Result, ok, err}
use open_warehouse_agent.Py.Exec.{continue}
use open_warehouse_agent.Base.{
  ℕ, ◌≡◌, refl, sym, ap, ◌∙◌, Bool, true, Option, none, some, List, [], ◌∷◌, ◌++◌, map, arith,
  subst,
}

module _ (K : ComputeBackend) (U : Upstream) (token : Str) where
  -- What a request and a change from outside do to the controller.
  unfoldable pub effect : Controller K.Box → Other K U → Controller K.Box
  effect c (post s p now r) = elim (require_bearer_token token r) [
    | ok u ↦ (ensure_ready K s p now c).1
    | err e ↦ c
  ]
  effect c (drift f) = record c { backend = f c.backend }

  unfoldable pub effects : List (Other K U) → Controller K.Box → Controller K.Box
  effects [] c = c
  effects (o ∷ os) c = effects os (effect c o)

  pub happen-effect :
      (a : App K U) (o : Other K U) → (happen K U token a o).controller ≡ effect a.controller o
  unfolding happen effect post_chat_completions forward
  happen-effect a (post s p now r) = ground arith
  happen-effect a (drift f) = refl

  -- A round of `run_idle_reaper`, with what happens until the next.
  abbrev pub round_of : ℕ × List (Other K U) → Round K
  round_of r = record { now = r.0; others = effects r.1 }

  abbrev pub others : List (Other K U) → List (Event K U)
  others os = map other os

  -- The same as events of the app.
  abbrev pub schedule : List (ℕ × List (Other K U)) → List (Event K U)
  schedule [] = []
  schedule (r ∷ rs) = reap r.0 ∷ (others r.1 ++ schedule rs)

  live-others :
      (os : List (Other K U)) (es : List (Event K U)) (l : Life K U)
      → (a : App K U) × (a.controller ≡ effects os l.app.controller)
        × (live K U token (others os ++ es) l ≡ live K U token es (record l { app = a }))
  unfolding live effects
  live-others [] es l = (l.app, refl, refl)
  live-others (o ∷ os) es l =
      let (a, e, f) = live-others os es (record l { app = happen K U token l.app o }) in
      (a, e ∙ ap (effects os) (happen-effect l.app o), f)

  pub reaper_turn-raised :
      (now : ℕ) (l : Life K U) (e : Exc)
      → l.reaper_task ≡ raised e
      → reaper_turn K U token now l.reaper_task l ≡ l
  unfolding reaper_turn
  reaper_turn-raised now l e h = ap (λ t. reaper_turn K U token now t l) h

  pub live-raised :
      (es : List (Event K U)) (l : Life K U) (e : Exc)
      → l.reaper_task ≡ raised e
      → (live K U token es l).reaper_task ≡ raised e
  unfolding live
  live-raised [] l e h = h
  live-raised (reap now ∷ es) l e h =
      ap (λ m. (live K U token es m).reaper_task) (reaper_turn-raised now l e h)
      ∙ live-raised es l e h
  live-raised (other o ∷ es) l e h =
      live-raised es (record l { app = happen K U token l.app o }) e h

  -- A run of the loop, and the task and the controller of an app.
  abbrev pub Agrees : Result (Unit {0}) × Controller K.Box → Life K U → Type 0
  Agrees (ok u, c) l = (l.reaper_task ≡ looping) × (l.app.controller ≡ c)
  Agrees (err e, c) l = l.reaper_task ≡ raised e

  live-Agrees :
      (rs : List (ℕ × List (Other K U))) (l : Life K U)
      → l.reaper_task ≡ looping
      → Agrees
          (run_idle_reaper K (map round_of rs) l.app.controller)
          (live K U token (schedule rs) l)
  unfolding live run_idle_reaper reaper_turn
  live-Agrees [] l h = (h, refl)
  live-Agrees (r ∷ rs) l h =
      subst
        (λ t.
          Agrees (run_idle_reaper K (map round_of (r ∷ rs)) l.app.controller)
            (live K U token (others r.1 ++ schedule rs) (reaper_turn K U token r.0 t l)))
        (sym h) (go (live-Agrees rs) (reap_if_idle K r.0 l.app.controller))
    where
      go :
          ((m : Life K U)
            → m.reaper_task ≡ looping
            → Agrees
                (run_idle_reaper K (map round_of rs) m.app.controller)
                (live K U token (schedule rs) m))
          → (x : Result Bool × Controller K.Box)
          → Agrees
              (continue x (λ b d. run_idle_reaper K (map round_of rs) (effects r.1 d)))
              (live K U token (others r.1 ++ schedule rs) (end_round K U token l x))
      go rest (ok b, c) =
          let (a, e, f) = live-others r.1 (schedule rs) (end_round K U token l (ok b, c)) in
          subst (Agrees (run_idle_reaper K (map round_of rs) (effects r.1 c))) (sym f) (
            subst
              (λ d.
                Agrees (run_idle_reaper K (map round_of rs) d)
                  (live K U token (schedule rs) (record l { app = a })))
              e (rest (record l { app = a }) h))
      go rest (err e, c) = live-raised (others r.1 ++ schedule rs) _ e refl

  -- How `run_idle_reaper` ends, and how the app does, which it does.
  abbrev pub EndsAs :
      Result (Unit {0}) × Controller K.Box → Option (Result (Unit {0}) × Life K U) → Type 0
  EndsAs x none = ⊥
  EndsAs (ok u, c) (some (r, l)) = (r ≡ ok tt) × (l.app.controller ≡ c)
  EndsAs (err e, c) (some (r, l)) = r ≡ err e

  Agrees-EndsAs :
      (x : Result (Unit {0}) × Controller K.Box) (l : Life K U)
      → Agrees x l
      → EndsAs x (shutdown K U token l)
  Agrees-EndsAs (ok u, c) l (h, k) =
      subst (λ t. EndsAs (ok u, c) (awaited K U token t (record l { reaper_stop = true }))) (sym h)
        (refl, k)
  Agrees-EndsAs (err e, c) l h =
      subst (λ t. EndsAs (err e, c) (awaited K U token t (record l { reaper_stop = true }))) (sym h)
        refl

  -- An app over its life does what `run_idle_reaper` does, with the requests and the changes of the
  -- box between the rounds of the loop, and it comes to its end: without an exception if the loop
  -- raises none, with the controller that the loop leaves, and otherwise with the exception of the
  -- loop.
  pub lifespan-run_idle_reaper :
      (rs : List (ℕ × List (Other K U))) (a : App K U)
      → EndsAs
          (run_idle_reaper K (map round_of rs) a.controller)
          (lifespan K U token (schedule rs) (build_app K U a))
  unfolding lifespan
  lifespan-run_idle_reaper rs a =
      Agrees-EndsAs (run_idle_reaper K (map round_of rs) a.controller)
        (live K U token (schedule rs) (startup K U token (build_app K U a)))
        (live-Agrees rs (startup K U token (build_app K U a)) refl)
