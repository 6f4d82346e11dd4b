-- ===== src/Gateway/Main/Served.antt =====
-- What the gateway serves, if anything.
use open_warehouse_agent.Gateway.State
use open_warehouse_agent.Gateway.State.{Controller, stopped}
use open_warehouse_agent.Gateway.Fake
use open_warehouse_agent.Gateway.Fake.{FakeGpuBackend}
use open_warehouse_agent.Gateway.Ec2
use open_warehouse_agent.Gateway.Ec2.{Ec2Backend}
use open_warehouse_agent.Gateway.App.{require_bearer_token, compare_digest}
use open_warehouse_agent.Gateway.Main.{
  build_fake, build_ec2, Backend, fake, ec2, App, float_or, build_backend, main,
}
use open_warehouse_agent.Py.Env.{Env, required, required-ok}
use open_warehouse_agent.Py.Number.{int_or}
use open_warehouse_agent.Py.Str.{Str, str, str_eq, str_eq_iff, partition_space, lower}
use open_warehouse_agent.Py.Result.{returned, ok-injective, Result, ok}
use open_warehouse_agent.Base.Int.{pos}
use open_warehouse_agent.Base.{
  ℕ, ◌*◌, ◌≡◌, refl, sym, inl, inr, Option, none, some, [], arith, Bool-cases, or_default, subst,
}

module _ (float : Str → Result ℕ) (second : ℕ) (repr : Str → Str) {World : Type 0}
    (client : Option Str → Result World) (env : Env) where
  -- The box that is asked for, not started.
  abbrev pub Asked : Str → Backend World → Type 0
  Asked name (fake b) = (name ≡ str "fake") × (b.started_at ≡ none)
  Asked name (ec2 b) =
      (name ≡ str "ec2")
      × (env (str "OWA_GPU_INSTANCE_ID") ≡ some b.instance_id)
      × (b.base_url ≡ [])

  build_fake-Asked :
      (name : Str) (b : Backend World)
      → name ≡ str "fake"
      → build_fake float second repr client env ≡ ok b
      → Asked name b
  unfolding Fake.init
  build_fake-Asked name b e h =
      let (boot, p, q) =
        returned
          (float_or float second repr client env (env (str "OWA_FAKE_GPU_BOOT_SECONDS"))
            (3 * second))
          _ b h in
      let x : Asked name (
          fake (
            Fake.init
              (or_default (env (str "OWA_GATEWAY_BACKEND_BASE_URL"))
                (str "http://localhost:11434/v1"))
              boot)) =
        (e, refl) in
      subst (Asked name) (ok-injective q) x

  build_ec2-Asked :
      (name : Str) (b : Backend World)
      → name ≡ str "ec2"
      → build_ec2 float second repr client env ≡ ok b
      → Asked name b
  unfolding Ec2.init required
  build_ec2-Asked name b e h =
      let (id, p, q) = returned (required env (str "OWA_GPU_INSTANCE_ID")) _ b h in
      let (port, r, s) = returned (int_or repr (env (str "OWA_VLLM_PORT")) (pos 8000)) _ b q in
      let (w, t, u) = returned (client (env (str "OWA_AWS_REGION"))) _ b s in
      let x : Asked name (ec2 (Ec2.init id port w)) =
        (e, required-ok env (str "OWA_GPU_INSTANCE_ID") id p, refl) in
      subst (Asked name) (ok-injective u) x

  build_backend-Asked :
      (name : Str) (b : Backend World)
      → build_backend float second repr client env name ≡ ok b
      → Asked name b
  unfolding build_backend
  build_backend-Asked name b h = elim (Bool-cases (str_eq name (str "fake"))) [
    | inl e ↦ build_fake-Asked name b ((str_eq_iff name (str "fake")).0 e) (ground arith)
    | inr n ↦ elim (Bool-cases (str_eq name (str "ec2"))) [
      | inl e ↦ build_ec2-Asked name b ((str_eq_iff name (str "ec2")).0 e) (ground arith)
      | inr m ↦ absurd (ground arith)
    ]
  ]

  -- If `main` comes to serve anything, a token is set and is the app's, the controller is STOPPED
  -- with no activity, and its box is the one that the environment names, not started yet. For any
  -- other name of a box it raises.
  pub main-Asked :
      (app : App World)
      → main float second repr client env ≡ ok app
      → (env (str "OWA_GATEWAY_TOKEN") ≡ some app.token)
        × (app.controller.state ≡ stopped)
        × (app.controller.last_activity ≡ none)
        × Asked (or_default (env (str "OWA_GATEWAY_BACKEND")) (str "fake")) app.controller.backend
  unfolding main State.init
  main-Asked app h =
      let (token, p, q) = returned (required env (str "OWA_GATEWAY_TOKEN")) _ app h in
      let (timeout, r, s) =
        returned
          (float_or float second repr client env (env (str "OWA_GATEWAY_IDLE_TIMEOUT_SECONDS"))
            (300 * second))
          _ app q in
      let (port, t, u) = returned (int_or repr (env (str "OWA_GATEWAY_PORT")) (pos 8000)) _ app s in
      let (b, v, w) =
        returned
          (build_backend float second repr client env
            (or_default (env (str "OWA_GATEWAY_BACKEND")) (str "fake")))
          _ app u in
      subst
        (λ (a : App World).
          (env (str "OWA_GATEWAY_TOKEN") ≡ some a.token)
          × (a.controller.state ≡ stopped)
          × (a.controller.last_activity ≡ none)
          × Asked (or_default (env (str "OWA_GATEWAY_BACKEND")) (str "fake")) a.controller.backend)
        (ok-injective w)
        (required-ok env (str "OWA_GATEWAY_TOKEN") token p, refl, refl, build_backend-Asked _ b v)

  -- A token that is set to nothing is served all the same, and then a header with no credential is
  -- let in.
  pub main-unprotected :
      (app : App World) (body : Str)
      → env (str "OWA_GATEWAY_TOKEN") ≡ some []
      → main float second repr client env ≡ ok app
      → require_bearer_token app.token (record { authorization = some (str "Bearer"); body = body })
        ≡ ok tt
  main-unprotected app body e h =
      let none_set : app.token ≡ [] = ground (arith, main-Asked app h) in
      subst
        (λ t.
          require_bearer_token t (record { authorization = some (str "Bearer"); body = body })
          ≡ ok tt)
        (sym none_set) (unfold require_bearer_token compare_digest partition_space lower in refl)
