-- ===== src/Gateway/Ec2/Health.antt =====
-- When the instance is reported healthy, and which failures are kept from the controller.
use open_warehouse_agent.Gateway.Ec2.Answer.{Instance, is_running}
use open_warehouse_agent.Gateway.Ec2.{
  Cloud, Ec2Backend, describe_instance, vllm_url, check_instance, is_healthy,
}
use open_warehouse_agent.Py.Str.{Str, str, str_eq_iff, is_empty}
use open_warehouse_agent.Py.Result.{Result-cases, http_error, Result, ok, err, is_ok}
use open_warehouse_agent.Base.{ℕ, ◌≡◌, inl, inr, true, false, some, arith, Option-cases}

-- A reply, or an error of the HTTP client's own.
abbrev pub HttpOnly : Result ℕ → Type 0
HttpOnly (ok status) = Unit
HttpOnly (err (http_error m)) = Unit
HttpOnly (err e) = ⊥

running_state :
    (i : Instance) → is_running i ≡ true → i.state ≡ some (record { name = some (str "running") })
unfolding is_running
running_state i h = elim (Option-cases i.state) [
  | inl e ↦ absurd (ground arith)
  | inr (s, e) ↦ elim (Option-cases s.name) [
    | inl f ↦ absurd (ground arith)
    | inr (n, f) ↦ ground (arith, str_eq_iff n (str "running"))
  ]
]

module _ (C : Cloud) where
  -- What a healthy box is, in the words of the cloud: the instance runs, has an address, and its
  -- server answers 200 at the root's health page.
  pub record IsServing (b : Ec2Backend C.World) (i : Instance) (ip : Str) : Type 0 where
    pub described : (describe_instance C b).0 ≡ ok i
    pub running : i.state ≡ some (record { name = some (str "running") })
    pub address : i.private_ip_address ≡ some ip
    pub not_empty : is_empty ip ≡ false
    pub answers :
        (C.get (vllm_url b.vllm_port ip (str "/health")) (describe_instance C b).1.world).0 ≡ ok 200

  port-describe : (b : Ec2Backend C.World) → (describe_instance C b).1.vllm_port ≡ b.vllm_port
  unfolding describe_instance
  port-describe b = ground arith

  -- What `is_healthy` found out, if it returned True after an answer of `describe_instances`.
  check-found :
      (i : Instance) (b : Ec2Backend C.World)
      → (check_instance C i b).0 ≡ ok true
      → (ip : Str) × (i.state ≡ some (record { name = some (str "running") }))
        × (i.private_ip_address ≡ some ip)
        × (is_empty ip ≡ false)
        × ((C.get (vllm_url b.vllm_port ip (str "/health")) b.world).0 ≡ ok 200)
        × ((check_instance C i b).1.base_url ≡ vllm_url b.vllm_port ip (str "/v1"))
  unfolding check_instance
  check-found i b h = elim (Option-cases i.private_ip_address) [
    | inl e ↦ absurd (ground arith)
    | inr (ip, e) ↦
        (ip, ground (arith, running_state i), e, ground arith, ground arith, ground arith)
  ]

  -- If the box is reported healthy then some instance is serving, and the base URL that requests
  -- go to is at its address.
  pub is_healthy-IsServing :
      (now : ℕ) (b : Ec2Backend C.World)
      → (is_healthy C now b).0 ≡ ok true
      → (i : Instance) × (ip : Str) × IsServing b i ip
        × ((is_healthy C now b).1.base_url ≡ vllm_url b.vllm_port ip (str "/v1"))
  is_healthy-IsServing now b h = elim (Result-cases (describe_instance C b).0) [
    | inl (i, e) ↦
        let (ip, running, address, not_empty, answers, url) =
          check-found i (describe_instance C b).1 (unfold is_healthy in ground arith) in
        (
          i,
          ip,
          ground (arith, port-describe b),
          unfold is_healthy in ground (arith, port-describe b),
        )
    | inr (e, f) ↦ absurd (unfold is_healthy in ground arith)
  ]

  -- A box that is serving is reported healthy.
  pub IsServing-is_healthy :
      (now : ℕ) (b : Ec2Backend C.World) (i : Instance) (ip : Str)
      → IsServing b i ip
      → (is_healthy C now b).0 ≡ ok true
  unfolding is_healthy is_running
  IsServing-is_healthy now b i ip s =
      ground (arith, port-describe b, str_eq_iff (str "running") (str "running"))

  module _ (http_only : (url : Str) (w : C.World) → HttpOnly (C.get url w).0) where
    check-is_ok : (i : Instance) (b : Ec2Backend C.World) → is_ok (check_instance C i b).0 ≡ true
    unfolding check_instance
    check-is_ok i b = elim (Option-cases i.private_ip_address) [
      | inl e ↦ ground arith
      | inr (ip, e) ↦ ground (arith, http_only (vllm_url b.vllm_port ip (str "/health")) b.world)
    ]

    -- If the HTTP client raises nothing but its own errors, `is_healthy` never raises, whatever
    -- the cloud answers or raises.
    pub is_healthy-never_raises :
        (now : ℕ) (b : Ec2Backend C.World) → is_ok (is_healthy C now b).0 ≡ true
    unfolding is_healthy
    is_healthy-never_raises now b = elim (Result-cases (describe_instance C b).0) [
      | inl (i, e) ↦ ground (arith, check-is_ok i (describe_instance C b).1)
      | inr (e, f) ↦ ground arith
    ]
