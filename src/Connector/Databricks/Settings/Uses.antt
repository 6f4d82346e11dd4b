-- ===== src/Connector/Databricks/Settings/Uses.antt =====
-- What the Databricks adapter connects with.
use open_warehouse_agent.Connector.Databricks.Settings.{
  ConnectKwargs, access_token, access_token_of, fetch_oauth_token, connect_kwargs,
}
use open_warehouse_agent.Py.Env.{Env, required, required-ok, given_or, is_set}
use open_warehouse_agent.Py.Str.{Str, str, is_empty}
use open_warehouse_agent.Py.Result.{Result, ok, returned, ok-injective}
use open_warehouse_agent.Base.{
  ◌≡◌, refl, ap, ◌∙◌, ◌⊎◌, inl, inr, true, false, not, ◌&&◌, Option, none, some, List, [], ◌∷◌,
  ◌++◌, arith, Bool-cases, or_default, subst,
}

module _ (post : Str → Str × Str → List (Str × Str) → Result (Option Str)) (env : Env) where
  -- The answer of the workspace of a host to a client's id and secret.
  abbrev pub Grants : Str → Str → Str → Str → Type 0
  Grants hostname client_id client_secret token =
      post (str "https://" ++ hostname ++ str "/oidc/v1/token") (client_id, client_secret)
        ((str "grant_type", str "client_credentials") ∷ (str "scope", str "all-apis") ∷ [])
      ≡ ok (some token)

  -- Where a token comes from: a client that has both an id and a secret, or else the environment.
  abbrev pub IsTokenOf : Str → Option Str → Option Str → Str → Type 0
  IsTokenOf hostname id secret token =
      ((i : Str) × (s : Str) × (id ≡ some i)
        × (secret ≡ some s)
        × (is_set id ≡ true)
        × (is_set secret ≡ true)
        × Grants hostname i s token)
      ⊎ ((is_set id && is_set secret ≡ false) × (env (str "DATABRICKS_TOKEN") ≡ some token))

  some-injective : (a : Option Str) (t : Str) → access_token_of post env a ≡ ok t → a ≡ some t
  some-injective none t h = absurd (cc)
  some-injective (some s) t h = ap some (ok-injective h)

  fetch-Grants :
      (hostname i s t : Str)
      → fetch_oauth_token post env hostname i s ≡ ok t
      → Grants hostname i s t
  unfolding fetch_oauth_token
  fetch-Grants hostname i s t h =
      let (a, p, q) =
        returned
          (post (str "https://" ++ hostname ++ str "/oidc/v1/token") (i, s)
            ((str "grant_type", str "client_credentials") ∷ (str "scope", str "all-apis") ∷ []))
          _ t h in
      p ∙ ap ok (some-injective a t q)

  access_token-IsTokenOf :
      (hostname : Str) (id secret : Option Str) (t : Str)
      → access_token post env hostname id secret ≡ ok t
      → IsTokenOf hostname id secret t
  unfolding access_token
  access_token-IsTokenOf hostname none secret t h =
      inr (refl, required-ok env (str "DATABRICKS_TOKEN") t h)
  access_token-IsTokenOf hostname (some i) none t h =
      inr (ground arith, required-ok env (str "DATABRICKS_TOKEN") t h)
  access_token-IsTokenOf hostname (some i) (some s) t h =
      elim (Bool-cases (not (is_empty i) && not (is_empty s))) [
        | inl e ↦
            inl (
              i,
              s,
              refl,
              refl,
              ground arith,
              ground arith,
              fetch-Grants hostname i s t (rw e at h),
            )
        | inr e ↦ inr (e, required-ok env (str "DATABRICKS_TOKEN") t (rw e at h))
      ]

  -- If the adapter comes to connect, the host and the path are those of the environment, and so is
  -- the catalog if none is given. The token is the one that the workspace of that host grants to the
  -- client of the environment, if this has both an id and a secret, and that of the environment
  -- otherwise.
  pub connect_kwargs-IsTokenOf :
      (catalog schema : Option Str) (k : ConnectKwargs)
      → connect_kwargs post env catalog schema ≡ ok k
      → (env (str "DATABRICKS_SERVER_HOSTNAME") ≡ some k.server_hostname)
        × (env (str "DATABRICKS_HTTP_PATH") ≡ some k.http_path)
        × (given_or catalog (required env (str "DATABRICKS_CATALOG")) ≡ ok k.catalog)
        × IsTokenOf k.server_hostname
            (env (str "DATABRICKS_CLIENT_ID"))
            (env (str "DATABRICKS_CLIENT_SECRET"))
            k.access_token
  unfolding connect_kwargs
  connect_kwargs-IsTokenOf catalog schema k h =
      let (cat, p, h1) =
        returned (given_or catalog (required env (str "DATABRICKS_CATALOG"))) _ k h in
      let (sch, q, h2) =
        returned (given_or schema (ok (or_default (env (str "DATABRICKS_SCHEMA")) (str "default"))))
          _ k h1 in
      let (host, r, h3) = returned (required env (str "DATABRICKS_SERVER_HOSTNAME")) _ k h2 in
      let (t, u, h4) =
        returned
          (access_token post env host (env (str "DATABRICKS_CLIENT_ID"))
            (env (str "DATABRICKS_CLIENT_SECRET")))
          _ k h3 in
      let (path, v, h5) = returned (required env (str "DATABRICKS_HTTP_PATH")) _ k h4 in
      subst
        (λ (k : ConnectKwargs).
          (env (str "DATABRICKS_SERVER_HOSTNAME") ≡ some k.server_hostname)
          × (env (str "DATABRICKS_HTTP_PATH") ≡ some k.http_path)
          × (given_or catalog (required env (str "DATABRICKS_CATALOG")) ≡ ok k.catalog)
          × IsTokenOf k.server_hostname (env (str "DATABRICKS_CLIENT_ID"))
              (env (str "DATABRICKS_CLIENT_SECRET")) k.access_token)
        (ok-injective h5)
        (
          required-ok env (str "DATABRICKS_SERVER_HOSTNAME") host r,
          required-ok env (str "DATABRICKS_HTTP_PATH") path v,
          p,
          access_token-IsTokenOf host (env (str "DATABRICKS_CLIENT_ID"))
              (env (str "DATABRICKS_CLIENT_SECRET")) t u,
        )
