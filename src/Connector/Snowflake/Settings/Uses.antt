-- ===== src/Connector/Snowflake/Settings/Uses.antt =====
-- What the Snowflake adapter connects with.
use open_warehouse_agent.Connector.Snowflake.Settings.{
  Credential, private_key, password, ConnectKwargs, credential_of, connect_kwargs,
}
use open_warehouse_agent.Py.Env.{Env, required, required-ok, given_or, is_set}
use open_warehouse_agent.Py.Str.{Str, str, is_empty}
use open_warehouse_agent.Py.Result.{Result, ok, ◌>>=◌, returned, ok-injective}
use open_warehouse_agent.Base.{
  ◌≡◌, refl, inl, inr, false, Option, none, some, arith, Bool-cases, subst,
}

module _ (load : Str → Result Str) (env : Env) where
  -- A private key comes from the file that is named, and a password from the environment if none is.
  abbrev pub IsCredentialOf : Option Str → Credential → Type 0
  IsCredentialOf path (private_key key) =
      (p : Str) × (path ≡ some p) × (is_empty p ≡ false) × (load p ≡ ok key)
  IsCredentialOf path (password secret) =
      (is_set path ≡ false) × (env (str "SNOWFLAKE_PASSWORD") ≡ some secret)

  by_password :
      (path : Option Str) (c : Credential)
      → is_set path ≡ false
      → (required env (str "SNOWFLAKE_PASSWORD") >>= λ p. ok (password p)) ≡ ok c
      → IsCredentialOf path c
  by_password path c n h =
      let (p, q, r) = returned (required env (str "SNOWFLAKE_PASSWORD")) _ c h in
      let x : IsCredentialOf path (password p) =
        (n, required-ok env (str "SNOWFLAKE_PASSWORD") p q) in
      subst (IsCredentialOf path) (ok-injective r) x

  by_key :
      (path : Str) (c : Credential)
      → is_empty path ≡ false
      → (load path >>= λ key. ok (private_key key)) ≡ ok c
      → IsCredentialOf (some path) c
  by_key path c n h =
      let (key, q, r) = returned (load path) _ c h in
      let x : IsCredentialOf (some path) (private_key key) = (path, refl, n, q) in
      subst (IsCredentialOf (some path)) (ok-injective r) x

  credential_of-IsCredentialOf :
      (path : Option Str) (c : Credential)
      → credential_of load env path ≡ ok c
      → IsCredentialOf path c
  unfolding credential_of
  credential_of-IsCredentialOf none c h = by_password none c refl h
  credential_of-IsCredentialOf (some path) c h = elim (Bool-cases (is_empty path)) [
    | inl e ↦ by_password (some path) c (ground arith) (rw e at h)
    | inr e ↦ by_key path c e (rw e at h)
  ]

  -- If the adapter comes to connect, the account, the user and the warehouse are those of the
  -- environment, and so are the role, if there is one, and the database if none is given. It gives
  -- the private key of the file that the environment names, if it names one, and the password of
  -- the environment otherwise.
  pub connect_kwargs-IsCredentialOf :
      (database : Option Str) (k : ConnectKwargs)
      → connect_kwargs load env database ≡ ok k
      → (env (str "SNOWFLAKE_ACCOUNT") ≡ some k.account)
        × (env (str "SNOWFLAKE_USER") ≡ some k.user)
        × (env (str "SNOWFLAKE_WAREHOUSE") ≡ some k.warehouse)
        × (env (str "SNOWFLAKE_ROLE") ≡ k.role)
        × (given_or database (required env (str "SNOWFLAKE_DATABASE")) ≡ ok k.database)
        × IsCredentialOf (env (str "SNOWFLAKE_PRIVATE_KEY_PATH")) k.credential
  unfolding connect_kwargs
  connect_kwargs-IsCredentialOf database k h =
      let (db, p, h1) =
        returned (given_or database (required env (str "SNOWFLAKE_DATABASE"))) _ k h in
      let (account, q, h2) = returned (required env (str "SNOWFLAKE_ACCOUNT")) _ k h1 in
      let (user, r, h3) = returned (required env (str "SNOWFLAKE_USER")) _ k h2 in
      let (warehouse, t, h4) = returned (required env (str "SNOWFLAKE_WAREHOUSE")) _ k h3 in
      let (credential, u, h5) =
        returned (credential_of load env (env (str "SNOWFLAKE_PRIVATE_KEY_PATH"))) _ k h4 in
      subst
        (λ (k : ConnectKwargs).
          (env (str "SNOWFLAKE_ACCOUNT") ≡ some k.account)
          × (env (str "SNOWFLAKE_USER") ≡ some k.user)
          × (env (str "SNOWFLAKE_WAREHOUSE") ≡ some k.warehouse)
          × (env (str "SNOWFLAKE_ROLE") ≡ k.role)
          × (given_or database (required env (str "SNOWFLAKE_DATABASE")) ≡ ok k.database)
          × IsCredentialOf (env (str "SNOWFLAKE_PRIVATE_KEY_PATH")) k.credential)
        (ok-injective h5)
        (
          required-ok env (str "SNOWFLAKE_ACCOUNT") account q,
          required-ok env (str "SNOWFLAKE_USER") user r,
          required-ok env (str "SNOWFLAKE_WAREHOUSE") warehouse t,
          refl,
          p,
          credential_of-IsCredentialOf (env (str "SNOWFLAKE_PRIVATE_KEY_PATH")) credential u,
        )
