-- ===== src/Infra/Account.antt =====
-- What the statements of infra/snowflake_bootstrap.py mean: an account with a role and a user.
use open_warehouse_agent.Infra.Statements.{Admin, announce, announce_all}
use open_warehouse_agent.Py.Str.{Str, str}
use open_warehouse_agent.Py.Result.{ok}
use open_warehouse_agent.Py.Exec.{Exec, pure, try_finally, ◌>>◌}
use open_warehouse_agent.Base.{
  if◌then◌else◌, ◌≡◌, refl, inl, inr, Bool, true, ◌&&◌, Option, none, some, List, [], ◌∷◌, ◌++◌,
  arith, All, Option-cases,
}

-- What there is of the warehouse COMPUTE_WH, the database OWA_DEMO, its schema PUBLIC, the role
-- OWA_APP_ROLE and the user OWA_APP_USER; what the role may do; and whether the user has the role,
-- with the key that the user logs in by.
pub record Account : Type 0 where
  pub warehouse : Bool
  pub database : Bool
  pub schema : Bool
  pub role : Bool
  pub user : Bool
  pub uses_warehouse : Bool
  pub uses_database : Bool
  pub uses_schema : Bool
  pub creates_tables : Bool
  pub selects_future_tables : Bool
  pub selects_tables : Bool
  pub has_role : Bool
  pub public_key : Str

pub data Effect : Type 0 where
  create_database create_schema create_role : Effect
  grant_warehouse grant_database grant_schema grant_create grant_future grant_select : Effect
  create_user set_key : Str → Effect
  grant_role : Effect

abbrev provided : Bool → Account → Option Account
provided b a = if b then some a else none

-- The account after a statement; `none` is an error, as of a grant on what there is not. A user that
-- is there already is left as it is by its creation.
unfoldable pub perform : Effect → Account → Option Account
perform create_database a = some (record a { database = true })
perform create_schema a = provided a.database (record a { schema = true })
perform create_role a = some (record a { role = true })
perform grant_warehouse a = provided (a.role && a.warehouse) (record a { uses_warehouse = true })
perform grant_database a = provided (a.role && a.database) (record a { uses_database = true })
perform grant_schema a = provided (a.role && a.schema) (record a { uses_schema = true })
perform grant_create a = provided (a.role && a.schema) (record a { creates_tables = true })
perform grant_future a = provided (a.role && a.schema) (record a { selects_future_tables = true })
perform grant_select a = provided (a.role && a.schema) (record a { selects_tables = true })
perform (create_user key) a =
    some (record a { user = true; public_key = if a.user then a.public_key else key })
perform (set_key key) a = provided a.user (record a { public_key = key })
perform grant_role a = provided (a.role && a.user) (record a { has_role = true })

unfoldable pub perform_all : List Effect → Account → Option Account
perform_all [] a = some a
perform_all (e ∷ es) a = elim (perform e a) [ none ↦ none | some b ↦ perform_all es b ]

module _ {World : Type 0} (view : World → Account) where
  -- Where the effects succeed on the account, the code returns, and the account is then as they
  -- leave it.
  abbrev pub Does : Exec World (Unit {0}) → List Effect → Type 0
  Does m es =
      (w : World) (b : Account)
      → perform_all es (view w) ≡ some b
      → ((m w).0 ≡ ok tt) × (view (m w).1 ≡ b)

  perform_all-append :
      (es fs : List Effect) (a c : Account)
      → perform_all (es ++ fs) a ≡ some c
      → (b : Account) × (perform_all es a ≡ some b) × (perform_all fs b ≡ some c)
  unfolding perform_all
  perform_all-append [] fs a c h = (a, refl, h)
  perform_all-append (e ∷ es) fs a c h = elim (Option-cases (perform e a)) [
    | inl n ↦ absurd (ground arith)
    | inr (d, q) ↦
        let (b, x, y) = perform_all-append es fs d c (ground arith) in (b, ground arith, y)
  ]

  pub Does-then :
      (m n : Exec World (Unit {0})) (es fs : List Effect)
      → Does m es
      → Does n fs
      → Does (m >> n) (es ++ fs)
  Does-then m n es fs h k w c q =
      let (b, x, y) = perform_all-append es fs (view w) c q in
      let (r, v) = h w b x in let (r', v') = k (m w).1 c (rw v y) in ground arith

  pub Does-nothing :
      (m : Exec World (Unit {0}))
      → ((w : World) → ((m w).0 ≡ ok tt) × (view (m w).1 ≡ view w))
      → Does m []
  unfolding perform_all
  Does-nothing m h w b q = let (r, v) = h w in ground arith

-- What is relied on of a connection to the account: each text of a table of meanings is executed with
-- its effect, and printing and closing succeed and leave the account as it is.
pub record Means (D : Admin) (meanings : List (Str × Effect)) : Type 0 where
  pub view : D.World → Account
  pub executes : All (λ m. Does view (D.execute m.0) (m.1 ∷ [])) meanings
  pub prints : (s : Str) (w : D.World) → ((D.print s w).0 ≡ ok tt) × (view (D.print s w).1 ≡ view w)
  pub closes : (w : D.World) → ((D.close w).0 ≡ ok tt) × (view (D.close w).1 ≡ view w)

abbrev pub texts : List (Str × Effect) → List Str
texts [] = []
texts (m ∷ ms) = m.0 ∷ texts ms

abbrev pub effects : List (Str × Effect) → List Effect
effects [] = []
effects (m ∷ ms) = m.1 ∷ effects ms

module _ (D : Admin) (all : List (Str × Effect)) (M : Means D all) where
  pub announce-Does :
      (shown s : Str) (e : Effect)
      → Does M.view (D.execute s) (e ∷ [])
      → Does M.view (announce D shown s) (e ∷ [])
  unfolding announce
  announce-Does shown s e h =
      Does-then M.view (D.print (str "> " ++ shown)) (D.execute s) [] (e ∷ [])
        (Does-nothing M.view (D.print (str "> " ++ shown)) (M.prints (str "> " ++ shown))) h

  pub announce_all-Does :
      (ms : List (Str × Effect))
      → All (λ m. Does M.view (D.execute m.0) (m.1 ∷ [])) ms
      → Does M.view (announce_all D (texts ms)) (effects ms)
  unfolding announce_all
  announce_all-Does [] h = Does-nothing M.view (pure tt) (λ w. (refl, refl))
  announce_all-Does (m ∷ ms) (h, k) =
      Does-then M.view (announce D m.0 m.0) (announce_all D (texts ms)) (m.1 ∷ []) (effects ms)
        (announce-Does m.0 m.0 m.1 h) (announce_all-Does ms k)

  pub try_finally-Does :
      (m : Exec D.World (Unit {0})) (es : List Effect)
      → Does M.view m es
      → Does M.view (try_finally m D.close) es
  try_finally-Does m es h w b q =
      let (r, v) = h w b q in let (r', v') = M.closes (m w).1 in ground arith
