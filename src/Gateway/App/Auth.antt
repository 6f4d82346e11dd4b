-- ===== src/Gateway/App/Auth.antt =====
-- Whom the bearer token lets in.
use open_warehouse_agent.Gateway.App.{compare_digest, require_bearer_token}
use open_warehouse_agent.Py.Str.{Str, str, str_eq_iff, is_ascii, lower, partition_space}
use open_warehouse_agent.Py.Result.{http_exception, type_error, ok, err}
use open_warehouse_agent.Base.{
  ◌≡◌, refl, ◌≢◌, ◌↔◌, true, false, none, some, [], ◌∷◌, ◌++◌, arith, All,
}

-- A header whose text before the first space is some spelling of "bearer", and whose rest is the
-- token.
abbrev pub Bears : Str → Str → Type 0
Bears header token =
    (lower (partition_space header).0 ≡ str "bearer") × ((partition_space header).1 ≡ token)

-- With an ASCII token, a request is let in exactly if its header bears the token.
pub require_bearer_token_iff :
    (token header body : Str)
    → is_ascii token ≡ true
    → (require_bearer_token token (record { authorization = some header; body = body }) ≡ ok tt)
      ↔ Bears header token
unfolding require_bearer_token compare_digest
require_bearer_token_iff token header body h = ground (
  arith,
  str_eq_iff (lower (partition_space header).0) (str "bearer"),
  str_eq_iff (partition_space header).1 token,
)

-- A request with no header is refused with 401, whatever the token.
pub require_bearer_token-no_header :
    (token body : Str)
    → require_bearer_token token (record { authorization = none; body = body })
      ≡ err (http_exception 401 (str "invalid or missing bearer token"))
unfolding require_bearer_token partition_space lower
require_bearer_token-no_header token body = refl

-- A credential that is not ASCII, behind the right scheme, is not refused with 401: the comparison
-- raises a TypeError.
pub require_bearer_token-raises :
    (token header body : Str)
    → lower (partition_space header).0 ≡ str "bearer"
    → is_ascii (partition_space header).1 ≡ false
    → require_bearer_token token (record { authorization = some header; body = body })
      ≡ err (type_error (str "comparing strings with non-ASCII characters is not supported"))
unfolding require_bearer_token compare_digest
require_bearer_token-raises token header body s h =
    ground (arith, str_eq_iff (lower (partition_space header).0) (str "bearer"))

partition_space-append :
    (s t : Str) → All (λ c. c ≢ b' ') s → partition_space (s ++ b' ' ∷ t) ≡ (s, t)
unfolding partition_space
partition_space-append [] t h = refl
partition_space-append (c ∷ s) t (n, h) = ground (arith, partition_space-append s t h)

-- "Bearer " and the token is let in, for every ASCII token, spaces in it included.
pub require_bearer_token-accepts :
    (token body : Str)
    → is_ascii token ≡ true
    → require_bearer_token token
        (record { authorization = some (str "Bearer " ++ token); body = body })
      ≡ ok tt
unfolding lower
require_bearer_token-accepts token body h =
    (require_bearer_token_iff token (str "Bearer " ++ token) body h).1
      (rw (partition_space-append (str "Bearer") token (omega arith)) (refl, refl))
