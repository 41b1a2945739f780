-- ===== src/Api/Auth.antt =====
-- internal/api/middlewares/auth.go: who may call a handler. The library that checks a JWT is a
-- parameter.
pub mod Laws
pub mod Permissions
use email_proxy.Prelude.{Bool, ◌||◌, not, List, [], ◌∷◌, Option, none, some, any, if◌then◌else◌}
use email_proxy.Prelude.Results.{Result, ok, err}
use email_proxy.Text.{Text, text, text_eq, to_lower, split_once, is_empty}
use email_proxy.Services.{Env, World}
use email_proxy.Api.{Claim, text_claim, list_claim, other_claim, Context, Response, failure}

-- The claims that are read. A claim that is missing is a nil, which is no text.
pub record Claims : Type 0 where
  pub client_id : Claim
  pub client_name : Claim
  pub department : Claim
  pub permissions : Claim

-- What jwt.Parse returns; the claims are `none` if they are no MapClaims.
pub record JwtToken : Type 0 where
  pub valid : Bool
  pub claims : Option Claims

-- The middleware answers, or it hands a context on.
pub data Passage : Type 0 where
  abort : Response → Passage
  pass : Context → Passage

abbrev pub unauthorized : Text → Text → Passage
unauthorized error message = abort (failure 401 error message)

abbrev pub forbidden : Text → Text → Passage
forbidden error message = abort (failure 403 error message)

-- The function that gives jwt.Parse its key: only an HMAC signature has one.
unfoldable pub key_for : Text → Bool → Result Text
key_for secret is_hmac = if is_hmac then ok secret else err (text "signature is invalid")

-- The token behind "Bearer ", with the scheme in any case.
unfoldable pub bearer : (Text → Text) → Text → Option Text
bearer unicode_lower header =
    let (scheme, rest) = split_once b' ' header in
    elim rest [
      | none ↦ none
      | some token ↦
          if text_eq (to_lower unicode_lower scheme) (text "bearer") then some token else none
    ]

module _ (e : Env) (jwt_parse : (Bool → Result Text) → Text → Result JwtToken)
    (w : World e.services) where
  -- The part after the client id has been read: the token must be active.
  unfoldable pub authorize : Claims → Text → Passage
  authorize claims client_id = elim (e.services.first_active_token client_id w.db) [
    | err _ ↦ unauthorized (text "token_revoked") (text "Token has been revoked or is inactive")
    | ok stored ↦ pass (record {
      client_id = some (text_claim client_id);
      client_name = some claims.client_name;
      department = some claims.department;
      permissions = some claims.permissions;
      client_token_id = some (text_claim stored.id);
    })
  ]

  unfoldable pub check_claims : Claims → Passage
  check_claims claims = elim claims.client_id [
    | text_claim id ↦
        if is_empty id
        then unauthorized (text "invalid_client") (text "Token missing client_id")
        else authorize claims id
    | list_claim _ ↦ unauthorized (text "invalid_client") (text "Token missing client_id")
    | other_claim ↦ unauthorized (text "invalid_client") (text "Token missing client_id")
  ]

  unfoldable pub check_token : Result JwtToken → Passage
  check_token (err _) = unauthorized (text "invalid_token") (text "Invalid or expired token")
  check_token (ok token) =
      if not token.valid
      then unauthorized (text "invalid_token") (text "Invalid or expired token")
      else (elim token.claims [
        | none ↦ unauthorized (text "invalid_claims") (text "Invalid token claims")
        | some claims ↦ check_claims claims
      ])

  -- `JWTAuth`; a header that is missing is empty.
  unfoldable pub jwt_auth : Text → Passage
  jwt_auth header =
      if is_empty header
      then unauthorized (text "missing_token") (text "Authorization header is required")
      else (elim (bearer e.platform.unicode_lower header) [
        | none ↦
            unauthorized (text "invalid_token_format")
              (text "Authorization header must be Bearer token")
        | some token ↦ check_token (jwt_parse (key_for e.config.jwt_secret) token)
      ])

-- The texts in a list of claims.
unfoldable pub texts : List (Option Text) → List Text
texts [] = []
texts (none ∷ claims) = texts claims
texts (some t ∷ claims) = t ∷ texts claims

unfoldable pub permission_list : Claim → List Text
permission_list (list_claim claims) = texts claims
permission_list (text_claim _) = []
permission_list other_claim = []

-- `RequirePermission`
unfoldable pub require_permission : Text → Context → Passage
require_permission permission c = elim c.permissions [
  | none ↦ forbidden (text "no_permissions") (text "No permissions found")
  | some claim ↦
      if any (λ p. text_eq p permission || text_eq p (text "admin")) (permission_list claim)
      then pass c
      else forbidden (text "permission_denied")
          (text "You don't have permission to access this resource")
]
