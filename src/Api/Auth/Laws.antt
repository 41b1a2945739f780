-- ===== src/Api/Auth/Laws.antt =====
-- Whom the middleware lets through.
use email_proxy.Prelude.{
  ℕ, ◌≡◌, refl, ◌∙◌, ◌≢◌, ◌⊎◌, inl, inr, Bool, true, List, [], ◌∷◌, ◌++◌, Option, some, arith,
  Bool-cases, Option-cases, ap, ◌==◌, ==_iff,
}
use email_proxy.Prelude.Results.{Result, ok, err, Result-cases}
use email_proxy.Text.{Text, text, text_eq, to_lower, split_once}
use email_proxy.Text.Laws.{text_eq_iff}
use email_proxy.Models.{ClientToken}
use email_proxy.Services.{Env, World}
use email_proxy.Api.{Claim, text_claim, list_claim, other_claim, Context}
use email_proxy.Api.Auth.{
  Claims, JwtToken, pass, key_for, bearer, authorize, check_claims, check_token, jwt_auth,
}

-- The texts in front of and behind the first separator.
split_once_sound :
    (sep : ℕ) (s rest : Text)
    → (split_once sep s).1 ≡ some rest
    → s ≡ (split_once sep s).0 ++ sep ∷ rest
unfolding split_once
split_once_sound sep [] rest h = cc
split_once_sound sep (c ∷ s) rest h = elim (Bool-cases (c == sep)) [
  | inl here ↦ ground (arith, ==_iff c sep)
  | inr there ↦ ground (arith, split_once_sound sep s rest)
]

bearer_sound :
    (u : Text → Text) (header token : Text)
    → bearer u header ≡ some token
    → (scheme : Text) × (header ≡ scheme ++ b' ' ∷ token) × (to_lower u scheme ≡ text "bearer")
unfolding bearer
bearer_sound u header token h = elim (Option-cases (split_once b' ' header).1) [
  | inl alone ↦ absurd (ground arith)
  | inr (rest, two) ↦
      let lowered = to_lower u (split_once b' ' header).0 in
      let facts : (rest ≡ token) × (text_eq lowered (text "bearer") ≡ true) = ground arith in
      (
        (split_once b' ' header).0,
        split_once_sound b' ' header token (two ∙ ap some facts.0),
        (text_eq_iff lowered (text "bearer")).0 facts.1,
      )
]

-- What a request must hold to be let through as context `c`.
pub record IsAuthenticated (e : Env) (jwt_parse : (Bool → Result Text) → Text → Result JwtToken)
    (w : World e.services) (header : Text) (c : Context) : Type 0 where
  pub scheme : Text
  pub token : Text
  pub parsed : JwtToken
  pub claims : Claims
  pub id : Text
  pub stored : ClientToken
  pub header_is : header ≡ scheme ++ b' ' ∷ token
  pub scheme_is : to_lower e.platform.unicode_lower scheme ≡ text "bearer"
  pub parsed_is : jwt_parse (key_for e.config.jwt_secret) token ≡ ok parsed
  pub valid : parsed.valid ≡ true
  pub claims_are : parsed.claims ≡ some claims
  pub id_is : claims.client_id ≡ text_claim id
  pub has_id : id ≢ []
  pub stored_is : e.services.first_active_token id w.db ≡ ok stored
  pub active : (stored.client_id ≡ id) × (stored.is_active ≡ true)
  pub context_is : c ≡ record {
    client_id = some (text_claim id);
    client_name = some claims.client_name;
    department = some claims.department;
    permissions = some claims.permissions;
    client_token_id = some (text_claim stored.id);
  }

pub Claim-cases :
    (c : Claim)
    → ((t : Text) × (c ≡ text_claim t))
      ⊎ (((list : List (Option Text)) × (c ≡ list_claim list)) ⊎ (c ≡ other_claim))
Claim-cases (text_claim t) = inl (t, refl)
Claim-cases (list_claim list) = inr (inl (list, refl))
Claim-cases other_claim = inr (inr refl)

module _ (e : Env) (jwt_parse : (Bool → Result Text) → Text → Result JwtToken)
    (w : World e.services) where
  abbrev context_of : Claims → Text → ClientToken → Context
  context_of claims id stored = record {
    client_id = some (text_claim id);
    client_name = some claims.client_name;
    department = some claims.department;
    permissions = some claims.permissions;
    client_token_id = some (text_claim stored.id);
  }

  authorize_sound :
      (claims : Claims) (id : Text) (c : Context)
      → authorize e jwt_parse w claims id ≡ pass c
      → (stored : ClientToken) × (e.services.first_active_token id w.db ≡ ok stored)
        × (c ≡ context_of claims id stored)
  unfolding authorize
  authorize_sound claims id c h = elim (Result-cases (e.services.first_active_token id w.db)) [
    | inl (stored, is) ↦ (stored, is, ground arith)
    | inr (cause, bad) ↦ absurd (ground arith)
  ]

  check_claims_sound :
      (claims : Claims) (c : Context)
      → check_claims e jwt_parse w claims ≡ pass c
      → (id : Text) × (claims.client_id ≡ text_claim id)
        × (id ≢ [])
        × (authorize e jwt_parse w claims id ≡ pass c)
  unfolding check_claims
  check_claims_sound claims c h = elim (Claim-cases claims.client_id) [
    | inl ([], is) ↦ absurd (ground arith)
    | inl (d ∷ id, is) ↦ (d ∷ id, is, λ none_is. cc, ground arith)
    | inr (inl (list, is)) ↦ absurd (ground arith)
    | inr (inr is) ↦ absurd (ground arith)
  ]

  check_token_sound :
      (r : Result JwtToken) (c : Context)
      → check_token e jwt_parse w r ≡ pass c
      → (token : JwtToken) × (claims : Claims) × (r ≡ ok token)
        × (token.valid ≡ true)
        × (token.claims ≡ some claims)
        × (check_claims e jwt_parse w claims ≡ pass c)
  unfolding check_token
  check_token_sound (err cause) c h = absurd (ground arith)
  check_token_sound (ok token) c h = elim (Bool-cases token.valid) [
    | inl valid ↦ elim (Option-cases token.claims) [
      | inl missing ↦ absurd (ground arith)
      | inr (claims, is) ↦ (token, claims, refl, valid, is, ground arith)
    ]
    | inr invalid ↦ absurd (ground arith)
  ]

  -- What JWTAuth lets through: the header is a bearer token, with the scheme in any case; the token
  -- was checked with the key of the settings, which only an HMAC signature is given, and is valid;
  -- it names a client whose stored token is active; and the context says so.
  pub jwt_auth_sound :
      (header : Text) (c : Context)
      → jwt_auth e jwt_parse w header ≡ pass c
      → IsAuthenticated e jwt_parse w header c
  unfolding jwt_auth
  jwt_auth_sound [] c h = absurd (ground arith)
  jwt_auth_sound (b ∷ header) c h =
      elim (Option-cases (bearer e.platform.unicode_lower (b ∷ header))) [
        | inl no_bearer ↦ absurd (ground arith)
        | inr (token, found) ↦
            let (scheme, header_is, scheme_is) =
              bearer_sound e.platform.unicode_lower (b ∷ header) token found in
            let (parsed, claims, parsed_is, valid, claims_are, checked) =
              check_token_sound (jwt_parse (key_for e.config.jwt_secret) token) c (ground arith) in
            let (id, id_is, has_id, authorized) = check_claims_sound claims c checked in
            let (stored, stored_is, context_is) = authorize_sound claims id c authorized in
            record {
              scheme = scheme;
              token = token;
              parsed = parsed;
              claims = claims;
              id = id;
              stored = stored;
              header_is = header_is;
              scheme_is = scheme_is;
              parsed_is = parsed_is;
              valid = valid;
              claims_are = claims_are;
              id_is = id_is;
              has_id = has_id;
              stored_is = stored_is;
              active = e.services.first_active_token-active id w.db stored stored_is;
              context_is = context_is;
            }
      ]
