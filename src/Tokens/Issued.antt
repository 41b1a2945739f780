-- ===== src/Tokens/Issued.antt =====
-- A token that was created is let through.
use mathlib.Core.Path.{sym, ap}
use email_proxy.Prelude.{
  ◌≡◌, refl, ◌≢◌, ◌∙◌, Bool, true, false, [], ◌∷◌, ◌++◌, map, some, arith, inl, inr, Option-cases,
}
use email_proxy.Prelude.Results.{Result, ok, err, Result-cases}
use email_proxy.Text.{Text, text, text_eq, to_lower, split_once, is_empty}
use email_proxy.Text.Laws.{text_eq_refl}
use email_proxy.Models.{ClientToken}
use email_proxy.Services.{Env, World, IsReliable}
use email_proxy.Api.{text_claim, list_claim, Context, token_created}
use email_proxy.Api.Auth.{
  Claims, JwtToken, pass, key_for, bearer, authorize, check_claims, check_token, jwt_auth,
}
use email_proxy.Tokens.{JwtClaims, Crypto, Fresh}
use email_proxy.Tokens.Handler.{
  CreateTokenRequest, new_client_id, new_claims, new_token, store_new_token, create_token,
}

-- The claims of a token as they are read.
abbrev pub claims_read : JwtClaims → Claims
claims_read c = record {
  client_id = text_claim c.client_id;
  client_name = text_claim c.client_name;
  department = text_claim c.department;
  permissions = list_claim (map some c.permissions);
}

-- The JWT library reads back what it signed, if the function for the key gives the same one.
pub record ReadsBack (crypto : Crypto) (jwt_parse : (Bool → Result Text) → Text → Result JwtToken)
    : Type 0 where
  pub reads :
      (claims : JwtClaims) (secret token : Text) (key : Bool → Result Text)
      → crypto.sign claims secret ≡ ok token
      → key true ≡ ok secret
      → jwt_parse key token ≡ ok (record { valid = true; claims = some (claims_read claims) })

abbrev pub context_for : JwtClaims → Text → Context
context_for claims token_id = record {
  client_id = some (text_claim claims.client_id);
  client_name = some (text_claim claims.client_name);
  department = some (text_claim claims.department);
  permissions = some (list_claim (map some claims.permissions));
  client_token_id = some (text_claim token_id);
}

pub is_empty_no : (t : Text) → t ≢ [] → is_empty t ≡ false
is_empty_no [] h = absurd (h refl)
is_empty_no (c ∷ t) h = refl

bearer_of : (u : Text → Text) (token : Text) → bearer u (text "Bearer " ++ token) ≡ some token
unfolding bearer split_once to_lower text_eq
bearer_of u token = refl

module _ (e : Env) (crypto : Crypto) (jwt_parse : (Bool → Result Text) → Text → Result JwtToken)
    (reads_back : ReadsBack crypto jwt_parse) where
  -- A signed token of a client with an active row passes.
  pub signed_passes :
      (w : World e.services) (claims : JwtClaims) (token : Text) (stored : ClientToken)
      → crypto.sign claims e.config.jwt_secret ≡ ok token
      → claims.client_id ≢ []
      → e.services.first_active_token claims.client_id w.db ≡ ok stored
      → jwt_auth e jwt_parse w (text "Bearer " ++ token) ≡ pass (context_for claims stored.id)
  unfolding jwt_auth check_token check_claims authorize
  signed_passes w claims token stored signed has_id active =
      let read =
        reads_back.reads claims e.config.jwt_secret token (key_for e.config.jwt_secret) signed
          (unfold key_for in refl) in
      let full : is_empty claims.client_id ≡ false = is_empty_no claims.client_id has_id in
      rw (jwt_auth, bearer_of e.platform.unicode_lower token, read, full, authorize, active) refl

  -- With services that do not fail and a JWT library that reads back what it signed, a token that
  -- CreateToken answered is let through by JWTAuth, for the client of the answer, with the name, the
  -- department and the permissions of the request.
  pub create_token_passes :
      IsReliable e.services
      → (fresh : Fresh) (asked : Result CreateTokenRequest) (w w' : World e.services)
      → (token client : Text)
      → create_token e crypto fresh asked w ≡ (w', token_created token client)
      → (req : CreateTokenRequest) × ((asked ≡ ok req)
          × ((client ≡ new_client_id fresh.client)
              × (jwt_auth e jwt_parse w' (text "Bearer " ++ token)
                  ≡ pass (context_for (new_claims fresh req) fresh.row))))
  unfolding create_token store_new_token new_claims new_token
  create_token_passes r fresh (err cause) w w' token client h = absurd (ground arith)
  create_token_passes r fresh (ok req) w w' token client h =
      elim (Result-cases (crypto.sign (new_claims fresh req) e.config.jwt_secret)) [
        | inr (cause, bad) ↦ absurd (ground arith)
        | inl (signed, is_signed) ↦
            let row = new_token fresh req (crypto.sha256_hex signed) in
            elim (Option-cases (e.services.create_token row w.db).1) [
              | inr (cause, bad) ↦ absurd (ground arith)
              | inl created ↦
                  let same : (w' ≡ record w { db = (e.services.create_token row w.db).0 })
                      × ((token ≡ signed) × (client ≡ new_client_id fresh.client)) =
                    ground arith in
                  let stored : e.services.token_row row.client_id w'.db ≡ some row =
                    ap (λ (v : World e.services). e.services.token_row row.client_id v.db) same.0
                    ∙ (e.services.token_row-create row w.db row.client_id created
                        ∙ rw (text_eq_refl row.client_id) refl) in
                  (
                    req,
                    (
                      refl,
                      (
                        same.1.1,
                        signed_passes w' (new_claims fresh req) token row
                            (is_signed ∙ sym (ap ok same.1.0))
                            (λ none_is. absurd (unfold new_client_id in cc))
                            (r.finds_token row.client_id w'.db row stored
                              (unfold new_token in refl)),
                      ),
                    ),
                  )
            ]
      ]
