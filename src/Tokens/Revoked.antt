-- ===== src/Tokens/Revoked.antt =====
-- A token that was revoked is not let through.
use mathlib.Core.Path.{sym, ap}
use email_proxy.Prelude.{
  ◌≡◌, refl, ◌≢◌, ◌∙◌, ℕ, Bool, true, false, some, arith, inl, inr, Bool-cases, ◌==◌, ==_iff,
}
use email_proxy.Prelude.Results.{Result}
use email_proxy.Text.{Text}
use email_proxy.Models.{ClientToken, is_named}
use email_proxy.Services.{Env, World}
use email_proxy.Api.{text_claim, Context, token_revoked}
use email_proxy.Api.Auth.{JwtToken, pass, jwt_auth}
use email_proxy.Api.Auth.Laws.{jwt_auth_sound}
use email_proxy.Tokens.Handler.{uuid_of, revoke_token}

same_client : (a c : Text) → some (text_claim a) ≡ some (text_claim c) → a ≡ c
same_client a c h = ground arith

one_row : (t u : ClientToken) → some t ≡ some u → t.is_active ≡ false → u.is_active ≡ true → ⊥
one_row t u h off on = ground arith

module _ (e : Env) (now : ℕ) (token_id : Text) (w w' : World e.services) where
  revoke_token_row :
      (c : Text) (t : ClientToken)
      → revoke_token e now token_id w ≡ (w', token_revoked)
      → e.services.token_row c w.db ≡ some t
      → is_named token_id (uuid_of e token_id) t ≡ true
      → e.services.token_row c w'.db ≡ some (record t { is_active = false; revoked_at = some now })
  unfolding revoke_token
  revoke_token_row c t h stored named =
      let id = uuid_of e token_id in
      let result = e.services.revoke_tokens token_id id now w.db in
      elim (Bool-cases (result.1 == 0)) [
        | inl none_found ↦ absurd (ground arith)
        | inr some_found ↦
            let same : w' ≡ record w { db = result.0 } = ground arith in
            ap (λ (v : World e.services). e.services.token_row c v.db) same
            ∙ (e.services.token_row-revoke token_id id now w.db c
                  (ground (arith, ==_iff result.1 0))
                ∙ rw (stored, named) refl)
      ]

  -- Once RevokeToken has answered that a token is revoked, JWTAuth lets no request of its client
  -- through, whatever the header and the JWT library say.
  pub revoke_token_refuses :
      (c : Text) (t : ClientToken)
      → revoke_token e now token_id w ≡ (w', token_revoked)
      → e.services.token_row c w.db ≡ some t
      → is_named token_id (uuid_of e token_id) t ≡ true
      → (jwt_parse : (Bool → Result Text) → Text → Result JwtToken) (header : Text)
        (context : Context)
      → jwt_auth e jwt_parse w' header ≡ pass context
      → context.client_id ≢ some (text_claim c)
  revoke_token_refuses c t h stored named jwt_parse header context passes is_client =
      let row = revoke_token_row c t h stored named in
      let a = jwt_auth_sound e jwt_parse w' header context passes in
      let kept = e.services.first_active_token-row a.id w'.db a.stored a.stored_is in
      let same : a.id ≡ c =
        same_client a.id c (sym (ap (λ x. x.client_id) a.context_is) ∙ is_client) in
      one_row (record t { is_active = false; revoked_at = some now }) a.stored
        (sym row ∙ (ap (λ i. e.services.token_row i w'.db) (sym same) ∙ kept)) refl a.active.1
