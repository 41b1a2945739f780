-- ===== src/Tokens/Revived.antt =====
-- What the start of the API does to the tokens of the administrator.
use mathlib.Core.Path.{sym, ap}
use email_proxy.Prelude.{
  ◌≡◌, refl, ◌∙◌, ◌≢◌, Bool, true, [], ◌++◌, none, some, arith, inl, inr, Bool-cases,
}
use email_proxy.Prelude.Results.{Result, ok, Result-cases}
use email_proxy.Text.{Text, text}
use email_proxy.Text.Laws.{text_eq_refl}
use email_proxy.Models.{ClientToken}
use email_proxy.Services.{Env, World, IsReliable}
use email_proxy.Api.Auth.{JwtToken, pass, jwt_auth}
use email_proxy.Tokens.{JwtClaims, Crypto, Fresh}
use email_proxy.Tokens.Admin.{
  mis_admin_client_id, generate_jwt_token, admin_row, create_new_token, regenerated,
  regenerate_token, initialize_admin_token,
}
use email_proxy.Tokens.Issued.{ReadsBack, context_for, signed_passes}

named_not_empty : mis_admin_client_id ≢ []
named_not_empty h = cc

module _ (e : Env) (crypto : Crypto) (fresh : Fresh) (w w' : World e.services) where
  -- The row of the administrator in `v` is active.
  abbrev IsOpen : World e.services → Type 0
  IsOpen v =
      (t : ClientToken) × ((e.services.token_row mis_admin_client_id v.db ≡ some t)
        × (t.is_active ≡ true))

  creation_opens : create_new_token e crypto fresh w ≡ (w', none) → IsOpen w'
  unfolding create_new_token admin_row
  creation_opens h = elim (Result-cases (generate_jwt_token e crypto fresh)) [
    | inr (cause, bad) ↦ absurd (ground arith)
    | inl (token, signed) ↦
        let row = admin_row e crypto fresh token in
        let same : ((e.services.create_token row w.db).1 ≡ none)
            × (w' ≡ record w { db = (e.services.create_token row w.db).0 }) =
          ground arith in
        (
          row,
          (
            ap (λ (v : World e.services). e.services.token_row mis_admin_client_id v.db) same.1
                ∙ (e.services.token_row-create row w.db mis_admin_client_id same.0
                    ∙ rw (text_eq_refl mis_admin_client_id) refl),
            refl,
          ),
        )
  ]

  regeneration_opens :
      (old : ClientToken)
      → e.services.token_row mis_admin_client_id w.db ≡ some old
      → regenerate_token e crypto fresh old w ≡ (w', none)
      → IsOpen w'
  unfolding regenerate_token regenerated
  regeneration_opens old stored h = elim (Result-cases (generate_jwt_token e crypto fresh)) [
    | inr (cause, bad) ↦ absurd (ground arith)
    | inl (token, signed) ↦
        let row = regenerated e crypto fresh token old in
        let same : ((e.services.save_token row w.db).1 ≡ none)
            × (w' ≡ record w { db = (e.services.save_token row w.db).0 }) =
          ground arith in
        let named = e.services.token_row-client mis_admin_client_id w.db old stored in
        (
          row,
          (
            ap (λ (v : World e.services). e.services.token_row mis_admin_client_id v.db) same.1
                ∙ (e.services.token_row-save row old w.db mis_admin_client_id
                      (ap (λ c. e.services.token_row c w.db) named ∙ stored) refl same.0
                    ∙ rw (named, text_eq_refl mis_admin_client_id) refl),
            refl,
          ),
        )
  ]

  initialization_opens :
      e.config.init_admin_token ≡ true
      → initialize_admin_token e crypto fresh w ≡ (w', none)
      → IsOpen w'
  unfolding initialize_admin_token
  initialization_opens on h =
      elim (Result-cases (e.services.first_token mis_admin_client_id w.db)) [
        | inr (cause, bad) ↦ absurd (ground arith)
        | inl (none, absent) ↦ creation_opens (ground arith)
        | inl (some old, present) ↦
            let stored = e.services.first_token-row mis_admin_client_id w.db (some old) present in
            elim (Bool-cases old.is_active) [
              | inl active ↦
                  let same : w' ≡ w = ground arith in
                  (
                    old,
                    (
                      ap (λ (v : World e.services). e.services.token_row mis_admin_client_id v.db)
                            same
                          ∙ stored,
                      active,
                    ),
                  )
              | inr inactive ↦ regeneration_opens old stored (ground arith)
            ]
      ]

  -- With a JWT library that reads back what it signed, once InitializeAdminToken has returned nil and
  -- INIT_ADMIN_TOKEN is on, JWTAuth lets through every token that was ever signed for the
  -- administrator with the secret of the settings, one that was revoked before included.
  pub initialize_admin_token_revives :
      IsReliable e.services
      → (jwt_parse : (Bool → Result Text) → Text → Result JwtToken) → ReadsBack crypto jwt_parse
      → (claims : JwtClaims) (token : Text) → e.config.init_admin_token ≡ true
      → initialize_admin_token e crypto fresh w ≡ (w', none)
      → crypto.sign claims e.config.jwt_secret ≡ ok token
      → claims.client_id ≡ mis_admin_client_id
      → (stored : ClientToken) × ((e.services.token_row mis_admin_client_id w'.db ≡ some stored)
          × (jwt_auth e jwt_parse w' (text "Bearer " ++ token)
              ≡ pass (context_for claims stored.id)))
  initialize_admin_token_revives r jwt_parse reads_back claims token on h signed named =
      let (t, (stored, active)) = initialization_opens on h in
      (
        t,
        (
          stored,
          signed_passes e crypto jwt_parse reads_back w' claims token t signed
              (λ none_is. absurd (named_not_empty (sym named ∙ none_is)))
              (ap (λ c. e.services.first_active_token c w'.db) named
                ∙ r.finds_token mis_admin_client_id w'.db t stored active),
        ),
      )
