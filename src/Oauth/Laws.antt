-- ===== src/Oauth/Laws.antt =====
-- Which tokens a service hands out.
use email_proxy.Prelude.{
  ℕ, ◌+◌, ◌*◌, ◌%◌, ◌^◌, ◌∷◌, ltb, ◌≤◌, ◌<◌, ◌≡◌, ◌≢◌, refl, sym, ap, ◌∙◌, ◌⊎◌, inl, inr, true,
  false, [], arith, Bool-cases, ==_iff,
}
use email_proxy.Prelude.Results.{ok, err}
use mathlib.Core.Path.{subst}
use email_proxy.Text.{Text, is_empty}
use email_proxy.Oauth.{
  OauthService, TokenRequest, TokenResponse, Answer, no_answer, answer, new_oauth_service,
  duration_of, add_duration, is_cached, token_request, store_token, read_answer, refresh_token,
  get_access_token, get_access_token_for,
}

cached_sound :
    (now : ℕ) (s : OauthService)
    → is_cached now s ≡ true
    → (s.access_token ≢ []) × (now + 60 * 1000000000 < s.expires_at)
unfolding is_cached
cached_sound now s h = (λ e. ground arith, ground arith)

read_answer_sound :
    (now : ℕ) (a : Answer) (s s' : OauthService) (token : Text)
    → read_answer now a s ≡ (s', ok token)
    → (r : TokenResponse) × (a ≡ answer 200 (ok r))
      × (token ≡ r.access_token)
      × (s' ≡ store_token now r s)
unfolding read_answer
read_answer_sound now (no_answer cause) s s' token h = absurd (ground arith)
read_answer_sound now (answer status (err cause)) s s' token h = absurd (ground arith)
read_answer_sound now (answer status (ok r)) s s' token h =
    (r, ground (arith, ==_iff status 200), ground arith, ground arith)

read_answer_keeps :
    (now : ℕ) (a : Answer) (s s' : OauthService) (cause : Text)
    → read_answer now a s ≡ (s', err cause)
    → s' ≡ s
unfolding read_answer
read_answer_keeps now (no_answer c) s s' cause h = ground arith
read_answer_keeps now (answer status (err c)) s s' cause h = ground arith
read_answer_keeps now (answer status (ok r)) s s' cause h = ground arith

lifetime_fits :
    (answered seconds : ℕ)
    → seconds * 1000000000 < 2 ^ 63
    → add_duration answered (duration_of seconds) ≡ answered + seconds * 1000000000
unfolding add_duration duration_of
lifetime_fits answered seconds h =
    let whole : seconds * 1000000000 % 2 ^ 64 ≡ seconds * 1000000000 = omega arith in
    rw whole (ground arith)

not_empty : (t : Text) → t ≢ [] → is_empty t ≡ false
not_empty [] h = absurd (h refl)
not_empty (c ∷ t) h = refl

-- The cache `s'` after the endpoint has answered `r`: it holds the token, the end that the answer
-- gives it, and the credentials of `s`. If int64 holds the lifetime in nanoseconds and the token is
-- not empty, every later call that is tested more than 60 seconds before this end returns the token
-- again, asks nothing of the endpoint, whatever it would answer, and leaves the cache as it is.
pub record IsStored (answered : ℕ) (r : TokenResponse) (s s' : OauthService) : Type 0 where
  pub credentials :
      (s'.tenant_id ≡ s.tenant_id)
      × (s'.client_id ≡ s.client_id)
      × (s'.client_secret ≡ s.client_secret)
  pub holds : s'.access_token ≡ r.access_token
  pub until :
      r.expires_in * 1000000000 < 2 ^ 63 → s'.expires_at ≡ answered + r.expires_in * 1000000000
  pub reused :
      (other : TokenRequest → Answer) (now tested answered' : ℕ)
      → r.access_token ≢ []
      → r.expires_in * 1000000000 < 2 ^ 63
      → now + 60 * 1000000000 < answered + r.expires_in * 1000000000
      → get_access_token other now tested answered' s' ≡ (s', ok r.access_token)

store_token-IsStored :
    (answered : ℕ) (r : TokenResponse) (s : OauthService)
    → IsStored answered r s (store_token answered r s)
unfolding store_token get_access_token is_cached
store_token-IsStored answered r s = record {
  credentials = (refl, refl, refl);
  holds = refl;
  until = lifetime_fits answered r.expires_in;
  reused = λ other now tested answered' some_token fits alive.
      let end = lifetime_fits answered r.expires_in fits in
      let later : ltb (now + 60 * 1000000000) (add_duration answered (duration_of r.expires_in))
          ≡ true =
        rw end (ground arith) in
      rw (not_empty r.access_token some_token, later) refl;
}

module _ (post : TokenRequest → Answer) where
  -- A token that is handed out is the cached one, which lives for more than 60 seconds from the
  -- first test on, and the cache is left as it is; or it is the one that the endpoint has answered
  -- to the credentials of the service with status 200, and it is in the cache. In this case, if int64
  -- holds its lifetime in nanoseconds and it is not empty, the calls that are tested more than 60
  -- seconds before its end return it again without asking the endpoint. The second test is not
  -- earlier than the first.
  pub get_access_token_lem :
      (now tested answered : ℕ) (s s' : OauthService) (token : Text)
      → now ≤ tested
      → get_access_token post now tested answered s ≡ (s', ok token)
      → ((token ≡ s.access_token)
          × (s' ≡ s)
          × (token ≢ [])
          × (now + 60 * 1000000000 < s.expires_at))
        ⊎ ((r : TokenResponse) × (post (token_request s) ≡ answer 200 (ok r))
            × (token ≡ r.access_token)
            × IsStored answered r s s')
  unfolding get_access_token refresh_token
  get_access_token_lem now tested answered s s' token later h =
      elim (Bool-cases (is_cached now s)) [
        | inl first ↦
            let (some_token, alive) = cached_sound now s first in
            let same : (s' ≡ s) × (token ≡ s.access_token) = ground arith in
            inl (same.1, same.0, λ e. some_token (sym same.1 ∙ e), alive)
        | inr stale ↦ elim (Bool-cases (is_cached tested s)) [
          | inl second ↦
              let (some_token, alive) = cached_sound tested s second in
              let same : (s' ≡ s) × (token ≡ s.access_token) = ground arith in
              inl (same.1, same.0, λ e. some_token (sym same.1 ∙ e), omega arith)
          | inr still_stale ↦
              let (r, is, same, stored) =
                read_answer_sound answered (post (token_request s)) s s' token (ground arith) in
              inr (
                r,
                is,
                same,
                subst (IsStored answered r s) (sym stored) (store_token-IsStored answered r s),
              )
        ]
      ]

  -- A call that fails leaves the cache as it was.
  pub get_access_token_failed :
      (now tested answered : ℕ) (s s' : OauthService) (cause : Text)
      → get_access_token post now tested answered s ≡ (s', err cause)
      → s' ≡ s
  unfolding get_access_token refresh_token
  get_access_token_failed now tested answered s s' cause h =
      ground (arith, read_answer_keeps answered (post (token_request s)) s s' cause)

  new_is_stale :
      (now : ℕ) (tenant client secret : Text)
      → is_cached now (new_oauth_service tenant client secret) ≡ false
  unfolding is_cached new_oauth_service
  new_is_stale now tenant client secret = refl

  -- The manager never hands out a cached token: each token is the endpoint's answer, with status
  -- 200, to the credentials of this call.
  pub get_access_token_for_lem :
      (now tested answered : ℕ) (tenant client secret token : Text)
      → get_access_token_for post now tested answered tenant client secret ≡ ok token
      → (r : TokenResponse) × (post (token_request (new_oauth_service tenant client secret))
          ≡ answer 200 (ok r))
        × (token ≡ r.access_token)
  unfolding get_access_token_for get_access_token refresh_token
  get_access_token_for_lem now tested answered tenant client secret token h =
      let s = new_oauth_service tenant client secret in
      let asked : (read_answer answered (post (token_request s)) s).1 ≡ ok token =
        ground (
          arith,
          new_is_stale now tenant client secret,
          new_is_stale tested tenant client secret,
        ) in
      let (r, is, same, kept) =
        read_answer_sound answered (post (token_request s)) s
          (read_answer answered (post (token_request s)) s).0 token
          (ap (λ x. ((read_answer answered (post (token_request s)) s).0, x)) asked) in
      (r, is, same)
