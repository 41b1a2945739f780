-- ===== src/Tests/OauthRuns.antt =====
-- Access tokens on concrete answers.
use email_proxy.Prelude.{◌+◌, ◌*◌, ◌<◌, ◌≡◌, ◌≢◌, refl, ◌⊎◌, [], arith}
use email_proxy.Prelude.Results.{ok}
use email_proxy.Text.{text}
use email_proxy.Oauth.{
  OauthService, TokenRequest, TokenResponse, Answer, no_answer, answer, new_oauth_service,
  duration_of, add_duration, is_cached, token_request, store_token, read_answer, refresh_token,
  get_access_token, get_access_token_for,
}
use email_proxy.Oauth.Laws.{IsStored, get_access_token_lem}

abbrev response : TokenResponse
response = record { access_token = text "abc"; token_type = text "Bearer"; expires_in = 3600 }

abbrev post : TokenRequest → Answer
post request = answer 200 (ok response)

abbrev offline : TokenRequest → Answer
offline request = no_answer (text "no route")

abbrev empty : OauthService
empty = record {
  tenant_id = text "t";
  client_id = text "c";
  client_secret = text "s";
  access_token = [];
  expires_at = 0;
}

abbrev filled : OauthService
filled = record empty { access_token = text "abc"; expires_at = 3600000000007 }

fetches : get_access_token post 5 6 7 empty ≡ (filled, ok (text "abc"))
unfolding is_cached duration_of add_duration store_token read_answer refresh_token get_access_token
fetches = refl

get_access_token_lem_example :
    ((text "abc" ≡ empty.access_token)
      × (filled ≡ empty)
      × (text "abc" ≢ [])
      × (5 + 60 * 1000000000 < empty.expires_at))
    ⊎ ((r : TokenResponse) × (post (token_request empty) ≡ answer 200 (ok r))
        × (text "abc" ≡ r.access_token)
        × IsStored 7 r empty filled)
get_access_token_lem_example =
    get_access_token_lem post 5 6 7 empty filled (text "abc") (omega arith) fetches

fetches_for : get_access_token_for post 5 6 7 (text "t") (text "c") (text "s") ≡ ok (text "abc")
unfolding is_cached duration_of add_duration store_token read_answer refresh_token get_access_token
    get_access_token_for new_oauth_service
fetches_for = refl
