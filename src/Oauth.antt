-- ===== src/Oauth.antt =====
-- pkg/microsoft/oauth.go: access tokens for Graph, with a cache for each service. What Microsoft's
-- token endpoint answers to a request is a parameter. Times are in nanoseconds; the seconds that a
-- token lives are the bit pattern of an int64.
pub mod Laws
use email_proxy.Prelude.{
  ℕ, ◌+◌, ◌-◌, ◌*◌, ◌%◌, ◌^◌, Bool, ◌&&◌, not, List, [], ◌∷◌, ◌++◌, ltb, ◌==◌, if◌then◌else◌,
}
use email_proxy.Prelude.Results.{Result, ok, err}
use email_proxy.Text.{Text, text, is_empty, decimal}

pub record OauthService : Type 0 where
  pub tenant_id : Text
  pub client_id : Text
  pub client_secret : Text
  pub access_token : Text
  pub expires_at : ℕ

-- The form that is posted, before it is encoded.
pub record TokenRequest : Type 0 where
  pub url : Text
  pub form : List (Text × Text)

-- `tokenResponse`
pub record TokenResponse : Type 0 where
  pub access_token : Text
  pub token_type : Text
  pub expires_in : ℕ

-- What http.Post returns: an error, or a status and what decoding its body returns.
pub data Answer : Type 0 where
  no_answer : Text → Answer
  answer : ℕ → Result TokenResponse → Answer

unfoldable pub new_oauth_service : Text → Text → Text → OauthService
new_oauth_service tenant_id client_id client_secret = record {
  tenant_id = tenant_id;
  client_id = client_id;
  client_secret = client_secret;
  access_token = [];
  expires_at = 0;
}

-- The test of the cache: the token must live for 60 seconds more.
unfoldable pub is_cached : ℕ → OauthService → Bool
is_cached now s = not (is_empty s.access_token) && ltb (now + 60 * 1000000000) s.expires_at

unfoldable pub token_request : OauthService → TokenRequest
token_request s = record {
  url = text "https://login.microsoftonline.com/" ++ s.tenant_id ++ text "/oauth2/v2.0/token";
  form =
      (text "client_id", s.client_id)
      ∷ (text "client_secret", s.client_secret)
      ∷ (text "scope", text "https://graph.microsoft.com/.default")
      ∷ (text "grant_type", text "client_credentials")
      ∷ [];
}

-- `time.Duration(seconds) * time.Second` in int64, as a bit pattern.
unfoldable pub duration_of : ℕ → ℕ
duration_of seconds = seconds * 1000000000 % 2 ^ 64

-- `Time.Add` of a duration, which is negative from the pattern 2 ^ 63 on. What would be before the
-- time 0 is 0, which is as far from being alive.
unfoldable pub add_duration : ℕ → ℕ → ℕ
add_duration now d = if ltb d (2 ^ 63) then now + d else now - (2 ^ 64 - d)

-- The cache after a token was decoded.
unfoldable pub store_token : ℕ → TokenResponse → OauthService → OauthService
store_token now r s = record s {
  access_token = r.access_token;
  expires_at = add_duration now (duration_of r.expires_in);
}

-- `now` is the time after the answer.
unfoldable pub read_answer : ℕ → Answer → OauthService → OauthService × Result Text
read_answer now (no_answer cause) s = (s, err (text "failed to request token: " ++ cause))
read_answer now (answer status decoded) s =
    if not (status == 200)
    then (s, err (text "token request failed with status: " ++ decimal status))
    else (elim decoded [
      | err cause ↦ (s, err (text "failed to decode token response: " ++ cause))
      | ok r ↦ (store_token now r s, ok r.access_token)
    ])

module _ (post : TokenRequest → Answer) where
  -- The times of the second test and after the answer.
  unfoldable pub refresh_token : ℕ → ℕ → OauthService → OauthService × Result Text
  refresh_token tested answered s =
      if is_cached tested s
      then (s, ok s.access_token)
      else read_answer answered (post (token_request s)) s

  -- The times of the two tests and after the answer.
  unfoldable pub get_access_token : ℕ → ℕ → ℕ → OauthService → OauthService × Result Text
  get_access_token now tested answered s =
      if is_cached now s then (s, ok s.access_token) else refresh_token tested answered s

  -- `OAuthManager.GetAccessToken`: a new service for each call.
  unfoldable pub get_access_token_for : ℕ → ℕ → ℕ → Text → Text → Text → Result Text
  get_access_token_for now tested answered tenant_id client_id client_secret =
      (get_access_token now tested answered (new_oauth_service tenant_id client_id client_secret)).1

-- `IsConfigured`
unfoldable pub is_configured : OauthService → Bool
is_configured s =
    not (is_empty s.tenant_id) && not (is_empty s.client_id) && not (is_empty s.client_secret)
