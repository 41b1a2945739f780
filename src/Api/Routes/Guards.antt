-- ===== src/Api/Routes/Guards.antt =====
-- The handlers behind /api/v1/auth run for administrators alone.
use mathlib.Core.List.{Memᴰ}
use email_proxy.Prelude.{◌≡◌, Bool, true, false, not, ◌||◌, List, [], ◌∷◌, Option, some, all, arith}
use email_proxy.Prelude.Results.{Result}
use email_proxy.Text.{Text, text, text_eq, has_prefix}
use email_proxy.Services.{Env, World}
use email_proxy.Api.{list_claim, Context}
use email_proxy.Api.Auth.{JwtToken}
use email_proxy.Api.Auth.Laws.{IsAuthenticated}
use email_proxy.Api.Auth.Permissions.{Holds}
use email_proxy.Api.Routes.{Middleware, authenticated, permitted, Entry, Dependencies}

pub all-Memᴰ {ℓ} :
    {A : Type ℓ} (p : A → Bool) (a : A) (xs : List A) → all p xs ≡ true → Memᴰ a xs → p a ≡ true
all-Memᴰ p a [] h here = elim here [ ]
all-Memᴰ p a (x ∷ xs) h (Memᴰ.head same) = ground (arith, same)
all-Memᴰ p a (x ∷ xs) h (Memᴰ.tail rest) = all-Memᴰ p a xs (ground arith) rest

-- The chain of the group for administrators.
abbrev is_admin_chain : List Middleware → Bool
is_admin_chain (authenticated ∷ permitted p ∷ []) = text_eq p (text "admin")
is_admin_chain _ = false

abbrev is_guarded : Entry → Bool
is_guarded x = not (has_prefix x.path (text "/api/v1/auth/")) || is_admin_chain x.chain

module _ (e : Env) (jwt_parse : (Bool → Result Text) → Text → Result JwtToken) (deps : Dependencies)
    (w : World e.services) where
  -- A request that was authenticated, and whose permissions hold "admin".
  pub record IsAdmin (header : Text) (c : Context) : Type 0 where
    pub claims : List (Option Text)
    pub authentic : IsAuthenticated e jwt_parse w header c
    pub claims_are : c.permissions ≡ some (list_claim claims)
    pub holds : Holds (text "admin") claims
