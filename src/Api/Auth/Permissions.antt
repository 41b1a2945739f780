-- ===== src/Api/Auth/Permissions.antt =====
-- Which permissions a request needs.
use email_proxy.Prelude.{
  ◌≡◌, ◌↔◌, ◌⊎◌, inl, inr, Bool, true, ◌||◌, List, [], ◌∷◌, Option, none, some, arith, any,
  Bool-cases,
}
use mathlib.Core.Path.{subst}
use email_proxy.Text.{Text, text, text_eq}
use email_proxy.Text.Laws.{text_eq_iff, text_eq_refl}
use email_proxy.Api.{list_claim, Context}
use email_proxy.Api.Auth.{pass, texts, permission_list, require_permission}

-- Membership in a list of claims.
pub data Holds (t : Text) : List (Option Text) → Type 0 where
  this : (claims : List (Option Text)) → Holds t (some t ∷ claims)
  later :
      (claim : Option Text) (claims : List (Option Text))
      → Holds t claims
      → Holds t (claim ∷ claims)

abbrev grants : Text → Text → Bool
grants permission p = text_eq p permission || text_eq p (text "admin")

texts_sound :
    (permission : Text) (claims : List (Option Text))
    → any (grants permission) (texts claims) ≡ true
    → Holds permission claims ⊎ Holds (text "admin") claims
unfolding texts
texts_sound permission [] h = cc
texts_sound permission (none ∷ claims) h = elim (texts_sound permission claims h) [
  | inl held ↦ inl (later none claims held)
  | inr held ↦ inr (later none claims held)
]
texts_sound permission (some t ∷ claims) h = elim (Bool-cases (text_eq t permission)) [
  | inl same ↦
      inl (subst (λ p. Holds p (some t ∷ claims)) ((text_eq_iff t permission).0 same) (this claims))
  | inr other ↦ elim (Bool-cases (text_eq t (text "admin"))) [
    | inl same ↦ inr (
        subst (λ p. Holds p (some t ∷ claims)) ((text_eq_iff t (text "admin")).0 same)
          (this claims))
    | inr neither ↦ elim (texts_sound permission claims (ground arith)) [
      | inl held ↦ inl (later (some t) claims held)
      | inr held ↦ inr (later (some t) claims held)
    ]
  ]
]

texts_complete :
    (permission t : Text) (claims : List (Option Text))
    → grants permission t ≡ true
    → Holds t claims
    → any (grants permission) (texts claims) ≡ true
unfolding texts
texts_complete permission t claims g (this rest) = rw g
texts_complete permission t claims g (later none rest h) = texts_complete permission t rest g h
texts_complete permission t claims g (later (some s) rest h) =
    ground (arith, texts_complete permission t rest g h)

-- A request whose claims hold a list of permissions passes, with its context unchanged, exactly if
-- the list holds the permission that is asked for, or "admin".
pub require_permission_iff :
    (permission : Text) (c : Context) (claims : List (Option Text))
    → c.permissions ≡ some (list_claim claims)
    → (require_permission permission c ≡ pass c)
      ↔ (Holds permission claims ⊎ Holds (text "admin") claims)
unfolding require_permission permission_list
require_permission_iff permission c claims h =
    let test = any (grants permission) (texts claims) in
    let through : test ≡ true → require_permission permission c ≡ pass c =
      λ granted. ground arith in
    (
      λ passed. elim (Bool-cases test) [
        | inl granted ↦ texts_sound permission claims granted
        | inr denied ↦ absurd (ground arith)
      ],
      λ held. elim held [
        | inl p ↦
            through (texts_complete permission permission claims (rw (text_eq_refl permission)) p)
        | inr a ↦ through (
            texts_complete permission (text "admin") claims
              (ground (arith, text_eq_refl (text "admin"))) a)
      ],
    )
