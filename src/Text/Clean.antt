-- ===== src/Text/Clean.antt =====
-- `cleanEmail` on an address in angle brackets.
use mathlib.Core.List.{reverse_aux, reverse-cons, reverse-append, reverse-reverse}
use email_proxy.Prelude.{
  ℕ, ◌≡◌, refl, ap, ◌∙◌, Bool, true, false, [], ◌∷◌, ◌++◌, reverse, some, arith, All, append_assoc,
}
use email_proxy.Text.{
  Text, text, is_space, is_space_2, is_space_3, cut_space, trim_left, trim_right, strip_prefix,
  trim_prefix, trim_suffix, clean_email,
}

-- Only ASCII white space.
abbrev pub IsBlank : Text → Type 0
IsBlank = All (λ c. is_space c ≡ true)

module _ (two : ℕ → ℕ → Bool) (three : ℕ → ℕ → ℕ → Bool) where
  cut_space_blank :
      (c : ℕ) (s : Text) → is_space c ≡ true → cut_space two three (c ∷ s) ≡ cut_space two three s
  unfolding cut_space
  cut_space_blank c [] h = ground arith
  cut_space_blank c (d ∷ []) h = ground arith
  cut_space_blank c (d ∷ e ∷ s) h = ground arith

  cut_space_stop :
      (c : ℕ) (s : Text)
      → is_space c ≡ false
      → ((d : ℕ) → two c d ≡ false)
      → ((d e : ℕ) → three c d e ≡ false)
      → cut_space two three (c ∷ s) ≡ c ∷ s
  unfolding cut_space
  cut_space_stop c [] h k l = ground arith
  cut_space_stop c (d ∷ []) h k l = ground (arith, k d)
  cut_space_stop c (d ∷ e ∷ s) h k l = ground (arith, k d, l d e)

  cut_space-append :
      (pad s : Text) → IsBlank pad → cut_space two three (pad ++ s) ≡ cut_space two three s
  cut_space-append [] s h = refl
  cut_space-append (c ∷ pad) s (hc, h) = cut_space_blank c (pad ++ s) hc ∙ cut_space-append pad s h

IsBlank-reverse_aux : (s t : Text) → IsBlank s → IsBlank t → IsBlank (reverse_aux s t)
IsBlank-reverse_aux [] t _ k = k
IsBlank-reverse_aux (c ∷ s) t (p, h) k = IsBlank-reverse_aux s (c ∷ t) h (p, k)

trim_left_bracket : (pad s : Text) → IsBlank pad → trim_left (pad ++ b'<' ∷ s) ≡ b'<' ∷ s
unfolding trim_left
trim_left_bracket pad s h =
    cut_space-append is_space_2 is_space_3 pad (b'<' ∷ s) h
    ∙ cut_space_stop is_space_2 is_space_3 b'<' s (unfold is_space in refl)
        (λ d. unfold is_space_2 in refl) (λ d e. unfold is_space_3 in refl)

not_space_2 : (d : ℕ) → is_space_2 d b'>' ≡ false
unfolding is_space_2
not_space_2 d = ground arith

not_space_3 : (d e : ℕ) → is_space_3 e d b'>' ≡ false
unfolding is_space_3
not_space_3 d e = ground arith

trim_right_bracket :
    (s pad : Text) → IsBlank pad → trim_right (s ++ b'>' ∷ [] ++ pad) ≡ s ++ b'>' ∷ []
unfolding trim_right
trim_right_bracket s pad h =
    let two = λ (d c : ℕ). is_space_2 c d in
    let three = λ (e d c : ℕ). is_space_3 c d e in
    let cut =
      cut_space-append two three (reverse pad) (b'>' ∷ reverse s) (IsBlank-reverse_aux pad [] h tt)
      ∙ cut_space_stop two three b'>' (reverse s) (unfold is_space in refl) not_space_2
          not_space_3 in
    simp (reverse-append, cut, reverse-cons, reverse-reverse)

strip_prefix_self : (t s : Text) → strip_prefix (t ++ s) t ≡ some s
unfolding strip_prefix
strip_prefix_self [] s = refl
strip_prefix_self (c ∷ t) s = ground (arith, strip_prefix_self t s)

pub trim_prefix-append : (t s : Text) → trim_prefix (t ++ s) t ≡ s
unfolding trim_prefix
trim_prefix-append t s = rw strip_prefix_self

pub trim_suffix-append : (s t : Text) → trim_suffix (s ++ t) t ≡ s
unfolding trim_suffix
trim_suffix-append s t = simp (reverse-append, trim_prefix-append, reverse-reverse)

-- Whatever stands between angle brackets is what `cleanEmail` returns, blanks inside included,
-- and ASCII white space outside the brackets makes no difference.
pub clean_email_bracketed :
    (before address after : Text)
    → IsBlank before
    → IsBlank after
    → clean_email (before ++ text "<" ++ address ++ text ">" ++ after) ≡ address
unfolding clean_email
clean_email_bracketed before address after h k =
    let start : trim_left (before ++ text "<" ++ address ++ text ">" ++ after)
        ≡ b'<' ∷ address ++ b'>' ∷ [] ++ after =
      simp append_assoc (trim_left_bracket before (address ++ b'>' ∷ after) h) in
    let trimmed = ap trim_right start ∙ trim_right_bracket (b'<' ∷ address) after k in
    rw trimmed (
      rw (trim_prefix-append (text "<") (address ++ text ">"))
        (trim_suffix-append address (text ">")))
