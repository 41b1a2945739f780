-- ===== src/Text/Laws.antt =====
-- What the functions on texts promise.
use email_proxy.Prelude.{ℕ, ◌≡◌, refl, sym, ◌↔◌, true, [], ◌∷◌, ◌++◌, map, reverse, arith, ap, ◌∙◌}
use mathlib.Core.List.{reverse-append, reverse-reverse}
use email_proxy.Text.{Text, text_eq, has_prefix, has_suffix, lower_byte, is_ascii, to_lower}

pub text_eq_iff : (s t : Text) → (text_eq s t ≡ true) ↔ (s ≡ t)
unfolding text_eq
text_eq_iff [] [] = ground arith
text_eq_iff [] (d ∷ t) = ground arith
text_eq_iff (c ∷ s) [] = ground arith
text_eq_iff (c ∷ s) (d ∷ t) = ground (arith, text_eq_iff s t)

pub text_eq_refl : (s : Text) → text_eq s s ≡ true
text_eq_refl s = (text_eq_iff s s).1 refl

pub has_prefix_sound : (s t : Text) → has_prefix s t ≡ true → (r : Text) × (s ≡ t ++ r)
unfolding has_prefix
has_prefix_sound s [] h = (s, refl)
has_prefix_sound [] (d ∷ t) h = cc
has_prefix_sound (c ∷ s) (d ∷ t) h =
    let (r, e) = has_prefix_sound s t (ground arith) in (r, ground arith)

pub has_prefix-append : (t r : Text) → has_prefix (t ++ r) t ≡ true
unfolding has_prefix
has_prefix-append [] r = refl
has_prefix-append (c ∷ t) r = ground (arith, has_prefix-append t r)

pub has_suffix_sound : (s t : Text) → has_suffix s t ≡ true → (r : Text) × (s ≡ r ++ t)
unfolding has_suffix
has_suffix_sound s t h =
    let (r, e) = has_prefix_sound (reverse s) (reverse t) h in
    (reverse r, sym (reverse-reverse s) ∙ ap reverse e ∙ simp (reverse-append, reverse-reverse))

pub has_suffix-append : (r t : Text) → has_suffix (r ++ t) t ≡ true
unfolding has_suffix
has_suffix-append r t = rw reverse-append (has_prefix-append (reverse t) (reverse r))

lower_byte_idem : (c : ℕ) → lower_byte (lower_byte c) ≡ lower_byte c
unfolding lower_byte
lower_byte_idem c = ground arith

map-lower_byte_idem : (s : Text) → map lower_byte (map lower_byte s) ≡ map lower_byte s
map-lower_byte_idem [] = refl
map-lower_byte_idem (c ∷ s) = cc (lower_byte_idem c, map-lower_byte_idem s)

is_ascii-map : (s : Text) → is_ascii s ≡ true → is_ascii (map lower_byte s) ≡ true
unfolding is_ascii lower_byte
is_ascii-map [] h = refl
is_ascii-map (c ∷ s) h = ground (arith, is_ascii-map s)

-- Lowering an ASCII text a second time changes nothing.
pub to_lower_idem :
    (u : Text → Text) (s : Text) → is_ascii s ≡ true → to_lower u (to_lower u s) ≡ to_lower u s
unfolding to_lower
to_lower_idem u s h = rw (h, is_ascii-map s h) (map-lower_byte_idem s)
