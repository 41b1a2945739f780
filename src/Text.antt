-- ===== src/Text.antt =====
-- Go strings as byte sequences, with the functions of package strings that the program calls.
-- internal/smtp/session.go `cleanEmail`.
pub mod Laws
pub mod Clean
use Prim.Native.Char.{code}
use Prim.Native.String.{String}
use email_proxy.Prelude.{
  ℕ, zero, suc, ◌+◌, ◌/◌, ◌%◌, Bool, true, false, ◌&&◌, ◌||◌, List, [], ◌∷◌, map, reverse, Option,
  none, some, leb, ltb, ◌==◌, if◌then◌else◌, all,
}

abbrev pub Text : Type 0
Text = List ℕ

-- The bytes of an ASCII literal.
abbrev pub text : String → Text
text String.[] = []
text (String.◌∷◌ c s) = code c ∷ text s

unfoldable pub text_eq : Text → Text → Bool
text_eq [] [] = true
text_eq [] (_ ∷ _) = false
text_eq (_ ∷ _) [] = false
text_eq (c ∷ s) (d ∷ t) = c == d && text_eq s t

-- strings.HasPrefix
unfoldable pub has_prefix : Text → Text → Bool
has_prefix s [] = true
has_prefix [] (_ ∷ _) = false
has_prefix (c ∷ s) (d ∷ t) = c == d && has_prefix s t

-- strings.Contains
unfoldable pub contains : Text → Text → Bool
unfolding has_prefix
contains [] t = has_prefix [] t
contains (c ∷ s) t = has_prefix (c ∷ s) t || contains s t

-- strings.HasSuffix
unfoldable pub has_suffix : Text → Text → Bool
unfolding has_prefix
has_suffix s t = has_prefix (reverse s) (reverse t)

-- What is left of `s` behind the prefix `t`, if `s` has it.
unfoldable pub strip_prefix : Text → Text → Option Text
strip_prefix s [] = some s
strip_prefix [] (_ ∷ _) = none
strip_prefix (c ∷ s) (d ∷ t) = if c == d then strip_prefix s t else none

abbrev or_else : Option Text → Text → Text
or_else none s = s
or_else (some r) s = r

-- strings.TrimPrefix and strings.TrimSuffix: the text as it is where it lacks the affix.
unfoldable pub trim_prefix : Text → Text → Text
unfolding strip_prefix
trim_prefix s t = or_else (strip_prefix s t) s

unfoldable pub trim_suffix : Text → Text → Text
unfolding trim_prefix
trim_suffix s t = reverse (trim_prefix (reverse s) (reverse t))

-- The ASCII letters of strings.ToLower.
unfoldable pub lower_byte : ℕ → ℕ
lower_byte c = if leb b'A' c && leb c b'Z' then c + 32 else c

unfoldable pub is_ascii : Text → Bool
is_ascii = all (λ c. ltb c 128)

-- strings.ToLower: byte by byte where the text is ASCII; the Unicode case tables, which are
-- consulted otherwise, are the parameter `unicode_lower`.
unfoldable pub to_lower : (Text → Text) → Text → Text
unfolding is_ascii lower_byte
to_lower unicode_lower s = if is_ascii s then map lower_byte s else unicode_lower s

-- unicode.IsSpace of a one byte rune.
unfoldable pub is_space : ℕ → Bool
is_space c = (leb 9 c && leb c 13) || c == 32

-- The white space that takes two bytes in UTF-8: U+0085 and U+00A0.
unfoldable pub is_space_2 : ℕ → ℕ → Bool
is_space_2 c d = c == 0xc2 && (d == 0x85 || d == 0xa0)

-- The white space that takes three bytes: U+1680, U+2000 to U+200A, U+2028, U+2029, U+202F,
-- U+205F and U+3000.
unfoldable pub is_space_3 : ℕ → ℕ → ℕ → Bool
is_space_3 c d e =
    (c == 0xe1 && d == 0x9a && e == 0x80)
    || (c == 0xe2
        && d == 0x80
        && ((leb 0x80 e && leb e 0x8a) || e == 0xa8 || e == 0xa9 || e == 0xaf))
    || (c == 0xe2 && d == 0x81 && e == 0x9f)
    || (c == 0xe3 && d == 0x80 && e == 0x80)

-- White space is cut off in front. `two` and `three` test the bytes of one rune in reading order.
cut_space : (ℕ → ℕ → Bool) → (ℕ → ℕ → ℕ → Bool) → Text → Text
unfolding is_space
cut_space two three [] = []
cut_space two three (c ∷ []) = if is_space c then [] else c ∷ []
cut_space two three (c ∷ d ∷ []) =
    let one = cut_space two three (d ∷ []) in
    if is_space c then one else if two c d then [] else c ∷ d ∷ []
cut_space two three (c ∷ d ∷ e ∷ s) =
    let one = cut_space two three (d ∷ e ∷ s) in
    let pair = cut_space two three (e ∷ s) in
    let triple = cut_space two three s in
    if is_space c
    then one
    else if two c d
    then pair
    else if three c d e
    then triple
    else c ∷ d ∷ e ∷ s

unfoldable pub trim_left : Text → Text
unfolding cut_space is_space_2 is_space_3
trim_left = cut_space is_space_2 is_space_3

unfoldable pub trim_right : Text → Text
unfolding cut_space is_space_2 is_space_3
trim_right s = reverse (cut_space (λ d c. is_space_2 c d) (λ e d c. is_space_3 c d e) (reverse s))

-- strings.TrimSpace
unfoldable pub trim_space : Text → Text
unfolding trim_left trim_right
trim_space s = trim_right (trim_left s)

-- `cleanEmail`: white space at both ends goes, then one angle bracket at each end.
unfoldable pub clean_email : Text → Text
unfolding trim_space trim_prefix trim_suffix
clean_email email = trim_suffix (trim_prefix (trim_space email) (text "<")) (text ">")

abbrev pub is_empty : Text → Bool
is_empty [] = true
is_empty (_ ∷ _) = false

unfoldable pub split_from : ℕ → Text → Text → List Text
split_from sep cur [] = reverse cur ∷ []
split_from sep cur (c ∷ s) =
    let closed = reverse cur ∷ split_from sep [] s in
    let longer = split_from sep (c ∷ cur) s in if c == sep then closed else longer

-- strings.Split by one byte; `split_from` holds the part that is read, last byte first.
unfoldable pub split : ℕ → Text → List Text
unfolding split_from
split sep s = split_from sep [] s

-- strings.SplitN(s, sep, 2): the text in front of the first separator, and the text behind it.
unfoldable pub split_once : ℕ → Text → Text × Option Text
split_once sep [] = ([], none)
split_once sep (c ∷ s) =
    let (head, rest) = split_once sep s in if c == sep then ([], some s) else (c ∷ head, rest)

cut_byte : ℕ → Text → Text
cut_byte b [] = []
cut_byte b (c ∷ s) = let rest = cut_byte b s in if c == b then rest else c ∷ s

-- strings.Trim by one byte
unfoldable pub trim_byte : ℕ → Text → Text
unfolding cut_byte
trim_byte b s = reverse (cut_byte b (reverse (cut_byte b s)))

digits : ℕ → ℕ → Text → Text
digits zero n acc = acc
digits (suc f) n acc =
    let rest = digits f (n / 10) ((b'0' + n % 10) ∷ acc) in
    if n / 10 == 0 then (b'0' + n % 10) ∷ acc else rest

-- A number as %d prints it. A number has fewer digits than it counts.
unfoldable pub decimal : ℕ → Text
unfolding digits
decimal n = digits (suc n) n []
