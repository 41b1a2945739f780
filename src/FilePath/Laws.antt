-- ===== src/FilePath/Laws.antt =====
-- The path of a file in a directory, when the file's name comes from elsewhere.
use email_proxy.Prelude.{
  ◌≡◌, ◌≢◌, refl, ap, ◌∙◌, ◌⊎◌, inl, inr, Bool, true, false, List, [], ◌∷◌, ◌++◌, reverse, arith,
  ◌==◌, ◌||◌, ==_iff, Bool-cases, All, append_assoc,
}
use mathlib.Core.List.{reverse_aux, reverse-reverse}
use email_proxy.Text.{Text, text, text_eq, split, split_from, is_empty}
use email_proxy.FilePath.{
  is_rooted, dot, dot_dot, go_up, resolve, resolve_all, join_slash, clean, join, last_part, base,
}

-- A text without a slash.
abbrev pub NoSlash : Text → Type 0
NoSlash = All (λ c. c ≢ b'/')

NoSlash-reverse_aux : (s t : Text) → NoSlash s → NoSlash t → NoSlash (reverse_aux s t)
NoSlash-reverse_aux [] t _ k = k
NoSlash-reverse_aux (c ∷ s) t (p, h) k = NoSlash-reverse_aux s (c ∷ t) h (p, k)

split_from-NoSlash : (cur s : Text) → NoSlash cur → All NoSlash (split_from b'/' cur s)
unfolding split_from
split_from-NoSlash cur [] h = (NoSlash-reverse_aux cur [] h tt, tt)
split_from-NoSlash cur (c ∷ s) h = elim (Bool-cases (c == b'/')) [
  | inl slash ↦ rw slash (NoSlash-reverse_aux cur [] h tt, split_from-NoSlash [] s tt)
  | inr other ↦ rw other (split_from-NoSlash (c ∷ cur) s (ground (arith, ==_iff c b'/'), h))
]

last_part-NoSlash :
    (found : Text) (parts : List Text)
    → (found ≡ text "/") ⊎ NoSlash found
    → All NoSlash parts
    → (last_part found parts ≡ text "/") ⊎ NoSlash (last_part found parts)
unfolding last_part
last_part-NoSlash found [] h _ = h
last_part-NoSlash found ([] ∷ ps) h (np, nps) = last_part-NoSlash found ps h nps
last_part-NoSlash found ((c ∷ p) ∷ ps) h (np, nps) = last_part-NoSlash (c ∷ p) ps (inr np) nps

split-NoSlash : (s : Text) → All NoSlash (split b'/' s)
unfolding split
split-NoSlash s = split_from-NoSlash [] s tt

dot-NoSlash : NoSlash dot
dot-NoSlash = ((λ h. absurd (omega (arith, h))), tt)

-- The base name of a path is a slash or has none.
pub base-NoSlash : (path : Text) → (base path ≡ text "/") ⊎ NoSlash (base path)
unfolding base
base-NoSlash [] = last_part-NoSlash dot (split b'/' []) (inr dot-NoSlash) (split-NoSlash [])
base-NoSlash (c ∷ s) =
    last_part-NoSlash (text "/") (split b'/' (c ∷ s)) (inl refl) (split-NoSlash (c ∷ s))

split_from-append :
    (cur s t : Text)
    → split_from b'/' cur (s ++ b'/' ∷ t) ≡ split_from b'/' cur s ++ split_from b'/' [] t
unfolding split_from
split_from-append cur [] t = refl
split_from-append cur (c ∷ s) t = elim (Bool-cases (c == b'/')) [
  | inl slash ↦ rw slash (ap (λ l. reverse cur ∷ l) (split_from-append [] s t))
  | inr other ↦ rw other (split_from-append (c ∷ cur) s t)
]

split_from_none :
    (cur s : Text) → NoSlash s → split_from b'/' cur s ≡ reverse (reverse_aux s cur) ∷ []
unfolding split_from
split_from_none cur [] h = refl
split_from_none cur (c ∷ s) (p, h) = elim (Bool-cases (c == b'/')) [
  | inl slash ↦ absurd (p ((==_iff c b'/').0 slash))
  | inr other ↦ rw other (split_from_none (c ∷ cur) s h)
]

split_none : (s : Text) → NoSlash s → split b'/' s ≡ s ∷ []
unfolding split
split_none s h = split_from_none [] s h ∙ ap (λ t. t ∷ []) (reverse-reverse s)

resolve_all-append :
    (rooted : Bool) (stack parts others : List Text)
    → resolve_all rooted stack (parts ++ others)
      ≡ resolve_all rooted (resolve_all rooted stack parts) others
unfolding resolve_all
resolve_all-append rooted stack [] others = refl
resolve_all-append rooted stack (p ∷ parts) others =
    resolve_all-append rooted (resolve rooted stack p) parts others

-- The elements of a cleaned path, last first.
abbrev pub elements : Text → List Text
elements path = resolve_all (is_rooted path) [] (split b'/' path)

-- The absolute path of these elements.
abbrev pub absolute : List Text → Text
absolute stack = b'/' ∷ join_slash (reverse stack)

clean_of_rooted : (path : Text) → is_rooted path ≡ true → clean path ≡ absolute (elements path)
unfolding clean
clean_of_rooted path h = rw h refl

elements-append :
    (path name : Text)
    → is_rooted path ≡ true
    → elements (path ++ b'/' ∷ name) ≡ resolve_all true (elements path) (split b'/' name)
unfolding split is_rooted
elements-append [] name h = cc
elements-append (c ∷ s) name h =
    ap (resolve_all (c == b'/') []) (split_from-append [] (c ∷ s) name)
    ∙ resolve_all-append (c == b'/') [] (split_from b'/' [] (c ∷ s)) (split_from b'/' [] name)
    ∙ ap
        (λ r.
          resolve_all r (resolve_all (c == b'/') [] (split_from b'/' [] (c ∷ s)))
            (split_from b'/' [] name))
        h

-- filepath.Join of an absolute directory and a name.
abbrev pub in_directory : Text → Text → Text → Text → Text
in_directory root day id name = join (root ∷ day ∷ id ∷ name ∷ [])

abbrev pub directory : Text → Text → Text → Text
directory root day id = join_slash (root ∷ day ∷ id ∷ [])

is_rooted-append : (s t : Text) → is_rooted s ≡ true → is_rooted (s ++ t) ≡ true
unfolding is_rooted
is_rooted-append [] t h = cc
is_rooted-append (c ∷ s) t h = h

-- Joining resolves each element of the name against the directory.
pub in_directory_lem :
    (root day id name : Text)
    → is_rooted root ≡ true
    → in_directory root day id name
      ≡ absolute (resolve_all true (elements (directory root day id)) (split b'/' name))
unfolding join join_slash
in_directory_lem [] day id name h = unfold is_rooted in cc
in_directory_lem (c ∷ root) day id name h =
    let dir = directory (c ∷ root) day id in
    let rooted : is_rooted dir ≡ true = is_rooted-append (c ∷ root) _ h in
    let flat : join_slash ((c ∷ root) ∷ day ∷ id ∷ name ∷ []) ≡ dir ++ b'/' ∷ name =
      simp append_assoc in
    ap clean flat
    ∙ clean_of_rooted (dir ++ b'/' ∷ name) (is_rooted-append dir (b'/' ∷ name) rooted)
    ∙ ap absolute (elements-append dir name rooted)

resolve_slash : (held : List Text) → resolve_all true held (split b'/' (text "/")) ≡ held
unfolding split split_from resolve resolve_all
resolve_slash held = refl

resolve_cases :
    (held : List Text) (name : Text)
    → (resolve_all true held (name ∷ []) ≡ held)
      ⊎ ((resolve_all true held (name ∷ []) ≡ go_up true held)
          ⊎ ((resolve_all true held (name ∷ []) ≡ name ∷ held) × (text_eq name dot_dot ≡ false)))
unfolding resolve_all resolve
resolve_cases held name = elim (Bool-cases (is_empty name || text_eq name dot)) [
  | inl skipped ↦ inl (rw skipped refl)
  | inr other ↦ elim (Bool-cases (text_eq name dot_dot)) [
    | inl up ↦ inr (inl (rw (other, up) refl))
    | inr plain ↦ inr (inr (rw (other, plain) refl, plain))
  ]
]

-- A name that is a slash or has none names the directory, its parent (if it is ".."), or a file that
-- stands in the directory itself.
pub in_directory_of_name :
    (root day id name : Text)
    → is_rooted root ≡ true
    → (name ≡ text "/") ⊎ NoSlash name
    → let held = elements (directory root day id) in
      (in_directory root day id name ≡ absolute held)
      ⊎ ((in_directory root day id name ≡ absolute (go_up true held))
          ⊎ ((in_directory root day id name ≡ absolute (name ∷ held))
              × NoSlash name
              × (text_eq name dot_dot ≡ false)))
in_directory_of_name root day id name h (inl slash) = inl (
    in_directory_lem root day id name h
    ∙ ap (λ n. absolute (resolve_all true (elements (directory root day id)) (split b'/' n))) slash
    ∙ ap absolute (resolve_slash (elements (directory root day id))))
in_directory_of_name root day id name h (inr plain) =
    let held = elements (directory root day id) in
    let at =
      in_directory_lem root day id name h
      ∙ ap (λ l. absolute (resolve_all true held l)) (split_none name plain) in
    elim (resolve_cases held name) [
      | inl same ↦ inl (at ∙ ap absolute same)
      | inr (inl up) ↦ inr (inl (at ∙ ap absolute up))
      | inr (inr (inside, no_parent)) ↦ inr (inr (at ∙ ap absolute inside, plain, no_parent))
    ]
