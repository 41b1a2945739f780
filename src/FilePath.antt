-- ===== src/FilePath.antt =====
-- Package path/filepath on Unix: Clean, Join, Base and Dir, over the components of a path.
pub mod Laws
use email_proxy.Prelude.{Bool, false, List, [], ◌∷◌, ◌++◌, reverse, ◌==◌, ◌||◌, if◌then◌else◌}
use email_proxy.Text.{Text, text, split, text_eq, is_empty}

unfoldable pub is_rooted : Text → Bool
is_rooted [] = false
is_rooted (c ∷ _) = c == b'/'

abbrev pub dot : Text
dot = text "."

abbrev pub dot_dot : Text
dot_dot = text ".."

-- Clean's treatment of "..": it takes the last element back; at the root it is dropped, and where
-- there is no element to take back it is kept. The last element stands first.
unfoldable pub go_up : Bool → List Text → List Text
go_up rooted [] = if rooted then [] else dot_dot ∷ []
go_up rooted (last ∷ stack) = if text_eq last dot_dot then dot_dot ∷ last ∷ stack else stack

-- One element of a path.
unfoldable pub resolve : Bool → List Text → Text → List Text
resolve rooted stack part =
    if is_empty part || text_eq part dot
    then stack
    else if text_eq part dot_dot
    then go_up rooted stack
    else part ∷ stack

unfoldable pub resolve_all : Bool → List Text → List Text → List Text
resolve_all rooted stack [] = stack
resolve_all rooted stack (part ∷ parts) = resolve_all rooted (resolve rooted stack part) parts

-- strings.Join(parts, "/")
unfoldable pub join_slash : List Text → Text
join_slash [] = []
join_slash (p ∷ []) = p
join_slash (p ∷ q ∷ ps) = p ++ b'/' ∷ join_slash (q ∷ ps)

abbrev pub or_dot : Text → Text
or_dot [] = dot
or_dot (c ∷ s) = c ∷ s

unfoldable pub clean : Text → Text
clean path =
    let parts = reverse (resolve_all (is_rooted path) [] (split b'/' path)) in
    if is_rooted path then b'/' ∷ join_slash parts else or_dot (join_slash parts)

-- filepath.Join: empty elements in front are skipped.
unfoldable pub join : List Text → Text
join [] = []
join (p ∷ ps) = if is_empty p then join ps else clean (join_slash (p ∷ ps))

-- The last component that is not empty.
unfoldable pub last_part : Text → List Text → Text
last_part found [] = found
last_part found (p ∷ ps) = last_part (if is_empty p then found else p) ps

-- filepath.Base: "." for the empty path, "/" for slashes only.
unfoldable pub base : Text → Text
unfolding last_part
base path = last_part (if is_empty path then dot else text "/") (split b'/' path)

-- The path up to its last slash, the slash included; `kept` is what has been read, last byte first.
unfoldable pub up_to_slash : Text → Text
up_to_slash [] = []
up_to_slash (c ∷ s) = if c == b'/' then c ∷ s else up_to_slash s

-- filepath.Dir
unfoldable pub dir : Text → Text
unfolding up_to_slash
dir path = clean (reverse (up_to_slash (reverse path)))
