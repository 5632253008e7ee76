-- ===== src/FilePath.antt =====
-- The part of Go's path/filepath and strings that the client calls, on the slash-separated paths of
-- the platforms it is built for: Clean, Join, Dir, Base, and Split on one separator. Called from
-- client/fallback.go, client/node.go and client/output.go.
use ipfs_mobile.Prelude.{ℕ, Bool, true, false, ◌||◌, ◌&&◌, not, List, [], ◌∷◌, ◌++◌, ◌≡◌, ◌≢◌, refl}
use ipfs_mobile.Prelude.Tests.{◌==◌, if◌then◌else◌}
use ipfs_mobile.Prelude.Text.{Text, text_eq}
pub mod Pieces
pub mod Cleaned
pub mod Joined
pub mod Parents
pub mod Tests

abbrev pub slash : ℕ
slash = b'/'

abbrev pub dot : Text
dot = b'.' ∷ []

abbrev pub dot_dot : Text
dot_dot = b'.' ∷ b'.' ∷ []

abbrev pub push_head : ℕ → List Text → List Text
push_head c [] = (c ∷ []) ∷ []
push_head c (p ∷ ps) = (c ∷ p) ∷ ps

-- `strings.Split` at a separator of one byte.
unfoldable pub split : ℕ → Text → List Text
split sep [] = [] ∷ []
split sep (c ∷ s) = let rest = split sep s in if c == sep then [] ∷ rest else push_head c rest

-- `strings.Join` with a slash.
unfoldable pub join_slash : List Text → Text
join_slash [] = []
join_slash (p ∷ []) = p
join_slash (p ∷ q ∷ ps) = p ++ (slash ∷ join_slash (q ∷ ps))

-- A path as `Clean` sees it: whether it is rooted, and its elements, the last one first.
abbrev pub back : Bool → List Text → List Text
back true [] = []
back false [] = dot_dot ∷ []
back rooted (c ∷ st) = if text_eq c dot_dot then dot_dot ∷ c ∷ st else st

unfoldable pub visit : Bool → List Text → Text → List Text
visit rooted st c =
    if text_eq c [] || text_eq c dot
    then st
    else if text_eq c dot_dot
    then back rooted st
    else c ∷ st

unfoldable pub visit_all : Bool → List Text → List Text → List Text
visit_all rooted st [] = st
visit_all rooted st (c ∷ cs) = visit_all rooted (visit rooted st c) cs

unfoldable pub turn : List Text → List Text → List Text
turn [] out = out
turn (c ∷ st) out = turn st (c ∷ out)

abbrev pub render_relative : List Text → Text
render_relative [] = dot
render_relative (c ∷ cs) = join_slash (c ∷ cs)

abbrev pub render : Bool → List Text → Text
render true st = slash ∷ join_slash (turn st [])
render false st = render_relative (turn st [])

abbrev pub is_rooted : Text → Bool
is_rooted [] = false
is_rooted (c ∷ s) = c == slash

-- The elements of a path after `Clean`, the last one first.
abbrev pub elements : Text → List Text
elements p = visit_all (is_rooted p) [] (split slash p)

-- `filepath.Clean`; it makes "." of "".
unfoldable pub clean : Text → Text
unfolding split join_slash visit visit_all turn
clean p = render (is_rooted p) (elements p)

-- `strings.HasPrefix(s, prefix)`.
unfoldable pub has_prefix : Text → Text → Bool
has_prefix s [] = true
has_prefix [] (d ∷ p) = false
has_prefix (c ∷ s) (d ∷ p) = (c == d) && has_prefix s p

-- `strings.TrimPrefix(s, "/")`.
abbrev pub trim_slash : Text → Text
trim_slash [] = []
trim_slash (c ∷ s) = if c == slash then s else c ∷ s

-- What stands before the last slash, with it.
unfoldable pub until_slash : Text → Text
until_slash [] = []
until_slash (c ∷ s) =
    let rest = until_slash s in if (c == slash) || not (text_eq rest []) then c ∷ rest else []

-- `filepath.Dir`.
unfoldable pub dir_of : Text → Text
unfolding clean until_slash
dir_of p = clean (until_slash p)

-- `filepath.Join` of two elements, the first of which is not empty.
unfoldable pub join : Text → Text → Text
unfolding clean
join [] b = if text_eq b [] then [] else clean b
join (c ∷ a) [] = clean (c ∷ a)
join (c ∷ a) (d ∷ b) = clean ((c ∷ a) ++ (slash ∷ d ∷ b))
