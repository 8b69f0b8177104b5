-- ===== src/Paths.antt =====
-- Package `filepath` of Go's standard library on Unix, as the Agent uses it: lexical paths.
pub mod Inside
use my_wio.Base.{
  ℕ, Bool, true, false, ◌&&◌, ◌||◌, not, List, [], ◌∷◌, ◌++◌, reverse, ◌==◌, if◌then◌else◌, ◌≡◌,
  refl, all, arith, Bool-cases, inl, inr,
}
use my_wio.Text.{Text, codes, split, text_eq, has_prefix, strip_prefix}

abbrev pub is_abs : Text → Bool
is_abs [] = false
is_abs (c ∷ path) = c == b'/'

abbrev pub is_dots : Text → Bool
is_dots element = text_eq element (codes "..")

-- `..` behind the elements that were read, the last one first.
back : Bool → List Text → List Text
back rooted [] = if rooted then [] else codes ".." ∷ []
back rooted (e ∷ es) = if is_dots e then codes ".." ∷ e ∷ es else es

step_into : Bool → List Text → Text → List Text
unfolding back
step_into rooted es element =
    if text_eq element [] || text_eq element (codes ".")
    then es
    else if is_dots element
    then back rooted es
    else element ∷ es

steps_into : Bool → List Text → List Text → List Text
unfolding step_into
steps_into rooted es [] = es
steps_into rooted es (element ∷ rest) = steps_into rooted (step_into rooted es element) rest

-- The elements of the shortest path that is the same lexically.
unfoldable pub elements : Text → List Text
unfolding steps_into
elements path = reverse (steps_into (is_abs path) [] (split path b'/'))

unfoldable pub join_elements : List Text → Text
join_elements [] = []
join_elements (e ∷ es) = elim es [ [] ↦ e | _ ∷ _ ↦ e ++ b'/' ∷ join_elements es ]

-- `filepath.Clean`.
unfoldable pub clean : Text → Text
unfolding join_elements
clean path =
    if is_abs path
    then b'/' ∷ join_elements (elements path)
    else elim (elements path) [ [] ↦ codes "." | e ∷ es ↦ join_elements (e ∷ es) ]

-- `filepath.Join` of two texts.
unfoldable pub join : Text → Text → Text
join [] b = if text_eq b [] then [] else clean b
join (c ∷ a) b = if text_eq b [] then clean (c ∷ a) else clean ((c ∷ a) ++ b'/' ∷ b)

-- The test for a path that leads out of its directory or to the directory itself.
unfoldable pub escapes : Text → Bool
unfolding has_prefix
escapes cleaned =
    text_eq cleaned (codes ".") || text_eq cleaned (codes "..") || has_prefix cleaned (codes "../")

cleans :
    (clean (codes "a/./b//../c/") ≡ codes "a/c")
    × (clean (codes "../../x/..") ≡ codes "../..")
    × (clean (codes "/../a") ≡ codes "/a")
    × (clean (codes "a/..") ≡ codes ".")
    × (join (codes "/state") (codes "x/wio-agent") ≡ codes "/state/x/wio-agent")
unfolding clean join elements split
cleans = (refl, refl, refl, refl, refl)
