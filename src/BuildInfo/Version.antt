-- ===== src/BuildInfo/Version.antt =====
-- internal/buildinfo/version.go: parsing and comparing release versions.
use my_wio.Base.{
  ℕ, Bool, true, false, ◌||◌, not, Option, none, some, List, [], ◌∷◌, ltb, ◌==◌, length,
  if◌then◌else◌, pos, negsuc,
}
use my_wio.Text.{Text, codes, trim_space, trim_prefix, take_until, split, atoi}

-- A `[3]int` that `parseVersion` fills: its numbers are not negative.
abbrev pub Version : Type 0
Version = List ℕ

-- The loop over the parts. `none` is a part that is no number, or a negative one.
unfoldable pub parse_parts : List Text → Option Version
parse_parts [] = some []
parse_parts (part ∷ parts) = elim (atoi part) [
  | none ↦ none
  | some (negsuc _) ↦ none
  | some (pos parsed) ↦ elim (parse_parts parts) [
    | none ↦ none
    | some version ↦ some (parsed ∷ version)
  ]
]

abbrev pub starts_suffix : ℕ → Bool
starts_suffix c = c == b'+' || c == b'-'

unfoldable pub parse_version : Text → Option Version
unfolding parse_parts
parse_version value =
    let parts =
      split (take_until starts_suffix (trim_prefix (trim_space value) (codes "v"))) b'.' in
    if length parts == 3 then parse_parts parts else none

-- The comparison loop of `atLeast`: the first index that differs decides.
unfoldable pub not_below : Version → Version → Bool
not_below [] _ = true
not_below (_ ∷ _) [] = true
not_below (c ∷ current) (m ∷ minimum) =
    let rest = not_below current minimum in if c == m then rest else ltb m c

unfoldable pub at_least : Text → Text → Bool
unfolding not_below
at_least current minimum = elim (parse_version current) [
  | none ↦ false
  | some c ↦ elim (parse_version minimum) [ none ↦ false | some m ↦ not_below c m ]
]

abbrev pub minimum_self_update_version : Text
minimum_self_update_version = codes "0.2.0"

-- A minimum that does not parse is the zero version: its error is dropped.
or_zero : Option Version → Version
or_zero none = 0 ∷ 0 ∷ 0 ∷ []
or_zero (some v) = v

unfoldable pub supports_self_update : Text → Bool
unfolding not_below or_zero
supports_self_update version = elim (parse_version version) [
  | none ↦ false
  | some current ↦ not_below current (or_zero (parse_version minimum_self_update_version))
]

-- The comparison loop of `UpdateAvailable`: equal versions are no update.
unfoldable pub is_newer : Version → Version → Bool
is_newer [] _ = false
is_newer (_ ∷ _) [] = false
is_newer (c ∷ current) (t ∷ target) =
    let rest = is_newer current target in if c == t then rest else ltb c t

unfoldable pub update_available : Text → Text → Bool
unfolding is_newer
update_available current target =
    if not (supports_self_update current) then false else elim (parse_version current) [
      | none ↦ false
      | some c ↦ elim (parse_version target) [ none ↦ false | some t ↦ is_newer c t ]
    ]
