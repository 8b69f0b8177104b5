-- ===== src/CodexCli.antt =====
-- internal/codexcli/version.go: the versions of the Codex command line program.
pub mod Laws
pub mod Releases
use my_wio.Base.{
  ℕ, Bool, true, false, ◌&&◌, ◌||◌, Option, none, some, List, [], ◌∷◌, leb, ◌==◌, length, all,
  if◌then◌else◌, ℤ, ltb_ℤ, eqb_ℤ,
}
use my_wio.Text.{Text, codes, trim_space, trim_prefix, trim_suffix, split, atoi, is_digit}

abbrev pub default_target_version : Text
default_target_version = codes "0.144.4"

-- One component of `strictVersionPattern`, `0|[1-9][0-9]*`.
unfoldable pub is_strict_part : Text → Bool
is_strict_part [] = false
is_strict_part (c ∷ s) =
    (c == b'0' && length s == 0) || (leb b'1' c && leb c b'9' && all is_digit s)

-- `strictVersionPattern.MatchString`: three such components with dots between.
unfoldable pub matches_strict : Text → Bool
unfolding is_strict_part
matches_strict value = let parts = split value b'.' in length parts == 3 && all is_strict_part parts

unfoldable pub valid_target_version : Text → Bool
unfolding matches_strict
valid_target_version value = matches_strict (trim_space value)

unfoldable pub parse_parts : List Text → Option (List ℤ)
parse_parts [] = some []
parse_parts (part ∷ parts) = elim (atoi part) [
  | none ↦ none
  | some parsed ↦ elim (parse_parts parts) [ none ↦ none | some version ↦ some (parsed ∷ version) ]
]

unfoldable pub parse_version : Text → Option (List ℤ)
unfolding matches_strict parse_parts
parse_version value = if matches_strict value then parse_parts (split value b'.') else none

unfoldable pub parse_reported_version : Text → Option (List ℤ)
unfolding parse_version
parse_reported_version value =
    let value1 = trim_prefix (trim_space value) (codes "codex-cli ") in
    let value2 = trim_suffix value1 (codes " (Claude Code)") in
    parse_version (trim_prefix value2 (codes "v"))

-- The comparison loop of `UpdateAvailable`.
unfoldable pub is_newer : List ℤ → List ℤ → Bool
is_newer [] _ = false
is_newer (_ ∷ _) [] = false
is_newer (c ∷ current) (d ∷ desired) =
    let rest = is_newer current desired in if eqb_ℤ c d then rest else ltb_ℤ c d

unfoldable pub update_available : Text → Text → Bool
unfolding is_newer
update_available reported target = elim (parse_reported_version reported) [
  | none ↦ false
  | some current ↦ elim (parse_version (trim_space target)) [
    | none ↦ false
    | some desired ↦ is_newer current desired
  ]
]

-- `current == desired` on `[3]int`.
unfoldable pub eqb : List ℤ → List ℤ → Bool
eqb [] [] = true
eqb [] (_ ∷ _) = false
eqb (_ ∷ _) [] = false
eqb (c ∷ current) (d ∷ desired) = eqb_ℤ c d && eqb current desired

unfoldable pub reported_version_matches : Text → Text → Bool
unfolding eqb
reported_version_matches reported target = elim (parse_reported_version reported) [
  | none ↦ false
  | some current ↦ elim (parse_version (trim_space target)) [
    | none ↦ false
    | some desired ↦ eqb current desired
  ]
]
