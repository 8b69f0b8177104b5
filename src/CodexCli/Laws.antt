-- ===== src/CodexCli/Laws.antt =====
-- The strict versions of the Codex program against the lenient ones of the Agent's releases.
use my_wio.Base.{
  ℕ, ◌≡◌, refl, ◌⊎◌, inl, inr, true, ◌||◌, not, none, some, List, [], ◌∷◌, length, all, map, arith,
  ℤ, pos, Option-cases,
}
use my_wio.Text.{Text, trim_space, split, atoi, is_digit}
use my_wio.Text.Laws.{all_weaken, all-split, is_plain}
use mathlib.Core.Option
use my_wio.BuildInfo
use my_wio.BuildInfo.Version
use my_wio.BuildInfo.Parse.{parse_version_of_plain}
use my_wio.BuildInfo.Version.{Version, starts_suffix}
use my_wio.CodexCli.{
  is_strict_part, matches_strict, parse_parts, parse_version, is_newer, update_available, eqb,
  reported_version_matches, parse_reported_version,
}

strict_part_digits : (s : Text) → is_strict_part s ≡ true → all is_digit s ≡ true
unfolding is_strict_part
strict_part_digits [] h = refl
strict_part_digits (c ∷ []) h = ground arith
strict_part_digits (c ∷ d ∷ s) h = ground arith

matches_strict-plain : (s : Text) → matches_strict s ≡ true → all is_plain s ≡ true
unfolding matches_strict
matches_strict-plain s h =
    all-split s
      (all_weaken is_strict_part (all is_digit) strict_part_digits (split s b'.') (ground arith))

-- A text of digits is no negative number.
atoi_of_digits :
    (s : Text) → all is_digit s ≡ true → (atoi s ≡ none) ⊎ ((n : ℕ) × (atoi s ≡ some (pos n)))
unfolding atoi
atoi_of_digits [] h = inl refl
atoi_of_digits (c ∷ s) h = ground arith

parse_parts-agree :
    (parts : List Text)
    → all (all is_digit) parts ≡ true
    → parse_parts parts ≡ Option.map (map pos) (Version.parse_parts parts)
unfolding parse_parts Version.parse_parts
parse_parts-agree [] h = refl
parse_parts-agree (part ∷ parts) h = ground (arith, atoi_of_digits part, parse_parts-agree parts)

-- Both parsers of the control plane read a strict Codex version as the same three numbers: what
-- `codexcli` accepts, `buildinfo` accepts too.
pub parse_version-agree :
    (value : Text)
    → matches_strict value ≡ true
    → parse_version value ≡ Option.map (map pos) (Version.parse_version value)
unfolding parse_version matches_strict
parse_version-agree value h = rw (parse_version_of_plain value (matches_strict-plain value h)) (
    ground (
      arith,
      parse_parts-agree (split value b'.'),
      all_weaken is_strict_part (all is_digit) strict_part_digits (split value b'.'),
    ))

-- The three ways in which two versions compare exclude one another, and there is no fourth.
is_newer_lem : (c d : List ℤ) → length c ≡ length d → is_newer c d ≡ not (eqb c d || is_newer d c)
unfolding is_newer eqb
is_newer_lem [] [] h = refl
is_newer_lem [] (_ ∷ _) h = absurd (omega arith)
is_newer_lem (_ ∷ _) [] h = absurd (omega arith)
is_newer_lem (c ∷ cs) (d ∷ ds) h = ground (arith, is_newer_lem cs ds)

length-map_pos : (v : Version) → length (map pos v) ≡ length v
length-map_pos [] = refl
length-map_pos (n ∷ v) = omega (arith, length-map_pos v)

matches_of_parsed :
    (value : Text) {u : List ℤ} → parse_version value ≡ some u → matches_strict value ≡ true
unfolding parse_version
matches_of_parsed value h = ground arith

length-parse_version : (value : Text) {u : List ℤ} → parse_version value ≡ some u → length u ≡ 3
length-parse_version value {u} h = elim (Option-cases (Version.parse_version value)) [
  | inl e ↦ ground (arith, parse_version-agree value (matches_of_parsed value h))
  | inr (w, e) ↦ ground (
    arith,
    parse_version-agree value (matches_of_parsed value h),
    length-map_pos w,
    BuildInfo.Order.length-parse_version value e,
  )
]

length-parse_reported :
    (reported : Text) {u : List ℤ} → parse_reported_version reported ≡ some u → length u ≡ 3
unfolding parse_reported_version
length-parse_reported reported h = length-parse_version _ h

-- Of two valid versions an update is offered exactly when the reported one neither matches the
-- target nor is newer than it.
pub update_available_lem :
    (reported target : Text) {u v : List ℤ}
    → parse_reported_version reported ≡ some u
    → parse_version (trim_space target) ≡ some v
    → update_available reported target
      ≡ not (reported_version_matches reported target || is_newer v u)
unfolding update_available reported_version_matches
update_available_lem reported target {u} {v} p q = ground (
  arith,
  is_newer_lem u v,
  length-parse_reported reported p,
  length-parse_version (trim_space target) q,
)
