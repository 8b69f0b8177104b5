-- ===== src/Tests/Versions.antt =====
-- Runs of internal/buildinfo/version.go and internal/codexcli/version.go.
use my_wio.Base.{◌≡◌, refl, true, false, none, some, [], ◌∷◌, arith}
use my_wio.Text.{codes, trim_space, trim_prefix, trim_suffix, take_until, split, atoi}
use my_wio.BuildInfo.Version.{parse_version, at_least, supports_self_update, update_available}
use my_wio.BuildInfo.Features.{
  supports_claude_questions, supports_claude_steering, supports_gemini_goal,
}
use my_wio.BuildInfo.Parse.{value, value_from, IsNumeral, parse_version-release}
use my_wio.CodexCli

versions_parse :
    (parse_version (codes " v0.3.03-rc1 ") ≡ some (0 ∷ 3 ∷ 3 ∷ []))
    × (parse_version (codes "0.3") ≡ none)
    × (parse_version (codes "0.-3.1") ≡ none)
    × (parse_version (codes "0.+3.1") ≡ none)
unfolding parse_version trim_space trim_prefix take_until split atoi
versions_parse = (refl, refl, refl, refl)

gates_run :
    (supports_claude_questions (codes "0.2.98") (codes "2.1.286 (Claude Code)") ≡ true)
    × (supports_claude_steering (codes "0.2.94") (codes "2.1.286") ≡ false)
    × (supports_gemini_goal (codes "0.2.84") (codes "0.65.9") ≡ false)
    × (update_available (codes "0.2.99") (codes "0.3.03") ≡ true)
    × (update_available (codes "0.1.9") (codes "0.3.03") ≡ false)
unfolding supports_claude_questions supports_claude_steering supports_gemini_goal at_least
    parse_version trim_space trim_prefix take_until split atoi update_available supports_self_update
gates_run = (refl, refl, refl, refl, refl)

codex_run :
    (CodexCli.update_available (codes "codex-cli 0.144.4") (codes "0.145.0") ≡ true)
    × (CodexCli.reported_version_matches (codes "v2.1.286 (Claude Code)") (codes " 2.1.286 ")
        ≡ true)
    × (CodexCli.valid_target_version (codes "0.144.04") ≡ false)
unfolding CodexCli.update_available CodexCli.reported_version_matches CodexCli.valid_target_version
    CodexCli.parse_reported_version trim_space trim_prefix trim_suffix split atoi
codex_run = (refl, refl, refl)

zero-IsNumeral : IsNumeral (codes "0")
unfolding value_from
zero-IsNumeral = record { nonempty = omega arith; digits = refl; fits = omega arith }

three-IsNumeral : IsNumeral (codes "03")
unfolding value_from
three-IsNumeral = record { nonempty = omega arith; digits = refl; fits = omega arith }

parse_version-release_example :
    (parse_version (codes "0.03.0")
      ≡ some (value (codes "0") ∷ value (codes "03") ∷ value (codes "0") ∷ []))
    × (parse_version (codes "v0.03.0")
        ≡ some (value (codes "0") ∷ value (codes "03") ∷ value (codes "0") ∷ []))
parse_version-release_example =
    parse_version-release (codes "0") (codes "03") (codes "0") zero-IsNumeral three-IsNumeral
      zero-IsNumeral
