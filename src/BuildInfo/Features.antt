-- ===== src/BuildInfo/Features.antt =====
-- internal/buildinfo/version.go: the oldest Agent and CLI versions that have each feature.
use my_wio.Base.{Bool, ◌&&◌, ◌==◌, ℕ}
use my_wio.Text.{Text, codes, trim_space, take_until}
use my_wio.BuildInfo.Version.{at_least}

abbrev is_blank : ℕ → Bool
is_blank c = c == 32

abbrev pub minimum_claude_rewrite_version : Text
minimum_claude_rewrite_version = codes "0.2.97"

abbrev pub minimum_operation_interrupt_version : Text
minimum_operation_interrupt_version = codes "0.2.96"

abbrev pub minimum_claude_steer_version : Text
minimum_claude_steer_version = codes "0.2.95"

abbrev pub minimum_claude_skills_version : Text
minimum_claude_skills_version = codes "0.2.94"

abbrev pub minimum_claude_input_version : Text
minimum_claude_input_version = codes "0.2.93"

abbrev pub minimum_claude_effort_version : Text
minimum_claude_effort_version = codes "0.2.92"

abbrev pub minimum_claude_version : Text
minimum_claude_version = codes "0.2.90"

abbrev pub minimum_claude_management_version : Text
minimum_claude_management_version = codes "0.2.91"

abbrev pub minimum_gemini_image_steer_version : Text
minimum_gemini_image_steer_version = codes "0.2.88"

abbrev pub minimum_gemini_skill_management_version : Text
minimum_gemini_skill_management_version = codes "0.2.88"

abbrev pub minimum_gemini_goal_version : Text
minimum_gemini_goal_version = codes "0.2.84"

abbrev pub minimum_gemini_skills_version : Text
minimum_gemini_skills_version = codes "0.2.83"

abbrev pub minimum_gemini_plan_version : Text
minimum_gemini_plan_version = codes "0.2.83"

abbrev pub minimum_gemini_steer_version : Text
minimum_gemini_steer_version = codes "0.2.79"

abbrev pub minimum_gemini_input_version : Text
minimum_gemini_input_version = codes "0.2.73"

abbrev pub minimum_cli_management_version : Text
minimum_cli_management_version = codes "0.2.61"

abbrev pub minimum_self_update_version : Text
minimum_self_update_version = codes "0.2.0"

abbrev pub minimum_codex_update_version : Text
minimum_codex_update_version = codes "0.2.9"

abbrev pub minimum_exact_deployment_rollback_version : Text
minimum_exact_deployment_rollback_version = codes "0.2.45"

abbrev pub minimum_codex_steer_version : Text
minimum_codex_steer_version = codes "0.2.51"

abbrev pub minimum_workspace_file_write_version : Text
minimum_workspace_file_write_version = codes "0.2.56"

abbrev pub minimum_message_fork_version : Text
minimum_message_fork_version = codes "0.2.59"

abbrev pub minimum_gemini_version : Text
minimum_gemini_version = codes "0.2.60"

abbrev pub minimum_gemini_credentials_version : Text
minimum_gemini_credentials_version = codes "0.2.63"

abbrev pub minimum_gemini_rewrite_version : Text
minimum_gemini_rewrite_version = codes "0.2.85"

abbrev pub minimum_gemini_fork_version : Text
minimum_gemini_fork_version = codes "0.2.68"

abbrev pub minimum_gemini_thinking_version : Text
minimum_gemini_thinking_version = codes "0.2.70"

abbrev pub minimum_gemini_yolo_version : Text
minimum_gemini_yolo_version = codes "0.2.72"

unfoldable pub supports_scoped_credentials : Text → Bool
supports_scoped_credentials version = at_least version (codes "0.3.02")

unfoldable pub supports_claude_questions : Text → Text → Bool
supports_claude_questions agent cli =
    at_least agent (codes "0.2.98")
    && at_least (trim_space (take_until is_blank cli)) (codes "2.1.286")

unfoldable pub supports_claude_rewrite : Text → Bool
supports_claude_rewrite version = at_least version minimum_claude_rewrite_version

unfoldable pub supports_operation_interrupt : Text → Bool
supports_operation_interrupt version = at_least version minimum_operation_interrupt_version

unfoldable pub supports_claude_steering : Text → Text → Bool
supports_claude_steering agent cli =
    at_least agent minimum_claude_steer_version
    && at_least (trim_space (take_until is_blank cli)) (codes "2.1.286")

unfoldable pub supports_claude_skills : Text → Bool
supports_claude_skills version = at_least version minimum_claude_skills_version

unfoldable pub supports_claude_input : Text → Bool
supports_claude_input version = at_least version minimum_claude_input_version

unfoldable pub supports_claude_effort : Text → Bool
supports_claude_effort version = at_least version minimum_claude_effort_version

unfoldable pub supports_claude : Text → Bool
supports_claude version = at_least version minimum_claude_version

unfoldable pub supports_claude_management : Text → Bool
supports_claude_management version = at_least version minimum_claude_management_version

unfoldable pub supports_gemini_image_steering : Text → Text → Bool
supports_gemini_image_steering agent cli =
    at_least agent minimum_gemini_image_steer_version && at_least cli (codes "0.66.0")

unfoldable pub supports_gemini_skill_management : Text → Text → Bool
supports_gemini_skill_management agent cli =
    at_least agent minimum_gemini_skill_management_version && at_least cli (codes "0.66.0")

unfoldable pub supports_gemini_goal : Text → Text → Bool
supports_gemini_goal agent cli =
    at_least agent minimum_gemini_goal_version && at_least cli (codes "0.66.0")

unfoldable pub supports_gemini_skills : Text → Text → Bool
supports_gemini_skills agent cli =
    at_least agent minimum_gemini_skills_version && at_least cli (codes "0.66.0")

unfoldable pub supports_gemini_plan : Text → Text → Bool
supports_gemini_plan agent cli =
    at_least agent minimum_gemini_plan_version && at_least cli (codes "0.66.0")

unfoldable pub supports_gemini_steering : Text → Text → Bool
supports_gemini_steering agent cli =
    at_least agent minimum_gemini_steer_version && at_least cli (codes "0.66.0")

unfoldable pub supports_gemini_input : Text → Bool
supports_gemini_input version = at_least version minimum_gemini_input_version

unfoldable pub supports_cli_management : Text → Bool
supports_cli_management version = at_least version minimum_cli_management_version

unfoldable pub supports_gemini : Text → Bool
supports_gemini version = at_least version minimum_gemini_version

unfoldable pub supports_message_fork : Text → Bool
supports_message_fork version = at_least version minimum_message_fork_version

unfoldable pub supports_workspace_file_write : Text → Bool
supports_workspace_file_write version = at_least version minimum_workspace_file_write_version

unfoldable pub supports_codex_steer : Text → Bool
supports_codex_steer version = at_least version minimum_codex_steer_version

unfoldable pub supports_codex_update : Text → Bool
supports_codex_update version = at_least version minimum_codex_update_version

unfoldable pub supports_exact_deployment_rollback : Text → Bool
supports_exact_deployment_rollback version =
    at_least version minimum_exact_deployment_rollback_version

unfoldable pub supports_gemini_credentials : Text → Bool
supports_gemini_credentials version = at_least version minimum_gemini_credentials_version

unfoldable pub supports_gemini_rewrite : Text → Bool
supports_gemini_rewrite version = at_least version minimum_gemini_rewrite_version

unfoldable pub supports_gemini_fork : Text → Bool
supports_gemini_fork version = at_least version minimum_gemini_fork_version

unfoldable pub supports_gemini_thinking : Text → Bool
supports_gemini_thinking version = at_least version minimum_gemini_thinking_version

unfoldable pub supports_gemini_yolo : Text → Bool
supports_gemini_yolo version = at_least version minimum_gemini_yolo_version
