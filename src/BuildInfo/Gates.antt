-- ===== src/BuildInfo/Gates.antt =====
-- How the features of internal/buildinfo/version.go depend on one another.
use my_wio.Base.{◌≡◌, refl, Bool, true, List, [], ◌∷◌, All, all, map, arith}
use my_wio.Text.{Text, codes, split, trim_space, trim_prefix, take_until, atoi}
use my_wio.BuildInfo.Version.{
  parse_version, at_least, supports_self_update, minimum_self_update_version,
}
use my_wio.BuildInfo.Order.{at_least_trans, supports_self_update-eq-at_least}
use my_wio.BuildInfo.Features.{
  supports_scoped_credentials, supports_claude_rewrite, supports_operation_interrupt,
  supports_claude_skills, supports_claude_input, supports_claude_effort, supports_claude,
  supports_claude_management, supports_gemini_input, supports_cli_management, supports_gemini,
  supports_message_fork, supports_workspace_file_write, supports_codex_steer, supports_codex_update,
  supports_gemini_credentials, supports_gemini_rewrite, supports_gemini_fork,
  supports_gemini_thinking, supports_gemini_yolo, minimum_claude_rewrite_version,
  minimum_operation_interrupt_version, minimum_claude_skills_version, minimum_claude_input_version,
  minimum_claude_effort_version, minimum_claude_version, minimum_claude_management_version,
  minimum_gemini_input_version, minimum_cli_management_version, minimum_gemini_version,
  minimum_message_fork_version, minimum_workspace_file_write_version, minimum_codex_steer_version,
  minimum_codex_update_version, minimum_gemini_credentials_version, minimum_gemini_rewrite_version,
  minimum_gemini_fork_version, minimum_gemini_thinking_version, minimum_gemini_yolo_version,
}

-- Every feature that depends on the Agent's version alone.
unfoldable pub agent_features : List (Text → Bool)
agent_features =
    supports_scoped_credentials ∷ supports_claude_rewrite ∷ supports_operation_interrupt
    ∷ supports_claude_skills ∷ supports_claude_input ∷ supports_claude_effort ∷ supports_claude
    ∷ supports_claude_management ∷ supports_gemini_input ∷ supports_cli_management ∷ supports_gemini
    ∷ supports_message_fork ∷ supports_workspace_file_write ∷ supports_codex_steer
    ∷ supports_codex_update ∷ supports_gemini_credentials ∷ supports_gemini_rewrite
    ∷ supports_gemini_fork ∷ supports_gemini_thinking ∷ supports_gemini_yolo ∷ []

agent_minimums : List Text
agent_minimums =
    (codes "0.3.02")
    ∷ minimum_claude_rewrite_version
    ∷ minimum_operation_interrupt_version
    ∷ minimum_claude_skills_version
    ∷ minimum_claude_input_version
    ∷ minimum_claude_effort_version
    ∷ minimum_claude_version
    ∷ minimum_claude_management_version
    ∷ minimum_gemini_input_version
    ∷ minimum_cli_management_version
    ∷ minimum_gemini_version
    ∷ minimum_message_fork_version
    ∷ minimum_workspace_file_write_version
    ∷ minimum_codex_steer_version
    ∷ minimum_codex_update_version
    ∷ minimum_gemini_credentials_version
    ∷ minimum_gemini_rewrite_version
    ∷ minimum_gemini_fork_version
    ∷ minimum_gemini_thinking_version
    ∷ minimum_gemini_yolo_version
    ∷ []

-- The features test nothing but these minimums.
agent_features-eq-map :
    agent_features ≡ map (λ minimum version. at_least version minimum) agent_minimums
unfolding agent_features agent_minimums supports_scoped_credentials supports_claude_rewrite
    supports_operation_interrupt supports_claude_skills supports_claude_input supports_claude_effort
    supports_claude supports_claude_management supports_gemini_input supports_cli_management
    supports_gemini supports_message_fork supports_workspace_file_write supports_codex_steer
    supports_codex_update supports_gemini_credentials supports_gemini_rewrite supports_gemini_fork
    supports_gemini_thinking supports_gemini_yolo
agent_features-eq-map = refl

module _ (P : Text → Bool) (Q : (Text → Bool) → Type 0)
    (gate : (m : Text) → P m ≡ true → Q (λ v. at_least v m)) where
  All-gates : (ms : List Text) → all P ms ≡ true → All Q (map (λ m v. at_least v m) ms)
  All-gates [] h = tt
  All-gates (m ∷ ms) h = (gate m (ground arith), All-gates ms (ground arith))

-- An upgrade loses no feature: what an Agent's version has, every version that is at least as new
-- has too.
pub agent_features_monotone :
    (new old : Text)
    → at_least new old ≡ true
    → All (λ supports. supports old ≡ true → supports new ≡ true) agent_features
unfolding agent_minimums
agent_features_monotone new old p = rw agent_features-eq-map (
    All-gates (λ _. true) (λ supports. supports old ≡ true → supports new ≡ true)
      (λ m _ h. at_least_trans new old m p h) agent_minimums refl)

minimums_updatable : all (λ m. at_least m minimum_self_update_version) agent_minimums ≡ true
unfolding agent_minimums at_least parse_version split trim_space trim_prefix take_until atoi
minimums_updatable = refl

-- Every Agent that has any of the features can be updated from the control plane.
pub agent_features-supports_self_update :
    (version : Text)
    → All (λ supports. supports version ≡ true → supports_self_update version ≡ true) agent_features
agent_features-supports_self_update version =
    rw (supports_self_update-eq-at_least, agent_features-eq-map)
      (All-gates _
        (λ supports. supports version ≡ true → at_least version minimum_self_update_version ≡ true)
        (λ m e h. at_least_trans version m minimum_self_update_version h e) agent_minimums
        minimums_updatable)

minimums_scoped : all (λ m. at_least (codes "0.3.02") m) agent_minimums ≡ true
unfolding agent_minimums at_least parse_version split trim_space trim_prefix take_until atoi
minimums_scoped = refl

-- The newest gate, scoped credentials, implies each of the others.
pub supports_scoped_credentials-agent_features :
    (version : Text)
    → supports_scoped_credentials version ≡ true
    → All (λ supports. supports version ≡ true) agent_features
unfolding supports_scoped_credentials
supports_scoped_credentials-agent_features version h = rw agent_features-eq-map (
    All-gates _ (λ supports. supports version ≡ true)
      (λ m e. at_least_trans version (codes "0.3.02") m h e) agent_minimums minimums_scoped)
