-- ===== src/Scheduler/Thinking.antt =====
-- internal/geminiapi/thinking.go: which thinking levels a Gemini model accepts.
use my_wio.Base.{
  Bool, true, false, ◌&&◌, ◌||◌, not, List, [], ◌∷◌, ◌++◌, map, reverse, if◌then◌else◌,
}
use my_wio.Text.{Text, contains_text, codes, has_prefix, to_lower, text_eq}
use my_wio.Goal.{is_empty}

-- `strings.HasSuffix`.
unfoldable pub has_suffix : Text → Text → Bool
has_suffix s suffix = has_prefix (reverse s) (reverse suffix)

unfoldable pub lowered : Text → Text
lowered = map to_lower

-- The loop of `PresetThinkingLevel` over the levels.
unfoldable pub preset_among : List Text → Text → Text
preset_among [] model = []
preset_among (level ∷ levels) model =
    let rest = preset_among levels model in
    if has_suffix model (codes "-" ++ level) then level else rest

abbrev pub levels : List Text
levels = codes "minimal" ∷ codes "low" ∷ codes "medium" ∷ codes "high" ∷ []

-- `PresetThinkingLevel`.
unfoldable pub preset_thinking_level : Text → Text
preset_thinking_level model = preset_among levels (lowered model)

-- `ValidThinkingLevel`.
unfoldable pub valid_thinking_level : Text → Text → Bool
valid_thinking_level model level =
    let preset = preset_thinking_level model in
    let name = lowered model in
    if is_empty level
    then true
    else if not (text_eq level (codes "minimal"))
        && not (text_eq level (codes "low"))
        && not (text_eq level (codes "medium"))
        && not (text_eq level (codes "high"))
    then false
    else if not (is_empty preset)
    then text_eq level preset
    else if text_eq name (codes "auto")
        || has_prefix name (codes "gemini-2.")
        || contains_text name (codes "-image")
    then false
    else if has_prefix name (codes "gemini-3-pro")
        && not (text_eq level (codes "low"))
        && not (text_eq level (codes "high"))
    then false
    else true
