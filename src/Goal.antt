-- ===== src/Goal.antt =====
-- internal/geminiadapter/goal.go: the watch over a goal session, which stops a session that repeats
-- itself and records the model's own report. Texts are their code points.
pub mod Watch
use my_wio.Base.{
  ℕ, ◌+◌, Bool, true, false, ◌&&◌, ◌||◌, not, Option, none, some, List, [], ◌∷◌, ◌++◌, ltb, ◌==◌,
  if◌then◌else◌, String, str_eq, find_first, keep,
}
use my_wio.Text.{Text, codes, trim_space, text_eq, contains_text}

-- Why the watch has stopped a session: the text of `guardReason` without its wording. `no_guard` is
-- the empty text, the numbers are the ones the text names.
pub data Guard : Type 0 where
  no_guard : Guard
  repeated_tool_calls : ℕ → Guard
  repeated_rounds_seen : ℕ → Guard

-- An entry of the map `tools`.
pub record ToolCall : Type 0 where
  pub id : Text
  pub input : Text

-- `geminiGoalRun`. `round` is what was written to the hash of the round, `none` before its first use.
pub record GoalRun : Type 0 where
  pub report : String
  pub evidence : Text
  pub guard_reason : Guard
  pub round : Option Text
  pub message : Text
  pub last_round : Text
  pub repeated_rounds : ℕ
  pub last_tool : Text
  pub repeated_tools : ℕ
  pub tools : List ToolCall

abbrev pub goal_repeated_round_limit : ℕ
goal_repeated_round_limit = 3

abbrev pub goal_repeated_tool_limit : ℕ
goal_repeated_tool_limit = 8

unfoldable pub is_guarded : Guard → Bool
is_guarded no_guard = false
is_guarded (repeated_tool_calls _) = true
is_guarded (repeated_rounds_seen _) = true

abbrev pub is_empty : Text → Bool
is_empty [] = true
is_empty (_ ∷ _) = false

abbrev newline : Text
newline = codes "\n"

abbrev pub written : Option Text → Text
written none = []
written (some text) = text

-- The hash is made on its first use.
unfoldable pub with_round : GoalRun → GoalRun
with_round g = record g { round = some (written g.round) }

-- `toolStarted`.
unfoldable pub tool_started : (id title input : Text) → Option GoalRun → Option GoalRun
tool_started id title input none = none
tool_started id title input (some g) = some (record g {
  tools =
      record { id = id; input = title ++ newline ++ input }
      ∷ keep (λ t. not (text_eq t.id id)) g.tools;
})

unfoldable pub is_watched : Text → Bool
is_watched input =
    not (contains_text input (codes "wio_ask_user("))
    && not (contains_text input (codes "wio_read_images("))

unfoldable pub count_tool : Text → GoalRun → GoalRun
count_tool fingerprint g =
    if text_eq fingerprint g.last_tool
    then record g { repeated_tools = g.repeated_tools + 1 }
    else record g { last_tool = fingerprint; repeated_tools = 1 }

unfoldable pub check_tools : GoalRun → GoalRun × Bool
check_tools g =
    if ltb g.repeated_tools goal_repeated_tool_limit
    then (g, false)
    else (record g { guard_reason = repeated_tool_calls g.repeated_tools }, true)

unfoldable pub count_round : Text → GoalRun → GoalRun
count_round fingerprint g =
    if text_eq fingerprint g.last_round
    then record g { repeated_rounds = g.repeated_rounds + 1 }
    else record g { last_round = fingerprint; repeated_rounds = 1 }

unfoldable pub check_rounds : GoalRun → GoalRun × Bool
check_rounds g =
    if ltb g.repeated_rounds goal_repeated_round_limit
    then (g, false)
    else (record g { guard_reason = repeated_rounds_seen g.repeated_rounds }, true)

-- The status that `result` gives, which is empty while there is none.
unfoldable pub result_status : GoalRun → String
result_status g = if is_guarded g.guard_reason then "blocked" else g.report

pub data Happening : Type 0 where
  acts : Text → Text → Happening
  starts_tool : (id title input : Text) → Happening
  finishes_tool : (id status output : Text) → Happening
  finishes_round : Happening
  reports : String → Text → Happening

-- `digest` is the hexadecimal SHA-256 of a text, `decimal` and `byte_length` are `%d` and `len`.
module _ (digest : Text → Text) (decimal : ℕ → Text) (byte_length : Text → ℕ) where
  -- `fmt.Fprintf(g.round, "%s:%d:%s\n", …)`.
  unfoldable pub round_line : Text → Text → Text
  round_line kind value =
      kind ++ codes ":" ++ decimal (byte_length value) ++ codes ":" ++ value ++ newline

  -- `flushMessage`, after the hash has been made.
  unfoldable pub flush_message : GoalRun → GoalRun
  flush_message g = if is_empty g.message then g else record g {
    round = some (written g.round ++ round_line (codes "message") g.message);
    message = [];
  }

  -- `activity`; `none` is a nil run, a session without a goal.
  unfoldable pub activity : Text → Text → Option GoalRun → Option GoalRun
  activity kind value none = none
  activity kind value (some g) =
      let made = with_round g in
      let flushed = flush_message made in
      if text_eq kind (codes "message")
      then some (record made { message = made.message ++ value })
      else some (record flushed { round = some (written flushed.round ++ round_line kind value) })

  -- `toolFinished`: whether the session must stop.
  unfoldable pub tool_finished : (id status output : Text) → Option GoalRun → Option GoalRun × Bool
  tool_finished id status output none = (none, false)
  tool_finished id status output (some g) =
      let forgotten = record g { tools = keep (λ t. not (text_eq t.id id)) g.tools } in
      elim (find_first (λ t. text_eq t.id id) g.tools) [
        | none ↦ (some forgotten, false)
        | some t ↦
            let (checked, stop) =
              check_tools (
                count_tool (digest (t.input ++ newline ++ status ++ newline ++ output))
                  forgotten) in
            if is_watched t.input then (some checked, stop) else (some forgotten, false)
      ]

  -- `finishRound`: whether the session must stop.
  unfoldable pub finish_round : Option GoalRun → Option GoalRun × Bool
  finish_round none = (none, false)
  finish_round (some g) =
      let flushed = flush_message (with_round g) in
      let counted =
        count_round (digest (written flushed.round)) (record flushed { round = some [] }) in
      let (checked, stop) = check_rounds counted in
      if not (str_eq g.report "") || is_guarded g.guard_reason
      then (some g, is_guarded g.guard_reason)
      else (some checked, stop)

  -- `record`: false is its error.
  unfoldable pub record_report : String → Text → Option GoalRun → Option GoalRun × Bool
  record_report report evidence none = (none, false)
  record_report report evidence (some g) =
      if not (str_eq report "completed" || str_eq report "blocked")
        || is_empty (trim_space evidence)
        || ltb 16000 (byte_length evidence)
      then (some g, false)
      else (some (record g { report = report; evidence = trim_space evidence }), true)

  unfoldable pub happen : Happening → Option GoalRun → Option GoalRun
  happen (acts kind value) g = activity kind value g
  happen (starts_tool id title input) g = tool_started id title input g
  happen (finishes_tool id status output) g = (tool_finished id status output g).0
  happen finishes_round g = (finish_round g).0
  happen (reports report evidence) g = (record_report report evidence g).0

  -- A session is a sequence of happenings.
  unfoldable pub happen_all : List Happening → Option GoalRun → Option GoalRun
  happen_all [] g = g
  happen_all (h ∷ hs) g = happen_all hs (happen h g)

  -- The messages of one round, chunk by chunk.
  unfoldable pub chunks : List Text → Option GoalRun → Option GoalRun
  chunks [] g = g
  chunks (c ∷ cs) g = chunks cs (activity (codes "message") c g)
