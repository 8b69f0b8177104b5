-- ===== src/Scheduler/Supported.antt =====
-- A scheduled turn asks for nothing that its Agent or its model does not support.
use my_wio.Base.{String, ◌≡◌, refl, true, false, ◌&&◌, not, str_eq, arith, Bool-cases, inl, inr}
use my_wio.Text.{codes}
use my_wio.BuildInfo.Features.{supports_gemini, supports_gemini_yolo, supports_gemini_thinking}
use my_wio.Store.Tasks.{Task}
use my_wio.Scheduler.Thinking.{valid_thinking_level}
use my_wio.Scheduler.Decisions.{Session, queues, or_else, is_working, gemini_level, gemini_decision}

valid_empty : (model : String) → valid_thinking_level (codes model) (codes "") ≡ true
unfolding valid_thinking_level
valid_empty model = refl

gemini_level-valid :
    (own level model : String)
    → str_eq own "" ≡ true
    → valid_thinking_level (codes model) (codes (gemini_level own level model)) ≡ true
unfolding gemini_level
gemini_level-valid own level model h =
    elim (Bool-cases (valid_thinking_level (codes model) (codes level))) [
      | inl e ↦ rw (h, e) e
      | inr e ↦ rw (h, e) (valid_empty model)
    ]

-- A Gemini turn that the scheduler queues goes to a session that is online, not archived and idle, of
-- an Agent that supports Gemini, and if it asks for them, turns without approvals and thinking levels;
-- a level that the task does not name itself is one that the model accepts.
pub gemini_decision-queues :
    (task : Task) (s : Session) {model mode level : String}
    → gemini_decision task s ≡ queues model mode level
    → (str_eq s.server_status "online" ≡ true)
      × (s.is_archived ≡ false)
      × (is_working s.status ≡ false)
      × (supports_gemini (codes s.agent_version) ≡ true)
      × ((str_eq mode "yolo" && not (supports_gemini_yolo (codes s.agent_version))) ≡ false)
      × ((not (str_eq level "") && not (supports_gemini_thinking (codes s.agent_version))) ≡ false)
      × (str_eq task.thinking_level "" ≡ true
          → valid_thinking_level (codes model) (codes level) ≡ true)
unfolding gemini_decision
gemini_decision-queues task s {model} {mode} {level} h =
    let taken : model ≡ or_else task.model s.model = ground arith in
    let leveled : level
        ≡ gemini_level task.thinking_level s.thinking_level (or_else task.model s.model) =
      ground arith in
    (
      ground arith,
      ground arith,
      ground arith,
      ground arith,
      ground arith,
      ground arith,
      λ unnamed.
          rw (taken, leveled)
            (gemini_level-valid task.thinking_level s.thinking_level (or_else task.model s.model)
              unnamed),
    )
