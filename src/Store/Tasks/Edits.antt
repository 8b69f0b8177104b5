-- ===== src/Store/Tasks/Edits.antt =====
-- internal/store/scheduled_tasks.go: creating and changing scheduled tasks.
use my_wio.Base.{
  ℕ, String, Bool, ◌||◌, ◌&&◌, not, none, some, List, ◌∷◌, str_eq, ◌==◌, if◌then◌else◌, find_first,
}
use my_wio.Store.Table.{update_where, affected}
use my_wio.Store.Tasks.{
  Task, TaskTables, ScheduledTask, scheduled_table, table, set_table, scheduled_task, is_blank_text,
}

-- `ScheduledTaskInput`.
pub record TaskInput : Type 0 where
  pub thinking_level : String
  pub agent_kind : String
  pub thread_id : String
  pub name : String
  pub prompt : String
  pub schedule : String
  pub timezone : String
  pub enabled : Bool
  pub model : String
  pub reasoning_effort : String
  pub approval_mode : String

pub data EditError : Type 0 where
  no_rows invalid_kind name_and_prompt_required : EditError

pub data Edited (A : Type 0) : Type 0 where
  edited : A → Edited A
  rejected : EditError → Edited A

-- The sessions of each kind by their id: `Thread`, `GeminiThread` and `ClaudeThread`, as far as the
-- id and the server of the session go.
pub record SessionRow : Type 0 where
  pub id : String
  pub server_id : String

pub record Sessions : Type 0 where
  pub codex_sessions : List SessionRow
  pub gemini_sessions : List SessionRow
  pub claude_sessions : List SessionRow

abbrev pub session_row : String → List SessionRow → Edited SessionRow
session_row id rows = elim (find_first (λ s. str_eq s.id id) rows) [
  | none ↦ rejected no_rows
  | some s ↦ edited s
]

-- `scheduledThread`.
unfoldable pub scheduled_thread : String → String → Sessions → Edited SessionRow
scheduled_thread kind id sessions =
    if str_eq kind "claude"
    then session_row id sessions.claude_sessions
    else if str_eq kind "gemini"
    then session_row id sessions.gemini_sessions
    else if not (str_eq kind "") && not (str_eq kind "codex")
    then rejected invalid_kind
    else session_row id sessions.codex_sessions

unfoldable pub new_task : String → TaskInput → SessionRow → (next_run_at now : ℕ) → Task
new_task id input s next_run_at now = record {
  id = id;
  thread_id = s.id;
  server_id = s.server_id;
  name = input.name;
  prompt = input.prompt;
  schedule = input.schedule;
  timezone = input.timezone;
  enabled = input.enabled;
  model = input.model;
  reasoning_effort = input.reasoning_effort;
  approval_mode = input.approval_mode;
  thinking_level = input.thinking_level;
  next_run_at = next_run_at;
  last_run_at = none;
  last_run_status = "";
  last_run_message = "";
  last_operation_id = "";
  created_at = now;
  updated_at = now;
}

-- The row that both statements answer with.
abbrev pub answer : String → TaskTables → TaskTables × Edited ScheduledTask
answer id t = (t, elim (scheduled_task id t) [ none ↦ rejected no_rows | some s ↦ edited s ])

-- `CreateScheduledTask`; `id` is the fresh `NewID`.
unfoldable pub create_scheduled_task :
    (id : String)
    → TaskInput
    → (next_run_at now : ℕ) → Sessions
    → TaskTables
    → TaskTables × Edited ScheduledTask
create_scheduled_task id input next_run_at now sessions t =
    elim (scheduled_thread input.agent_kind input.thread_id sessions) [
      | rejected e ↦ (t, rejected e)
      | edited s ↦
          let kind = scheduled_table input.agent_kind in
          if is_blank_text input.name || is_blank_text input.prompt
          then (t, rejected name_and_prompt_required)
          else answer id (set_table kind (new_task id input s next_run_at now ∷ table kind t) t)
    ]

-- `UpdateScheduledTask`. The last run and the creation time stay.
unfoldable pub changed_task : TaskInput → SessionRow → (next_run_at now : ℕ) → Task → Task
unfolding new_task
changed_task input s next_run_at now r = record (new_task r.id input s next_run_at now) {
  last_run_at = r.last_run_at;
  last_run_status = r.last_run_status;
  last_run_message = r.last_run_message;
  last_operation_id = r.last_operation_id;
  created_at = r.created_at;
}

unfoldable pub update_scheduled_task :
    (id : String)
    → TaskInput
    → (next_run_at now : ℕ) → Sessions
    → TaskTables
    → TaskTables × Edited ScheduledTask
update_scheduled_task id input next_run_at now sessions t =
    elim (scheduled_thread input.agent_kind input.thread_id sessions) [
      | rejected e ↦ (t, rejected e)
      | edited s ↦
          let kind = scheduled_table input.agent_kind in
          if affected (λ r. str_eq r.id id) (table kind t) == 0
          then (t, rejected no_rows)
          else answer id (
              set_table kind
                (update_where (λ r. str_eq r.id id) (changed_task input s next_run_at now)
                  (table kind t))
                t)
    ]
