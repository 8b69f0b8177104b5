-- ===== src/Store/Tasks.antt =====
-- internal/store/scheduled_tasks.go: the scheduled tasks of the three kinds of Agent session.
pub mod Claims
pub mod Edits
use my_wio.Base.{
  ℕ, ◌+◌, String, Bool, true, false, ◌&&◌, ◌||◌, not, Option, none, some, List, [], ◌∷◌, ◌++◌, map,
  str_eq, ltb, leb, ◌==◌, if◌then◌else◌, keep, take, find_first, any, ℤ, pos, negsuc,
}
use my_wio.Text.{codes, trim_space}
use my_wio.Store.Table.{update_where, affected, order_by}

-- A row of one of the task tables. The columns that the queries join from the thread, workspace,
-- project and server of the task are read from those tables and not repeated here.
pub record Task : Type 0 where
  pub id : String
  pub thread_id : String
  pub server_id : String
  pub name : String
  pub prompt : String
  pub schedule : String
  pub timezone : String
  pub enabled : Bool
  pub model : String
  pub reasoning_effort : String
  pub approval_mode : String
  pub thinking_level : String
  pub next_run_at : ℕ
  pub last_run_at : Option ℕ
  pub last_run_status : String
  pub last_run_message : String
  pub last_operation_id : String
  pub created_at : ℕ
  pub updated_at : ℕ

pub data AgentKind : Type 0 where
  codex gemini claude : AgentKind

pub record TaskTables : Type 0 where
  pub codex_tasks : List Task
  pub gemini_tasks : List Task
  pub claude_tasks : List Task

-- `scheduledTable`.
unfoldable pub scheduled_table : String → AgentKind
scheduled_table kind =
    if str_eq kind "claude" then claude else if str_eq kind "gemini" then gemini else codex

unfoldable pub table : AgentKind → TaskTables → List Task
table codex t = t.codex_tasks
table gemini t = t.gemini_tasks
table claude t = t.claude_tasks

unfoldable pub set_table : AgentKind → List Task → TaskTables → TaskTables
set_table codex rows t = record t { codex_tasks = rows }
set_table gemini rows t = record t { gemini_tasks = rows }
set_table claude rows t = record t { claude_tasks = rows }

-- A row of the union: the kind of its table with it. Only the Gemini table shows a thinking level.
pub record ScheduledTask : Type 0 where
  pub agent_kind : AgentKind
  pub task : Task

abbrev pub codex_row : Task → ScheduledTask
codex_row r = record { agent_kind = codex; task = record r { thinking_level = "" } }

abbrev pub gemini_row : Task → ScheduledTask
gemini_row r = record { agent_kind = gemini; task = r }

abbrev pub claude_row : Task → ScheduledTask
claude_row r = record { agent_kind = claude; task = record r { thinking_level = "" } }

unfoldable pub scheduled_task_select : TaskTables → List ScheduledTask
scheduled_task_select t =
    map codex_row t.codex_tasks ++ (map gemini_row t.gemini_tasks ++ map claude_row t.claude_tasks)

-- `ScheduledTask` and `scheduledTableForID`; `none` is `sql.ErrNoRows`.
unfoldable pub scheduled_task : String → TaskTables → Option ScheduledTask
scheduled_task id t = find_first (λ s. str_eq s.task.id id) (scheduled_task_select t)

abbrev pub kind_of : Option ScheduledTask → Option AgentKind
kind_of none = none
kind_of (some s) = some s.agent_kind

unfoldable pub scheduled_table_for_id : String → TaskTables → Option AgentKind
scheduled_table_for_id id t = kind_of (scheduled_task id t)

-- `UPDATE` of the table that an id belongs to.
unfoldable pub update_task :
    String → (Task → Bool) → (Task → Task) → TaskTables → Option (TaskTables × ℕ)
update_task id p f t = elim (scheduled_table_for_id id t) [
  | none ↦ none
  | some kind ↦ some (
    set_table kind (update_where (λ r. str_eq r.id id && p r) f (table kind t)) t,
    affected (λ r. str_eq r.id id && p r) (table kind t),
  )
]

-- `ListScheduledTasks`: enabled tasks first, then by their next run, then the latest change first.
unfoldable pub listed_before : ScheduledTask → ScheduledTask → Bool
listed_before a b =
    let x = a.task in
    let y = b.task in
    (x.enabled && not y.enabled)
    || (not (y.enabled && not x.enabled)
        && (ltb x.next_run_at y.next_run_at
            || (x.next_run_at == y.next_run_at && ltb y.updated_at x.updated_at)))

unfoldable pub list_scheduled_tasks : TaskTables → List ScheduledTask
list_scheduled_tasks t = order_by listed_before (scheduled_task_select t)

-- `DueScheduledTasks`.
unfoldable pub is_due : ℕ → ScheduledTask → Bool
is_due now s = s.task.enabled && leb s.task.next_run_at now

unfoldable pub runs_before : ScheduledTask → ScheduledTask → Bool
runs_before a b = ltb a.task.next_run_at b.task.next_run_at

unfoldable pub due_limit : ℤ → ℕ
due_limit (negsuc _) = 100
due_limit (pos limit) = if limit == 0 || ltb 100 limit then 100 else limit

unfoldable pub due_scheduled_tasks : ℕ → ℤ → TaskTables → List ScheduledTask
due_scheduled_tasks now limit t =
    take (due_limit limit) (order_by runs_before (keep (is_due now) (scheduled_task_select t)))

-- `ClaimScheduledTask`: the row keeps its claim if it is still due at the time it was read.
unfoldable pub claim_scheduled_task :
    String → (expected next now : ℕ) → TaskTables → Option (TaskTables × Bool)
claim_scheduled_task id expected next now t =
    elim (update_task id (λ r. r.enabled && leb r.next_run_at (expected + 1))
      (λ r. record r { next_run_at = next; updated_at = now }) t) [
        | none ↦ none
        | some (t', count) ↦ some (t', ltb 0 count)
      ]

-- `MarkScheduledTaskRun`.
unfoldable pub mark_scheduled_task_run :
    (id status message operation_id : String) → (at now : ℕ) → TaskTables → Option TaskTables
mark_scheduled_task_run id status message operation_id at now t =
    elim (update_task id (λ r. true)
      (λ r. record r {
        last_run_at = some at;
        last_run_status = status;
        last_run_message = message;
        last_operation_id = operation_id;
        updated_at = now;
      })
      t) [ none ↦ none | some (t', count) ↦ some t' ]

unfoldable pub is_unfinished_run : Task → Bool
is_unfinished_run r = str_eq r.last_run_status "queued" || str_eq r.last_run_status "running"

abbrev pub with_outcome : String → String → ℕ → Task → Task
with_outcome status message now r = record r {
  last_run_status = status;
  last_run_message = message;
  updated_at = now;
}

unfoldable pub is_blank_text : String → Bool
is_blank_text text = elim (trim_space (codes text)) [ [] ↦ true | _ ∷ _ ↦ false ]

-- `MarkScheduledTaskByOperation`.
unfoldable pub mark_scheduled_task_by_operation :
    (operation_id status message : String) → ℕ → TaskTables → TaskTables
mark_scheduled_task_by_operation operation_id status message now t =
    let mark =
      update_where (λ r. str_eq r.last_operation_id operation_id && is_unfinished_run r)
        (with_outcome status message now) in
    if is_blank_text operation_id then t else record {
      codex_tasks = mark t.codex_tasks;
      gemini_tasks = mark t.gemini_tasks;
      claude_tasks = mark t.claude_tasks;
    }

-- `MarkScheduledTaskByThread`.
unfoldable pub mark_scheduled_task_by_thread :
    (thread_id status message : String) → ℕ → TaskTables → TaskTables
mark_scheduled_task_by_thread thread_id status message now t =
    if is_blank_text thread_id then t else record t {
      codex_tasks =
          update_where (λ r. str_eq r.thread_id thread_id && is_unfinished_run r)
            (with_outcome status message now) t.codex_tasks;
    }

-- `DeleteScheduledTask`.
unfoldable pub delete_scheduled_task : String → TaskTables → Option TaskTables
delete_scheduled_task id t = elim (scheduled_table_for_id id t) [
  | none ↦ none
  | some kind ↦
      if affected (λ r. str_eq r.id id) (table kind t) == 0
      then none
      else some (set_table kind (keep (λ r. not (str_eq r.id id)) (table kind t)) t)
]
