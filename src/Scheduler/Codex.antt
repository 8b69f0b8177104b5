-- ===== src/Scheduler/Codex.antt =====
-- internal/scheduler/scheduler.go: `enqueue` for a Codex session, over the tables of tasks, sessions,
-- operations and events.
use my_wio.Base.{
  ℕ, String, Bool, true, false, ◌&&◌, ◌||◌, not, Option, none, some, List, ◌∷◌, str_eq,
  if◌then◌else◌, find_first, ◌<>◌, ltb,
}
use my_wio.Text.{Text, codes}
use my_wio.Store.Table.{update_where, affected}
use my_wio.Store.Operations.{cancel_operation}
use my_wio.Store.Queue.{Db, Outcome, granted, refused, QueueError, queue_resource_operation}
use my_wio.Store.Events.{Event, add_event}
use my_wio.Store.Tasks.{Task, TaskTables, mark_scheduled_task_run}
use my_wio.Scheduler.Decisions.{normalized_approval_mode}

-- A row of `codex_threads` with the columns joined from its workspace.
pub record CodexThread : Type 0 where
  pub id : String
  pub codex_thread_id : String
  pub workspace_id : String
  pub server_id : String
  pub path : String
  pub status : String
  pub is_archived : Bool

-- The control plane; `woken` are the servers whose streams were woken, latest first.
pub record Plane : Type 0 where
  pub tasks : TaskTables
  pub db : Db
  pub events : List Event
  pub threads : List CodexThread
  pub woken : List String

-- `protocol.StartTurnCommand`, without images.
pub record StartTurn : Type 0 where
  pub thread_id : String
  pub codex_thread : String
  pub workspace_id : String
  pub workspace : String
  pub prompt : String
  pub model : String
  pub reasoning_effort : String
  pub approval_mode : Text

-- `ClaimThreadForTurn`; false is `ErrThreadActive`.
unfoldable pub is_held : CodexThread → Bool
is_held t = str_eq t.status "queued" || str_eq t.status "running"

unfoldable pub claim_thread_for_turn : String → List CodexThread → List CodexThread × Bool
claim_thread_for_turn id threads =
    let p : CodexThread → Bool = λ t. str_eq t.id id && not (is_held t) in
    (update_where p (λ t. record t { status = "queued" }) threads, ltb 0 (affected p threads))

-- `SetThreadStatus`.
unfoldable pub set_thread_status : String → String → List CodexThread → List CodexThread
set_thread_status id status = update_where (λ t. str_eq t.id id) (λ t. record t { status = status })

abbrev pub thread_row : String → List CodexThread → Option CodexThread
thread_row id threads = find_first (λ t. str_eq t.id id) threads

-- `_ = MarkScheduledTaskRun(…)`, whose error is dropped.
unfoldable pub mark_run : (task_id status message operation_id : String) → ℕ → Plane → Plane
mark_run task_id status message operation_id now plane =
    elim (mark_scheduled_task_run task_id status message operation_id now now plane.tasks) [
      | none ↦ plane
      | some tasks ↦ record plane { tasks = tasks }
    ]

unfoldable pub wake : String → Plane → Plane
wake server_id plane = record plane { woken = server_id ∷ plane.woken }

-- JSON, the time format, error texts the fresh ids made for a task, and what other connections commit meanwhile.
pub record Env : Type 0 where
  pub encode_turn : StartTurn → String
  pub encode_message : (prompt task_id : String) → String
  pub format_time : ℕ → String
  pub queue_error_text : QueueError → String
  pub meanwhile : Db → Db
  pub operation_id : String → String
  pub event_id : String → String

module _ (env : Env) (now : ℕ) where
  unfoldable pub start_turn : Task → CodexThread → StartTurn
  start_turn task t = record {
    thread_id = t.id;
    codex_thread = t.codex_thread_id;
    workspace_id = t.workspace_id;
    workspace = t.path;
    prompt = task.prompt;
    model = task.model;
    reasoning_effort = task.reasoning_effort;
    approval_mode = normalized_approval_mode (codes task.approval_mode);
  }

  unfoldable pub scheduled_key : Task → String
  scheduled_key task = "codex-scheduled:" <> task.id <> ":" <> env.format_time now

  unfoldable pub queue_turn : Task → CodexThread → Db → Db × Outcome String
  queue_turn task t =
      queue_resource_operation env.meanwhile (env.operation_id task.id) now t.server_id
        "codex.turn.start" (env.encode_turn (start_turn task t)) (scheduled_key task)
        (record { project_id = ""; workspace_id = ""; thread_id = t.id }) false

  unfoldable pub prompt_event : Task → CodexThread → Event
  prompt_event task t = record {
    event_id = env.event_id task.id;
    stream_id = t.id;
    sequence = 0;
    kind = "user.message";
    occurred_at = now;
    payload = env.encode_message task.prompt task.id;
  }

  -- After the session is claimed and the turn is queued: the prompt is recorded, or all is undone.
  unfoldable pub prompt_recorded :
      Task → CodexThread → String → Plane → List Event → Option Event → Plane
  prompt_recorded task t operation_id plane events none =
      mark_run task.id "failed" "sql: no rows in result set" operation_id now (record plane {
        events = events;
        db = record plane.db {
          operations =
              (cancel_operation operation_id "could not record scheduled Codex prompt" now
                plane.db.operations).0;
        };
        threads = set_thread_status t.id "idle" plane.threads;
      })
  prompt_recorded task t operation_id plane events (some e) =
      wake t.server_id
        (mark_run task.id "queued" "" operation_id now (record plane { events = events }))

  unfoldable pub turn_queued : Task → CodexThread → Plane → Db → Outcome String → Plane
  turn_queued task t plane db (refused e) =
      mark_run task.id "failed" (env.queue_error_text e) "" now
        (record plane { db = db; threads = set_thread_status t.id "idle" plane.threads })
  turn_queued task t plane db (granted operation_id) =
      let (events, recorded) =
        add_event (env.event_id task.id) now (prompt_event task t) plane.events in
      prompt_recorded task t operation_id (record plane { db = db }) events recorded

  unfoldable pub thread_claimed : Task → CodexThread → Plane → List CodexThread → Bool → Plane
  thread_claimed task t plane threads false =
      mark_run task.id "skipped" "Codex session is already active" "" now plane
  thread_claimed task t plane threads true =
      let (db, queued) = queue_turn task t plane.db in
      turn_queued task t (record plane { threads = threads }) db queued

  -- `enqueue` for a Codex task, on the status of the task's server.
  unfoldable pub enqueue_codex : String → Task → Plane → Plane
  enqueue_codex server_status task plane =
      if not (str_eq server_status "online")
      then mark_run task.id "skipped" "server is offline" "" now plane
      else elim (thread_row task.thread_id plane.threads) [
        | none ↦ mark_run task.id "failed" "Codex session no longer exists" "" now plane
        | some t ↦
            let (threads, claimed) = claim_thread_for_turn t.id plane.threads in
            if t.is_archived
            then mark_run task.id "skipped" "Codex session is archived" "" now plane
            else thread_claimed task t plane threads claimed
      ]
