-- ===== src/Tests/Planned.antt =====
-- Runs of the scheduler.
use my_wio.Base.{
  ◌||◌, any, arith, inl, ℤ, pos, Option, some, ◌≡◌, refl, true, false, none, [], ◌∷◌, is_some,
}
use my_wio.Text.{Text, codes, trim_space, has_prefix}
use my_wio.Store.Table.{affected, update_where}
use my_wio.Store.Events.{insert_event, add_event, complete_event, max_sequence}
use my_wio.Store.Queue.{
  id_of_key, queue_operation_payload, resolve_operation_resource, insert_resolved, insert_operation,
  after_insert, new_operation,
}
use my_wio.Store.Tasks.{
  Task, TaskTables, claim_scheduled_task, mark_scheduled_task_run, update_task,
  scheduled_table_for_id, scheduled_task, scheduled_task_select, table, set_table,
}
use my_wio.Scheduler.Decisions.{Session}
use my_wio.Scheduler.Codex.{
  CodexThread, Plane, Env, is_held, thread_claimed, claim_thread_for_turn, turn_queued, queue_turn,
  mark_run, prompt_event, prompt_recorded, wake, scheduled_key, enqueue_codex,
}
use my_wio.Schedule.Calendar.{Location}
use my_wio.Schedule.Cron.{parse, next}
use my_wio.Scheduler.Workers.{one_worker_claims}
use my_wio.Scheduler.Release.{HasTurn, is_queued_turn, holds_session, enqueue_codex_releases}

abbrev nightly : Task
nightly = record {
  id = "k1";
  thread_id = "t";
  server_id = "s";
  name = "nightly";
  prompt = "run";
  schedule = "0 0 * * *";
  timezone = "UTC";
  enabled = true;
  model = "";
  reasoning_effort = "";
  approval_mode = "";
  thinking_level = "";
  next_run_at = 10;
  last_run_at = none;
  last_run_status = "";
  last_run_message = "";
  last_operation_id = "";
  created_at = 1;
  updated_at = 1;
}

abbrev session : Session
session = record {
  server_id = "s";
  server_status = "online";
  is_archived = false;
  recovery_pending = false;
  status = "idle";
  agent_version = "9.0.0";
  model = "gemini-2.5-pro";
  mode = "default";
  thinking_level = "high";
}

abbrev thread : CodexThread
thread = record {
  id = "t";
  codex_thread_id = "c";
  workspace_id = "w";
  server_id = "s";
  path = "/w";
  status = "idle";
  is_archived = false;
}

abbrev plane : Plane
plane = record {
  tasks = record { codex_tasks = nightly ∷ []; gemini_tasks = []; claude_tasks = [] };
  db = record {
    operations = [];
    servers = "s" ∷ [];
    projects = "p" ∷ [];
    workspaces = record { id = "w"; project_id = "p"; server_id = "s" } ∷ [];
    threads = record { id = "t"; workspace_id = "w" } ∷ [];
  };
  events = [];
  threads = thread ∷ [];
  woken = [];
}

abbrev env : Env
env = record {
  encode_turn = λ t. t.prompt;
  encode_message = λ p i. p;
  format_time = λ t. "0";
  queue_error_text = λ e. "error";
  meanwhile = λ db. db;
  operation_id = λ i. "o1";
  event_id = λ i. "e1";
}

enqueue_codex_releases_example :
    let after = enqueue_codex env 10 "online" nightly plane in
    let key = scheduled_key env 10 nightly in
    HasTurn env 10 nightly thread plane after
    × ((is_some (id_of_key key plane.db.operations)
          || is_some (id_of_key key (env.meanwhile plane.db).operations)
          || any (is_queued_turn env 10 nightly thread) after.db.operations)
        ≡ true)
unfolding holds_session enqueue_codex is_held thread_claimed claim_thread_for_turn affected
    update_where turn_queued queue_turn queue_operation_payload id_of_key resolve_operation_resource
    insert_resolved insert_operation after_insert new_operation insert_event add_event mark_run
    prompt_event prompt_recorded wake mark_scheduled_task_run update_task scheduled_table_for_id
    scheduled_task scheduled_task_select table set_table scheduled_key complete_event max_sequence
enqueue_codex_releases_example =
    enqueue_codex_releases env 10 nightly thread "online" plane refl refl refl

abbrev one_hour : Text → Option ℤ
one_hour t = some (pos 3600000000000)

abbrev no_location : Text → Option Location
no_location t = none

abbrev tables : Task → TaskTables
tables r = record { codex_tasks = r ∷ []; gemini_tasks = []; claude_tasks = [] }

-- Two workers read an hourly task that is due at 10.
one_worker_claims_example :
    claim_scheduled_task "k1" 10 90 22
      (tables (record nightly { next_run_at = 3600000000020; updated_at = 21 }))
    ≡ some (tables (record nightly { next_run_at = 3600000000020; updated_at = 21 }), false)
unfolding claim_scheduled_task update_task scheduled_table_for_id scheduled_task
    scheduled_task_select table set_table update_where affected next parse trim_space has_prefix
one_worker_claims_example =
    one_worker_claims one_hour no_location (codes "@every 1h") (codes "UTC") 20 "k1" 10 0
      3600000000020 90 21 22 (tables nightly)
      (tables (record nightly { next_run_at = 3600000000020; updated_at = 21 })) {won = true}
      (omega arith) (inl (3600000000000, refl)) refl refl
