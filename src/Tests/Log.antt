-- ===== src/Tests/Log.antt =====
-- Runs of the event log and of the scheduled tasks.
use my_wio.Base.{◌≡◌, refl, String, Bool, true, false, Option, none, some, [], ◌∷◌, arith}
use my_wio.Store.Table.{update_where, affected}
use my_wio.Store.Events.{Event, add_event, insert_event, complete_event, conflicts, max_sequence}
use my_wio.Store.Events.Log.{add_event_again}
use my_wio.Store.Tasks.{
  Task, TaskTables, claim_scheduled_task, update_task, scheduled_table_for_id, scheduled_task,
  scheduled_task_select, table, set_table,
}
use my_wio.Store.Tasks.Claims.{claim_scheduled_task_once}

abbrev message : Event
message = record {
  event_id = "e1";
  stream_id = "t";
  sequence = 0;
  kind = "user.message";
  occurred_at = 5;
  payload = "{}";
}

abbrev recorded : Event
recorded = record message { sequence = 1 }

abbrev second : Event
second = record recorded { event_id = "e2"; sequence = 2 }

add_event_again_example :
    (r' : Event) × (add_event "y" 10 message (recorded ∷ []) ≡ (recorded ∷ [], some r'))
    × (r'.sequence ≡ 1)
unfolding add_event insert_event complete_event conflicts max_sequence
add_event_again_example =
    add_event_again "x" "y" 9 10 message [] (recorded ∷ []) {r = recorded} (λ e. cc) refl

abbrev any_event : Event → Bool
any_event e = true

abbrev source : String → Option String
source payload = some payload

abbrev nightly : Task
nightly = record {
  id = "k1";
  thread_id = "t";
  server_id = "s";
  name = "nightly";
  prompt = "run";
  schedule = "0 0 * * *";
  timezone = "UTC";
  enabled = true;
  model = "";
  reasoning_effort = "";
  approval_mode = "";
  thinking_level = "";
  next_run_at = 10;
  last_run_at = none;
  last_run_status = "";
  last_run_message = "";
  last_operation_id = "";
  created_at = 1;
  updated_at = 1;
}

abbrev tables : Task → TaskTables
tables r = record { codex_tasks = r ∷ []; gemini_tasks = []; claude_tasks = [] }

-- The second of two workers does not get the task.
claim_scheduled_task_once_example :
    claim_scheduled_task "k1" 10 80 13
      (tables (record nightly { next_run_at = 70; updated_at = 12 }))
    ≡ some (tables (record nightly { next_run_at = 70; updated_at = 12 }), false)
unfolding claim_scheduled_task update_task scheduled_table_for_id scheduled_task
    scheduled_task_select table set_table update_where affected
claim_scheduled_task_once_example =
    claim_scheduled_task_once "k1" 10 70 80 12 13 (tables nightly)
      (tables (record nightly { next_run_at = 70; updated_at = 12 })) {won = true} (omega arith)
      refl
