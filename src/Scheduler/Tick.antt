-- ===== src/Scheduler/Tick.antt =====
-- internal/scheduler/scheduler.go: `enqueue` by the kind of the task, and `tick`.
use my_wio.Base.{ℕ, String, Bool, true, false, Option, none, some, List, [], ◌∷◌, pos, ℤ}
use my_wio.Text.{Text, codes}
use my_wio.Schedule.Calendar.{Location}
use my_wio.Schedule.Field.{parsed, invalid}
use my_wio.Schedule.Cron.{ScheduleError, next as next_run}
use my_wio.Store.Tasks.{
  Task, codex, gemini, claude, ScheduledTask, TaskTables, due_scheduled_tasks, claim_scheduled_task,
}
use my_wio.Scheduler.Decisions.{Session, rejects, queues, gemini_decision, claude_decision}
use my_wio.Scheduler.Codex.{Plane, Env, mark_run, wake, enqueue_codex}

-- What the scheduler reads and calls besides the tables: an error's text, the zones, the sessions, the
-- statuses of servers, and `QueueGeminiTurn` and `QueueClaudeTurn`, which give an operation's id.
pub record World : Type 0 where
  pub parse_duration : Text → Option ℤ
  pub load_location : Text → Option Location
  pub schedule_error_text : ScheduleError → String
  pub server_status : String → String
  pub gemini_session : String → Option Session
  pub claude_session : String → Option Session
  pub queue_gemini_turn :
      Task → Session → (model mode level : String) → Plane → Option (Plane × String)
  pub queue_claude_turn :
      Task → Session → (model mode effort : String) → Plane → Option (Plane × String)

module _ (w : World) (env : Env) (now : ℕ) where
  -- The end of `enqueueGemini` and `enqueueClaude`.
  unfoldable pub turn_outcome :
      Task → Session → (busy : String) → Plane → Option (Plane × String) → Plane
  turn_outcome task s busy plane none = mark_run task.id "skipped" busy "" now plane
  turn_outcome task s busy plane (some (queued, operation_id)) =
      wake s.server_id (mark_run task.id "queued" "" operation_id now queued)

  unfoldable pub enqueue_gemini : Task → Plane → Plane
  enqueue_gemini task plane = elim (w.gemini_session task.thread_id) [
    | none ↦ mark_run task.id "failed" "Gemini session no longer exists" "" now plane
    | some s ↦ elim (gemini_decision task s) [
      | rejects status message ↦ mark_run task.id status message "" now plane
      | queues model mode level ↦
          turn_outcome task s "Gemini workspace is busy or unavailable" plane
            (w.queue_gemini_turn task s model mode level plane)
    ]
  ]

  unfoldable pub enqueue_claude : Task → Plane → Plane
  enqueue_claude task plane = elim (w.claude_session task.thread_id) [
    | none ↦ mark_run task.id "failed" "Claude session no longer exists" "" now plane
    | some s ↦ elim (claude_decision task s) [
      | rejects status message ↦ mark_run task.id status message "" now plane
      | queues model mode effort ↦
          turn_outcome task s "Claude workspace is busy or unavailable" plane
            (w.queue_claude_turn task s model mode effort plane)
    ]
  ]

  -- `enqueue`.
  unfoldable pub enqueue : ScheduledTask → Plane → Plane
  enqueue s plane = elim s.agent_kind [
    | claude ↦ enqueue_claude s.task plane
    | gemini ↦ enqueue_gemini s.task plane
    | codex ↦ enqueue_codex env now (w.server_status s.task.server_id) s.task plane
  ]

  unfoldable pub claim_outcome : ScheduledTask → Plane → Option (TaskTables × Bool) → Plane
  claim_outcome s plane none = plane
  claim_outcome s plane (some (tables, false)) = plane
  claim_outcome s plane (some (tables, true)) = enqueue s (record plane { tasks = tables })

  -- The body of the loop of `tick`.
  unfoldable pub run_task : ScheduledTask → Plane → Plane
  run_task s plane =
      elim (next_run w.parse_duration w.load_location (codes s.task.schedule)
        (codes s.task.timezone) now) [
          | invalid e ↦ mark_run s.task.id "failed" (w.schedule_error_text e) "" now plane
          | parsed next ↦
              claim_outcome s plane
                (claim_scheduled_task s.task.id s.task.next_run_at next now plane.tasks)
        ]

  unfoldable pub run_tasks : List ScheduledTask → Plane → Plane
  run_tasks [] plane = plane
  run_tasks (s ∷ tasks) plane = run_tasks tasks (run_task s plane)

  -- `tick`.
  unfoldable pub tick : Plane → Plane
  tick plane = run_tasks (due_scheduled_tasks now (pos 100) plane.tasks) plane
