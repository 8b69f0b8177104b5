-- ===== src/Scheduler/Release.antt =====
-- A session is not left claimed without a queued turn.
use my_wio.Base.{
  ℕ, String, ◌≡◌, refl, ap, sym, subst, ◌∙◌, Bool, true, false, ◌&&◌, ◌||◌, Option, none, some,
  List, [], ◌∷◌, str_eq, any, arith, is_some, Bool-cases, inl, inr,
}
use my_wio.Store.Table.{update_where}
use my_wio.Store.Operations.{Operation, cancel_operation}
use my_wio.Store.Queue.{Db, Outcome, granted, refused, id_of_key}
use my_wio.Store.Queue.Idempotency.{queue_queues}
use my_wio.Store.Events.{Event}
use my_wio.Store.Tasks.{Task}
use my_wio.Scheduler.Codex.{
  CodexThread, Plane, is_held, claim_thread_for_turn, set_thread_status, thread_row, mark_run, wake,
  Env, start_turn, scheduled_key, queue_turn, prompt_recorded, turn_queued, thread_claimed,
  enqueue_codex,
}

-- Whether a turn holds the session with an id.
unfoldable pub holds_session : String → List CodexThread → Bool
holds_session id threads = any (λ t. str_eq t.id id && is_held t) threads

idle-holds_session :
    (id : String) (threads : List CodexThread)
    → holds_session id (set_thread_status id "idle" threads) ≡ false
unfolding holds_session set_thread_status update_where is_held
idle-holds_session id [] = refl
idle-holds_session id (t ∷ threads) = elim (Bool-cases (str_eq t.id id)) [
  | inl e ↦ rw e (ground (arith, idle-holds_session id threads))
  | inr e ↦ rw e (ground (arith, idle-holds_session id threads))
]

mark_run-threads :
    (task_id status message operation_id : String) (now : ℕ) (plane : Plane)
    → ((mark_run task_id status message operation_id now plane).threads ≡ plane.threads)
      × ((mark_run task_id status message operation_id now plane).db ≡ plane.db)
      × ((mark_run task_id status message operation_id now plane).woken ≡ plane.woken)
unfolding mark_run
mark_run-threads task_id status message operation_id now plane =
    (ground arith, ground arith, ground arith)

module _ (env : Env) (now : ℕ) (task : Task) (t : CodexThread) where
  -- What a run on some tables has left when it queued its turn: the request was granted, the tables are
  -- the ones that it left, and the server's stream was woken.
  pub record HasTurn (before after : Plane) : Type 0 where
    pub operation_id : String
    pub is_granted : (queue_turn env now task t before.db).1 ≡ granted operation_id
    pub keeps_queue : after.db ≡ (queue_turn env now task t before.db).0
    pub wakes_server : after.woken ≡ t.server_id ∷ before.woken

  abbrev Released : Plane → Plane → Type 0
  Released before after = holds_session t.id after.threads ≡ true → HasTurn before after

  prompt_recorded-Released :
      (operation_id : String) (before plane : Plane) (events : List Event) (recorded : Option Event)
      → (queue_turn env now task t before.db).1 ≡ granted operation_id
      → plane.db ≡ (queue_turn env now task t before.db).0
      → plane.woken ≡ before.woken
      → Released before (prompt_recorded env now task t operation_id plane events recorded)
  unfolding prompt_recorded wake
  prompt_recorded-Released operation_id before plane events none g d w h =
      let run =
        mark_run-threads task.id "failed" "sql: no rows in result set" operation_id now
          (record plane {
            events = events;
            db = record plane.db {
              operations =
                  (cancel_operation operation_id "could not record scheduled Codex prompt" now
                    plane.db.operations).0;
            };
            threads = set_thread_status t.id "idle" plane.threads;
          }) in
      absurd (ground (arith, ap (holds_session t.id) run.0, idle-holds_session t.id plane.threads))
  prompt_recorded-Released operation_id before plane events (some e) g d w h =
      let run =
        mark_run-threads task.id "queued" "" operation_id now (record plane { events = events }) in
      record {
        operation_id = operation_id;
        is_granted = g;
        keeps_queue = run.1 ∙ d;
        wakes_server = ap (λ servers. t.server_id ∷ servers) (run.2 ∙ w);
      }

  turn_queued-Released :
      (before plane : Plane) (db : Db) (queued : Outcome String)
      → (queue_turn env now task t before.db).1 ≡ queued
      → db ≡ (queue_turn env now task t before.db).0
      → plane.woken ≡ before.woken
      → Released before (turn_queued env now task t plane db queued)
  unfolding turn_queued
  turn_queued-Released before plane db (refused e) g d w h =
      let run =
        mark_run-threads task.id "failed" (env.queue_error_text e) "" now
          (record plane { db = db; threads = set_thread_status t.id "idle" plane.threads }) in
      absurd (ground (arith, ap (holds_session t.id) run.0, idle-holds_session t.id plane.threads))
  turn_queued-Released before plane db (granted i) g d w h =
      prompt_recorded-Released i before (record plane { db = db }) _ _ g d w h

  thread_claimed-Released :
      (plane : Plane) (threads : List CodexThread) (claimed : Bool)
      → holds_session t.id plane.threads ≡ false
      → Released plane (thread_claimed env now task t plane threads claimed)
  unfolding thread_claimed
  thread_claimed-Released plane threads false free h =
      let run = mark_run-threads task.id "skipped" "Codex session is already active" "" now plane in
      absurd (ground (arith, ap (holds_session t.id) run.0))
  thread_claimed-Released plane threads true free h =
      turn_queued-Released plane (record plane { threads = threads })
        (queue_turn env now task t plane.db).0 (queue_turn env now task t plane.db).1 refl refl refl
        h

  marked-Released :
      (status message operation_id : String) (plane : Plane)
      → holds_session t.id plane.threads ≡ false
      → Released plane (mark_run task.id status message operation_id now plane)
  marked-Released status message operation_id plane free h =
      let run = mark_run-threads task.id status message operation_id now plane in
      absurd (ground (arith, ap (holds_session t.id) run.0))

  module _ (server_status : String) (plane : Plane) where
    enqueue_offline :
        str_eq server_status "online" ≡ false
        → enqueue_codex env now server_status task plane
          ≡ mark_run task.id "skipped" "server is offline" "" now plane
    unfolding enqueue_codex
    enqueue_offline off = rw off refl

    enqueue_archived :
        str_eq server_status "online" ≡ true
        → thread_row task.thread_id plane.threads ≡ some t
        → t.is_archived ≡ true
        → enqueue_codex env now server_status task plane
          ≡ mark_run task.id "skipped" "Codex session is archived" "" now plane
    unfolding enqueue_codex
    enqueue_archived on found archived = rw (on, found, archived) refl

    enqueue_claims :
        str_eq server_status "online" ≡ true
        → thread_row task.thread_id plane.threads ≡ some t
        → t.is_archived ≡ false
        → enqueue_codex env now server_status task plane
          ≡ thread_claimed env now task t plane
              (claim_thread_for_turn t.id plane.threads).0
              (claim_thread_for_turn t.id plane.threads).1
    unfolding enqueue_codex
    enqueue_claims on found open_ = rw (on, found, open_) refl

  -- The row of the turn, while it is queued.
  abbrev pub is_queued_turn : Operation → Bool
  is_queued_turn o =
      str_eq o.idempotency_key (scheduled_key env now task)
      && str_eq o.status "queued"
      && str_eq o.kind "codex.turn.start"
      && str_eq o.payload (env.encode_turn (start_turn env now task t))

  queue_turn_queues :
      (plane : Plane) {i : String}
      → (queue_turn env now task t plane.db).1 ≡ granted i
      → let key = scheduled_key env now task in
        (is_some (id_of_key key plane.db.operations)
          || is_some (id_of_key key (env.meanwhile plane.db).operations)
          || any is_queued_turn (queue_turn env now task t plane.db).0.operations)
        ≡ true
  unfolding queue_turn
  queue_turn_queues plane g =
      queue_queues env.meanwhile (env.operation_id task.id) now t.server_id "codex.turn.start"
        (env.encode_turn (start_turn env now task t)) (scheduled_key env now task)
        (record { project_id = ""; workspace_id = ""; thread_id = t.id }) false plane.db g

  enqueue-Released :
      (server_status : String) (plane : Plane)
      → thread_row task.thread_id plane.threads ≡ some t
      → holds_session t.id plane.threads ≡ false
      → Released plane (enqueue_codex env now server_status task plane)
  enqueue-Released server_status plane found free =
      elim (Bool-cases (str_eq server_status "online")) [
        | inr off ↦
            subst (Released plane) (sym (enqueue_offline server_status plane off))
              (marked-Released "skipped" "server is offline" "" plane free)
        | inl on ↦ elim (Bool-cases t.is_archived) [
          | inl archived ↦
              subst (Released plane) (sym (enqueue_archived server_status plane on found archived))
                (marked-Released "skipped" "Codex session is archived" "" plane free)
          | inr open_ ↦
              subst (Released plane) (sym (enqueue_claims server_status plane on found open_)) (
                thread_claimed-Released plane (claim_thread_for_turn t.id plane.threads).0
                  (claim_thread_for_turn t.id plane.threads).1 free)
        ]
      ]

  -- `enqueue` for a Codex task never leaves its session claimed without a turn: if no turn held the
  -- session before and one does afterwards, then the request for the turn was granted, the tables of
  -- the queue are as it left them, so that this run does not cancel it, the stream of its server is woken,
  -- and the turn is there, queued, unless the key of this run named an operation already, before the
  -- request or just before its row was inserted.
  pub enqueue_codex_releases :
      (server_status : String) (plane : Plane)
      → thread_row task.thread_id plane.threads ≡ some t
      → holds_session t.id plane.threads ≡ false
      → holds_session t.id (enqueue_codex env now server_status task plane).threads ≡ true
      → let after = enqueue_codex env now server_status task plane in
        let key = scheduled_key env now task in
        HasTurn plane after
        × ((is_some (id_of_key key plane.db.operations)
              || is_some (id_of_key key (env.meanwhile plane.db).operations)
              || any is_queued_turn after.db.operations)
            ≡ true)
  enqueue_codex_releases server_status plane found free held =
      let turn = enqueue-Released server_status plane found free held in
      (turn, rw turn.keeps_queue (queue_turn_queues plane turn.is_granted))
