-- ===== src/Tests/Live.antt =====
-- Runs of the hub, of the watch over goal sessions and of the Agent's memory of operations.
use my_wio.Base.{ℕ, ◌≡◌, refl, String, true, none, [], ◌∷◌, ◌++◌, arith}
use my_wio.Text.{Text, codes, trim_space}
use my_wio.Store.Events.{Event}
use my_wio.Store.Operations.{OperationResult}
use my_wio.Hub.{
  Hub, empty_hub, sends, receives, run, published, received, act, subscribe, send, receive,
  without_first, sent_to, has_room, is_full,
}
use my_wio.Hub.Delivery.{run_complete}
use my_wio.Goal.{
  GoalRun, no_guard, repeated_tool_calls, reports, happen, happen_all, is_guarded, result_status,
  record_report,
}
use my_wio.Goal.Watch.{stopped_is_blocked, is_stopped}
use my_wio.AgentCache.{missing, delivers, finishes, steps}
use my_wio.AgentCache.Memory.{are_distinct}
use my_wio.AgentCache.Once.{executed_once}

abbrev event : String → Event
event id = record {
  event_id = id;
  stream_id = "t";
  sequence = 1;
  kind = "user.message";
  occurred_at = 5;
  payload = "{}";
}

abbrev joined_hub : Hub
joined_hub = (subscribe empty_hub).0

-- A browser that reads one of two events still holds the other.
run_complete_example :
    ([] ++ published (sends (event "a") ∷ receives 1 ∷ sends (event "b") ∷ [])) ≡ (
      received 1 (sends (event "a") ∷ receives 1 ∷ sends (event "b") ∷ []) joined_hub
      ++ event "b" ∷ [])
unfolding subscribe run act send receive without_first sent_to has_room is_full
run_complete_example =
    run_complete 1 (sends (event "a") ∷ receives 1 ∷ sends (event "b") ∷ []) joined_hub []
      (event "b" ∷ []) (omega arith) (omega arith) refl refl refl

abbrev start : GoalRun
start = record {
  report = "";
  evidence = [];
  guard_reason = no_guard;
  round = none;
  message = [];
  last_round = [];
  repeated_rounds = 0;
  last_tool = [];
  repeated_tools = 0;
  tools = [];
}

abbrev same_text : Text → Text
same_text t = t

abbrev one_digit : ℕ → Text
one_digit n = codes "1"

abbrev one_byte : Text → ℕ
one_byte t = 1

-- A report after the watch has stopped the session does not complete it.
stopped_is_blocked_example :
    result_status (record start {
      guard_reason = repeated_tool_calls 8;
      report = "completed";
      evidence = codes "log";
    })
    ≡ "blocked"
unfolding is_stopped is_guarded happen_all happen record_report trim_space
stopped_is_blocked_example =
    stopped_is_blocked same_text one_digit one_byte (reports "completed" (codes "log") ∷ [])
      (record start { guard_reason = repeated_tool_calls 8 })
      (record start {
        guard_reason = repeated_tool_calls 8;
        report = "completed";
        evidence = codes "log";
      })
      refl refl

abbrev no_bytes : String → ℕ
no_bytes s = 0

abbrev pushed : OperationResult
pushed = record { operation_id = "o1"; status = "succeeded"; message = ""; data_text = "" }

-- A delivery after the result is answered from memory.
executed_once_example :
    are_distinct
      (steps no_bytes
        (delivers "o1" 1 ∷ finishes pushed true 2 ∷ delivers "o1" 3 ∷ [])
        (record { seen = []; receipts = λ i. missing; executed = [] })).executed
    ≡ true
executed_once_example =
    executed_once no_bytes (λ i. missing)
      (delivers "o1" 1 ∷ finishes pushed true 2 ∷ delivers "o1" 3 ∷ [])
