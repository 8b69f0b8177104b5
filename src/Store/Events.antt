-- ===== src/Store/Events.antt =====
-- internal/store/store.go: the log of stream events, `AddEvent` and the queries that page through it.
pub mod Log
pub mod Pages
pub mod Markers
use my_wio.Base.{
  ℕ, ◌+◌, String, Bool, true, false, ◌&&◌, ◌||◌, not, Option, none, some, List, [], ◌∷◌, str_eq,
  ltb, ◌==◌, if◌then◌else◌, keep, take, find_first, any, ℤ, pos, negsuc,
}
use my_wio.Store.Table.{order_by}

-- `protocol.StreamEvent` and a row of `events`. A sequence number is never negative, 0 stands for
-- "not given"; `occurred_at` counts nanoseconds from Go's zero time.
pub record Event : Type 0 where
  pub event_id : String
  pub stream_id : String
  pub sequence : ℕ
  pub kind : String
  pub occurred_at : ℕ
  pub payload : String

-- `SELECT COALESCE(MAX(sequence),0) FROM events WHERE stream_id=?`.
unfoldable pub max_sequence : String → List Event → ℕ
max_sequence stream_id [] = 0
max_sequence stream_id (e ∷ events) =
    let rest = max_sequence stream_id events in
    if str_eq e.stream_id stream_id && ltb rest e.sequence then e.sequence else rest

-- Rows that the primary key `event_id` and `UNIQUE(stream_id, sequence)` do not allow together.
unfoldable pub conflicts : Event → Event → Bool
conflicts a b =
    str_eq b.event_id a.event_id || (str_eq b.stream_id a.stream_id && b.sequence == a.sequence)

unfoldable pub is_event : String → String → Event → Bool
is_event event_id stream_id b = str_eq b.event_id event_id && str_eq b.stream_id stream_id

-- The defaults that `AddEvent` fills in: a fresh id, the time and the next sequence number.
unfoldable pub complete_event : String → ℕ → Event → List Event → Event
complete_event fresh now e events = record e {
  event_id = if str_eq e.event_id "" then fresh else e.event_id;
  occurred_at = if e.occurred_at == 0 then now else e.occurred_at;
  sequence = if e.sequence == 0 then max_sequence e.stream_id events + 1 else e.sequence;
}

-- `INSERT … ON CONFLICT DO NOTHING`, then the sequence number of the row that was there before.
-- `none` is `sql.ErrNoRows`.
unfoldable pub insert_event : Event → List Event → List Event × Option Event
insert_event e events =
    if any (conflicts e) events
    then elim (find_first (is_event e.event_id e.stream_id) events) [
      | none ↦ (events, none)
      | some row ↦ (events, some (record e { sequence = row.sequence }))
    ]
    else (e ∷ events, some e)

-- `AddEvent`.
unfoldable pub add_event : String → ℕ → Event → List Event → List Event × Option Event
add_event fresh now e events = insert_event (complete_event fresh now e events) events

-- The limit of a page: a caller's limit that is not within 1 … `most` is replaced.
unfoldable pub page_limit : ℕ → ℕ → ℤ → ℕ
page_limit most otherwise (negsuc _) = otherwise
page_limit most otherwise (pos limit) = if limit == 0 || ltb most limit then otherwise else limit

unfoldable pub by_sequence : Event → Event → Bool
by_sequence a b = ltb a.sequence b.sequence

unfoldable pub by_sequence_desc : Event → Event → Bool
by_sequence_desc a b = ltb b.sequence a.sequence

unfoldable pub by_time : Event → Event → Bool
by_time a b =
    ltb a.occurred_at b.occurred_at || (a.occurred_at == b.occurred_at && ltb a.sequence b.sequence)

-- `WHERE … ORDER BY sequence LIMIT ?`.
unfoldable pub first_page : (Event → Bool) → ℕ → List Event → List Event
first_page p limit events = take limit (order_by by_sequence (keep p events))

-- `SELECT … FROM (… ORDER BY sequence DESC LIMIT ?) ORDER BY sequence`.
unfoldable pub last_page : (Event → Bool) → ℕ → List Event → List Event
last_page p limit events =
    order_by by_sequence (take limit (order_by by_sequence_desc (keep p events)))

-- `Events`.
unfoldable pub events_after : String → ℕ → ℤ → List Event → List Event
events_after stream_id after limit events =
    if str_eq stream_id ""
    then take (page_limit 1000 500 limit)
        (order_by by_time (keep (λ e. ltb after e.sequence) events))
    else first_page (λ e. str_eq e.stream_id stream_id && ltb after e.sequence)
        (page_limit 1000 500 limit) events

-- `EventsBefore`.
unfoldable pub events_before : String → ℕ → ℤ → List Event → List Event
events_before stream_id before limit =
    last_page (λ e. str_eq e.stream_id stream_id && ltb e.sequence before)
      (page_limit 1000 500 limit)

-- The kinds of event that a conversation shows.
unfoldable pub is_conversation : String → Bool
is_conversation kind =
    str_eq kind "user.message"
    || str_eq kind "codex.item.started"
    || str_eq kind "codex.item.completed"
    || str_eq kind "codex.error"
    || str_eq kind "codex.turn.completed"
    || str_eq kind "codex.turn.failed"
    || str_eq kind "codex.turn.cancelled"
    || str_eq kind "codex.interrupt.failed"
    || str_eq kind "codex.approval.failed"
    || str_eq kind "codex.compact.failed"
    || str_eq kind "codex.steer.failed"

-- `ConversationEvents`.
unfoldable pub conversation_events : String → ℕ → ℤ → List Event → List Event
conversation_events stream_id after limit =
    first_page (λ e. str_eq e.stream_id stream_id && ltb after e.sequence && is_conversation e.kind)
      (page_limit 10000 10000 limit)

-- `ConversationEventsBefore`.
unfoldable pub conversation_events_before : String → ℕ → ℤ → List Event → List Event
conversation_events_before stream_id before limit =
    last_page (λ e. str_eq e.stream_id stream_id && ltb e.sequence before && is_conversation e.kind)
      (page_limit 1000 500 limit)

-- `RecentConversationEvents`.
unfoldable pub recent_conversation_events : String → ℤ → List Event → List Event
recent_conversation_events stream_id limit =
    last_page (λ e. str_eq e.stream_id stream_id && is_conversation e.kind)
      (page_limit 1000 500 limit)

-- `RecentEvents`.
unfoldable pub recent_events : String → ℤ → List Event → List Event
recent_events stream_id limit =
    last_page (λ e. str_eq e.stream_id stream_id) (page_limit 2000 1000 limit)

-- `HasPendingTurnCancellation` of internal/store/scheduled_tasks.go: whether the latest turn event of
-- a thread is a cancellation by the control plane. `source_of` is the JSON decoder of the marker.
unfoldable pub is_turn_marker : String → Event → Bool
is_turn_marker thread_id e =
    str_eq e.stream_id thread_id
    && (str_eq e.kind "user.message" || str_eq e.kind "codex.turn.cancelled")

unfoldable pub is_control_cancellation : (String → Option String) → Event → Bool
is_control_cancellation source_of e =
    if not (str_eq e.kind "codex.turn.cancelled")
    then false
    else elim (source_of e.payload) [ none ↦ false | some source ↦ str_eq source "control" ]

unfoldable pub has_pending_turn_cancellation : (String → Option String) → String → List Event → Bool
has_pending_turn_cancellation source_of thread_id events =
    elim (order_by by_sequence_desc (keep (is_turn_marker thread_id) events)) [
      | [] ↦ false
      | e ∷ _ ↦ is_control_cancellation source_of e
    ]
