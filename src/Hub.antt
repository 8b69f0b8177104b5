-- ===== src/Hub.antt =====
-- internal/realtime/hub.go: the hub that hands events to the browsers' connections. `Publish` works
-- in two critical sections, and other calls may run between them: each section is an action here.
pub mod Delivery
use my_wio.Base.{
  ℕ, suc, ◌+◌, ◌%◌, ◌^◌, Bool, true, false, ◌&&◌, ◌||◌, Option, none, some, List, [], ◌∷◌, ◌++◌,
  ltb, ◌==◌, if◌then◌else◌, length,
}
use my_wio.Store.Events.{Event}

-- The capacity of a subscriber's channel.
abbrev pub capacity : ℕ
capacity = 256

-- `clients` maps an id to the events in its channel, `stalled` holds the ids that a running
-- `Publish` has found full and not closed yet.
pub record Hub : Type 0 where
  pub next : ℕ
  pub clients : ℕ → Option (List Event)
  pub stalled : ℕ → Bool

-- `New`.
abbrev pub empty_hub : Hub
empty_hub = record { next = 0; clients = λ id. none; stalled = λ id. false }

-- `Subscribe`: the id is an `int` and wraps around.
unfoldable pub subscribe : Hub → Hub × ℕ
subscribe h =
    let id = (h.next + 1) % 2 ^ 64 in
    (record h { next = id; clients = λ i. if i == id then some [] else h.clients i }, id)

-- `Unsubscribe`.
unfoldable pub unsubscribe : ℕ → Hub → Hub
unsubscribe id h = record h { clients = λ i. if i == id then none else h.clients i }

unfoldable pub has_room : List Event → Bool
has_room queue = ltb (length queue) capacity

unfoldable pub sent_to : Event → Option (List Event) → Option (List Event)
sent_to e none = none
sent_to e (some queue) = if has_room queue then some (queue ++ e ∷ []) else some queue

unfoldable pub is_full : Option (List Event) → Bool
is_full none = false
is_full (some queue) = if has_room queue then false else true

-- The first section of `Publish`: send to every channel with room, remember the others.
unfoldable pub send : Event → Hub → Hub
send e h = record h {
  clients = λ i. sent_to e (h.clients i);
  stalled = λ i. h.stalled i || is_full (h.clients i);
}

-- Its second section, for one of the ids that it remembers.
unfoldable pub close_stalled : ℕ → Hub → Hub
close_stalled id h = record h {
  clients = λ i. if i == id && h.stalled i then none else h.clients i;
}

-- A connection takes the next event from its channel.
unfoldable pub taken : Option (List Event) → List Event
taken none = []
taken (some []) = []
taken (some (e ∷ queue)) = e ∷ []

unfoldable pub without_first : Option (List Event) → Option (List Event)
without_first none = none
without_first (some []) = some []
without_first (some (e ∷ queue)) = some queue

unfoldable pub receive : ℕ → Hub → Hub
receive id h = record h {
  clients = λ i. if i == id then without_first (h.clients i) else h.clients i;
}

pub data Action : Type 0 where
  subscribes : Action
  unsubscribes : ℕ → Action
  sends : Event → Action
  closes : ℕ → Action
  receives : ℕ → Action

unfoldable pub act : Action → Hub → Hub
act subscribes h = (subscribe h).0
act (unsubscribes id) h = unsubscribe id h
act (sends e) h = send e h
act (closes id) h = close_stalled id h
act (receives id) h = receive id h

-- A run of interleaved actions.
unfoldable pub run : List Action → Hub → Hub
run [] h = h
run (a ∷ actions) h = run actions (act a h)

-- What is published in a run, and what one connection takes from its channel.
unfoldable pub published_now : Action → List Event
published_now (sends e) = e ∷ []
published_now _ = []

unfoldable pub published : List Action → List Event
published [] = []
published (a ∷ actions) = published_now a ++ published actions

unfoldable pub received_now : ℕ → Action → Hub → List Event
received_now id (receives j) h = if j == id then taken (h.clients id) else []
received_now id _ h = []

unfoldable pub received : ℕ → List Action → Hub → List Event
received id [] h = []
received id (a ∷ actions) h = received_now id a h ++ received id actions (act a h)
