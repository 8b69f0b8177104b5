-- ===== src/Store/Events/Log.antt =====
-- What `AddEvent` keeps of the log, and that a repeated event is not recorded twice.
use my_wio.Base.{
  ℕ, ◌<◌, String, ◌≡◌, ◌≢◌, refl, true, false, ◌||◌, not, some, List, [], ◌∷◌, sym, ◌∙◌, subst,
  str_eq, str_eq_refl, str_eq_of_ne, ltb, find_first, any, all, arith, Bool-cases, Option-cases,
  inl, inr,
}
use my_wio.Store.Events.{
  Event, max_sequence, conflicts, is_event, complete_event, insert_event, add_event,
}

-- No two rows conflict.
unfoldable pub IsLog : List Event → Type 0
IsLog [] = Unit
IsLog (e ∷ events) = (any (conflicts e) events ≡ false) × IsLog events

-- Recording an event keeps the primary key and the unique sequence numbers of the log.
pub add_event-IsLog :
    (fresh : String) (now : ℕ) (e : Event) (events : List Event)
    → IsLog events
    → IsLog (add_event fresh now e events).0
unfolding add_event insert_event IsLog
add_event-IsLog fresh now e events log =
    let full = complete_event fresh now e events in
    elim (Bool-cases (any (conflicts full) events)) [
      | inl c ↦
          rw c (elim (Option-cases (find_first (is_event full.event_id full.stream_id) events)) [
            | inl n ↦ rw n log
            | inr (row, s) ↦ rw s log
          ])
      | inr c ↦ rw c (c, log)
    ]

sequence-le-max_sequence :
    (stream_id : String) (n : ℕ) (events : List Event)
    → max_sequence stream_id events < n
    → all (λ b. not (str_eq b.stream_id stream_id) || ltb b.sequence n) events ≡ true
unfolding max_sequence
sequence-le-max_sequence stream_id n [] h = refl
sequence-le-max_sequence stream_id n (e ∷ events) h =
    ground (arith, sequence-le-max_sequence stream_id n events)

no_conflict :
    (e : Event) (events : List Event)
    → any (λ b. str_eq b.event_id e.event_id) events ≡ false
    → all (λ b. not (str_eq b.stream_id e.stream_id) || ltb b.sequence e.sequence) events ≡ true
    → any (conflicts e) events ≡ false
unfolding conflicts
no_conflict e [] n a = refl
no_conflict e (b ∷ events) n a = ground (arith, no_conflict e events)

-- An event with a new id and no sequence number is always recorded, with a number above all those
-- of its stream.
pub add_event_new :
    (fresh : String) (now : ℕ) (e : Event) (events : List Event)
    → e.event_id ≢ ""
    → e.sequence ≡ 0
    → any (λ b. str_eq b.event_id e.event_id) events ≡ false
    → let r = complete_event fresh now e events in
      (add_event fresh now e events ≡ (r ∷ events, some r))
      × (all (λ b. not (str_eq b.stream_id e.stream_id) || ltb b.sequence r.sequence) events ≡ true)
unfolding add_event insert_event complete_event
add_event_new fresh now e events named unnumbered new =
    let r = complete_event fresh now e events in
    let above : all (λ b. not (str_eq b.stream_id e.stream_id) || ltb b.sequence r.sequence) events
        ≡ true =
      sequence-le-max_sequence e.stream_id r.sequence events (rw unnumbered (omega arith)) in
    (rw (no_conflict r events (rw (str_eq_of_ne e.event_id "" named) new) above) refl, above)

found-conflicts :
    (e row : Event) (events : List Event)
    → find_first (is_event e.event_id e.stream_id) events ≡ some row
    → any (conflicts e) events ≡ true
unfolding conflicts is_event
found-conflicts e row [] h = cc
found-conflicts e row (b ∷ events) h = ground (arith, found-conflicts e row events)

insert_found :
    (e row : Event) (events : List Event)
    → find_first (is_event e.event_id e.stream_id) events ≡ some row
    → insert_event e events ≡ (events, some (record e { sequence = row.sequence }))
unfolding insert_event
insert_found e row events h = rw (found-conflicts e row events h, h) refl

found_head :
    (e : Event) (events : List Event)
    → find_first (is_event e.event_id e.stream_id) (e ∷ events) ≡ some e
unfolding is_event
found_head e events = rw (str_eq_refl e.event_id, str_eq_refl e.stream_id) refl

found_after :
    (e : Event) (events events' : List Event) {r : Event}
    → insert_event e events ≡ (events', some r)
    → (row : Event) × (find_first (is_event e.event_id e.stream_id) events' ≡ some row)
      × (row.sequence ≡ r.sequence)
unfolding insert_event
found_after e events events' {r} h = elim (Bool-cases (any (conflicts e) events)) [
  | inl c ↦ elim (Option-cases (find_first (is_event e.event_id e.stream_id) events)) [
    | inl n ↦ absurd (ground arith)
    | inr (row, s) ↦ (row, ground arith, ground arith)
  ]
  | inr c ↦ (
    e,
    subst (λ t. find_first (is_event e.event_id e.stream_id) t ≡ some e) {x = e ∷ events}
        (ground arith) (found_head e events),
    ground arith,
  )
]

-- An event with an id that is added again, after a first attempt that succeeded, is not recorded
-- again: the retry gets the sequence number of the first attempt.
pub add_event_again :
    (fresh fresh' : String) (now later : ℕ) (e : Event) (events events' : List Event) {r : Event}
    → e.event_id ≢ ""
    → add_event fresh now e events ≡ (events', some r)
    → (r' : Event) × (add_event fresh' later e events' ≡ (events', some r'))
      × (r'.sequence ≡ r.sequence)
unfolding add_event complete_event
add_event_again fresh fresh' now later e events events' {r} named h =
    let (row, s, q) = found_after (complete_event fresh now e events) events events' h in
    (
      record (complete_event fresh' later e events') { sequence = row.sequence },
      insert_found (complete_event fresh' later e events') row events' (
          subst (λ i. find_first (is_event i e.stream_id) events' ≡ some row)
            (keeps_id fresh now events ∙ sym (keeps_id fresh' later events')) s),
      q,
    )
  where
    keeps_id :
        (f : String) (n : ℕ) (log : List Event) → (complete_event f n e log).event_id ≡ e.event_id
    keeps_id f n log = rw (str_eq_of_ne e.event_id "" named) refl
