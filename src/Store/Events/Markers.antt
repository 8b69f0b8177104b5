-- ===== src/Store/Events/Markers.antt =====
-- The marker of a cancelled turn follows the latest turn event.
use my_wio.Base.{
  ℕ, String, ◌≡◌, ◌≢◌, ◌∙◌, refl, Bool, true, false, ◌||◌, not, Option, List, [], ◌∷◌, str_eq,
  str_eq_iff, subst, ltb, keep, any, all, arith,
}
use my_wio.Store.Table.{order_by, insert_by, all-order_by}
use my_wio.Store.Events.{
  Event, by_sequence_desc, is_turn_marker, is_control_cancellation, has_pending_turn_cancellation,
  complete_event, add_event,
}
use my_wio.Store.Events.Log.{add_event_new}

keep_below :
    (p : Event → Bool) (stream_id : String) (n : ℕ) (events : List Event)
    → ((e : Event) → p e ≡ true → str_eq e.stream_id stream_id ≡ true)
    → all (λ b. not (str_eq b.stream_id stream_id) || ltb b.sequence n) events ≡ true
    → all (λ b. ltb b.sequence n) (keep p events) ≡ true
keep_below p stream_id n [] own h = refl
keep_below p stream_id n (e ∷ events) own h =
    ground (arith, own e, keep_below p stream_id n events own)

insert_first :
    (r : Event) (rows : List Event)
    → all (λ b. ltb b.sequence r.sequence) rows ≡ true
    → insert_by by_sequence_desc r rows ≡ r ∷ rows
unfolding insert_by by_sequence_desc
insert_first r [] h = refl
insert_first r (s ∷ rows) h = ground arith

module _ (source_of : String → Option String) (thread_id : String) where
  own_stream : (e : Event) → is_turn_marker thread_id e ≡ true → str_eq e.stream_id thread_id ≡ true
  unfolding is_turn_marker
  own_stream e h = ground arith

  latest_first :
      (r : Event) (events : List Event)
      → is_turn_marker thread_id r ≡ true
      → all (λ b. not (str_eq b.stream_id thread_id) || ltb b.sequence r.sequence) events ≡ true
      → order_by by_sequence_desc (keep (is_turn_marker thread_id) (r ∷ events))
        ≡ r ∷ order_by by_sequence_desc (keep (is_turn_marker thread_id) events)
  unfolding order_by
  latest_first r events marks above =
      let kept = keep (is_turn_marker thread_id) events in
      let below : all (λ b. ltb b.sequence r.sequence) (order_by by_sequence_desc kept) ≡ true =
        all-order_by _ by_sequence_desc kept
        ∙ keep_below (is_turn_marker thread_id) thread_id r.sequence events own_stream above in
      rw (marks, insert_first r (order_by by_sequence_desc kept) below) refl

  latest_decides :
      (r : Event) (events : List Event)
      → is_turn_marker thread_id r ≡ true
      → all (λ b. not (str_eq b.stream_id thread_id) || ltb b.sequence r.sequence) events ≡ true
      → has_pending_turn_cancellation source_of thread_id (r ∷ events)
        ≡ is_control_cancellation source_of r
  unfolding has_pending_turn_cancellation
  latest_decides r events marks above =
      rw (has_pending_turn_cancellation, latest_first r events marks above) refl

  -- Once a turn event (a user message or a cancelled turn) with a new id and no sequence number is
  -- recorded for a thread, a cancellation is pending exactly if that event is a cancellation by the
  -- control plane: a new message clears an older marker.
  pub has_pending_turn_cancellation-add_event :
      (fresh : String) (now : ℕ) (e : Event) (events : List Event)
      → e.event_id ≢ ""
      → e.sequence ≡ 0
      → any (λ b. str_eq b.event_id e.event_id) events ≡ false
      → is_turn_marker thread_id e ≡ true
      → has_pending_turn_cancellation source_of thread_id (add_event fresh now e events).0
        ≡ is_control_cancellation source_of e
  unfolding complete_event is_turn_marker is_control_cancellation
  has_pending_turn_cancellation-add_event fresh now e events named unnumbered new marks =
      let (added, above) = add_event_new fresh now e events named unnumbered new in
      let own : e.stream_id ≡ thread_id = (str_eq_iff _ _).0 (own_stream e marks) in
      rw added (
        latest_decides (complete_event fresh now e events) events marks (
          subst
            (λ t.
              all
                (λ b.
                  not (str_eq b.stream_id t)
                  || ltb b.sequence (complete_event fresh now e events).sequence)
                events
              ≡ true)
            own above))
