-- ===== src/Hub/Delivery.antt =====
-- A connected subscriber misses no event.
use my_wio.Base.{
  ℕ, ◌+◌, ◌^◌, ◌≤◌, ◌<◌, ◌≡◌, ◌∙◌, sym, ap, refl, true, false, none, some, List, [], ◌∷◌, ◌++◌,
  length, arith, Option-cases, inl, inr,
}
use my_wio.Hub.{
  Hub, subscribe, unsubscribe, sent_to, is_full, send, close_stalled, taken, without_first, receive,
  Action, subscribes, unsubscribes, sends, closes, receives, act, run, published_now, published,
  received_now, received,
}
use my_wio.Store.Events.{Event}
use mathlib.Core.List.{append-nil, append_assoc}

-- Once an id is found full, it stays marked.
stalled_act : (id : ℕ) (a : Action) (h : Hub) → h.stalled id ≡ true → (act a h).stalled id ≡ true
unfolding act subscribe unsubscribe send close_stalled receive
stalled_act id subscribes h s = s
stalled_act id (unsubscribes j) h s = s
stalled_act id (sends e) h s = rw s refl
stalled_act id (closes j) h s = s
stalled_act id (receives j) h s = s

stalled_run :
    (id : ℕ) (actions : List Action) (h : Hub)
    → h.stalled id ≡ true
    → (run actions h).stalled id ≡ true
unfolding run
stalled_run id [] h s = s
stalled_run id (a ∷ actions) h s = stalled_run id actions (act a h) (stalled_act id a h s)

next_act :
    (id : ℕ) (a : Action) (h : Hub)
    → id ≤ h.next
    → h.next + 1 < 2 ^ 64
    → (id ≤ (act a h).next) × ((act a h).next ≤ h.next + 1)
unfolding act subscribe unsubscribe send close_stalled receive
next_act id subscribes h o b = (omega arith, omega arith)
next_act id (unsubscribes j) h o b = (o, omega arith)
next_act id (sends e) h o b = (o, omega arith)
next_act id (closes j) h o b = (o, omega arith)
next_act id (receives j) h o b = (o, omega arith)

-- A closed channel stays closed: its id is not given again.
closed_act :
    (id : ℕ) (a : Action) (h : Hub)
    → id ≤ h.next
    → h.next + 1 < 2 ^ 64
    → h.clients id ≡ none
    → (act a h).clients id ≡ none
unfolding act subscribe unsubscribe send close_stalled receive sent_to without_first
closed_act id subscribes h o b c = ground arith
closed_act id (unsubscribes j) h o b c = ground arith
closed_act id (sends e) h o b c = rw c refl
closed_act id (closes j) h o b c = ground arith
closed_act id (receives j) h o b c = ground arith

closed_run :
    (id : ℕ) (actions : List Action) (h : Hub)
    → id ≤ h.next
    → h.next + length actions < 2 ^ 64
    → h.clients id ≡ none
    → (run actions h).clients id ≡ none
unfolding run
closed_run id [] h o b c = c
closed_run id (a ∷ actions) h o b c =
    let (o', b') = next_act id a h o (omega arith) in
    closed_run id actions (act a h) o' (omega arith) (closed_act id a h o (omega arith) c)

-- One action keeps the channel of a connected subscriber complete.
step_complete :
    (id : ℕ) (a : Action) (h : Hub) (queue queue' : List Event)
    → id ≤ h.next
    → h.next + 1 < 2 ^ 64
    → h.clients id ≡ some queue
    → (act a h).clients id ≡ some queue'
    → (act a h).stalled id ≡ false
    → (queue ++ published_now a) ≡ (received_now id a h ++ queue')
unfolding act subscribe unsubscribe send close_stalled receive sent_to without_first published_now
    received_now is_full taken
step_complete id subscribes h queue queue' o b c c' s = ground (arith, append-nil queue)
step_complete id (unsubscribes j) h queue queue' o b c c' s = ground (arith, append-nil queue)
step_complete id (sends e) h queue queue' o b c c' s = ground arith
step_complete id (closes j) h queue queue' o b c c' s = ground (arith, append-nil queue)
step_complete id (receives j) h [] queue' o b c c' s = ground arith
step_complete id (receives j) h (e ∷ queue) queue' o b c c' s = ground (arith, append-nil queue)

-- A subscriber that is still connected at the end of a run, and not found full, has received and
-- still holds exactly what it held at the start and all that was published since, in order: the hub
-- drops no event for it. (Ids do not wrap around in the run.)
pub run_complete :
    (id : ℕ) (actions : List Action) (h : Hub) (queue queue' : List Event)
    → id ≤ h.next
    → h.next + length actions < 2 ^ 64
    → h.clients id ≡ some queue
    → (run actions h).clients id ≡ some queue'
    → (run actions h).stalled id ≡ false
    → (queue ++ published actions) ≡ (received id actions h ++ queue')
unfolding run published received
run_complete id [] h queue queue' o b c c' s = ground (arith, append-nil queue)
run_complete id (a ∷ actions) h queue queue' o b c c' s =
    let (o', b') = next_act id a h o (omega arith) in
    elim (Option-cases ((act a h).clients id)) [
      | inl e ↦ absurd (ground (arith, closed_run id actions (act a h) o' (omega arith) e))
      | inr (middle, e) ↦
          let unmarked : (act a h).stalled id ≡ false =
            ground (arith, stalled_run id actions (act a h)) in
          sym (append_assoc queue (published_now a) (published actions))
          ∙ ap (λ l. l ++ published actions)
              (step_complete id a h queue middle o (omega arith) c e unmarked)
          ∙ append_assoc (received_now id a h) middle (published actions)
          ∙ ap (λ l. received_now id a h ++ l)
              (run_complete id actions (act a h) middle queue' o' (omega arith) e c' s)
          ∙ sym (append_assoc (received_now id a h) (received id actions (act a h)) queue')
    ]
