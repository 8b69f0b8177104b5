-- ===== src/Store/Events/Pages.antt =====
-- The pages of the event log: what is on them, in which order, and that they have no gaps.
use my_wio.Base.{
  ℕ, ◌≤◌, ◌≡◌, ◌∙◌, sym, refl, Bool, true, false, ◌&&◌, not, List, [], ◌∷◌, leb, length, keep, take,
  any, all, length-take_le, arith,
}
use my_wio.Store.Table.{
  order_by, length-order_by, any-order_by, all-order_by, all-keep, all-take, IsOrdered,
  order_by-IsOrdered, take-IsOrdered, any-take,
}
use my_wio.Store.Events.{Event, by_sequence, by_sequence_desc, first_page, last_page}

by_sequence-asymmetric : (a b : Event) → by_sequence a b ≡ true → by_sequence b a ≡ false
unfolding by_sequence
by_sequence-asymmetric a b h = ground arith

by_sequence-negatively_transitive :
    (a b c : Event) → by_sequence b a ≡ false → by_sequence c b ≡ false → by_sequence c a ≡ false
unfolding by_sequence
by_sequence-negatively_transitive a b c g h = ground arith

by_sequence_desc-asymmetric :
    (a b : Event) → by_sequence_desc a b ≡ true → by_sequence_desc b a ≡ false
unfolding by_sequence_desc
by_sequence_desc-asymmetric a b h = ground arith

by_sequence_desc-negatively_transitive :
    (a b c : Event)
    → by_sequence_desc b a ≡ false
    → by_sequence_desc c b ≡ false
    → by_sequence_desc c a ≡ false
unfolding by_sequence_desc
by_sequence_desc-negatively_transitive a b c g h = ground arith

any-keep :
    (p q : Event → Bool) (events : List Event)
    → any q (keep p events) ≡ any (λ e. p e && q e) events
any-keep p q [] = refl
any-keep p q (e ∷ events) = ground (arith, any-keep p q events)

module _ (p : Event → Bool) (limit : ℕ) (events : List Event) where
  abbrev chosen : List Event
  chosen = order_by by_sequence (keep p events)

  abbrev latest : List Event
  latest = order_by by_sequence_desc (keep p events)

  chosen-IsOrdered : IsOrdered by_sequence chosen
  chosen-IsOrdered =
      order_by-IsOrdered by_sequence by_sequence-asymmetric by_sequence-negatively_transitive
        (keep p events)

  latest-IsOrdered : IsOrdered by_sequence_desc latest
  latest-IsOrdered =
      order_by-IsOrdered by_sequence_desc by_sequence_desc-asymmetric
        by_sequence_desc-negatively_transitive (keep p events)

  -- A page read forwards has at most `limit` events, only ones that were asked for, in ascending
  -- order of their sequence numbers.
  pub first_page_sound :
      (length (first_page p limit events) ≤ limit)
      × (all p (first_page p limit events) ≡ true)
      × IsOrdered by_sequence (first_page p limit events)
  unfolding first_page
  first_page_sound = (
    length-take_le limit _,
    all-take p limit _ (all-order_by p by_sequence (keep p events) ∙ all-keep p events),
    take-IsOrdered by_sequence by_sequence-asymmetric by_sequence-negatively_transitive limit _
        chosen-IsOrdered,
  )

  -- A page read forwards has no gaps: up to any sequence number that the page passes, an event
  -- stands on the page exactly when it is in the log and was asked for.
  pub first_page_complete :
      (m : ℕ) (q : Event → Bool)
      → any (λ e. not (leb e.sequence m)) (first_page p limit events) ≡ true
      → any (λ e. leb e.sequence m && q e) (first_page p limit events)
        ≡ any (λ e. p e && (leb e.sequence m && q e)) events
  unfolding first_page by_sequence
  first_page_complete m q h =
      any-take by_sequence by_sequence-asymmetric by_sequence-negatively_transitive
        (λ e. leb e.sequence m) (λ a b g e. ground arith) q limit chosen chosen-IsOrdered h
      ∙ any-order_by _ by_sequence (keep p events)
      ∙ any-keep p _ events

  -- A page read backwards has at most `limit` events, only ones that were asked for, in ascending
  -- order as well.
  pub last_page_sound :
      (length (last_page p limit events) ≤ limit)
      × (all p (last_page p limit events) ≡ true)
      × IsOrdered by_sequence (last_page p limit events)
  unfolding last_page
  last_page_sound = (
    rw (length-order_by by_sequence (take limit latest)) (length-take_le limit latest),
    all-order_by p by_sequence (take limit latest)
        ∙ all-take p limit latest
            (all-order_by p by_sequence_desc (keep p events) ∙ all-keep p events),
    order_by-IsOrdered by_sequence by_sequence-asymmetric by_sequence-negatively_transitive
        (take limit latest),
  )

  -- A page read backwards is the end of the log: from any sequence number that the page passes
  -- downwards, an event stands on the page exactly when it is in the log and was asked for.
  pub last_page_complete :
      (m : ℕ) (q : Event → Bool)
      → any (λ e. not (leb m e.sequence)) (last_page p limit events) ≡ true
      → any (λ e. leb m e.sequence && q e) (last_page p limit events)
        ≡ any (λ e. p e && (leb m e.sequence && q e)) events
  unfolding last_page by_sequence_desc
  last_page_complete m q h =
      any-order_by _ by_sequence (take limit latest)
      ∙ any-take by_sequence_desc by_sequence_desc-asymmetric by_sequence_desc-negatively_transitive
          (λ e. leb m e.sequence) (λ a b g e. ground arith) q limit latest latest-IsOrdered
          (sym (any-order_by _ by_sequence (take limit latest)) ∙ h)
      ∙ any-order_by _ by_sequence_desc (keep p events)
      ∙ any-keep p _ events
