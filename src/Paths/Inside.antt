-- ===== src/Paths/Inside.antt =====
-- A cleaned relative path that does not escape never climbs.
use mathlib.Core.List.{reverse-append}
use my_wio.Base.{
  ℕ, Bool, true, false, ◌||◌, ◌&&◌, ◌==◌, not, List, [], ◌∷◌, ◌++◌, reverse, if◌then◌else◌, ◌≡◌,
  refl, all, arith, Bool-cases, inl, inr,
}
use my_wio.Text.{Text, codes, split, add_to_first, text_eq, has_prefix}
use my_wio.Text.Laws.{text_eq-eq}
use my_wio.Paths.{
  is_abs, is_dots, back, step_into, steps_into, elements, join_elements, clean, escapes,
}

abbrev pub stays_down : List Text → Bool
stays_down es = all (λ e. not (is_dots e)) es

-- The elements `..` come first.
climbs_first : List Text → Bool
climbs_first [] = true
climbs_first (e ∷ es) = if is_dots e then climbs_first es else stays_down es

climbs_first-down :
    (es : List Text) (e : Text)
    → is_dots e ≡ false
    → climbs_first es ≡ true
    → climbs_first (es ++ e ∷ []) ≡ true
unfolding climbs_first
climbs_first-down [] e n h = ground arith
climbs_first-down (f ∷ es) e n h = ground (arith, climbs_first-down es e n, stays_down-down es e n)
  where
    stays_down-down :
        (es : List Text) (e : Text)
        → is_dots e ≡ false
        → stays_down es ≡ true
        → stays_down (es ++ e ∷ []) ≡ true
    stays_down-down [] e n h = ground arith
    stays_down-down (f ∷ es) e n h = ground (arith, stays_down-down es e n)

not-stays_down : (es : List Text) (e : Text) → is_dots e ≡ true → stays_down (es ++ e ∷ []) ≡ false
not-stays_down [] e d = ground arith
not-stays_down (f ∷ es) e d = ground (arith, not-stays_down es e d)

stays_down-init :
    (es : List Text) (e : Text) → stays_down (es ++ e ∷ []) ≡ true → stays_down es ≡ true
stays_down-init [] e h = refl
stays_down-init (f ∷ es) e h = ground (arith, stays_down-init es e)

climbs_first-init :
    (es : List Text) (e : Text) → climbs_first (es ++ e ∷ []) ≡ true → climbs_first es ≡ true
unfolding climbs_first
climbs_first-init [] e h = refl
climbs_first-init (f ∷ es) e h = ground (arith, climbs_first-init es e, stays_down-init es e)

climbs_first-up :
    (es : List Text) (e d : Text)
    → is_dots e ≡ true
    → is_dots d ≡ true
    → climbs_first (es ++ e ∷ []) ≡ true
    → climbs_first ((es ++ e ∷ []) ++ d ∷ []) ≡ true
unfolding climbs_first
climbs_first-up [] e d p q h = ground arith
climbs_first-up (f ∷ es) e d p q h =
    ground (arith, climbs_first-up es e d p q, not-stays_down es e p)

-- The stack is read from its last element.
abbrev IsClimbing : List Text → Type 0
IsClimbing es = climbs_first (reverse es) ≡ true

reverse-cons : (e : Text) (es : List Text) → reverse (e ∷ es) ≡ reverse es ++ e ∷ []
reverse-cons e es = reverse-append (e ∷ []) es

back-IsClimbing : (es : List Text) → IsClimbing es → IsClimbing (back false es)
unfolding back
back-IsClimbing [] h = unfold climbs_first in refl
back-IsClimbing (e ∷ es) h = elim (Bool-cases (is_dots e)) [
  | inl d ↦
      rw (d, reverse-cons (codes "..") (e ∷ es), reverse-cons e es)
        (climbs_first-up (reverse es) e (codes "..") d refl (rw (reverse-cons e es) at h))
  | inr n ↦ rw n (climbs_first-init (reverse es) e (rw (reverse-cons e es) at h))
]

step-IsClimbing :
    (es : List Text) (element : Text) → IsClimbing es → IsClimbing (step_into false es element)
unfolding step_into
step-IsClimbing es element h =
    elim (Bool-cases (text_eq element [] || text_eq element (codes "."))) [
      | inl k ↦ rw k h
      | inr k ↦ elim (Bool-cases (is_dots element)) [
        | inl d ↦ rw (k, d) (back-IsClimbing es h)
        | inr n ↦ rw (k, n, reverse-cons element es) (climbs_first-down (reverse es) element n h)
      ]
    ]

steps-IsClimbing : (path es : List Text) → IsClimbing es → IsClimbing (steps_into false es path)
unfolding steps_into
steps-IsClimbing [] es h = h
steps-IsClimbing (element ∷ path) es h =
    steps-IsClimbing path (step_into false es element) (step-IsClimbing es element h)

elements-climbs_first : (path : Text) → is_abs path ≡ false → climbs_first (elements path) ≡ true
unfolding elements
elements-climbs_first path r =
    rw r (steps-IsClimbing (split path b'/') [] (unfold climbs_first in refl))

-- A text that starts with the element `..` escapes.
escapes-dots :
    (e : Text) (es : List Text) → is_dots e ≡ true → escapes (join_elements (e ∷ es)) ≡ true
unfolding escapes join_elements has_prefix
escapes-dots e [] d = ground arith
escapes-dots e (f ∷ es) d = rw (text_eq-eq e (codes "..") d) refl

dot_escapes : escapes (codes ".") ≡ false → ⊥
unfolding escapes
dot_escapes h = ground arith

clean-empty : (path : Text) → is_abs path ≡ false → elements path ≡ [] → clean path ≡ codes "."
unfolding clean
clean-empty path r e = rw (r, e) refl

clean-cons :
    (path e : Text) (es : List Text)
    → is_abs path ≡ false
    → elements path ≡ e ∷ es
    → clean path ≡ join_elements (e ∷ es)
unfolding clean
clean-cons path e es r h = rw (r, h) refl

-- A cleaned relative path that does not escape is the join of elements none of which is `..`.
pub clean-stays_down :
    (path : Text)
    → is_abs path ≡ false
    → escapes (clean path) ≡ false
    → (clean path ≡ join_elements (elements path)) × (stays_down (elements path) ≡ true)
clean-stays_down path r h = inside (elements path) refl (elements-climbs_first path r)
  where
    inside :
        (es : List Text)
        → elements path ≡ es
        → climbs_first es ≡ true
        → (clean path ≡ join_elements es) × (stays_down es ≡ true)
    inside [] e c = absurd (dot_escapes (rw (clean-empty path r e) at h))
    inside (f ∷ es) e c = elim (Bool-cases (is_dots f)) [
      | inl d ↦ absurd (ground (arith, escapes-dots f es d, rw (clean-cons path f es r e) at h))
      | inr n ↦ (clean-cons path f es r e, unfold climbs_first in ground arith)
    ]

-- A name of one element: it has no separator.
unfoldable pub is_name : Text → Bool
is_name [] = true
is_name (c ∷ s) = not (c == b'/') && is_name s

added-is_name :
    (c : ℕ) (es : List Text)
    → (c == b'/') ≡ false
    → all is_name es ≡ true
    → all is_name (add_to_first c es) ≡ true
unfolding add_to_first is_name
added-is_name c [] e h = ground arith
added-is_name c (f ∷ es) e h = ground arith

split-is_name : (s : Text) → all is_name (split s b'/') ≡ true
unfolding split is_name
split-is_name [] = refl
split-is_name (c ∷ s) = ground (arith, added-is_name c (split s b'/'), split-is_name s)

back-is_name :
    (rooted : Bool) (es : List Text) → all is_name es ≡ true → all is_name (back rooted es) ≡ true
unfolding back is_name
back-is_name true [] h = refl
back-is_name false [] h = refl
back-is_name rooted (e ∷ es) h = ground arith

step-is_name :
    (rooted : Bool) (es : List Text) (element : Text)
    → all is_name es ≡ true
    → is_name element ≡ true
    → all is_name (step_into rooted es element) ≡ true
unfolding step_into
step-is_name rooted es element h k = ground (arith, back-is_name rooted es)

steps-is_name :
    (rooted : Bool) (path es : List Text)
    → all is_name path ≡ true
    → all is_name es ≡ true
    → all is_name (steps_into rooted es path) ≡ true
unfolding steps_into
steps-is_name rooted [] es k h = h
steps-is_name rooted (element ∷ path) es k h =
    steps-is_name rooted path (step_into rooted es element) (ground arith)
      (step-is_name rooted es element h (ground arith))

pub elements-is_name : (path : Text) → all is_name (elements path) ≡ true
unfolding elements
elements-is_name path =
    all-reverse (steps_into (is_abs path) [] (split path b'/'))
      (steps-is_name (is_abs path) (split path b'/') [] (split-is_name path) refl)
  where
    all-snoc :
        (es : List Text) (e : Text)
        → all is_name es ≡ true
        → is_name e ≡ true
        → all is_name (es ++ e ∷ []) ≡ true
    all-snoc [] e h k = ground arith
    all-snoc (f ∷ es) e h k = ground (arith, all-snoc es e)

    all-reverse : (es : List Text) → all is_name es ≡ true → all is_name (reverse es) ≡ true
    all-reverse [] h = refl
    all-reverse (e ∷ es) h =
        rw (reverse-cons e es)
          (all-snoc (reverse es) e (all-reverse es (ground arith)) (ground arith))
