-- ===== src/Goal/Watch.antt =====
-- The watch over a goal session stops it in time and its verdict stands.
use my_wio.Base.{
  ℕ, ◌≡◌, refl, ap, ◌∙◌, Bool, true, false, ◌&&◌, ◌||◌, Option, none, some, List, [], ◌∷◌, ◌++◌,
  ltb, arith,
}
use mathlib.Core.List.{append-nil, append_assoc, flatten}
use my_wio.Text.{Text, codes}
use my_wio.Goal.{
  GoalRun, is_guarded, flush_message, with_round, activity, tool_started, count_tool, check_tools,
  tool_finished, count_round, check_rounds, finish_round, record_report, result_status, Happening,
  acts, starts_tool, finishes_tool, finishes_round, reports, happen, happen_all, chunks,
}

within_limits : GoalRun → Bool
within_limits g = is_guarded g.guard_reason || (ltb g.repeated_rounds 3 && ltb g.repeated_tools 8)

-- While nothing has stopped the session, both counters of repetitions are below their limits.
unfoldable pub is_within_limits : Option GoalRun → Bool
unfolding within_limits
is_within_limits none = true
is_within_limits (some g) = within_limits g

unfoldable pub is_stopped : Option GoalRun → Bool
is_stopped none = false
is_stopped (some g) = is_guarded g.guard_reason

module _ (digest : Text → Text) (decimal : ℕ → Text) (byte_length : Text → ℕ) where
  -- Where both counters of repetitions are below their limits unless the session is stopped, the
  -- same holds after whatever happens next: the session is stopped as soon as a limit is reached.
  pub happen-is_within_limits :
      (h : Happening) (g : Option GoalRun)
      → is_within_limits g ≡ true
      → is_within_limits (happen digest decimal byte_length h g) ≡ true
  unfolding happen is_within_limits is_guarded activity flush_message with_round tool_started
      count_tool check_tools tool_finished count_round check_rounds finish_round record_report
  happen-is_within_limits (acts kind value) none w = refl
  happen-is_within_limits (starts_tool id title input) none w = refl
  happen-is_within_limits (finishes_tool id status output) none w = refl
  happen-is_within_limits finishes_round none w = refl
  happen-is_within_limits (reports report evidence) none w = refl
  happen-is_within_limits (acts kind value) (some g) w = ground arith
  happen-is_within_limits (starts_tool id title input) (some g) w = w
  happen-is_within_limits (finishes_tool id status output) (some g) w = ground arith
  happen-is_within_limits finishes_round (some g) w = ground arith
  happen-is_within_limits (reports report evidence) (some g) w = ground arith

  stopped-happen :
      (h : Happening) (g : Option GoalRun)
      → is_stopped g ≡ true
      → is_stopped (happen digest decimal byte_length h g) ≡ true
  unfolding happen is_stopped is_guarded activity flush_message with_round tool_started count_tool
      check_tools tool_finished count_round check_rounds finish_round record_report
  stopped-happen h none s = cc
  stopped-happen (acts kind value) (some g) s = ground arith
  stopped-happen (starts_tool id title input) (some g) s = s
  stopped-happen (finishes_tool id status output) (some g) s = ground arith
  stopped-happen finishes_round (some g) s = ground arith
  stopped-happen (reports report evidence) (some g) s = ground arith

  stopped-happen_all :
      (hs : List Happening) (g : Option GoalRun)
      → is_stopped g ≡ true
      → is_stopped (happen_all digest decimal byte_length hs g) ≡ true
  unfolding happen_all
  stopped-happen_all [] g s = s
  stopped-happen_all (h ∷ hs) g s =
      stopped-happen_all hs (happen digest decimal byte_length h g) (stopped-happen h g s)

  -- Once the watch has stopped a session, whatever happens afterwards, even a report of the model
  -- that the goal is completed, the result of the run is "blocked".
  pub stopped_is_blocked :
      (hs : List Happening) (g g' : GoalRun)
      → is_stopped (some g) ≡ true
      → happen_all digest decimal byte_length hs (some g) ≡ some g'
      → result_status g' ≡ "blocked"
  unfolding result_status is_stopped
  stopped_is_blocked hs g g' s e = ground (arith, stopped-happen_all hs (some g))

  one_chunk :
      (a b : Text) (g : Option GoalRun)
      → activity digest decimal byte_length
          (codes "message")
          b
          (activity digest decimal byte_length (codes "message") a g)
        ≡ activity digest decimal byte_length (codes "message") (a ++ b) g
  unfolding activity with_round
  one_chunk a b none = refl
  one_chunk a b (some g) = rw (append_assoc g.message a b) refl

  -- However the text of a message is split into chunks, the watch sees the same message.
  pub chunks-flatten :
      (c : Text) (cs : List Text) (g : Option GoalRun)
      → chunks digest decimal byte_length (c ∷ cs) g
        ≡ activity digest decimal byte_length (codes "message") (flatten (c ∷ cs)) g
  unfolding chunks flatten
  chunks-flatten c [] g = rw (append-nil c) refl
  chunks-flatten c (d ∷ cs) g =
      ap (chunks digest decimal byte_length cs) (one_chunk c d g)
      ∙ chunks-flatten (c ++ d) cs g
      ∙ ap (λ t. activity digest decimal byte_length (codes "message") t g)
          (append_assoc c d (flatten cs))
