-- ===== src/Schedule/NextLaws.antt =====
-- `next` finds the first matching minute after a time, if one lies within its window.
use my_wio.Base.{
  ℕ, zero, suc, ◌+◌, ◌*◌, ◌/◌, ◌≤◌, ◌<◌, ◌≡◌, ◌≢◌, List, [], ◌∷◌, ◌↔◌, ◌⊎◌, inl, inr, refl, sym,
  ◌∙◌, subst, true, false, Option, none, some, arith, ℤ, Bool-cases, Option-cases,
}
use my_wio.Text.{Text, trim_space, fields}
use my_wio.Schedule.Calendar.{Location, minute_ns}
use my_wio.Schedule.Field.{Parsed, parsed, invalid}
use my_wio.Schedule.Cron.{
  CronSpec, Spec, every, cron, ScheduleError, parse, location_of, matches, search_from,
  search_rounds, next, next_cron, parse_fields, expand,
}

at_or_later : (c m : ℕ) → c ≤ m → (m ≡ c) ⊎ (c + 1 ≤ m)
at_or_later c m h = grind arith

module _ (spec : CronSpec) (location : Location) where
  -- What the loop returns: the first match of its window, or nothing where none matches.
  abbrev pub IsFirstMatch : ℕ → ℕ → Option ℕ → Type 0
  IsFirstMatch rounds candidate none =
      (m : ℕ) → candidate ≤ m → m < candidate + rounds → matches spec location m ≡ false
  IsFirstMatch rounds candidate (some t) =
      (candidate ≤ t)
      × (t < candidate + rounds)
      × (matches spec location t ≡ true)
      × ((m : ℕ) → candidate ≤ m → m < t → matches spec location m ≡ false)

  missed :
      (candidate m : ℕ)
      → matches spec location candidate ≡ false
      → (candidate + 1 ≤ m → matches spec location m ≡ false)
      → candidate ≤ m
      → matches spec location m ≡ false
  missed candidate m miss later h = elim (at_or_later candidate m h) [
    | inl e ↦ rw e miss
    | inr l ↦ later l
  ]

  IsFirstMatch-miss :
      (rounds candidate : ℕ) (found : Option ℕ)
      → matches spec location candidate ≡ false
      → IsFirstMatch rounds (candidate + 1) found
      → IsFirstMatch (suc rounds) candidate found
  IsFirstMatch-miss rounds candidate none miss h =
      λ m p q. missed candidate m miss (λ l. h m l (omega arith)) p
  IsFirstMatch-miss rounds candidate (some t) miss h =
      (omega arith, omega arith, h.2, λ m p q. missed candidate m miss (λ l. h.3 m l q) p)

  pub search_from-IsFirstMatch :
      (rounds candidate : ℕ)
      → IsFirstMatch rounds candidate (search_from spec location rounds candidate)
  unfolding search_from
  search_from-IsFirstMatch zero candidate = λ m p q. absurd (omega arith)
  search_from-IsFirstMatch (suc rounds) candidate =
      elim (Bool-cases (matches spec location candidate)) [
        | inl hit ↦ rw hit (omega arith, omega arith, hit, λ m p q. absurd (omega arith))
        | inr miss ↦ rw miss (
            IsFirstMatch-miss rounds candidate _ miss
              (search_from-IsFirstMatch rounds (candidate + 1)))
      ]

-- Instants and minutes: the minutes that begin after an instant.
after_iff : (after m : ℕ) → (after < m * minute_ns) ↔ (after / minute_ns + 1 ≤ m)
after_iff after m = (λ h. omega arith, λ h. omega arith)

module _ (spec : CronSpec) (location : Location) (after : ℕ) where
  abbrev first_candidate : ℕ
  first_candidate = after / minute_ns + 1

  abbrev found : Option ℕ
  found = search_from spec location search_rounds first_candidate

  found-IsFirstMatch :
      {o : Option ℕ} → found ≡ o → IsFirstMatch spec location search_rounds first_candidate o
  found-IsFirstMatch e =
      subst (IsFirstMatch spec location search_rounds first_candidate) e
        (search_from-IsFirstMatch spec location search_rounds first_candidate)

  next_cron_first :
      {t : ℕ}
      → next_cron spec location after ≡ parsed t
      → (m : ℕ) × (t ≡ m * minute_ns)
        × (after < t)
        × (matches spec location m ≡ true)
        × ((k : ℕ) → after < k * minute_ns → k < m → matches spec location k ≡ false)
  unfolding next_cron
  next_cron_first h = elim (Option-cases found) [
    | inl e ↦ absurd (ground arith)
    | inr (m, e) ↦
        let (from, _, hit, misses) = found-IsFirstMatch e in
        let t_eq = ground_ok m e h in
        (
          m,
          t_eq,
          rw t_eq ((after_iff after m).1 from),
          hit,
          λ k p q. misses k ((after_iff after k).0 p) q,
        )
  ]
    where
      ground_ok :
          (m : ℕ)
          → found ≡ some m
          → {t : ℕ} → next_cron spec location after ≡ parsed t
          → t ≡ m * minute_ns
      ground_ok m e h = ground arith

parse_fields-no_every : (parts : List Text) {d : ℕ} → parse_fields parts ≢ parsed (every d)
unfolding parse_fields
parse_fields-no_every [] h = cc
parse_fields-no_every (_ ∷ []) h = cc
parse_fields-no_every (_ ∷ _ ∷ []) h = cc
parse_fields-no_every (_ ∷ _ ∷ _ ∷ []) h = cc
parse_fields-no_every (_ ∷ _ ∷ _ ∷ _ ∷ []) h = cc
parse_fields-no_every (m ∷ h ∷ d ∷ mo ∷ w ∷ []) e = ground arith
parse_fields-no_every (_ ∷ _ ∷ _ ∷ _ ∷ _ ∷ _ ∷ _) h = cc

module _ (parse_duration : Text → Option ℤ) (load_location : Text → Option Location)
    (expression timezone : Text) (after : ℕ) where
  pub parse-every :
      {d : ℕ} → parse parse_duration load_location expression ≡ parsed (every d) → minute_ns ≤ d
  unfolding parse
  parse-every {d} h =
      ground (arith, parse_fields-no_every (fields (expand (trim_space expression))) {d = d})

  abbrev next_run : Parsed ScheduleError ℕ
  next_run = next parse_duration load_location expression timezone after

  module _ {spec : CronSpec} {location : Location}
      (read : parse parse_duration load_location expression ≡ parsed (cron spec))
      (located : location_of parse_duration load_location timezone ≡ parsed location) where
    next-next_cron : next_run ≡ next_cron spec location after
    unfolding next
    next-next_cron = rw (read, located)

    -- A next run of a cron expression that parses, in a known location, is a whole minute after the
    -- given time; the expression matches it and no earlier whole minute after that time.
    pub next_first :
        {t : ℕ}
        → next_run ≡ parsed t
        → (m : ℕ) × (t ≡ m * minute_ns)
          × (after < t)
          × (matches spec location m ≡ true)
          × ((k : ℕ) → after < k * minute_ns → k < m → matches spec location k ≡ false)
    next_first h = next_cron_first spec location after (sym next-next_cron ∙ h)

  -- Whatever the expression, a next run lies strictly after the time it is asked for: a task that
  -- has been claimed is not due again at the same instant.
  pub next_after : {t : ℕ} → next_run ≡ parsed t → after < t
  unfolding next
  next_after {t} h = go (parse parse_duration load_location expression) refl
    where
      located :
          (spec : CronSpec)
          → parse parse_duration load_location expression ≡ parsed (cron spec)
          → (l : Parsed ScheduleError Location)
          → location_of parse_duration load_location timezone ≡ l
          → after < t
      located spec p (parsed location) l = (next_first p l h).2
      located spec p (invalid e) l = ground arith

      go :
          (r : Parsed ScheduleError Spec)
          → parse parse_duration load_location expression ≡ r
          → after < t
      go (invalid e) p = ground arith
      go (parsed (every d)) p = ground (arith, parse-every p)
      go (parsed (cron spec)) p =
          located spec p (location_of parse_duration load_location timezone) refl
