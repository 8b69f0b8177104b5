-- ===== src/Gateway/Alerts/Trailing.antt =====
-- When an alert is open: exactly from the third breach in a row until the next report without one.
use my_wio.Base.{
  ℕ, suc, ◌%◌, ◌^◌, String, Bool, true, false, ◌&&◌, not, some, List, [], ◌∷◌, str_eq, str_eq_refl,
  str_eq_iff, subst, leb, ◌==◌, if◌then◌else◌, ◌≡◌, refl, sym, ◌∙◌, arith, Bool-cases, inl, inr,
  map,
}
use my_wio.Store.Table.{affected, affected_again, affected_apart}
use my_wio.Gateway.Alerts.{
  Alert, Watch, Check, is_open, count_open, resolve_open, set_breaches, open_third, next_breach,
  count_breach, evaluate_metric, Metrics, metric_checks, evaluate_metrics,
}

resolve-count :
    (server_id kind : String) (now : ℕ) (alerts : List Alert)
    → count_open server_id kind (resolve_open server_id kind now alerts) ≡ 0
unfolding count_open resolve_open is_open
resolve-count server_id kind now alerts =
    affected_again (is_open server_id kind) (is_open server_id kind)
      (λ a. record a { status = "resolved"; resolved_at = some now }) alerts (λ a h. ground arith)
      (λ a h. h)

-- The watched server and kind, and another pair.
abbrev is_same : String → String → String → String → Bool
is_same s k server_id kind = str_eq server_id s && str_eq kind k

str_common : (x a b : String) → str_eq x a ≡ true → str_eq x b ≡ true → str_eq a b ≡ true
str_common x a b h k = (str_eq_iff a b).1 (sym ((str_eq_iff x a).0 h) ∙ (str_eq_iff x b).0 k)

pair_apart :
    (s k server_id kind : String) (a : Alert)
    → is_same s k server_id kind ≡ false
    → is_open server_id kind a ≡ true
    → is_open s k a ≡ false
unfolding is_open
pair_apart s k server_id kind a apart h = elim (Bool-cases (is_open s k a)) [
  | inl e ↦ absurd (ground (arith, str_common a.server_id server_id s, str_common a.kind kind k))
  | inr e ↦ e
]

resolve_apart :
    (s k server_id kind : String) (now : ℕ) (alerts : List Alert)
    → is_same s k server_id kind ≡ false
    → count_open s k (resolve_open server_id kind now alerts) ≡ count_open s k alerts
unfolding count_open resolve_open
resolve_apart s k server_id kind now alerts apart =
    affected_apart (is_open server_id kind) (is_open s k)
      (λ a. record a { status = "resolved"; resolved_at = some now }) alerts
      (λ a. pair_apart s k server_id kind a apart) (λ a h. unfold is_open in ground arith)

open_apart :
    (s k server_id : String) (check : Check) (n : ℕ) (alerts : List Alert)
    → is_same s k server_id check.kind ≡ false
    → count_open s k (open_third server_id check n alerts) ≡ count_open s k alerts
unfolding open_third count_open affected is_open
open_apart s k server_id check n alerts apart = ground arith

-- The counter stands for the number of breaches in a row, and the alert is open from the third on.
abbrev Tracks : String → String → ℕ → Watch → Type 0
Tracks s k n w =
    (w.breaches s k ≡ n % 2 ^ 64) × (count_open s k w.alerts ≡ (if leb 3 n then 1 else 0))

third_breach : (n : ℕ) → ((suc n % 2 ^ 64 == 3) && not (leb 3 n)) ≡ (n == 2)
third_breach n = ground arith

module _ (server_id : String) (check : Check) where
  third-count :
      (n : ℕ) (alerts : List Alert)
      → count_open server_id check.kind alerts ≡ (if leb 3 n then 1 else 0)
      → count_open server_id check.kind (open_third server_id check (suc n % 2 ^ 64) alerts)
        ≡ (if leb 3 (suc n) then 1 else 0)
  unfolding open_third count_open affected is_open
  third-count n alerts c =
      ground (arith, third_breach n, str_eq_refl server_id, str_eq_refl check.kind)

  counted-Tracks :
      (n : ℕ) (w : Watch)
      → Tracks server_id check.kind n w
      → Tracks server_id check.kind
          (suc n)
          (count_breach server_id check (next_breach (w.breaches server_id check.kind)) w)
  unfolding count_breach set_breaches
  counted-Tracks n w (b, c) =
      let next : next_breach (w.breaches server_id check.kind) ≡ suc n % 2 ^ 64 =
        rw b (omega arith) in
      (rw (str_eq_refl server_id, str_eq_refl check.kind) next, rw next (third-count n w.alerts c))

  evaluate-Tracks :
      (now n : ℕ) (w : Watch)
      → Tracks server_id check.kind n w
      → Tracks server_id check.kind
          (if check.hit then suc n else 0)
          (evaluate_metric server_id now check w)
  unfolding evaluate_metric set_breaches count_breach open_third
  evaluate-Tracks now n w t = elim (Bool-cases check.hit) [
    | inl h ↦ rw h (counted-Tracks n w t)
    | inr h ↦ rw h (
      rw (str_eq_refl server_id, str_eq_refl check.kind) refl,
      resolve-count server_id check.kind now w.alerts,
    )
  ]

  apart-Tracks :
      (s k : String) (now n : ℕ) (w : Watch)
      → is_same s k server_id check.kind ≡ false
      → Tracks s k n w
      → Tracks s k n (evaluate_metric server_id now check w)
  unfolding evaluate_metric count_breach set_breaches
  apart-Tracks s k now n w apart (b, c) = elim (Bool-cases check.hit) [
    | inl h ↦
        simp (h, apart)
          (
            b,
            open_apart s k server_id check (next_breach (w.breaches server_id check.kind)) w.alerts
                  apart
                ∙ c,
          )
    | inr h ↦ rw (h, apart) (b, resolve_apart s k server_id check.kind now w.alerts apart ∙ c)
  ]

-- A check of a report of some server, at some time.
pub record Report : Type 0 where
  pub server_id : String
  pub now : ℕ
  pub check : Check

-- The reports one after the other, of all servers and kinds.
unfoldable pub evaluate_reports : List Report → Watch → Watch
evaluate_reports [] w = w
evaluate_reports (r ∷ rs) w = evaluate_reports rs (evaluate_metric r.server_id r.now r.check w)

-- How many breaches in a row the reports end with for a server and a kind, after `n` of them.
unfoldable pub breaches_in_row : String → String → ℕ → List Report → ℕ
breaches_in_row s k n [] = n
breaches_in_row s k n (r ∷ rs) =
    breaches_in_row s k
      (if str_eq r.server_id s && str_eq r.check.kind k
        then if r.check.hit then suc n else 0
        else n)
      rs

report-Tracks :
    (s k : String) (r : Report) (n : ℕ) (w : Watch)
    → Tracks s k n w
    → Tracks s k
        (if str_eq r.server_id s && str_eq r.check.kind k
          then if r.check.hit then suc n else 0
          else n)
        (evaluate_metric r.server_id r.now r.check w)
report-Tracks s k r n w t = elim (Bool-cases (is_same s k r.server_id r.check.kind)) [
  | inr apart ↦ rw apart (apart-Tracks r.server_id r.check s k r.now n w apart t)
  | inl same ↦
      let e : r.server_id ≡ s = (str_eq_iff r.server_id s).0 (ground arith) in
      let f : r.check.kind ≡ k = (str_eq_iff r.check.kind k).0 (ground arith) in
      rw same (
        subst
          (λ i.
            Tracks i k (if r.check.hit then suc n else 0)
              (evaluate_metric r.server_id r.now r.check w))
          e
          (subst
            (λ i.
              Tracks r.server_id i (if r.check.hit then suc n else 0)
                (evaluate_metric r.server_id r.now r.check w))
            f
            (evaluate-Tracks r.server_id r.check r.now n w (
              subst (λ i. Tracks i r.check.kind n w) (sym e)
                (subst (λ i. Tracks s i n w) (sym f) t)))))
]

reports-Tracks :
    (s k : String) (rs : List Report) (n : ℕ) (w : Watch)
    → Tracks s k n w
    → Tracks s k (breaches_in_row s k n rs) (evaluate_reports rs w)
unfolding evaluate_reports breaches_in_row
reports-Tracks s k [] n w t = t
reports-Tracks s k (r ∷ rs) n w t =
    reports-Tracks s k rs _ (evaluate_metric r.server_id r.now r.check w)
      (report-Tracks s k r n w t)

-- From counters at zero and no open alert, and whatever reports of all servers and kinds come one after
-- the other, a server has exactly one open alert of a kind where its last three checks of that kind or
-- more were breaches, and else none.
pub alert_open_from_third :
    (s k : String) (rs : List Report) (w : Watch)
    → w.breaches s k ≡ 0
    → count_open s k w.alerts ≡ 0
    → count_open s k (evaluate_reports rs w).alerts
      ≡ (if leb 3 (breaches_in_row s k 0 rs) then 1 else 0)
alert_open_from_third s k rs w b c = (reports-Tracks s k rs 0 w (b, c)).1

reports_of : {Percent : Type 0} → (Percent → Bool) → String → ℕ → Metrics Percent → List Report
reports_of high server_id now m =
    map (λ check. record { server_id = server_id; now = now; check = check }) (metric_checks high m)

-- The metrics of a server are the reports of their three checks.
evaluate_metrics-reports :
    {Percent : Type 0} (high : Percent → Bool) (server_id : String) (now : ℕ) (m : Metrics Percent)
    (w : Watch)
    → evaluate_metrics high server_id now m w ≡ evaluate_reports (reports_of high server_id now m) w
unfolding evaluate_metrics evaluate_reports metric_checks reports_of evaluate_metric
evaluate_metrics-reports high server_id now m w = refl
