-- ===== src/Gateway/Spec.antt =====
-- What the gateway promises of turns, apart from tables and streams: an operation goes through its
-- stages in one direction, and a turn is delivered only as it leaves the first stage.
use my_wio.Base.{
  ℕ, zero, suc, ◌≤◌, String, ◌≡◌, refl, Bool, true, false, Option, none, some, str_eq, str_eq_iff,
  subst, arith, Bool-cases, inl, inr, if◌then◌else◌,
}

-- The stage of every operation that exists, and how often a turn was delivered under its id.
pub record Promise : Type 0 where
  pub stages : String → Option ℕ
  pub deliveries : String → ℕ

-- `after` is the stage of an operation some time after `before`.
abbrev pub IsLater : Option ℕ → Option ℕ → Type 0
IsLater none after = Unit
IsLater (some n) none = ⊥
IsLater (some n) (some m) = n ≤ m

pub data PromiseStep (s t : Promise) : Type 0 where
  -- Operations appear or go forward.
  moves :
      ((j : String) → IsLater (s.stages j) (t.stages j))
      → ((j : String) → t.deliveries j ≡ s.deliveries j)
      → PromiseStep s t
  -- A queued turn is delivered.
  delivers :
      (id : String)
      → s.stages id ≡ some 0
      → t.stages id ≡ some 1
      → ((j : String) → IsLater (s.stages j) (t.stages j))
      → ((j : String)
          → t.deliveries j ≡ (if str_eq id j then suc (s.deliveries j) else s.deliveries j))
      → PromiseStep s t

-- Delivered at most once, and not at all while it is queued or unknown.
unfoldable pub delivers_once : Option ℕ → ℕ → Bool
delivers_once none n = elim n [ zero ↦ true | suc _ ↦ false ]
delivers_once (some stage) n = elim n [
  | zero ↦ true
  | suc m ↦ elim m [ zero ↦ elim stage [ zero ↦ false | suc _ ↦ true ] | suc _ ↦ false ]
]

abbrev pub DeliversOnce : Promise → Type 0
DeliversOnce s = (j : String) → delivers_once (s.stages j) (s.deliveries j) ≡ true

once-IsLater :
    (a b : Option ℕ) (n : ℕ) → IsLater a b → delivers_once a n ≡ true → delivers_once b n ≡ true
unfolding delivers_once
once-IsLater none none n l h = h
once-IsLater none (some m) zero l h = refl
once-IsLater none (some m) (suc n) l h = absurd (ground arith)
once-IsLater (some k) none n l h = elim l [ ]
once-IsLater (some k) (some m) n l h = ground arith

once-delivered :
    (a b : Option ℕ) (n : ℕ)
    → a ≡ some 0
    → b ≡ some 1
    → delivers_once a n ≡ true
    → delivers_once b (suc n) ≡ true
unfolding delivers_once
once-delivered a b n x y h = ground arith

once-delivers :
    (id j : String) (s t : Promise)
    → s.stages id ≡ some 0
    → t.stages id ≡ some 1
    → str_eq id j ≡ true
    → delivers_once (s.stages j) (s.deliveries j) ≡ true
    → delivers_once (t.stages j) (suc (s.deliveries j)) ≡ true
once-delivers id j s t x y e h =
    once-delivered (s.stages j) (t.stages j) (s.deliveries j)
      (subst (λ i. s.stages i ≡ some 0) ((str_eq_iff id j).0 e) x)
      (subst (λ i. t.stages i ≡ some 1) ((str_eq_iff id j).0 e) y) h

pub PromiseStep-DeliversOnce : {s t : Promise} → PromiseStep s t → DeliversOnce s → DeliversOnce t
PromiseStep-DeliversOnce {s} {t} (moves l d) h j =
    rw (d j) (once-IsLater (s.stages j) (t.stages j) (s.deliveries j) (l j) (h j))
PromiseStep-DeliversOnce {s} {t} (delivers id x y l d) h j = elim (Bool-cases (str_eq id j)) [
  | inl e ↦ rw (d j, e) (once-delivers id j s t x y e (h j))
  | inr e ↦ rw (d j, e) (once-IsLater (s.stages j) (t.stages j) (s.deliveries j) (l j) (h j))
]

-- The promises that any number of steps lead to.
pub data PromiseRun (s : Promise) : Promise → Type 0 where
  starts : PromiseRun s s
  goes_on : {t u : Promise} → PromiseRun s t → PromiseStep t u → PromiseRun s u

pub PromiseRun-DeliversOnce : {s t : Promise} → PromiseRun s t → DeliversOnce s → DeliversOnce t
PromiseRun-DeliversOnce starts h = h
PromiseRun-DeliversOnce (goes_on r st) h = PromiseStep-DeliversOnce st (PromiseRun-DeliversOnce r h)
