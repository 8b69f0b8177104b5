-- ===== src/BuildInfo/Order.antt =====
-- Versions are totally preordered by `at_least`, and `update_available` is its strict part.
use my_wio.Base.{
  ℕ, ◌≡◌, refl, inl, inr, true, ◌&&◌, not, Option, none, some, List, [], ◌∷◌, length, arith,
  Option-cases,
}
use my_wio.Text.{Text, codes, atoi, split, take_until, trim_prefix, trim_space}
use my_wio.BuildInfo.Version.{
  Version, starts_suffix, parse_parts, parse_version, not_below, at_least, is_newer,
  update_available, supports_self_update, minimum_self_update_version,
}

-- The parser's results have as many numbers as the text has parts: three.
abbrev HasLength : ℕ → Option Version → Type 0
HasLength n none = Unit
HasLength n (some v) = length v ≡ n

parse_parts-HasLength : (parts : List Text) → HasLength (length parts) (parse_parts parts)
unfolding parse_parts
parse_parts-HasLength [] = refl
parse_parts-HasLength (part ∷ parts) = ground (arith, parse_parts-HasLength parts)

pub length-parse_version : (s : Text) {v : Version} → parse_version s ≡ some v → length v ≡ 3
unfolding parse_version
length-parse_version s h =
    let parts = split (take_until starts_suffix (trim_prefix (trim_space s) (codes "v"))) b'.' in
    ground (arith, parse_parts-HasLength parts)

not_below_refl : (v : Version) → not_below v v ≡ true
unfolding not_below
not_below_refl [] = refl
not_below_refl (c ∷ v) = ground (arith, not_below_refl v)

not_below_trans :
    (u v w : Version)
    → length u ≡ length v
    → length v ≡ length w
    → not_below u v ≡ true
    → not_below v w ≡ true
    → not_below u w ≡ true
unfolding not_below
not_below_trans [] v w p q g h = refl
not_below_trans (a ∷ u) (b ∷ v) (c ∷ w) p q g h = ground (arith, not_below_trans u v w)
not_below_trans (a ∷ u) [] w p q g h = absurd (omega arith)
not_below_trans (a ∷ u) (b ∷ v) [] p q g h = refl

is_newer-eq-not_below : (u v : Version) → length u ≡ length v → is_newer u v ≡ not (not_below u v)
unfolding is_newer not_below
is_newer-eq-not_below [] v h = refl
is_newer-eq-not_below (a ∷ u) [] h = absurd (omega arith)
is_newer-eq-not_below (a ∷ u) (b ∷ v) h = ground (arith, is_newer-eq-not_below u v)

-- Two texts that compare parse.
at_least_parsed :
    (a b : Text)
    → at_least a b ≡ true
    → (u : Version) × (v : Version) × (parse_version a ≡ some u)
      × (parse_version b ≡ some v)
      × (not_below u v ≡ true)
unfolding at_least
at_least_parsed a b h = ground arith

at_least_of_parsed :
    (a b : Text) {u v : Version}
    → parse_version a ≡ some u
    → parse_version b ≡ some v
    → at_least a b ≡ not_below u v
unfolding at_least
at_least_of_parsed a b p q = ground arith

-- `at_least` is transitive: a version that is at least a second one has passed all that the
-- second one has passed.
pub at_least_trans :
    (a b c : Text) → at_least a b ≡ true → at_least b c ≡ true → at_least a c ≡ true
at_least_trans a b c p q =
    let (u, v, ea, eb, uv) = at_least_parsed a b p in
    let (v', w, eb', ec, vw) = at_least_parsed b c q in
    ground (
      arith,
      at_least_of_parsed a c ea ec,
      not_below_trans u v w,
      length-parse_version a ea,
      length-parse_version b eb,
      length-parse_version c ec,
    )

minimum-parse_version : parse_version minimum_self_update_version ≡ some (0 ∷ 2 ∷ 0 ∷ [])
unfolding parse_version split trim_space trim_prefix take_until atoi
minimum-parse_version = refl

pub supports_self_update-eq-at_least :
    (version : Text) → supports_self_update version ≡ at_least version minimum_self_update_version
unfolding supports_self_update at_least
supports_self_update-eq-at_least version = ground (arith, minimum-parse_version)

-- `UpdateAvailable` offers exactly the valid targets that an updatable version is not at least
-- at: its own comparison loop is the strict part of the one of `atLeast`, and `SupportsSelfUpdate`
-- is `atLeast` at its minimum.
pub update_available-eq-at_least :
    (current target : Text)
    → update_available current target ≡ (
        at_least current minimum_self_update_version
        && (at_least target target && not (at_least current target)))
unfolding update_available
update_available-eq-at_least current target = elim (Option-cases (parse_version current)) [
  | inl e ↦ unfold at_least in ground (arith, supports_self_update-eq-at_least current)
  | inr (u, eu) ↦ elim (Option-cases (parse_version target)) [
    | inl e ↦ unfold at_least in ground (arith, supports_self_update-eq-at_least current)
    | inr (v, ev) ↦ ground (
      arith,
      supports_self_update-eq-at_least current,
      at_least_of_parsed target target ev ev,
      at_least_of_parsed current target eu ev,
      not_below_refl v,
      is_newer-eq-not_below u v,
      length-parse_version current eu,
      length-parse_version target ev,
    )
  ]
]
