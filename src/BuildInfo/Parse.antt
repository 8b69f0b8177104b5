-- ===== src/BuildInfo/Parse.antt =====
-- What `parse_version` accepts: three decimal numbers between dots, behind an optional "v".
use my_wio.Base.{
  ℕ, ◌≡◌, refl, ◌∙◌, true, not, none, some, [], ◌∷◌, ◌++◌, length, all, ◌+◌, ◌*◌, ◌-◌, ◌<◌, arith,
  ◌==◌, if◌then◌else◌, pos,
}
use my_wio.Text.{
  Text, codes, trim_space, trim_prefix, take_until, split, atoi, is_digit, is_space, digits_from,
  int_limit,
}
use my_wio.Text.Laws.{
  all_weaken, all-append, trim_space_of_solid, take_until_of_all, split-append, split_of_all,
  is_plain, is_solid,
}
use my_wio.BuildInfo.Version.{starts_suffix, parse_parts, parse_version}

plain_solid : (c : ℕ) → is_plain c ≡ true → is_solid c ≡ true
unfolding is_space
plain_solid c h = ground arith

plain_no_suffix : (c : ℕ) → is_plain c ≡ true → not (starts_suffix c) ≡ true
plain_no_suffix c h = ground arith

plain-trim_prefix : (s : Text) → all is_plain s ≡ true → trim_prefix s (codes "v") ≡ s
unfolding trim_prefix
plain-trim_prefix [] h = refl
plain-trim_prefix (c ∷ s) h = ground arith

-- Nothing is trimmed from a text of digits and dots.
pub plain_untrimmed :
    (s : Text)
    → all is_plain s ≡ true
    → take_until starts_suffix (trim_prefix (trim_space s) (codes "v")) ≡ s
plain_untrimmed s h =
    rw (trim_space_of_solid s (all_weaken is_plain is_solid plain_solid s h), plain-trim_prefix s h)
      (take_until_of_all starts_suffix s (all_weaken is_plain _ plain_no_suffix s h))

-- So such a text is split and read as it stands.
pub parse_version_of_plain :
    (s : Text)
    → all is_plain s ≡ true
    → parse_version s ≡ (if length (split s b'.') == 3 then parse_parts (split s b'.') else none)
unfolding parse_version
parse_version_of_plain s h = rw (plain_untrimmed s h)

-- The same behind a "v".
pub parse_version_of_v :
    (s : Text) → all is_plain s ≡ true → parse_version (b'v' ∷ s) ≡ parse_version s
unfolding parse_version is_space trim_prefix
parse_version_of_v s h = rw (
  plain_untrimmed s h,
  trim_space_of_solid (b'v' ∷ s) (all_weaken is_plain is_solid plain_solid s h),
  take_until_of_all starts_suffix s (all_weaken is_plain _ plain_no_suffix s h),
)

-- The number that a text of digits stands for, behind the digits read already.
unfoldable pub value_from : ℕ → Text → ℕ
value_from acc [] = acc
value_from acc (c ∷ s) = value_from (acc * 10 + (c - b'0')) s

abbrev pub value : Text → ℕ
value = value_from 0

-- A non-empty run of digits, with leading zeros or not, whose number is an `int`.
pub record IsNumeral (s : Text) : Type 0 where
  pub nonempty : 0 < length s
  pub digits : all is_digit s ≡ true
  pub fits : value s < int_limit

digits_from-value :
    (acc : ℕ) (s : Text) → all is_digit s ≡ true → digits_from acc s ≡ some (value_from acc s)
unfolding digits_from value_from
digits_from-value acc [] h = refl
digits_from-value acc (c ∷ s) h = ground (arith, digits_from-value (acc * 10 + (c - b'0')) s)

pub atoi_of_numeral : (s : Text) → IsNumeral s → atoi s ≡ some (pos (value s))
unfolding atoi digits_from
atoi_of_numeral [] h = absurd (omega (arith, h.nonempty))
atoi_of_numeral (c ∷ s) h = ground (arith, digits_from-value 0 (c ∷ s) h.digits)

numeral_no_dot : (s : Text) → all is_digit s ≡ true → all (λ c. not (c == b'.')) s ≡ true
numeral_no_dot s h = all_weaken is_digit _ (λ c d. ground arith) s h

numeral_plain : (s : Text) → all is_digit s ≡ true → all is_plain s ≡ true
numeral_plain s h = all_weaken is_digit _ (λ c d. ground arith) s h

module _ (major minor patch : Text) (ha : IsNumeral major) (hb : IsNumeral minor)
    (hc : IsNumeral patch) where
  abbrev release : Text
  release = major ++ (b'.' ∷ (minor ++ (b'.' ∷ patch)))

  release-plain : all is_plain release ≡ true
  release-plain = ground (
    arith,
    all-append is_plain major (b'.' ∷ (minor ++ (b'.' ∷ patch))),
    all-append is_plain minor (b'.' ∷ patch),
    numeral_plain major ha.digits,
    numeral_plain minor hb.digits,
    numeral_plain patch hc.digits,
  )

  split-release : split release b'.' ≡ major ∷ minor ∷ patch ∷ []
  split-release = rw (
    split-append major _ b'.' (numeral_no_dot major ha.digits),
    split-append minor _ b'.' (numeral_no_dot minor hb.digits),
    split_of_all patch b'.' (numeral_no_dot patch hc.digits),
  )

  -- Every release version, "v" or not, leading zeros or not, is read as its three numbers.
  pub parse_version-release :
      let version = some (value major ∷ value minor ∷ value patch ∷ []) in
      (parse_version release ≡ version) × (parse_version (b'v' ∷ release) ≡ version)
  unfolding parse_parts
  parse_version-release =
      let bare : parse_version release ≡ some (value major ∷ value minor ∷ value patch ∷ []) =
        rw (parse_version_of_plain release release-plain, split-release)
          (ground (
            arith,
            atoi_of_numeral major ha,
            atoi_of_numeral minor hb,
            atoi_of_numeral patch hc,
          )) in
      (bare, parse_version_of_v release release-plain ∙ bare)
