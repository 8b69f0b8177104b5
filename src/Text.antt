-- ===== src/Text.antt =====
-- The functions of Go's standard library on strings and decimal numbers that the control plane
-- calls: package `strings`, and `strconv.Atoi` at 64 bits. A text is its list of code points.
pub mod Laws
use Prim.Native.Char.{code}
use mathlib.Core.Option
use my_wio.Base.{
  ℕ, zero, suc, ◌+◌, ◌-◌, ◌*◌, String, Bool, true, false, ◌&&◌, ◌||◌, Option, none, some, List, [],
  ◌∷◌, reverse, leb, ltb, ◌==◌, if◌then◌else◌, ℤ, pos, negsuc, any,
}

abbrev pub Text : Type 0
Text = List ℕ

-- The code points of a literal.
abbrev pub codes : String → Text
codes String.[] = []
codes (String.◌∷◌ c s) = code c ∷ codes s

-- `unicode.IsSpace`.
unfoldable pub is_space : ℕ → Bool
is_space c =
    (leb 9 c && leb c 13)
    || c == 32
    || c == 0x85
    || c == 0xa0
    || c == 0x1680
    || (leb 0x2000 c && leb c 0x200a)
    || c == 0x2028
    || c == 0x2029
    || c == 0x202f
    || c == 0x205f
    || c == 0x3000

unfoldable pub trim_left : Text → Text
trim_left [] = []
trim_left (c ∷ s) = if is_space c then trim_left s else c ∷ s

-- `strings.TrimSpace`.
unfoldable pub trim_space : Text → Text
unfolding is_space trim_left
trim_space s = reverse (trim_left (reverse (trim_left s)))

-- What is left of a text behind a prefix, if it has that prefix.
unfoldable pub strip_prefix : Text → Text → Option Text
strip_prefix [] s = some s
strip_prefix (p ∷ ps) [] = none
strip_prefix (p ∷ ps) (c ∷ s) = if p == c then strip_prefix ps s else none

-- `strings.HasPrefix(s, prefix)`.
unfoldable pub has_prefix : Text → Text → Bool
unfolding strip_prefix
has_prefix s prefix = elim (strip_prefix prefix s) [ none ↦ false | some _ ↦ true ]

-- `strings.Contains`.
unfoldable pub contains_text : Text → Text → Bool
contains_text [] part = has_prefix [] part
contains_text (c ∷ s) part = has_prefix (c ∷ s) part || contains_text s part

-- `strings.TrimPrefix(s, prefix)` and `strings.TrimSuffix(s, suffix)`.
unfoldable pub trim_prefix : Text → Text → Text
unfolding strip_prefix
trim_prefix s prefix = elim (strip_prefix prefix s) [ none ↦ s | some rest ↦ rest ]

unfoldable pub trim_suffix : Text → Text → Text
unfolding trim_prefix
trim_suffix s suffix = reverse (trim_prefix (reverse s) (reverse suffix))

-- The part of a text before the first code point that passes the test; the whole text if none
-- does. It is `value[:cut]` for a `cut` found by `strings.IndexAny`.
unfoldable pub take_until : (ℕ → Bool) → Text → Text
take_until stop [] = []
take_until stop (c ∷ s) = let rest = take_until stop s in if stop c then [] else c ∷ rest

unfoldable pub add_to_first : ℕ → List Text → List Text
add_to_first c [] = (c ∷ []) ∷ []
add_to_first c (t ∷ ts) = (c ∷ t) ∷ ts

-- `strings.Split(s, sep)` for a separator of one code point. It never returns an empty list.
unfoldable pub split : Text → ℕ → List Text
unfolding add_to_first
split [] sep = [] ∷ []
split (c ∷ s) sep = let rest = split s sep in if c == sep then [] ∷ rest else add_to_first c rest

-- `strings.Count(s, sep)` and `strings.Contains(s, sep)` for one code point.
unfoldable pub count_of : Text → ℕ → ℕ
count_of [] sep = 0
count_of (c ∷ s) sep = let rest = count_of s sep in if c == sep then suc rest else rest

abbrev pub contains : Text → ℕ → Bool
contains s sep = any (λ c. c == sep) s

-- `strings.SplitN(s, sep, 2)`: the parts before and after the first separator, if there is one.
unfoldable pub cut_at : Text → ℕ → Option (Text × Text)
cut_at [] sep = none
cut_at (c ∷ s) sep =
    let rest : Option (Text × Text) = elim (cut_at s sep) [
      | none ↦ none
      | some (before, after) ↦ some (c ∷ before, after)
    ] in
    if c == sep then some ([], s) else rest

-- `strings.Fields`: the maximal runs of code points that are not spaces. `run` is the current
-- run, reversed.
fields_from : Text → Text → List Text
fields_from [] [] = []
fields_from [] (r ∷ run) = reverse (r ∷ run) ∷ []
fields_from (c ∷ s) [] = fields_from s (if is_space c then [] else c ∷ [])
fields_from (c ∷ s) (r ∷ run) =
    let ended = reverse (r ∷ run) ∷ fields_from s [] in
    let extended = fields_from s (c ∷ r ∷ run) in if is_space c then ended else extended

unfoldable pub fields : Text → List Text
unfolding fields_from is_space
fields s = fields_from s []

-- `unicode.ToLower` as far as its values are ASCII: besides the letters, U+0130 and U+212A have
-- an ASCII lower case. The other code points are left alone, and stay outside ASCII.
unfoldable pub to_lower : ℕ → ℕ
to_lower c =
    if leb b'A' c && leb c b'Z'
    then c + 32
    else if c == 0x130
    then b'i'
    else if c == 0x212a
    then b'k'
    else c

abbrev pub text_eq : Text → Text → Bool
text_eq [] [] = true
text_eq [] (_ ∷ _) = false
text_eq (_ ∷ _) [] = false
text_eq (a ∷ s) (b ∷ t) = a == b && text_eq s t

abbrev pub is_digit : ℕ → Bool
is_digit c = leb b'0' c && leb c b'9'

unfoldable pub digits_from : ℕ → Text → Option ℕ
digits_from acc [] = some acc
digits_from acc (c ∷ s) = if is_digit c then digits_from (acc * 10 + (c - b'0')) s else none

-- A non-empty run of decimal digits.
unfoldable pub unsigned : Text → Option ℕ
unfolding digits_from
unsigned [] = none
unsigned (c ∷ s) = digits_from 0 (c ∷ s)

-- 2^63, the number of the non-negative 64-bit integers.
abbrev pub int_limit : ℕ
int_limit = 9223372036854775808

in_int : ℕ → Option ℤ
in_int n = if ltb n int_limit then some (pos n) else none

negated : ℕ → Option ℤ
negated zero = some (pos 0)
negated (suc n) = if ltb n int_limit then some (negsuc n) else none

-- `strconv.Atoi`: an optional sign and decimal digits, `none` for its error.
unfoldable pub atoi : Text → Option ℤ
unfolding unsigned in_int negated Option.bind
atoi [] = none
atoi (c ∷ s) =
    if c == b'-'
    then Option.bind (unsigned s) negated
    else if c == b'+'
    then Option.bind (unsigned s) in_int
    else Option.bind (unsigned (c ∷ s)) in_int
