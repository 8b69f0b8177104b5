-- ===== src/Text/Laws.antt =====
-- Laws of the text functions: what trimming, cutting and splitting do on texts of plain characters.
use mathlib.Core.List.{reverse-append, reverse-reverse}
use my_wio.Base.{
  ℕ, ◌≡◌, refl, Bool, true, ◌&&◌, ◌||◌, not, List, [], ◌∷◌, ◌++◌, reverse, ◌==◌, all, arith,
}
use my_wio.Text.{
  Text, is_space, trim_left, trim_space, take_until, add_to_first, split, is_digit, text_eq,
}

module _ {ℓ} {A : Type ℓ} (p : A → Bool) where
  pub all-append : (xs ys : List A) → all p (xs ++ ys) ≡ (all p xs && all p ys)
  all-append [] ys = refl
  all-append (x ∷ xs) ys = ground (arith, all-append xs ys)

  pub all-reverse : (xs : List A) → all p xs ≡ true → all p (reverse xs) ≡ true
  all-reverse [] h = refl
  all-reverse (x ∷ xs) h =
      rw (reverse-append (x ∷ []) xs)
        (ground (arith, all-append (reverse xs) (x ∷ []), all-reverse xs))

  -- A test that implies another one.
  pub all_weaken :
      (q : A → Bool)
      → ((x : A) → p x ≡ true → q x ≡ true)
      → (xs : List A) → all p xs ≡ true
      → all q xs ≡ true
  all_weaken q h [] a = refl
  all_weaken q h (x ∷ xs) a = ground (arith, h x, all_weaken q h xs)

abbrev pub is_solid : ℕ → Bool
is_solid c = not (is_space c)

trim_left_of_solid : (s : Text) → all is_solid s ≡ true → trim_left s ≡ s
unfolding trim_left
trim_left_of_solid [] h = refl
trim_left_of_solid (c ∷ s) h = ground arith

-- A text without spaces is not trimmed.
pub trim_space_of_solid : (s : Text) → all is_solid s ≡ true → trim_space s ≡ s
unfolding trim_space
trim_space_of_solid s h =
    rw (trim_left_of_solid s h, trim_left_of_solid (reverse s) (all-reverse is_solid s h))
      (reverse-reverse s)

-- A text with no stop is not cut.
pub take_until_of_all :
    (stop : ℕ → Bool) (s : Text) → all (λ c. not (stop c)) s ≡ true → take_until stop s ≡ s
unfolding take_until
take_until_of_all stop [] h = refl
take_until_of_all stop (c ∷ s) h = ground (arith, take_until_of_all stop s)

-- Splitting at the first separator.
pub split-append :
    (a r : Text) (sep : ℕ)
    → all (λ c. not (c == sep)) a ≡ true
    → split (a ++ (sep ∷ r)) sep ≡ a ∷ split r sep
unfolding split
split-append [] r sep h = ground arith
split-append (c ∷ a) r sep h = ground (arith, split-append a r sep)

pub split_of_all : (a : Text) (sep : ℕ) → all (λ c. not (c == sep)) a ≡ true → split a sep ≡ a ∷ []
unfolding split
split_of_all [] sep h = refl
split_of_all (c ∷ a) sep h = ground (arith, split_of_all a sep)

all-add_to_first :
    (p : ℕ → Bool) (c : ℕ) (ts : List Text)
    → all (all p) (add_to_first c ts) ≡ (p c && all (all p) ts)
unfolding add_to_first
all-add_to_first p c [] = ground arith
all-add_to_first p c (t ∷ ts) = ground arith

-- If all parts between dots are digits, the text is made of digits and dots.
abbrev pub is_plain : ℕ → Bool
is_plain c = is_digit c || c == b'.'

pub all-split : (s : Text) → all (all is_digit) (split s b'.') ≡ true → all is_plain s ≡ true
unfolding split
all-split [] h = refl
all-split (c ∷ s) h = ground (arith, all-add_to_first is_digit c (split s b'.'), all-split s)

pub text_eq-eq : (a b : Text) → text_eq a b ≡ true → a ≡ b
text_eq-eq [] [] h = refl
text_eq-eq [] (y ∷ b) h = absurd (ground arith)
text_eq-eq (x ∷ a) [] h = absurd (ground arith)
text_eq-eq (x ∷ a) (y ∷ b) h = ground (arith, text_eq-eq a b)

pub text_eq_refl : (t : Text) → text_eq t t ≡ true
text_eq_refl [] = refl
text_eq_refl (c ∷ t) = ground (arith, text_eq_refl t)
