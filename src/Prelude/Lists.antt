-- ===== src/Prelude/Lists.antt =====
-- Lists over the native numbers.
use Prim.Native.Nat.{ℕ, zero, suc, ◌+◌, ◌≤◌, min}
use mathlib.Core.Bool.{Bool, true, false}
use mathlib.Core.Path.{◌≡◌, refl}
use mathlib.Core.List.{List, [], ◌∷◌, ◌++◌}
use native.Mathlib.Omega.{arith}

module _ {ℓ} {A : Type ℓ} where
  abbrev pub length : List A → ℕ
  length [] = 0
  length (x ∷ xs) = suc (length xs)

  pub length-append : (xs ys : List A) → length (xs ++ ys) ≡ length xs + length ys
  length-append [] ys = omega arith
  length-append (x ∷ xs) ys = omega (arith, length-append xs ys)

module _ {ℓ} {A : Type ℓ} where
  abbrev pub take : ℕ → List A → List A
  take zero xs = []
  take (suc n) [] = []
  take (suc n) (x ∷ xs) = x ∷ take n xs

  pub length-take_le : (n : ℕ) (xs : List A) → length (take n xs) ≤ n
  length-take_le zero xs = omega arith
  length-take_le (suc n) [] = omega arith
  length-take_le (suc n) (x ∷ xs) = omega (arith, length-take_le n xs)

  pub length-take_le_length : (n : ℕ) (xs : List A) → length (take n xs) ≤ length xs
  length-take_le_length zero xs = omega arith
  length-take_le_length (suc n) [] = omega arith
  length-take_le_length (suc n) (x ∷ xs) = omega (arith, length-take_le_length n xs)

  pub length-take : (n : ℕ) (xs : List A) → length (take n xs) ≡ min n (length xs)
  length-take zero xs = omega arith
  length-take (suc n) [] = omega arith
  length-take (suc n) (x ∷ xs) = omega (arith, length-take n xs)

-- How many items pass a test, and those that do.
module _ {ℓ} {A : Type ℓ} (f : A → Bool) where
  abbrev pub one_if : A → ℕ
  one_if x = elim (f x) [ true ↦ 1 | false ↦ 0 ]

  abbrev pub count : List A → ℕ
  count [] = 0
  count (x ∷ xs) = one_if x + count xs

  abbrev pub keep : List A → List A
  keep [] = []
  keep (x ∷ xs) = let rest = keep xs in elim (f x) [ true ↦ x ∷ rest | false ↦ rest ]

  pub count-append : (xs ys : List A) → count (xs ++ ys) ≡ count xs + count ys
  count-append [] ys = omega arith
  count-append (x ∷ xs) ys = omega (arith, count-append xs ys)

  pub count-take_le : (n : ℕ) (xs : List A) → count (take n xs) ≤ count xs
  count-take_le zero xs = omega arith
  count-take_le (suc n) [] = omega arith
  count-take_le (suc n) (x ∷ xs) = omega (arith, count-take_le n xs)

  pub count-le-length : (xs : List A) → count xs ≤ length xs
  count-le-length [] = omega arith
  count-le-length (x ∷ xs) = ground (arith, count-le-length xs)

pub count-keep {ℓ} :
    {A : Type ℓ} (f g : A → Bool) (xs : List A)
    → count f (keep g xs) ≡ count (λ x. elim (f x) [ true ↦ g x | false ↦ false ]) xs
count-keep f g [] = refl
count-keep f g (x ∷ xs) = ground (arith, count-keep f g xs)

pub count_le {ℓ} :
    {A : Type ℓ} (f g : A → Bool) (xs : List A)
    → ((x : A) → f x ≡ true → g x ≡ true)
    → count f xs ≤ count g xs
count_le f g [] h = omega arith
count_le f g (x ∷ xs) h = ground (arith, h x, count_le f g xs h)

pub count_ext {ℓ} :
    {A : Type ℓ} (f g : A → Bool) (xs : List A) → ((x : A) → f x ≡ g x) → count f xs ≡ count g xs
count_ext f g [] h = refl
count_ext f g (x ∷ xs) h = ground (arith, h x, count_ext f g xs h)

pub length-count {ℓ} : {A : Type ℓ} (xs : List A) → length xs ≡ count (λ x. true) xs
length-count [] = refl
length-count (x ∷ xs) = omega (arith, length-count xs)

pub count_not-keep {ℓ} :
    {A : Type ℓ} (f : A → Bool) (xs : List A)
    → count (λ x. elim (f x) [ true ↦ false | false ↦ true ]) (keep f xs) ≡ 0
count_not-keep f [] = refl
count_not-keep f (x ∷ xs) = ground (arith, count_not-keep f xs)
