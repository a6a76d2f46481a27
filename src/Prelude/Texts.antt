-- ===== src/Prelude/Texts.antt =====
-- Texts as lists of code points: literals, numbers in decimal, joining lines, cutting at a word.
use Prim.Native.String.{String}
use text.Mathlib.Text.{◌==◌ as str_eq}
use text.Mathlib.TextEquality.{eq_iff}
use Prim.Native.Char.{code}
use Prim.Native.Nat.{ℕ, zero, suc, ◌+◌, ◌≤◌, ◌/◌, ◌%◌}
use mathlib.Core.Path.{◌≡◌}
use mathlib.Core.Bool.{Bool, true, false}
use mathlib.Core.Option.{Option, none, some}
use mathlib.Core.List.{List, [], ◌∷◌, ◌++◌}
use native.Mathlib.Omega.{arith}
use alpha_swarm.Prelude.Lists.{length, length-append, take, length-take_le}
use alpha_swarm.Prelude.Tests.{ltb, ◌==◌, if◌then◌else◌}

abbrev pub Text : Type 0
Text = List ℕ

abbrev pub codes : String → Text
codes String.[] = []
codes (String.◌∷◌ c s) = code c ∷ codes s

-- The decimal digits of `n`, before `rest`; `n` rounds are enough.
abbrev digits_from : ℕ → ℕ → Text → Text
digits_from zero n rest = rest
digits_from (suc fuel) n rest =
    let more = digits_from fuel (n / 10) ((n % 10 + 48) ∷ rest) in
    if ltb n 10 then (n + 48) ∷ rest else more

-- `str(n)`
unfoldable pub decimal : ℕ → Text
decimal n = digits_from (suc n) n []

-- `"\n".join(lines)`
unfoldable pub join_lines : List Text → Text
join_lines [] = []
join_lines (x ∷ []) = x
join_lines (x ∷ y ∷ rest) = x ++ (10 ∷ join_lines (y ∷ rest))

abbrev pub lines_length : List Text → ℕ
lines_length [] = 0
lines_length (x ∷ rest) = length x + 1 + lines_length rest

pub length-join_lines :
    (x : Text) (rest : List Text) → length (join_lines (x ∷ rest)) ≡ length x + lines_length rest
unfolding join_lines
length-join_lines x [] = omega arith
length-join_lines x (y ∷ rest) =
    omega (arith, length-append {0} x (10 ∷ join_lines (y ∷ rest)), length-join_lines y rest)

-- What stands before the last blank, if there is one.
abbrev before_blank : Text → Option Text
before_blank [] = none
before_blank (c ∷ rest) = elim (before_blank rest) [
  | some head ↦ some (c ∷ head)
  | none ↦ if c == 32 then some [] else none
]

-- `s[:n].rsplit(" ", 1)[0]`, and `s[:n]` where that is empty
abbrev head_or : Option Text → Text → Text
head_or none whole = whole
head_or (some []) whole = whole
head_or (some (c ∷ rest)) whole = c ∷ rest

unfoldable pub cut_at_word : ℕ → Text → Text
cut_at_word n s = head_or (before_blank (take n s)) (take n s)

abbrev length_if : Option Text → ℕ
length_if none = 0
length_if (some head) = length head

before_blank_short : (s : Text) → length_if (before_blank s) ≤ length s
before_blank_short [] = omega arith
before_blank_short (c ∷ rest) = ground (arith, before_blank_short rest)

length-head_or :
    (o : Option Text) (whole : Text)
    → length_if o ≤ length whole
    → length (head_or o whole) ≤ length whole
length-head_or none whole h = omega arith
length-head_or (some []) whole h = omega arith
length-head_or (some (c ∷ rest)) whole h = h

pub length-cut_at_word : (n : ℕ) (s : Text) → length (cut_at_word n s) ≤ n
unfolding cut_at_word
length-cut_at_word n s = omega (
  arith,
  length-head_or (before_blank (take n s)) (take n s) (before_blank_short (take n s)),
  length-take_le {0} n s,
)

-- `marker in text`
abbrev starts : Text → Text → Bool
starts [] text = true
starts (c ∷ marker) [] = false
starts (c ∷ marker) (d ∷ text) = let rest = starts marker text in if c == d then rest else false

unfoldable pub contains : Text → Text → Bool
contains marker [] = starts marker []
contains marker (c ∷ text) =
    let later = contains marker text in if starts marker (c ∷ text) then true else later

unfoldable pub contains_any : List Text → Text → Bool
contains_any [] text = false
contains_any (marker ∷ rest) text =
    let later = contains_any rest text in if contains marker text then true else later

-- An id that is equal to a text is not equal to a second one.
pub other_id : (a b i : String) → str_eq a b ≡ false → str_eq a i ≡ true → str_eq b i ≡ false
other_id a b i e h = ground (arith, eq_iff a i, eq_iff b i, eq_iff a b)
