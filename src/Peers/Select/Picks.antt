-- ===== src/Peers/Select/Picks.antt =====
-- Phase 1 of the selection: one peer from each of the first brackets.
use Prim.Native.String.{String}
use text.Mathlib.Text.{◌==◌ as str_eq}
use text.Mathlib.TextPositions.{eq_refl}
use text.Mathlib.TextEquality.{eq_iff}
use alpha_swarm.Prelude.{
  ℕ, ◌+◌, ◌≤◌, ◌≡◌, refl, ap, sym, subst, inl, inr, Bool, true, false, ◌&&◌, not, List, [], ◌∷◌,
  leb, Bool-cases, if◌then◌else◌, length, count, keep, count-append, arith,
}
use alpha_swarm.Peers.Sorting.{count-highest}
use alpha_swarm.Peers.Select.{
  Persona, in_bracket, is_in, add_bracket, brackets_of, held, agent_key, pick_from, pick_each,
}

-- how often a bracket stands in a list
abbrev pub times : String → List String → ℕ
times b bs = count (str_eq b) bs

pub is_in-times : (b : String) (bs : List String) → is_in b bs ≡ not (leb (times b bs) 0)
is_in-times b [] = ground arith
is_in-times b (c ∷ bs) = ground (arith, is_in-times b bs)

abbrev pub AreDistinct : List String → Type 0
AreDistinct bs = (b : String) → times b bs ≤ 1

add_bracket-AreDistinct :
    (c : String) (bs : List String) → AreDistinct bs → AreDistinct (add_bracket c bs)
add_bracket-AreDistinct c bs d b = ground (
  arith,
  d b,
  eq_iff b c,
  is_in-times c bs,
  is_in-times b bs,
  count-append (str_eq b) bs (c ∷ []),
)

pub brackets_of-AreDistinct :
    (seen : List String) (all : List Persona)
    → AreDistinct seen
    → AreDistinct (brackets_of seen all)
unfolding brackets_of
brackets_of-AreDistinct seen [] d = d
brackets_of-AreDistinct seen (p ∷ rest) d =
    brackets_of-AreDistinct (add_bracket p.bracket seen) rest
      (add_bracket-AreDistinct p.bracket seen d)

times-add_bracket :
    (b c : String) (bs : List String)
    → times b (add_bracket c bs) ≤ times b bs + (if str_eq b c then 1 else 0)
times-add_bracket b c bs = ground (arith, count-append (str_eq b) bs (c ∷ []))

-- Each bracket of `members` has a candidate.
pub brackets_of-held :
    (b : String) (seen : List String) (all : List Persona)
    → times b (brackets_of seen all) ≤ times b seen + held b all
unfolding brackets_of
brackets_of-held b seen [] = omega arith
brackets_of-held b seen (p ∷ rest) = ground (
  arith,
  brackets_of-held b (add_bracket p.bracket seen) rest,
  times-add_bracket b p.bracket seen,
  eq_iff b p.bracket,
  eq_iff p.bracket b,
)

is_in_same : (i j : String) (bs : List String) → str_eq i j ≡ true → is_in i bs ≡ is_in j bs
is_in_same i j bs e = ap (λ k. is_in k bs) ((eq_iff i j).0 e)

head_not_in : (b : String) (bs : List String) → AreDistinct (b ∷ bs) → is_in b bs ≡ false
head_not_in b bs d = ground (arith, d b, eq_refl b, is_in-times b bs)

tail-AreDistinct : (b : String) (bs : List String) → AreDistinct (b ∷ bs) → AreDistinct bs
tail-AreDistinct b bs d c = ground (arith, d c)

-- the candidates of one bracket and those of others that do not include it
split_bracket :
    (f : Persona → Bool) (b : String) (bs : List String) (all : List Persona)
    → is_in b bs ≡ false
    → count f (keep (in_bracket b) all) + count (λ p. f p && is_in p.bracket bs) all
      ≤ count (λ p. f p && is_in p.bracket (b ∷ bs)) all
split_bracket f b bs [] h = omega arith
split_bracket f b bs (p ∷ all) h =
    ground (arith, split_bracket f b bs all h, is_in_same p.bracket b bs)

other_bracket :
    (b c : String) (all : List Persona)
    → str_eq b c ≡ false
    → count (in_bracket b) (keep (in_bracket c) all) ≡ 0
other_bracket b c [] h = refl
other_bracket b c (p ∷ all) h =
    ground (arith, other_bracket b c all h, eq_iff p.bracket b, eq_iff p.bracket c, eq_iff b c)

own_bracket :
    (b c : String) (all : List Persona)
    → str_eq b c ≡ true
    → count (λ p. not (in_bracket b p)) (keep (in_bracket c) all) ≡ 0
own_bracket b c [] h = refl
own_bracket b c (p ∷ all) h =
    ground (arith, own_bracket b c all h, eq_iff p.bracket b, eq_iff p.bracket c, eq_iff b c)

length-keep : {A : Type 0} (f : A → Bool) (xs : List A) → length (keep f xs) ≡ count f xs
length-keep f [] = refl
length-keep f (x ∷ xs) = ground (arith, length-keep f xs)

module _ (weight draw bracket_draw : String → ℕ) where
  -- The pick of a bracket is one of its candidates.
  pick_from-le :
      (f : Persona → Bool) (members later : List Persona)
      → count f (pick_from weight draw bracket_draw members later) ≤ count f members + count f later
  pick_from-le f [] later = omega arith
  pick_from-le f (p ∷ rest) later =
      omega (arith, count-highest (agent_key weight draw bracket_draw) f p rest)

  pick_from_one :
      (f : Persona → Bool) (members later : List Persona)
      → (count f later ≤ count f (pick_from weight draw bracket_draw members later))
        × (count f (pick_from weight draw bracket_draw members later) ≤ 1 + count f later)
  pick_from_one f [] later = omega arith
  pick_from_one f (p ∷ rest) later = ground arith

  pick_from_own :
      (f : Persona → Bool) (members later : List Persona)
      → count (λ p. not (f p)) members ≡ 0
      → 1 ≤ length members
      → 1 ≤ count f (pick_from weight draw bracket_draw members later)
  pick_from_own f [] later h k = omega arith
  pick_from_own f (p ∷ rest) later h k =
      ground (arith, count-highest (agent_key weight draw bracket_draw) (λ q. not (f q)) p rest)

  length-pick_from :
      (members later : List Persona)
      → length (pick_from weight draw bracket_draw members later) ≤ 1 + length later
  length-pick_from [] later = omega arith
  length-pick_from (p ∷ rest) later = omega arith

  abbrev pub picks : List Persona → List String → List Persona
  picks = pick_each weight draw bracket_draw

  pub picks-le :
      (f : Persona → Bool) (all : List Persona) (bs : List String)
      → AreDistinct bs
      → count f (picks all bs) ≤ count (λ p. f p && is_in p.bracket bs) all
  unfolding pick_each
  picks-le f all [] d = omega arith
  picks-le f all (b ∷ bs) d = omega (
    arith,
    pick_from-le f (keep (in_bracket b) all) (picks all bs),
    picks-le f all bs (λ c. tail-AreDistinct b bs d c),
    split_bracket f b bs all (head_not_in b bs d),
  )

  pub picks-held_le :
      (b : String) (all : List Persona) (bs : List String) → held b (picks all bs) ≤ times b bs
  unfolding pick_each
  picks-held_le b all [] = omega arith
  picks-held_le b all (c ∷ bs) = ground (
    arith,
    pick_from-le (in_bracket b) (keep (in_bracket c) all) (picks all bs),
    pick_from_one (in_bracket b) (keep (in_bracket c) all) (picks all bs),
    other_bracket b c all,
    picks-held_le b all bs,
  )

  pub picks-held_ge :
      (b : String) (all : List Persona) (bs : List String)
      → is_in b bs ≡ true
      → 1 ≤ held b all
      → 1 ≤ held b (picks all bs)
  unfolding pick_each
  picks-held_ge b all [] e h = ground arith
  picks-held_ge b all (c ∷ bs) e h = elim (Bool-cases (str_eq b c)) [
    | inl s ↦
        pick_from_own (in_bracket b) (keep (in_bracket c) all) (picks all bs)
          (own_bracket b c all s)
          (subst (λ n. 1 ≤ n) (sym (length-keep (in_bracket c) all))
            (subst (λ d. 1 ≤ held d all) ((eq_iff b c).0 s) h))
    | inr s ↦ omega (
      arith,
      picks-held_ge b all bs (ground arith) h,
      (pick_from_one (in_bracket b) (keep (in_bracket c) all) (picks all bs)).0,
    )
  ]

  pub length-picks : (all : List Persona) (bs : List String) → length (picks all bs) ≤ length bs
  unfolding pick_each
  length-picks all [] = omega arith
  length-picks all (b ∷ bs) =
      ground (arith, length-picks all bs, length-pick_from (keep (in_bracket b) all) (picks all bs))
