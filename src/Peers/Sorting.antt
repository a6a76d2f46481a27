-- ===== src/Peers/Sorting.antt =====
-- Sorting from the highest key down: `sorted(…, key=…, reverse=True)`, which keeps the order of equal
-- keys, and `max(…, key=…)`, which takes the first of the highest.
use alpha_swarm.Prelude.{
  ℕ, ◌+◌, ◌≤◌, ◌≡◌, refl, Bool, ◌&&◌, ◌||◌, List, [], ◌∷◌, ltb, if◌then◌else◌, count, one_if,
  length, Bool-cases, inl, inr, arith,
}

-- `_sampling_key`: whether the weight has reach, and the rank of the float among all keys of the draw
pub record Key : Type 0 where
  pub reach : Bool
  pub draw : ℕ

-- The order of the pairs: no reach is behind every reach.
abbrev pub above : Key → Key → Bool
above k l = if l.reach then k.reach && ltb l.draw k.draw else k.reach || ltb l.draw k.draw

module _ {A : Type 0} (key : A → Key) where
  abbrev insert : A → List A → List A
  insert x [] = x ∷ []
  insert x (y ∷ ys) =
      let rest = insert x ys in if above (key y) (key x) then y ∷ rest else x ∷ y ∷ ys

  unfoldable pub sort_down : List A → List A
  sort_down [] = []
  sort_down (x ∷ xs) = insert x (sort_down xs)

  unfoldable pub highest : A → List A → A
  highest best [] = best
  highest best (x ∷ xs) = highest (if above (key x) (key best) then x else best) xs

  count-insert : (f : A → Bool) (x : A) (xs : List A) → count f (insert x xs) ≡ count f (x ∷ xs)
  count-insert f x [] = refl
  count-insert f x (y ∷ ys) = ground (arith, count-insert f x ys)

  pub count-sort_down : (f : A → Bool) (xs : List A) → count f (sort_down xs) ≡ count f xs
  unfolding sort_down
  count-sort_down f [] = refl
  count-sort_down f (x ∷ xs) = omega (arith, count-insert f x (sort_down xs), count-sort_down f xs)

  length-insert : (x : A) (xs : List A) → length (insert x xs) ≡ length xs + 1
  length-insert x [] = omega arith
  length-insert x (y ∷ ys) = ground (arith, length-insert x ys)

  pub length-sort_down : (xs : List A) → length (sort_down xs) ≡ length xs
  unfolding sort_down
  length-sort_down [] = refl
  length-sort_down (x ∷ xs) = omega (arith, length-insert x (sort_down xs), length-sort_down xs)

  -- The highest item is one of the list's.
  pub count-highest :
      (f : A → Bool) (best : A) (xs : List A) → one_if f (highest best xs) ≤ count f (best ∷ xs)
  unfolding highest
  count-highest f best [] = omega arith
  count-highest f best (x ∷ xs) = elim (Bool-cases (above (key x) (key best))) [
    | inl e ↦ rw e (omega (arith, count-highest f x xs))
    | inr e ↦ rw e (omega (arith, count-highest f best xs))
  ]
