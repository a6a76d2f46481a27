-- ===== src/Peers/Select/Fill.antt =====
-- Phase 2 of the selection: the fill under the limit and the cap of each bracket.
use Prim.Native.String.{String}
use text.Mathlib.Text.{◌==◌ as str_eq}
use text.Mathlib.TextPositions.{eq_refl}
use text.Mathlib.TextEquality.{eq_iff}
use alpha_swarm.Prelude.{
  ℕ, ◌+◌, ◌≤◌, ◌<◌, ◌≡◌, refl, ap, sym, subst, ◌⊎◌, inl, inr, Bool, true, ◌||◌, not, List, [], ◌∷◌,
  ◌++◌, leb, length, count, count-append, length-append, arith,
}
use alpha_swarm.Peers.Select.{Persona, has_id, in_bracket, held, is_chosen, fill}

same_held :
    (p : Persona) (b : String) (selected : List Persona)
    → str_eq p.bracket b ≡ true
    → held p.bracket selected ≡ held b selected
same_held p b selected e = ap (λ c. held c selected) ((eq_iff p.bracket b).0 e)

same_id :
    (p : Persona) (i : String) (selected : List Persona)
    → str_eq p.id i ≡ true
    → count (has_id p.id) selected ≡ count (has_id i) selected
same_id p i selected e = ap (λ j. count (has_id j) selected) ((eq_iff p.id i).0 e)

room_for :
    {cap : ℕ} (b : String) (p : Persona) (selected : List Persona)
    → held b selected ≤ cap
    → held p.bracket selected < cap
    → held b (selected ++ p ∷ []) ≤ cap
room_for b p selected h room =
    ground (arith, count-append (in_bracket b) selected (p ∷ []), same_held p b selected)

once_more :
    (i : String) (p : Persona) (selected : List Persona)
    → count (has_id i) selected ≤ 1
    → count (has_id p.id) selected ≡ 0
    → count (has_id i) (selected ++ p ∷ []) ≤ 1
once_more i p selected h fresh =
    ground (arith, count-append (has_id i) selected (p ∷ []), same_id p i selected)

-- a candidate that is left out although its bracket has room
abbrev pub left_out : ℕ → List Persona → Persona → Bool
left_out cap selected p = not (is_chosen p selected || leb cap (held p.bracket selected))

-- The limit is reached, or every candidate of the list is chosen or meets the cap.
abbrev pub IsComplete : ℕ → ℕ → List Persona → List Persona → Type 0
IsComplete limit cap xs r = (limit ≤ length r) ⊎ (count (left_out cap r) xs ≡ 0)

module _ (weight draw bracket_draw : String → ℕ) where
  abbrev pub filled : ℕ → ℕ → List Persona → List Persona → List Persona
  filled = fill weight draw bracket_draw

  -- The three ways of a round of the loop.
  round_cases :
      (limit cap : ℕ) (p : Persona) (rest selected : List Persona)
      → ((limit ≤ length selected) × (filled limit cap (p ∷ rest) selected ≡ selected))
        ⊎ (((is_chosen p selected || leb cap (held p.bracket selected)) ≡ true)
            × (filled limit cap (p ∷ rest) selected ≡ filled limit cap rest selected))
        ⊎ ((count (has_id p.id) selected ≡ 0)
            × (held p.bracket selected < cap)
            × (filled limit cap (p ∷ rest) selected ≡ filled limit cap rest (selected ++ p ∷ [])))
  unfolding fill
  round_cases limit cap p rest selected = ground arith

  pub fill_grows :
      (f : Persona → Bool) (limit cap : ℕ) (xs selected : List Persona)
      → count f selected ≤ count f (filled limit cap xs selected)
  unfolding fill
  fill_grows f limit cap [] selected = omega arith
  fill_grows f limit cap (p ∷ rest) selected = ground (
    arith,
    fill_grows f limit cap rest selected,
    fill_grows f limit cap rest (selected ++ p ∷ []),
    count-append f selected (p ∷ []),
  )

  -- What is added comes from the list.
  pub fill_from :
      (f : Persona → Bool) (limit cap : ℕ) (xs selected : List Persona)
      → count f (filled limit cap xs selected) ≤ count f selected + count f xs
  unfolding fill
  fill_from f limit cap [] selected = omega arith
  fill_from f limit cap (p ∷ rest) selected = ground (
    arith,
    fill_from f limit cap rest selected,
    fill_from f limit cap rest (selected ++ p ∷ []),
    count-append f selected (p ∷ []),
  )

  pub length-fill :
      (limit cap : ℕ) (xs selected : List Persona)
      → length selected ≤ limit
      → length (filled limit cap xs selected) ≤ limit
  unfolding fill
  length-fill limit cap [] selected h = h
  length-fill limit cap (p ∷ rest) selected h = ground (
    arith,
    length-fill limit cap rest selected,
    length-fill limit cap rest (selected ++ p ∷ []),
    length-append selected (p ∷ []),
  )

  pub fill_caps :
      (b : String) (limit cap : ℕ) (xs selected : List Persona)
      → held b selected ≤ cap
      → held b (filled limit cap xs selected) ≤ cap
  unfolding fill
  fill_caps b limit cap [] selected h = h
  fill_caps b limit cap (p ∷ rest) selected h = elim (round_cases limit cap p rest selected) [
    | inl (full, e) ↦ rw e h
    | inr (inl (skip, e)) ↦ rw e (fill_caps b limit cap rest selected h)
    | inr (inr (fresh, room, e)) ↦
        rw e (fill_caps b limit cap rest (selected ++ p ∷ []) (room_for b p selected h room))
  ]

  pub fill_once :
      (i : String) (limit cap : ℕ) (xs selected : List Persona)
      → count (has_id i) selected ≤ 1
      → count (has_id i) (filled limit cap xs selected) ≤ 1
  unfolding fill
  fill_once i limit cap [] selected h = h
  fill_once i limit cap (p ∷ rest) selected h = elim (round_cases limit cap p rest selected) [
    | inl (full, e) ↦ rw e h
    | inr (inl (skip, e)) ↦ rw e (fill_once i limit cap rest selected h)
    | inr (inr (fresh, room, e)) ↦
        rw e (fill_once i limit cap rest (selected ++ p ∷ []) (once_more i p selected h fresh))
  ]

  one_more :
      (limit cap : ℕ) (p : Persona) (rest r : List Persona)
      → (1 ≤ count (has_id p.id) r) ⊎ (cap ≤ held p.bracket r)
      → IsComplete limit cap rest r
      → IsComplete limit cap (p ∷ rest) r
  one_more limit cap p rest r k h = ground arith

  pub fill-IsComplete :
      (limit cap : ℕ) (xs selected : List Persona)
      → IsComplete limit cap xs (filled limit cap xs selected)
  unfolding fill
  fill-IsComplete limit cap [] selected = inr refl
  fill-IsComplete limit cap (p ∷ rest) selected = elim (round_cases limit cap p rest selected) [
    | inl (full, e) ↦ subst (IsComplete limit cap (p ∷ rest)) (sym e) (inl full)
    | inr (inl (skip, e)) ↦ subst (IsComplete limit cap (p ∷ rest)) (sym e) (
        one_more limit cap p rest (filled limit cap rest selected)
          (ground (
            arith,
            skip,
            fill_grows (has_id p.id) limit cap rest selected,
            fill_grows (in_bracket p.bracket) limit cap rest selected,
          ))
          (fill-IsComplete limit cap rest selected))
    | inr (inr (fresh, room, e)) ↦ subst (IsComplete limit cap (p ∷ rest)) (sym e) (
        one_more limit cap p rest (filled limit cap rest (selected ++ p ∷ []))
          (inl (
            ground (
              arith,
              fill_grows (has_id p.id) limit cap rest (selected ++ p ∷ []),
              count-append (has_id p.id) selected (p ∷ []),
              eq_refl p.id,
            )))
          (fill-IsComplete limit cap rest (selected ++ p ∷ [])))
  ]
