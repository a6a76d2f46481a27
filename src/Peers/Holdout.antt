-- ===== src/Peers/Holdout.antt =====
-- peers.py: the seeded subsets of a roster. What `random.Random(...).sample` draws is an argument.
use Prim.Native.String.{String, compare}
use Prim.Native.Nat.{Ordering}
use alpha_swarm.Prelude.{
  ℕ, ◌+◌, ◌-◌, ◌*◌, ◌/◌, ◌||◌, List, [], ◌∷◌, ◌++◌, ltb, leb, min, if◌then◌else◌, length, keep,
}
use alpha_swarm.Peers.Select.{Persona, in_bracket, brackets_of}

-- Round half up of `count * fraction`, with the fraction in thousandths; a bracket of two or more
-- keeps one agent outside.
unfoldable pub subset_size : ℕ → ℕ → ℕ
subset_size n fraction =
    if ltb n 2 || leb fraction 0 then 0 else min (n - 1) ((2 * n * fraction + 1000) / 2000)

abbrev insert_id : String → List String → List String
insert_id i [] = i ∷ []
insert_id i (j ∷ rest) =
    let later = insert_id i rest in
    elim (compare j i) [ Ordering.lt ↦ j ∷ later | _ ↦ i ∷ j ∷ rest ]

-- `sorted(ids)`
unfoldable pub sort_ids : List String → List String
sort_ids [] = []
sort_ids (i ∷ rest) = insert_id i (sort_ids rest)

abbrev pub ids_of : List Persona → List String
ids_of [] = []
ids_of (p ∷ rest) = p.id ∷ ids_of rest

-- The loop over the brackets; `sample bracket ids k` is the draw seeded for a bracket.
unfoldable pub draw_brackets :
    (String → List String → ℕ → List String) → List Persona → ℕ → List String → List String
draw_brackets sample personas fraction [] = []
draw_brackets sample personas fraction (b ∷ rest) =
    let ids = ids_of (keep (in_bracket b) personas) in
    let k = subset_size (length ids) fraction in
    let later = draw_brackets sample personas fraction rest in
    if leb k 0 then later else sample b (sort_ids ids) k ++ later

-- `seeded_bracket_subset`, as the list of what it puts in the set
unfoldable pub seeded_bracket_subset :
    (String → List String → ℕ → List String) → List Persona → ℕ → List String
seeded_bracket_subset sample personas fraction =
    draw_brackets sample personas fraction (brackets_of [] personas)
