-- ===== src/Peers/Select.antt =====
-- peers.py: `select_diverse_peers`. The random numbers and the weights come in as the keys' parts: the
-- rank of each key's float among those of the draw, and each weight as a natural, 0 where `_reach` is
-- 0. The ids of a roster are distinct, so a candidate stands for its id and the dicts of the source are
-- functions of the candidate.
pub mod Picks
pub mod Fill
pub mod Fair
use Prim.Native.String.{String}
use text.Mathlib.Text.{◌==◌ as str_eq}
use alpha_swarm.Prelude.{
  ℕ, zero, ◌+◌, Bool, true, false, ◌&&◌, ◌||◌, not, Option, none, some, List, [], ◌∷◌, ◌++◌, ltb,
  leb, min, if◌then◌else◌, length, take, count, keep,
}
use alpha_swarm.State.Types.{SignalType}
use alpha_swarm.Peers.Sorting.{Key, sort_down, highest}

-- `AgentPersona`, as far as the selection reads it
pub record Persona : Type 0 where
  pub id : String
  pub bracket : String
  pub influence_weight_base : ℕ

abbrev pub has_id : String → Persona → Bool
has_id i p = str_eq p.id i

abbrev pub in_bracket : String → Persona → Bool
in_bracket b p = str_eq p.bracket b

abbrev pub is_in : String → List String → Bool
is_in i [] = false
is_in i (j ∷ rest) = str_eq i j || is_in i rest

abbrev pub is_parse_error : SignalType → Bool
is_parse_error SignalType.parse_error = true
is_parse_error SignalType.buy = false
is_parse_error SignalType.sell = false
is_parse_error SignalType.hold = false

-- the ids of the decisions that failed, from the ids and signals of `prev_decisions`
abbrev pub failed_ids : List (String × SignalType) → List String
failed_ids [] = []
failed_ids ((i, s) ∷ rest) = if is_parse_error s then i ∷ failed_ids rest else failed_ids rest

abbrev pub parse_error_ids : Option (List (String × SignalType)) → List String
parse_error_ids none = []
parse_error_ids (some decisions) = failed_ids decisions

abbrev pub is_candidate : String → Option (List (String × SignalType)) → Persona → Bool
is_candidate reader prev p = not (str_eq p.id reader) && not (is_in p.id (parse_error_ids prev))

abbrev pub candidates : String → Option (List (String × SignalType)) → List Persona → List Persona
candidates reader prev personas = keep (is_candidate reader prev) personas

-- The keys of `members`: the brackets in the order in which they first appear.
abbrev pub add_bracket : String → List String → List String
add_bracket b bs = if is_in b bs then bs else bs ++ b ∷ []

unfoldable pub brackets_of : List String → List Persona → List String
brackets_of seen [] = seen
brackets_of seen (p ∷ rest) = brackets_of (add_bracket p.bracket seen) rest

abbrev pub held : String → List Persona → ℕ
held b chosen = count (in_bracket b) chosen

abbrev pub is_chosen : Persona → List Persona → Bool
is_chosen p chosen = not (leb (count (has_id p.id) chosen) 0)

module _ (weight draw bracket_draw : String → ℕ) where
  abbrev pub agent_key : Persona → Key
  agent_key p = record { reach = ltb 0 (weight p.id); draw = draw p.id }

  abbrev pub sum_weights : List Persona → ℕ
  sum_weights [] = 0
  sum_weights (p ∷ rest) = weight p.id + sum_weights rest

  abbrev pub bracket_key : List Persona → String → Key
  bracket_key all b = record {
    reach = ltb 0 (sum_weights (keep (in_bracket b) all));
    draw = bracket_draw b;
  }

  -- One peer of a bracket by key; a bracket of `members` has one at least.
  abbrev pub pick_from : List Persona → List Persona → List Persona
  pick_from [] later = later
  pick_from (p ∷ rest) later = highest agent_key p rest ∷ later

  unfoldable pub pick_each : List Persona → List String → List Persona
  pick_each all [] = []
  pick_each all (b ∷ bs) = pick_from (keep (in_bracket b) all) (pick_each all bs)

  -- The loop of phase 2. `per_bracket` and `chosen` are read off the peers selected so far.
  unfoldable pub fill : ℕ → ℕ → List Persona → List Persona → List Persona
  fill limit cap [] selected = selected
  fill limit cap (p ∷ rest) selected =
      let skip = fill limit cap rest selected in
      let add = fill limit cap rest (selected ++ p ∷ []) in
      if leb limit (length selected)
      then selected
      else if is_chosen p selected || leb cap (held p.bracket selected)
      then skip
      else add

  unfoldable pub guaranteed : ℕ → ℕ → List Persona → List Persona
  guaranteed limit min_brackets all =
      pick_each all
        (take (min min_brackets limit) (sort_down (bracket_key all) (brackets_of [] all)))

  unfoldable pub choose : ℕ → ℕ → ℕ → List Persona → List Persona
  choose limit min_brackets cap all =
      fill limit cap (sort_down agent_key all) (guaranteed limit min_brackets all)

  -- `select_diverse_peers`; none is the `ValueError`
  unfoldable pub select_diverse_peers :
      (List Persona → List Persona)
      → String
      → Option (List (String × SignalType))
      → List Persona
      → ℕ
      → ℕ
      → ℕ
      → Option (List Persona)
  select_diverse_peers shuffle reader prev personas limit min_brackets cap =
      let all = candidates reader prev personas in
      let chosen = some (shuffle (choose limit min_brackets cap all)) in
      if leb cap 0 then none else if leb limit 0 || leb (length all) 0 then some [] else chosen
