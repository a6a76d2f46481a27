-- ===== src/Rounds/Summaries.antt =====
-- rounds.py: `compute_bracket_summaries`, before the division by the totals.
pub mod Counts
use Prim.Native.String.{String}
use text.Mathlib.Text.{◌==◌ as str_eq}
use text.Mathlib.TextEquality.{eq_iff}
use alpha_swarm.Prelude.{
  ℕ, zero, suc, ◌+◌, ◌≡◌, refl, sym, ap, subst, ◌∙◌, Bool, true, false, not, ◌&&◌, ◌||◌, Option,
  none, some, List, [], ◌∷◌, if◌then◌else◌, length, count, keep, one_if, arith, Bool-cases,
}
use alpha_swarm.Prelude.Int.{ℤ, pos, ◌+ℤ◌}
use alpha_swarm.State.Types.{SignalType}
use alpha_swarm.Dispatch.{AgentDecision}
use alpha_swarm.Rounds.{Decisions, has_failed}

-- The counters of one bracket.
pub record Tally : Type 0 where
  pub buy : ℕ
  pub sell : ℕ
  pub hold : ℕ
  pub conf_sum : ℕ
  pub sent_sum : ℤ
  pub total : ℕ

abbrev pub no_tally : Tally
no_tally = record { buy = 0; sell = 0; hold = 0; conf_sum = 0; sent_sum = pos 0; total = 0 }

-- `BracketConfig`, as far as the summaries read it
pub record Bracket : Type 0 where
  pub bracket_type : String
  pub display_name : String

pub record Summary : Type 0 where
  pub bracket : String
  pub display_name : String
  pub tally : Tally

abbrev pub is_buy : SignalType → Bool
is_buy SignalType.buy = true
is_buy SignalType.sell = false
is_buy SignalType.hold = false
is_buy SignalType.parse_error = false

abbrev pub is_sell : SignalType → Bool
is_sell SignalType.sell = true
is_sell SignalType.buy = false
is_sell SignalType.hold = false
is_sell SignalType.parse_error = false

abbrev pub is_hold : SignalType → Bool
is_hold SignalType.hold = true
is_hold SignalType.buy = false
is_hold SignalType.sell = false
is_hold SignalType.parse_error = false

abbrev pub add_if : Bool → ℕ → ℕ
add_if true n = n + 1
add_if false n = n

abbrev pub add_decision : AgentDecision → Tally → Tally
add_decision d t = record {
  buy = add_if (is_buy d.signal) t.buy;
  sell = add_if (is_sell d.signal) t.sell;
  hold = add_if (is_hold d.signal) t.hold;
  conf_sum = t.conf_sum + d.confidence;
  sent_sum = t.sent_sum +ℤ d.sentiment;
  total = t.total + 1;
}

abbrev pub Tallies : Type 0
Tallies = List (String × Tally)

-- `counts[b] = …` before the loop: a bracket that is there already starts again from nothing.
abbrev pub start_tally : String → Tallies → Tallies
start_tally b [] = (b, no_tally) ∷ []
start_tally b ((k, t) ∷ rest) =
    if str_eq k b then (k, no_tally) ∷ rest else (k, t) ∷ start_tally b rest

abbrev pub start_all : List Bracket → Tallies → Tallies
start_all [] acc = acc
start_all (b ∷ rest) acc = start_all rest (start_tally b.bracket_type acc)

abbrev pub tally_of : String → Tallies → Option Tally
tally_of b [] = none
tally_of b ((k, t) ∷ rest) = if str_eq k b then some t else tally_of b rest

abbrev pub tally_into : String → AgentDecision → Tallies → Tallies
tally_into b d [] = []
tally_into b d ((k, t) ∷ rest) =
    if str_eq k b then (k, add_decision d t) ∷ rest else (k, t) ∷ tally_into b d rest

-- `agent_bracket`, whose last entry for an id counts; ids and brackets of the personas
abbrev pub or_else : Option String → Option String → Option String
or_else none o = o
or_else (some b) o = some b

abbrev pub bracket_of : String → List (String × String) → Option String
bracket_of i [] = none
bracket_of i ((j, b) ∷ rest) = or_else (bracket_of i rest) (if str_eq j i then some b else none)

abbrev pub count_in : Option String → AgentDecision → Tallies → Tallies
count_in none d acc = acc
count_in (some b) d acc = tally_into b d acc

abbrev pub tally_one : List (String × String) → String × AgentDecision → Tallies → Tallies
tally_one personas (i, d) acc =
    if has_failed (i, d) then acc else count_in (bracket_of i personas) d acc

unfoldable pub tally_all : List (String × String) → Decisions → Tallies → Tallies
tally_all personas [] acc = acc
tally_all personas (x ∷ rest) acc = tally_all personas rest (tally_one personas x acc)

abbrev pub tally_or : Option Tally → Tally
tally_or none = no_tally
tally_or (some t) = t

-- `display_lookup`, whose last entry for a bracket counts, and the bracket's own key where it has none
abbrev pub displays : List Bracket → List (String × String)
displays [] = []
displays (b ∷ rest) = (b.bracket_type, b.display_name) ∷ displays rest

abbrev pub name_or : Option String → String → String
name_or none key = key
name_or (some name) key = name

abbrev pub shown_name : List Bracket → String → String
shown_name brackets key = name_or (bracket_of key (displays brackets)) key

abbrev pub summaries_from : List Bracket → List Bracket → Tallies → List Summary
summaries_from all [] acc = []
summaries_from all (b ∷ rest) acc =
    record {
      bracket = b.bracket_type;
      display_name = shown_name all b.bracket_type;
      tally = tally_or (tally_of b.bracket_type acc);
    }
    ∷ summaries_from all rest acc

unfoldable pub compute_bracket_summaries :
    Decisions → List (String × String) → List Bracket → List Summary
compute_bracket_summaries ds personas brackets =
    summaries_from brackets brackets (tally_all personas ds (start_all brackets []))
