-- ===== src/Peers/Round.antt =====
-- peers.py: the peer contexts of a round, for each strategy, and `build_round_context`. The random
-- numbers of a run are an argument: for each reader and round the ranks of the sampling keys, the
-- shuffle and the plain sample, and for each bracket the sample of the holdout.
pub mod Sees
pub mod Sources
use Prim.Native.String.{String}
use text.Mathlib.Text.{◌==◌ as str_eq}
use alpha_swarm.Prelude.{
  ℕ, ◌+◌, ◌-◌, Bool, true, false, ◌&&◌, ◌||◌, not, Option, none, some, List, [], ◌∷◌, ltb, leb, min,
  if◌then◌else◌, length, keep, is_some,
}
use alpha_swarm.Prelude.Texts.{Text}
use alpha_swarm.State.Types.{SignalType}
use alpha_swarm.Peers.Select.{Persona, is_in, is_parse_error, select_diverse_peers}
use alpha_swarm.Peers.Context.{RankedPost, format_peer_context, own_prior_line}
use alpha_swarm.Peers.Holdout.{seeded_bracket_subset}

-- `AgentDecision`, as far as the next round reads it
pub record Decision : Type 0 where
  pub signal : SignalType
  pub confidence : ℕ
  pub rationale : Text
  pub cited_agents : List String

pub data PeerStrategy : Type 0 where
  no_peers random_peers stratified : PeerStrategy

-- the fields of `SimulationSettings` that the peers depend on
pub record PeerSettings : Type 0 where
  pub peer_strategy : PeerStrategy
  pub peer_limit : ℕ
  pub min_brackets : ℕ
  pub bracket_cap : ℕ
  pub personal_boost : ℕ
  pub peer_budget_chars : ℕ
  pub show_bracket_labels : Bool
  pub show_confidence : Bool
  pub control_fraction : ℕ
  pub own_prior_memory : Bool

-- What the generators of one run return, by reader and round.
pub record Draws : Type 0 where
  pub draw : String → ℕ → String → ℕ
  pub bracket_draw : String → ℕ → String → ℕ
  pub shuffle : String → ℕ → List Persona → List Persona
  pub sample : String → ℕ → List Persona → ℕ → List Persona
  pub control_sample : String → List String → ℕ → List String

abbrev pub Decisions : Type 0
Decisions = List (String × Decision)

-- `dict(prev_decisions)`: a key keeps its first place and takes its last value.
abbrev put_decision : String → Decision → Decisions → Decisions
put_decision i d [] = (i, d) ∷ []
put_decision i d ((j, e) ∷ rest) =
    if str_eq j i then (j, d) ∷ rest else (j, e) ∷ put_decision i d rest

abbrev dict_from : Decisions → Decisions → Decisions
dict_from acc [] = acc
dict_from acc ((i, d) ∷ rest) = dict_from (put_decision i d acc) rest

unfoldable pub to_dict : Decisions → Decisions
to_dict prev = dict_from [] prev

abbrev pub decision_of : String → Decisions → Option Decision
decision_of i [] = none
decision_of i ((j, d) ∷ rest) = if str_eq j i then some d else decision_of i rest

abbrev pub signals_of : Decisions → List (String × SignalType)
signals_of [] = []
signals_of ((i, d) ∷ rest) = (i, d.signal) ∷ signals_of rest

abbrev post_from : Option Decision → Persona → List RankedPost → List RankedPost
post_from none p later = later
post_from (some d) p later =
    record {
      agent_id = p.id;
      bracket = p.bracket;
      signal = d.signal;
      confidence = d.confidence;
      content = d.rationale;
    }
    ∷ later

-- The posts of the peers that decided.
unfoldable pub posts_of : Decisions → List Persona → List RankedPost
posts_of dict [] = []
posts_of dict (p ∷ rest) = post_from (decision_of p.id dict) p (posts_of dict rest)

abbrev base_weight : String → List Persona → ℕ
base_weight i [] = 0
base_weight i (p ∷ rest) = if str_eq p.id i then p.influence_weight_base else base_weight i rest

abbrev cited_by : Option Decision → List String
cited_by none = []
cited_by (some d) = d.cited_agents

-- `weights` of one reader, by author
unfoldable pub reader_weight :
    PeerSettings → (String → ℕ) → List Persona → Decisions → String → String → ℕ
reader_weight sim global_citation_weights personas dict reader author =
    base_weight author personas
    + global_citation_weights author
    + (if is_in author (cited_by (decision_of reader dict)) then sim.personal_boost else 0)

abbrev block : Text → Option Text
block [] = none
block (c ∷ rest) = some (c ∷ rest)

abbrev both :
    Option (Option Text × List String)
    → Option (List (Option Text × List String))
    → Option (List (Option Text × List String))
both none rest = none
both (some x) none = none
both (some x) (some xs) = some (x ∷ xs)

abbrev pub is_decided : Option Decision → Bool
is_decided none = false
is_decided (some d) = not (is_parse_error d.signal)

-- The contexts of all readers; none when one selection fails.
abbrev pub each :
    (Persona → Option (Option Text × List String))
    → List Persona
    → Option (List (Option Text × List String))
each context [] = some []
each context (p ∷ rest) = both (context p) (each context rest)

abbrev pub blocks_of :
    List String → List Persona → List (Option Text × List String) → List (Option Text)
blocks_of control [] results = []
blocks_of control (p ∷ ps) [] = []
blocks_of control (p ∷ ps) ((b, e) ∷ rest) =
    (if is_in p.id control then none else b) ∷ blocks_of control ps rest

abbrev pub exposures_of :
    List String → List Persona → List (Option Text × List String) → List (List String)
exposures_of control [] results = []
exposures_of control (p ∷ ps) [] = []
exposures_of control (p ∷ ps) ((b, e) ∷ rest) =
    (if is_in p.id control then [] else e) ∷ exposures_of control ps rest

pub record RoundPromptContext : Type 0 where
  pub peer_blocks : List (Option Text)
  pub own_prior_lines : List (Option Text)
  pub exposures : List (List String)
  pub control_ids : List String

abbrev pub all_none : List Persona → List (Option Text)
all_none [] = []
all_none (p ∷ ps) = none ∷ all_none ps

abbrev pub all_empty : List Persona → List (List String)
all_empty [] = []
all_empty (p ∷ ps) = [] ∷ all_empty ps

abbrev pub is_first : ℕ → Decisions → Bool
is_first round_num [] = true
is_first round_num (d ∷ prev) = leb round_num 1

module _ (sanitize : Text → Text) (two_decimals : ℕ → Text) (draws : Draws)
    (sim : PeerSettings) where
  abbrev show : List RankedPost → ℕ → Option Text × List String
  show posts source_round =
      let (text, ids) =
        format_peer_context sanitize two_decimals posts source_round sim.peer_budget_chars
          sim.peer_limit sim.show_bracket_labels sim.show_confidence in
      (block text, ids)

  abbrev show_selected : Option (List Persona) → Decisions → ℕ → Option (Option Text × List String)
  show_selected none dict source_round = none
  show_selected (some peers) dict source_round = some (show (posts_of dict peers) source_round)

  -- The body of the loop of `build_peer_contexts`.
  unfoldable pub stratified_context :
      (String → ℕ) → List Persona → Decisions → ℕ → Persona → Option (Option Text × List String)
  stratified_context global_citation_weights personas dict source_round reader =
      let round_num = source_round + 1 in
      show_selected
        (select_diverse_peers (reader_weight sim global_citation_weights personas dict reader.id)
          (draws.draw reader.id round_num) (draws.bracket_draw reader.id round_num)
          (draws.shuffle reader.id round_num) reader.id (some (signals_of dict)) personas
          sim.peer_limit sim.min_brackets sim.bracket_cap)
        dict source_round

  -- `select_random_peers`
  unfoldable pub select_random_peers : List Persona → Decisions → ℕ → Persona → List Persona
  select_random_peers personas dict round_num reader =
      let eligible =
        keep (λ p. not (str_eq p.id reader.id) && is_decided (decision_of p.id dict)) personas in
      draws.sample reader.id round_num eligible (min sim.peer_limit (length eligible))

  unfoldable pub random_context :
      List Persona → Decisions → ℕ → Persona → Option (Option Text × List String)
  random_context personas dict source_round reader = some (
      show (posts_of dict (select_random_peers personas dict (source_round + 1) reader))
        source_round)

  unfoldable pub peer_contexts :
      PeerStrategy
      → (String → ℕ)
      → List Persona
      → Decisions
      → ℕ
      → Persona
      → Option (Option Text × List String)
  peer_contexts no_peers global personas dict source_round reader = some (none, [])
  peer_contexts random_peers global personas dict source_round reader =
      random_context personas dict source_round reader
  peer_contexts stratified global personas dict source_round reader =
      stratified_context global personas dict source_round reader

  abbrev prior_of : Option Decision → ℕ → Option Text
  prior_of none source_round = none
  prior_of (some d) source_round =
      own_prior_line sanitize two_decimals (some (d.signal, d.confidence, d.rationale)) source_round

  abbrev priors_of : Decisions → ℕ → List Persona → List (Option Text)
  priors_of dict source_round [] = []
  priors_of dict source_round (p ∷ ps) =
      (if sim.own_prior_memory then prior_of (decision_of p.id dict) source_round else none)
      ∷ priors_of dict source_round ps

  abbrev pub hold_out :
      List String
      → List Persona
      → Decisions
      → ℕ
      → Option (List (Option Text × List String))
      → Option RoundPromptContext
  hold_out control personas dict source_round none = none
  hold_out control personas dict source_round (some results) = some (record {
    peer_blocks = blocks_of control personas results;
    own_prior_lines = priors_of dict source_round personas;
    exposures = exposures_of control personas results;
    control_ids = control;
  })

  unfoldable pub build_round_context :
      (String → ℕ) → List Persona → Decisions → ℕ → Option RoundPromptContext
  build_round_context global personas prev round_num =
      let control = seeded_bracket_subset draws.control_sample personas sim.control_fraction in
      let dict = to_dict prev in
      if is_first round_num prev
      then some (record {
        peer_blocks = all_none personas;
        own_prior_lines = all_none personas;
        exposures = all_empty personas;
        control_ids = control;
      })
      else hold_out control personas dict (round_num - 1)
          (each (peer_contexts sim.peer_strategy global personas dict (round_num - 1)) personas)
