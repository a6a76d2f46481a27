-- ===== src/State/Store/Shown.antt =====
-- state.py: the state of an agent that `StateStore` shows, by its id.
use Prim.Native.String.{String}
use text.Mathlib.Text.{◌==◌ as str_eq}
use text.Mathlib.TextEquality.{eq_iff}
use alpha_swarm.Prelude.{◌≡◌, false, Option, none, some, [], ◌∷◌, if◌then◌else◌, arith}
use alpha_swarm.State.Types.{AgentState, AgentStates}
use alpha_swarm.State.Store.{put_agent}

-- `_agent_states.get(agent_id)`
abbrev pub agent_of : String → AgentStates → Option AgentState
agent_of k [] = none
agent_of k ((j, w) ∷ rest) = if str_eq j k then some w else agent_of k rest

pub agent_of-put_agent :
    (k : String) (v : AgentState) (a : AgentStates) → agent_of k (put_agent k v a) ≡ some v
unfolding put_agent
agent_of-put_agent k v [] = ground (arith, eq_iff k k)
agent_of-put_agent k v ((j, w) ∷ rest) =
    ground (arith, eq_iff k k, eq_iff j k, agent_of-put_agent k v rest)

pub agent_of-put_agent_other :
    (i k : String) (v : AgentState) (a : AgentStates)
    → str_eq k i ≡ false
    → agent_of i (put_agent k v a) ≡ agent_of i a
unfolding put_agent
agent_of-put_agent_other i k v [] h = ground (arith, h)
agent_of-put_agent_other i k v ((j, w) ∷ rest) h =
    ground (arith, h, eq_iff j k, eq_iff j i, eq_iff k i, agent_of-put_agent_other i k v rest h)
