-- ===== src/State/Store/Phases.antt =====
-- The phases of a run: what a new run forgets, what the roster keeps, when a shock may come.
use Prim.Native.String.{String}
use text.Mathlib.TextEquality.{eq_iff}
use alpha_swarm.Prelude.{ℕ, ◌≤◌, ◌≡◌, refl, ap, sym, ◌∙◌, true, List, [], ◌∷◌, ltb, arith}
use alpha_swarm.State.Types.{SignalType, SimulationPhase, AgentState, AgentStates}
use alpha_swarm.State.Store.{
  StateStore, set_phase, enter_phase, clear_run, reset_agents, put_agent, has_agent,
  update_agent_state, set_num_rounds, shock_window_open,
}

-- The agents on screen, in order.
abbrev pub ids : AgentStates → List String
ids [] = []
ids ((k, v) ∷ rest) = k ∷ ids rest

ids-reset_agents : (a : AgentStates) → ids (reset_agents a) ≡ ids a
unfolding reset_agents
ids-reset_agents [] = refl
ids-reset_agents ((k, v) ∷ rest) = ap (λ l. k ∷ l) (ids-reset_agents rest)

ids-put_agent :
    (k : String) (v : AgentState) (a : AgentStates)
    → has_agent k a ≡ true
    → ids (put_agent k v a) ≡ ids a
unfolding put_agent
ids-put_agent k v [] h = cc
ids-put_agent k v ((j, w) ∷ rest) h = ground (arith, eq_iff j k, ids-put_agent k v rest)

has_agent-put_agent :
    (i k : String) (v : AgentState) (a : AgentStates)
    → has_agent i a ≡ true
    → has_agent i (put_agent k v a) ≡ true
unfolding put_agent
has_agent-put_agent i k v [] h = cc
has_agent-put_agent i k v ((j, w) ∷ rest) h =
    ground (arith, eq_iff j k, eq_iff j i, eq_iff k i, has_agent-put_agent i k v rest)

has_agent-reset_agents :
    (i : String) (a : AgentStates) → has_agent i (reset_agents a) ≡ has_agent i a
unfolding reset_agents
has_agent-reset_agents i [] = refl
has_agent-reset_agents i ((j, w) ∷ rest) = ground (arith, has_agent-reset_agents i rest)

-- What reaches the agents of a store during a run.
pub data AgentWrite : Type 0 where
  decide : String → SignalType → ℕ → AgentWrite
  phase : SimulationPhase → AgentWrite

abbrev pub write : AgentWrite → ℕ → ℕ → StateStore → StateStore
write (decide agent_id signal confidence) now fresh s =
    update_agent_state agent_id signal confidence fresh s
write (phase p) now fresh s = set_phase p now fresh s

abbrev pub write_all : List AgentWrite → ℕ → ℕ → StateStore → StateStore
write_all [] now fresh s = s
write_all (w ∷ rest) now fresh s = write_all rest now fresh (write w now fresh s)

-- Every decision is an agent's of the roster.
abbrev pub OnRoster : AgentStates → List AgentWrite → Type 0
OnRoster a [] = Unit
OnRoster a (decide agent_id signal confidence ∷ rest) =
    (has_agent agent_id a ≡ true) × OnRoster a rest
OnRoster a (phase p ∷ rest) = OnRoster a rest

ids-set_phase :
    (p : SimulationPhase) (now fresh : ℕ) (s : StateStore)
    → ids (set_phase p now fresh s).agent_states ≡ ids s.agent_states
unfolding set_phase enter_phase clear_run
ids-set_phase p now fresh s = ground (arith, ids-reset_agents s.agent_states)

-- Two lists of agents with the same ids know the same agents.
has_agent-ids : (i : String) (a b : AgentStates) → ids a ≡ ids b → has_agent i a ≡ has_agent i b
has_agent-ids i [] [] e = refl
has_agent-ids i [] (x ∷ b) e = cc
has_agent-ids i (x ∷ a) [] e = cc
has_agent-ids i ((j, v) ∷ a) ((k, w) ∷ b) e = ground (arith, has_agent-ids i a b)

OnRoster-ids :
    (ws : List AgentWrite) (a b : AgentStates) → ids a ≡ ids b → OnRoster a ws → OnRoster b ws
OnRoster-ids [] a b e h = tt
OnRoster-ids (decide k sig c ∷ rest) a b e h =
    (rw (has_agent-ids k b a (sym e)) h.0, OnRoster-ids rest a b e h.1)
OnRoster-ids (phase p ∷ rest) a b e h = OnRoster-ids rest a b e h

-- The screen shows the same agents in the same order for a whole run: decisions of the roster's
-- agents and changes of phase, in any order, keep the ids as they are.
pub roster_is_stable :
    (ws : List AgentWrite) (now fresh : ℕ) (s : StateStore)
    → OnRoster s.agent_states ws
    → ids (write_all ws now fresh s).agent_states ≡ ids s.agent_states
unfolding update_agent_state
roster_is_stable [] now fresh s h = refl
roster_is_stable (decide k sig c ∷ rest) now fresh s h =
    let s1 = update_agent_state k sig c fresh s in
    let same : ids s1.agent_states ≡ ids s.agent_states = ids-put_agent k _ s.agent_states h.0 in
    roster_is_stable rest now fresh s1
      (OnRoster-ids rest s.agent_states s1.agent_states (sym same) h.1)
    ∙ same
roster_is_stable (phase p ∷ rest) now fresh s h =
    let s1 = set_phase p now fresh s in
    let same = ids-set_phase p now fresh s in
    roster_is_stable rest now fresh s1
      (OnRoster-ids rest s.agent_states s1.agent_states (sym same) h)
    ∙ same

reset_agents-ids : (a b : AgentStates) → ids a ≡ ids b → reset_agents a ≡ reset_agents b
unfolding reset_agents
reset_agents-ids [] [] e = refl
reset_agents-ids [] (x ∷ b) e = cc
reset_agents-ids (x ∷ a) [] e = cc
reset_agents-ids ((j, v) ∷ a) ((k, w) ∷ b) e = ground (arith, reset_agents-ids a b)

-- What outlives a run.
pub record SameLasting (s t : StateStore) : Type 0 where
  pub agents : ids s.agent_states ≡ ids t.agent_states
  pub round_num : s.round_num ≡ t.round_num
  pub governor_metrics : s.governor_metrics ≡ t.governor_metrics
  pub last_error : s.last_error ≡ t.last_error
  pub jobs : s.jobs ≡ t.jobs
  pub num_rounds : s.num_rounds ≡ t.num_rounds
  pub pending_shock : s.pending_shock ≡ t.pending_shock
  pub rationale_seq : s.rationale_seq ≡ t.rationale_seq

-- A new run starts from a clean slate: two stores that agree on what outlives a run are the same
-- store after SEEDING, so that nothing else of the earlier run (its clock, its windows, its
-- summaries, its shocks, its cycle and its signals) can show in the new one.
pub seeding_forgets_run :
    (now fresh : ℕ) (s t : StateStore)
    → SameLasting s t
    → set_phase SimulationPhase.seeding now fresh s ≡ set_phase SimulationPhase.seeding now fresh t
unfolding set_phase enter_phase clear_run
seeding_forgets_run now fresh s t same =
    ground (arith, reset_agents-ids s.agent_states t.agent_states same.agents)

-- Where a phase stands in a run of up to four rounds; a phase outside the rounds stands behind them.
abbrev pub position : SimulationPhase → ℕ
position SimulationPhase.seeding = 0
position SimulationPhase.round_1 = 1
position SimulationPhase.round_2 = 2
position SimulationPhase.round_3 = 3
position SimulationPhase.finalizing = 4
position SimulationPhase.complete = 5
position SimulationPhase.idle = 6
position SimulationPhase.replay = 7

-- For a run of one to four rounds, the shock window is open exactly in the phases that stand before
-- the last round, whatever the store was before.
pub shock_window_follows_phase :
    (n : ℕ) (p : SimulationPhase) (now f1 f2 : ℕ) (s : StateStore)
    → 1 ≤ n
    → n ≤ 4
    → shock_window_open (set_phase p now f2 (set_num_rounds n f1 s)) ≡ ltb (position p) n
unfolding shock_window_open set_phase enter_phase clear_run set_num_rounds
shock_window_follows_phase n p now f1 f2 s h k = ground arith
