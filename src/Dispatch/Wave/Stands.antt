-- ===== src/Dispatch/Wave/Stands.antt =====
-- Where a task of a wave stands, where its decision comes from, and what its actions do to that.
use Prim.Native.String.{String}
use text.Mathlib.Text.{◌==◌ as str_eq}
use mathlib.Core.List.{Memᴰ}
use mathlib.Core.List.Memᴰ
use alpha_swarm.Prelude.{
  ℕ, ◌≡◌, refl, ap, ◌∙◌, ◌⊎◌, inl, inr, false, Option, none, some, List, [], ◌++◌, Bool-cases,
}
use alpha_swarm.Prelude.Texts.{Text}
use alpha_swarm.State.Types.{AgentState}
use alpha_swarm.State.Store.{StateStore, update_agent_state, push_rationale}
use alpha_swarm.State.Store.Shown.{agent_of, agent_of-put_agent, agent_of-put_agent_other}
use alpha_swarm.Dispatch.{AgentDecision, failure_decision, HardStop}
use alpha_swarm.Dispatch.Wave.{
  Task, running, was_cancelled, resolved, streamed, returned, stopped, Action, infers, fails, stops,
  writes, pushes, push_fails, cancels, Event, is_parse_error, to_write, to_push, next, write,
  on_store, raised,
}

-- What an agent's decision shows as.
abbrev pub state_of : AgentDecision → AgentState
state_of d = record { signal = some d.signal; confidence = d.confidence }

-- The store, if there is one, shows the decision as the agent's state.
abbrev pub Shows : Option StateStore → String → AgentDecision → Type 0
Shows none agent_id d = Unit
Shows (some s) agent_id d = agent_of agent_id s.agent_states ≡ some (state_of d)

module _ (Happens : Event → Type 0) where
  -- The inference of task `i` gave the decision, or failed and left the decision of a failure.
  abbrev pub Decides : ℕ → String → AgentDecision → Type 0
  Decides i agent_id d =
      Happens (i, infers d)
      ⊎ ((e : Text) × Happens (i, fails e) × (d ≡ failure_decision agent_id e))

  abbrev pub Stands : Option StateStore → List HardStop → ℕ → String → Task → Type 0
  Stands store errors i agent_id running = Unit
  Stands store errors i agent_id (resolved d) = Decides i agent_id d
  Stands store errors i agent_id (streamed d) = Decides i agent_id d × Shows store agent_id d
  Stands store errors i agent_id (returned d) = Decides i agent_id d × Shows store agent_id d
  Stands store errors i agent_id (stopped h) = Happens (i, stops h) × Memᴰ h errors
  Stands store errors i agent_id was_cancelled = Happens (i, cancels)

  -- Its own action moves a task to where it stands next.
  to_write-Stands :
      (store : Option StateStore) (errors : List HardStop) (i : ℕ) (agent_id : String)
      (d : AgentDecision)
      → Decides i agent_id d
      → Stands store errors i agent_id (to_write store d)
  to_write-Stands none errors i agent_id d h = (h, tt)
  to_write-Stands (some s) errors i agent_id d h = h

  to_push-Stands :
      (store : Option StateStore) (errors : List HardStop) (i : ℕ) (agent_id : String)
      (d : AgentDecision)
      → Decides i agent_id d
      → Shows store agent_id d
      → Stands store errors i agent_id (to_push d)
  to_push-Stands store errors i agent_id d h shows = elim (Bool-cases (is_parse_error d.signal)) [
    | inl e ↦ rw e (h, shows)
    | inr e ↦ rw e (h, shows)
  ]

  written-Shows :
      (fresh : ℕ) (agent_id : String) (d : AgentDecision) (store : Option StateStore)
      → Shows (on_store (update_agent_state agent_id d.signal d.confidence fresh) store) agent_id d
  unfolding update_agent_state
  written-Shows fresh agent_id d none = tt
  written-Shows fresh agent_id d (some s) = agent_of-put_agent agent_id (state_of d) s.agent_states

  pushed-Shows :
      (f : StateStore → StateStore) (agent_id : String) (d : AgentDecision)
      (store : Option StateStore)
      → ((s : StateStore) → (f s).agent_states ≡ s.agent_states)
      → Shows store agent_id d
      → Shows (on_store f store) agent_id d
  pushed-Shows f agent_id d none h shows = tt
  pushed-Shows f agent_id d (some s) h shows = ap (agent_of agent_id) (h s) ∙ shows

  other-Shows :
      (fresh : ℕ) (writer agent_id : String) (new d : AgentDecision) (store : Option StateStore)
      → str_eq writer agent_id ≡ false
      → Shows store agent_id d
      → Shows
          (on_store (update_agent_state writer new.signal new.confidence fresh) store)
          agent_id
          d
  unfolding update_agent_state
  other-Shows fresh writer agent_id new d none h shows = tt
  other-Shows fresh writer agent_id new d (some s) h shows =
      agent_of-put_agent_other agent_id writer (state_of new) s.agent_states h ∙ shows

  module _ (sanitize : Text → String) where
    pub own_action :
        (round_num : ℕ) (store : Option StateStore) (errors : List HardStop) (i : ℕ)
        (agent_id : String) (t : Task) (a : Action)
        → Happens (i, a)
        → Stands store errors i agent_id t
        → Stands
            (write sanitize round_num agent_id t a store)
            (errors ++ raised t a)
            i
            agent_id
            (next store agent_id t a)
    unfolding push_rationale
    own_action n store errors i k running (infers d) h s = to_write-Stands store _ i k d (inl h)
    own_action n store errors i k running (fails e) h s =
        to_write-Stands store _ i k (failure_decision k e) (inr (e, h, refl))
    own_action n store errors i k running (stops x) h s =
        (h, Memᴰ.append_right errors (Memᴰ.head refl))
    own_action n store errors i k running cancels h s = h
    own_action n store errors i k running (writes fresh) h s = s
    own_action n store errors i k running (pushes wall fresh) h s = s
    own_action n store errors i k running push_fails h s = s
    own_action n store errors i k (resolved d) (infers x) h s = s
    own_action n store errors i k (resolved d) (fails e) h s = s
    own_action n store errors i k (resolved d) (stops x) h s = s
    own_action n store errors i k (resolved d) cancels h s = h
    own_action n store errors i k (resolved d) (writes fresh) h s =
        to_push-Stands _ _ i k d s (written-Shows fresh k d store)
    own_action n store errors i k (resolved d) (pushes wall fresh) h s = s
    own_action n store errors i k (resolved d) push_fails h s = s
    own_action n store errors i k (streamed d) (infers x) h s = s
    own_action n store errors i k (streamed d) (fails e) h s = s
    own_action n store errors i k (streamed d) (stops x) h s = s
    own_action n store errors i k (streamed d) cancels h s = h
    own_action n store errors i k (streamed d) (writes fresh) h s = s
    own_action n store errors i k (streamed d) (pushes wall fresh) h s =
        (s.0, pushed-Shows _ k d store (λ x. refl) s.1)
    own_action n store errors i k (streamed d) push_fails h s = s
    own_action n store errors i k (returned d) a h s = s
    own_action n store errors i k (stopped x) a h s = (s.0, Memᴰ.append_left [] s.1)
    own_action n store errors i k was_cancelled a h s = s

    -- What another agent's action writes leaves a decision as it is shown.
    pub Shows-write :
        (round_num : ℕ) (store : Option StateStore) (writer agent_id : String) (t : Task)
        (a : Action) (d : AgentDecision)
        → str_eq writer agent_id ≡ false
        → Shows store agent_id d
        → Shows (write sanitize round_num writer t a store) agent_id d
    unfolding push_rationale
    Shows-write n store k i running (infers y) d h s = s
    Shows-write n store k i running (fails e) d h s = s
    Shows-write n store k i running (stops y) d h s = s
    Shows-write n store k i running cancels d h s = s
    Shows-write n store k i running (writes fresh) d h s = s
    Shows-write n store k i running (pushes wall fresh) d h s = s
    Shows-write n store k i running push_fails d h s = s
    Shows-write n store k i (resolved x) (infers y) d h s = s
    Shows-write n store k i (resolved x) (fails e) d h s = s
    Shows-write n store k i (resolved x) (stops y) d h s = s
    Shows-write n store k i (resolved x) cancels d h s = s
    Shows-write n store k i (resolved x) (writes fresh) d h s = other-Shows fresh k i x d store h s
    Shows-write n store k i (resolved x) (pushes wall fresh) d h s = s
    Shows-write n store k i (resolved x) push_fails d h s = s
    Shows-write n store k i (streamed x) (infers y) d h s = s
    Shows-write n store k i (streamed x) (fails e) d h s = s
    Shows-write n store k i (streamed x) (stops y) d h s = s
    Shows-write n store k i (streamed x) cancels d h s = s
    Shows-write n store k i (streamed x) (writes fresh) d h s = s
    Shows-write n store k i (streamed x) (pushes wall fresh) d h s =
        pushed-Shows _ i d store (λ z. refl) s
    Shows-write n store k i (streamed x) push_fails d h s = s
    Shows-write n store k i (returned x) a d h s = s
    Shows-write n store k i (stopped x) a d h s = s
    Shows-write n store k i was_cancelled a d h s = s

    pub other-Stands :
        (store later : Option StateStore) (errors more : List HardStop) (i : ℕ) (agent_id : String)
        (t : Task)
        → ((d : AgentDecision) → Shows store agent_id d → Shows later agent_id d)
        → Stands store errors i agent_id t
        → Stands later (errors ++ more) i agent_id t
    other-Stands store later errors more i k running f s = s
    other-Stands store later errors more i k (resolved d) f s = s
    other-Stands store later errors more i k (streamed d) f s = (s.0, f d s.1)
    other-Stands store later errors more i k (returned d) f s = (s.0, f d s.1)
    other-Stands store later errors more i k (stopped x) f s = (s.0, Memᴰ.append_left more s.1)
    other-Stands store later errors more i k was_cancelled f s = s
