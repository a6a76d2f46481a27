-- ===== src/Peers/Tests.antt =====
-- The selection of peers at concrete rosters.
use Prim.Native.String.{String}
use alpha_swarm.Prelude.{
  ℕ, ◌≤◌, ◌<◌, ◌≡◌, ◌⊎◌, refl, true, Option, none, some, List, [], ◌∷◌, length, take, count,
  count-take_le, arith,
}
use alpha_swarm.Prelude.Texts.{other_id, codes, decimal}
use alpha_swarm.State.Types.{SignalType}
use alpha_swarm.Peers.Select.{Persona, has_id, select_diverse_peers}
use alpha_swarm.Peers.Select.Fair.{IsFair, select_diverse_peers-IsFair}
use alpha_swarm.Peers.Context.{RankedPost, format_peer_context}
use alpha_swarm.Peers.Context.Fits.{IsWithin, context_fits}
use alpha_swarm.Peers.Round.{
  stratified, PeerSettings, Draws, Decisions, to_dict, RoundPromptContext, build_round_context,
}
use alpha_swarm.Peers.Round.Sources.{Aligned, round_is_sound}

abbrev persona : String → String → Persona
persona i b = record { id = i; bracket = b; influence_weight_base = 2 }

abbrev roster : List Persona
roster =
    persona "q1" "quants"
    ∷ persona "q2" "quants"
    ∷ persona "q3" "quants"
    ∷ persona "d1" "degens"
    ∷ []

roster_distinct : (i : String) → count (has_id i) roster ≤ 1
roster_distinct i = ground (
  arith,
  other_id "q1" "q2" i refl,
  other_id "q1" "q3" i refl,
  other_id "q1" "d1" i refl,
  other_id "q2" "q3" i refl,
  other_id "q2" "d1" i refl,
  other_id "q3" "d1" i refl,
)

abbrev signals : Option (List (String × SignalType))
signals = some (("q1", SignalType.buy) ∷ ("q3", SignalType.parse_error) ∷ [])

abbrev one : String → ℕ
one i = 1

select_diverse_peers-IsFair_example :
    let select = select_diverse_peers one one one (λ xs. xs) "q2" signals roster 3 2 in
    (select 0 ≡ none)
    × ((r : List Persona) × (select 1 ≡ some r) × IsFair "q2" signals roster 3 2 1 r)
select_diverse_peers-IsFair_example =
    select_diverse_peers-IsFair one one one (λ xs. xs) (λ xs f. refl) "q2" signals roster 3 2 0
      roster_distinct

abbrev posts : List RankedPost
posts =
    record {
      agent_id = "q1";
      bracket = "quants";
      signal = SignalType.buy;
      confidence = 700;
      content = codes "rates fall";
    }
    ∷ record {
      agent_id = "d1";
      bracket = "degens";
      signal = SignalType.sell;
      confidence = 300;
      content = [];
    }
    ∷ []

context_fits_example :
    let r = format_peer_context (λ t. t) decimal posts 1 400 5 true true in
    ((r ≡ ([], [])) ⊎ (length r.0 < 400)) × (length r.1 ≤ 5) × IsWithin r.1 (take 5 posts)
context_fits_example = context_fits (λ t. t) decimal true true posts 1 400 5

abbrev sim : PeerSettings
sim = record {
  peer_strategy = stratified;
  peer_limit = 3;
  min_brackets = 2;
  bracket_cap = 2;
  personal_boost = 300;
  peer_budget_chars = 4000;
  show_bracket_labels = true;
  show_confidence = true;
  control_fraction = 0;
  own_prior_memory = true;
}

abbrev draws : Draws
draws = record {
  draw = λ reader round_num i. 1;
  bracket_draw = λ reader round_num b. 1;
  shuffle = λ reader round_num xs. xs;
  sample = λ reader round_num xs k. take k xs;
  control_sample = λ b ids k. take k ids;
}

abbrev prev : Decisions
prev =
    (
      "q1",
      record {
        signal = SignalType.buy;
        confidence = 700;
        rationale = codes "rates fall";
        cited_agents = "d1" ∷ [];
      },
    )
    ∷ (
      "d1",
      record {
        signal = SignalType.sell;
        confidence = 300;
        rationale = codes "too late";
        cited_agents = [];
      },
    )
    ∷ []

round_is_sound_example :
    (ctx : RoundPromptContext) × (build_round_context (λ t. t) decimal draws sim one roster prev 2
      ≡ some ctx)
    × Aligned
        (λ t. t)
        decimal
        draws
        sim
        ctx.control_ids
        (to_dict prev)
        roster
        ctx.peer_blocks
        ctx.exposures
round_is_sound_example =
    round_is_sound (λ t. t) decimal draws sim 1 one roster prev 2 roster_distinct
      (λ reader round_num xs f. refl) (λ reader round_num xs k f. count-take_le f k xs) refl
