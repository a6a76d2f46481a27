-- ===== src/Peers/Round/Sources.antt =====
-- Whom a reader's peers are in a whole round.
use Prim.Native.String.{String}
use alpha_swarm.Prelude.{
  ℕ, suc, ◌+◌, ◌-◌, ◌≤◌, ◌≡◌, refl, ap, ◌∙◌, inl, inr, Bool, true, false, Option, none, some, List,
  [], ◌∷◌, if◌then◌else◌, count, arith, Bool-cases,
}
use alpha_swarm.Prelude.Texts.{Text}
use alpha_swarm.Peers.Select.{Persona, has_id, is_in}
use alpha_swarm.Peers.Round.{
  PeerStrategy, no_peers, random_peers, stratified, PeerSettings, Draws, Decisions, to_dict, each,
  both, priors_of, peer_contexts, RoundPromptContext, build_round_context, blocks_of, exposures_of,
  is_first, hold_out, all_none, all_empty,
}
use alpha_swarm.Peers.Holdout.{seeded_bracket_subset}
use alpha_swarm.Peers.Round.Sees.{Sees, stratified-Sees, random-Sees}

module _ (sanitize : Text → Text) (two_decimals : ℕ → Text) (draws : Draws)
    (sim : PeerSettings) where
  -- Block by block and exposure by exposure, in the order of the roster.
  abbrev pub Aligned :
      List String → Decisions → List Persona → List (Option Text) → List (List String) → Type 0
  Aligned control dict [] [] [] = Unit {0}
  Aligned control dict (p ∷ ps) (b ∷ bs) (e ∷ es) =
      Sees sanitize two_decimals draws sim (is_in p.id control) p dict b e
      × Aligned control dict ps bs es
  Aligned control dict _ _ _ = ⊥

  held_out :
      (out : Bool) (reader : Persona) (dict : Decisions) (b : Option Text) (e : List String)
      → Sees sanitize two_decimals draws sim false reader dict b e
      → Sees sanitize two_decimals draws sim out reader dict
          (if out then none else b)
          (if out then [] else e)
  held_out true reader dict b e h = (refl, refl)
  held_out false reader dict b e h = h

  each-Sees :
      (context : Persona → Option (Option Text × List String)) (dict : Decisions)
      (control : List String) (ps : List Persona)
      → ((p : Persona)
          → (r : Option Text × List String) × (context p ≡ some r)
            × Sees sanitize two_decimals draws sim false p dict r.0 r.1)
      → (rs : List (Option Text × List String)) × (each context ps ≡ some rs)
        × Aligned control dict ps (blocks_of control ps rs) (exposures_of control ps rs)
  each-Sees context dict control [] h = ([], refl, tt)
  each-Sees context dict control (p ∷ ps) h =
      let (r, found, sees) = h p in
      let (rs, others, rest) = each-Sees context dict control ps h in
      (
        r ∷ rs,
        ap (λ o. both o (each context ps)) found ∙ ap (both (some r)) others,
        (held_out (is_in p.id control) p dict r.0 r.1 sees, rest),
      )

  strategy-Sees :
      (top : ℕ) (strategy : PeerStrategy) (global : String → ℕ) (personas : List Persona)
      (dict : Decisions) (source_round : ℕ) (p : Persona)
      → ((i : String) → count (has_id i) personas ≤ 1)
      → ((reader : String) (round_num : ℕ) (xs : List Persona) (f : Persona → Bool)
          → count f (draws.shuffle reader round_num xs) ≡ count f xs)
      → ((reader : String) (round_num : ℕ) (xs : List Persona) (k : ℕ) (f : Persona → Bool)
          → count f (draws.sample reader round_num xs k) ≤ count f xs)
      → sim.bracket_cap ≡ suc top
      → (r : Option Text × List String) × (peer_contexts sanitize two_decimals draws sim strategy
            global personas dict source_round p
          ≡ some r)
        × Sees sanitize two_decimals draws sim false p dict r.0 r.1
  unfolding peer_contexts
  strategy-Sees top no_peers global personas dict source_round p distinct permutes draws_some e =
      ((none, []), refl, (refl, omega arith, refl))
  strategy-Sees top random_peers global personas dict source_round p distinct permutes draws_some
        e =
      random-Sees sanitize two_decimals draws sim personas dict source_round p
        (draws_some p.id (source_round + 1))
  strategy-Sees top stratified global personas dict source_round p distinct permutes draws_some e =
      stratified-Sees sanitize two_decimals draws sim top global personas dict source_round p
        distinct (permutes p.id (source_round + 1)) e

  first-Sees :
      (out : Bool) (p : Persona) (dict : Decisions)
      → Sees sanitize two_decimals draws sim out p dict none []
  first-Sees true p dict = (refl, refl)
  first-Sees false p dict = (refl, omega arith, refl)

  first_round :
      (dict : Decisions) (control : List String) (ps : List Persona)
      → Aligned control dict ps (all_none ps) (all_empty ps)
  first_round dict control [] = tt
  first_round dict control (p ∷ ps) =
      (first-Sees (is_in p.id control) p dict, first_round dict control ps)

  -- Whatever the strategy and the random numbers, the prompts of a round are sound, when the roster's
  -- ids are distinct, the bracket cap is one or more, shuffling permutes and sampling draws from the
  -- list. The round's context is built. Reader by reader, in the order of the roster: one that is held
  -- out sees no text and no peer; any other sees a text exactly if it is shown a peer, is shown
  -- `peer_limit` peers at most, and each is someone else whose last decision did not fail.
  pub round_is_sound :
      (top : ℕ) (global : String → ℕ) (personas : List Persona) (prev : Decisions) (round_num : ℕ)
      → ((i : String) → count (has_id i) personas ≤ 1)
      → ((reader : String) (round_num : ℕ) (xs : List Persona) (f : Persona → Bool)
          → count f (draws.shuffle reader round_num xs) ≡ count f xs)
      → ((reader : String) (round_num : ℕ) (xs : List Persona) (k : ℕ) (f : Persona → Bool)
          → count f (draws.sample reader round_num xs k) ≤ count f xs)
      → sim.bracket_cap ≡ suc top
      → (ctx : RoundPromptContext) × (build_round_context sanitize two_decimals draws sim global
            personas prev round_num
          ≡ some ctx)
        × Aligned ctx.control_ids (to_dict prev) personas ctx.peer_blocks ctx.exposures
  unfolding build_round_context
  round_is_sound top global personas prev round_num distinct permutes draws_some e =
      let control = seeded_bracket_subset draws.control_sample personas sim.control_fraction in
      let dict = to_dict prev in
      elim (Bool-cases (is_first round_num prev)) [
        | inl first ↦ (
          record {
            peer_blocks = all_none personas;
            own_prior_lines = all_none personas;
            exposures = all_empty personas;
            control_ids = control;
          },
          ground (arith, first),
          first_round dict control personas,
        )
        | inr later ↦
            let (rs, found, aligned) =
              each-Sees
                (peer_contexts sanitize two_decimals draws sim sim.peer_strategy global personas
                  dict (round_num - 1))
                dict control personas
                (λ p.
                  strategy-Sees top sim.peer_strategy global personas dict (round_num - 1) p
                    distinct permutes draws_some e) in
            (
              record {
                peer_blocks = blocks_of control personas rs;
                own_prior_lines =
                    priors_of sanitize two_decimals draws sim dict (round_num - 1) personas;
                exposures = exposures_of control personas rs;
                control_ids = control;
              },
              rw later (
                  ap
                    (hold_out sanitize two_decimals draws sim control personas dict (round_num - 1))
                    found),
              aligned,
            )
      ]
