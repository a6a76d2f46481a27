-- ===== src/Peers/Round/Sees.antt =====
-- What one reader sees, by the strategy.
use Prim.Native.String.{String}
use text.Mathlib.Text.{◌==◌ as str_eq}
use text.Mathlib.TextEquality.{eq_iff}
use alpha_swarm.Prelude.{
  ℕ, suc, ◌+◌, ◌≤◌, ◌≡◌, refl, ap, ◌∙◌, inl, inr, Bool, true, false, ◌&&◌, not, Option, none, some,
  List, [], ◌∷◌, ltb, min, length, keep, take, count, count-take_le, count_not-keep, is_some, arith,
  Option-cases,
}
use alpha_swarm.Prelude.Texts.{Text}
use alpha_swarm.Peers.Select.{
  Persona, has_id, is_in, is_parse_error, failed_ids, is_candidate, select_diverse_peers,
}
use alpha_swarm.Peers.Select.Fair.{is_eligible, select_diverse_peers-IsFair}
use alpha_swarm.Peers.Context.{RankedPost}
use alpha_swarm.Peers.Context.Fits.{IsWithin, context_fits, text-shown}
use alpha_swarm.Peers.Round.{
  Decision, PeerSettings, Draws, Decisions, decision_of, signals_of, posts_of, reader_weight, block,
  show, show_selected, stratified_context, is_decided, select_random_peers, random_context,
}

-- An id found in the dict with a failed decision is among the failed ones.
failed_listed :
    (i : String) (dict : Decisions) (d : Decision)
    → decision_of i dict ≡ some d
    → is_in i (failed_ids (signals_of dict)) ≡ false
    → is_parse_error d.signal ≡ false
failed_listed i [] d h f = ground arith
failed_listed i ((j, e) ∷ rest) d h f =
    ground (arith, failed_listed i rest d, eq_iff i j, eq_iff j i)

within_count :
    (f : String → Bool) (ids : List String) (posts : List RankedPost)
    → IsWithin ids posts
    → count f ids ≤ count (λ post. f post.agent_id) posts
within_count f [] posts h = omega arith
within_count f (i ∷ ids) [] h = elim h [ ]
within_count f (i ∷ ids) (post ∷ rest) (inl (e, h)) =
    ground (arith, within_count f ids rest h, ap f e)
within_count f (i ∷ ids) (post ∷ rest) (inr h) = ground (arith, within_count f (i ∷ ids) rest h)

-- A peer that a reader may see: someone else, who decided.
abbrev pub is_source : String → Decisions → String → Bool
is_source reader dict i = not (str_eq i reader) && is_decided (decision_of i dict)

posts_le :
    (f : String → Bool) (g : Persona → Bool) (dict : Decisions) (peers : List Persona)
    → ((p : Persona) → is_some (decision_of p.id dict) ≡ true → f p.id ≡ true → g p ≡ true)
    → count (λ (post : RankedPost). f post.agent_id) (posts_of dict peers) ≤ count g peers
unfolding posts_of
posts_le f g dict [] h = omega arith
posts_le f g dict (p ∷ rest) h = ground (arith, h p, posts_le f g dict rest h)

-- What a peer's id says of it, once its decision is in the dict.
not_source :
    (reader : String) (dict : Decisions) (p : Persona)
    → is_candidate reader (some (signals_of dict)) p ≡ true
    → is_some (decision_of p.id dict) ≡ true
    → is_source reader dict p.id ≡ true
not_source reader dict p h k = elim (Option-cases (decision_of p.id dict)) [
  | inl e ↦ ground (arith, e)
  | inr (d, e) ↦ ground (arith, e, failed_listed p.id dict d e)
]

is_some-block : (t : Text) → is_some (block t) ≡ ltb 0 (length t)
is_some-block [] = refl
is_some-block (c ∷ rest) = ground arith

-- The posts of eligible peers are sources.
posts_are_sources :
    (reader : String) (dict : Decisions) (personas peers : List Persona)
    → count (λ p. not (is_eligible reader (some (signals_of dict)) personas p)) peers ≡ 0
    → count (λ (post : RankedPost). not (is_source reader dict post.agent_id)) (posts_of dict peers)
      ≡ 0
posts_are_sources reader dict personas peers h = omega (
  arith,
  h,
  posts_le (λ i. not (is_source reader dict i))
      (λ p. not (is_eligible reader (some (signals_of dict)) personas p)) dict peers
      (λ p k n. ground (arith, not_source reader dict p)),
)

module _ (sanitize : Text → Text) (two_decimals : ℕ → Text) (draws : Draws)
    (sim : PeerSettings) where
  -- A reader held out sees nothing. Any other sees peers that decided and are not itself, as many as the
  -- limit at most, and has a text exactly if it sees a peer.
  abbrev pub Sees : Bool → Persona → Decisions → Option Text → List String → Type 0
  Sees true reader dict b e = (b ≡ none) × (e ≡ [])
  Sees false reader dict b e =
      (count (λ i. not (is_source reader.id dict i)) e ≡ 0)
      × (length e ≤ sim.peer_limit)
      × (is_some b ≡ ltb 0 (length e))

  show-Sees :
      (reader : Persona) (dict : Decisions) (posts : List RankedPost) (source_round : ℕ)
      → count (λ (post : RankedPost). not (is_source reader.id dict post.agent_id)) posts ≡ 0
      → let r = show sanitize two_decimals draws sim posts source_round in
        Sees false reader dict r.0 r.1
  show-Sees reader dict posts source_round h =
      let fits =
        context_fits sanitize two_decimals sim.show_bracket_labels sim.show_confidence posts
          source_round sim.peer_budget_chars sim.peer_limit in
      let bad = λ (i : String). not (is_source reader.id dict i) in
      (
        omega (
          arith,
          h,
          within_count bad _ (take sim.peer_limit posts) fits.2,
          count-take_le (λ (post : RankedPost). bad post.agent_id) sim.peer_limit posts,
        ),
        fits.1,
        is_some-block _
            ∙ text-shown sanitize two_decimals sim.show_bracket_labels sim.show_confidence posts
                source_round sim.peer_budget_chars sim.peer_limit,
      )

  -- What a reader of the stratified strategy sees.
  pub stratified-Sees :
      (top : ℕ) (global : String → ℕ) (personas : List Persona) (dict : Decisions)
      (source_round : ℕ) (reader : Persona)
      → ((i : String) → count (has_id i) personas ≤ 1)
      → ((xs : List Persona) (f : Persona → Bool)
          → count f (draws.shuffle reader.id (source_round + 1) xs) ≡ count f xs)
      → sim.bracket_cap ≡ suc top
      → (r : Option Text × List String) × (stratified_context sanitize two_decimals draws sim global
            personas dict source_round reader
          ≡ some r)
        × Sees false reader dict r.0 r.1
  unfolding stratified_context
  stratified-Sees top global personas dict source_round reader distinct permutes e =
      let round_num = source_round + 1 in
      let select =
        select_diverse_peers (reader_weight sim global personas dict reader.id)
          (draws.draw reader.id round_num) (draws.bracket_draw reader.id round_num)
          (draws.shuffle reader.id round_num) reader.id (some (signals_of dict)) personas
          sim.peer_limit sim.min_brackets in
      let (peers, found, fair) =
        (select_diverse_peers-IsFair (reader_weight sim global personas dict reader.id)
          (draws.draw reader.id round_num) (draws.bracket_draw reader.id round_num)
          (draws.shuffle reader.id round_num) permutes reader.id (some (signals_of dict)) personas
          sim.peer_limit sim.min_brackets top distinct).1 in
      (
        show sanitize two_decimals draws sim (posts_of dict peers) source_round,
        ap (λ o. show_selected sanitize two_decimals draws sim o dict source_round)
            (ap select e ∙ found),
        show-Sees reader dict (posts_of dict peers) source_round
            (posts_are_sources reader.id dict personas peers fair.eligible),
      )

  pub random-Sees :
      (personas : List Persona) (dict : Decisions) (source_round : ℕ) (reader : Persona)
      → ((xs : List Persona) (k : ℕ) (f : Persona → Bool)
          → count f (draws.sample reader.id (source_round + 1) xs k) ≤ count f xs)
      → (r : Option Text × List String) × (random_context sanitize two_decimals draws sim personas
            dict source_round reader
          ≡ some r)
        × Sees false reader dict r.0 r.1
  unfolding random_context select_random_peers
  random-Sees personas dict source_round reader draws_some =
      let peers =
        select_random_peers sanitize two_decimals draws sim personas dict (source_round + 1)
          reader in
      let is_other = λ (p : Persona). is_source reader.id dict p.id in
      (
        show sanitize two_decimals draws sim (posts_of dict peers) source_round,
        refl,
        show-Sees reader dict (posts_of dict peers) source_round (
            omega (
              arith,
              posts_le (λ i. not (is_source reader.id dict i))
                  (λ p. not (is_source reader.id dict p.id)) dict peers (λ p k n. n),
              draws_some (keep is_other personas)
                  (min sim.peer_limit (length (keep is_other personas)))
                  (λ p. not (is_source reader.id dict p.id)),
              count_not-keep is_other personas,
            )),
      )
