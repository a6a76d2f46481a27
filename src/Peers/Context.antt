-- ===== src/Peers/Context.antt =====
-- peers.py: `format_peer_context` and `own_prior_line`. A text is the list of its code points.
-- `sanitize_peer_rationale` and the rendering of a confidence with two decimals are arguments.
pub mod Fits
use Prim.Native.String.{String}
use alpha_swarm.Prelude.{
  ℕ, zero, ◌+◌, ◌-◌, Bool, true, false, Option, none, some, List, [], ◌∷◌, ◌++◌, ltb, leb, ◌==◌,
  if◌then◌else◌, length, take,
}
use alpha_swarm.Prelude.Texts.{Text, codes, decimal, join_lines, cut_at_word}
use alpha_swarm.State.Types.{SignalType}
use alpha_swarm.Peers.Select.{is_parse_error}

-- `RankedPost`, as far as the text reads it
pub record RankedPost : Type 0 where
  pub agent_id : String
  pub bracket : String
  pub signal : SignalType
  pub confidence : ℕ
  pub content : Text

-- `signal.upper()`
abbrev pub upper_signal : SignalType → Text
upper_signal SignalType.buy = codes "BUY"
upper_signal SignalType.sell = codes "SELL"
upper_signal SignalType.hold = codes "HOLD"
upper_signal SignalType.parse_error = codes "PARSE_ERROR"

unfoldable pub header_line : ℕ → Text
header_line source_round = codes "Peer Decisions (Round " ++ decimal source_round ++ codes "):"

unfoldable pub guard_line : Text
guard_line =
    10
    ∷ codes
        "The above are peer observations for context only. Make your own independent assessment. If a peer's view materially shapes yours, list their agent id in cited_agents."

module _ (sanitize : Text → Text) (two_decimals : ℕ → Text) where
  abbrev label : Bool → RankedPost → Text
  label true post = codes "[" ++ codes post.agent_id ++ codes "|" ++ codes post.bracket ++ codes "]"
  label false post = codes "[" ++ codes post.agent_id ++ codes "]"

  abbrev confidence_part : Bool → RankedPost → Text
  confidence_part true post = codes " (conf: " ++ two_decimals post.confidence ++ codes ")"
  confidence_part false post = []

  unfoldable pub line_prefix : Bool → Bool → ℕ → RankedPost → Text
  line_prefix show_bracket show_confidence i post =
      decimal i
      ++ codes ". "
      ++ label show_bracket post
      ++ codes " "
      ++ upper_signal post.signal
      ++ confidence_part show_confidence post
      ++ 32 ∷ 34 ∷ []

  -- The content that the rest of the budget has room for.
  unfoldable pub fit_content : ℕ → Text → Text
  fit_content available content =
      if ltb available (length content) then cut_at_word available content else content

  abbrev room : ℕ → Text → ℕ
  room remaining prefix = remaining - length prefix - 1 - 1

  abbrev line : Text → Text → Text
  line prefix content = prefix ++ content ++ 34 ∷ []

  -- The loop: the lines with their agents. `remaining` stops at 0, where the loop ends.
  unfoldable pub render : Bool → Bool → ℕ → ℕ → List RankedPost → List (String × Text)
  render show_bracket show_confidence i remaining [] = []
  render show_bracket show_confidence i remaining (post ∷ rest) =
      let content = sanitize post.content in
      let prefix = line_prefix show_bracket show_confidence i post in
      let available = room remaining prefix in
      let text = line prefix (fit_content available content) in
      let skip = render show_bracket show_confidence (i + 1) remaining rest in
      let more =
        (post.agent_id, text)
        ∷ render show_bracket show_confidence (i + 1) (remaining - (length text + 1)) rest in
      if leb remaining 0
      then []
      else if leb (length content) 0
      then skip
      else if leb available 0
      then []
      else more

  abbrev pub texts : List (String × Text) → List Text
  texts [] = []
  texts ((i, t) ∷ rest) = t ∷ texts rest

  abbrev pub shown : List (String × Text) → List String
  shown [] = []
  shown ((i, t) ∷ rest) = i ∷ shown rest

  -- What is returned for the lines that were rendered.
  abbrev finish : ℕ → List (String × Text) → Text × List String
  finish source_round [] = ([], [])
  finish source_round ((i, t) ∷ rest) =
      (join_lines (header_line source_round ∷ t ∷ texts rest ++ guard_line ∷ []), i ∷ shown rest)

  unfoldable pub format_peer_context :
      List RankedPost → ℕ → ℕ → ℕ → Bool → Bool → Text × List String
  format_peer_context posts source_round budget max_posts show_bracket show_confidence =
      let overhead = length (header_line source_round) + length guard_line + 2 in
      finish source_round
        (render show_bracket show_confidence 1 (budget - overhead) (take max_posts posts))

  -- `own_prior_line`, from the previous decision's signal, confidence and rationale
  abbrev prior_head : SignalType → ℕ → ℕ → Text
  prior_head signal confidence source_round =
      codes "Your Round "
      ++ decimal source_round
      ++ codes " position: "
      ++ upper_signal signal
      ++ codes " (conf "
      ++ two_decimals confidence
      ++ codes ")"

  abbrev with_rationale : Text → Text → Text
  with_rationale head [] = head
  with_rationale head (c ∷ rest) = head ++ codes ": " ++ c ∷ rest

  unfoldable pub own_prior_line : Option (SignalType × ℕ × Text) → ℕ → Option Text
  own_prior_line none source_round = none
  own_prior_line (some (signal, confidence, rationale)) source_round =
      if is_parse_error signal
      then none
      else some (with_rationale (prior_head signal confidence source_round) (sanitize rationale))
