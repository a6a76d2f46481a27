-- ===== src/Peers/Context/Fits.antt =====
-- The text of a reader's peers fits its budget, and shows the peers it says it shows.
use Prim.Native.String.{String}
use alpha_swarm.Prelude.{
  ℕ, ◌+◌, ◌-◌, ◌≤◌, ◌<◌, ◌≡◌, refl, ◌⊎◌, inl, inr, Bool, List, [], ◌∷◌, ◌++◌, length, length-append,
  take, ltb, length-take_le, arith,
}
use alpha_swarm.Prelude.Texts.{Text, lines_length, length-join_lines, length-cut_at_word}
use alpha_swarm.Peers.Context.{
  RankedPost, header_line, guard_line, line_prefix, fit_content, room, line, render, texts, shown,
  finish, format_peer_context,
}

-- `ids` are those of some of the posts, in their order.
abbrev pub IsWithin : List String → List RankedPost → Type 0
IsWithin [] posts = Unit {0}
IsWithin (i ∷ ids) [] = ⊥
IsWithin (i ∷ ids) (post ∷ rest) =
    ((i ≡ post.agent_id) × IsWithin ids rest) ⊎ IsWithin (i ∷ ids) rest

IsWithin-skip :
    (ids : List String) (post : RankedPost) (rest : List RankedPost)
    → IsWithin ids rest
    → IsWithin ids (post ∷ rest)
IsWithin-skip [] post rest h = tt
IsWithin-skip (i ∷ ids) post rest h = inr h

module _ (sanitize : Text → Text) (two_decimals : ℕ → Text)
    (show_bracket show_confidence : Bool) where
  abbrev rendered : ℕ → ℕ → List RankedPost → List (String × Text)
  rendered = render sanitize two_decimals show_bracket show_confidence

  abbrev prefix_of : ℕ → RankedPost → Text
  prefix_of = line_prefix sanitize two_decimals show_bracket show_confidence

  abbrev text_of : ℕ → ℕ → RankedPost → Text
  text_of i remaining post = line sanitize two_decimals (prefix_of i post) (
      fit_content sanitize two_decimals (room sanitize two_decimals remaining (prefix_of i post))
        (sanitize post.content))

  length-fit_content :
      (available : ℕ) (content : Text)
      → length (fit_content sanitize two_decimals available content) ≤ available
  unfolding fit_content
  length-fit_content available content = ground (arith, length-cut_at_word available content)

  -- A line takes no more than is left, its newline included.
  text_fits :
      (i remaining : ℕ) (post : RankedPost)
      → 1 ≤ room sanitize two_decimals remaining (prefix_of i post)
      → length (text_of i remaining post) + 1 ≤ remaining
  text_fits i remaining post h =
      let prefix = prefix_of i post in
      let content =
        fit_content sanitize two_decimals (room sanitize two_decimals remaining prefix)
          (sanitize post.content) in
      omega (
        arith,
        length-append {0} (prefix ++ content) (34 ∷ []),
        length-append {0} prefix content,
        length-fit_content (room sanitize two_decimals remaining prefix) (sanitize post.content),
      )

  -- What a round of the loop does.
  round_cases :
      (i remaining : ℕ) (post : RankedPost) (rest : List RankedPost)
      → (rendered i remaining (post ∷ rest) ≡ [])
        ⊎ (rendered i remaining (post ∷ rest) ≡ rendered (i + 1) remaining rest)
        ⊎ ((length (text_of i remaining post) + 1 ≤ remaining)
            × (rendered i remaining (post ∷ rest)
                ≡ (post.agent_id, text_of i remaining post)
                  ∷ rendered (i + 1) (remaining - (length (text_of i remaining post) + 1)) rest))
  unfolding render
  round_cases i remaining post rest = ground (arith, text_fits i remaining post)

  lines_fit :
      (i remaining : ℕ) (posts : List RankedPost)
      → lines_length (texts sanitize two_decimals (rendered i remaining posts)) ≤ remaining
  unfolding render
  lines_fit i remaining [] = omega arith
  lines_fit i remaining (post ∷ rest) = elim (round_cases i remaining post rest) [
    | inl e ↦ rw e (omega arith)
    | inr (inl e) ↦ rw e (lines_fit (i + 1) remaining rest)
    | inr (inr (fits, e)) ↦ rw e (
        omega (
          arith,
          fits,
          lines_fit (i + 1) (remaining - (length (text_of i remaining post) + 1)) rest,
        ))
  ]

  shown-IsWithin :
      (i remaining : ℕ) (posts : List RankedPost)
      → IsWithin (shown sanitize two_decimals (rendered i remaining posts)) posts
  unfolding render
  shown-IsWithin i remaining [] = tt
  shown-IsWithin i remaining (post ∷ rest) = elim (round_cases i remaining post rest) [
    | inl e ↦ rw e tt
    | inr (inl e) ↦ rw e (IsWithin-skip _ post rest (shown-IsWithin (i + 1) remaining rest))
    | inr (inr (fits, e)) ↦ rw e (
        inl
          (refl, shown-IsWithin (i + 1) (remaining - (length (text_of i remaining post) + 1)) rest))
  ]

  pub length-IsWithin :
      (ids : List String) (posts : List RankedPost) → IsWithin ids posts → length ids ≤ length posts
  length-IsWithin [] posts h = omega arith
  length-IsWithin (i ∷ ids) [] h = elim h [ ]
  length-IsWithin (i ∷ ids) (post ∷ rest) (inl h) = omega (arith, length-IsWithin ids rest h.1)
  length-IsWithin (i ∷ ids) (post ∷ rest) (inr h) = omega (arith, length-IsWithin (i ∷ ids) rest h)

  lines_length-append :
      (xs ys : List Text) → lines_length (xs ++ ys) ≡ lines_length xs + lines_length ys
  lines_length-append [] ys = omega arith
  lines_length-append (x ∷ xs) ys = omega (arith, lines_length-append xs ys)

  finish-IsWithin :
      (source_round : ℕ) (lines : List (String × Text)) (posts : List RankedPost)
      → IsWithin (shown sanitize two_decimals lines) posts
      → IsWithin (finish sanitize two_decimals source_round lines).1 posts
  finish-IsWithin source_round [] posts h = h
  finish-IsWithin source_round ((i, t) ∷ rest) posts h = h

  -- Nothing, or a text below the budget.
  finish_fits :
      (source_round budget : ℕ) (lines : List (String × Text))
      → lines_length (texts sanitize two_decimals lines)
        ≤ budget - (length (header_line source_round) + length guard_line + 2)
      → let r = finish sanitize two_decimals source_round lines in
        (r ≡ ([], [])) ⊎ (length r.0 < budget)
  finish_fits source_round budget [] h = inl refl
  finish_fits source_round budget ((i, t) ∷ rest) h =
      let tail = texts sanitize two_decimals rest in
      inr (
        omega (
          arith,
          h,
          length-join_lines (header_line source_round) (t ∷ tail ++ guard_line ∷ []),
          lines_length-append tail (guard_line ∷ []),
        ))

  header_long : (source_round : ℕ) → 1 ≤ length (header_line source_round)
  unfolding header_line
  header_long source_round = omega arith

  finish_text :
      (source_round : ℕ) (lines : List (String × Text))
      → let r = finish sanitize two_decimals source_round lines in
        ltb 0 (length r.0) ≡ ltb 0 (length r.1)
  finish_text source_round [] = refl
  finish_text source_round ((i, t) ∷ rest) =
      let tail = texts sanitize two_decimals rest in
      ground (
        arith,
        header_long source_round,
        length-join_lines (header_line source_round) (t ∷ tail ++ guard_line ∷ []),
      )

  -- There is a text exactly if there is a peer.
  pub text-shown :
      (posts : List RankedPost) (source_round budget max_posts : ℕ)
      → let r =
          format_peer_context sanitize two_decimals posts source_round budget max_posts show_bracket
            show_confidence in
        ltb 0 (length r.0) ≡ ltb 0 (length r.1)
  unfolding format_peer_context
  text-shown posts source_round budget max_posts = finish_text source_round (
      rendered 1 (budget - (length (header_line source_round) + length guard_line + 2))
        (take max_posts posts))

  -- A reader's peer text is empty, with no peer shown, or it is shorter than the budget. It shows
  -- `max_posts` peers at most, and they are authors of the first `max_posts` posts, in their order.
  pub context_fits :
      (posts : List RankedPost) (source_round budget max_posts : ℕ)
      → let r =
          format_peer_context sanitize two_decimals posts source_round budget max_posts show_bracket
            show_confidence in
        ((r ≡ ([], [])) ⊎ (length r.0 < budget))
        × (length r.1 ≤ max_posts)
        × IsWithin r.1 (take max_posts posts)
  unfolding format_peer_context
  context_fits posts source_round budget max_posts =
      let room_left = budget - (length (header_line source_round) + length guard_line + 2) in
      let lines = rendered 1 room_left (take max_posts posts) in
      let within =
        finish-IsWithin source_round lines (take max_posts posts)
          (shown-IsWithin 1 room_left (take max_posts posts)) in
      (
        finish_fits source_round budget lines (lines_fit 1 room_left (take max_posts posts)),
        omega (
          arith,
          length-IsWithin _ (take max_posts posts) within,
          length-take_le {0} max_posts posts,
        ),
        within,
      )
