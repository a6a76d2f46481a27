-- ===== src/Peers/Select/Fair.antt =====
-- What a reader's peers are, whatever the weights and the random numbers.
use Prim.Native.String.{String}
use text.Mathlib.Text.{◌==◌ as str_eq}
use text.Mathlib.TextPositions.{eq_refl}
use alpha_swarm.Prelude.{
  ℕ, suc, ◌≤◌, ◌≡◌, refl, inl, inr, Bool, true, ◌&&◌, ◌||◌, not, Option, none, some, List, [], ◌∷◌,
  ltb, leb, min, ◌∙◌, ap, length, take, count, count-take_le, count_ext, count_le, length-count,
  length-take, length-take_le, arith, Bool-cases,
}
use alpha_swarm.State.Types.{SignalType}
use alpha_swarm.Peers.Sorting.{sort_down, count-sort_down, length-sort_down}
use alpha_swarm.Peers.Select.{
  Persona, has_id, in_bracket, held, is_in, is_candidate, candidates, brackets_of, agent_key,
  bracket_key, guaranteed, choose, select_diverse_peers,
}
use alpha_swarm.Peers.Select.Picks.{
  AreDistinct, times, is_in-times, brackets_of-AreDistinct, brackets_of-held, picks, picks-le,
  picks-held_le, picks-held_ge, length-picks,
}
use alpha_swarm.Peers.Select.Fill.{
  fill_grows, fill_from, length-fill, fill_caps, fill_once, IsComplete, left_out, fill-IsComplete,
}

-- how many of the brackets of a list have a peer
abbrev pub covered : List Persona → String → Bool
covered r b = ltb 0 (held b r)

abbrev pub is_eligible :
    String → Option (List (String × SignalType)) → List Persona → Persona → Bool
is_eligible reader prev personas p =
    is_candidate reader prev p && ltb 0 (count (has_id p.id) personas)

-- The peers `r` of a reader, out of its candidates `all`.
pub record IsFair (reader : String) (prev : Option (List (String × SignalType)))
    (personas : List Persona) (limit min_brackets cap : ℕ) (r : List Persona) : Type 0 where
  pub eligible : count (λ p. not (is_eligible reader prev personas p)) r ≡ 0
  pub once : (i : String) → count (has_id i) r ≤ 1
  pub few : length r ≤ limit
  pub capped : (b : String) → held b r ≤ cap
  pub broad :
      let brackets = brackets_of [] (candidates reader prev personas) in
      min (min min_brackets limit) (length brackets) ≤ count (covered r) brackets
  pub complete : IsComplete limit cap (candidates reader prev personas) r

-- Every persona of a list is listed in it.
listed_all :
    (xs all : List Persona)
    → ((i : String) → count (has_id i) xs ≤ count (has_id i) all)
    → count (λ p. not (ltb 0 (count (has_id p.id) all))) xs ≡ 0
listed_all [] all h = refl
listed_all (p ∷ xs) all h =
    ground (arith, h p.id, eq_refl p.id, listed_all xs all (λ i. omega (arith, h i)))

count-candidates_le :
    (f : Persona → Bool) (reader : String) (prev : Option (List (String × SignalType)))
    (xs : List Persona)
    → count f (candidates reader prev xs) ≤ count f xs
count-candidates_le f reader prev [] = omega arith
count-candidates_le f reader prev (p ∷ xs) = ground (arith, count-candidates_le f reader prev xs)

no_others :
    (reader : String) (prev : Option (List (String × SignalType))) (all xs : List Persona)
    → count (λ p. not (ltb 0 (count (has_id p.id) all))) xs ≡ 0
    → count (λ p. not (is_eligible reader prev all p)) (candidates reader prev xs) ≡ 0
no_others reader prev all [] h = refl
no_others reader prev all (p ∷ xs) h = ground (arith, no_others reader prev all xs)

all_pass :
    (g : String → Bool) (bs : List String)
    → ((b : String) → is_in b bs ≡ true → g b ≡ true)
    → count g bs ≡ length bs
all_pass g [] h = refl
all_pass g (b ∷ bs) h =
    ground (arith, h b, eq_refl b, all_pass g bs (λ c e. h c (ground (arith, e))))

module _ (weight draw bracket_draw : String → ℕ) (limit min_brackets cap : ℕ) where
  abbrev ranked : List Persona → List String
  ranked all = sort_down (bracket_key weight draw bracket_draw all) (brackets_of [] all)

  abbrev first_brackets : List Persona → List String
  first_brackets all = take (min min_brackets limit) (ranked all)

  times-first :
      (b : String) (all : List Persona)
      → times b (first_brackets all) ≤ times b (brackets_of [] all)
  times-first b all = omega (
    arith,
    count-take_le (str_eq b) (min min_brackets limit) (ranked all),
    count-sort_down (bracket_key weight draw bracket_draw all) (str_eq b) (brackets_of [] all),
  )

  first-AreDistinct : (all : List Persona) → AreDistinct (first_brackets all)
  first-AreDistinct all b =
      omega (arith, times-first b all, brackets_of-AreDistinct [] all (λ c. omega arith) b)

  guaranteed_from :
      (f : Persona → Bool) (all : List Persona)
      → count f (picks weight draw bracket_draw all (first_brackets all)) ≤ count f all
  guaranteed_from f all = omega (
    arith,
    picks-le weight draw bracket_draw f all (first_brackets all) (first-AreDistinct all),
    count_le (λ p. f p && is_in p.bracket (first_brackets all)) f all (λ p h. ground arith),
  )

  abbrev chosen : List Persona → List Persona
  chosen all = choose weight draw bracket_draw limit min_brackets cap all

  top_covered :
      (b : String) (all : List Persona)
      → is_in b (first_brackets all) ≡ true
      → covered (chosen all) b ≡ true
  unfolding choose guaranteed
  top_covered b all h =
      let first = picks weight draw bracket_draw all (first_brackets all) in
      let sorted = sort_down (agent_key weight draw bracket_draw) all in
      let some_held : 1 ≤ held b all =
        ground (
          arith,
          is_in-times b (first_brackets all),
          times-first b all,
          brackets_of-held b [] all,
        ) in
      ground (
        arith,
        picks-held_ge weight draw bracket_draw b all (first_brackets all) h some_held,
        fill_grows weight draw bracket_draw (in_bracket b) limit cap sorted first,
      )

  -- Each of the guaranteed brackets has a peer.
  broad :
      (all : List Persona)
      → min (min min_brackets limit) (length (brackets_of [] all))
        ≤ count (covered (chosen all)) (brackets_of [] all)
  unfolding choose guaranteed
  broad all =
      let r = chosen all in
      let top = first_brackets all in
      omega (
        arith,
        count-sort_down (bracket_key weight draw bracket_draw all) (covered r) (brackets_of [] all),
        count-take_le (covered r) (min min_brackets limit) (ranked all),
        all_pass (covered r) top (λ b h. top_covered b all h),
        length-take (min min_brackets limit) (ranked all),
        length-sort_down (bracket_key weight draw bracket_draw all) (brackets_of [] all),
      )

  choose-IsFair :
      (reader : String) (prev : Option (List (String × SignalType))) (personas : List Persona)
      → ((i : String) → count (has_id i) personas ≤ 1)
      → 1 ≤ cap
      → IsFair reader prev personas limit min_brackets cap
          (chosen (candidates reader prev personas))
  unfolding choose guaranteed
  choose-IsFair reader prev personas distinct room =
      let all = candidates reader prev personas in
      let first = picks weight draw bracket_draw all (first_brackets all) in
      let sorted = sort_down (agent_key weight draw bracket_draw) all in
      record {
        eligible =
            let other = λ (p : Persona). not (is_eligible reader prev personas p) in
            omega (
              arith,
              fill_from weight draw bracket_draw other limit cap sorted first,
              guaranteed_from other all,
              count-sort_down (agent_key weight draw bracket_draw) other all,
              no_others reader prev personas personas
                  (listed_all personas personas (λ i. omega arith)),
            );
        once = λ i. fill_once weight draw bracket_draw i limit cap sorted first (
            omega (
              arith,
              guaranteed_from (has_id i) all,
              count-candidates_le (has_id i) reader prev personas,
              distinct i,
            ));
        few = length-fill weight draw bracket_draw limit cap sorted first (
            omega (
              arith,
              length-picks weight draw bracket_draw all (first_brackets all),
              length-take_le (min min_brackets limit) (ranked all),
            ));
        capped = λ b. fill_caps weight draw bracket_draw b limit cap sorted first (
            omega (
              arith,
              picks-held_le weight draw bracket_draw b all (first_brackets all),
              first-AreDistinct all b,
            ));
        broad = broad all;
        complete = ground (
          arith,
          fill-IsComplete weight draw bracket_draw limit cap sorted first,
          count-sort_down (agent_key weight draw bracket_draw)
              (left_out cap (chosen (candidates reader prev personas))) all,
        );
      }

-- The properties of a choice are those of each of its permutations.
shuffle-IsFair :
    (reader : String) (prev : Option (List (String × SignalType))) (personas : List Persona)
    (limit min_brackets cap : ℕ) (r s : List Persona)
    → ((f : Persona → Bool) → count f s ≡ count f r)
    → IsFair reader prev personas limit min_brackets cap r
    → IsFair reader prev personas limit min_brackets cap s
shuffle-IsFair reader prev personas limit min_brackets cap r s same h =
    let all = candidates reader prev personas in
    let same_length : length s ≡ length r =
      omega (arith, length-count s, length-count r, same (λ p. true)) in
    record {
      eligible = same (λ p. not (is_eligible reader prev personas p)) ∙ h.eligible;
      once = λ i. omega (arith, same (has_id i), h.once i);
      few = omega (arith, same_length, h.few);
      capped = λ b. omega (arith, same (in_bracket b), h.capped b);
      broad = omega (
        arith,
        h.broad,
        count_ext (covered s) (covered r) (brackets_of [] all)
            (λ b. ap (λ (n : ℕ). ltb 0 n) (same (in_bracket b))),
      );
      complete = ground (
        arith,
        same_length,
        h.complete,
        count_ext (left_out cap s) (left_out cap r) all
            (λ p. ground (arith, same (has_id p.id), same (in_bracket p.bracket))),
      );
    }

nobody_broad :
    (limit min_brackets : ℕ) (all : List Persona)
    → (leb limit 0 || leb (length all) 0) ≡ true
    → min (min min_brackets limit) (length (brackets_of [] all))
      ≤ count (covered []) (brackets_of [] all)
unfolding brackets_of
nobody_broad limit min_brackets [] h = omega arith
nobody_broad limit min_brackets (p ∷ all) h = ground arith

nobody-IsComplete :
    (limit cap : ℕ) (all : List Persona)
    → (leb limit 0 || leb (length all) 0) ≡ true
    → IsComplete limit cap all []
nobody-IsComplete limit cap [] h = inr refl
nobody-IsComplete limit cap (p ∷ all) h = inl (ground arith)

nobody-IsFair :
    (reader : String) (prev : Option (List (String × SignalType))) (personas : List Persona)
    (limit min_brackets cap : ℕ)
    → (leb limit 0 || leb (length (candidates reader prev personas)) 0) ≡ true
    → IsFair reader prev personas limit min_brackets cap []
unfolding brackets_of
nobody-IsFair reader prev personas limit min_brackets cap h = record {
  eligible = refl;
  once = λ i. omega arith;
  few = omega arith;
  capped = λ b. omega arith;
  broad = nobody_broad limit min_brackets (candidates reader prev personas) h;
  complete = nobody-IsComplete limit cap (candidates reader prev personas) h;
}

-- Whatever the weights and the random numbers, a reader's peers are fair. If the roster's ids are
-- distinct, the cap is one or more and `shuffle` permutes its list, the selection succeeds. Its peers
-- are in the roster, are neither the reader nor anyone whose decision failed, and none comes twice;
-- there are `limit` at most and `cap` at most of each bracket; as many brackets as `min_brackets`, the
-- limit and the candidates allow have a peer; and it stops short of the limit only when every
-- candidate left over is in a bracket that has met its cap. With a cap of zero it fails.
pub select_diverse_peers-IsFair :
    (weight draw bracket_draw : String → ℕ) (shuffle : List Persona → List Persona)
    → ((xs : List Persona) (f : Persona → Bool) → count f (shuffle xs) ≡ count f xs)
    → (reader : String) (prev : Option (List (String × SignalType))) (personas : List Persona)
      (limit min_brackets cap : ℕ)
    → ((i : String) → count (has_id i) personas ≤ 1)
    → let select =
        select_diverse_peers weight draw bracket_draw shuffle reader prev personas limit
          min_brackets in
      (select 0 ≡ none)
      × ((r : List Persona) × (select (suc cap) ≡ some r)
          × IsFair reader prev personas limit min_brackets (suc cap) r)
unfolding select_diverse_peers
select_diverse_peers-IsFair weight draw bracket_draw shuffle permutes reader prev personas limit
      min_brackets cap distinct =
    (
      refl,
      elim (Bool-cases (leb limit 0 || leb (length (candidates reader prev personas)) 0)) [
        | inl e ↦ (
          [],
          ground (arith, e),
          nobody-IsFair reader prev personas limit min_brackets (suc cap) e,
        )
        | inr e ↦
            let c =
              choose weight draw bracket_draw limit min_brackets (suc cap)
                (candidates reader prev personas) in
            (
              shuffle c,
              ground (arith, e),
              shuffle-IsFair reader prev personas limit min_brackets (suc cap) c (shuffle c)
                  (permutes c)
                  (choose-IsFair weight draw bracket_draw limit min_brackets (suc cap) reader prev
                    personas distinct (omega arith)),
            )
      ],
    )
