-- ===== src/Rounds/Summaries/Counts.antt =====
-- What the summaries of a round count.
use Prim.Native.String.{String}
use text.Mathlib.Text.{◌==◌ as str_eq}
use text.Mathlib.TextEquality.{eq_iff}
use mathlib.Core.List.{Memᴰ}
use mathlib.Core.List.Memᴰ
use alpha_swarm.Prelude.{
  ℕ, ◌+◌, ◌≡◌, refl, ap, ◌∙◌, Bool, true, false, not, ◌&&◌, Option, none, some, List, [], ◌∷◌,
  if◌then◌else◌, length, count, keep, arith,
}
use alpha_swarm.Prelude.Int.{ℤ, ◌+ℤ◌}
use alpha_swarm.State.Types.{SignalType}
use alpha_swarm.Dispatch.{AgentDecision}
use alpha_swarm.Rounds.{Decisions, has_failed}
use alpha_swarm.Rounds.Summaries.{
  Tally, no_tally, Bracket, Summary, is_buy, is_sell, is_hold, add_decision, Tallies, start_tally,
  start_all, tally_of, tally_into, bracket_of, count_in, tally_one, tally_all, summaries_from,
  shown_name, compute_bracket_summaries,
}

abbrev names : String → Option String → Bool
names b none = false
names b (some c) = str_eq c b

-- A decision that did not fail, of an agent of the bracket.
abbrev pub is_member : String → List (String × String) → String × AgentDecision → Bool
is_member b personas (i, d) = not (has_failed (i, d)) && names b (bracket_of i personas)

abbrev pub signals : (SignalType → Bool) → String × AgentDecision → Bool
signals f (i, d) = f d.signal

abbrev pub sum_confidence : Decisions → ℕ
sum_confidence [] = 0
sum_confidence ((i, d) ∷ ds) = d.confidence + sum_confidence ds

abbrev pub sum_sentiment : ℤ → Decisions → ℤ
sum_sentiment z [] = z
sum_sentiment z ((i, d) ∷ ds) = sum_sentiment (z +ℤ d.sentiment) ds

-- The counters that stand for these decisions.
abbrev pub tally_over : Tally → Decisions → Tally
tally_over t ds = record {
  buy = t.buy + count (signals is_buy) ds;
  sell = t.sell + count (signals is_sell) ds;
  hold = t.hold + count (signals is_hold) ds;
  conf_sum = t.conf_sum + sum_confidence ds;
  sent_sum = sum_sentiment t.sent_sum ds;
  total = t.total + length ds;
}

abbrev added : AgentDecision → Option Tally → Option Tally
added d none = none
added d (some t) = some (add_decision d t)

abbrev all_added : Decisions → Option Tally → Option Tally
all_added [] o = o
all_added ((i, d) ∷ ds) o = all_added ds (added d o)

same_tally :
    (s t : Tally)
    → s.buy ≡ t.buy
    → s.sell ≡ t.sell
    → s.hold ≡ t.hold
    → s.conf_sum ≡ t.conf_sum
    → s.sent_sum ≡ t.sent_sum
    → s.total ≡ t.total
    → s ≡ t
same_tally s t a b c d e f = cc

all_added-some : (ds : Decisions) (t : Tally) → all_added ds (some t) ≡ some (tally_over t ds)
all_added-some [] t =
    ap some
      (same_tally _ _ (omega arith) (omega arith) (omega arith) (omega arith) refl (omega arith))
all_added-some ((i, d) ∷ ds) t =
    all_added-some ds (add_decision d t)
    ∙ ap some (
        same_tally _ _ (ground arith) (ground arith) (ground arith) (omega arith) refl
          (omega arith))

tally_of-tally_into :
    (b c : String) (d : AgentDecision) (acc : Tallies)
    → tally_of b (tally_into c d acc)
      ≡ (if str_eq c b then added d (tally_of b acc) else tally_of b acc)
tally_of-tally_into b c d [] = ground arith
tally_of-tally_into b c d ((k, t) ∷ rest) =
    ground (arith, eq_iff k c, eq_iff k b, eq_iff c b, tally_of-tally_into b c d rest)

tally_of-count_in :
    (b : String) (o : Option String) (d : AgentDecision) (acc : Tallies)
    → tally_of b (count_in o d acc)
      ≡ (if names b o then added d (tally_of b acc) else tally_of b acc)
tally_of-count_in b none d acc = refl
tally_of-count_in b (some c) d acc = tally_of-tally_into b c d acc

tally_of-tally_one :
    (b : String) (personas : List (String × String)) (x : String × AgentDecision) (acc : Tallies)
    → tally_of b (tally_one personas x acc)
      ≡ (if is_member b personas x then added x.1 (tally_of b acc) else tally_of b acc)
tally_of-tally_one b personas (i, d) acc =
    ground (arith, tally_of-count_in b (bracket_of i personas) d acc)

all_added-pick :
    (kept : Decisions) (i : String) (d : AgentDecision) (o : Option Tally) (member : Bool)
    → all_added kept (if member then added d o else o)
      ≡ all_added (elim member [ true ↦ (i, d) ∷ kept | false ↦ kept ]) o
all_added-pick kept i d o true = refl
all_added-pick kept i d o false = refl

tally_of-tally_all :
    (b : String) (personas : List (String × String)) (ds : Decisions) (acc : Tallies)
    → tally_of b (tally_all personas ds acc)
      ≡ all_added (keep (is_member b personas) ds) (tally_of b acc)
unfolding tally_all
tally_of-tally_all b personas [] acc = refl
tally_of-tally_all b personas ((i, d) ∷ ds) acc =
    tally_of-tally_all b personas ds (tally_one personas (i, d) acc)
    ∙ ap (all_added (keep (is_member b personas) ds)) (tally_of-tally_one b personas (i, d) acc)
    ∙ all_added-pick (keep (is_member b personas) ds) i d (tally_of b acc)
        (is_member b personas (i, d))

tally_of-start_tally :
    (b c : String) (acc : Tallies)
    → tally_of b (start_tally c acc) ≡ (if str_eq c b then some no_tally else tally_of b acc)
tally_of-start_tally b c [] = ground arith
tally_of-start_tally b c ((k, t) ∷ rest) =
    ground (arith, eq_iff k c, eq_iff k b, eq_iff c b, tally_of-start_tally b c rest)

stays_started :
    (b : String) (bs : List Bracket) (acc : Tallies)
    → tally_of b acc ≡ some no_tally
    → tally_of b (start_all bs acc) ≡ some no_tally
stays_started b [] acc h = h
stays_started b (c ∷ bs) acc h =
    stays_started b bs (start_tally c.bracket_type acc)
      (ground (arith, h, tally_of-start_tally b c.bracket_type acc))

all_started :
    (b : Bracket) (bs : List Bracket) (acc : Tallies)
    → Memᴰ b bs
    → tally_of b.bracket_type (start_all bs acc) ≡ some no_tally
all_started b [] acc m = absurd (Memᴰ.not-nil m)
all_started b (c ∷ bs) acc (Memᴰ.head e) =
    stays_started b.bracket_type bs (start_tally c.bracket_type acc) (
      ground (
        arith,
        ap (λ x. x.bracket_type) e,
        eq_iff c.bracket_type b.bracket_type,
        tally_of-start_tally b.bracket_type c.bracket_type acc,
      ))
all_started b (c ∷ bs) acc (Memᴰ.tail m) = all_started b bs (start_tally c.bracket_type acc) m

-- One bracket's summary, from the decisions of its members that did not fail.
abbrev pub summary_of : Decisions → List (String × String) → List Bracket → Bracket → Summary
summary_of ds personas all b = record {
  bracket = b.bracket_type;
  display_name = shown_name all b.bracket_type;
  tally = tally_over no_tally (keep (is_member b.bracket_type personas) ds);
}

abbrev pub each_of : Decisions → List (String × String) → List Bracket → List Bracket → List Summary
each_of ds personas all [] = []
each_of ds personas all (b ∷ bs) = summary_of ds personas all b ∷ each_of ds personas all bs

abbrev pub each_summary : Decisions → List (String × String) → List Bracket → List Summary
each_summary ds personas brackets = each_of ds personas brackets brackets

summaries_from-each :
    (ds : Decisions) (personas : List (String × String)) (all bs : List Bracket) (acc : Tallies)
    → ((b : Bracket) → Memᴰ b bs → tally_of b.bracket_type acc ≡ some no_tally)
    → summaries_from all bs (tally_all personas ds acc) ≡ each_of ds personas all bs
summaries_from-each ds personas all [] acc h = refl
summaries_from-each ds personas all (b ∷ bs) acc h =
    let found : tally_of b.bracket_type (tally_all personas ds acc)
        ≡ some (summary_of ds personas all b).tally =
      tally_of-tally_all b.bracket_type personas ds acc
      ∙ ap (all_added (keep (is_member b.bracket_type personas) ds)) (h b (Memᴰ.head refl))
      ∙ all_added-some (keep (is_member b.bracket_type personas) ds) no_tally in
    cc (found, summaries_from-each ds personas all bs acc (λ c m. h c (Memᴰ.tail m)))

-- The one pass over the decisions, with a counter for each bracket, gives for each bracket in order
-- the counters of its own decisions: how many there are, how many of them buy, sell and hold, and
-- the sums of their confidences and sentiments. Failed decisions and agents without a bracket count
-- nowhere.
pub summaries_count_members :
    (ds : Decisions) (personas : List (String × String)) (brackets : List Bracket)
    → compute_bracket_summaries ds personas brackets ≡ each_summary ds personas brackets
unfolding compute_bracket_summaries
summaries_count_members ds personas brackets =
    summaries_from-each ds personas brackets brackets (start_all brackets [])
      (λ b m. all_started b brackets [] m)
