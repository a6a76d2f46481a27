-- ===== src/State/Store/Windows.antt =====
-- The sliding window of finished tokens.
use alpha_swarm.Prelude.{
  ℕ, zero, suc, ◌+◌, ◌≤◌, ◌<◌, ◌≡◌, refl, ◌∙◌, List, [], ◌∷◌, ◌++◌, leb, ◌==◌, false, Bool-cases,
  inl, inr, if◌then◌else◌, arith,
}
use alpha_swarm.State.Store.{
  StateStore, record_tokens, prune, window_tokens, sum_tokens, tps_window,
}

-- Finished calls: when, and how many tokens.
abbrev pub Calls : Type 0
Calls = List (ℕ × ℕ)

-- The tokens of the calls that finished less than a window before `now`.
abbrev pub recent : ℕ → Calls → ℕ
recent now [] = 0
recent now ((stamp, n) ∷ rest) = (if leb (stamp + tps_window) now then 0 else n) + recent now rest

-- Stamps that rise from `lo` to at most `hi`.
abbrev pub Rising : ℕ → ℕ → Calls → Type 0
Rising lo hi [] = lo ≤ hi
Rising lo hi ((stamp, n) ∷ rest) = (lo ≤ stamp) × Rising stamp hi rest

Rising-lower : (lo lo' hi : ℕ) (w : Calls) → lo ≤ lo' → Rising lo' hi w → Rising lo hi w
Rising-lower lo lo' hi [] h r = omega arith
Rising-lower lo lo' hi ((stamp, n) ∷ rest) h r = (omega arith, r.1)

Rising-append :
    (lo hi now n : ℕ) (w : Calls) → Rising lo hi w → hi ≤ now → Rising lo now (w ++ (now, n) ∷ [])
Rising-append lo hi now n [] r h = omega arith
Rising-append lo hi now n ((stamp, m) ∷ rest) r h = (r.0, Rising-append stamp hi now n rest r.1 h)

Rising-prune : (lo hi now : ℕ) (w : Calls) → Rising lo hi w → Rising lo hi (prune now w)
unfolding prune
Rising-prune lo hi now [] r = r
Rising-prune lo hi now ((stamp, n) ∷ rest) r = elim (Bool-cases (leb (stamp + tps_window) now)) [
  | inl old ↦ rw old (Rising-lower lo stamp hi _ r.0 (Rising-prune stamp hi now rest r.1))
  | inr new ↦ rw new r
]

recent-append :
    (now stamp n : ℕ) (w : Calls)
    → recent now (w ++ (stamp, n) ∷ []) ≡ recent now w + recent now ((stamp, n) ∷ [])
recent-append now stamp n [] = omega arith
recent-append now stamp n ((t, m) ∷ rest) = ground (arith, recent-append now stamp n rest)

-- What pruning drops would not count later either.
recent-prune :
    (now later : ℕ) (w : Calls) → now ≤ later → recent later (prune now w) ≡ recent later w
unfolding prune
recent-prune now later [] h = refl
recent-prune now later ((stamp, n) ∷ rest) h = ground (arith, recent-prune now later rest h)

-- A rising window that begins inside the window counts in full.
sum_of_recent :
    (now lo hi : ℕ) (w : Calls)
    → Rising lo hi w
    → now < lo + tps_window
    → sum_tokens w ≡ recent now w
sum_of_recent now lo hi [] r h = refl
sum_of_recent now lo hi ((stamp, n) ∷ rest) r h =
    ground (arith, sum_of_recent now stamp hi rest r.1)

sum-prune : (now lo hi : ℕ) (w : Calls) → Rising lo hi w → sum_tokens (prune now w) ≡ recent now w
unfolding prune
sum-prune now lo hi [] r = refl
sum-prune now lo hi ((stamp, n) ∷ rest) r =
    ground (arith, sum-prune now stamp hi rest r.1, sum_of_recent now stamp hi rest r.1)

abbrev pub record_all : Calls → ℕ → StateStore → StateStore
record_all [] fresh s = s
record_all ((now, n) ∷ rest) fresh s = record_all rest fresh (record_tokens n now fresh s)

Rising-upper : (lo hi hi' : ℕ) (w : Calls) → Rising lo hi w → hi ≤ hi' → Rising lo hi' w
Rising-upper lo hi hi' [] r h = omega arith
Rising-upper lo hi hi' ((stamp, n) ∷ rest) r h = (r.0, Rising-upper stamp hi hi' rest r.1 h)

Rising-ends : (lo hi : ℕ) (w : Calls) → Rising lo hi w → lo ≤ hi
Rising-ends lo hi [] r = r
Rising-ends lo hi ((stamp, n) ∷ rest) r = omega (arith, r.0, Rising-ends stamp hi rest r.1)

-- One recorded call: the window stays rising, and counts the call as long as it is recent.
recorded_call :
    (n now fresh lo hi later : ℕ) (s : StateStore)
    → Rising lo hi s.token_window
    → hi ≤ now
    → now ≤ later
    → let w = (record_tokens n now fresh s).token_window in
      Rising lo now w
      × (recent later w ≡ recent later s.token_window + recent later ((now, n) ∷ []))
unfolding record_tokens
recorded_call zero now fresh lo hi later s r h k =
    (Rising-upper lo hi now s.token_window r h, ground arith)
recorded_call (suc n) now fresh lo hi later s r h k =
    let w = s.token_window ++ (now, suc n) ∷ [] in
    let counts : (suc n == 0) ≡ false = ground arith in
    rw counts (
      Rising-prune lo now now w (Rising-append lo hi now (suc n) s.token_window r h),
      recent-prune now later w k ∙ recent-append later now (suc n) s.token_window,
    )

recorded :
    (calls : Calls) (fresh lo hi end later : ℕ) (s : StateStore)
    → Rising lo hi s.token_window
    → Rising hi end calls
    → end ≤ later
    → (window_tokens later (record_all calls fresh s)).0
      ≡ recent later s.token_window + recent later calls
unfolding window_tokens
recorded [] fresh lo hi end later s r c h = omega (arith, sum-prune later lo hi s.token_window r)
recorded ((now, n) ∷ rest) fresh lo hi end later s r c h =
    let s1 = record_tokens n now fresh s in
    let ends = Rising-ends now end rest c.1 in
    let (rising, counted) = recorded_call n now fresh lo hi later s r c.0 (omega arith) in
    omega (arith, counted, recorded rest fresh lo now end later s1 rising c.1 h)

-- The live token count is the right one: after calls that finish in order, recorded on an empty
-- window, a read of the window at a later time counts the tokens of exactly those calls that
-- finished less than ten seconds before it, whatever has been dropped in between.
pub window_counts_recent :
    (calls : Calls) (fresh end later : ℕ) (s : StateStore)
    → s.token_window ≡ []
    → Rising 0 end calls
    → end ≤ later
    → (window_tokens later (record_all calls fresh s)).0 ≡ recent later calls
window_counts_recent calls fresh end later s e c h =
    recorded calls fresh 0 0 end later s (rw e (omega arith)) c h ∙ rw e (omega arith)
