-- ===== src/RateLimit/Bucket/Rate.antt =====
-- The rate that a bucket enforces.
use alpha_swarm.Prelude.{ℕ, ◌+◌, ◌-◌, ◌*◌, ◌≤◌, ◌≡◌, refl, List, [], ◌∷◌, arith}
use alpha_swarm.Prelude.Int.{ℤ, pos, neg_part, ◌+ℤ◌, min_ℤ, ◌≤ℤ◌, int_laws, min_ℤ_parts}
use alpha_swarm.RateLimit.Bucket.{Bucket, capacity, unit, refill, take_tokens, wait_for}

-- Reservations with their times, in order.
abbrev pub reserve_all : List (ℕ × ℕ) → Bucket → Bucket
reserve_all [] b = b
reserve_all ((now, n) ∷ rest) b = reserve_all rest (take_tokens n now b)

abbrev pub tokens : List (ℕ × ℕ) → ℕ
tokens [] = 0
tokens ((now, n) ∷ rest) = n + tokens rest

-- The clock does not go back.
abbrev pub InOrder : ℕ → List (ℕ × ℕ) → Type 0
InOrder t [] = Unit
InOrder t ((now, n) ∷ rest) = (t ≤ now) × InOrder now rest

abbrev pub last_time : ℕ → List (ℕ × ℕ) → ℕ
last_time t [] = t
last_time t ((now, n) ∷ rest) = last_time now rest

take_tokens_bound :
    (n now : ℕ) (b : Bucket)
    → b.last_refill ≤ now
    → let b' = take_tokens n now b in
      (b'.level +ℤ pos (n * unit) ≤ℤ b.level +ℤ pos ((now - b.last_refill) * b.rate_per_min))
      × (b'.last_refill ≡ now)
      × (b'.rate_per_min ≡ b.rate_per_min)
unfolding take_tokens refill
take_tokens_bound n now b h = (
  omega (
    int_laws,
    min_ℤ_parts (pos (capacity b)) (b.level +ℤ pos ((now - b.last_refill) * b.rate_per_min)),
  ),
  refl,
  refl,
)

elapsed : (t0 t1 t2 r : ℕ) → t0 ≤ t1 → t1 ≤ t2 → (t2 - t0) * r ≡ (t1 - t0) * r + (t2 - t1) * r
elapsed t0 t1 t2 r h k =
    let split : t2 - t0 ≡ (t1 - t0) + (t2 - t1) = omega arith in rw split (omega arith)

last_time_le : (t : ℕ) (l : List (ℕ × ℕ)) → InOrder t l → t ≤ last_time t l
last_time_le t [] h = omega arith
last_time_le t ((now, n) ∷ rest) h = omega (arith, h.0, last_time_le now rest h.1)

chain_levels :
    (l0 l1 l2 : ℤ) (n m e e1 e2 : ℕ)
    → e ≡ e1 + e2
    → l1 +ℤ pos (n * unit) ≤ℤ l0 +ℤ pos e1
    → l2 +ℤ pos (m * unit) ≤ℤ l1 +ℤ pos e2
    → l2 +ℤ pos ((n + m) * unit) ≤ℤ l0 +ℤ pos e
chain_levels l0 l1 l2 n m e e1 e2 h k i = omega int_laws

-- The first reservation of a window leaves at most what one capacity holds beside it.
take_tokens_cap :
    (n now : ℕ) (b : Bucket) → (take_tokens n now b).level +ℤ pos (n * unit) ≤ℤ pos (capacity b)
unfolding take_tokens refill
take_tokens_cap n now b = omega (
  int_laws,
  min_ℤ_parts (pos (capacity b)) (b.level +ℤ pos ((now - b.last_refill) * b.rate_per_min)),
)

window_bound :
    (l1 l2 : ℤ) (cap e n m : ℕ)
    → l1 +ℤ pos (n * unit) ≤ℤ pos cap
    → l2 +ℤ pos (m * unit) ≤ℤ l1 +ℤ pos e
    → (n + m) * unit ≤ cap + e + neg_part l2
window_bound l1 l2 cap e n m h k = omega int_laws

-- What has been taken never exceeds what was there and what has flowed in.
reserve_all_bound :
    (l : List (ℕ × ℕ)) (b : Bucket)
    → InOrder b.last_refill l
    → (reserve_all l b).level +ℤ pos (tokens l * unit)
      ≤ℤ b.level +ℤ pos ((last_time b.last_refill l - b.last_refill) * b.rate_per_min)
unfolding take_tokens refill
reserve_all_bound [] b h = omega int_laws
reserve_all_bound ((now, n) ∷ rest) b h =
    let b' = take_tokens n now b in
    chain_levels b.level b'.level (reserve_all rest b').level n (tokens rest) _ _ _
      (elapsed b.last_refill now (last_time now rest) b.rate_per_min h.0
        (last_time_le now rest h.1))
      (take_tokens_bound n now b h.0).0 (reserve_all_bound rest b' h.1)

-- Whatever level the bucket is at, and however long it has been idle, what a stretch of reservations
-- takes is within one capacity and the refill since the first of them: all their tokens, less the
-- deficit that the last callers still have to wait for, are within `capacity + rate * time`. Refunds may
-- have come before, but none comes within the stretch.
pub reserved_within_rate :
    (t n : ℕ) (rest : List (ℕ × ℕ)) (b : Bucket)
    → InOrder b.last_refill ((t, n) ∷ rest)
    → tokens ((t, n) ∷ rest) * unit
      ≤ capacity b
        + (last_time t rest - t) * b.rate_per_min
        + neg_part (reserve_all ((t, n) ∷ rest) b).level
unfolding take_tokens refill
reserved_within_rate t n rest b h =
    let b' = take_tokens n t b in
    window_bound b'.level (reserve_all rest b').level (capacity b) _ n (tokens rest)
      (take_tokens_cap n t b) (reserve_all_bound rest b' h.1)

same_time : (now d r : ℕ) → (now + d - now) * r ≡ d * r
same_time now d r = let e : now + d - now ≡ d = omega arith in rw e

-- What `wait_for` says in terms of the level.
deficit_of :
    (b : Bucket) (d : ℕ)
    → (wait_for b).owed ≤ d * (wait_for b).per_ms
    → neg_part b.level ≤ d * b.rate_per_min
unfolding wait_for
deficit_of b d h = ground arith

refilled : (l : ℤ) (cap e : ℕ) → neg_part l ≤ e → pos 0 ≤ℤ min_ℤ (pos cap) (l +ℤ pos e)
refilled l cap e h = omega (int_laws, min_ℤ_parts (pos cap) (l +ℤ pos e))

-- A caller that waits as long as `reserve` says, or longer, finds no deficit left by the
-- reservations up to its own.
pub wait_covers_deficit :
    (n now d : ℕ) (b : Bucket)
    → let wait = wait_for (take_tokens n now b) in
      wait.owed ≤ d * wait.per_ms → pos 0 ≤ℤ (refill (now + d) (take_tokens n now b)).level
unfolding refill take_tokens
wait_covers_deficit n now d b h =
    refilled (take_tokens n now b).level (capacity (take_tokens n now b)) _
      (rw (same_time now d b.rate_per_min) (deficit_of (take_tokens n now b) d h))
