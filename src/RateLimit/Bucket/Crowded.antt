-- ===== src/RateLimit/Bucket/Crowded.antt =====
-- What a refund gives back when others have used the bucket in between.
use alpha_swarm.Prelude.{ℕ, ◌-◌, ◌*◌, ◌≡◌, refl, List, [], ◌∷◌, arith}
use alpha_swarm.Prelude.Int.{ℤ, pos, ◌+ℤ◌, ◌-ℤ◌, min_ℤ, ◌≤ℤ◌, int_laws, min_ℤ_parts, sub_ℕ}
use alpha_swarm.RateLimit.Bucket.{Bucket, unit, refill, take_tokens, give_tokens}
use alpha_swarm.RateLimit.Bucket.Rate.{reserve_all}

-- The second bucket is the first one, less at most `u` units.
record Lags (u : ℕ) (a b : Bucket) : Type 0 where
  low : b.level ≤ℤ a.level
  high : a.level ≤ℤ b.level +ℤ pos u
  rate : a.rate_per_min ≡ b.rate_per_min
  clock : a.last_refill ≡ b.last_refill

-- A refill keeps the distance or lessens it, and so does taking the same from both.
taken_levels :
    (cap e w u : ℕ) (l m : ℤ)
    → m ≤ℤ l
    → l ≤ℤ m +ℤ pos u
    → (min_ℤ (pos cap) (m +ℤ pos e) -ℤ pos w ≤ℤ min_ℤ (pos cap) (l +ℤ pos e) -ℤ pos w)
      × (min_ℤ (pos cap) (l +ℤ pos e) -ℤ pos w ≤ℤ min_ℤ (pos cap) (m +ℤ pos e) -ℤ pos w +ℤ pos u)
taken_levels cap e w u l m h k =
    let p = min_ℤ_parts (pos cap) (l +ℤ pos e) in
    let q = min_ℤ_parts (pos cap) (m +ℤ pos e) in
    (omega (int_laws, h, k, p, q), omega (int_laws, h, k, p, q))

taken_levels_at :
    (rate rate' t t' now w u : ℕ) (l m : ℤ)
    → rate ≡ rate'
    → t ≡ t'
    → m ≤ℤ l
    → l ≤ℤ m +ℤ pos u
    → let a = min_ℤ (pos (rate * unit)) (l +ℤ pos ((now - t) * rate)) -ℤ pos w in
      let b = min_ℤ (pos (rate' * unit)) (m +ℤ pos ((now - t') * rate')) -ℤ pos w in
      (b ≤ℤ a) × (a ≤ℤ b +ℤ pos u)
taken_levels_at rate rate' t t' now w u l m e f h k =
    rw (e, f) (taken_levels (rate' * unit) ((now - t') * rate') w u l m h k)

take_tokens-Lags :
    (u n now : ℕ) (a b : Bucket) → Lags u a b → Lags u (take_tokens n now a) (take_tokens n now b)
unfolding take_tokens refill
take_tokens-Lags u n now a b h =
    let levels =
      taken_levels_at a.rate_per_min b.rate_per_min a.last_refill b.last_refill now (n * unit) u
        a.level b.level h.rate h.clock h.low h.high in
    record { low = levels.0; high = levels.1; rate = h.rate; clock = refl }

reserve_all-Lags :
    (u : ℕ) (l : List (ℕ × ℕ)) (a b : Bucket)
    → Lags u a b
    → Lags u (reserve_all l a) (reserve_all l b)
reserve_all-Lags u [] a b h = h
reserve_all-Lags u ((now, n) ∷ rest) a b h =
    reserve_all-Lags u rest (take_tokens n now a) (take_tokens n now b)
      (take_tokens-Lags u n now a b h)

first_levels : (m : ℤ) (u : ℕ) → (m -ℤ pos u ≤ℤ m) × (m ≤ℤ m -ℤ pos u +ℤ pos u)
first_levels m u = (omega int_laws, omega int_laws)

reserved-Lags : (n t : ℕ) (b : Bucket) → Lags (n * unit) (refill t b) (take_tokens n t b)
unfolding take_tokens refill
reserved-Lags n t b =
    let levels = first_levels (refill t b).level (n * unit) in
    record { low = levels.0; high = levels.1; rate = refl; clock = refl }

given_levels :
    (cap e u : ℕ) (l m : ℤ)
    → m ≤ℤ l
    → l ≤ℤ m +ℤ pos u
    → (min_ℤ (pos cap) (l +ℤ pos e) ≤ℤ min_ℤ (pos cap) (m +ℤ pos e) +ℤ sub_ℕ u 0)
      × (min_ℤ (pos cap) (m +ℤ pos e) +ℤ sub_ℕ u 0 ≤ℤ min_ℤ (pos cap) (l +ℤ pos e) +ℤ pos u)
given_levels cap e u l m h k =
    let p = min_ℤ_parts (pos cap) (l +ℤ pos e) in
    let q = min_ℤ_parts (pos cap) (m +ℤ pos e) in
    rw (all_of u) (omega (int_laws, h, k, p, q), omega (int_laws, h, k, p, q))
  where
    all_of : (n : ℕ) → sub_ℕ n 0 ≡ pos n
    all_of n = ground arith

given_levels_at :
    (rate rate' t t' now u : ℕ) (l m : ℤ)
    → rate ≡ rate'
    → t ≡ t'
    → m ≤ℤ l
    → l ≤ℤ m +ℤ pos u
    → let a = min_ℤ (pos (rate * unit)) (l +ℤ pos ((now - t) * rate)) in
      let b = min_ℤ (pos (rate' * unit)) (m +ℤ pos ((now - t') * rate')) in
      (a ≤ℤ b +ℤ sub_ℕ u 0) × (b +ℤ sub_ℕ u 0 ≤ℤ a +ℤ pos u)
given_levels_at rate rate' t t' now u l m e f h k =
    rw (e, f) (given_levels (rate' * unit) ((now - t') * rate') u l m h k)

given_close :
    (n t : ℕ) (a b : Bucket)
    → Lags (n * unit) a b
    → ((refill t a).level ≤ℤ (give_tokens (pos n) t b).level)
      × ((give_tokens (pos n) t b).level ≤ℤ (refill t a).level +ℤ pos (n * unit))
unfolding give_tokens refill
given_close n t a b h =
    given_levels_at a.rate_per_min b.rate_per_min a.last_refill b.last_refill t (n * unit) a.level
      b.level h.rate h.clock h.low h.high

-- Whatever other reservations come between a reservation of `n` tokens and its refund, and whenever: after
-- the refund the bucket holds at least what it would hold without the two, and at most `n` tokens more.
pub refund_stays_close :
    (n t1 t2 : ℕ) (l : List (ℕ × ℕ)) (b : Bucket)
    → let without = refill t2 (reserve_all l (refill t1 b)) in
      let refunded = give_tokens (pos n) t2 (reserve_all l (take_tokens n t1 b)) in
      (without.level ≤ℤ refunded.level) × (refunded.level ≤ℤ without.level +ℤ pos (n * unit))
refund_stays_close n t1 t2 l b =
    given_close n t2 (reserve_all l (refill t1 b)) (reserve_all l (take_tokens n t1 b))
      (reserve_all-Lags (n * unit) l (refill t1 b) (take_tokens n t1 b) (reserved-Lags n t1 b))
