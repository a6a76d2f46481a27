-- ===== src/RateLimit/Bucket/Refunds.antt =====
-- What a refund gives back.
use alpha_swarm.Prelude.{ℕ, ◌+◌, ◌-◌, ◌*◌, ◌≤◌, ◌≡◌, ap, arith}
use alpha_swarm.Prelude.Int.{
  ℤ, pos, pos_part, neg_part, sub_ℕ, ◌+ℤ◌, ◌-ℤ◌, min_ℤ, int_laws, min_ℤ_parts,
}
use alpha_swarm.RateLimit.Bucket.{Bucket, capacity, unit, refill, take_tokens, give_tokens}

-- The levels of a reservation at a first time and its refund at a second one.
refund_levels :
    (cap e1 e2 u : ℕ) (l : ℤ)
    → min_ℤ
        (pos cap)
        (min_ℤ (pos cap) (min_ℤ (pos cap) (l +ℤ pos e1) -ℤ pos u +ℤ pos e2) +ℤ pos u +ℤ pos 0)
      ≡ min_ℤ (pos cap) (l +ℤ pos (e1 + e2))
refund_levels cap e1 e2 u l =
    let m1 = min_ℤ (pos cap) (l +ℤ pos e1) in
    let m2 = min_ℤ (pos cap) (m1 -ℤ pos u +ℤ pos e2) in
    omega (
      int_laws,
      min_ℤ_parts (pos cap) (l +ℤ pos e1),
      min_ℤ_parts (pos cap) (m1 -ℤ pos u +ℤ pos e2),
      min_ℤ_parts (pos cap) (m2 +ℤ pos u +ℤ pos 0),
      min_ℤ_parts (pos cap) (l +ℤ pos (e1 + e2)),
    )

units_of_pos : (n : ℕ) → sub_ℕ (n * unit) 0 ≡ pos (n * unit)
units_of_pos n = ground arith

no_time : (t r : ℕ) → (t - t) * r ≡ 0
no_time t r = grind arith

elapsed : (t0 t1 t2 r : ℕ) → t0 ≤ t1 → t1 ≤ t2 → (t2 - t0) * r ≡ (t1 - t0) * r + (t2 - t1) * r
elapsed t0 t1 t2 r h k =
    let split : t2 - t0 ≡ (t1 - t0) + (t2 - t1) = omega arith in rw split (omega arith)

-- If nothing uses the bucket between a reservation and its refund, the two leave no trace: from the
-- next refill on, whenever the refund came, the bucket is the one that never saw the reservation.
pub refund_restores :
    (n t1 t2 : ℕ) (b : Bucket)
    → b.last_refill ≤ t1
    → t1 ≤ t2
    → refill t2 (give_tokens (pos n) t2 (take_tokens n t1 b)) ≡ refill t2 b
unfolding refill take_tokens give_tokens
refund_restores n t1 t2 b h k =
    ap (λ l. record b { level = l; last_refill = t2 })
      (rw
        (units_of_pos n, no_time t2 b.rate_per_min, elapsed b.last_refill t1 t2 b.rate_per_min h k)
        (refund_levels (capacity b) ((t1 - b.last_refill) * b.rate_per_min)
          ((t2 - t1) * b.rate_per_min) (n * unit) b.level))

-- The level of a full bucket after a reservation of `u` units, enough time to refill them, a
-- reservation of `w` units and the refund of the first.
crowded_levels :
    (cap e u w : ℕ) (l : ℤ)
    → u ≤ e
    → pos_part l ≡ cap
    → neg_part l ≡ 0
    → min_ℤ
          (pos cap)
          (min_ℤ (pos cap) (min_ℤ (pos cap) (l +ℤ pos 0) -ℤ pos u +ℤ pos e) -ℤ pos w +ℤ pos 0)
        +ℤ pos u
      ≡ min_ℤ (pos cap) (l +ℤ pos e) -ℤ pos w +ℤ pos u
crowded_levels cap e u w l h p q =
    let m1 = min_ℤ (pos cap) (l +ℤ pos 0) in
    let m2 = min_ℤ (pos cap) (m1 -ℤ pos u +ℤ pos e) in
    omega (
      int_laws,
      min_ℤ_parts (pos cap) (l +ℤ pos 0),
      min_ℤ_parts (pos cap) (m1 -ℤ pos u +ℤ pos e),
      min_ℤ_parts (pos cap) (m2 -ℤ pos w +ℤ pos 0),
      min_ℤ_parts (pos cap) (l +ℤ pos e),
    )

-- A refund after the bucket has filled up again gives more than the reservation took: with another
-- reservation in between, a full bucket ends `n` whole tokens above the one that never saw the
-- refunded reservation.
pub late_refund_over_grants :
    (n m t0 t1 : ℕ) (b : Bucket)
    → b.last_refill ≡ t0
    → b.level ≡ pos (capacity b)
    → t0 ≤ t1
    → n * unit ≤ (t1 - t0) * b.rate_per_min
    → (give_tokens (pos n) t1 (take_tokens m t1 (take_tokens n t0 b))).level
      ≡ (take_tokens m t1 b).level +ℤ pos (n * unit)
unfolding refill take_tokens give_tokens
late_refund_over_grants n m t0 t1 b start brim h room =
    rw (start, units_of_pos n, no_time t0 b.rate_per_min, no_time t1 b.rate_per_min)
      (crowded_levels (capacity b) ((t1 - t0) * b.rate_per_min) (n * unit) (m * unit) b.level room
        (ap pos_part brim) (ap neg_part brim))
