-- ===== src/Dispatch/Wave/Slots.antt =====
-- The tasks of a wave by their numbers.
use Prim.Native.String.{String}
use text.Mathlib.Text.{◌==◌ as str_eq}
use text.Mathlib.TextEquality.{eq_iff}
use mathlib.Core.List.{Memᴰ}
use mathlib.Core.List.Memᴰ
use alpha_swarm.Prelude.{
  ℕ, zero, suc, ◌≤◌, ◌≡◌, refl, sym, ap, Bool, false, some, List, [], ◌∷◌, count, ◌==◌, arith,
}
use alpha_swarm.Dispatch.{HardStop, Call}
use alpha_swarm.Dispatch.Wave.{
  Task, running, was_cancelled, resolved, streamed, returned, stopped, Slot, Action, infers, fails,
  stops, writes, pushes, push_fails, cancels, raised, slot_at, put_slot,
}

abbrev pub calls_of : List Slot → List Call
calls_of [] = []
calls_of (s ∷ rest) = s.call ∷ calls_of rest

abbrev pub with_id : String → Call → Bool
with_id i c = str_eq c.persona.agent_id i

abbrev pub slot_id : Slot → String
slot_id s = s.call.persona.agent_id

pub slot_at-put_slot :
    (slots : List Slot) (i : ℕ) (s t : Slot)
    → slot_at slots i ≡ some t
    → slot_at (put_slot slots i s) i ≡ some s
slot_at-put_slot [] i s t e = cc
slot_at-put_slot (x ∷ rest) zero s t e = refl
slot_at-put_slot (x ∷ rest) (suc i) s t e = slot_at-put_slot rest i s t e

pub slot_at-put_slot_other :
    (slots : List Slot) (i j : ℕ) (s : Slot)
    → (i == j) ≡ false
    → slot_at (put_slot slots i s) j ≡ slot_at slots j
slot_at-put_slot_other [] i j s h = refl
slot_at-put_slot_other (x ∷ rest) zero zero s h = ground arith
slot_at-put_slot_other (x ∷ rest) zero (suc j) s h = refl
slot_at-put_slot_other (x ∷ rest) (suc i) zero s h = refl
slot_at-put_slot_other (x ∷ rest) (suc i) (suc j) s h =
    slot_at-put_slot_other rest i j s (ground (arith, h))

-- A task that has moved on has the call that it had.
pub calls_of-put_slot :
    (slots : List Slot) (i : ℕ) (s t : Slot)
    → slot_at slots i ≡ some t
    → s.call ≡ t.call
    → calls_of (put_slot slots i s) ≡ calls_of slots
calls_of-put_slot [] i s t e h = refl
calls_of-put_slot (x ∷ rest) zero s t e h = cc
calls_of-put_slot (x ∷ rest) (suc i) s t e h =
    ap (λ xs. x.call ∷ xs) (calls_of-put_slot rest i s t e h)

-- A task is counted by its id.
counted :
    (slots : List Slot) (i : ℕ) (s : Slot)
    → slot_at slots i ≡ some s
    → 1 ≤ count (with_id (slot_id s)) (calls_of slots)
counted [] i s e = cc
counted (x ∷ rest) zero s e =
    ground (arith, e, eq_iff (slot_id s) (slot_id s), eq_iff (slot_id x) (slot_id s))
counted (x ∷ rest) (suc i) s e = omega (arith, counted rest i s e)

-- With distinct ids, two tasks have two ids.
pub ids_differ :
    (slots : List Slot) (i j : ℕ) (s t : Slot)
    → ((k : String) → count (with_id k) (calls_of slots) ≤ 1)
    → slot_at slots i ≡ some s
    → slot_at slots j ≡ some t
    → (i == j) ≡ false
    → str_eq (slot_id s) (slot_id t) ≡ false
ids_differ [] i j s t d e f h = cc
ids_differ (x ∷ rest) zero zero s t d e f h = ground (arith, h)
ids_differ (x ∷ rest) zero (suc j) s t d e f h =
    let same : slot_id x ≡ slot_id s = cc in
    ground (
      arith,
      d (slot_id t),
      same,
      counted rest j t f,
      eq_iff (slot_id s) (slot_id t),
      eq_iff (slot_id x) (slot_id t),
    )
ids_differ (x ∷ rest) (suc i) zero s t d e f h =
    let same : slot_id x ≡ slot_id t = cc in
    ground (
      arith,
      d (slot_id s),
      same,
      counted rest i s e,
      eq_iff (slot_id s) (slot_id t),
      eq_iff (slot_id x) (slot_id s),
    )
ids_differ (x ∷ rest) (suc i) (suc j) s t d e f h =
    ids_differ rest i j s t (λ k. omega (arith, d k)) e f (ground (arith, h))

pub raised_stops : (t : Task) (a : Action) (x : HardStop) → Memᴰ x (raised t a) → a ≡ stops x
raised_stops running (stops h) x m = ap stops (sym (Memᴰ.eq_of_singleton m))
raised_stops running (infers d) x m = absurd (Memᴰ.not-nil m)
raised_stops running (fails e) x m = absurd (Memᴰ.not-nil m)
raised_stops running cancels x m = absurd (Memᴰ.not-nil m)
raised_stops running (writes fresh) x m = absurd (Memᴰ.not-nil m)
raised_stops running (pushes wall fresh) x m = absurd (Memᴰ.not-nil m)
raised_stops running push_fails x m = absurd (Memᴰ.not-nil m)
raised_stops (resolved d) a x m = absurd (Memᴰ.not-nil m)
raised_stops (streamed d) a x m = absurd (Memᴰ.not-nil m)
raised_stops (returned d) a x m = absurd (Memᴰ.not-nil m)
raised_stops (stopped h) a x m = absurd (Memᴰ.not-nil m)
raised_stops was_cancelled a x m = absurd (Memᴰ.not-nil m)
