-- ===== src/Dispatch/Wave/Keeps.antt =====
-- What holds of a wave at every moment: where each task stands, whose calls are the wave's, and what
-- stopped it.
use Prim.Native.String.{String}
use mathlib.Core.List.{Memᴰ}
use mathlib.Core.List.Memᴰ
use alpha_swarm.Prelude.{
  ℕ, zero, suc, ◌≤◌, ◌≡◌, refl, sym, ap, subst, ◌∙◌, inl, inr, Option, none, some, List, [], ◌∷◌,
  ◌++◌, count, ◌==◌, arith, Bool-cases,
}
use alpha_swarm.Prelude.Texts.{Text}
use alpha_swarm.State.Store.{StateStore}
use alpha_swarm.Dispatch.{HardStop, Call}
use alpha_swarm.Dispatch.Wave.{
  running, Slot, Wave, Action, stops, Event, next, write, raised, slot_at, put_slot, act, step, run,
  waiting, start_wave,
}
use alpha_swarm.Dispatch.Wave.Stands.{Stands, own_action, Shows-write, other-Stands}
use alpha_swarm.Dispatch.Wave.Slots.{
  calls_of, with_id, slot_id, slot_at-put_slot, slot_at-put_slot_other, calls_of-put_slot,
  ids_differ, raised_stops,
}

module _ (Happens : Event → Type 0) (sanitize : Text → String) (calls : List Call) where
  -- Where every task stands, whose calls are the wave's, and what stopped it.
  pub record Sound (w : Wave) : Type 0 where
    pub same_calls : calls_of w.slots ≡ calls
    pub each_stands :
        (i : ℕ) (s : Slot)
        → slot_at w.slots i ≡ some s
        → Stands Happens w.store w.errors i (slot_id s) s.task
    pub each_raised : (h : HardStop) → Memᴰ h w.errors → (i : ℕ) × Happens (i, stops h)

  abbrev moved_slot : Option StateStore → Slot → Action → Slot
  moved_slot store slot a = record slot { task = next store (slot_id slot) slot.task a }

  moved-Stands :
      (i j : ℕ) (a : Action) (w : Wave) (slot s : Slot)
      → Happens (i, a)
      → Stands Happens w.store w.errors i (slot_id slot) slot.task
      → slot_at w.slots i ≡ some slot
      → i ≡ j
      → slot_at (put_slot w.slots i (moved_slot w.store slot a)) j ≡ some s
      → Stands Happens
          (write sanitize w.round_num (slot_id slot) slot.task a w.store)
          (w.errors ++ raised slot.task a)
          j
          (slot_id s)
          s.task
  moved-Stands i j a w slot s h stands e same f =
      let store = write sanitize w.round_num (slot_id slot) slot.task a w.store in
      let errors = w.errors ++ raised slot.task a in
      let placed = slot_at-put_slot w.slots i (moved_slot w.store slot a) slot e in
      let new : moved_slot w.store slot a ≡ s = cc (placed, same, f) in
      subst (λ n. Stands Happens store errors n (slot_id s) s.task) same
        (subst (λ x. Stands Happens store errors i (slot_id x) x.task) new
          (own_action Happens sanitize w.round_num w.store w.errors i (slot_id slot) slot.task a h
            stands))

  act-Sound :
      (i : ℕ) (a : Action) (w : Wave) (o : Option Slot)
      → ((k : String) → count (with_id k) calls ≤ 1)
      → slot_at w.slots i ≡ o
      → Happens (i, a)
      → Sound w
      → Sound (act sanitize i a w o)
  act-Sound i a w none d e h g = g
  act-Sound i a w (some slot) d e h g = record {
    same_calls = calls_of-put_slot w.slots i _ slot e refl ∙ g.same_calls;
    each_stands = λ j s f. elim (Bool-cases (i == j)) [
      | inl same ↦ moved-Stands i j a w slot s h (g.each_stands i slot e) e (ground (arith, same)) f
      | inr other ↦
          other-Stands Happens sanitize w.store _ w.errors (raised slot.task a) j (slot_id s) s.task
            (λ x.
              Shows-write Happens sanitize w.round_num w.store (slot_id slot) (slot_id s) slot.task
                a x
                (ids_differ w.slots i j slot s
                  (subst (λ cs. (k : String) → count (with_id k) cs ≤ 1) (sym g.same_calls) d) e
                  (sym (slot_at-put_slot_other w.slots i j _ other) ∙ f) other))
            (g.each_stands j s (sym (slot_at-put_slot_other w.slots i j _ other) ∙ f))
    ];
    each_raised = λ x m. elim (Memᴰ.append_cases w.errors m) [
      | inl before ↦ g.each_raised x before
      | inr now ↦ (i, subst (λ y. Happens (i, y)) (raised_stops slot.task a x now) h)
    ];
  }

  pub run-Sound :
      (es : List Event) (w : Wave)
      → ((k : String) → count (with_id k) calls ≤ 1)
      → ((e : Event) → Memᴰ e es → Happens e)
      → Sound w
      → Sound (run sanitize w es)
  unfolding run step
  run-Sound [] w d h g = g
  run-Sound ((i, a) ∷ rest) w d h g =
      run-Sound rest (act sanitize i a w (slot_at w.slots i)) d (λ e m. h e (Memᴰ.tail m))
        (act-Sound i a w (slot_at w.slots i) d refl (h (i, a) (Memᴰ.head refl)) g)

  calls_of-waiting : (cs : List Call) → calls_of (waiting cs) ≡ cs
  calls_of-waiting [] = refl
  calls_of-waiting (c ∷ rest) = ap (λ xs. c ∷ xs) (calls_of-waiting rest)

  waiting-Stands :
      (cs : List Call) (store : Option StateStore) (errors : List HardStop) (n i : ℕ) (s : Slot)
      → slot_at (waiting cs) i ≡ some s
      → Stands Happens store errors n (slot_id s) s.task
  waiting-Stands [] store errors n i s e = cc
  waiting-Stands (c ∷ rest) store errors n zero s e =
      let new : record { call = c; task = running } ≡ s = cc in
      subst (λ x. Stands Happens store errors n (slot_id x) x.task) new tt
  waiting-Stands (c ∷ rest) store errors n (suc i) s e = waiting-Stands rest store errors n i s e

  pub start-Sound :
      (round_num : ℕ) (store : Option StateStore) → Sound (start_wave round_num calls store)
  unfolding start_wave
  start-Sound round_num store = record {
    same_calls = calls_of-waiting calls;
    each_stands = λ i s e. waiting-Stands calls store [] i i s e;
    each_raised = λ h m. absurd (Memᴰ.not-nil m);
  }
