-- ===== src/Dispatch/Wave/Accounts.antt =====
-- How a wave ends, whatever the order in which its tasks move.
use Prim.Native.String.{String}
use mathlib.Core.List.{Memᴰ}
use mathlib.Core.List.Memᴰ
use alpha_swarm.Prelude.{
  ℕ, suc, ◌+◌, ◌-◌, ◌≤◌, ◌<◌, ◌≡◌, refl, sym, ap, subst, ◌⊎◌, inl, inr, Option, none, some, List,
  [], ◌∷◌, ltb, length, count, arith, Bool-cases,
}
use alpha_swarm.Prelude.Texts.{Text}
use alpha_swarm.State.Store.{StateStore}
use alpha_swarm.Dispatch.{AgentDecision, HardStop, Call}
use alpha_swarm.Dispatch.Wave.{
  Task, running, was_cancelled, resolved, streamed, returned, stopped, Slot, Wave, stops, cancels,
  Event, slot_at, run, start_wave, Tasks, unfinished, some_cancelled, all_returned, add_task,
  collect, is_inference, WaveEnd, raises, cancelled, results, reported, settled, end_wave,
}
use alpha_swarm.Dispatch.Wave.Stands.{Shows, Decides, Stands}
use alpha_swarm.Dispatch.Wave.Slots.{calls_of, with_id, slot_id}
use alpha_swarm.Dispatch.Wave.Keeps.{run-Sound, start-Sound}

-- A task that its next action may still move.
abbrev pub Goes : Task → Type 0
Goes running = Unit
Goes (resolved d) = Unit
Goes (streamed d) = Unit
Goes (returned d) = ⊥
Goes (stopped h) = ⊥
Goes was_cancelled = ⊥

module _ (Happens : Event → Type 0) where
  -- Each decision is that of its call, in the order of the calls, and is shown.
  abbrev pub Decided : Option StateStore → ℕ → List Call → List AgentDecision → Type 0
  Decided store i [] [] = Unit
  Decided store i [] (d ∷ ds) = ⊥
  Decided store i (c ∷ cs) [] = ⊥
  Decided store i (c ∷ cs) (d ∷ ds) =
      Decides Happens i c.persona.agent_id d
      × Shows store c.persona.agent_id d
      × Decided store (i + 1) cs ds

  -- What the tasks from number `i` on have come to; `Stop` if one was stopped.
  abbrev CameTo : Type 0 → Option StateStore → ℕ → List Slot → Tasks → Type 0
  CameTo Stop store i slots unfinished =
      (j : ℕ) × (s : Slot) × (slot_at slots j ≡ some s) × Goes s.task
  CameTo Stop store i slots some_cancelled = (j : ℕ) × Happens (j, cancels)
  CameTo Stop store i slots (all_returned ds) = Stop ⊎ Decided store i (calls_of slots) ds

  came_further :
      (Stop : Type 0) (store : Option StateStore) (errors : List HardStop) (i : ℕ) (s : Slot)
      (rest : List Slot) (t : Task) (r : Tasks)
      → s.task ≡ t
      → ((h : HardStop) → Memᴰ h errors → Stop)
      → Stands Happens store errors i (slot_id s) t
      → CameTo Stop store (i + 1) rest r
      → CameTo Stop store i (s ∷ rest) (add_task t r)
  came_further Stop store errors i s rest running r e h st c = (0, s, refl, subst Goes (sym e) tt)
  came_further Stop store errors i s rest (resolved d) r e h st c =
      (0, s, refl, subst Goes (sym e) tt)
  came_further Stop store errors i s rest (streamed d) r e h st c =
      (0, s, refl, subst Goes (sym e) tt)
  came_further Stop store errors i s rest (stopped x) unfinished e h st (j, t, f, g) =
      (suc j, t, f, g)
  came_further Stop store errors i s rest (stopped x) some_cancelled e h st c = c
  came_further Stop store errors i s rest (stopped x) (all_returned ds) e h st c = inl (h x st.1)
  came_further Stop store errors i s rest was_cancelled unfinished e h st (j, t, f, g) =
      (suc j, t, f, g)
  came_further Stop store errors i s rest was_cancelled some_cancelled e h st c = c
  came_further Stop store errors i s rest was_cancelled (all_returned ds) e h st c = (i, st)
  came_further Stop store errors i s rest (returned d) unfinished e h st (j, t, f, g) =
      (suc j, t, f, g)
  came_further Stop store errors i s rest (returned d) some_cancelled e h st c = c
  came_further Stop store errors i s rest (returned d) (all_returned ds) e h st (inl x) = inl x
  came_further Stop store errors i s rest (returned d) (all_returned ds) e h st (inr x) =
      inr (st.0, st.1, x)

  collect_came :
      (Stop : Type 0) (store : Option StateStore) (errors : List HardStop) (i : ℕ)
      (slots : List Slot)
      → ((h : HardStop) → Memᴰ h errors → Stop)
      → ((j : ℕ) (s : Slot)
          → slot_at slots j ≡ some s
          → Stands Happens store errors (i + j) (slot_id s) s.task)
      → CameTo Stop store i slots (collect slots)
  collect_came Stop store errors i [] h st = inr tt
  collect_came Stop store errors i (s ∷ rest) h st =
      came_further Stop store errors i s rest s.task (collect rest) refl h
        (subst (λ n. Stands Happens store errors n (slot_id s) s.task) (omega arith) (st 0 s refl))
        (collect_came Stop store errors (i + 1) rest h (λ j t e.
          subst (λ n. Stands Happens store errors n (slot_id t) t.task) (omega arith)
            (st (suc j) t e)))

module _ {C : Type 0} (report : ℕ → ℕ → C → C) where
  -- The controller after so many decisions, `failures` of them without an inference.
  abbrev pub Hears : ℕ → List AgentDecision → C → C → Type 0
  Hears size ds before after =
      ((count is_inference ds ≡ 0) × (after ≡ before))
      ⊎ ((0 < count is_inference ds)
          × (after ≡ report (size - count is_inference ds) (count is_inference ds) before))

  -- What is known of the end of a wave.
  abbrev pub Accounts : List Call → (Event → Type 0) → Wave → C → Option (WaveEnd C) → Type 0
  Accounts calls Happens w governor none =
      (i : ℕ) × (s : Slot) × (slot_at w.slots i ≡ some s) × Goes s.task
  Accounts calls Happens w governor (some (raises h)) = (i : ℕ) × Happens (i, stops h)
  Accounts calls Happens w governor (some cancelled) = (i : ℕ) × Happens (i, cancels)
  Accounts calls Happens w governor (some (results ds after)) =
      Decided Happens w.store 0 calls ds × Hears (length calls) ds governor after

  reported-Hears :
      (size : ℕ) (ds : List AgentDecision) (governor : C)
      → length ds ≡ size
      → Hears size ds governor (reported report ds governor)
  reported-Hears size ds governor e = elim (Bool-cases (ltb 0 (count is_inference ds))) [
    | inl some_failed ↦ inr (
      ground (arith, some_failed),
      rw some_failed
          (ap (λ n. report (n - count is_inference ds) (count is_inference ds) governor) e),
    )
    | inr none_failed ↦ inl (ground (arith, none_failed), rw none_failed refl)
  ]

  length-Decided :
      (Happens : Event → Type 0) (store : Option StateStore) (i : ℕ) (cs : List Call)
      (ds : List AgentDecision)
      → Decided Happens store i cs ds
      → length ds ≡ length cs
  length-Decided Happens store i [] [] h = refl
  length-Decided Happens store i [] (d ∷ ds) h = absurd h
  length-Decided Happens store i (c ∷ cs) [] h = absurd h
  length-Decided Happens store i (c ∷ cs) (d ∷ ds) h =
      ap suc (length-Decided Happens store (i + 1) cs ds h.2)

  -- Without errors no task was stopped, so the decisions are those of all the calls.
  settled-Accounts :
      (calls : List Call) (Happens : Event → Type 0) (w : Wave) (governor : C)
      (errors : List HardStop) (t : Tasks)
      → calls_of w.slots ≡ calls
      → ((h : HardStop) → Memᴰ h errors → (i : ℕ) × Happens (i, stops h))
      → CameTo Happens ((h : HardStop) × Memᴰ h errors) w.store 0 w.slots t
      → Accounts calls Happens w governor (settled report errors t governor)
  settled-Accounts calls Happens w governor errors unfinished e r c = c
  settled-Accounts calls Happens w governor [] some_cancelled e r c = c
  settled-Accounts calls Happens w governor (h ∷ more) some_cancelled e r c = r h (Memᴰ.head refl)
  settled-Accounts calls Happens w governor (h ∷ more) (all_returned ds) e r c =
      r h (Memᴰ.head refl)
  settled-Accounts calls Happens w governor [] (all_returned ds) e r (inl x) =
      absurd (Memᴰ.not-nil x.1)
  settled-Accounts calls Happens w governor [] (all_returned ds) e r (inr x) =
      let decided = subst (λ cs. Decided Happens w.store 0 cs ds) e x in
      (
        decided,
        reported-Hears (length calls) ds governor
            (length-Decided Happens w.store 0 calls ds decided),
      )

  -- However the tasks of a wave are interleaved, and whatever befalls them, the personas having distinct
  -- ids: as long as `dispatch_wave` has not ended, some task may still move. If it raises a hard stop or is
  -- cancelled, then a task met that; a hard stop never turns into a decision. If it returns,
  -- the decisions stand in the order of the calls, each is what that call's inference gave or the
  -- PARSE_ERROR decision of the error that it failed with, and the store, if there is one, shows it; the
  -- controller is left alone if no inference failed, else it hears how many did and how many did not.
  pub wave_is_accounted :
      (sanitize : Text → String) (round_num : ℕ) (calls : List Call) (store : Option StateStore)
      (governor : C) (es : List Event)
      → ((k : String) → count (with_id k) calls ≤ 1)
      → let w = run sanitize (start_wave round_num calls store) es in
        Accounts calls (λ e. Memᴰ e es) w governor (end_wave report w governor)
  unfolding end_wave
  wave_is_accounted sanitize round_num calls store governor es distinct =
      let Happens : Event → Type 0 = λ e. Memᴰ e es in
      let w = run sanitize (start_wave round_num calls store) es in
      let g =
        run-Sound Happens sanitize calls es (start_wave round_num calls store) distinct (λ e m. m)
          (start-Sound Happens sanitize calls round_num store) in
      settled-Accounts calls Happens w governor w.errors (collect w.slots) g.same_calls
        g.each_raised
        (collect_came Happens ((h : HardStop) × Memᴰ h w.errors) w.store w.errors 0 w.slots
          (λ h m. (h, m))
          (λ j s e.
            subst (λ n. Stands Happens w.store w.errors n (slot_id s) s.task) (omega arith)
              (g.each_stands j s e)))
