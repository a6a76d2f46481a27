-- ===== src/Rounds/Refines.antt =====
-- A run keeps the protocol, whatever fails or is cancelled.
use alpha_swarm.Prelude.{
  ◌≡◌, refl, sym, ap, subst, ◌∙◌, true, false, Option, none, some, List, [], arith,
}
use alpha_swarm.State.Types.{SimulationPhase}
use alpha_swarm.Rounds.{CycleStatus, Effect, Stop, error, cancel}
use alpha_swarm.Rounds.Run.{
  World, Result, done, stopped, perform, best_effort, Setup, seeding, describe, session, completing,
  cycle, status_of, terminal, run_simulation,
}
use alpha_swarm.Rounds.Protocol.{Progress, nothing_done, progress}
use alpha_swarm.Rounds.Loop.{
  open_at, Live, only_if-true, Goes, seq-Goes, neutral-Goes, sink-Goes, run_rounds-Goes,
}
use alpha_swarm.Rounds.Steps.{
  Ends, Leads, perform-Leads, bind-Leads, closing-Leads, finally-Leads, best_effort-Leads,
}

-- The session is open without the worker, or closed.
abbrev Unloaded : Progress → Type 0
Unloaded s =
    (s.seeded ≡ true)
    × (s.status ≡ CycleStatus.running)
    × (s.monitoring ≡ true)
    × (s.prepared ≡ false)

abbrev Shut : Progress → Type 0
Shut s = (s.seeded ≡ true) × (s.monitoring ≡ false) × (s.prepared ≡ false)

module _ (ctx : Setup) where
  abbrev unload : Progress → Progress
  unload s = record s { prepared = false }

  abbrev shut : Progress → Progress
  shut s = record s { monitoring = false }

  -- teardown, from wherever the rounds stopped
  teardown-Leads :
      (s : Progress) (P : Unit → Progress → Type 0) (E : Progress → Type 0)
      → s.prepared ≡ true
      → P tt (unload s)
      → E (unload s)
      → Leads ctx.num_rounds ctx.abort_percent s (perform Effect.teardown) P E
  teardown-Leads s P E h p q =
      let t = unload s in
      perform-Leads ctx.num_rounds ctx.abort_percent Effect.teardown s t t P E (only_if-true _ _ h)
        p (only_if-true _ _ h) q

  stop-Leads :
      (s : Progress) (P : Unit → Progress → Type 0) (E : Progress → Type 0)
      → s.monitoring ≡ true
      → s.prepared ≡ false
      → P tt (shut s)
      → E (shut s)
      → Leads ctx.num_rounds ctx.abort_percent s (perform Effect.stop_monitoring) P E
  stop-Leads s P E h k p q =
      let t = shut s in
      perform-Leads ctx.num_rounds ctx.abort_percent Effect.stop_monitoring s t t P E
        (only_if-true _ _ (ground (arith, h, k))) p (only_if-true _ _ (ground (arith, h, k))) q

  abbrev seeded : Progress
  seeded = record nothing_done { seeded = true }

  abbrev all_persisted : Progress
  all_persisted = record (open_at ctx.num_rounds []) { prepared = false; monitoring = false }

  session-Goes : Goes ctx seeded (session ctx) all_persisted Shut
  unfolding session
  session-Goes =
      let s1 = record seeded { monitoring = true } in
      let ended = record (open_at ctx.num_rounds []) { prepared = false } in
      seq-Goes ctx seeded s1 _ _ (λ _ u. u ≡ all_persisted) Shut
        (perform-Leads ctx.num_rounds ctx.abort_percent Effect.start_monitoring seeded s1 seeded
          (λ _ u. u ≡ s1) Shut refl refl refl (refl, refl, refl))
        (finally-Leads ctx.num_rounds ctx.abort_percent s1 _ _ (λ _ u. u ≡ ended) Unloaded
          (λ _ u. u ≡ all_persisted) Shut
          (seq-Goes ctx s1 (open_at 0 []) _ _ (λ _ u. u ≡ ended) Unloaded
            (perform-Leads ctx.num_rounds ctx.abort_percent Effect.prepare s1 (open_at 0 []) s1
              (λ _ u. u ≡ open_at 0 []) Unloaded refl refl refl (refl, refl, refl, refl))
            (finally-Leads ctx.num_rounds ctx.abort_percent (open_at 0 []) _ _
              (λ _ u. u ≡ open_at ctx.num_rounds []) Live (λ _ u. u ≡ ended) Unloaded
              (run_rounds-Goes ctx ctx.num_rounds 0 none [] refl (omega arith))
              (λ a t e.
                teardown-Leads t (λ _ u. u ≡ ended) Unloaded (ap (λ u. u.prepared) e) (ap unload e)
                  (subst (λ u. Unloaded (unload u)) (sym e) (refl, refl, refl, refl)))
              (λ t h.
                teardown-Leads t (λ _. Unloaded) Unloaded h.3 (h.0, h.1, h.2, refl)
                  (h.0, h.1, h.2, refl))))
          (λ a t e.
            stop-Leads t (λ _ u. u ≡ all_persisted) Shut (ap (λ u. u.monitoring) e)
              (ap (λ u. u.prepared) e) (ap shut e)
              (subst (λ u. Shut (shut u)) (sym e) (refl, refl, refl)))
          (λ t h. stop-Leads t (λ _. Shut) Shut h.2 h.3 (h.0, refl, h.3) (h.0, refl, h.3)))

  abbrev Closed : Progress → Type 0
  Closed s = (s.monitoring ≡ false) × (s.prepared ≡ false)

  -- All rounds are persisted, the session is closed and the cycle is complete.
  abbrev pub completed : Progress
  completed = record all_persisted { status = CycleStatus.complete }

  describe-Goes : Goes ctx seeded (describe ctx) seeded Shut
  unfolding describe
  describe-Goes =
      seq-Goes ctx seeded seeded _ _ _ Shut
        (sink-Goes ctx Effect.set_cycle seeded Shut refl refl (refl, refl, refl))
        (seq-Goes ctx seeded seeded _ _ _ Shut
          (neutral-Goes ctx Effect.market_context seeded Shut refl refl (refl, refl, refl))
          (seq-Goes ctx seeded seeded _ _ _ Shut
            (neutral-Goes ctx Effect.write_manifest seeded Shut refl refl (refl, refl, refl))
            (neutral-Goes ctx Effect.read_entities seeded Shut refl refl (refl, refl, refl))))

  completing-Goes : Goes ctx all_persisted (completing ctx) completed Shut
  unfolding completing
  completing-Goes =
      let s = all_persisted in
      seq-Goes ctx s s _ _ _ Shut
        (best_effort-Leads ctx.num_rounds ctx.abort_percent s (perform Effect.write_cycle_metrics)
          (λ _ u. u ≡ s) (λ u. u ≡ s) Shut (λ t e. e) (λ t e. subst Shut (sym e) (refl, refl, refl))
          (neutral-Goes ctx Effect.write_cycle_metrics s (λ u. u ≡ s) refl refl refl))
        (seq-Goes ctx s completed _ _ _ Shut
          (perform-Leads ctx.num_rounds ctx.abort_percent
            (Effect.set_cycle_status CycleStatus.complete) s completed s (λ _ u. u ≡ completed) Shut
            (only_if-true _ _ (ground arith)) refl refl (refl, refl, refl))
          (sink-Goes ctx (Effect.set_phase SimulationPhase.complete) completed Shut refl refl
            (refl, refl, refl)))

  cycle-Goes : Goes ctx seeded (cycle ctx) completed Shut
  unfolding cycle
  cycle-Goes =
      seq-Goes ctx seeded seeded _ _ _ Shut describe-Goes
        (seq-Goes ctx seeded all_persisted _ _ _ Shut session-Goes completing-Goes)

  status-Leads :
      (x : Stop) (s : Progress)
      → Shut s
      → Leads ctx.num_rounds ctx.abort_percent s
          (best_effort (perform (Effect.set_cycle_status (status_of x))))
          (λ _. Closed)
          Closed
  status-Leads error s h =
      best_effort-Leads ctx.num_rounds ctx.abort_percent s _ (λ _. Closed) Closed Closed (λ t e. e)
        (λ t e. e)
        (perform-Leads ctx.num_rounds ctx.abort_percent _ s
          (record s { status = CycleStatus.failed }) s (λ _. Closed) Closed
          (only_if-true _ _ (ground (arith, h.0, h.1))) (h.1, h.2) refl (h.1, h.2))
  status-Leads cancel s h =
      best_effort-Leads ctx.num_rounds ctx.abort_percent s _ (λ _. Closed) Closed Closed (λ t e. e)
        (λ t e. e)
        (perform-Leads ctx.num_rounds ctx.abort_percent _ s
          (record s { status = CycleStatus.cancelled }) s (λ _. Closed) Closed
          (only_if-true _ _ (ground (arith, h.0, h.1))) (h.1, h.2) refl (h.1, h.2))

  terminal-Ends :
      (r : Result Unit × World)
      → Ends ctx.num_rounds ctx.abort_percent (λ _ u. u ≡ completed) Shut r
      → Ends ctx.num_rounds ctx.abort_percent (λ _ u. u ≡ completed) Closed (terminal ctx r)
  terminal-Ends (done a, w) e = e
  terminal-Ends (stopped x, w) e =
      closing-Leads ctx.num_rounds ctx.abort_percent
        (best_effort (perform (Effect.set_cycle_status (status_of x)))) (λ _ u. ⊥) Shut
        (λ _ u. u ≡ completed) Closed (λ a t e'. absurd e') (status-Leads x) (stopped x, w) e

  cycle-Ends :
      Leads ctx.num_rounds ctx.abort_percent seeded
        (λ w. terminal ctx (cycle ctx w))
        (λ _ u. u ≡ completed)
        Closed
  cycle-Ends w h = terminal-Ends (cycle ctx w) (cycle-Goes w h)

  run-Goes : Goes ctx nothing_done (run_simulation ctx) completed Closed
  unfolding run_simulation seeding
  run-Goes =
      let s = nothing_done in
      let closed : Closed s = (refl, refl) in
      bind-Leads ctx.num_rounds ctx.abort_percent s (seeding ctx) _ (λ _ u. u ≡ seeded) _ Closed
        (seq-Goes ctx s s _ _ _ Closed
          (sink-Goes ctx (Effect.set_phase SimulationPhase.idle) s Closed refl refl closed)
          (seq-Goes ctx s s _ _ _ Closed
            (sink-Goes ctx Effect.set_num_rounds s Closed refl refl closed)
            (seq-Goes ctx s s _ _ _ Closed
              (sink-Goes ctx (Effect.set_phase SimulationPhase.seeding) s Closed refl refl closed)
              (seq-Goes ctx s s _ _ _ Closed
                (sink-Goes ctx Effect.begin_run s Closed refl refl closed)
                (perform-Leads ctx.num_rounds ctx.abort_percent Effect.inject_seed s seeded s
                  (λ _ u. u ≡ seeded) Closed refl refl refl closed)))))
        (λ a u e.
          subst
            (λ v.
              Leads ctx.num_rounds ctx.abort_percent v (λ w. terminal ctx (cycle ctx w))
                (λ _ x. x ≡ completed) Closed)
            (sym e) cycle-Ends)

  -- The trace of a run is one that the protocol admits, up to its end.
  abbrev pub EndsInOrder : Result Unit × World → Type 0
  EndsInOrder (done a, w) = progress ctx.num_rounds ctx.abort_percent w.trace ≡ some completed
  EndsInOrder (stopped x, w) =
      (s : Progress) × (progress ctx.num_rounds ctx.abort_percent w.trace ≡ some s)
      × (s.monitoring ≡ false)
      × (s.prepared ≡ false)

  of_end :
      (r : Result Unit × World)
      → Ends ctx.num_rounds ctx.abort_percent (λ _ u. u ≡ completed) Closed r
      → EndsInOrder r
  of_end (done a, w) (s, h, e) = h ∙ ap some e
  of_end (stopped x, w) (s, h, c) = (s, h, c.0, c.1)

  -- Whatever fails or is cancelled, and however often, a run does only what the protocol admits: a wave
  -- goes out inside an open session with the worker loaded, after every round before it is persisted and
  -- every shock consumed so far is in the database, oldest first; a round is persisted once, after its
  -- wave and only if it did not fail; the cycle is marked complete only after all the rounds and after the
  -- session is closed. A run that returns has done all of this; one that stops has tried, once, to
  -- unload the worker if it was loaded and to stop the session if it was open: nothing is left open whose
  -- closing was not tried, though the closing itself may have failed.
  pub run_keeps_protocol :
      (faults : List (Option Stop))
      → EndsInOrder (run_simulation ctx (record { faults = faults; trace = [] }))
  unfolding progress
  run_keeps_protocol faults =
      let w : World = record { faults = faults; trace = [] } in
      of_end (run_simulation ctx w) (run-Goes w refl)
