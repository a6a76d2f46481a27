-- ===== src/Rounds/Calm.antt =====
-- A run in which nothing fails.
use alpha_swarm.Prelude.{
  ℕ, zero, suc, ◌+◌, ◌≤◌, ◌≡◌, refl, arith, Bool, true, false, ◌&&◌, Option, none, some, List, [],
  ◌∷◌, ◌==◌, length,
}
use alpha_swarm.Prelude.Texts.{Text}
use alpha_swarm.State.Types.{SimulationPhase}
use alpha_swarm.Rounds.{Decisions, round_failed, CycleStatus, Effect, Stop, Step, RoundOutcome}
use alpha_swarm.Rounds.Run.{
  World, Result, done, stopped, Run, pure, after, ◌>>=◌, ◌>>◌, perform, next_fault, closing,
  try_finally, best_effort, swallowed, when, drop, Setup, sink, write_shocks, already_active,
  decisions_of_round, influence, finish_round, outcome, with_shock, checked, run_round, consume,
  enter_round, run_rounds, seeding, describe, session, completing, cycle, terminal, run_simulation,
}
use alpha_swarm.Rounds.Protocol.{progress}
use alpha_swarm.Rounds.Refines.{completed, EndsInOrder, run_keeps_protocol}

-- It returns, with no fault to come.
abbrev pub Returns : {A : Type 0} → Result A × World → Type 0
Returns (done a, w) = w.faults ≡ []
Returns (stopped x, w) = ⊥

abbrev pub Calm : {A : Type 0} → Run A → Type 0
Calm m = (w : World) → w.faults ≡ [] → Returns (m w)

pure-Calm : {A : Type 0} (a : A) → Calm (pure a)
pure-Calm a w e = e

next-Returns :
    (e : Effect) (faults : List (Option Stop)) (trace : List Step)
    → faults ≡ []
    → Returns (next_fault e faults trace)
next-Returns e [] trace h = refl
next-Returns e (fault ∷ faults) trace h = cc

perform-Calm : (e : Effect) → Calm (perform e)
perform-Calm e w h = next-Returns e w.faults w.trace h

after-Returns :
    {A B : Type 0} (f : A → Run B)
    → ((a : A) → Calm (f a))
    → (r : Result A × World) → Returns r
    → Returns (after r f)
after-Returns f g (done a, w) h = g a w h
after-Returns f g (stopped x, w) h = absurd h

bind-Calm :
    {A B : Type 0} (m : Run A) (f : A → Run B) → Calm m → ((a : A) → Calm (f a)) → Calm (m >>= f)
bind-Calm m f l g w h = after-Returns f g (m w) (l w h)

seq-Calm : {B : Type 0} (m : Run Unit) (k : Run B) → Calm m → Calm k → Calm (m >> k)
seq-Calm m k l g = bind-Calm m (λ _. k) l (λ _. g)

when-Calm : (b : Bool) (m : Run Unit) → Calm m → Calm (when b m)
when-Calm true m l = l
when-Calm false m l = pure-Calm tt

closed-Returns :
    {A : Type 0} (a : A) (r : Result Unit × World)
    → Returns r
    → Returns (after r (λ _ w'. (done a, w')))
closed-Returns a (done u, w) h = h
closed-Returns a (stopped x, w) h = absurd h

closing-Returns :
    {A : Type 0} (close : Run Unit) (r : Result A × World)
    → Calm close
    → Returns r
    → Returns (closing r.0 close r.1)
closing-Returns close (done a, w) c h = closed-Returns a (close w) (c w h)
closing-Returns close (stopped x, w) c h = absurd h

finally-Calm :
    {A : Type 0} (m : Run A) (close : Run Unit) → Calm m → Calm close → Calm (try_finally m close)
finally-Calm m close l c w h = closing-Returns close (m w) c (l w h)

swallowed-Returns : (r : Result Unit × World) → Returns r → Returns (swallowed r)
swallowed-Returns (done a, w) h = h
swallowed-Returns (stopped x, w) h = absurd h

best_effort-Calm : (m : Run Unit) → Calm m → Calm (best_effort m)
best_effort-Calm m l w h = swallowed-Returns (m w) (l w h)

module _ (ctx : Setup) where
  -- Every wave has a decision for each agent, and few enough of them failed.
  abbrev pub Healthy : Type 0
  Healthy =
      (n : ℕ)
      → ((length (ctx.wave n) == length ctx.agent_ids) ≡ true)
        × (round_failed ctx.abort_percent (decisions_of_round ctx n) ≡ false)

  sink-Calm : (e : Effect) → Calm (sink ctx e)
  sink-Calm e = when-Calm ctx.has_state (perform e) (perform-Calm e)

  write_shocks-Calm : (n : ℕ) (texts : List Text) → Calm (write_shocks ctx n texts)
  write_shocks-Calm n [] = pure-Calm tt
  write_shocks-Calm n (t ∷ ts) =
      seq-Calm _ _ (perform-Calm (Effect.write_shock_event t n))
        (seq-Calm _ _ (sink-Calm (Effect.record_applied_shock t n)) (write_shocks-Calm n ts))

  influence-Calm :
      (n : ℕ) (ds : Decisions) (prev : Option RoundOutcome) → Calm (influence ctx n ds prev)
  influence-Calm n ds none = pure-Calm tt
  influence-Calm n ds (some prev) =
      seq-Calm _ _ (when-Calm _ _ (perform-Calm (Effect.compute_influence_edges n)))
        (sink-Calm (Effect.bump_edges_version n))

  finish_round-Calm :
      (n : ℕ) (prev : Option RoundOutcome) (shocks : List Text) (ds : Decisions)
      → Calm (finish_round ctx n prev shocks ds)
  finish_round-Calm n prev shocks ds =
      seq-Calm (perform (Effect.persist_round n ds)) _ (perform-Calm (Effect.persist_round n ds)) (
        seq-Calm (influence ctx n ds prev) _ (influence-Calm n ds prev) (
          seq-Calm (sink ctx (Effect.set_bracket_summaries n)) _
            (sink-Calm (Effect.set_bracket_summaries n))
            (seq-Calm (when ctx.has_callback (perform (Effect.on_round_complete n))) _
              (when-Calm ctx.has_callback _ (perform-Calm (Effect.on_round_complete n)))
              (seq-Calm (when ((n == 1) && ctx.retest_round1) (perform (Effect.retest_round1 n))) _
                (when-Calm ((n == 1) && ctx.retest_round1) _
                  (perform-Calm (Effect.retest_round1 n)))
                (pure-Calm (outcome n ds shocks))))))

  checked-Calm :
      (n : ℕ) (prev : Option RoundOutcome) (shocks : List Text) (aligned abort : Bool)
      → aligned ≡ true
      → abort ≡ false
      → Calm (checked ctx n prev shocks aligned abort)
  checked-Calm n prev shocks true false a b =
      finish_round-Calm n prev shocks (decisions_of_round ctx n)
  checked-Calm n prev shocks true true a b = cc
  checked-Calm n prev shocks false abort a b = cc

  run_round-Calm :
      Healthy
      → (n : ℕ) (prev : Option RoundOutcome) (shocks : List Text)
      → Calm (run_round ctx n prev shocks)
  unfolding run_round
  run_round-Calm healthy n prev shocks =
      seq-Calm (write_shocks ctx n (drop (already_active prev) shocks)) _
        (write_shocks-Calm n (drop (already_active prev) shocks))
        (seq-Calm (perform (Effect.dispatch_wave n)) _ (perform-Calm (Effect.dispatch_wave n))
          (checked-Calm n prev shocks _ _ (healthy n).0 (healthy n).1))

  consume-Calm : (n : ℕ) (shocks : List Text) → Calm (consume ctx n shocks)
  consume-Calm zero shocks = pure-Calm shocks
  consume-Calm (suc zero) shocks = pure-Calm shocks
  consume-Calm (suc (suc n)) shocks =
      seq-Calm (perform (Effect.consume_shock (n + 2) (ctx.shock (n + 2)))) _
        (perform-Calm (Effect.consume_shock (n + 2) (ctx.shock (n + 2))))
        (pure-Calm (with_shock shocks (ctx.shock (n + 2))))

  enter_round-Calm : (n : ℕ) → 1 ≤ n → n ≤ 3 → Calm (enter_round ctx n)
  enter_round-Calm zero h k = absurd (omega (arith, h))
  enter_round-Calm (suc zero) h k = seq-Calm _ _ (sink-Calm _) (sink-Calm (Effect.set_round 1))
  enter_round-Calm (suc (suc zero)) h k =
      seq-Calm _ _ (sink-Calm _) (sink-Calm (Effect.set_round 2))
  enter_round-Calm (suc (suc (suc zero))) h k =
      seq-Calm _ _ (sink-Calm _) (sink-Calm (Effect.set_round 3))
  enter_round-Calm (suc (suc (suc (suc n)))) h k = absurd (omega (arith, k))

  run_rounds-Calm :
      Healthy
      → (left n : ℕ) (prev : Option RoundOutcome) (shocks : List Text) → 1 ≤ n
      → n + left ≤ 4
      → Calm (run_rounds ctx left n prev shocks)
  unfolding run_rounds
  run_rounds-Calm healthy zero n prev shocks h k =
      sink-Calm (Effect.set_phase SimulationPhase.finalizing)
  run_rounds-Calm healthy (suc left) n prev shocks h k =
      seq-Calm (enter_round ctx n) _ (enter_round-Calm n h (omega (arith, k))) (
        bind-Calm (consume ctx n shocks) _ (consume-Calm n shocks) (λ new.
          bind-Calm (run_round ctx n prev new) _ (run_round-Calm healthy n prev new) (λ o.
            run_rounds-Calm healthy left (suc n) (some o) new (omega arith) (omega (arith, k)))))

  session-Calm : Healthy → ctx.num_rounds ≤ 3 → Calm (session ctx)
  unfolding session
  session-Calm healthy h =
      seq-Calm (perform Effect.start_monitoring) _ (perform-Calm Effect.start_monitoring) (
        finally-Calm _ (perform Effect.stop_monitoring)
          (seq-Calm (perform Effect.prepare) _ (perform-Calm Effect.prepare) (
            finally-Calm (run_rounds ctx ctx.num_rounds 1 none []) (perform Effect.teardown)
              (run_rounds-Calm healthy ctx.num_rounds 1 none [] (omega arith) (omega (arith, h)))
              (perform-Calm Effect.teardown)))
          (perform-Calm Effect.stop_monitoring))

  cycle-Calm : Healthy → ctx.num_rounds ≤ 3 → Calm (cycle ctx)
  unfolding cycle describe completing
  cycle-Calm healthy h =
      seq-Calm (describe ctx) _
        (seq-Calm _ _ (sink-Calm Effect.set_cycle) (
          seq-Calm _ _ (perform-Calm Effect.market_context) (
            seq-Calm _ _ (perform-Calm Effect.write_manifest) (perform-Calm Effect.read_entities))))
        (seq-Calm (session ctx) _ (session-Calm healthy h) (
          seq-Calm _ _
            (best_effort-Calm (perform Effect.write_cycle_metrics)
              (perform-Calm Effect.write_cycle_metrics))
            (seq-Calm _ _ (perform-Calm (Effect.set_cycle_status CycleStatus.complete))
              (sink-Calm (Effect.set_phase SimulationPhase.complete)))))

  terminal-Returns : (r : Result Unit × World) → Returns r → Returns (terminal ctx r)
  terminal-Returns (done a, w) h = h
  terminal-Returns (stopped x, w) h = absurd h

  seeding-Calm : Calm (seeding ctx)
  unfolding seeding
  seeding-Calm = seq-Calm _ _ (sink-Calm (Effect.set_phase SimulationPhase.idle)) (
      seq-Calm _ _ (sink-Calm Effect.set_num_rounds) (
        seq-Calm _ _ (sink-Calm (Effect.set_phase SimulationPhase.seeding))
          (seq-Calm _ _ (sink-Calm Effect.begin_run) (perform-Calm Effect.inject_seed))))

  run-Returns :
      Healthy
      → ctx.num_rounds ≤ 3
      → Returns (run_simulation ctx (record { faults = []; trace = [] }))
  unfolding run_simulation
  run-Returns healthy h =
      bind-Calm (seeding ctx) (λ _ w. terminal ctx (cycle ctx w)) seeding-Calm
        (λ a w e. terminal-Returns (cycle ctx w) (cycle-Calm healthy h w e))
        (record { faults = []; trace = [] }) refl

  -- The run has returned, and the protocol says of its trace that every round is persisted, every shock
  -- that was consumed is written, the worker is unloaded, the session closed and the cycle complete.
  abbrev pub IsCompleted : Result Unit × World → Type 0
  IsCompleted (done a, w) = progress ctx.num_rounds ctx.abort_percent w.trace ≡ some (completed ctx)
  IsCompleted (stopped x, w) = ⊥

  returned_in_order : (r : Result Unit × World) → Returns r → EndsInOrder ctx r → IsCompleted r
  returned_in_order (done a, w) h e = e
  returned_in_order (stopped x, w) h e = absurd h

  -- If every wave has a decision for each agent, too few of them failures to abort the round, there are
  -- at most three rounds and nothing else fails, the run returns and has completed the protocol: each
  -- round is dispatched and persisted, each consumed shock is written, the worker is unloaded, the session
  -- is closed and the cycle is marked complete.
  pub healthy_run-IsCompleted :
      Healthy
      → ctx.num_rounds ≤ 3
      → IsCompleted (run_simulation ctx (record { faults = []; trace = [] }))
  healthy_run-IsCompleted healthy h =
      returned_in_order (run_simulation ctx (record { faults = []; trace = [] }))
        (run-Returns healthy h) (run_keeps_protocol ctx [])
