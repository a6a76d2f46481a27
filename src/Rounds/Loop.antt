-- ===== src/Rounds/Loop.antt =====
-- The rounds of a run keep the protocol, from one round to the next.
use alpha_swarm.Prelude.{
  ℕ, zero, suc, ◌+◌, ◌≡◌, refl, sym, ap, subst, Bool, true, false, ◌&&◌, Option, none, some, List,
  [], ◌∷◌, ◌++◌, ◌==◌, length, arith,
}
use alpha_swarm.Prelude.Texts.{Text}
use alpha_swarm.State.Types.{SimulationPhase}
use alpha_swarm.Rounds.{Decisions, round_failed, CycleStatus, Effect, error, RoundOutcome}
use alpha_swarm.Rounds.Run.{
  Run, pure, ◌>>◌, perform, when, drop, Setup, sink, phase_of_round, enter_as, write_shocks,
  already_active, decisions_of_round, influence, outcome, finish_round, checked, run_round,
  with_shock, consume, run_rounds,
}
use alpha_swarm.Rounds.Protocol.{Progress, due_after, only_if, accept_done, accept_failed}
use alpha_swarm.Rounds.Steps.{Leads, pure-Leads, raise-Leads, perform-Leads, bind-Leads, when-Leads}

-- Between two rounds: so many are persisted, and these shocks are due.
abbrev pub open_at : ℕ → List Text → Progress
open_at n due = record {
  seeded = true;
  status = CycleStatus.running;
  monitoring = true;
  prepared = true;
  dispatched = n;
  persisted = n;
  due = due;
}

abbrev pub waved : ℕ → Progress
waved n = record (open_at n []) { dispatched = suc n }

-- The session is open with the worker loaded.
abbrev pub Live : Progress → Type 0
Live s =
    (s.seeded ≡ true)
    × (s.status ≡ CycleStatus.running)
    × (s.monitoring ≡ true)
    × (s.prepared ≡ true)

drop-length : (xs ys : List Text) → drop (length xs) (xs ++ ys) ≡ ys
drop-length [] ys = refl
drop-length (x ∷ xs) ys = drop-length xs ys

drop-length_all : (xs : List Text) → drop (length xs) xs ≡ []
drop-length_all [] = refl
drop-length_all (x ∷ xs) = drop-length_all xs

drop-with_shock :
    (xs : List Text) (o : Option Text) → drop (length xs) (with_shock xs o) ≡ due_after o []
drop-with_shock xs none = drop-length_all xs
drop-with_shock xs (some []) = drop-length_all xs
drop-with_shock xs (some (c ∷ text)) = drop-length xs ((c ∷ text) ∷ [])

pub only_if-true : (b : Bool) (s : Progress) → b ≡ true → only_if b s ≡ some s
only_if-true true s h = refl
only_if-true false s h = ground (arith, h)

module _ (ctx : Setup) where
  -- Steps from one known progress to another.
  abbrev pub Goes : {A : Type 0} → Progress → Run A → Progress → (Progress → Type 0) → Type 0
  Goes s m t E = Leads ctx.num_rounds ctx.abort_percent s m (λ _ u. u ≡ t) E

  pub seq-Goes :
      {B : Type 0} (s t : Progress) (m : Run Unit) (k : Run B) (P : B → Progress → Type 0)
      (E : Progress → Type 0)
      → Goes s m t E
      → Leads ctx.num_rounds ctx.abort_percent t k P E
      → Leads ctx.num_rounds ctx.abort_percent s (m >> k) P E
  seq-Goes s t m k P E l g =
      bind-Leads ctx.num_rounds ctx.abort_percent s m (λ _. k) (λ _ u. u ≡ t) P E l
        (λ a u e. subst (λ v. Leads ctx.num_rounds ctx.abort_percent v k P E) (sym e) g)

  pub neutral-Goes :
      (e : Effect) (s : Progress) (E : Progress → Type 0)
      → accept_done ctx.num_rounds ctx.abort_percent e s ≡ some s
      → accept_failed ctx.num_rounds ctx.abort_percent e s ≡ some s
      → E s
      → Goes s (perform e) s E
  neutral-Goes e s E a b q =
      perform-Leads ctx.num_rounds ctx.abort_percent e s s s (λ _ u. u ≡ s) E a refl b q

  when-Goes :
      (b : Bool) (s : Progress) (m : Run Unit) (E : Progress → Type 0)
      → Goes s m s E
      → Goes s (when b m) s E
  when-Goes b s m E l =
      when-Leads ctx.num_rounds ctx.abort_percent b s m (λ _ u. u ≡ s) E (λ _. l) (λ _. refl)

  pub sink-Goes :
      (e : Effect) (s : Progress) (E : Progress → Type 0)
      → accept_done ctx.num_rounds ctx.abort_percent e s ≡ some s
      → accept_failed ctx.num_rounds ctx.abort_percent e s ≡ some s
      → E s
      → Goes s (sink ctx e) s E
  sink-Goes e s E a b q = when-Goes ctx.has_state s (perform e) E (neutral-Goes e s E a b q)

  pub stay : (s : Progress) (E : Progress → Type 0) → Goes s (pure tt) s E
  stay s E = pure-Leads ctx.num_rounds ctx.abort_percent s tt (λ _ u. u ≡ s) E refl

  live : (n : ℕ) (due : List Text) → Live (open_at n due)
  live n due = (refl, refl, refl, refl)

  write_shocks-Goes :
      (n m : ℕ) (due : List Text)
      → Goes (open_at m due) (write_shocks ctx n due) (open_at m []) Live
  write_shocks-Goes n m [] = stay (open_at m []) Live
  write_shocks-Goes n m (t ∷ ts) =
      seq-Goes (open_at m (t ∷ ts)) (open_at m ts) _ _ _ Live
        (perform-Leads ctx.num_rounds ctx.abort_percent (Effect.write_shock_event t n)
          (open_at m (t ∷ ts)) (open_at m ts) (open_at m (t ∷ ts)) _ Live refl refl refl
          (live m (t ∷ ts)))
        (seq-Goes (open_at m ts) (open_at m ts) _ _ _ Live
          (sink-Goes (Effect.record_applied_shock t n) (open_at m ts) Live refl refl (live m ts))
          (write_shocks-Goes n m ts))

  influence-Goes :
      (n m : ℕ) (ds : Decisions) (prev : Option RoundOutcome)
      → Goes (open_at m []) (influence ctx n ds prev) (open_at m []) Live
  influence-Goes n m ds none = stay (open_at m []) Live
  influence-Goes n m ds (some prev) =
      seq-Goes (open_at m []) (open_at m []) _ _ _ Live
        (when-Goes _ (open_at m []) _ Live (
          neutral-Goes (Effect.compute_influence_edges n) (open_at m []) Live refl refl
            (live m [])))
        (sink-Goes (Effect.bump_edges_version n) (open_at m []) Live refl refl (live m []))

  -- After a round: it is persisted, no shock is due, and its outcome has the shocks that it was given.
  abbrev RoundDone : ℕ → List Text → RoundOutcome → Progress → Type 0
  RoundDone n shocks o s = (s ≡ open_at n []) × (o.applied_shocks ≡ shocks)

  finish_round-Leads :
      (m : ℕ) (prev : Option RoundOutcome) (shocks : List Text) (ds : Decisions)
      → round_failed ctx.abort_percent ds ≡ false
      → Leads ctx.num_rounds ctx.abort_percent
          (waved m)
          (finish_round ctx (suc m) prev shocks ds)
          (RoundDone (suc m) shocks)
          Live
  finish_round-Leads m prev shocks ds ok =
      let n = suc m in
      let s = open_at n [] in
      seq-Goes (waved m) s _ _ _ Live
        (perform-Leads ctx.num_rounds ctx.abort_percent (Effect.persist_round n ds) (waved m) s
          (waved m) _ Live (only_if-true _ _ (ground (arith, ok))) refl refl (live m []))
        (seq-Goes s s _ _ _ Live (influence-Goes n n ds prev) (
          seq-Goes s s _ _ _ Live
            (sink-Goes (Effect.set_bracket_summaries n) s Live refl refl (live n []))
            (seq-Goes s s _ _ _ Live
              (when-Goes ctx.has_callback s _ Live
                (neutral-Goes (Effect.on_round_complete n) s Live refl refl (live n [])))
              (seq-Goes s s
                (when ((n == 1) && ctx.retest_round1) (perform (Effect.retest_round1 n)))
                (pure (outcome n ds shocks)) (RoundDone n shocks) Live
                (when-Goes ((n == 1) && ctx.retest_round1) s _ Live
                  (neutral-Goes (Effect.retest_round1 n) s Live refl refl (live n [])))
                (pure-Leads ctx.num_rounds ctx.abort_percent s (outcome n ds shocks)
                  (RoundDone n shocks) Live (refl, refl))))))

  checked-Leads :
      (m : ℕ) (prev : Option RoundOutcome) (shocks : List Text) (aligned abort : Bool)
      → round_failed ctx.abort_percent (decisions_of_round ctx (suc m)) ≡ abort
      → Leads ctx.num_rounds ctx.abort_percent
          (waved m)
          (checked ctx (suc m) prev shocks aligned abort)
          (RoundDone (suc m) shocks)
          Live
  checked-Leads m prev shocks false abort e =
      raise-Leads ctx.num_rounds ctx.abort_percent (waved m) error (RoundDone (suc m) shocks) Live
        (live m [])
  checked-Leads m prev shocks true true e =
      raise-Leads ctx.num_rounds ctx.abort_percent (waved m) error (RoundDone (suc m) shocks) Live
        (live m [])
  checked-Leads m prev shocks true false e =
      finish_round-Leads m prev shocks (decisions_of_round ctx (suc m)) e

  run_round-Leads :
      (m : ℕ) (prev : Option RoundOutcome) (shocks due : List Text)
      → drop (already_active prev) shocks ≡ due
      → Leads ctx.num_rounds ctx.abort_percent
          (open_at m due)
          (run_round ctx (suc m) prev shocks)
          (RoundDone (suc m) shocks)
          Live
  unfolding run_round
  run_round-Leads m prev shocks due e =
      let n = suc m in
      seq-Goes (open_at m due) (open_at m []) _ _ _ Live
        (subst (λ d. Goes (open_at m due) (write_shocks ctx n d) (open_at m []) Live) (sym e)
          (write_shocks-Goes n m due))
        (seq-Goes (open_at m []) (waved m) _ _ _ Live
          (perform-Leads ctx.num_rounds ctx.abort_percent (Effect.dispatch_wave n) (open_at m [])
            (waved m) (open_at m []) (λ _ u. u ≡ waved m) Live (only_if-true _ _ (ground arith))
            refl refl (live m []))
          (checked-Leads m prev shocks _ _ refl))

  -- The shocks after a consume: those that the rounds before had, and the new one, which is due.
  abbrev Consumed : ℕ → List Text → List Text → Progress → Type 0
  Consumed m before shocks s = s ≡ open_at m (drop (length before) shocks)

  consume-Leads :
      (m : ℕ) (shocks : List Text)
      → Leads ctx.num_rounds ctx.abort_percent
          (open_at m [])
          (consume ctx (suc m) shocks)
          (Consumed m shocks)
          Live
  consume-Leads zero shocks =
      pure-Leads ctx.num_rounds ctx.abort_percent (open_at 0 []) shocks (Consumed 0 shocks) Live
        (ap (open_at 0) (sym (drop-length_all shocks)))
  consume-Leads (suc k) shocks =
      let o = ctx.shock (k + 2) in
      let s = open_at (suc k) [] in
      let t = open_at (suc k) (due_after o []) in
      seq-Goes s t _ _ _ Live
        (perform-Leads ctx.num_rounds ctx.abort_percent (Effect.consume_shock (k + 2) o) s t s
          (λ _ u. u ≡ t) Live (only_if-true _ _ (ground arith)) refl refl (live (suc k) []))
        (pure-Leads ctx.num_rounds ctx.abort_percent t (with_shock shocks o)
          (Consumed (suc k) shocks) Live (ap (open_at (suc k)) (sym (drop-with_shock shocks o))))

  enter_as-Goes :
      (n m : ℕ) (phase : Option SimulationPhase)
      → Goes (open_at m []) (enter_as ctx n phase) (open_at m []) Live
  enter_as-Goes n m none =
      raise-Leads ctx.num_rounds ctx.abort_percent {A = Unit} (open_at m []) error
        (λ _ u. u ≡ open_at m []) Live (live m [])
  enter_as-Goes n m (some phase) =
      let s = open_at m [] in
      seq-Goes s s _ _ _ Live (sink-Goes (Effect.set_phase phase) s Live refl refl (live m []))
        (sink-Goes (Effect.set_round n) s Live refl refl (live m []))

  pub run_rounds-Goes :
      (left m : ℕ) (prev : Option RoundOutcome) (shocks : List Text)
      → already_active prev ≡ length shocks
      → m + left ≡ ctx.num_rounds
      → Goes
          (open_at m [])
          (run_rounds ctx left (suc m) prev shocks)
          (open_at ctx.num_rounds [])
          Live
  unfolding run_rounds
  run_rounds-Goes zero m prev shocks e total =
      subst
        (λ n.
          Goes (open_at m []) (sink ctx (Effect.set_phase SimulationPhase.finalizing))
            (open_at n []) Live)
        (omega (arith, total))
        (sink-Goes (Effect.set_phase SimulationPhase.finalizing) (open_at m []) Live refl refl
          (live m []))
  run_rounds-Goes (suc left) m prev shocks e total =
      let s = open_at m [] in
      seq-Goes s s _ _ _ Live (enter_as-Goes (suc m) m (phase_of_round (suc m))) (
        bind-Leads ctx.num_rounds ctx.abort_percent s (consume ctx (suc m) shocks) _
          (Consumed m shocks) _ Live (consume-Leads m shocks)
          (λ new t c.
            bind-Leads ctx.num_rounds ctx.abort_percent t (run_round ctx (suc m) prev new) _
              (RoundDone (suc m) new) _ Live
              (subst
                (λ u.
                  Leads ctx.num_rounds ctx.abort_percent u (run_round ctx (suc m) prev new)
                    (RoundDone (suc m) new) Live)
                (sym c)
                (run_round-Leads m prev new (drop (length shocks) new) (ap (λ k. drop k new) e)))
              (λ o u d.
                subst
                  (λ v.
                    Goes v (run_rounds ctx left (suc (suc m)) (some o) new)
                      (open_at ctx.num_rounds []) Live)
                  (sym d.0)
                  (run_rounds-Goes left (suc m) (some o) new (ap length d.1)
                    (omega (arith, total))))))
