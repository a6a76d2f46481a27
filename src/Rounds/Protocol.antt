-- ===== src/Rounds/Protocol.antt =====
-- What a run may do when, written without its code: an abstract state of the cycle and the session, and
-- the effects that each state admits.
use alpha_swarm.Prelude.{
  ℕ, ◌+◌, Bool, true, false, not, ◌&&◌, Option, none, some, List, [], ◌∷◌, ◌++◌, ◌==◌,
}
use alpha_swarm.Prelude.Texts.{Text}
use alpha_swarm.Rounds.{round_failed, CycleStatus, running, Effect, Step, did, failed}

-- How far a run has come. `due` are the consumed shocks that the database does not have yet.
pub record Progress : Type 0 where
  pub seeded : Bool
  pub status : CycleStatus
  -- the session is open, and its closing has not been tried
  pub monitoring : Bool
  -- the worker is loaded, and its unloading has not been tried
  pub prepared : Bool
  pub dispatched : ℕ
  pub persisted : ℕ
  pub due : List Text

abbrev pub nothing_done : Progress
nothing_done = record {
  seeded = false;
  status = running;
  monitoring = false;
  prepared = false;
  dispatched = 0;
  persisted = 0;
  due = [];
}

abbrev pub is_running : CycleStatus → Bool
is_running CycleStatus.running = true
is_running CycleStatus.complete = false
is_running CycleStatus.failed = false
is_running CycleStatus.cancelled = false

abbrev pub none_due : List Text → Bool
none_due [] = true
none_due (t ∷ ts) = false

abbrev pub due_after : Option Text → List Text → List Text
due_after none due = due
due_after (some []) due = due
due_after (some (c ∷ text)) due = due ++ (c ∷ text) ∷ []

abbrev pub only_if : Bool → Progress → Option Progress
only_if true s = some s
only_if false s = none

-- A due shock is written before any later one.
abbrev pub written : Text → List Text → Progress → Option Progress
written t [] s = none
written t (d ∷ ds) s = some (record s { due = ds })

module _ (num_rounds abort_percent : ℕ) where
  abbrev pub accept_status : CycleStatus → Progress → Option Progress
  accept_status CycleStatus.running s = none
  accept_status CycleStatus.complete s =
      only_if (s.seeded && is_running s.status && not s.monitoring && (s.persisted == num_rounds))
        (record s { status = CycleStatus.complete })
  accept_status CycleStatus.failed s =
      only_if (s.seeded && not s.monitoring) (record s { status = CycleStatus.failed })
  accept_status CycleStatus.cancelled s =
      only_if (s.seeded && not s.monitoring) (record s { status = CycleStatus.cancelled })

  -- An effect that was done.
  abbrev pub accept_done : Effect → Progress → Option Progress
  accept_done Effect.inject_seed s = only_if (not s.seeded) (record s { seeded = true })
  accept_done Effect.start_monitoring s =
      only_if (s.seeded && not s.monitoring) (record s { monitoring = true })
  accept_done Effect.prepare s =
      only_if (s.monitoring && not s.prepared) (record s { prepared = true })
  accept_done Effect.teardown s = only_if s.prepared (record s { prepared = false })
  accept_done Effect.stop_monitoring s =
      only_if (s.monitoring && not s.prepared) (record s { monitoring = false })
  accept_done (Effect.consume_shock n text) s =
      only_if (s.prepared && (s.persisted + 1 == n)) (record s { due = due_after text s.due })
  accept_done (Effect.write_shock_event text n) s = written text s.due s
  accept_done (Effect.dispatch_wave n) s =
      only_if
        (s.prepared && none_due s.due && (s.dispatched == s.persisted) && (s.persisted + 1 == n))
        (record s { dispatched = n })
  accept_done (Effect.persist_round n ds) s =
      only_if
        (s.prepared
          && (s.dispatched == n)
          && (s.persisted + 1 == n)
          && not (round_failed abort_percent ds))
        (record s { persisted = n })
  accept_done (Effect.set_cycle_status status) s = accept_status status s
  accept_done _ s = some s

  -- One that failed changes nothing, but what closes a session is not tried again.
  abbrev pub accept_failed : Effect → Progress → Option Progress
  accept_failed Effect.teardown s = only_if s.prepared (record s { prepared = false })
  accept_failed Effect.stop_monitoring s =
      only_if (s.monitoring && not s.prepared) (record s { monitoring = false })
  accept_failed _ s = some s

  abbrev pub accept : Step → Progress → Option Progress
  accept (did e) s = accept_done e s
  accept (failed e) s = accept_failed e s

  abbrev pub accept_from : Step → Option Progress → Option Progress
  accept_from st none = none
  accept_from st (some s) = accept st s

  -- The progress after a trace, newest first; none if it breaks the protocol.
  unfoldable pub progress : List Step → Option Progress
  progress [] = some nothing_done
  progress (st ∷ earlier) = accept_from st (progress earlier)
