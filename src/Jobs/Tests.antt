-- ===== src/Jobs/Tests.antt =====
-- The job runner at concrete inputs.
use Prim.Native.String.{String}
use text.Mathlib.Text.{◌==◌ as str_eq}
use alpha_swarm.Prelude.{
  ℕ, ◌≡◌, refl, ◌&&◌, is_some, Option, none, some, List, [], ◌∷◌, if◌then◌else◌,
}
use alpha_swarm.State.Types.{JobKind, JobState}
use alpha_swarm.State.Store.{StateStore, empty}
use alpha_swarm.Jobs.{Job, JobEnd, new_runner, same_kind, status, running, on_done}
use alpha_swarm.Jobs.Serial.{Event, IsSerial, run, one_job_at_a_time}
use alpha_swarm.Jobs.Outcome.{job_leaves_outcome}

abbrev store : StateStore
store = record (empty 1) { pending_shock = none }

abbrev story : List (ℕ × Event)
story =
    (2, Event.starts JobKind.report "c1")
    ∷ (3, Event.starts JobKind.advisory "c1")
    ∷ (4, Event.task_done 0 (JobEnd.domain_error (some "gate_refused")))
    ∷ (5, Event.refused JobKind.report "c2" "not_ready")
    ∷ (6, Event.starts JobKind.advisory "c1")
    ∷ []

one_job_at_a_time_example : let r = run story (new_runner store) in IsSerial r.live r
unfolding empty running
one_job_at_a_time_example = one_job_at_a_time store story refl

abbrev report_job : Job
report_job = record { kind = JobKind.report; cycle_id = "c1"; task = 0 }

job_leaves_outcome_example :
    let r = new_runner store in
    let r' = on_done JobEnd.was_cancelled report_job 7 r in
    (code : Option String) × (code ≡ some "report_generation_failed")
    × (status JobKind.report r'.store ≡ record {
      state = if is_some code then JobState.job_failed else JobState.job_idle;
      cycle_id = some "c1";
      error_code = code;
    })
    × (status JobKind.advisory r'.store ≡ status JobKind.advisory r.store)
    × (r'.failures JobKind.report "c1" ≡ (
        if (same_kind JobKind.report JobKind.report && str_eq "c1" "c1") && is_some code
        then code
        else r.failures JobKind.report "c1"))
job_leaves_outcome_example =
    job_leaves_outcome JobEnd.was_cancelled report_job 7 (new_runner store) JobKind.report "c1"
