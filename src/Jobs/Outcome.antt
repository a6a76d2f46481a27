-- ===== src/Jobs/Outcome.antt =====
-- What a job leaves behind.
use alpha_swarm.Jobs.Serial.{job, other}
use Prim.Native.String.{String}
use text.Mathlib.Text.{◌==◌ as str_eq}
use alpha_swarm.Prelude.{ℕ, ◌≡◌, refl, is_some, ◌&&◌, Option, none, some, if◌then◌else◌, arith}
use alpha_swarm.State.Types.{JobKind, JobState}
use alpha_swarm.State.Store.{set_job_status}
use alpha_swarm.Jobs.{Job, JobRunner, status, JobEnd, same_kind, on_done, failure_code}

own_status :
    (k : JobKind) (c : String) (t : ℕ) (end : JobEnd) (fresh : ℕ) (r : JobRunner)
    → let code = failure_code k end in
      status k (on_done end (job k c t) fresh r).store ≡ record {
        state = if is_some code then JobState.job_failed else JobState.job_idle;
        cycle_id = some c;
        error_code = code;
      }
unfolding on_done failure_code set_job_status
own_status JobKind.advisory c t end fresh r = ground arith
own_status JobKind.report c t end fresh r = ground arith

status-other :
    (k : JobKind) (c : String) (t : ℕ) (end : JobEnd) (fresh : ℕ) (r : JobRunner)
    → status (other k) (on_done end (job k c t) fresh r).store ≡ status (other k) r.store
unfolding on_done failure_code set_job_status
status-other JobKind.advisory c t end fresh r = ground arith
status-other JobKind.report c t end fresh r = ground arith

outcome_failures :
    (end : JobEnd) (j : Job) (fresh : ℕ) (r : JobRunner) (k : JobKind) (c : String)
    → (on_done end j fresh r).failures k c ≡ (
        if (same_kind j.kind k && str_eq j.cycle_id c) && is_some (failure_code j.kind end)
        then failure_code j.kind end
        else r.failures k c)
unfolding on_done failure_code
outcome_failures end j fresh r k c = ground arith

-- The code that each end of a job calls for, written out.
abbrev pub CodeIs : JobKind → JobEnd → Option String → Type 0
CodeIs k JobEnd.completed code = code ≡ none
CodeIs k JobEnd.config_error code = code ≡ some "inference_config_invalid"
CodeIs JobKind.advisory JobEnd.was_cancelled code = code ≡ some "advisory_generation_failed"
CodeIs JobKind.report JobEnd.was_cancelled code = code ≡ some "report_generation_failed"
CodeIs JobKind.advisory JobEnd.other_error code = code ≡ some "advisory_generation_failed"
CodeIs JobKind.report JobEnd.other_error code = code ≡ some "report_generation_failed"
CodeIs JobKind.advisory (JobEnd.domain_error none) code = code ≡ some "advisory_generation_failed"
CodeIs JobKind.report (JobEnd.domain_error none) code = code ≡ some "report_generation_failed"
CodeIs JobKind.advisory (JobEnd.domain_error (some own)) code =
    code ≡ (if str_eq own "" then some "advisory_generation_failed" else some own)
CodeIs JobKind.report (JobEnd.domain_error (some own)) code =
    code ≡ (if str_eq own "" then some "report_generation_failed" else some own)

failure_code-CodeIs : (k : JobKind) (end : JobEnd) → CodeIs k end (failure_code k end)
unfolding failure_code
failure_code-CodeIs k JobEnd.completed = refl
failure_code-CodeIs k JobEnd.config_error = refl
failure_code-CodeIs JobKind.advisory JobEnd.was_cancelled = refl
failure_code-CodeIs JobKind.report JobEnd.was_cancelled = refl
failure_code-CodeIs JobKind.advisory JobEnd.other_error = refl
failure_code-CodeIs JobKind.report JobEnd.other_error = refl
failure_code-CodeIs JobKind.advisory (JobEnd.domain_error none) = refl
failure_code-CodeIs JobKind.report (JobEnd.domain_error none) = refl
failure_code-CodeIs JobKind.advisory (JobEnd.domain_error (some own)) = ground arith
failure_code-CodeIs JobKind.report (JobEnd.domain_error (some own)) = ground arith

-- What a job leaves behind, whichever way it ends: its kind's status is idle with no code after a
-- completed job, and failed with a code after every other end. That code is "inference_config_invalid"
-- after a config error, the one that the error declares if it declares one that is not empty, and
-- otherwise, also after a cancellation, "advisory_generation_failed" or "report_generation_failed". The
-- other kind's status stays. Of the codes kept for each kind and cycle, a failed job sets its own and no
-- other; a completed one sets none.
pub job_leaves_outcome :
    (end : JobEnd) (j : Job) (fresh : ℕ) (r : JobRunner) (k : JobKind) (c : String)
    → let r' = on_done end j fresh r in
      (code : Option String) × CodeIs j.kind end code
      × (status j.kind r'.store ≡ record {
        state = if is_some code then JobState.job_failed else JobState.job_idle;
        cycle_id = some j.cycle_id;
        error_code = code;
      })
      × (status (other j.kind) r'.store ≡ status (other j.kind) r.store)
      × (r'.failures k c ≡ (
          if (same_kind j.kind k && str_eq j.cycle_id c) && is_some code
          then code
          else r.failures k c))
job_leaves_outcome end j fresh r k c = (
  failure_code j.kind end,
  failure_code-CodeIs j.kind end,
  own_status j.kind j.cycle_id j.task end fresh r,
  status-other j.kind j.cycle_id j.task end fresh r,
  outcome_failures end j fresh r k c,
)
