-- ===== src/Jobs.antt =====
-- services/jobs.py: `JobRunner`, beside the store that it writes, and the jobs whose task has not yet
-- run its done callback. A task is a number that no other task has. `shutdown` cancels tasks and
-- waits for them: here a cancelled task is one that is done with `was_cancelled`.
pub mod Serial
pub mod Outcome
mod Tests
use Prim.Native.String.{String}
use text.Mathlib.Text.{◌==◌ as str_eq}
use alpha_swarm.Prelude.{
  ℕ, ◌+◌, Bool, true, false, ◌&&◌, Option, none, some, List, [], ◌∷◌, ◌==◌, if◌then◌else◌,
}
use alpha_swarm.State.Types.{JobKind, JobState, JobStatus}
use alpha_swarm.State.Store.{StateStore, set_job_status}

pub record Job : Type 0 where
  pub kind : JobKind
  pub cycle_id : String
  pub task : ℕ

-- `_tasks` and `_failures` are functions of their keys.
pub record JobRunner : Type 0 where
  pub store : StateStore
  pub tasks : JobKind → Option ℕ
  pub failures : JobKind → String → Option String
  pub live : List Job
  pub next_task : ℕ

abbrev pub new_runner : StateStore → JobRunner
new_runner store = record {
  store = store;
  tasks = λ kind. none;
  failures = λ kind cycle_id. none;
  live = [];
  next_task = 0;
}

abbrev pub same_kind : JobKind → JobKind → Bool
same_kind JobKind.advisory JobKind.advisory = true
same_kind JobKind.advisory JobKind.report = false
same_kind JobKind.report JobKind.advisory = false
same_kind JobKind.report JobKind.report = true

abbrev pub status : JobKind → StateStore → JobStatus
status JobKind.advisory s = s.jobs.advisory
status JobKind.report s = s.jobs.report

abbrev pub is_running_state : JobState → Bool
is_running_state JobState.job_idle = false
is_running_state JobState.job_running = true
is_running_state JobState.job_failed = false

-- `running`, in the order of `_KINDS`
unfoldable pub running : StateStore → Option JobKind
running s =
    if is_running_state s.jobs.report.state
    then some JobKind.report
    else if is_running_state s.jobs.advisory.state
    then some JobKind.advisory
    else none

-- How a task ends: `domain_error` is an `AlphaSwarmError` with the `job_failure_code` it declares, if
-- that is a string.
pub data JobEnd : Type 0 where
  completed was_cancelled config_error other_error : JobEnd
  domain_error : Option String → JobEnd

abbrev pub kind_failure_code : JobKind → String
kind_failure_code JobKind.advisory = "advisory_generation_failed"
kind_failure_code JobKind.report = "report_generation_failed"

abbrev pub declared_code : Option String → JobKind → String
declared_code none kind = kind_failure_code kind
declared_code (some code) kind = if str_eq code "" then kind_failure_code kind else code

-- `_failure_code`, and none for a job that has not failed
unfoldable pub failure_code : JobKind → JobEnd → Option String
failure_code kind JobEnd.completed = none
failure_code kind JobEnd.was_cancelled = some (kind_failure_code kind)
failure_code kind JobEnd.config_error = some "inference_config_invalid"
failure_code kind JobEnd.other_error = some (kind_failure_code kind)
failure_code kind (JobEnd.domain_error code) = some (declared_code code kind)

abbrev pub put_failure :
    JobKind
    → String
    → Option String
    → (JobKind → String → Option String)
    → JobKind
    → String
    → Option String
put_failure kind cycle_id code failures k c =
    if same_kind kind k && str_eq cycle_id c then code else failures k c

abbrev pub put_task : JobKind → Option ℕ → (JobKind → Option ℕ) → JobKind → Option ℕ
put_task kind task tasks k = if same_kind kind k then task else tasks k

abbrev failed_status : String → String → JobStatus
failed_status cycle_id code = record {
  state = JobState.job_failed;
  cycle_id = some cycle_id;
  error_code = some code;
}

unfoldable pub record_refusal : JobKind → String → String → ℕ → JobRunner → JobRunner
record_refusal kind cycle_id code fresh r = record r {
  failures = put_failure kind cycle_id (some code) r.failures;
  store =
      if is_running_state (status kind r.store).state
      then r.store
      else set_job_status kind (failed_status cycle_id code) fresh r.store;
}

-- What `start` does once no other job runs.
unfoldable pub launch : JobKind → String → ℕ → JobRunner → JobRunner
launch kind cycle_id fresh r = record {
  store =
      set_job_status kind
        (record { state = JobState.job_running; cycle_id = some cycle_id; error_code = none }) fresh
        r.store;
  tasks = put_task kind (some r.next_task) r.tasks;
  failures = put_failure kind cycle_id none r.failures;
  live = record { kind = kind; cycle_id = cycle_id; task = r.next_task } ∷ r.live;
  next_task = r.next_task + 1;
}

-- `start`: the kind that `JobInProgressError` names, or none once the job is under way
abbrev pub start_unless :
    Option JobKind → JobKind → String → ℕ → JobRunner → Option JobKind × JobRunner
start_unless (some blocker) kind cycle_id fresh r = (some blocker, r)
start_unless none kind cycle_id fresh r = (none, launch kind cycle_id fresh r)

unfoldable pub start_job : JobKind → String → ℕ → JobRunner → Option JobKind × JobRunner
start_job kind cycle_id fresh r = start_unless (running r.store) kind cycle_id fresh r

-- `self._tasks.get(kind) is task`
abbrev is_task : Option ℕ → ℕ → Bool
is_task none task = false
is_task (some t) task = t == task

abbrev settle_failure : Option String → Job → ℕ → JobRunner → JobRunner
settle_failure none j fresh r = record r {
  store =
      set_job_status j.kind
        (record { state = JobState.job_idle; cycle_id = some j.cycle_id; error_code = none }) fresh
        r.store;
}
settle_failure (some code) j fresh r = record r {
  failures = put_failure j.kind j.cycle_id (some code) r.failures;
  store = set_job_status j.kind (failed_status j.cycle_id code) fresh r.store;
}

-- `_on_done`
unfoldable pub on_done : JobEnd → Job → ℕ → JobRunner → JobRunner
on_done end j fresh r = settle_failure (failure_code j.kind end) j fresh (record r {
  tasks = if is_task (r.tasks j.kind) j.task then put_task j.kind none r.tasks else r.tasks;
})
