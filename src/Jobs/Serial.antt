-- ===== src/Jobs/Serial.antt =====
-- Jobs one at a time.
use Prim.Native.String.{String}
use alpha_swarm.Prelude.{
  ℕ, ◌≡◌, refl, sym, ap, subst, ◌∙◌, inl, inr, Bool-cases, Bool, true, false, Option, none, some,
  List, [], ◌∷◌, ◌==◌, if◌then◌else◌, arith,
}
use alpha_swarm.State.Types.{JobKind, JobState, JobStatus}
use alpha_swarm.State.Store.{StateStore, set_job_status}
use alpha_swarm.Jobs.{
  Job, JobRunner, new_runner, status, is_running_state, running, JobEnd, record_refusal, launch,
  start_job, on_done, failure_code, start_unless,
}

-- What can happen to a runner: a route starts or refuses a job, or a task's done callback runs.
pub data Event : Type 0 where
  starts : JobKind → String → Event
  refused : JobKind → String → String → Event
  task_done : ℕ → JobEnd → Event

abbrev without : ℕ → List Job → List Job
without t [] = []
without t (j ∷ rest) = if j.task == t then rest else j ∷ without t rest

abbrev job_of : ℕ → List Job → Option Job
job_of t [] = none
job_of t (j ∷ rest) = if j.task == t then some j else job_of t rest

abbrev callback : Option Job → JobEnd → ℕ → JobRunner → JobRunner
callback none end fresh r = r
callback (some j) end fresh r = on_done end j fresh (record r { live = without j.task r.live })

unfoldable pub step : ℕ → Event → JobRunner → JobRunner
step fresh (starts kind cycle_id) r = (start_job kind cycle_id fresh r).1
step fresh (refused kind cycle_id code) r = record_refusal kind cycle_id code fresh r
step fresh (task_done t end) r = callback (job_of t r.live) end fresh r

unfoldable pub run : List (ℕ × Event) → JobRunner → JobRunner
run [] r = r
run ((fresh, e) ∷ rest) r = run rest (step fresh e r)

abbrev pub other : JobKind → JobKind
other JobKind.advisory = JobKind.report
other JobKind.report = JobKind.advisory

-- No job is live and none is marked running, or one is live: then it is the one that the store marks
-- running, with its cycle and no error, and the one handle kept is its task.
abbrev pub IsSerial : List Job → JobRunner → Type 0
IsSerial [] r = (running r.store ≡ none) × ((k : JobKind) → r.tasks k ≡ none)
IsSerial (j ∷ []) r =
    (status j.kind r.store
      ≡ record { state = JobState.job_running; cycle_id = some j.cycle_id; error_code = none })
    × (is_running_state (status (other j.kind) r.store).state ≡ false)
    × (r.tasks j.kind ≡ some j.task)
    × (r.tasks (other j.kind) ≡ none)
IsSerial (i ∷ j ∷ rest) r = ⊥

abbrev pub job : JobKind → String → ℕ → Job
job k c t = record { kind = k; cycle_id = c; task = t }

launch-IsSerial :
    (k : JobKind) (c : String) (fresh : ℕ) (r : JobRunner)
    → IsSerial [] r
    → IsSerial (job k c r.next_task ∷ []) (launch k c fresh r)
unfolding launch set_job_status running
launch-IsSerial JobKind.advisory c fresh r h = (refl, ground (arith, h.0), refl, h.1 JobKind.report)
launch-IsSerial JobKind.report c fresh r h = (refl, ground (arith, h.0), refl, h.1 JobKind.advisory)

running_of_live :
    (k : JobKind) (c : String) (t : ℕ) (r : JobRunner)
    → IsSerial (job k c t ∷ []) r
    → running r.store ≡ some k
unfolding running
running_of_live JobKind.advisory c t r h = ground (arith, h.0, h.1)
running_of_live JobKind.report c t r h = ground (arith, h.0, h.1)

refused_quiet :
    (k : JobKind) (c code : String) (fresh : ℕ) (r : JobRunner)
    → running r.store ≡ none
    → running (record_refusal k c code fresh r).store ≡ none
unfolding record_refusal set_job_status running
refused_quiet JobKind.advisory c code fresh r h = ground arith
refused_quiet JobKind.report c code fresh r h = ground arith

-- A refusal leaves what the store says of a job that runs, and makes none run.
refused_status :
    (k i : JobKind) (c code : String) (fresh : ℕ) (r : JobRunner)
    → (is_running_state (status i r.store).state ≡ true
        → status i (record_refusal k c code fresh r).store ≡ status i r.store)
      × (is_running_state (status i r.store).state ≡ false
          → is_running_state (status i (record_refusal k c code fresh r).store).state ≡ false)
unfolding record_refusal set_job_status
refused_status JobKind.advisory JobKind.advisory c code fresh r =
    (λ h. ground arith, λ h. ground arith)
refused_status JobKind.advisory JobKind.report c code fresh r =
    (λ h. ground arith, λ h. ground arith)
refused_status JobKind.report JobKind.advisory c code fresh r =
    (λ h. ground arith, λ h. ground arith)
refused_status JobKind.report JobKind.report c code fresh r = (λ h. ground arith, λ h. ground arith)

refused-IsSerial :
    (k : JobKind) (c code : String) (fresh : ℕ) (live : List Job) (r : JobRunner)
    → IsSerial live r
    → IsSerial live (record_refusal k c code fresh r)
unfolding record_refusal
refused-IsSerial k c code fresh [] r h = (refused_quiet k c code fresh r h.0, h.1)
refused-IsSerial k c code fresh (j ∷ []) r h = (
  (refused_status k j.kind c code fresh r).0 (ap (λ (s : JobStatus). is_running_state s.state) h.0)
      ∙ h.0,
  (refused_status k (other j.kind) c code fresh r).1 h.1,
  h.2,
  h.3,
)
refused-IsSerial k c code fresh (i ∷ j ∷ rest) r h = absurd h

done_tasks :
    (k i : JobKind) (c : String) (t : ℕ) (end : JobEnd) (fresh : ℕ) (r : JobRunner)
    → r.tasks k ≡ some t
    → r.tasks (other k) ≡ none
    → (on_done end (job k c t) fresh r).tasks i ≡ none
unfolding on_done failure_code
done_tasks JobKind.advisory JobKind.advisory c t end fresh r h o = ground arith
done_tasks JobKind.advisory JobKind.report c t end fresh r h o = ground arith
done_tasks JobKind.report JobKind.advisory c t end fresh r h o = ground arith
done_tasks JobKind.report JobKind.report c t end fresh r h o = ground arith

done_quiet :
    (k : JobKind) (c : String) (t : ℕ) (end : JobEnd) (fresh : ℕ) (r : JobRunner)
    → is_running_state (status (other k) r.store).state ≡ false
    → running (on_done end (job k c t) fresh r).store ≡ none
unfolding on_done failure_code set_job_status running
done_quiet JobKind.advisory c t end fresh r h = ground arith
done_quiet JobKind.report c t end fresh r h = ground arith

done_live :
    (j : Job) (end : JobEnd) (fresh : ℕ) (r : JobRunner) → (on_done end j fresh r).live ≡ r.live
unfolding on_done failure_code
done_live j end fresh r = ground arith

done-IsSerial :
    (j : Job) (end : JobEnd) (fresh : ℕ) (r : JobRunner)
    → r.live ≡ []
    → IsSerial (j ∷ []) r
    → let r' = on_done end j fresh r in IsSerial r'.live r'
done-IsSerial j end fresh r e h =
    subst (λ live. IsSerial live (on_done end j fresh r)) (sym (done_live j end fresh r ∙ e))
      (
        done_quiet j.kind j.cycle_id j.task end fresh r h.1,
        λ i. done_tasks j.kind i j.cycle_id j.task end fresh r h.2 h.3,
      )

-- One step keeps a runner serial.
step-IsSerial :
    (fresh : ℕ) (e : Event) (live : List Job) (r : JobRunner)
    → IsSerial live r
    → let r' = step fresh e (record r { live = live }) in IsSerial r'.live r'
unfolding step start_job launch record_refusal
step-IsSerial fresh (starts k c) [] r h =
    let after = λ (o : Option JobKind). (start_unless o k c fresh (record r { live = [] })).1 in
    subst (λ o. IsSerial (JobRunner.live (after o)) (after o)) (sym h.0)
      (launch-IsSerial k c fresh r h)
step-IsSerial fresh (starts k c) (j ∷ []) r h =
    let after = λ (o : Option JobKind). (start_unless o k c fresh (record r { live = j ∷ [] })).1 in
    subst (λ o. IsSerial (JobRunner.live (after o)) (after o))
      (sym (running_of_live j.kind j.cycle_id j.task r h)) h
step-IsSerial fresh (refused k c code) [] r h = refused-IsSerial k c code fresh [] r h
step-IsSerial fresh (refused k c code) (j ∷ []) r h = refused-IsSerial k c code fresh (j ∷ []) r h
step-IsSerial fresh (refused k c code) (i ∷ j ∷ rest) r h = absurd h
step-IsSerial fresh (task_done t end) [] r h = h
step-IsSerial fresh (task_done t end) (j ∷ []) r h =
    let after =
      λ (b : Bool). callback (if b then some j else none) end fresh (record r { live = j ∷ [] }) in
    elim (Bool-cases (j.task == t)) [
      | inl e ↦
          subst (λ b. IsSerial (JobRunner.live (after b)) (after b)) (sym e)
            (done-IsSerial j end fresh (record r { live = without j.task (j ∷ []) }) (ground arith)
              h)
      | inr e ↦ subst (λ b. IsSerial (JobRunner.live (after b)) (after b)) (sym e) h
    ]
step-IsSerial fresh (starts k c) (i ∷ j ∷ rest) r h = absurd h
step-IsSerial fresh (task_done t end) (i ∷ j ∷ rest) r h = absurd h

run-IsSerial :
    (events : List (ℕ × Event)) (r : JobRunner)
    → IsSerial r.live r
    → let r' = run events r in IsSerial r'.live r'
unfolding run
run-IsSerial [] r h = h
run-IsSerial ((fresh, e) ∷ rest) r h = run-IsSerial rest _ (step-IsSerial fresh e r.live r h)

-- Jobs run one at a time. From a runner with no jobs on, over a store that marks none running,
-- whatever jobs are started and refused and however their tasks end: at most one job is live. The
-- store marks running exactly that one, with its cycle and no error, and the runner holds its task
-- and no other. With no job live, none is marked running and no task is held.
pub one_job_at_a_time :
    (store : StateStore) (events : List (ℕ × Event))
    → running store ≡ none
    → let r = run events (new_runner store) in IsSerial r.live r
one_job_at_a_time store events h = run-IsSerial events (new_runner store) (h, λ k. refl)
