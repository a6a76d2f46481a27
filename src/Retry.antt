-- ===== src/Retry.antt =====
-- inference/retry.py: the classification of an HTTP failure, the backoff and the wait before a retry;
-- parse_retry_after of inference/types.py once the header is a number. The loop that uses them is in
-- Retry/Post. Times are in milliseconds; the random number of a backoff is in thousandths of one. The
-- lower-casing of a text is an argument.
pub mod Post
mod Tests
use alpha_swarm.Prelude.{
  ℕ, zero, ◌+◌, ◌*◌, ◌/◌, ◌^◌, Bool, true, false, ◌||◌, Option, none, some, List, [], ◌∷◌, ltb, leb,
  ◌==◌, min, if◌then◌else◌,
}
use alpha_swarm.Prelude.Texts.{Text, codes, contains_any}
use alpha_swarm.RateLimit.Bucket.{Wait}
use alpha_swarm.RateLimit.Controller.{Controller, note_rate_limited}

pub data Verdict : Type 0 where
  retry rate_limited auth config fail : Verdict

abbrev context_limit_markers : List Text
context_limit_markers =
    codes "context_length_exceeded"
    ∷ codes "context length"
    ∷ codes "context window"
    ∷ codes "maximum context"
    ∷ codes "prompt is too long"
    ∷ codes "too many tokens"
    ∷ codes "string_above_max_length"
    ∷ codes "reduce the length"
    ∷ []

abbrev content_filter_markers : List Text
content_filter_markers =
    codes "content_filter"
    ∷ codes "content management policy"
    ∷ codes "content_policy_violation"
    ∷ codes "responsibleaipolicyviolation"
    ∷ codes "flagged as"
    ∷ []

abbrev pub auth_status : ℕ → Bool
auth_status s = (s == 401) || (s == 403)

abbrev pub config_status : ℕ → Bool
config_status s = (s == 400) || (s == 404) || (s == 422)

abbrev pub retryable_status : ℕ → Bool
retryable_status s = (s == 408) || (s == 409) || (s == 429)

module _ (lower : Text → Text) where
  unfoldable pub is_context_limit_message : Text → Bool
  is_context_limit_message text = contains_any context_limit_markers (lower text)

  unfoldable pub is_content_filter_message : Text → Bool
  is_content_filter_message text = contains_any content_filter_markers (lower text)

  unfoldable pub classify_status : ℕ → Text → Verdict
  classify_status status body =
      if auth_status status
      then auth
      else if status == 429
      then rate_limited
      else if retryable_status status || leb 500 status
      then retry
      else if config_status status
      then (if is_context_limit_message body || is_content_filter_message body
          then fail
          else config)
      else fail

abbrev pub max_retry_after : ℕ
max_retry_after = 60000

-- `retry_after_seconds` of a header whose value is a number of milliseconds that is not negative
unfoldable pub retry_after : Option ℕ → Option ℕ
retry_after none = none
retry_after (some delay) = some (min delay max_retry_after)

-- `RetryPolicy`
pub record RetryPolicy : Type 0 where
  pub base : ℕ
  pub cap_on_wait : ℕ

abbrev pub power_of_two : ℕ → ℕ
power_of_two n = 2 ^ n

-- `backoff_s`
unfoldable pub backoff : RetryPolicy → ℕ → ℕ → ℕ
backoff policy draw attempt =
    min 1000 draw * min policy.cap_on_wait (policy.base * power_of_two (min attempt 30)) / 1000

-- The delay that `wait_before_retry` plans: Retry-After wins.
abbrev pub planned : RetryPolicy → ℕ → ℕ → Option ℕ → ℕ
planned policy draw attempt none = backoff policy draw attempt
planned policy draw attempt (some delay) = delay

-- What `wait_before_retry` does with its delay: it sleeps alone, or a 429 moves the cooldown of the gate,
-- and any other failure sleeps before it goes through the gate.
pub data Waiting : Type 0 where
  sleep : ℕ → Waiting
  through_gate : ℕ → Controller → Waiting

abbrev at_gate : Option Controller → Bool → ℕ → ℕ → Waiting
at_gate none limited delay now = sleep delay
at_gate (some gate) true delay now = through_gate 0 (note_rate_limited delay now gate)
at_gate (some gate) false delay now = through_gate delay gate

unfoldable pub wait_before_retry :
    RetryPolicy → ℕ → ℕ → Option Controller → Bool → Option ℕ → ℕ → Waiting
wait_before_retry policy draw attempt gate limited retry_after_ms now =
    at_gate gate limited (planned policy draw attempt retry_after_ms) now
