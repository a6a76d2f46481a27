-- ===== src/Retry/Tests.antt =====
-- The retries at a concrete server.
use alpha_swarm.Prelude.{
  ℕ, zero, suc, ◌≡◌, refl, Bool, true, false, Option, none, some, List, [], ◌∷◌, ◌==◌,
  if◌then◌else◌,
}
use alpha_swarm.Prelude.Texts.{Text, codes}
use alpha_swarm.Retry.{Verdict, fail, config, rate_limited, classify_status, RetryPolicy, backoff}
use alpha_swarm.Retry.Post.{
  Reply, transport_error, answered, http, Outcome, result, schema_rejected, http_failed, Done,
  post_with_retry,
}
use alpha_swarm.Retry.Post.Ends.{EndsWell, post_ends}

abbrev same : Text → Text
same text = text

-- a 503, a 400 about the schema, a transport error, then content
abbrev server : ℕ → Reply
server zero = http 503 (codes "busy") none
server (suc zero) = http 400 (codes "response_format is not supported") none
server (suc (suc zero)) = transport_error
server (suc (suc (suc n))) = answered (some (codes "yes")) (some 12) (some 3)

context_limit_fails : classify_status same 400 (codes "maximum context reached") ≡ fail
unfolding classify_status alpha_swarm.Retry.is_context_limit_message
    alpha_swarm.Prelude.Texts.contains_any alpha_swarm.Prelude.Texts.contains
context_limit_fails = refl

other_400_is_config : classify_status same 400 (codes "no such field") ≡ config
unfolding classify_status alpha_swarm.Retry.is_context_limit_message
    alpha_swarm.Prelude.Texts.contains_any alpha_swarm.Prelude.Texts.contains
    alpha_swarm.Retry.is_content_filter_message
other_400_is_config = refl

backoff_doubles : backoff (record { base = 500; cap_on_wait = 8000 }) 1000 3 ≡ 4000
unfolding backoff
backoff_doubles = refl

-- No other call touches the flag.
abbrev alone : ℕ → Bool
alone n = false

-- Another call sets it before the first reply.
abbrev crowded : ℕ → Bool
crowded n = true

abbrev refuser : ℕ → Reply
refuser n = http 400 (codes "response_format is not supported") none

abbrev outcome_of : Option Done → Option Outcome
outcome_of none = none
outcome_of (some d) = some d.outcome

third_time_lucky :
    outcome_of (post_with_retry same 2 true alone server false)
    ≡ some (result (codes "yes") (some 12) (some 3))
unfolding post_with_retry alpha_swarm.Retry.Post.post alpha_swarm.Retry.Post.names_schema
    classify_status alpha_swarm.Prelude.Texts.contains_any alpha_swarm.Prelude.Texts.contains
third_time_lucky = refl

-- The 400 of a request that was sent with the strict schema, with no downgrade of its own, is final when
-- another call was downgraded in the meantime.
abbrev strict_refused : Option Done → Option (Outcome × Bool × List Reply)
strict_refused none = none
strict_refused (some d) = some (d.outcome, d.no_strict, d.seen)

rejected_without_downgrade :
    strict_refused (post_with_retry same 2 true crowded refuser false)
    ≡ some (schema_rejected, false, [])
unfolding post_with_retry alpha_swarm.Retry.Post.post alpha_swarm.Retry.Post.names_schema
    alpha_swarm.Prelude.Texts.contains_any alpha_swarm.Prelude.Texts.contains
rejected_without_downgrade = refl

post_ends_example :
    EndsWell same 2 true alone false (post_with_retry same 2 true alone server false)
post_ends_example = post_ends same 2 true alone server false
