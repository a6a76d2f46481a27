-- ===== src/Retry/Post.antt =====
-- inference/openai_provider.py: `_post_with_retry`. The server is an argument: its reply to each of the
-- requests of the loop, counted from 0. `_no_strict` belongs to the provider, which all its calls share:
-- `others` says whether another call has set it by the time of a reply, and `no_strict` is whether this
-- call's own request goes without the strict schema. The loop takes fuel; `limit + 2` rounds are always
-- enough.
pub mod Ends
use alpha_swarm.Prelude.{
  ℕ, zero, suc, ◌+◌, Bool, true, false, ◌&&◌, ◌||◌, not, Option, none, some, List, [], ◌∷◌, ltb,
  leb, ◌==◌, if◌then◌else◌,
}
use alpha_swarm.Prelude.Texts.{Text, codes, contains_any}
use alpha_swarm.Retry.{Verdict, retry, rate_limited, auth, config, fail, classify_status}

-- A 200 with the content that could be read from it and the tokens billed, or any other status with its
-- body and its Retry-After.
pub data Reply : Type 0 where
  timed_out transport_error : Reply
  answered : Option Text → Option ℕ → Option ℕ → Reply
  http : ℕ → Text → Option ℕ → Reply

-- How the call ends: a result or one of the errors it raises.
pub data Outcome : Type 0 where
  result : Text → Option ℕ → Option ℕ → Outcome
  timeout_error transport_failed schema_rejected auth_error : Outcome
  malformed : Option ℕ → Option ℕ → Outcome
  config_error http_failed : ℕ → Outcome

-- The end, the last reply, the replies before it, and how many of these were waited out and retried.
pub record Done : Type 0 where
  pub outcome : Outcome
  pub last : Reply
  pub seen : List Reply
  pub waits : ℕ
  pub no_strict : Bool

abbrev pub strict_unsupported_markers : List Text
strict_unsupported_markers = codes "json_schema" ∷ codes "response_format" ∷ codes "strict" ∷ []

abbrev parse_ok : Option Text → Option ℕ → Option ℕ → Outcome
parse_ok none i o = malformed i o
parse_ok (some content) i o = result content i o

abbrev after : Reply → ℕ → Option Done → Option Done
after reply waited none = none
after reply waited (some d) = some (record d { seen = reply ∷ d.seen; waits = d.waits + waited })

module _ (lower : Text → Text) (limit : ℕ) (has_schema : Bool) where
  -- a 400 that names the schema of the request
  unfoldable pub names_schema : ℕ → Text → Bool
  names_schema status body =
      (status == 400) && has_schema && contains_any strict_unsupported_markers (lower body)

  abbrev ends : Reply → Bool → Outcome → Option Done
  ends reply no_strict outcome =
      some (record { outcome = outcome; last = reply; seen = []; waits = 0; no_strict = no_strict })

  abbrev by_verdict : Verdict → ℕ → Reply → ℕ → Bool → Option Done → Option Done
  by_verdict auth status reply retries ns again = ends reply ns auth_error
  by_verdict config status reply retries ns again = ends reply ns (config_error status)
  by_verdict fail status reply retries ns again = ends reply ns (http_failed status)
  by_verdict retry status reply retries ns again =
      if ltb retries limit then after reply 1 again else ends reply ns (http_failed status)
  by_verdict rate_limited status reply retries ns again =
      if ltb retries limit then after reply 1 again else ends reply ns (http_failed status)

  -- One reply: `again` is the rest of the loop after a retry, `downgraded` after the switch to a plain
  -- JSON object.
  -- `flag` is the provider's `_no_strict` as the reply comes.
  abbrev on_reply : Reply → ℕ → Bool → Bool → Option Done → Option Done → Option Done
  on_reply timed_out retries ns flag again downgraded = ends timed_out ns timeout_error
  on_reply transport_error retries ns flag again downgraded =
      if leb limit retries
      then ends transport_error ns transport_failed
      else after transport_error 1 again
  on_reply (answered content i o) retries ns flag again downgraded =
      ends (answered content i o) ns (parse_ok content i o)
  on_reply (http status body delay) retries ns flag again downgraded =
      if names_schema status body
      then (if flag
          then ends (http status body delay) ns schema_rejected
          else after (http status body delay) 0 downgraded)
      else by_verdict (classify_status lower status body) status (http status body delay) retries ns
          again

  unfoldable pub post : ℕ → (ℕ → Bool) → (ℕ → Reply) → ℕ → Bool → ℕ → Option Done
  post zero others replies retries ns n = none
  post (suc fuel) others replies retries ns n =
      let again = post fuel others replies (retries + 1) ns (n + 1) in
      let downgraded = post fuel others replies retries true (n + 1) in
      on_reply (replies n) retries ns (ns || others n) again downgraded

  -- `_post_with_retry`
  unfoldable pub post_with_retry : (ℕ → Bool) → (ℕ → Reply) → Bool → Option Done
  post_with_retry others replies ns = post (limit + 2) others replies 0 ns 0
