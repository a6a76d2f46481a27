-- ===== src/Retry/Post/Ends.antt =====
-- The loop ends, and ends as its last reply says.
use alpha_swarm.Prelude.{
  ℕ, zero, suc, ◌+◌, ◌-◌, ◌≤◌, ◌<◌, ◌≡◌, refl, ◌⊎◌, inl, inr, Bool, true, false, ◌||◌, Option, none,
  some, List, [], ◌∷◌, ltb, leb, ap, subst, if◌then◌else◌, length, Bool-cases, arith,
}
use alpha_swarm.Prelude.Texts.{Text}
use alpha_swarm.Retry.{Verdict, retry, rate_limited, auth, config, fail, classify_status}
use alpha_swarm.Retry.Post.{
  Reply, timed_out, transport_error, answered, http, Outcome, result, timeout_error,
  transport_failed, schema_rejected, auth_error, malformed, config_error, http_failed, Done,
  names_schema, by_verdict, on_reply, post, post_with_retry, after, ends,
}

abbrev pub is_retry : Verdict → Bool
is_retry retry = true
is_retry rate_limited = true
is_retry auth = false
is_retry config = false
is_retry fail = false

module _ (lower : Text → Text) (limit : ℕ) (has_schema : Bool) where
  abbrev pub may_retry : Reply → Bool
  may_retry timed_out = false
  may_retry transport_error = true
  may_retry (answered content i o) = false
  may_retry (http status body delay) = is_retry (classify_status lower status body)

  abbrev pub may_downgrade : Reply → Bool
  may_downgrade timed_out = false
  may_downgrade transport_error = false
  may_downgrade (answered content i o) = false
  may_downgrade (http status body delay) = names_schema lower limit has_schema status body

  abbrev pub AllPass : List Reply → Type 0
  AllPass [] = Unit
  AllPass (reply ∷ rest) = ((may_retry reply || may_downgrade reply) ≡ true) × AllPass rest

  abbrev pub VerdictIs : Reply → Verdict → Type 0
  VerdictIs timed_out v = ⊥
  VerdictIs transport_error v = ⊥
  VerdictIs (answered content i o) v = ⊥
  VerdictIs (http status body delay) v = classify_status lower status body ≡ v

  -- The outcome that a last reply calls for, after so many retries, with the provider's `_no_strict` as
  -- the reply found it.
  abbrev pub Fits : Reply → ℕ → Bool → Outcome → Type 0
  Fits reply retries flag (result content i o) = reply ≡ answered (some content) i o
  Fits reply retries flag (malformed i o) = reply ≡ answered none i o
  Fits reply retries flag timeout_error = reply ≡ timed_out
  Fits reply retries flag transport_failed = (reply ≡ transport_error) × (retries ≡ limit)
  Fits reply retries flag schema_rejected = (may_downgrade reply ≡ true) × (flag ≡ true)
  Fits reply retries flag auth_error = VerdictIs reply auth
  Fits reply retries flag (config_error status) = VerdictIs reply config
  Fits reply retries flag (http_failed status) =
      VerdictIs reply fail ⊎ ((may_retry reply ≡ true) × (retries ≡ limit))

  -- `others` is whether another call has set the flag by the reply of that number.
  module _ (others : ℕ → Bool) where
    record Ended (n retries : ℕ) (ns : Bool) (d : Done) : Type 0 where
      within : retries + d.waits ≤ limit
      short : length d.seen ≤ d.waits + (if ns then 0 else 1)
      passed : AllPass d.seen
      fits : Fits d.last (retries + d.waits) (d.no_strict || others (n + length d.seen)) d.outcome

    -- The loop has ended, with what that says of its end.
    abbrev HasEnded : ℕ → ℕ → Bool → Option Done → Type 0
    HasEnded n retries ns none = ⊥
    HasEnded n retries ns (some d) = Ended n retries ns d

    -- The same retries and the same reply, counted another way.
    recount :
        (reply : Reply) (ns : Bool) (outcome : Outcome) (k k' i i' : ℕ)
        → k ≡ k'
        → i ≡ i'
        → Fits reply k (ns || others i) outcome
        → Fits reply k' (ns || others i') outcome
    recount reply ns outcome k k' i i' p q f =
        subst (λ m. Fits reply m (ns || others i') outcome) p
          (subst (λ m. Fits reply k (ns || others m) outcome) q f)

    now_ended :
        (reply : Reply) (n retries : ℕ) (ns : Bool) (outcome : Outcome)
        → retries ≤ limit
        → Fits reply retries (ns || others n) outcome
        → HasEnded n retries ns (ends lower limit has_schema reply ns outcome)
    now_ended reply n retries ns outcome h f = record {
      within = omega (arith, h);
      short = ground arith;
      passed = tt;
      fits = recount reply ns outcome _ _ _ _ (omega arith) (omega arith) f;
    }

    later_ended :
        (reply : Reply) (n retries : ℕ) (ns : Bool) (o : Option Done)
        → may_retry reply ≡ true
        → HasEnded (n + 1) (retries + 1) ns o
        → HasEnded n retries ns (after reply 1 o)
    later_ended reply n retries ns none p h = h
    later_ended reply n retries ns (some d) p h = record {
      within = omega (arith, h.within);
      short = ground (arith, h.short);
      passed = (ground (arith, p), h.passed);
      fits = recount d.last d.no_strict d.outcome _ _ _ _ (omega arith) (omega arith) h.fits;
    }

    downgraded_ended :
        (reply : Reply) (n retries : ℕ) (o : Option Done)
        → may_downgrade reply ≡ true
        → HasEnded (n + 1) retries true o
        → HasEnded n retries false (after reply 0 o)
    downgraded_ended reply n retries none p h = h
    downgraded_ended reply n retries (some d) p h = record {
      within = omega (arith, h.within);
      short = ground (arith, h.short);
      passed = (ground (arith, p), h.passed);
      fits = recount d.last d.no_strict d.outcome _ _ _ _ (omega arith) (omega arith) h.fits;
    }

    spent_or_again :
        (reply : Reply) (outcome : Outcome) (n retries : ℕ) (ns : Bool) (again : Option Done)
        → may_retry reply ≡ true
        → retries ≤ limit
        → ((retries ≡ limit) → Fits reply retries (ns || others n) outcome)
        → ((retries < limit) → HasEnded (n + 1) (retries + 1) ns again)
        → HasEnded n retries ns (
            if ltb retries limit
            then after reply 1 again
            else ends lower limit has_schema reply ns outcome)
    spent_or_again reply outcome n retries ns again p h spent a =
        elim (Bool-cases (ltb retries limit)) [
          | inl e ↦ rw e (later_ended reply n retries ns again p (a (ground (arith, e))))
          | inr e ↦ rw e (now_ended reply n retries ns outcome h (spent (ground (arith, e, h))))
        ]

    schema_ended :
        (reply : Reply) (n retries : ℕ) (ns : Bool) (downgraded : Option Done)
        → may_downgrade reply ≡ true
        → retries ≤ limit
        → ((ns ≡ false) → HasEnded (n + 1) retries true downgraded)
        → HasEnded n retries ns (
            if ns || others n
            then ends lower limit has_schema reply ns schema_rejected
            else after reply 0 downgraded)
    schema_ended reply n retries true downgraded p h b =
        now_ended reply n retries true schema_rejected h (p, refl)
    schema_ended reply n retries false downgraded p h b = elim (Bool-cases (others n)) [
      | inl e ↦ rw e (now_ended reply n retries false schema_rejected h (p, e))
      | inr e ↦ rw e (downgraded_ended reply n retries downgraded p (b refl))
    ]

    verdict_ended :
        (v : Verdict) (status : ℕ) (body : Text) (delay : Option ℕ) (n retries : ℕ) (ns : Bool)
        (again : Option Done)
        → classify_status lower status body ≡ v
        → retries ≤ limit
        → ((retries < limit) → HasEnded (n + 1) (retries + 1) ns again)
        → HasEnded n retries ns
            (by_verdict lower limit has_schema v status (http status body delay) retries ns again)
    verdict_ended auth status body delay n retries ns again e h a =
        now_ended (http status body delay) n retries ns auth_error h e
    verdict_ended config status body delay n retries ns again e h a =
        now_ended (http status body delay) n retries ns (config_error status) h e
    verdict_ended fail status body delay n retries ns again e h a =
        now_ended (http status body delay) n retries ns (http_failed status) h (inl e)
    verdict_ended retry status body delay n retries ns again e h a =
        spent_or_again (http status body delay) (http_failed status) n retries ns again
          (ap is_retry e) h (λ full. inr (ap is_retry e, full)) a
    verdict_ended rate_limited status body delay n retries ns again e h a =
        spent_or_again (http status body delay) (http_failed status) n retries ns again
          (ap is_retry e) h (λ full. inr (ap is_retry e, full)) a

    on_reply_ended :
        (reply : Reply) (n retries : ℕ) (ns : Bool) (again downgraded : Option Done)
        → retries ≤ limit
        → ((retries < limit) → HasEnded (n + 1) (retries + 1) ns again)
        → ((ns ≡ false) → HasEnded (n + 1) retries true downgraded)
        → HasEnded n retries ns
            (on_reply lower limit has_schema reply retries ns (ns || others n) again downgraded)
    on_reply_ended timed_out n retries ns again downgraded h a b =
        now_ended timed_out n retries ns timeout_error h refl
    on_reply_ended transport_error n retries ns again downgraded h a b =
        elim (Bool-cases (leb limit retries)) [
          | inl e ↦ rw e (
              now_ended transport_error n retries ns transport_failed h
                (refl, ground (arith, e, h)))
          | inr e ↦
              rw e (later_ended transport_error n retries ns again refl (a (ground (arith, e))))
        ]
    on_reply_ended (answered none i o) n retries ns again downgraded h a b =
        now_ended (answered none i o) n retries ns (malformed i o) h refl
    on_reply_ended (answered (some content) i o) n retries ns again downgraded h a b =
        now_ended (answered (some content) i o) n retries ns (result content i o) h refl
    on_reply_ended (http status body delay) n retries ns again downgraded h a b =
        elim (Bool-cases (names_schema lower limit has_schema status body)) [
          | inl e ↦ rw e (schema_ended (http status body delay) n retries ns downgraded e h b)
          | inr e ↦ rw e (
              verdict_ended (classify_status lower status body) status body delay n retries ns again
                refl h a)
        ]

    abbrev spare : Bool → ℕ
    spare ns = if ns then 0 else 1

    post_ended :
        (fuel : ℕ) (replies : ℕ → Reply) (retries : ℕ) (ns : Bool) (n : ℕ)
        → retries ≤ limit
        → limit - retries + spare ns < fuel
        → HasEnded n retries ns (post lower limit has_schema fuel others replies retries ns n)
    unfolding post
    post_ended zero replies retries ns n h f = absurd (omega arith)
    post_ended (suc fuel) replies retries ns n h f =
        on_reply_ended (replies n) n retries ns
          (post lower limit has_schema fuel others replies (retries + 1) ns (n + 1))
          (post lower limit has_schema fuel others replies retries true (n + 1)) h
          (λ less. post_ended fuel replies (retries + 1) ns (n + 1) (omega arith) (omega arith))
          (λ e. post_ended fuel replies retries true (n + 1) h (ground (arith, e)))

    -- An end of the loop and what is known of it.
    abbrev pub EndsWell : Bool → Option Done → Type 0
    EndsWell ns o =
        (d : Done) × (o ≡ some d)
        × (d.waits ≤ limit)
        × (length d.seen ≤ d.waits + spare ns)
        × AllPass d.seen
        × Fits d.last d.waits (d.no_strict || others (length d.seen)) d.outcome

    ended_well : (ns : Bool) (o : Option Done) → HasEnded 0 0 ns o → EndsWell ns o
    ended_well ns none h = absurd h
    ended_well ns (some d) h = (
      d,
      refl,
      omega (arith, h.within),
      h.short,
      h.passed,
      recount d.last d.no_strict d.outcome _ _ _ _ (omega arith) (omega arith) h.fits,
    )

    -- Whatever the server answers, and whenever other calls of the provider set its `_no_strict`, the call
    -- ends: it waits out at most `limit` replies and sends at most one request more when it drops the
    -- strict schema (none when its request went without it from the start). Every reply before the last is
    -- a transport error, a status that may be retried or a 400 about the schema. The outcome is the one
    -- that the last reply calls for: the content or the malformed body of a 200, a timeout at once, an
    -- auth or config error only for such a status, a rejected schema only for a 400 about the schema that
    -- finds the flag set, by this call or by another one, and a failure for good only for a status that
    -- fails at once or when all the retries are spent.
    pub post_ends :
        (replies : ℕ → Reply) (ns : Bool)
        → EndsWell ns (post_with_retry lower limit has_schema others replies ns)
    unfolding post_with_retry
    post_ends replies ns =
        ended_well ns (post lower limit has_schema (limit + 2) others replies 0 ns 0)
          (post_ended (limit + 2) replies 0 ns 0 (omega arith) (ground arith))
