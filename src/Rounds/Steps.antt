-- ===== src/Rounds/Steps.antt =====
-- Rules for programs over effects: from one progress of a run to the next, or to a stop.
use alpha_swarm.Prelude.{
  ℕ, ◌≡◌, refl, ap, ◌∙◌, Bool, true, false, Option, none, some, List, [], ◌∷◌,
}
use alpha_swarm.Rounds.{Effect, Stop, error, cancel, Step, did, failed}
use alpha_swarm.Rounds.Run.{
  World, Result, done, stopped, Run, pure, raise, after, ◌>>=◌, record_step, next_fault, perform,
  closing, try_finally, swallowed, best_effort, when,
}
use alpha_swarm.Rounds.Protocol.{Progress, accept_done, accept_failed, accept_from, progress}

module _ (num_rounds abort_percent : ℕ) where
  abbrev pub At : Progress → World → Type 0
  At s w = progress num_rounds abort_percent w.trace ≡ some s

  -- An end with a value in `P`, or a stop in `E`, the protocol kept.
  abbrev pub Ends :
      {A : Type 0} → (A → Progress → Type 0) → (Progress → Type 0) → Result A × World → Type 0
  Ends P E (done a, w) = (s : Progress) × At s w × P a s
  Ends P E (stopped x, w) = (s : Progress) × At s w × E s

  abbrev pub Leads :
      {A : Type 0} → Progress → Run A → (A → Progress → Type 0) → (Progress → Type 0) → Type 0
  Leads s m P E = (w : World) → At s w → Ends P E (m w)

  pub pure-Leads :
      {A : Type 0} (s : Progress) (a : A) (P : A → Progress → Type 0) (E : Progress → Type 0)
      → P a s
      → Leads s (pure a) P E
  pure-Leads s a P E p w h = (s, h, p)

  pub raise-Leads :
      {A : Type 0} (s : Progress) (x : Stop) (P : A → Progress → Type 0) (E : Progress → Type 0)
      → E s
      → Leads {A = A} s (raise x) P E
  raise-Leads s x P E p w h = (s, h, p)

  stepped :
      (e : Effect) (s s1 s2 : Progress) (P : Unit → Progress → Type 0) (E : Progress → Type 0)
      → accept_done num_rounds abort_percent e s ≡ some s1
      → P tt s1
      → accept_failed num_rounds abort_percent e s ≡ some s2
      → E s2
      → (fault : Option Stop) (faults : List (Option Stop)) (trace : List Step)
      → progress num_rounds abort_percent trace ≡ some s
      → Ends P E (record_step fault e faults trace)
  unfolding progress
  stepped e s s1 s2 P E a p b q none faults trace h =
      (s1, ap (accept_from num_rounds abort_percent (did e)) h ∙ a, p)
  stepped e s s1 s2 P E a p b q (some x) faults trace h =
      (s2, ap (accept_from num_rounds abort_percent (failed e)) h ∙ b, q)

  next-Leads :
      (e : Effect) (s s1 s2 : Progress) (P : Unit → Progress → Type 0) (E : Progress → Type 0)
      → accept_done num_rounds abort_percent e s ≡ some s1
      → P tt s1
      → accept_failed num_rounds abort_percent e s ≡ some s2
      → E s2
      → (faults : List (Option Stop)) (trace : List Step)
      → progress num_rounds abort_percent trace ≡ some s
      → Ends P E (next_fault e faults trace)
  next-Leads e s s1 s2 P E a p b q [] trace h = stepped e s s1 s2 P E a p b q none [] trace h
  next-Leads e s s1 s2 P E a p b q (fault ∷ faults) trace h =
      stepped e s s1 s2 P E a p b q fault faults trace h

  pub perform-Leads :
      (e : Effect) (s s1 s2 : Progress) (P : Unit → Progress → Type 0) (E : Progress → Type 0)
      → accept_done num_rounds abort_percent e s ≡ some s1
      → P tt s1
      → accept_failed num_rounds abort_percent e s ≡ some s2
      → E s2
      → Leads s (perform e) P E
  perform-Leads e s s1 s2 P E a p b q w h = next-Leads e s s1 s2 P E a p b q w.faults w.trace h

  after-Leads :
      {A B : Type 0} (Q : A → Progress → Type 0) (P : B → Progress → Type 0) (E : Progress → Type 0)
      (f : A → Run B)
      → ((a : A) (s : Progress) → Q a s → Leads s (f a) P E)
      → (r : Result A × World) → Ends Q E r
      → Ends P E (after r f)
  after-Leads Q P E f g (done a, w) (s, h, q) = g a s q w h
  after-Leads Q P E f g (stopped x, w) e = e

  pub bind-Leads :
      {A B : Type 0} (s : Progress) (m : Run A) (f : A → Run B) (Q : A → Progress → Type 0)
      (P : B → Progress → Type 0) (E : Progress → Type 0)
      → Leads s m Q E
      → ((a : A) (t : Progress) → Q a t → Leads t (f a) P E)
      → Leads s (m >>= f) P E
  bind-Leads s m f Q P E l g w h = after-Leads Q P E f g (m w) (l w h)

  pub closing-Leads :
      {A : Type 0} (close : Run Unit) (Q : A → Progress → Type 0) (D : Progress → Type 0)
      (P : A → Progress → Type 0) (E : Progress → Type 0)
      → ((a : A) (t : Progress) → Q a t → Leads t close (λ _. P a) E)
      → ((t : Progress) → D t → Leads t close (λ _. E) E)
      → (r : Result A × World) → Ends Q D r
      → Ends P E (closing r.0 close r.1)
  closing-Leads close Q D P E f g (done a, w) (t, h, q) =
      after_closed_done a P E (close w) (f a t q w h)
    where
      after_closed_done :
          {A : Type 0} (a : A) (P : A → Progress → Type 0) (E : Progress → Type 0)
          (r : Result Unit × World)
          → Ends (λ _. P a) E r
          → Ends P E (after r (λ _ w'. (done a, w')))
      after_closed_done a P E (done u, w) e = e
      after_closed_done a P E (stopped x, w) e = e
  closing-Leads close Q D P E f g (stopped x, w) (t, h, q) =
      after_closed_stop x P E (close w) (g t q w h)
    where
      after_closed_stop :
          {A : Type 0} (x : Stop) (P : A → Progress → Type 0) (E : Progress → Type 0)
          (r : Result Unit × World)
          → Ends (λ _. E) E r
          → Ends P E (after r (λ _ w'. (stopped x, w')))
      after_closed_stop x P E (done u, w) e = e
      after_closed_stop x P E (stopped y, w) e = e

  pub finally-Leads :
      {A : Type 0} (s : Progress) (m : Run A) (close : Run Unit) (Q : A → Progress → Type 0)
      (D : Progress → Type 0) (P : A → Progress → Type 0) (E : Progress → Type 0)
      → Leads s m Q D
      → ((a : A) (t : Progress) → Q a t → Leads t close (λ _. P a) E)
      → ((t : Progress) → D t → Leads t close (λ _. E) E)
      → Leads s (try_finally m close) P E
  finally-Leads s m close Q D P E l f g w h = closing-Leads close Q D P E f g (m w) (l w h)

  swallowed-Leads :
      (P : Unit → Progress → Type 0) (D E : Progress → Type 0) (r : Result Unit × World)
      → ((t : Progress) → D t → P tt t)
      → ((t : Progress) → D t → E t)
      → Ends P D r
      → Ends P E (swallowed r)
  swallowed-Leads P D E (done a, w) f g e = e
  swallowed-Leads P D E (stopped error, w) f g (t, h, e) = (t, h, f t e)
  swallowed-Leads P D E (stopped cancel, w) f g (t, h, e) = (t, h, g t e)

  pub best_effort-Leads :
      (s : Progress) (m : Run Unit) (P : Unit → Progress → Type 0) (D E : Progress → Type 0)
      → ((t : Progress) → D t → P tt t)
      → ((t : Progress) → D t → E t)
      → Leads s m P D
      → Leads s (best_effort m) P E
  best_effort-Leads s m P D E f g l w h = swallowed-Leads P D E (m w) f g (l w h)

  pub when-Leads :
      (b : Bool) (s : Progress) (m : Run Unit) (P : Unit → Progress → Type 0)
      (E : Progress → Type 0)
      → (b ≡ true → Leads s m P E)
      → (b ≡ false → P tt s)
      → Leads s (when b m) P E
  when-Leads true s m P E l p = l refl
  when-Leads false s m P E l p = pure-Leads s tt P E (p refl)
