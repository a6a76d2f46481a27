-- ===== src/Broadcast/Fresh.antt =====
-- Every client is up to date after each tick.
use alpha_swarm.Prelude.{
  ℕ, ◌-◌, ◌≤◌, ◌<◌, ◌≡◌, refl, ◌⊎◌, inl, inr, true, false, Option, none, some, List, [], ◌∷◌,
  length, arith,
}
use alpha_swarm.Broadcast.{
  FrameKey, Frame, Client, ConnectionManager, connect, disconnect, broadcast, take_frame,
  finish_send, unchanged, writer_takes, writer_sent, keepalive, Sources, frame_key, broadcast_tick,
  take_stats, Loop, loop_round,
}
use alpha_swarm.Broadcast.Clients.{
  AllHave, AllShort, AllHave-put_all, AllShort-put_all, AllHave-without, AllShort-without,
  AllHave-at_socket, AllShort-at_socket, newest-take, newest-finish, short-take, short-finish,
  AllShort-append,
}

-- What can happen between two ticks, and a tick.
pub data Event : Type 0 where
  connects disconnects takes sends send_fails : ℕ → Event
  ticks : Sources → ℕ → Event

unfoldable pub step : Event → Loop → Loop
step (connects ws) l = record l { manager = connect ws l.manager }
step (disconnects ws) l = record l { manager = disconnect ws l.manager }
step (takes ws) l = record l { manager = writer_takes ws l.manager }
step (sends ws) l = record l { manager = writer_sent ws l.manager }
step (send_fails ws) l = record l { manager = disconnect ws l.manager }
step (ticks src now) l = loop_round src now l

unfoldable pub run : List Event → Loop → Loop
run [] l = l
run (e ∷ rest) l = run rest (step e l)

unfoldable pub start : ℕ → Loop
start now = record {
  manager = record { clients = []; generation = 0 };
  state = record {
    last_key = none;
    last_sent_at = 0;
    window_started_at = now;
    ticks = 0;
    serializations = 0;
    skipped_idle = 0;
    skipped_unchanged = 0;
  };
  consecutive_failures = 0;
}

-- The clients have the frame of the last key, unless one came since it was built.
abbrev Current : Option FrameKey → ℕ → ConnectionManager → Type 0
Current none t m = Unit
Current (some k) t m =
    (k.generation ≤ m.generation)
    × ((k.generation < m.generation) ⊎ AllHave (record { key = k; serialized_at = t }) m.clients)

record IsCurrent (l : Loop) : Type 0 where
  current : Current l.state.last_key l.state.last_sent_at l.manager
  short : AllShort l.manager.clients

-- A change of the connections that keeps what each client has.
Current-keep :
    (o : Option FrameKey) (t : ℕ) (m n : ConnectionManager)
    → m.generation ≡ n.generation
    → ((f : Frame) → AllHave f m.clients → AllHave f n.clients)
    → Current o t m
    → Current o t n
Current-keep none t m n e k h = tt
Current-keep (some key) t m n e k h = (
  omega (arith, e, h.0),
  elim h.1 [
    | inl older ↦ inl (omega (arith, e, older))
    | inr all ↦ inr (k (record { key = key; serialized_at = t }) all)
  ],
)

Current-connect :
    (o : Option FrameKey) (t ws : ℕ) (m : ConnectionManager)
    → Current o t m
    → Current o t (connect ws m)
unfolding connect
Current-connect none t ws m h = tt
Current-connect (some k) t ws m h = (omega (arith, h.0), inl (omega (arith, h.0)))

-- What a tick does.
tick_cases :
    (src : Sources) (now : ℕ) (l : Loop)
    → let r = loop_round src now l in
      let key = frame_key src l.manager.generation in
      ((r.manager ≡ l.manager)
        × (r.state.last_key ≡ l.state.last_key)
        × (r.state.last_sent_at ≡ l.state.last_sent_at)
        × ((length l.manager.clients ≡ 0)
            ⊎ (unchanged l.state.last_key key now l.state.last_sent_at ≡ true)
            ⊎ (src.serializes ≡ false)))
      ⊎ ((r.manager ≡ broadcast (record { key = key; serialized_at = now }) l.manager)
          × (r.state.last_key ≡ some key)
          × (r.state.last_sent_at ≡ now))
unfolding loop_round broadcast_tick take_stats
tick_cases src now l = ground arith

queued-Current :
    (src : Sources) (now : ℕ) (l : Loop)
    → let key = frame_key src l.manager.generation in
      Current (some key) now (broadcast (record { key = key; serialized_at = now }) l.manager)
unfolding broadcast frame_key
queued-Current src now l = (omega arith, inr (AllHave-put_all _ l.manager.clients))

queued_have :
    (src : Sources) (now : ℕ) (l : Loop)
    → let f : Frame = record { key = frame_key src l.manager.generation; serialized_at = now } in
      AllHave f (ConnectionManager.clients (broadcast f l.manager))
unfolding broadcast
queued_have src now l = AllHave-put_all _ l.manager.clients

queued_short :
    (src : Sources) (now : ℕ) (l : Loop)
    → AllShort l.manager.clients
    → AllShort (
        ConnectionManager.clients (
          broadcast
            (record { key = frame_key src l.manager.generation; serialized_at = now })
            l.manager))
unfolding broadcast
queued_short src now l h = AllShort-put_all _ l.manager.clients h

round-IsCurrent :
    (src : Sources) (now : ℕ) (l : Loop) → IsCurrent l → IsCurrent (loop_round src now l)
round-IsCurrent src now l h = elim (tick_cases src now l) [
  | inl (m, k, t, why) ↦ record { current = rw (k, t, m) h.current; short = rw m h.short }
  | inr (m, k, t) ↦ record {
    current = rw (k, t, m) (queued-Current src now l);
    short = rw m (queued_short src now l h.short);
  }
]

step-IsCurrent : (e : Event) (l : Loop) → IsCurrent l → IsCurrent (step e l)
unfolding step connect disconnect writer_takes writer_sent
step-IsCurrent (connects ws) l h = record {
  current = Current-connect l.state.last_key l.state.last_sent_at ws l.manager h.current;
  short = AllShort-append l.manager.clients _ h.short (omega arith);
}
step-IsCurrent (disconnects ws) l h = record {
  current =
      Current-keep l.state.last_key l.state.last_sent_at l.manager _ refl
        (λ f. AllHave-without f ws l.manager.clients) h.current;
  short = AllShort-without ws l.manager.clients h.short;
}
step-IsCurrent (send_fails ws) l h = record {
  current =
      Current-keep l.state.last_key l.state.last_sent_at l.manager _ refl
        (λ f. AllHave-without f ws l.manager.clients) h.current;
  short = AllShort-without ws l.manager.clients h.short;
}
step-IsCurrent (takes ws) l h =
    let take = λ (c : Client). take_frame c.sending c.queue c in
    record {
      current =
          Current-keep l.state.last_key l.state.last_sent_at l.manager _ refl
            (λ f.
              AllHave-at_socket f ws take l.manager.clients
                (λ c. newest-take c.sending c.queue c refl refl))
            h.current;
      short =
          AllShort-at_socket ws take l.manager.clients (λ c. short-take c.sending c.queue c refl)
            h.short;
    }
step-IsCurrent (sends ws) l h =
    let finish = λ (c : Client). finish_send c.sending c in
    record {
      current =
          Current-keep l.state.last_key l.state.last_sent_at l.manager _ refl
            (λ f.
              AllHave-at_socket f ws finish l.manager.clients (λ c. newest-finish c.sending c refl))
            h.current;
      short =
          AllShort-at_socket ws finish l.manager.clients (λ c. short-finish c.sending c) h.short;
    }
step-IsCurrent (ticks src now) l h = round-IsCurrent src now l h

run-IsCurrent : (events : List Event) (l : Loop) → IsCurrent l → IsCurrent (run events l)
unfolding run
run-IsCurrent [] l h = h
run-IsCurrent (e ∷ rest) l h = run-IsCurrent rest (step e l) (step-IsCurrent e l h)

generation_of_key :
    (src : Sources) (generation : ℕ) → (frame_key src generation).generation ≡ generation
unfolding frame_key
generation_of_key src generation = refl

none_have : (f : Frame) (cs : List Client) → length cs ≡ 0 → AllHave f cs
none_have f [] h = tt
none_have f (c ∷ cs) h = absurd (omega arith)

-- A skip for want of change leaves the clients with the frame of the last key, which is this key.
kept_frame :
    (o : Option FrameKey) (key : FrameKey) (now t : ℕ) (m : ConnectionManager)
    → key.generation ≡ m.generation
    → unchanged o key now t ≡ true
    → Current o t m
    → (f : Frame) × (f.key ≡ key) × (now - f.serialized_at < keepalive) × AllHave f m.clients
kept_frame none key now t m g u h = cc
kept_frame (some k) key now t m g u h = (
  record { key = k; serialized_at = t },
  ground (arith, u),
  ground (arith, u),
  elim h.1 [ inl older ↦ absurd (ground (arith, u, older, g)) | inr all ↦ all ],
)

-- No client is left behind. Whatever connects, leaves, fails or is slow, and whatever ticks came
-- before: after a tick whose frame can be serialized there is a frame, less than a second old, that was
-- built from exactly the versions of now and for the clients of now, and for each client it is the
-- newest frame: queued, on its way or sent last. No queue ever holds more than one.
pub each_client_is_current :
    (events : List Event) (src : Sources) (started now : ℕ)
    → src.serializes ≡ true
    → let l = run events (start started) in
      let r = loop_round src now l in
      AllShort r.manager.clients
      × ((f : Frame) × (f.key ≡ frame_key src l.manager.generation)
          × (now - f.serialized_at < keepalive)
          × AllHave f r.manager.clients)
unfolding start
each_client_is_current events src started now ok =
    let l = run events (start started) in
    let h : IsCurrent l =
      run-IsCurrent events (start started) (record { current = tt; short = tt }) in
    let key = frame_key src l.manager.generation in
    (
      (round-IsCurrent src now l h).short,
      elim (tick_cases src now l) [
        | inl (m, k, t, inl nobody) ↦ (
          record { key = key; serialized_at = now },
          refl,
          omega arith,
          rw m (none_have _ l.manager.clients nobody),
        )
        | inl (m, k, t, inr (inl same)) ↦ rw m (
            kept_frame l.state.last_key key now l.state.last_sent_at l.manager
              (generation_of_key src l.manager.generation) same h.current)
        | inl (m, k, t, inr (inr broken)) ↦ cc
        | inr (m, k, t) ↦ (
          record { key = key; serialized_at = now },
          refl,
          omega arith,
          rw m (queued_have src now l),
        )
      ],
    )
