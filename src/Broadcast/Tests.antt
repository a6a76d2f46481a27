-- ===== src/Broadcast/Tests.antt =====
-- The broadcaster at a concrete run.
use alpha_swarm.Prelude.{ℕ, ◌-◌, ◌<◌, ◌≡◌, refl, true, false, none, List, [], ◌∷◌}
use alpha_swarm.Broadcast.{Frame, Sources, keepalive, frame_key, loop_round}
use alpha_swarm.Broadcast.Clients.{AllHave, AllShort}
use alpha_swarm.Broadcast.Fresh.{Event, start, run, each_client_is_current}

abbrev at : ℕ → Sources
at version = record { live_version = version; replay_version = none; serializes = true }

abbrev story : List Event
story =
    Event.connects 1
    ∷ Event.ticks (at 4) 200
    ∷ Event.takes 1
    ∷ Event.connects 2
    ∷ Event.ticks (record (at 5) { serializes = false }) 400
    ∷ Event.sends 1
    ∷ Event.ticks (at 5) 600
    ∷ Event.send_fails 1
    ∷ []

each_client_is_current_example :
    let l = run story (start 0) in
    let r = loop_round (at 5) 800 l in
    AllShort r.manager.clients
    × ((f : Frame) × (f.key ≡ frame_key (at 5) l.manager.generation)
        × (800 - f.serialized_at < keepalive)
        × AllHave f r.manager.clients)
each_client_is_current_example = each_client_is_current story (at 5) 0 800 refl
