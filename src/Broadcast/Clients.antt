-- ===== src/Broadcast/Clients.antt =====
-- What single clients have, and all of them.
use alpha_swarm.Prelude.{
  ℕ, ◌≤◌, ◌≡◌, refl, inl, inr, Option, none, some, List, [], ◌∷◌, ◌++◌, ◌==◌, length, Bool-cases,
  arith,
}
use alpha_swarm.Broadcast.{
  Frame, Client, without, put_latest, put_all, take_frame, finish_send, at_socket,
}

abbrev last_or : Option Frame → List Frame → Option Frame
last_or o [] = o
last_or o (f ∷ rest) = last_or (some f) rest

abbrev or_else : Option Frame → Option Frame → Option Frame
or_else none o = o
or_else (some f) o = some f

-- The newest frame that a client has or is about to get.
abbrev pub newest : Client → Option Frame
newest c = last_or (or_else c.sending c.sent) c.queue

-- Each client's newest frame is `f`, and no queue holds more than one.
abbrev pub AllHave : Frame → List Client → Type 0
AllHave f [] = Unit
AllHave f (c ∷ rest) = (newest c ≡ some f) × AllHave f rest

abbrev pub AllShort : List Client → Type 0
AllShort [] = Unit
AllShort (c ∷ rest) = (length c.queue ≤ 1) × AllShort rest

pub last_or-append :
    (o : Option Frame) (q : List Frame) (f : Frame) → last_or o (q ++ f ∷ []) ≡ some f
last_or-append o [] f = refl
last_or-append o (g ∷ q) f = last_or-append (some g) q f

pub last_or-put_latest :
    (o : Option Frame) (q : List Frame) (f : Frame) → last_or o (put_latest f q) ≡ some f
unfolding put_latest
last_or-put_latest o [] f = refl
last_or-put_latest o (g ∷ q) f = ground (arith, last_or-append o q f)

pub AllHave-put_all : (f : Frame) (cs : List Client) → AllHave f (put_all f cs)
AllHave-put_all f [] = tt
AllHave-put_all f (c ∷ rest) =
    (last_or-put_latest (or_else c.sending c.sent) c.queue f, AllHave-put_all f rest)

pub short_put : (f : Frame) (q : List Frame) → length q ≤ 1 → length (put_latest f q) ≤ 1
unfolding put_latest
short_put f [] h = omega arith
short_put f (g ∷ []) h = ground arith
short_put f (g ∷ k ∷ q) h = ground arith

pub AllShort-put_all : (f : Frame) (cs : List Client) → AllShort cs → AllShort (put_all f cs)
AllShort-put_all f [] h = tt
AllShort-put_all f (c ∷ rest) h = (short_put f c.queue h.0, AllShort-put_all f rest h.1)

-- A property of single clients survives on those left, and what keeps it for one keeps it for all.
pub AllHave-without :
    (f : Frame) (ws : ℕ) (cs : List Client) → AllHave f cs → AllHave f (without ws cs)
AllHave-without f ws [] h = tt
AllHave-without f ws (c ∷ rest) h = elim (Bool-cases (c.socket == ws)) [
  | inl e ↦ rw e (AllHave-without f ws rest h.1)
  | inr e ↦ rw e (h.0, AllHave-without f ws rest h.1)
]

pub AllShort-without : (ws : ℕ) (cs : List Client) → AllShort cs → AllShort (without ws cs)
AllShort-without ws [] h = tt
AllShort-without ws (c ∷ rest) h = elim (Bool-cases (c.socket == ws)) [
  | inl e ↦ rw e (AllShort-without ws rest h.1)
  | inr e ↦ rw e (h.0, AllShort-without ws rest h.1)
]

pub AllHave-at_socket :
    (f : Frame) (ws : ℕ) (g : Client → Client) (cs : List Client)
    → ((c : Client) → newest (g c) ≡ newest c)
    → AllHave f cs
    → AllHave f (at_socket ws g cs)
AllHave-at_socket f ws g [] k h = tt
AllHave-at_socket f ws g (c ∷ rest) k h =
    (ground (arith, k c, h.0), AllHave-at_socket f ws g rest k h.1)

pub AllShort-at_socket :
    (ws : ℕ) (g : Client → Client) (cs : List Client)
    → ((c : Client) → length (Client.queue (g c)) ≤ length c.queue)
    → AllShort cs
    → AllShort (at_socket ws g cs)
AllShort-at_socket ws g [] k h = tt
AllShort-at_socket ws g (c ∷ rest) k h =
    (ground (arith, k c, h.0), AllShort-at_socket ws g rest k h.1)

pub newest-take :
    (o : Option Frame) (q : List Frame) (c : Client)
    → c.sending ≡ o
    → c.queue ≡ q
    → newest (take_frame o q c) ≡ newest c
newest-take none [] c e f = refl
newest-take none (g ∷ rest) c e f = ground (arith, e, f)
newest-take (some g) q c e f = refl

pub newest-finish :
    (o : Option Frame) (c : Client) → c.sending ≡ o → newest (finish_send o c) ≡ newest c
newest-finish none c e = refl
newest-finish (some g) c e = ground (arith, e)

pub short-take :
    (o : Option Frame) (q : List Frame) (c : Client)
    → c.queue ≡ q
    → length (Client.queue (take_frame o q c)) ≤ length c.queue
short-take none [] c f = omega arith
short-take none (g ∷ rest) c f = ground (arith, f)
short-take (some g) q c f = omega arith

pub short-finish :
    (o : Option Frame) (c : Client) → length (Client.queue (finish_send o c)) ≤ length c.queue
short-finish none c = omega arith
short-finish (some g) c = omega arith

pub AllShort-append :
    (cs : List Client) (c : Client) → AllShort cs → length c.queue ≤ 1 → AllShort (cs ++ c ∷ [])
AllShort-append [] c h k = (k, tt)
AllShort-append (d ∷ cs) c h k = (h.0, AllShort-append cs c h.1 k)
