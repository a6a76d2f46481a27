-- ===== src/State/Store/Feed.antt =====
-- The rationale feed: the window of the store, and the snapshot that shows it.
use alpha_swarm.Prelude.{
  ℕ, zero, suc, ◌+◌, ◌-◌, ◌≤◌, ◌≡◌, refl, sym, ap, ◌∙◌, List, [], ◌∷◌, length, take, arith,
}
use alpha_swarm.State.Types.{RationaleEntry}
use alpha_swarm.State.Store.{StateStore, push_rationale}
use alpha_swarm.State.Replay.{newest_last, snapshot}

-- Entries pushed one after the other, each with its wall-clock time and its store version.
abbrev pub Pushes : Type 0
Pushes = List (RationaleEntry × ℕ × ℕ)

abbrev pub push_all : Pushes → StateStore → StateStore
push_all [] s = s
push_all ((entry, wall, fresh) ∷ rest) s = push_all rest (push_rationale entry wall fresh s)

-- The entries as they should be kept, newest first, on top of older ones: each with the sequence number
-- after the last one and its own time.
abbrev pub stamped_onto : ℕ → Pushes → List RationaleEntry → List RationaleEntry
stamped_onto last [] older = older
stamped_onto last ((entry, wall, fresh) ∷ rest) older =
    stamped_onto (last + 1) rest (record entry { seq = last + 1; ts = wall } ∷ older)

-- The entries carry the sequence numbers down from `n`, with none left out.
abbrev pub CountsDown : ℕ → List RationaleEntry → Type 0
CountsDown n [] = Unit
CountsDown n (e ∷ rest) = (n ≡ e.seq) × (1 ≤ n) × CountsDown (n - 1) rest

CountsDown-take : (k n : ℕ) (w : List RationaleEntry) → CountsDown n w → CountsDown n (take k w)
CountsDown-take zero n w h = tt
CountsDown-take (suc k) n [] h = tt
CountsDown-take (suc k) n (e ∷ rest) h = (h.0, h.1, CountsDown-take k (n - 1) rest h.2)

take-take : (k : ℕ) (w : List RationaleEntry) → take k (take k w) ≡ take k w
take-take zero w = refl
take-take (suc k) [] = refl
take-take (suc k) (e ∷ rest) = ap (λ r. e ∷ r) (take-take k rest)

take_short : (k : ℕ) (w : List RationaleEntry) → length w ≤ k → take k w ≡ w
take_short zero [] h = refl
take_short zero (e ∷ rest) h = absurd (omega (arith, h))
take_short (suc k) [] h = refl
take_short (suc k) (e ∷ rest) h = ap (λ r. e ∷ r) (take_short k rest (omega (arith, h)))

-- What falls out of a window early would have fallen out later.
take-stamped_onto :
    (k last : ℕ) (l : Pushes) (w : List RationaleEntry)
    → take (suc k) (stamped_onto last l (take (suc k) w)) ≡ take (suc k) (stamped_onto last l w)
take-stamped_onto k last [] w = take-take (suc k) w
take-stamped_onto k last ((entry, wall, fresh) ∷ rest) [] = refl
take-stamped_onto k last ((entry, wall, fresh) ∷ rest) (old ∷ w) =
    let e = record entry { seq = last + 1; ts = wall } in
    sym (take-stamped_onto k (last + 1) rest (e ∷ take (suc k) (old ∷ w)))
    ∙ ap (λ r. take (suc k) (stamped_onto (last + 1) rest (e ∷ r))) (take_again k (old ∷ w))
    ∙ take-stamped_onto k (last + 1) rest (e ∷ old ∷ w)
  where
    take_again : (k : ℕ) (w : List RationaleEntry) → take k (take (suc k) w) ≡ take k w
    take_again zero w = refl
    take_again (suc k) [] = refl
    take_again (suc k) (e ∷ rest) = ap (λ r. e ∷ r) (take_again k rest)

window_holds :
    (l : Pushes) (s : StateStore)
    → take 50 s.rationale_window ≡ s.rationale_window
    → (push_all l s).rationale_window ≡ take 50 (stamped_onto s.rationale_seq l s.rationale_window)
unfolding push_rationale
window_holds [] s h = sym h
window_holds ((entry, wall, fresh) ∷ rest) s h =
    let w = record entry { seq = s.rationale_seq + 1; ts = wall } ∷ s.rationale_window in
    window_holds rest (push_rationale entry wall fresh s) (take-take 50 w)
    ∙ take-stamped_onto 49 (s.rationale_seq + 1) rest w

seq_counts :
    (l : Pushes) (s : StateStore) → (push_all l s).rationale_seq ≡ s.rationale_seq + length l
unfolding push_rationale
seq_counts [] s = omega arith
seq_counts ((entry, wall, fresh) ∷ rest) s =
    omega (arith, seq_counts rest (push_rationale entry wall fresh s))

pred_suc : (n : ℕ) → n + 1 - 1 ≡ n
pred_suc n = omega arith

CountsDown-stamped_onto :
    (last : ℕ) (l : Pushes) (w : List RationaleEntry)
    → CountsDown last w
    → CountsDown (last + length l) (stamped_onto last l w)
CountsDown-stamped_onto last [] w h = rw (right_zero last) h
  where
    right_zero : (n : ℕ) → n + 0 ≡ n
    right_zero n = omega arith
CountsDown-stamped_onto last ((entry, wall, fresh) ∷ rest) w h = rw (shift last (length rest)) (
    CountsDown-stamped_onto (last + 1) rest (record entry { seq = last + 1; ts = wall } ∷ w)
      (refl, omega arith, rw (pred_suc last) h))
  where
    shift : (n m : ℕ) → n + suc m ≡ n + 1 + m
    shift n m = omega arith

-- The feed is a window on one numbered sequence. After any pushes, each pushed entry has its text, agent
-- and signal as given, the time of its push and the next sequence number; the snapshot shows, the
-- oldest first, the last fifty of what the window held and what was pushed, and their sequence
-- numbers end with the newest and leave no gap.
pub feed_is_newest :
    (l : Pushes) (now : ℕ) (s : StateStore)
    → CountsDown s.rationale_seq s.rationale_window
    → length s.rationale_window ≤ 50
    → let s' = push_all l s in
      let feed = take 50 (stamped_onto s.rationale_seq l s.rationale_window) in
      ((snapshot now s').0.rationale_entries ≡ newest_last feed)
      × CountsDown (s.rationale_seq + length l) feed
      × (s'.rationale_seq ≡ s.rationale_seq + length l)
unfolding snapshot
feed_is_newest l now s h k = (
  ap newest_last (window_holds l s (take_short 50 s.rationale_window k)),
  CountsDown-take 50 _ _ (CountsDown-stamped_onto s.rationale_seq l s.rationale_window h),
  seq_counts l s,
)
