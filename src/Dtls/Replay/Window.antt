-- ===== src/Dtls/Replay/Window.antt =====
-- The replay window of internal/dtls13/record.go against the history of accepted numbers.
use socat.Dtls.Replay.Cases.{stale, repeated, newer, first, within, accept_cases}
use socat.Prelude.{
  inr, inl, if◌then◌else◌, ◌⊎◌, [], ◌∷◌, List, ℕ, ◌+◌, ◌-◌, ◌≤◌, ◌<◌, ◌≡◌, refl, arith, Bool, true,
  false,
}
use socat.Dtls.Replay.{ReplayWindow, accept}
use socat.Dtls.Replay.Marks.{
  within-Tracks, within_bits, newer-Tracks, newer_bits, first-Tracks, Member, Tracks, Tracks-start,
}

-- What an answer of the window means for the history of accepted numbers.
abbrev pub Verdict : List ℕ → ℕ → ReplayWindow → Bool × ReplayWindow → Type 0
Verdict accepted s w (true, w') =
    (¬ Member s accepted) × ((accepted ≡ []) ⊎ (w.highest ≤ s + 63)) × Tracks w' (s ∷ accepted)
Verdict accepted s w (false, w') = (Member s accepted ⊎ (s + 63 < w.highest)) × (w' ≡ w)

-- Let the window's marks be the numbers accepted so far. If it accepts a number, that number is not
-- among them, is the first one or at most 63 behind the highest, and the marks are again the accepted
-- numbers, the new one included. If it refuses a number, that number is among them or more than 63
-- behind the highest, and the window is as it was.
pub accept-Verdict :
    (w : ReplayWindow) (accepted : List ℕ) (s : ℕ)
    → Tracks w accepted
    → Verdict accepted s w (accept s w)
accept-Verdict w accepted s tr = elim (accept_cases w s) [
  | first e answer ↦
      let nothing = tr.fresh e in rw (answer, nothing) ((λ m. absurd m), inl refl, first-Tracks s)
  | newer used above answer ↦ rw answer (
    (λ m. absurd (omega (arith, tr.highest s m))),
    inr (omega arith),
    unfold newer_bits in newer-Tracks w accepted tr s above,
  )
  | within used below near new answer ↦ rw answer (
    (λ m. absurd (omega (arith, new, tr.marked s m near))),
    inr (omega arith),
    unfold within_bits in within-Tracks w accepted tr s below near,
  )
  | repeated used below near seen answer ↦
      let (le, m) = tr.real (w.highest - s) near seen in
      let e : w.highest - (w.highest - s) ≡ s = omega arith in rw answer (inl (rw e at m), refl)
  | stale used far answer ↦ rw answer (inr far, refl)
]

-- The accepted numbers, the last one first, after a series of record numbers arrived.
unfoldable pub run : List ℕ → List ℕ → ReplayWindow → List ℕ
run [] accepted w = accepted
run (s ∷ ss) accepted w =
    let (good, w') = accept s w in
    let taken = run ss (s ∷ accepted) w' in
    let dropped = run ss accepted w' in if good then taken else dropped

abbrev pub NoRepeat : List ℕ → Type 0
NoRepeat [] = Unit
NoRepeat (x ∷ xs) = (¬ Member x xs) × NoRepeat xs

module _ (s : ℕ) (ss accepted : List ℕ) (w w' : ReplayWindow) where
  run-taken : accept s w ≡ (true, w') → run (s ∷ ss) accepted w ≡ run ss (s ∷ accepted) w'
  unfolding run
  run-taken e = rw e

  run-dropped : accept s w ≡ (false, w') → run (s ∷ ss) accepted w ≡ run ss accepted w'
  unfolding run
  run-dropped e = rw e

-- one arrival, given the result for the rest
step-NoRepeat :
    (s : ℕ) (ss accepted : List ℕ) (w : ReplayWindow) (answer : Bool × ReplayWindow)
    → accept s w ≡ answer
    → Verdict accepted s w answer
    → ((taken : List ℕ) (w' : ReplayWindow)
        → Tracks w' taken
        → NoRepeat taken
        → NoRepeat (run ss taken w'))
    → Tracks w accepted
    → NoRepeat accepted
    → NoRepeat (run (s ∷ ss) accepted w)
step-NoRepeat s ss accepted w (true, w') e v rest marks n =
    rw (run-taken s ss accepted w w' e) (rest (s ∷ accepted) w' v.2 (v.0, n))
step-NoRepeat s ss accepted w (false, w') e v rest marks n =
    rw (run-dropped s ss accepted w w' e) (rw v.1 (rest accepted w marks n))

run-NoRepeat :
    (arrivals accepted : List ℕ) (w : ReplayWindow)
    → Tracks w accepted
    → NoRepeat accepted
    → NoRepeat (run arrivals accepted w)
run-NoRepeat [] accepted w marks n = unfold run in n
run-NoRepeat (s ∷ ss) accepted w marks n =
    step-NoRepeat s ss accepted w (accept s w) refl (accept-Verdict w accepted s marks)
      (run-NoRepeat ss) marks n

-- Start with a window that has seen nothing and let record numbers arrive in any order, any of them
-- any number of times: the list of the accepted ones holds no number twice.
pub no_replay : (arrivals : List ℕ) → NoRepeat (run arrivals [] (record { highest = 0; bits = 0 }))
no_replay arrivals = run-NoRepeat arrivals [] _ Tracks-start tt
