-- ===== src/Parse/Trim/Kept.antt =====
-- Where the loops of trimUnescapedSpace stop, and the strings that it leaves as they are.
use socat.Parse.Trim.{
  escaped_byte, last_space_size, space_size, trim_unescaped_space, trim_end_loop, trim_start_loop,
}
use socat.Prelude.{
  length-drop, ◌<◌, inr, ==_iff, inl, Bool-cases, [], ◌∷◌, ◌++◌, ◌≤◌, true, refl, drop, zero, ◌||◌,
  arith, ◌==◌, length, suc, ◌≡◌, Bytes, ℕ,
}
use mathlib.Core.List.{reverse, reverse-reverse}

-- No white space stands at the front or, unless it is escaped, at the end.
abbrev pub IsTrimmed : Bytes → Type 0
IsTrimmed s =
    (space_size s ≡ 0)
    × ((last_space_size (reverse s) == 0
          || escaped_byte (drop (last_space_size (reverse s)) (reverse s)))
        ≡ true)

trim_start_loop_lem : (n : ℕ) (s : Bytes) → space_size s ≡ 0 → trim_start_loop n s ≡ s
unfolding trim_start_loop
trim_start_loop_lem zero s h = refl
trim_start_loop_lem (suc n) s h = ground arith

trim_end_loop_lem :
    (n : ℕ) (r : Bytes)
    → (last_space_size r == 0 || escaped_byte (drop (last_space_size r) r)) ≡ true
    → trim_end_loop n r ≡ r
unfolding trim_end_loop
trim_end_loop_lem zero r h = refl
trim_end_loop_lem (suc n) r h = rw h

-- A trimmed string is left as it is.
pub trim_unescaped_space-id : (s : Bytes) → IsTrimmed s → trim_unescaped_space s ≡ s
unfolding trim_unescaped_space
trim_unescaped_space-id s (a, b) =
    rw (trim_start_loop_lem (length s) s a)
      (rw (trim_end_loop_lem (length s) (reverse s) b) (reverse-reverse s))

pub space_size-prefix : (s t : Bytes) → space_size (s ++ t) ≡ 0 → space_size s ≡ 0
unfolding space_size
space_size-prefix [] t h = refl
space_size-prefix (a ∷ []) [] h = h
space_size-prefix (a ∷ []) (b ∷ []) h = ground arith
space_size-prefix (a ∷ []) (b ∷ c ∷ t) h = ground arith
space_size-prefix (a ∷ b ∷ []) [] h = h
space_size-prefix (a ∷ b ∷ []) (c ∷ t) h = ground arith
space_size-prefix (a ∷ b ∷ c ∷ s) t h = h

-- There is enough fuel for either loop: each round that continues takes a byte.
pub trim_start_loop_stops :
    (n : ℕ) (s : Bytes) → length s ≤ n → space_size (trim_start_loop n s) ≡ 0
unfolding trim_start_loop
trim_start_loop_stops zero [] h = unfold space_size in refl
trim_start_loop_stops zero (c ∷ s) h = absurd (omega arith)
trim_start_loop_stops (suc n) s h = elim (Bool-cases (space_size s == 0)) [
  | inl e ↦ rw e ((==_iff (space_size s) 0).0 e)
  | inr e ↦
      let some_size : 0 < space_size s = ground arith in
      rw e (
        trim_start_loop_stops n (drop (space_size s) s)
          (omega (arith, length-drop (space_size s) s)))
]

-- The condition on which the second loop stops.
abbrev pub Stops : Bytes → Type 0
Stops r = (last_space_size r == 0 || escaped_byte (drop (last_space_size r) r)) ≡ true

pub trim_end_loop-Stops : (n : ℕ) (r : Bytes) → length r ≤ n → Stops (trim_end_loop n r)
unfolding trim_end_loop
trim_end_loop-Stops zero [] h = unfold last_space_size in refl
trim_end_loop-Stops zero (c ∷ r) h = absurd (omega arith)
trim_end_loop-Stops (suc n) r h =
    elim (Bool-cases (last_space_size r == 0 || escaped_byte (drop (last_space_size r) r))) [
      | inl e ↦ rw e e
      | inr e ↦
          let some_size : 0 < last_space_size r = ground arith in
          rw e (
            trim_end_loop-Stops n (drop (last_space_size r) r)
              (omega (arith, length-drop (last_space_size r) r)))
    ]
