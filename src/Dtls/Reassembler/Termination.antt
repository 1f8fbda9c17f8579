-- ===== src/Dtls/Reassembler/Termination.antt =====
-- `add` comes to an end on every input, and keeps the invariant.
use mathlib.Core.Path.{subst}
use socat.Dtls.Fragment.RoundTrip.{wire, parse_fragment-inv}
use socat.Dtls.Fragment.{parse_fragment, HandshakeFragment}
use socat.Dtls.Error.{err, Error, ok, Result}
use socat.Prelude.{
  zero, All-append_right, length-append, inl, ap, ◌&&◌, true, inr, ◌⊎◌, [], ◌∷◌, none, some, suc,
  ◌∷◌, IsByte, length, All, some, Bool, Bytes, Option, ℕ, ◌≤◌, ◌≡◌, refl, arith,
}
use socat.Dtls.Reassembler.{Reassembler, insert, add, add_loop}
use socat.Dtls.Reassembler.Bounds.{IsBounded, IsFragment, insert-IsBounded}

-- The answer exists, and the state that it comes with satisfies the invariant.
abbrev pub Ends : Option (Result Bool × Reassembler) → Type 0
Ends none = ⊥
Ends (some (answer, r)) = IsBounded r

-- A parsed fragment is one, and leaves less input.
parsed :
    (b : ℕ) (bs : Bytes) {f : HandshakeFragment} {rest : Bytes}
    → All IsByte (b ∷ bs)
    → parse_fragment (b ∷ bs) ≡ ok (f, rest)
    → IsFragment f × (length rest ≤ length bs) × All IsByte rest
parsed b bs {f} {rest} h e =
    let (split, fits) = parse_fragment-inv (b ∷ bs) h e in
    (
      record { is_uint16 = omega (arith, fits.sequence_fits); within = fits.body_within },
      omega (arith, ap (length {A = ℕ}) split, length-append (wire f) rest),
      All-append_right IsByte (wire f) rest (subst (All IsByte) split h),
    )

-- one round of the loop, after a fragment was parsed
module _ (fuel : ℕ) (b : ℕ) (bs : Bytes) (epoch : ℕ) (good : Bool) (r : Reassembler) where
  round_error :
      {e : Error}
      → parse_fragment (b ∷ bs) ≡ err e
      → add_loop (suc fuel) (b ∷ bs) epoch good r ≡ some (err e, r)
  unfolding add_loop
  round_error e = rw (e, add_loop)

  round_refused :
      {f : HandshakeFragment} {rest : Bytes} {e : Error}
      → parse_fragment (b ∷ bs) ≡ ok (f, rest)
      → (insert f epoch r).0 ≡ err e
      → add_loop (suc fuel) (b ∷ bs) epoch good r ≡ some (err e, (insert f epoch r).1)
  unfolding add_loop
  round_refused e answer = rw (e, add_loop) (rw answer)

  round_accepted :
      {f : HandshakeFragment} {rest : Bytes} {done : Bool}
      → parse_fragment (b ∷ bs) ≡ ok (f, rest)
      → (insert f epoch r).0 ≡ ok done
      → add_loop (suc fuel) (b ∷ bs) epoch good r
        ≡ add_loop fuel rest epoch (good && done) (insert f epoch r).1
  unfolding add_loop
  round_accepted e answer = rw (e, add_loop) (rw answer)

Result-cases {ℓ} :
    {A : Type ℓ} (x : Result A) → ((a : A) × (x ≡ ok a)) ⊎ ((e : Error) × (x ≡ err e))
Result-cases (ok a) = inl (a, refl)
Result-cases (err e) = inr (e, refl)

add_loop-Ends :
    (fuel : ℕ) (bytes : Bytes) (epoch : ℕ) (good : Bool) (r : Reassembler)
    → length bytes ≤ fuel
    → All IsByte bytes
    → IsBounded r
    → Ends (add_loop fuel bytes epoch good r)
add_loop-Ends fuel [] epoch good r h bytes inv = unfold add_loop in inv
add_loop-Ends zero (b ∷ bs) epoch good r h bytes inv = absurd (omega arith)
add_loop-Ends (suc fuel) (b ∷ bs) epoch good r h bytes inv =
    elim (Result-cases (parse_fragment (b ∷ bs))) [
      | inr (e, failed) ↦ rw (round_error fuel b bs epoch good r failed) inv
      | inl ((f, rest), read) ↦
          let (w, shorter, bytes') = parsed b bs bytes read in
          let inv' = insert-IsBounded f epoch r w inv in
          elim (Result-cases (insert f epoch r).0) [
            | inr (e, refused) ↦ rw (round_refused fuel b bs epoch good r read refused) inv'
            | inl (done, accepted) ↦ rw (round_accepted fuel b bs epoch good r read accepted) (
                add_loop-Ends fuel rest epoch (good && done) (insert f epoch r).1 (omega arith)
                  bytes' inv')
          ]
    ]

-- In a well-formed state `add` answers on every input of bytes, whatever it holds, and the invariant
-- is kept, also where it answers with an error.
pub add-Ends :
    (bytes : Bytes) (epoch : ℕ) (r : Reassembler)
    → All IsByte bytes
    → IsBounded r
    → Ends (add bytes epoch r)
unfolding add
add-Ends [] epoch r h inv = inv
add-Ends (b ∷ bs) epoch r h inv =
    add_loop-Ends (length (b ∷ bs)) (b ∷ bs) epoch true r (omega arith) h inv
