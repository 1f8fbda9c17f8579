-- ===== src/Dtls/Replay/Marks.antt =====
-- The marks of the replay window after a number is recorded.
use mathlib.Core.Path.{ap₂}
use native.Mathlib.Nat.{pow-le-pow_right}
use native.Mathlib.Decide.{ℕ_discrete, dec_lt}
use socat.Prelude.{
  inr, max, inl, ◌∙◌, sym, ap, ◌*◌, lt→ltb, le→ltb, ◌==◌, ltb, if◌then◌else◌, bit_or, ◌⊎◌, [], ◌∷◌,
  ◌^◌, List, ℕ, zero, suc, ◌+◌, ◌-◌, ◌≤◌, ◌<◌, ◌≡◌, ◌≢◌, refl, arith,
}
use socat.Prelude.Bits.{
  bit-le-one, bit-pow_self, bit-bit_or, bit-shift, bit-shift_low, bit-mod_pow, bit-pow_ne, zero-bit,
  bit,
}
use socat.Dtls.Replay.{ReplayWindow, shift_left}

abbrev pub Member : ℕ → List ℕ → Type 0
Member t [] = ⊥
Member t (x ∷ xs) = (t ≡ x) ⊎ Member t xs

pub bit-shift_left :
    (x d i : ℕ) → i < 64 → bit (shift_left x d) i ≡ (if ltb i d then 0 else bit x (i - d))
unfolding shift_left
bit-shift_left x d i h = elim (dec_lt d 64) [
  | no far ↦ rw (le→ltb d 64 (omega arith), lt→ltb i d (omega arith)) (zero-bit i)
  | yes near ↦
      rw (lt→ltb d 64 near, bit-mod_pow 64 i (x * 2 ^ d) h)
        (elim (dec_lt i d) [
          | yes low ↦ rw (lt→ltb i d low) (bit-shift_low d i x low)
          | no high ↦
              let e : d + (i - d) ≡ i = omega arith in
              rw (le→ltb i d (omega arith)) (ap (bit (x * 2 ^ d)) (sym e) ∙ bit-shift d (i - d) x)
        ])
]

bit-one : (i : ℕ) → bit 1 i ≡ (if i == 0 then 1 else 0)
bit-one zero = unfold bit in refl
bit-one (suc i) = unfold bit in rw (zero-bit i) (ground arith)

pub shift_left-one : (d : ℕ) → d < 64 → shift_left 1 d ≡ 2 ^ d
unfolding shift_left
shift_left-one d h =
    let small : 2 ^ d ≤ 2 ^ 63 = pow-le-pow_right (omega arith) {j = 63} (omega arith) in
    rw (lt→ltb d 64 h) (omega (arith, small))

ne_zero_of_bit : (x i : ℕ) → bit x i ≡ 1 → x ≢ 0
ne_zero_of_bit x i h e = omega (arith, h, zero-bit i, ap (λ (t : ℕ). bit t i) e)

-- The marks of the window are the accepted numbers.
pub record Tracks (w : ReplayWindow) (accepted : List ℕ) : Type 0 where
  pub fresh : w.bits ≡ 0 → accepted ≡ []
  pub used : (t : ℕ) → Member t accepted → w.bits ≢ 0
  pub highest : (t : ℕ) → Member t accepted → t ≤ w.highest
  pub marked : (t : ℕ) → Member t accepted → w.highest - t < 64 → bit w.bits (w.highest - t) ≡ 1
  pub real : (d : ℕ) → d < 64 → bit w.bits d ≡ 1 → (d ≤ w.highest) × Member (w.highest - d) accepted

pub Tracks-start : Tracks (record { highest = 0; bits = 0 }) []
Tracks-start = record {
  fresh = λ e. refl;
  used = λ t m. absurd m;
  highest = λ t m. absurd m;
  marked = λ t m lt. absurd m;
  real = λ d lt e. absurd (omega (arith, e, zero-bit d));
}

Member-only : (t s : ℕ) → Member t (s ∷ []) → t ≡ s
Member-only t s (inl q) = q
Member-only t s (inr n) = absurd n

-- the very first number
pub first-Tracks : (s : ℕ) → Tracks (record { highest = s; bits = 1 }) (s ∷ [])
first-Tracks s = record {
  fresh = λ p. absurd (omega (arith, p));
  used = λ t m p. absurd (omega (arith, p));
  highest = λ t m. omega (arith, Member-only t s m);
  marked = λ t m lt. let z : s - t ≡ 0 = omega (arith, Member-only t s m) in rw z (bit-one 0);
  real =
      λ d lt p. let z : d ≡ 0 = ground (arith, bit-one d) in rw z (omega arith, inl (omega arith));
}

module _ (w : ReplayWindow) (accepted : List ℕ) (tr : Tracks w accepted) (s : ℕ) where
  module _ (above : w.highest < s) where
    unfoldable pub newer_bits : ℕ
    newer_bits = bit_or (shift_left w.bits (s - w.highest)) 1

    bit-newer_bits :
        (i : ℕ)
        → i < 64
        → bit newer_bits i
          ≡ max
              (if ltb i (s - w.highest) then 0 else bit w.bits (i - (s - w.highest)))
              (if i == 0 then 1 else 0)
    unfolding newer_bits
    bit-newer_bits i h =
        bit-bit_or i (shift_left w.bits (s - w.highest)) 1
        ∙ ap₂ max (bit-shift_left w.bits (s - w.highest) i h) (bit-one i)

    newest_bit : bit newer_bits 0 ≡ 1
    newest_bit = ground (arith, bit-newer_bits 0 (omega arith))

    newer_marked : (t : ℕ) → Member t (s ∷ accepted) → s - t < 64 → bit newer_bits (s - t) ≡ 1
    newer_marked t (inl q) lt = let z : s - t ≡ 0 = omega (arith, q) in rw z newest_bit
    newer_marked t (inr m) lt =
        let e : s - t - (s - w.highest) ≡ w.highest - t = omega (arith, tr.highest t m) in
        ground (arith, bit-newer_bits (s - t) lt, tr.marked t m, tr.highest t m, ap (bit w.bits) e)

    newer_real : (d : ℕ) → d < 64 → bit newer_bits d ≡ 1 → (d ≤ s) × Member (s - d) (s ∷ accepted)
    newer_real zero lt e = (omega arith, inl (omega arith))
    newer_real (suc d) lt e =
        let old : (s - w.highest ≤ suc d) × (bit w.bits (suc d - (s - w.highest)) ≡ 1) =
          ground (arith, bit-newer_bits (suc d) lt) in
        let (le, m) = tr.real (suc d - (s - w.highest)) (omega arith) old.1 in
        let same : w.highest - (suc d - (s - w.highest)) ≡ s - suc d = omega (arith, le, old.0) in
        (omega (arith, le), inr (rw same at m))

    pub newer-Tracks : Tracks (record { highest = s; bits = newer_bits }) (s ∷ accepted)
    newer-Tracks = record {
      fresh = λ p. absurd (ne_zero_of_bit newer_bits 0 newest_bit p);
      used = λ t m. ne_zero_of_bit newer_bits 0 newest_bit;
      highest =
          λ t m. elim m [ inl q ↦ omega (arith, q) | inr old ↦ omega (arith, tr.highest t old) ];
      marked = newer_marked;
      real = newer_real;
    }

  module _ (below : s ≤ w.highest) (near : w.highest - s < 64) where
    unfoldable pub within_bits : ℕ
    within_bits = bit_or w.bits (2 ^ (w.highest - s))

    bit-within_bits_self : bit within_bits (w.highest - s) ≡ 1
    unfolding within_bits
    bit-within_bits_self = omega (
      arith,
      bit-bit_or (w.highest - s) w.bits (2 ^ (w.highest - s)),
      bit-pow_self (w.highest - s),
      bit-le-one (w.highest - s) w.bits,
    )

    bit-within_bits_ne : (i : ℕ) → w.highest - s ≢ i → bit within_bits i ≡ bit w.bits i
    unfolding within_bits
    bit-within_bits_ne i ne =
        omega (arith, bit-bit_or i w.bits (2 ^ (w.highest - s)), bit-pow_ne (w.highest - s) i ne)

    within_marked :
        (t : ℕ) → Member t (s ∷ accepted) → w.highest - t < 64 → bit within_bits (w.highest - t) ≡ 1
    within_marked t (inl q) lt = rw q bit-within_bits_self
    within_marked t (inr m) lt = elim (ℕ_discrete (w.highest - s) (w.highest - t)) [
      | yes e ↦ rw (← e) bit-within_bits_self
      | no ne ↦ bit-within_bits_ne (w.highest - t) ne ∙ tr.marked t m lt
    ]

    within_real :
        (d : ℕ)
        → d < 64
        → bit within_bits d ≡ 1
        → (d ≤ w.highest) × Member (w.highest - d) (s ∷ accepted)
    within_real d lt e = elim (ℕ_discrete (w.highest - s) d) [
      | yes q ↦ (omega (arith, q), inl (omega (arith, q)))
      | no ne ↦ let (le, m) = tr.real d lt (sym (bit-within_bits_ne d ne) ∙ e) in (le, inr m)
    ]

    pub within-Tracks : Tracks (record w { bits = within_bits }) (s ∷ accepted)
    within-Tracks = record {
      fresh = λ p. absurd (ne_zero_of_bit within_bits (w.highest - s) bit-within_bits_self p);
      used = λ t m. ne_zero_of_bit within_bits (w.highest - s) bit-within_bits_self;
      highest = λ t m. elim m [ inl q ↦ omega (arith, q) | inr old ↦ tr.highest t old ];
      marked = within_marked;
      real = within_real;
    }
