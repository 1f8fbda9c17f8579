-- ===== src/Dtls/Replay/Cases.antt =====
-- The outcomes of `accept`, one constructor each.
use socat.Dtls.Replay.Marks.{shift_left-one}
use socat.Prelude.Bitset.{bit_test}
use native.Mathlib.Decide.{ℕ_discrete, dec_lt}
use socat.Prelude.{
  bit_and, not, ◌==◌, bit_or, ◌^◌, ℕ, ◌+◌, ◌-◌, ◌≤◌, ◌<◌, ◌≡◌, ◌≢◌, arith, true, false,
}
use socat.Prelude.Bits.{bit_and-pow, bit-le-one, bit}
use socat.Dtls.Replay.{ReplayWindow, accept, shift_left}

-- `bits & (1 << distance) != 0` tests the bit.
mark_test : (bits d : ℕ) → d < 64 → not (bit_and bits (shift_left 1 d) == 0) ≡ not (bit bits d == 0)
mark_test bits d h = rw (shift_left-one d h) (rw bit_and-pow (bit_test (bit bits d) d))

-- The outcomes of `accept`.
pub data AcceptCases (w : ReplayWindow) (s : ℕ) : Type 0 where
  first : w.bits ≡ 0 → accept s w ≡ (true, record { highest = s; bits = 1 }) → AcceptCases w s
  newer :
      w.bits ≢ 0
      → w.highest < s
      → accept s w
        ≡ (true, record { highest = s; bits = bit_or (shift_left w.bits (s - w.highest)) 1 })
      → AcceptCases w s
  within :
      w.bits ≢ 0
      → s ≤ w.highest
      → w.highest - s < 64
      → bit w.bits (w.highest - s) ≡ 0
      → accept s w ≡ (true, record w { bits = bit_or w.bits (2 ^ (w.highest - s)) })
      → AcceptCases w s
  repeated :
      w.bits ≢ 0
      → s ≤ w.highest
      → w.highest - s < 64
      → bit w.bits (w.highest - s) ≡ 1
      → accept s w ≡ (false, w)
      → AcceptCases w s
  stale : w.bits ≢ 0 → s + 63 < w.highest → accept s w ≡ (false, w) → AcceptCases w s

module _ (w : ReplayWindow) (s : ℕ) where
  accept_first : w.bits ≡ 0 → accept s w ≡ (true, record { highest = s; bits = 1 })
  unfolding accept
  accept_first e = ground arith

  module _ (used : w.bits ≢ 0) where
    accept_newer :
        w.highest < s
        → accept s w
          ≡ (true, record { highest = s; bits = bit_or (shift_left w.bits (s - w.highest)) 1 })
    unfolding accept
    accept_newer above = ground arith

    accept_stale : s + 63 < w.highest → accept s w ≡ (false, w)
    unfolding accept
    accept_stale far = ground arith

    accept_repeated :
        s ≤ w.highest
        → w.highest - s < 64
        → bit w.bits (w.highest - s) ≡ 1
        → accept s w ≡ (false, w)
    unfolding accept
    accept_repeated below near seen = ground (arith, mark_test w.bits (w.highest - s) near)

    accept_within :
        s ≤ w.highest
        → w.highest - s < 64
        → bit w.bits (w.highest - s) ≡ 0
        → accept s w ≡ (true, record w { bits = bit_or w.bits (2 ^ (w.highest - s)) })
    unfolding accept
    accept_within below near new =
        ground (arith, mark_test w.bits (w.highest - s) near, shift_left-one (w.highest - s) near)

    used_cases : AcceptCases w s
    used_cases = elim (dec_lt w.highest s) [
      | yes above ↦ newer used above (accept_newer above)
      | no below ↦ elim (dec_lt (w.highest - s) 64) [
        | no far ↦ stale used (omega arith) (accept_stale (omega arith))
        | yes near ↦ elim (ℕ_discrete (bit w.bits (w.highest - s)) 0) [
          | yes new ↦ within used (omega arith) near new (accept_within (omega arith) near new)
          | no old ↦
              let seen : bit w.bits (w.highest - s) ≡ 1 =
                omega (arith, old, bit-le-one (w.highest - s) w.bits) in
              repeated used (omega arith) near seen (accept_repeated (omega arith) near seen)
        ]
      ]
    ]

  pub accept_cases : AcceptCases w s
  accept_cases = elim (ℕ_discrete w.bits 0) [
    | yes e ↦ first e (accept_first e)
    | no used ↦ used_cases used
  ]
