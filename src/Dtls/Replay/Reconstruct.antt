-- ===== src/Dtls/Replay/Reconstruct.antt =====
-- A truncated sequence number is reconstructed to the number that was sent, when that is within half
-- a window of the expected one.
use socat.Prelude.{inr, inl, ◌*◌, ◌%◌, ◌/◌, ◌^◌, ◌⊎◌, bit_or, ℕ, ◌+◌, ◌≤◌, ◌<◌, ◌≡◌, arith}
use socat.Prelude.Bits.{bit_or-disjoint}
use socat.Dtls.Replay.{reconstruct_sequence}

-- the sum that `|` makes, at the two sizes
candidate_byte : (e s : ℕ) → bit_or (e / 2 ^ 8 * 2 ^ 8) (s % 2 ^ 8) ≡ e / 2 ^ 8 * 2 ^ 8 + s % 2 ^ 8
candidate_byte e s = bit_or-disjoint 8 (e / 2 ^ 8) (s % 2 ^ 8) (omega arith)

candidate_word :
    (e s : ℕ) → bit_or (e / 2 ^ 16 * 2 ^ 16) (s % 2 ^ 16) ≡ e / 2 ^ 16 * 2 ^ 16 + s % 2 ^ 16
candidate_word e s = bit_or-disjoint 16 (e / 2 ^ 16) (s % 2 ^ 16) (omega arith)

-- The low byte of `s` determines `s`, if `s` is above `expected - 128` and at most `expected + 128`.
reconstruct_byte :
    (s expected : ℕ)
    → s < 2 ^ 64
    → expected < s + 2 ^ 7
    → s ≤ expected + 2 ^ 7
    → reconstruct_sequence (s % 2 ^ 8) 1 expected ≡ s
unfolding reconstruct_sequence
reconstruct_byte s expected h lo hi = ground (arith, candidate_byte expected s)

reconstruct_word :
    (s expected : ℕ)
    → s < 2 ^ 64
    → expected < s + 2 ^ 15
    → s ≤ expected + 2 ^ 15
    → reconstruct_sequence (s % 2 ^ 16) 2 expected ≡ s
unfolding reconstruct_sequence
reconstruct_word s expected h lo hi = ground (arith, candidate_word expected s)

-- For a truncation to `size` bytes: a record number within half a window of the expected one is
-- reconstructed exactly, at both ends of the range of uint64 too.
pub reconstruct_sequence-mod :
    (size s expected : ℕ)
    → (size ≡ 1) ⊎ (size ≡ 2)
    → s < 2 ^ 64
    → expected < s + 2 ^ (8 * size) / 2
    → s ≤ expected + 2 ^ (8 * size) / 2
    → reconstruct_sequence (s % 2 ^ (8 * size)) size expected ≡ s
reconstruct_sequence-mod size s expected (inl e) h lo hi =
    rw e (reconstruct_byte s expected h (rw e at lo) (rw e at hi))
reconstruct_sequence-mod size s expected (inr e) h lo hi =
    rw e (reconstruct_word s expected h (rw e at lo) (rw e at hi))
