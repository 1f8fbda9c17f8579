-- ===== src/Dtls/Replay.antt =====
-- internal/dtls13/record.go: the replay window and the reconstruction of truncated record sequence
-- numbers. Sequence numbers and bit masks are uint64.
pub mod Marks
pub mod Cases
pub mod Window
pub mod Reconstruct
use socat.Prelude.{
  ℕ, ◌+◌, ◌-◌, ◌*◌, ◌/◌, ◌%◌, ◌^◌, Bool, true, false, not, ◌&&◌, ◌||◌, bit_and, bit_or, ltb, leb,
  ◌==◌, if◌then◌else◌,
}

abbrev pub max_uint64 : ℕ
max_uint64 = 2 ^ 64 - 1

-- `x << d` on uint64: a shift by 64 or more leaves zero.
unfoldable pub shift_left : ℕ → ℕ → ℕ
shift_left x d = if ltb d 64 then x * 2 ^ d % 2 ^ 64 else 0

pub record ReplayWindow : Type 0 where
  pub highest : ℕ
  pub bits : ℕ

unfoldable pub next : ReplayWindow → ℕ
next w = if w.bits == 0 then 0 else if w.highest == max_uint64 then max_uint64 else w.highest + 1

unfoldable pub accept : ℕ → ReplayWindow → Bool × ReplayWindow
accept sequence w =
    if w.bits == 0
    then (true, record { highest = sequence; bits = 1 })
    else if ltb w.highest sequence
    then (
      true,
      record { highest = sequence; bits = bit_or (shift_left w.bits (sequence - w.highest)) 1 },
    )
    else let distance = w.highest - sequence in
      if not (ltb distance 64) || not (bit_and w.bits (shift_left 1 distance) == 0)
      then (false, w)
      else (true, record w { bits = bit_or w.bits (shift_left 1 distance) })

-- `size` is the number of bytes of the truncated number, 1 or 2. `expected & ^(window-1)` clears the
-- low bits, and the truncated number stands in their place.
unfoldable pub reconstruct_sequence : ℕ → ℕ → ℕ → ℕ
reconstruct_sequence truncated size expected =
    let window = 2 ^ (8 * size) in
    let half = window / 2 in
    let candidate = bit_or (expected / window * window) truncated in
    if leb candidate expected
      && (leb half (expected - candidate) && leb candidate (max_uint64 - window))
    then candidate + window
    else if ltb expected candidate && (ltb half (candidate - expected) && leb window candidate)
    then candidate - window
    else candidate
