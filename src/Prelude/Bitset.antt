-- ===== src/Prelude/Bitset.antt =====
-- A bit set in a byte slice: position `i` is bit `i % 8` of byte `i / 8`. It is how
-- internal/dtls13/fragment.go and flight.go mark the bytes of a message.
use Prim.Native.Nat.{ℕ, zero, suc, ◌*◌, ◌/◌, ◌%◌, ◌^◌, ◌<◌, bit_and, bit_or}
use mathlib.Core.Path.{◌≡◌, ap, sym, ◌∙◌}
use mathlib.Core.Logic.{◌≢◌}
use mathlib.Core.Bool.{Bool, true, false, not}
use native.Mathlib.Nat.{one-le-pow, zero-mul}
use native.Mathlib.Decide.{ℕ_discrete}
use native.Mathlib.Omega.{arith}
use socat.Prelude.Tests.{◌==◌}
use socat.Prelude.Lists.{
  Bytes, length, get_or, set, replicate, length-set, get_or-set_self, get_or-set_ne,
  get_or-replicate,
}
use socat.Prelude.Bits.{bit, bit_and-pow, bit-bit_or, bit-pow_self, bit-pow_ne, zero-bit}

-- `seen[i/8] & (byte(1) << (i%8)) != 0`
pub has_bit : Bytes → ℕ → Bool
has_bit seen i = not (bit_and (get_or seen (i / 8) 0) (2 ^ (i % 8)) == 0)

-- `seen[i/8] |= byte(1) << (i%8)`
pub set_bit : Bytes → ℕ → Bytes
set_bit seen i = set seen (i / 8) (bit_or (get_or seen (i / 8) 0) (2 ^ (i % 8)))

pos_test : (n : ℕ) → 0 < n → not (n == 0) ≡ true
pos_test n h = ground arith

pub bit_test : (b k : ℕ) → not (b * 2 ^ k == 0) ≡ not (b == 0)
bit_test zero k = rw zero-mul
bit_test (suc b) k =
    let p : 0 < suc b * 2 ^ k = grind (arith, one-le-pow k 2) in
    pos_test (suc b * 2 ^ k) p ∙ sym (pos_test (suc b) (omega arith))

has_bit-bit :
    (seen : Bytes) (i : ℕ) → has_bit seen i ≡ not (bit (get_or seen (i / 8) 0) (i % 8) == 0)
unfolding has_bit
has_bit-bit seen i = rw bit_and-pow (bit_test (bit (get_or seen (i / 8) 0) (i % 8)) (i % 8))

pub length-set_bit : (seen : Bytes) (i : ℕ) → length (set_bit seen i) ≡ length seen
unfolding set_bit
length-set_bit seen i = length-set seen (i / 8) _

pub has_bit-set_bit_self :
    (seen : Bytes) (i : ℕ) → i / 8 < length seen → has_bit (set_bit seen i) i ≡ true
unfolding set_bit
has_bit-set_bit_self seen i h =
    rw (has_bit-bit, get_or-set_self seen (i / 8) _ 0 h, bit-bit_or, bit-pow_self)
      (pos_test _ (omega arith))

-- the byte that holds position `j` keeps its bit when another position of that byte is marked
same_byte :
    (b i j : ℕ) → i / 8 ≡ j / 8 → i ≢ j → bit (bit_or b (2 ^ (i % 8))) (j % 8) ≡ bit b (j % 8)
same_byte b i j e h =
    let ne : i % 8 ≢ j % 8 = λ p. h (omega arith) in
    omega (arith, bit-bit_or (j % 8) b (2 ^ (i % 8)), bit-pow_ne (i % 8) (j % 8) ne)

pub has_bit-set_bit_ne :
    (seen : Bytes) (i j : ℕ)
    → i / 8 < length seen
    → i ≢ j
    → has_bit (set_bit seen i) j ≡ has_bit seen j
unfolding set_bit
has_bit-set_bit_ne seen i j w h = elim (ℕ_discrete (i / 8) (j / 8)) [
  | yes e ↦
      rw (has_bit-bit _ j, has_bit-bit seen j, ← e, get_or-set_self seen (i / 8) _ 0 w)
        (ap (λ t. not (t == 0)) (same_byte _ i j e h))
  | no e ↦ rw (has_bit-bit _ j, has_bit-bit seen j, get_or-set_ne seen (i / 8) (j / 8) _ 0 e)
]

pub has_bit-replicate : (n i : ℕ) → has_bit (replicate n 0) i ≡ false
has_bit-replicate n i = rw (has_bit-bit, get_or-replicate, zero-bit)
