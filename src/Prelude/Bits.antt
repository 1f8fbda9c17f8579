-- ===== src/Prelude/Bits.antt =====
-- The bits of a number. `bit n i` is bit `i` of `n`; the operations of a machine word are related to it.
use native.Mathlib.Decide.{dec_lt}
use Prim.Native.Nat.{ℕ, zero, suc, ◌+◌, ◌*◌, ◌/◌, ◌%◌, ◌^◌, ◌≤◌, ◌<◌, min, max, bit_and, bit_or}
use Prim.Native.Nat.{digits, bitwise, bit_and-bitwise, bit_or-bitwise}
use mathlib.Core.Path.{sym, ◌≡◌, refl, ap, ◌∙◌}
use mathlib.Core.Logic.{◌≢◌}
use native.Mathlib.Nat.{
  pow-suc, one-le-pow, div-add-mod, mod-lt, mod-eq_of_lt, add-mul-mod_self_right,
}
use native.Mathlib.Nat.{zero-add, suc-add, mul-one}
use native.Mathlib.Omega.{arith}

module _ (z : ℕ → ℕ) (f : ℕ → ℕ → ℕ) where
  -- a digit to go more than the first number needs
  spare_digit : (n x y : ℕ) → x ≤ n → digits z f (suc n) x y ≡ digits z f n x y
  spare_digit zero (suc x) y h = absurd (omega arith)
  spare_digit zero zero y h = refl
  spare_digit (suc n) zero y h = refl
  spare_digit (suc n) (suc x) y h =
      let half = spare_digit n (suc x / 2) (y / 2) (omega arith) in
      ap (λ (q : ℕ). q * 2 + f (suc x % 2) (y % 2)) half

  digits-bitwise : (n x y : ℕ) → x ≤ n → digits z f n x y ≡ bitwise z f x y
  digits-bitwise zero zero y h = refl
  digits-bitwise zero (suc x) y h = absurd (omega arith)
  digits-bitwise (suc n) x y h = elim (dec_lt n x) [
    | yes most ↦ let e : x ≡ suc n = omega arith in rw e refl
    | no less ↦ spare_digit n x y (omega arith) ∙ digits-bitwise n x y (omega arith)
  ]

  -- the lowest digit of the result, once the first number has one
  low_digit :
      (x y : ℕ)
      → bitwise z f (suc x) y ≡ bitwise z f (suc x / 2) (y / 2) * 2 + f (suc x % 2) (y % 2)
  low_digit x y =
      ap (λ (q : ℕ). q * 2 + f (suc x % 2) (y % 2))
        (digits-bitwise x (suc x / 2) (y / 2) (omega arith))

bit_or_step : (x y : ℕ) → bit_or x y ≡ bit_or (x / 2) (y / 2) * 2 + max (x % 2) (y % 2)
bit_or_step zero y = let e = bit_or-bitwise 0 in omega (arith, e y, e (y / 2))
bit_or_step (suc x) y =
    let e = bit_or-bitwise in
    e (suc x) y
    ∙ low_digit (λ b. b) max x y
    ∙ ap (λ (q : ℕ). q * 2 + max (suc x % 2) (y % 2)) (sym (e (suc x / 2) (y / 2)))

bit_and_step : (x y : ℕ) → bit_and x y ≡ bit_and (x / 2) (y / 2) * 2 + min (x % 2) (y % 2)
bit_and_step zero y = let e = bit_and-bitwise 0 in omega (arith, e y, e (y / 2))
bit_and_step (suc x) y =
    let e = bit_and-bitwise in
    e (suc x) y
    ∙ low_digit (λ b. zero) min x y
    ∙ ap (λ (q : ℕ). q * 2 + min (suc x % 2) (y % 2)) (sym (e (suc x / 2) (y / 2)))

-- by strong induction on the number
pub bit_and-zero : (x : ℕ) → bit_and x 0 ≡ 0
bit_and-zero x = go x x (omega arith)
  where
    go : (n k : ℕ) → k ≤ n → bit_and k 0 ≡ 0
    go n zero h = bit_and-bitwise 0 0
    go (suc n) (suc k) h = omega (arith, bit_and_step (suc k) 0, go n (suc k / 2) (omega arith))
    go zero (suc k) h = absurd (omega arith)

pub bit_or-zero : (x : ℕ) → bit_or x 0 ≡ x
bit_or-zero x = go x x (omega arith)
  where
    go : (n k : ℕ) → k ≤ n → bit_or k 0 ≡ k
    go n zero h = bit_or-bitwise 0 0
    go (suc n) (suc k) h = omega (arith, bit_or_step (suc k) 0, go n (suc k / 2) (omega arith))
    go zero (suc k) h = absurd (omega arith)

unfoldable pub bit : ℕ → ℕ → ℕ
bit n zero = n % 2
bit n (suc i) = bit (n / 2) i

pub bit-le-one : (i n : ℕ) → bit n i ≤ 1
unfolding bit
bit-le-one zero n = omega arith
bit-le-one (suc i) n = bit-le-one i (n / 2)

pub zero-bit : (i : ℕ) → bit 0 i ≡ 0
unfolding bit
zero-bit zero = refl
zero-bit (suc i) = zero-bit i

half_pow : (i : ℕ) → (2 ^ suc i / 2 ≡ 2 ^ i) × (2 ^ suc i % 2 ≡ 0)
half_pow i = omega (arith, pow-suc 2 i)

-- `x & (1 << i)` is the bit in its place.
pub bit_and-pow : (i n : ℕ) → bit_and n (2 ^ i) ≡ bit n i * 2 ^ i
unfolding bit
bit_and-pow zero n = omega (arith, bit_and_step n 1, bit_and-zero (n / 2))
bit_and-pow (suc i) n = omega (
  arith,
  bit_and_step n (2 ^ suc i),
  half_pow i,
  pow-suc 2 i,
  ap (bit_and (n / 2)) (half_pow i).0,
  bit_and-pow i (n / 2),
  ap (λ (t : ℕ). bit (n / 2) i * t) (pow-suc 2 i),
)

-- A bit of `a | b` is the greater of the two bits.
pub bit-bit_or : (i a b : ℕ) → bit (bit_or a b) i ≡ max (bit a i) (bit b i)
unfolding bit
bit-bit_or zero a b = omega (arith, bit_or_step a b)
bit-bit_or (suc i) a b =
    let e : bit_or a b / 2 ≡ bit_or (a / 2) (b / 2) = omega (arith, bit_or_step a b) in
    rw e (bit-bit_or i (a / 2) (b / 2))

pub bit-pow_self : (i : ℕ) → bit (2 ^ i) i ≡ 1
unfolding bit
bit-pow_self zero = refl
bit-pow_self (suc i) = rw (half_pow i).0 (bit-pow_self i)

pub bit-pow_ne : (i j : ℕ) → i ≢ j → bit (2 ^ i) j ≡ 0
unfolding bit
bit-pow_ne zero zero h = absurd (h refl)
bit-pow_ne zero (suc j) h = zero-bit j
bit-pow_ne (suc i) zero h = (half_pow i).1
bit-pow_ne (suc i) (suc j) h = rw (half_pow i).0 (bit-pow_ne i j (λ e. h (ap suc e)))

mod_double : (n m : ℕ) → 0 < m → n % (m * 2) ≡ n / 2 % m * 2 + n % 2
mod_double n m h =
    let low = n / 2 % m * 2 + n % 2 in
    let split : n ≡ low + n / 2 / m * (m * 2) = omega (arith, div-add-mod (n / 2) m) in
    ap (λ (t : ℕ). t % (m * 2)) split
    ∙ add-mul-mod_self_right low (n / 2 / m) (m * 2)
    ∙ mod-eq_of_lt (omega (arith, mod-lt (n / 2) h))

mod_pow_suc : (n w : ℕ) → n % 2 ^ suc w ≡ n / 2 % 2 ^ w * 2 + n % 2
mod_pow_suc n w = rw pow-suc (mod_double n (2 ^ w) (one-le-pow w 2 (omega arith)))

-- Cutting a number at `w` bits keeps the bits below `w`.
pub bit-mod_pow : (w i n : ℕ) → i < w → bit (n % 2 ^ w) i ≡ bit n i
unfolding bit
bit-mod_pow zero i n h = absurd (omega arith)
bit-mod_pow (suc w) zero n h = omega (arith, mod_pow_suc n w)
bit-mod_pow (suc w) (suc i) n h =
    let e : n % 2 ^ suc w / 2 ≡ n / 2 % 2 ^ w = omega (arith, mod_pow_suc n w) in
    rw e (bit-mod_pow w i (n / 2) (omega arith))

mul_pow_suc : (n k : ℕ) → (n * 2 ^ suc k / 2 ≡ n * 2 ^ k) × (n * 2 ^ suc k % 2 ≡ 0)
mul_pow_suc n k = omega (arith, ap (λ (t : ℕ). n * t) (pow-suc 2 k))

-- A shift left by `k` moves bit `i` to place `k + i`.
pub bit-shift : (k i n : ℕ) → bit (n * 2 ^ k) (k + i) ≡ bit n i
unfolding bit
bit-shift zero i n = rw (zero-add, mul-one)
bit-shift (suc k) i n =
    ap (bit (n * 2 ^ suc k)) (suc-add k i)
    ∙ ap (λ (t : ℕ). bit t (k + i)) (mul_pow_suc n k).0
    ∙ bit-shift k i n

-- The places below `k` are filled with zeros.
pub bit-shift_low : (k i n : ℕ) → i < k → bit (n * 2 ^ k) i ≡ 0
unfolding bit
bit-shift_low zero i n h = absurd (omega arith)
bit-shift_low (suc k) zero n h = (mul_pow_suc n k).1
bit-shift_low (suc k) (suc i) n h = rw (mul_pow_suc n k).0 (bit-shift_low k i n (omega arith))

-- `|` of a multiple of `2 ^ k` and a number below `2 ^ k` is their sum.
pub bit_or-disjoint : (k q r : ℕ) → r < 2 ^ k → bit_or (q * 2 ^ k) r ≡ q * 2 ^ k + r
bit_or-disjoint zero q r h = let z : r ≡ 0 = omega arith in rw z (rw bit_or-zero (omega arith))
bit_or-disjoint (suc k) q r h =
    let small : r / 2 < 2 ^ k = omega (arith, pow-suc 2 k) in
    let (half, even) = mul_pow_suc q k in
    omega (
      arith,
      bit_or_step (q * 2 ^ suc k) r,
      half,
      even,
      ap (λ (t : ℕ). bit_or t (r / 2)) half,
      bit_or-disjoint k q (r / 2) small,
    )
