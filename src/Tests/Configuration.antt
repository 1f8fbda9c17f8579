-- ===== src/Tests/Configuration.antt =====
-- The theorem on port numbers at concrete inputs.
use socat.AddrConfig.Integer.Grammar.{parse_numeric_port-IsPort, IsPort}
use socat.Prelude.Text.{codes}
use socat.Prelude.{
  [], arith, inl, ◌||◌, inr, ◌-◌, refl, Bool-cases, none, ◌+◌, ◌^◌, ltb, ◌*◌, ◌↔◌, ◌<◌,
  if◌then◌else◌, ◌∷◌, ◌≡◌, some, Option, Bytes, ℕ,
}
use socat.AddrConfig.Integer.{
  has_go_base_prefix, parse_digit_strtoul, parse_signed_port, trim_strtoul_space,
  parse_numeric_port,
}

-- A ParseUint that knows decimal numbers only.
abbrev decimal : ℕ → Bytes → Option ℕ
decimal n [] = some n
decimal n (c ∷ s) =
    let rest = decimal (10 * n + (c - b'0')) s in if ltb c b'0' || ltb b'9' c then none else rest

abbrev within : ℕ → Option ℕ → Option ℕ
within bits none = none
within bits (some n) = if ltb n (2 ^ bits) then some n else none

abbrev decimal_uint : Bytes → ℕ → ℕ → Option ℕ
decimal_uint value base bits = within bits (decimal 0 value)

within_bound : (r : Option ℕ) (n : ℕ) → within 16 r ≡ some n → n < 2 ^ 16
within_bound none n h = cc
within_bound (some m) n h = elim (Bool-cases (ltb m (2 ^ 16))) [
  | inr e ↦ absurd (cc (rw e at h))
  | inl e ↦ let q : some m ≡ some n = rw e at h in let same : m ≡ n = cc in ground arith
]

parse_numeric_port-IsPort_example :
    (parse_numeric_port decimal_uint (codes " +8080") ≡ some 8080)
    ↔ IsPort decimal_uint (codes " +8080") 8080
parse_numeric_port-IsPort_example =
    parse_numeric_port-IsPort decimal_uint (λ value n h. within_bound (decimal 0 value) n h)
      (codes " +8080") 8080

port_taken : parse_numeric_port decimal_uint (codes " +8080") ≡ some 8080
unfolding parse_numeric_port trim_strtoul_space parse_signed_port parse_digit_strtoul
    has_go_base_prefix
port_taken = refl

port_negative : parse_numeric_port decimal_uint (codes "-80") ≡ none
unfolding parse_numeric_port trim_strtoul_space parse_signed_port parse_digit_strtoul
    has_go_base_prefix
port_negative = refl

port_wide : parse_numeric_port decimal_uint (codes "65536") ≡ none
unfolding parse_numeric_port trim_strtoul_space parse_signed_port parse_digit_strtoul
    has_go_base_prefix
port_wide = refl
