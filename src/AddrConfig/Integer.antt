-- ===== src/AddrConfig/Integer.antt =====
-- internal/addrconfig/integer.go. Integers are read in the manner of strtoul with base 0;
-- strconv.ParseUint is the parameter `parse_uint` of a text, a base and a number of bits.
pub mod Grammar
use socat.Prelude.Text.{has_prefix, contains_byte}
use socat.Prelude.{
  ◌^◌, if◌then◌else◌, ◌||◌, ◌&&◌, ◌==◌, not, ltb, Bool, true, false, Bytes, [], ◌∷◌, ℕ, Option,
  none, some, ◌%◌,
}

-- The three answers of parseDigitStrtoul: (0, false, nil), (0, true, err) and (n, true, nil).
pub data DigitResult : Type 0 where
  not_numeric : DigitResult
  invalid : DigitResult
  numeric : ℕ → DigitResult

-- not (value == "" || value[0] < '0' || value[0] > '9')
abbrev pub starts_digit : Bytes → Bool
starts_digit [] = false
starts_digit (c ∷ s) = not (ltb c b'0' || ltb b'9' c)

abbrev pub is_sign : ℕ → Bool
is_sign c = c == b'+' || c == b'-'

abbrev pub strip_sign : Bytes → Bytes
strip_sign [] = []
strip_sign (c ∷ s) = if is_sign c then s else c ∷ s

unfoldable pub has_go_base_prefix : Bytes → Bool
has_go_base_prefix value =
    let rest = strip_sign value in
    has_prefix rest (b'0' ∷ b'b' ∷ [])
    || (has_prefix rest (b'0' ∷ b'B' ∷ [])
        || (has_prefix rest (b'0' ∷ b'o' ∷ []) || has_prefix rest (b'0' ∷ b'O' ∷ [])))

-- blank, tab, newline, vertical tab, form feed and carriage return
abbrev pub is_strtoul_space : ℕ → Bool
is_strtoul_space c = c == 32 || (c == 9 || (c == 10 || (c == 11 || (c == 12 || c == 13))))

unfoldable pub trim_strtoul_space : Bytes → Bytes
trim_strtoul_space [] = []
trim_strtoul_space (c ∷ s) =
    let rest = trim_strtoul_space s in if is_strtoul_space c then rest else c ∷ s

module _ (parse_uint : Bytes → ℕ → ℕ → Option ℕ) where
  unfoldable pub parse_digit_strtoul : Bytes → ℕ → DigitResult
  unfolding has_go_base_prefix
  parse_digit_strtoul value bit_size =
      if not (starts_digit value)
      then not_numeric
      else if contains_byte b'_' value || has_go_base_prefix value
      then invalid
      else elim (parse_uint value 0 bit_size) [ none ↦ invalid | some n ↦ numeric n ]

  -- The answer to a number behind a sign that is or is not a minus; `uint16(n)` wraps.
  abbrev pub port_answer : Bool → DigitResult → Option ℕ
  port_answer negative not_numeric = none
  port_answer negative invalid = none
  port_answer negative (numeric n) = if negative && not (n == 0) then none else some (n % 2 ^ 16)

  -- from the text without leading white space on
  unfoldable pub parse_signed_port : Bytes → Option ℕ
  unfolding parse_digit_strtoul
  parse_signed_port [] = port_answer false (parse_digit_strtoul [] 16)
  parse_signed_port (c ∷ s) =
      if is_sign c
      then port_answer (c == b'-') (parse_digit_strtoul s 16)
      else port_answer false (parse_digit_strtoul (c ∷ s) 16)

  unfoldable pub parse_numeric_port : Bytes → Option ℕ
  unfolding trim_strtoul_space parse_signed_port
  parse_numeric_port text = parse_signed_port (trim_strtoul_space text)
