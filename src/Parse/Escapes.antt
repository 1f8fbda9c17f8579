-- ===== src/Parse/Escapes.antt =====
-- The backslash escapes of a value: expandSlashEscapes of internal/parse/parse.go.
pub mod Grammar
use socat.Parse.Error.{trailing_backslash, malformed_hex, ok, err, ◌>>=◌, Result}
use socat.Prelude.{
  [], ◌+◌, none, ◌*◌, ◌-◌, ◌∷◌, some, ◌&&◌, ◌==◌, leb, Bytes, if◌then◌else◌, Option, ℕ,
}

-- The value of a hexadecimal digit, as encoding/hex reads it.
unfoldable pub hex_value : ℕ → Option ℕ
hex_value c =
    if leb b'0' c && leb c b'9'
    then some (c - b'0')
    else if leb b'a' c && leb c b'f'
    then some (c - b'a' + 10)
    else if leb b'A' c && leb c b'F'
    then some (c - b'A' + 10)
    else none

abbrev pub two_digits : Option ℕ → Option ℕ → Option ℕ
two_digits (some a) (some b) = some (a * 16 + b)
two_digits (some a) none = none
two_digits none b = none

-- hex.DecodeString of two bytes
unfoldable pub hex_pair : ℕ → ℕ → Option ℕ
unfolding hex_value
hex_pair h l = two_digits (hex_value h) (hex_value l)

-- What a backslash before `c` stands for, if `c` is not an x.
unfoldable pub named_escape : ℕ → ℕ
named_escape c =
    if c == b'0'
    then 0
    else if c == b'a'
    then 7
    else if c == b'b'
    then 8
    else if c == b'f'
    then 12
    else if c == b'n'
    then 10
    else if c == b'r'
    then 13
    else if c == b't'
    then 9
    else if c == b'v'
    then 11
    else c

-- A byte written before what the loop makes of the rest.
abbrev pub write_byte : ℕ → Result Bytes → Result Bytes
write_byte b r = r >>= λ s. ok (b ∷ s)

abbrev pub write_hex : Option ℕ → Result Bytes → Result Bytes
write_hex none r = err malformed_hex
write_hex (some b) r = write_byte b r

unfoldable mutual
  unfolding hex_pair named_escape

  pub expand_slash_escapes : Bytes → Result Bytes
  expand_slash_escapes [] = ok []
  expand_slash_escapes (c ∷ rest) =
      let plain = expand_slash_escapes rest in
      let escaped = expand_escape rest in if c == b'\\' then escaped else write_byte c plain

  -- from the byte after a backslash on
  pub expand_escape : Bytes → Result Bytes
  expand_escape [] = err trailing_backslash
  expand_escape (c ∷ rest) =
      let plain = expand_slash_escapes rest in
      let hex = expand_hex rest in if c == b'x' then hex else write_byte (named_escape c) plain

  -- from the byte after a backslash and an x on
  pub expand_hex : Bytes → Result Bytes
  expand_hex [] = err malformed_hex
  expand_hex (h ∷ []) = err malformed_hex
  expand_hex (h ∷ l ∷ rest) = write_hex (hex_pair h l) (expand_slash_escapes rest)
