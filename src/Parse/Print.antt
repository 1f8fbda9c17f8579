-- ===== src/Parse/Print.antt =====
-- A way to write any address: the specification that the parser of internal/parse is held against.
-- Every byte of a value is written as an escape of two hexadecimal digits between double quotes.
pub mod Quoted
pub mod Plain
pub mod Loops
pub mod Values
pub mod Split
pub mod Typed
pub mod RoundTrip
pub mod Channel
use socat.Parse.Path.{is_letter}
use socat.Prelude.{
  ◌==◌, ◌&&◌, true, leb, ◌%◌, ◌-◌, IsByte, ◌≡◌, ◌||◌, [], ◌/◌, ◌+◌, All, Bool, ◌++◌, ◌∷◌, ltb, List,
  Bytes, if◌then◌else◌, ℕ,
}

unfoldable pub hex_digit : ℕ → ℕ
hex_digit n = if ltb n 10 then b'0' + n else b'a' + (n - 10)

unfoldable pub escape_all : Bytes → Bytes
unfolding hex_digit
escape_all [] = []
escape_all (b ∷ t) = b'\\' ∷ b'x' ∷ hex_digit (b / 16) ∷ hex_digit (b % 16) ∷ escape_all t

-- The escapes and the closing quote.
unfoldable pub closing : Bytes → Bytes
unfolding escape_all
closing t = escape_all t ++ b'"' ∷ []

unfoldable pub quoted : Bytes → Bytes
unfolding closing
quoted t = b'"' ∷ closing t

-- Letters, digits and dashes.
unfoldable pub is_word_byte : ℕ → Bool
unfolding is_letter
is_word_byte c = is_letter c || ((leb b'0' c && leb c b'9') || c == b'-')

abbrev pub IsWord : Bytes → Type 0
IsWord s = All (λ c. is_word_byte c ≡ true) s

abbrev pub AreBytes : Bytes → Type 0
AreBytes s = All IsByte s

-- An option as name and value.
abbrev pub Setting : Type 0
Setting = Bytes × Bytes

unfoldable pub print_setting : Setting → Bytes
unfolding quoted
print_setting (name, value) = name ++ b'=' ∷ quoted value

-- the parameters behind the type, each behind its colon
unfoldable pub print_params : List Bytes → Bytes
unfolding quoted
print_params [] = []
print_params (q ∷ qs) = b':' ∷ (quoted q ++ print_params qs)

-- the options, each behind its comma
unfoldable pub print_settings : List Setting → Bytes
unfolding print_setting
print_settings [] = []
print_settings (o ∷ os) = b',' ∷ (print_setting o ++ print_settings os)

unfoldable pub print_address : Bytes → List Bytes → List Setting → Bytes
unfolding print_params print_settings
print_address type_name params settings =
    type_name ++ (print_params params ++ print_settings settings)
