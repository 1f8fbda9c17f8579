-- ===== src/Dtls/Wire/RoundTrip.antt =====
-- What the writer appends, and that the reader takes it back from the front of its input.
use socat.Prelude.{
  ◌^◌, ℕ, ◌+◌, ◌/◌, ◌%◌, ◌<◌, ◌≡◌, arith, [], ◌∷◌, ◌++◌, Bytes, length, length-append,
  take-length-append, drop-length-append, le→ltb,
}
use socat.Dtls.Wire.{reader, take, read_uint8, read_uint16, read_uint24}

pub take-append : (v rest : Bytes) → take (length v) (reader (v ++ rest)) ≡ (v, reader rest)
unfolding take
take-append v rest = rw (
  length-append v rest,
  le→ltb (length v + length rest) (length v) (omega arith),
  take-length-append v rest,
  drop-length-append v rest,
)

abbrev pub uint16_bytes : ℕ → Bytes
uint16_bytes v = v / 256 ∷ v % 256 ∷ []

abbrev pub uint24_bytes : ℕ → Bytes
uint24_bytes v = v / 65536 % 256 ∷ v / 256 % 256 ∷ v % 256 ∷ []

pub read_uint8-cons : (v : ℕ) (rest : Bytes) → read_uint8 (reader (v ∷ rest)) ≡ (v, reader rest)
unfolding read_uint8
read_uint8-cons v rest = ground arith

pub read_uint16-bytes :
    (v : ℕ) (rest : Bytes) → read_uint16 (reader (uint16_bytes v ++ rest)) ≡ (v, reader rest)
unfolding read_uint16
read_uint16-bytes v rest = ground arith

pub read_uint24-bytes :
    (v : ℕ) (rest : Bytes)
    → v < 2 ^ 24
    → read_uint24 (reader (uint24_bytes v ++ rest)) ≡ (v, reader rest)
unfolding read_uint24
read_uint24-bytes v rest h = ground arith
