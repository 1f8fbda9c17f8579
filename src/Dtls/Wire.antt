-- ===== src/Dtls/Wire.antt =====
-- internal/dtls13/wire.go: the reader and the writer of length-prefixed fields. The only error that
-- either stores is errDecode. Lengths are non-negative here, so the guards `n < 0` and `v < 0` have
-- no counterpart.
pub mod RoundTrip
pub mod Inversion
use socat.Prelude.{
  ℕ, ◌+◌, ◌*◌, ◌/◌, ◌%◌, List, [], ◌∷◌, ◌++◌, Option, none, some, is_some, ◌||◌, ltb, Bytes, length,
  take as take_bytes, drop, if◌then◌else◌,
}
use socat.Dtls.Error.{Error, decode, Result, ok, err}

pub record WireReader : Type 0 where
  pub data_left : Bytes
  pub failure : Option Error

-- A method of `*wireReader` that returns a value.
abbrev pub Reading : Type 0 → Type 0
Reading A = WireReader → A × WireReader

infixl 5 ◌>>=◌
abbrev pub ◌>>=◌ : {A B : Type 0} → Reading A → (A → Reading B) → Reading B
◌>>=◌ m f r = let (a, r') = m r in f a r'

abbrev pub pure : {A : Type 0} → A → Reading A
pure a r = (a, r)

-- `wireReader{data: data}`
abbrev pub reader : Bytes → WireReader
reader bytes = record { data_left = bytes; failure = none }

unfoldable pub take : ℕ → Reading Bytes
take n r =
    if is_some r.failure || ltb (length r.data_left) n
    then ([], record r { failure = some decode })
    else (take_bytes n r.data_left, record r { data_left = drop n r.data_left })

-- `if len(b) == 0 { return 0 }; return b[0]`, and the big-endian numbers of 2 and 3 bytes
abbrev pub big_endian : ℕ → Bytes → ℕ
big_endian acc [] = acc
big_endian acc (b ∷ bs) = big_endian (acc * 256 + b) bs

unfoldable pub read_uint8 : Reading ℕ
unfolding take
read_uint8 = do b ← take 1; pure (big_endian 0 b)

unfoldable pub read_uint16 : Reading ℕ
unfolding take
read_uint16 = do b ← take 2; pure (big_endian 0 b)

unfoldable pub read_uint24 : Reading ℕ
unfolding take
read_uint24 = do b ← take 3; pure (big_endian 0 b)

unfoldable pub read_vector8 : Reading Bytes
read_vector8 = do n ← read_uint8; take n

unfoldable pub read_vector16 : Reading Bytes
read_vector16 = do n ← read_uint16; take n

unfoldable pub read_vector24 : Reading Bytes
read_vector24 = do n ← read_uint24; take n

unfoldable pub done : WireReader → Option Error
done r = if is_some r.failure || ltb 0 (length r.data_left) then some decode else none

pub record WireWriter : Type 0 where
  pub written : Bytes
  pub failure : Option Error

-- `wireWriter{}`
abbrev pub writer : WireWriter
writer = record { written = []; failure = none }

abbrev append : Bytes → WireWriter → WireWriter
append bytes w = record w { written = w.written ++ bytes }

abbrev fail : WireWriter → WireWriter
fail w = record w { failure = some decode }

-- `v` is a byte
unfoldable pub write_uint8 : ℕ → WireWriter → WireWriter
write_uint8 v w = append (v ∷ []) w

-- `v` is a uint16
unfoldable pub write_uint16 : ℕ → WireWriter → WireWriter
write_uint16 v w = append (v / 256 ∷ v % 256 ∷ []) w

unfoldable pub write_uint24 : ℕ → WireWriter → WireWriter
write_uint24 v w =
    if ltb 0xffffff v then fail w else append (v / 65536 % 256 ∷ v / 256 % 256 ∷ v % 256 ∷ []) w

unfoldable pub write_vector8 : Bytes → WireWriter → WireWriter
unfolding write_uint8
write_vector8 v w = if ltb 255 (length v) then fail w else append v (write_uint8 (length v) w)

unfoldable pub write_vector16 : Bytes → WireWriter → WireWriter
unfolding write_uint16
write_vector16 v w = if ltb 65535 (length v) then fail w else append v (write_uint16 (length v) w)

unfoldable pub write_vector24 : Bytes → WireWriter → WireWriter
unfolding write_uint24
write_vector24 v w =
    if ltb 0xffffff (length v) then fail w else append v (write_uint24 (length v) w)

unfoldable pub result : WireWriter → Result Bytes
result w = elim w.failure [ some e ↦ err e | none ↦ ok w.written ]
