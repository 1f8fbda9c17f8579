-- ===== src/Dtls/Fragment.antt =====
-- internal/dtls13/fragment.go: handshake messages, their fragments on the wire and the parser.
pub mod RoundTrip
use socat.Prelude.{ℕ, ◌+◌, ◌-◌, ◌^◌, Bytes, length, slice, ltb, is_some, ◌||◌, if◌then◌else◌}
use socat.Dtls.Error.{Error, decode, handshake_limit, Result, ok, err}
use socat.Dtls.Wire.{
  Reading, WireReader, ◌>>=◌, pure, reader, read_uint8, read_uint16, read_uint24, read_vector24,
  writer, write_uint8, write_uint16, write_uint24, write_vector24, result,
}

abbrev pub max_handshake_body : ℕ
max_handshake_body = 2 ^ 20

abbrev pub max_pending_messages : ℕ
max_pending_messages = 16

pub record HandshakeMessage : Type 0 where
  pub typ : ℕ
  pub sequence : ℕ
  pub epoch : ℕ
  pub body : Bytes

unfoldable pub transcript : HandshakeMessage → Result Bytes
unfolding write_uint8 write_vector24 result
transcript m =
    if ltb max_handshake_body (length m.body)
    then err handshake_limit
    else result (write_vector24 m.body (write_uint8 m.typ writer))

unfoldable pub fragment : HandshakeMessage → ℕ → ℕ → Result Bytes
unfolding write_uint8 write_uint16 write_uint24 write_vector24 result
fragment m offset len =
    if ltb max_handshake_body (length m.body)
    then err handshake_limit
    else if ltb (length m.body) offset || ltb (length m.body - offset) len
    then err decode
    else let typed = write_uint8 m.typ writer in
      let sized = write_uint24 (length m.body) typed in
      let numbered = write_uint16 m.sequence sized in
      let placed = write_uint24 offset numbered in
      result (write_vector24 (slice m.body offset (offset + len)) placed)

pub record HandshakeFragment : Type 0 where
  pub typ : ℕ
  pub sequence : ℕ
  pub total : ℕ
  pub offset : ℕ
  pub body : Bytes

unfoldable pub read_fragment : Reading HandshakeFragment
read_fragment = do
  typ ← read_uint8
  total ← read_uint24
  sequence ← read_uint16
  offset ← read_uint24
  body ← read_vector24
  pure (record { typ = typ; sequence = sequence; total = total; offset = offset; body = body })

-- the checks on what was read, and the rest of the input
unfoldable pub checked : HandshakeFragment → WireReader → Result (HandshakeFragment × Bytes)
checked f r =
    if is_some r.failure || ltb f.total f.offset || ltb (f.total - f.offset) (length f.body)
    then err decode
    else ok (f, r.data_left)

unfoldable pub parse_fragment : Bytes → Result (HandshakeFragment × Bytes)
parse_fragment bytes = let (f, r) = read_fragment (reader bytes) in checked f r
