-- ===== src/Dtls/Fragment/RoundTrip.antt =====
-- `parseFragment` and `fragment` are inverse to one another.
use socat.Dtls.Wire.Inversion.{
  Took-trans, read_vector24-Took, read_uint16-Took, read_uint24-Took, read_uint8-Took,
  read_uint16_sound, read_uint24_sound, read_vector24_sound, Took,
}
use socat.Prelude.{
  none, IsByte, All, drop, ℕ, ◌+◌, ◌-◌, ◌^◌, ◌≤◌, ◌<◌, ◌≡◌, arith, ◌∷◌, ◌++◌, Bytes, length, slice,
  length-take, length-drop,
}
use socat.Dtls.Error.{ok}
use socat.Dtls.Wire.{read_uint16, read_uint24, read_uint8, WireReader, read_vector24, reader}
use socat.Dtls.Wire.RoundTrip.{
  uint16_bytes, uint24_bytes, read_uint8-cons, read_uint16-bytes, read_uint24-bytes, take-append,
}
use socat.Dtls.Fragment.{
  checked, HandshakeMessage, HandshakeFragment, max_handshake_body, fragment, read_fragment,
  parse_fragment,
}

-- The bytes of a fragment on the wire.
abbrev pub wire : HandshakeFragment → Bytes
wire f =
    f.typ
    ∷ (uint24_bytes f.total
        ++ (uint16_bytes f.sequence
            ++ (uint24_bytes f.offset ++ (uint24_bytes (length f.body) ++ f.body))))

-- The fragment of `m` that holds `len` bytes from `offset` on.
abbrev pub fragment_of : HandshakeMessage → ℕ → ℕ → HandshakeFragment
fragment_of m offset len = record {
  typ = m.typ;
  sequence = m.sequence;
  total = length m.body;
  offset = offset;
  body = slice m.body offset (offset + len);
}

pub length-slice :
    (b : Bytes) (o n : ℕ) → o ≤ length b → n ≤ length b - o → length (slice b o (o + n)) ≡ n
length-slice b o n p q = omega (arith, length-take (o + n - o) (drop o b), length-drop o b)

pub fragment-wire :
    (m : HandshakeMessage) (offset len : ℕ)
    → length m.body ≤ max_handshake_body
    → offset ≤ length m.body
    → len ≤ length m.body - offset
    → fragment m offset len ≡ ok (wire (fragment_of m offset len))
unfolding fragment
fragment-wire m offset len hb ho hl = ground (arith, length-slice m.body offset len ho hl)

pub record FitsWire (f : HandshakeFragment) : Type 0 where
  pub total_fits : f.total < 2 ^ 24
  pub sequence_fits : f.sequence < 2 ^ 16
  pub body_within : f.offset + length f.body ≤ f.total

read_vector24-append :
    (v rest : Bytes)
    → length v < 2 ^ 24
    → read_vector24 (reader (uint24_bytes (length v) ++ (v ++ rest))) ≡ (v, reader rest)
unfolding read_vector24
read_vector24-append v rest h = rw (read_uint24-bytes (length v) (v ++ rest) h) (take-append v rest)

read_fragment-wire :
    (f : HandshakeFragment) (rest : Bytes)
    → FitsWire f
    → read_fragment (reader (wire f ++ rest)) ≡ (f, reader rest)
unfolding read_fragment
read_fragment-wire f rest h =
    let after_offset : Bytes = uint24_bytes (length f.body) ++ (f.body ++ rest) in
    let after_sequence : Bytes = uint24_bytes f.offset ++ after_offset in
    let after_total : Bytes = uint16_bytes f.sequence ++ after_sequence in
    rw (
      read_uint8-cons f.typ (uint24_bytes f.total ++ after_total),
      read_uint24-bytes f.total after_total h.total_fits,
      read_uint16-bytes f.sequence after_sequence,
      read_uint24-bytes f.offset after_offset (omega arith),
      read_vector24-append f.body rest (omega arith),
    )

read_fragment-Took :
    (r : WireReader)
    → All IsByte r.data_left
    → (read_fragment r).1.failure ≡ none
    → Took r (wire (read_fragment r).0) (read_fragment r).1
      × ((read_fragment r).0.total < 2 ^ 24)
      × ((read_fragment r).0.sequence < 2 ^ 16)
unfolding read_fragment
read_fragment-Took r bytes h =
    let r₁ = (read_uint8 r).1 in
    let r₂ = (read_uint24 r₁).1 in
    let r₃ = (read_uint16 r₂).1 in
    let r₄ = (read_uint24 r₃).1 in
    let e₄ = read_vector24_sound r₄ h in
    let e₃ = read_uint24_sound r₃ e₄ in
    let e₂ = read_uint16_sound r₂ e₃ in
    let e₁ = read_uint24_sound r₁ e₂ in
    let t₁ = read_uint8-Took r e₁ in
    let b₁ = t₁.bytes_left bytes in
    let (t₂, total) = read_uint24-Took r₁ b₁ e₂ in
    let b₂ = t₂.bytes_left b₁ in
    let (t₃, sequence) = read_uint16-Took r₂ b₂ e₃ in
    let b₃ = t₃.bytes_left b₂ in
    let (t₄, offset) = read_uint24-Took r₃ b₃ e₄ in
    let t₅ = read_vector24-Took r₄ (t₄.bytes_left b₃) h in
    (Took-trans t₁ (Took-trans t₂ (Took-trans t₃ (Took-trans t₄ t₅))), total, sequence)

checked-inv :
    (g : HandshakeFragment) (r : WireReader) {f : HandshakeFragment} {rest : Bytes}
    → checked g r ≡ ok (f, rest)
    → (r.failure ≡ none) × (f ≡ g) × (rest ≡ r.data_left) × (g.offset + length g.body ≤ g.total)
unfolding checked
checked-inv g r e = ground arith

-- What the parser accepts of a list of bytes stands at the front of its input, in the one form that
-- `wire` gives, and lies within the message that it claims to be of.
pub parse_fragment-inv :
    (bytes : Bytes) {f : HandshakeFragment} {rest : Bytes}
    → All IsByte bytes
    → parse_fragment bytes ≡ ok (f, rest)
    → (bytes ≡ wire f ++ rest) × FitsWire f
unfolding parse_fragment
parse_fragment-inv bytes {f} {rest} h e =
    let read = read_fragment (reader bytes) in
    let (sound, same, left, within) = checked-inv read.0 read.1 e in
    let (t, total, sequence) = read_fragment-Took (reader bytes) h sound in
    rw (same, left)
      (t.split, record { total_fits = total; sequence_fits = sequence; body_within = within })

pub parse_fragment-wire :
    (f : HandshakeFragment) (rest : Bytes)
    → FitsWire f
    → parse_fragment (wire f ++ rest) ≡ ok (f, rest)
unfolding parse_fragment
parse_fragment-wire f rest h = rw (read_fragment-wire f rest h) (unfold checked in ground arith)

-- A range within a message of at most a megabyte has a fragment, and the parser reads from its bytes,
-- whatever follows them, the type, the number and the length of the message, the place of the range
-- and its bytes.
pub parse_fragment-fragment :
    (m : HandshakeMessage) (offset len : ℕ) (rest : Bytes)
    → length m.body ≤ max_handshake_body
    → m.sequence < 2 ^ 16
    → offset ≤ length m.body
    → len ≤ length m.body - offset
    → (fragment m offset len ≡ ok (wire (fragment_of m offset len)))
      × (parse_fragment (wire (fragment_of m offset len) ++ rest)
          ≡ ok (fragment_of m offset len, rest))
parse_fragment-fragment m offset len rest small seq ho hl = (
  fragment-wire m offset len small ho hl,
  parse_fragment-wire (fragment_of m offset len) rest (record {
    total_fits = omega arith;
    sequence_fits = seq;
    body_within = omega (arith, length-slice m.body offset len ho hl);
  }),
)
