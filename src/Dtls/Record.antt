-- ===== src/Dtls/Record.antt =====
-- internal/dtls13/record.go: the layout of records. A datagram is split into records by
-- parse_record. Lengths are non-negative here, so the guards on negative lengths have no counterpart.
pub mod Split
pub mod RoundTrip
use socat.Dtls.Wire.{big_endian}
use socat.Dtls.Error.{ok, sequence_exhausted, record_overflow, record_invalid, err, Result}
use socat.Prelude.{
  false, drop, take, zero, true, ◌%◌, slice, ◌^◌, ◌++◌, ◌∷◌, ◌-◌, ◌||◌, leb, ◌/◌, not, bit_and, ltb,
  ◌==◌, suc, length, if◌then◌else◌, [], Bool, ◌+◌, Bytes, ℕ,
}

abbrev pub content_alert : ℕ
content_alert = 21

abbrev pub content_handshake : ℕ
content_handshake = 22

abbrev pub content_data : ℕ
content_data = 23

abbrev pub content_ack : ℕ
content_ack = 26

abbrev pub content_rrc : ℕ
content_rrc = 27

abbrev pub max_content : ℕ
max_content = 16384

abbrev pub max_ciphertext : ℕ
max_ciphertext = max_content + 256

abbrev pub plain_header : ℕ
plain_header = 13

abbrev pub max_cid_len : ℕ
max_cid_len = 255

-- seqNumMaskLen of internal/dtls13/protection.go
abbrev pub mask_len : ℕ
mask_len = 16

pub record RecordNumber : Type 0 where
  pub epoch : ℕ
  pub sequence : ℕ

-- The struct `record`; the aliasing of the datagram is not observable, since nothing writes to it.
pub record DtlsRecord : Type 0 where
  pub header : Bytes
  pub body : Bytes
  pub cid : Bytes
  pub number : RecordNumber
  pub typ : ℕ
  pub encrypted : Bool
  pub seq_offset : ℕ
  pub seq_len : ℕ

-- from the length of the body on, the header being complete
unfoldable pub cut_body : Bytes → ℕ → ℕ → (Bytes → Bytes → DtlsRecord) → Result (DtlsRecord × Bytes)
cut_body datagram header_len body_len build =
    if ltb body_len mask_len || ltb (length datagram - header_len) body_len
    then err record_invalid
    else if ltb max_ciphertext body_len
    then err record_overflow
    else ok (
      build (take header_len datagram) (slice datagram header_len (header_len + body_len)),
      drop (header_len + body_len) datagram,
    )

-- `seqLen`, `headerLen` and `bodyLen` of a unified header whose connection id is `cid`
unfoldable pub unified_seq_len : ℕ → ℕ
unified_seq_len first = if bit_and first 0x08 == 0 then 1 else 2

unfoldable pub unified_header_len : ℕ → Bytes → ℕ
unified_header_len first cid =
    1 + length cid + unified_seq_len first + (if bit_and first 0x04 == 0 then 0 else 2)

unfoldable pub unified_body_len : Bytes → ℕ → ℕ → ℕ
unified_body_len datagram first header_len =
    if bit_and first 0x04 == 0
    then length datagram - header_len
    else big_endian 0 (slice datagram (header_len - 2) header_len)

abbrev pub unified_record : ℕ → Bytes → Bytes → Bytes → DtlsRecord
unified_record first cid header body = record {
  header = header;
  body = body;
  cid = cid;
  number = record { epoch = bit_and first 3; sequence = 0 };
  typ = first;
  encrypted = true;
  seq_offset = 1 + length cid;
  seq_len = unified_seq_len first;
}

-- the unified header, its connection id read
unfoldable pub parse_unified : Bytes → ℕ → Bytes → Result (DtlsRecord × Bytes)
parse_unified datagram first cid =
    let header_len = unified_header_len first cid in
    if ltb (length datagram) header_len
    then err record_invalid
    else cut_body datagram header_len (unified_body_len datagram first header_len)
        (unified_record first cid)

abbrev pub plain_record : Bytes → ℕ → ℕ → DtlsRecord
plain_record datagram first len = record {
  header = take plain_header datagram;
  body = slice datagram plain_header (plain_header + len);
  cid = [];
  number = record {
    epoch = big_endian 0 (slice datagram 3 5);
    sequence = big_endian 0 (slice datagram 5 11);
  };
  typ = first;
  encrypted = false;
  seq_offset = 0;
  seq_len = 0;
}

unfoldable pub parse_plain : Bytes → ℕ → Result (DtlsRecord × Bytes)
parse_plain datagram first =
    if not (first == content_alert || (first == content_handshake || first == content_ack))
    then err record_invalid
    else if ltb (length datagram) plain_header
    then err record_invalid
    else if not (big_endian 0 (slice datagram 3 5) == 0)
    then err record_invalid
    else let len = big_endian 0 (slice datagram 11 13) in
      if ltb (length datagram - plain_header) len
      then err record_invalid
      else if ltb max_content len
      then err record_overflow
      else ok (plain_record datagram first len, drop (plain_header + len) datagram)

unfoldable pub parse_record : Bytes → ℕ → Result (DtlsRecord × Bytes)
parse_record [] cid_len = err record_invalid
parse_record (first ∷ more) cid_len =
    let datagram = first ∷ more in
    if ltb max_cid_len cid_len
    then err record_invalid
    else if not (bit_and first 0xe0 == 0x20)
    then parse_plain datagram first
    else if bit_and first 0x10 == 0
    then parse_unified datagram first []
    else if cid_len == 0 || ltb (length datagram) (1 + cid_len)
    then err record_invalid
    else parse_unified datagram first (slice datagram 1 (1 + cid_len))

-- the low `n` bytes of a number, the most significant first
abbrev pub low_bytes : ℕ → ℕ → Bytes
low_bytes zero v = []
low_bytes (suc n) v = low_bytes n (v / 256) ++ (v % 256 ∷ [])

unfoldable pub encode_plain_record : ℕ → ℕ → Bytes → Result Bytes
encode_plain_record typ sequence content =
    if leb (2 ^ 48) sequence
    then err sequence_exhausted
    else if not (typ == content_handshake || (typ == content_alert || typ == content_ack))
    then err record_invalid
    else if ltb max_content (length content)
    then err record_overflow
    else ok (
        (typ ∷ 0xfe ∷ 0xfd ∷ 0 ∷ 0 ∷ [])
        ++ (low_bytes 6 sequence ++ (low_bytes 2 (length content) ++ content)))

unfoldable pub valid_content_type : ℕ → Bool
valid_content_type typ =
    typ == content_alert
    || (typ == content_handshake
        || (typ == content_data || (typ == content_ack || typ == content_rrc)))
