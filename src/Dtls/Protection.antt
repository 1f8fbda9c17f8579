-- ===== src/Dtls/Protection.antt =====
-- internal/dtls13/protection.go and the protected records of internal/dtls13/record.go. The ciphers
-- are those of crypto/cipher and golang.org/x/crypto: functions that a value of TrafficKeys carries.
-- The scratch buffers of the Go struct keep nothing between calls and have no counterpart.
-- cipher.AEAD: Seal and Open take the nonce, the text and the additional data.
pub mod Decoded
use socat.Dtls.Replay.{next}
use socat.Dtls.Wire.{big_endian}
use socat.Dtls.Replay.{reconstruct_sequence, accept, ReplayWindow}
use socat.Dtls.Error.{
  ◌>>=◌, replayed, record_invalid, ok, record_overflow, authentication, err, Result,
}
use socat.Dtls.Record.{
  max_ciphertext, valid_content_type, max_cid_len, max_content, mask_len, low_bytes, DtlsRecord,
  RecordNumber,
}
use socat.Prelude.{
  bit_and, bit_or, replicate, ◌-◌, false, zero, ◌&&◌, ◌||◌, drop, ◌==◌, not, get_or, length, slice,
  true, ltb, [], some, none, ◌%◌, bit_xor, if◌then◌else◌, ◌*◌, ◌++◌, suc, ◌+◌, Bool, ◌∷◌, take,
  Option, Bytes, ℕ,
}

pub record Aead : Type 0 where
  pub overhead : ℕ
  pub seal_text : Bytes → Bytes → Bytes → Bytes
  pub open_text : Bytes → Bytes → Bytes → Option Bytes

-- The field `sn`: a cipher.Block with its Encrypt, or a ChaCha20 key with the key stream of a nonce
-- and a counter, which fails on a nonce of a wrong length.
pub data SequenceKey : Type 0 where
  block : (Bytes → Bytes) → SequenceKey
  chacha : (Bytes → ℕ → Option Bytes) → SequenceKey

pub record TrafficKeys : Type 0 where
  pub aead : Aead
  pub sn : SequenceKey
  pub iv : Bytes

-- `nonce[4:]` is a big-endian uint64
unfoldable pub nonce : TrafficKeys → ℕ → Bytes
nonce k sequence = take 4 k.iv ++ low_bytes 8 (bit_xor (big_endian 0 (drop 4 k.iv)) sequence)

abbrev pub little_endian : Bytes → ℕ
little_endian [] = 0
little_endian (b ∷ bs) = b + 256 * little_endian bs

-- The error of the ChaCha20 constructor stands for any error here.
unfoldable pub mask : TrafficKeys → Bytes → Result Bytes
mask k ciphertext =
    if ltb (length ciphertext) mask_len
    then err authentication
    else let sample = take mask_len ciphertext in
      elim k.sn [
        | block encrypt ↦ ok (encrypt sample)
        | chacha key_stream ↦ elim (key_stream (drop 4 sample) (little_endian (take 4 sample))) [
          | none ↦ err authentication
          | some stream ↦ ok (take mask_len stream)
        ]
      ]

unfoldable pub seal : TrafficKeys → Bytes → ℕ → Bytes → Bytes
seal k header sequence plaintext = k.aead.seal_text (nonce k sequence) plaintext header

unfoldable pub open_sealed : TrafficKeys → Bytes → ℕ → Bytes → Result Bytes
open_sealed k header sequence ciphertext =
    if ltb (length ciphertext) k.aead.overhead
    then err authentication
    else elim (k.aead.open_text (nonce k sequence) ciphertext header) [
      | none ↦ err authentication
      | some plaintext ↦ ok plaintext
    ]

-- bytes.Equal
unfoldable pub same : Bytes → Bytes → Bool
same [] [] = true
same (x ∷ xs) (y ∷ ys) = x == y && same xs ys
same [] (y ∷ ys) = false
same (x ∷ xs) [] = false

unfoldable pub xor_bytes : Bytes → Bytes → Bytes
xor_bytes [] ms = []
xor_bytes (b ∷ bs) [] = b ∷ bs
xor_bytes (b ∷ bs) (m ∷ ms) = bit_xor b m ∷ xor_bytes bs ms

-- `for i := range n { packet[offset+i] ^= mask[i] }`
unfoldable pub xor_at : ℕ → ℕ → Bytes → Bytes → Bytes
xor_at offset n packet m =
    take offset packet
    ++ (xor_bytes (slice packet offset (offset + n)) m ++ drop (offset + n) packet)

-- The first byte, the connection id, the low 16 bits of the sequence number, the length.
unfoldable pub unified_header : RecordNumber → Bytes → ℕ → Bytes
unified_header number cid protected_len =
    (let first = bit_or 0x2c (bit_and number.epoch 3) in
        if length cid == 0 then first else bit_or first 0x10)
      ∷ cid
    ++ (low_bytes 2 (number.sequence % 65536) ++ low_bytes 2 protected_len)

unfoldable pub encode_record : TrafficKeys → RecordNumber → Bytes → ℕ → Bytes → ℕ → Result Bytes
encode_record k number cid typ content padding =
    if ltb number.epoch 2 || (ltb max_cid_len (length cid) || not (valid_content_type typ))
    then err record_invalid
    else if ltb max_content (length content) || ltb (max_content - length content) padding
    then err record_overflow
    else let protected_len = length content + 1 + padding + k.aead.overhead in
      if ltb max_ciphertext protected_len
      then err record_overflow
      else let header = unified_header number cid protected_len in
        let sealed = seal k header number.sequence (content ++ (typ ∷ replicate padding 0)) in
        do m ← mask k sealed; ok (xor_at (1 + length cid) 2 (header ++ sealed) m)

-- `for end >= 0 && inner[end] == 0 { end-- }`, from `end = n - 1`; the result is `end + 1`
unfoldable pub content_end : Bytes → ℕ → ℕ
content_end inner zero = zero
content_end inner (suc n) =
    let shorter = content_end inner n in if get_or inner n 0 == 0 then shorter else suc n

-- The answer of the replay window to a record with content of `n` bytes.
unfoldable pub finish_accepted :
    RecordNumber
    → Bytes
    → ℕ
    → Bool × ReplayWindow
    → Result (RecordNumber × ℕ × Bytes) × ReplayWindow
finish_accepted number inner n (false, window) = (err replayed, window)
finish_accepted number inner n (true, window) =
    (ok (number, get_or inner n 0, take n inner), window)

-- from the end of the content on
unfoldable pub finish_at :
    ℕ → RecordNumber → Bytes → ReplayWindow → Result (RecordNumber × ℕ × Bytes) × ReplayWindow
unfolding finish_accepted
finish_at zero number inner window = (err record_invalid, window)
finish_at (suc n) number inner window =
    if not (valid_content_type (get_or inner n 0))
    then (err record_invalid, window)
    else finish_accepted number inner n (accept number.sequence window)

-- from the plaintext on
unfoldable pub finish_record :
    RecordNumber → Bytes → ReplayWindow → Result (RecordNumber × ℕ × Bytes) × ReplayWindow
unfolding finish_at content_end
finish_record number inner window =
    if ltb (max_content + 1) (length inner)
    then (err record_overflow, window)
    else finish_at (content_end inner (length inner)) number inner window

-- decodeRecord from the result of open on
unfoldable pub decode_opened :
    Result Bytes → RecordNumber → ReplayWindow → Result (RecordNumber × ℕ × Bytes) × ReplayWindow
unfolding finish_record
decode_opened (err e) number window = (err e, window)
decode_opened (ok inner) number window = finish_record number inner window

-- decodeRecord from the result of mask on
unfoldable pub decode_masked :
    Result Bytes
    → TrafficKeys
    → DtlsRecord
    → ℕ
    → ReplayWindow
    → Result (RecordNumber × ℕ × Bytes) × ReplayWindow
unfolding decode_opened
decode_masked (err e) k r epoch window = (err e, window)
decode_masked (ok m) k r epoch window =
    let header = xor_at r.seq_offset r.seq_len r.header m in
    let truncated = big_endian 0 (slice header r.seq_offset (r.seq_offset + r.seq_len)) in
    let sequence = reconstruct_sequence truncated r.seq_len (next window) in
    if ltb 260 (length r.header)
    then (err record_invalid, window)
    else decode_opened (open_sealed k header sequence r.body)
        (record { epoch = epoch; sequence = sequence }) window

unfoldable pub decode_record :
    TrafficKeys
    → DtlsRecord
    → ℕ
    → Bytes
    → ReplayWindow
    → Result (RecordNumber × ℕ × Bytes) × ReplayWindow
unfolding decode_masked
decode_record k r epoch cid window =
    if not r.encrypted
      || (not (r.number.epoch == bit_and epoch 3)
          || (not (length r.cid == 0) && not (same cid r.cid)))
    then (err authentication, window)
    else decode_masked (mask k r.body) k r epoch window
