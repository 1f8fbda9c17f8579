-- ===== src/Dtls/Pmtu/Padding.antt =====
-- The padding of a probe and the packet that encodeRecord makes of it.
use socat.Prelude.{
  Bool-cases, none, some, Option, length-replicate, replicate, false, not, ◌||◌, ltb, inr, ◌∙◌,
  Option, inl, ◌⊎◌, length-drop, ◌-◌, length-take, ◌++◌, refl, slice, [], take, length-append, suc,
  ◌≤◌, arith, ap, ◌+◌, drop, ◌∷◌, ◌≡◌, length, Bytes, ℕ,
}
use socat.Dtls.Pmtu.{rrc_probe_padding, rrc_probe_overhead, datagram_overhead, rrc_message_len}
use socat.Dtls.Protection.{
  little_endian, chacha, block, SequenceKey, nonce, TrafficKeys, encode_record, mask, seal,
  unified_header, xor_at, xor_bytes,
}
use socat.Dtls.Record.{
  valid_content_type, content_rrc, max_cid_len, mask_len, RecordNumber, max_content, max_ciphertext,
}
use socat.Dtls.Error.{◌>>=◌, ok, err, Result, authentication}

length-xor_bytes : (bs ms : Bytes) → length (xor_bytes bs ms) ≡ length bs
unfolding xor_bytes
length-xor_bytes [] ms = refl
length-xor_bytes (b ∷ bs) [] = refl
length-xor_bytes (b ∷ bs) (m ∷ ms) = ap suc (length-xor_bytes bs ms)

length-xor_at :
    (offset n : ℕ) (packet m : Bytes) → length (xor_at offset n packet m) ≡ length packet
unfolding xor_at
length-xor_at offset n packet m =
    let d = drop offset packet in
    omega (
      arith,
      length-append (take offset packet)
          (xor_bytes (slice packet offset (offset + n)) m ++ drop (offset + n) packet),
      length-append (xor_bytes (slice packet offset (offset + n)) m) (drop (offset + n) packet),
      length-xor_bytes (slice packet offset (offset + n)) m,
      length-take offset packet,
      length-take (offset + n - offset) d,
      length-drop offset packet,
      length-drop (offset + n) packet,
    )

length-unified_header :
    (number : RecordNumber) (cid : Bytes) (n : ℕ)
    → length (unified_header number cid n) ≡ 1 + length cid + 4
unfolding unified_header
length-unified_header number cid n = omega (arith, length-append cid _)

rrc_probe_padding-inv :
    (size cid_len aead_tag pad : ℕ)
    → rrc_probe_padding size cid_len aead_tag ≡ ok pad
    → (1 + cid_len + 4 + (rrc_message_len + 1 + pad + aead_tag) ≡ size)
      × (rrc_message_len + pad ≤ max_content)
      × (rrc_message_len + 1 + pad + aead_tag ≤ max_ciphertext)
unfolding rrc_probe_padding rrc_probe_overhead datagram_overhead
rrc_probe_padding-inv size cid_len aead_tag pad h = ground arith

-- A packet of the size, or an error of the header protection.
abbrev pub Sized : ℕ → Result Bytes → Type 0
Sized size (ok packet) = length packet ≡ size
Sized size (err e) = e ≡ authentication

length-seal :
    (k : TrafficKeys) (header : Bytes) (sequence : ℕ) (text : Bytes)
    → ((n text header : Bytes)
        → length (k.aead.seal_text n text header) ≡ length text + k.aead.overhead)
    → length (seal k header sequence text) ≡ length text + k.aead.overhead
unfolding seal
length-seal k header sequence text sealing = sealing (nonce k sequence) text header

mask_answer :
    (k : TrafficKeys) (c : Bytes)
    → ((m : Bytes) × (mask k c ≡ ok m)) ⊎ (mask k c ≡ err authentication)
unfolding mask
mask_answer k c = elim (Bool-cases (ltb (length c) mask_len)) [
  | inl e ↦ inr (rw e refl)
  | inr e ↦ rw e (go k.sn)
]
  where
    sample : Bytes
    sample = take mask_len c

    answer : Option Bytes → Result Bytes
    answer r = elim r [ none ↦ err authentication | some s ↦ ok (take mask_len s) ]

    stream_answer :
        (r : Option Bytes) → ((m : Bytes) × (answer r ≡ ok m)) ⊎ (answer r ≡ err authentication)
    stream_answer none = inr refl
    stream_answer (some s) = inl (take mask_len s, refl)

    chosen : SequenceKey → Result Bytes
    chosen (block encrypt) = ok (encrypt sample)
    chosen (chacha key_stream) = elim (key_stream (drop 4 sample) (little_endian (take 4 sample))) [
      | none ↦ err authentication
      | some s ↦ ok (take mask_len s)
    ]

    go : (s : SequenceKey) → ((m : Bytes) × (chosen s ≡ ok m)) ⊎ (chosen s ≡ err authentication)
    go (block encrypt) = inl (encrypt sample, refl)
    go (chacha key_stream) =
        stream_answer (key_stream (drop 4 sample) (little_endian (take 4 sample)))

masked_size :
    (offset n size : ℕ) (packet : Bytes) (r : Result Bytes)
    → length packet ≡ size
    → ((m : Bytes) × (r ≡ ok m)) ⊎ (r ≡ err authentication)
    → Sized size (r >>= λ m. ok (xor_at offset n packet m))
masked_size offset n size packet r h (inl (m, e)) = rw e (length-xor_at offset n packet m ∙ h)
masked_size offset n size packet r h (inr e) = rw e refl

-- Let the AEAD add its overhead to what it seals. Under keys of an epoch of at least 2 and with a
-- connection id of at most 255 bytes, a message of the path protocol with the padding that
-- rrcProbePadding returns for a size is encoded to a packet of exactly that size, if the mask of the
-- header does not fail.
pub encode_record-rrc_probe_padding :
    (k : TrafficKeys) (number : RecordNumber) (cid message : Bytes) (size : ℕ) {pad : ℕ}
    → ((n text header : Bytes)
        → length (k.aead.seal_text n text header) ≡ length text + k.aead.overhead)
    → 2 ≤ number.epoch
    → length cid ≤ max_cid_len
    → length message ≡ rrc_message_len
    → rrc_probe_padding size (length cid) k.aead.overhead ≡ ok pad
    → Sized size (encode_record k number cid content_rrc message pad)
unfolding encode_record
encode_record-rrc_probe_padding k number cid message size {pad} sealing epoch short nine h =
    let (whole, plain, cipher) = rrc_probe_padding-inv size (length cid) k.aead.overhead pad h in
    let valid : (ltb number.epoch 2
          || (ltb max_cid_len (length cid) || not (valid_content_type content_rrc)))
        ≡ false =
      unfold valid_content_type in ground arith in
    let fits : (ltb max_content (length message) || ltb (max_content - length message) pad)
        ≡ false =
      ground arith in
    let sealed_fits : ltb max_ciphertext (length message + 1 + pad + k.aead.overhead) ≡ false =
      ground arith in
    let header = unified_header number cid (length message + 1 + pad + k.aead.overhead) in
    let text = message ++ (content_rrc ∷ replicate pad 0) in
    let sealed = seal k header number.sequence text in
    let packet_size : length (header ++ sealed) ≡ size = omega (
      arith,
      length-append header sealed,
      length-unified_header number cid (length message + 1 + pad + k.aead.overhead),
      length-seal k header number.sequence text sealing,
      length-append message (content_rrc ∷ replicate pad 0),
      length-replicate {A = ℕ} pad 0,
    ) in
    rw valid (
      rw fits (
        rw sealed_fits (
          masked_size (1 + length cid) 2 size (header ++ sealed) (mask k sealed) packet_size
            (mask_answer k sealed))))
