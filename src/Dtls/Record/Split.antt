-- ===== src/Dtls/Record/Split.antt =====
-- What parse_record returns, whatever the datagram holds.
use socat.Dtls.Wire.{big_endian}
use native.Mathlib.Decide.{dec_lt}
use native.Mathlib.Nat.{suc-add, zero-add}
use socat.Dtls.Record.{
  unified_record, unified_body_len, unified_seq_len, plain_header, plain_record, unified_header_len,
  max_content, max_ciphertext, mask_len, max_cid_len, cut_body, parse_unified, DtlsRecord,
  parse_record, parse_plain,
}
use socat.Prelude.{
  inl, inr, ◌⊎◌, refl, [], zero, length-drop, false, ◌∷◌, length-take, take-append-drop, suc, true,
  arith, ◌-◌, ◌+◌, ◌<◌, slice, ◌++◌, length, ◌≡◌, ◌≤◌, take, drop, Bytes, ℕ,
}
use socat.Dtls.Error.{ok}

pub drop-drop : (m n : ℕ) (xs : Bytes) → drop n (drop m xs) ≡ drop (m + n) xs
drop-drop zero n xs = rw zero-add
drop-drop (suc m) zero [] = rw suc-add refl
drop-drop (suc m) (suc n) [] = rw suc-add refl
drop-drop (suc m) n (x ∷ xs) = rw suc-add (drop-drop m n xs)

-- A list is its header, its body and the rest.
pub three_parts : (xs : Bytes) (h b : ℕ) → take h xs ++ (slice xs h (h + b) ++ drop (h + b) xs) ≡ xs
three_parts xs h b =
    let e : h + b - h ≡ b = omega arith in
    rw (e, ← drop-drop h b xs) (rw (take-append-drop b (drop h xs)) (take-append-drop h xs))

-- The record lies in the datagram, before the rest. The sequence number lies in the header of an
-- encrypted record, whose body holds at least the sample of the mask.
pub record Parsed (datagram : Bytes) (r : DtlsRecord) (rest : Bytes) : Type 0 where
  pub whole : r.header ++ (r.body ++ rest) ≡ datagram
  pub progress : 0 < length r.header
  pub header_fits : length r.header ≤ 260
  pub sequence_inside : r.seq_offset + r.seq_len ≤ length r.header
  pub sequence_size : r.seq_len ≤ 2
  pub sampled : (r.encrypted ≡ false) ⊎ (mask_len ≤ length r.body)
  pub body_fits : length r.body ≤ max_ciphertext
  pub plain_fits : (r.encrypted ≡ true) ⊎ ((length r.body ≤ max_content) × (r.number.epoch ≡ 0))

module _ (datagram : Bytes) (header_len body_len : ℕ) (build : Bytes → Bytes → DtlsRecord) where
  cut_body-inv :
      {r : DtlsRecord} {rest : Bytes}
      → cut_body datagram header_len body_len build ≡ ok (r, rest)
      → (r ≡ build (take header_len datagram) (slice datagram header_len (header_len + body_len)))
        × (rest ≡ drop (header_len + body_len) datagram)
        × (mask_len ≤ body_len)
        × (body_len ≤ max_ciphertext)
        × (body_len ≤ length datagram - header_len)
  unfolding cut_body
  cut_body-inv {r} {rest} h = ground arith

slice_size : (xs : Bytes) (h b : ℕ) → b ≤ length xs - h → length (slice xs h (h + b)) ≡ b
slice_size xs h b p = omega (arith, length-take (h + b - h) (drop h xs), length-drop h xs)

header_len-bounds :
    (first : ℕ) (cid : Bytes)
    → length cid ≤ max_cid_len
    → (1 + length cid + unified_seq_len first ≤ unified_header_len first cid)
      × (unified_header_len first cid ≤ 260)
      × (unified_seq_len first ≤ 2)
unfolding unified_header_len unified_seq_len
header_len-bounds first cid h = ground arith

parse_unified-inv :
    (datagram : Bytes) (first : ℕ) (cid : Bytes) {r : DtlsRecord} {rest : Bytes}
    → parse_unified datagram first cid ≡ ok (r, rest)
    → (unified_header_len first cid ≤ length datagram)
      × (cut_body datagram
            (unified_header_len first cid)
            (unified_body_len datagram first (unified_header_len first cid))
            (unified_record first cid)
          ≡ ok (r, rest))
unfolding parse_unified
parse_unified-inv datagram first cid {r} {rest} h = ground arith

-- The record that is cut from a datagram behind a header of `h` bytes.
cut-Parsed :
    (datagram : Bytes) (first : ℕ) (cid : Bytes) (h b : ℕ)
    → h ≡ unified_header_len first cid
    → length cid ≤ max_cid_len
    → h ≤ length datagram
    → mask_len ≤ b
    → b ≤ max_ciphertext
    → b ≤ length datagram - h
    → Parsed datagram
        (unified_record first cid (take h datagram) (slice datagram h (h + b)))
        (drop (h + b) datagram)
cut-Parsed datagram first cid h b e le fits low high room =
    let (inside, small, size) = header_len-bounds first cid le in
    let header : length (take h datagram) ≡ h = omega (arith, length-take h datagram) in
    let body : length (slice datagram h (h + b)) ≡ b = slice_size datagram h b room in
    record {
      whole = three_parts datagram h b;
      progress = omega arith;
      header_fits = omega arith;
      sequence_inside = omega arith;
      sequence_size = size;
      sampled = inr (omega arith);
      body_fits = omega arith;
      plain_fits = inl refl;
    }

parse_unified-Parsed :
    (datagram : Bytes) (first : ℕ) (cid : Bytes) {r : DtlsRecord} {rest : Bytes}
    → length cid ≤ max_cid_len
    → parse_unified datagram first cid ≡ ok (r, rest)
    → Parsed datagram r rest
parse_unified-Parsed datagram first cid {r} {rest} le h =
    let (fits, cut) = parse_unified-inv datagram first cid h in
    let (er, es, low, high, room) =
      cut_body-inv datagram (unified_header_len first cid)
        (unified_body_len datagram first (unified_header_len first cid)) (unified_record first cid)
        cut in
    rw (er, es) (cut-Parsed datagram first cid _ _ refl le fits low high room)

parse_plain-inv :
    (datagram : Bytes) (first len : ℕ) {r : DtlsRecord} {rest : Bytes}
    → len ≡ big_endian 0 (slice datagram 11 13)
    → parse_plain datagram first ≡ ok (r, rest)
    → (r ≡ plain_record datagram first len)
      × (rest ≡ drop (plain_header + len) datagram)
      × (plain_header + len ≤ length datagram)
      × (len ≤ max_content)
      × (big_endian 0 (slice datagram 3 5) ≡ 0)
unfolding parse_plain
parse_plain-inv datagram first len {r} {rest} e h = ground arith

parse_plain-Parsed :
    (datagram : Bytes) (first : ℕ) {r : DtlsRecord} {rest : Bytes}
    → parse_plain datagram first ≡ ok (r, rest)
    → Parsed datagram r rest
parse_plain-Parsed datagram first {r} {rest} h =
    let len = big_endian 0 (slice datagram 11 13) in
    let (er, es, room, small, first_epoch) = parse_plain-inv datagram first len refl h in
    let header : length (take plain_header datagram) ≡ 13 =
      omega (arith, length-take plain_header datagram) in
    let body : length (slice datagram plain_header (plain_header + len)) ≡ len =
      slice_size datagram plain_header len (omega arith) in
    rw (er, es)
      (record {
        whole = three_parts datagram plain_header len;
        progress = omega arith;
        header_fits = omega arith;
        sequence_inside = omega arith;
        sequence_size = omega arith;
        sampled = inl refl;
        body_fits = omega arith;
        plain_fits = inr (omega arith, first_epoch);
      })

cid_size :
    (datagram : Bytes) (n : ℕ) → n ≤ max_cid_len → length (slice datagram 1 (1 + n)) ≤ max_cid_len
cid_size datagram n h = omega (arith, length-take (1 + n - 1) (drop 1 datagram))

-- A record that parse_record returns is the beginning of the datagram: header, body and rest put
-- together are the datagram, and the header is not empty. The header fits the buffer of
-- decode_record, the sequence number lies inside it, and the body is no longer than a ciphertext. An
-- encrypted record has the sixteen bytes of the mask's sample; a plain one is of epoch zero and holds
-- at most max_content bytes.
pub parse_record-Parsed :
    (datagram : Bytes) (cid_len : ℕ) {r : DtlsRecord} {rest : Bytes}
    → parse_record datagram cid_len ≡ ok (r, rest)
    → Parsed datagram r rest
unfolding parse_record
parse_record-Parsed [] cid_len {r} {rest} h = cc
parse_record-Parsed (first ∷ more) cid_len {r} {rest} h = elim (dec_lt max_cid_len cid_len) [
  | yes far ↦ ground arith
  | no near ↦ ground (
    arith,
    parse_plain-Parsed (first ∷ more) first {r = r} {rest = rest},
    parse_unified-Parsed (first ∷ more) first [] {r = r} {rest = rest},
    parse_unified-Parsed (first ∷ more) first (slice (first ∷ more) 1 (1 + cid_len)) {r = r}
        {rest = rest},
    cid_size (first ∷ more) cid_len (omega arith),
  )
]
