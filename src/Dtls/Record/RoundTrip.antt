-- ===== src/Dtls/Record/RoundTrip.antt =====
-- encodePlainRecord and parseRecord of internal/dtls13/record.go.
use mathlib.Core.Path.{ap₂}
use socat.Dtls.Record.Split.{drop-drop}
use socat.Dtls.Wire.{big_endian}
use socat.Dtls.Error.{ok}
use socat.Dtls.Record.{
  plain_record, max_cid_len, parse_record, DtlsRecord, plain_header, max_content, low_bytes,
  parse_plain, encode_plain_record,
}
use socat.Prelude.{
  refl, inr, le→ltb, ap, ◌-◌, inl, ◌∙◌, sym, ◌+◌, length-append, slice, false, drop-length-append,
  take-length-append, arith, ◌++◌, drop, take, ◌≤◌, ◌⊎◌, length, [], ◌^◌, ◌∷◌, ◌≡◌, ◌<◌, Bytes, ℕ,
}

-- the bytes before the content
abbrev pub plain_prefix : ℕ → ℕ → ℕ → Bytes
plain_prefix typ sequence len =
    (typ ∷ 0xfe ∷ 0xfd ∷ 0 ∷ 0 ∷ []) ++ (low_bytes 6 sequence ++ low_bytes 2 len)

encode_plain_record-inv :
    (typ sequence : ℕ) (content : Bytes) {b : Bytes}
    → encode_plain_record typ sequence content ≡ ok b
    → (sequence < 2 ^ 48)
      × ((typ ≡ 21) ⊎ ((typ ≡ 22) ⊎ (typ ≡ 26)))
      × (length content ≤ max_content)
      × (b ≡ plain_prefix typ sequence (length content) ++ content)
unfolding encode_plain_record
encode_plain_record-inv typ sequence content {b} h = ground arith

six_bytes : (v : ℕ) → v < 2 ^ 48 → big_endian 0 (low_bytes 6 v) ≡ v
six_bytes v h = omega arith

two_bytes : (v : ℕ) → v < 2 ^ 16 → big_endian 0 (low_bytes 2 v) ≡ v
two_bytes v h = omega arith

content_slice : (c rest : Bytes) (n : ℕ) → n ≡ length c → take n (c ++ rest) ≡ c
content_slice c rest n e = rw e (take-length-append c rest)

content_rest : (c rest : Bytes) (n : ℕ) → n ≡ length c → drop n (c ++ rest) ≡ rest
content_rest c rest n e = rw e (drop-length-append c rest)

-- a datagram whose header names the length of what follows, with something behind it
parse_plain-parts :
    (d : Bytes) (typ : ℕ) (content rest : Bytes)
    → (typ ≡ 21) ⊎ ((typ ≡ 22) ⊎ (typ ≡ 26))
    → length content ≤ max_content
    → length d ≡ 13 + (length content + length rest)
    → drop 13 d ≡ content ++ rest
    → big_endian 0 (slice d 3 5) ≡ 0
    → big_endian 0 (slice d 11 13) ≡ length content
    → parse_plain d typ
      ≡ ok (plain_record d typ (length content), drop (plain_header + length content) d)
unfolding parse_plain
parse_plain-parts d typ content rest t l size behind epoch len = ground arith

plain_body :
    (d content rest : Bytes)
    → drop 13 d ≡ content ++ rest
    → slice d plain_header (plain_header + length content) ≡ content
plain_body d content rest behind =
    rw behind
      (content_slice content rest (plain_header + length content - plain_header) (omega arith))

plain_rest :
    (d content rest : Bytes)
    → drop 13 d ≡ content ++ rest
    → drop (plain_header + length content) d ≡ rest
plain_rest d content rest behind =
    sym (drop-drop 13 (length content) d)
    ∙ rw behind (content_rest content rest (length content) refl)

-- the record that is read back
abbrev pub read_back : ℕ → ℕ → Bytes → DtlsRecord
read_back typ sequence content = record {
  header = plain_prefix typ sequence (length content);
  body = content;
  cid = [];
  number = record { epoch = 0; sequence = sequence };
  typ = typ;
  encrypted = false;
  seq_offset = 0;
  seq_len = 0;
}

parse_plain-prefix :
    (typ sequence : ℕ) (content rest : Bytes)
    → (typ ≡ 21) ⊎ ((typ ≡ 22) ⊎ (typ ≡ 26))
    → sequence < 2 ^ 48
    → length content ≤ max_content
    → parse_plain (plain_prefix typ sequence (length content) ++ (content ++ rest)) typ
      ≡ ok (read_back typ sequence content, rest)
parse_plain-prefix typ sequence content rest t s l =
    let d = plain_prefix typ sequence (length content) ++ (content ++ rest) in
    parse_plain-parts d typ content rest t l (omega (arith, length-append content rest)) refl refl
      (two_bytes (length content) (omega arith))
    ∙ ap ok (
        ap₂ (λ (r : DtlsRecord) (b : Bytes). (r, b))
          (ap₂
            (λ (body : Bytes) (n : ℕ). record {
              header = plain_prefix typ sequence (length content);
              body = body;
              cid = [];
              number = record { epoch = 0; sequence = n };
              typ = typ;
              encrypted = false;
              seq_offset = 0;
              seq_len = 0;
            })
            (plain_body d content rest refl) (six_bytes sequence s))
          (plain_rest d content rest refl))

first_plain :
    (typ n : ℕ) (more : Bytes)
    → (typ ≡ 21) ⊎ ((typ ≡ 22) ⊎ (typ ≡ 26))
    → n ≤ max_cid_len
    → parse_record (typ ∷ more) n ≡ parse_plain (typ ∷ more) typ
unfolding parse_record
first_plain typ n more (inl e) h = rw (e, le→ltb max_cid_len n h) refl
first_plain typ n more (inr (inl e)) h = rw (e, le→ltb max_cid_len n h) refl
first_plain typ n more (inr (inr e)) h = rw (e, le→ltb max_cid_len n h) refl

-- What encodePlainRecord returns is a plain record of epoch zero with its type, its record number and
-- its content to parseRecord, whatever follows it and however long the connection ids are.
pub parse_record-encode_plain_record :
    (typ sequence n : ℕ) (content rest : Bytes) {b : Bytes}
    → n ≤ max_cid_len
    → encode_plain_record typ sequence content ≡ ok b
    → parse_record (b ++ rest) n ≡ ok (read_back typ sequence content, rest)
parse_record-encode_plain_record typ sequence n content rest {b} h e =
    let (s, t, l, same_bytes) = encode_plain_record-inv typ sequence content e in
    rw same_bytes (first_plain typ n _ t h ∙ parse_plain-prefix typ sequence content rest t s l)
