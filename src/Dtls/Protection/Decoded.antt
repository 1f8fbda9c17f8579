-- ===== src/Dtls/Protection/Decoded.antt =====
-- What decodeRecord returns, and what it does to the replay window.
use socat.Dtls.Replay.{next}
use socat.Dtls.Wire.{big_endian}
use socat.Dtls.Error.{ok, err, Result}
use socat.Dtls.Record.{DtlsRecord, max_content, valid_content_type, RecordNumber}
use socat.Dtls.Protection.{
  mask, same, xor_at, decode_record, decode_masked, decode_opened, open_sealed, TrafficKeys,
  finish_record, finish_at, finish_accepted, content_end,
}
use socat.Dtls.Replay.{reconstruct_sequence, ReplayWindow, accept}
use socat.Prelude.{
  ◌&&◌, bit_and, slice, ◌||◌, not, refl, ◌∙◌, sym, ltb→le, ap, ◌+◌, ltb, Bool, zero, inl, inr, ◌==◌,
  length, Bool-cases, take, suc, true, get_or, arith, ◌<◌, false, ◌≤◌, ◌≡◌, Bytes, ℕ,
}

accept-refused : (n : ℕ) (w : ReplayWindow) → (accept n w).0 ≡ false → (accept n w).1 ≡ w
unfolding accept
accept-refused n w h = ground arith

-- Nothing but zeros stands behind the end of the content.
content_end-zeros :
    (inner : Bytes) (n i : ℕ) → content_end inner n ≤ i → i < n → get_or inner i 0 ≡ 0
unfolding content_end
content_end-zeros inner zero i low high = absurd (omega arith)
content_end-zeros inner (suc n) i low high = elim (Bool-cases (get_or inner n 0 == 0)) [
  | inr e ↦ absurd (let low' = rw e at low in omega arith)
  | inl e ↦
      let low' = rw e at low in
      elim (Bool-cases (i == n)) [
        | inl s ↦ ground arith
        | inr s ↦ content_end-zeros inner n i low' (ground arith)
      ]
]

content_end-le : (inner : Bytes) (n : ℕ) → content_end inner n ≤ n
unfolding content_end
content_end-le inner zero = omega arith
content_end-le inner (suc n) = ground (arith, content_end-le inner n)

-- A record of the number `number` and the plaintext `inner` was taken: the window took the number,
-- which was new to it, the type is valid and stands behind the content, and only zeros follow.
pub record Finished (number : RecordNumber) (inner : Bytes) (window window' : ReplayWindow)
    (answer : RecordNumber × ℕ × Bytes) : Type 0 where
  pub numbered : answer.0 ≡ number
  pub valid : valid_content_type answer.1 ≡ true
  pub accepted : accept number.sequence window ≡ (true, window')
  pub behind : ℕ
  pub content : answer.2 ≡ take behind inner
  pub typed : get_or inner behind 0 ≡ answer.1
  pub padded : (i : ℕ) → behind < i → i < length inner → get_or inner i 0 ≡ 0
  pub fits : behind ≤ max_content

-- An error leaves the window as it was.
abbrev pub Answer :
    (ReplayWindow → RecordNumber × ℕ × Bytes → Type 0)
    → ReplayWindow
    → Result (RecordNumber × ℕ × Bytes) × ReplayWindow
    → Type 0
Answer P window (err e, window') = window' ≡ window
Answer P window (ok answer, window') = P window' answer

finish_accepted-Answer :
    (number : RecordNumber) (inner : Bytes) (n : ℕ) (window : ReplayWindow)
    (r : Bool × ReplayWindow)
    → accept number.sequence window ≡ r
    → content_end inner (length inner) ≡ suc n
    → length inner ≤ max_content + 1
    → valid_content_type (get_or inner n 0) ≡ true
    → Answer (Finished number inner window) window (finish_accepted number inner n r)
unfolding finish_accepted
finish_accepted-Answer number inner n window (false, window') e c l v =
    let refused : (accept number.sequence window).0 ≡ false = ap (λ r. r.0) e in
    sym (ap (λ r. r.1) e) ∙ accept-refused number.sequence window refused
finish_accepted-Answer number inner n window (true, window') e c l v =
    let inside = content_end-le inner (length inner) in
    record {
      numbered = refl;
      valid = v;
      accepted = e;
      behind = n;
      content = refl;
      typed = refl;
      padded = λ i above below. content_end-zeros inner (length inner) i (omega arith) below;
      fits = omega arith;
    }

finish_at-Answer :
    (m : ℕ) (number : RecordNumber) (inner : Bytes) (window : ReplayWindow)
    → content_end inner (length inner) ≡ m
    → length inner ≤ max_content + 1
    → Answer (Finished number inner window) window (finish_at m number inner window)
unfolding finish_at
finish_at-Answer zero number inner window c l = refl
finish_at-Answer (suc n) number inner window c l =
    elim (Bool-cases (valid_content_type (get_or inner n 0))) [
      | inr e ↦ rw e refl
      | inl e ↦ rw e (finish_accepted-Answer number inner n window _ refl c l e)
    ]

finish_record-Answer :
    (number : RecordNumber) (inner : Bytes) (window : ReplayWindow)
    → Answer (Finished number inner window) window (finish_record number inner window)
unfolding finish_record
finish_record-Answer number inner window =
    elim (Bool-cases (ltb (max_content + 1) (length inner))) [
      | inl e ↦ rw e refl
      | inr e ↦
          rw e (
            finish_at-Answer _ number inner window refl (ltb→le (max_content + 1) (length inner) e))
    ]

-- the header with the mask taken off the bytes of the sequence number
abbrev pub bare_header : DtlsRecord → Bytes → Bytes
bare_header r m = xor_at r.seq_offset r.seq_len r.header m

abbrev pub full_sequence : DtlsRecord → Bytes → ReplayWindow → ℕ
full_sequence r m window =
    reconstruct_sequence
      (big_endian 0 (slice (bare_header r m) r.seq_offset (r.seq_offset + r.seq_len))) r.seq_len
      (next window)

-- The record `r` is encrypted and of the epoch; its header with the mask taken off the sequence
-- number, and the number reconstructed from that, are what it was authenticated under, and it was
-- taken.
pub record Decoded (k : TrafficKeys) (r : DtlsRecord) (epoch : ℕ) (window window' : ReplayWindow)
    (answer : RecordNumber × ℕ × Bytes) : Type 0 where
  pub encrypted : r.encrypted ≡ true
  pub epoch_bits : r.number.epoch ≡ bit_and epoch 3
  pub mask_bytes : Bytes
  pub masked : mask k r.body ≡ ok mask_bytes
  pub inner : Bytes
  pub opened :
      open_sealed k (bare_header r mask_bytes) (full_sequence r mask_bytes window) r.body ≡ ok inner
  pub finished :
      Finished
        (record { epoch = epoch; sequence = full_sequence r mask_bytes window })
        inner
        window
        window'
        answer

Answer-opened :
    (k : TrafficKeys) (r : DtlsRecord) (epoch : ℕ) (window : ReplayWindow) (m : Bytes)
    (opened : Result Bytes)
    → r.encrypted ≡ true
    → r.number.epoch ≡ bit_and epoch 3
    → mask k r.body ≡ ok m
    → open_sealed k (bare_header r m) (full_sequence r m window) r.body ≡ opened
    → Answer (Decoded k r epoch window) window (
        decode_opened opened (record { epoch = epoch; sequence = full_sequence r m window }) window)
unfolding decode_opened
Answer-opened k r epoch window m (err e) enc bits mk h = refl
Answer-opened k r epoch window m (ok inner) enc bits mk h =
    let number : RecordNumber = record { epoch = epoch; sequence = full_sequence r m window } in
    widen (finish_record number inner window) (finish_record-Answer number inner window)
  where
    widen :
        (a : Result (RecordNumber × ℕ × Bytes) × ReplayWindow)
        → Answer
            (Finished (record { epoch = epoch; sequence = full_sequence r m window }) inner window)
            window
            a
        → Answer (Decoded k r epoch window) window a
    widen (err e, w) f = f
    widen (ok answer, w) f = record {
      encrypted = enc;
      epoch_bits = bits;
      mask_bytes = m;
      masked = mk;
      inner = inner;
      opened = h;
      finished = f;
    }

Answer-masked :
    (k : TrafficKeys) (r : DtlsRecord) (epoch : ℕ) (window : ReplayWindow) (masked : Result Bytes)
    → r.encrypted ≡ true
    → r.number.epoch ≡ bit_and epoch 3
    → mask k r.body ≡ masked
    → Answer (Decoded k r epoch window) window (decode_masked masked k r epoch window)
unfolding decode_masked
Answer-masked k r epoch window (err e) enc bits mk = refl
Answer-masked k r epoch window (ok m) enc bits mk = elim (Bool-cases (ltb 260 (length r.header))) [
  | inl e ↦ rw e refl
  | inr e ↦ rw e (Answer-opened k r epoch window m _ enc bits mk refl)
]

-- An error of decodeRecord leaves the replay window as it was. A record that it takes is encrypted
-- and of the low bits of the epoch; it was authenticated under its header without the mask and the
-- number reconstructed from it, which is the number answered and new to the window; its type is
-- valid and stands behind its content, only zeros follow, and the content fits a record.
pub decode_record-Answer :
    (k : TrafficKeys) (r : DtlsRecord) (epoch : ℕ) (cid : Bytes) (window : ReplayWindow)
    → Answer (Decoded k r epoch window) window (decode_record k r epoch cid window)
unfolding decode_record
decode_record-Answer k r epoch cid window =
    let refused =
      not r.encrypted
      || (not (r.number.epoch == bit_and epoch 3)
          || (not (length r.cid == 0) && not (same cid r.cid))) in
    elim (Bool-cases refused) [
      | inl e ↦ rw e refl
      | inr e ↦
          rw e (Answer-masked k r epoch window (mask k r.body) (ground arith) (ground arith) refl)
    ]
