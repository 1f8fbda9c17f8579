-- ===== src/Dtls/Reassembler/Copy.antt =====
-- Bytes of a message that are handed to `mark_bytes` complete a partial copy of it.
use native.Mathlib.Decide.{ℕ_discrete}
use socat.Dtls.Error.{ok, Result}
use socat.Dtls.Fragment.{HandshakeMessage}
use socat.Prelude.{
  eq_of_get_or, inr, ◌∙◌, inl, ◌/◌, Bool-cases, ==_iff, length, get_or, false, true, ℕ, zero, suc,
  ◌+◌, ◌≤◌, ◌<◌, ◌≡◌, refl, arith, Bytes, [], ◌∷◌,
}
use socat.Prelude.Bitset.{has_bit-set_bit_ne, has_bit-set_bit_self, has_bit}
use socat.Dtls.Reassembler.{PartialHandshake, body_length, mark, mark_bytes}
use socat.Dtls.Reassembler.Marks.{IsSound, Agrees, mark-Agrees, mark-IsSound, Matches, unseen}

-- The answer and the state after `bs`, bytes of `m` from `position` on, were stored in `p`.
pub record Copied (m : HandshakeMessage) (p : PartialHandshake) (position count : ℕ)
    (r : Result (Unit {0}) × PartialHandshake) : Type 0 where
  pub answers : r.0 ≡ ok tt
  pub agrees : Agrees m r.1
  pub keeps : (i : ℕ) → i < length m.body → has_bit p.seen i ≡ true → has_bit r.1.seen i ≡ true
  pub covers : (i : ℕ) → position ≤ i → i < position + count → has_bit r.1.seen i ≡ true

module _ (p : PartialHandshake) (position b : ℕ) (bs : Bytes) where
  mark_bytes_repeated :
      has_bit p.seen position ≡ true
      → get_or p.message.body position 0 ≡ b
      → mark_bytes p position (b ∷ bs) ≡ mark_bytes p (position + 1) bs
  unfolding mark_bytes
  mark_bytes_repeated old same = rw old (rw ((==_iff (get_or p.message.body position 0) b).1 same))

  mark_bytes_stored :
      has_bit p.seen position ≡ false
      → mark_bytes p position (b ∷ bs) ≡ mark_bytes (mark p position b) (position + 1) bs
  unfolding mark_bytes
  mark_bytes_stored new = rw new

module _ (m : HandshakeMessage) (p : PartialHandshake) (position b count : ℕ)
    {r : Result (Unit {0}) × PartialHandshake} (within : position < length m.body) where
  Copied-repeated :
      has_bit p.seen position ≡ true
      → Copied m p (position + 1) count r
      → Copied m p position (suc count) r
  Copied-repeated old c = record {
    answers = c.answers;
    agrees = c.agrees;
    keeps = c.keeps;
    covers = λ i lo hi. elim (ℕ_discrete position i) [
      | yes e ↦ rw (← e) (c.keeps position within old)
      | no ne ↦ c.covers i (omega arith) (omega arith)
    ];
  }

  Copied-stored :
      IsSound p
      → body_length p ≡ length m.body
      → Copied m (mark p position b) (position + 1) count r
      → Copied m p position (suc count) r
  Copied-stored s size c =
      let room : position / 8 < length p.seen = omega (arith, s.seen_size) in
      let marked : has_bit r.1.seen position ≡ true =
        c.keeps position within (has_bit-set_bit_self p.seen position room) in
      record {
        answers = c.answers;
        agrees = c.agrees;
        keeps = λ i lt old. elim (ℕ_discrete position i) [
          | yes e ↦ rw (← e) marked
          | no ne ↦ c.keeps i lt (has_bit-set_bit_ne p.seen position i room ne ∙ old)
        ];
        covers = λ i lo hi. elim (ℕ_discrete position i) [
          | yes e ↦ rw (← e) marked
          | no ne ↦ c.covers i (omega arith) (omega arith)
        ];
      }

-- Bytes of `m`, from `position` on, are stored with no conflict, and all of them are marked.
pub mark_bytes-Copied :
    (m : HandshakeMessage) (bs : Bytes) (p : PartialHandshake) (position : ℕ)
    → position + length bs ≤ length m.body
    → Matches m.body position bs
    → IsSound p
    → Agrees m p
    → Copied m p position (length bs) (mark_bytes p position bs)
mark_bytes-Copied m [] p position h same s a =
    unfold mark_bytes in
    record {
      answers = refl;
      agrees = a;
      keeps = λ i lt old. old;
      covers = λ i lo hi. absurd (omega arith);
    }
mark_bytes-Copied m (b ∷ bs) p position h same s a = elim (Bool-cases (has_bit p.seen position)) [
  | inl old ↦
      let e = a.at position (omega arith) old ∙ same.0 in
      rw (mark_bytes_repeated p position b bs old e) (
        Copied-repeated m p position b (length bs) (omega arith) old
          (mark_bytes-Copied m bs p (position + 1) (omega arith) same.1 s a))
  | inr new ↦
      let s' = mark-IsSound p position b (omega (arith, a.size)) new s in
      let a' = mark-Agrees m p position b (omega arith) same.0 s a in
      rw (mark_bytes_stored p position b bs new) (
        Copied-stored m p position b (length bs) (omega arith) s a.size
          (mark_bytes-Copied m bs (mark p position b) (position + 1) (omega arith) same.1 s' a'))
]

pub all_seen : (seen : Bytes) (n i : ℕ) → unseen seen n ≡ 0 → i < n → has_bit seen i ≡ true
unfolding unseen
all_seen seen zero i e h = absurd (omega arith)
all_seen seen (suc n) i e h = elim (ℕ_discrete i n) [
  | yes same ↦ rw same (ground arith)
  | no ne ↦ all_seen seen n i (ground arith) (omega arith)
]

pub none_unseen :
    (seen : Bytes) (n : ℕ) → ((i : ℕ) → i < n → has_bit seen i ≡ true) → unseen seen n ≡ 0
unfolding unseen
none_unseen seen zero h = refl
none_unseen seen (suc n) h =
    rw (h n (omega arith)) (omega (arith, none_unseen seen n (λ i lt. h i (omega arith))))

-- A partial copy with nothing missing is the message.
pub complete_copy :
    (m : HandshakeMessage) (p : PartialHandshake)
    → IsSound p
    → Agrees m p
    → p.remaining ≡ 0
    → p.message ≡ m
complete_copy m p s a e =
    let nothing : unseen p.seen (body_length p) ≡ 0 = omega (arith, s.remaining_is, e) in
    let body : p.message.body ≡ m.body =
      eq_of_get_or p.message.body m.body 0 a.size
        (λ i lt. a.at i (omega (arith, a.size)) (all_seen p.seen (body_length p) i nothing lt)) in
    λ i. record { typ = a.typ i; sequence = a.sequence i; epoch = a.epoch i; body = body i }
