-- ===== src/Dtls/Reassembler/Delivery.antt =====
-- Fragments of one message, in any order and however they overlap, are reassembled to the message.
use native.Mathlib.Nat.{add-zero}
use socat.Dtls.Fragment.RoundTrip.{length-slice, fragment_of}
use socat.Dtls.Error.{Result, ok}
use socat.Prelude.Assoc.{lookup-put, put, lookup}
use socat.Dtls.Fragment.{max_handshake_body, HandshakeFragment, HandshakeMessage}
use socat.Prelude.{
  get_or-drop, length-take, get_or-take, ap, ◌/◌, take, ◌∙◌, ◌-◌, sym, length-replicate, slice,
  get_or, Bool, true, some, drop, length, ℕ, suc, ◌+◌, ◌≤◌, ◌<◌, ◌≡◌, refl, arith, Bytes, [], ◌∷◌,
}
use socat.Prelude.Bitset.{has_bit-replicate, has_bit}
use socat.Dtls.Reassembler.{fresh, Reassembler, PartialHandshake, mark_bytes, fill}
use socat.Dtls.Reassembler.Marks.{mark_bytes-IsSound, IsSound, Agrees, Matches}
use socat.Dtls.Reassembler.Copy.{mark_bytes-Copied}

Matches-of_get_or :
    (body cs : Bytes) (o : ℕ)
    → ((k : ℕ) → k < length cs → get_or cs k 0 ≡ get_or body (o + k) 0)
    → Matches body o cs
Matches-of_get_or body [] o h = tt
Matches-of_get_or body (c ∷ cs) o h = (
  rw add-zero at (sym (h 0 (omega arith))),
  Matches-of_get_or body cs (o + 1) (λ k lt.
      h (suc k) (omega arith)
      ∙ ap (λ (t : ℕ). get_or body t 0) (let e : o + suc k ≡ o + 1 + k = omega arith in e)),
)

slice-Matches : (body : Bytes) (o l : ℕ) → Matches body o (slice body o (o + l))
slice-Matches body o l =
    let e : o + l - o ≡ l = omega arith in
    rw e (
      Matches-of_get_or body (take l (drop o body)) o (λ k lt.
        get_or-take l k (drop o body) 0 (omega (arith, length-take l (drop o body)))
        ∙ get_or-drop o k body 0))

-- `p` is what the reassembler holds of `m`, its next expected message.
pub record Holding (m : HandshakeMessage) (r : Reassembler) (p : PartialHandshake) : Type 0 where
  pub is_next : r.next ≡ m.sequence
  pub found : lookup m.sequence r.pending ≡ some p
  pub sound : IsSound p
  pub agrees : Agrees m p

fill_answer :
    (p : PartialHandshake) (f : HandshakeFragment) (epoch : ℕ) (r : Reassembler)
    → p.message.typ ≡ f.typ
    → p.message.epoch ≡ epoch
    → length p.message.body ≡ f.total
    → (mark_bytes p f.offset f.body).0 ≡ ok tt
    → fill p f epoch r
      ≡ (ok true, record r { pending = put f.sequence (mark_bytes p f.offset f.body).1 r.pending })
unfolding fill
fill_answer p f epoch r e₁ e₂ e₃ e₄ = ground arith

module _ (m : HandshakeMessage) (small : length m.body ≤ max_handshake_body) where
  -- One fragment of `m`, stored in the partial copy `p` of it.
  pub record Stored (p : PartialHandshake) (o l : ℕ) (answer : Result Bool × Reassembler)
      : Type 0 where
    pub copy : PartialHandshake
    pub accepted : answer.0 ≡ ok true
    pub holding : Holding m answer.1 copy
    pub keeps : (i : ℕ) → i < length m.body → has_bit p.seen i ≡ true → has_bit copy.seen i ≡ true
    pub covers : (i : ℕ) → o ≤ i → i < o + l → has_bit copy.seen i ≡ true

  pub fill-Stored :
      (r : Reassembler) (p : PartialHandshake) (o l : ℕ)
      → o + l ≤ length m.body
      → r.next ≡ m.sequence
      → IsSound p
      → Agrees m p
      → Stored p o l (fill p (fragment_of m o l) m.epoch r)
  fill-Stored r p o l h next s a =
      let bytes = slice m.body o (o + l) in
      let size = length-slice m.body o l (omega arith) (omega arith) in
      let c = mark_bytes-Copied m bytes p o (omega arith) (slice-Matches m.body o l) s a in
      let p' = (mark_bytes p o bytes).1 in
      rw (fill_answer p (fragment_of m o l) m.epoch r a.typ a.epoch a.size c.answers) (record {
        copy = p';
        accepted = refl;
        holding = record {
          is_next = next;
          found = ground (arith, lookup-put m.sequence m.sequence p' r.pending);
          sound = mark_bytes-IsSound bytes p o (omega (arith, a.size)) s;
          agrees = c.agrees;
        };
        keeps = c.keeps;
        covers = λ i lo hi. c.covers i lo (omega arith);
      })

module _ (m : HandshakeMessage) (o l : ℕ) where
  pub fresh-Agrees : Agrees m (fresh (fragment_of m o l) m.epoch)
  fresh-Agrees = record {
    typ = refl;
    sequence = refl;
    epoch = refl;
    size = length-replicate (length m.body) 0;
    at = λ i lt seen. cc (seen, has_bit-replicate ((length m.body + 7) / 8) i);
  }
