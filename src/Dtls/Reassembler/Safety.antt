-- ===== src/Dtls/Reassembler/Safety.antt =====
-- What is delivered is complete and in order, the budget is charged exactly for what is pending,
-- and `add` comes to an end.
use socat.Dtls.Reassembler.Copy.{all_seen}
use socat.Prelude.Bitset.{has_bit}
use socat.Dtls.Reassembler.Cases.{popped, waiting, pop_cases}
use socat.Prelude.Assoc.{AllEntries-lookup, lookup}
use socat.Dtls.Fragment.{HandshakeMessage}
use socat.Prelude.{◌∙◌, ap, sym, true, length, ◌<◌, some, ℕ, ◌≡◌}
use socat.Dtls.Reassembler.{PartialHandshake, Reassembler, body_length, pop}
use socat.Dtls.Reassembler.Bounds.{IsPending, IsBounded}

-- The partial message from which `m` was delivered.
pub record Complete (r : Reassembler) (m : HandshakeMessage) : Type 0 where
  pub partial : PartialHandshake
  pub found : lookup r.next r.pending ≡ some partial
  pub message_is : partial.message ≡ m
  pub in_order : m.sequence ≡ r.next
  pub all_received : (i : ℕ) → i < length m.body → has_bit partial.seen i ≡ true

-- In a well-formed state, the message that pop delivers is the pending one of the next expected
-- number, and every byte of it was received.
pub pop-Complete :
    (r : Reassembler) {m : HandshakeMessage} → IsBounded r → (pop r).0 ≡ some m → Complete r m
pop-Complete r {m} b e = elim (pop_cases r) [
  | waiting w ↦ absurd (cc (e, w))
  | popped p found complete short w ↦
      let same : p.message ≡ m = cc (e, w) in
      let entry = AllEntries-lookup (IsPending r.next) r.pending r.next b.entries found in
      record {
        partial = p;
        found = found;
        message_is = same;
        in_order = sym (ap (λ (x : HandshakeMessage). x.sequence) same) ∙ entry.numbered;
        all_received = λ i lt.
            all_seen p.seen (body_length p) i (sym entry.sound.remaining_is ∙ complete)
              (rw (← same) at lt);
      }
]
