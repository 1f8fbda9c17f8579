-- ===== src/Dtls/Reassembler/Bounds.antt =====
-- The invariant of the reassembler, which bounds what a peer can make it hold.
use socat.Dtls.Reassembler.Cases.{
  allocated, popped, stored, waiting, unchanged, pop_cases, insert_cases, fill_cases,
}
use socat.Dtls.Budget.{MemoryBudget}
use socat.Prelude.Assoc.{
  remove-Distinct, remove-AllEntries, remove, AllEntries-map, total-remove, AllEntries-lookup,
  lookup-put, total-put, put-Distinct, put-AllEntries, measure, put, total, Distinct, AllEntries,
  lookup,
}
use socat.Dtls.Fragment.{HandshakeFragment, max_handshake_body}
use socat.Prelude.{
  Option-cases, ◌*◌, ap, ◌∙◌, ◌%◌, inr, ◌-◌, length-replicate, inl, ◌⊎◌, none, Option, some, length,
  ℕ, ◌+◌, ◌≤◌, ◌≡◌, refl, arith,
}
use socat.Dtls.Reassembler.{
  fresh, admit, future_bytes, delivered, PartialHandshake, Reassembler, body_length, mark_bytes,
  insert, fill, pop,
}
use socat.Dtls.Reassembler.Marks.{fresh-IsSound, IsSound, mark_bytes-IsSound, mark_bytes-SameHeader}

-- What holds of each pending message: its key is its sequence number, not yet delivered.
pub record IsPending (next k : ℕ) (p : PartialHandshake) : Type 0 where
  pub not_before : next ≤ k
  pub is_uint16 : k ≤ 65535
  pub numbered : p.message.sequence ≡ k
  pub size : body_length p ≤ max_handshake_body
  pub sound : IsSound p

pub record IsBounded (r : Reassembler) : Type 0 where
  pub entries : AllEntries (IsPending r.next) r.pending
  pub distinct : Distinct r.pending
  pub buffered_is : r.buffered ≡ total body_length r.pending
  pub future : r.buffered ≤ max_handshake_body + measure body_length (lookup r.next r.pending)

-- A parsed fragment lies within the message that it claims to be of.
pub record IsFragment (f : HandshakeFragment) : Type 0 where
  pub is_uint16 : f.sequence ≤ 65535
  pub within : f.offset + length f.body ≤ f.total

module _ (r : Reassembler) (k : ℕ) (p q : PartialHandshake)
    (found : lookup k r.pending ≡ some p) where
  -- Replacing a pending message by one of the same length.
  replace-IsBounded :
      IsBounded r
      → body_length q ≡ body_length p
      → IsPending r.next k q
      → IsBounded (record r { pending = put k q r.pending })
  replace-IsBounded b size fits = record {
    entries = put-AllEntries (IsPending r.next) k q r.pending fits b.entries;
    distinct = put-Distinct k q r.pending b.distinct;
    buffered_is = ground (arith, b.buffered_is, total-put body_length k q r.pending);
    future = ground (arith, b.future, lookup-put k r.next q r.pending, found);
  }

fill-IsBounded :
    (r : Reassembler) (p : PartialHandshake) (f : HandshakeFragment) (epoch : ℕ)
    → IsFragment f
    → lookup f.sequence r.pending ≡ some p
    → IsBounded r
    → IsBounded (fill p f epoch r).1
fill-IsBounded r p f epoch w found b = elim (fill_cases p f epoch r) [
  | inl refused ↦ rw refused b
  | inr (size, e) ↦
      let entry = AllEntries-lookup (IsPending r.next) r.pending f.sequence b.entries found in
      let same = mark_bytes-SameHeader f.body p f.offset in
      rw e (
        replace-IsBounded r f.sequence p (mark_bytes p f.offset f.body).1 found b same.size
          (record {
            not_before = entry.not_before;
            is_uint16 = entry.is_uint16;
            numbered = same.sequence ∙ entry.numbered;
            size = omega (arith, same.size, entry.size);
            sound =
                mark_bytes-IsSound f.body p f.offset (omega (arith, w.within, size)) entry.sound;
          }))
]

future_bytes_lem :
    (r : Reassembler)
    → r.next ≤ 65535
    → future_bytes r ≡ r.buffered - measure body_length (lookup r.next r.pending)
unfolding future_bytes
future_bytes_lem r h =
    let e : r.next % 65536 ≡ r.next = omega arith in
    ground (arith, ap (λ (k : ℕ). lookup k r.pending) e)

admit-IsBounded :
    (r : Reassembler) (f : HandshakeFragment) (epoch : ℕ) (budget : Option MemoryBudget)
    → f.sequence ≤ 65535
    → r.next ≤ f.sequence
    → f.total ≤ max_handshake_body
    → lookup f.sequence r.pending ≡ none
    → (f.sequence ≡ r.next) ⊎ (future_bytes r + f.total ≤ max_handshake_body)
    → IsBounded r
    → IsBounded (admit f epoch r budget)
admit-IsBounded r f epoch budget short after small missing room b =
    let size = length-replicate {A = ℕ} f.total 0 in
    let added = total-put body_length f.sequence (fresh f epoch) r.pending in
    record {
      entries =
          put-AllEntries (IsPending r.next) f.sequence (fresh f epoch) r.pending
            (record {
              not_before = after;
              is_uint16 = short;
              numbered = refl;
              size = omega (arith, size);
              sound = fresh-IsSound f epoch;
            })
            b.entries;
      distinct = put-Distinct f.sequence (fresh f epoch) r.pending b.distinct;
      buffered_is = ground (arith, added, missing, size, b.buffered_is);
      future = ground (
        arith,
        lookup-put f.sequence r.next (fresh f epoch) r.pending,
        future_bytes_lem r,
        size,
        missing,
        b.future,
      );
    }

delivered-IsBounded :
    (r : Reassembler) (p : PartialHandshake)
    → lookup r.next r.pending ≡ some p
    → IsBounded r
    → IsBounded (delivered p r)
delivered-IsBounded r p found b =
    let left = total-remove body_length r.next r.pending b.distinct in
    record {
      entries =
          AllEntries-map _ (IsPending (r.next + 1)) (remove r.next r.pending)
            (λ k q (ne, h). record {
              not_before = omega (arith, ne, h.not_before);
              is_uint16 = h.is_uint16;
              numbered = h.numbered;
              size = h.size;
              sound = h.sound;
            })
            (remove-AllEntries (IsPending r.next) r.next r.pending b.entries);
      distinct = remove-Distinct r.next r.pending b.distinct;
      buffered_is = ground (arith, left, found, b.buffered_is);
      future = ground (arith, b.future, found);
    }

-- `insert` of a fragment that lies within its message keeps the invariant, accepted or not: what is pending is not yet delivered,
-- no message is longer than a megabyte, and all but the next one are no longer than that together.
pub insert-IsBounded :
    (f : HandshakeFragment) (epoch : ℕ) (r : Reassembler)
    → IsFragment f
    → IsBounded r
    → IsBounded (insert f epoch r).1
insert-IsBounded f epoch r w b = elim (insert_cases f epoch r) [
  | unchanged e ↦ rw e b
  | stored p found e ↦ rw e (fill-IsBounded r p f epoch w found b)
  | allocated budget after small missing room reserved e ↦
      let r' = admit f epoch r budget in
      rw e (
        fill-IsBounded r' (fresh f epoch) f epoch w
          (ground (arith, lookup-put f.sequence f.sequence (fresh f epoch) r.pending))
          (admit-IsBounded r f epoch budget w.is_uint16 after small missing room b))
]

-- `pop` keeps the invariant.
pub pop-IsBounded : (r : Reassembler) → IsBounded r → IsBounded (pop r).1
pop-IsBounded r b = elim (pop_cases r) [
  | waiting e ↦ rw e b
  | popped p found complete short e ↦ rw e (delivered-IsBounded r p found b)
]

-- In a well-formed state at most two megabytes of message bodies are buffered.
pub buffered-le : (r : Reassembler) → IsBounded r → r.buffered ≤ 2 * max_handshake_body
buffered-le r b = elim (Option-cases (lookup r.next r.pending)) [
  | inl missing ↦ ground (arith, b.future, missing)
  | inr (p, found) ↦
      let entry = AllEntries-lookup (IsPending r.next) r.pending r.next b.entries found in
      ground (arith, b.future, found, entry.size)
]
