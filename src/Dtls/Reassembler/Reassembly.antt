-- ===== src/Dtls/Reassembler/Reassembly.antt =====
-- The whole way from fragments to the message: `insert` at the next expected message, then `pop`.
use socat.Dtls.Reassembler.Marks.{fresh-IsSound}
use socat.Dtls.Reassembler.Copy.{complete_copy, none_unseen}
use socat.Dtls.Error.{err, ok, Result}
use socat.Prelude.Assoc.{lookup}
use socat.Dtls.Budget.{reserve, MemoryBudget}
use socat.Dtls.Fragment.RoundTrip.{fragment_of}
use socat.Dtls.Fragment.{max_handshake_body, HandshakeMessage}
use socat.Prelude.{
  false, inr, inl, ◌∙◌, none, some, ◌&&◌, true, Option, Bool, length, ◌⊎◌, List, ℕ, ◌+◌, ◌≤◌, ◌<◌,
  ◌≡◌, refl, arith, [], ◌∷◌,
}
use socat.Prelude.Bitset.{has_bit}
use socat.Dtls.Reassembler.{
  admit, fresh, fragment_cost, Reassembler, PartialHandshake, body_length, insert, insert_new, fill,
  pop,
}
use socat.Dtls.Reassembler.Delivery.{Holding, Stored, fill-Stored, fresh-Agrees}

-- Whether the reassembler may allocate the message that it expects next.
abbrev pub HasRoom : HandshakeMessage → Reassembler → Type 0
HasRoom m r =
    (b : Option MemoryBudget) × (reserve (fragment_cost (length m.body)) r.budget ≡ some b)

module _ (m : HandshakeMessage) (small : length m.body ≤ max_handshake_body) (r : Reassembler)
    (o l : ℕ) where
  insert_known :
      (p : PartialHandshake)
      → r.next ≡ m.sequence
      → lookup m.sequence r.pending ≡ some p
      → insert (fragment_of m o l) m.epoch r ≡ fill p (fragment_of m o l) m.epoch r
  unfolding insert
  insert_known p next found = ground arith

  insert_first :
      (b : Option MemoryBudget)
      → r.next ≡ m.sequence
      → lookup m.sequence r.pending ≡ none
      → reserve (fragment_cost (length m.body)) r.budget ≡ some b
      → insert (fragment_of m o l) m.epoch r
        ≡ fill
            (fresh (fragment_of m o l) m.epoch)
            (fragment_of m o l)
            m.epoch
            (admit (fragment_of m o l) m.epoch r b)
  unfolding insert insert_new
  insert_first b next missing room = ground arith

-- Offset and length of each fragment, in the order in which they arrive.
abbrev pub Ranges : Type 0
Ranges = List (ℕ × ℕ)

-- Every range lies within the message.
abbrev pub Within : HandshakeMessage → Ranges → Type 0
Within m [] = Unit
Within m ((o, l) ∷ rs) = (o + l ≤ length m.body) × Within m rs

-- Some range holds position `i`.
abbrev pub Covers : Ranges → ℕ → Type 0
Covers [] i = ⊥
Covers ((o, l) ∷ rs) i = ((o ≤ i) × (i < o + l)) ⊎ Covers rs i

abbrev pub is_accepted : Result Bool → Bool
is_accepted (ok b) = b
is_accepted (err e) = false

-- The fragments of `m` at the ranges are inserted one after the other; the answers are conjoined.
unfoldable pub insert_ranges : HandshakeMessage → Ranges → Bool → Reassembler → Bool × Reassembler
insert_ranges m [] good r = (good, r)
insert_ranges m ((o, l) ∷ rs) good r =
    let (answer, r') = insert (fragment_of m o l) m.epoch r in
    insert_ranges m rs (good && is_accepted answer) r'

-- All later ranges were stored too: `r` holds a copy in which their positions are marked.
record Gathered (m : HandshakeMessage) (rs : Ranges) (p : PartialHandshake)
    (done : Bool × Reassembler) : Type 0 where
  copy : PartialHandshake
  good : done.0 ≡ true
  holding : Holding m done.1 copy
  keeps : (i : ℕ) → i < length m.body → has_bit p.seen i ≡ true → has_bit copy.seen i ≡ true
  covers : (i : ℕ) → i < length m.body → Covers rs i → has_bit copy.seen i ≡ true

module _ (m : HandshakeMessage) (small : length m.body ≤ max_handshake_body) where
  -- one step: the answer and the rest of the ranges after it
  insert_ranges_step :
      (o l : ℕ) (rs : Ranges) (r : Reassembler) (x : Result Bool × Reassembler)
      → insert (fragment_of m o l) m.epoch r ≡ x
      → x.0 ≡ ok true
      → insert_ranges m ((o, l) ∷ rs) true r ≡ insert_ranges m rs true x.1
  unfolding insert_ranges
  insert_ranges_step o l rs r x e good = rw e (rw good)

  Gathered-more :
      (o l : ℕ) (rs : Ranges) (p : PartialHandshake) (answer : Result Bool × Reassembler)
      (done : Bool × Reassembler) (s : Stored m small p o l answer)
      → Gathered m rs s.copy done
      → Gathered m ((o, l) ∷ rs) p done
  Gathered-more o l rs p answer done s g = record {
    copy = g.copy;
    good = g.good;
    holding = g.holding;
    keeps = λ i lt old. g.keeps i lt (s.keeps i lt old);
    covers = λ i lt here. elim here [
      | inl (lo, hi) ↦ g.keeps i lt (s.covers i lo hi)
      | inr later ↦ g.covers i lt later
    ];
  }

  insert_ranges-Gathered :
      (rs : Ranges) (r : Reassembler) (p : PartialHandshake)
      → Within m rs
      → Holding m r p
      → Gathered m rs p (insert_ranges m rs true r)
  insert_ranges-Gathered [] r p w h =
      unfold insert_ranges in
      record {
        copy = p;
        good = refl;
        holding = h;
        keeps = λ i lt old. old;
        covers = λ i lt here. absurd here;
      }
  insert_ranges-Gathered ((o, l) ∷ rs) r p w h =
      let s = fill-Stored m small r p o l w.0 h.is_next h.sound h.agrees in
      let step =
        insert_ranges_step o l rs r _ (insert_known m small r o l p h.is_next h.found) s.accepted in
      rw step (Gathered-more o l rs p _ _ s (insert_ranges-Gathered rs _ s.copy w.1 s.holding))

pop_complete :
    (m : HandshakeMessage) (r : Reassembler) (p : PartialHandshake)
    → m.sequence ≤ 65535
    → Holding m r p
    → ((i : ℕ) → i < length m.body → has_bit p.seen i ≡ true)
    → ((pop r).0 ≡ some m) × ((pop r).1.next ≡ m.sequence + 1)
unfolding pop
pop_complete m r p h held all =
    let none_left : p.remaining ≡ 0 =
      held.sound.remaining_is
      ∙ none_unseen p.seen (body_length p) (λ i lt. all i (omega (arith, held.agrees.size))) in
    let whole = complete_copy m p held.sound held.agrees none_left in
    ground (arith, held.is_next, held.found)

-- Fragments of `m` that together cover its body, in any order, overlapping or repeated, are all
-- accepted, and then the message is delivered as it was sent, and the next one is expected. `m` is
-- the message that the reassembler expects, nothing of it is there yet, and the budget has room.
pub reassembly :
    (m : HandshakeMessage) (r : Reassembler) (o l : ℕ) (rs : Ranges)
    → length m.body ≤ max_handshake_body
    → m.sequence ≤ 65535
    → r.next ≡ m.sequence
    → lookup m.sequence r.pending ≡ none
    → HasRoom m r
    → Within m ((o, l) ∷ rs)
    → ((i : ℕ) → i < length m.body → Covers ((o, l) ∷ rs) i)
    → ((insert_ranges m ((o, l) ∷ rs) true r).0 ≡ true)
      × ((pop (insert_ranges m ((o, l) ∷ rs) true r).1).0 ≡ some m)
      × ((pop (insert_ranges m ((o, l) ∷ rs) true r).1).1.next ≡ m.sequence + 1)
reassembly m r o l rs small seq next missing (b, room) w all =
    let s =
      fill-Stored m small (admit (fragment_of m o l) m.epoch r b)
        (fresh (fragment_of m o l) m.epoch) o l w.0 next (fresh-IsSound (fragment_of m o l) m.epoch)
        (fresh-Agrees m o l) in
    let step =
      insert_ranges_step m small o l rs r _ (insert_first m small r o l b next missing room)
        s.accepted in
    let g =
      Gathered-more m small o l rs _ _ _ s
        (insert_ranges-Gathered m small rs _ s.copy w.1 s.holding) in
    let popped = pop_complete m _ g.copy seq g.holding (λ i lt. g.covers i lt (all i lt)) in
    rw step (g.good, popped.0, popped.1)
