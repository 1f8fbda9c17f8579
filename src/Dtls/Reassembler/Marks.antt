-- ===== src/Dtls/Reassembler/Marks.antt =====
-- What `mark_bytes` does to one partial message: the marks count the missing bytes, and bytes that
-- come from one message are stored where they belong.
use native.Mathlib.Decide.{ℕ_discrete}
use socat.Prelude.{
  ap, length-replicate, replicate, sym, ◌∙◌, ℕ, zero, suc, ◌+◌, ◌/◌, ◌≤◌, ◌<◌, ◌≡◌, refl, arith,
  true, false, Bytes, [], ◌∷◌, length, get_or, length-set, get_or-set_self, get_or-set_ne,
  if◌then◌else◌,
}
use socat.Prelude.Bitset.{
  has_bit-replicate, has_bit, set_bit, length-set_bit, has_bit-set_bit_self, has_bit-set_bit_ne,
}
use socat.Dtls.Fragment.{HandshakeFragment, HandshakeMessage}
use socat.Dtls.Reassembler.{fresh, PartialHandshake, body_length, mark, mark_bytes}

-- How many of the first `n` positions are not marked.
unfoldable pub unseen : Bytes → ℕ → ℕ
unseen seen zero = 0
unseen seen (suc n) = (if has_bit seen n then 0 else 1) + unseen seen n

module _ (seen : Bytes) (i : ℕ) (room : i / 8 < length seen) where
  unseen-set_bit_above : (n : ℕ) → n ≤ i → unseen (set_bit seen i) n ≡ unseen seen n
  unfolding unseen
  unseen-set_bit_above zero h = refl
  unseen-set_bit_above (suc n) h =
      rw (has_bit-set_bit_ne seen i n room (λ e. absurd (omega (arith, e))))
        (omega (arith, unseen-set_bit_above n (omega arith)))

  unseen-set_bit :
      (n : ℕ) → i < n → has_bit seen i ≡ false → unseen (set_bit seen i) n + 1 ≡ unseen seen n
  unfolding unseen
  unseen-set_bit zero h new = absurd (omega arith)
  unseen-set_bit (suc n) h new = elim (ℕ_discrete i n) [
    | yes e ↦ rw (← e) (
        rw (has_bit-set_bit_self seen i room, new)
          (omega (arith, unseen-set_bit_above i (omega arith))))
    | no ne ↦
        rw (has_bit-set_bit_ne seen i n room ne) (omega (arith, unseen-set_bit n (omega arith) new))
  ]

pub record IsSound (p : PartialHandshake) : Type 0 where
  pub seen_size : length p.seen ≡ (body_length p + 7) / 8
  pub remaining_is : p.remaining ≡ unseen p.seen (body_length p)

module _ (p : PartialHandshake) (position b : ℕ) (h : position < body_length p) where
  pub mark-IsSound : has_bit p.seen position ≡ false → IsSound p → IsSound (mark p position b)
  mark-IsSound new s =
      let room : position / 8 < length p.seen = omega (arith, s.seen_size) in
      let sizes = length-set p.message.body position b in
      record {
        seen_size = rw (length-set_bit, sizes) s.seen_size;
        remaining_is = rw sizes (
            omega
              (arith, s.remaining_is, unseen-set_bit p.seen position room (body_length p) h new));
      }

-- What `mark_bytes` leaves alone.
pub record SameHeader (p q : PartialHandshake) : Type 0 where
  pub typ : q.message.typ ≡ p.message.typ
  pub sequence : q.message.sequence ≡ p.message.sequence
  pub epoch : q.message.epoch ≡ p.message.epoch
  pub size : body_length q ≡ body_length p

pub mark_bytes-SameHeader :
    (bs : Bytes) (p : PartialHandshake) (position : ℕ) → SameHeader p (mark_bytes p position bs).1
unfolding mark_bytes
mark_bytes-SameHeader [] p position = ground arith
mark_bytes-SameHeader (b ∷ bs) p position = ground (
  arith,
  mark_bytes-SameHeader bs p (position + 1),
  mark_bytes-SameHeader bs (mark p position b) (position + 1),
  length-set p.message.body position b,
)

-- Whatever the fragment holds, within the message, the count of missing bytes stays right.
pub mark_bytes-IsSound :
    (bs : Bytes) (p : PartialHandshake) (position : ℕ)
    → position + length bs ≤ body_length p
    → IsSound p
    → IsSound (mark_bytes p position bs).1
unfolding mark_bytes
mark_bytes-IsSound [] p position h s = s
mark_bytes-IsSound (b ∷ bs) p position h s = ground (
  arith,
  mark_bytes-IsSound bs p (position + 1),
  mark_bytes-IsSound bs (mark p position b) (position + 1),
  length-set p.message.body position b,
  mark-IsSound p position b (omega arith),
)

-- The bytes `bs` are those of `body` from `position` on.
abbrev pub Matches : Bytes → ℕ → Bytes → Type 0
Matches body position [] = Unit
Matches body position (b ∷ bs) = (get_or body position 0 ≡ b) × Matches body (position + 1) bs

-- `p` is a partial copy of `m`: every byte that is marked is the byte of `m`.
pub record Agrees (m : HandshakeMessage) (p : PartialHandshake) : Type 0 where
  pub typ : p.message.typ ≡ m.typ
  pub sequence : p.message.sequence ≡ m.sequence
  pub epoch : p.message.epoch ≡ m.epoch
  pub size : body_length p ≡ length m.body
  pub at :
      (i : ℕ)
      → i < length m.body
      → has_bit p.seen i ≡ true
      → get_or p.message.body i 0 ≡ get_or m.body i 0

pub mark-Agrees :
    (m : HandshakeMessage) (p : PartialHandshake) (position b : ℕ)
    → position < length m.body
    → get_or m.body position 0 ≡ b
    → IsSound p
    → Agrees m p
    → Agrees m (mark p position b)
mark-Agrees m p position b h e s a = record {
  typ = a.typ;
  sequence = a.sequence;
  epoch = a.epoch;
  size = length-set p.message.body position b ∙ a.size;
  at = λ i lt seen. elim (ℕ_discrete position i) [
    | yes same ↦
        rw (← same) (get_or-set_self p.message.body position b 0 (omega (arith, a.size)) ∙ sym e)
    | no ne ↦
        let room : position / 8 < length p.seen = omega (arith, s.seen_size, a.size) in
        get_or-set_ne p.message.body position i b 0 ne
        ∙ a.at i lt (sym (has_bit-set_bit_ne p.seen position i room ne) ∙ seen)
  ];
}

unseen-replicate : (k n : ℕ) → unseen (replicate k 0) n ≡ n
unfolding unseen
unseen-replicate k zero = refl
unseen-replicate k (suc n) = rw has_bit-replicate (omega (arith, unseen-replicate k n))

pub fresh-IsSound : (f : HandshakeFragment) (epoch : ℕ) → IsSound (fresh f epoch)
fresh-IsSound f epoch = record {
  seen_size =
      length-replicate ((f.total + 7) / 8) 0
      ∙ ap (λ (t : ℕ). (t + 7) / 8) (sym (length-replicate f.total 0));
  remaining_is = rw length-replicate (sym (unseen-replicate _ f.total));
}
