-- ===== src/Dtls/Reassembler.antt =====
-- internal/dtls13/fragment.go: the reassembler of handshake messages. `pending` is keyed by the
-- message sequence number. The lengths of Go's `int` and the marks of one message are natural
-- numbers.
pub mod Marks
pub mod Accounts
pub mod Termination
pub mod Run
pub mod Safety
pub mod Cases
pub mod Bounds
pub mod Copy
pub mod Delivery
pub mod Reassembly
use socat.Prelude.{
  ℕ, zero, suc, ◌+◌, ◌-◌, ◌/◌, ◌%◌, Bool, true, false, not, ◌&&◌, ◌||◌, Option, none, some, List,
  [], ◌∷◌, Bytes, length, get_or, set, replicate, ltb, ◌==◌, if◌then◌else◌,
}
use socat.Prelude.Assoc.{lookup, put, remove}
use socat.Prelude.Bitset.{has_bit, set_bit}
use socat.Dtls.Error.{decode, handshake_limit, fragment_conflict, Result, ok, err}
use socat.Dtls.Budget.{MemoryBudget, reserve, release}
use socat.Dtls.Fragment.{
  HandshakeMessage, HandshakeFragment, max_handshake_body, max_pending_messages, parse_fragment,
}

pub record PartialHandshake : Type 0 where
  pub message : HandshakeMessage
  pub seen : Bytes
  pub remaining : ℕ

pub record Reassembler : Type 0 where
  pub next : ℕ
  pub pending : List (ℕ × PartialHandshake)
  pub buffered : ℕ
  pub budget : Option MemoryBudget

unfoldable pub fragment_cost : ℕ → ℕ
fragment_cost size = size + (size + 7) / 8 + 128

abbrev pub body_length : PartialHandshake → ℕ
body_length p = length p.message.body

-- `p.seen[position/8] |= mask; p.message.body[position] = b; p.remaining--`
abbrev pub mark : PartialHandshake → ℕ → ℕ → PartialHandshake
mark p position b = record {
  message = record (p.message) { body = set p.message.body position b };
  seen = set_bit p.seen position;
  remaining = p.remaining - 1;
}

-- The loop over the bytes of a fragment. A conflict keeps the bytes that were stored before it.
unfoldable pub mark_bytes : PartialHandshake → ℕ → Bytes → Result (Unit {0}) × PartialHandshake
mark_bytes p position [] = (ok tt, p)
mark_bytes p position (b ∷ bs) =
    let repeated = mark_bytes p (position + 1) bs in
    let stored = mark_bytes (mark p position b) (position + 1) bs in
    if has_bit p.seen position
    then (if get_or p.message.body position 0 == b then repeated else (err fragment_conflict, p))
    else stored

abbrev accepted : Result (Unit {0}) → Result Bool
accepted (ok _) = ok true
accepted (err e) = err e

-- from the comparison of the fragment with its partial message on
unfoldable pub fill :
    PartialHandshake → HandshakeFragment → ℕ → Reassembler → Result Bool × Reassembler
fill p f epoch r =
    if not (p.message.typ == f.typ)
      || (not (p.message.epoch == epoch) || not (length p.message.body == f.total))
    then (err fragment_conflict, r)
    else let (answer, p') = mark_bytes p f.offset f.body in
      (accepted answer, record r { pending = put f.sequence p' r.pending })

-- `&partialHandshake{...}`
abbrev pub fresh : HandshakeFragment → ℕ → PartialHandshake
fresh f epoch = record {
  message = record {
    typ = f.typ;
    sequence = f.sequence;
    epoch = epoch;
    body = replicate f.total 0;
  };
  seen = replicate ((f.total + 7) / 8) 0;
  remaining = f.total;
}

-- what is buffered but for the next expected message
unfoldable pub future_bytes : Reassembler → ℕ
future_bytes r = elim (lookup (r.next % 65536) r.pending) [
  | none ↦ r.buffered
  | some p ↦ r.buffered - body_length p
]

abbrev pub admit : HandshakeFragment → ℕ → Reassembler → Option MemoryBudget → Reassembler
admit f epoch r budget = record r {
  pending = put f.sequence (fresh f epoch) r.pending;
  buffered = r.buffered + f.total;
  budget = budget;
}

unfoldable pub insert_new : HandshakeFragment → ℕ → Reassembler → Result Bool × Reassembler
unfolding fill
insert_new f epoch r =
    if not (f.sequence == r.next) && ltb max_handshake_body (future_bytes r + f.total)
    then (ok false, r)
    else elim (reserve (fragment_cost f.total) r.budget) [
      | none ↦ (ok false, r)
      | some budget ↦ fill (fresh f epoch) f epoch (admit f epoch r budget)
    ]

unfoldable pub insert : HandshakeFragment → ℕ → Reassembler → Result Bool × Reassembler
insert f epoch r =
    if ltb f.sequence r.next
    then (ok true, r)
    else if not (ltb (f.sequence - r.next) max_pending_messages)
    then (ok false, r)
    else if ltb max_handshake_body f.total
    then (err handshake_limit, r)
    else elim (lookup f.sequence r.pending) [
      | none ↦ insert_new f epoch r
      | some p ↦ fill p f epoch r
    ]

-- The loop of `add`; `none` is no Go value, the fuel ran out.
unfoldable pub add_loop : ℕ → Bytes → ℕ → Bool → Reassembler → Option (Result Bool × Reassembler)
add_loop fuel [] epoch accepted_all r = some (ok accepted_all, r)
add_loop zero (b ∷ bs) epoch accepted_all r = none
add_loop (suc fuel) (b ∷ bs) epoch accepted_all r = elim (parse_fragment (b ∷ bs)) [
  | err e ↦ some (err e, r)
  | ok (f, rest) ↦
      let (answer, r') = insert f epoch r in
      elim answer [
        | err e ↦ some (err e, r')
        | ok done ↦ add_loop fuel rest epoch (accepted_all && done) r'
      ]
]

-- Each round takes at least the twelve bytes of a header, so the length of the input is enough.
unfoldable pub add : Bytes → ℕ → Reassembler → Option (Result Bool × Reassembler)
unfolding add_loop
add [] epoch r = some (err decode, r)
add (b ∷ bs) epoch r = add_loop (length (b ∷ bs)) (b ∷ bs) epoch true r

-- `delete(r.pending, ...)` and what follows it
abbrev pub delivered : PartialHandshake → Reassembler → Reassembler
delivered p r = record {
  next = r.next + 1;
  pending = remove r.next r.pending;
  buffered = r.buffered - body_length p;
  budget = release (fragment_cost (body_length p)) r.budget;
}

unfoldable pub pop : Reassembler → Option HandshakeMessage × Reassembler
pop r = if ltb 65535 r.next then (none, r) else elim (lookup r.next r.pending) [
  | none ↦ (none, r)
  | some p ↦ if p.remaining == 0 then (some p.message, delivered p r) else (none, r)
]

-- the first position from `n` on that is not marked, among the next `left` positions
prefix_from : Bytes → ℕ → ℕ → ℕ
prefix_from seen n zero = n
prefix_from seen n (suc left) =
    let further = prefix_from seen (n + 1) left in if has_bit seen n then further else n

unfoldable pub prefix_length : PartialHandshake → ℕ
unfolding prefix_from
prefix_length p = prefix_from p.seen 0 (body_length p)

unfoldable pub disrupted : Reassembler → Bool
unfolding prefix_length
disrupted r =
    if ltb 1 (length r.pending)
    then true
    else if length r.pending == 0
    then false
    else elim (lookup (r.next % 65536) r.pending) [
      | none ↦ true
      | some p ↦ ltb (prefix_length p) (body_length p - p.remaining)
    ]

pub release_all : List (ℕ × PartialHandshake) → Option MemoryBudget → Option MemoryBudget
release_all [] budget = budget
release_all ((k, p) ∷ m) budget = release_all m (release (fragment_cost (body_length p)) budget)

unfoldable pub reset : Reassembler → Reassembler
unfolding release_all
reset r = record r { pending = []; buffered = 0; budget = release_all r.pending r.budget }
