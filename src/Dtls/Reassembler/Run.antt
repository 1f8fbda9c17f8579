-- ===== src/Dtls/Reassembler/Run.antt =====
-- The reassembler of internal/dtls13/fragment.go over any sequence of its operations.
use socat.Prelude.{
  none, ◌≤◌, refl, ◌*◌, [], ◌∷◌, some, Bool, IsByte, arith, All, ℕ, List, Option, Bytes,
}
use socat.Dtls.Reassembler.{Reassembler, add, pop, reset}
use socat.Dtls.Reassembler.Bounds.{IsBounded, buffered-le, pop-IsBounded}
use socat.Dtls.Reassembler.Termination.{add-Ends, Ends}
use socat.Dtls.Fragment.{max_handshake_body}
use socat.Dtls.Budget.{MemoryBudget}
use socat.Dtls.Error.{Result}

-- Fragments of an epoch arrive, a message is taken, or the reassembler is reset.
pub data Operation : Type 0 where
  arrive : Bytes → ℕ → Operation
  take_message restart : Operation

abbrev IsInput : Operation → Type 0
IsInput (arrive bytes epoch) = All IsByte bytes
IsInput take_message = Unit
IsInput restart = Unit

abbrev left_by : Option (Result Bool × Reassembler) → Option Reassembler
left_by none = none
left_by (some (answer, r)) = some r

abbrev pub operate : Operation → Reassembler → Option Reassembler
operate (arrive bytes epoch) r = left_by (add bytes epoch r)
operate take_message r = some (pop r).1
operate restart r = some (reset r)

abbrev and_then : (Reassembler → Option Reassembler) → Option Reassembler → Option Reassembler
and_then f none = none
and_then f (some r) = f r

unfoldable pub operate_all : List Operation → Reassembler → Option Reassembler
operate_all [] r = some r
operate_all (o ∷ os) r = and_then (operate_all os) (operate o r)

abbrev Holds : Option Reassembler → Type 0
Holds none = ⊥
Holds (some r) = IsBounded r

reset-IsBounded : (r : Reassembler) → IsBounded (reset r)
unfolding reset
reset-IsBounded r = record { entries = tt; distinct = tt; buffered_is = refl; future = omega arith }

left_by-Holds : (a : Option (Result Bool × Reassembler)) → Ends a → Holds (left_by a)
left_by-Holds none h = h
left_by-Holds (some (answer, r)) h = h

operate-Holds : (o : Operation) (r : Reassembler) → IsInput o → IsBounded r → Holds (operate o r)
operate-Holds (arrive bytes epoch) r i b =
    left_by-Holds (add bytes epoch r) (add-Ends bytes epoch r i b)
operate-Holds take_message r i b = pop-IsBounded r b
operate-Holds restart r i b = reset-IsBounded r

and_then-Holds :
    (f : Reassembler → Option Reassembler) (a : Option Reassembler)
    → ((r : Reassembler) → IsBounded r → Holds (f r))
    → Holds a
    → Holds (and_then f a)
and_then-Holds f none g h = h
and_then-Holds f (some r) g h = g r h

operate_all-Holds :
    (os : List Operation) (r : Reassembler)
    → All IsInput os
    → IsBounded r
    → Holds (operate_all os r)
unfolding operate_all
operate_all-Holds [] r i b = b
operate_all-Holds (o ∷ os) r i b =
    and_then-Holds (operate_all os) (operate o r) (λ r' b'. operate_all-Holds os r' i.1 b')
      (operate-Holds o r i.0 b)

-- The operations come to an end, with at most this many bytes buffered.
abbrev pub HoldsAtMost : ℕ → Option Reassembler → Type 0
HoldsAtMost n none = ⊥
HoldsAtMost n (some r) = r.buffered ≤ n

abbrev pub fresh_reassembler : Option MemoryBudget → Reassembler
fresh_reassembler budget = record { next = 0; pending = []; buffered = 0; budget = budget }

-- From a reassembler that holds nothing, whatever bytes arrive as fragments, and however messages are
-- taken and the reassembler is reset in between, every operation answers, and at most two
-- megabytes of message bodies are buffered then.
pub operate_all-HoldsAtMost :
    (budget : Option MemoryBudget) (os : List Operation)
    → All IsInput os
    → HoldsAtMost (2 * max_handshake_body) (operate_all os (fresh_reassembler budget))
operate_all-HoldsAtMost budget os i = bound (operate_all os (fresh_reassembler budget)) (
    operate_all-Holds os (fresh_reassembler budget) i
      (record { entries = tt; distinct = tt; buffered_is = refl; future = omega arith }))
  where
    bound : (a : Option Reassembler) → Holds a → HoldsAtMost (2 * max_handshake_body) a
    bound none h = h
    bound (some r) h = buffered-le r h
