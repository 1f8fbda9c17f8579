-- ===== src/Tests.antt =====
-- The theorems at concrete inputs.
pub mod Relay
pub mod Sizes
pub mod Parsing
pub mod Configuration
pub mod Paths
pub mod Discovery
use socat.Dtls.Reassembler.Run.{
  operate_all-HoldsAtMost, HoldsAtMost, operate_all, fresh_reassembler, Operation, arrive,
  take_message, restart,
}
use socat.Dtls.Replay.Marks.{Tracks-start}
use socat.Dtls.Replay.Reconstruct.{reconstruct_sequence-mod}
use socat.Dtls.Error.{ok}
use socat.Dtls.Record.Split.{parse_record-Parsed, Parsed}
use socat.Dtls.Record.{plain_record, parse_plain, parse_record}
use socat.Dtls.Replay.{accept, reconstruct_sequence}
use socat.Dtls.Replay.Window.{accept-Verdict, no_replay, run, Verdict, NoRepeat}
use socat.Dtls.Fragment.RoundTrip.{
  parse_fragment-wire, parse_fragment-fragment, parse_fragment-inv, wire, fragment_of, FitsWire,
}
use socat.Dtls.Reassembler.Termination.{add-Ends, Ends}
use socat.Dtls.Reassembler.Safety.{pop-Complete, Complete}
use socat.Dtls.Reassembler.Accounts.{reset-Balanced, pop-Balanced, insert-Balanced, Balanced}
use socat.Dtls.Reassembler.Reassembly.{reassembly, HasRoom, Covers, insert_ranges}
use socat.Dtls.Budget.{reserve}
use socat.Dtls.Reassembler.Bounds.{
  buffered-le, pop-IsBounded, insert-IsBounded, IsFragment, IsBounded,
}
use socat.Dtls.Fragment.{parse_fragment, max_handshake_body, fragment, HandshakeMessage}
use socat.Dtls.Reassembler.{add, reset, pop, insert, fragment_cost, Reassembler}
use socat.Prelude.{
  none, List, zero, suc, ◌+◌, inl, refl, ◌^◌, ◌++◌, true, inr, some, ◌%◌, IsByte, ◌*◌, arith, ◌∷◌,
  [], ◌≡◌, All, Bytes, ◌≤◌, ◌<◌, ℕ,
}

abbrev empty_reassembler : Reassembler
empty_reassembler = record {
  next = 0;
  pending = [];
  buffered = 0;
  budget = some (record { used = 0; limit = 5000 });
}

abbrev hello : HandshakeMessage
hello = record { typ = 1; sequence = 0; epoch = 0; body = 7 ∷ 8 ∷ 9 ∷ [] }

empty-IsBounded : IsBounded empty_reassembler
empty-IsBounded = record { entries = tt; distinct = tt; buffered_is = refl; future = omega arith }

hello-IsFragment : IsFragment (fragment_of hello 0 3)
hello-IsFragment = record { is_uint16 = omega arith; within = omega arith }

room : HasRoom hello empty_reassembler
unfolding reserve fragment_cost
room = (some (record { used = 132; limit = 5000 }), refl)

two_ranges : (i : ℕ) → i < 3 → Covers ((1, 2) ∷ (0, 2) ∷ []) i
two_ranges zero h = inr (inl (omega arith, omega arith))
two_ranges (suc i) h = inl (omega arith, omega arith)

reassembly_example :
    ((insert_ranges hello ((1, 2) ∷ (0, 2) ∷ []) true empty_reassembler).0 ≡ true)
    × ((pop (insert_ranges hello ((1, 2) ∷ (0, 2) ∷ []) true empty_reassembler).1).0 ≡ some hello)
    × ((pop (insert_ranges hello ((1, 2) ∷ (0, 2) ∷ []) true empty_reassembler).1).1.next ≡ 0 + 1)
reassembly_example =
    reassembly hello empty_reassembler 1 2 ((0, 2) ∷ []) (omega arith) (omega arith) refl refl room
      (omega arith, (omega arith, tt)) two_ranges

abbrev with_hello : Reassembler
with_hello = (insert (fragment_of hello 0 3) 0 empty_reassembler).1

with_hello-IsBounded : IsBounded with_hello
with_hello-IsBounded =
    insert-IsBounded (fragment_of hello 0 3) 0 empty_reassembler hello-IsFragment empty-IsBounded

with_hello-Balanced : Balanced 0 with_hello
with_hello-Balanced = insert-Balanced 0 (fragment_of hello 0 3) 0 empty_reassembler refl

hello_popped : (pop with_hello).0 ≡ some hello
unfolding insert_ranges
hello_popped =
    (reassembly hello empty_reassembler 0 3 [] (omega arith) (omega arith) refl refl room
      (omega arith, tt) (λ i h. inl (omega arith, omega arith))).1

pop-Complete_example : Complete with_hello hello
pop-Complete_example = pop-Complete with_hello with_hello-IsBounded hello_popped

insert-IsBounded_example : IsBounded (insert (fragment_of hello 0 3) 0 empty_reassembler).1
insert-IsBounded_example =
    insert-IsBounded (fragment_of hello 0 3) 0 empty_reassembler hello-IsFragment empty-IsBounded

pop-IsBounded_example : IsBounded (pop with_hello).1
pop-IsBounded_example = pop-IsBounded with_hello with_hello-IsBounded

insert-Balanced_example : Balanced 0 (insert (fragment_of hello 0 3) 0 empty_reassembler).1
insert-Balanced_example = insert-Balanced 0 (fragment_of hello 0 3) 0 empty_reassembler refl

pop-Balanced_example : Balanced 0 (pop with_hello).1
pop-Balanced_example = pop-Balanced 0 with_hello with_hello-IsBounded with_hello-Balanced

reset-Balanced_example :
    Balanced 0 (reset with_hello)
    × ((reset with_hello).pending ≡ [])
    × ((reset with_hello).buffered ≡ 0)
    × ((reset with_hello).next ≡ with_hello.next)
reset-Balanced_example = reset-Balanced 0 with_hello with_hello-Balanced

abbrev hello_bytes : Bytes
hello_bytes = 1 ∷ 0 ∷ 0 ∷ 3 ∷ 0 ∷ 0 ∷ 0 ∷ 0 ∷ 0 ∷ 0 ∷ 0 ∷ 3 ∷ 7 ∷ 8 ∷ 9 ∷ []

small_bytes : All IsByte hello_bytes
small_bytes = (
  omega arith,
  (
    omega arith,
    (
      omega arith,
      (
        omega arith,
        (
          omega arith,
          (
            omega arith,
            (
              omega arith,
              (
                omega arith,
                (
                  omega arith,
                  (
                    omega arith,
                    (omega arith, (omega arith, (omega arith, (omega arith, (omega arith, tt))))),
                  ),
                ),
              ),
            ),
          ),
        ),
      ),
    ),
  ),
)

add-Ends_example : Ends (add hello_bytes 0 empty_reassembler)
add-Ends_example = add-Ends hello_bytes 0 empty_reassembler small_bytes empty-IsBounded

hello_fits : FitsWire (fragment_of hello 0 3)
hello_fits = record {
  total_fits = omega arith;
  sequence_fits = omega arith;
  body_within = omega arith;
}

parse_fragment-inv_example :
    (hello_bytes ≡ wire (fragment_of hello 0 3) ++ []) × FitsWire (fragment_of hello 0 3)
parse_fragment-inv_example =
    parse_fragment-inv hello_bytes small_bytes
      (parse_fragment-wire (fragment_of hello 0 3) [] hello_fits)

parse_fragment-fragment_example :
    (fragment hello 1 2 ≡ ok (wire (fragment_of hello 1 2)))
    × (parse_fragment (wire (fragment_of hello 1 2) ++ (5 ∷ []))
        ≡ ok (fragment_of hello 1 2, 5 ∷ []))
parse_fragment-fragment_example =
    parse_fragment-fragment hello 1 2 (5 ∷ []) (omega arith) (omega arith) (omega arith)
      (omega arith)

no_replay_example : NoRepeat (run (3 ∷ 1 ∷ 3 ∷ []) [] (record { highest = 0; bits = 0 }))
no_replay_example = no_replay (3 ∷ 1 ∷ 3 ∷ [])

accept-Verdict_example :
    Verdict [] 5 (record { highest = 0; bits = 0 }) (accept 5 (record { highest = 0; bits = 0 }))
accept-Verdict_example = accept-Verdict (record { highest = 0; bits = 0 }) [] 5 Tracks-start

reconstruct_sequence-mod_example : reconstruct_sequence (300 % 2 ^ (8 * 1)) 1 290 ≡ 300
reconstruct_sequence-mod_example =
    reconstruct_sequence-mod 1 300 290 (inl refl) (omega arith) (omega arith) (omega arith)

abbrev alert_datagram : Bytes
alert_datagram = 21 ∷ 254 ∷ 253 ∷ 0 ∷ 0 ∷ 0 ∷ 0 ∷ 0 ∷ 0 ∷ 0 ∷ 5 ∷ 0 ∷ 2 ∷ 1 ∷ 2 ∷ 99 ∷ []

alert_parsed : parse_record alert_datagram 0 ≡ ok (plain_record alert_datagram 21 2, 99 ∷ [])
unfolding parse_record parse_plain
alert_parsed = refl

parse_record-Parsed_example : Parsed alert_datagram (plain_record alert_datagram 21 2) (99 ∷ [])
parse_record-Parsed_example = parse_record-Parsed alert_datagram 0 alert_parsed

abbrev hello_arrives : List Operation
hello_arrives = arrive hello_bytes 0 ∷ take_message ∷ arrive hello_bytes 0 ∷ restart ∷ []

operate_all-HoldsAtMost_example :
    HoldsAtMost (2 * max_handshake_body) (operate_all hello_arrives (fresh_reassembler none))
operate_all-HoldsAtMost_example =
    operate_all-HoldsAtMost none hello_arrives (small_bytes, (tt, (small_bytes, (tt, tt))))
