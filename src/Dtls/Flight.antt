-- ===== src/Dtls/Flight.antt =====
-- internal/dtls13/flight.go: an outgoing flight, its transmission, acknowledgement and timer. Times
-- and durations are numbers of nanoseconds, the zero time is 0; the maps are association lists. The
-- callback `send` is a parameter: a function of its state, the epoch and the bytes.
use socat.Prelude.Bitset.{set_bit, has_bit}
use socat.Dtls.Error.{handshake_timeout, handshake_limit, err, ok, Result}
use socat.Dtls.Record.{RecordNumber}
use socat.Dtls.Fragment.{max_pending_messages, max_handshake_body, HandshakeMessage}
use socat.Prelude.{
  min, set, zero, get_or, ◌-◌, ltb, ◌/◌, not, ◌||◌, ◌+◌, some, ◌∷◌, if◌then◌else◌, ◌&&◌, suc, false,
  length, replicate, none, ◌==◌, Bytes, ◌*◌, Option, true, Bool, List, [], ℕ,
}
pub mod Send
pub mod Timer

abbrev pub second : ℕ
second = 1000000000

abbrev pub initial_retransmit : ℕ
initial_retransmit = second

abbrev pub maximum_retransmit : ℕ
maximum_retransmit = 60 * second

abbrev pub max_flight_records : ℕ
max_flight_records = 65536

abbrev pub max_flight_retries : ℕ
max_flight_retries = 8

abbrev pub flight_burst : ℕ
flight_burst = 10

pub record OutboundMessage : Type 0 where
  pub message : HandshakeMessage
  pub acknowledged : Bytes
  pub sent : Bytes
  pub remaining : ℕ
  pub sent_count : ℕ
  pub empty_acknowledged : Bool
  pub empty_sent : Bool
  pub resent : Bool

pub record SentFragment : Type 0 where
  pub message : ℕ
  pub start : ℕ
  pub end_at : ℕ
  pub sent_at : ℕ

pub record Flight : Type 0 where
  pub messages : List OutboundMessage
  pub sent : List (RecordNumber × SentFragment)
  pub interval : ℕ
  pub deadline : ℕ
  pub first_sent : ℕ
  pub retries : ℕ
  pub complete : Bool
  pub sent_once : Bool
  pub acked_since_send : Bool
  pub resent : Bool
  pub burst_wait : Bool

-- `a == b` on record numbers
unfoldable pub same_number : RecordNumber → RecordNumber → Bool
same_number a b = a.epoch == b.epoch && a.sequence == b.sequence

-- `f.sent[number]`
unfoldable pub find_sent : RecordNumber → List (RecordNumber × SentFragment) → Option SentFragment
find_sent n [] = none
find_sent n ((k, v) ∷ m) = if same_number k n then some v else find_sent n m

-- `delete(f.sent, number)`
unfoldable pub delete_sent :
    RecordNumber → List (RecordNumber × SentFragment) → List (RecordNumber × SentFragment)
delete_sent n [] = []
delete_sent n ((k, v) ∷ m) =
    let rest = delete_sent n m in if same_number k n then rest else (k, v) ∷ rest

abbrev pub outbound : HandshakeMessage → OutboundMessage
outbound m = record {
  message = m;
  acknowledged = replicate ((length m.body + 7) / 8) 0;
  sent = replicate ((length m.body + 7) / 8) 0;
  remaining = length m.body;
  sent_count = 0;
  empty_acknowledged = false;
  empty_sent = false;
  resent = false;
}

-- the loop over the messages, with the total of the bodies so far
unfoldable pub outbound_messages : ℕ → List HandshakeMessage → Result (List OutboundMessage)
outbound_messages sum [] = ok []
outbound_messages sum (m ∷ ms) =
    let sum' = sum + length m.body in
    let rest = outbound_messages sum' ms in
    if ltb max_handshake_body (length m.body) || ltb (2 * max_handshake_body) sum'
    then err handshake_limit
    else elim rest [ err e ↦ err e | ok os ↦ ok (outbound m ∷ os) ]

unfoldable pub new_flight : List HandshakeMessage → ℕ → Result Flight
new_flight messages interval =
    if length messages == 0 || ltb max_pending_messages (length messages)
    then err handshake_limit
    else let started = if interval == 0 then initial_retransmit else interval in
      elim (outbound_messages 0 messages) [
        | err e ↦ err e
        | ok os ↦ ok (record {
          messages = os;
          sent = [];
          interval = if ltb maximum_retransmit started then maximum_retransmit else started;
          deadline = 0;
          first_sent = 0;
          retries = 0;
          complete = false;
          sent_once = false;
          acked_since_send = false;
          resent = false;
          burst_wait = false;
        })
      ]

unfoldable pub has_byte : OutboundMessage → ℕ → Bool
has_byte m i = has_bit m.acknowledged i

unfoldable pub has_sent : OutboundMessage → ℕ → Bool
has_sent m i = has_bit m.sent i

abbrev pub body_size : OutboundMessage → ℕ
body_size m = length m.message.body

abbrev pub is_empty : OutboundMessage → Bool
is_empty m = body_size m == 0

unfoldable pub pending_messages : List OutboundMessage → Bool
pending_messages [] = false
pending_messages (m ∷ ms) =
    let rest = pending_messages ms in
    if is_empty m
    then (if not m.empty_acknowledged && not m.empty_sent then true else rest)
    else if ltb m.sent_count (body_size m)
    then true
    else rest

unfoldable pub pending_send : Flight → Bool
pending_send f = pending_messages f.messages

-- `for i := start; i < end; i++`, over `n` bytes from `i` on, in acknowledge
unfoldable pub acknowledge_bytes : ℕ → ℕ → OutboundMessage → OutboundMessage
acknowledge_bytes zero i m = m
acknowledge_bytes (suc n) i m =
    let kept = acknowledge_bytes n (i + 1) m in
    let marked =
      acknowledge_bytes n (i + 1)
        (record m { acknowledged = set_bit m.acknowledged i; remaining = m.remaining - 1 }) in
    if has_byte m i then kept else marked

-- did the bytes make progress: was one of them unacknowledged
unfoldable pub any_new : ℕ → ℕ → OutboundMessage → Bool
any_new zero i m = false
any_new (suc n) i m = let rest = any_new n (i + 1) m in if has_byte m i then rest else true

unfoldable pub acknowledge_message : SentFragment → OutboundMessage → Bool × OutboundMessage
acknowledge_message part m =
    let first_empty = is_empty m && not m.empty_acknowledged in
    let m' = if first_empty then record m { empty_acknowledged = true } else m in
    (
      first_empty || any_new (part.end_at - part.start) part.start m',
      acknowledge_bytes (part.end_at - part.start) part.start m',
    )

abbrev pub empty_message : OutboundMessage
empty_message = outbound (record { typ = 0; sequence = 0; epoch = 0; body = [] })

-- the least round trip so far, the sample of one fragment taken in
unfoldable pub sample_rtt : Bool → ℕ → SentFragment → OutboundMessage → ℕ → ℕ
sample_rtt authenticated now part m rtt =
    if authenticated && (not m.resent && (not (part.sent_at == 0) && ltb part.sent_at now))
    then (if rtt == 0 || ltb (now - part.sent_at) rtt then now - part.sent_at else rtt)
    else rtt

unfoldable pub acknowledge_all :
    List RecordNumber → Bool → ℕ → Bool → ℕ → Flight → Bool × ℕ × Flight
acknowledge_all [] authenticated now progress rtt f = (progress, rtt, f)
acknowledge_all (number ∷ numbers) authenticated now progress rtt f =
    let skipped = acknowledge_all numbers authenticated now progress rtt f in
    elim (find_sent number f.sent) [
      | none ↦ skipped
      | some part ↦
          if not authenticated && not (number.epoch == 0)
          then skipped
          else let m = get_or f.messages part.message empty_message in
            let (new, m') = acknowledge_message part m in
            acknowledge_all numbers authenticated now (progress || new)
              (sample_rtt authenticated now part m rtt)
              (record f {
                messages = set f.messages part.message m';
                sent = delete_sent number f.sent;
              })
    ]

unfoldable pub all_acknowledged : List OutboundMessage → Bool
all_acknowledged [] = true
all_acknowledged (m ∷ ms) =
    let rest = all_acknowledged ms in
    if not (m.remaining == 0) || is_empty m && not m.empty_acknowledged then false else rest

unfoldable pub finish : Flight → Flight
finish f = record f { complete = true; deadline = 0; messages = []; sent = [] }

unfoldable pub acknowledge : List RecordNumber → Bool → ℕ → Flight → Bool × ℕ × Flight
acknowledge records authenticated now f =
    if f.complete
    then (false, 0, f)
    else let (progress, rtt, f') = acknowledge_all records authenticated now false 0 f in
      let f'' = if progress then record f' { retries = 0; acked_since_send = true } else f' in
      if all_acknowledged f''.messages then (progress, rtt, finish f'') else (progress, rtt, f'')

-- A nil flight is `none` in flight_deadline; `expire` is on a flight.
unfoldable pub expire : ℕ → Flight → Result Bool × Flight
expire now f =
    if f.complete || (f.deadline == 0 || ltb now f.deadline)
    then (ok false, f)
    else if pending_send f
    then (ok true, record f { burst_wait = true; deadline = now + f.interval })
    else if f.retries == max_flight_retries
    then (err handshake_timeout, f)
    else let interval' = min (2 * f.interval) maximum_retransmit in
      (
        ok true,
        record f {
          retries = f.retries + 1;
          resent = true;
          interval = interval';
          deadline = now + interval';
        },
      )

unfoldable pub flight_deadline : Option Flight → ℕ
flight_deadline none = 0
flight_deadline (some f) = if f.complete then 0 else f.deadline
