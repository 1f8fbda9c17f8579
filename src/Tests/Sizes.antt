-- ===== src/Tests/Sizes.antt =====
-- The theorems on the sizes, the connection ids and the timer of a flight at concrete inputs.
use socat.Dtls.Ack.Order.{IsAscending}
use mathlib.Core.List.{Mem}
use socat.Dtls.Ack.{before}
use socat.Dtls.Flight.{same_number}
use socat.Dtls.Record.{content_rrc, RecordNumber}
use socat.Dtls.Protection.{encode_record, TrafficKeys, block}
use socat.Dtls.Pmtu.Padding.{encode_record-rrc_probe_padding, Sized}
use socat.Dtls.Ack.RoundTrip.{parse_ack-encode_ack, IsNumber}
use socat.Dtls.Ack.{
  write_numbers, compact_after, insert_number, compact, sort_numbers, parse_ack, encode_ack,
}
use socat.Dtls.Record.RoundTrip.{parse_record-encode_plain_record, read_back}
use socat.Dtls.Flight.Timer.{expire-gives_up, IsWaiting, expire-IsTimed, expire_times, IsTimed}
use socat.Dtls.Flight.{pending_messages, outbound, expire, pending_send, Flight}
use socat.Dtls.Pmtu.Steps.{reduce_handshake_mtu-step, set_working_mtu-raises}
use socat.Dtls.Record.{parse_record, encode_plain_record}
use socat.Dtls.Error.{handshake_timeout, err, ok}
use socat.Dtls.ConnectionId.{parse_cids}
use socat.Dtls.ConnectionId.Parsing.{parse_cids-IdAnswer, IdAnswer}
use socat.Dtls.Pmtu.{
  max_mtu_reductions, min_path_mtu, set_working_mtu, rrc_probe_overhead, datagram_overhead,
  rrc_probe_padding, effective_mtu, reduce_handshake_mtu, WorkingMtu,
}
use socat.Prelude.{
  ◌↔◌, length-append, none, Bytes, List, replicate, All, ◌++◌, arith, ◌<◌, true, refl, [], min, ◌⊎◌,
  ◌∷◌, false, ◌+◌, ◌≤◌, ◌≡◌,
}

abbrev wide : WorkingMtu
wide = record { path_mtu = 0; reductions = 0; mtu_ceiling = 1200 }

reduce_handshake_mtu-step_example :
    ((reduce_handshake_mtu 1000 wide).0 ≡ false) × ((reduce_handshake_mtu 1000 wide).1 ≡ wide)
    ⊎ ((reduce_handshake_mtu 1000 wide).0 ≡ true)
      × (effective_mtu (reduce_handshake_mtu 1000 wide).1 < effective_mtu wide)
      × (min_path_mtu ≤ effective_mtu (reduce_handshake_mtu 1000 wide).1)
      × ((1000 ≤ min_path_mtu) ⊎ (effective_mtu (reduce_handshake_mtu 1000 wide).1 < 1000))
      × ((reduce_handshake_mtu 1000 wide).1.reductions ≡ 0 + 1)
      × ((reduce_handshake_mtu 1000 wide).1.reductions ≤ max_mtu_reductions)
reduce_handshake_mtu-step_example = reduce_handshake_mtu-step 1000 wide

set_working_mtu-raises_example :
    (effective_mtu wide ≤ effective_mtu (set_working_mtu 1300 wide))
    × (min 1300 1200 ≤ effective_mtu (set_working_mtu 1300 wide))
    × (effective_mtu (set_working_mtu 1300 wide) ≤ 1200)
set_working_mtu-raises_example = set_working_mtu-raises 1300 wide (omega arith)

padding_1200 : rrc_probe_padding 1200 8 16 ≡ ok 1161
unfolding rrc_probe_padding rrc_probe_overhead datagram_overhead
padding_1200 = refl

-- A cipher that keeps the text and adds a tag of 16 zero bytes.
abbrev tagging_keys : TrafficKeys
tagging_keys = record {
  aead = record {
    overhead = 16;
    seal_text = λ nonce text header. text ++ replicate 16 0;
    open_text = λ nonce text header. none;
  };
  sn = block (λ sample. sample);
  iv = replicate 12 0;
}

abbrev probe_number : RecordNumber
probe_number = record { epoch = 3; sequence = 5 }

encode_record-rrc_probe_padding_example :
    Sized 1200
      (encode_record tagging_keys probe_number (replicate 8 7) content_rrc (replicate 9 1) 1161)
encode_record-rrc_probe_padding_example =
    encode_record-rrc_probe_padding tagging_keys probe_number (replicate 8 7) (replicate 9 1) 1200
      (λ n text header. length-append text (replicate 16 0)) (omega arith) (omega arith) refl
      padding_1200

parse_cids-IdAnswer_example : IdAnswer (parse_cids (0 ∷ 3 ∷ 2 ∷ 5 ∷ 6 ∷ 0 ∷ []))
parse_cids-IdAnswer_example = parse_cids-IdAnswer (0 ∷ 3 ∷ 2 ∷ 5 ∷ 6 ∷ 0 ∷ [])

abbrev waiting : Flight
waiting = record {
  messages =
      record (outbound (record { typ = 1; sequence = 0; epoch = 0; body = 7 ∷ 8 ∷ [] })) {
        sent_count = 2;
      }
      ∷ [];
  sent = [];
  interval = 1000000000;
  deadline = 5;
  first_sent = 1;
  retries = 6;
  complete = false;
  sent_once = true;
  acked_since_send = false;
  resent = true;
  burst_wait = false;
}

waiting-IsWaiting : IsWaiting waiting
unfolding pending_send pending_messages
waiting-IsWaiting = record {
  running = refl;
  armed = λ e. absurd (omega (arith, e));
  all_sent = refl;
}

waiting-IsTimed : IsTimed waiting
waiting-IsTimed = record { interval_at_most = omega arith; retries_at_most = omega arith }

expire-gives_up_example :
    (expire (expire_times 2 waiting).deadline (expire_times 2 waiting)).0 ≡ err handshake_timeout
expire-gives_up_example = expire-gives_up 2 waiting waiting-IsWaiting refl

expire-IsTimed_example :
    IsTimed (expire 9 waiting).1
    × (waiting.interval ≤ (expire 9 waiting).1.interval)
    × (waiting.retries ≤ (expire 9 waiting).1.retries)
    × (((expire 9 waiting).1 ≡ waiting)
        ⊎ (((expire 9 waiting).0 ≡ ok true)
            × (waiting.deadline ≤ 9)
            × ((expire 9 waiting).1.deadline ≡ 9 + (expire 9 waiting).1.interval)))
expire-IsTimed_example = expire-IsTimed 9 waiting waiting-IsTimed

alert_encoded :
    encode_plain_record 21 5 (1 ∷ 2 ∷ [])
    ≡ ok (21 ∷ 254 ∷ 253 ∷ 0 ∷ 0 ∷ 0 ∷ 0 ∷ 0 ∷ 0 ∷ 0 ∷ 5 ∷ 0 ∷ 2 ∷ 1 ∷ 2 ∷ [])
unfolding encode_plain_record
alert_encoded = refl

parse_record-encode_plain_record_example :
    parse_record
      ((21 ∷ 254 ∷ 253 ∷ 0 ∷ 0 ∷ 0 ∷ 0 ∷ 0 ∷ 0 ∷ 0 ∷ 5 ∷ 0 ∷ 2 ∷ 1 ∷ 2 ∷ []) ++ (9 ∷ []))
      8
    ≡ ok (read_back 21 5 (1 ∷ 2 ∷ []), 9 ∷ [])
parse_record-encode_plain_record_example =
    parse_record-encode_plain_record 21 5 8 (1 ∷ 2 ∷ []) (9 ∷ []) (omega arith) alert_encoded

abbrev two_numbers : List RecordNumber
two_numbers =
    record { epoch = 1; sequence = 2 }
    ∷ record { epoch = 0; sequence = 7 }
    ∷ record { epoch = 1; sequence = 2 }
    ∷ []

two_numbers-IsNumber : All IsNumber two_numbers
two_numbers-IsNumber =
    ((omega arith, omega arith), ((omega arith, omega arith), ((omega arith, omega arith), tt)))

abbrev two_encoded : Bytes
two_encoded = (0 ∷ 32 ∷ replicate 15 0) ++ (7 ∷ replicate 7 0) ++ (1 ∷ replicate 7 0) ++ (2 ∷ [])

ack_encoded : encode_ack two_numbers ≡ ok two_encoded
unfolding encode_ack sort_numbers insert_number compact compact_after write_numbers before
    same_number
ack_encoded = refl

parse_ack-encode_ack_example :
    (out : List RecordNumber) × (parse_ack two_encoded ≡ ok out)
    × IsAscending out
    × ((r : RecordNumber) → Mem r out ↔ Mem r two_numbers)
parse_ack-encode_ack_example = parse_ack-encode_ack two_numbers two_numbers-IsNumber ack_encoded
