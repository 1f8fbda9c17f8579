-- ===== src/Tests/Paths.antt =====
-- The theorems on the validation of a peer's address at concrete inputs.
use socat.Dtls.Pmtu.{effective_mtu}
use socat.Dtls.Rtt.{path_challenge_timer}
use socat.Dtls.Sending.{
  highest_epoch, current_write_epoch, record_packet, send_record_limited, send_record_with,
}
use socat.Dtls.Flight.Send.{transmit, send_message}
use socat.Dtls.Path.Bound.{run_events-amplification, received}
use socat.Dtls.Error.{decode, err, Error, ok}
use socat.Dtls.Record.{valid_content_type, content_rrc, content_data}
use socat.Dtls.Path.Change.{on_event-EventStep, EventStep}
use socat.Dtls.Path.Amplification.{probe_credit, unvalidated}
use socat.Dtls.Path.Receive.{
  finish_probe, answered, check_answer, receive, after_observe, on_event, arrives, run_events,
  PathEvent,
}
use socat.Dtls.Path.{
  message_cid, record_after, same_path, transmit_within, charge, deliver_other, deliver, hand_over,
  challenge_probe, challenge, basic_with, start_basic, start_probe, observe_probe, observe_newest,
  observe, path_response, path_drop, Sent, PathState, PacketPath,
}
use socat.Dtls.Protection.{
  mask, nonce, seal, unified_header, xor_bytes, xor_at, encode_record, same, block, TrafficKeys,
}
use socat.Dtls.Protection.Decoded.{decode_record-Answer, Answer, Decoded}
use socat.Dtls.Record.{DtlsRecord}
use socat.Dtls.Replay.{ReplayWindow, accept, next, reconstruct_sequence}
use socat.Dtls.Protection.{
  decode_record, decode_masked, decode_opened, finish_record, finish_at, finish_accepted,
  content_end, open_sealed,
}
use socat.Prelude.{
  refl, ◌≡◌, ◌*◌, ◌-◌, ◌≤◌, length, none, take, ◌+◌, false, some, Option, [], replicate, true, ◌∷◌,
  ◌++◌, List, Bool, Bytes, ℕ,
}

-- A cipher that keeps the text and adds a tag of 16 zero bytes.
abbrev plain_keys : TrafficKeys
plain_keys = record {
  aead = record {
    overhead = 16;
    seal_text = λ nonce text header. text ++ replicate 16 0;
    open_text = λ nonce text header. some (take (length text - 16) text);
  };
  sn = block (λ sample. sample);
  iv = replicate 12 0;
}

abbrev old_path : PacketPath
old_path = record { remote = 1; local = 1 }

abbrev new_path : PacketPath
new_path = record { remote = 2; local = 1 }

abbrev connected : PathState
connected = record {
  session = record {
    sender = record {
      write = (3, record { keys = plain_keys; record_limit = 1000; sequence = 0 }) ∷ [];
      working = record { path_mtu = 0; reductions = 0; mtu_ceiling = 1200 };
      last_send_size = 0;
    };
    peer_cid = 7 ∷ [];
    peer_spare = (8 ∷ []) ∷ [];
    want = false;
    rtt = 0;
    restarts = 0;
  };
  peer = old_path;
  probe = none;
  highest = record { epoch = 0; sequence = 0 };
  seen = false;
  sent = [];
  changes = [];
}

abbrev first_cookie : Bytes
first_cookie = 1 ∷ 2 ∷ 3 ∷ 4 ∷ 5 ∷ 6 ∷ 7 ∷ 8 ∷ []

abbrev next_cookie : Bytes
next_cookie = 11 ∷ 12 ∷ 13 ∷ 14 ∷ 15 ∷ 16 ∷ 17 ∷ 18 ∷ []

-- Data from a new address, a drop of the challenge by the old one, the answer of the new one.
abbrev from_new : PathEvent
from_new =
    arrives new_path (record { epoch = 3; sequence = 5 }) content_data [] 100 10 (ok first_cookie)
      (err decode)

abbrev dropped : PathEvent
dropped =
    arrives old_path (record { epoch = 3; sequence = 6 }) content_rrc (path_drop ∷ first_cookie) 40
      20 (err decode) (ok next_cookie)

abbrev answered_by_new : PathEvent
answered_by_new =
    arrives new_path (record { epoch = 3; sequence = 7 }) content_rrc (path_response ∷ next_cookie)
      40 30 (err decode) (err decode)

abbrev allow_all : ℕ → Bool
allow_all address = true

abbrev accept_all : List Sent → Option Error
accept_all sent = none

abbrev challenged : PathState
challenged = run_events allow_all accept_all (from_new ∷ dropped ∷ []) connected

run_events-amplification_example :
    unvalidated (run_events allow_all accept_all (from_new ∷ dropped ∷ []) connected).sent
      + probe_credit (run_events allow_all accept_all (from_new ∷ dropped ∷ []) connected).probe
    ≤ unvalidated connected.sent
      + probe_credit connected.probe
      + 3 * received (from_new ∷ dropped ∷ [])
run_events-amplification_example =
    run_events-amplification allow_all accept_all (from_new ∷ dropped ∷ []) connected

-- 32 bytes went to the new address, on a credit of 300
sent_to_new : unvalidated challenged.sent ≡ 32
unfolding run_events on_event after_observe observe observe_newest observe_probe start_probe receive
    check_answer answered start_basic basic_with challenge challenge_probe send_message hand_over
    deliver deliver_other charge transmit transmit_within unvalidated same same_path record_after
    message_cid send_record_with send_record_limited record_packet current_write_epoch highest_epoch
    path_challenge_timer encode_record effective_mtu xor_at xor_bytes unified_header seal nonce mask
    valid_content_type
sent_to_new = refl

on_event-EventStep_example :
    EventStep allow_all accept_all answered_by_new challenged
      (on_event allow_all accept_all answered_by_new challenged).1
on_event-EventStep_example = on_event-EventStep allow_all accept_all answered_by_new challenged

-- the new address is the peer's then
new_peer : (on_event allow_all accept_all answered_by_new challenged).1.peer ≡ new_path
unfolding run_events on_event after_observe observe observe_newest observe_probe start_probe receive
    check_answer answered start_basic basic_with challenge challenge_probe send_message hand_over
    deliver deliver_other charge transmit transmit_within same same_path record_after finish_probe
    message_cid send_record_with send_record_limited record_packet current_write_epoch highest_epoch
    path_challenge_timer encode_record effective_mtu xor_at xor_bytes unified_header seal nonce mask
    valid_content_type
new_peer = refl

-- two bytes of data under the number 1, with one zero of padding
abbrev data_record : DtlsRecord
data_record = record {
  header = 47 ∷ 5 ∷ 7 ∷ 0 ∷ 20 ∷ [];
  body = 5 ∷ 6 ∷ 23 ∷ 0 ∷ replicate 16 0;
  cid = [];
  number = record { epoch = 3; sequence = 0 };
  typ = 0;
  encrypted = true;
  seq_offset = 1;
  seq_len = 2;
}

abbrev fresh_window : ReplayWindow
fresh_window = record { highest = 0; bits = 0 }

decode_record-Answer_example :
    Answer
      (Decoded plain_keys data_record 3 fresh_window)
      fresh_window
      (decode_record plain_keys data_record 3 [] fresh_window)
decode_record-Answer_example = decode_record-Answer plain_keys data_record 3 [] fresh_window

data_decoded :
    (decode_record plain_keys data_record 3 [] fresh_window).0
    ≡ ok (record { epoch = 3; sequence = 1 }, 23, 5 ∷ 6 ∷ [])
unfolding decode_record decode_masked decode_opened finish_record finish_at finish_accepted
    content_end mask open_sealed nonce xor_at xor_bytes valid_content_type reconstruct_sequence
    accept same next
data_decoded = refl
