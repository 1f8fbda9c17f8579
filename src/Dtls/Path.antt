-- ===== src/Dtls/Path.antt =====
-- internal/dtls13/path.go: the validation of a peer's new address. A network address is a number, as
-- addresses are only compared; times are numbers. The bytes of rand.Read are an argument of each
-- step that may take them, and what the transport answers is a function of all that was handed to
-- it. The packets handed over and the calls of `changed` are kept in the state, the last one first.
pub mod Receive
pub mod Amplification
pub mod Bound
pub mod Peer
pub mod Change
use socat.Dtls.Rtt.{initial_path_challenge, path_challenge_timer}
use socat.Dtls.Error.{ok, err, Result, Error}
use socat.Dtls.Record.{content_rrc, RecordNumber}
use socat.Dtls.Sending.{current_write_epoch, send_record_with, Sender}
use socat.Prelude.{
  max, ◌-◌, [], some, none, replicate, length, not, if◌then◌else◌, ◌∷◌, ◌*◌, true, ◌+◌, ◌||◌, ◌&&◌,
  false, ◌^◌, ltb, List, ◌==◌, min, ◌%◌, Option, Bytes, Bool, ℕ,
}

abbrev pub path_challenge : ℕ
path_challenge = 0

abbrev pub path_response : ℕ
path_response = 1

abbrev pub path_drop : ℕ
path_drop = 2

pub data PathPhase : Type 0 where
  validate_old validate_candidate : PathPhase

pub record PacketPath : Type 0 where
  pub remote : ℕ
  pub local : ℕ

unfoldable pub same_path : PacketPath → PacketPath → Bool
same_path a b = a.remote == b.remote && a.local == b.local

pub record PathProbe : Type 0 where
  pub candidate : PacketPath
  pub phase : PathPhase
  pub cookie : Bytes
  pub deadline : ℕ
  pub credit : ℕ
  pub cid : Bytes

-- A packet handed to the transport; `to_peer` tells whether it went to the peer's address then.
pub record Sent : Type 0 where
  pub to : PacketPath
  pub packet : Bytes
  pub to_peer : Bool

-- The fields of the session that path.go reads and writes; `restarts` counts restartMTUConfirm.
pub record PathSession : Type 0 where
  pub sender : Sender
  pub peer_cid : Bytes
  pub peer_spare : List Bytes
  pub want : Bool
  pub rtt : ℕ
  pub restarts : ℕ

pub record PathState : Type 0 where
  pub session : PathSession
  pub peer : PacketPath
  pub probe : Option PathProbe
  pub highest : RecordNumber
  pub seen : Bool
  pub sent : List Sent
  pub changes : List PacketPath

-- recordAfter
unfoldable pub record_after : RecordNumber → RecordNumber → Bool
record_after a b = ltb b.epoch a.epoch || (a.epoch == b.epoch && ltb b.sequence a.sequence)

abbrev pub uint64 : ℕ → ℕ
uint64 n = n % 2 ^ 64

-- min(1<<30, p.probe.credit+3*size)
unfoldable pub add_credit : ℕ → PathProbe → PathProbe
add_credit size b = record b { credit = min (2 ^ 30) (uint64 (b.credit + uint64 (3 * size))) }

abbrev pub is_candidate_phase : PathPhase → Bool
is_candidate_phase validate_old = false
is_candidate_phase validate_candidate = true

module _ (allow : ℕ → Bool) (answer : List Sent → Option Error) where
  -- p.send
  unfoldable pub transmit : PacketPath → Bytes → PathState → Option Error × PathState
  transmit to packet p =
      let entry : Sent = record {
        to = to;
        packet = packet;
        to_peer = to.remote == p.peer.remote;
      } in
      (answer (entry ∷ p.sent), record p { sent = entry ∷ p.sent })

  -- A packet that is not for the candidate of a probe, against the credit of the call.
  unfoldable pub transmit_within : ℕ → PacketPath → Bytes → PathState → Option Error × PathState
  unfolding transmit
  transmit_within credit to packet p =
      if ltb credit (length packet) then (none, p) else transmit to packet p

  -- A packet for the candidate, against the credit of the probe.
  unfoldable pub charge : PathProbe → PacketPath → Bytes → PathState → Option Error × PathState
  unfolding transmit
  charge b to packet p =
      if ltb b.credit (length packet)
      then (none, p)
      else transmit to packet
          (record p { probe = some (record b { credit = b.credit - length packet }) })

  -- A packet for an address that is not the peer's, by the probe.
  unfoldable pub deliver_other :
      Option PathProbe → ℕ → PacketPath → Bytes → PathState → Option Error × PathState
  unfolding transmit_within charge same_path
  deliver_other none credit to packet p = transmit_within credit to packet p
  deliver_other (some b) credit to packet p =
      if same_path to b.candidate then charge b to packet p else transmit_within credit to packet p

  -- The callback of sendMessage.
  unfoldable pub deliver : ℕ → PacketPath → Bytes → PathState → Option Error × PathState
  unfolding transmit deliver_other
  deliver credit to packet p =
      if to.remote == p.peer.remote
      then transmit to packet p
      else deliver_other p.probe credit to packet p

  -- The connection id that sendMessage writes.
  unfoldable pub message_cid : PacketPath → PathState → Bytes
  unfolding same_path
  message_cid to p = elim p.probe [
    | none ↦ p.session.peer_cid
    | some b ↦
        if same_path to b.candidate && is_candidate_phase b.phase then b.cid else p.session.peer_cid
  ]

  -- The record of a message and its packet, if there is one.
  unfoldable pub hand_over :
      Result (Bytes × Sender) → PacketPath → ℕ → PathState → Option Error × PathState
  unfolding deliver
  hand_over (err e) to credit p = (some e, p)
  hand_over (ok (packet, sender)) to credit p =
      deliver credit to packet (record p { session = record (p.session) { sender = sender } })

  unfoldable pub send_message : PacketPath → ℕ → Bytes → ℕ → PathState → Option Error × PathState
  unfolding hand_over message_cid send_record_with current_write_epoch
  send_message to typ cookie credit p =
      let sender = p.session.sender in
      hand_over
        (send_record_with sender (current_write_epoch sender) content_rrc (typ ∷ cookie)
          (message_cid to p))
        to credit p

  -- challenge of the probe `b` that the state holds.
  unfoldable pub challenge_probe :
      PathProbe → ℕ → Result Bytes → PathState → Option Error × PathState
  unfolding send_message path_challenge_timer
  challenge_probe b now (err e) p = (some e, p)
  challenge_probe b now (ok cookie) p =
      let usual = path_challenge_timer p.session.rtt in
      let later = is_candidate_phase b.phase in
      let timeout = if later then max usual initial_path_challenge else usual in
      let destination = if later then b.candidate else p.peer in
      send_message destination path_challenge cookie 0
        (record p { probe = some (record b { cookie = cookie; deadline = now + timeout }) })

  -- The challenge of the probe `b`, which `p` is about to hold.
  unfoldable pub challenge : PathProbe → ℕ → Result Bytes → PathState → Option Error × PathState
  unfolding challenge_probe
  challenge b now random p = challenge_probe b now random (record p { probe = some b })

  -- startBasic: the candidate is validated, under a spare connection id if there is one.
  unfoldable pub basic_with :
      List Bytes → PathProbe → ℕ → Result Bytes → PathState → Option Error × PathState
  unfolding challenge
  basic_with [] b now random p =
      challenge (record b { phase = validate_candidate; cid = p.session.peer_cid }) now random p
  basic_with (id ∷ spare) b now random p =
      challenge (record b { phase = validate_candidate; cid = id }) now random
        (record p {
          session = record (p.session) { peer_spare = spare; want = ltb (length spare) 2 };
        })

  unfoldable pub start_basic : PathProbe → ℕ → Result Bytes → PathState → Option Error × PathState
  unfolding basic_with
  start_basic b now random p = basic_with p.session.peer_spare b now random p

  -- The first statement of observe.
  unfoldable pub note_number : RecordNumber → PathState → Bool × PathState
  unfolding record_after
  note_number number p =
      let newest = not p.seen || record_after number p.highest in
      (newest, if newest then record p { highest = number; seen = true } else p)

  -- observe without a probe: a new address starts one.
  unfoldable pub start_probe :
      PacketPath → ℕ → ℕ → Result Bytes → PathState → Option Error × PathState
  unfolding challenge
  start_probe from size now random p =
      challenge
        record {
          candidate = from;
          phase = validate_old;
          cookie = replicate 8 0;
          deadline = 0;
          credit = uint64 (3 * size);
          cid = [];
        }
        now random p

  -- observe from the test of the probe on; `newest` is as there.
  unfoldable pub observe_probe :
      Option PathProbe
      → Bool
      → PacketPath
      → ℕ
      → ℕ
      → Result Bytes
      → PathState
      → Option Error × PathState
  unfolding add_credit start_probe same_path
  observe_probe (some b) newest from size now random p =
      if same_path from b.candidate
      then (none, record p { probe = some (add_credit size b) })
      else (none, p)
  observe_probe none newest from size now random p =
      if not newest || not (allow from.remote)
      then (none, p)
      else start_probe from size now random p

  -- observe after its first statement
  unfoldable pub observe_newest :
      Bool
      → PacketPath
      → RecordNumber
      → ℕ
      → ℕ
      → ℕ
      → Result Bytes
      → PathState
      → Option Error × PathState
  unfolding observe_probe
  observe_newest newest from number typ size now random p =
      if from.remote == p.peer.remote || (ltb number.epoch 3 || typ == content_rrc)
      then (none, p)
      else observe_probe p.probe newest from size now random p

  unfoldable pub observe :
      PacketPath → RecordNumber → ℕ → ℕ → ℕ → Result Bytes → PathState → Option Error × PathState
  unfolding observe_newest record_after
  observe from number typ size now random p =
      let newest = not p.seen || record_after number p.highest in
      observe_newest newest from number typ size now random
        (if newest then record p { highest = number; seen = true } else p)
