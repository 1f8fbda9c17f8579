-- ===== src/Dtls/Path/Amplification.antt =====
-- How much is sent to addresses that are not validated.
use socat.Dtls.Rtt.{initial_path_challenge, path_challenge_timer}
use socat.Dtls.Record.{content_rrc, RecordNumber}
use socat.Dtls.Sending.{Sender}
use socat.Dtls.Path.{
  validate_candidate, is_candidate_phase, record_after, observe, observe_newest, validate_old,
  basic_with, path_challenge, add_credit, start_probe, challenge_probe, observe_probe, uint64,
  start_basic, challenge, send_message, hand_over, deliver_other, transmit,
}
use socat.Dtls.Error.{ok, err, Result, Error}
use socat.Dtls.Path.{
  same_path, deliver, charge, transmit_within, PathProbe, Sent, PacketPath, PathState,
}
use socat.Prelude.{
  ltb, max, ◌||◌, not, replicate, ◌*◌, refl, ap, ◌-◌, true, arith, [], ◌==◌, ◌≡◌, ◌≤◌, Bytes, false,
  length, none, if◌then◌else◌, some, ◌∷◌, ◌+◌, Bool, Option, List, ℕ,
}

-- The bytes that were sent to other addresses than that of the peer at the time.
unfoldable pub unvalidated : List Sent → ℕ
unvalidated [] = 0
unvalidated (s ∷ rest) = (if s.to_peer then 0 else length s.packet) + unvalidated rest

abbrev pub probe_credit : Option PathProbe → ℕ
probe_credit none = 0
probe_credit (some b) = b.credit

-- What was sent to addresses that are not validated, and what may still be sent.
abbrev pub exposure : PathState → ℕ
exposure p = unvalidated p.sent + probe_credit p.probe

-- Whether a path is that of the candidate.
abbrev pub for_candidate : PacketPath → Option PathProbe → Bool
for_candidate to none = false
for_candidate to (some b) = same_path to b.candidate

module _ (allow : ℕ → Bool) (answer : List Sent → Option Error) where
  transmit-exposure :
      (to : PacketPath) (packet : Bytes) (p : PathState)
      → exposure (transmit allow answer to packet p).1 ≤ exposure p + length packet
  unfolding transmit unvalidated
  transmit-exposure to packet p = ground arith

  transmit_peer-exposure :
      (to : PacketPath) (packet : Bytes) (p : PathState)
      → (to.remote == p.peer.remote) ≡ true
      → exposure (transmit allow answer to packet p).1 ≤ exposure p
  unfolding transmit unvalidated
  transmit_peer-exposure to packet p h = ground arith

  transmit_within-exposure :
      (credit : ℕ) (to : PacketPath) (packet : Bytes) (p : PathState)
      → exposure (transmit_within allow answer credit to packet p).1 ≤ exposure p + credit
  unfolding transmit_within
  transmit_within-exposure credit to packet p =
      let sent = transmit-exposure to packet p in ground arith

  charge-exposure :
      (b : PathProbe) (to : PacketPath) (packet : Bytes) (p : PathState)
      → p.probe ≡ some b
      → exposure (charge allow answer b to packet p).1 ≤ exposure p
  unfolding charge
  charge-exposure b to packet p h =
      let paid = record p { probe = some (record b { credit = b.credit - length packet }) } in
      let sent = transmit-exposure to packet paid in
      let held : probe_credit p.probe ≡ b.credit = ap probe_credit h in ground arith

  deliver_other-exposure :
      (o : Option PathProbe) (credit : ℕ) (to : PacketPath) (packet : Bytes) (p : PathState)
      → p.probe ≡ o
      → exposure (deliver_other allow answer o credit to packet p).1
        ≤ exposure p + (if for_candidate to o then 0 else credit)
  unfolding deliver_other
  deliver_other-exposure none credit to packet p h = transmit_within-exposure credit to packet p
  deliver_other-exposure (some b) credit to packet p h =
      let paid = charge-exposure b to packet p h in
      let other = transmit_within-exposure credit to packet p in ground arith

  -- A message is paid by the credit of the call, or by the credit of the probe if it is for the
  -- candidate.
  deliver-exposure :
      (credit : ℕ) (to : PacketPath) (packet : Bytes) (p : PathState)
      → exposure (deliver allow answer credit to packet p).1
        ≤ exposure p + (if for_candidate to p.probe then 0 else credit)
  unfolding deliver
  deliver-exposure credit to packet p =
      let own = transmit_peer-exposure to packet p in
      let other = deliver_other-exposure p.probe credit to packet p refl in ground arith

  hand_over-exposure :
      (r : Result (Bytes × Sender)) (to : PacketPath) (credit : ℕ) (p : PathState)
      → exposure (hand_over allow answer r to credit p).1
        ≤ exposure p + (if for_candidate to p.probe then 0 else credit)
  unfolding hand_over
  hand_over-exposure (err e) to credit p = omega arith
  hand_over-exposure (ok (packet, sender)) to credit p =
      deliver-exposure credit to packet
        (record p { session = record (p.session) { sender = sender } })

  pub send_message-exposure :
      (to : PacketPath) (typ : ℕ) (cookie : Bytes) (credit : ℕ) (p : PathState)
      → exposure (send_message allow answer to typ cookie credit p).1
        ≤ exposure p + (if for_candidate to p.probe then 0 else credit)
  unfolding send_message
  send_message-exposure to typ cookie credit p = hand_over-exposure _ to credit p

  at_most_nothing : (b : Bool) → (if◌then◌else◌ {A = ℕ} b 0 0) ≡ 0
  at_most_nothing true = refl
  at_most_nothing false = refl

  -- A message without a credit of its own is paid by the probe.
  send_paid-exposure :
      (to : PacketPath) (typ : ℕ) (cookie : Bytes) (p : PathState)
      → exposure (send_message allow answer to typ cookie 0 p).1 ≤ exposure p
  send_paid-exposure to typ cookie p =
      omega
        (arith, send_message-exposure to typ cookie 0 p, at_most_nothing (for_candidate to p.probe))

  -- A challenge is paid by the credit of its probe.
  challenge-exposure :
      (b : PathProbe) (now : ℕ) (random : Result Bytes) (p : PathState)
      → exposure (challenge allow answer b now random p).1 ≤ unvalidated p.sent + b.credit
  unfolding challenge challenge_probe
  challenge-exposure b now (err e) p = omega arith
  challenge-exposure b now (ok cookie) p =
      let usual = path_challenge_timer p.session.rtt in
      let later = is_candidate_phase b.phase in
      let timeout = if later then max usual initial_path_challenge else usual in
      let destination = if later then b.candidate else p.peer in
      send_paid-exposure destination path_challenge cookie
        (record p { probe = some (record b { cookie = cookie; deadline = now + timeout }) })

  basic_with-exposure :
      (spare : List Bytes) (b : PathProbe) (now : ℕ) (random : Result Bytes) (p : PathState)
      → exposure (basic_with allow answer spare b now random p).1 ≤ unvalidated p.sent + b.credit
  unfolding basic_with
  basic_with-exposure [] b now random p =
      challenge-exposure (record b { phase = validate_candidate; cid = p.session.peer_cid }) now
        random p
  basic_with-exposure (id ∷ spare) b now random p =
      challenge-exposure (record b { phase = validate_candidate; cid = id }) now random
        (record p {
          session = record (p.session) { peer_spare = spare; want = ltb (length spare) 2 };
        })

  pub start_basic-exposure :
      (b : PathProbe) (now : ℕ) (random : Result Bytes) (p : PathState)
      → p.probe ≡ some b
      → exposure (start_basic allow answer b now random p).1 ≤ exposure p
  unfolding start_basic
  start_basic-exposure b now random p h =
      let held : probe_credit p.probe ≡ b.credit = ap probe_credit h in
      omega (arith, basic_with-exposure p.session.peer_spare b now random p)

  pub uint64-le : (n : ℕ) → uint64 n ≤ n
  uint64-le n = omega arith

  pub add_credit-le : (size : ℕ) (b : PathProbe) → (add_credit size b).credit ≤ b.credit + 3 * size
  unfolding add_credit
  add_credit-le size b =
      omega (arith, uint64-le (3 * size), uint64-le (b.credit + uint64 (3 * size)))

  start_probe-exposure :
      (from : PacketPath) (size now : ℕ) (random : Result Bytes) (p : PathState)
      → exposure (start_probe allow answer from size now random p).1 ≤ exposure p + 3 * size
  unfolding start_probe
  start_probe-exposure from size now random p =
      let made =
        challenge-exposure
          (record {
            candidate = from;
            phase = validate_old;
            cookie = replicate 8 0;
            deadline = 0;
            credit = uint64 (3 * size);
            cid = [];
          })
          now random p in
      omega (arith, made, uint64-le (3 * size))

  observe_probe-exposure :
      (o : Option PathProbe) (newest : Bool) (from : PacketPath) (size now : ℕ)
      (random : Result Bytes) (p : PathState)
      → p.probe ≡ o
      → exposure (observe_probe allow answer o newest from size now random p).1
        ≤ exposure p + 3 * size
  unfolding observe_probe
  observe_probe-exposure (some b) newest from size now random p h =
      let held : probe_credit p.probe ≡ b.credit = ap probe_credit h in
      ground (arith, add_credit-le size b)
  observe_probe-exposure none newest from size now random p h =
      let made = start_probe-exposure from size now random p in ground arith

  -- What observe allows to be sent: three times the record, unless it is one of the path protocol.
  observe_newest-exposure :
      (newest : Bool) (from : PacketPath) (number : RecordNumber) (typ size now : ℕ)
      (random : Result Bytes) (p : PathState)
      → exposure (observe_newest allow answer newest from number typ size now random p).1
        ≤ exposure p + (if typ == content_rrc then 0 else 3 * size)
  unfolding observe_newest
  observe_newest-exposure newest from number typ size now random p =
      let made = observe_probe-exposure p.probe newest from size now random p refl in ground arith

  noted-exposure :
      (newest : Bool) (number : RecordNumber) (p : PathState)
      → exposure (if newest then record p { highest = number; seen = true } else p) ≡ exposure p
  noted-exposure true number p = refl
  noted-exposure false number p = refl

  pub observe-exposure :
      (from : PacketPath) (number : RecordNumber) (typ size now : ℕ) (random : Result Bytes)
      (p : PathState)
      → exposure (observe allow answer from number typ size now random p).1
        ≤ exposure p + (if typ == content_rrc then 0 else 3 * size)
  unfolding observe
  observe-exposure from number typ size now random p =
      let newest = not p.seen || record_after number p.highest in
      let noted = noted-exposure newest number p in
      omega (
        arith,
        noted,
        observe_newest-exposure newest from number typ size now random
            (if newest then record p { highest = number; seen = true } else p),
      )
