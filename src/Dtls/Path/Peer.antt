-- ===== src/Dtls/Path/Peer.antt =====
-- The steps of the path that leave the peer's address as it is.
use socat.Dtls.Rtt.{initial_path_challenge, path_challenge_timer}
use socat.Dtls.Sending.{Sender}
use socat.Dtls.Path.Receive.{credit_candidate, respond, credit_probe, tick_probe}
use socat.Dtls.Record.{RecordNumber}
use socat.Dtls.Error.{ok, err, Result, Error}
use socat.Dtls.Path.{
  path_challenge, is_candidate_phase, path_drop, record_after, uint64, path_response, validate_old,
  start_probe, challenge_probe, transmit, validate_candidate, observe, observe_newest,
  observe_probe, start_basic, basic_with, challenge, send_message, hand_over, deliver,
  deliver_other, charge, transmit_within, PathProbe, Sent, PathState, PacketPath,
}
use socat.Prelude.{
  ◌+◌, refl, max, [], ◌*◌, ◌∙◌, drop, length, false, ◌||◌, replicate, ltb, none, ◌==◌, not, true,
  ◌∷◌, if◌then◌else◌, arith, some, ◌≡◌, Option, List, Bytes, Bool, ℕ,
}

module _ (allow : ℕ → Bool) (answer : List Sent → Option Error) where
  transmit_within-peer :
      (credit : ℕ) (to : PacketPath) (packet : Bytes) (p : PathState)
      → (transmit_within allow answer credit to packet p).1.peer ≡ p.peer
  unfolding transmit_within transmit
  transmit_within-peer credit to packet p = ground arith

  charge-peer :
      (b : PathProbe) (to : PacketPath) (packet : Bytes) (p : PathState)
      → (charge allow answer b to packet p).1.peer ≡ p.peer
  unfolding charge transmit
  charge-peer b to packet p = ground arith

  deliver_other-peer :
      (o : Option PathProbe) (credit : ℕ) (to : PacketPath) (packet : Bytes) (p : PathState)
      → (deliver_other allow answer o credit to packet p).1.peer ≡ p.peer
  unfolding deliver_other
  deliver_other-peer none credit to packet p = transmit_within-peer credit to packet p
  deliver_other-peer (some b) credit to packet p =
      ground (arith, transmit_within-peer credit to packet p, charge-peer b to packet p)

  deliver-peer :
      (credit : ℕ) (to : PacketPath) (packet : Bytes) (p : PathState)
      → (deliver allow answer credit to packet p).1.peer ≡ p.peer
  unfolding deliver transmit
  deliver-peer credit to packet p =
      let other = deliver_other-peer p.probe credit to packet p in ground arith

  hand_over-peer :
      (r : Result (Bytes × Sender)) (to : PacketPath) (credit : ℕ) (p : PathState)
      → (hand_over allow answer r to credit p).1.peer ≡ p.peer
  unfolding hand_over
  hand_over-peer (err e) to credit p = refl
  hand_over-peer (ok (packet, sender)) to credit p =
      deliver-peer credit to packet (record p { session = record (p.session) { sender = sender } })

  send_message-peer :
      (to : PacketPath) (typ : ℕ) (cookie : Bytes) (credit : ℕ) (p : PathState)
      → (send_message allow answer to typ cookie credit p).1.peer ≡ p.peer
  unfolding send_message
  send_message-peer to typ cookie credit p = hand_over-peer _ to credit p

  challenge-peer :
      (b : PathProbe) (now : ℕ) (random : Result Bytes) (p : PathState)
      → (challenge allow answer b now random p).1.peer ≡ p.peer
  unfolding challenge challenge_probe
  challenge-peer b now (err e) p = refl
  challenge-peer b now (ok cookie) p =
      let usual = path_challenge_timer p.session.rtt in
      let later = is_candidate_phase b.phase in
      let timeout = if later then max usual initial_path_challenge else usual in
      let destination = if later then b.candidate else p.peer in
      send_message-peer destination path_challenge cookie 0
        (record p { probe = some (record b { cookie = cookie; deadline = now + timeout }) })

  basic_with-peer :
      (spare : List Bytes) (b : PathProbe) (now : ℕ) (random : Result Bytes) (p : PathState)
      → (basic_with allow answer spare b now random p).1.peer ≡ p.peer
  unfolding basic_with
  basic_with-peer [] b now random p =
      challenge-peer (record b { phase = validate_candidate; cid = p.session.peer_cid }) now random
        p
  basic_with-peer (id ∷ spare) b now random p =
      challenge-peer (record b { phase = validate_candidate; cid = id }) now random
        (record p {
          session = record (p.session) { peer_spare = spare; want = ltb (length spare) 2 };
        })

  pub start_basic-peer :
      (b : PathProbe) (now : ℕ) (random : Result Bytes) (p : PathState)
      → (start_basic allow answer b now random p).1.peer ≡ p.peer
  unfolding start_basic
  start_basic-peer b now random p = basic_with-peer p.session.peer_spare b now random p

  observe_probe-peer :
      (o : Option PathProbe) (newest : Bool) (from : PacketPath) (size now : ℕ)
      (random : Result Bytes) (p : PathState)
      → (observe_probe allow answer o newest from size now random p).1.peer ≡ p.peer
  unfolding observe_probe start_probe
  observe_probe-peer (some b) newest from size now random p = ground arith
  observe_probe-peer none newest from size now random p =
      let made =
        challenge-peer
          (record {
            candidate = from;
            phase = validate_old;
            cookie = replicate 8 0;
            deadline = 0;
            credit = uint64 (3 * size);
            cid = [];
          })
          now random p in
      ground arith

  noted-peer :
      (newest : Bool) (number : RecordNumber) (p : PathState)
      → (if newest then record p { highest = number; seen = true } else p).peer ≡ p.peer
  noted-peer true number p = refl
  noted-peer false number p = refl

  observe_newest-peer :
      (newest : Bool) (from : PacketPath) (number : RecordNumber) (typ size now : ℕ)
      (random : Result Bytes) (p : PathState)
      → (observe_newest allow answer newest from number typ size now random p).1.peer ≡ p.peer
  unfolding observe_newest
  observe_newest-peer newest from number typ size now random p =
      let probed = observe_probe-peer p.probe newest from size now random p in ground arith

  pub observe-peer :
      (from : PacketPath) (number : RecordNumber) (typ size now : ℕ) (random : Result Bytes)
      (p : PathState)
      → (observe allow answer from number typ size now random p).1.peer ≡ p.peer
  unfolding observe
  observe-peer from number typ size now random p =
      let newest = not p.seen || record_after number p.highest in
      observe_newest-peer newest from number typ size now random
        (if newest then record p { highest = number; seen = true } else p)
      ∙ noted-peer newest number p

  pub tick_probe-peer :
      (o : Option PathProbe) (now : ℕ) (random : Result Bytes) (p : PathState)
      → (tick_probe allow answer o now random p).1.peer ≡ p.peer
  unfolding tick_probe
  tick_probe-peer none now random p = refl
  tick_probe-peer (some b) now random p =
      let basic = start_basic-peer b now random p in ground arith

  credit_probe-peer :
      (o : Option PathProbe) (from : PacketPath) (size : ℕ) (p : PathState)
      → (credit_probe o from size p).peer ≡ p.peer
  unfolding credit_probe
  credit_probe-peer none from size p = refl
  credit_probe-peer (some b) from size p = ground arith

  pub respond-peer :
      (from : PacketPath) (body : Bytes) (size : ℕ) (p : PathState)
      → (respond allow answer from body size p).1.peer ≡ p.peer
  unfolding respond credit_candidate
  respond-peer from body size p =
      let typ = if from.local == p.peer.local then path_response else path_drop in
      send_message-peer from typ (drop 1 body) (uint64 (3 * size))
        (credit_probe p.probe from size p)
      ∙ credit_probe-peer p.probe from size p
