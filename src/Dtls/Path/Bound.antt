-- ===== src/Dtls/Path/Bound.antt =====
-- The bound on what is sent to addresses that are not validated, over any sequence of events.
use socat.Dtls.Record.{content_rrc}
use socat.Dtls.Path.Amplification.{
  add_credit-le, uint64-le, send_message-exposure, start_basic-exposure, observe-exposure,
  for_candidate, probe_credit, unvalidated, exposure,
}
use socat.Dtls.Error.{Result, Error}
use socat.Dtls.Path.{
  same_path, add_credit, observe, path_drop, path_response, uint64, PathState, PacketPath,
  PathProbe, Sent,
}
use socat.Dtls.Path.Receive.{
  tick, answered, credit_candidate, passes, run_events, on_event, after_observe, tick_probe,
  receive, check_answer, finish_probe, respond, credit_probe, arrives, PathEvent,
}
use socat.Prelude.{
  inr, inl, false, Bool-cases, true, ap, drop, none, refl, some, ◌==◌, ◌*◌, arith, if◌then◌else◌,
  ◌≤◌, [], Bytes, ◌≡◌, ◌+◌, Option, ◌∷◌, Bool, List, ℕ,
}

-- The sizes of the records that arrive.
abbrev pub received : List PathEvent → ℕ
received [] = 0
received (arrives from number typ body size now random random' ∷ es) = size + received es
received (passes now random ∷ es) = received es

module _ (allow : ℕ → Bool) (answer : List Sent → Option Error) where
  at_most : (b : Bool) (n : ℕ) → (if b then 0 else n) ≤ n
  at_most true n = omega arith
  at_most false n = omega arith

  three_times : (size : ℕ) → uint64 (3 * size) ≤ 3 * size
  three_times size = uint64-le allow answer (3 * size)

  raised : (size : ℕ) (b : PathProbe) → (add_credit size b).credit ≤ b.credit + 3 * size
  raised size b = add_credit-le allow answer size b

  same_candidate :
      (from : PacketPath) (size : ℕ) (b : PathProbe)
      → same_path from b.candidate ≡ true
      → (if for_candidate from (some (add_credit size b)) then 0 else uint64 (3 * size)) ≡ 0
  unfolding add_credit
  same_candidate from size b e = rw e refl

  -- A challenge of the candidate raises its credit, and pays for the response from it.
  credit_probe-exposure :
      (o : Option PathProbe) (from : PacketPath) (size : ℕ) (p : PathState)
      → p.probe ≡ o
      → exposure (credit_probe o from size p)
          + (if for_candidate from (credit_probe o from size p).probe then 0 else uint64 (3 * size))
        ≤ exposure p + 3 * size
  unfolding credit_probe
  credit_probe-exposure none from size p h =
      omega (arith, at_most (for_candidate from p.probe) (uint64 (3 * size)), three_times size)
  credit_probe-exposure (some b) from size p h =
      let held : probe_credit p.probe ≡ b.credit = ap probe_credit h in
      let uncharged = at_most (for_candidate from p.probe) (uint64 (3 * size)) in
      elim (Bool-cases (same_path from b.candidate)) [
        | inl e ↦ rw e (omega (arith, raised size b, same_candidate from size b e))
        | inr e ↦ rw e (omega (arith, uncharged, three_times size))
      ]

  respond-exposure :
      (from : PacketPath) (body : Bytes) (size : ℕ) (p : PathState)
      → exposure (respond allow answer from body size p).1 ≤ exposure p + 3 * size
  unfolding respond credit_candidate
  respond-exposure from body size p =
      let typ = if from.local == p.peer.local then path_response else path_drop in
      let credited = credit_probe-exposure p.probe from size p refl in
      let sent =
        send_message-exposure allow answer from typ (drop 1 body) (uint64 (3 * size))
          (credit_probe p.probe from size p) in
      omega arith

  finish_probe-exposure : (b : PathProbe) (p : PathState) → exposure (finish_probe b p) ≤ exposure p
  unfolding finish_probe
  finish_probe-exposure b p = ground arith

  check_answer-exposure :
      (o : Option PathProbe) (from : PacketPath) (body : Bytes) (now : ℕ) (random : Result Bytes)
      (p : PathState)
      → p.probe ≡ o
      → exposure (check_answer allow answer o from body now random p).1 ≤ exposure p
  unfolding check_answer answered
  check_answer-exposure none from body now random p h = omega arith
  check_answer-exposure (some b) from body now random p h =
      let basic = start_basic-exposure allow answer b now random p h in
      let finished = finish_probe-exposure b p in ground arith

  receive-exposure :
      (from : PacketPath) (body : Bytes) (size now : ℕ) (random : Result Bytes) (p : PathState)
      → exposure (receive allow answer from body size now random p).1 ≤ exposure p + 3 * size
  unfolding receive
  receive-exposure from body size now random p =
      let responded = respond-exposure from body size p in
      let checked = check_answer-exposure p.probe from body now random p refl in ground arith

  tick_probe-exposure :
      (o : Option PathProbe) (now : ℕ) (random : Result Bytes) (p : PathState)
      → p.probe ≡ o
      → exposure (tick_probe allow answer o now random p).1 ≤ exposure p
  unfolding tick_probe
  tick_probe-exposure none now random p h = omega arith
  tick_probe-exposure (some b) now random p h =
      let basic = start_basic-exposure allow answer b now random p h in ground arith

  after_observe-exposure :
      (from : PacketPath) (epoch typ : ℕ) (body : Bytes) (size now : ℕ) (random : Result Bytes)
      (r : Option Error × PathState)
      → exposure (after_observe allow answer from epoch typ body size now random r).1
        ≤ exposure r.1 + (if typ == content_rrc then 3 * size else 0)
  unfolding after_observe
  after_observe-exposure from epoch typ body size now random (some e, p) = omega arith
  after_observe-exposure from epoch typ body size now random (none, p) =
      let got = receive-exposure from body size now random p in ground arith

  on_event-exposure :
      (e : PathEvent) (p : PathState)
      → exposure (on_event allow answer e p).1 ≤ exposure p + 3 * received (e ∷ [])
  unfolding on_event tick
  on_event-exposure (arrives from number typ body size now random random') p =
      let observed = observe-exposure allow answer from number typ size now random p in
      let after =
        after_observe-exposure from number.epoch typ body size now random'
          (observe allow answer from number typ size now random p) in
      ground arith
  on_event-exposure (passes now random) p =
      omega (arith, tick_probe-exposure p.probe now random p refl)

  -- Whatever arrives, from wherever, and whatever the transport answers: what is sent to addresses
  -- other than the peer's, with what the credit of the probe still allows, grows by three times the
  -- bytes that arrive at most.
  pub run_events-amplification :
      (es : List PathEvent) (p : PathState)
      → unvalidated (run_events allow answer es p).sent
          + probe_credit (run_events allow answer es p).probe
        ≤ unvalidated p.sent + probe_credit p.probe + 3 * received es
  unfolding run_events
  run_events-amplification [] p = omega arith
  run_events-amplification (arrives from number typ body size now random random' ∷ es) p =
      let e = arrives from number typ body size now random random' in
      omega
        (arith, run_events-amplification es (on_event allow answer e p).1, on_event-exposure e p)
  run_events-amplification (passes now random ∷ es) p =
      let e = passes now random in
      omega
        (arith, run_events-amplification es (on_event allow answer e p).1, on_event-exposure e p)
