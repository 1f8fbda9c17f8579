-- ===== src/Dtls/Rtt.antt =====
-- internal/dtls13/rtt.go: the timers that follow the round-trip time. Durations are nanoseconds; of the
-- session only the round-trip time matters, 0 while it is unknown.
use socat.Dtls.Flight.{maximum_retransmit, initial_retransmit, Flight}
use socat.Prelude.{
  none, ◌-◌, not, ◌||◌, ◌*◌, ◌+◌, some, max, ◌==◌, ltb, Option, ◌/◌, if◌then◌else◌, ℕ,
}

abbrev pub min_retransmit : ℕ
min_retransmit = 100000000

abbrev pub min_path_challenge : ℕ
min_path_challenge = 100000000

abbrev pub initial_path_challenge : ℕ
initial_path_challenge = 1000000000

unfoldable pub clamp_duration : ℕ → ℕ → ℕ → ℕ
clamp_duration d lo hi = if ltb d lo then lo else if ltb hi d then hi else d

unfoldable pub retransmit_timer : ℕ → ℕ
unfolding clamp_duration
retransmit_timer rtt =
    if rtt == 0
    then initial_retransmit
    else clamp_duration (rtt + rtt / 2) min_retransmit maximum_retransmit

unfoldable pub ack_delay : ℕ → ℕ
ack_delay rtt = retransmit_timer rtt / 4

unfoldable pub path_challenge_timer : ℕ → ℕ
path_challenge_timer rtt =
    if rtt == 0 then initial_path_challenge else max (3 * rtt) min_path_challenge

-- `noteRTT`; a nil flight is `none`
unfoldable pub note_rtt : ℕ → Option Flight → ℕ → ℕ × Option Flight
note_rtt sample flight rtt = if sample == 0 then (rtt, flight) else (
  sample,
  elim flight [
    | none ↦ none
    | some f ↦ if f.resent then some f else some (record f { interval = retransmit_timer sample })
  ],
)

unfoldable pub note_flight_rtt : Option Flight → ℕ → ℕ → ℕ
note_flight_rtt none now rtt = rtt
note_flight_rtt (some f) now rtt =
    if f.complete
      || (f.resent || (f.burst_wait || (f.first_sent == 0 || not (ltb f.first_sent now))))
    then rtt
    else (note_rtt (now - f.first_sent) none rtt).0
