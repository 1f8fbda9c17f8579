-- ===== src/Dtls/Flight/Timer.antt =====
-- The retransmission timer of a flight.
use mathlib.Core.Path.{subst}
use socat.Dtls.Error.{Result, handshake_timeout, err, ok}
use socat.Dtls.Flight.{max_flight_retries, maximum_retransmit, pending_send, expire, Flight}
use socat.Prelude.{
  sym, Bool, ap, refl, ◌*◌, min, ◌≢◌, zero, true, false, ◌⊎◌, ◌+◌, arith, ◌<◌, suc, ◌≡◌, ◌≤◌, ℕ,
}

-- The interval is at most a minute and the retries are at most eight.
pub record IsTimed (f : Flight) : Type 0 where
  pub interval_at_most : f.interval ≤ maximum_retransmit
  pub retries_at_most : f.retries ≤ max_flight_retries

-- From an interval of at most a minute and at most eight retries, `expire` keeps both bounds and
-- lowers neither. It leaves the flight as it was, or it answers true, the deadline having come, and the
-- next deadline is the new interval after now.
pub expire-IsTimed :
    (now : ℕ) (f : Flight)
    → IsTimed f
    → IsTimed (expire now f).1
      × (f.interval ≤ (expire now f).1.interval)
      × (f.retries ≤ (expire now f).1.retries)
      × (((expire now f).1 ≡ f)
          ⊎ (((expire now f).0 ≡ ok true)
              × (f.deadline ≤ now)
              × ((expire now f).1.deadline ≡ now + (expire now f).1.interval)))
unfolding expire
expire-IsTimed now f t = (
  record {
    interval_at_most = ground (arith, t.interval_at_most);
    retries_at_most = ground (arith, t.retries_at_most);
  },
  ground (arith, t.interval_at_most),
  ground arith,
  ground arith,
)

-- The flight waits for acknowledgements only: all was sent, its timer runs, it is not complete.
pub record IsWaiting (f : Flight) : Type 0 where
  pub running : f.complete ≡ false
  pub armed : f.deadline ≢ 0
  pub all_sent : pending_send f ≡ false

-- the timer expires `n` times, each time at its deadline
unfoldable pub expire_times : ℕ → Flight → Flight
expire_times zero f = f
expire_times (suc n) f = expire_times n (expire f.deadline f).1

retried : Flight → Flight
retried f = record f {
  retries = f.retries + 1;
  resent = true;
  interval = min (2 * f.interval) maximum_retransmit;
  deadline = f.deadline + min (2 * f.interval) maximum_retransmit;
}

expire-retried :
    (f : Flight)
    → IsWaiting f
    → f.retries < max_flight_retries
    → expire f.deadline f ≡ (ok true, retried f)
unfolding expire retried
expire-retried f w lt = ground (arith, w.running, w.armed, w.all_sent)

retried-IsWaiting : (f : Flight) → IsWaiting f → IsWaiting (retried f)
unfolding retried pending_send
retried-IsWaiting f w = record {
  running = w.running;
  armed = omega (arith, w.armed);
  all_sent = w.all_sent;
}

expire-out :
    (f : Flight)
    → IsWaiting f
    → f.retries ≡ max_flight_retries
    → expire f.deadline f ≡ (err handshake_timeout, f)
unfolding expire
expire-out f w e = ground (arith, w.running, w.armed, w.all_sent)

one_more :
    (f : Flight) (n : ℕ)
    → f.retries + suc n ≡ max_flight_retries
    → (retried f).retries + n ≡ max_flight_retries
unfolding retried
one_more f n e = omega (arith, e)

-- A flight that waits for acknowledgements and has `n` of its eight retries left gives up with the
-- handshake timeout when its timer expires once more after `n` times.
pub expire-gives_up :
    (n : ℕ) (f : Flight)
    → IsWaiting f
    → f.retries + n ≡ max_flight_retries
    → (expire (expire_times n f).deadline (expire_times n f)).0 ≡ err handshake_timeout
unfolding expire_times
expire-gives_up zero f w e = rw (expire-out f w (omega (arith, e))) refl
expire-gives_up (suc n) f w e =
    let step : expire_times (suc n) f ≡ expire_times n (retried f) =
      ap (λ (r : Result Bool × Flight). expire_times n r.1)
        (expire-retried f w (omega (arith, e))) in
    subst (λ (g : Flight). (expire g.deadline g).0 ≡ err handshake_timeout) (sym step)
      (expire-gives_up n (retried f) (retried-IsWaiting f w) (one_more f n e))
