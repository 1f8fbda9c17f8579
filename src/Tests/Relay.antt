-- ===== src/Tests/Relay.antt =====
-- The theorems on the relay and on the search for the datagram size at concrete inputs.
use socat.Relay.Transfer.FirstFailure.{transfer-first_failure}
use socat.Relay.Outcome.{failed, right_to_left, eof, left_to_right}
use socat.Dtls.MtuSearch.Answers.{reject_hard-ceiling, on_acked-IsOrdered}
use socat.Dtls.MtuSearch.Bounds.{init-IsOrdered, IsOrdered}
use socat.Dtls.MtuSearch.{reject_hard, on_acked, last_valid, MtuFinder, ceiling, init}
use socat.Relay.Copy.Ends.{write_block-writes, Patient}
use socat.Relay.Copy.Progress.{Put, Logged}
use socat.Relay.Copy.{write_block, Written, Destination}
use socat.Relay.Dump.{append_dump_body, DumpConfig}
use socat.Relay.Dump.Whole.{dump-Wrote, Wrote, Accepting}
use socat.Relay.Dump.Chunks.{dump, Writer}
use socat.Relay.Transfer.Selection.{live_results, first_failure, Once}
use socat.Relay.Transfer.{count_dirs, received, Event, transfer, LoopConfig}
use socat.Prelude.{
  Bool, is_some, append-nil, sym, ◌+◌, ◌⊎◌, false, arith, ◌<◌, take, ◌==◌, some, refl, [], ◌∷◌,
  length, ◌≤◌, none, ◌++◌, ◌≡◌, true, Option, Bytes, List, ℕ,
}

abbrev both_ways : LoopConfig
both_ways = record { left_to_right = true; right_to_left = true; linger = 500 }

abbrev two_results : List (Event ℕ)
two_results =
    received (record { dir = left_to_right; class = eof })
    ∷ received (record { dir = right_to_left; class = failed 7 })
    ∷ []

two_results-Once : Once two_results
two_results-Once = ((λ e. cc, tt), (tt, tt))

transfer-first_failure_example :
    transfer both_ways two_results
    ≡ first_failure (live_results both_ways (count_dirs both_ways) false two_results)
transfer-first_failure_example = transfer-first_failure both_ways two_results two_results-Once

-- a writer that keeps everything
abbrev keeper : Writer Bytes ℕ
keeper = record { write = λ w p. (w ++ p, length p, none); short_write = 1 }

keeper-Accepting : Accepting keeper (λ w. w)
keeper-Accepting = record { accepts = λ w p. refl; logs = λ w p. refl }

abbrev hex_config : DumpConfig
hex_config = record { verbose = true; hex = true }

dump-Wrote_example :
    (whole : Bytes) × (append_dump_body (62 ∷ []) hex_config (104 ∷ 105 ∷ 10 ∷ []) ≡ some whole)
    × Wrote keeper
        (λ w. w)
        keeper-Accepting
        []
        whole
        (dump keeper [] hex_config (62 ∷ []) (104 ∷ 105 ∷ 10 ∷ []))
dump-Wrote_example =
    dump-Wrote keeper (λ w. w) keeper-Accepting [] hex_config (62 ∷ []) 104 (105 ∷ 10 ∷ [])

-- A destination that takes one byte at a time, and asks for a retry before each.
abbrev Slow : Type 0
Slow = Bytes × Bool

abbrev one_byte : Slow → Bytes → Slow × ℕ × Option ℕ
one_byte (w, busy) [] = ((w, false), 0, none)
one_byte (w, true) (b ∷ bs) = ((w, false), 0, some 11)
one_byte (w, false) (b ∷ bs) = ((w ++ (b ∷ []), true), 1, none)

abbrev slow : Destination Slow ℕ
slow = record {
  context_error = λ w. (w, none);
  write = one_byte;
  wait_writable = λ w. (w, none);
  is_retryable = λ e. e == 11;
  is_would_block = λ e. e == 11;
  invalid_count = λ n. 100 + n;
  no_progress = 2;
}

slow_writes :
    (w : Slow) (p : Bytes)
    → (slow.write w p).1 ≤ length p
    → (slow.write w p).0.0 ≡ w.0 ++ take (slow.write w p).1 p
slow_writes (w, busy) [] h = sym (append-nil w)
slow_writes (w, true) (b ∷ bs) h = sym (append-nil w)
slow_writes (w, false) (b ∷ bs) h = refl

slow_overruns : (w : Slow) (p : Bytes) → length p < (slow.write w p).1 → (slow.write w p).0.0 ≡ w.0
slow_overruns (w, busy) [] h = absurd (omega arith)
slow_overruns (w, true) (b ∷ bs) h = absurd (omega arith)
slow_overruns (w, false) (b ∷ bs) h = absurd (omega arith)

slow-Logged : Logged slow (λ w. w.0)
slow-Logged = record {
  writes = slow_writes;
  overruns = slow_overruns;
  checks = λ w. refl;
  waits = λ w. refl;
}

abbrev slow_patience : Slow → ℕ
slow_patience (w, true) = 1
slow_patience (w, false) = 0

slow_bounded : (w : Slow) → slow_patience w ≤ 1
slow_bounded (w, true) = omega arith
slow_bounded (w, false) = omega arith

slow_stalls :
    (w : Slow) (p : Bytes) (e : ℕ)
    → (slow.write w p).1 ≡ 0
    → (slow.write w p).2 ≡ some e
    → slow.is_retryable e ≡ true
    → slow_patience (slow.write w p).0 < slow_patience w
slow_stalls (w, busy) [] e n q r = cc
slow_stalls (w, true) (b ∷ bs) e n q r = omega arith
slow_stalls (w, false) (b ∷ bs) e n q r = cc

slow-Patient : Patient slow slow_patience 1
slow-Patient = record {
  bounded = slow_bounded;
  checks = λ w. omega arith;
  waits = λ w. omega arith;
  stalls = slow_stalls;
}

abbrev nothing_written : Written Slow
nothing_written = record { world = ([], true); bytes = 0; wrote_block = false }

write_block-writes_example :
    (e : Option ℕ) × (st' : Written Slow) × (write_block slow 8 true
        (1 ∷ 2 ∷ 3 ∷ [])
        nothing_written
      ≡ some (e, st'))
    × (k : ℕ) × Put slow (λ w. w.0) slow-Logged (1 ∷ 2 ∷ 3 ∷ []) k nothing_written st'
    × ((is_some e ≡ true) ⊎ (k ≡ 3))
write_block-writes_example =
    write_block-writes slow slow_patience 1 slow-Patient (λ w. w.0) slow-Logged true
      (1 ∷ 2 ∷ 3 ∷ []) nothing_written (omega arith)

abbrev finder : MtuFinder
finder = init 1200 1500

finder-IsOrdered : IsOrdered finder
finder-IsOrdered = init-IsOrdered 1200 1500

below_ceiling : 1350 < ceiling finder
unfolding ceiling last_valid init
below_ceiling = omega arith

above_floor : finder.floor ≤ 1350
unfolding init
above_floor = omega arith

on_acked-IsOrdered_example :
    IsOrdered (on_acked 1350 finder) × ((on_acked 1350 finder).floor ≡ 1350)
on_acked-IsOrdered_example =
    on_acked-IsOrdered 1350 finder above_floor below_ceiling finder-IsOrdered

reject_hard-ceiling_example : ceiling (reject_hard 1350 finder) ≡ 1350
reject_hard-ceiling_example =
    reject_hard-ceiling 1350 finder finder-IsOrdered above_floor below_ceiling
