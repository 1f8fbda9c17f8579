-- ===== src/Relay/Transfer.antt =====
-- internal/relay/relay.go: the loop of `Transfer` that collects the results of the directions. What
-- the select statement receives is an event; the loop is a function of the events.
pub mod Selection
pub mod FirstFailure
use socat.Relay.Outcome.{accept}
use socat.Relay.Outcome.{
  selected_transfer_error, Direction, no_outcomes, TransferOutcomes, DirOutcome,
}
use socat.Prelude.{
  [], ◌==◌, true, ◌+◌, ◌&&◌, Option, ◌∷◌, leb, false, not, List, if◌then◌else◌, Bool, ℕ,
}

pub record LoopConfig : Type 0 where
  pub left_to_right : Bool
  pub right_to_left : Bool
  pub linger : ℕ

-- a result, the expiry of the linger timer, the end of the context
pub data Event (E : Type 0) : Type 0 where
  received : DirOutcome E → Event E
  linger_expired context_done : Event E

-- `draining`: the loop is in one of its two inner loops, where results are stored and not inspected.
pub record LoopState (E : Type 0) : Type 0 where
  pub outcomes : TransferOutcomes E
  pub finished : ℕ
  pub lingering : Bool
  pub idle_stopped : Bool
  pub canceled_context : Bool
  pub draining : Bool

-- Without a direction, both are on.
unfoldable pub count_dirs : LoopConfig → ℕ
count_dirs cfg =
    if not cfg.left_to_right && not cfg.right_to_left
    then 2
    else (if cfg.left_to_right then 1 else 0) + (if cfg.right_to_left then 1 else 0)

module _ {E : Type 0} where
  abbrev pub start : LoopState E
  start = record {
    outcomes = no_outcomes;
    finished = 0;
    lingering = false;
    idle_stopped = false;
    canceled_context = false;
    draining = false;
  }

  unfoldable pub receive : LoopConfig → DirOutcome E → LoopState E → LoopState E
  receive cfg r s =
      if s.draining
      then record s { outcomes = accept r false s.outcomes; finished = s.finished + 1 }
      else let s' : LoopState E = record s {
        outcomes = accept r true s.outcomes;
        finished = s.finished + 1;
      } in
        if s'.finished == 1 && count_dirs cfg == 2
        then (if cfg.linger == 0
            then record s' { canceled_context = true }
            else record s' { idle_stopped = true; lingering = true })
        else s'

  -- One event. None is received once the directions have finished; the timer's channel is nil
  -- until the linger begins.
  unfoldable pub on_event : LoopConfig → Event E → LoopState E → LoopState E
  on_event cfg e s = if leb (count_dirs cfg) s.finished then s else elim e [
    | received r ↦ receive cfg r s
    | linger_expired ↦
        if s.lingering && not s.draining
        then record s { canceled_context = true; draining = true }
        else s
    | context_done ↦ if s.draining then s else record s { draining = true }
  ]

  unfoldable pub run_loop : LoopConfig → List (Event E) → LoopState E → LoopState E
  run_loop cfg [] s = s
  run_loop cfg (e ∷ es) s = run_loop cfg es (on_event cfg e s)

  -- what `Transfer` returns after its loop
  unfoldable pub transfer : LoopConfig → List (Event E) → Option (Direction × E)
  transfer cfg es = selected_transfer_error (run_loop cfg es start).outcomes
