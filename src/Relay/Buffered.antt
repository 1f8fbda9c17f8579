-- ===== src/Relay/Buffered.antt =====
-- internal/relay/relay.go: `copyBuffered`, `finishSourceEOF` and `reportEOF`. The source, the poll, the
-- dumps and the destination are the parameter, functions of the state of the world.
use socat.Relay.Outcome.{dir_eof, dir_closed, classify_dir_error, DirOutcome, Direction}
use socat.Relay.Copy.{write_block, Destination}
use socat.Prelude.{
  ◌^◌, ◌%◌, not, ◌&&◌, [], zero, length, suc, ◌+◌, false, none, ◌∷◌, some, if◌then◌else◌, Bytes,
  Bool, Option, ℕ,
}

-- `destination` is that of writeBlock. `dump` and `raw_dump` answer the error of a dump with its prefix;
-- they do nothing where the configuration has none.
pub record Copying (W E : Type 0) : Type 0 where
  pub destination : Destination W E
  pub shared_pending : W → Bool
  pub poll : W → W × Option E
  pub read : W → W × Bytes × Option E
  pub touch : W → W
  pub dump : ℕ → Bytes → W → W × Option E
  pub raw_dump : Bytes → W → W × Option E
  pub report_eof : W → W
  pub shutdown_write : W → W
  pub is_canceled : E → Bool
  pub is_timeout : E → Bool
  pub is_benign_close : E → Bool

-- The counters and the number of bytes that were dumped, each a uint64.
pub record CopyState (W : Type 0) : Type 0 where
  pub world : W
  pub bytes : ℕ
  pub blocks : ℕ
  pub dumped : ℕ

module _ {W E : Type 0} (io : Copying W E) (dir : Direction) (use_poll polled verbose : Bool)
    (write_fuel : ℕ) where
  -- How a step of the loop ends: with the outcome of the direction, with the next round, or with the
  -- next step. `stuck` is no Go value: writeBlock ran out of fuel.
  pub data Step : Type 0 where
    finished : DirOutcome E → CopyState W → Step
    next_read : CopyState W → Step
    stuck : Step

  abbrev pub fail : E → CopyState W → Step
  fail e st = finished (classify_dir_error io.is_canceled dir e) st

  -- a benign close ends the direction without a failure
  abbrev pub fail_or_closed : E → CopyState W → Step
  fail_or_closed e st = if io.is_benign_close e then finished (dir_closed dir) st else fail e st

  unfoldable pub finish_source_eof : CopyState W → Step
  finish_source_eof st =
      let (w, canceled) = io.destination.context_error (io.report_eof st.world) in
      elim canceled [
        | none ↦ finished (dir_eof dir) (record st { world = io.shutdown_write w })
        | some e ↦ finished (dir_eof dir) (record st { world = w })
      ]

  -- `if er != nil` at the end of a round
  unfoldable pub after_read : Option E → CopyState W → Step
  after_read none st = next_read st
  after_read (some er) st =
      let (w, canceled) = io.destination.context_error st.world in
      let st' : CopyState W = record st { world = w } in
      let rest =
        if io.destination.is_retryable er
        then next_read st'
        else if io.is_benign_close er
        then finish_source_eof st'
        else fail er st' in
      elim canceled [ none ↦ rest | some e ↦ if io.is_timeout er then fail e st' else rest ]

  -- the bytes of one read are written
  unfoldable pub write_step : Bytes → Option E → CopyState W → Step
  write_step p er st =
      elim (write_block io.destination write_fuel polled p
        (record { world = st.world; bytes = st.bytes; wrote_block = false })) [
          | none ↦ stuck
          | some (ew, put) ↦
              let st' : CopyState W = record st {
                world = put.world;
                bytes = put.bytes;
                blocks = if put.wrote_block then (st.blocks + 1) % 2 ^ 64 else st.blocks;
              } in
              elim ew [ some e ↦ fail_or_closed e st' | none ↦ after_read er st' ]
        ]

  unfoldable pub raw_step : Bytes → Option E → CopyState W → Step
  raw_step p er st =
      let (w, e) = io.raw_dump p st.world in
      elim e [
        | some failure ↦ fail failure (record st { world = w })
        | none ↦ write_step p er (record st { world = w })
      ]

  -- `if nr > 0`
  unfoldable pub data_step : Bytes → Option E → CopyState W → Step
  data_step [] er st = after_read er st
  data_step (b ∷ bs) er st =
      let touched = io.touch st.world in
      if verbose
      then (let (w, e) = io.dump st.dumped (b ∷ bs) touched in
          elim e [
            | some failure ↦ fail failure (record st { world = w })
            | none ↦
                raw_step (b ∷ bs) er
                  (record st { world = w; dumped = (st.dumped + length (b ∷ bs)) % 2 ^ 64 })
          ])
      else raw_step (b ∷ bs) er (record st { world = touched })

  unfoldable pub read_step : CopyState W → Step
  read_step st = let (w, p, er) = io.read st.world in data_step p er (record st { world = w })

  -- one round of the loop
  unfoldable pub copy_round : CopyState W → Step
  copy_round st =
      let (w, canceled) = io.destination.context_error st.world in
      elim canceled [
        | some e ↦ fail e (record st { world = w })
        | none ↦
            if use_poll && not (io.shared_pending w)
            then (let (w', e) = io.poll w in
                elim e [
                  | some failure ↦ fail_or_closed failure (record st { world = w' })
                  | none ↦ read_step (record st { world = w' })
                ])
            else read_step (record st { world = w })
      ]

  -- The loop of `copyBuffered`; it runs as long as the source has bytes, so `none` is no Go value.
  unfoldable pub copy_buffered : ℕ → CopyState W → Option (DirOutcome E × CopyState W)
  copy_buffered zero st = none
  copy_buffered (suc fuel) st = elim (copy_round st) [
    | finished o st' ↦ some (o, st')
    | next_read st' ↦ copy_buffered fuel st'
    | stuck ↦ none
  ]
