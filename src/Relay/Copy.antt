-- ===== src/Relay/Copy.antt =====
-- internal/relay/relay.go: `writeBlock`. The destination stream, the context and the poll are one
-- parameter, a function of the state of the world.
pub mod Progress
pub mod Ends
use socat.Prelude.{
  ◌^◌, zero, [], drop, inr, ◌+◌, ◌/◌, suc, length, ◌%◌, ◌∷◌, ltb, ◌||◌, none, inl, ◌&&◌, some, ◌⊎◌,
  ◌==◌, if◌then◌else◌, Bytes, Bool, Option, ℕ,
}

-- What a call answers: the count and the error of Write, the error of the context, of waitWritable.
pub record Destination (W E : Type 0) : Type 0 where
  pub context_error : W → W × Option E
  pub write : W → Bytes → W × ℕ × Option E
  pub wait_writable : W → W × Option E
  pub is_retryable : E → Bool
  pub is_would_block : E → Bool
  pub invalid_count : ℕ → E
  pub no_progress : E

-- The counters of one direction: the bytes written, a uint64, whether a block was written, and the world.
pub record Written (W : Type 0) : Type 0 where
  pub world : W
  pub bytes : ℕ
  pub wrote_block : Bool

module _ {W E : Type 0} (dst : Destination W E) where
  -- what follows a write that reported `nw` and an error: the error that ends the loop, if it ends
  unfoldable pub after_write : Bool → ℕ → Option E → W → W × Option E
  after_write polled nw none w = if nw == 0 then (w, some dst.no_progress) else (w, none)
  after_write polled nw (some e) w =
      if dst.is_retryable e
      then (if polled && dst.is_would_block e then dst.wait_writable w else (w, none))
      else (w, some e)

  abbrev pub wrote : ℕ → Written W → W → Written W
  wrote nw st w = record {
    world = w;
    bytes = (st.bytes + nw) % 2 ^ 64;
    wrote_block = st.wrote_block || ltb 0 nw;
  }

  -- the error, or the bytes that the next round starts with
  abbrev pub round_end : Bytes → ℕ → Written W → W × Option E → (E ⊎ Bytes) × Written W
  round_end left_over nw st (w, some e) = (inl e, wrote nw st w)
  round_end left_over nw st (w, none) = (inr (drop nw left_over), wrote nw st w)

  -- the round after the write; a negative count is no natural number
  unfoldable pub count_round : Bool → Bytes → Written W → W × ℕ × Option E → (E ⊎ Bytes) × Written W
  count_round polled left_over st (w, nw, e) =
      if ltb (length left_over) nw
      then (inl (dst.invalid_count nw), record st { world = w })
      else round_end left_over nw st (after_write polled nw e w)

  abbrev pub checked_round : Bool → Bytes → Written W → W × Option E → (E ⊎ Bytes) × Written W
  checked_round polled left_over st (w, some e) = (inl e, record st { world = w })
  checked_round polled left_over st (w, none) =
      count_round polled left_over st (dst.write w left_over)

  -- One round of the loop on the bytes that are left.
  unfoldable pub write_round : Bool → Bytes → Written W → (E ⊎ Bytes) × Written W
  write_round polled left_over st = checked_round polled left_over st (dst.context_error st.world)

  -- `return wroteBlock, err`, or the next round
  abbrev pub next_round :
      (Bytes → Written W → Option (Option E × Written W))
      → (E ⊎ Bytes) × Written W
      → Option (Option E × Written W)
  next_round go (inl e, st) = some (some e, st)
  next_round go (inr rest, st) = go rest st

  -- The loop; `none` is no Go value: a destination that keeps asking for a retry never ends it.
  unfoldable pub write_block : ℕ → Bool → Bytes → Written W → Option (Option E × Written W)
  write_block fuel polled [] st = some (none, st)
  write_block zero polled (b ∷ bs) st = none
  write_block (suc fuel) polled (b ∷ bs) st =
      next_round (λ rest st'. write_block fuel polled rest st') (write_round polled (b ∷ bs) st)

-- the blocks that a count of bytes makes, rounded up
unfoldable pub configured_block_count : ℕ → ℕ → ℕ
configured_block_count n buffer_size =
    if n == 0 || buffer_size == 0
    then 0
    else if n % buffer_size == 0
    then n / buffer_size
    else n / buffer_size + 1
