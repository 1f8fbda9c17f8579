-- ===== src/Relay/Dump/Chunks.antt =====
-- internal/relay/dump.go: the writes of one dump record, in one buffer or in chunks. A result is
-- the writer's state and the error; an outer `none` is no Go value, the fuel ran out.
-- An io.Writer: what it is given, the count it reports and its error.
use socat.Relay.Dump.{
  append_dump_body, max_dump_output_buffer, dump_input_chunk, append_combined_row, dump_body_limit,
  append_hex_bytes, append_text_dump, DumpConfig,
}
use socat.Prelude.{
  ◌-◌, zero, ◌||◌, drop, ltb, take, suc, ◌&&◌, ◌==◌, ◌∷◌, ◌++◌, if◌then◌else◌, [], none, length,
  some, Option, Bytes, ℕ,
}

pub record Writer (W E : Type 0) : Type 0 where
  pub write : W → Bytes → W × ℕ × Option E
  pub short_write : E

module _ {W E : Type 0} (out : Writer W E) where
  -- `if err != nil { return err }; if n != len(p) { return io.ErrShortWrite }; return nil`
  abbrev pub reported : ℕ → W × ℕ × Option E → W × Option E
  reported size (w, n, some failure) = (w, some failure)
  reported size (w, n, none) = if n == size then (w, none) else (w, some out.short_write)

  unfoldable pub write_dump : W → Bytes → W × Option E
  write_dump w p = reported (length p) (out.write w p)

  -- `if err := ...; err != nil { return err }`, and what follows
  abbrev pub after : W × Option E → (W → Option (W × Option E)) → Option (W × Option E)
  after (w, some failure) k = some (w, some failure)
  after (w, none) k = k w

  -- The loop shared by the two functions below: each chunk is formatted on its own.
  unfoldable pub write_chunks : (Bytes → Bytes) → ℕ → W → Bytes → Option (W × Option E)
  write_chunks format fuel w [] = some (w, none)
  write_chunks format zero w (b ∷ bs) = none
  write_chunks format (suc fuel) w (b ∷ bs) =
      after (write_dump w (format (take dump_input_chunk (b ∷ bs))))
        (λ w'. write_chunks format fuel w' (drop dump_input_chunk (b ∷ bs)))

  unfoldable pub write_text_chunks : W → Bytes → Option (W × Option E)
  write_text_chunks w p = write_chunks (append_text_dump []) (length p) w p

  unfoldable pub write_hex_chunks : W → Bytes → Option (W × Option E)
  write_hex_chunks w p = elim (write_chunks (append_hex_bytes []) (length p) w p) [
    | none ↦ none
    | some answer ↦ after answer (λ w'. some (write_dump w' (10 ∷ [])))
  ]

  unfoldable pub combined_chunks : ℕ → W → Bytes → Bytes → Option (W × Option E)
  combined_chunks fuel w buffer [] = some (write_dump w (buffer ++ (45 ∷ 45 ∷ 10 ∷ [])))
  combined_chunks zero w buffer (b ∷ bs) = none
  combined_chunks (suc fuel) w buffer (b ∷ bs) =
      let (buffer', rest) = append_combined_row buffer (b ∷ bs) in
      let kept = combined_chunks fuel w buffer' rest in
      let flushed = after (write_dump w buffer') (λ w'. combined_chunks fuel w' [] rest) in
      if ltb (length buffer') dump_input_chunk then kept else flushed

  unfoldable pub write_combined_chunks : W → Bytes → Option (W × Option E)
  write_combined_chunks w p = combined_chunks (length p) w [] p

  unfoldable pub dump_large : W → DumpConfig → Bytes → Bytes → Option (W × Option E)
  dump_large w cfg header p = after (write_dump w header) (λ w'.
      if cfg.verbose && cfg.hex
      then write_combined_chunks w' p
      else if cfg.hex
      then write_hex_chunks w' p
      else write_text_chunks w' p)

  -- `dump` with a writer, the header formatted
  unfoldable pub dump : W → DumpConfig → Bytes → Bytes → Option (W × Option E)
  dump w cfg header [] = some (w, none)
  dump w cfg header (b ∷ bs) =
      let limit = dump_body_limit cfg (length (b ∷ bs)) in
      if ltb max_dump_output_buffer limit || ltb (max_dump_output_buffer - limit) (length header)
      then dump_large w cfg header (b ∷ bs)
      else elim (append_dump_body header cfg (b ∷ bs)) [
        | none ↦ none
        | some record_bytes ↦ some (write_dump w record_bytes)
      ]
