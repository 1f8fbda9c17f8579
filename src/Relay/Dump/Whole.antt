-- ===== src/Relay/Dump/Whole.antt =====
-- The dump of internal/relay/dump.go in chunks against the one in a single buffer.
use socat.Relay.Dump.Format.{
  append_text_dump-out, append_hex_bytes-out, append_hex_bytes-append, append_text_dump-append,
  combined_rows_step, append_combined_row-out, row-progress,
}
use socat.Relay.Dump.{
  max_dump_output_buffer, dump_body_limit, append_hex_bytes, DumpConfig, append_text_dump,
  append_hex_dump, append_dump_body, append_combined_dump, dump_input_chunk, append_combined_row,
  combined_rows,
}
use socat.Prelude.{
  ◌-◌, ◌||◌, ◌&&◌, if◌then◌else◌, length-drop, zero, inr, take-append-drop, inl, drop, Bool-cases,
  true, ◌==◌, ltb, take, refl, suc, ◌∷◌, append-nil, sym, append_assoc, ◌≤◌, ◌∙◌, arith, ◌++◌, ap,
  none, length, ℕ, [], some, Option, ◌≡◌, Bytes,
}
use socat.Relay.Dump.Chunks.{
  write_combined_chunks, dump, dump_large, write_text_chunks, write_hex_chunks, after, reported,
  combined_chunks, write_chunks, write_dump, Writer,
}

same_number : (n : ℕ) → (n == n) ≡ true
same_number n = ground arith

-- A writer that takes all it is given: `log` is what was written to it.

pub record Accepting {W E : Type 0} (out : Writer W E) (log : W → Bytes) : Type 0 where
  pub accepts : (w : W) (p : Bytes) → out.write w p ≡ ((out.write w p).0, length p, none)
  pub logs : (w : W) (p : Bytes) → log (out.write w p).0 ≡ log w ++ p

module _ {W E : Type 0} (out : Writer W E) (log : W → Bytes) (good : Accepting out log) where
  -- The writes reported no error and put `p` behind what the log held.
  abbrev pub Wrote : W → Bytes → Option (W × Option E) → Type 0
  Wrote w p answer = (w' : W) × (answer ≡ some (w', none)) × (log w' ≡ log w ++ p)

  write_dump-accepting : (w : W) (p : Bytes) → write_dump out w p ≡ ((out.write w p).0, none)
  unfolding write_dump
  write_dump-accepting w p =
      ap (reported out (length p)) (good.accepts w p) ∙ rw (same_number (length p)) refl

  write_dump-Wrote : (w : W) (p : Bytes) → Wrote w p (some (write_dump out w p))
  write_dump-Wrote w p = ((out.write w p).0, ap some (write_dump-accepting w p), good.logs w p)

  -- what a second write adds follows what the first wrote
  Wrote-trans :
      (w : W) (p q : Bytes) {answer : Option (W × Option E)}
      → Wrote (out.write w p).0 q answer
      → Wrote w (p ++ q) answer
  Wrote-trans w p q {answer} (w'', a, l) =
      (w'', a, l ∙ rw (good.logs w p) (append_assoc (log w) p q))

  abbrev Formats : (Bytes → Bytes) → Type 0
  Formats format = (format [] ≡ []) × ((p q : Bytes) → format (p ++ q) ≡ format p ++ format q)

  write_chunks_step :
      (format : Bytes → Bytes) (fuel : ℕ) (w : W) (b : ℕ) (bs : Bytes)
      → write_chunks out format (suc fuel) w (b ∷ bs)
        ≡ write_chunks out format fuel
            (out.write w (format (take dump_input_chunk (b ∷ bs)))).0
            (drop dump_input_chunk (b ∷ bs))
  unfolding write_chunks
  write_chunks_step format fuel w b bs =
      ap
        (λ (a : W × Option E).
          after out a (λ w'. write_chunks out format fuel w' (drop dump_input_chunk (b ∷ bs))))
        (write_dump-accepting w (format (take dump_input_chunk (b ∷ bs))))

  write_chunks-Wrote :
      (format : Bytes → Bytes)
      → Formats format
      → (fuel : ℕ) (w : W) (p : Bytes) → length p ≤ fuel
      → Wrote w (format p) (write_chunks out format fuel w p)
  write_chunks-Wrote format f fuel w [] h =
      (w, unfold write_chunks in refl, rw (f.0) (sym (append-nil (log w))))
  write_chunks-Wrote format f zero w (b ∷ bs) h = absurd (omega arith)
  write_chunks-Wrote format f (suc fuel) w (b ∷ bs) h =
      let chunk = take dump_input_chunk (b ∷ bs) in
      let rest = drop dump_input_chunk (b ∷ bs) in
      let pieces : format (b ∷ bs) ≡ format chunk ++ format rest =
        ap format (sym (take-append-drop dump_input_chunk (b ∷ bs))) ∙ f.1 chunk rest in
      rw (write_chunks_step format fuel w b bs, pieces)
        (Wrote-trans w (format chunk) (format rest) (
          write_chunks-Wrote format f fuel (out.write w (format chunk)).0 rest
            (omega (arith, length-drop dump_input_chunk (b ∷ bs)))))

  combined_chunks_step :
      (fuel : ℕ) (w : W) (buffer : Bytes) (b : ℕ) (bs line rest : Bytes)
      → append_combined_row [] (b ∷ bs) ≡ (line, rest)
      → combined_chunks out (suc fuel) w buffer (b ∷ bs) ≡ (
          if ltb (length (buffer ++ line)) dump_input_chunk
          then combined_chunks out fuel w (buffer ++ line) rest
          else combined_chunks out fuel (out.write w (buffer ++ line)).0 [] rest)
  unfolding combined_chunks
  combined_chunks_step fuel w buffer b bs line rest e =
      ap
        (λ (r : Bytes × Bytes).
          if ltb (length r.0) dump_input_chunk
          then combined_chunks out fuel w r.0 r.1
          else after out (write_dump out w r.0) (λ w'. combined_chunks out fuel w' [] r.1))
        (append_combined_row-out buffer (b ∷ bs)
          ∙ ap (λ (r : Bytes × Bytes). (buffer ++ r.0, r.1)) e)
      ∙ ap
          (λ (a : W × Option E).
            if ltb (length (buffer ++ line)) dump_input_chunk
            then combined_chunks out fuel w (buffer ++ line) rest
            else after out a (λ w'. combined_chunks out fuel w' [] rest))
          (write_dump-accepting w (buffer ++ line))

  abbrev end_mark : Bytes
  end_mark = 45 ∷ 45 ∷ 10 ∷ []

  combined_round :
      (fuel : ℕ) (w : W) (buffer : Bytes) (b : ℕ) (bs rows : Bytes)
      → ((w : W) (buffer : Bytes)
          → Wrote w
              (buffer ++ (rows ++ end_mark))
              (combined_chunks out fuel w buffer (append_combined_row [] (b ∷ bs)).1))
      → Wrote w
          (buffer ++ (((append_combined_row [] (b ∷ bs)).0 ++ rows) ++ end_mark))
          (combined_chunks out (suc fuel) w buffer (b ∷ bs))
  combined_round fuel w buffer b bs rows chunks =
      let (row, rest) = append_combined_row [] (b ∷ bs) in
      let split : buffer ++ ((row ++ rows) ++ end_mark) ≡ (buffer ++ row) ++ (rows ++ end_mark) =
        rw (append_assoc row rows end_mark) (sym (append_assoc buffer row (rows ++ end_mark))) in
      rw split (elim (Bool-cases (ltb (length (buffer ++ row)) dump_input_chunk)) [
        | inl e ↦
            rw (combined_chunks_step fuel w buffer b bs row rest refl, e) (chunks w (buffer ++ row))
        | inr e ↦
            rw (combined_chunks_step fuel w buffer b bs row rest refl, e)
              (Wrote-trans w (buffer ++ row) (rows ++ end_mark)
                (chunks (out.write w (buffer ++ row)).0 []))
      ])

  -- The rows in one buffer, and the rows written in chunks.
  combined_both :
      (fuel : ℕ) (p : Bytes)
      → length p ≤ fuel
      → (rows : Bytes) × ((o : Bytes) → combined_rows fuel o p ≡ some (o ++ rows))
        × ((w : W) (buffer : Bytes)
            → Wrote w (buffer ++ (rows ++ end_mark)) (combined_chunks out fuel w buffer p))
  combined_both fuel [] h = (
    [],
    λ o. unfold combined_rows in ap some (sym (append-nil o)),
    λ w buffer. unfold combined_chunks in write_dump-Wrote w (buffer ++ end_mark),
  )
  combined_both zero (b ∷ bs) h = absurd (omega arith)
  combined_both (suc fuel) (b ∷ bs) h =
      let (rows, whole, chunks) =
        combined_both fuel ((append_combined_row [] (b ∷ bs)).1)
          (omega (arith, row-progress [] b bs)) in
      (
        (append_combined_row [] (b ∷ bs)).0 ++ rows,
        λ o. rw (combined_rows_step fuel o b bs) (
            whole (o ++ (append_combined_row [] (b ∷ bs)).0)
            ∙ ap some (append_assoc o ((append_combined_row [] (b ∷ bs)).0) rows)),
        λ w buffer. combined_round fuel w buffer b bs rows chunks,
      )

  hex-Wrote : (w : W) (p : Bytes) → Wrote w (append_hex_dump [] p) (write_hex_chunks out w p)
  unfolding write_hex_chunks append_hex_dump
  hex-Wrote w p =
      let (w', e, l) =
        write_chunks-Wrote (append_hex_bytes [])
          (unfold append_hex_bytes in refl, append_hex_bytes-append) (length p) w p (omega arith) in
      let (w'', e', l') = write_dump-Wrote w' (10 ∷ []) in
      rw (e, write_hex_chunks)
        (w'', e', l' ∙ rw l (append_assoc (log w) (append_hex_bytes [] p) (10 ∷ [])))

  text-Wrote : (w : W) (p : Bytes) → Wrote w (append_text_dump [] p) (write_text_chunks out w p)
  unfolding write_text_chunks
  text-Wrote w p =
      write_chunks-Wrote (append_text_dump [])
        (unfold append_text_dump in refl, append_text_dump-append) (length p) w p (omega arith)

  combined-Wrote :
      (o p : Bytes)
      → (body : Bytes) × (append_combined_dump o p ≡ some (o ++ body))
        × ((w : W) → Wrote w body (write_combined_chunks out w p))
  unfolding append_combined_dump write_combined_chunks
  combined-Wrote o p =
      let (rows, whole, chunks) = combined_both (length p) p (omega arith) in
      (
        rows ++ end_mark,
        rw (whole o, append_combined_dump) (ap some (append_assoc o rows end_mark)),
        λ w. chunks w [],
      )

  -- the body in one buffer, and what dump_large writes after the header
  body_both :
      (cfg : DumpConfig) (header p : Bytes)
      → (body : Bytes) × (append_dump_body header cfg p ≡ some (header ++ body))
        × ((w : W)
            → Wrote w body (
                if cfg.verbose && cfg.hex
                then write_combined_chunks out w p
                else if cfg.hex
                then write_hex_chunks out w p
                else write_text_chunks out w p))
  unfolding append_dump_body append_hex_dump
  body_both cfg header p = elim (Bool-cases (cfg.verbose && cfg.hex)) [
    | inl e ↦ rw e (combined-Wrote header p)
    | inr e ↦ rw e (elim (Bool-cases cfg.hex) [
      | inl h ↦ rw h (
        append_hex_dump [] p,
        ap some (
            rw (append_hex_bytes-out header p)
              (append_assoc header (append_hex_bytes [] p) (10 ∷ []))),
        λ w. hex-Wrote w p,
      )
      | inr h ↦
          rw h (append_text_dump [] p, ap some (append_text_dump-out header p), λ w. text-Wrote w p)
    ])
  ]

  large-Wrote :
      (w : W) (cfg : DumpConfig) (header p : Bytes)
      → (whole : Bytes) × (append_dump_body header cfg p ≡ some whole)
        × Wrote w whole (dump_large out w cfg header p)
  unfolding dump_large
  large-Wrote w cfg header p =
      let (body, e, writes) = body_both cfg header p in
      (
        header ++ body,
        e,
        rw (write_dump-accepting w header)
            (Wrote-trans w header body (writes (out.write w header).0)),
      )

  -- With a writer that takes all it is given, `dump` of at least one byte reports no error, and what
  -- it writes in all, at once or in chunks, is the record of `append_dump_body` behind the header.
  pub dump-Wrote :
      (w : W) (cfg : DumpConfig) (header : Bytes) (b : ℕ) (bs : Bytes)
      → (whole : Bytes) × (append_dump_body header cfg (b ∷ bs) ≡ some whole)
        × Wrote w whole (dump out w cfg header (b ∷ bs))
  unfolding dump
  dump-Wrote w cfg header b bs =
      let limit = dump_body_limit cfg (length (b ∷ bs)) in
      let (whole, e, written) = large-Wrote w cfg header (b ∷ bs) in
      elim (Bool-cases (
        ltb max_dump_output_buffer limit || ltb (max_dump_output_buffer - limit) (length header))) [
          | inl large ↦ rw large (large-Wrote w cfg header (b ∷ bs))
          | inr small ↦ rw (small, e) (whole, refl, write_dump-Wrote w whole)
        ]
