-- ===== src/Relay/Copy/Ends.antt =====
-- When `writeBlock` of internal/relay/relay.go returns.
use mathlib.Core.Path.{subst}
use socat.Relay.Copy.Progress.{write_block-Returned, Returned, Put, Logged}
use socat.Relay.Copy.{
  round_end, next_round, write_round, checked_round, count_round, after_write, Written, write_block,
  Destination,
}
use socat.Prelude.{
  ◌-◌, ◌+◌, ◌^◌, drop, ◌*◌, is_some, zero, [], suc, ltb, length-drop, refl, ◌∷◌, Bool-cases, arith,
  ◌≤◌, none, inr, true, length, inl, some, ◌⊎◌, ◌<◌, ◌≡◌, Option, Bool, Bytes, ℕ,
}

-- A bound on the retries in a row that write nothing: each of them, with the wait for a destination
-- that can be written again, leaves less patience, of which there is never more than `limit`.
pub record Patient {W E : Type 0} (dst : Destination W E) (patience : W → ℕ) (limit : ℕ)
    : Type 0 where
  pub bounded : (w : W) → patience w ≤ limit
  pub checks : (w : W) → patience (dst.context_error w).0 ≤ patience w
  pub waits : (w : W) → patience (dst.wait_writable w).0 ≤ patience w
  pub stalls :
      (w : W) (p : Bytes) (e : E)
      → (dst.write w p).1 ≡ 0
      → (dst.write w p).2 ≡ some e
      → dst.is_retryable e ≡ true
      → patience (dst.write w p).0 < patience w

module _ {W E : Type 0} (dst : Destination W E) (patience : W → ℕ) (limit : ℕ)
    (patient : Patient dst patience limit) where
  -- enough rounds for `n` bytes
  abbrev pub rounds : ℕ → W → ℕ
  rounds n w = n * suc limit + patience w

  -- the round ends the loop, or leaves less to do
  abbrev Shrinks : Bytes → Written W → (E ⊎ Bytes) × Written W → Type 0
  Shrinks p st (inl e, st') = Unit
  Shrinks p st (inr rest, st') = rounds (length rest) st'.world < rounds (length p) st.world

  fewer : (m n j k : ℕ) → m < n → j ≤ limit → m * suc limit + j < n * suc limit + k
  fewer m n j k h l =
      let d = n - suc m in let e : n ≡ suc (m + d) = omega arith in rw e (omega arith)

  module _ (polled : Bool) (p : Bytes) (some_left : 0 < length p) (st : Written W) where
    round_end-Shrinks :
        (nw : ℕ) (a : W × Option E)
        → (a.1 ≡ none → (0 < nw) ⊎ ((nw ≡ 0) × (patience a.0 < patience st.world)))
        → Shrinks p st (round_end dst p nw st a)
    round_end-Shrinks nw (w, some e) h = tt
    round_end-Shrinks nw (w, none) h = elim (h refl) [
      | inl some_written ↦
          fewer (length (drop nw p)) (length p) (patience w) (patience st.world)
            (omega (arith, length-drop nw p)) (patient.bounded w)
      | inr (zero_written, less) ↦ rw zero_written (omega arith)
    ]

    after_write-patience :
        (nw : ℕ) (e : Option E) (w : W)
        → ((f : E)
            → nw ≡ 0
            → e ≡ some f
            → dst.is_retryable f ≡ true
            → patience w < patience st.world)
        → (after_write dst polled nw e w).1 ≡ none
        → (0 < nw) ⊎ ((nw ≡ 0) × (patience (after_write dst polled nw e w).0 < patience st.world))
    unfolding after_write
    after_write-patience nw none w h q = ground arith
    after_write-patience zero (some e) w h q =
        inr (refl, ground (arith, h e refl refl, patient.waits w))
    after_write-patience (suc n) (some e) w h q = inl (omega arith)

    count_round-Shrinks :
        (a : W × ℕ × Option E)
        → ((f : E)
            → a.1 ≡ 0
            → a.2 ≡ some f
            → dst.is_retryable f ≡ true
            → patience a.0 < patience st.world)
        → Shrinks p st (count_round dst polled p st a)
    unfolding count_round
    count_round-Shrinks (w, nw, e) h = elim (Bool-cases (ltb (length p) nw)) [
      | inl q ↦ rw q tt
      | inr q ↦
          rw q
            (round_end-Shrinks nw (after_write dst polled nw e w) (after_write-patience nw e w h))
    ]

    checked_round-Shrinks :
        (a : W × Option E)
        → patience a.0 ≤ patience st.world
        → Shrinks p st (checked_round dst polled p st a)
    checked_round-Shrinks (w, some e) l = tt
    checked_round-Shrinks (w, none) l =
        count_round-Shrinks (dst.write w p) (λ f none_written stalled again.
          let less = patient.stalls w p f none_written stalled again in omega arith)

    write_round-Shrinks : Shrinks p st (write_round dst polled p st)
    unfolding write_round
    write_round-Shrinks =
        checked_round-Shrinks (dst.context_error st.world) (patient.checks st.world)

  abbrev Returns : Option (Option E × Written W) → Type 0
  Returns answer = (e : Option E) × (st : Written W) × (answer ≡ some (e, st))

  next_round-Returns :
      (p : Bytes) (before : Written W) (go : Bytes → Written W → Option (Option E × Written W))
      (a : (E ⊎ Bytes) × Written W)
      → Shrinks p before a
      → ((rest : Bytes) (st' : Written W)
          → rounds (length rest) st'.world < rounds (length p) before.world
          → Returns (go rest st'))
      → Returns (next_round dst go a)
  next_round-Returns p before go (inl e, st) s later = (some e, st, refl)
  next_round-Returns p before go (inr rest, st) s later = later rest st s

  write_block-Returns :
      (fuel : ℕ) (polled : Bool) (p : Bytes) (st : Written W)
      → rounds (length p) st.world < fuel
      → Returns (write_block dst fuel polled p st)
  unfolding write_block
  write_block-Returns fuel polled [] st le = (none, st, refl)
  write_block-Returns zero polled (b ∷ bs) st le = absurd (omega arith)
  write_block-Returns (suc fuel) polled (b ∷ bs) st le =
      next_round-Returns (b ∷ bs) st (λ rest st'. write_block dst fuel polled rest st')
        (write_round dst polled (b ∷ bs) st) (write_round-Shrinks polled (b ∷ bs) (omega arith) st)
        (λ rest st' lt. write_block-Returns fuel polled rest st' (omega arith))

  all_or_error :
      (p : Bytes) (e : Option E) (k : ℕ)
      → (e ≡ none → k ≡ length p)
      → (is_some e ≡ true) ⊎ (k ≡ length p)
  all_or_error p none k h = inr (h refl)
  all_or_error p (some e) k h = inl refl

  -- Let no more than `limit` retries in a row write nothing, let `log` be what was written, and let the
  -- counter be a uint64. Then writeBlock returns: it has written a prefix of its data, behind what the
  -- log held, has added its length to the counter modulo 2^64, reports a block if the prefix is not
  -- empty or one was reported before, and has written all of the data if it returns no error.
  pub write_block-writes :
      (log : W → Bytes) (good : Logged dst log) (polled : Bool) (p : Bytes) (st : Written W)
      → st.bytes < 2 ^ 64
      → (e : Option E) × (st' : Written W) × (write_block dst
            (suc (rounds (length p) st.world))
            polled
            p
            st
          ≡ some (e, st'))
        × (k : ℕ) × Put dst log good p k st st'
        × ((is_some e ≡ true) ⊎ (k ≡ length p))
  write_block-writes log good polled p st word =
      let fuel = suc (rounds (length p) st.world) in
      let (e, st', q) = write_block-Returns fuel polled p st (omega arith) in
      let (k, put, whole) =
        subst (Returned dst log good p st) q
          (write_block-Returned dst log good fuel polled p st word) in
      (e, st', q, k, put, all_or_error p e k whole)
