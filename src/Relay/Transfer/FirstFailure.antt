-- ===== src/Relay/Transfer/FirstFailure.antt =====
-- The error that `Transfer` of internal/relay/relay.go returns.
use socat.Relay.Transfer.{start}
use native.Mathlib.Decide.{dec_lt}
use socat.Relay.Transfer.Selection.{
  live-Keeps, live_results, Once, Fresh-tail, drained-Keeps, Keeps-selected, first_failure, Keeps,
}
use socat.Relay.Transfer.{
  transfer, context_done, linger_expired, received, Event, LoopState, on_event, receive, run_loop,
  count_dirs, LoopConfig,
}
use socat.Relay.Outcome.{TransferOutcomes, selected_transfer_error, DirOutcome, accept}
use socat.Prelude.{
  zero, append_assoc, append-nil, ◌++◌, inr, if◌then◌else◌, inl, ◌∙◌, Bool-cases, Bool, ap, ◌<◌,
  leb, not, ◌&&◌, ◌==◌, ◌||◌, suc, refl, [], ◌+◌, false, true, ◌∷◌, ◌≡◌, List, arith, ◌≤◌, ℕ,
}

count_dirs-le : (cfg : LoopConfig) → count_dirs cfg ≤ 2
unfolding count_dirs
count_dirs-le cfg = ground arith

le→leb : (a b : ℕ) → a ≤ b → leb a b ≡ true
le→leb a b h = ground arith

lt→leb : (a b : ℕ) → b < a → leb a b ≡ false
lt→leb a b h = ground arith

lingers :
    (a : Bool) (f n c l : ℕ)
    → f + suc n ≡ c
    → c ≤ 2
    → (if f + 1 == 1 && c == 2 then (if l == 0 then a else true) else a)
      ≡ (a || (n == 1 && not (l == 0)))
lingers a f n c l e h = ground arith

drop_false : {A : Type 0} (b : Bool) (x y : A) → (if b && not true then x else y) ≡ y
drop_false true x y = refl
drop_false false x y = refl

module _ {E : Type 0} (cfg : LoopConfig) where
  module _ (s : LoopState E) where
    on_event-finished : (e : Event E) → count_dirs cfg ≤ s.finished → on_event cfg e s ≡ s
    unfolding on_event
    on_event-finished e h = rw (le→leb (count_dirs cfg) s.finished h) refl

    module _ (h : s.finished < count_dirs cfg) where
      on_event-received : (r : DirOutcome E) → on_event cfg (received r) s ≡ receive cfg r s
      unfolding on_event
      on_event-received r = rw (lt→leb (count_dirs cfg) s.finished h) refl

      on_event-expired : on_event cfg linger_expired s ≡ (
          if s.lingering && not s.draining
          then record s { canceled_context = true; draining = true }
          else s)
      unfolding on_event
      on_event-expired = rw (lt→leb (count_dirs cfg) s.finished h) refl

      on_event-done :
          on_event cfg context_done s ≡ (if s.draining then s else record s { draining = true })
      unfolding on_event
      on_event-done = rw (lt→leb (count_dirs cfg) s.finished h) refl

  run_loop-finished :
      (es : List (Event E)) (s : LoopState E) → count_dirs cfg ≤ s.finished → run_loop cfg es s ≡ s
  unfolding run_loop
  run_loop-finished [] s h = refl
  run_loop-finished (e ∷ es) s h =
      ap (run_loop cfg es) (on_event-finished s e h) ∙ run_loop-finished es s h

  receive-drained :
      (r : DirOutcome E) (s : LoopState E)
      → s.draining ≡ true
      → ((receive cfg r s).outcomes ≡ accept r false s.outcomes)
        × ((receive cfg r s).draining ≡ true)
  unfolding receive
  receive-drained r s h = rw h (refl, refl)

  receive-live :
      (r : DirOutcome E) (s : LoopState E) (n : ℕ)
      → s.draining ≡ false
      → s.finished + suc n ≡ count_dirs cfg
      → ((receive cfg r s).outcomes ≡ accept r true s.outcomes)
        × ((receive cfg r s).draining ≡ false)
        × ((receive cfg r s).finished ≡ s.finished + 1)
        × ((receive cfg r s).lingering ≡ s.lingering || (n == 1 && not (cfg.linger == 0)))
  unfolding receive
  receive-live r s n h e = elim (Bool-cases (s.finished + 1 == 1 && count_dirs cfg == 2)) [
    | inl q ↦ elim (Bool-cases (cfg.linger == 0)) [
      | inl z ↦
          rw (h, q, z)
            (
              refl,
              refl,
              refl,
              ground (
                arith,
                lingers s.lingering s.finished n (count_dirs cfg) cfg.linger e (count_dirs-le cfg),
                q,
                z,
              ),
            )
      | inr z ↦
          rw (h, q, z)
            (
              refl,
              refl,
              refl,
              ground (
                arith,
                lingers s.lingering s.finished n (count_dirs cfg) cfg.linger e (count_dirs-le cfg),
                q,
                z,
              ),
            )
    ]
    | inr q ↦
        rw (h, q)
          (
            refl,
            refl,
            refl,
            ground (
              arith,
              lingers s.lingering s.finished n (count_dirs cfg) cfg.linger e (count_dirs-le cfg),
              q,
            ),
          )
  ]

  -- an event that brings no result, or a result that the loop does not receive
  pass-Keeps :
      (e : Event E) (es : List (Event E)) (o : TransferOutcomes E) (rs : List (DirOutcome E))
      → Keeps o rs (e ∷ es)
      → Keeps o rs es
  pass-Keeps (received r) es o rs k = record {
    inspected = k.inspected;
    stored = k.stored;
    fresh = Fresh-tail r es rs k.fresh;
  }
  pass-Keeps linger_expired es o rs k = record {
    inspected = k.inspected;
    stored = k.stored;
    fresh = k.fresh;
  }
  pass-Keeps context_done es o rs k = record {
    inspected = k.inspected;
    stored = k.stored;
    fresh = k.fresh;
  }

  abbrev expired : LoopState E → LoopState E
  expired s = record s { canceled_context = true; draining = true }

  abbrev ended : LoopState E → LoopState E
  ended s = record s { draining = true }

  expired_as :
      (s : LoopState E) (l d : Bool)
      → s.finished < count_dirs cfg
      → s.lingering ≡ l
      → s.draining ≡ d
      → on_event cfg linger_expired s ≡ (if l && not d then expired s else s)
  expired_as s l d h el ed =
      on_event-expired s h
      ∙ ap (λ (b : Bool). if b && not s.draining then expired s else s) el
      ∙ ap (λ (b : Bool). if l && not b then expired s else s) ed

  done_as :
      (s : LoopState E) (d : Bool)
      → s.finished < count_dirs cfg
      → s.draining ≡ d
      → on_event cfg context_done s ≡ (if d then s else ended s)
  done_as s d h ed = on_event-done s h ∙ ap (λ (b : Bool). if b then s else ended s) ed

  drained_step :
      (e : Event E) (es : List (Event E)) (s : LoopState E) (rs : List (DirOutcome E))
      → s.finished < count_dirs cfg
      → s.draining ≡ true
      → Keeps s.outcomes rs (e ∷ es)
      → ((on_event cfg e s).draining ≡ true) × Keeps (on_event cfg e s).outcomes rs es
  drained_step (received r) es s rs h d k =
      let (eo, ed) = receive-drained r s d in
      rw (on_event-received s h r, eo) (ed, drained-Keeps r s.outcomes es rs k)
  drained_step linger_expired es s rs h d k =
      let e : on_event cfg linger_expired s ≡ s =
        expired_as s s.lingering true h refl d ∙ drop_false s.lingering (expired s) s in
      rw e (d, pass-Keeps linger_expired es s.outcomes rs k)
  drained_step context_done es s rs h d k =
      let e : on_event cfg context_done s ≡ s = done_as s true h d in
      rw e (d, pass-Keeps context_done es s.outcomes rs k)

  run_loop_step :
      (e : Event E) (es : List (Event E)) (s s' : LoopState E)
      → on_event cfg e s ≡ s'
      → run_loop cfg (e ∷ es) s ≡ run_loop cfg es s'
  unfolding run_loop
  run_loop_step e es s s' q = ap (run_loop cfg es) q

  -- Once the loop drains, what it selects is settled.
  run_loop-drained :
      (es : List (Event E)) (s : LoopState E) (rs : List (DirOutcome E))
      → s.draining ≡ true
      → Keeps s.outcomes rs es
      → selected_transfer_error (run_loop cfg es s).outcomes ≡ first_failure rs
  unfolding run_loop
  run_loop-drained [] s rs d k = Keeps-selected k
  run_loop-drained (e ∷ es) s rs d k = elim (dec_lt s.finished (count_dirs cfg)) [
    | yes h ↦
        let (d', k') = drained_step e es s rs h d k in
        run_loop-drained es (on_event cfg e s) rs d' k'
    | no f ↦
        rw (run_loop_step e es s s (on_event-finished s e (omega arith)))
          (run_loop-drained es s rs d (pass-Keeps e es s.outcomes rs k))
  ]

  live_over :
      (n : ℕ) (l : Bool) (es : List (Event E))
      → l ≡ true
      → live_results cfg (suc n) l (linger_expired ∷ es) ≡ []
  live_over n true es q = refl
  live_over n false es q = cc

  live_early :
      (n : ℕ) (l : Bool) (es : List (Event E))
      → l ≡ false
      → live_results cfg (suc n) l (linger_expired ∷ es) ≡ live_results cfg (suc n) l es
  live_early n true es q = cc
  live_early n false es q = refl

  -- The loop from a state on that has inspected `rs` and does not drain.
  run_loop-live :
      (es : List (Event E)) (s : LoopState E) (n : ℕ) (rs : List (DirOutcome E))
      → s.draining ≡ false
      → s.finished + n ≡ count_dirs cfg
      → Keeps s.outcomes rs es
      → Once es
      → selected_transfer_error (run_loop cfg es s).outcomes
        ≡ first_failure (rs ++ live_results cfg n s.lingering es)
  unfolding run_loop
  run_loop-live [] s n rs d h k o = Keeps-selected k ∙ rw (append-nil rs) refl
  run_loop-live (e ∷ es) s zero rs d h k o =
      rw
        (
          run_loop_step e es s s (on_event-finished s e (omega arith)),
          run_loop-finished es s (omega arith),
          append-nil rs,
        )
        (Keeps-selected k)
  run_loop-live (received r ∷ es) s (suc n) rs d h k o =
      let (eo, ed, ef, el) = receive-live r s n d h in
      rw (run_loop_step (received r) es s (receive cfg r s) (on_event-received s (omega arith) r)) (
        run_loop-live es (receive cfg r s) n (rs ++ (r ∷ [])) ed (omega (arith, ef))
          (rw eo (live-Keeps r s.outcomes es rs o.0 k)) o.1
        ∙ rw el (ap first_failure (append_assoc rs (r ∷ []) _)))
  run_loop-live (linger_expired ∷ es) s (suc n) rs d h k o = elim (Bool-cases s.lingering) [
    | inl l ↦
        rw
          (
            run_loop_step linger_expired es s (expired s)
                (expired_as s true false (omega arith) l d),
            live_over n s.lingering es l,
            append-nil rs,
          )
          (run_loop-drained es (expired s) rs refl (pass-Keeps linger_expired es s.outcomes rs k))
    | inr l ↦
        rw
          (
            run_loop_step linger_expired es s s (expired_as s false false (omega arith) l d),
            live_early n s.lingering es l,
          )
          (run_loop-live es s (suc n) rs d h (pass-Keeps linger_expired es s.outcomes rs k) o)
  ]
  run_loop-live (context_done ∷ es) s (suc n) rs d h k o =
      rw
        (run_loop_step context_done es s (ended s) (done_as s false (omega arith) d), append-nil rs)
        (run_loop-drained es (ended s) rs refl (pass-Keeps context_done es s.outcomes rs k))

  -- Let each direction return at most once. Then Transfer reports the first failure among its live
  -- results, with its direction, and no error if there is none: an end of file, a closed peer and a
  -- cancellation are no failures, and a result that arrives after the context ended or the linger
  -- time was over is not looked at.
  pub transfer-first_failure :
      (es : List (Event E))
      → Once es
      → transfer cfg es ≡ first_failure (live_results cfg (count_dirs cfg) false es)
  unfolding transfer
  transfer-first_failure es o =
      run_loop-live es start (count_dirs cfg) [] refl (omega arith)
        (record { inspected = refl; stored = tt; fresh = tt }) o
