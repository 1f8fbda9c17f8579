-- ===== src/Relay/Copy/Progress.antt =====
-- What `writeBlock` of internal/relay/relay.go has written when it returns.
use mathlib.Core.Path.{subst}
use native.Mathlib.Decide.{dec_lt}
use native.Mathlib.Nat.{suc-add, zero-add}
use socat.Prelude.{
  ◌^◌, ◌%◌, [], zero, le→ltb, ◌∷◌, lt→ltb, append-nil, refl, append_assoc, ap, sym, suc,
  length-drop, ◌∙◌, ltb, none, ◌||◌, drop, ◌+◌, inr, ◌<◌, some, take, inl, arith, ◌++◌, ◌⊎◌, ◌≡◌,
  Option, Bool, length, ℕ, ◌≤◌, Bytes,
}
use socat.Relay.Copy.{
  write_block, next_round, checked_round, count_round, round_end, wrote, write_round, Written,
  after_write, Destination,
}

take-take-drop : (j k : ℕ) (p : Bytes) → take j p ++ take k (drop j p) ≡ take (j + k) p
take-take-drop zero k p = rw zero-add refl
take-take-drop (suc j) zero [] = rw suc-add refl
take-take-drop (suc j) (suc k) [] = rw suc-add refl
take-take-drop (suc j) k (x ∷ p) = rw suc-add (ap (◌∷◌ x) (take-take-drop j k p))

either_positive : (b : Bool) (j k : ℕ) → ((b || ltb 0 j) || ltb 0 k) ≡ (b || ltb 0 (j + k))
either_positive b j k = ground arith

-- A destination whose `log` is what was written: a write that reports `nw` bytes of what it was
-- given has written these, and nothing else writes.

pub record Logged {W E : Type 0} (dst : Destination W E) (log : W → Bytes) : Type 0 where
  pub writes :
      (w : W) (p : Bytes)
      → (dst.write w p).1 ≤ length p
      → log (dst.write w p).0 ≡ log w ++ take (dst.write w p).1 p
  pub overruns : (w : W) (p : Bytes) → length p < (dst.write w p).1 → log (dst.write w p).0 ≡ log w
  pub checks : (w : W) → log (dst.context_error w).0 ≡ log w
  pub waits : (w : W) → log (dst.wait_writable w).0 ≡ log w

module _ {W E : Type 0} (dst : Destination W E) (log : W → Bytes) (good : Logged dst log) where
  -- `k` bytes of `p` were written between the two states.
  pub record Put (p : Bytes) (k : ℕ) (st st' : Written W) : Type 0 where
    pub within : k ≤ length p
    pub log_grows : log st'.world ≡ log st.world ++ take k p
    pub counted : st'.bytes ≡ (st.bytes + k) % 2 ^ 64
    pub blocked : st'.wrote_block ≡ st.wrote_block || ltb 0 k

  log-after_write :
      (polled : Bool) (nw : ℕ) (e : Option E) (w : W)
      → log (after_write dst polled nw e w).0 ≡ log w
  unfolding after_write
  log-after_write polled nw none w = ground arith
  log-after_write polled nw (some e) w = ground (arith, good.waits w)

  -- what a round that ends leaves, and what a round that goes on leaves
  abbrev RoundPut : Bytes → Written W → (E ⊎ Bytes) × Written W → Type 0
  RoundPut p st (inl e, st') = (k : ℕ) × Put p k st st'
  RoundPut p st (inr rest, st') = (k : ℕ) × Put p k st st' × (rest ≡ drop k p)

  module _ (polled : Bool) (p : Bytes) (st : Written W) (word : st.bytes < 2 ^ 64) where
    wrote-Put :
        (nw : ℕ) (w : W)
        → nw ≤ length p
        → log w ≡ log st.world ++ take nw p
        → Put p nw st (wrote dst nw st w)
    wrote-Put nw w le l = record { within = le; log_grows = l; counted = refl; blocked = refl }

    round_end-RoundPut :
        (nw : ℕ) (a : W × Option E)
        → nw ≤ length p
        → log a.0 ≡ log st.world ++ take nw p
        → RoundPut p st (round_end dst p nw st a)
    round_end-RoundPut nw (w, some e) le l = (nw, wrote-Put nw w le l)
    round_end-RoundPut nw (w, none) le l = (nw, wrote-Put nw w le l, refl)

    nothing-Put : (w : W) → log w ≡ log st.world → Put p 0 st (record st { world = w })
    nothing-Put w e = record {
      within = omega arith;
      log_grows = e ∙ sym (append-nil (log st.world));
      counted = omega arith;
      blocked = ground arith;
    }

    count_round-RoundPut :
        (a : W × ℕ × Option E)
        → (a.1 ≤ length p → log a.0 ≡ log st.world ++ take (a.1) p)
        → (length p < a.1 → log a.0 ≡ log st.world)
        → RoundPut p st (count_round dst polled p st a)
    unfolding count_round
    count_round-RoundPut (w, nw, e) fits over = elim (dec_lt (length p) nw) [
      | yes lt ↦ rw (lt→ltb (length p) nw lt) (0, nothing-Put w (over lt))
      | no ge ↦ rw (le→ltb (length p) nw (omega arith)) (
          round_end-RoundPut nw (after_write dst polled nw e w) (omega arith)
            (log-after_write polled nw e w ∙ fits (omega arith)))
    ]

    checked_round-RoundPut :
        (a : W × Option E)
        → log a.0 ≡ log st.world
        → RoundPut p st (checked_round dst polled p st a)
    checked_round-RoundPut (w, some e) l = (0, nothing-Put w l)
    checked_round-RoundPut (w, none) l =
        count_round-RoundPut (dst.write w p)
          (λ le. good.writes w p le ∙ ap (λ (b : Bytes). b ++ take (dst.write w p).1 p) l)
          (λ lt. good.overruns w p lt ∙ l)

    write_round-RoundPut : RoundPut p st (write_round dst polled p st)
    unfolding write_round
    write_round-RoundPut =
        checked_round-RoundPut (dst.context_error st.world) (good.checks st.world)

  -- a round of `j` bytes and the rounds after it
  Put-trans :
      (p : Bytes) (j k : ℕ) (a b c : Written W)
      → Put p j a b
      → Put (drop j p) k b c
      → Put p (j + k) a c
  Put-trans p j k a b c x y = record {
    within = omega (arith, x.within, y.within, length-drop j p);
    log_grows =
        y.log_grows
        ∙ rw x.log_grows (append_assoc (log a.world) (take j p) (take k (drop j p)))
        ∙ ap (◌++◌ (log a.world)) (take-take-drop j k p);
    counted = omega (arith, x.counted, y.counted);
    blocked = y.blocked ∙ rw x.blocked (either_positive a.wrote_block j k);
  }

  -- what the loop returned, against its data
  abbrev pub Returned : Bytes → Written W → Option (Option E × Written W) → Type 0
  Returned p st none = Unit
  Returned p st (some (e, st')) = (k : ℕ) × Put p k st st' × (e ≡ none → k ≡ length p)

  more-Returned :
      (p : Bytes) (st st' : Written W) (j : ℕ)
      → Put p j st st'
      → (answer : Option (Option E × Written W)) → Returned (drop j p) st' answer
      → Returned p st answer
  more-Returned p st st' j put none r = tt
  more-Returned p st st' j put (some (e, st'')) (k, put', all_of) = (
    j + k,
    Put-trans p j k st st' st'' put put',
    λ q. omega (arith, all_of q, length-drop j p, put.within),
  )

  next_round-Returned :
      (p : Bytes) (st : Written W) (go : Bytes → Written W → Option (Option E × Written W))
      (a : (E ⊎ Bytes) × Written W)
      → RoundPut p st a
      → ((rest : Bytes) (st' : Written W) → st'.bytes < 2 ^ 64 → Returned rest st' (go rest st'))
      → Returned p st (next_round dst go a)
  next_round-Returned p st go (inl e, st') (k, put) later = (k, put, λ q. cc)
  next_round-Returned p st go (inr rest, st') (j, put, q) later =
      more-Returned p st st' j put (go rest st')
        (subst (λ r. Returned r st' (go rest st')) q (later rest st' (omega (arith, put.counted))))

  pub write_block-Returned :
      (fuel : ℕ) (polled : Bool) (p : Bytes) (st : Written W)
      → st.bytes < 2 ^ 64
      → Returned p st (write_block dst fuel polled p st)
  unfolding write_block
  write_block-Returned fuel polled [] st word = (
    0,
    record {
      within = omega arith;
      log_grows = sym (append-nil (log st.world));
      counted = omega arith;
      blocked = ground arith;
    },
    λ q. refl,
  )
  write_block-Returned zero polled (b ∷ bs) st word = tt
  write_block-Returned (suc fuel) polled (b ∷ bs) st word =
      next_round-Returned (b ∷ bs) st (λ rest st'. write_block dst fuel polled rest st')
        (write_round dst polled (b ∷ bs) st) (write_round-RoundPut polled (b ∷ bs) st word)
        (λ rest st' word'. write_block-Returned fuel polled rest st' word')
