-- ===== src/Dtls/MtuSearch/Answers.antt =====
-- What an answer to a probe does to the interval of the search.
use socat.Dtls.MtuSearch.Bounds.{Ordered-append, Ordered-take, Ordered, slots_above, IsOrdered}
use socat.Dtls.MtuSearch.{
  slot_above, on_lost, ceiling, on_acked, repeat_lost, MtuFinder, reject_hard, last_valid,
  insert_lost,
}
use socat.Prelude.{
  refl, length-replicate, length-drop, length-append, replicate, ◌++◌, none, [], ◌∙◌, length-take,
  ◌∷◌, ◌+◌, arith, drop, some, ◌≡◌, take, ◌<◌, length, Option, List, ◌≤◌, ℕ,
}

module _ (size : ℕ) (f : MtuFinder) where
  kept_slots : ℕ → List (Option ℕ)
  kept_slots k = take (length f.lost) (drop k f.lost ++ replicate k none)

  length-kept_slots : (k : ℕ) → k ≤ length f.lost → length (kept_slots k) ≡ length f.lost
  unfolding kept_slots
  length-kept_slots k h = omega (
    arith,
    length-take (length f.lost) (drop k f.lost ++ replicate k none),
    length-append (drop k f.lost) (replicate k none),
    length-drop k f.lost,
    length-replicate {A = Option ℕ} k none,
  )

  acked-result :
      (k : ℕ)
      → f.floor ≤ size
      → slot_above 0 size f.lost ≡ 0 + k
      → ((on_acked size f).floor ≡ size) × ((on_acked size f).lost ≡ kept_slots k)
  unfolding on_acked kept_slots
  acked-result k le e =
      let z : slot_above 0 size f.lost ≡ k = omega (arith, e) in (ground arith, rw z refl)

  -- An acknowledged probe of at least the floor and below the ceiling becomes the floor, and leaves
  -- the interval in order.
  pub on_acked-IsOrdered :
      f.floor ≤ size
      → size < ceiling f
      → IsOrdered f
      → IsOrdered (on_acked size f) × ((on_acked size f).floor ≡ size)
  unfolding ceiling
  on_acked-IsOrdered le lt o =
      let (k, at, rest, small) = slots_above size f.floor f.lost le lt o.ordered in
      let (raised, kept) = acked-result k le (at 0) in
      (
        record {
          slots = rw kept (length-kept_slots k small ∙ o.slots);
          ordered =
              rw (raised, kept)
                (unfold kept_slots in
                  Ordered-take (length f.lost) size (drop k f.lost ++ replicate k none)
                    (Ordered-append k size (drop k f.lost) rest));
        },
        raised,
      )

-- three lost probes of one size on three slots
lost_slots :
    (size low a b c : ℕ)
    → low ≤ size
    → a ≤ b
    → b ≤ c
    → size < c
    → last_valid low
        (insert_lost size (insert_lost size (insert_lost size (some a ∷ some b ∷ some c ∷ []))))
      ≡ size
unfolding insert_lost last_valid
lost_slots size low a b c le ab bc lt = ground arith

lost_slots_two :
    (size low a b : ℕ)
    → low ≤ size
    → a ≤ b
    → size < b
    → last_valid low
        (insert_lost size (insert_lost size (insert_lost size (some a ∷ some b ∷ none ∷ []))))
      ≡ size
unfolding insert_lost last_valid
lost_slots_two size low a b le ab lt = ground arith

lost_slots_one :
    (size low a : ℕ)
    → low ≤ size
    → size < a
    → last_valid low
        (insert_lost size (insert_lost size (insert_lost size (some a ∷ none ∷ none ∷ []))))
      ≡ size
unfolding insert_lost last_valid
lost_slots_one size low a le lt = ground arith

lost_three :
    (size low : ℕ) (vs : List (Option ℕ))
    → length vs ≡ 3
    → Ordered low vs
    → low ≤ size
    → size < last_valid low vs
    → last_valid low (insert_lost size (insert_lost size (insert_lost size vs))) ≡ size
unfolding last_valid
lost_three size low [] e o le lt = absurd (omega arith)
lost_three size low (none ∷ vs) e o le lt = absurd (omega arith)
lost_three size low (some a ∷ []) e o le lt = absurd (omega arith)
lost_three size low (some a ∷ v ∷ []) e o le lt = absurd (omega arith)
lost_three size low (some a ∷ v ∷ w ∷ x ∷ vs) e o le lt = absurd (omega arith)
lost_three size low (some a ∷ none ∷ none ∷ []) e o le lt = lost_slots_one size low a le lt
lost_three size low (some a ∷ none ∷ some c ∷ []) e o le lt = absurd o.1
lost_three size low (some a ∷ some b ∷ none ∷ []) e o le lt =
    lost_slots_two size low a b le o.1.0 lt
lost_three size low (some a ∷ some b ∷ some c ∷ []) e o le lt =
    lost_slots size low a b c le o.1.0 o.1.1.0 lt

-- A hard rejection of a size of at least the floor and below the ceiling makes it the ceiling at once.
pub reject_hard-ceiling :
    (size : ℕ) (f : MtuFinder)
    → IsOrdered f
    → f.floor ≤ size
    → size < ceiling f
    → ceiling (reject_hard size f) ≡ size
unfolding reject_hard repeat_lost on_lost ceiling
reject_hard-ceiling size f o le lt = lost_three size f.floor f.lost o.slots o.ordered le lt
