-- ===== src/Dtls/MtuSearch/Bounds.antt =====
-- The interval of the search: the floor is not above the lost sizes, which are in order.
use native.Mathlib.Decide.{dec_lt}
use socat.Dtls.MtuSearch.{
  last_valid, slot_above, on_lost, insert_lost, max_lost_mtu_probes, init, MtuFinder,
}
use socat.Prelude.{
  drop, zero, ◌+◌, le→ltb, replicate, ◌∙◌, lt→ltb, suc, ◌++◌, length-take, take, refl, none, [],
  ◌<◌, some, ◌≤◌, ◌≡◌, ◌∷◌, arith, length, Option, List, ℕ,
}

abbrev pub Blank : List (Option ℕ) → Type 0
Blank [] = Unit
Blank (none ∷ vs) = Blank vs
Blank (some v ∷ vs) = ⊥

-- Sizes in order, none below `low`, and blank slots behind them.
abbrev pub Ordered : ℕ → List (Option ℕ) → Type 0
Ordered low [] = Unit
Ordered low (none ∷ vs) = Blank vs
Ordered low (some v ∷ vs) = (low ≤ v) × Ordered v vs

pub record IsOrdered (f : MtuFinder) : Type 0 where
  pub slots : length f.lost ≡ max_lost_mtu_probes
  pub ordered : Ordered f.floor f.lost

pub init-IsOrdered : (start top : ℕ) → IsOrdered (init start top)
unfolding init
init-IsOrdered start top = record { slots = refl; ordered = ground arith }

Blank-take : (n : ℕ) (vs : List (Option ℕ)) → Blank vs → Blank (take n vs)
Blank-take zero vs b = tt
Blank-take (suc n) [] b = tt
Blank-take (suc n) (none ∷ vs) b = Blank-take n vs b
Blank-take (suc n) (some v ∷ vs) b = absurd b

pub Ordered-take : (n low : ℕ) (vs : List (Option ℕ)) → Ordered low vs → Ordered low (take n vs)
Ordered-take zero low vs o = tt
Ordered-take (suc n) low [] o = tt
Ordered-take (suc n) low (none ∷ vs) o = Blank-take n vs o
Ordered-take (suc n) low (some v ∷ vs) o = (o.0, Ordered-take n v vs o.1)

Blank-insert_lost : (size : ℕ) (vs : List (Option ℕ)) → Blank vs → Blank (insert_lost size vs)
unfolding insert_lost
Blank-insert_lost size [] b = tt
Blank-insert_lost size (none ∷ vs) b = Blank-insert_lost size vs b
Blank-insert_lost size (some v ∷ vs) b = absurd b

insert_lost-Ordered :
    (size low : ℕ) (vs : List (Option ℕ))
    → low ≤ size
    → Ordered low vs
    → Ordered low (insert_lost size vs)
unfolding insert_lost
insert_lost-Ordered size low [] le o = tt
insert_lost-Ordered size low (none ∷ vs) le o = Blank-insert_lost size vs o
insert_lost-Ordered size low (some v ∷ vs) le o = elim (dec_lt size v) [
  | yes lt ↦
      rw (lt→ltb size v lt) (le, Ordered-take (length vs) size (some v ∷ vs) (omega arith, o.1))
  | no ge ↦ rw (le→ltb size v (omega arith)) (o.0, insert_lost-Ordered size v vs (omega arith) o.1)
]

length-insert_lost : (size : ℕ) (vs : List (Option ℕ)) → length (insert_lost size vs) ≡ length vs
unfolding insert_lost
length-insert_lost size [] = refl
length-insert_lost size (v ∷ vs) =
    ground (arith, length-insert_lost size vs, length-take (length vs) (v ∷ vs))

-- A lost probe of a size that is not below the floor leaves the interval in order.
pub on_lost-IsOrdered :
    (size : ℕ) (f : MtuFinder) → f.floor ≤ size → IsOrdered f → IsOrdered (on_lost size f)
unfolding on_lost
on_lost-IsOrdered size f le o = record {
  slots = length-insert_lost size f.lost ∙ o.slots;
  ordered = insert_lost-Ordered size f.floor f.lost le o.ordered;
}

Blank-append : (j : ℕ) (vs : List (Option ℕ)) → Blank vs → Blank (vs ++ replicate j none)
Blank-append zero [] b = tt
Blank-append (suc j) [] b = Blank-append j [] tt
Blank-append j (none ∷ vs) b = Blank-append j vs b
Blank-append j (some v ∷ vs) b = absurd b

pub Ordered-append :
    (j low : ℕ) (vs : List (Option ℕ)) → Ordered low vs → Ordered low (vs ++ replicate j none)
Ordered-append zero low [] o = tt
Ordered-append (suc j) low [] o = Blank-append j [] tt
Ordered-append j low (none ∷ vs) o = Blank-append j vs o
Ordered-append j low (some v ∷ vs) o = (o.0, Ordered-append j v vs o.1)

-- The slots from the first one above a size on, which lies below the ceiling.
pub slots_above :
    (size low : ℕ) (vs : List (Option ℕ))
    → low ≤ size
    → size < last_valid low vs
    → Ordered low vs
    → (k : ℕ) × ((i : ℕ) → slot_above i size vs ≡ i + k)
      × Ordered size (drop k vs)
      × (k ≤ length vs)
unfolding slot_above last_valid
slots_above size low [] le lt o = absurd (omega arith)
slots_above size low (none ∷ vs) le lt o = absurd (omega arith)
slots_above size low (some v ∷ vs) le lt o = elim (dec_lt size v) [
  | yes near ↦ (0, λ i. rw (lt→ltb size v near) (omega arith), (omega arith, o.1), omega arith)
  | no far ↦
      let (k, at, rest, small) = slots_above size v vs (omega arith) lt o.1 in
      (suc k, λ i. rw (le→ltb size v (omega arith)) (omega (arith, at (i + 1))), rest, omega arith)
]
