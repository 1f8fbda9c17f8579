-- ===== src/Dtls/Ack/Order.antt =====
-- Sorting and compaction of record numbers in internal/dtls13/ack.go, against the order of the pairs.
use mathlib.Core.Path.{subst, ap₂}
use socat.Prelude.{
  sym, inr, [], inl, Bool-cases, ℕ, arith, ◌↔◌, All, false, true, ◌∷◌, ◌⊎◌, ◌≡◌, ◌<◌, List,
}
use socat.Dtls.Ack.{before, compact, compact_after, sort_numbers, insert_number}
use socat.Dtls.Flight.{same_number}
use socat.Dtls.Record.{RecordNumber}
use mathlib.Core.Logic.Or
use mathlib.Core.List.{Mem, Mem-prop, mem-cons, mem-cons_self, mem-cons_of_mem, not-mem-nil}

abbrev pub Precedes : RecordNumber → RecordNumber → Type 0
Precedes a b = (a.epoch < b.epoch) ⊎ ((a.epoch ≡ b.epoch) × (a.sequence < b.sequence))

-- Each number precedes the next one.
abbrev pub Ascends : RecordNumber → List RecordNumber → Type 0
Ascends a [] = Unit
Ascends a (b ∷ bs) = Precedes a b × Ascends b bs

abbrev pub IsAscending : List RecordNumber → Type 0
IsAscending [] = Unit
IsAscending (a ∷ bs) = Ascends a bs

-- The same, with repetitions.
abbrev Climbs : RecordNumber → List RecordNumber → Type 0
Climbs a [] = Unit
Climbs a (b ∷ bs) = (Precedes a b ⊎ (a ≡ b)) × Climbs b bs

abbrev IsClimbing : List RecordNumber → Type 0
IsClimbing [] = Unit
IsClimbing (a ∷ bs) = Climbs a bs

before-true : (a b : RecordNumber) → before a b ≡ true → Precedes a b
unfolding before
before-true a b h = ground arith

pair_eq : (a b : RecordNumber) → a.epoch ≡ b.epoch → a.sequence ≡ b.sequence → a ≡ b
pair_eq a b e s = ap₂ (λ (e s : ℕ). record { epoch = e; sequence = s }) e s

before-false : (a b : RecordNumber) → before b a ≡ false → Precedes a b ⊎ (a ≡ b)
unfolding before
before-false a b h =
    let either : Precedes a b ⊎ ((a.epoch ≡ b.epoch) × (a.sequence ≡ b.sequence)) = ground arith in
    elim either [ inl p ↦ inl p | inr (e, s) ↦ inr (pair_eq a b e s) ]

insert_number-Climbs :
    (x a : RecordNumber) (bs : List RecordNumber)
    → (Precedes x a ⊎ (x ≡ a))
    → Climbs x bs
    → Climbs x (insert_number a bs)
unfolding insert_number
insert_number-Climbs x a [] h c = (h, tt)
insert_number-Climbs x a (b ∷ bs) h c = elim (Bool-cases (before b a)) [
  | inl e ↦ rw e (c.0, insert_number-Climbs b a bs (inl (before-true b a e)) c.1)
  | inr e ↦ rw e (h, (before-false a b e, c.1))
]

insert_number-IsClimbing :
    (a : RecordNumber) (bs : List RecordNumber) → IsClimbing bs → IsClimbing (insert_number a bs)
unfolding insert_number
insert_number-IsClimbing a [] c = tt
insert_number-IsClimbing a (b ∷ bs) c = elim (Bool-cases (before b a)) [
  | inl e ↦ rw e (insert_number-Climbs b a bs (inl (before-true b a e)) c)
  | inr e ↦ rw e (before-false a b e, c)
]

sort_numbers-IsClimbing : (rs : List RecordNumber) → IsClimbing (sort_numbers rs)
unfolding sort_numbers
sort_numbers-IsClimbing [] = tt
sort_numbers-IsClimbing (r ∷ rs) =
    insert_number-IsClimbing r (sort_numbers rs) (sort_numbers-IsClimbing rs)

same_number-eq : (a b : RecordNumber) → same_number a b ≡ true → a ≡ b
unfolding same_number
same_number-eq a b h = pair_eq a b (ground arith) (ground arith)

same_number_self : (a : RecordNumber) → same_number a a ≡ true
unfolding same_number
same_number_self a = ground arith

compact_after-Ascends :
    (a : RecordNumber) (bs : List RecordNumber) → Climbs a bs → Ascends a (compact_after a bs)
unfolding compact_after
compact_after-Ascends a [] c = tt
compact_after-Ascends a (b ∷ bs) (h, c) = elim (Bool-cases (same_number a b)) [
  | inl e ↦
      let q = same_number-eq a b e in
      rw e (subst (λ x. Ascends x (compact_after b bs)) (sym q) (compact_after-Ascends b bs c))
  | inr e ↦ rw e (strict h e, compact_after-Ascends b bs c)
]
  where
    strict :
        {a b : RecordNumber} → (Precedes a b ⊎ (a ≡ b)) → same_number a b ≡ false → Precedes a b
    strict (inl p) e = p
    strict {a = a} (inr q) e =
        absurd (cc (same_number_self a, subst (λ x. same_number a x ≡ false) (sym q) e))

compact-IsAscending : (rs : List RecordNumber) → IsClimbing rs → IsAscending (compact rs)
unfolding compact
compact-IsAscending [] c = tt
compact-IsAscending (r ∷ rs) c = compact_after-Ascends r rs c

pub compact-sorted : (rs : List RecordNumber) → IsAscending (compact (sort_numbers rs))
compact-sorted rs = compact-IsAscending (sort_numbers rs) (sort_numbers-IsClimbing rs)

-- Both pass on what holds of all of the numbers.
module _ (P : RecordNumber → Type 0) where
  insert_number-All :
      (a : RecordNumber) (rs : List RecordNumber) → P a → All P rs → All P (insert_number a rs)
  unfolding insert_number
  insert_number-All a [] h hs = (h, tt)
  insert_number-All a (b ∷ bs) h hs = elim (Bool-cases (before b a)) [
    | inl e ↦ rw e (hs.0, insert_number-All a bs h hs.1)
    | inr e ↦ rw e (h, hs)
  ]

  sort_numbers-All : (rs : List RecordNumber) → All P rs → All P (sort_numbers rs)
  unfolding sort_numbers
  sort_numbers-All [] h = tt
  sort_numbers-All (r ∷ rs) h = insert_number-All r (sort_numbers rs) h.0 (sort_numbers-All rs h.1)

  compact_after-All :
      (a : RecordNumber) (rs : List RecordNumber) → All P rs → All P (compact_after a rs)
  unfolding compact_after
  compact_after-All a [] h = tt
  compact_after-All a (b ∷ bs) h = elim (Bool-cases (same_number a b)) [
    | inl e ↦ rw e (compact_after-All b bs h.1)
    | inr e ↦ rw e (h.0, compact_after-All b bs h.1)
  ]

  pub compact-All : (rs : List RecordNumber) → All P rs → All P (compact (sort_numbers rs))
  unfolding compact
  compact-All rs h = go (sort_numbers rs) (sort_numbers-All rs h)
    where
      go : (rs : List RecordNumber) → All P rs → All P (compact rs)
      go [] h = tt
      go (r ∷ rs) h = (h.0, compact_after-All r rs h.1)

  -- and what holds of all of the numbers they return
  All-insert_number :
      (a : RecordNumber) (rs : List RecordNumber) → All P (insert_number a rs) → P a × All P rs
  unfolding insert_number
  All-insert_number a [] h = h
  All-insert_number a (b ∷ bs) h = elim (Bool-cases (before b a)) [
    | inl e ↦
        let g : P b × All P (insert_number a bs) = rw e at h in
        let (x, y) = All-insert_number a bs g.1 in (x, (g.0, y))
    | inr e ↦ let g : P a × (P b × All P bs) = rw e at h in g
  ]

  All-sort_numbers : (rs : List RecordNumber) → All P (sort_numbers rs) → All P rs
  unfolding sort_numbers
  All-sort_numbers [] h = tt
  All-sort_numbers (r ∷ rs) h =
      let (x, y) = All-insert_number r (sort_numbers rs) h in (x, All-sort_numbers rs y)

  All-compact_after :
      (a : RecordNumber) (rs : List RecordNumber) → P a → All P (compact_after a rs) → All P rs
  unfolding compact_after
  All-compact_after a [] p h = tt
  All-compact_after a (b ∷ bs) p h = elim (Bool-cases (same_number a b)) [
    | inl e ↦ let q = subst P (same_number-eq a b e) p in (q, All-compact_after b bs q (rw e at h))
    | inr e ↦
        let g : P b × All P (compact_after b bs) = rw e at h in
        (g.0, All-compact_after b bs g.0 g.1)
  ]

  pub All-compact : (rs : List RecordNumber) → All P (compact (sort_numbers rs)) → All P rs
  unfolding compact
  All-compact rs h = All-sort_numbers rs (go (sort_numbers rs) h)
    where
      go : (rs : List RecordNumber) → All P (compact rs) → All P rs
      go [] h = tt
      go (r ∷ rs) h = (h.0, All-compact_after r rs h.0 h.1)

All-widen :
    (P Q : RecordNumber → Type 0) (rs : List RecordNumber)
    → ((r : RecordNumber) → P r → Q r)
    → All P rs
    → All Q rs
All-widen P Q [] f h = tt
All-widen P Q (r ∷ rs) f h = (f r h.0, All-widen P Q rs f h.1)

All-self : (rs : List RecordNumber) → All (λ r. Mem r rs) rs
All-self [] = tt
All-self (x ∷ rs) = (
  mem-cons_self,
  All-widen (λ r. Mem r rs) (λ r. Mem r (x ∷ rs)) rs (λ r m. mem-cons_of_mem x m) (All-self rs),
)

All-Mem :
    (out rs : List RecordNumber)
    → All (λ r. Mem r out) rs
    → (r : RecordNumber) → Mem r rs
    → Mem r out
All-Mem out [] h r m = absurd (not-mem-nil m)
All-Mem out (x ∷ rs) h r m =
    Or.elim Mem-prop (mem-cons.0 m) (λ e. subst (λ y. Mem y out) (sym e) h.0) (All-Mem out rs h.1 r)

-- A number is in the compacted list exactly if it is in the given one.
pub Mem-compact :
    (rs : List RecordNumber) (r : RecordNumber) → Mem r (compact (sort_numbers rs)) ↔ Mem r rs
Mem-compact rs r = (
  All-Mem rs (compact (sort_numbers rs)) (compact-All (λ x. Mem x rs) rs (All-self rs)) r,
  All-Mem (compact (sort_numbers rs)) rs
      (All-compact (λ x. Mem x (compact (sort_numbers rs))) rs
        (All-self (compact (sort_numbers rs))))
      r,
)
