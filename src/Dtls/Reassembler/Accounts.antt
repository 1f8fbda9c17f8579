-- ===== src/Dtls/Reassembler/Accounts.antt =====
-- The shared budget is charged exactly for what is pending, and `reset` gives all of it back.
use socat.Dtls.Reassembler.Marks.{mark_bytes-SameHeader}
use socat.Dtls.Reassembler.Cases.{
  allocated, popped, stored, fill_cases, waiting, unchanged, pop_cases, insert_cases,
}
use socat.Prelude.Assoc.{lookup-put, total-put, put, total-remove, remove, total, lookup}
use socat.Dtls.Reassembler.Bounds.{IsBounded}
use socat.Dtls.Fragment.{HandshakeFragment}
use socat.Dtls.Budget.{MemoryBudget, release, reserve}
use socat.Prelude.{
  ◌∷◌, none, length-replicate, ap, inr, inl, some, [], List, Option, ℕ, ◌+◌, ◌≡◌, refl, arith,
}
use socat.Dtls.Reassembler.{
  admit, fresh, fragment_cost, PartialHandshake, Reassembler, body_length, mark_bytes, insert, fill,
  pop, reset, release_all,
}

abbrev pub cost : PartialHandshake → ℕ
cost p = fragment_cost (body_length p)

-- The budget holds `base`, charged by others, and the costs of the pending messages.
abbrev pub Charged : ℕ → Option MemoryBudget → List (ℕ × PartialHandshake) → Type 0
Charged base none pending = Unit
Charged base (some b) pending = b.used ≡ base + total cost pending

abbrev pub Balanced : ℕ → Reassembler → Type 0
Balanced base r = Charged base r.budget r.pending

Charged-total :
    (base : ℕ) (b : Option MemoryBudget) (m n : List (ℕ × PartialHandshake))
    → total cost m ≡ total cost n
    → Charged base b m
    → Charged base b n
Charged-total base none m n e h = tt
Charged-total base (some b) m n e h = omega (arith, e, h)

Charged-reserve :
    (base size : ℕ) (b : Option MemoryBudget) {b' : Option MemoryBudget}
    (m n : List (ℕ × PartialHandshake))
    → reserve size b ≡ some b'
    → total cost n ≡ total cost m + size
    → Charged base b m
    → Charged base b' n
unfolding reserve
Charged-reserve base size none {b' = none} m n e t h = tt
Charged-reserve base size none {b' = some c} m n e t h = absurd (cc e)
Charged-reserve base size (some b) {b' = none} m n e t h = tt
Charged-reserve base size (some b) {b' = some c} m n e t h = ground arith

Charged-release :
    (base size : ℕ) (b : Option MemoryBudget) (m n : List (ℕ × PartialHandshake))
    → total cost n + size ≡ total cost m
    → Charged base b m
    → Charged base (release size b) n
unfolding release
Charged-release base size none m n t h = tt
Charged-release base size (some b) m n t h = omega (arith, t, h)

fill-Balanced :
    (base : ℕ) (r : Reassembler) (p : PartialHandshake) (f : HandshakeFragment) (epoch : ℕ)
    → lookup f.sequence r.pending ≡ some p
    → Balanced base r
    → Balanced base (fill p f epoch r).1
fill-Balanced base r p f epoch found b = elim (fill_cases p f epoch r) [
  | inl refused ↦ rw refused b
  | inr (size, e) ↦
      let p' = (mark_bytes p f.offset f.body).1 in
      let same = mark_bytes-SameHeader f.body p f.offset in
      let costs : cost p' ≡ cost p = ap fragment_cost same.size in
      rw e (
        Charged-total base r.budget r.pending (put f.sequence p' r.pending)
          (ground (arith, total-put cost f.sequence p' r.pending, found, costs)) b)
]

-- `insert` keeps the account: the budget holds what others charged and the cost of what is pending.
pub insert-Balanced :
    (base : ℕ) (f : HandshakeFragment) (epoch : ℕ) (r : Reassembler)
    → Balanced base r
    → Balanced base (insert f epoch r).1
insert-Balanced base f epoch r b = elim (insert_cases f epoch r) [
  | unchanged e ↦ rw e b
  | stored p found e ↦ rw e (fill-Balanced base r p f epoch found b)
  | allocated budget after small missing room reserved e ↦
      let p = fresh f epoch in
      let costs : cost p ≡ fragment_cost f.total = ap fragment_cost (length-replicate f.total 0) in
      rw e (
        fill-Balanced base (admit f epoch r budget) p f epoch
          (ground (arith, lookup-put f.sequence f.sequence p r.pending))
          (Charged-reserve base (fragment_cost f.total) r.budget r.pending
            (put f.sequence p r.pending) reserved
            (ground (arith, total-put cost f.sequence p r.pending, missing, costs)) b))
]

-- In a well-formed state `pop` keeps the account.
pub pop-Balanced :
    (base : ℕ) (r : Reassembler) → IsBounded r → Balanced base r → Balanced base (pop r).1
pop-Balanced base r inv b = elim (pop_cases r) [
  | waiting e ↦ rw e b
  | popped p found complete short e ↦ rw e (
      Charged-release base (cost p) r.budget r.pending (remove r.next r.pending)
        (ground (arith, total-remove cost r.next r.pending inv.distinct, found)) b)
]

release_all-Charged :
    (base : ℕ) (m : List (ℕ × PartialHandshake)) (b : Option MemoryBudget)
    → Charged base b m
    → Charged base (release_all m b) []
unfolding release_all
release_all-Charged base [] b h = h
release_all-Charged base ((k, p) ∷ m) b h =
    release_all-Charged base m (release (cost p) b)
      (Charged-release base (cost p) b ((k, p) ∷ m) m (omega arith) h)

-- After a reset of a balanced state nothing is pending and the budget is back to what others have charged.
pub reset-Balanced :
    (base : ℕ) (r : Reassembler)
    → Balanced base r
    → Balanced base (reset r)
      × ((reset r).pending ≡ [])
      × ((reset r).buffered ≡ 0)
      × ((reset r).next ≡ r.next)
unfolding reset
reset-Balanced base r b = (release_all-Charged base r.pending r.budget b, refl, refl, refl)
