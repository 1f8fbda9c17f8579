-- ===== src/Prelude/Assoc.antt =====
-- Go's maps with number keys, as association lists: `lookup` is `m[k]`, `put` is `m[k] = v`,
-- `remove` is `delete(m, k)`. A list that starts empty holds each key once.
use mathlib.Core.List.{List, [], ◌∷◌}
use mathlib.Core.Option.{Option, none, some}
use mathlib.Core.Path.{subst₂, ◌≡◌, refl}
use mathlib.Core.Logic.{inl, inr, ◌≢◌}
use native.Mathlib.Omega.{arith}
use Prim.Native.Nat.{ℕ, ◌+◌}
use socat.Prelude.Tests.{Bool-cases, ==_iff, ◌==◌, if◌then◌else◌}

module _ {ℓ} {V : Type ℓ} where
  abbrev pub lookup : ℕ → List (ℕ × V) → Option V
  lookup key [] = none
  lookup key ((here, value) ∷ rest) = if here == key then some value else lookup key rest

  abbrev pub put : ℕ → V → List (ℕ × V) → List (ℕ × V)
  put key new [] = (key, new) ∷ []
  put key new ((here, old) ∷ rest) =
      if here == key then (key, new) ∷ rest else (here, old) ∷ put key new rest

  abbrev pub remove : ℕ → List (ℕ × V) → List (ℕ × V)
  remove key [] = []
  remove key ((here, old) ∷ rest) =
      let kept = remove key rest in if here == key then kept else (here, old) ∷ kept

  pub lookup-put :
      (k j : ℕ) (v : V) (m : List (ℕ × V))
      → lookup j (put k v m) ≡ (if k == j then some v else lookup j m)
  lookup-put k j v [] = refl
  lookup-put k j v ((i, w) ∷ m) = ground (arith, lookup-put k j v m)

  pub lookup-remove :
      (k j : ℕ) (m : List (ℕ × V)) → lookup j (remove k m) ≡ (if k == j then none else lookup j m)
  lookup-remove k j [] = ground arith
  lookup-remove k j ((i, w) ∷ m) = ground (arith, lookup-remove k j m)

  -- No entry has the key `k`.
  abbrev pub Lacks : ℕ → List (ℕ × V) → Type 0
  Lacks k [] = Unit
  Lacks k ((j, v) ∷ m) = (j ≢ k) × Lacks k m

  -- Each key stands in one entry only.
  abbrev pub Distinct : List (ℕ × V) → Type 0
  Distinct [] = Unit
  Distinct ((j, v) ∷ m) = Lacks j m × Distinct m

  pub Lacks-of_lookup : (k : ℕ) (m : List (ℕ × V)) → lookup k m ≡ none → Lacks k m
  Lacks-of_lookup k [] h = tt
  Lacks-of_lookup k ((j, v) ∷ m) h = ground (arith, Lacks-of_lookup k m)

  Lacks-put : (k j : ℕ) (v : V) (m : List (ℕ × V)) → k ≢ j → Lacks j m → Lacks j (put k v m)
  Lacks-put k j v [] ne h = ground arith
  Lacks-put k j v ((i, w) ∷ m) ne h = ground (arith, Lacks-put k j v m)

  pub put-Distinct : (k : ℕ) (v : V) (m : List (ℕ × V)) → Distinct m → Distinct (put k v m)
  put-Distinct k v [] h = (tt, tt)
  put-Distinct k v ((i, w) ∷ m) h = ground (arith, put-Distinct k v m, Lacks-put k i v m)

  Lacks-remove : (k j : ℕ) (m : List (ℕ × V)) → Lacks j m → Lacks j (remove k m)
  Lacks-remove k j [] h = tt
  Lacks-remove k j ((i, w) ∷ m) h = ground (arith, Lacks-remove k j m)

  pub remove-Distinct : (k : ℕ) (m : List (ℕ × V)) → Distinct m → Distinct (remove k m)
  remove-Distinct k [] h = tt
  remove-Distinct k ((i, w) ∷ m) h = ground (arith, remove-Distinct k m, Lacks-remove k i m)

  pub remove-Lacks : (k : ℕ) (m : List (ℕ × V)) → Lacks k m → remove k m ≡ m
  remove-Lacks k [] h = refl
  remove-Lacks k ((i, w) ∷ m) h = ground (arith, remove-Lacks k m)

  -- The sum of a measure over the values.
  abbrev pub total : (V → ℕ) → List (ℕ × V) → ℕ
  total f [] = 0
  total f ((j, v) ∷ m) = f v + total f m

  abbrev pub measure : (V → ℕ) → Option V → ℕ
  measure f none = 0
  measure f (some v) = f v

  pub total-put :
      (f : V → ℕ) (k : ℕ) (v : V) (m : List (ℕ × V))
      → total f (put k v m) + measure f (lookup k m) ≡ total f m + f v
  total-put f k v [] = omega arith
  total-put f k v ((i, w) ∷ m) = ground (arith, total-put f k v m)

  pub total-remove :
      (f : V → ℕ) (k : ℕ) (m : List (ℕ × V))
      → Distinct m
      → total f (remove k m) + measure f (lookup k m) ≡ total f m
  total-remove f k [] h = omega arith
  total-remove f k ((i, w) ∷ m) h =
      ground (arith, total-remove f k m, λ (e : i ≡ k). remove-Lacks i m h.0)

module _ {ℓ κ} {V : Type ℓ} where
  -- Every entry has the property.
  abbrev pub AllEntries : (ℕ → V → Type κ) → List (ℕ × V) → Type κ
  AllEntries P [] = Unit
  AllEntries P ((k, v) ∷ m) = P k v × AllEntries P m

module _ {ℓ κ} {V : Type ℓ} (P : ℕ → V → Type κ) where
  pub AllEntries-lookup :
      (m : List (ℕ × V)) (k : ℕ) {v : V} → AllEntries P m → lookup k m ≡ some v → P k v
  AllEntries-lookup [] k {v} h e = cc
  AllEntries-lookup ((j, w) ∷ m) k {v} h e = elim (Bool-cases (j == k)) [
    | inl same ↦ let value : w ≡ v = cc (rw same at e) in subst₂ P ((==_iff j k).0 same) value h.0
    | inr other ↦ AllEntries-lookup m k h.1 (rw other at e)
  ]

  pub put-AllEntries :
      (k : ℕ) (v : V) (m : List (ℕ × V)) → P k v → AllEntries P m → AllEntries P (put k v m)
  put-AllEntries k v [] new h = (new, tt)
  put-AllEntries k v ((j, w) ∷ m) new h = elim (Bool-cases (j == k)) [
    | inl same ↦ rw same (new, h.1)
    | inr other ↦ rw other (h.0, put-AllEntries k v m new h.1)
  ]

  -- What is left after `remove j` has other keys.
  pub remove-AllEntries :
      (j : ℕ) (m : List (ℕ × V)) → AllEntries P m → AllEntries (λ k v. (k ≢ j) × P k v) (remove j m)
  remove-AllEntries j [] h = tt
  remove-AllEntries j ((k, w) ∷ m) h = elim (Bool-cases (k == j)) [
    | inl same ↦ rw same (remove-AllEntries j m h.1)
    | inr other ↦ rw other ((ground arith, h.0), remove-AllEntries j m h.1)
  ]

pub AllEntries-map {ℓ κ μ} :
    {V : Type ℓ} (P : ℕ → V → Type κ) (Q : ℕ → V → Type μ) (m : List (ℕ × V))
    → ((k : ℕ) (v : V) → P k v → Q k v)
    → AllEntries P m
    → AllEntries Q m
AllEntries-map P Q [] f h = tt
AllEntries-map P Q ((k, v) ∷ m) f h = (f k v h.0, AllEntries-map P Q m f h.1)
