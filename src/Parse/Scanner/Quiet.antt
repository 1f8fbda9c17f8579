-- ===== src/Parse/Scanner/Quiet.antt =====
-- Stretches of a string in which the scanner meets no separator, and what FindTop finds.
use mathlib.Core.Path.{subst}
use socat.Parse.Scanner.{is_top, ScanClass, step, at_top, find_top, walk, SpecScanner}
use socat.Prelude.{
  sym, refl, inr, none, inl, true, false, [], ◌==◌, drop, ◌∙◌, arith, ◌&&◌, Bool-cases, take,
  length, ap, ◌+◌, some, ◌++◌, ◌∷◌, ◌≡◌, suc, Bytes, Option, ℕ,
}
use mathlib.Core.Option.{map}

-- Reading `s` from `sc` on, no `sep` stands at the top level.
unfoldable pub Quiet : ℕ → SpecScanner → Bytes → Type 0
Quiet sep sc [] = Unit
Quiet sep sc (c ∷ s) = ((at_top sc c && c == sep) ≡ false) × Quiet sep (step sc c).1 s

pub walk-append : (sc : SpecScanner) (s t : Bytes) → walk sc (s ++ t) ≡ walk (walk sc s) t
unfolding walk
walk-append sc [] t = refl
walk-append sc (c ∷ s) t = walk-append (step sc c).1 s t

pub Quiet-append :
    (sep : ℕ) (sc : SpecScanner) (s t : Bytes)
    → Quiet sep sc s
    → Quiet sep (walk sc s) t
    → Quiet sep sc (s ++ t)
unfolding Quiet walk
Quiet-append sep sc [] t p q = q
Quiet-append sep sc (c ∷ s) t p q = (p.0, Quiet-append sep (step sc c).1 s t p.1 q)

map-suc-add : (n : ℕ) (o : Option ℕ) → map suc (map (λ i. n + i) o) ≡ map (λ i. suc n + i) o
map-suc-add n none = refl
map-suc-add n (some i) = ap some (omega arith)

map-zero-add : (o : Option ℕ) → o ≡ map (λ i. 0 + i) o
map-zero-add none = refl
map-zero-add (some i) = ap some (omega arith)

-- FindTop passes over a quiet stretch.
pub find_top-append :
    (sep : ℕ) (sc : SpecScanner) (s t : Bytes)
    → Quiet sep sc s
    → find_top sep sc (s ++ t) ≡ map (λ i. length s + i) (find_top sep (walk sc s) t)
unfolding find_top Quiet walk
find_top-append sep sc [] t q = map-zero-add (find_top sep sc t)
find_top-append sep sc (c ∷ s) t q = rw q.0 (
    ap (map suc) (find_top-append sep (step sc c).1 s t q.1)
    ∙ map-suc-add (length s) (find_top sep (walk (step sc c).1 s) t))

-- What an answer of FindTop says of the bytes: nothing found, or the first separator.
unfoldable pub Found : ℕ → SpecScanner → Bytes → Option ℕ → Type 0
Found sep sc s none = Quiet sep sc s
Found sep sc s (some i) =
    (s ≡ take i s ++ sep ∷ drop (suc i) s)
    × (Quiet sep sc (take i s) × (at_top (walk sc (take i s)) sep ≡ true))

Found-later :
    (sep : ℕ) (sc : SpecScanner) (c : ℕ) (s : Bytes) (o : Option ℕ)
    → (at_top sc c && c == sep) ≡ false
    → Found sep (step sc c).1 s o
    → Found sep sc (c ∷ s) (map suc o)
unfolding Found Quiet walk
Found-later sep sc c s none h f = (h, f)
Found-later sep sc c s (some i) h (e, (q, t)) = (ap (◌∷◌ c) e, ((h, q), t))

-- FindTop answers with the first separator at the top level: everything before it is quiet, and
-- it stands at the top level there; without one the whole string is quiet.
pub find_top-Found : (sep : ℕ) (sc : SpecScanner) (s : Bytes) → Found sep sc s (find_top sep sc s)
unfolding find_top Quiet walk
find_top-Found sep sc [] = unfold Found in tt
find_top-Found sep sc (c ∷ s) = elim (Bool-cases (at_top sc c && c == sep)) [
  | inl e ↦
      let same : c ≡ sep = ground arith in
      let here : at_top sc c ≡ true = ground arith in
      let top_level : at_top sc sep ≡ true = rw same at here in
      rw e (unfold Found in (rw same refl, (tt, top_level)))
  | inr n ↦ rw n (Found-later sep sc c s _ n (find_top-Found sep (step sc c).1 s))
]

-- From `sc` the scanner reads `s` without a separator at the top level and ends as `last`.
pub record Passes (sep : ℕ) (sc : SpecScanner) (s : Bytes) (last : SpecScanner) : Type 0 where
  pub quiet : Quiet sep sc s
  pub ends : walk sc s ≡ last

pub Passes-cons :
    {sep : ℕ} {sc next last : SpecScanner} {c : ℕ} {class : ScanClass} {s : Bytes}
    → step sc c ≡ (class, next)
    → (is_top class && c == sep) ≡ false
    → Passes sep next s last
    → Passes sep sc (c ∷ s) last
unfolding Quiet walk at_top
Passes-cons {sep} {sc} {next} {last} {c} {class} {s} e h p =
    let Goal : ScanClass × SpecScanner → Type 0 =
      λ r. (((is_top r.0 && c == sep) ≡ false) × Quiet sep r.1 s) × (walk r.1 s ≡ last) in
    let (q, w) = subst Goal (sym e) ((h, p.quiet), p.ends) in record { quiet = q; ends = w }

pub Passes-append :
    {sep : ℕ} {sc mid last : SpecScanner} {s t : Bytes}
    → Passes sep sc s mid
    → Passes sep mid t last
    → Passes sep sc (s ++ t) last
Passes-append {sep} {sc} {mid} {last} {s} {t} p r = record {
  quiet = Quiet-append sep sc s t p.quiet (subst (λ m. Quiet sep m t) (sym p.ends) r.quiet);
  ends = walk-append sc s t ∙ ap (λ m. walk m t) p.ends ∙ r.ends;
}

pub Passes-nil : {sep : ℕ} {sc : SpecScanner} → Passes sep sc [] sc
unfolding Quiet walk
Passes-nil = record { quiet = tt; ends = refl }
