-- ===== src/Parse/Scanner/FirstTop.antt =====
-- What FindTop of internal/parse/scanner.go finds, by the grammar of the top level.
use socat.Parse.Scanner.TopLevel.{at_top-TopLevel, TopLevel, IsSeparator}
use native.Mathlib.Decide.{dec_lt}
use mathlib.Core.Path.{subst}
use socat.Parse.Scanner.Quiet.{find_top-Found, Found, Quiet}
use socat.Prelude.{
  none, zero, drop, suc, ◌≤◌, take, ◌&&◌, some, ◌<◌, Option, length, ◌++◌, ap, refl, ◌∙◌, ◌==◌,
  arith, true, false, ◌∷◌, [], ◌≡◌, ℕ, Bytes,
}
use socat.Parse.Scanner.{step, walk, at_top, new_spec_scanner, SpecScanner, find_top}

-- No separator before the end of a quiet stretch stands at the top level.
Quiet-before :
    (sep : ℕ) (sc : SpecScanner) (s l r : Bytes)
    → Quiet sep sc s
    → s ≡ l ++ sep ∷ r
    → at_top (walk sc l) sep ≡ false
unfolding Quiet walk
Quiet-before sep sc [] [] r q e = cc
Quiet-before sep sc [] (d ∷ l) r q e = cc
Quiet-before sep sc (c ∷ s) [] r q e =
    let same : c ≡ sep = cc in
    let closed : (at_top sc sep && sep == sep) ≡ false = rw same at q.0 in ground arith
Quiet-before sep sc (c ∷ s) (d ∷ l) r q e =
    let same : c ≡ d = cc in
    let rest : s ≡ l ++ sep ∷ r = cc in
    subst (λ x. at_top (walk (step sc x).1 l) sep ≡ false) same
      (Quiet-before sep (step sc c).1 s l r q.1 rest)

take-before :
    (i : ℕ) (l r : Bytes) (sep : ℕ)
    → length l < i
    → (t : Bytes) × (take i (l ++ sep ∷ r) ≡ l ++ sep ∷ t)
take-before zero l r sep h = absurd (omega arith)
take-before (suc i) [] r sep h = (take i r, refl)
take-before (suc i) (c ∷ l) r sep h =
    let (t, e) = take-before i l r sep (omega arith) in (t, ap (◌∷◌ c) e)

-- The answer is the first place where the separator stands at the top level, and there is none
-- without an answer.
abbrev pub FirstTop : ℕ → Bytes → Option ℕ → Type 0
FirstTop sep s none = (l r : Bytes) → s ≡ l ++ sep ∷ r → ¬ TopLevel l
FirstTop sep s (some i) =
    (s ≡ take i s ++ sep ∷ drop (suc i) s)
    × TopLevel (take i s)
    × ((l r : Bytes) → s ≡ l ++ sep ∷ r → TopLevel l → i ≤ length l)

module _ (sep : ℕ) (s : Bytes) (i : IsSeparator sep) where
  Quiet-TopLevel :
      (t l r : Bytes) → Quiet sep (new_spec_scanner true) t → t ≡ l ++ sep ∷ r → ¬ TopLevel l
  Quiet-TopLevel t l r q e top_level =
      let seen = (at_top-TopLevel sep l i).1 top_level in
      let unseen = Quiet-before sep (new_spec_scanner true) t l r q e in cc (seen, unseen)

  Found-FirstTop : (o : Option ℕ) → Found sep (new_spec_scanner true) s o → FirstTop sep s o
  unfolding Found
  Found-FirstTop none f = λ l r e. Quiet-TopLevel s l r f e
  Found-FirstTop (some n) (e, (q, h)) = (e, (at_top-TopLevel sep (take n s) i).0 h, first)
    where
      first : (l r : Bytes) → s ≡ l ++ sep ∷ r → TopLevel l → n ≤ length l
      first l r e' top_level = elim (dec_lt (length l) n) [
        | no near ↦ omega arith
        | yes far ↦
            let (t, w) = take-before n l r sep far in
            absurd (Quiet-TopLevel (take n s) l t q (ap (take n) e' ∙ w) top_level)
      ]

  -- With tracked nesting, FindTop answers for a separator, a byte that is no quote, backslash or
  -- bracket, with the first place where it stands outside of quotes, escapes and brackets, and without
  -- an answer there is none.
  pub find_top-FirstTop : FirstTop sep s (find_top sep (new_spec_scanner true) s)
  find_top-FirstTop = Found-FirstTop _ (find_top-Found sep (new_spec_scanner true) s)
