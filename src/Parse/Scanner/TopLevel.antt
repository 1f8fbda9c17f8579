-- ===== src/Parse/Scanner/TopLevel.antt =====
-- The top level of an address: where the scanner of internal/parse/scanner.go reads a separator as
-- such, against a grammar of quotes and escapes and the nesting of each kind of bracket.
use mathlib.Core.Path.{subst}
use socat.Prelude.{
  ap, refl, ◌∙◌, ◌↔◌, Bool-cases, ◌-◌, ◌+◌, ◌==◌, inr, if◌then◌else◌, inl, arith, ◌⊎◌, ◌≢◌, true,
  false, ◌∷◌, [], ◌≡◌, ℕ, Bytes,
}
use socat.Parse.Scanner.{step, step_group, walk, at_top, new_spec_scanner, SpecScanner}
use socat.Prelude.Text.{contains_byte, codes}

pub data Quotes : Type 0 where
  bare single_quotes double_quotes : Quotes

-- `Reads q s ks`: a text that begins within the quotes `q` is `s` and ends outside of quotes, behind
-- a whole escape; `ks` are its bytes that are neither quoted nor escaped. Single quotes know no
-- escapes.
pub data Reads : Quotes → Bytes → Bytes → Type 0 where
  done : Reads bare [] []
  plain :
      {c : ℕ} {s ks : Bytes}
      → contains_byte c (codes "\\'\"") ≡ false
      → Reads bare s ks
      → Reads bare (c ∷ s) (c ∷ ks)
  escaped : {c : ℕ} {s ks : Bytes} → Reads bare s ks → Reads bare (b'\\' ∷ c ∷ s) ks
  open_single : {s ks : Bytes} → Reads single_quotes s ks → Reads bare (b'\'' ∷ s) ks
  close_single : {s ks : Bytes} → Reads bare s ks → Reads single_quotes (b'\'' ∷ s) ks
  in_single :
      {c : ℕ} {s ks : Bytes} → c ≢ b'\'' → Reads single_quotes s ks → Reads single_quotes (c ∷ s) ks
  open_double : {s ks : Bytes} → Reads double_quotes s ks → Reads bare (b'"' ∷ s) ks
  close_double : {s ks : Bytes} → Reads bare s ks → Reads double_quotes (b'"' ∷ s) ks
  in_double :
      {c : ℕ} {s ks : Bytes}
      → contains_byte c (codes "\\\"") ≡ false
      → Reads double_quotes s ks
      → Reads double_quotes (c ∷ s) ks
  escaped_double :
      {c : ℕ} {s ks : Bytes} → Reads double_quotes s ks → Reads double_quotes (b'\\' ∷ c ∷ s) ks

-- The brackets of one kind that are open behind `ks`, `d` being open before; a closing one without an
-- opening one closes nothing.
abbrev pub depth : ℕ → ℕ → ℕ → Bytes → ℕ
depth opening closing d [] = d
depth opening closing d (k ∷ ks) =
    depth opening closing (if k == opening then d + 1 else if k == closing then d - 1 else d) ks

-- Behind `l` nothing is open: no quotes, no escape and no bracket.
pub record TopLevel (l : Bytes) : Type 0 where
  pub unquoted : Bytes
  pub reads : Reads bare l unquoted
  pub parentheses : depth b'(' b')' 0 unquoted ≡ 0
  pub braces : depth b'{' b'}' 0 unquoted ≡ 0
  pub brackets : depth b'[' b']' 0 unquoted ≡ 0

-- A separator has no meaning of its own to the scanner.
abbrev pub IsSeparator : ℕ → Type 0
IsSeparator sep = contains_byte sep (codes "\\'\"(){}[]") ≡ false

-- the scanner within the quotes, with the three depths
abbrev within : Quotes → ℕ → ℕ → ℕ → SpecScanner
within q p b k = record (new_spec_scanner true) {
  single = elim q [ single_quotes ↦ true | _ ↦ false ];
  double = elim q [ double_quotes ↦ true | _ ↦ false ];
  paren = p;
  brace = b;
  bracket = k;
}

step-plain :
    (c p b k : ℕ)
    → contains_byte c (codes "\\'\"") ≡ false
    → (step (within bare p b k) c).1
      ≡ within bare
          (if c == b'(' then p + 1 else if c == b')' then p - 1 else p)
          (if c == b'{' then b + 1 else if c == b'}' then b - 1 else b)
          (if c == b'[' then k + 1 else if c == b']' then k - 1 else k)
unfolding step step_group
step-plain c p b k h = ground arith

step-in_single :
    (c p b k : ℕ) → c ≢ b'\'' → (step (within single_quotes p b k) c).1 ≡ within single_quotes p b k
unfolding step
step-in_single c p b k h = ground arith

step-in_double :
    (c p b k : ℕ)
    → contains_byte c (codes "\\\"") ≡ false
    → (step (within double_quotes p b k) c).1 ≡ within double_quotes p b k
unfolding step
step-in_double c p b k h = ground arith

-- The scanner follows the grammar.
walk-Reads :
    {q : Quotes} {s ks : Bytes}
    → Reads q s ks
    → (p b k : ℕ)
    → walk (within q p b k) s
      ≡ within bare (depth b'(' b')' p ks) (depth b'{' b'}' b ks) (depth b'[' b']' k ks)
unfolding walk step
walk-Reads done p b k = refl
walk-Reads (plain {c = c} {s = s} h r) p b k =
    ap (λ sc. walk sc s) (step-plain c p b k h) ∙ walk-Reads r _ _ _
walk-Reads (escaped r) p b k = walk-Reads r p b k
walk-Reads (open_single r) p b k = walk-Reads r p b k
walk-Reads (close_single r) p b k = walk-Reads r p b k
walk-Reads (in_single {c = c} {s = s} h r) p b k =
    ap (λ sc. walk sc s) (step-in_single c p b k h) ∙ walk-Reads r p b k
walk-Reads (open_double r) p b k = walk-Reads r p b k
walk-Reads (close_double r) p b k = walk-Reads r p b k
walk-Reads (in_double {c = c} {s = s} h r) p b k =
    ap (λ sc. walk sc s) (step-in_double c p b k h) ∙ walk-Reads r p b k
walk-Reads (escaped_double r) p b k = walk-Reads r p b k

-- A scanner outside of quotes and escapes.
abbrev IsBare : SpecScanner → Type 0
IsBare sc = (sc.single ≡ false) × (sc.double ≡ false) × (sc.esc ≡ false)

special :
    (c : ℕ) → (c ≡ b'\\') ⊎ (c ≡ b'\'') ⊎ (c ≡ b'"') ⊎ (contains_byte c (codes "\\'\"") ≡ false)
special c = ground arith

abbrev Readable : Quotes → Bytes → Type 0
Readable q s = (ks : Bytes) × Reads q s ks

-- What the scanner reads to its end outside of quotes is of the grammar.
mutual
  unfolding walk step

  Readable-walk :
      (q : Quotes) (s : Bytes) (p b k : ℕ) → IsBare (walk (within q p b k) s) → Readable q s
  Readable-walk bare [] p b k h = ([], done)
  Readable-walk single_quotes [] p b k h = absurd (cc h.0)
  Readable-walk double_quotes [] p b k h = absurd (cc h.1)
  Readable-walk bare (c ∷ s) p b k h = elim (special c) [
    | inl e ↦ rw e (escape_bare s p b k (rw e at h))
    | inr (inl e) ↦
        let (ks, r) = Readable-walk single_quotes s p b k (rw e at h) in (ks, rw e (open_single r))
    | inr (inr (inl e)) ↦
        let (ks, r) = Readable-walk double_quotes s p b k (rw e at h) in (ks, rw e (open_double r))
    | inr (inr (inr e)) ↦
        let (ks, r) =
          Readable-walk bare s _ _ _ (subst (λ sc. IsBare (walk sc s)) (step-plain c p b k e) h) in
        (c ∷ ks, plain e r)
  ]
  Readable-walk single_quotes (c ∷ s) p b k h = elim (Bool-cases (c == b'\'')) [
    | inl e ↦
        let quote : c ≡ b'\'' = ground arith in
        let (ks, r) = Readable-walk bare s p b k (rw quote at h) in (ks, rw quote (close_single r))
    | inr e ↦
        let other : c ≢ b'\'' = ground arith in
        let (ks, r) =
          Readable-walk single_quotes s p b k
            (subst (λ sc. IsBare (walk sc s)) (step-in_single c p b k other) h) in
        (ks, in_single other r)
  ]
  Readable-walk double_quotes (c ∷ s) p b k h = elim (special c) [
    | inl e ↦ rw e (escape_double s p b k (rw e at h))
    | inr (inl e) ↦
        let other : contains_byte c (codes "\\\"") ≡ false = ground arith in
        let (ks, r) =
          Readable-walk double_quotes s p b k
            (subst (λ sc. IsBare (walk sc s)) (step-in_double c p b k other) h) in
        (ks, in_double other r)
    | inr (inr (inl e)) ↦
        let (ks, r) = Readable-walk bare s p b k (rw e at h) in (ks, rw e (close_double r))
    | inr (inr (inr e)) ↦
        let other : contains_byte c (codes "\\\"") ≡ false = ground arith in
        let (ks, r) =
          Readable-walk double_quotes s p b k
            (subst (λ sc. IsBare (walk sc s)) (step-in_double c p b k other) h) in
        (ks, in_double other r)
  ]

  escape_bare :
      (s : Bytes) (p b k : ℕ)
      → IsBare (walk (record (within bare p b k) { esc = true }) s)
      → Readable bare (b'\\' ∷ s)
  escape_bare [] p b k h = absurd (cc h.2)
  escape_bare (c ∷ s) p b k h = let (ks, r) = Readable-walk bare s p b k (h) in (ks, escaped r)

  escape_double :
      (s : Bytes) (p b k : ℕ)
      → IsBare (walk (record (within double_quotes p b k) { esc = true }) s)
      → Readable double_quotes (b'\\' ∷ s)
  escape_double [] p b k h = absurd (cc h.2)
  escape_double (c ∷ s) p b k h =
      let (ks, r) = Readable-walk double_quotes s p b k (h) in (ks, escaped_double r)

at_top-IsBare : (sc : SpecScanner) (sep : ℕ) → at_top sc sep ≡ true → IsBare sc
unfolding at_top step
at_top-IsBare sc sep h = ground arith

at_top-depths :
    (sep p b k : ℕ)
    → IsSeparator sep
    → at_top (within bare p b k) sep ≡ true
    → (p ≡ 0) × (b ≡ 0) × (k ≡ 0)
unfolding at_top step step_group
at_top-depths sep p b k i h = ground arith

at_top-flat : (sep : ℕ) → IsSeparator sep → at_top (within bare 0 0 0) sep ≡ true
unfolding at_top step step_group
at_top-flat sep i = ground arith

-- The scanner reads a separator behind `l` as such exactly at the top level.
pub at_top-TopLevel :
    (sep : ℕ) (l : Bytes)
    → IsSeparator sep
    → (at_top (walk (new_spec_scanner true) l) sep ≡ true) ↔ TopLevel l
at_top-TopLevel sep l i = (sound, complete)
  where
    complete : TopLevel l → at_top (walk (new_spec_scanner true) l) sep ≡ true
    complete t =
        let ends : walk (new_spec_scanner true) l ≡ within bare 0 0 0 =
          walk-Reads t.reads 0 0 0 ∙ (rw (t.parentheses, t.braces, t.brackets) refl) in
        rw ends (at_top-flat sep i)

    sound : at_top (walk (new_spec_scanner true) l) sep ≡ true → TopLevel l
    sound h =
        let (ks, r) =
          Readable-walk bare l 0 0 0 (at_top-IsBare (walk (new_spec_scanner true) l) sep h) in
        let (p, b, k) = at_top-depths sep _ _ _ i (rw (walk-Reads r 0 0 0) at h) in
        record { unquoted = ks; reads = r; parentheses = p; braces = b; brackets = k }
