-- ===== src/Parse/Address/Sound.antt =====
-- What a channel that ParseChannel returns was parsed from.
use socat.Parse.Trim.{trim_unescaped_space}
use mathlib.Core.Path.{subst, ap₂}
use socat.Parse.Error.{ok, err, Error, Result}
use socat.Parse.Options.{Platform}
use socat.Parse.Scanner.{step, new_spec_scanner, at_top, SpecScanner, walk}
use socat.Prelude.Text.{has_prefix}
use socat.Parse.Address.{
  parse_channel, single_channel, parse_spec, split_dual, Spec, Channel, dual_channel, onto_left,
  dual_loop,
}
use socat.Parse.Scanner.TopLevel.{at_top-TopLevel, TopLevel}
use socat.Prelude.{
  suc, ◌∙◌, ◌≤◌, sym, Option-cases, length, ap, ◌⊎◌, inr, inl, ◌==◌, refl, ◌&&◌, Bool-cases, arith,
  drop, none, ◌++◌, true, [], some, ◌∷◌, ◌≡◌, Bytes, Option, ℕ,
}
use mathlib.Core.Option.{map}

map-onto_left :
    (c : ℕ) (o : Option (Bytes × Bytes)) (l r : Bytes)
    → map (onto_left c) o ≡ some (l, r)
    → (t : Bytes) × ((o ≡ some (t, r)) × (l ≡ c ∷ t))
map-onto_left c none l r h = cc
map-onto_left c (some (t, u)) l r h = (t, (cc, cc))

has_prefix-mark : (s : Bytes) → has_prefix s (b'!' ∷ []) ≡ true → s ≡ b'!' ∷ drop 1 s
has_prefix-mark [] h = cc
has_prefix-mark (c ∷ s) h = let e : c ≡ b'!' = ground arith in rw e refl

dual_loop-parts :
    (sc : SpecScanner) (s l r : Bytes)
    → dual_loop sc s ≡ some (l, r)
    → (s ≡ l ++ b'!' ∷ b'!' ∷ r) × (at_top (walk sc l) b'!' ≡ true)
unfolding dual_loop walk
dual_loop-parts sc [] l r h = cc
dual_loop-parts sc (c ∷ s) l r h =
    elim (Bool-cases (at_top sc c && (c == b'!' && has_prefix s (b'!' ∷ [])))) [
      | inl e ↦
          let parts : ◌≡◌ {A = Option (Bytes × Bytes)} (some ([], drop 1 s)) (some (l, r)) =
            rw e at h in
          let none_left : [] ≡ l = cc in
          let right : drop 1 s ≡ r = cc in
          let mark : c ≡ b'!' = ground arith in
          let here : at_top sc c ≡ true = ground arith in
          let more : has_prefix s (b'!' ∷ []) ≡ true = ground arith in
          rw (← none_left) (
            rw (← right)
              (ap₂ (λ (a : ℕ) (t : Bytes). a ∷ t) mark (has_prefix-mark s more), rw mark at here))
      | inr e ↦
          let later : map (onto_left c) (dual_loop (step sc c).1 s) ≡ some (l, r) = rw e at h in
          let (t, (found, left)) = map-onto_left c (dual_loop (step sc c).1 s) l r later in
          let (whole, here) = dual_loop-parts (step sc c).1 s t r found in
          rw left (ap (◌∷◌ c) whole, here)
    ]

mark_here :
    (sc : SpecScanner) (r : Bytes)
    → at_top sc b'!' ≡ true
    → dual_loop sc (b'!' ∷ b'!' ∷ r) ≡ some ([], r)
unfolding dual_loop
mark_here sc r h = rw h refl

-- Where two exclamation marks stand at the top level, splitDual answers with these or earlier ones.
dual_loop-first :
    (l : Bytes) (sc : SpecScanner) (s r : Bytes)
    → s ≡ l ++ b'!' ∷ b'!' ∷ r
    → at_top (walk sc l) b'!' ≡ true
    → (parts : Bytes × Bytes) × (dual_loop sc s ≡ some parts) × (length parts.0 ≤ length l)
unfolding walk dual_loop
dual_loop-first [] sc s r e h = (([], r), ap (dual_loop sc) e ∙ mark_here sc r h, omega arith)
dual_loop-first (d ∷ l) sc [] r e h = absurd (cc e)
dual_loop-first (d ∷ l) sc (c ∷ s) r e h =
    elim (Bool-cases (at_top sc c && (c == b'!' && has_prefix s (b'!' ∷ [])))) [
      | inl q ↦ (([], drop 1 s), rw q refl, omega arith)
      | inr q ↦
          let same : d ≡ c = cc in
          let rest : s ≡ l ++ b'!' ∷ b'!' ∷ r = cc in
          let here = subst (λ x. at_top (walk (step sc x).1 l) b'!' ≡ true) same h in
          let (parts, found, le) = dual_loop-first l (step sc c).1 s r rest here in
          (onto_left c parts, rw q (rw found refl), longer c parts (length l) le)
    ]
  where
    longer :
        (c : ℕ) (parts : Bytes × Bytes) (n : ℕ)
        → length parts.0 ≤ n
        → length (onto_left c parts).0 ≤ suc n
    longer c (t, u) n h = omega arith

-- What a channel stands for: one address, parsed from the whole text where no two exclamation marks
-- stand at the top level, or two, parsed from what stands before and behind the first ones that do.
pub data ChannelOf (p : Platform) (s : Bytes) : Channel → Type 0 where
  one :
      {spec : Spec}
      → ((l r : Bytes) → s ≡ l ++ b'!' ∷ b'!' ∷ r → ¬ TopLevel l)
      → parse_spec p s ≡ ok spec
      → ChannelOf p s record { single = some spec; dual = none; raw = s }
  two :
      (l r : Bytes) {left right : Spec}
      → s ≡ l ++ b'!' ∷ b'!' ∷ r
      → TopLevel l
      → ((l' r' : Bytes) → s ≡ l' ++ b'!' ∷ b'!' ∷ r' → TopLevel l' → length l ≤ length l')
      → parse_spec p l ≡ ok left
      → parse_spec p r ≡ ok right
      → ChannelOf p s record {
        single = none;
        dual = some record { left = left; right = right; raw = s };
        raw = s;
      }

-- splitDual sees every pair of exclamation marks at the top level.
split_dual-first :
    (s l r : Bytes)
    → s ≡ l ++ b'!' ∷ b'!' ∷ r
    → TopLevel l
    → (parts : Bytes × Bytes) × (split_dual s ≡ some parts) × (length parts.0 ≤ length l)
unfolding split_dual
split_dual-first s l r e t =
    dual_loop-first l (new_spec_scanner true) s r e ((at_top-TopLevel b'!' l refl).1 t)

split_dual-least :
    (s l r : Bytes)
    → split_dual s ≡ some (l, r)
    → (l' r' : Bytes) → s ≡ l' ++ b'!' ∷ b'!' ∷ r'
    → TopLevel l'
    → length l ≤ length l'
split_dual-least s l r found l' r' e t =
    let (parts, q, le) = split_dual-first s l' r' e t in
    let same : parts.0 ≡ l = ap fst_part (some_inj (sym q ∙ found)) in rw same at le
  where
    fst_part : Bytes × Bytes → Bytes
    fst_part a = a.0

    some_inj : {a b : Bytes × Bytes} → some a ≡ some b → a ≡ b
    some_inj h = cc

spec-cases : (r : Result Spec) → ((e : Error) × (r ≡ err e)) ⊎ ((spec : Spec) × (r ≡ ok spec))
spec-cases (err e) = inl (e, refl)
spec-cases (ok spec) = inr (spec, refl)

dual_channel-ChannelOf :
    (p : Platform) (s l r : Bytes) (c : Channel)
    → split_dual s ≡ some (l, r)
    → dual_channel p s (l, r) ≡ ok c
    → ChannelOf p s c
unfolding dual_channel
dual_channel-ChannelOf p s l r c found h =
    let (whole, here) =
      dual_loop-parts (new_spec_scanner true) s l r (unfold split_dual in found) in
    let top_level = (at_top-TopLevel b'!' l refl).0 here in
    elim (spec-cases (parse_spec p l)) [
      | inl (e, q) ↦ absurd (cc (rw q at h))
      | inr (left, q) ↦ elim (spec-cases (parse_spec p r)) [
        | inl (e, w) ↦ absurd (cc (rw w at (rw q at h)))
        | inr (right, w) ↦
            let e = rw w at (rw q at h) in
            let made : record {
              single = none;
              dual = some record { left = left; right = right; raw = s };
              raw = s;
            }
                ≡ c =
              cc in
            subst (ChannelOf p s) made (two l r whole top_level (split_dual-least s l r found) q w)
      ]
    ]

single_channel-ChannelOf :
    (p : Platform) (s : Bytes) (c : Channel)
    → split_dual s ≡ none
    → single_channel p s ≡ ok c
    → ChannelOf p s c
unfolding single_channel
single_channel-ChannelOf p s c none_found h =
    let unmarked : (l r : Bytes) → s ≡ l ++ b'!' ∷ b'!' ∷ r → ¬ TopLevel l =
      λ l r e t. let (parts, q, le) = split_dual-first s l r e t in cc (q, none_found) in
    elim (spec-cases (parse_spec p s)) [
      | inl (e, q) ↦ absurd (cc (rw q at h))
      | inr (spec, q) ↦
          let e = rw q at h in
          let made : record { single = some spec; dual = none; raw = s } ≡ c = cc in
          subst (ChannelOf p s) made (one unmarked q)
    ]

-- A channel that ParseChannel returns is one address, parsed from the trimmed text if no two
-- exclamation marks stand in it outside of quotes, escapes and brackets, or two, parsed from what
-- stands before and behind the first two that do.
pub parse_channel-ChannelOf :
    (p : Platform) (text : Bytes) (c : Channel)
    → parse_channel p text ≡ ok c
    → ChannelOf p (trim_unescaped_space text) c
unfolding parse_channel
parse_channel-ChannelOf p text c h =
    let s = trim_unescaped_space text in
    elim (Bool-cases (length s == 0)) [
      | inl e ↦ absurd (cc (rw e at h))
      | inr e ↦ elim (Option-cases (split_dual s)) [
        | inl none_found ↦ single_channel-ChannelOf p s c none_found (rw none_found at (rw e at h))
        | inr ((l, r), found) ↦ dual_channel-ChannelOf p s l r c found (rw found at (rw e at h))
      ]
    ]
