-- ===== src/Parse/Trim/Exact.antt =====
-- What trimUnescapedSpace of internal/parse/parse.go cuts and what it keeps.
use socat.Parse.Trim.Kept.{Stops, space_size-prefix, trim_start_loop_stops, trim_end_loop-Stops}
use mathlib.Core.Path.{subst}
use socat.Parse.Trim.{
  escaped_byte, last_space_size, space_size, trim_unescaped_space, trim_end_loop, trim_start_loop,
}
use socat.Parse.Trim.White.{
  White, White-append, no_white, more_white, IsWhite, IsPlainEnd, IsEscaping, space_size-IsWhite,
  last_space_size-IsWhite, space_size_white, last_space_size_white, escaped_byte-IsEscaping,
  escaped_byte-IsPlainEnd,
}
use socat.Prelude.{
  append-nil, false, ◌≢◌, ◌⊎◌, length-append, append_assoc, ap, ◌∙◌, take-append-drop, sym, take,
  ◌<◌, inr, inl, Bool-cases, [], ◌∷◌, ◌++◌, true, refl, drop, zero, ◌||◌, arith, ◌==◌, length, suc,
  ◌≡◌, Bytes, ℕ,
}
use mathlib.Core.List.{reverse-append, reverse-cons, reverse, reverse-reverse}

-- What the second loop leaves is its string without white space at the front, which nothing left
-- escapes.
trim_end_loop-White :
    (n : ℕ) (r : Bytes)
    → (lead : Bytes) × (r ≡ lead ++ trim_end_loop n r)
      × White (reverse lead)
      × ((lead ≡ []) ⊎ (escaped_byte (trim_end_loop n r) ≡ false))
unfolding trim_end_loop
trim_end_loop-White zero r = ([], refl, no_white, inl refl)
trim_end_loop-White (suc n) r =
    elim (Bool-cases (last_space_size r == 0 || escaped_byte (drop (last_space_size r) r))) [
      | inl e ↦ ([], rw e refl, no_white, inl refl)
      | inr e ↦
          let size = last_space_size r in
          let (lead, q, white, last) = trim_end_loop-White n (drop size r) in
          let some_size : 0 < size = ground arith in
          let plain : escaped_byte (drop size r) ≡ false = ground arith in
          (
            take size r ++ lead,
            rw e (
                sym (take-append-drop size r)
                ∙ ap (λ t. take size r ++ t) q
                ∙ sym (append_assoc (take size r) lead _)),
            subst White (sym (reverse-append (take size r) lead)) (
                White-append white (
                  subst White (append-nil (reverse (take size r))) (
                    more_white (reverse (take size r)) (last_space_size-IsWhite r some_size)
                      no_white))),
            inr (
                rw e (elim last [
                  | inl nothing ↦
                      subst (λ t. escaped_byte t ≡ false)
                        (q ∙ ap (λ t. t ++ trim_end_loop n (drop size r)) nothing) plain
                  | inr f ↦ f
                ])),
          )
    ]

trim_start_loop-White :
    (n : ℕ) (s : Bytes) → (lead : Bytes) × (s ≡ lead ++ trim_start_loop n s) × White lead
unfolding trim_start_loop
trim_start_loop-White zero s = ([], refl, no_white)
trim_start_loop-White (suc n) s = elim (Bool-cases (space_size s == 0)) [
  | inl e ↦ ([], rw e refl, no_white)
  | inr e ↦
      let size = space_size s in
      let (lead, q, white) = trim_start_loop-White n (drop size s) in
      (
        take size s ++ lead,
        rw e (
            sym (take-append-drop size s)
            ∙ ap (λ t. take size s ++ t) q
            ∙ sym (append_assoc (take size s) lead _)),
        more_white (take size s) (space_size-IsWhite s (ground arith)) white,
      )
]

drop-append : (s t : Bytes) → drop (length s) (s ++ t) ≡ t
drop-append [] t = refl
drop-append (c ∷ s) t = drop-append s t

length-reverse : (s : Bytes) → length (reverse s) ≡ length s
length-reverse [] = refl
length-reverse (c ∷ s) =
    ap length (reverse-cons c s)
    ∙ omega (arith, length-append (reverse s) (c ∷ []), length-reverse s)

-- What is left of `s`: white space was cut from both ends, none of it escaped, none is left at the
-- front, and what is left at the end is escaped.
pub record Trimmed (s kept : Bytes) : Type 0 where
  pub lead : Bytes
  pub trail : Bytes
  pub whole : s ≡ lead ++ (kept ++ trail)
  pub white_lead : White lead
  pub white_trail : White trail
  pub cut_unescaped : (trail ≡ []) ⊎ IsPlainEnd kept
  pub clear_front : (space t : Bytes) → IsWhite space → kept ≢ space ++ t
  pub clear_end : (t space : Bytes) → IsWhite space → kept ≡ t ++ space → IsEscaping t

clear_front_lem :
    (kept : Bytes) → space_size kept ≡ 0 → (space t : Bytes) → IsWhite space → kept ≢ space ++ t
clear_front_lem kept h space t i e =
    let seen = space_size_white space t i in
    let none_seen : space_size (space ++ t) ≡ 0 = subst (λ x. space_size x ≡ 0) e h in omega arith

IsWhite-length : (space : Bytes) → IsWhite space → 0 < length (reverse space)
IsWhite-length [] h = absurd h
IsWhite-length (c ∷ s) h = omega (arith, length-reverse (c ∷ s))

clear_end_lem :
    (kept : Bytes)
    → Stops (reverse kept)
    → (t space : Bytes) → IsWhite space
    → kept ≡ t ++ space
    → IsEscaping t
clear_end_lem kept h t space i e =
    let parts : reverse kept ≡ reverse space ++ reverse t = ap reverse e ∙ reverse-append t space in
    let stops : Stops (reverse space ++ reverse t) = subst Stops parts h in
    let size = last_space_size_white space (reverse t) i in
    let n = length (reverse space) in
    let stops' : (n == 0 || escaped_byte (drop n (reverse space ++ reverse t))) ≡ true =
      subst (λ m. (m == 0 || escaped_byte (drop m (reverse space ++ reverse t))) ≡ true) size
        stops in
    let some_bytes = IsWhite-length space i in
    let escaped : escaped_byte (drop n (reverse space ++ reverse t)) ≡ true = ground arith in
    escaped_byte-IsEscaping t
      (subst (λ x. escaped_byte x ≡ true) (drop-append (reverse space) (reverse t)) escaped)

-- trimUnescapedSpace cuts white space from both ends of its string, of which at the end none that is
-- escaped by an odd number of backslashes, and leaves none at the front and only escaped white space
-- at the end.
pub trim_unescaped_space-Trimmed : (s : Bytes) → Trimmed s (trim_unescaped_space s)
unfolding trim_unescaped_space
trim_unescaped_space-Trimmed s =
    let front = trim_start_loop (length s) s in
    let kept = trim_end_loop (length front) (reverse front) in
    let (lead, q, white) = trim_start_loop-White (length s) s in
    let (tail, w, white_tail, last) = trim_end_loop-White (length front) (reverse front) in
    let parts : front ≡ reverse kept ++ reverse tail =
      sym (reverse-reverse front) ∙ ap reverse w ∙ reverse-append tail kept in
    let clear : space_size front ≡ 0 = trim_start_loop_stops (length s) s (omega arith) in
    let stops : Stops kept =
      trim_end_loop-Stops (length front) (reverse front) (omega (arith, length-reverse front)) in
    let both : space_size (reverse kept ++ reverse tail) ≡ 0 = sym (ap space_size parts) ∙ clear in
    record {
      lead = lead;
      trail = reverse tail;
      whole = q ∙ ap (λ t. lead ++ t) parts;
      white_lead = white;
      white_trail = white_tail;
      cut_unescaped = elim last [
        | inl nothing ↦ inl (ap reverse nothing)
        | inr f ↦ inr (
            escaped_byte-IsPlainEnd (reverse kept)
              (subst (λ x. escaped_byte x ≡ false) (sym (reverse-reverse kept)) f))
      ];
      clear_front =
          clear_front_lem (reverse kept) (space_size-prefix (reverse kept) (reverse tail) both);
      clear_end = clear_end_lem (reverse kept) (subst Stops (sym (reverse-reverse kept)) stops);
    }
