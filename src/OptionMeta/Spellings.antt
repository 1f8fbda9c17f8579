-- ===== src/OptionMeta/Spellings.antt =====
-- In a catalogue that validateCatalog accepts, every spelling leads to its option.
use socat.Prelude.Text.{contains_text, equal_text_eq, equal_text}
use socat.OptionMeta.{
  names, OptionDef, lookup_option, by_spelling, validate_catalog, store_all, find, claim_names,
}
use socat.Prelude.{
  zero, suc, Option-cases, not, ◌==◌, get_elem?, inr, inl, sym, length, arith, ap, Bool-cases, Bool,
  refl, [], ◌∙◌, ◌||◌, false, ◌∷◌, if◌then◌else◌, some, true, ◌≡◌, List, Bytes, ℕ,
}

either {ℓ} :
    {V : Type ℓ} (a b : Bool) (x y : V)
    → (if a then x else if b then x else y) ≡ (if b || a then x else y)
either true true x y = refl
either true false x y = refl
either false b x y = ground arith

-- The map after an option is stored under all of its spellings.
find-store_all {ℓ} :
    {V : Type ℓ} (n : Bytes) (ks : List Bytes) (v : V) (m : List (Bytes × V))
    → find n (store_all ks v m) ≡ (if contains_text n ks then some v else find n m)
find-store_all n [] v m = refl
find-store_all n (k ∷ ks) v m =
    find-store_all n ks v ((k, v) ∷ m)
    ∙ either (contains_text n ks) (equal_text n k) (some v) (find n m)

-- A spelling that is accepted is new, and is seen from then on.
claim_names-step :
    (low : Bytes → Bytes) (k : Bytes) (ns seen after : List Bytes)
    → claim_names low (k ∷ ns) seen ≡ some after
    → (claim_names low ns (k ∷ seen) ≡ some after) × (contains_text k seen ≡ false)
unfolding claim_names
claim_names-step low k ns seen after h =
    elim (Bool-cases (length k == 0 || not (equal_text k (low k)))) [
      | inl e ↦ absurd (cc (rw e at h))
      | inr e ↦ elim (Bool-cases (contains_text k seen)) [
        | inl f ↦ absurd (cc (rw f at (rw e at h)))
        | inr f ↦ (rw f at (rw e at h), f)
      ]
    ]

claim_names-seen :
    (low : Bytes → Bytes) (n : Bytes) (ns seen after : List Bytes)
    → claim_names low ns seen ≡ some after
    → contains_text n after ≡ (contains_text n ns || contains_text n seen)
claim_names-seen low n [] seen after h =
    let e : seen ≡ after = unfold claim_names in cc (h) in ap (contains_text n) (sym e)
claim_names-seen low n (k ∷ ns) seen after h =
    let (more, new) = claim_names-step low k ns seen after h in
    ground (arith, claim_names-seen low n ns (k ∷ seen) after more)

claim_names-new :
    (low : Bytes → Bytes) (n : Bytes) (ns seen after : List Bytes)
    → claim_names low ns seen ≡ some after
    → contains_text n seen ≡ true
    → contains_text n ns ≡ false
claim_names-new low n [] seen after h s = refl
claim_names-new low n (k ∷ ns) seen after h s =
    let (more, new) = claim_names-step low k ns seen after h in
    let later : contains_text n ns ≡ false =
      claim_names-new low n ns (k ∷ seen) after more (ground arith) in
    elim (Bool-cases (equal_text n k)) [
      | inl e ↦ absurd (cc (s, new, equal_text_eq n k e))
      | inr e ↦ rw e later
    ]

-- The same for the options of a catalogue.
validate_catalog-step :
    (low : Bytes → Bytes) (d : OptionDef) (ds : List OptionDef) (seen after : List Bytes)
    → validate_catalog low (d ∷ ds) seen ≡ some after
    → (mid : List Bytes) × ((claim_names low (names d) seen ≡ some mid)
        × (validate_catalog low ds mid ≡ some after))
unfolding validate_catalog
validate_catalog-step low d ds seen after h = elim (Option-cases (claim_names low (names d) seen)) [
  | inl e ↦ absurd (cc (rw (e, validate_catalog) at h))
  | inr (mid, e) ↦ (mid, (e, rw (e, validate_catalog) at h))
]

-- A spelling that was seen before the options `ds` is none of theirs.
by_spelling-seen :
    (low : Bytes → Bytes) (n : Bytes) (ds : List OptionDef) (m : List (Bytes × OptionDef))
    (seen after : List Bytes)
    → validate_catalog low ds seen ≡ some after
    → contains_text n seen ≡ true
    → find n (by_spelling ds m) ≡ find n m
unfolding by_spelling
by_spelling-seen low n [] m seen after h s = refl
by_spelling-seen low n (d ∷ ds) m seen after h s =
    let (mid, (claimed, rest)) = validate_catalog-step low d ds seen after h in
    let new : contains_text n (names d) ≡ false =
      claim_names-new low n (names d) seen mid claimed s in
    let kept : contains_text n mid ≡ true =
      claim_names-seen low n (names d) seen mid claimed ∙ rw new s in
    by_spelling-seen low n ds (store_all (names d) d m) mid after rest kept
    ∙ find-store_all n (names d) d m
    ∙ rw new refl

by_spelling-owner :
    (low : Bytes → Bytes) (n : Bytes) (ds : List OptionDef) (i : ℕ) (d : OptionDef)
    (m : List (Bytes × OptionDef)) (seen after : List Bytes)
    → validate_catalog low ds seen ≡ some after
    → get_elem? ds i ≡ some d
    → contains_text n (names d) ≡ true
    → find n (by_spelling ds m) ≡ some d
unfolding by_spelling
by_spelling-owner low n [] i d m seen after h at_i own = cc
by_spelling-owner low n (e ∷ ds) zero d m seen after h at_i own =
    let (mid, (claimed, rest)) = validate_catalog-step low e ds seen after h in
    let same : e ≡ d = cc in
    let owned : contains_text n (names e) ≡ true = rw same own in
    let kept : contains_text n mid ≡ true =
      claim_names-seen low n (names e) seen mid claimed ∙ rw owned refl in
    by_spelling-seen low n ds (store_all (names e) e m) mid after rest kept
    ∙ find-store_all n (names e) e m
    ∙ rw owned at_i
by_spelling-owner low n (e ∷ ds) (suc i) d m seen after h at_i own =
    let (mid, (claimed, rest)) = validate_catalog-step low e ds seen after h in
    by_spelling-owner low n ds i d (store_all (names e) e m) mid after rest at_i own

-- In a catalogue that validateCatalog accepts, Lookup of any spelling of an option, canonical or
-- alias, written so that lower case and trimming give it, returns that option.
pub lookup_option-names :
    (low trim : Bytes → Bytes) (catalog : List OptionDef) (seen : List Bytes) (i : ℕ)
    (d : OptionDef) (text : Bytes)
    → validate_catalog low catalog [] ≡ some seen
    → get_elem? catalog i ≡ some d
    → contains_text (low (trim text)) (names d) ≡ true
    → lookup_option low trim catalog text ≡ some d
unfolding lookup_option
lookup_option-names low trim catalog seen i d text valid at_i own =
    by_spelling-owner low (low (trim text)) catalog i d [] [] seen valid at_i own
