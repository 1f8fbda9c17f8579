-- ===== src/Dtls/ConnectionId/Parsing.antt =====
-- What parseCIDs of internal/dtls13/connection_id.go returns; receiveCIDs takes the first id of it.
use socat.Dtls.Error.{decode, ok, err, Result}
use socat.Dtls.Wire.{done, take, reader, read_vector16, read_uint8, read_vector8}
use socat.Dtls.ConnectionId.{max_connection_ids, parse_cids, read_ids, contains_cid}
use socat.Dtls.Protection.{same}
use socat.Prelude.{
  length-drop, zero, true, none, length-append, inr, refl, inl, is_some, suc, not, ◌∙◌, ◌&&◌, ◌||◌,
  some, ltb, false, arith, ◌==◌, if◌then◌else◌, ◌++◌, ◌<◌, length, [], Bool-cases, ◌≤◌, ◌∷◌, ◌≡◌,
  Bytes, Bool, Option, List, ℕ,
}

same_comm : (x y : Bytes) → same x y ≡ same y x
unfolding same
same_comm [] [] = refl
same_comm [] (y ∷ ys) = refl
same_comm (x ∷ xs) [] = refl
same_comm (x ∷ xs) (y ∷ ys) = ground (arith, same_comm xs ys)

-- No id stands twice in the list.
abbrev pub Unique : List Bytes → Type 0
Unique [] = Unit
Unique (id ∷ ids) = (contains_cid ids id ≡ false) × Unique ids

contains_cid-append :
    (ids : List Bytes) (x y : Bytes)
    → contains_cid (ids ++ (x ∷ [])) y ≡ contains_cid ids y || same x y
unfolding contains_cid
contains_cid-append [] x y = ground arith
contains_cid-append (id ∷ ids) x y = ground (arith, contains_cid-append ids x y)

Unique-append :
    (ids : List Bytes) (x : Bytes)
    → Unique ids
    → contains_cid ids x ≡ false
    → Unique (ids ++ (x ∷ []))
unfolding contains_cid
Unique-append [] x u h = (refl, tt)
Unique-append (id ∷ ids) x u h =
    let other : same id x ≡ false = ground arith in
    let rest : contains_cid ids x ≡ false = ground arith in
    (
      contains_cid-append ids x id ∙ ground (arith, same_comm x id, u.0),
      Unique-append ids x u.1 rest,
    )

-- the list after one more id was read
unfoldable kept : List Bytes → Bytes → List Bytes
kept ids id =
    if ltb (length ids) max_connection_ids && not (contains_cid ids id)
    then ids ++ (id ∷ [])
    else ids

pub record IsIdList (least : ℕ) (ids : List Bytes) : Type 0 where
  pub at_least : least ≤ length ids
  pub at_most : length ids ≤ max_connection_ids
  pub unique : Unique ids

kept-IsIdList :
    (least : ℕ) (ids : List Bytes) (id : Bytes) → IsIdList least ids → IsIdList least (kept ids id)
unfolding kept
kept-IsIdList least ids id s =
    elim (Bool-cases (ltb (length ids) max_connection_ids && not (contains_cid ids id))) [
      | inr e ↦ rw e s
      | inl e ↦
          let fresh : contains_cid ids id ≡ false = ground arith in
          let fits : length ids < max_connection_ids = ground arith in
          rw e (record {
            at_least = omega (arith, length-append ids (id ∷ []), s.at_least);
            at_most = omega (arith, length-append ids (id ∷ []));
            unique = Unique-append ids id s.unique fresh;
          })
    ]

kept-first : (id : Bytes) → IsIdList 1 (kept [] id)
unfolding kept contains_cid
kept-first id = record { at_least = omega arith; at_most = omega arith; unique = (refl, tt) }

-- A round takes at least the byte of the length.
vector8-shorter :
    (b : ℕ) (bs : Bytes) → length (read_vector8 (reader (b ∷ bs))).1.data_left ≤ length bs
unfolding read_vector8 read_uint8 take
vector8-shorter b bs = ground (arith, length-drop b bs)

abbrev Kept : ℕ → Option (Result (List Bytes)) → Type 0
Kept least none = ⊥
Kept least (some (err e)) = Unit
Kept least (some (ok ids)) = IsIdList least ids

-- the answer of a round, from that of the rounds after it
round-Kept :
    (least : ℕ) (failed : Bool) (more : Option (Result (List Bytes)))
    → Kept least more
    → Kept least (if failed then some (err decode) else more)
round-Kept least true more k = tt
round-Kept least false more k = k

read_ids-Kept :
    (least fuel : ℕ) (ids : List Bytes) (bytes : Bytes)
    → length bytes ≤ fuel
    → IsIdList least ids
    → Kept least (read_ids fuel ids bytes)
unfolding read_ids kept
read_ids-Kept least fuel ids [] h s = s
read_ids-Kept least zero ids (b ∷ bs) h s = absurd (omega arith)
read_ids-Kept least (suc fuel) ids (b ∷ bs) h s =
    let (id, r) = read_vector8 (reader (b ∷ bs)) in
    round-Kept least (is_some r.failure) (read_ids fuel (kept ids id) r.data_left) (
      read_ids-Kept least fuel (kept ids id) r.data_left (omega (arith, vector8-shorter b bs))
        (kept-IsIdList least ids id s))

read_ids-first : (bytes : Bytes) → 0 < length bytes → Kept 1 (read_ids (length bytes) [] bytes)
unfolding read_ids kept
read_ids-first [] h = absurd (omega arith)
read_ids-first (b ∷ bs) h =
    let (id, r) = read_vector8 (reader (b ∷ bs)) in
    round-Kept 1 (is_some r.failure) (read_ids (length bs) (kept [] id) r.data_left)
      (read_ids-Kept 1 (length bs) (kept [] id) r.data_left (vector8-shorter b bs) (kept-first id))

-- an answer with the ids, and whether they replace the one in use
abbrev pub IdAnswer : Option (Result (List Bytes × Bool)) → Type 0
IdAnswer none = ⊥
IdAnswer (some (err e)) = Unit
IdAnswer (some (ok (ids, immediate))) = IsIdList (if immediate then 1 else 0) ids

answered :
    (immediate : Bool) (a : Option (Result (List Bytes)))
    → Kept (if immediate then 1 else 0) a
    → IdAnswer (elim a [
      | none ↦ none
      | some (err e) ↦ some (err e)
      | some (ok ids) ↦ some (ok (ids, immediate))
    ])
answered immediate none k = k
answered immediate (some (err e)) k = tt
answered immediate (some (ok ids)) k = k

list-Kept :
    (usage : ℕ) (list : Bytes)
    → (usage == 0 && length list == 0) ≡ false
    → Kept (if usage == 0 then 1 else 0) (read_ids (length list) [] list)
list-Kept usage list h = elim (Bool-cases (usage == 0)) [
  | inl e ↦ rw e (read_ids-first list (ground arith))
  | inr e ↦ rw e (
      read_ids-Kept 0 (length list) [] list (omega arith)
        (record { at_least = omega arith; at_most = omega arith; unique = tt }))
]

-- parseCIDs answers on every input. The ids that it returns are at most eight and all different, and
-- there is one at least where they replace the id in use.
pub parse_cids-IdAnswer : (body : Bytes) → IdAnswer (parse_cids body)
unfolding parse_cids
parse_cids-IdAnswer body =
    let (list, r) = read_vector16 (reader body) in
    let (usage, r') = read_uint8 r in
    elim (Bool-cases (is_some (done r'))) [
      | inl e ↦ rw e tt
      | inr e ↦ elim (Bool-cases (ltb 1 usage || usage == 0 && length list == 0)) [
        | inl bad ↦ rw (e, bad) tt
        | inr good ↦
            rw (e, good)
              (answered (usage == 0) (read_ids (length list) [] list)
                (list-Kept usage list (ground arith)))
      ]
    ]
