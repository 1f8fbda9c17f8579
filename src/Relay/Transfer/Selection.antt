-- ===== src/Relay/Transfer/Selection.antt =====
-- What `Transfer` returns, for the events in the order in which its loop receives them.
use mathlib.Core.List.{map-append, map}
use socat.Relay.Transfer.{context_done, linger_expired, received, Event, LoopConfig}
use socat.Relay.Outcome.{
  selected_transfer_error, right_to_left, left_to_right, Class, eof, closed, canceled, store,
  failed, select_transfer_error, outcome, select_from, TransferOutcomes, Direction, DirOutcome,
}
use socat.Relay.Outcome.{accept}
use socat.Prelude.{
  All-append, sym, inr, ◌++◌, false, All, true, inl, ◌⊎◌, zero, if◌then◌else◌, not, ◌&&◌, ◌==◌, ◌∙◌,
  ◌||◌, ap, refl, ◌≢◌, suc, some, ◌≡◌, [], none, ◌∷◌, Bool, Option, List, ℕ,
}

module _ {E : Type 0} where
  -- The failure of a result: neither an end of file, nor a closed peer, nor a cancellation.
  abbrev pub failure : DirOutcome E → Option (Direction × E)
  failure r = elim r.class [
    | failed e ↦ some (r.dir, e)
    | canceled e ↦ none
    | closed ↦ none
    | eof ↦ none
  ]

  abbrev pub first_failure : List (DirOutcome E) → Option (Direction × E)
  first_failure [] = none
  first_failure (r ∷ rs) = elim (failure r) [ some e ↦ some e | none ↦ first_failure rs ]

  -- The results that count, of the `n` that are to come: those before the context ends, or before
  -- the linger time is over, which begins when one of two results is still to come.
  abbrev pub live_results : LoopConfig → ℕ → Bool → List (Event E) → List (DirOutcome E)
  live_results cfg n lingering [] = []
  live_results cfg zero lingering (e ∷ es) = []
  live_results cfg (suc n) lingering (received r ∷ es) =
      r ∷ live_results cfg n (lingering || (n == 1 && not (cfg.linger == 0))) es
  live_results cfg (suc n) lingering (linger_expired ∷ es) =
      let later = live_results cfg (suc n) lingering es in if lingering then [] else later
  live_results cfg (suc n) lingering (context_done ∷ es) = []

  -- Each direction returns once.
  abbrev pub Fresh : Direction → List (Event E) → Type 0
  Fresh d [] = Unit
  Fresh d (received r ∷ es) = (r.dir ≢ d) × Fresh d es
  Fresh d (linger_expired ∷ es) = Fresh d es
  Fresh d (context_done ∷ es) = Fresh d es

  abbrev pub Once : List (Event E) → Type 0
  Once [] = Unit
  Once (received r ∷ es) = Fresh r.dir es × Once es
  Once (linger_expired ∷ es) = Once es
  Once (context_done ∷ es) = Once es

  -- The loop has inspected the results `rs`, and keeps them.
  abbrev pub Stored : TransferOutcomes E → List (DirOutcome E) → Type 0
  Stored o [] = Unit
  Stored o (r ∷ rs) = (outcome o r.dir ≡ some r) × Stored o rs

  class-first :
      (o : TransferOutcomes E) (r : DirOutcome E) (rs : List (DirOutcome E)) (c : Class E)
      → r.class ≡ c
      → ((first : Option (Direction × E))
          → select_from first (map (λ r. r.dir) rs) o
            ≡ (elim first [ some e ↦ some e | none ↦ first_failure rs ]))
      → select_from (select_transfer_error none (some r)) (map (λ r. r.dir) rs) o
        ≡ first_failure (r ∷ rs)
  unfolding select_transfer_error
  class-first o r rs eof q later = rw q (later none)
  class-first o r rs closed q later = rw q (later none)
  class-first o r rs (canceled e) q later = rw q (later none)
  class-first o r rs (failed e) q later = rw q (later (some (r.dir, e)))

  select-first :
      (first : Option (Direction × E)) (o : TransferOutcomes E) (rs : List (DirOutcome E))
      → Stored o rs
      → select_from first (map (λ r. r.dir) rs) o
        ≡ (elim first [ some e ↦ some e | none ↦ first_failure rs ])
  unfolding select_from select_transfer_error
  select-first none o [] st = refl
  select-first (some e) o [] st = refl
  select-first (some e) o (r ∷ rs) st = select-first (some e) o rs st.1
  select-first none o (r ∷ rs) st =
      ap
        (λ (x : Option (DirOutcome E)).
          select_from (select_transfer_error none x) (map (λ r. r.dir) rs) o)
        st.0
      ∙ class-first o r rs r.class refl (λ first. select-first first o rs st.1)

  accept_left :
      (r : DirOutcome E) (live : Bool) (o : TransferOutcomes E)
      → r.dir ≡ left_to_right
      → ((accept r live o).left ≡ some r) × ((accept r live o).right ≡ o.right)
  unfolding accept store
  accept_left r true o q = rw q (refl, refl)
  accept_left r false o q = rw q (refl, refl)

  accept_right :
      (r : DirOutcome E) (live : Bool) (o : TransferOutcomes E)
      → r.dir ≡ right_to_left
      → ((accept r live o).right ≡ some r) × ((accept r live o).left ≡ o.left)
  unfolding accept store
  accept_right r true o q = rw q (refl, refl)
  accept_right r false o q = rw q (refl, refl)

  -- the outcome of a direction after another result is stored, or its own
  outcome-accept :
      (d d' : Direction) (r : DirOutcome E) (live : Bool) (o : TransferOutcomes E)
      → r.dir ≡ d'
      → ((d' ≡ d) × (outcome (accept r live o) d ≡ some r))
        ⊎ ((d' ≢ d) × (outcome (accept r live o) d ≡ outcome o d))
  unfolding outcome
  outcome-accept left_to_right left_to_right r live o q = inl (refl, (accept_left r live o q).0)
  outcome-accept right_to_left left_to_right r live o q = inr (λ e. cc, (accept_left r live o q).1)
  outcome-accept left_to_right right_to_left r live o q = inr (λ e. cc, (accept_right r live o q).1)
  outcome-accept right_to_left right_to_left r live o q = inl (refl, (accept_right r live o q).0)

  outcome-accept_self :
      (r : DirOutcome E) (live : Bool) (o : TransferOutcomes E)
      → outcome (accept r live o) r.dir ≡ some r
  outcome-accept_self r live o = elim (outcome-accept r.dir r.dir r live o refl) [
    | inl h ↦ h.1
    | inr h ↦ absurd (h.0 refl)
  ]

  outcome-accept_ne :
      (r : DirOutcome E) (live : Bool) (o : TransferOutcomes E) (d : Direction)
      → r.dir ≢ d
      → outcome (accept r live o) d ≡ outcome o d
  outcome-accept_ne r live o d ne = elim (outcome-accept d r.dir r live o refl) [
    | inl h ↦ absurd (ne h.0)
    | inr h ↦ h.1
  ]

  inspect-store :
      (d : Direction) (r : DirOutcome E) (o : TransferOutcomes E)
      → r.dir ≡ d
      → (store r o).inspect ≡ o.inspect
  unfolding store
  inspect-store left_to_right r o q = rw q refl
  inspect-store right_to_left r o q = rw q refl

  inspect-accept :
      (r : DirOutcome E) (o : TransferOutcomes E)
      → ((accept r true o).inspect ≡ o.inspect ++ (r.dir ∷ []))
        × ((accept r false o).inspect ≡ o.inspect)
  unfolding accept
  inspect-accept r o = rw (inspect-store r.dir r o refl) (refl, refl)

  -- The results that were inspected, each still to be found, and none of its direction to come.
  pub record Keeps (o : TransferOutcomes E) (rs : List (DirOutcome E)) (es : List (Event E))
      : Type 0 where
    pub inspected : o.inspect ≡ map (λ r. r.dir) rs
    pub stored : Stored o rs
    pub fresh : All (λ (r : DirOutcome E). Fresh r.dir es) rs

  pub Keeps-selected :
      {o : TransferOutcomes E} {rs : List (DirOutcome E)} {es : List (Event E)}
      → Keeps o rs es
      → selected_transfer_error o ≡ first_failure rs
  unfolding selected_transfer_error
  Keeps-selected {o} {rs} {es} k =
      ap (λ (ds : List Direction). select_from none ds o) k.inspected
      ∙ select-first none o rs k.stored

  Stored-accept :
      (r : DirOutcome E) (live : Bool) (o : TransferOutcomes E) (es : List (Event E))
      (rs : List (DirOutcome E))
      → All (λ (k : DirOutcome E). Fresh k.dir (received r ∷ es)) rs
      → Stored o rs
      → Stored (accept r live o) rs
  Stored-accept r live o es [] f st = tt
  Stored-accept r live o es (k ∷ rs) f st =
      (outcome-accept_ne r live o k.dir f.0.0 ∙ st.0, Stored-accept r live o es rs f.1 st.1)

  pub Fresh-tail :
      (r : DirOutcome E) (es : List (Event E)) (rs : List (DirOutcome E))
      → All (λ (k : DirOutcome E). Fresh k.dir (received r ∷ es)) rs
      → All (λ (k : DirOutcome E). Fresh k.dir es) rs
  Fresh-tail r es [] f = tt
  Fresh-tail r es (k ∷ rs) f = (f.0.1, Fresh-tail r es rs f.1)

  Stored-append :
      (o : TransferOutcomes E) (rs ks : List (DirOutcome E))
      → Stored o rs
      → Stored o ks
      → Stored o (rs ++ ks)
  Stored-append o [] ks a b = b
  Stored-append o (r ∷ rs) ks a b = (a.0, Stored-append o rs ks a.1 b)

  -- a result that is stored and not inspected
  pub drained-Keeps :
      (r : DirOutcome E) (o : TransferOutcomes E) (es : List (Event E)) (rs : List (DirOutcome E))
      → Keeps o rs (received r ∷ es)
      → Keeps (accept r false o) rs es
  drained-Keeps r o es rs k = record {
    inspected = (inspect-accept r o).1 ∙ k.inspected;
    stored = Stored-accept r false o es rs k.fresh k.stored;
    fresh = Fresh-tail r es rs k.fresh;
  }

  -- a result that is inspected
  pub live-Keeps :
      (r : DirOutcome E) (o : TransferOutcomes E) (es : List (Event E)) (rs : List (DirOutcome E))
      → Fresh r.dir es
      → Keeps o rs (received r ∷ es)
      → Keeps (accept r true o) (rs ++ (r ∷ [])) es
  live-Keeps r o es rs f k = record {
    inspected =
        (inspect-accept r o).0
        ∙ ap (λ (ds : List Direction). ds ++ (r.dir ∷ [])) k.inspected
        ∙ sym (map-append (λ r. r.dir) rs (r ∷ []));
    stored =
        Stored-append (accept r true o) rs (r ∷ []) (Stored-accept r true o es rs k.fresh k.stored)
          (outcome-accept_self r true o, tt);
    fresh =
        All-append (λ (k : DirOutcome E). Fresh k.dir es) rs (r ∷ []) (Fresh-tail r es rs k.fresh)
          (f, tt);
  }
