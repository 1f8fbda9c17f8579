-- ===== src/Dtls/Reassembler/Cases.antt =====
-- The outcomes of `insert` and `pop`, one constructor each.
use socat.Dtls.Budget.{MemoryBudget, reserve}
use socat.Prelude.Assoc.{put, lookup}
use socat.Dtls.Fragment.{max_handshake_body, HandshakeFragment}
use socat.Prelude.{◌∙◌, inl, inr, Option, some, ◌⊎◌, Option-cases, none, ℕ, ◌+◌, ◌≤◌, ◌≡◌, arith}
use socat.Dtls.Reassembler.{
  admit, fresh, future_bytes, delivered, fragment_cost, PartialHandshake, Reassembler, body_length,
  mark_bytes, insert, insert_new, fill, pop,
}

-- `fill` refuses the fragment, or stores its bytes and replaces the partial message.
pub fill_cases :
    (p : PartialHandshake) (f : HandshakeFragment) (epoch : ℕ) (r : Reassembler)
    → ((fill p f epoch r).1 ≡ r)
      ⊎ ((body_length p ≡ f.total)
          × ((fill p f epoch r).1
              ≡ record r { pending = put f.sequence (mark_bytes p f.offset f.body).1 r.pending }))
unfolding fill
fill_cases p f epoch r = ground arith

-- The state after `insert`.
pub data InsertCases (f : HandshakeFragment) (epoch : ℕ) (r : Reassembler) : Type 0 where
  unchanged : (insert f epoch r).1 ≡ r → InsertCases f epoch r
  stored :
      (p : PartialHandshake)
      → lookup f.sequence r.pending ≡ some p
      → (insert f epoch r).1 ≡ (fill p f epoch r).1
      → InsertCases f epoch r
  allocated :
      (budget : Option MemoryBudget)
      → r.next ≤ f.sequence
      → f.total ≤ max_handshake_body
      → lookup f.sequence r.pending ≡ none
      → (f.sequence ≡ r.next) ⊎ (future_bytes r + f.total ≤ max_handshake_body)
      → reserve (fragment_cost f.total) r.budget ≡ some budget
      → (insert f epoch r).1 ≡ (fill (fresh f epoch) f epoch (admit f epoch r budget)).1
      → InsertCases f epoch r

module _ (f : HandshakeFragment) (epoch : ℕ) (r : Reassembler) where
  insert_found :
      (p : PartialHandshake)
      → lookup f.sequence r.pending ≡ some p
      → ((insert f epoch r).1 ≡ r) ⊎ ((insert f epoch r).1 ≡ (fill p f epoch r).1)
  unfolding insert
  insert_found p found = ground arith

  insert_missing :
      lookup f.sequence r.pending ≡ none
      → ((insert f epoch r).1 ≡ r)
        ⊎ ((r.next ≤ f.sequence)
            × (f.total ≤ max_handshake_body)
            × ((insert f epoch r).1 ≡ (insert_new f epoch r).1))
  unfolding insert
  insert_missing missing = ground arith

  insert_new_refused :
      reserve (fragment_cost f.total) r.budget ≡ none → (insert_new f epoch r).1 ≡ r
  unfolding insert_new
  insert_new_refused none_left = ground arith

  insert_new_reserved :
      (budget : Option MemoryBudget)
      → reserve (fragment_cost f.total) r.budget ≡ some budget
      → ((insert_new f epoch r).1 ≡ r)
        ⊎ (((f.sequence ≡ r.next) ⊎ (future_bytes r + f.total ≤ max_handshake_body))
            × ((insert_new f epoch r).1
                ≡ (fill (fresh f epoch) f epoch (admit f epoch r budget)).1))
  unfolding insert_new
  insert_new_reserved budget reserved = ground arith

  pub insert_cases : InsertCases f epoch r
  insert_cases = elim (Option-cases (lookup f.sequence r.pending)) [
    | inr (p, found) ↦ elim (insert_found p found) [
      | inl e ↦ unchanged e
      | inr e ↦ stored p found e
    ]
    | inl missing ↦ elim (insert_missing missing) [
      | inl e ↦ unchanged e
      | inr (after, small, e) ↦ elim (Option-cases (reserve (fragment_cost f.total) r.budget)) [
        | inl refused ↦ unchanged (e ∙ insert_new_refused refused)
        | inr (budget, reserved) ↦ elim (insert_new_reserved budget reserved) [
          | inl same ↦ unchanged (e ∙ same)
          | inr (room, done) ↦ allocated budget after small missing room reserved (e ∙ done)
        ]
      ]
    ]
  ]

-- The state after `pop`.
pub data PopCases (r : Reassembler) : Type 0 where
  waiting : (pop r) ≡ (none, r) → PopCases r
  popped :
      (p : PartialHandshake)
      → lookup r.next r.pending ≡ some p
      → p.remaining ≡ 0
      → r.next ≤ 65535
      → pop r ≡ (some p.message, delivered p r)
      → PopCases r

pop_found :
    (r : Reassembler) (p : PartialHandshake)
    → lookup r.next r.pending ≡ some p
    → (pop r ≡ (none, r))
      ⊎ ((p.remaining ≡ 0) × (r.next ≤ 65535) × (pop r ≡ (some p.message, delivered p r)))
unfolding pop
pop_found r p found = ground arith

pop_missing : (r : Reassembler) → lookup r.next r.pending ≡ none → pop r ≡ (none, r)
unfolding pop
pop_missing r missing = ground arith

pub pop_cases : (r : Reassembler) → PopCases r
pop_cases r = elim (Option-cases (lookup r.next r.pending)) [
  | inl missing ↦ waiting (pop_missing r missing)
  | inr (p, found) ↦ elim (pop_found r p found) [
    | inl e ↦ waiting e
    | inr (complete, short, e) ↦ popped p found complete short e
  ]
]
