-- ===== src/Relay/Source/Chosen.antt =====
-- What a claim chooses.
use multi_tenant.Base.{
  ℕ, zero, suc, Bool, true, false, ◌&&◌, ◌||◌, ◌≡◌, refl, ap, sym, ◌∙◌, List, [], ◌∷◌, ◌==◌, select,
  contains, All, All-map, arith, if◌then◌else◌, Bool-cases, inl, inr,
}
use multi_tenant.Outbox.{OutboxEvent}
use multi_tenant.Relay.Source.{
  ClaimPendingEventsParams, is_claimable, insert_row, order_by_created_at, limit, candidates,
  outbox_ids,
}

-- The primary key: no two rows have one id.
abbrev pub AreDistinct : List ℕ → Type 0
AreDistinct [] = Unit
AreDistinct (i ∷ is) = (contains i is ≡ false) × AreDistinct is

contains-insert_row :
    (i : ℕ) (row : OutboxEvent) (l : List OutboxEvent)
    → contains i (outbox_ids (insert_row row l)) ≡ (i == row.outbox_id || contains i (outbox_ids l))
contains-insert_row i row [] = refl
contains-insert_row i row (r ∷ l) = ground (arith, contains-insert_row i row l)

contains-order_by_created_at :
    (i : ℕ) (l : List OutboxEvent)
    → contains i (outbox_ids (order_by_created_at l)) ≡ contains i (outbox_ids l)
contains-order_by_created_at i [] = refl
contains-order_by_created_at i (r ∷ l) =
    contains-insert_row i r (order_by_created_at l)
    ∙ ap (λ b. i == r.outbox_id || b) (contains-order_by_created_at i l)

contains-limit :
    (i n : ℕ) (l : List OutboxEvent)
    → contains i (outbox_ids (limit n l)) ≡ true
    → contains i (outbox_ids l) ≡ true
contains-limit i n [] h = h
contains-limit i zero (r ∷ l) h = absurd (cc h)
contains-limit i (suc n) (r ∷ l) h = ground (arith, h, contains-limit i n l)

contains-select :
    (i : ℕ) (p : OutboxEvent → Bool) (l : List OutboxEvent)
    → contains i (outbox_ids (select p l)) ≡ true
    → contains i (outbox_ids l) ≡ true
contains-select i p [] h = h
contains-select i p (r ∷ l) h = ground (arith, h, contains-select i p l)

chosen_head :
    (p : OutboxEvent → Bool) (r : OutboxEvent) (l : List OutboxEvent)
    → contains r.outbox_id (outbox_ids l) ≡ false
    → contains r.outbox_id (outbox_ids (select p (r ∷ l))) ≡ true
    → p r ≡ true
chosen_head p r l d c = elim (Bool-cases (p r)) [
  | inl e ↦ e
  | inr e ↦
      let c' : contains r.outbox_id (outbox_ids (select p l)) ≡ true =
        sym
          (ap (λ b. contains r.outbox_id (outbox_ids (if b then r ∷ select p l else select p l))) e)
        ∙ c in
      absurd (cc (contains-select r.outbox_id p l c', d))
]

-- A row whose id is not among `r`'s is chosen from the rest.
chosen_other :
    (p : OutboxEvent → Bool) (r : OutboxEvent) (l : List OutboxEvent) (i : ℕ)
    → (r.outbox_id == i) ≡ false
    → contains i (outbox_ids (select p (r ∷ l))) ≡ true
    → contains i (outbox_ids (select p l)) ≡ true
chosen_other p r l i ne c = ground (arith, ne, c)

chosen_tail :
    (p : OutboxEvent → Bool) (r : OutboxEvent) (l m : List OutboxEvent)
    → contains r.outbox_id (outbox_ids m) ≡ false
    → All (λ s. contains s.outbox_id (outbox_ids (select p l)) ≡ true → p s ≡ true) m
    → All (λ s. contains s.outbox_id (outbox_ids (select p (r ∷ l))) ≡ true → p s ≡ true) m
chosen_tail p r l [] d h = tt
chosen_tail p r l (s ∷ m) d h = (
  λ c. h.0 (chosen_other p r l s.outbox_id (ground (arith, d)) c),
  chosen_tail p r l m (ground (arith, d)) h.1,
)

-- With distinct ids, an id among the selected rows is the id of a row that passes the test.
chosen_pass :
    (p : OutboxEvent → Bool) (l : List OutboxEvent)
    → AreDistinct (outbox_ids l)
    → All (λ r. contains r.outbox_id (outbox_ids (select p l)) ≡ true → p r ≡ true) l
chosen_pass p [] d = tt
chosen_pass p (r ∷ l) d = (chosen_head p r l d.0, chosen_tail p r l l d.0 (chosen_pass p l d.1))

and_left : (a b : Bool) → (a && b) ≡ true → a ≡ true
and_left a b h = ground arith

-- In a table with distinct ids, a row whose id is among the candidates is claimable.
pub candidates-claimable :
    (locked : ℕ → Bool) (params : ClaimPendingEventsParams) (rows : List OutboxEvent)
    → AreDistinct (outbox_ids rows)
    → All
        (λ r.
          contains r.outbox_id (outbox_ids (candidates locked params rows)) ≡ true
          → is_claimable params r ≡ true)
        rows
unfolding candidates
candidates-claimable locked params rows d =
    All-map rows
      (λ r h c. and_left (is_claimable params r) _ (
        h (
          sym (contains-order_by_created_at r.outbox_id _)
          ∙ contains-limit r.outbox_id params.batch_size _ c)))
      (chosen_pass _ rows d)
