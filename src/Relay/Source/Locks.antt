-- ===== src/Relay/Source/Locks.antt =====
-- What a claim locks stays locked for the timeout.
use multi_tenant.Base.{
  ℕ, zero, suc, ◌+◌, ◌*◌, ◌<◌, Bool, true, false, not, ◌&&◌, ◌≡◌, refl, ap, some, List, [], ◌∷◌,
  map, ◌==◌, leb, select, contains, update_where, All, All-map, arith, if_both, Bool-cases, ==→eq,
  inl, inr,
}
use multi_tenant.Outbox.{OutboxEvent}
use multi_tenant.Relay.Source.{
  ClaimPendingEventsParams, ClaimedOutboxEvent, to_claimed_event, is_claimable, insert_row,
  order_by_created_at, limit, candidates, outbox_ids, lock_row, claim_rows, claim_pending_events,
}

module _ (P : OutboxEvent → Type 0) where
  pub All-select : (p : OutboxEvent → Bool) (l : List OutboxEvent) → All P l → All P (select p l)
  All-select p [] h = tt
  All-select p (x ∷ l) h = if_both (All P) (p x) (h.0, All-select p l h.1) (All-select p l h.1)

  All-insert_row :
      (row : OutboxEvent) (l : List OutboxEvent) → P row → All P l → All P (insert_row row l)
  All-insert_row row [] p h = (p, tt)
  All-insert_row row (r ∷ l) p h =
      if_both (All P) (leb row.created_at r.created_at) (p, h) (h.0, All-insert_row row l p h.1)

  All-order_by_created_at : (l : List OutboxEvent) → All P l → All P (order_by_created_at l)
  All-order_by_created_at [] h = tt
  All-order_by_created_at (row ∷ l) h = All-insert_row row _ h.0 (All-order_by_created_at l h.1)

  All-limit : (n : ℕ) (l : List OutboxEvent) → All P l → All P (limit n l)
  All-limit n [] h = tt
  All-limit zero (x ∷ l) h = tt
  All-limit (suc n) (x ∷ l) h = (h.0, All-limit n l h.1)

  -- A candidate is a row of the table that the condition of the query selects.
  pub All-candidates :
      (locked : ℕ → Bool) (params : ClaimPendingEventsParams) (rows : List OutboxEvent)
      → All P (select (λ row. is_claimable params row && not (locked row.outbox_id)) rows)
      → All P (candidates locked params rows)
  unfolding candidates
  All-candidates locked params rows h = All-limit params.batch_size _ (All-order_by_created_at _ h)

-- What a selection has passed.
pub All-select_test :
    (p : OutboxEvent → Bool) (l : List OutboxEvent) → All (λ r. p r ≡ true) (select p l)
All-select_test p [] = tt
All-select_test p (x ∷ l) = elim (Bool-cases (p x)) [
  | inl e ↦ rw e (e, All-select_test p l)
  | inr e ↦ rw e (All-select_test p l)
]

-- The ids of rows that all differ from an id do not contain it.
contains-outbox_ids :
    (i : ℕ) (l : List OutboxEvent)
    → All (λ (r : OutboxEvent). (i == r.outbox_id) ≡ false) l
    → contains i (outbox_ids l) ≡ false
contains-outbox_ids i [] h = refl
contains-outbox_ids i (r ∷ l) h = ground (arith, h.0, contains-outbox_ids i l h.1)

-- A row that is locked until after the time of a claim is not claimable.
locked-is_claimable :
    (params : ClaimPendingEventsParams) (row : OutboxEvent) (at : ℕ)
    → row.locked_at ≡ some at
    → params.now < at + params.lock_timeout_seconds * 1000
    → is_claimable params row ≡ false
locked-is_claimable params row at e h = rw e (ground arith)

-- The rows that a claim has locked carry its time.
pub locked_rows :
    (params : ClaimPendingEventsParams) (ids : List ℕ) (rows : List OutboxEvent)
    → All
        (λ r. contains r.outbox_id ids ≡ true → r.locked_at ≡ some params.now)
        (update_where (λ row. contains row.outbox_id ids) (lock_row params) rows)
locked_rows params ids [] = tt
locked_rows params ids (r ∷ rows) = (ground arith, locked_rows params ids rows)

module _ (locked : ℕ → Bool) (params : ClaimPendingEventsParams) (at : ℕ) (ids : List ℕ)
    (soon : params.now < at + params.lock_timeout_seconds * 1000) where
  unlocked_selected :
      (rows : List OutboxEvent)
      → All (λ r. contains r.outbox_id ids ≡ true → r.locked_at ≡ some at) rows
      → All
          (λ r. contains r.outbox_id ids ≡ false)
          (select (λ row. is_claimable params row && not (locked row.outbox_id)) rows)
  unlocked_selected [] h = tt
  unlocked_selected (r ∷ rows) h = elim (Bool-cases (contains r.outbox_id ids)) [
    | inl e ↦ rw (locked-is_claimable params r at (h.0 e) soon) (unlocked_selected rows h.1)
    | inr e ↦
        if_both (All (λ r. contains r.outbox_id ids ≡ false))
          (is_claimable params r && not (locked r.outbox_id))
          {x = r ∷ select (λ row. is_claimable params row && not (locked row.outbox_id)) rows}
          (e, unlocked_selected rows h.1) (unlocked_selected rows h.1)
  ]

  -- None of the ids is among the candidates of a claim that comes too soon.
  not_candidate :
      (rows : List OutboxEvent) (i : ℕ)
      → All (λ r. contains r.outbox_id ids ≡ true → r.locked_at ≡ some at) rows
      → contains i ids ≡ true
      → contains i (outbox_ids (candidates locked params rows)) ≡ false
  not_candidate rows i h c = contains-outbox_ids i _ (
      All-map _ (λ r d. ground (arith, c, d))
        (All-candidates _ locked params rows (unlocked_selected rows h)))

pub All-to_claimed_event :
    (Q : ClaimedOutboxEvent → Type 0) (l : List OutboxEvent)
    → All (λ r. Q (to_claimed_event r)) l
    → All Q (map to_claimed_event l)
All-to_claimed_event Q [] h = tt
All-to_claimed_event Q (r ∷ l) h = (h.0, All-to_claimed_event Q l h.1)

-- Ids of disjoint lists differ.
disjoint-differ :
    (i j : ℕ) (is js : List ℕ)
    → contains i is ≡ true
    → contains j js ≡ true
    → (contains i is ≡ true → contains i js ≡ false)
    → (i == j) ≡ false
disjoint-differ i j is js ci cj d = elim (Bool-cases (i == j)) [
  | inr ne ↦ ne
  | inl e ↦ absurd (cc (ap (λ k. contains k js) (==→eq i j e), cj, d ci))
]

-- Two claims on a table, one directly after the other, by any two workers: if the second comes before the
-- lock timeout has passed since the first, they have no outbox id in common.
pub claim_pending_events-disjoint :
    (locked locked' : ℕ → Bool) (first second : ClaimPendingEventsParams) (rows : List OutboxEvent)
    → second.now < first.now + second.lock_timeout_seconds * 1000
    → (let c = claim_pending_events locked first rows in
        All
          (λ e.
            All
              (λ e'. (e.outbox_id == e'.outbox_id) ≡ false)
              (claim_pending_events locked' second c.0).1)
          c.1)
unfolding claim_pending_events claim_rows
claim_pending_events-disjoint locked locked' first second rows soon =
    let ids = outbox_ids (candidates locked first rows) in
    let rows' = (claim_pending_events locked first rows).0 in
    let ids' = outbox_ids (candidates locked' second rows') in
    All-to_claimed_event _ _ (
      All-map _
        (λ r c. All-to_claimed_event _ _ (
          All-map _
            (λ r' c'. disjoint-differ r.outbox_id r'.outbox_id ids ids' c c' (
              not_candidate locked' second first.now ids soon rows' r.outbox_id
                (locked_rows first ids rows)))
            (All-select_test (λ row. contains row.outbox_id ids')
              (update_where (λ row. contains row.outbox_id ids') (lock_row second) rows'))))
        (All-select_test (λ row. contains row.outbox_id ids) _))
