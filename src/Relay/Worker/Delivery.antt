-- ===== src/Relay/Worker/Delivery.antt =====
-- What the worker claims it publishes, when nothing fails.
use multi_tenant.Base.{
  ℕ, suc, String, Bool, true, false, ◌&&◌, ◌≡◌, refl, ap, sym, ◌∙◌, subst, Option, none, some, List,
  [], ◌∷◌, map, ◌==◌, ==→eq, select, contains, update_where, All, All-map, arith, if◌then◌else◌,
  Bool-cases, inl, inr, is_some,
}
use multi_tenant.Json.{Json}
use multi_tenant.Outbox.{OutboxEvent, published}
use multi_tenant.Relay.Source.{
  ClaimPendingEventsParams, ClaimedOutboxEvent, MarkPublishedParams, is_locked_by, outbox_ids,
  candidates, lock_row, claim_rows, claim_pending_events, mark_published, published_row,
}
use multi_tenant.Relay.Source.Locks.{All-to_claimed_event, All-select_test}
use multi_tenant.Relay.Envelope.{valid, validate_claimed_event_envelope}
use multi_tenant.Relay.Worker.{
  WorkerConfig, applied, Round, Relay, Outcome, published_params, finish_publish, publish_event,
  process_event, process_events, process_source, claim_params,
}

-- Every row of an id is locked by the worker; every row of an id is published and unlocked.
abbrev AreLocked : ℕ → ℕ → List OutboxEvent → Type 0
AreLocked w i = All (λ s. (s.outbox_id == i) ≡ true → s.locked_by ≡ some w)

abbrev pub ArePublished : ℕ → List OutboxEvent → Type 0
ArePublished i =
    All (λ s. (s.outbox_id == i) ≡ true → (s.status ≡ published) × (s.locked_by ≡ none))

-- A run in which the publisher accepts everything and every statement takes effect.
pub record IsSmooth (rounds : ℕ → Round) : Type 0 where
  pub accepts : (n : ℕ) (payload : Json) → is_some ((rounds n).publish payload) ≡ true
  pub applies : (n : ℕ) → (rounds n).published_reply ≡ applied

module _ (params : MarkPublishedParams) (i : ℕ) where
  mark_published-ArePublished :
      (l : List OutboxEvent) → ArePublished i l → ArePublished i (mark_published params l)
  unfolding mark_published
  mark_published-ArePublished [] h = tt
  mark_published-ArePublished (s ∷ l) h = (
    λ e.
        elim (Bool-cases
          (s.outbox_id == params.outbox_id && is_locked_by s.locked_by params.worker_id)) [
            | inl c ↦ rw c (refl, refl)
            | inr c ↦
                rw c
                  (h.0 (subst (λ (x : OutboxEvent). (x.outbox_id == i) ≡ true) (unchanged s c) e))
          ],
    mark_published-ArePublished l h.1,
  )
    where
      unchanged :
          (s : OutboxEvent)
          → (s.outbox_id == params.outbox_id && is_locked_by s.locked_by params.worker_id) ≡ false
          → (if s.outbox_id == params.outbox_id && is_locked_by s.locked_by params.worker_id
              then published_row params s
              else s)
            ≡ s
      unchanged s c = rw c refl

  mark_published-AreLocked :
      (l : List OutboxEvent)
      → (params.outbox_id == i) ≡ false
      → AreLocked params.worker_id i l
      → AreLocked params.worker_id i (mark_published params l)
  unfolding mark_published
  mark_published-AreLocked [] ne h = tt
  mark_published-AreLocked (s ∷ l) ne h =
      (ground (arith, h.0, ne), mark_published-AreLocked l ne h.1)

  mark_published-publishes :
      (l : List OutboxEvent)
      → (params.outbox_id == i) ≡ true
      → AreLocked params.worker_id i l
      → ArePublished i (mark_published params l)
  unfolding mark_published
  mark_published-publishes [] e h = tt
  mark_published-publishes (s ∷ l) e h = (ground (arith, h.0, e), mark_published-publishes l e h.1)

some_of {ℓ} : {A : Type ℓ} (o : Option A) → is_some o ≡ true → (a : A) × (o ≡ some a)
some_of none h = absurd (cc h)
some_of (some a) h = (a, refl)

-- The rows after an event is published, and that the call returned.
record IsDelivered (before : Relay) (params : MarkPublishedParams) (o : Outcome) : Type 0 where
  rows_marked : o.relay.rows ≡ mark_published params before.rows
  returns : o.is_returned ≡ true

module _ (config : WorkerConfig) (w : ℕ) (is_date : Option Json → Bool) (rounds : ℕ → Round)
    (smooth : IsSmooth rounds) where
  process_event-IsDelivered :
      (n : ℕ) (event : ClaimedOutboxEvent) (target : String) (r : Relay)
      → validate_claimed_event_envelope is_date event event.payload ≡ valid
      → (rounds n).publish event.payload ≡ some target
      → IsDelivered r
          (published_params config w (rounds n) event target)
          (process_event config w is_date (rounds n) event r)
  unfolding process_event publish_event finish_publish
  process_event-IsDelivered n event target r v p = record {
    rows_marked = rw (v, p, smooth.applies n) refl;
    returns = rw (v, p, smooth.applies n) refl;
  }

  process_events-next :
      (n : ℕ) (event : ClaimedOutboxEvent) (events : List ClaimedOutboxEvent) (r : Relay)
      → (process_event config w is_date (rounds n) event r).is_returned ≡ true
      → process_events config w is_date rounds n (event ∷ events) r
        ≡ process_events config w is_date rounds
            (suc n)
            events
            (process_event config w is_date (rounds n) event r).relay
  unfolding process_events
  process_events-next n event events r h = rw h refl

  module _ (i : ℕ) where
    process_events-keeps :
        (n : ℕ) (events : List ClaimedOutboxEvent) (r : Relay)
        → All (λ e. validate_claimed_event_envelope is_date e e.payload ≡ valid) events
        → ArePublished i r.rows
        → ArePublished i (process_events config w is_date rounds n events r).relay.rows
    unfolding process_events
    process_events-keeps n [] r v h = h
    process_events-keeps n (event ∷ events) r v h =
        let (target, p) =
          some_of ((rounds n).publish event.payload) (smooth.accepts n event.payload) in
        let d = process_event-IsDelivered n event target r v.0 p in
        subst (λ (o : Outcome). ArePublished i o.relay.rows)
          (sym (process_events-next n event events r d.returns))
          (process_events-keeps (suc n) events _ v.1
            (subst (ArePublished i) (sym d.rows_marked) (mark_published-ArePublished _ i r.rows h)))

    process_events-publishes :
        (n : ℕ) (events : List ClaimedOutboxEvent) (r : Relay)
        → All (λ e. validate_claimed_event_envelope is_date e e.payload ≡ valid) events
        → contains i (map (λ (e : ClaimedOutboxEvent). e.outbox_id) events) ≡ true
        → AreLocked w i r.rows
        → ArePublished i (process_events config w is_date rounds n events r).relay.rows
    process_events-publishes n [] r v c h = absurd (cc c)
    process_events-publishes n (event ∷ events) r v c h =
        let (target, p) =
          some_of ((rounds n).publish event.payload) (smooth.accepts n event.payload) in
        let d = process_event-IsDelivered n event target r v.0 p in
        subst (λ (o : Outcome). ArePublished i o.relay.rows)
          (sym (process_events-next n event events r d.returns))
          (elim (Bool-cases (event.outbox_id == i)) [
            | inl e ↦ process_events-keeps (suc n) events _ v.1 (
                subst (ArePublished i) (sym d.rows_marked)
                  (mark_published-publishes _ i r.rows e h))
            | inr e ↦ process_events-publishes (suc n) events _ v.1 (ground (arith, c, e)) (
                subst (AreLocked w i) (sym d.rows_marked) (mark_published-AreLocked _ i r.rows e h))
          ])

-- The rows that a claim has locked carry the worker.
claimed_rows :
    (params : ClaimPendingEventsParams) (ids : List ℕ) (rows : List OutboxEvent)
    → All
        (λ r. contains r.outbox_id ids ≡ true → r.locked_by ≡ some params.worker_id)
        (update_where (λ row. contains row.outbox_id ids) (lock_row params) rows)
claimed_rows params ids [] = tt
claimed_rows params ids (r ∷ rows) = (ground arith, claimed_rows params ids rows)

All-zip :
    {P Q R : ClaimedOutboxEvent → Type 0} (l : List ClaimedOutboxEvent)
    → ((e : ClaimedOutboxEvent) → P e → Q e → R e)
    → All P l
    → All Q l
    → All R l
All-zip [] f p q = tt
All-zip (e ∷ l) f p q = (f e p.0 q.0, All-zip l f p.1 q.1)

All-contained :
    (l : List ClaimedOutboxEvent)
    → All (λ e. contains e.outbox_id (map (λ (x : ClaimedOutboxEvent). x.outbox_id) l) ≡ true) l
All-contained [] = tt
All-contained (e ∷ l) = (ground arith, All-map l (λ x c. ground (arith, c)) (All-contained l))

claim-AreLocked :
    (locked : ℕ → Bool) (params : ClaimPendingEventsParams) (rows : List OutboxEvent)
    → (let c = claim_pending_events locked params rows in
        All (λ e. AreLocked params.worker_id e.outbox_id c.0) c.1)
unfolding claim_pending_events claim_rows
claim-AreLocked locked params rows =
    let ids = outbox_ids (candidates locked params rows) in
    let updated = update_where (λ row. contains row.outbox_id ids) (lock_row params) rows in
    All-to_claimed_event _ _ (
      All-map (select (λ row. contains row.outbox_id ids) updated)
        (λ r c.
          All-map updated
            (λ s k e. k (ap (λ i. contains i ids) (==→eq s.outbox_id r.outbox_id e) ∙ c))
            (claimed_rows params ids rows))
        (All-select_test (λ row. contains row.outbox_id ids) updated))

-- If the publisher accepts everything and every statement takes effect, and the claimed rows have
-- valid envelopes, then after a run of the worker every row whose id was claimed is published and
-- unlocked.
pub process_source-delivers :
    (config : WorkerConfig) (worker_id : ℕ) (is_date : Option Json → Bool) (locked : ℕ → Bool)
    (now : ℕ) (rounds : ℕ → Round) (r : Relay)
    → IsSmooth rounds
    → All
        (λ e. validate_claimed_event_envelope is_date e e.payload ≡ valid)
        (claim_pending_events locked (claim_params config worker_id is_date now) r.rows).1
    → All
        (λ e.
          ArePublished e.outbox_id
            (process_source config worker_id is_date locked now rounds r).relay.rows)
        (claim_pending_events locked (claim_params config worker_id is_date now) r.rows).1
unfolding process_source
process_source-delivers config worker_id is_date locked now rounds r smooth v =
    let params = claim_params config worker_id is_date now in
    let claimed = claim_pending_events locked params r.rows in
    All-zip (claimed.1)
      (λ e k c.
        process_events-publishes config worker_id is_date rounds smooth e.outbox_id 0 (claimed.1) _
          v c k)
      (claim-AreLocked locked params r.rows) (All-contained (claimed.1))
