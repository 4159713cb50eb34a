-- ===== src/Relay/Worker/Runs.antt =====
-- The worker's runs keep what the rows promise.
use multi_tenant.Base.{
  ℕ, suc, String, Bool, true, ◌≡◌, refl, Option, none, some, List, [], ◌∷◌, All, arith, if_both,
  Bool-cases, inl, inr,
}
use multi_tenant.Json.{Json}
use multi_tenant.Outbox.{OutboxEvent, OutboxStatus, pending, published, failed}
use multi_tenant.Relay.Source.{
  ClaimPendingEventsParams, ClaimedOutboxEvent, is_pending, is_claimable, outbox_ids, lock_row,
  claim_rows, claim_pending_events, mark_publish_failed,
}
use multi_tenant.Relay.Source.Chosen.{AreDistinct, candidates-claimable}
use multi_tenant.Relay.Envelope.{Checked, valid, invalid}
use multi_tenant.Relay.Worker.{
  WorkerConfig, Reply, applied, refused, lost, Round, Relay, Outcome, is_exhausted, failed_params,
  published_params, catch_error, finish_publish, publish_event, process_checked, process_event,
  process_events, process_source, claim_params,
}
use multi_tenant.Relay.Worker.Safety.{
  was_sent, HoldsOf, AreFine, AreFine-sent, AreFine-mark_published, AreFine-mark_publish_failed,
  AreFine-update_where, final_not_pending,
}

module _ (config : WorkerConfig) (worker_id : ℕ) (before : List OutboxEvent) where
  abbrev IsKept : Relay → Type 0
  IsKept r = AreFine config.max_retry_count r.sent before r.rows

  -- The status that a failed try sets agrees with the count that it sets.
  failed_params-HoldsOf :
      (round : Round) (event : ClaimedOutboxEvent) (sent : List (ℕ × Json)) (row : OutboxEvent)
      → row.retry_count ≡ suc event.retry_count
      → HoldsOf config.max_retry_count sent row (failed_params config worker_id round event).status
  failed_params-HoldsOf round event sent row e =
      elim (Bool-cases (is_exhausted config worker_id event)) [
        | inl x ↦ rw x (ground (arith, e))
        | inr x ↦ rw x (ground (arith, e))
      ]

  IsKept-failed :
      (round : Round) (event : ClaimedOutboxEvent) (r : Relay)
      → IsKept r
      → AreFine config.max_retry_count r.sent before
          (mark_publish_failed (failed_params config worker_id round event) r.rows)
  IsKept-failed round event r h =
      AreFine-mark_publish_failed config.max_retry_count r.sent _ before r.rows
        (failed_params-HoldsOf round event r.sent) h

  catch_error-IsKept :
      (round : Round) (event : ClaimedOutboxEvent) (reply : Reply) (r : Relay)
      → IsKept r
      → IsKept (catch_error config worker_id round event reply r).relay
  unfolding catch_error
  catch_error-IsKept round event applied r h =
      if_both IsKept (is_exhausted config worker_id event) (IsKept-failed round event r h)
        (IsKept-failed round event r h)
  catch_error-IsKept round event refused r h = h
  catch_error-IsKept round event lost r h = IsKept-failed round event r h

  finish_publish-IsKept :
      (round : Round) (event : ClaimedOutboxEvent) (target : String) (reply : Reply) (r : Relay)
      → was_sent event.outbox_id r.sent ≡ true
      → IsKept r
      → IsKept (finish_publish config worker_id round event target reply r).relay
  unfolding finish_publish
  finish_publish-IsKept round event target applied r w h =
      AreFine-mark_published _ r.sent (published_params config worker_id round event target) before
        r.rows w h
  finish_publish-IsKept round event target refused r w h = catch_error-IsKept round event _ r h
  finish_publish-IsKept round event target lost r w h = catch_error-IsKept round event _ _ (
      AreFine-mark_published _ r.sent (published_params config worker_id round event target) before
        r.rows w h)

  publish_event-IsKept :
      (round : Round) (event : ClaimedOutboxEvent) (target : Option String) (r : Relay)
      → IsKept r
      → IsKept (publish_event config worker_id round event target r).relay
  unfolding publish_event
  publish_event-IsKept round event none r h = catch_error-IsKept round event _ r h
  publish_event-IsKept round event (some target) r h =
      finish_publish-IsKept round event target _ _ (ground arith)
        (AreFine-sent _ r.sent (event.outbox_id, event.payload) before r.rows h)

  module _ (is_date : Option Json → Bool) where
    process_checked-IsKept :
        (round : Round) (event : ClaimedOutboxEvent) (checked : Checked) (r : Relay)
        → IsKept r
        → IsKept (process_checked config worker_id is_date round event checked r).relay
    process_checked-IsKept round event valid r h = publish_event-IsKept round event _ r h
    process_checked-IsKept round event (invalid field) r h = catch_error-IsKept round event _ r h

    process_events-IsKept :
        (rounds : ℕ → Round) (n : ℕ) (events : List ClaimedOutboxEvent) (r : Relay)
        → IsKept r
        → IsKept (process_events config worker_id is_date rounds n events r).relay
    unfolding process_events process_event
    process_events-IsKept rounds n [] r h = h
    process_events-IsKept rounds n (event ∷ events) r h =
        if_both (λ (o : Outcome). IsKept o.relay)
          (process_event config worker_id is_date (rounds n) event r).is_returned
          (process_events-IsKept rounds (suc n) events _
            (process_checked-IsKept (rounds n) event _ r h))
          (process_checked-IsKept (rounds n) event _ r h)

-- The rows at the start of a run, each of which tells the truth about itself.
abbrev pub AreTrue : ℕ → List (ℕ × Json) → List OutboxEvent → Type 0
AreTrue max sent = All (λ row. HoldsOf max sent row row.status)

AreFine-start :
    (max : ℕ) (sent : List (ℕ × Json)) (rows : List OutboxEvent)
    → AreTrue max sent rows
    → AreFine max sent rows rows
AreFine-start max sent [] h = tt
AreFine-start max sent (r ∷ rows) h =
    (record { same_id = refl; truth = h.0; final = λ _. refl }, AreFine-start max sent rows h.1)

-- A pending row stays true when it is locked.
HoldsOf-lock_row :
    (max : ℕ) (sent : List (ℕ × Json)) (params : ClaimPendingEventsParams) (row : OutboxEvent)
    (status : OutboxStatus)
    → is_pending status ≡ true
    → HoldsOf max sent row status
    → HoldsOf max sent (lock_row params row) status
HoldsOf-lock_row max sent params row pending p h = h
HoldsOf-lock_row max sent params row published p h = absurd (cc p)
HoldsOf-lock_row max sent params row failed p h = absurd (cc p)

claimable-pending :
    (params : ClaimPendingEventsParams) (row : OutboxEvent)
    → is_claimable params row ≡ true
    → is_pending row.status ≡ true
claimable-pending params row h = ground arith

AreFine-claim :
    (max : ℕ) (sent : List (ℕ × Json)) (locked : ℕ → Bool) (params : ClaimPendingEventsParams)
    (rows : List OutboxEvent)
    → AreDistinct (outbox_ids rows)
    → AreTrue max sent rows
    → AreFine max sent rows (claim_pending_events locked params rows).0
unfolding claim_pending_events claim_rows
AreFine-claim max sent locked params rows d h =
    AreFine-update_where max sent _ _
      (λ b s q e f.
        let p = claimable-pending params s (q e) in
        record {
          same_id = f.same_id;
          truth = HoldsOf-lock_row max sent params s s.status p f.truth;
          final = λ u. absurd (final_not_pending max sent b s f p u);
        })
      rows rows (candidates-claimable locked params rows d) (AreFine-start max sent rows h)

-- For a table with distinct ids whose rows tell the truth (a pending row has tries left, a failed
-- one has none, a published one was accepted by the publisher and is unlocked): whatever the
-- publisher and the database answer, a run of the worker leaves the same ids in the same order, rows that again
-- tell the truth, and every row that was published before unchanged.
pub process_source-AreFine :
    (config : WorkerConfig) (worker_id : ℕ) (is_date : Option Json → Bool) (locked : ℕ → Bool)
    (now : ℕ) (rounds : ℕ → Round) (r : Relay)
    → AreDistinct (outbox_ids r.rows)
    → AreTrue config.max_retry_count r.sent r.rows
    → (let r' = (process_source config worker_id is_date locked now rounds r).relay in
        AreFine config.max_retry_count r'.sent r.rows r'.rows)
unfolding process_source
process_source-AreFine config worker_id is_date locked now rounds r d h =
    process_events-IsKept config worker_id r.rows is_date rounds 0 _ _ (
      AreFine-claim config.max_retry_count r.sent locked (claim_params config worker_id is_date now)
        r.rows d h)
