-- ===== src/Relay/Worker/Safety.antt =====
-- What the worker guarantees about the rows, whatever fails on the way.
use multi_tenant.Base.{
  ℕ, ◌≤◌, ◌<◌, Bool, true, ◌&&◌, ◌≡◌, refl, ap, sym, ◌∙◌, subst, none, List, [], ◌∷◌, map, contains,
  update_where, All, arith, Bool-cases, ==→eq, inl, inr,
}
use multi_tenant.Json.{Json}
use multi_tenant.Outbox.{OutboxEvent, OutboxStatus, pending, published, failed}
use multi_tenant.Relay.Source.{
  MarkPublishedParams, MarkPublishFailedParams, is_pending, is_locked_by, mark_published,
  mark_publish_failed, failed_row,
}

abbrev pub was_sent : ℕ → List (ℕ × Json) → Bool
was_sent i sent = contains i (map (λ (p : ℕ × Json). p.0) sent)

-- What a status says of its row: a pending one has tries left, a failed one has none, and a
-- published one was accepted by the publisher and is locked by nobody.
abbrev pub HoldsOf : ℕ → List (ℕ × Json) → OutboxEvent → OutboxStatus → Type 0
HoldsOf max sent row pending = row.retry_count < max
HoldsOf max sent row failed = max ≤ row.retry_count
HoldsOf max sent row published = (row.locked_by ≡ none) × (was_sent row.outbox_id sent ≡ true)

-- A row at present and what it was before: the same id, a status that tells the truth, and no
-- change if it was published before.
pub record IsFine (max : ℕ) (sent : List (ℕ × Json)) (before row : OutboxEvent) : Type 0 where
  pub same_id : row.outbox_id ≡ before.outbox_id
  pub truth : HoldsOf max sent row row.status
  pub final : before.status ≡ published → row ≡ before

abbrev pub AreFine : ℕ → List (ℕ × Json) → List OutboxEvent → List OutboxEvent → Type 0
AreFine max sent [] [] = Unit
AreFine max sent [] (s ∷ ss) = ⊥
AreFine max sent (b ∷ bs) [] = ⊥
AreFine max sent (b ∷ bs) (s ∷ ss) = IsFine max sent b s × AreFine max sent bs ss

All-Unit : (l : List OutboxEvent) → All {0, 0} (λ _. Unit) l
All-Unit [] = tt
All-Unit (r ∷ l) = (tt, All-Unit l)

and_left : (a b : Bool) → (a && b) ≡ true → a ≡ true
and_left a b h = ground arith

and_right : (a b : Bool) → (a && b) ≡ true → b ≡ true
and_right a b h = ground arith

module _ (max : ℕ) where
  -- Another envelope that was sent takes nothing back.
  HoldsOf-sent :
      (sent : List (ℕ × Json)) (p : ℕ × Json) (row : OutboxEvent) (status : OutboxStatus)
      → HoldsOf max sent row status
      → HoldsOf max (p ∷ sent) row status
  HoldsOf-sent sent p row pending h = h
  HoldsOf-sent sent p row failed h = h
  HoldsOf-sent sent p row published h = (h.0, ground (arith, h.1))

  pub AreFine-sent :
      (sent : List (ℕ × Json)) (p : ℕ × Json) (bs ss : List OutboxEvent)
      → AreFine max sent bs ss
      → AreFine max (p ∷ sent) bs ss
  AreFine-sent sent p [] [] h = tt
  AreFine-sent sent p [] (s ∷ ss) h = h
  AreFine-sent sent p (b ∷ bs) [] h = h
  AreFine-sent sent p (b ∷ bs) (s ∷ ss) h = (
    record {
      same_id = h.0.same_id;
      truth = HoldsOf-sent sent p s s.status h.0.truth;
      final = h.0.final;
    },
    AreFine-sent sent p bs ss h.1,
  )

  module _ (sent : List (ℕ × Json)) where
    pub AreFine-update_where :
        {Q : OutboxEvent → Type 0} (p : OutboxEvent → Bool) (f : OutboxEvent → OutboxEvent)
        → ((b s : OutboxEvent) → Q s → p s ≡ true → IsFine max sent b s → IsFine max sent b (f s))
        → (bs ss : List OutboxEvent) → All Q ss
        → AreFine max sent bs ss
        → AreFine max sent bs (update_where p f ss)
    AreFine-update_where p f k [] [] q h = tt
    AreFine-update_where p f k [] (s ∷ ss) q h = h
    AreFine-update_where p f k (b ∷ bs) [] q h = h
    AreFine-update_where p f k (b ∷ bs) (s ∷ ss) q h = (
      elim (Bool-cases (p s)) [ inl e ↦ rw e (k b s q.0 e h.0) | inr e ↦ rw e h.0 ],
      AreFine-update_where p f k bs ss q.1 h.1,
    )

    -- A row that was published before is not pending, and not locked.
    pub final_not_pending :
        (b s : OutboxEvent)
        → IsFine max sent b s
        → is_pending s.status ≡ true
        → ¬ (b.status ≡ published)
    final_not_pending b s h p e =
        absurd (cc (ap (λ (x : OutboxEvent). is_pending x.status) (h.final e), p, ap is_pending e))

    locked-not_published :
        (s : OutboxEvent) (w : ℕ) (status : OutboxStatus)
        → is_locked_by s.locked_by w ≡ true
        → HoldsOf max sent s status
        → ¬ (status ≡ published)
    locked-not_published s w pending l h e = absurd (cc e)
    locked-not_published s w failed l h e = absurd (cc e)
    locked-not_published s w published l h e = absurd (cc (ap (λ x. is_locked_by x w) h.0, l))

    final_not_locked :
        (b s : OutboxEvent) (w : ℕ)
        → IsFine max sent b s
        → is_locked_by s.locked_by w ≡ true
        → ¬ (b.status ≡ published)
    final_not_locked b s w h l e =
        locked-not_published s w s.status l h.truth
          (ap (λ (x : OutboxEvent). x.status) (h.final e) ∙ e)

    pub AreFine-mark_published :
        (params : MarkPublishedParams) (bs ss : List OutboxEvent)
        → was_sent params.outbox_id sent ≡ true
        → AreFine max sent bs ss
        → AreFine max sent bs (mark_published params ss)
    unfolding mark_published
    AreFine-mark_published params bs ss w =
        AreFine-update_where {Q = λ _. Unit {0}} _ _
          (λ b s _ e h. record {
            same_id = h.same_id;
            truth = (
              refl,
              subst (λ i. was_sent i sent ≡ true)
                  (sym (==→eq s.outbox_id params.outbox_id (and_left _ _ e))) w,
            );
            final = λ p. absurd (final_not_locked b s params.worker_id h (and_right _ _ e) p);
          })
          bs ss (All-Unit ss)

    pub AreFine-mark_publish_failed :
        (params : MarkPublishFailedParams) (bs ss : List OutboxEvent)
        → ((row : OutboxEvent)
            → row.retry_count ≡ params.retry_count
            → HoldsOf max sent row params.status)
        → AreFine max sent bs ss
        → AreFine max sent bs (mark_publish_failed params ss)
    unfolding mark_publish_failed
    AreFine-mark_publish_failed params bs ss w =
        AreFine-update_where {Q = λ _. Unit {0}} _ _
          (λ b s _ e h. record {
            same_id = h.same_id;
            truth = w (failed_row params s) refl;
            final = λ p. absurd (final_not_locked b s params.worker_id h (and_right _ _ e) p);
          })
          bs ss (All-Unit ss)
