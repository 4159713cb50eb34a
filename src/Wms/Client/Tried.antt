-- ===== src/Wms/Client/Tried.antt =====
-- How often a request is sent, and which response counts.
use multi_tenant.Base.{
  ℕ, zero, suc, ◌+◌, ◌≤◌, ◌≡◌, ◌⊎◌, inl, inr, refl, ap, sym, ◌∙◌, String, Bool, true, false, ◌&&◌,
  Option, none, some, leb, arith, if◌then◌else◌, Bool-cases,
}
use multi_tenant.Wms.Client.{
  Outcome, responded, timed_out, unreachable, Fetched, response, upstream_timeout,
  upstream_unavailable, Answer, is_retryable_status, can_retry, thrown, should_retry_error,
  fetch_from, max_attempts, fetch_with_policy,
}

-- A failure, and a response of a proxy that did not reach the service.
abbrev pub is_retryable : Outcome → Bool
is_retryable (responded status) = is_retryable_status status
is_retryable timed_out = true
is_retryable unreachable = true

abbrev pub result_of : Outcome → Fetched
result_of (responded status) = response status
result_of timed_out = upstream_timeout
result_of unreachable = upstream_unavailable

module _ (fetch_once : ℕ → Outcome) where
  -- The outcomes of `n` attempts from one on can be retried.
  abbrev pub AllRetryable : ℕ → ℕ → Type 0
  AllRetryable attempt zero = Unit
  AllRetryable attempt (suc n) =
      (is_retryable (fetch_once attempt) ≡ true) × AllRetryable (suc attempt) n

  -- The answer is that of the last attempt that was made, `n` after the first; all before it could
  -- be retried, and it could not, or was the last one allowed.
  pub record IsTried (first allowed : ℕ) (answer : Answer) : Type 0 where
    pub n : ℕ
    pub within : n + 1 ≤ allowed
    pub sent : answer.sent ≡ first + n
    pub before : AllRetryable first n
    pub fetched : answer.fetched ≡ result_of (fetch_once (first + n))
    pub over : (is_retryable (fetch_once (first + n)) ≡ false) ⊎ (n + 1 ≡ allowed)

  -- One more attempt before the others.
  IsTried-before :
      (attempt allowed : ℕ) (answer : Answer)
      → is_retryable (fetch_once attempt) ≡ true
      → IsTried (suc attempt) allowed answer
      → IsTried attempt (suc allowed) answer
  IsTried-before attempt allowed answer e t = record {
    n = suc t.n;
    within = omega (arith, t.within);
    sent = t.sent ∙ sym shift;
    before = (e, t.before);
    fetched = t.fetched ∙ ap (λ k. result_of (fetch_once k)) (sym shift);
    over = elim t.over [
      | inl h ↦ inl (ap (λ k. is_retryable (fetch_once k)) shift ∙ h)
      | inr h ↦ inr (omega (arith, h))
    ];
  }
    where
      shift : attempt + suc t.n ≡ suc attempt + t.n
      shift = omega arith

  -- The loop stops at this attempt.
  IsTried-now :
      (attempt allowed : ℕ) (fetched : Fetched)
      → 1 ≤ allowed
      → fetched ≡ result_of (fetch_once attempt)
      → (is_retryable (fetch_once attempt) ≡ false) ⊎ (1 ≡ allowed)
      → IsTried attempt allowed (record { sent = attempt; fetched = fetched })
  IsTried-now attempt allowed fetched some_turn e over = record {
    n = 0;
    within = omega (arith, some_turn);
    sent = sym here;
    before = tt;
    fetched = e ∙ ap (λ k. result_of (fetch_once k)) (sym here);
    over = elim over [
      | inl h ↦ inl (ap (λ k. is_retryable (fetch_once k)) here ∙ h)
      | inr h ↦ inr (omega (arith, h))
    ];
  }
    where
      here : attempt + 0 ≡ attempt
      here = omega arith

  -- One turn of the loop, by whether another one is allowed.
  abbrev turn : ℕ → Bool → (Option Outcome → Answer) → Option Outcome → Outcome → Answer
  turn attempt b rest last (responded status) =
      if b && is_retryable_status status
      then rest last
      else record { sent = attempt; fetched = response status }
  turn attempt b rest last failure =
      if b then rest (some failure) else record { sent = attempt; fetched = thrown (some failure) }

  module _ (attempt turns : ℕ) (rest : Option Outcome → Answer) (last : Option Outcome) where
    turn-failure-IsTried :
        (b : Bool) (o : Outcome)
        → is_retryable (fetch_once attempt) ≡ true
        → thrown (some o) ≡ result_of (fetch_once attempt)
        → (b ≡ false → turns ≡ 0)
        → ((l : Option Outcome) → b ≡ true → IsTried (suc attempt) turns (rest l))
        → IsTried attempt
            (suc turns)
            (if b then rest (some o) else record { sent = attempt; fetched = thrown (some o) })
    turn-failure-IsTried true o r e end more = IsTried-before attempt turns _ r (more (some o) refl)
    turn-failure-IsTried false o r e end more =
        IsTried-now attempt (suc turns) _ (omega arith) e (inr (omega (arith, end refl)))

    turn-response-IsTried :
        (b retryable : Bool) (status : ℕ)
        → is_retryable (fetch_once attempt) ≡ retryable
        → response status ≡ result_of (fetch_once attempt)
        → (b ≡ false → turns ≡ 0)
        → ((l : Option Outcome) → b ≡ true → IsTried (suc attempt) turns (rest l))
        → IsTried attempt (suc turns) (
            if b && retryable
            then rest last
            else record { sent = attempt; fetched = response status })
    turn-response-IsTried true true status r e end more =
        IsTried-before attempt turns _ r (more last refl)
    turn-response-IsTried true false status r e end more =
        IsTried-now attempt (suc turns) _ (omega arith) e (inl r)
    turn-response-IsTried false retryable status r e end more =
        IsTried-now attempt (suc turns) _ (omega arith) e (inr (omega (arith, end refl)))

    turn-IsTried :
        (b : Bool) (o : Outcome)
        → fetch_once attempt ≡ o
        → (b ≡ false → turns ≡ 0)
        → ((l : Option Outcome) → b ≡ true → IsTried (suc attempt) turns (rest l))
        → IsTried attempt (suc turns) (turn attempt b rest last o)
    turn-IsTried b (responded status) e end more =
        turn-response-IsTried b (is_retryable_status status) status (ap is_retryable e)
          (sym (ap result_of e)) end more
    turn-IsTried b timed_out e end more =
        turn-failure-IsTried b timed_out (ap is_retryable e) (sym (ap result_of e)) end more
    turn-IsTried b unreachable e end more =
        turn-failure-IsTried b unreachable (ap is_retryable e) (sym (ap result_of e)) end more

  module _ (retry_count : ℕ) (method : String) where
    -- Another attempt is allowed exactly when turns are left.
    should_retry_error-left :
        (attempt turns : ℕ)
        → attempt + turns ≡ max_attempts fetch_once retry_count method
        → 1 ≤ attempt
        → ((should_retry_error fetch_once retry_count method attempt ≡ true) × (1 ≤ turns))
          ⊎ ((should_retry_error fetch_once retry_count method attempt ≡ false) × (turns ≡ 0))
    should_retry_error-left attempt turns h low = by_method (can_retry method) h
      where
        by_method :
            (b : Bool)
            → attempt + turns ≡ (if b then retry_count + 1 else 1)
            → (((b && leb attempt retry_count) ≡ true) × (1 ≤ turns))
              ⊎ (((b && leb attempt retry_count) ≡ false) × (turns ≡ 0))
        by_method true e = elim (Bool-cases (leb attempt retry_count)) [
          | inl l ↦ inl (l, ground (arith, l, e))
          | inr l ↦ inr (l, ground (arith, l, e))
        ]
        by_method false e = inr (refl, omega (arith, e, low))

    fetch_from-IsTried :
        (turns attempt : ℕ) (last : Option Outcome)
        → attempt + turns ≡ max_attempts fetch_once retry_count method
        → 1 ≤ attempt
        → IsTried attempt
            (suc turns)
            (fetch_from fetch_once retry_count method attempt (suc turns) last)
    unfolding fetch_from
    fetch_from-IsTried zero attempt last h low =
        turn-IsTried attempt 0 (fetch_from fetch_once retry_count method (suc attempt) 0) last _
          (fetch_once attempt) refl (λ _. refl) λ l again. absurd (no_turn again)
      where
        no_turn : should_retry_error fetch_once retry_count method attempt ≡ true → ⊥
        no_turn again = elim (should_retry_error-left attempt 0 h low) [
          | inl x ↦ absurd (omega (arith, x.1))
          | inr x ↦ cc (again, x.0)
        ]
    fetch_from-IsTried (suc turns) attempt last h low =
        turn-IsTried attempt (suc turns)
          (fetch_from fetch_once retry_count method (suc attempt) (suc turns)) last _
          (fetch_once attempt) refl (λ stop. absurd (more_turns stop))
          λ l _. fetch_from-IsTried turns (suc attempt) l (omega (arith, h)) (omega arith)
      where
        more_turns : should_retry_error fetch_once retry_count method attempt ≡ false → ⊥
        more_turns stop = elim (should_retry_error-left attempt (suc turns) h low) [
          | inl x ↦ cc (stop, x.0)
          | inr x ↦ absurd (omega (arith, x.1))
        ]

-- A request is sent at least once, and at most once unless the method is safe to repeat, when there
-- are as many further attempts as are configured. The caller gets the outcome of the last attempt
-- that was made. All attempts before it failed or were answered by a proxy's error; it was not, or
-- no attempt was left.
pub fetch_with_policy-IsTried :
    (fetch_once : ℕ → Outcome) (retry_count : ℕ) (method : String)
    → IsTried fetch_once 1
        (if can_retry method then retry_count + 1 else 1)
        (fetch_with_policy fetch_once retry_count method)
unfolding fetch_with_policy
fetch_with_policy-IsTried fetch_once retry_count method =
    by_allowed (max_attempts fetch_once retry_count method) refl
  where
    some_turns : (b : Bool) → ((if b then retry_count + 1 else 1) ≡ 0) → ⊥
    some_turns true e = omega (arith, e)
    some_turns false e = omega (arith, e)

    by_allowed :
        (m : ℕ)
        → max_attempts fetch_once retry_count method ≡ m
        → IsTried fetch_once 1 m (fetch_from fetch_once retry_count method 1 m none)
    by_allowed zero e = absurd (some_turns (can_retry method) e)
    by_allowed (suc turns) e =
        fetch_from-IsTried fetch_once retry_count method turns 1 none (omega (arith, e))
          (omega arith)
