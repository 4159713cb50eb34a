-- ===== src/Wms/Client.antt =====
-- Calls to other services: `fetchWithPolicy` of
-- apps/wms-service/src/internal-clients/internal-http-client.ts with its retries.
pub mod Tried
use multi_tenant.Base.{
  ℕ, zero, suc, ◌+◌, String, Bool, true, false, ◌&&◌, ◌||◌, Option, none, some, List, [], ◌∷◌, ◌==◌,
  leb, any, str_eq, if◌then◌else◌,
}

-- What one request over the network ends with: a response of a status, or a failure.
pub data Outcome : Type 0 where
  responded : ℕ → Outcome
  timed_out unreachable : Outcome

-- What the caller gets: a response, or an exception.
pub data Fetched : Type 0 where
  response : ℕ → Fetched
  upstream_timeout upstream_unavailable : Fetched

pub record Answer : Type 0 where
  pub sent : ℕ
  pub fetched : Fetched

-- `SAFE_RETRY_METHODS` and `RETRYABLE_STATUS_CODES`
abbrev pub safe_retry_methods : List String
safe_retry_methods = "GET" ∷ "HEAD" ∷ "OPTIONS" ∷ []

abbrev pub is_retryable_status : ℕ → Bool
is_retryable_status status = status == 502 || (status == 503 || status == 504)

-- The method is given in upper case.
abbrev pub can_retry : String → Bool
can_retry method = any (λ m. str_eq m method) safe_retry_methods

abbrev pub thrown : Option Outcome → Fetched
thrown (some timed_out) = upstream_timeout
thrown _ = upstream_unavailable

module _ (fetch_once : ℕ → Outcome) (retry_count : ℕ) (method : String) where
  abbrev pub should_retry_error : ℕ → Bool
  should_retry_error attempt = can_retry method && leb attempt retry_count

  abbrev pub should_retry_response : ℕ → ℕ → Bool
  should_retry_response attempt status = should_retry_error attempt && is_retryable_status status

  -- What follows one request: `rest` is the loop from the next attempt, by the last error.
  abbrev pub follow : ℕ → (Option Outcome → Answer) → Option Outcome → Outcome → Answer
  follow attempt rest last (responded status) =
      if should_retry_response attempt status
      then rest last
      else record { sent = attempt; fetched = response status }
  follow attempt rest last failure =
      if should_retry_error attempt
      then rest (some failure)
      else record { sent = attempt; fetched = thrown (some failure) }

  -- The loop from an attempt, for the given number of turns.
  unfoldable pub fetch_from : ℕ → ℕ → Option Outcome → Answer
  fetch_from attempt zero last = record { sent = attempt; fetched = thrown last }
  fetch_from attempt (suc turns) last =
      follow attempt (fetch_from (suc attempt) turns) last (fetch_once attempt)

  abbrev pub max_attempts : ℕ
  max_attempts = if can_retry method then retry_count + 1 else 1

  unfoldable pub fetch_with_policy : Answer
  fetch_with_policy = fetch_from 1 max_attempts none
