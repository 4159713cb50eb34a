-- ===== src/Relay/Worker/Backoff.antt =====
-- The delay before the next try.
use native.Mathlib.Numerals.{unary_clauses}
use native.Mathlib.Nat.{one-le-pow}
use multi_tenant.Base.{ℕ, suc, ◌-◌, ◌≤◌, ◌≡◌, refl, ap, sym, ◌∙◌, ◌*◌, ◌^◌, arith}
use multi_tenant.Relay.Worker.{delay_seconds, min}

min_double : (x : ℕ) → 1 ≤ x → (min 300 (x * 2 * 5) ≡ min 300 (2 * min 300 (x * 5)))
min_double x h = ground arith

min_range : (x : ℕ) → 1 ≤ x → (5 ≤ min 300 (x * 5)) × (min 300 (x * 5) ≤ 300)
min_range x h = (ground arith, ground arith)

pow_positive : (n : ℕ) → 1 ≤ 2 ^ n
pow_positive n = one-le-pow n 2 (omega arith)

delay_seconds-suc : (n : ℕ) → delay_seconds (suc n) ≡ min 300 (2 ^ n * 5)
unfolding delay_seconds
delay_seconds-suc n = let e : suc n - 1 ≡ n = omega arith in ap (λ i. min 300 (2 ^ i * 5)) e

delay_seconds-suc-suc : (n : ℕ) → delay_seconds (suc (suc n)) ≡ min 300 (2 ^ n * 2 * 5)
delay_seconds-suc-suc n =
    let e : 2 ^ suc n ≡ 2 ^ n * 2 = simp unary_clauses refl in
    delay_seconds-suc (suc n) ∙ ap (λ x. min 300 (x * 5)) e

-- After the first failure the delay is five seconds. With each further failure it doubles, but
-- does not exceed five minutes; and it is never below five seconds.
pub delay_seconds-doubles :
    (n : ℕ)
    → (delay_seconds 1 ≡ 5)
      × (delay_seconds (suc (suc n)) ≡ min 300 (2 * delay_seconds (suc n)))
      × (5 ≤ delay_seconds n)
      × (delay_seconds n ≤ 300)
unfolding delay_seconds
delay_seconds-doubles n =
    let range = min_range (2 ^ (n - 1)) (pow_positive (n - 1)) in
    (
      refl,
      delay_seconds-suc-suc n
          ∙ min_double (2 ^ n) (pow_positive n)
          ∙ ap (λ x. min 300 (2 * x)) (sym (delay_seconds-suc n)),
      range.0,
      range.1,
    )
