-- ===== src/Effects.antt =====
-- Calls that read and write a store and may throw. `$transaction` rolls back when its body throws:
-- an error carries no state, and the caller keeps the store that it had.
pub mod Keeps
pub mod Achieves
pub mod Requires
use multi_tenant.Base.{Bool, true, false, Option, none, some, if◌then◌else◌}

pub data Result (E : Type 0) (A : Type 0) : Type 0 where
  ok : A → Result E A
  err : E → Result E A

abbrev pub Tx : Type 0 → Type 0 → Type 0 → Type 0
Tx S E A = S → Result E (A × S)

module _ {S E : Type 0} where
  -- What follows a call that has returned.
  abbrev pub continue : {A B : Type 0} → Result E (A × S) → (A → Tx S E B) → Result E (B × S)
  continue (ok (a, s)) f = f a s
  continue (err e) f = err e

  infixl 5 ◌>>=◌ ◌>>◌
  unfoldable pub ◌>>=◌ : {A B : Type 0} → Tx S E A → (A → Tx S E B) → Tx S E B
  ◌>>=◌ m f s = continue (m s) f

  abbrev pub ◌>>◌ : {A B : Type 0} → Tx S E A → Tx S E B → Tx S E B
  m >> k = m >>= λ _. k

  unfoldable pub pure : {A : Type 0} → A → Tx S E A
  pure a s = ok (a, s)

  unfoldable pub throw : {A : Type 0} → E → Tx S E A
  throw e s = err e

  unfoldable pub throw_if : Bool → E → Tx S E Unit
  throw_if b e s = if b then err e else ok (tt, s)

  -- A row that has to be there.
  unfoldable pub or_throw : {A : Type 0} → Option A → E → Tx S E A
  or_throw none e s = err e
  or_throw (some a) e s = ok (a, s)

  unfoldable pub gets : {A : Type 0} → (S → A) → Tx S E A
  gets f s = ok (f s, s)

  unfoldable pub modify : (S → S) → Tx S E Unit
  modify f s = ok (tt, f s)

  -- The result of a call to another service.
  unfoldable pub lift : {A : Type 0} → Result E A → Tx S E A
  lift (ok a) s = ok (a, s)
  lift (err e) s = err e

  -- The store after a call: an error rolls back.
  abbrev pub after : {A : Type 0} → Result E (A × S) → S → S
  after (ok (_, s')) s = s'
  after (err _) s = s
