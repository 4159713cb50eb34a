-- ===== src/Effects/Achieves.antt =====
-- Calls that lead from one property of the store to another, with rules for a bind.
use multi_tenant.Base.{Bool, true, false, Option, none, some, ◌≡◌, refl, subst}
use multi_tenant.Effects.{
  Result, ok, err, Tx, continue, ◌>>=◌, throw_if, or_throw, gets, modify, lift,
}
use multi_tenant.Effects.Keeps.{Ensures, Keeps}

-- Where `P` holds, the call fails or leads to `Q`.
pub record Achieves {S E A : Type 0} (P Q : S → Type 0) (m : Tx S E A) : Type 0 where
  pub at : (db : S) → P db → Ensures (λ _ db'. Q db') (m db)

module _ {S E : Type 0} {P Q : S → Type 0} {A B : Type 0} where
  pub Achieves-keeps :
      (m : Tx S E A) (f : A → Tx S E B)
      → Keeps P m
      → ((a : A) → Achieves P Q (f a))
      → Achieves P Q (m >>= f)
  unfolding ◌>>=◌
  Achieves-keeps m f k h = record { at = λ db p. go (m db) (k.at db p) }
    where
      go :
          (r : Result E (A × S))
          → Ensures (λ _ db'. P db') r
          → Ensures (λ _ db'. Q db') (continue r f)
      go (ok (a, db')) e = (h a).at db' e
      go (err x) e = tt

  pub Achieves-done :
      (m : Tx S E A) (f : A → Tx S E B)
      → Achieves P Q m
      → ((a : A) → Keeps Q (f a))
      → Achieves P Q (m >>= f)
  unfolding ◌>>=◌
  Achieves-done m f h k = record { at = λ db p. go (m db) (h.at db p) }
    where
      go :
          (r : Result E (A × S))
          → Ensures (λ _ db'. Q db') r
          → Ensures (λ _ db'. Q db') (continue r f)
      go (ok (a, db')) e = (k a).at db' e
      go (err x) e = tt

  -- What a read returns is known of the store that it reads.
  pub Achieves-gets :
      (g : S → A) (f : A → Tx S E B)
      → ((a : A) → Achieves (λ db. P db × (g db ≡ a)) Q (f a))
      → Achieves P Q (gets g >>= f)
  unfolding ◌>>=◌ gets
  Achieves-gets g f h = record { at = λ db p. (h (g db)).at db (p, refl) }

  pub Achieves-or_throw :
      (o : Option A) (e : E) (f : A → Tx S E B)
      → ((a : A) → o ≡ some a → Achieves P Q (f a))
      → Achieves P Q (or_throw o e >>= f)
  unfolding ◌>>=◌ or_throw
  Achieves-or_throw none e f h = record { at = λ db p. tt }
  Achieves-or_throw (some a) e f h = record { at = (h a refl).at }

  pub Achieves-lift :
      (r : Result E A) (f : A → Tx S E B)
      → ((a : A) → r ≡ ok a → Achieves P Q (f a))
      → Achieves P Q (lift r >>= f)
  unfolding ◌>>=◌ lift
  Achieves-lift (ok a) f h = record { at = (h a refl).at }
  Achieves-lift (err e) f h = record { at = λ db p. tt }

module _ {S E : Type 0} {P Q : S → Type 0} {B : Type 0} where
  pub Achieves-throw_if :
      (b : Bool) (e : E) (f : Unit → Tx S E B)
      → (b ≡ false → Achieves P Q (f tt))
      → Achieves P Q (throw_if b e >>= f)
  unfolding ◌>>=◌ throw_if
  Achieves-throw_if true e f h = record { at = λ db p. tt }
  Achieves-throw_if false e f h = record { at = (h refl).at }

module _ {S E : Type 0} {P Q : S → Type 0} where
  pub Achieves-modify : (f : S → S) → ((db : S) → P db → Q (f db)) → Achieves {E = E} P Q (modify f)
  unfolding modify
  Achieves-modify f h = record { at = h }

-- What cannot be reached.
pub Achieves-absurd :
    {S E A : Type 0} {P Q : S → Type 0} {m : Tx S E A} → ((db : S) → P db → ⊥) → Achieves P Q m
Achieves-absurd h = record { at = λ db p. absurd (h db p) }

-- The property at hand is enough.
pub Achieves-of :
    {S E A : Type 0} {P P' Q : S → Type 0} {m : Tx S E A}
    → ((db : S) → P' db → P db)
    → Achieves P Q m
    → Achieves P' Q m
Achieves-of f h = record { at = λ db p. h.at db (f db p) }

pub Achieves-to :
    {S E A : Type 0} {P Q Q' : S → Type 0} {m : Tx S E A}
    → ((db : S) → Q db → Q' db)
    → Achieves P Q m
    → Achieves P Q' m
Achieves-to {S} {E} {A} {Q = Q} {Q' = Q'} {m} f h = record { at = λ db p. go (m db) (h.at db p) }
  where
    go : (r : Result E (A × S)) → Ensures (λ _ db'. Q db') r → Ensures (λ _ db'. Q' db') r
    go (ok (a, db')) e = f db' e
    go (err x) e = tt

-- How a call whose outcome is known meets what it achieves.
pub Achieves-ok :
    {S E A : Type 0} {P Q : S → Type 0} {m : Tx S E A} (db db' : S) (a : A)
    → Achieves P Q m
    → P db
    → m db ≡ ok (a, db')
    → Q db'
Achieves-ok {Q = Q} db db' a h p e = subst (Ensures (λ _ d. Q d)) e (h.at db p)

pub Keeps-of : {S E A : Type 0} {P : S → Type 0} {m : Tx S E A} → Achieves P P m → Keeps P m
Keeps-of h = record { at = h.at }

-- What holds of no store in particular.
pub Achieves-const :
    {S E A : Type 0} {P : S → Type 0} {C : Type 0} (m : Tx S E A) → C → Achieves P (λ _. C) m
Achieves-const {S} {E} {A} {C = C} m c = record { at = λ db p. go (m db) }
  where
    go : (r : Result E (A × S)) → Ensures (λ _ _. C) r
    go (ok (a, db')) = c
    go (err x) = tt

-- One call after the other.
pub Achieves-then :
    {S E A B : Type 0} {P R Q : S → Type 0} (m : Tx S E A) (f : A → Tx S E B)
    → Achieves P R m
    → ((a : A) → Achieves R Q (f a))
    → Achieves P Q (m >>= f)
unfolding ◌>>=◌
Achieves-then {S} {E} {A} {B} {R = R} {Q = Q} m f h k = record {
  at = λ db p. go (m db) (h.at db p);
}
  where
    go :
        (r : Result E (A × S))
        → Ensures (λ _ db'. R db') r
        → Ensures (λ _ db'. Q db') (continue r f)
    go (ok (a, db')) e = (k a).at db' e
    go (err x) e = tt

-- What the property at hand says of the values alone may be used for the rest.
pub Achieves-given :
    {S E A : Type 0} {P Q : S → Type 0} {C : Type 0} {m : Tx S E A}
    → ((db : S) → P db → C)
    → (C → Achieves P Q m)
    → Achieves P Q m
Achieves-given f k = record { at = λ db p. (k (f db p)).at db p }
