-- ===== src/Effects/Keeps.antt =====
-- A property of the store that a call keeps, with a rule for each way to build a call.
use multi_tenant.Base.{Bool, true, false, Option, none, some, ◌≡◌, refl, if◌then◌else◌}
use multi_tenant.Effects.{
  Result, continue, ok, err, Tx, ◌>>=◌, pure, throw, throw_if, or_throw, gets, modify, lift, after,
}

abbrev pub Ensures : {S E A : Type 0} → (A → S → Type 0) → Result E (A × S) → Type 0
Ensures Q (ok (a, db)) = Q a db
Ensures Q (err e) = Unit

-- A call that returns leaves a store with `P`.
pub record Keeps {S E A : Type 0} (P : S → Type 0) (m : Tx S E A) : Type 0 where
  pub at : (db : S) → P db → Ensures (λ _ db'. P db') (m db)

module _ {S E A : Type 0} {P : S → Type 0} where
  pub Keeps-pure : (a : A) → Keeps {E = E} P (pure a)
  unfolding pure
  Keeps-pure a = record { at = λ db h. h }

  pub Keeps-throw : (e : E) → Keeps P (throw {E = E} {A = A} e)
  unfolding throw
  Keeps-throw e = record { at = λ db h. tt }

  pub Keeps-or_throw : (o : Option A) (e : E) → Keeps P (or_throw o e)
  unfolding or_throw
  Keeps-or_throw none e = record { at = λ db h. tt }
  Keeps-or_throw (some a) e = record { at = λ db h. h }

  pub Keeps-gets : (f : S → A) → Keeps {E = E} P (gets f)
  unfolding gets
  Keeps-gets f = record { at = λ db h. h }

  pub Keeps-lift : (r : Result E A) → Keeps P (lift r)
  unfolding lift
  Keeps-lift (ok a) = record { at = λ db h. h }
  Keeps-lift (err e) = record { at = λ db h. tt }

  -- Each branch may use the test.
  pub Keeps-if :
      (test : Bool) (first second : Tx S E A)
      → (test ≡ true → Keeps P first)
      → (test ≡ false → Keeps P second)
      → Keeps P (if test then first else second)
  Keeps-if true first second on_true on_false = on_true refl
  Keeps-if false first second on_true on_false = on_false refl

  -- A rolled back call keeps everything, so a call that keeps `P` keeps it whatever its result.
  pub Keeps-after : {m : Tx S E A} → Keeps P m → (db : S) → P db → P (after (m db) db)
  Keeps-after {m} k db h = go (m db) (k.at db h)
    where
      go : (r : Result E (A × S)) → Ensures (λ _ db'. P db') r → P (after r db)
      go (ok (a, db')) e = e
      go (err x) e = h

module _ {S E : Type 0} {P : S → Type 0} where
  pub Keeps-throw_if : (b : Bool) (e : E) → Keeps P (throw_if b e)
  unfolding throw_if
  Keeps-throw_if true e = record { at = λ db h. tt }
  Keeps-throw_if false e = record { at = λ db h. h }

  pub Keeps-modify : (f : S → S) → ((db : S) → P db → P (f db)) → Keeps {E = E} P (modify f)
  unfolding modify
  Keeps-modify f k = record { at = k }

module _ {S E A B : Type 0} {P : S → Type 0} where
  pub Keeps-bind :
      (m : Tx S E A) (f : A → Tx S E B) → Keeps P m → ((a : A) → Keeps P (f a)) → Keeps P (m >>= f)
  unfolding ◌>>=◌
  Keeps-bind m f km kf = record { at = λ db h. go (m db) (km.at db h) }
    where
      go :
          (r : Result E (A × S))
          → Ensures (λ _ db'. P db') r
          → Ensures (λ _ db'. P db') (continue r f)
      go (ok (a, db')) e = (kf a).at db' e
      go (err x) e = tt

pub ruleset keeps_rules = (
  Keeps-pure, Keeps-throw, Keeps-or_throw, Keeps-gets, Keeps-lift, Keeps-if, Keeps-throw_if,
  Keeps-bind,
)

pub Ensures-map :
    {S E A : Type 0} {P Q : S → Type 0} (r : Result E (A × S))
    → ((db : S) → P db → Q db)
    → Ensures (λ _ db. P db) r
    → Ensures (λ _ db. Q db) r
Ensures-map (ok (a, db)) f h = f db h
Ensures-map (err e) f h = tt
