-- ===== src/Effects/Requires.antt =====
-- What has to hold for a call to return, with a rule for each side of a bind.
use multi_tenant.Base.{◌≡◌, refl, Option, none, some}
use multi_tenant.Effects.{Result, ok, err, Tx, continue, ◌>>=◌, or_throw}

-- A call that returns does so only if `Q` holds.
pub record Requires {S E A : Type 0} (Q : Type 0) (m : Tx S E A) : Type 0 where
  pub at : (db db' : S) (a : A) → m db ≡ ok (a, db') → Q

module _ {S E A B : Type 0} where
  pub bind-eq_ok :
      (m : Tx S E A) (f : A → Tx S E B) (db db'' : S) (b : B)
      → (m >>= f) db ≡ ok (b, db'')
      → (a : A) × (db' : S) × (m db ≡ ok (a, db')) × (f a db' ≡ ok (b, db''))
  unfolding ◌>>=◌
  bind-eq_ok m f db db'' b h = go (m db) refl h
    where
      go :
          (r : Result E (A × S))
          → m db ≡ r
          → continue r f ≡ ok (b, db'')
          → (a : A) × (db' : S) × (m db ≡ ok (a, db')) × (f a db' ≡ ok (b, db''))
      go (ok (a, db')) e p = (a, db', e, p)
      go (err x) e p = cc

module _ {S E A B : Type 0} {Q : Type 0} where
  pub Requires-first : (m : Tx S E A) (f : A → Tx S E B) → Requires Q m → Requires Q (m >>= f)
  Requires-first m f r = record {
    at = λ db db'' b h. let p = bind-eq_ok m f db db'' b h in r.at db p.1 p.0 p.2;
  }

  pub Requires-then :
      (m : Tx S E A) (f : A → Tx S E B) → ((a : A) → Requires Q (f a)) → Requires Q (m >>= f)
  Requires-then m f r = record {
    at = λ db db'' b h. let p = bind-eq_ok m f db db'' b h in (r p.0).at p.1 db'' b p.3;
  }

module _ {S E A B : Type 0} {Q : Type 0} where
  -- What follows a call may use what the call returned.
  pub Requires-bind :
      (m : Tx S E A) (f : A → Tx S E B)
      → ((db db' : S) (a : A) → m db ≡ ok (a, db') → Requires Q (f a))
      → Requires Q (m >>= f)
  Requires-bind m f r = record {
    at = λ db db'' b h. let p = bind-eq_ok m f db db'' b h in (r db p.1 p.0 p.2).at p.1 db'' b p.3;
  }

  pub Requires-or_throw :
      (o : Option A) (e : E) (f : A → Tx S E B)
      → ((a : A) → o ≡ some a → Requires Q (f a))
      → Requires Q (or_throw o e >>= f)
  unfolding ◌>>=◌ or_throw
  Requires-or_throw none e f r = record { at = λ db db' b h. absurd (cc h) }
  Requires-or_throw (some a) e f r = record { at = (r a refl).at }
