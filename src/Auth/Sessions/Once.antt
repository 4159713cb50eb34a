-- ===== src/Auth/Sessions/Once.antt =====
-- A refresh token is used once.
use multi_tenant.Base.{
  String, Bool, true, false, ◌||◌, ◌≡◌, refl, ap, sym, ◌∙◌, Option, none, some, List, [], ◌∷◌, ◌==◌,
  find, update_where, All-trivial, arith, str_eq, eq_iff, is_some, Bool-cases, inl, inr,
  if◌then◌else◌,
}
use multi_tenant.Effects.Keeps.{keeps_rules, Keeps-modify, Ensures-map}
use multi_tenant.Effects.Achieves.{
  Achieves-keeps, Achieves-done, Achieves-gets, Achieves-or_throw, Achieves-throw_if, Achieves-lift,
  Achieves-modify, Achieves-absurd, Achieves-ok, Keeps-of, Achieves-of,
}
use multi_tenant.Auth.Types.{RefreshToken, AuthDb, AuthEnv}
use multi_tenant.Auth.Effects.{validation_failed, Result, ok, err, Keeps, Achieves}
use multi_tenant.Auth.Input.{
  Text, TenantCheck, RefreshCommand, RefreshInput, validate_refresh, trim_or, checked,
}
use multi_tenant.Auth.Store.{find_token, create_token, update_tokens}
use multi_tenant.Auth.Sessions.{Crypto, AuthConfig, TokenPair, refresh}
use multi_tenant.Auth.Service.{Platform, AuthCall, serve_auth}
use multi_tenant.Auth.Service.Writes.{serve_auth_induction}
use multi_tenant.Auth.Service.Tokens.{Revokes, Writes-tokens}

abbrev pub row_of : String → List RefreshToken → Option RefreshToken
row_of hash = find (λ t. str_eq t.token_hash hash)

-- The table has a row of the hash, and it is revoked.
pub record IsSpent (hash : String) (tokens : List RefreshToken) : Type 0 where
  pub row : RefreshToken
  pub found : row_of hash tokens ≡ some row
  pub spent : is_some row.revoked_at ≡ true

-- A change of some rows that keeps their hash changes what is found in the columns that it sets.
row_of-update_where :
    (hash : String) (test : RefreshToken → Bool) (f : RefreshToken → RefreshToken)
    → ((t : RefreshToken) → (f t).token_hash ≡ t.token_hash)
    → (l : List RefreshToken)
    → row_of hash (update_where test f l)
      ≡ elim (row_of hash l) [ none ↦ none | some a ↦ some (if test a then f a else a) ]
row_of-update_where hash test f same [] = refl
row_of-update_where hash test f same (x ∷ l) =
    grind (arith, row_of-update_where hash test f same l, same x)

module _ (hash : String) where
  -- What sets `revoked_at` and keeps the hash keeps a spent row spent.
  IsSpent-update_where :
      (test : RefreshToken → Bool) (f : RefreshToken → RefreshToken)
      → Revokes f
      → (l : List RefreshToken) → IsSpent hash l
      → IsSpent hash (update_where test f l)
  IsSpent-update_where test f r l h = record {
    row = if test h.row then f h.row else h.row;
    found = rw (row_of-update_where hash test f r.same l, h.found);
    spent = grind (arith, r.sets h.row, h.spent);
  }

  pub update_tokens-IsSpent :
      (test : RefreshToken → Bool) (f : RefreshToken → RefreshToken)
      → Revokes f
      → Keeps (λ db. IsSpent hash db.tokens) (update_tokens test f)
  unfolding update_tokens
  update_tokens-IsSpent test f r = Keeps-modify _ (λ db. IsSpent-update_where test f r db.tokens)

  -- The update of the row that is found, by its id, spends it.
  IsSpent-by_id :
      (f : RefreshToken → RefreshToken) (row : RefreshToken)
      → Revokes f
      → (l : List RefreshToken) → row_of hash l ≡ some row
      → IsSpent hash (update_where (λ t. t.id == row.id) f l)
  IsSpent-by_id f row r l h = record {
    row = f row;
    found = rw (row_of-update_where hash _ f r.same l, h) (ground arith);
    spent = r.sets row;
  }

  -- The hash of a new row is new, so that it hides no row.
  row_of-cons :
      (row token : RefreshToken) (l : List RefreshToken)
      → is_some (row_of token.token_hash l) ≡ false
      → row_of hash l ≡ some row
      → row_of hash (token ∷ l) ≡ some row
  row_of-cons row token l fresh h = elim (Bool-cases (str_eq token.token_hash hash)) [
    | inl e ↦ absurd (clash ((eq_iff _ _).0 e))
    | inr e ↦ rw (e, h)
  ]
    where
      clash : token.token_hash ≡ hash → ⊥
      clash e = cc (sym fresh ∙ ap (λ x. is_some (row_of x l)) e ∙ ap is_some h)

  create_token-found :
      (row token : RefreshToken)
      → Keeps (λ db. row_of hash db.tokens ≡ some row) (create_token token)
  unfolding create_token
  create_token-found row token = Keeps-of (
      Achieves-gets _ _ λ taken. Achieves-throw_if _ _ _ λ fresh. Achieves-gets _ _ λ owner.
        Achieves-throw_if _ _ _ λ there.
          Achieves-modify _
            (λ db p. row_of-cons row token db.tokens (ap is_some p.0.1 ∙ fresh) p.0.0))

  pub create_token-IsSpent :
      (token : RefreshToken) → Keeps (λ db. IsSpent hash db.tokens) (create_token token)
  create_token-IsSpent token = record {
    at = λ db h.
        Ensures-map (create_token token db)
          (λ db' found. record { row = h.row; found = found; spent = h.spent })
          ((create_token-found h.row token).at db h.found);
  }

  -- No call, whatever it does, takes a spent token back.
  pub serve_auth-IsSpent :
      (p : Platform) (calls : List AuthCall) (db : AuthDb)
      → IsSpent hash db.tokens
      → IsSpent hash (serve_auth p calls db).tokens
  serve_auth-IsSpent p calls db =
      serve_auth_induction {P = λ db. IsSpent hash db.tokens} {Allowed = λ _. Unit} p
        (λ c _. Writes-tokens (IsSpent hash) p c create_token-IsSpent update_tokens-IsSpent) calls
        db (All-trivial calls)

-- A check that passes returns the input.
checked-eq_ok :
    {A : Type 0} (r : Result TenantCheck) (wrong : TenantCheck → Bool) (input : TenantCheck → A)
    (a : A)
    → checked r wrong input ≡ ok a
    → (t : TenantCheck) × (input t ≡ a)
unfolding checked
checked-eq_ok {A = A} (ok t) wrong input a e = (t, passed (wrong t) e)
  where
    result : Bool → Result A
    result b = if b then err validation_failed else ok (input t)

    passed : (b : Bool) → result b ≡ ok a → input t ≡ a
    passed true h = cc h
    passed false h = cc h
checked-eq_ok (err x) wrong input a e = cc e

-- The token that the command's input holds.
pub validate_refresh-token :
    (text : Text) (command : RefreshCommand) (input : RefreshInput)
    → validate_refresh text command ≡ ok input
    → input.refresh_token ≡ trim_or text command.refresh_token
unfolding validate_refresh
validate_refresh-token text command input h =
    sym (ap RefreshInput.refresh_token (checked-eq_ok _ _ _ _ h).1)

module _ (text : Text) (crypto : Crypto) (config : AuthConfig) (env : AuthEnv) (seen : AuthDb)
    (command : RefreshCommand) (hash : String)
    (is_hash : crypto.hash_refresh_token (trim_or text command.refresh_token) ≡ hash) where
  found_hash :
      (input : RefreshInput) (current : RefreshToken) (db : AuthDb)
      → validate_refresh text command ≡ ok input
      → find_token (crypto.hash_refresh_token input.refresh_token) seen ≡ some current
      → db ≡ seen
      → row_of hash db.tokens ≡ some current
  found_hash input current db valid found e =
      ap (λ (d : AuthDb). row_of hash d.tokens) e
      ∙ ap (λ h. row_of h seen.tokens)
          (sym is_hash
            ∙ ap crypto.hash_refresh_token (sym (validate_refresh-token text command input valid)))
      ∙ found

  -- A refresh that has the database to itself, where it returns, spends its token.
  refresh-spends :
      Achieves
        (λ db. db ≡ seen)
        (λ db. IsSpent hash db.tokens)
        (refresh text crypto config env seen command)
  unfolding refresh update_tokens
  refresh-spends = Achieves-lift _ _ λ input valid. Achieves-or_throw _ _ _ λ current found.
      Achieves-or_throw _ _ _ λ user there. Achieves-throw_if _ _ _ λ usable.
        Achieves-throw_if _ _ _ λ same. Achieves-lift _ _ λ access signed.
          Achieves-of (λ db e. found_hash input current db valid found e)
            (Achieves-keeps _ _ (create_token-found hash current _) λ _.
              Achieves-done _ _
                (Achieves-modify _ (λ db h.
                  IsSpent-by_id hash _ current (record { same = λ t. refl; sets = λ t. refl })
                    db.tokens h))
                λ _. search keeps_rules)

  -- A spent token is refused.
  refresh-refuses :
      Achieves
        (λ db. (db ≡ seen) × IsSpent hash db.tokens)
        (λ _. ⊥)
        (refresh text crypto config env seen command)
  unfolding refresh
  refresh-refuses = Achieves-lift _ _ λ input valid. Achieves-or_throw _ _ _ λ current found.
      Achieves-or_throw _ _ _ λ user there. Achieves-throw_if _ _ _ λ usable.
        Achieves-absurd λ db h.
          revoked_row db.tokens _ h.1.found (found_hash input current db valid found h.0) h.1.spent
            usable
    where
      revoked_row :
          {row current : RefreshToken} (l : List RefreshToken) (b : Bool)
          → row_of hash l ≡ some row
          → row_of hash l ≡ some current
          → is_some row.revoked_at ≡ true
          → (is_some current.revoked_at || b) ≡ false
          → ⊥
      revoked_row l b f g spent usable = cc (f, g, spent, usable)

-- Once a refresh with the database to itself has returned, no later refresh of the same token with
-- the database to itself returns, after whatever calls in between, with whatever reads of theirs.
pub refresh_once :
    (p : Platform) (env env' : AuthEnv) (command command' : RefreshCommand) (calls : List AuthCall)
    (db db' db'' : AuthDb) (pair pair' : TokenPair)
    → trim_or p.text command.refresh_token ≡ trim_or p.text command'.refresh_token
    → refresh p.text p.crypto p.config env db command db ≡ ok (pair, db')
    → ¬ (
        refresh p.text p.crypto p.config env'
          (serve_auth p calls db')
          command'
          (serve_auth p calls db')
        ≡ ok (pair', db''))
refresh_once p env env' command command' calls db db' db'' pair pair' same first second =
    Achieves-ok later db'' pair'
      (refresh-refuses p.text p.crypto p.config env' later command' hash
        (ap p.crypto.hash_refresh_token (sym same)))
      (
        refl,
        serve_auth-IsSpent hash p calls db' (
            Achieves-ok db db' pair
              (refresh-spends p.text p.crypto p.config env db command hash refl) refl first),
      )
      second
  where
    hash : String
    hash = p.crypto.hash_refresh_token (trim_or p.text command.refresh_token)

    later : AuthDb
    later = serve_auth p calls db'
