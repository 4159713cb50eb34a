-- ===== src/Wms/Access/Granted.antt =====
-- What `authorize` has established when it returns.
use multi_tenant.Base.{
  not, ◌||◌, Any, any_iff, eq_iff, false, ℕ, String, Bool, true, Option, none, some, ◌≡◌, ◌↔◌, refl,
  ap, arith, sym, ◌∙◌, subst, Option-cases, inl, inr,
}
use multi_tenant.Wms.Effects.{Achieves, Requires}
use multi_tenant.Wms.Types.{Context, Db}
use multi_tenant.Wms.Effects.{Result, ok, err, Tx, continue, ◌>>=◌, throw_if, lift, or_throw, pure}
use multi_tenant.Effects.Keeps.{Ensures}
use multi_tenant.Effects.Achieves.{Achieves-or_throw}
use multi_tenant.Wms.Access.{
  Clients, TenantModules, wms_module_code, is_enabled, require_tenant, require_user,
  ensure_tenant_wms_enabled, authorize,
}

-- The headers name a tenant and a user, tenant-service says that the tenant's status is active and
-- that wms is among its modules, and auth-iam-service allows the user the permission in the warehouse.
pub record IsGranted (clients : Clients) (context : Context) (permission : String) (w : Option ℕ)
    : Type 0 where
  pub tenant : ℕ
  pub user : ℕ
  pub modules : TenantModules
  pub tenant_header : context.tenant_id ≡ some tenant
  pub user_header : context.user_id ≡ some user
  pub modules_answer : clients.get_tenant_modules tenant ≡ ok modules
  pub is_live : modules.status ≡ "active"
  pub has_module : Any (λ c. c ≡ wms_module_code) modules.enabled_modules
  pub allowed : clients.check_permission tenant user permission w ≡ ok true

-- The test of an answer, by what it is for.
pub is_enabled_iff :
    (m : TenantModules)
    → (is_enabled m ≡ true)
      ↔ ((m.status ≡ "active") × Any (λ c. c ≡ wms_module_code) m.enabled_modules)
is_enabled_iff m =
    both _ _ (eq_iff m.status "active") (any_iff _ m.enabled_modules λ c. eq_iff c wms_module_code)
  where
    both :
        {A B : Type 0} (a b : Bool)
        → (a ≡ true) ↔ A
        → (b ≡ true) ↔ B
        → (not (not a || not b) ≡ true) ↔ (A × B)
    both true true f g = (λ _. (f.0 refl, g.0 refl), λ _. refl)
    both true false f g = (λ e. cc e, λ h. g.1 h.1)
    both false b f g = (λ e. cc e, λ h. f.1 h.0)

module _ (clients : Clients) (context : Context) (permission : String) (w : Option ℕ) where
  granted :
      (tenant user : ℕ) (db db' : Db) (t : ℕ)
      → context.tenant_id ≡ some tenant
      → context.user_id ≡ some user
      → (m : Result TenantModules) → clients.get_tenant_modules tenant ≡ m
      → (p : Result Bool) → clients.check_permission tenant user permission w ≡ p
      → authorize clients context permission w db ≡ ok (t, db')
      → IsGranted clients context permission w
  unfolding authorize ensure_tenant_wms_enabled require_tenant require_user ◌>>=◌ throw_if lift
      or_throw pure
  granted tenant user db db' t ht hu (ok m) hm (ok p) hp h = record {
    tenant = tenant;
    user = user;
    modules = m;
    tenant_header = ht;
    user_header = hu;
    modules_answer = hm;
    is_live = (enabled h).0;
    has_module = (enabled h).1;
    allowed = ground (arith, h);
  }
    where
      enabled :
          authorize clients context permission w db ≡ ok (t, db')
          → (m.status ≡ "active") × Any (λ c. c ≡ wms_module_code) m.enabled_modules
      enabled h = (is_enabled_iff m).0 (ground (arith, h))
  granted tenant user db db' t ht hu (ok m) hm (err x) hp h = absurd (ground arith)
  granted tenant user db db' t ht hu (err x) hm p hp h = absurd (ground arith)

  no_tenant :
      (db db' : Db) (t : ℕ)
      → context.tenant_id ≡ none
      → ¬ (authorize clients context permission w db ≡ ok (t, db'))
  unfolding authorize require_tenant ◌>>=◌ or_throw
  no_tenant db db' t e h = ground arith

  no_user :
      (db db' : Db) (t u : ℕ)
      → context.tenant_id ≡ some u
      → context.user_id ≡ none
      → ¬ (authorize clients context permission w db ≡ ok (t, db'))
  unfolding authorize require_tenant require_user ◌>>=◌ or_throw
  no_user db db' t u e f h = ground arith

  pub authorize-IsGranted :
      (db db' : Db) (t : ℕ)
      → authorize clients context permission w db ≡ ok (t, db')
      → IsGranted clients context permission w
  authorize-IsGranted db db' t h = elim (Option-cases context.tenant_id) [
    | inl e ↦ absurd (no_tenant db db' t e h)
    | inr (tenant, e) ↦ elim (Option-cases context.user_id) [
      | inl f ↦ absurd (no_user db db' t tenant e f h)
      | inr (user, f) ↦ granted tenant user db db' t e f _ refl _ refl h
    ]
  ]

  pub authorize-Requires :
      Requires (IsGranted clients context permission w) (authorize clients context permission w)
  authorize-Requires = record { at = authorize-IsGranted }

-- With the grant, `authorize` returns the tenant of the headers and leaves the database alone.
pub authorize-granted :
    (clients : Clients) (context : Context) (permission : String) (w : Option ℕ) (db : Db)
    (g : IsGranted clients context permission w)
    → authorize clients context permission w db ≡ ok (g.tenant, db)
unfolding authorize ensure_tenant_wms_enabled require_tenant require_user ◌>>=◌ throw_if lift
    or_throw pure
authorize-granted clients context permission w db g = rw (
  g.tenant_header,
  g.user_header,
  g.modules_answer,
  (is_enabled_iff g.modules).1 (g.is_live, g.has_module),
  g.allowed,
)

authorize-eq_ok :
    (clients : Clients) (context : Context) (permission : String) (w : Option ℕ) (db db' : Db)
    (t : ℕ)
    → authorize clients context permission w db ≡ ok (t, db')
    → (context.tenant_id ≡ some t) × (db' ≡ db)
authorize-eq_ok clients context permission w db db' t h =
    let g = authorize-IsGranted clients context permission w db db' t h in
    let e : ok (t, db') ≡ ok (g.tenant, db) =
      sym h ∙ authorize-granted clients context permission w db g in
    (cc (g.tenant_header, e), cc e)

-- `authorize` returns a tenant with a database exactly when the headers name that tenant and a
-- user, the tenant's status is active and its modules have wms, the user is allowed the permission in
-- the warehouse, and the database is the one at the start.
pub authorize-ok_iff :
    (clients : Clients) (context : Context) (permission : String) (w : Option ℕ) (db db' : Db)
    (t : ℕ)
    → (authorize clients context permission w db ≡ ok (t, db'))
      ↔ ((g : IsGranted clients context permission w) × (g.tenant ≡ t) × (db' ≡ db))
authorize-ok_iff clients context permission w db db' t = (
  λ h.
      let g = authorize-IsGranted clients context permission w db db' t h in
      let e : ok (t, db') ≡ ok (g.tenant, db) =
        sym h ∙ authorize-granted clients context permission w db g in
      (g, cc e, cc e),
  λ (g, same_tenant, same_db).
      authorize-granted clients context permission w db g
      ∙ ap (λ x. ok (x, db)) same_tenant
      ∙ ap (λ x. ok (t, x)) (sym same_db),
)

module _ {P Q : Db → Type 0} {B : Type 0} (clients : Clients) (context : Context) where
  -- What follows `authorize` runs for the tenant of the headers.
  pub Achieves-authorize :
      (permission : String) (w : Option ℕ) (f : ℕ → Tx B)
      → ((t : ℕ) → context.tenant_id ≡ some t → Achieves P Q (f t))
      → Achieves P Q (authorize clients context permission w >>= f)
  unfolding ◌>>=◌
  Achieves-authorize permission w f h = record {
    at = λ db p. go db p (authorize clients context permission w db) refl;
  }
    where
      go :
          (db : Db)
          → P db
          → (r : Result (ℕ × Db)) → authorize clients context permission w db ≡ r
          → Ensures (λ _ db'. Q db') (continue r f)
      go db p (ok (t, db')) e =
          let (ht, same) = authorize-eq_ok clients context permission w db db' t e in
          (h t ht).at db' (subst P (sym same) p)
      go db p (err x) e = tt

  pub Achieves-require_tenant :
      (f : ℕ → Tx B)
      → ((t : ℕ) → context.tenant_id ≡ some t → Achieves P Q (f t))
      → Achieves P Q (require_tenant context.tenant_id >>= f)
  unfolding require_tenant
  Achieves-require_tenant f h = Achieves-or_throw context.tenant_id _ f h
