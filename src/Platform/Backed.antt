-- ===== src/Platform/Backed.antt =====
-- What stands behind a request that the warehouse service carries out.
use multi_tenant.Base.{
  ℕ, ℤ, String, Bool, true, not, ◌||◌, ◌≡◌, ◌⊎◌, inl, inr, refl, ap, sym, subst, ◌∙◌, Option, none,
  some, List, ==→eq, any, find-test, str_eq, arith,
}
use multi_tenant.Uuid.{UuidText}
use multi_tenant.Effects.{Result, ok, err}
use multi_tenant.Wms.Types.{Context, Env, Db}
use multi_tenant.Wms.Effects.{WmsError}
use multi_tenant.Wms.Access.{TenantModules, is_enabled}
use multi_tenant.Wms.Access.Granted.{IsGranted, is_enabled_iff}
use multi_tenant.Wms.Service.{
  Request, new_warehouse, new_location, new_item, adjust, receive, allocate, pack, add_package,
  confirm_packing, ship, take_snapshots, perform,
}
use multi_tenant.Wms.Service.Permissions.{IsPermitted, handle-IsPermitted}
use multi_tenant.Tenant.Types.{
  Tenant, TenantStatus, provisioning, active, suspended, deleted, TenantDb, status_name,
}
use multi_tenant.Tenant.Store.{find_tenant}
use multi_tenant.Tenant.Modules.{enabled_codes, modules_of, get_modules}
use multi_tenant.Tenant.Modules.Replaced.{has_enabled, contains_code-enabled_codes}
use multi_tenant.Auth.Types.{AuthDb}
use multi_tenant.Auth.Effects.{AuthError}
use multi_tenant.Auth.Access.Allowed.{IsAdmin, IsAllowed, check-ok_iff}
use multi_tenant.Platform.{warehouse_text, modules_answer, permission_answer, clients_of}

-- The permission that a request needs.
abbrev pub permission_of : Request → String
permission_of (new_warehouse code name) = "wms.warehouses.manage"
permission_of (new_location input) = "wms.locations.manage"
permission_of (new_item input) = "wms.items.manage"
permission_of (adjust input) = "wms.inventory.adjust"
permission_of (receive input) = "wms.inbound.confirm"
permission_of (allocate input) = "wms.outbound.allocate"
permission_of (pack input) = "wms.outbound.pack"
permission_of (add_package packing_id input) = "wms.outbound.pack"
permission_of (confirm_packing packing_id) = "wms.outbound.pack"
permission_of (ship input) = "wms.outbound.ship"
permission_of (take_snapshots input) = "wms.inventory.snapshot.generate"

-- The headers name a tenant, which is active and has the module in the tenant service's tables, and
-- a user, who is a system administrator or whose roles in that tenant grant the permission in the
-- identity service's tables.
pub record IsBacked (is_system_code : String → Bool) (tenants : TenantDb) (users : AuthDb)
    (context : Context) (permission : String) : Type 0 where
  pub tenant : Tenant
  pub user : ℕ
  pub warehouse : Option UuidText
  pub tenant_header : context.tenant_id ≡ some tenant.id
  pub user_header : context.user_id ≡ some user
  pub found : find_tenant tenant.id tenants ≡ some tenant
  pub is_live : tenant.status ≡ active
  pub has_module : has_enabled tenant.id "wms" tenants.modules ≡ true
  pub allowed :
      IsAdmin users user ⊎ IsAllowed is_system_code users user permission warehouse tenant.id

ok_inj : {A : Type 0} {x y : A} → ◌≡◌ {A = Result WmsError A} (ok x) (ok y) → x ≡ y
ok_inj h = cc h

permission_answer-ok :
    (r : Result AuthError Bool) (b : Bool) → permission_answer r ≡ ok b → r ≡ ok b
permission_answer-ok (ok a) b h = ap ok (ok_inj h)
permission_answer-ok (err e) b h = cc h

module _ (order : List String → List String) (is_system_code : String → Bool)
    (spelled_lower : ℕ → Bool) (tenants : TenantDb) (users : AuthDb)
    (same_codes : (p : String → Bool) (l : List String) → any p (order l) ≡ any p l) where
  status-active : (s : TenantStatus) → str_eq (status_name s) "active" ≡ true → s ≡ active
  status-active provisioning h = cc h
  status-active active h = refl
  status-active suspended h = cc h
  status-active deleted h = cc h

  -- A tenant whose modules the answer says are enabled.
  record HasModule (tenant_id : ℕ) : Type 0 where
    row : Tenant
    same_id : row.id ≡ tenant_id
    found : find_tenant tenant_id tenants ≡ some row
    is_live : row.status ≡ active
    has_module : has_enabled row.id "wms" tenants.modules ≡ true

  modules_answer-HasModule :
      (tenant_id : ℕ) (m : TenantModules) (o : Option Tenant)
      → find_tenant tenant_id tenants ≡ o
      → modules_answer (modules_of order tenants o) ≡ ok m
      → is_enabled m ≡ true
      → HasModule tenant_id
  modules_answer-HasModule tenant_id m none e answered enabled = absurd (cc answered)
  modules_answer-HasModule tenant_id m (some row) e answered enabled = record {
    row = row;
    same_id = ==→eq row.id tenant_id (find-test _ tenants.tenants row e);
    found = e;
    is_live =
        status-active row.status
          (ap (λ (x : TenantModules). str_eq x.status "active") same ∙ left _ _ enabled);
    has_module =
        sym (contains_code-enabled_codes row.id "wms" tenants.modules)
        ∙ sym (same_codes (λ c. str_eq c "wms") (enabled_codes row.id tenants))
        ∙ ap (λ (x : TenantModules). any (λ c. str_eq c "wms") x.enabled_modules) same
        ∙ right _ _ enabled;
  }
    where
      same :
          record {
            status = status_name row.status;
            enabled_modules = order (enabled_codes row.id tenants);
          }
          ≡ m
      same = ok_inj answered

      left : (a b : Bool) → not (not a || not b) ≡ true → a ≡ true
      left a b h = ground (arith, h)

      right : (a b : Bool) → not (not a || not b) ≡ true → b ≡ true
      right a b h = ground (arith, h)

  abbrev asked : Option ℕ → Option UuidText
  asked = warehouse_text spelled_lower

  some_inj : {a b : ℕ} → some a ≡ some b → a ≡ b
  some_inj e = cc e

  IsGranted-IsBacked :
      (context : Context) (permission : String) (w : Option ℕ)
      → IsGranted (clients_of order is_system_code spelled_lower tenants users) context permission w
      → IsBacked is_system_code tenants users context permission
  unfolding get_modules
  IsGranted-IsBacked context permission w g = record {
    tenant = m.row;
    user = g.user;
    warehouse = asked w;
    tenant_header = g.tenant_header ∙ ap some (sym m.same_id);
    user_header = g.user_header;
    found = ap (λ i. find_tenant i tenants) m.same_id ∙ m.found;
    is_live = m.is_live;
    has_module = m.has_module;
    allowed = by_kind (
        (check-ok_iff is_system_code users (some g.tenant) g.user permission (asked w)).0
          (permission_answer-ok _ true g.allowed));
  }
    where
      m : HasModule g.tenant
      m =
          modules_answer-HasModule g.tenant g.modules _ refl g.modules_answer
            ((is_enabled_iff g.modules).1 (g.is_live, g.has_module))

      by_kind :
          IsAdmin users g.user
            ⊎ ((t : ℕ) × (some g.tenant ≡ some t)
                × IsAllowed is_system_code users g.user permission (asked w) t)
          → IsAdmin users g.user
            ⊎ IsAllowed is_system_code users g.user permission (asked w) m.row.id
      by_kind (inl a) = inl a
      by_kind (inr a) = inr (
          subst (IsAllowed is_system_code users g.user permission (asked w))
            (sym (some_inj a.1) ∙ sym m.same_id) a.2)

  by_request :
      (context : Context) (seen : Db) (r : Request)
      → IsPermitted (clients_of order is_system_code spelled_lower tenants users) context seen r
      → IsBacked is_system_code tenants users context (permission_of r)
  by_request context seen (new_warehouse code name) g = IsGranted-IsBacked context _ _ g
  by_request context seen (new_location input) g = IsGranted-IsBacked context _ _ g
  by_request context seen (new_item input) g = IsGranted-IsBacked context _ _ g
  by_request context seen (adjust input) g = IsGranted-IsBacked context _ _ g
  by_request context seen (receive input) g = IsGranted-IsBacked context _ _ g
  by_request context seen (allocate input) g = IsGranted-IsBacked context _ _ g
  by_request context seen (pack input) g = IsGranted-IsBacked context _ _ g.grant
  by_request context seen (add_package packing_id input) g = IsGranted-IsBacked context _ _ g.grant
  by_request context seen (confirm_packing packing_id) g = IsGranted-IsBacked context _ _ g.grant
  by_request context seen (ship input) g = IsGranted-IsBacked context _ _ g.grant
  by_request context seen (take_snapshots input) g = IsGranted-IsBacked context _ _ g

-- A request that the warehouse service carries out, with the tenant service and the identity service
-- answering it from their tables, named a tenant that is active there with the module, and a user
-- who is a system administrator there or whose roles in that tenant grant the request's permission.
-- The order in which the database lists the modules may be any that keeps them, and the request may
-- spell warehouses in any case.
pub perform-IsBacked :
    (order : List String → List String) (is_system_code : String → Bool) (spelled_lower : ℕ → Bool)
    (tenants : TenantDb) (users : AuthDb) (is_short : ℤ → ℤ → ℤ → Bool) (env : Env)
    (context : Context) (seen db db' : Db) (request : Request)
    → ((p : String → Bool) (l : List String) → any p (order l) ≡ any p l)
    → perform
        (clients_of order is_system_code spelled_lower tenants users)
        is_short
        env
        context
        seen
        request
        db
      ≡ ok (tt, db')
    → IsBacked is_system_code tenants users context (permission_of request)
perform-IsBacked order is_system_code spelled_lower tenants users is_short env context seen db db'
      request same h =
    by_request order is_system_code spelled_lower tenants users same context seen request (
      handle-IsPermitted
        (record {
          clients = clients_of order is_system_code spelled_lower tenants users;
          is_short = is_short;
          env = env;
          context = context;
          seen = seen;
          request = request;
        })
        db db' h)
