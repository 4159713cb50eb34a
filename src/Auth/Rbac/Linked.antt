-- ===== src/Auth/Rbac/Linked.antt =====
-- An assignment joins a user and a role of one tenant.
use multi_tenant.Base.{
  ℕ, Bool, true, false, ◌&&◌, ◌≡◌, refl, ap, ◌∙◌, Option, none, some, List, ◌∷◌, ◌==◌, ==→eq,
  update_where, All, All-map, All-select, All-trivial, Any, Any-update_where, Any-find, inr, arith,
}
use multi_tenant.Effects.Keeps.{keeps_rules, Keeps-modify}
use multi_tenant.Effects.Achieves.{
  Achieves-done, Achieves-gets, Achieves-or_throw, Achieves-throw_if, Achieves-modify, Keeps-of,
}
use multi_tenant.Auth.Types.{AuthUser, Role, UserRole, UserStatus, AuthDb}
use multi_tenant.Auth.Effects.{Keeps}
use multi_tenant.Auth.Store.{create_token, update_tokens, record_event, same_option}
use multi_tenant.Auth.Users.{
  UpdateUserInput, insert_user, create_system_admin, create_tenant_user, create_user, update_user,
  updated_user, with_status, revoke_unless_active, update_status,
}
use multi_tenant.Auth.Rbac.{updated_role, assign_user_role}
use multi_tenant.Auth.Service.{Platform, AuthCall, serve_auth}
use multi_tenant.Auth.Service.Writes.{AuthWrites, serve_auth_induction}

-- Some user has the id and the tenant; some role has the id, and belongs to the tenant.
abbrev pub HasUser : List AuthUser → ℕ → ℕ → Type 0
HasUser users id tenant_id = Any (λ u. (u.id ≡ id) × (u.tenant_id ≡ some tenant_id)) users

abbrev pub HasRole : List Role → ℕ → ℕ → Type 0
HasRole roles id tenant_id = Any (λ r. (r.id ≡ id) × (r.tenant_id ≡ tenant_id)) roles

pub record IsLinked (users : List AuthUser) (roles : List Role) (ur : UserRole) : Type 0 where
  pub tenant : ℕ
  pub user : HasUser users ur.user_id tenant
  pub role : HasRole roles ur.role_id tenant

-- Every assignment is within one tenant.
abbrev pub AreLinked : AuthDb → Type 0
AreLinked db = All (IsLinked db.users db.roles) db.user_roles

-- More users and roles, and others whose ids and tenants are the same, keep every link.
more :
    (users users' : List AuthUser) (roles roles' : List Role) (l : List UserRole)
    → ((id t : ℕ) → HasUser users id t → HasUser users' id t)
    → ((id t : ℕ) → HasRole roles id t → HasRole roles' id t)
    → All (IsLinked users roles) l
    → All (IsLinked users' roles') l
more users users' roles roles' l f g = All-map l λ ur h. record {
  tenant = h.tenant;
  user = f ur.user_id h.tenant h.user;
  role = g ur.role_id h.tenant h.role;
}

and_left : (a b : Bool) → (a && b) ≡ true → a ≡ true
and_left a b h = ground (arith, h)

and_right : (a b : Bool) → (a && b) ≡ true → b ≡ true
and_right a b h = ground (arith, h)

user_key :
    (id user_id t : ℕ) (o : Option ℕ)
    → (id == user_id && same_option o (some t)) ≡ true
    → (id ≡ user_id) × (o ≡ some t)
user_key id user_id t none h = absurd (cc (and_right (id == user_id) false h))
user_key id user_id t (some s) h =
    (==→eq id user_id (and_left _ _ h), ap some (==→eq s t (and_right _ _ h)))

module _ (p : Platform) (c : AuthCall) where
  more_users :
      (users : List AuthUser) (roles : List Role) (l : List UserRole) (u : AuthUser)
      → All (IsLinked users roles) l
      → All (IsLinked (u ∷ users) roles) l
  more_users users roles l u = more users _ roles roles l (λ _ _ h. inr h) (λ _ _ h. h)

  same_users :
      (test : AuthUser → Bool) (f : AuthUser → AuthUser)
      → ((u : AuthUser) → (f u).id ≡ u.id)
      → ((u : AuthUser) → (f u).tenant_id ≡ u.tenant_id)
      → (users : List AuthUser) (roles : List Role) (l : List UserRole)
      → All (IsLinked users roles) l
      → All (IsLinked (update_where test f users) roles) l
  same_users test f ids tenants users roles l =
      more users _ roles roles l
        (λ id t. Any-update_where _ test f users λ u h. (ids u ∙ h.0, tenants u ∙ h.1)) (λ _ _ h. h)

  assign-AreLinked :
      (user_id role_id : ℕ) (w : Option ℕ)
      → Keeps AreLinked (
          assign_user_role p.is_system_code p.bootstrap_id c.env c.context c.seen user_id role_id w)
  unfolding assign_user_role record_event
  assign-AreLinked user_id role_id w = Keeps-of (
      Achieves-or_throw _ _ _ λ t header. Achieves-gets _ _ λ found_user.
        Achieves-or_throw _ _ _ λ user u. Achieves-gets _ _ λ found_role.
          Achieves-or_throw _ _ _ λ role r. Achieves-throw_if _ _ _ λ _.
            Achieves-throw_if _ _ _ λ _. Achieves-gets _ _ λ existing. Achieves-throw_if _ _ _ λ _.
              Achieves-done _ _
                (Achieves-modify _ λ db h. (
                  record {
                    tenant = t;
                    user =
                        Any-find _ _ db.users user (h.0.0.1 ∙ u)
                          λ e. user_key user.id user_id t user.tenant_id e;
                    role = Any-find _ _ db.roles role (h.0.1 ∙ r) λ e. (
                      ==→eq role.id role_id (and_left _ _ e),
                      ==→eq role.tenant_id t (and_right _ _ e),
                    );
                  },
                  h.0.0.0,
                ))
                λ _. search (keeps_rules, Keeps-modify))

  Writes-AreLinked : AuthWrites AreLinked p c
  unfolding create_user create_system_admin create_tenant_user insert_user update_user update_status
      revoke_unless_active update_tokens create_token record_event
  Writes-AreLinked = record {
    token = λ t. search (keeps_rules, Keeps-modify) depth 10;
    rotate = λ test. Keeps-modify _ (λ db h. h);
    revoke_all = λ test. Keeps-modify _ (λ db h. h);
    creation = λ input. search (keeps_rules, Keeps-modify, more_users) depth 14;
    user_update = λ id input. search (keeps_rules, Keeps-modify, edited) depth 14;
    status = λ id s _. search (keeps_rules, Keeps-modify, changed) depth 16;
    permission = λ x. Keeps-modify _ (λ db h. h);
    role = λ r. Keeps-modify _ (λ db. more _ _ _ _ db.user_roles (λ _ _ h. h) (λ _ _ h. inr h));
    role_update = λ id input. Keeps-modify _ (λ db.
        more _ _ _ _ db.user_roles (λ _ _ h. h)
          (λ i t. Any-update_where _ _ (updated_role input) db.roles (λ r h. h)));
    clear = λ id. Keeps-modify _ (λ db h. h);
    grant = λ id codes. Keeps-modify _ (λ db h. h);
    assign = assign-AreLinked;
    unassign = λ id. Keeps-modify _ (λ db. All-select _ _ db.user_roles);
    event = λ command. Keeps-modify _ (λ db h. h);
  }
    where
      edited :
          (id : ℕ) (input : UpdateUserInput) (db : AuthDb)
          → AreLinked db
          → All
              (IsLinked (update_where (λ u. u.id == id) (updated_user input) db.users) db.roles)
              db.user_roles
      edited id input db =
          same_users _ (updated_user input) (λ u. refl) (λ u. refl) db.users db.roles db.user_roles

      changed :
          (id : ℕ) (s : UserStatus) (db : AuthDb)
          → AreLinked db
          → All
              (IsLinked (update_where (λ u. u.id == id) (with_status s) db.users) db.roles)
              db.user_roles
      changed id s db =
          same_users _ (with_status s) (λ u. refl) (λ u. refl) db.users db.roles db.user_roles

-- Through every history of calls, whatever their reads saw, every assignment joins a user and a
-- role of one tenant: no user ever holds a role of another tenant.
pub serve_auth-AreLinked :
    (p : Platform) (calls : List AuthCall) (db : AuthDb)
    → AreLinked db
    → AreLinked (serve_auth p calls db)
serve_auth-AreLinked p calls db =
    serve_auth_induction {P = AreLinked} {Allowed = λ _. Unit} p (λ c _. Writes-AreLinked p c) calls
      db (All-trivial calls)
