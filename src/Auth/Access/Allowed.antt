-- ===== src/Auth/Access/Allowed.antt =====
-- Who is allowed what: the tables' own description of it, and that `check` decides it.
use multi_tenant.Base.{
  ℕ, String, Bool, true, false, ◌&&◌, ◌≡◌, ◌⊎◌, ◌↔◌, inl, inr, refl, ap, sym, subst, ◌∙◌, Option,
  none, some, List, [], ◌∷◌, ◌==◌, ==→eq, ==_refl, Any, any_iff, and_iff, eq_iff, is_some, select,
  any, arith, if◌then◌else◌,
}
use multi_tenant.Uuid.{UuidText, of_column, is_column}
use multi_tenant.Auth.Types.{
  AuthUser, UserType, Role, UserRole, Permission, RolePermission, AuthDb, active, inactive, locked,
  UserStatus, system_admin, general_user, is_active, is_system_admin,
}
use multi_tenant.Auth.Effects.{account_locked, admin_scope_mismatch, Result, ok, err}
use multi_tenant.Auth.Store.{find_user, find_tenant_user, role_has_code}
use multi_tenant.Auth.Users.{is_admin_row, find_system_admin}
use multi_tenant.Auth.Access.{
  is_role_of, assignments_of, get_active_user_assignments, covers, allows, any_allows,
  check_tenant_user, check,
}

-- The assignment serves all warehouses, or the one that is asked for with the database's spelling.
abbrev pub Covers : Option ℕ → Option UuidText → Type 0
Covers assigned requested =
    (assigned ≡ none) ⊎ ((w : ℕ) × (assigned ≡ some w) × (requested ≡ some (of_column w)))

-- The role has a row for a permission of the code.
abbrev pub Grants : AuthDb → ℕ → String → Type 0
Grants db role_id code =
    Any
      (λ (rp : RolePermission).
        (rp.role_id ≡ role_id)
        × Any (λ (x : Permission). (x.id ≡ rp.permission_id) × (x.code ≡ code)) db.permissions)
      db.role_permissions

abbrev pub IsRoleOf : AuthDb → ℕ → ℕ → Type 0
IsRoleOf db tenant_id role_id =
    Any (λ (r : Role). (r.id ≡ role_id) × (r.tenant_id ≡ tenant_id)) db.roles

-- The first row of the id is an active system administrator without a tenant.
pub record IsAdmin (db : AuthDb) (user_id : ℕ) : Type 0 where
  pub user : AuthUser
  pub found : find_user user_id db ≡ some user
  pub is_system : user.user_type ≡ system_admin
  pub no_tenant : user.tenant_id ≡ none
  pub is_live : user.status ≡ active

-- The code is a tenant's, and an active user of the tenant
-- that the call names has an assignment that covers the warehouse, to a role of that tenant which
-- grants the code.
pub record IsAllowed (is_system_code : String → Bool) (db : AuthDb) (user_id : ℕ) (code : String)
    (warehouse_id : Option UuidText) (tenant_id : ℕ) : Type 0 where
  pub user : AuthUser
  pub found : find_tenant_user tenant_id user_id db ≡ some user
  pub is_live : user.status ≡ active
  pub tenant_code : is_system_code code ≡ false
  pub assigned :
      Any
        (λ (ur : UserRole).
          ((ur.user_id ≡ user_id) × IsRoleOf db tenant_id ur.role_id)
          × (Covers ur.warehouse_id warehouse_id × Grants db ur.role_id code))
        db.user_roles

==_iff : (a b : ℕ) → ((a == b) ≡ true) ↔ (a ≡ b)
==_iff a b = (==→eq a b, λ e. ground (arith, e))

-- A text is what the database gives for a column exactly when it is that text.
is_column_iff : (t : UuidText) (w : ℕ) → (is_column t w ≡ true) ↔ (t ≡ of_column w)
is_column_iff t w = (λ e. made t (lower_of t.is_lower t.value e), λ e. rw (e) (==_refl w))
  where
    lower_of : (b : Bool) (v : ℕ) → (b && v == w) ≡ true → (b ≡ true) × (v ≡ w)
    lower_of true v e = (refl, ==→eq v w e)
    lower_of false v e = cc e

    made : (t : UuidText) → (t.is_lower ≡ true) × (t.value ≡ w) → t ≡ of_column w
    made t h = λ i. record { value = h.1 i; is_lower = h.0 i }

covers_iff :
    (assigned : Option ℕ) (requested : Option UuidText)
    → (covers assigned requested ≡ true) ↔ Covers assigned requested
covers_iff none requested = (λ _. inl refl, λ _. refl)
covers_iff (some w) none = (λ e. absurd (cc e), elim [ inl e ↦ cc e | inr e ↦ cc e.2 ])
covers_iff (some w) (some r) = (
  λ e. inr (w, refl, ap some ((is_column_iff r w).0 e)),
  elim [
    | inl e ↦ cc e
    | inr e ↦ (is_column_iff r w).1 (text_inj e.2 ∙ ap of_column (sym (some_inj e.1)))
  ],
)
  where
    some_inj : {a b : ℕ} → some a ≡ some b → a ≡ b
    some_inj e = cc e

    text_inj : {a b : UuidText} → some a ≡ some b → a ≡ b
    text_inj e = cc e

any-select :
    {A : Type 0} (p q : A → Bool) (l : List A) → any q (select p l) ≡ any (λ x. p x && q x) l
any-select p q [] = refl
any-select p q (x ∷ l) = ground (arith, any-select p q l)

module _ (db : AuthDb) where
  role_has_code_iff :
      (role_id : ℕ) (code : String)
      → (role_has_code db role_id code ≡ true) ↔ Grants db role_id code
  role_has_code_iff role_id code = any_iff _ db.role_permissions λ rp.
      and_iff (rp.role_id == role_id) _ (==_iff rp.role_id role_id) (
        any_iff _ db.permissions λ x.
          and_iff (x.id == rp.permission_id) _ (==_iff x.id rp.permission_id) (eq_iff x.code code))

  is_role_of_iff :
      (tenant_id role_id : ℕ)
      → (is_role_of db tenant_id role_id ≡ true) ↔ IsRoleOf db tenant_id role_id
  is_role_of_iff tenant_id role_id =
      any_iff _ db.roles
        λ r. and_iff (r.id == role_id) _ (==_iff r.id role_id) (==_iff r.tenant_id tenant_id)

is_active_iff : (s : UserStatus) → (is_active s ≡ true) ↔ (s ≡ active)
is_active_iff active = (λ _. refl, λ _. refl)
is_active_iff inactive = (λ e. cc e, λ e. cc e)
is_active_iff locked = (λ e. cc e, λ e. cc e)

is_admin_row_iff :
    (db : AuthDb) (user_id : ℕ) (o : Option AuthUser)
    → find_user user_id db ≡ o
    → (is_admin_row o ≡ true) ↔ IsAdmin db user_id
is_admin_row_iff db user_id none e = (λ h. absurd (cc h), λ a. absurd (cc (e, a.found)))
is_admin_row_iff db user_id (some u) e = (
  λ h. record {
    user = u;
    found = e;
    is_system = system_of u.user_type (ground (arith, h));
    no_tenant = none_of u.tenant_id (ground (arith, h));
    is_live = (is_active_iff u.status).0 (ground (arith, h));
  },
  λ a. admin a (same (sym e ∙ a.found)),
)
  where
    system_of : (t : UserType) → is_system_admin t ≡ true → t ≡ system_admin
    system_of system_admin h = refl
    system_of general_user h = cc h

    none_of : (t : Option ℕ) → is_some t ≡ false → t ≡ none
    none_of none h = refl
    none_of (some t) h = cc h

    same : {v : AuthUser} → some u ≡ some v → v ≡ u
    same h = cc h

    admin : (a : IsAdmin db user_id) → a.user ≡ u → is_admin_row (some u) ≡ true
    admin a h =
        ap (λ (v : AuthUser). is_admin_row (some v)) (sym h)
        ∙ grind (arith, a.is_system, a.no_tenant, a.is_live)

module _ (is_system_code : String → Bool) (db : AuthDb) (tenant_id user_id : ℕ) (code : String)
    (warehouse_id : Option UuidText) where
  -- What the check tests on one row.
  abbrev row_allows : UserRole → Bool
  row_allows ur =
      (ur.user_id == user_id && is_role_of db tenant_id ur.role_id)
      && allows db code warehouse_id ur

  abbrev Assigned : Type 0
  Assigned =
      Any
        (λ (ur : UserRole).
          ((ur.user_id ≡ user_id) × IsRoleOf db tenant_id ur.role_id)
          × (Covers ur.warehouse_id warehouse_id × Grants db ur.role_id code))
        db.user_roles

  rows_iff : (any row_allows db.user_roles ≡ true) ↔ Assigned
  unfolding allows
  rows_iff = any_iff row_allows db.user_roles λ ur.
      and_iff (ur.user_id == user_id && is_role_of db tenant_id ur.role_id) _
        (and_iff (ur.user_id == user_id) _ (==_iff ur.user_id user_id)
          (is_role_of_iff db tenant_id ur.role_id))
        (and_iff (covers ur.warehouse_id warehouse_id) _ (covers_iff ur.warehouse_id warehouse_id)
          (role_has_code_iff db ur.role_id code))

  abbrev rows : List UserRole
  rows = select (λ ur. ur.user_id == user_id && is_role_of db tenant_id ur.role_id) db.user_roles

  answer_iff :
      (live : Bool)
      → (any_allows db code warehouse_id (if live then ok rows else err account_locked) ≡ ok true)
        ↔ ((live ≡ true) × (any row_allows db.user_roles ≡ true))
  answer_iff true = (
    λ e. (refl, sym (any-select _ _ db.user_roles) ∙ ok_inj e),
    λ h. ap ok (any-select _ _ db.user_roles ∙ h.1),
  )
    where
      ok_inj : {a b : Bool} → ◌≡◌ {A = Result Bool} (ok a) (ok b) → a ≡ b
      ok_inj e = cc e
  answer_iff false = (λ e. absurd (cc e), λ h. absurd (cc h.0))

  abbrev Verdict : Option AuthUser → Type 0
  Verdict o = (u : AuthUser) × (o ≡ some u) × (u.status ≡ active) × Assigned

  any_allows-ok_iff :
      (o : Option AuthUser)
      → (any_allows db code warehouse_id (assignments_of db tenant_id user_id o) ≡ ok true)
        ↔ Verdict o
  any_allows-ok_iff none = (λ e. absurd (cc e), λ v. absurd (cc v.1))
  any_allows-ok_iff (some u) = (
    λ e.
        let h = (answer_iff (is_active u.status)).0 e in
        (u, refl, (is_active_iff u.status).0 h.0, rows_iff.0 h.1),
    λ v.
        (answer_iff (is_active u.status)).1
          ((is_active_iff u.status).1 (ap AuthUser.status (user_eq v.1) ∙ v.2), rows_iff.1 v.3),
  )
    where
      user_eq : {v : AuthUser} → some u ≡ some v → u ≡ v
      user_eq e = cc e

  abbrev IsAllowed-of : Type 0
  IsAllowed-of = IsAllowed is_system_code db user_id code warehouse_id tenant_id

  check_tenant_user_iff :
      (check_tenant_user is_system_code db (some tenant_id) user_id code warehouse_id ≡ ok true)
      ↔ IsAllowed-of
  unfolding check_tenant_user get_active_user_assignments
  check_tenant_user_iff = by_code (is_system_code code) refl
    where
      by_code :
          (b : Bool)
          → is_system_code code ≡ b
          → ((if b
                then err admin_scope_mismatch
                else any_allows db code warehouse_id
                    (assignments_of db tenant_id user_id (find_tenant_user tenant_id user_id db)))
              ≡ ok true)
            ↔ IsAllowed-of
      by_code true e = (λ h. absurd (cc h), λ a. absurd (cc (e, a.tenant_code)))
      by_code false e = (
        λ h.
            let v = (any_allows-ok_iff _).0 h in
            record { user = v.0; found = v.1; is_live = v.2; tenant_code = e; assigned = v.3 },
        λ a. (any_allows-ok_iff _).1 (a.user, a.found, a.is_live, a.assigned),
      )

check_tenant_user-ok_iff :
    (is_system_code : String → Bool) (db : AuthDb) (o : Option ℕ) (user_id : ℕ) (code : String)
    (warehouse_id : Option UuidText)
    → (check_tenant_user is_system_code db o user_id code warehouse_id ≡ ok true)
      ↔ ((t : ℕ) × (o ≡ some t) × IsAllowed is_system_code db user_id code warehouse_id t)
unfolding check_tenant_user
check_tenant_user-ok_iff is_system_code db none user_id code warehouse_id =
    (λ e. absurd (cc e), λ x. absurd (cc x.1))
check_tenant_user-ok_iff is_system_code db (some t) user_id code warehouse_id = (
  λ e. (t, refl, (check_tenant_user_iff is_system_code db t user_id code warehouse_id).0 e),
  λ x.
      (check_tenant_user_iff is_system_code db t user_id code warehouse_id).1
        (subst (IsAllowed is_system_code db user_id code warehouse_id) (sym (some_inj x.1)) x.2),
)
  where
    some_inj : {a b : ℕ} → some a ≡ some b → a ≡ b
    some_inj e = cc e

-- A permission check answers yes exactly when the user is an active system administrator, or the
-- call names a tenant, the code is one for tenants, and an active user of that tenant has an
-- assignment that covers the warehouse to a role of that tenant which grants the code. An assignment to
-- one warehouse covers only a text of it in lower case.
pub check-ok_iff :
    (is_system_code : String → Bool) (db : AuthDb) (tenant_id : Option ℕ) (user_id : ℕ)
    (code : String) (warehouse_id : Option UuidText)
    → (check is_system_code db tenant_id user_id code warehouse_id ≡ ok true) ↔ (
        IsAdmin db user_id
        ⊎ ((t : ℕ) × (tenant_id ≡ some t)
            × IsAllowed is_system_code db user_id code warehouse_id t))
unfolding check find_system_admin
check-ok_iff is_system_code db tenant_id user_id code warehouse_id =
    by_admin _ (is_admin_row_iff db user_id _ refl)
  where
    by_admin :
        (b : Bool)
        → (b ≡ true) ↔ IsAdmin db user_id
        → ((if b
              then ok true
              else check_tenant_user is_system_code db tenant_id user_id code warehouse_id)
            ≡ ok true)
          ↔ (IsAdmin db user_id
              ⊎ ((t : ℕ) × (tenant_id ≡ some t)
                  × IsAllowed is_system_code db user_id code warehouse_id t))
    by_admin true h = (λ _. inl (h.0 refl), λ _. refl)
    by_admin false h = (
      λ e.
          inr
            ((check_tenant_user-ok_iff is_system_code db tenant_id user_id code warehouse_id).0 e),
      elim [
        | inl a ↦ cc (h.1 a)
        | inr x ↦
            (check_tenant_user-ok_iff is_system_code db tenant_id user_id code warehouse_id).1 x
      ],
    )
