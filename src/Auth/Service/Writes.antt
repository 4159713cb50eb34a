-- ===== src/Auth/Service/Writes.antt =====
-- What the calls of the identity service keep: an operation keeps a property that each of its
-- writes keeps.
use multi_tenant.Base.{
  ℕ, String, Bool, true, false, not, ◌≡◌, Option, none, some, List, [], ◌∷◌, ◌++◌, ◌==◌, ==_refl,
  map, select, update_where, All, if_both,
}
use multi_tenant.Outbox.{OutboxEventCommand}
use multi_tenant.Effects.Keeps.{keeps_rules, Keeps-after}
use multi_tenant.Auth.Types.{RefreshToken, Role, Permission, UserStatus, AuthDb, inactive}
use multi_tenant.Auth.Effects.{Keeps, modify}
use multi_tenant.Auth.Input.{LoginCommand, RefreshCommand, RevokeCommand, RevokeInput, is_empty}
use multi_tenant.Auth.Store.{create_token, update_tokens, record_event}
use multi_tenant.Auth.Sessions.{
  login, refresh, revoke, revoke_where, revoke_found, revoke_user, revoke_input, rotated, revoked,
}
use multi_tenant.Auth.Users.{
  CreateUserInput, UpdateUserInput, create_user, update_user, update_own_system_admin,
  update_tenant_user, update_by_tenant, update, update_status, remove,
}
use multi_tenant.Auth.Rbac.{
  UpdateRoleInput, updated_role, is_code_of, create_permission, create_role, update_role,
  replace_role_permissions, assign_user_role, remove_user_role,
}
use multi_tenant.Auth.Service.{
  AuthRequest, Platform, AuthCall, log_in, refresh_session, revoke_session, new_user, change_user,
  change_status, remove_user, new_permission, new_role, change_role, replace_permissions,
  assign_role, unassign_role, perform_auth, serve_auth,
}

-- The request may set the status of the user.
abbrev pub changes_status : AuthRequest → ℕ → Bool
changes_status (change_status i s) id = i == id
changes_status (remove_user i) id = i == id
changes_status _ id = false

-- That each single write of a call keeps the property.
pub record AuthWrites (P : AuthDb → Type 0) (p : Platform) (c : AuthCall) : Type 0 where
  pub token : (t : RefreshToken) → Keeps P (create_token t)
  pub rotate :
      (test : RefreshToken → Bool)
      → Keeps P (update_tokens test (rotated p.text p.crypto p.config c.env))
  pub revoke_all :
      (test : RefreshToken → Bool)
      → Keeps P (update_tokens test (revoked p.text p.crypto p.config c.env))
  pub creation :
      (input : CreateUserInput)
      → Keeps P (create_user p.hash_password p.bootstrap_id c.env c.context c.seen input)
  pub user_update : (id : ℕ) (input : UpdateUserInput) → Keeps P (update_user id input)
  pub status :
      (id : ℕ) (s : UserStatus)
      → changes_status c.request id ≡ true
      → Keeps P (update_status p.hash_password p.bootstrap_id c.env c.context c.seen id s)
  pub permission :
      (x : Permission) → Keeps P (modify (λ db. record db { permissions = x ∷ db.permissions }))
  pub role : (r : Role) → Keeps P (modify (λ db. record db { roles = r ∷ db.roles }))
  pub role_update :
      (id : ℕ) (input : UpdateRoleInput)
      → Keeps P (
          modify (λ db. record db {
            roles = update_where (λ r. r.id == id) (updated_role input) db.roles;
          }))
  pub clear :
      (id : ℕ)
      → Keeps P (
          modify (λ db. record db {
            role_permissions = select (λ rp. not (rp.role_id == id)) db.role_permissions;
          }))
  pub grant :
      (id : ℕ) (codes : List String)
      → Keeps P (
          modify (λ db. record db {
            role_permissions =
                map
                  (λ (x : Permission). record { role_id = id; permission_id = x.id })
                  (select (is_code_of codes) db.permissions)
                ++ db.role_permissions;
          }))
  pub assign :
      (user_id role_id : ℕ) (w : Option ℕ)
      → Keeps P (
          assign_user_role p.is_system_code p.bootstrap_id c.env c.context c.seen user_id role_id w)
  pub unassign :
      (id : ℕ)
      → Keeps P
          (modify (λ db. record db { user_roles = select (λ ur. not (ur.id == id)) db.user_roles }))
  pub event : (command : OutboxEventCommand) → Keeps P (record_event c.env command)

module _ {P : AuthDb → Type 0} (p : Platform) (c : AuthCall) (writes : AuthWrites P p c) where
  open writes use {
    token, rotate, revoke_all, creation, user_update, status, permission, role, role_update, clear,
    grant, assign, unassign, event,
  }

  revoke_where-Stays :
      (test : RefreshToken → Bool) → Keeps P (revoke_where p.text p.crypto p.config c.env test)
  unfolding revoke_where
  revoke_where-Stays test = search (keeps_rules, revoke_all)

  login-Stays :
      (command : LoginCommand) → Keeps P (login p.text p.crypto p.config c.env c.seen command)
  unfolding login
  login-Stays command = search (keeps_rules, token) depth 16

  refresh-Stays :
      (command : RefreshCommand) → Keeps P (refresh p.text p.crypto p.config c.env c.seen command)
  unfolding refresh
  refresh-Stays command = search (keeps_rules, token, rotate) depth 18

  revoke_user-Stays :
      (input : RevokeInput) (u : Option ℕ)
      → Keeps P (revoke_user p.text p.crypto p.config c.env input u)
  unfolding revoke_user
  revoke_user-Stays input none = search keeps_rules
  revoke_user-Stays input (some u) = search revoke_where-Stays

  revoke_found-Stays :
      (input : RevokeInput) (t : Option RefreshToken)
      → Keeps P (revoke_found p.text p.crypto p.config c.env input t)
  unfolding revoke_found
  revoke_found-Stays input none = search keeps_rules
  revoke_found-Stays input (some t) = search (keeps_rules, revoke_where-Stays) depth 8

  revoke_input-Stays :
      (input : RevokeInput) (t : Option String)
      → Keeps P (revoke_input p.text p.crypto p.config c.env c.seen input t)
  unfolding revoke_input
  revoke_input-Stays input none = search revoke_user-Stays
  revoke_input-Stays input (some t) =
      if_both (Keeps P) (is_empty t) (revoke_user-Stays input _) (revoke_found-Stays input _)

  revoke-Stays :
      (command : RevokeCommand) → Keeps P (revoke p.text p.crypto p.config c.env c.seen command)
  unfolding revoke
  revoke-Stays command = search (keeps_rules, revoke_input-Stays)

  update_by_tenant-Stays :
      (t : Option ℕ) (id : ℕ) (input : UpdateUserInput)
      → Keeps P (update_by_tenant p.hash_password p.bootstrap_id c.env c.context c.seen t id input)
  unfolding update_by_tenant update_own_system_admin update_tenant_user
  update_by_tenant-Stays none id input = search (keeps_rules, user_update) depth 10
  update_by_tenant-Stays (some t) id input = search (keeps_rules, user_update, event) depth 12

  module _ (r : AuthRequest)
      (same : (id : ℕ) → changes_status r id ≡ true → changes_status c.request id ≡ true) where
    status_of :
        (id : ℕ) (s : UserStatus)
        → changes_status r id ≡ true
        → Keeps P (update_status p.hash_password p.bootstrap_id c.env c.context c.seen id s)
    status_of id s h = status id s (same id h)

  request-Stays :
      (r : AuthRequest)
      → ((id : ℕ) → changes_status r id ≡ true → changes_status c.request id ≡ true)
      → Keeps P (perform_auth p c.env c.context c.seen r)
  unfolding perform_auth update remove create_permission create_role update_role
      replace_role_permissions remove_user_role
  request-Stays (log_in command) same = search (keeps_rules, login-Stays)
  request-Stays (refresh_session command) same = search (keeps_rules, refresh-Stays)
  request-Stays (revoke_session command) same = search (keeps_rules, revoke-Stays)
  request-Stays (new_user input) same = search (keeps_rules, creation)
  request-Stays (change_user id input) same = search (keeps_rules, update_by_tenant-Stays)
  request-Stays (change_status id s) same =
      search (keeps_rules, status_of (change_status id s) same id s (==_refl id))
  request-Stays (remove_user id) same =
      search (keeps_rules, status_of (remove_user id) same id inactive (==_refl id))
  request-Stays (new_permission input) same = search (keeps_rules, permission, event) depth 14
  request-Stays (new_role input) same = search (keeps_rules, role, event) depth 14
  request-Stays (change_role id input) same = search (keeps_rules, role_update, event) depth 18
  request-Stays (replace_permissions id codes) same =
      search (keeps_rules, clear, grant, event) depth 18
  request-Stays (assign_role u r w) same = search (keeps_rules, assign)
  request-Stays (unassign_role id) same = search (keeps_rules, unassign, event) depth 14

  pub perform_auth-Stays : Keeps P (perform_auth p c.env c.context c.seen c.request)
  perform_auth-Stays = request-Stays c.request (λ id h. h)

-- What every allowed call keeps holds after a history of them.
pub serve_auth_induction :
    {P : AuthDb → Type 0} {Allowed : AuthCall → Type 0} (p : Platform)
    → ((c : AuthCall) → Allowed c → AuthWrites P p c)
    → (calls : List AuthCall) (db : AuthDb) → All Allowed calls
    → P db
    → P (serve_auth p calls db)
unfolding serve_auth
serve_auth_induction p writes [] db a h = h
serve_auth_induction p writes (c ∷ calls) db a h =
    serve_auth_induction p writes calls _ a.1
      (Keeps-after (perform_auth-Stays p c (writes c a.0)) db h)
