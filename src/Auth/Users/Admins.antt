-- ===== src/Auth/Users/Admins.antt =====
-- Only the bootstrap administrator makes system administrators.
use multi_tenant.Base.{
  ℕ, Bool, false, not, ◌&&◌, ◌≡◌, refl, ◌∙◌, List, [], ◌∷◌, update_where, All, arith, map, select,
}
use multi_tenant.Effects.Keeps.{keeps_rules, Keeps-modify, Keeps-if}
use multi_tenant.Effects.Achieves.{Achieves-throw_if, Keeps-of}
use multi_tenant.Auth.Types.{AuthUser, AuthDb, is_system_admin}
use multi_tenant.Auth.Effects.{Keeps}
use multi_tenant.Auth.Store.{record_event}
use multi_tenant.Auth.Users.{
  CreateUserInput, is_id, find_system_admin, find_bootstrap_system_admin, insert_user,
  create_system_admin, create_tenant_user, create_user,
}
use multi_tenant.Auth.Service.{Platform, AuthCall, serve_auth}
use multi_tenant.Auth.Service.Writes.{serve_auth_induction}
use multi_tenant.Auth.Service.Accounts.{Writes-users}

-- The identifiers of the system administrators, whatever their status.
abbrev pub admin_ids : List AuthUser → List ℕ
admin_ids l = map (λ (u : AuthUser). u.id) (select (λ u. is_system_admin u.user_type) l)

admin_ids-update_where :
    (test : AuthUser → Bool) (f : AuthUser → AuthUser)
    → ((u : AuthUser) → (f u).user_type ≡ u.user_type)
    → ((u : AuthUser) → (f u).id ≡ u.id)
    → (l : List AuthUser) → admin_ids (update_where test f l) ≡ admin_ids l
admin_ids-update_where test f types ids [] = refl
admin_ids-update_where test f types ids (u ∷ l) =
    grind (arith, admin_ids-update_where test f types ids l, types u, ids u)

module _ (p : Platform) (admins : List ℕ) where
  create_system_admin-refused :
      (c : AuthCall) (input : CreateUserInput)
      → is_id p.bootstrap_id c.context.user_id ≡ false
      → Keeps
          (λ db. admin_ids db.users ≡ admins)
          (create_system_admin p.hash_password p.bootstrap_id c.env c.context c.seen input)
  unfolding create_system_admin find_bootstrap_system_admin
  create_system_admin-refused c input other = Keeps-of (
      Achieves-throw_if _ _ _ λ no_tenant.
        Achieves-throw_if _ _ _
          λ bootstrap. absurd (refused (find_system_admin c.seen c.context.user_id) bootstrap))
    where
      refused : (b : Bool) → not (is_id p.bootstrap_id c.context.user_id && b) ≡ false → ⊥
      refused b h = ground (arith, other, h)

  create_tenant_user-admin_ids :
      (c : AuthCall) (input : CreateUserInput)
      → is_system_admin input.user_type ≡ false
      → Keeps
          (λ db. admin_ids db.users ≡ admins)
          (create_tenant_user p.hash_password p.bootstrap_id c.env c.context c.seen input)
  unfolding create_tenant_user insert_user record_event
  create_tenant_user-admin_ids c input tenant_type =
      search (keeps_rules, Keeps-modify, same_admins) depth 14
    where
      same_admins :
          (u : AuthUser) (l : List AuthUser)
          → u.user_type ≡ input.user_type
          → admin_ids l ≡ admins
          → admin_ids (u ∷ l) ≡ admins
      same_admins u l e h = ground (arith, e, h, tenant_type)

  create_user-admin_ids :
      (c : AuthCall) (input : CreateUserInput)
      → is_id p.bootstrap_id c.context.user_id ≡ false
      → Keeps
          (λ db. admin_ids db.users ≡ admins)
          (create_user p.hash_password p.bootstrap_id c.env c.context c.seen input)
  unfolding create_user
  create_user-admin_ids c input other =
      Keeps-if _ _ _ (λ _. create_system_admin-refused c input other)
        (create_tenant_user-admin_ids c input)

  serve-admin_ids :
      (calls : List AuthCall) (db : AuthDb)
      → All (λ c. is_id p.bootstrap_id c.context.user_id ≡ false) calls
      → admin_ids db.users ≡ admins
      → admin_ids (serve_auth p calls db).users ≡ admins
  serve-admin_ids =
      serve_auth_induction {P = λ db. admin_ids db.users ≡ admins}
        {Allowed = λ c. is_id p.bootstrap_id c.context.user_id ≡ false} p
        λ c other.
          Writes-users (λ l. admin_ids l ≡ admins) p c
            (λ input. create_user-admin_ids c input other)
            (λ i input l h. admin_ids-update_where _ _ (λ u. refl) (λ u. refl) l ∙ h)
            (λ i s l _ h. admin_ids-update_where _ _ (λ u. refl) (λ u. refl) l ∙ h)

-- Through every history of calls of which none names the bootstrap administrator in its header, the
-- system administrators stay the same users.
pub serve_auth-admin_ids :
    (p : Platform) (calls : List AuthCall) (db : AuthDb)
    → All (λ c. is_id p.bootstrap_id c.context.user_id ≡ false) calls
    → admin_ids (serve_auth p calls db).users ≡ admin_ids db.users
serve_auth-admin_ids p calls db others = serve-admin_ids p (admin_ids db.users) calls db others refl
