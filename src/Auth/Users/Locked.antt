-- ===== src/Auth/Users/Locked.antt =====
-- A user whose status is not active is shut out.
use multi_tenant.Base.{
  ℕ, String, Bool, true, false, not, ◌&&◌, ◌||◌, ◌≡◌, ◌≢◌, refl, ap, sym, subst, ◌∙◌, Option, none,
  some, List, [], ◌∷◌, ◌==◌, ==→eq, if_both, find, any, select, update_where, All, arith, is_some,
  if◌then◌else◌,
}
use multi_tenant.Uuid.{UuidText}
use multi_tenant.Effects.Keeps.{keeps_rules, Keeps-modify}
use multi_tenant.Effects.Achieves.{
  Achieves-done, Achieves-gets, Achieves-or_throw, Achieves-throw_if, Achieves-lift,
  Achieves-modify, Achieves-ok, Achieves-const,
}
use multi_tenant.Auth.Types.{
  AuthUser, RefreshToken, UserStatus, AuthDb, AuthEnv, CommandContext, is_active,
}
use multi_tenant.Auth.Effects.{account_locked, Result, ok, err, Keeps, Achieves}
use multi_tenant.Auth.Input.{RefreshCommand, trim_or}
use multi_tenant.Auth.Store.{find_token, update_tokens, record_event}
use multi_tenant.Auth.Sessions.{TokenPair, refresh}
use multi_tenant.Auth.Sessions.Once.{validate_refresh-token}
use multi_tenant.Auth.Users.{
  CreateUserInput, insert_user, create_system_admin, create_tenant_user, create_user, is_admin_row,
  find_system_admin, with_status, revoke_unless_active, update_status,
}
use multi_tenant.Auth.Access.{
  check, check_tenant_user, get_active_user_assignments, assignments_of, is_role_of, any_allows,
}
use multi_tenant.Auth.Service.{AuthRequest, Platform, AuthCall, serve_auth}
use multi_tenant.Auth.Service.Writes.{changes_status, serve_auth_induction}
use multi_tenant.Auth.Service.Accounts.{Writes-users}

-- No row of the id is active.
abbrev pub is_live : ℕ → AuthUser → Bool
is_live id u = (u.id == id) && is_active u.status

abbrev pub IsShut : ℕ → List AuthUser → Type 0
IsShut id users = any (is_live id) users ≡ false

module _ (id : ℕ) where
  IsShut-with_status :
      (s : UserStatus) (l : List AuthUser)
      → is_active s ≡ false
      → IsShut id (update_where (λ u. u.id == id) (with_status s) l)
  IsShut-with_status s [] h = refl
  IsShut-with_status s (u ∷ l) h = grind (arith, IsShut-with_status s l h, h)

  -- Another user's status, and other columns, do not matter.
  IsShut-update_where :
      (test : AuthUser → Bool) (f : AuthUser → AuthUser)
      → ((u : AuthUser) → test u ≡ true → is_live id (f u) ≡ is_live id u)
      → (l : List AuthUser) → IsShut id l
      → IsShut id (update_where test f l)
  IsShut-update_where test f same [] h = refl
  IsShut-update_where test f same (u ∷ l) h =
      grind (arith, IsShut-update_where test f same l, same u)

  -- The call does not set the user's status, and its generated id is not the user's.
  abbrev pub LeavesAlone : AuthCall → Type 0
  LeavesAlone c = (changes_status c.request id ≡ false) × (c.env.row_id ≢ id)

  module _ (p : Platform) where
    create_user-IsShut :
        (c : AuthCall) (input : CreateUserInput)
        → c.env.row_id ≢ id
        → Keeps
            (λ db. IsShut id db.users)
            (create_user p.hash_password p.bootstrap_id c.env c.context c.seen input)
    unfolding create_user create_system_admin create_tenant_user insert_user record_event
    create_user-IsShut c input fresh = search (keeps_rules, Keeps-modify, other_row) depth 14
      where
        other_row :
            (u : AuthUser) (l : List AuthUser)
            → u.id ≡ c.env.row_id
            → IsShut id l
            → IsShut id (u ∷ l)
        other_row u l e h = ground (arith, fresh, e, h)

    serve_auth-IsShut :
        (calls : List AuthCall) (db : AuthDb)
        → All LeavesAlone calls
        → IsShut id db.users
        → IsShut id (serve_auth p calls db).users
    serve_auth-IsShut =
        serve_auth_induction {P = λ db. IsShut id db.users} {Allowed = LeavesAlone} p λ c h.
          Writes-users (IsShut id) p c (λ input. create_user-IsShut c input h.1)
            (λ i input l. IsShut-update_where _ _ (λ u _. refl) l)
            (λ i s l changed.
              IsShut-update_where _ _ (λ u e. other_user c.request i s u h.0 changed e) l)
      where
        other_user :
            (r : AuthRequest) (i : ℕ) (s : UserStatus) (u : AuthUser)
            → changes_status r id ≡ false
            → changes_status r i ≡ true
            → (u.id == i) ≡ true
            → is_live id (with_status s u) ≡ is_live id u
        other_user r i s u h changed e = ground (arith, other_id)
          where
            other_id : u.id ≢ id
            other_id same = cc (sym h ∙ ap (changes_status r) (sym same ∙ ==→eq u.id i e) ∙ changed)

    -- A change to a status that is not active shuts the user out.
    update_status-shuts :
        (env : AuthEnv) (context : CommandContext) (seen : AuthDb) (s : UserStatus)
        → is_active s ≡ false
        → Achieves
            (λ _. Unit)
            (λ db. IsShut id db.users)
            (update_status p.hash_password p.bootstrap_id env context seen id s)
    unfolding update_status revoke_unless_active update_tokens record_event
    update_status-shuts env context seen s h = Achieves-or_throw _ _ _ λ tenant_id t.
        Achieves-gets _ _ λ found. Achieves-or_throw _ _ _ λ existing e.
          Achieves-done _ _ (Achieves-modify _ (λ db _. IsShut-with_status s db.users h))
            λ _. search (keeps_rules, Keeps-modify) depth 10

module _ (id : ℕ) (users : List AuthUser) (shut : IsShut id users) where
  -- What is found of the id is not active.
  find-shut :
      (test : AuthUser → Bool) (u : AuthUser)
      → ((v : AuthUser) → test v ≡ true → v.id ≡ id)
      → find test users ≡ some u
      → is_active u.status ≡ false
  find-shut test u is_id = go users shut
    where
      go : (l : List AuthUser) → IsShut id l → find test l ≡ some u → is_active u.status ≡ false
      go [] h e = cc e
      go (v ∷ l) h e = grind (arith, go l, is_id v)

  find_user-shut :
      (user_id : ℕ) (u : AuthUser)
      → find (λ v. v.id == user_id) users ≡ some u
      → is_active u.status ≡ true
      → user_id ≢ id
  find_user-shut user_id u found live same =
      cc (sym live ∙ find-shut _ u (λ v e. ==→eq v.id user_id e ∙ same) found)

module _ (p : Platform) (id : ℕ) (db : AuthDb) (shut : IsShut id db.users) where
  -- A refresh that reads the database returns only for a token of another user.
  refresh-other_user :
      (env : AuthEnv) (command : RefreshCommand) (token : RefreshToken)
      → find_token (p.crypto.hash_refresh_token (trim_or p.text command.refresh_token)) db
        ≡ some token
      → Achieves
          (λ _. Unit)
          (λ _. token.user_id ≢ id)
          (refresh p.text p.crypto p.config env db command)
  unfolding refresh
  refresh-other_user env command token stored = Achieves-lift _ _ λ input valid.
      Achieves-or_throw _ _ _ λ current found. Achieves-or_throw _ _ _ λ user there.
        Achieves-throw_if _ _ _ λ usable. Achieves-const _ (
          subst (λ (t : RefreshToken). t.user_id ≢ id)
            (same_token
              (sym (
                  ap (λ x. find_token (p.crypto.hash_refresh_token x) db)
                    (validate_refresh-token p.text command input valid))
                ∙ found)
              stored)
            (find_user-shut id db.users shut current.user_id user there
              (live (is_some current.revoked_at) _ (is_active user.status) usable)))
    where
      same_token : {o : Option RefreshToken} {t u : RefreshToken} → o ≡ some t → o ≡ some u → t ≡ u
      same_token a b = cc (a, b)

      live : (a b c : Bool) → (a || (b || not c)) ≡ false → c ≡ true
      live a b c h = ground (arith, h)

  admin_row-shut :
      (o : Option AuthUser)
      → ((u : AuthUser) → o ≡ some u → is_active u.status ≡ false)
      → is_admin_row o ≡ false
  admin_row-shut none h = refl
  admin_row-shut (some u) h = ground (arith, h u refl)

  find_system_admin-shut : find_system_admin db (some id) ≡ false
  unfolding find_system_admin
  find_system_admin-shut =
      admin_row-shut _ λ u. find-shut id db.users shut _ u (λ v e. ==→eq v.id id e)

  assignments-shut :
      (tenant_id : ℕ) (o : Option AuthUser) (code : String) (warehouse_id : Option UuidText)
      (b : Bool)
      → ((u : AuthUser) → o ≡ some u → is_active u.status ≡ false)
      → ¬ (any_allows db code warehouse_id (assignments_of db tenant_id id o) ≡ ok b)
  assignments-shut tenant_id none code warehouse_id b h e = cc e
  assignments-shut tenant_id (some u) code warehouse_id b h e = cc (sym (ap result (h u refl)) ∙ e)
    where
      result : Bool → Result Bool
      result active = any_allows db code warehouse_id (
          if active
          then ok
              (select (λ ur. ur.user_id == id && is_role_of db tenant_id ur.role_id) db.user_roles)
          else err account_locked)

  check_tenant_user-shut :
      (tenant_id : Option ℕ) (code : String) (warehouse_id : Option UuidText) (b : Bool)
      → ¬ (check_tenant_user p.is_system_code db tenant_id id code warehouse_id ≡ ok b)
  unfolding check_tenant_user get_active_user_assignments
  check_tenant_user-shut none code warehouse_id b e = cc e
  check_tenant_user-shut (some t) code warehouse_id b e =
      if_both (λ (r : Result Bool). ¬ (r ≡ ok b)) (p.is_system_code code) (λ h. cc h)
        (assignments-shut t _ code warehouse_id b
          λ u. find-shut id db.users shut _ u (λ v h. ==→eq v.id id (and_left _ _ h)))
        e
    where
      and_left : (a b : Bool) → (a && b) ≡ true → a ≡ true
      and_left a b h = ground (arith, h)

  -- A check of the user does not return.
  check-shut :
      (tenant_id : Option ℕ) (code : String) (warehouse_id : Option UuidText) (b : Bool)
      → ¬ (check p.is_system_code db tenant_id id code warehouse_id ≡ ok b)
  unfolding check
  check-shut tenant_id code warehouse_id b =
      rw find_system_admin-shut (check_tenant_user-shut tenant_id code warehouse_id b)

module _ (p : Platform) (env : AuthEnv) (context : CommandContext) (seen : AuthDb) (id : ℕ)
    (status : UserStatus) (calls : List AuthCall) (db db' : AuthDb) (user : AuthUser)
    (inactive : is_active status ≡ false)
    (returned : update_status p.hash_password p.bootstrap_id env context seen id status db
      ≡ ok (user, db'))
    (alone : All (LeavesAlone id) calls) where
  serve_auth-update_status-IsShut : IsShut id (serve_auth p calls db').users
  serve_auth-update_status-IsShut = serve_auth-IsShut id p calls db' alone (
      Achieves-ok db db' user (update_status-shuts id p env context seen status inactive) tt
        returned)

  -- A change of a user to a status that is not active shuts the user out of the sessions: after any
  -- later history of calls that leaves the user's status alone, whatever its reads saw, a refresh
  -- that has the database to itself returns only for a token of another user.
  pub refresh-shut_out :
      (env' : AuthEnv) (command : RefreshCommand) (token : RefreshToken) (pair : TokenPair)
      (db'' : AuthDb)
      → find_token
          (p.crypto.hash_refresh_token (trim_or p.text command.refresh_token))
          (serve_auth p calls db')
        ≡ some token
      → refresh p.text p.crypto p.config env'
          (serve_auth p calls db')
          command
          (serve_auth p calls db')
        ≡ ok (pair, db'')
      → token.user_id ≢ id
  refresh-shut_out env' command token pair db'' stored refreshed =
      Achieves-ok _ db'' pair
        (refresh-other_user p id _ serve_auth-update_status-IsShut env' command token stored) tt
        refreshed

  -- A change of a user to a status that is not active takes every permission: after any later
  -- history of calls that leaves the user's status alone, whatever its reads saw, no permission
  -- check of the user returns, for any tenant, code or warehouse.
  pub check-shut_out :
      (tenant_id : Option ℕ) (code : String) (warehouse_id : Option UuidText) (b : Bool)
      → ¬ (check p.is_system_code (serve_auth p calls db') tenant_id id code warehouse_id ≡ ok b)
  check-shut_out = check-shut p id _ serve_auth-update_status-IsShut
