-- ===== src/Auth/Service/Accounts.antt =====
-- What the calls of the identity service do to the users: three statements write them.
use multi_tenant.Base.{ℕ, true, ◌≡◌, List, ◌==◌, update_where}
use multi_tenant.Effects.Keeps.{keeps_rules, Keeps-modify}
use multi_tenant.Auth.Types.{AuthUser, UserStatus}
use multi_tenant.Auth.Effects.{Keeps}
use multi_tenant.Auth.Store.{create_token, update_tokens, record_event}
use multi_tenant.Auth.Users.{
  CreateUserInput, UpdateUserInput, create_user, update_user, updated_user, with_status,
  revoke_unless_active, update_status,
}
use multi_tenant.Auth.Rbac.{assign_user_role}
use multi_tenant.Auth.Service.{Platform, AuthCall}
use multi_tenant.Auth.Service.Writes.{AuthWrites, changes_status}

module _ (Q : List AuthUser → Type 0) (p : Platform) (c : AuthCall)
    (creation : (input : CreateUserInput)
      → Keeps
          (λ db. Q db.users)
          (create_user p.hash_password p.bootstrap_id c.env c.context c.seen input))
    (edits : (id : ℕ) (input : UpdateUserInput) (l : List AuthUser)
      → Q l
      → Q (update_where (λ u. u.id == id) (updated_user input) l))
    (sets : (id : ℕ) (s : UserStatus) (l : List AuthUser)
      → changes_status c.request id ≡ true
      → Q l
      → Q (update_where (λ u. u.id == id) (with_status s) l)) where
  -- A property of the users that their three statements keep, each call keeps.
  pub Writes-users : AuthWrites (λ db. Q db.users) p c
  unfolding update_user update_status revoke_unless_active update_tokens assign_user_role
      create_token record_event
  Writes-users = record {
    token = λ t. search (keeps_rules, Keeps-modify) depth 10;
    rotate = λ test. Keeps-modify _ (λ db h. h);
    revoke_all = λ test. Keeps-modify _ (λ db h. h);
    creation = creation;
    user_update = λ id input. search (keeps_rules, Keeps-modify, edits) depth 14;
    status = λ id s changed. search (keeps_rules, Keeps-modify, sets, changed) depth 16;
    permission = λ x. Keeps-modify _ (λ db h. h);
    role = λ r. Keeps-modify _ (λ db h. h);
    role_update = λ id input. Keeps-modify _ (λ db h. h);
    clear = λ id. Keeps-modify _ (λ db h. h);
    grant = λ id codes. Keeps-modify _ (λ db h. h);
    assign = λ u r w. search (keeps_rules, Keeps-modify) depth 20;
    unassign = λ id. Keeps-modify _ (λ db h. h);
    event = λ command. Keeps-modify _ (λ db h. h);
  }
