-- ===== src/Auth/Service/Tokens.antt =====
-- What the calls of the identity service do to the refresh tokens: three statements write them.
use multi_tenant.Base.{ℕ, Bool, ◌≡◌, refl, some, List, is_some, true}
use multi_tenant.Effects.Keeps.{keeps_rules, Keeps-modify}
use multi_tenant.Auth.Types.{RefreshToken}
use multi_tenant.Auth.Effects.{Keeps}
use multi_tenant.Auth.Store.{create_token, update_tokens, record_event}
use multi_tenant.Auth.Users.{
  insert_user, create_system_admin, create_tenant_user, create_user, update_user,
  revoke_unless_active, update_status,
}
use multi_tenant.Auth.Rbac.{assign_user_role}
use multi_tenant.Auth.Service.{Platform, AuthCall}
use multi_tenant.Auth.Service.Writes.{AuthWrites}

-- A change of a row that revokes it and keeps its hash.
pub record Revokes (f : RefreshToken → RefreshToken) : Type 0 where
  pub same : (t : RefreshToken) → (f t).token_hash ≡ t.token_hash
  pub sets : (t : RefreshToken) → is_some (f t).revoked_at ≡ true

module _ (Q : List RefreshToken → Type 0) (p : Platform) (c : AuthCall)
    (creates : (t : RefreshToken) → Keeps (λ db. Q db.tokens) (create_token t))
    (revokes : (test : RefreshToken → Bool) (f : RefreshToken → RefreshToken)
      → Revokes f
      → Keeps (λ db. Q db.tokens) (update_tokens test f)) where
  sets_revoked : (at : ℕ) → Revokes (λ t. record t { revoked_at = some at })
  sets_revoked at = record { same = λ t. refl; sets = λ t. refl }

  -- A property of the table that an insertion and a revocation keep, each call keeps.
  pub Writes-tokens : AuthWrites (λ db. Q db.tokens) p c
  unfolding create_user create_system_admin create_tenant_user insert_user update_user update_status
      revoke_unless_active assign_user_role record_event
  Writes-tokens = record {
    token = creates;
    rotate = λ test. revokes test _ (record { same = λ t. refl; sets = λ t. refl });
    revoke_all = λ test. revokes test _ (sets_revoked _);
    creation = λ input. search (keeps_rules, Keeps-modify) depth 14;
    user_update = λ id input. search (keeps_rules, Keeps-modify) depth 14;
    status = λ id s _. search (keeps_rules, Keeps-modify, revokes, sets_revoked) depth 14;
    permission = λ x. Keeps-modify _ (λ db h. h);
    role = λ r. Keeps-modify _ (λ db h. h);
    role_update = λ id input. Keeps-modify _ (λ db h. h);
    clear = λ id. Keeps-modify _ (λ db h. h);
    grant = λ id codes. Keeps-modify _ (λ db h. h);
    assign = λ u r w. search (keeps_rules, Keeps-modify) depth 20;
    unassign = λ id. Keeps-modify _ (λ db h. h);
    event = λ command. Keeps-modify _ (λ db h. h);
  }
