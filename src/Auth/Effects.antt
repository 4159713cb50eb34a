-- ===== src/Auth/Effects.antt =====
-- The transactions of the identity service: calls on its database that may throw.
use multi_tenant.Base.{String}
use multi_tenant.Effects.{Result as ResultOf, Tx as TxOf}
use multi_tenant.Effects.Keeps.{Keeps as KeepsFrom}
use multi_tenant.Effects.Achieves.{Achieves as AchievesFrom}
use multi_tenant.Effects.Requires.{Requires as RequiresFrom}
use multi_tenant.Auth.Types.{AuthDb}
pub use multi_tenant.Effects.{ok, err, continue, after, ◌>>◌}
unfoldable pub use multi_tenant.Effects.{◌>>=◌, pure, throw, throw_if, or_throw, gets, modify, lift}

-- The exceptions by their `code`, with what `details` holds where it matters.
pub data AuthError : Type 0 where
  validation_failed tenant_required invalid_credentials invalid_token account_locked : AuthError
  login_ambiguous forbidden signing_key_not_configured : AuthError
  tenant_mismatch : String → AuthError
  user_not_found user_email_conflict admin_scope_mismatch : AuthError
  role_not_found role_code_conflict permission_code_conflict : AuthError
  user_role_conflict user_role_not_found : AuthError
  -- an exception of the database, which the filter answers with 500
  internal_error : AuthError

abbrev pub Result : Type 0 → Type 0
Result A = ResultOf AuthError A

abbrev pub Tx : Type 0 → Type 0
Tx A = TxOf AuthDb AuthError A

abbrev pub Keeps : {A : Type 0} → (AuthDb → Type 0) → Tx A → Type 0
Keeps P m = KeepsFrom P m

abbrev pub Achieves : {A : Type 0} → (AuthDb → Type 0) → (AuthDb → Type 0) → Tx A → Type 0
Achieves P Q m = AchievesFrom P Q m

abbrev pub Requires : {A : Type 0} → Type 0 → Tx A → Type 0
Requires Q m = RequiresFrom Q m
