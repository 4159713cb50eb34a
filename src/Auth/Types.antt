-- ===== src/Auth/Types.antt =====
-- The tables of the identity service, as in apps/auth-iam-service/prisma/schema.prisma, and what a
-- call gets from its surroundings. An identifier is the number that its UUID denotes, an instant is
-- in milliseconds. The columns that no operation reads are left out.
use multi_tenant.Base.{ℕ, String, Bool, true, false, Option, List}
use multi_tenant.Outbox.{OutboxEvent}

pub data UserStatus : Type 0 where
  active inactive locked : UserStatus

pub data UserType : Type 0 where
  system_admin general_user : UserType

pub record AuthUser : Type 0 where
  pub id : ℕ
  pub tenant_id : Option ℕ
  pub email : String
  pub display_name : String
  pub password_hash : String
  pub user_type : UserType
  pub status : UserStatus

pub record RefreshToken : Type 0 where
  pub id : ℕ
  pub tenant_id : Option ℕ
  pub user_id : ℕ
  pub token_hash : String
  pub expires_at : ℕ
  pub revoked_at : Option ℕ
  pub replaced_by : Option ℕ

pub record Role : Type 0 where
  pub id : ℕ
  pub tenant_id : ℕ
  pub code : String
  pub name : String
  pub description : Option String

pub record Permission : Type 0 where
  pub id : ℕ
  pub code : String
  pub description : Option String

pub record RolePermission : Type 0 where
  pub role_id : ℕ
  pub permission_id : ℕ

pub record UserRole : Type 0 where
  pub id : ℕ
  pub user_id : ℕ
  pub role_id : ℕ
  pub warehouse_id : Option ℕ

pub record AuthDb : Type 0 where
  pub users : List AuthUser
  pub tokens : List RefreshToken
  pub roles : List Role
  pub permissions : List Permission
  pub role_permissions : List RolePermission
  pub user_roles : List UserRole
  pub outbox : List OutboxEvent

-- Who calls: the headers of the request, with well-formed UUIDs where they are present.
pub record CommandContext : Type 0 where
  pub tenant_id : Option ℕ
  -- whether the tenant header is spelled in lower case, as the database spells identifiers
  pub tenant_is_lower : Bool
  pub user_id : Option ℕ
  pub request_id : Option String

-- What the clock, the database and the random source give to one call.
pub record AuthEnv : Type 0 where
  pub now : ℕ
  pub row_id : ℕ
  pub outbox_id : ℕ
  pub event_id : ℕ
  pub opaque_token : String

abbrev pub is_active : UserStatus → Bool
is_active active = true
is_active inactive = false
is_active locked = false

abbrev pub is_system_admin : UserType → Bool
is_system_admin system_admin = true
is_system_admin general_user = false
