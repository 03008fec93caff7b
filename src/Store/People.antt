-- ===== src/Store/People.antt =====
-- Rows of apps/api/prisma/schema.prisma about churches, accounts of people and the audit trail.
-- An id is a UUID that is only compared, so it is a number.
use church_management.Base.{ℕ, Bool, String, List, Option}

pub record Church : Type 0 where
  pub id : ℕ
  pub timezone : String

-- `role_names` and `permissions` hold the names of the user's roles and the codes that they grant. The
-- counter of the last code is absent where the column has its default, -1.
pub record User : Type 0 where
  pub id : ℕ
  pub church_id : ℕ
  pub username : String
  pub password_hash : Option String
  pub auth_version : ℕ
  pub active : Bool
  pub scope_mode : String
  pub totp_secret : Option String
  pub totp_enabled : Bool
  pub totp_last_counter : Option ℕ
  pub role_names : List String
  pub permissions : List String

-- `permissions` holds the codes of the role's rows in `role_permission`.
pub record Role : Type 0 where
  pub id : ℕ
  pub church_id : ℕ
  pub name : String
  pub permissions : List String

pub record Session : Type 0 where
  pub auth_version : ℕ
  pub token_hash : String
  pub church_id : ℕ
  pub user_id : ℕ
  pub created_at : ℕ
  pub last_seen_at : ℕ
  pub expires_at : ℕ
  pub mfa_verified : Bool

pub record LoginAttempt : Type 0 where
  pub key : String
  pub count : ℕ
  pub expires_at : ℕ

pub record Member : Type 0 where
  pub id : ℕ
  pub church_id : ℕ
  pub name : String

-- `resourceId` holds an id or a fixed text.
pub data ResourceId : Type 0 where
  row : ℕ → ResourceId
  year : ℕ → ResourceId
  text : String → ResourceId
  restricted : ResourceId

pub record AuditEvent : Type 0 where
  pub church_id : ℕ
  pub actor_id : ℕ
  pub roles : List String
  pub action : String
  pub resource_type : String
  pub resource_id : ResourceId
  pub fields : List String
  pub outcome : String
  pub correlation_id : String
