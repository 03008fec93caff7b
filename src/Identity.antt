-- ===== src/Identity.antt =====
-- identity/domain/actor.ts, identity/application/access.service.ts and audit/audit.service.ts under
-- apps/api/src/modules: who calls, the permission test, and the audit trail.
pub mod Laws
pub mod Guard
pub mod Password
pub mod Login
pub mod Session
pub mod Account
pub mod Admin
use church_management.Base.{ℕ, String, List, [], ◌∷◌, ◌++◌, Bool, not, Option, ◌==◌, includes_text}
use church_management.Store.{Db}
use church_management.Store.People.{ResourceId, AuditEvent}
use church_management.Tx.{Error, Tx, throw_if, modify, ◌>>◌}

pub record Actor : Type 0 where
  pub authenticated_at : Option ℕ
  pub mfa_verified : Bool
  pub user_id : ℕ
  pub church_id : ℕ
  pub roles : List String
  pub permissions : List String
  pub correlation_id : String

-- `a.permissions.includes(p)`
abbrev pub has : Actor → String → Bool
has a p = includes_text a.permissions p

-- AccessService.require, which FinancePolicy.check calls.
unfoldable pub check : Actor → ℕ → String → Tx (Unit {0})
check a c p = do
  throw_if (not (a.church_id == c)) Error.church_scope_violation
  throw_if (not (has a p)) Error.permission_denied

abbrev pub audit_event : Actor → String → String → ResourceId → List String → String → AuditEvent
audit_event a action kind id fields outcome = record {
  church_id = a.church_id;
  actor_id = a.user_id;
  roles = a.roles;
  action = action;
  resource_type = kind;
  resource_id = id;
  fields = fields;
  outcome = outcome;
  correlation_id = a.correlation_id;
}

abbrev pub add_audit : AuditEvent → Db → Db
add_audit e db = record db { audit_events = db.audit_events ++ e ∷ [] }

-- AuditService.record inside a transaction.
unfoldable pub record_audit : Actor → String → String → ResourceId → List String → Tx (Unit {0})
unfolding modify
record_audit a action kind id fields =
    modify (add_audit (audit_event a action kind id fields "success"))
