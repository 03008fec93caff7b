-- ===== src/Identity/Admin.antt =====
-- identity/interface/admin.controller.ts, with DataScopeService.requireFull of
-- identity/application/data-scope.service.ts: users, roles and who holds them.
pub mod Laws
use text.Mathlib.Text.{◌==◌ as str_eq}
use church_management.Base.{
  ℕ, suc, ◌+◌, String, List, [], ◌∷◌, ◌++◌, map, Bool, true, false, not, ◌&&◌, ◌||◌, Option, none,
  some, if◌then◌else◌, ltb, ◌==◌, find_first, any, every, select, update_where, length,
  includes_text,
}
use church_management.Runtime.{Runtime}
use church_management.Store.{Db}
use church_management.Store.People.{User, Role, Session, ResourceId}
use church_management.Tx.{Error, Result, ok, err}
use church_management.Identity.{Actor, has, check, add_audit, audit_event}
use church_management.Identity.Password.{Platform, hash_password}

-- financePermissions (identity/domain/finance-permissions.ts)
abbrev pub finance_permissions : List String
finance_permissions =
    "offering.read" ∷ "offering.write" ∷ "offering.review" ∷ "offering.post" ∷ "offering.reverse"
    ∷ "receipt.read" ∷ "receipt.issue" ∷ "receipt.print" ∷ "receipt.cancel" ∷ "receipt.export"
    ∷ "receipt.reconcile" ∷ "expense.read" ∷ "expense.write" ∷ "expense.approve" ∷ "expense.pay"
    ∷ "finance.manage" ∷ "finance.readall" ∷ "finance.report" ∷ "budget.read" ∷ "budget.write"
    ∷ "budget.approve" ∷ "finance.export" ∷ "finance.close" ∷ "finance.reverse" ∷ []

-- AdminController.grantable; a code that stands twice is there once more.
unfoldable pub grantable : Actor → List String
grantable a = a.permissions ++ (if has a "finance.manage" then finance_permissions else [])

-- DataScopeService.full: the mode of the caller's own active user.
abbrev pub scope_mode : Actor → Db → String
scope_mode a db =
    elim (find_first (λ u. u.id == a.user_id && u.church_id == a.church_id && u.active) db.users) [
      | none ↦ "NONE"
      | some u ↦ u.scope_mode
    ]

abbrev pub is_full : Actor → Db → Bool
is_full a db = str_eq (scope_mode a db) "ALL"

-- The event of DataScopeService.deny.
abbrev pub scope_denied : Actor → Db → Db
scope_denied a = add_audit (audit_event a "scope.denied" "scope" ResourceId.restricted [] "denied")

abbrev pub logged_in_at : Option ℕ → ℕ
logged_in_at none = 0
logged_in_at (some t) = t

-- AdminController.check before an operation that writes.
unfoldable pub guarded_write :
    {A : Type 0} → Runtime → Actor → ℕ → (Db → Result A × Db) → Db → Result A × Db
unfolding check
guarded_write rt a c op db = elim (check a c "identity.manage" db) [
  | err e ↦ (err e, db)
  | ok _ ↦
      if not (is_full a db)
      then (err Error.denied, scope_denied a db)
      else if ltb (logged_in_at a.authenticated_at + 900000) rt.now
      then (err Error.reauthentication_required, db)
      else op db
]

abbrev pub audit_user : Actor → String → String → ℕ → List String → Db → Db
audit_user a action kind id fields =
    add_audit (audit_event a action kind (ResourceId.row id) fields "success")

abbrev pub new_user : Runtime → ℕ → String → String → User
new_user rt c username hash = record {
  id = rt.new_id 0;
  church_id = c;
  username = username;
  password_hash = some hash;
  auth_version = 0;
  active = true;
  scope_mode = "NONE";
  totp_secret = none;
  totp_enabled = false;
  totp_last_counter = none;
  role_names = [];
  permissions = [];
}

-- AdminController.user
unfoldable pub create_user : Platform → Runtime → Actor → ℕ → String → String → Db → Result ℕ × Db
create_user p rt a c username password = guarded_write rt a c λ db.
    elim (hash_password p password) [
      | none ↦ (err Error.fault, db)
      | some hash ↦ (
        ok (rt.new_id 0),
        audit_user a "user.create" "user" (rt.new_id 0) []
            (record db { users = db.users ++ new_user rt c username hash ∷ [] }),
      )
    ]

-- `codes.some((x) => !this.grantable(r).includes(x))`
abbrev pub exceeds : Actor → List String → Bool
exceeds a codes = any (λ x. not (includes_text (grantable a) x)) codes

abbrev pub new_role : Runtime → ℕ → String → List String → Role
new_role rt c name codes = record {
  id = rt.new_id 0;
  church_id = c;
  name = name;
  permissions = codes;
}

-- AdminController.role
unfoldable pub create_role : Runtime → Actor → ℕ → String → List String → Db → Result ℕ × Db
create_role rt a c name codes = guarded_write rt a c λ db.
    if exceeds a codes then (err Error.bad, db) else (
      ok (rt.new_id 0),
      audit_user a "role.create" "role" (rt.new_id 0) ("permissions" ∷ [])
          (record db { roles = db.roles ++ new_role rt c name codes ∷ [] }),
    )

abbrev pub holds_id : List ℕ → ℕ → Bool
holds_id ids x = any (λ y. y == x) ids

-- `new Set(roleIds).size`
abbrev pub distinct_ids : List ℕ → List ℕ → ℕ
distinct_ids seen [] = 0
distinct_ids seen (x ∷ xs) =
    let rest = distinct_ids (x ∷ seen) xs in if holds_id seen x then rest else suc rest

abbrev pub roles_of : ℕ → List ℕ → Db → List Role
roles_of c ids db = select (λ r. r.church_id == c && holds_id ids r.id) db.roles

-- The codes of all the roles, in order.
abbrev pub codes_of : List Role → List String
codes_of [] = []
codes_of (r ∷ rs) = r.permissions ++ codes_of rs

abbrev pub with_roles : Bool → List Role → User → User
with_roles active roles u = record u {
  active = active;
  auth_version = u.auth_version + 1;
  role_names = map (λ (r : Role). r.name) roles;
  permissions = codes_of roles;
}

abbrev pub set_roles : ℕ → Bool → List Role → Db → Db
set_roles id active roles db = record db {
  users = update_where (λ u. u.id == id) (with_roles active roles) db.users;
  sessions = select (λ s. not (s.user_id == id)) db.sessions;
}

abbrev pub member_user : ℕ → ℕ → Db → Option User
member_user c id db = find_first (λ u. u.church_id == c && u.id == id) db.users

-- The transaction of AdminController.assign.
unfoldable pub assign_in : Actor → ℕ → ℕ → List ℕ → Bool → Db → Result (Unit {0}) × Db
assign_in a c id ids active db =
    let roles = roles_of c ids db in
    if not (length roles == distinct_ids [] ids)
      || any (λ (r : Role). exceeds a r.permissions) roles
    then (err Error.bad, db)
    else elim (member_user c id db) [
      | none ↦ (err Error.bad, db)
      | some u ↦ (
        ok tt,
        audit_user a "user.roles.change" "user" id ("roles" ∷ "active" ∷ [])
            (set_roles id active roles db),
      )
    ]

-- AdminController.assign, with the ids of the roles and the flag of the body
unfoldable pub assign : Runtime → Actor → ℕ → ℕ → List ℕ → Bool → Db → Result (Unit {0}) × Db
unfolding assign_in
assign rt a c id ids active =
    guarded_write rt a c
      λ db. if id == a.user_id then (err Error.bad, db) else assign_in a c id ids active db
