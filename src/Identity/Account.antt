-- ===== src/Identity/Account.antt =====
-- identity/interface/auth.controller.ts: logout, change of the password and the second factor. Outside the
-- transactions, what a handler has written stays when it throws.
pub mod Laws
use text.Mathlib.Text.{◌==◌ as str_eq}
use church_management.Base.{
  ℕ, ◌+◌, String, List, [], ◌∷◌, ◌++◌, Bool, true, false, not, ◌&&◌, ◌||◌, Option, none, some,
  if◌then◌else◌, ltb, leb, ◌==◌, is_none, is_some, find_first, any, select, update_where, length,
  join,
}
use church_management.Runtime.{Runtime}
use church_management.Store.{Db}
use church_management.Store.People.{User, Session, LoginAttempt, ResourceId}
use church_management.Tx.{Error, Result, ok, err}
use church_management.Identity.{Actor, add_audit, audit_event}
use church_management.Identity.Password.{
  Platform, verify_password, hash_password, matching_totp_counter, token_hash,
}
use church_management.Identity.Login.{count_attempt, count_of, has_key}
use church_management.Identity.Session.{Request}

-- AuthController.logout
unfoldable pub logout : Platform → Request → Db → Result (Unit {0}) × Db
logout p r db = (
  ok tt,
  record db {
    sessions = select (λ s. not (str_eq s.token_hash (token_hash p r.token))) db.sessions;
  },
)

abbrev pub account_of : Actor → Db → Option User
account_of a db = find_first (λ u. u.id == a.user_id) db.users

abbrev pub end_sessions : ℕ → Db → Db
end_sessions user db = record db { sessions = select (λ s. not (s.user_id == user)) db.sessions }

abbrev pub note : Actor → String → Db → Db
note a action = add_audit (audit_event a action "user" (ResourceId.row a.user_id) [] "success")

abbrev pub with_password : String → User → User
with_password hash u = record u { password_hash = some hash; auth_version = u.auth_version + 1 }

abbrev pub set_password : ℕ → String → Db → Db
set_password user hash db = record db {
  users = update_where (λ u. u.id == user) (with_password hash) db.users;
}

-- AuthController.password, with the two passwords of the body
unfoldable pub change_password : Platform → Actor → String → String → Db → Result (Unit {0}) × Db
change_password p a current password db = elim (account_of a db) [
  | none ↦ (err Error.fault, db)
  | some u ↦
      if not (verify_password p current u.password_hash)
      then (err Error.invalid_credentials, db)
      else elim (hash_password p password) [
        | none ↦ (err Error.fault, db)
        | some hash ↦
            (ok tt, note a "password.change" (end_sessions u.id (set_password u.id hash db)))
      ]
]

abbrev pub is_late : Runtime → Actor → Bool
is_late rt a = elim a.authenticated_at [
  | none ↦ ltb 900000 rt.now
  | some t ↦ ltb (t + 900000) rt.now
]

abbrev pub may_enroll : ℕ → User → Bool
may_enroll user u = u.id == user && not u.totp_enabled

-- AuthController.enroll; `sealed` is the new secret as it is stored.
unfoldable pub enroll : Runtime → String → Actor → Db → Result (Unit {0}) × Db
enroll rt sealed a db =
    if is_late rt a then (err Error.reauthentication_required, db) else elim (account_of a db) [
      | none ↦ (err Error.fault, db)
      | some u ↦
          if u.totp_enabled || not (length (select (may_enroll u.id) db.users) == 1)
          then (err Error.mfa_already_enabled, db)
          else (
            ok tt,
            record db {
              users =
                  update_where (may_enroll u.id) (λ x. record x { totp_secret = some sealed })
                    db.users;
            },
          )
    ]

abbrev pub confirm_key : Platform → User → String
confirm_key p u = token_hash p (join "mfa-confirm:" (p.id_text u.id))

abbrev pub drop_expired_key : String → ℕ → Db → Db
drop_expired_key key now db = record db {
  login_attempts = select (λ x. not (has_key key x && ltb x.expires_at now)) db.login_attempts;
}

unfoldable pub confirm_counter : Platform → ℕ → String → User → Result (Option ℕ)
confirm_counter p now value u = elim u.totp_secret [
  | none ↦ ok none
  | some sealed ↦ elim (p.decrypt sealed) [
    | none ↦ err Error.fault
    | some secret ↦ ok (matching_totp_counter p now secret value)
  ]
]

abbrev pub with_factor : ℕ → User → User
with_factor counter u = record u {
  totp_enabled = true;
  totp_last_counter = some counter;
  auth_version = u.auth_version + 1;
}

abbrev pub same_text : Option String → Option String → Bool
same_text none none = true
same_text none (some t) = false
same_text (some s) none = false
same_text (some s) (some t) = str_eq s t

-- `{ id: user.id, totpEnabled: false, totpSecret: user.totpSecret }`
abbrev pub may_confirm : User → User → Bool
may_confirm user u = may_enroll user.id u && same_text u.totp_secret user.totp_secret

abbrev pub set_factor : User → ℕ → Db → Db
set_factor user counter db = record db {
  users = update_where (may_confirm user) (with_factor counter) db.users;
}

-- The end of AuthController.confirm, with the counter of the code.
unfoldable pub confirm_with : Actor → ℕ → User → Option ℕ → Db → Result (Unit {0}) × Db
confirm_with a attempts u counter db = elim counter [
  | none ↦ (err Error.mfa_invalid, db)
  | some c ↦
      if ltb 5 attempts || u.totp_enabled
      then (err Error.mfa_invalid, db)
      else (if length (select (may_confirm u) db.users) == 1
          then (ok tt, note a "mfa.enable" (end_sessions u.id (set_factor u c db)))
          else (err Error.mfa_registration_changed, db))
]

unfoldable pub confirm_user :
    Platform → Runtime → Actor → String → User → Db → Result (Unit {0}) × Db
unfolding confirm_counter confirm_with
confirm_user p rt a value u db =
    let key = confirm_key p u in
    let counted = count_attempt key rt.now (drop_expired_key key rt.now db) in
    elim (confirm_counter p rt.now value u) [
      | err e ↦ (err e, counted)
      | ok counter ↦ confirm_with a (count_of key counted) u counter counted
    ]

-- AuthController.confirm
unfoldable pub confirm : Platform → Runtime → Actor → String → Db → Result (Unit {0}) × Db
unfolding confirm_user
confirm p rt a value db = elim (account_of a db) [
  | none ↦ (err Error.fault, db)
  | some u ↦ confirm_user p rt a value u db
]
