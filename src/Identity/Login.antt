-- ===== src/Identity/Login.antt =====
-- identity/application/login.service.ts. A login is no transaction: what it has written stays when it
-- throws, and another login may run between its check of the credentials and its claim of the code.
pub mod Laws
pub mod Limit
pub mod Codes
use text.Mathlib.Text.{◌==◌ as str_eq}
use church_management.Base.{
  ℕ, is_empty, ◌+◌, String, List, [], ◌∷◌, ◌++◌, Bool, true, false, not, ◌&&◌, ◌||◌, Option, none,
  some, if◌then◌else◌, ltb, ◌==◌, find_first, any, select, update_where, length, trim, join,
}
use church_management.Runtime.{Runtime}
use church_management.Store.{Db}
use church_management.Store.People.{User, Session, LoginAttempt}
use church_management.Tx.{Error, Result, ok, err}
use church_management.Identity.Password.{
  Platform, verify_password, matching_totp_counter, token_hash, csrf_token,
}

pub record LoginDto : Type 0 where
  pub church_id : ℕ
  pub username : String
  pub password : String
  pub code : Option String

abbrev pub fifteen_minutes : ℕ
fifteen_minutes = 900000

abbrev pub twelve_hours : ℕ
twelve_hours = 43200000

abbrev pub drop_expired_attempts : ℕ → Db → Db
drop_expired_attempts now db = record db {
  login_attempts = select (λ x. not (ltb x.expires_at now)) db.login_attempts;
}

abbrev pub has_key : String → LoginAttempt → Bool
has_key key x = str_eq x.key key

-- `loginAttempt.upsert`
abbrev pub count_attempt : String → ℕ → Db → Db
count_attempt key now db = record db {
  login_attempts =
      if any (has_key key) db.login_attempts
      then update_where (has_key key) (λ x. record x { count = x.count + 1 }) db.login_attempts
      else db.login_attempts
        ++ record { key = key; count = 1; expires_at = now + fifteen_minutes } ∷ [];
}

abbrev pub count_of : String → Db → ℕ
count_of key db = elim (find_first (has_key key) db.login_attempts) [ none ↦ 0 | some x ↦ x.count ]

abbrev pub user_named : ℕ → String → Db → Option User
user_named c name db = find_first (λ u. u.church_id == c && str_eq u.username name) db.users

-- The counter of the code, where the user has a second factor and the client has sent a code.
unfoldable pub code_counter : Platform → ℕ → Option String → User → Result (Option ℕ)
code_counter p now sent u = if not u.totp_enabled then ok none else elim u.totp_secret [
  | none ↦ ok none
  | some sealed ↦ elim sent [
    | none ↦ ok none
    | some value ↦ if is_empty value then ok none else elim (p.decrypt sealed) [
      | none ↦ err Error.fault
      | some secret ↦ ok (matching_totp_counter p now secret value)
    ]
  ]
]

-- The counter is above the last one; the default of the column is below every counter.
abbrev pub is_newer : Option ℕ → Option ℕ → Bool
is_newer none last = false
is_newer (some c) none = true
is_newer (some c) (some last) = ltb last c

-- A login whose credentials have been accepted, before it claims its code.
pub record Ticket : Type 0 where
  pub user : User
  pub counter : Option ℕ
  pub key : String
  pub now : ℕ

unfoldable pub admit_user : Platform → ℕ → LoginDto → String → User → Result Ticket
unfolding code_counter
admit_user p now d key u = elim (code_counter p now d.code u) [
  | err e ↦ err e
  | ok counter ↦
      if not (verify_password p d.password u.password_hash)
        || not u.active
        || (u.totp_enabled && not (is_newer counter u.totp_last_counter))
      then err Error.invalid_credentials
      else ok (record { user = u; counter = counter; key = key; now = now })
]

abbrev pub attempt_key : Platform → LoginDto → String → String → String
attempt_key p d name ip =
    token_hash p (join (p.id_text d.church_id) (join ":" (join name (join ":" ip))))

abbrev pub login_name : Platform → LoginDto → String
login_name p d = p.lower (trim d.username)

-- LoginService.login up to the test of the credentials.
unfoldable pub login_check : Platform → Runtime → LoginDto → String → Db → Result Ticket × Db
unfolding admit_user
login_check p rt d ip db =
    let name = login_name p d in
    let key = attempt_key p d name ip in
    let counted = count_attempt key rt.now (drop_expired_attempts rt.now db) in
    if ltb 5 (count_of key counted)
    then (err Error.login_rate_limited, counted)
    else elim (user_named d.church_id name counted) [
      | none ↦ (err Error.invalid_credentials, counted)
      | some u ↦ (admit_user p rt.now d key u, counted)
    ]

abbrev pub may_claim : Ticket → User → Bool
may_claim t u = u.id == t.user.id && is_newer t.counter u.totp_last_counter

-- `user.updateMany({ where: { id, totpLastCounter: { lt: counter } }, … })`
abbrev pub claim_code : Ticket → Db → Db
claim_code t db = record db {
  users = update_where (may_claim t) (λ u. record u { totp_last_counter = t.counter }) db.users;
}

abbrev pub new_session : Platform → ℕ → User → Session
new_session p now u = record {
  auth_version = u.auth_version;
  token_hash = token_hash p p.random_token;
  church_id = u.church_id;
  user_id = u.id;
  created_at = now;
  last_seen_at = now;
  expires_at = now + twelve_hours;
  mfa_verified = u.totp_enabled;
}

-- The transaction at the end of a login.
abbrev pub open_session : Platform → ℕ → Ticket → Db → Db
open_session p now t db = record db {
  login_attempts = select (λ x. not (has_key t.key x)) db.login_attempts;
  sessions =
      select (λ s. not (ltb s.expires_at t.now)) db.sessions ++ new_session p now t.user ∷ [];
}

abbrev pub issued : Platform → String × String
issued p = (p.random_token, csrf_token p p.random_token)

-- LoginService.login from the claim of the code on.
unfoldable pub login_claim : Platform → Runtime → Ticket → Db → Result (String × String) × Db
login_claim p rt t db =
    if t.user.totp_enabled
    then (if length (select (may_claim t) db.users) == 1
        then (ok (issued p), open_session p rt.now t (claim_code t db))
        else (err Error.invalid_credentials, claim_code t db))
    else (ok (issued p), open_session p rt.now t db)

-- LoginService.login
unfoldable pub login : Platform → Runtime → LoginDto → String → Db → Result (String × String) × Db
unfolding login_check login_claim
login p rt d ip db =
    let (checked, db') = login_check p rt d ip db in
    elim checked [ err e ↦ (err e, db') | ok t ↦ login_claim p rt t db' ]
