-- ===== src/Examples/Login.antt =====
-- Runs of login.service.ts, session.adapter.ts and auth.controller.ts on a small platform.
use text.Mathlib.Text.{◌==◌ as str_eq}
use church_management.Base.{◌≡◌, ◌≢◌, refl, String, [], ◌∷◌, true, none, some, if◌then◌else◌, arith}
use church_management.Runtime.{Runtime}
use church_management.Store.{Db}
use church_management.Store.People.{User}
use church_management.Tx.{Error, ok, err}
use church_management.Identity.{Actor}
use church_management.Identity.Password.{
  Platform, split_dollar, hash_password, verify_password, totp, matching_totp_counter,
}
use church_management.Identity.Password.Laws.{verify_password-hash_password}
use church_management.Identity.Login.{
  LoginDto, Ticket, code_counter, admit_user, login_check, login_claim, login,
}
use church_management.Identity.Login.Limit.{login_limited}
use church_management.Identity.Login.Laws.{LoggedIn, login-LoggedIn}
use church_management.Identity.Login.Codes.{login_claim_once}
use church_management.Identity.Session.{Request, answer, answer_session, authenticate}
use church_management.Identity.Session.Laws.{Authenticated, authenticate-Authenticated}
use church_management.Identity.Account.{account_of, change_password}
use church_management.Identity.Account.Laws.{change_password-ends}
use church_management.Examples.Church.{run, rt, start}

abbrev random : String
random = "aaaaaaaaaaaaaaaaaaaaaaaaaaaaaaaaaaaaaaaaaaaaaaaaaaaaaaaaaaaaaaaa"

abbrev platform : Platform
platform = record {
  scrypt = λ password salt. if str_eq password "right password" then 42 ∷ [] else [];
  from_hex = λ s. if str_eq s "2a" then 42 ∷ [] else [];
  sha256 = λ s. s;
  hmac_sha256 = λ key s. key;
  hmac_sha1 = λ secret counter. 0 ∷ 0 ∷ 0 ∷ counter ∷ 0 ∷ [];
  decrypt = λ sealed. some "key";
  random_token = random;
  random_salt = "salt";
  to_hex = λ bytes. "2a";
  lower = λ s. s;
  id_text = λ n. "9";
}

-- What the runs unfold beside the operation itself.
logged : Unit {0}
unfolding run split_dollar verify_password hash_password totp matching_totp_counter code_counter
    admit_user login_check login_claim answer answer_session
logged = tt

abbrev credentials : LoginDto
credentials = record {
  church_id = 9;
  username = " kim ";
  password = "right password";
  code = some "000033";
}

login-LoggedIn_example :
    LoggedIn platform rt credentials "ip"
      (platform.random_token, platform.hmac_sha256 platform.random_token "church-csrf")
      start
      (login platform rt credentials "ip" start).1
unfolding logged login
login-LoggedIn_example = login-LoggedIn platform rt credentials "ip" start refl

-- The code of the time step was used before.
abbrev crowded : Db
crowded = record start {
  login_attempts = record { key = "9:kim:ip"; count = 5; expires_at = 1200000 } ∷ [];
}

login_limited_example :
    (login platform rt credentials "ip" crowded).0 ≡ err Error.login_rate_limited
unfolding logged
login_limited_example =
    login_limited platform rt credentials "ip" crowded
      (record { key = "9:kim:ip"; count = 5; expires_at = 1200000 }) refl (omega arith)

abbrev pub kim : User
kim = record {
  id = 2;
  church_id = 9;
  username = "kim";
  password_hash = some "scrypt$salt$2a";
  auth_version = 3;
  active = true;
  scope_mode = "ALL";
  totp_secret = some "sealed";
  totp_enabled = true;
  totp_last_counter = some 30;
  role_names = "elder" ∷ [];
  permissions = "expense.approve" ∷ [];
}

abbrev ticket : Ticket
ticket = record { user = kim; counter = some 33; key = "9:kim:ip"; now = 1000000 }

login_claim_once_example :
    (login_claim platform rt ticket (login_claim platform rt ticket start).1).0
    ≡ err Error.invalid_credentials
unfolding logged
login_claim_once_example =
    login_claim_once platform rt ticket start refl refl rt ticket refl refl refl

abbrev asked : Request
asked = record {
  method = "POST";
  token = random;
  csrf_header = some random;
  origin = some "https://church";
  id = none;
}

abbrev signed_in : Db
signed_in = record start {
  sessions =
      record {
        auth_version = 3;
        token_hash = random;
        church_id = 9;
        user_id = 2;
        created_at = 900000;
        last_seen_at = 950000;
        expires_at = 2000000;
        mfa_verified = true;
      }
      ∷ [];
}

abbrev signed_actor : Actor
signed_actor = record {
  authenticated_at = some 900000;
  mfa_verified = true;
  user_id = 2;
  church_id = 9;
  roles = "elder" ∷ [];
  permissions = "session.read" ∷ "expense.approve" ∷ [];
  correlation_id = "";
}

authenticate-Authenticated_example :
    Authenticated platform rt "https://church" asked signed_actor signed_in
unfolding logged authenticate
authenticate-Authenticated_example =
    authenticate-Authenticated platform rt "https://church" asked signed_in refl

abbrev changed : Db
changed = (change_password platform signed_actor "right password" "another password" signed_in).1

change_password-ends_example :
    ((u : User) × (account_of signed_actor signed_in ≡ some u)
      × (verify_password platform "right password" u.password_hash ≡ true))
    × ((later : Runtime) (base : String) (r : Request) (b : Actor) (db : Db)
        → authenticate platform later base r changed ≡ (ok (some b), db)
        → b.user_id ≢ signed_actor.user_id)
unfolding logged change_password
change_password-ends_example =
    change_password-ends platform signed_actor "right password" "another password" signed_in refl

verify_password-hash_password_example :
    verify_password platform "right password" (some "scrypt$salt$2a") ≡ true
unfolding logged
verify_password-hash_password_example =
    verify_password-hash_password platform "right password" "scrypt$salt$2a" refl refl refl refl
