-- ===== src/Identity/Login/Laws.antt =====
-- identity/application/login.service.ts: what a login has been accepted for.
use church_management.Base.{
  ℕ, ◌+◌, ◌≤◌, ◌≡◌, refl, sym, ap, ◌∙◌, ◌⊎◌, inl, inr, String, [], ◌∷◌, ◌++◌, Bool, true, false,
  not, ◌&&◌, ◌||◌, Option, none, some, if◌then◌else◌, ltb, select, arith, ||-false,
}
use church_management.Runtime.{Runtime}
use church_management.Store.{Db}
use church_management.Store.People.{User}
use church_management.Tx.{Error, Result, ok, err}
use church_management.Identity.Password.{Platform, verify_password}
use church_management.Identity.Login.{
  LoginDto, drop_expired_attempts, count_attempt, count_of, user_named, code_counter, is_newer,
  Ticket, admit_user, attempt_key, login_name, login_check, claim_code, new_session, login_claim,
  login,
}
use church_management.Identity.Login.Codes.{login_claim_ok, token_issued}

true_of_not : (b : Bool) → not b ≡ false → b ≡ true
true_of_not b h = ground arith

accepted :
    {A : Type 0} (e : Error) {x : A} (b : Bool) (y : A)
    → (if b then err e else ok y) ≡ ok x
    → (b ≡ false) × (x ≡ y)
accepted e true y h = cc
accepted e false y h = (refl, cc)

-- What a login that succeeds has found and written.
pub record LoggedIn (p : Platform) (rt : Runtime) (d : LoginDto) (ip : String) (x : String × String)
    (db db' : Db) : Type 0 where
  pub user : User
  pub found : user_named d.church_id (login_name p d) db ≡ some user
  pub in_limit :
      count_of (attempt_key p d (login_name p d) ip) (
        count_attempt
          (attempt_key p d (login_name p d) ip)
          rt.now
          (drop_expired_attempts rt.now db))
      ≤ 5
  pub active : user.active ≡ true
  pub password : verify_password p d.password user.password_hash ≡ true
  pub second_factor :
      (user.totp_enabled ≡ false)
      ⊎ ((c : ℕ) × (is_newer (some c) user.totp_last_counter ≡ true)
          × (code_counter p rt.now d.code user ≡ ok (some c)))
  pub session :
      db'.sessions
      ≡ select (λ s. not (ltb s.expires_at rt.now)) db.sessions
        ++ record {
          auth_version = user.auth_version;
          token_hash = p.sha256 x.0;
          church_id = user.church_id;
          user_id = user.id;
          created_at = rt.now;
          last_seen_at = rt.now;
          expires_at = rt.now + 43200000;
          mfa_verified = user.totp_enabled;
        }
          ∷ []
  pub token : x.0 ≡ p.random_token
  pub csrf : x.1 ≡ p.hmac_sha256 p.random_token "church-csrf"

admitted :
    (p : Platform) (now : ℕ) (d : LoginDto) (key : String) (u : User) (t : Ticket)
    → admit_user p now d key u ≡ ok t
    → (counter : Option ℕ) × (code_counter p now d.code u ≡ ok counter)
      × (verify_password p d.password u.password_hash ≡ true)
      × (u.active ≡ true)
      × ((u.totp_enabled && not (is_newer counter u.totp_last_counter)) ≡ false)
      × (t ≡ record { user = u; counter = counter; key = key; now = now })
unfolding admit_user
admitted p now d key u t h = go (code_counter p now d.code u) refl h
  where
    go :
        (x : Result (Option ℕ))
        → code_counter p now d.code u ≡ x
        → (elim x as (λ _. Result Ticket) [
          | err e ↦ err e
          | ok counter ↦
              if not (verify_password p d.password u.password_hash)
                || not u.active
                || (u.totp_enabled && not (is_newer counter u.totp_last_counter))
              then err Error.invalid_credentials
              else ok (record { user = u; counter = counter; key = key; now = now })
        ])
          ≡ ok t
        → (counter : Option ℕ) × (code_counter p now d.code u ≡ ok counter)
          × (verify_password p d.password u.password_hash ≡ true)
          × (u.active ≡ true)
          × ((u.totp_enabled && not (is_newer counter u.totp_last_counter)) ≡ false)
          × (t ≡ record { user = u; counter = counter; key = key; now = now })
    go (err e) eq h = cc
    go (ok counter) eq h =
        let (good, same) = accepted Error.invalid_credentials _ _ h in
        let (most, c) = ||-false _ _ good in
        let (a, b) = ||-false _ _ most in (counter, eq, true_of_not _ a, true_of_not _ b, c, same)

-- The credentials that a check has accepted.
login_check-admitted :
    (p : Platform) (rt : Runtime) (d : LoginDto) (ip : String) (db : Db) (t : Ticket) (db' : Db)
    → login_check p rt d ip db ≡ (ok t, db')
    → (user : User) × (user_named d.church_id (login_name p d) db ≡ some user)
      × (count_of (attempt_key p d (login_name p d) ip) (
            count_attempt
              (attempt_key p d (login_name p d) ip)
              rt.now
              (drop_expired_attempts rt.now db))
          ≤ 5)
      × (admit_user p rt.now d (attempt_key p d (login_name p d) ip) user ≡ ok t)
      × (db'.users ≡ db.users)
      × (db'.sessions ≡ db.sessions)
unfolding login_check
login_check-admitted p rt d ip db t db' h =
    go (ltb 5 (count_of key counted)) (user_named d.church_id (login_name p d) counted) refl refl h
  where
    key : String
    key = attempt_key p d (login_name p d) ip

    counted : Db
    counted = count_attempt key rt.now (drop_expired_attempts rt.now db)

    few : (n : ℕ) → ltb 5 n ≡ false → n ≤ 5
    few n h = ground arith

    go :
        (b : Bool) (o : Option User)
        → ltb 5 (count_of key counted) ≡ b
        → user_named d.church_id (login_name p d) counted ≡ o
        → (if b
            then (err Error.login_rate_limited, counted)
            else elim o as (λ _. Result Ticket × Db) [
              | none ↦ (err Error.invalid_credentials, counted)
              | some u ↦ (admit_user p rt.now d key u, counted)
            ])
          ≡ (ok t, db')
        → (user : User) × (user_named d.church_id (login_name p d) db ≡ some user)
          × (count_of key counted ≤ 5)
          × (admit_user p rt.now d key user ≡ ok t)
          × (db'.users ≡ db.users)
          × (db'.sessions ≡ db.sessions)
    go true o over found h = cc
    go false none over found h = cc
    go false (some u) over found h =
        let same : counted ≡ db' = ap (λ (r : Result Ticket × Db). r.1) h in
        (
          u,
          found,
          few _ over,
          ap (λ (r : Result Ticket × Db). r.0) h,
          ap (λ (x : Db). x.users) (sym same),
          ap (λ (x : Db). x.sessions) (sym same),
        )

second_factor_of :
    (enabled : Bool) (counter last : Option ℕ) (found : Result (Option ℕ))
    → found ≡ ok counter
    → (enabled && not (is_newer counter last)) ≡ false
    → (enabled ≡ false) ⊎ ((c : ℕ) × (is_newer (some c) last ≡ true) × (found ≡ ok (some c)))
second_factor_of false counter last found e h = inl refl
second_factor_of true none last found e h = cc
second_factor_of true (some c) last found e h = inr (c, true_of_not _ h, e)

kept_sessions :
    (b : Bool) (t : Ticket) (db : Db) → (if b then claim_code t db else db).sessions ≡ db.sessions
kept_sessions true t db = refl
kept_sessions false t db = refl

-- A login that succeeds is of an active user of the church with that name, within five attempts, with the
-- user's password and, where the user has a second factor, with a code whose counter is above the last one. It
-- removes the sessions that have ended and opens one of that user and church, at the user's auth version, that
-- ends after twelve hours, counts as a second factor only if the user has one, and is found by the hash of
-- the token that the caller gets.
pub login-LoggedIn :
    (p : Platform) (rt : Runtime) (d : LoginDto) (ip : String) (db : Db) {x : String × String}
    {db' : Db}
    → login p rt d ip db ≡ (ok x, db')
    → LoggedIn p rt d ip x db db'
unfolding login
login-LoggedIn p rt d ip db {x} {db'} h = go (login_check p rt d ip db) refl h
  where
    go :
        (r : Result Ticket × Db)
        → login_check p rt d ip db ≡ r
        → (elim r.0 as (λ _. Result (String × String) × Db) [
          | err e ↦ (err e, r.1)
          | ok t ↦ login_claim p rt t r.1
        ])
          ≡ (ok x, db')
        → LoggedIn p rt d ip x db db'
    go (err e, db₁) checked h = cc
    go (ok t, db₁) checked h =
        let (user, found, few, let_in, _, old) = login_check-admitted p rt d ip db t db₁ checked in
        let (counter, code, password, active, newer, same) = admitted p rt.now d _ user t let_in in
        let pair = token_issued p rt t db₁ h in
        record {
          user = user;
          found = found;
          in_limit = few;
          active = active;
          password = password;
          second_factor =
              second_factor_of user.totp_enabled counter user.totp_last_counter
                (code_counter p rt.now d.code user) code newer;
          session =
              ap (λ (y : Db). y.sessions) (login_claim_ok p rt t db₁ h)
              ∙ ap
                  (λ ss.
                    select (λ s. not (ltb s.expires_at t.now)) ss
                    ++ new_session p rt.now t.user ∷ [])
                  (kept_sessions t.user.totp_enabled t db₁ ∙ old)
              ∙ ap
                  (λ (y : Ticket).
                    select (λ s. not (ltb s.expires_at y.now)) db.sessions
                    ++ new_session p rt.now y.user ∷ [])
                  same
              ∙ ap
                  (λ (w : String).
                    select (λ s. not (ltb s.expires_at rt.now)) db.sessions
                    ++ record {
                      auth_version = user.auth_version;
                      token_hash = p.sha256 w;
                      church_id = user.church_id;
                      user_id = user.id;
                      created_at = rt.now;
                      last_seen_at = rt.now;
                      expires_at = rt.now + 43200000;
                      mfa_verified = user.totp_enabled;
                    }
                      ∷ [])
                  (sym (ap (λ (y : String × String). y.0) pair));
          token = ap (λ (y : String × String). y.0) pair;
          csrf = ap (λ (y : String × String). y.1) pair;
        }
