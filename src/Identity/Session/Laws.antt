-- ===== src/Identity/Session/Laws.antt =====
-- identity/infrastructure/session.adapter.ts: what a request has been given an actor for.
use text.Mathlib.Text.{◌==◌ as str_eq}
use church_management.Base.{
  ℕ, ◌+◌, ◌≡◌, refl, sym, ap, String, ◌∷◌, Bool, true, false, not, ◌&&◌, ◌||◌, Option, none, some,
  if◌then◌else◌, ltb, leb, ◌==◌, arith, eq_of_==, ◌≤◌, ◌<◌,
}
use church_management.Runtime.{Runtime}
use church_management.Store.{Db}
use church_management.Store.People.{User, Session}
use church_management.Tx.{Error, Result, ok, err}
use church_management.Identity.{Actor}
use church_management.Identity.Password.{Platform, token_hash, csrf_token, or_else}
use church_management.Identity.Session.{
  Request, is_token, session_of, user_of, is_stale, is_read_only, is_same_origin, touch_session,
  actor_of, answer, answer_session, authenticate,
}

-- What is known of a request that has been given an actor.
pub record Authenticated (p : Platform) (rt : Runtime) (base : String) (r : Request) (a : Actor)
    (db : Db) : Type 0 where
  pub session : Session
  pub user : User
  pub token : session_of (token_hash p r.token) db ≡ some session
  pub found : user_of session db ≡ some user
  pub active : user.active ≡ true
  pub same_version : session.auth_version ≡ user.auth_version
  pub not_expired : rt.now < session.expires_at
  pub recently_seen : rt.now ≤ session.last_seen_at + 1800000
  pub csrf :
      (is_read_only r.method || str_eq (or_else r.csrf_header "") (csrf_token p r.token)) ≡ true
  pub origin : (is_read_only r.method || is_same_origin base r) ≡ true
  pub user_id : a.user_id ≡ session.user_id
  pub permissions : a.permissions ≡ "session.read" ∷ user.permissions
  pub second_factor : a.mfa_verified ≡ session.mfa_verified
  pub since : a.authenticated_at ≡ some session.created_at

all_false :
    (a b c d : Bool)
    → (a || b || c || d) ≡ false
    → (a ≡ false) × (b ≡ false) × (c ≡ false) × (d ≡ false)
all_false a b c d h = (ground arith, ground arith, ground arith, ground arith)

true_of_not : (b : Bool) → not b ≡ false → b ≡ true
true_of_not b h = ground arith

fresh_facts :
    (now : ℕ) (s : Session) (u : User)
    → is_stale now s u ≡ false
    → (u.active ≡ true)
      × (s.auth_version ≡ u.auth_version)
      × (now < s.expires_at)
      × (now ≤ s.last_seen_at + 1800000)
fresh_facts now s u h =
    let (a, b, c, d) =
      all_false (not u.active) (not (s.auth_version == u.auth_version)) (leb s.expires_at now)
        (ltb (s.last_seen_at + 1800000) now) h in
    (true_of_not _ a, eq_of_== _ _ (true_of_not _ b), ground arith, ground arith)

-- A request is given an actor only where its cookie holds the token of a session of an active user that has
-- not expired, was used within thirty minutes and is of the user's present version of the credentials; and a
-- request that may write carries the token against forgery and comes from the application's own origin. The
-- actor has the user's permissions and the session's second factor.
pub authenticate-Authenticated :
    (p : Platform) (rt : Runtime) (base : String) (r : Request) (db : Db) {a : Actor} {db' : Db}
    → authenticate p rt base r db ≡ (ok (some a), db')
    → Authenticated p rt base r a db
unfolding authenticate
authenticate-Authenticated p rt base r db {a} {db'} h =
    by_token (is_token r.token) (session_of (token_hash p r.token) db) refl h
  where
    by_user :
        (s : Session) (stale bad_csrf bad_origin : Bool) (u : User)
        → session_of (token_hash p r.token) db ≡ some s
        → user_of s db ≡ some u
        → is_stale rt.now s u ≡ stale
        → (not (is_read_only r.method)
            && not (str_eq (or_else r.csrf_header "") (csrf_token p r.token)))
          ≡ bad_csrf
        → (not (is_read_only r.method) && not (is_same_origin base r)) ≡ bad_origin
        → ◌≡◌ {A = Result (Option Actor) × Db}
            (if stale
              then (ok none, db)
              else if bad_csrf
              then (err Error.csrf_invalid, db)
              else if bad_origin
              then (err Error.origin_denied, db)
              else (ok (some (actor_of s u r)), touch_session s.token_hash rt.now db))
            (ok (some a), db')
        → Authenticated p rt base r a db
    by_user s true b c u token found stale csrf origin h = cc
    by_user s false true c u token found stale csrf origin h = cc
    by_user s false false true u token found stale csrf origin h = cc
    by_user s false false false u token found stale csrf origin h =
        let (active, version, expiry, seen) = fresh_facts rt.now s u stale in
        let same : actor_of s u r ≡ a = cc in
        record {
          session = s;
          user = u;
          token = token;
          found = found;
          active = active;
          same_version = version;
          not_expired = expiry;
          recently_seen = seen;
          csrf = ground arith;
          origin = ground arith;
          user_id = ap (λ (x : Actor). x.user_id) (sym same);
          permissions = ap (λ (x : Actor). x.permissions) (sym same);
          second_factor = ap (λ (x : Actor). x.mfa_verified) (sym same);
          since = ap (λ (x : Actor). x.authenticated_at) (sym same);
        }

    by_session :
        (s : Session) (o : Option User)
        → session_of (token_hash p r.token) db ≡ some s
        → user_of s db ≡ o
        → ◌≡◌ {A = Result (Option Actor) × Db}
            (elim o as (λ _. Result (Option Actor) × Db) [
              | none ↦ (err Error.fault, db)
              | some u ↦ if is_stale rt.now s u then (ok none, db) else answer p rt base r s u db
            ])
            (ok (some a), db')
        → Authenticated p rt base r a db
    by_session s none token found h = cc
    by_session s (some u) token found h = by_user s _ _ _ u token found refl refl refl h

    by_token :
        (b : Bool) (o : Option Session)
        → session_of (token_hash p r.token) db ≡ o
        → ◌≡◌ {A = Result (Option Actor) × Db}
            (if not b then (ok none, db) else elim o as (λ _. Result (Option Actor) × Db) [
              | none ↦ (ok none, db)
              | some s ↦ answer_session p rt base r s db
            ])
            (ok (some a), db')
        → Authenticated p rt base r a db
    by_token false o token h = cc
    by_token true none token h = cc
    by_token true (some s) token h = by_session s (user_of s db) token refl h
