-- ===== src/Identity/Session.antt =====
-- identity/infrastructure/session.adapter.ts: who a request comes from.
pub mod Laws
use text.Mathlib.Text.{◌==◌ as str_eq}
use Prim.Native.Char.{Char, code}
use church_management.Base.{
  ℕ, ◌+◌, ◌≡◌, refl, sym, ap, String, List, [], ◌∷◌, Bool, true, false, not, ◌&&◌, ◌||◌, Option,
  none, some, if◌then◌else◌, ltb, leb, ◌==◌, find_first, update_where, arith, ||-false, &&-true,
  eq_of_==, find_first-accepts, Option-cases, inl, inr, ◌≤◌, ◌<◌, includes_text,
}
use church_management.Runtime.{Runtime}
use church_management.Store.{Db}
use church_management.Store.People.{User, Session}
use church_management.Tx.{Error, Result, ok, err}
use church_management.Identity.{Actor}
use church_management.Identity.Password.{Platform, token_hash, csrf_token, char_count, or_else}

-- What the adapter reads of a request; `token` is the value of the cookie `church_session`.
pub record Request : Type 0 where
  pub method : String
  pub token : String
  pub csrf_header : Option String
  pub origin : Option String
  pub id : Option String

abbrev pub is_hex : String → Bool
is_hex String.[] = true
is_hex (String.◌∷◌ c s) =
    ((leb 97 (code c) && leb (code c) 102) || (leb 48 (code c) && leb (code c) 57)) && is_hex s

-- `/^[a-f0-9]{64}$/`
abbrev pub is_token : String → Bool
is_token s = char_count s == 64 && is_hex s

abbrev pub session_of : String → Db → Option Session
session_of hash db = find_first (λ s. str_eq s.token_hash hash) db.sessions

abbrev pub user_of : Session → Db → Option User
user_of s db = find_first (λ u. u.church_id == s.church_id && u.id == s.user_id) db.users

-- The tests of a session and its user, joined by `||` in the source.
abbrev pub is_stale : ℕ → Session → User → Bool
is_stale now s u =
    not u.active
    || not (s.auth_version == u.auth_version)
    || leb s.expires_at now
    || ltb (s.last_seen_at + 1800000) now

abbrev pub is_read_only : String → Bool
is_read_only method = includes_text ("GET" ∷ "HEAD" ∷ "OPTIONS" ∷ []) method

abbrev pub is_same_origin : String → Request → Bool
is_same_origin expected r = elim r.origin [ none ↦ false | some o ↦ str_eq o expected ]

abbrev pub touch_session : String → ℕ → Db → Db
touch_session hash now db = record db {
  sessions =
      update_where (λ s. str_eq s.token_hash hash) (λ s. record s { last_seen_at = now })
        db.sessions;
}

abbrev pub actor_of : Session → User → Request → Actor
actor_of s u r = record {
  user_id = s.user_id;
  church_id = s.church_id;
  roles = u.role_names;
  permissions = "session.read" ∷ u.permissions;
  correlation_id = or_else r.id "";
  authenticated_at = some s.created_at;
  mfa_verified = s.mfa_verified;
}

-- The tests of a request that may write, and the answer; `base` is `APP_BASE_URL`.
unfoldable pub answer :
    Platform → Runtime → String → Request → Session → User → Db → Result (Option Actor) × Db
answer p rt base r s u db =
    if not (is_read_only r.method) && not (str_eq (or_else r.csrf_header "") (csrf_token p r.token))
    then (err Error.csrf_invalid, db)
    else if not (is_read_only r.method) && not (is_same_origin base r)
    then (err Error.origin_denied, db)
    else (ok (some (actor_of s u r)), touch_session s.token_hash rt.now db)

unfoldable pub answer_session :
    Platform → Runtime → String → Request → Session → Db → Result (Option Actor) × Db
unfolding answer
answer_session p rt base r s db = elim (user_of s db) [
  | none ↦ (err Error.fault, db)
  | some u ↦ if is_stale rt.now s u then (ok none, db) else answer p rt base r s u db
]

-- SessionAdapter.authenticate
unfoldable pub authenticate :
    Platform → Runtime → String → Request → Db → Result (Option Actor) × Db
unfolding answer_session
authenticate p rt base r db =
    if not (is_token r.token) then (ok none, db) else elim (session_of (token_hash p r.token) db) [
      | none ↦ (ok none, db)
      | some s ↦ answer_session p rt base r s db
    ]
