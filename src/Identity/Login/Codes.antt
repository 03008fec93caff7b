-- ===== src/Identity/Login/Codes.antt =====
-- identity/application/login.service.ts: a one-time code is used once, in whatever order two logins run.
use church_management.Base.{
  ℕ, ◌≡◌, refl, sym, ap, ◌∙◌, inl, inr, String, List, [], ◌∷◌, Bool, true, false, ◌&&◌, Option,
  none, some, if◌then◌else◌, ◌==◌, select, update_where, length, Bool-cases, arith,
}
use church_management.Runtime.{Runtime}
use church_management.Store.{Db}
use church_management.Store.People.{User}
use church_management.Tx.{Error, Result, ok, err}
use church_management.Identity.Password.{Platform}
use church_management.Identity.Login.{
  is_newer, Ticket, may_claim, claim_code, open_session, issued, login_claim,
}

and_false : (b c : Bool) → c ≡ false → (b && c) ≡ false
and_false b c h = ground arith

is_newer_self : (c : Option ℕ) → is_newer c c ≡ false
is_newer_self none = refl
is_newer_self (some c) = ground arith

spent :
    (t t' : Ticket) (u : User)
    → t'.user.id ≡ t.user.id
    → t'.counter ≡ t.counter
    → may_claim t' (if may_claim t u then record u { totp_last_counter = t.counter } else u) ≡ false
spent t t' u same again = elim (Bool-cases (may_claim t u)) [
  | inl e ↦ rw (e, again) (and_false (u.id == t'.user.id) _ (is_newer_self t.counter))
  | inr e ↦ rw e (rw (same, again) e)
]

-- No row that had the code or an earlier one accepts the code again.
claimed_once :
    (t t' : Ticket) (us : List User)
    → t'.user.id ≡ t.user.id
    → t'.counter ≡ t.counter
    → select
        (may_claim t')
        (update_where (may_claim t) (λ u. record u { totp_last_counter = t.counter }) us)
      ≡ []
claimed_once t t' [] same again = refl
claimed_once t t' (u ∷ us) same again =
    rw (spent t t' u same again) (claimed_once t t' us same again)

one_of : (n : ℕ) → n ≡ 0 → (n == 1) ≡ false
one_of n h = ground arith

-- The end of a login, by the two tests of the code.
abbrev outcome : Platform → Runtime → Ticket → Db → Bool → Bool → Result (String × String) × Db
outcome p rt t db enabled one =
    if enabled
    then (if one
        then (ok (issued p), open_session p rt.now t (claim_code t db))
        else (err Error.invalid_credentials, claim_code t db))
    else (ok (issued p), open_session p rt.now t db)

-- The state after a claim that succeeds.
pub login_claim_ok :
    (p : Platform) (rt : Runtime) (t : Ticket) (db : Db) {x : String × String} {db' : Db}
    → login_claim p rt t db ≡ (ok x, db')
    → db' ≡ open_session p rt.now t (if t.user.totp_enabled then claim_code t db else db)
unfolding login_claim
login_claim_ok p rt t db {x} {db'} h =
    go t.user.totp_enabled (length (select (may_claim t) db.users) == 1) h
  where
    go :
        (enabled one : Bool)
        → outcome p rt t db enabled one ≡ (ok x, db')
        → db' ≡ open_session p rt.now t (if enabled then claim_code t db else db)
    go true true h = ap (λ (r : Result (String × String) × Db). r.1) (sym h)
    go true false h = cc
    go false one h = ap (λ (r : Result (String × String) × Db). r.1) (sym h)

claim_issued :
    {A : Type 0} {x : A} {db' : Db} (y : A) (e : Error) (db₁ db₂ db₃ : Db) (b c : Bool)
    → ◌≡◌ {A = Result A × Db}
        (if b then (if c then (ok y, db₁) else (err e, db₂)) else (ok y, db₃))
        (ok x, db')
    → x ≡ y
claim_issued y e db₁ db₂ db₃ true true h = cc
claim_issued y e db₁ db₂ db₃ true false h = cc
claim_issued y e db₁ db₂ db₃ false c h = cc

-- The two tokens that a claim that succeeds hands out.
pub token_issued :
    (p : Platform) (rt : Runtime) (t : Ticket) (db : Db) {x : String × String} {db' : Db}
    → login_claim p rt t db ≡ (ok x, db')
    → x ≡ (p.random_token, p.hmac_sha256 p.random_token "church-csrf")
unfolding login_claim
token_issued p rt t db h = claim_issued _ _ _ _ _ _ _ h

none_to_claim :
    (p : Platform) (rt : Runtime) (t : Ticket) (db : Db)
    → t.user.totp_enabled ≡ true
    → select (may_claim t) db.users ≡ []
    → (login_claim p rt t db).0 ≡ err Error.invalid_credentials
unfolding login_claim
none_to_claim p rt t db on none_left =
    let not_one : (length (select (may_claim t) db.users) == 1) ≡ false =
      one_of _ (ap length none_left) in
    rw (on, not_one) refl

-- After a login has claimed a code, every other login of that user with a code of the same time step is
-- refused, also one whose credentials had been checked before.
pub login_claim_once :
    (p : Platform) (rt : Runtime) (t : Ticket) (db : Db) {x : String × String} {db' : Db}
    → t.user.totp_enabled ≡ true
    → login_claim p rt t db ≡ (ok x, db')
    → (later : Runtime) (t' : Ticket) → t'.user.totp_enabled ≡ true
    → t'.user.id ≡ t.user.id
    → t'.counter ≡ t.counter
    → (login_claim p later t' db').0 ≡ err Error.invalid_credentials
login_claim_once p rt t db {db'} on done later t' on' same again =
    none_to_claim p later t' db' on' (
      ap (λ (y : Db). select (may_claim t') y.users) (login_claim_ok p rt t db done)
      ∙ ap (λ b. select (may_claim t') (if b then claim_code t db else db).users) on
      ∙ claimed_once t t' db.users same again)
