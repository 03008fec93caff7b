-- ===== src/Identity/Account/Laws.antt =====
-- identity/interface/auth.controller.ts: after the password has changed, or the second factor has been enabled,
-- no session from before gives an actor.
use church_management.Base.{
  ℕ, ◌≡◌, ◌≢◌, eq_of_==, refl, sym, ap, subst, String, List, [], ◌∷◌, Bool, true, false, not,
  Option, none, some, if◌then◌else◌, ◌==◌, ==-self, select, find_first-accepts, Bool-cases, inl,
  inr, arith, All, All-find_first,
}
use church_management.Runtime.{Runtime}
use church_management.Store.{Db}
use church_management.Store.People.{User, Session}
use church_management.Tx.{Error, Result, ok, err}
use church_management.Identity.{Actor}
use church_management.Identity.Password.{Platform, verify_password, hash_password}
use church_management.Identity.Session.{Request, authenticate}
use church_management.Identity.Session.Laws.{authenticate-Authenticated}
use church_management.Identity.Account.{
  account_of, end_sessions, note, set_password, change_password,
}

-- No session of a user is left.
abbrev pub NoSession : ℕ → Db → Type 0
NoSession user db = All (λ (s : Session). (s.user_id == user) ≡ false) db.sessions

select-All :
    (user : ℕ) (ss : List Session)
    → All (λ (s : Session). (s.user_id == user) ≡ false) (select (λ s. not (s.user_id == user)) ss)
select-All user [] = tt
select-All user (s ∷ ss) = elim (Bool-cases (s.user_id == user)) [
  | inl e ↦ rw e (select-All user ss)
  | inr e ↦ rw e (e, select-All user ss)
]

account_of-id : (a : Actor) (db : Db) (u : User) → account_of a db ≡ some u → u.id ≡ a.user_id
account_of-id a db u h =
    eq_of_== _ _ (find_first-accepts (λ (x : User). x.id == a.user_id) db.users h)

true_of_not : (b : Bool) → not b ≡ false → b ≡ true
true_of_not b h = ground arith

change_password_ok :
    (p : Platform) (a : Actor) (current password : String) (db : Db) {db' : Db}
    → change_password p a current password db ≡ (ok tt, db')
    → (u : User) × (hash : String) × (account_of a db ≡ some u)
      × (verify_password p current u.password_hash ≡ true)
      × (hash_password p password ≡ some hash)
      × (db' ≡ note a "password.change" (end_sessions u.id (set_password u.id hash db)))
unfolding change_password
change_password_ok p a current password db {db'} h = go (account_of a db) refl h
  where
    Found : Type 0
    Found =
        (u : User) × (hash : String) × (account_of a db ≡ some u)
        × (verify_password p current u.password_hash ≡ true)
        × (hash_password p password ≡ some hash)
        × (db' ≡ note a "password.change" (end_sessions u.id (set_password u.id hash db)))

    with_tests :
        (u : User) (wrong : Bool) (o : Option String)
        → account_of a db ≡ some u
        → not (verify_password p current u.password_hash) ≡ wrong
        → hash_password p password ≡ o
        → ◌≡◌ {A = Result (Unit {0}) × Db}
            (if wrong
              then (err Error.invalid_credentials, db)
              else elim o as (λ _. Result (Unit {0}) × Db) [
                | none ↦ (err Error.fault, db)
                | some hash ↦ (
                  ok tt,
                  note a "password.change" (end_sessions u.id (set_password u.id hash db)),
                )
              ])
            (ok tt, db')
        → Found
    with_tests u true o found wrong made h = cc
    with_tests u false none found wrong made h = cc
    with_tests u false (some hash) found wrong made h = (
      u,
      hash,
      found,
      true_of_not _ wrong,
      made,
      ap (λ (r : Result (Unit {0}) × Db). r.1) (sym h),
    )

    go :
        (o : Option User)
        → account_of a db ≡ o
        → ◌≡◌ {A = Result (Unit {0}) × Db}
            (elim o as (λ _. Result (Unit {0}) × Db) [
              | none ↦ (err Error.fault, db)
              | some u ↦
                  if not (verify_password p current u.password_hash)
                  then (err Error.invalid_credentials, db)
                  else elim (hash_password p password) [
                    | none ↦ (err Error.fault, db)
                    | some hash ↦ (
                      ok tt,
                      note a "password.change" (end_sessions u.id (set_password u.id hash db)),
                    )
                  ]
            ])
            (ok tt, db')
        → Found
    go none found h = cc
    go (some u) found h = with_tests u _ _ found refl refl h

-- Where no session of a user is left, no request is given that user.
no_actor :
    (p : Platform) (user : ℕ) (db : Db)
    → NoSession user db
    → (later : Runtime) (base : String) (r : Request) (b : Actor) (db' : Db)
    → authenticate p later base r db ≡ (ok (some b), db')
    → b.user_id ≢ user
no_actor p user db none_left later base r b db' known same =
    let x = authenticate-Authenticated p later base r db known in
    let gone : (x.session.user_id == user) ≡ false =
      All-find_first (λ (s : Session). (s.user_id == user) ≡ false) _ db.sessions none_left
        x.token in
    ground (arith, gone, x.user_id, ==-self user)

-- A change of the password that succeeds has been asked for with the present password, and ends every session
-- of the user: on the state that it leaves, no request is given this user.
pub change_password-ends :
    (p : Platform) (a : Actor) (current password : String) (db : Db) {db' : Db}
    → change_password p a current password db ≡ (ok tt, db')
    → ((u : User) × (account_of a db ≡ some u) × (verify_password p current u.password_hash ≡ true))
      × ((later : Runtime) (base : String) (r : Request) (b : Actor) (db'' : Db)
          → authenticate p later base r db' ≡ (ok (some b), db'')
          → b.user_id ≢ a.user_id)
change_password-ends p a current password db {db'} h =
    let (u, hash, found, verified, made, same) = change_password_ok p a current password db h in
    let gone : NoSession a.user_id db' = subst (NoSession a.user_id) (sym same) (
      subst
        (λ n.
          All (λ (s : Session). (s.user_id == n) ≡ false)
            (select (λ (s : Session). not (s.user_id == u.id)) db.sessions))
        (account_of-id a db u found) (select-All u.id db.sessions)) in
    ((u, found, verified), no_actor p a.user_id db' gone)
