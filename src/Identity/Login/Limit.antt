-- ===== src/Identity/Login/Limit.antt =====
-- identity/application/login.service.ts: the limit on attempts.
use church_management.Base.{
  ℕ, ◌+◌, ◌≤◌, ◌≡◌, ap, inl, inr, String, List, [], ◌∷◌, true, Option, none, some, if◌then◌else◌,
  ltb, find_first, any, update_where, Bool-cases, arith,
}
use church_management.Runtime.{Runtime}
use church_management.Store.{Db}
use church_management.Store.People.{LoginAttempt}
use church_management.Tx.{Error, Result, ok, err}
use church_management.Identity.Password.{Platform}
use church_management.Identity.Login.{
  LoginDto, drop_expired_attempts, has_key, count_attempt, count_of, user_named, Ticket, admit_user,
  attempt_key, login_name, login_check, login_claim, login,
}

-- The attempts of a key after one more.
count_raised :
    (key : String) (now : ℕ) (x : LoginAttempt) (xs : List LoginAttempt)
    → find_first (has_key key) xs ≡ some x
    → (any (has_key key) xs ≡ true)
      × (find_first
            (has_key key)
            (update_where (has_key key) (λ y. record y { count = y.count + 1 }) xs)
          ≡ some (record x { count = x.count + 1 }))
count_raised key now x [] h = cc
count_raised key now x (y ∷ xs) h = elim (Bool-cases (has_key key y)) [
  | inl e ↦ ground arith
  | inr e ↦ ground (arith, count_raised key now x xs (ground arith))
]

count_attempt-count_of :
    (key : String) (now : ℕ) (db : Db) (x : LoginAttempt)
    → find_first (has_key key) db.login_attempts ≡ some x
    → count_of key (count_attempt key now db) ≡ x.count + 1
count_attempt-count_of key now db x h =
    let (present, found) = count_raised key now x db.login_attempts h in
    rw present
      (ap (λ (o : Option LoginAttempt). elim o as (λ _. ℕ) [ none ↦ 0 | some y ↦ y.count ]) found)

above_limit : (n m : ℕ) → n ≡ m + 1 → 5 ≤ m → ltb 5 n ≡ true
above_limit n m h k = ground arith

-- While the counter of an address and a name holds five attempts that have not expired, every further login is
-- refused, also one with the right password.
pub login_limited :
    (p : Platform) (rt : Runtime) (d : LoginDto) (ip : String) (db : Db) (x : LoginAttempt)
    → find_first
        (has_key (attempt_key p d (login_name p d) ip))
        (drop_expired_attempts rt.now db).login_attempts
      ≡ some x
    → 5 ≤ x.count
    → (login p rt d ip db).0 ≡ err Error.login_rate_limited
unfolding login login_check
login_limited p rt d ip db x found full = ap (λ (r : Result Ticket × Db). (login_after r).0) over
  where
    key : String
    key = attempt_key p d (login_name p d) ip

    login_after : Result Ticket × Db → Result (String × String) × Db
    login_after r =
        let (checked, db') = r in
        elim checked [ err e ↦ (err e, db') | ok t ↦ login_claim p rt t db' ]

    counted : Db
    counted = count_attempt key rt.now (drop_expired_attempts rt.now db)

    sixth : ltb 5 (count_of key counted) ≡ true
    sixth =
        above_limit _ x.count
          (count_attempt-count_of key rt.now (drop_expired_attempts rt.now db) x found) full

    over : login_check p rt d ip db ≡ (err Error.login_rate_limited, counted)
    over =
        ap
          (λ b.
            if b
            then (err Error.login_rate_limited, counted)
            else elim (user_named d.church_id (login_name p d) counted)
                as (λ _. Result Ticket × Db) [
                  | none ↦ (err Error.invalid_credentials, counted)
                  | some u ↦ (admit_user p rt.now d key u, counted)
                ])
          sixth
