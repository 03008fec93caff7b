-- ===== src/Identity/Admin/Laws.antt =====
-- identity/interface/admin.controller.ts: nobody gives away more than he may, or changes his own roles.
use church_management.Base.{
  ℕ, String, ◌+◌, ◌≡◌, ◌≢◌, refl, sym, ap, List, [], ◌∷◌, ◌++◌, map, ◌&&◌, ◌∙◌, inl, inr,
  Bool-cases, Bool, true, false, not, ◌||◌, Option, none, some, if◌then◌else◌, ltb, ◌==◌, ==-self,
  eq_of_==, any, select, length, includes_text, All, All-append, All-any-false, All-weaken,
  ||-false, arith, update_where, ◌≤◌,
}
use church_management.Runtime.{Runtime}
use church_management.Store.{Db}
use church_management.Store.People.{User, Role}
use church_management.Tx.{Error, Result, ok, err, ◌>>◌, throw_if}
use church_management.Identity.{Actor, has, check}
use church_management.Identity.Admin.{
  grantable, is_full, scope_denied, logged_in_at, guarded_write, exceeds, roles_of, codes_of,
  set_roles, member_user, distinct_ids, audit_user, assign_in, assign,
}

true_of_not : (b : Bool) → not b ≡ false → b ≡ true
true_of_not b h = ground arith

-- What is known of a caller whose operation has run.
pub record Administers (rt : Runtime) (a : Actor) (c : ℕ) (db : Db) : Type 0 where
  pub member : a.church_id ≡ c
  pub permission : has a "identity.manage" ≡ true
  pub full : is_full a db ≡ true
  pub recent : rt.now ≤ logged_in_at a.authenticated_at + 900000

module _ {A : Type 0} (rt : Runtime) (a : Actor) (c : ℕ) (op : Db → Result A × Db) (db : Db) where
  passed :
      (full late : Bool) {x : A} {db' : Db}
      → ◌≡◌ {A = Result A × Db}
          (if not full
            then (err Error.denied, scope_denied a db)
            else if late
            then (err Error.reauthentication_required, db)
            else op db)
          (ok x, db')
      → (full ≡ true) × (late ≡ false) × (op db ≡ (ok x, db'))
  passed true true h = cc
  passed true false h = (refl, refl, h)
  passed false late h = cc

  allowed :
      {x : A} {db' : Db}
      → guarded_write rt a c op db ≡ (ok x, db')
      → (a.church_id ≡ c)
        × (has a "identity.manage" ≡ true)
        × ((if not (is_full a db)
              then (err Error.denied, scope_denied a db)
              else if ltb (logged_in_at a.authenticated_at + 900000) rt.now
              then (err Error.reauthentication_required, db)
              else op db)
            ≡ (ok x, db'))
  unfolding guarded_write check throw_if ◌>>◌
  allowed h = ground (arith, eq_of_== a.church_id c)

  guarded_write_ok :
      {x : A} {db' : Db}
      → guarded_write rt a c op db ≡ (ok x, db')
      → Administers rt a c db × (op db ≡ (ok x, db'))
  guarded_write_ok h =
      let (member, permission, rest) = allowed h in
      let (full, late, run) =
        passed (is_full a db) (ltb (logged_in_at a.authenticated_at + 900000) rt.now) rest in
      (record { member = member; permission = permission; full = full; recent = ground arith }, run)

-- The codes of roles that are within what the caller may grant.
codes_within :
    (a : Actor) (rs : List Role)
    → any (λ (r : Role). exceeds a r.permissions) rs ≡ false
    → All (λ x. includes_text (grantable a) x ≡ true) (codes_of rs)
codes_within a [] h = tt
codes_within a (r ∷ rs) h =
    let (here, rest) = ||-false (exceeds a r.permissions) _ h in
    All-append (λ x. includes_text (grantable a) x ≡ true) r.permissions (codes_of rs)
      (All-weaken (λ x k. true_of_not _ k) r.permissions
        (All-any-false (λ x. not (includes_text (grantable a) x)) r.permissions here))
      (codes_within a rs rest)

includes_text-append :
    (xs ys : List String) (x : String)
    → includes_text (xs ++ ys) x ≡ (includes_text xs x || includes_text ys x)
includes_text-append [] ys x = refl
includes_text-append (y ∷ xs) ys x = ground (arith, includes_text-append xs ys x)

-- A code is among those of the selected roles if some selected role grants it.
includes_text-codes_of :
    (p : Role → Bool) (x : String) (rs : List Role)
    → includes_text (codes_of (select p rs)) x
      ≡ any (λ (r : Role). p r && includes_text r.permissions x) rs
includes_text-codes_of p x [] = refl
includes_text-codes_of p x (r ∷ rs) = elim (Bool-cases (p r)) [
  | inl e ↦ rw e (
      includes_text-append r.permissions _ x
      ∙ ap (λ b. includes_text r.permissions x || b) (includes_text-codes_of p x rs))
  | inr e ↦ rw e (includes_text-codes_of p x rs)
]

-- What a change of roles that succeeds has found and written.
pub record Assigned (rt : Runtime) (a : Actor) (c id : ℕ) (ids : List ℕ) (active : Bool)
    (db db' : Db) : Type 0 where
  pub administers : Administers rt a c db
  pub other : id ≢ a.user_id
  pub user : User
  pub found : member_user c id db ≡ some user
  pub roles : List Role
  pub named : roles ≡ select (λ r. r.church_id == c && any (λ y. y == r.id) ids) db.roles
  pub complete : length roles ≡ distinct_ids [] ids
  pub codes : List String
  pub granted :
      (x : String)
      → includes_text codes x
        ≡ any
            (λ (r : Role).
              (r.church_id == c && any (λ y. y == r.id) ids) && includes_text r.permissions x)
            db.roles
  pub within : All (λ x. includes_text (grantable a) x ≡ true) codes
  pub users :
      db'.users
      ≡ update_where
          (λ u. u.id == id)
          (λ u. record u {
            active = active;
            auth_version = u.auth_version + 1;
            role_names = map (λ (r : Role). r.name) roles;
            permissions = codes;
          })
          db.users
  pub sessions : db'.sessions ≡ select (λ s. not (s.user_id == id)) db.sessions

equal_of_not : (v w : ℕ) → not (v == w) ≡ false → v ≡ w
equal_of_not v w h = ground arith

-- A change of roles that succeeds comes from another administrator of the church with the permission, the full
-- scope and a recent login. As many roles of the church have one of the ids named as there are distinct ids;
-- the user's codes are from then on exactly those that one of these roles grants, each of which the caller
-- may grant, with the active flag asked for and the next auth version; every other row is as it was, and every
-- session of the user has ended.
pub assign-Assigned :
    (rt : Runtime) (a : Actor) (c id : ℕ) (ids : List ℕ) (active : Bool) (db : Db) {db' : Db}
    → assign rt a c id ids active db ≡ (ok tt, db')
    → Assigned rt a c id ids active db db'
unfolding assign
assign-Assigned rt a c id ids active db {db'} h =
    let (admin, ran) = guarded_write_ok rt a c _ db h in go (id == a.user_id) admin refl ran
  where
    found_user :
        (bad_roles : Bool) (o : Option User)
        → Administers rt a c db
        → (id == a.user_id) ≡ false
        → (not (length (roles_of c ids db) == distinct_ids [] ids)
            || any (λ (r : Role). exceeds a r.permissions) (roles_of c ids db))
          ≡ bad_roles
        → member_user c id db ≡ o
        → ◌≡◌ {A = Result (Unit {0}) × Db}
            (if bad_roles then (err Error.bad, db) else elim o as (λ _. Result (Unit {0}) × Db) [
              | none ↦ (err Error.bad, db)
              | some u ↦ (
                ok tt,
                audit_user a "user.roles.change" "user" id
                    ("roles" ∷ "active" ∷ [])
                    (set_roles id active (roles_of c ids db) db),
              )
            ])
            (ok tt, db')
        → Assigned rt a c id ids active db db'
    found_user true o admin self good found h = cc
    found_user false none admin self good found h = cc
    found_user false (some u) admin self good found h =
        let (complete, within) =
          ||-false (not (length (roles_of c ids db) == distinct_ids [] ids)) _ good in
        let same = ap (λ (r : Result (Unit {0}) × Db). r.1) (sym h) in
        record {
          administers = admin;
          other = λ e. ground (arith, e, self, ==-self id);
          user = u;
          found = found;
          roles = roles_of c ids db;
          named = refl;
          complete = equal_of_not _ _ complete;
          codes = codes_of (roles_of c ids db);
          granted = λ x.
              includes_text-codes_of (λ r. r.church_id == c && any (λ y. y == r.id) ids) x db.roles;
          within = codes_within a (roles_of c ids db) within;
          users = ap (λ (x : Db). x.users) same;
          sessions = ap (λ (x : Db). x.sessions) same;
        }

    go :
        (self : Bool)
        → Administers rt a c db
        → (id == a.user_id) ≡ self
        → ◌≡◌ {A = Result (Unit {0}) × Db}
            (if self then (err Error.bad, db) else assign_in a c id ids active db)
            (ok tt, db')
        → Assigned rt a c id ids active db db'
    go true admin e h = cc
    go false admin e h = found_user _ _ admin e refl refl h
