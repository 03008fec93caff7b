-- ===== src/Identity/Guard.antt =====
-- identity/interface/access.guard.ts: the guard in front of every route. The route's declaration and the
-- caller that the authentication adapter has found are arguments.
use Prim.Native.Char.{code}
use church_management.Base.{
  ℕ, ◌⊎◌, inl, inr, All, ||-false, ◌≡◌, refl, sym, subst, String, List, [], ◌∷◌, Bool, true, false,
  not, ◌&&◌, ◌||◌, Option, none, some, ◌==◌, if◌then◌else◌, eq_of_==,
}
use church_management.Store.{Db}
use church_management.Store.People.{ResourceId}
use church_management.Tx.{Error, Result, ok, err, throw_if, ◌>>◌}
use church_management.Identity.{Actor, has, check, add_audit, audit_event}

-- `process.env`: NODE_ENV is production, and AUTH_ADAPTER is test-header.
pub record Env : Type 0 where
  pub production : Bool
  pub test_header : Bool

-- The decorators of the handler, and what the request names.
pub record Route : Type 0 where
  pub is_public : Bool
  pub permission : Option String
  pub path : String
  pub route_path : Option String
  pub church_id : Option ℕ

-- `s.startsWith(prefix)`
abbrev pub starts_with : String → String → Bool
starts_with s String.[] = true
starts_with String.[] (String.◌∷◌ d t) = false
starts_with (String.◌∷◌ c s) (String.◌∷◌ d t) = code c == code d && starts_with s t

-- The permissions whose holders must have logged in with a second factor.
abbrev pub guarded_permissions : List String
guarded_permissions =
    "identity.manage" ∷ "finance.manage" ∷ "expense.approve" ∷ "expense.pay" ∷ "finance.close"
    ∷ "finance.export" ∷ "budget.write" ∷ "budget.approve" ∷ "finance.reverse" ∷ "offering.review"
    ∷ "offering.post" ∷ "offering.reverse" ∷ "receipt.issue" ∷ "receipt.print" ∷ "receipt.cancel"
    ∷ "receipt.export" ∷ "receipt.reconcile" ∷ []

abbrev pub has_any : Actor → List String → Bool
has_any a [] = false
has_any a (p ∷ ps) = has a p || has_any a ps

abbrev pub lacks_mfa : Env → Route → Actor → Bool
lacks_mfa env r a =
    env.production
    && has_any a guarded_permissions
    && not a.mfa_verified
    && not (starts_with r.path "/api/v1/auth/")

abbrev pub church_asked : Route → Actor → ℕ
church_asked r a = elim r.church_id [ none ↦ a.church_id | some c ↦ c ]

abbrev pub route_name : Route → String
route_name r = elim r.route_path [ none ↦ "unknown" | some p ↦ p ]

-- The event of a denied call, unless the test adapter is used.
abbrev pub note_denial : Env → Route → Actor → Db → Db
note_denial env r a db =
    if env.test_header
    then db
    else add_audit
        (audit_event a "permission.denied" "route" (ResourceId.text (route_name r)) [] "denied") db

-- The last part of `canActivate`: AccessService.require and the event of its denial.
unfoldable pub require : Env → Route → Actor → String → Db → Result (Option Actor) × Db
unfolding check
require env r a p db = elim (check a (church_asked r a) p db) [
  | ok _ ↦ (ok (some a), db)
  | err e ↦ (err e, note_denial env r a db)
]

unfoldable pub admit : Env → Route → Actor → Db → Result (Option Actor) × Db
unfolding require
admit env r a db = if lacks_mfa env r a then (err Error.mfa_required, db) else elim r.permission [
  | none ↦ (err Error.permission_denied, db)
  | some p ↦ require env r a p db
]

-- AccessGuard.canActivate; on success, the actor that the request carries from then on.
unfoldable pub can_activate : Env → Route → Option Actor → Db → Result (Option Actor) × Db
unfolding admit
can_activate env r who db =
    if r.is_public
    then (ok none, db)
    else elim who [ none ↦ (err Error.unauthenticated, db) | some a ↦ admit env r a db ]

-- What is known of a caller whom the guard has let pass.
pub record Admitted (env : Env) (r : Route) (who : Option Actor) (x : Option Actor) : Type 0 where
  pub actor : Actor
  pub permission : String
  pub authenticated : who ≡ some actor
  pub carried : x ≡ some actor
  pub asked : r.permission ≡ some permission
  pub granted : has actor permission ≡ true
  pub member : actor.church_id ≡ church_asked r actor
  pub second_factor :
      (env.production ≡ false)
      ⊎ (starts_with r.path "/api/v1/auth/" ≡ true)
      ⊎ (actor.mfa_verified ≡ true)
      ⊎ All
          (λ p. has actor p ≡ false)
          ("identity.manage" ∷ "finance.manage" ∷ "expense.approve" ∷ "expense.pay"
            ∷ "finance.close" ∷ "finance.export" ∷ "budget.write" ∷ "budget.approve"
            ∷ "finance.reverse" ∷ "offering.review" ∷ "offering.post" ∷ "offering.reverse"
            ∷ "receipt.issue" ∷ "receipt.print" ∷ "receipt.cancel" ∷ "receipt.export"
            ∷ "receipt.reconcile" ∷ [])

has_any-none : (a : Actor) (ps : List String) → has_any a ps ≡ false → All (λ p. has a p ≡ false) ps
has_any-none a [] h = tt
has_any-none a (p ∷ ps) h =
    let (here, rest) = ||-false (has a p) _ h in (here, has_any-none a ps rest)

factor_cases :
    (live any mfa auth : Bool)
    → (live && any && not mfa && not auth) ≡ false
    → (live ≡ false) ⊎ (auth ≡ true) ⊎ (mfa ≡ true) ⊎ (any ≡ false)
factor_cases false any mfa auth h = inl refl
factor_cases true any mfa true h = inr (inl refl)
factor_cases true any true false h = inr (inr (inl refl))
factor_cases true false false false h = inr (inr (inr refl))
factor_cases true true false false h = cc

second_factor_of :
    (env : Env) (r : Route) (a : Actor)
    → lacks_mfa env r a ≡ false
    → (env.production ≡ false)
      ⊎ (starts_with r.path "/api/v1/auth/" ≡ true)
      ⊎ (a.mfa_verified ≡ true)
      ⊎ All (λ p. has a p ≡ false) guarded_permissions
second_factor_of env r a h = elim (factor_cases _ _ _ _ h) [
  | inl e ↦ inl e
  | inr (inl e) ↦ inr (inl e)
  | inr (inr (inl e)) ↦ inr (inr (inl e))
  | inr (inr (inr e)) ↦ inr (inr (inr (has_any-none a guarded_permissions e)))
]

require_ok :
    (env : Env) (r : Route) (a : Actor) (p : String) (db : Db) {x : Option Actor} {db' : Db}
    → require env r a p db ≡ (Result.ok x, db')
    → (a.church_id ≡ church_asked r a) × (has a p ≡ true) × (x ≡ some a) × (db' ≡ db)
unfolding require throw_if ◌>>◌
require_ok env r a p db {x} {db'} h = go (a.church_id == church_asked r a) (has a p) refl h
  where
    go :
        (m g : Bool)
        → (a.church_id == church_asked r a) ≡ m
        → (elim (elim (throw_if (not m) Error.church_scope_violation db)
              as (λ _. Result (Unit {0} × Db)) [
                | ok (_, d) ↦ throw_if (not g) Error.permission_denied d
                | err e ↦ err e
              ])
            as (λ _. Result (Option Actor) × Db) [
              | ok _ ↦ (ok (some a), db)
              | err e ↦ (err e, note_denial env r a db)
            ])
          ≡ (Result.ok x, db')
        → (a.church_id ≡ church_asked r a) × (g ≡ true) × (x ≡ some a) × (db' ≡ db)
    go true true e h = (eq_of_== _ _ e, refl, cc, cc)
    go true false e h = cc
    go false g e h = cc

admit_ok :
    (db : Db) {x : Option Actor} {db' : Db} (m : Bool) (o : Option String)
    (k : String → Result (Option Actor) × Db)
    → (if m then (err Error.mfa_required, db) else elim o as (λ _. Result (Option Actor) × Db) [
      | none ↦ (err Error.permission_denied, db)
      | some p ↦ k p
    ])
      ≡ (Result.ok x, db')
    → (m ≡ false) × (p : String) × (o ≡ some p) × (k p ≡ (Result.ok x, db'))
admit_ok db true o k h = cc
admit_ok db false none k h = cc
admit_ok db false (some p) k h = (refl, p, refl, h)

admit-Admitted :
    (env : Env) (r : Route) (a : Actor) (db : Db) {x : Option Actor} {db' : Db}
    → admit env r a db ≡ (Result.ok x, db')
    → Admitted env r (some a) x × (db' ≡ db)
unfolding admit
admit-Admitted env r a db h =
    let (mfa, p, asked, k) =
      admit_ok db (lacks_mfa env r a) r.permission (λ q. require env r a q db) h in
    let (member, granted, carried, same) = require_ok env r a p db k in
    (
      record {
        actor = a;
        permission = p;
        authenticated = refl;
        carried = carried;
        asked = asked;
        granted = granted;
        member = member;
        second_factor = second_factor_of env r a mfa;
      },
      same,
    )

private_ok :
    (db : Db) {x : Option Actor} {db' : Db} (m : Bool) (who : Option Actor)
    (k : Actor → Result (Option Actor) × Db)
    → m ≡ false
    → (if m then (ok none, db) else elim who as (λ _. Result (Option Actor) × Db) [
      | none ↦ (err Error.unauthenticated, db)
      | some a ↦ k a
    ])
      ≡ (Result.ok x, db')
    → (a : Actor) × (who ≡ some a) × (k a ≡ (Result.ok x, db'))
private_ok db true who k e h = cc
private_ok db false none k e h = cc
private_ok db false (some a) k e h = (a, refl, h)

-- Whoever passes the guard of a route that is not public is authenticated, holds the permission that the
-- route declares and belongs to the church that the request names. In production, outside the paths under
-- /api/v1/auth/, he has a second factor or holds none of the seventeen permissions that ask for one. The call
-- changes nothing. A route without a permission lets nobody pass.
pub can_activate-Admitted :
    (env : Env) (r : Route) (who : Option Actor) (db : Db) {x : Option Actor} {db' : Db}
    → r.is_public ≡ false
    → can_activate env r who db ≡ (Result.ok x, db')
    → Admitted env r who x × (db' ≡ db)
unfolding can_activate
can_activate-Admitted env r who db {x} guarded h =
    let (a, found, k) = private_ok db r.is_public who (λ b. admit env r b db) guarded h in
    let (admitted, same) = admit-Admitted env r a db k in
    (subst (λ w. Admitted env r w x) (sym found) admitted, same)
