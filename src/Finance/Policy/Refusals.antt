-- ===== src/Finance/Policy/Refusals.antt =====
-- finance-policy.service.ts (write): what a refused call throws, and what it leaves behind.
use church_management.Base.{
  ℕ, ◌<◌, ◌+◌, ◌≡◌, ◌≢◌, refl, sym, subst, ap, ◌∙◌, ◌⊎◌, inl, inr, String, [], ◌∷◌, ◌++◌, Bool,
  true, false, not, ◌&&◌, arith, eq_of_==, ◌==◌, if◌then◌else◌, Bool-cases,
}
use church_management.Runtime.{Runtime}
use church_management.Store.{Db}
use church_management.Store.People.{ResourceId}
use church_management.Tx.{Error, Result, ok, err, Tx, throw_if, ◌>>◌}
use church_management.Identity.{Actor, has, check}
use church_management.Finance.Policy.{is_recent, authenticated_or_zero, is_denial, transact, write}
use church_management.Finance.Policy.Laws.{denial}

-- The exceptions of HTTP status 403 and 404.
abbrev pub IsDenial : Error → Type 0
IsDenial e =
    (e ≡ Error.denied)
    ⊎ (e ≡ Error.missing)
    ⊎ (e ≡ Error.church_scope_violation)
    ⊎ (e ≡ Error.permission_denied)
    ⊎ (e ≡ Error.mfa_required)

is_denial-IsDenial : (e : Error) → is_denial e ≡ true → IsDenial e
is_denial-IsDenial e h = ground arith

not-IsDenial : (e : Error) → is_denial e ≡ false → ¬ IsDenial e
not-IsDenial e h k = ground (arith, k)

-- What a refused call has thrown and left: the three ways in which `write` ends without a value.
pub record Refused {A : Type 0} (rt : Runtime) (a : Actor) (c : ℕ) (p : String) (fn : Tx A)
    (recent : Bool) (db : Db) (e : Error) (db' : Db) : Type 0 where
  pub reason :
      ((a.church_id ≢ c) × (e ≡ Error.church_scope_violation) × (db' ≡ db))
      ⊎ ((a.church_id ≡ c) × (has a p ≡ false) × (e ≡ Error.permission_denied) × (db' ≡ db))
      ⊎ ((a.church_id ≡ c)
          × (has a p ≡ true)
          × (recent ≡ true)
          × (authenticated_or_zero a.authenticated_at + 900000 < rt.now)
          × (e ≡ Error.reauthentication_required)
          × (db' ≡ db))
      ⊎ ((a.church_id ≡ c)
          × (has a p ≡ true)
          × (fn db ≡ err e)
          × ((IsDenial e
                × (db' ≡ record db {
                  audit_events =
                      db.audit_events
                      ++ record {
                        church_id = a.church_id;
                        actor_id = a.user_id;
                        roles = a.roles;
                        action = "finance.denied";
                        resource_type = "finance";
                        resource_id = ResourceId.restricted;
                        fields = [];
                        outcome = "denied";
                        correlation_id = a.correlation_id;
                      }
                        ∷ [];
                }))
              ⊎ ((¬ IsDenial e) × (db' ≡ db))))

err_of : {A : Type 0} {e f : Error} → ◌≡◌ {A = Result A} (err e) (err f) → e ≡ f
err_of h = cc

ends :
    {A : Type 0} {e f : Error} {db db' : Db}
    → ◌≡◌ {A = Result A × Db} (err e, db) (err f, db')
    → (e ≡ f) × (db ≡ db')
ends h = (err_of (ap (λ (r : Result _ × Db). r.0) h), ap (λ (r : Result _ × Db). r.1) h)

other_of : {v w : ℕ} → (v == w) ≡ false → v ≢ w
other_of h e = ground (arith, e, h)

module _ {A : Type 0} (rt : Runtime) (a : Actor) (c : ℕ) (p : String) (fn : Tx A) (recent : Bool)
    (db : Db) where
  other_church :
      (a.church_id == c) ≡ false
      → write rt a c p fn recent db ≡ (err Error.church_scope_violation, db)
  unfolding write check throw_if ◌>>◌
  other_church h = ground (arith, h)

  no_permission :
      (a.church_id == c) ≡ true
      → has a p ≡ false
      → write rt a c p fn recent db ≡ (err Error.permission_denied, db)
  unfolding write check throw_if ◌>>◌
  no_permission h k = ground (arith, h, k)

  old_login :
      (a.church_id == c) ≡ true
      → has a p ≡ true
      → (recent && not (is_recent rt a)) ≡ true
      → write rt a c p fn recent db ≡ (err Error.reauthentication_required, db)
  unfolding write check throw_if ◌>>◌
  old_login h k l = ground (arith, h, k, l)

  runs :
      (a.church_id == c) ≡ true
      → has a p ≡ true
      → (recent && not (is_recent rt a)) ≡ false
      → write rt a c p fn recent db ≡ transact a fn db
  unfolding write check throw_if ◌>>◌
  runs h k l = ground (arith, h, k, l)

  late_facts :
      (recent && not (is_recent rt a)) ≡ true
      → (recent ≡ true) × (authenticated_or_zero a.authenticated_at + 900000 < rt.now)
  unfolding is_recent
  late_facts h = (ground arith, ground arith)

  left_by :
      {e : Error} {db' : Db}
      → transact a fn db ≡ (err e, db')
      → (fn db ≡ err e) × ((IsDenial e × (db' ≡ denial a db)) ⊎ ((¬ IsDenial e) × (db' ≡ db)))
  unfolding transact
  left_by {e} {db'} h = go (fn db) refl h
    where
      go :
          (r : Result (A × Db))
          → fn db ≡ r
          → (elim r as (λ _. Result A × Db) [
            | ok (x, d) ↦ (ok x, d)
            | err y ↦ (err y, if is_denial y then denial a db else db)
          ])
            ≡ (err e, db')
          → (fn db ≡ err e) × ((IsDenial e × (db' ≡ denial a db)) ⊎ ((¬ IsDenial e) × (db' ≡ db)))
      go (ok (x, d)) ran h = cc
      go (err y) ran h =
          let same : y ≡ e = err_of (ap (λ (r : Result A × Db). r.0) h) in
          let left = sym (ap (λ (r : Result A × Db). r.1) h) in
          elim (Bool-cases (is_denial y)) [
            | inl k ↦ (
              ran ∙ ap err same,
              inl (subst IsDenial same (is_denial-IsDenial y k), left ∙ (rw k refl)),
            )
            | inr k ↦ (
              ran ∙ ap err same,
              inr (subst (λ w. ¬ IsDenial w) same (not-IsDenial y k), left ∙ (rw k refl)),
            )
          ]

  allowed_left :
      (m g late : Bool) {e : Error} {db' : Db}
      → (a.church_id == c) ≡ m
      → has a p ≡ g
      → (recent && not (is_recent rt a)) ≡ late
      → write rt a c p fn recent db ≡ (err e, db')
      → Refused rt a c p fn recent db e db'
  allowed_left false g late m g' l h =
      let (e, left) = ends (sym (other_church m) ∙ h) in
      record { reason = inl (other_of m, sym e, sym left) }
  allowed_left true false late m g l h =
      let (e, left) = ends (sym (no_permission m g) ∙ h) in
      record { reason = inr (inl (eq_of_== _ _ m, g, sym e, sym left)) }
  allowed_left true true true m g l h =
      let (e, left) = ends (sym (old_login m g l) ∙ h) in
      let (asked, old) = late_facts l in
      record { reason = inr (inr (inl (eq_of_== _ _ m, g, asked, old, sym e, sym left))) }
  allowed_left true true false m g l h =
      let (failed, left) = left_by (sym (runs m g l) ∙ h) in
      record { reason = inr (inr (inr (eq_of_== _ _ m, g, failed, left))) }

  -- A call that is refused comes from another church, or without the permission, or too long after the
  -- login where a recent one is asked for, and has then changed nothing; or the operation has thrown that
  -- error. Then nothing that the operation has written is kept, and one audit event of the caller is added
  -- exactly if the error is one of the five that deny access or find nothing.
  pub write-Refused :
      {e : Error} {db' : Db}
      → write rt a c p fn recent db ≡ (err e, db')
      → Refused rt a c p fn recent db e db'
  write-Refused h = allowed_left _ _ _ refl refl refl h
