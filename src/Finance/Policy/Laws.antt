-- ===== src/Finance/Policy/Laws.antt =====
-- finance-policy.service.ts and finance/domain/policy.ts: what a call that goes through `write` has
-- been authorised for, what a refused call leaves behind, and what an approval line is.
use church_management.Base.{
  ℕ, ◌≤◌, ◌≡◌, refl, ◌⊎◌, inl, inr, String, [], Bool, true, false, not, ◌&&◌, none, some,
  find_first, any, arith, eq_of_==, eq_iff, ◌==◌,
}
use church_management.Runtime.{Runtime}
use church_management.Store.{Db}
use church_management.Store.People.{ResourceId}
use church_management.Store.Books.{AccountKind, FinancePeriod}
use church_management.Tx.{Error, Result, ok, err, Tx, throw_if, throw_if_found, ◌>>=◌, ◌>>◌}
use church_management.Tx.Laws.{bind_ok, throw_if_ok, or_throw_ok, find_row_ok, pure_then}
use church_management.Identity.{Actor, has, check, add_audit, audit_event}
use church_management.Finance.Policy.{
  is_recent, write, after_check, date, open_period, covers, account_of, account,
}

-- The event that a denied call leaves.
abbrev pub denial : Actor → Db → Db
denial a = add_audit (audit_event a "finance.denied" "finance" ResourceId.restricted [] "denied")

module _ {A : Type 0} (rt : Runtime) (a : Actor) (c : ℕ) (p : String) (fn : Tx A)
    (recent : Bool) where
  -- A call that ends with a value comes from a member of the church who holds the permission and, if
  -- that is asked for, has logged in within fifteen minutes; its state is the transaction's.
  pub write_ok :
      (db : Db) {x : A} {db' : Db}
      → write rt a c p fn recent db ≡ (ok x, db')
      → (a.church_id ≡ c)
        × (has a p ≡ true)
        × ((recent && not (is_recent rt a)) ≡ false)
        × (fn db ≡ ok (x, db'))
  unfolding write throw_if ◌>>◌
  write_ok db h = ground (arith, eq_of_== a.church_id c)

  -- A call that is refused leaves the database as it was, but for the audit event of a denial.
  pub write_err :
      (db : Db) {e : Error} {db' : Db}
      → write rt a c p fn recent db ≡ (err e, db')
      → (db' ≡ db) ⊎ (db' ≡ denial a db)
  unfolding write throw_if ◌>>◌
  write_err db h = ground arith

  -- Without the permission a call changes nothing.
  pub write_refused :
      (db : Db) → (a.church_id == c && has a p) ≡ false → (write rt a c p fn recent db).1 ≡ db
  unfolding write check throw_if ◌>>◌
  write_refused db h = ground arith

  -- The tables that the audit trail is not part of are kept by every refusal.
  pub write_keeps {ℓ} :
      (P : Db → Type ℓ) (db : Db)
      → ((d : Db) → P d → P (denial a d))
      → ((x : A) (d : Db) → fn db ≡ ok (x, d) → P d)
      → P db
      → P (write rt a c p fn recent db).1
  write_keeps P db audited keep h = go (write rt a c p fn recent db) refl
    where
      go : (r : Result A × Db) → write rt a c p fn recent db ≡ r → P r.1
      go (ok x, d) e = keep x d (write_ok db e).3
      go (err x, d) e = elim (write_err db e) [
        | inl same ↦ rw same h
        | inr noted ↦ rw noted (audited db h)
      ]

module _ {A : Type 0} (a : Actor) (c : ℕ) (p : String) (op : Db → Result A × Db) (db : Db) where
  pub after_check_ok :
      {x : A} {db' : Db} → after_check a c p op db ≡ (ok x, db') → op db ≡ (ok x, db')
  unfolding after_check throw_if ◌>>◌
  after_check_ok h = ground arith

  after_check_runs : ((after_check a c p op db).1 ≡ db) ⊎ (after_check a c p op db ≡ op db)
  unfolding after_check throw_if ◌>>◌
  after_check_runs = ground arith

  pub after_check_keeps {ℓ} : (P : Db → Type ℓ) → P db → P (op db).1 → P (after_check a c p op db).1
  after_check_keeps P h k = elim after_check_runs [ inl e ↦ rw e h | inr e ↦ rw e k ]

module _ {B : Type 0} (db : Db) {r : B × Db} where
  pub date_ok :
      (rt : Runtime) (s : String) (f : ℕ → Tx B)
      → (date rt s >>= f) db ≡ ok r
      → (d : ℕ) × (rt.parse_date s ≡ some d) × (rt.iso_date d ≡ s) × (f d db ≡ ok r)
  unfolding date
  date_ok rt s f h =
      let (d, db', e, k) = bind_ok (date rt s) f h in
      let (d', parsed, e') = or_throw_ok _ _ _ e in
      let (kept, e'') = throw_if_ok _ _ _ e' in
      (d', parsed, (eq_iff _ _).0 (ground arith), pure_then f e'' k)

  pub account_ok :
      (c id : ℕ) (kind : AccountKind) (k : Tx B)
      → (account c id kind >> k) db ≡ ok r
      → (any (account_of c id kind) db.accounts ≡ true) × (k db ≡ ok r)
  unfolding account ◌>>◌ throw_if_found throw_if
  account_ok c id kind k h = ground arith

module _ {B : Type 0} (db : Db) {r : B × Db} where
  pub open_period_ok :
      (rt : Runtime) (c : ℕ) (s : String) (f : FinancePeriod × ℕ → Tx B)
      → (open_period rt c s >>= f) db ≡ ok r
      → (p : FinancePeriod) × (d : ℕ) × (rt.parse_date s ≡ some d)
        × (find_first (covers c d) db.periods ≡ some p)
        × (f (p, d) db ≡ ok r)
  unfolding open_period
  open_period_ok rt c s f h =
      let (pd, db', e, k) = bind_ok (open_period rt c s) f h in
      let (d, parsed, _, e') = date_ok db rt s _ e in
      let (church, _, e'') = find_row_ok _ _ _ e' in
      let (_, e₃) = throw_if_ok _ _ _ e'' in
      let (p, found, e₄) = find_row_ok _ _ _ e₃ in (p, d, parsed, found, pure_then f e₄ k)

-- The period that is found is open, belongs to the church and holds the day.
pub covers_facts :
    (c d : ℕ) (p : FinancePeriod)
    → covers c d p ≡ true
    → (p.church_id ≡ c) × (p.closed_at ≡ none) × (p.starts_on ≤ d) × (d ≤ p.ends_on)
covers_facts c d p h = ground arith
