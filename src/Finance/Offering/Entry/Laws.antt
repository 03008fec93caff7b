-- ===== src/Finance/Offering/Entry/Laws.antt =====
-- offering.service.ts (create, update, review, cancel): each operation inverted.
use church_management.Base.{
  ℕ, ◌≡◌, sym, String, join, [], Bool, true, false, not, ◌||◌, Option, none, some, ◌==◌,
  find_first-accepts, &&-true, eq_of_==, arith,
}
use church_management.Runtime.{Runtime}
use church_management.Store.{Db}
use church_management.Store.People.{AuditEvent, ResourceId}
use church_management.Store.Giving.{Offering, draft, offering_state_eq}
use church_management.Tx.{ok, Tx, pure, modify, ◌>>=◌, ◌>>◌}
use church_management.Tx.Laws.{
  bind_ok, read_ok, find_row_ok, throw_if_ok, throw_if_found_ok, modify_ok, pure_ok, pure_then,
  bind-pure,
}
use church_management.Identity.{Actor, add_audit, audit_event, record_audit}
use church_management.Finance.Policy.Laws.{open_period_ok, account_ok, date_ok}
use church_management.Finance.Offering.{
  OfferingDto, validate, event, new_offering_event, add_offering_event, offering_of, get, get_any,
  replace,
}
use church_management.Finance.Offering.Entry.{
  new_offering, add_offering, create_tx, is_open, edited, update_tx, reviewed_row, review_tx,
  cancelled_row, cancel_tx,
}

equal_of_not : (v w : ℕ) → not (v == w) ≡ false → v ≡ w
equal_of_not v w h = ground arith

true_of_not : (b : Bool) → not b ≡ false → b ≡ true
true_of_not b h = ground arith

-- The row that is found has the id that was asked for.
pub offering_of-id : (c id : ℕ) (db : Db) {r : Offering} → offering_of c id db ≡ some r → r.id ≡ id
offering_of-id c id db h = eq_of_== _ _ (&&-true _ _ (find_first-accepts _ db.offerings h)).1

module _ {B : Type 0} (db : Db) {r : B × Db} where
  pub get_any_ok :
      (c id : ℕ) (f : Offering → Tx B)
      → (get_any c id >>= f) db ≡ ok r
      → (row : Offering) × (offering_of c id db ≡ some row) × (f row db ≡ ok r)
  unfolding get_any
  get_any_ok c id f h = find_row_ok _ _ _ h

  pub get_ok :
      (c id v : ℕ) (f : Offering → Tx B)
      → (get c id v >>= f) db ≡ ok r
      → (row : Offering) × (offering_of c id db ≡ some row) × (row.version ≡ v) × (f row db ≡ ok r)
  unfolding get get_any
  get_ok c id v f h =
      let (_, _, e, k) = bind_ok (get c id v) f h in
      let (row, found, e₁) = find_row_ok _ _ _ e in
      let (current, e₂) = throw_if_ok _ _ _ e₁ in
      (row, found, equal_of_not _ _ current, pure_then f e₂ k)

  pub event_ok :
      (a : Actor) (row : Offering) (action reason : String) (k : Tx B)
      → (event a row action reason >> k) db ≡ ok r
      → (e : AuditEvent) × (k
            (add_audit e (add_offering_event (new_offering_event a row action reason) db))
          ≡ ok r)
  unfolding event record_audit modify ◌>>◌
  event_ok a row action reason k h =
      (audit_event a (join "offering." action) "offering" (ResourceId.row row.id) [] "success", h)

pub validate_reads :
    (db : Db) (rt : Runtime) (c : ℕ) (d : OfferingDto) (except : Option ℕ) (day : ℕ) (db' : Db)
    → validate rt c d except db ≡ ok (day, db')
    → db ≡ db'
unfolding validate
validate_reads db rt c d except day db' h =
    let (_, _, _, _, e₁) = open_period_ok db rt c _ _ h in
    let (_, e₂) = account_ok db _ _ _ _ e₁ in
    let (_, e₃) = throw_if_found_ok _ _ _ e₂ in
    let (_, e₄) = throw_if_found_ok _ _ _ e₃ in
    let (_, e₅) = throw_if_found_ok _ _ _ e₄ in
    let (_, _, _, e₆) = date_ok db rt d.given_on pure (bind-pure _ e₅) in (pure_ok e₆).1

-- The validation of the data changes nothing.
validate_ok :
    {B : Type 0} (db : Db) {r : B × Db} (rt : Runtime) (c : ℕ) (d : OfferingDto) (except : Option ℕ)
    (f : ℕ → Tx B)
    → (validate rt c d except >>= f) db ≡ ok r
    → (day : ℕ) × (f day db ≡ ok r)
validate_ok db rt c d except f h =
    let (day, _, k) = read_ok (validate rt c d except) f (validate_reads db rt c d except) h in
    (day, k)

-- What an operation that changes one offering has found and written.
pub record Changed (c id : ℕ) (f : Offering → Offering) (db db' : Db) : Type 0 where
  pub row : Offering
  pub found : offering_of c id db ≡ some row
  pub event : AuditEvent
  pub what : String
  pub why : String
  pub by : Actor
  pub written :
      db'
      ≡ add_audit event
          (add_offering_event (new_offering_event by (f row) what why) (replace id f db))

module _ (db : Db) (rt : Runtime) (a : Actor) (c : ℕ) where
  pub create_tx_ok :
      (d : OfferingDto) {x : ℕ} {db' : Db}
      → create_tx rt a c d db ≡ ok (x, db')
      → (day : ℕ) × (e : AuditEvent) × (db'
          ≡ add_audit e (
              add_offering_event
                (new_offering_event a (new_offering rt a c d day) "create" "")
                (add_offering (new_offering rt a c d day) db)))
  unfolding create_tx
  create_tx_ok d h =
      let (day, e₁) = validate_ok db rt c d none _ h in
      let (e, e₂) = event_ok _ a (new_offering rt a c d day) "create" "" _ (modify_ok _ _ e₁) in
      (day, e, sym (pure_ok e₂).1)

  pub update_tx_ok :
      (id v : ℕ) (d : OfferingDto) {x : Unit {0}} {db' : Db}
      → update_tx rt a c id v d db ≡ ok (x, db')
      → (day : ℕ) × (changed : Changed c id (edited a d day) db db') × (is_open changed.row ≡ true)
  unfolding update_tx
  update_tx_ok id v d h =
      let (row, found, _, e₁) = get_ok db c id v _ h in
      let (still_open, e₂) = throw_if_ok _ _ _ e₁ in
      let (day, e₃) = validate_ok db rt c d (some id) _ e₂ in
      let (e, e₄) = event_ok _ a (edited a d day row) "update" "" _ (modify_ok _ _ e₃) in
      (
        day,
        record {
          row = row;
          found = found;
          event = e;
          what = "update";
          why = "";
          by = a;
          written = sym (pure_ok e₄).1;
        },
        true_of_not _ still_open,
      )

  pub review_tx_ok :
      (id v : ℕ) {x : Unit {0}} {db' : Db}
      → review_tx a c id v db ≡ ok (x, db')
      → (changed : Changed c id (reviewed_row a) db db') × (offering_state_eq changed.row.state
            draft
          ≡ true)
        × ((changed.row.created_by == a.user_id || changed.row.edited_by == a.user_id) ≡ false)
  unfolding review_tx
  review_tx_ok id v h =
      let (row, found, _, e₁) = get_ok db c id v _ h in
      let (state, e₂) = throw_if_ok _ _ _ e₁ in
      let (other, e₃) = throw_if_ok _ _ _ e₂ in
      let (e, e₄) = event_ok _ a (reviewed_row a row) "review" "" _ (modify_ok _ _ e₃) in
      (
        record {
          row = row;
          found = found;
          event = e;
          what = "review";
          why = "";
          by = a;
          written = sym (pure_ok e₄).1;
        },
        true_of_not _ state,
        other,
      )

  pub cancel_tx_ok :
      (id v : ℕ) (reason : String) {x : Unit {0}} {db' : Db}
      → cancel_tx a c id v reason db ≡ ok (x, db')
      → (changed : Changed c id cancelled_row db db') × (is_open changed.row ≡ true)
  unfolding cancel_tx
  cancel_tx_ok id v reason h =
      let (row, found, _, e₁) = get_ok db c id v _ h in
      let (still_open, e₂) = throw_if_ok _ _ _ e₁ in
      let (e, e₃) = event_ok _ a (cancelled_row row) "cancel" reason _ (modify_ok _ _ e₂) in
      (
        record {
          row = row;
          found = found;
          event = e;
          what = "cancel";
          why = reason;
          by = a;
          written = sym (pure_ok e₃).1;
        },
        true_of_not _ still_open,
      )
