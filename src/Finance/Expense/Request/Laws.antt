-- ===== src/Finance/Expense/Request/Laws.antt =====
-- expense.service.ts: the shared checks, inverted for the proofs of the operations.
use church_management.Base.{
  ℕ, ◌≡◌, String, join, List, [], ◌∷◌, Bool, true, false, not, some, ◌==◌, find_first-accepts,
  select, length, arith, eq_of_==, &&-true,
}
use church_management.Store.{Db}
use church_management.Store.People.{User, AuditEvent, ResourceId}
use church_management.Store.Spending.{ExpenseRequest}
use church_management.Tx.{ok, Tx, modify, throw_if, ◌>>=◌, ◌>>◌}
use church_management.Tx.Laws.{
  bind_ok, then_read_ok, find_row_ok, throw_if_ok, throw_if_found_ok, gets_ok, pure_ok, pure_then,
}
use church_management.Identity.{Actor, add_audit, audit_event, record_audit}
use church_management.Finance.Policy.{valid_approval_line}
use church_management.Finance.Policy.Laws.{account_ok}
use church_management.Finance.Expense.Request.{
  ExpenseDto, visible, visible_row, get, check_version, own, is_editable, editable, is_approver,
  approvers, check_line, check_data, new_event, add_event, event,
}

equal_of_not : (v w : ℕ) → not (v == w) ≡ false → v ≡ w
equal_of_not v w h = ground arith

true_of_not : (b : Bool) → not b ≡ false → b ≡ true
true_of_not b h = ground arith

module _ {B : Type 0} (db : Db) {r : B × Db} where
  pub check_version_ok :
      (row : ExpenseRequest) (v : ℕ) (k : Tx B)
      → (check_version row v >> k) db ≡ ok r
      → (row.version ≡ v) × (k db ≡ ok r)
  unfolding check_version
  check_version_ok row v k h = let (e, h') = throw_if_ok _ _ k h in (equal_of_not _ _ e, h')

  pub own_ok :
      (a : Actor) (row : ExpenseRequest) (v : ℕ) (k : Tx B)
      → (own a row v >> k) db ≡ ok r
      → (row.requester_id ≡ a.user_id) × (row.version ≡ v) × (k db ≡ ok r)
  unfolding own check_version throw_if ◌>>◌
  own_ok a row v k h =
      ground (arith, equal_of_not row.requester_id a.user_id, equal_of_not row.version v)

  pub editable_ok :
      (row : ExpenseRequest) (k : Tx B)
      → (editable row >> k) db ≡ ok r
      → (is_editable row.state ≡ true) × (k db ≡ ok r)
  unfolding editable
  editable_ok row k h = let (e, h') = throw_if_ok _ _ k h in (true_of_not _ e, h')

  pub get_ok :
      (a : Actor) (id : ℕ) (f : ExpenseRequest → Tx B)
      → (get a id >>= f) db ≡ ok r
      → (row : ExpenseRequest) × (visible_row a id db ≡ some row) × (f row db ≡ ok r)
  unfolding get
  get_ok a id f h = find_row_ok _ _ _ h

  pub approvers_ok :
      (c : ℕ) (ids : List ℕ) (requester : ℕ) (f : List User → Tx B)
      → (approvers c ids requester >>= f) db ≡ ok r
      → (valid_approval_line ids requester ≡ true)
        × (length (select (is_approver c ids) db.users) ≡ length ids)
        × (f (select (is_approver c ids) db.users) db ≡ ok r)
  unfolding approvers
  approvers_ok c ids requester f h =
      let (users, _, e, k) = bind_ok (approvers c ids requester) f h in
      let (valid, e₁) = throw_if_ok _ _ _ e in
      let (count, e₂) = throw_if_ok _ _ _ (gets_ok _ _ e₁) in
      (true_of_not _ valid, equal_of_not _ _ count, pure_then f e₂ k)

  pub event_ok :
      (a : Actor) (row : ExpenseRequest) (action reason : String) (k : Tx B)
      → (event a row action reason >> k) db ≡ ok r
      → (e : AuditEvent) × (k (add_audit e (add_event (new_event a row action reason) db)) ≡ ok r)
  unfolding event record_audit modify ◌>>◌
  event_ok a row action reason k h =
      (audit_event a (join "expense." action) "expense" (ResourceId.row row.id) [] "success", h)

-- The row that is found has the id that was asked for, and the caller may see it.
pub visible_row-facts :
    (a : Actor) (id : ℕ) (db : Db) (row : ExpenseRequest)
    → visible_row a id db ≡ some row
    → (visible a db row ≡ true) × (row.id ≡ id)
visible_row-facts a id db row h =
    let (seen, same) = &&-true _ _ (find_first-accepts _ db.expenses h) in (seen, eq_of_== _ _ same)

check_line_reads :
    (db : Db) (c : ℕ) (ids : List ℕ) (requester : ℕ) (u : Unit {0}) (db' : Db)
    → check_line c ids requester db ≡ ok (u, db')
    → db ≡ db'
unfolding check_line
check_line_reads db c [] requester u db' h = (pure_ok h).1
check_line_reads db c (x ∷ xs) requester u db' h =
    let (_, _, e) = approvers_ok db c (x ∷ xs) requester _ h in (pure_ok e).1

pub check_data_reads :
    (db : Db) (c : ℕ) (d : ExpenseDto) (requester : ℕ) (u : Unit {0}) (db' : Db)
    → check_data c d requester db ≡ ok (u, db')
    → db ≡ db'
unfolding check_data
check_data_reads db c d requester u db' h =
    let (_, e₁) = throw_if_ok _ _ _ h in
    let (_, e₂) = account_ok db _ _ _ _ e₁ in
    let (_, e₃) = throw_if_found_ok _ _ _ e₂ in
    check_line_reads db c d.approver_ids requester u db' e₃

-- The checks of the data change nothing.
pub check_data_ok :
    {B : Type 0} (db : Db) {r : B × Db} (c : ℕ) (d : ExpenseDto) (requester : ℕ) (k : Tx B)
    → (check_data c d requester >> k) db ≡ ok r
    → k db ≡ ok r
check_data_ok db c d requester k h =
    then_read_ok (check_data c d requester) k (check_data_reads db c d requester) h
