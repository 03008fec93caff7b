-- ===== src/Finance/Expense/Drafts/Laws.antt =====
-- expense.service.ts (create, update, cancel, removeAttachment): what each has found and written.
use church_management.Base.{
  ℕ, ◌≡◌, ap, sym, String, List, [], ◌∷◌, ◌++◌, true, false, ◌||◌, some, ◌==◌, update_where,
}
use church_management.Runtime.{Runtime}
use church_management.Store.{Db}
use church_management.Store.Spending.{ExpenseRequest, paid, cancelled, state_eq}
use church_management.Tx.{ok}
use church_management.Tx.Laws.{find_row_ok, throw_if_ok, modify_ok, pure_ok}
use church_management.Identity.{Actor}
use church_management.Identity.Laws.{check_ok}
use church_management.Finance.Expense.Request.{ExpenseDto, visible_row, is_editable}
use church_management.Finance.Expense.Request.Laws.{
  get_ok, own_ok, editable_ok, event_ok, check_data_ok,
}
use church_management.Finance.Expense.Drafts.{
  new_request, create_tx, edit, update_tx, cancelled_row, cancel_tx, touched, remove_attachment_tx,
}

-- The requests and the submissions that an operation leaves.
pub record Writes (db db' : Db) (rows : List ExpenseRequest) : Type 0 where
  pub expenses : db'.expenses ≡ rows
  pub submissions : db'.submissions ≡ db.submissions
  pub payments : db'.payments ≡ db.payments
  pub journals : db'.journals ≡ db.journals

abbrev pub replaced : ℕ → (ExpenseRequest → ExpenseRequest) → Db → List ExpenseRequest
replaced id f db = update_where (λ r. r.id == id) f db.expenses

-- The caller owns the row that he names, at the version that he names.
pub record Owned (a : Actor) (id v : ℕ) (db : Db) (row : ExpenseRequest) : Type 0 where
  pub found : visible_row a id db ≡ some row
  pub owner : row.requester_id ≡ a.user_id
  pub current : row.version ≡ v

module _ (db : Db) (rt : Runtime) (a : Actor) where
  pub create_tx_ok :
      (c : ℕ) (d : ExpenseDto) {x : ℕ × ℕ} {db' : Db}
      → create_tx rt a c d db ≡ ok (x, db')
      → Writes db db' (db.expenses ++ new_request rt a c d ∷ [])
  unfolding create_tx
  create_tx_ok c d h =
      let (_, _, e₁) = check_ok a c _ _ h in
      let e₂ = check_data_ok db c d a.user_id _ e₁ in
      let (_, e₃) = event_ok _ a (new_request rt a c d) "create" "" _ (modify_ok _ _ e₂) in
      let (_, same) = pure_ok e₃ in
      record {
        expenses = ap (λ (y : Db). y.expenses) (sym same);
        submissions = ap (λ (y : Db). y.submissions) (sym same);
        payments = ap (λ (y : Db). y.payments) (sym same);
        journals = ap (λ (y : Db). y.journals) (sym same);
      }

  pub update_tx_ok :
      (c id v : ℕ) (d : ExpenseDto) {x : ℕ} {db' : Db}
      → update_tx a c id v d db ≡ ok (x, db')
      → (row : ExpenseRequest) × Owned a id v db row
        × (is_editable row.state ≡ true)
        × Writes db db' (replaced id (edit d v) db)
  unfolding update_tx
  update_tx_ok c id v d h =
      let (row, found, e₁) = get_ok db a id _ h in
      let (owner, current, e₂) = own_ok db a row v _ e₁ in
      let (editable, e₃) = editable_ok db row _ e₂ in
      let e₄ = check_data_ok db c d a.user_id _ e₃ in
      let (_, e₅) = event_ok _ a (edit d v row) "update" "" _ (modify_ok _ _ e₄) in
      let (_, same) = pure_ok e₅ in
      (
        row,
        record { found = found; owner = owner; current = current },
        editable,
        record {
          expenses = ap (λ (y : Db). y.expenses) (sym same);
          submissions = ap (λ (y : Db). y.submissions) (sym same);
          payments = ap (λ (y : Db). y.payments) (sym same);
          journals = ap (λ (y : Db). y.journals) (sym same);
        },
      )

  pub cancel_tx_ok :
      (id v : ℕ) (reason : String) {x : Unit {0}} {db' : Db}
      → cancel_tx a id v reason db ≡ ok (x, db')
      → (row : ExpenseRequest) × Owned a id v db row
        × ((state_eq row.state paid || state_eq row.state cancelled) ≡ false)
        × Writes db db' (replaced id cancelled_row db)
  unfolding cancel_tx
  cancel_tx_ok id v reason h =
      let (row, found, e₁) = get_ok db a id _ h in
      let (owner, current, e₂) = own_ok db a row v _ e₁ in
      let (state, e₃) = throw_if_ok _ _ _ e₂ in
      let (_, e₄) = event_ok _ a (cancelled_row row) "cancel" reason _ (modify_ok _ _ e₃) in
      let (_, same) = pure_ok e₄ in
      (
        row,
        record { found = found; owner = owner; current = current },
        state,
        record {
          expenses = ap (λ (y : Db). y.expenses) (sym same);
          submissions = ap (λ (y : Db). y.submissions) (sym same);
          payments = ap (λ (y : Db). y.payments) (sym same);
          journals = ap (λ (y : Db). y.journals) (sym same);
        },
      )

  pub remove_attachment_tx_ok :
      (id file v : ℕ) {x : Unit {0}} {db' : Db}
      → remove_attachment_tx rt a id file v db ≡ ok (x, db')
      → (row : ExpenseRequest) × Owned a id v db row
        × (is_editable row.state ≡ true)
        × Writes db db' (replaced id touched db)
  unfolding remove_attachment_tx
  remove_attachment_tx_ok id file v h =
      let (row, found, e₁) = get_ok db a id _ h in
      let (owner, current, e₂) = own_ok db a row v _ e₁ in
      let (editable, e₃) = editable_ok db row _ e₂ in
      let (_, _, e₄) = find_row_ok _ _ _ e₃ in
      let (_, e₅) =
        event_ok _ a (touched row) "attachment.remove" "" _ (modify_ok _ _ (modify_ok _ _ e₄)) in
      let (_, same) = pure_ok e₅ in
      (
        row,
        record { found = found; owner = owner; current = current },
        editable,
        record {
          expenses = ap (λ (y : Db). y.expenses) (sym same);
          submissions = ap (λ (y : Db). y.submissions) (sym same);
          payments = ap (λ (y : Db). y.payments) (sym same);
          journals = ap (λ (y : Db). y.journals) (sym same);
        },
      )
