-- ===== src/Finance/Expense/Drafts.antt =====
-- expense.service.ts: create, update, cancel and removeAttachment.
pub mod Laws
use church_management.Base.{
  ℕ, ◌+◌, String, List, [], ◌∷◌, ◌++◌, Bool, false, not, ◌&&◌, ◌||◌, Option, none, some, ◌==◌,
  is_none, find_first, update_where,
}
use church_management.Runtime.{Runtime}
use church_management.Store.{Db}
use church_management.Store.Spending.{
  draft, paid, cancelled, state_eq, ExpenseRequest, ExpenseAttachment,
}
use church_management.Tx.{Error, Result, Tx, pure, throw_if, find_row, modify, ◌>>=◌, ◌>>◌}
use church_management.Identity.{Actor, check}
use church_management.Finance.Policy.{write}
use church_management.Finance.Expense.Request.{
  ExpenseDto, get, own, editable, check_data, event, replace,
}

-- The columns that the schema fills in: state DRAFT, round 0, version 1.
abbrev pub new_request : Runtime → Actor → ℕ → ExpenseDto → ExpenseRequest
new_request rt a c d = record {
  id = rt.new_id 0;
  church_id = c;
  requester_id = a.user_id;
  budget_year = some d.budget_year;
  title = d.title;
  purpose = d.purpose;
  payee = d.payee;
  amount = d.amount;
  account_id = d.account_id;
  fund_id = d.fund_id;
  evidence_reference = d.evidence_reference;
  approver_ids = d.approver_ids;
  current_approver_id = none;
  state = draft;
  round = 0;
  version = 1;
}

abbrev pub add_request : ExpenseRequest → Db → Db
add_request r db = record db { expenses = db.expenses ++ r ∷ [] }

unfoldable pub create_tx : Runtime → Actor → ℕ → ExpenseDto → Tx (ℕ × ℕ)
create_tx rt a c d = do
  check a c "expense.read"
  check_data c d a.user_id
  modify (add_request (new_request rt a c d))
  event a (new_request rt a c d) "create" ""
  pure (rt.new_id 0, 1)

-- ExpenseService.create
unfoldable pub create : Runtime → Actor → ℕ → ExpenseDto → Db → Result (ℕ × ℕ) × Db
unfolding create_tx
create rt a c d = write rt a c "expense.write" (create_tx rt a c d) false

abbrev pub edit : ExpenseDto → ℕ → ExpenseRequest → ExpenseRequest
edit d v r = record r {
  budget_year = some d.budget_year;
  title = d.title;
  purpose = d.purpose;
  payee = d.payee;
  amount = d.amount;
  account_id = d.account_id;
  fund_id = d.fund_id;
  evidence_reference = d.evidence_reference;
  approver_ids = d.approver_ids;
  version = v + 1;
}

unfoldable pub update_tx : Actor → ℕ → ℕ → ℕ → ExpenseDto → Tx ℕ
update_tx a c id v d = do
  row ← get a id
  own a row v
  editable row
  check_data c d a.user_id
  modify (replace id (edit d v))
  event a (edit d v row) "update" ""
  pure (v + 1)

-- ExpenseService.update; `v` is the version of the DTO.
unfoldable pub update : Runtime → Actor → ℕ → ℕ → ℕ → ExpenseDto → Db → Result ℕ × Db
unfolding update_tx
update rt a c id v d = write rt a c "expense.write" (update_tx a c id v d) false

abbrev pub cancelled_row : ExpenseRequest → ExpenseRequest
cancelled_row r = record r {
  state = cancelled;
  current_approver_id = none;
  version = r.version + 1;
}

unfoldable pub cancel_tx : Actor → ℕ → ℕ → String → Tx (Unit {0})
cancel_tx a id v reason = do
  row ← get a id
  own a row v
  throw_if (state_eq row.state paid || state_eq row.state cancelled) Error.bad
  modify (replace id cancelled_row)
  event a (cancelled_row row) "cancel" reason
  pure tt

-- ExpenseService.cancel
unfoldable pub cancel : Runtime → Actor → ℕ → ℕ → ℕ → String → Db → Result (Unit {0}) × Db
unfolding cancel_tx
cancel rt a c id v reason = write rt a c "expense.write" (cancel_tx a id v reason) false

abbrev pub touched : ExpenseRequest → ExpenseRequest
touched r = record r { version = r.version + 1 }

abbrev pub current_file : ℕ → ℕ → Db → Option ExpenseAttachment
current_file file id db =
    find_first (λ f. f.id == file && f.request_id == id && is_none f.removed_at) db.attachments

abbrev pub remove_file : ℕ → ℕ → Db → Db
remove_file file now db = record db {
  attachments =
      update_where (λ f. f.id == file) (λ f. record f { removed_at = some now }) db.attachments;
}

unfoldable pub remove_attachment_tx : Runtime → Actor → ℕ → ℕ → ℕ → Tx (Unit {0})
remove_attachment_tx rt a id file v = do
  row ← get a id
  own a row v
  editable row
  f ← find_row (current_file file id) Error.missing
  modify (remove_file file rt.now)
  modify (replace id touched)
  event a (touched row) "attachment.remove" ""
  pure tt

-- ExpenseService.removeAttachment
unfoldable pub remove_attachment : Runtime → Actor → ℕ → ℕ → ℕ → ℕ → Db → Result (Unit {0}) × Db
unfolding remove_attachment_tx
remove_attachment rt a c id file v =
    write rt a c "expense.write" (remove_attachment_tx rt a id file v) false
