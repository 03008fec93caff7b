-- ===== src/Finance/Receipt/Cancel.antt =====
-- receipt.service.ts: print and cancel.
use church_management.Base.{
  ℕ, String, [], ◌∷◌, ◌++◌, Bool, not, ◌&&◌, Option, ◌==◌, is_id, is_some, find_first, select,
}
use church_management.Runtime.{Runtime}
use church_management.Store.{Db}
use church_management.Store.People.{ResourceId}
use church_management.Store.Giving.{DonationReceipt, ReceiptCancellation}
use church_management.Tx.{
  Error, Result, Tx, pure, throw_if, find_row, throw_if_found, gets, modify, ◌>>=◌, ◌>>◌,
}
use church_management.Identity.{Actor, record_audit}
use church_management.Finance.Policy.{write, after_check}

abbrev pub receipt_of : ℕ → ℕ → Db → Option DonationReceipt
receipt_of c id db = find_first (λ r. r.church_id == c && r.id == id) db.receipts

abbrev pub cancellation_of : ℕ → ℕ → Db → Option ReceiptCancellation
cancellation_of c id db =
    find_first (λ x. x.church_id == c && x.receipt_id == id) db.receipt_cancellations

-- ReceiptService.detailIn: the receipt and its cancellation; the item order is for display.
unfoldable pub detail_in : ℕ → ℕ → Tx (DonationReceipt × Option ReceiptCancellation)
detail_in c id = do
  r ← find_row (receipt_of c id) Error.missing
  x ← gets (cancellation_of c id)
  pure (r, x)

unfoldable pub print_tx : Actor → ℕ → ℕ → Tx (DonationReceipt × Option ReceiptCancellation)
print_tx a c id = do
  r ← detail_in c id
  throw_if (is_some r.1) Error.bad
  record_audit a "receipt.print" "receipt" (ResourceId.row id) []
  pure r

-- ReceiptService.print
unfoldable pub print :
    Runtime → Actor → ℕ → ℕ → Db → Result (DonationReceipt × Option ReceiptCancellation) × Db
unfolding print_tx
print rt a c id =
    after_check a c "receipt.read" (write rt a c "receipt.print" (print_tx a c id) Bool.true)

abbrev pub new_cancellation : Actor → ℕ → ℕ → String → ReceiptCancellation
new_cancellation a c id reason = record {
  church_id = c;
  receipt_id = id;
  cancelled_by = a.user_id;
  reason = reason;
}

abbrev pub add_cancellation : ReceiptCancellation → Db → Db
add_cancellation x db = record db { receipt_cancellations = db.receipt_cancellations ++ x ∷ [] }

-- `receiptClaim.deleteMany({ where: { churchId, receiptId } })`
abbrev pub remove_claims : ℕ → ℕ → Db → Db
remove_claims c id db = record db {
  claims = select (λ x. not (x.church_id == c && is_id x.receipt_id id)) db.claims;
}

unfoldable pub cancel_tx : Actor → ℕ → ℕ → String → Tx (Unit {0})
cancel_tx a c id reason = do
  r ← find_row (receipt_of c id) Error.missing
  throw_if_found (λ db. is_some (cancellation_of c id db)) Error.bad
  modify (add_cancellation (new_cancellation a c id reason))
  modify (remove_claims c id)
  record_audit a "receipt.cancel" "receipt" (ResourceId.row id) []
  pure tt

-- ReceiptService.cancel
unfoldable pub cancel : Runtime → Actor → ℕ → ℕ → String → Db → Result (Unit {0}) × Db
unfolding cancel_tx
cancel rt a c id reason =
    after_check a c "receipt.read"
      (write rt a c "receipt.cancel" (cancel_tx a c id reason) Bool.true)
