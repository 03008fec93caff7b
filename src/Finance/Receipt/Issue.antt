-- ===== src/Finance/Receipt/Issue.antt =====
-- receipt.service.ts: issue.
pub mod Laws
use church_management.Base.{
  ℕ, ◌+◌, String, join, List, [], ◌∷◌, ◌++◌, map, Bool, not, ◌&&◌, ◌||◌, Option, none, some, ◌==◌,
  ltb, length, select, latest, key_or_zero, trim, is_empty, decimal, pad_start, leading_number,
}
use church_management.Runtime.{Runtime}
use church_management.Store.{Db}
use church_management.Store.People.{ResourceId}
use church_management.Store.Giving.{
  OfferingDonor, ReceiptIssuer, ReceiptItem, DonationReceipt, ReceiptClaim,
}
use church_management.Tx.{
  Error, Result, Tx, pure, throw_if, or_throw, gets, find_row, modify, ◌>>=◌, ◌>>◌,
}
use church_management.Identity.{Actor, record_audit}
use church_management.Finance.Policy.{write, after_check, date, church_of}
use church_management.Finance.Receipt.{ReceiptPreviewDto, Item, Eligible, eligible}

pub record ReceiptIssueDto : Type 0 where
  pub preview : ReceiptPreviewDto
  pub offering_ids : List ℕ
  pub donor_version : ℕ
  pub issuer_version : ℕ

-- `_max.serial` over the receipts of the church and the year; none counts as 0.
abbrev pub last_serial : ℕ → ℕ → Db → ℕ
last_serial c year db =
    key_or_zero (λ (r : DonationReceipt). r.serial)
      (latest (λ (r : DonationReceipt). r.serial)
        (select (λ r. r.church_id == c && r.serial_year == year) db.receipts))

-- `D-${serialYear}-${String(serial).padStart(6, '0')}`
abbrev pub number_of : ℕ → ℕ → String
number_of year serial = join "D-" (join (decimal year) (join "-" (pad_start 6 (decimal serial))))

-- The rows of the receipt's items, each with its day.
unfoldable pub item_rows : Runtime → List Item → Tx (List ReceiptItem)
item_rows rt [] = pure []
item_rows rt (x ∷ xs) = do
  day ← date rt x.given_on
  rest ← item_rows rt xs
  pure (
      record { offering_id = x.id; given_on = day; amount = x.amount; type_name = x.type_name }
      ∷ rest)

abbrev pub new_receipt :
    Runtime
    → Actor
    → ℕ
    → ℕ
    → Eligible
    → ReceiptIssuer
    → ℕ
    → ℕ
    → ℕ
    → List ReceiptItem
    → DonationReceipt
new_receipt rt a c tax_year e issuer year serial day items = record {
  id = rt.new_id 0;
  church_id = c;
  donor_id = e.donor.id;
  tax_year = tax_year;
  serial_year = year;
  serial = serial;
  number = number_of year serial;
  donor_name = e.donor.name;
  donor_address = e.donor.address;
  issuer_name = issuer.name;
  issuer_registration_number = issuer.registration_number;
  issuer_address = issuer.address;
  issuer_representative = issuer.representative;
  issuer_legal_basis = issuer.legal_basis;
  qualification_reference = issuer.qualification_reference;
  total_amount = e.total_amount;
  issued_by = a.user_id;
  issued_on = day;
  items = items;
}

abbrev pub add_receipt : DonationReceipt → Db → Db
add_receipt r db = record db { receipts = db.receipts ++ r ∷ [] }

abbrev pub claim_of : ℕ → ℕ → Item → ReceiptClaim
claim_of c receipt x = record { church_id = c; offering_id = x.id; receipt_id = some receipt }

abbrev pub add_claims : List ReceiptClaim → Db → Db
add_claims xs db = record db { claims = db.claims ++ xs }

unfoldable pub issue_tx : Runtime → Actor → ℕ → ReceiptIssueDto → Tx (ℕ × String)
issue_tx rt a c d = do
  e ← eligible rt c d.preview (some d.offering_ids)
  issuer ← or_throw e.issuer Error.bad
  throw_if issuer.electronic_required Error.bad
  throw_if (is_empty (trim e.donor.address)) Error.bad
  throw_if (not (d.donor_version == e.donor.version) || not (d.issuer_version == issuer.version))
      Error.conflict
  throw_if (not (length e.items == length d.offering_ids)) Error.bad
  church ← find_row (church_of c) Error.fault
  throw_if (ltb (leading_number 4 0 (rt.today church.timezone)) d.preview.tax_year) Error.bad
  last ← gets (last_serial c (leading_number 4 0 (rt.today church.timezone)))
  day ← date rt (rt.today church.timezone)
  items ← item_rows rt e.items
  modify (
      add_receipt (
        new_receipt rt a c d.preview.tax_year e issuer
          (leading_number 4 0 (rt.today church.timezone)) (last + 1) day items))
  modify (add_claims (map (claim_of c (rt.new_id 0)) e.items))
  record_audit a "receipt.issue" "receipt" (ResourceId.row (rt.new_id 0)) []
  pure (rt.new_id 0, number_of (leading_number 4 0 (rt.today church.timezone)) (last + 1))

-- ReceiptService.issue
unfoldable pub issue : Runtime → Actor → ℕ → ReceiptIssueDto → Db → Result (ℕ × String) × Db
unfolding issue_tx
issue rt a c d =
    after_check a c "receipt.read" (write rt a c "receipt.issue" (issue_tx rt a c d) Bool.true)
