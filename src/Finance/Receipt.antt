-- ===== src/Finance/Receipt.antt =====
-- finance/application/receipt.service.ts: the issuer, and the offerings that a receipt may cover.
pub mod Issue
pub mod Cancel
pub mod Issued
pub mod Claims
use church_management.Base.{
  ℕ, ◌+◌, ◌-◌, String, join, List, [], ◌∷◌, ◌++◌, map, Bool, not, ◌&&◌, ◌||◌, Option, none, some,
  ◌==◌, ltb, leb, is_none, is_id, if◌then◌else◌, length, take, find_first, any, select, sum_of,
  update_where, key_or_zero, trim, decimal, sort_by,
}
use church_management.Runtime.{Runtime}
use church_management.Store.{Db}
use church_management.Store.People.{ResourceId}
use church_management.Store.Giving.{
  OfferingType, OfferingDonor, Offering, posted, offering_state_eq, ReceiptIssuer,
}
use church_management.Tx.{
  Error, Result, ok, err, Tx, pure, throw_if, gets, find_row, modify, ◌>>=◌, ◌>>◌,
}
use church_management.Identity.{Actor, record_audit}
use church_management.Finance.Policy.{write, after_check, date, includes}

pub record ReceiptIssuerDto : Type 0 where
  pub name : String
  pub registration_number : String
  pub address : String
  pub representative : String
  pub legal_basis : String
  pub qualification_reference : String
  pub electronic_required : Bool
  pub version : ℕ

abbrev pub issuer_of : ℕ → Db → Option ReceiptIssuer
issuer_of c db = find_first (λ i. i.church_id == c) db.issuers

abbrev pub new_issuer : ℕ → ReceiptIssuerDto → ℕ → ReceiptIssuer
new_issuer c d v = record {
  church_id = c;
  name = trim d.name;
  registration_number = d.registration_number;
  address = trim d.address;
  representative = trim d.representative;
  legal_basis = trim d.legal_basis;
  qualification_reference = trim d.qualification_reference;
  electronic_required = d.electronic_required;
  version = v;
}

-- `upsert`: the church's row is created with version 1, or replaced with the next version.
abbrev pub upsert_issuer : ℕ → ReceiptIssuerDto → Db → Db
upsert_issuer c d db = record db {
  issuers =
      if is_none (issuer_of c db)
      then db.issuers ++ new_issuer c d 1 ∷ []
      else update_where (λ i. i.church_id == c) (λ i. new_issuer c d (i.version + 1)) db.issuers;
}

-- ReceiptService.saveIssuer
unfoldable pub save_issuer : Runtime → Actor → ℕ → ReceiptIssuerDto → Db → Result (Unit {0}) × Db
save_issuer rt a c d =
    write rt a c "finance.manage"
      (do
        previous ← gets (issuer_of c)
        throw_if (not (key_or_zero (λ (i : ReceiptIssuer). i.version) previous == d.version))
            Error.conflict
        modify (upsert_issuer c d)
        record_audit a "receipt.issuer.update" "receiptIssuer" (ResourceId.row c) []
        pure tt)
      Bool.true

pub record ReceiptPreviewDto : Type 0 where
  pub donor_id : ℕ
  pub tax_year : ℕ

-- One offering as the preview and the receipt show it.
pub record Item : Type 0 where
  pub id : ℕ
  pub given_on : String
  pub amount : ℕ
  pub type_name : String

pub record Eligible : Type 0 where
  pub donor : OfferingDonor
  pub issuer : Option ReceiptIssuer
  pub items : List Item
  pub total_amount : ℕ
  pub remaining_count : ℕ

-- The join with the offering's type, which must be eligible for receipts.
abbrev pub has_eligible_type : Db → Offering → Bool
has_eligible_type db o =
    any (λ t. t.id == o.type_id && t.church_id == o.church_id && t.receipt_eligible)
      db.offering_types

-- `NOT EXISTS(SELECT 1 FROM receipt_claim WHERE offering_id=o.id)`
abbrev pub has_claim : Db → ℕ → Bool
has_claim db id = any (λ x. x.offering_id == id) db.claims

-- `EXISTS(SELECT 1 FROM journal_entry WHERE reversal_of=o.journal_id)`; NULL equals nothing.
abbrev pub is_taken_back : Db → Option ℕ → Bool
is_taken_back db none = Bool.false
is_taken_back db (some j) = any (λ x. is_id x.reversal_of j) db.journals

abbrev pub is_asked : Option (List ℕ) → ℕ → Bool
is_asked none id = Bool.true
is_asked (some ids) id = includes ids id

-- The WHERE clause of the query for the offerings that a receipt may cover.
abbrev pub may_cover : ℕ → ℕ → ℕ → ℕ → Option (List ℕ) → Db → Offering → Bool
may_cover c donor from to ids db o =
    o.church_id == c
    && is_id o.donor_id donor
    && offering_state_eq o.state posted
    && has_eligible_type db o
    && (leb from o.given_on && leb o.given_on to)
    && not (has_claim db o.id)
    && not (is_taken_back db o.journal_id)
    && is_asked ids o.id

-- `ORDER BY given_on, id`
abbrev pub earlier : Offering → Offering → Bool
earlier o p = ltb o.given_on p.given_on || (o.given_on == p.given_on && leb o.id p.id)

abbrev pub candidates : ℕ → ℕ → ℕ → ℕ → Option (List ℕ) → Db → List Offering
candidates c donor from to ids db =
    sort_by earlier (select (may_cover c donor from to ids db) db.offerings)

-- The query of the model after the raw query: by the ids that it gave.
abbrev pub chosen : ℕ → List Offering → Db → List Offering
chosen c allowed db = sort_by earlier (
    select (λ o. o.church_id == c && includes (map (λ (x : Offering). x.id) allowed) o.id)
      db.offerings)

-- `types.find((t) => t.id === r.typeId)!.name`: the query asks that the type is there.
abbrev pub type_name : ℕ → Db → ℕ → String
type_name c db id =
    elim (find_first (λ (t : OfferingType). t.id == id)
      (select (λ t. t.church_id == c && t.receipt_eligible) db.offering_types)) [
        | none ↦ ""
        | some t ↦ t.name
      ]

abbrev pub item_of : Runtime → ℕ → Db → Offering → Item
item_of rt c db o = record {
  id = o.id;
  given_on = rt.iso_date o.given_on;
  amount = o.amount;
  type_name = type_name c db o.type_id;
}

abbrev pub items_of : Runtime → ℕ → List Offering → Db → List Item
items_of rt c allowed db = map (item_of rt c db) (take 500 (chosen c allowed db))

abbrev pub new_eligible : OfferingDonor → Option ReceiptIssuer → List Item → ℕ → Eligible
new_eligible donor issuer items count = record {
  donor = donor;
  issuer = issuer;
  items = items;
  total_amount = sum_of (λ (x : Item). x.amount) items;
  remaining_count = count - 500;
}

-- `Prisma.join([])` throws.
abbrev pub is_empty_list : Option (List ℕ) → Bool
is_empty_list none = Bool.false
is_empty_list (some []) = Bool.true
is_empty_list (some (_ ∷ _)) = Bool.false

-- ReceiptService.eligible
unfoldable pub eligible : Runtime → ℕ → ReceiptPreviewDto → Option (List ℕ) → Tx Eligible
eligible rt c d ids = do
  donor ←
      find_row
        (λ db. find_first (λ (x : OfferingDonor). x.church_id == c && x.id == d.donor_id) db.donors)
        Error.missing
  issuer ← gets (issuer_of c)
  from ← date rt (join (decimal d.tax_year) "-01-01")
  to ← date rt (join (decimal d.tax_year) "-12-31")
  throw_if (is_empty_list ids) Error.fault
  found ← gets (candidates c d.donor_id from to ids)
  items ← gets (items_of rt c (take 500 found))
  pure (new_eligible donor issuer items (length found))

-- ReceiptService.preview: a transaction of its own, which only reads.
unfoldable pub preview : Runtime → Actor → ℕ → ReceiptPreviewDto → Db → Result Eligible × Db
preview rt a c d = after_check a c "receipt.read" λ db. elim (eligible rt c d none db) [
  | ok (e, db') ↦ (Result.ok e, db')
  | err e ↦ (Result.err e, db)
]
