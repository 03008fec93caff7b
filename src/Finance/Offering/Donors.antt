-- ===== src/Finance/Offering/Donors.antt =====
-- offering.service.ts: the kinds of offerings and the donors.
use church_management.Base.{
  ℕ, ◌+◌, String, [], ◌∷◌, ◌++◌, Bool, not, ◌&&◌, Option, none, some, ◌==◌, is_id, find_first, any,
  update_where, trim,
}
use text.Mathlib.Text.{◌==◌ as str_eq}
use church_management.Runtime.{Runtime}
use church_management.Store.{Db}
use church_management.Store.People.{Member, ResourceId}
use church_management.Store.Books.{AccountKind}
use church_management.Store.Giving.{OfferingType, OfferingDonor}
use church_management.Tx.{
  Error, Result, Tx, pure, throw_if, find_row, throw_if_found, modify, ◌>>=◌, ◌>>◌,
}
use church_management.Identity.{Actor, check, record_audit}
use church_management.Finance.Policy.{write, account}

pub record OfferingTypeDto : Type 0 where
  pub name : String
  pub revenue_account_id : ℕ
  pub fund_id : ℕ
  pub receipt_eligible : Bool

abbrev pub new_type : Runtime → ℕ → OfferingTypeDto → OfferingType
new_type rt c d = record {
  id = rt.new_id 0;
  church_id = c;
  name = trim d.name;
  revenue_account_id = d.revenue_account_id;
  fund_id = d.fund_id;
  receipt_eligible = d.receipt_eligible;
}

-- OfferingService.createType
unfoldable pub create_type : Runtime → Actor → ℕ → OfferingTypeDto → Db → Result ℕ × Db
create_type rt a c d =
    write rt a c "finance.manage"
      (do
        account c d.revenue_account_id AccountKind.revenue
        throw_if_found (λ db. not (any (λ f. f.church_id == c && f.id == d.fund_id) db.funds))
            Error.bad
        throw_if_found
            (λ db. any (λ t. t.church_id == c && str_eq t.name (trim d.name)) db.offering_types)
            Error.bad
        modify λ db. record db { offering_types = db.offering_types ++ new_type rt c d ∷ [] }
        record_audit a "offering.type.create" "offeringType" (ResourceId.row (rt.new_id 0)) []
        pure (rt.new_id 0))
      Bool.true

pub record DonorDto : Type 0 where
  pub member_id : Option ℕ
  pub name : String
  pub address : String

-- DonorDirectoryService.get
unfoldable pub directory_get : Actor → ℕ → ℕ → Tx Member
directory_get a c id = do
  check a c "offering.write"
  find_row (λ db. find_first (λ (m : Member). m.church_id == c && m.id == id) db.members)
      Error.missing

-- The tests of a donor who is a member: the name is the registered one, and no donor is the member.
unfoldable pub check_member : Actor → ℕ → String → Option ℕ → Tx (Unit {0})
check_member a c name none = pure tt
check_member a c name (some id) = do
  member ← directory_get a c id
  throw_if (not (str_eq member.name (trim name))) Error.bad
  throw_if_found (λ db. any (λ x. x.church_id == c && is_id x.member_id id) db.donors) Error.bad

abbrev pub new_donor : Runtime → ℕ → DonorDto → OfferingDonor
new_donor rt c d = record {
  id = rt.new_id 0;
  church_id = c;
  member_id = d.member_id;
  name = trim d.name;
  address = trim d.address;
  version = 1;
}

-- OfferingService.createDonor
unfoldable pub create_donor : Runtime → Actor → ℕ → DonorDto → Db → Result ℕ × Db
create_donor rt a c d =
    write rt a c "offering.write"
      (do
        check_member a c d.name d.member_id
        modify λ db. record db { donors = db.donors ++ new_donor rt c d ∷ [] }
        record_audit a "offering.donor.create" "donor" (ResourceId.row (rt.new_id 0)) []
        pure (rt.new_id 0))
      Bool.false

pub record DonorUpdateDto : Type 0 where
  pub version : ℕ
  pub name : String
  pub address : String

unfoldable pub check_name : Actor → ℕ → String → Option ℕ → Tx (Unit {0})
check_name a c name none = pure tt
check_name a c name (some id) = do
  member ← directory_get a c id
  throw_if (not (str_eq member.name (trim name))) Error.bad

abbrev pub renamed : DonorUpdateDto → OfferingDonor → OfferingDonor
renamed d x = record x { name = trim d.name; address = trim d.address; version = x.version + 1 }

-- OfferingService.updateDonor
unfoldable pub update_donor : Runtime → Actor → ℕ → ℕ → DonorUpdateDto → Db → Result (Unit {0}) × Db
update_donor rt a c id d =
    write rt a c "offering.write"
      (do
        r ←
            find_row
              (λ db. find_first (λ (x : OfferingDonor). x.church_id == c && x.id == id) db.donors)
              Error.missing
        throw_if (not (r.version == d.version)) Error.conflict
        check_name a c d.name r.member_id
        modify λ db. record db { donors = update_where (λ x. x.id == id) (renamed d) db.donors }
        record_audit a "offering.donor.update" "donor" (ResourceId.row id) ("name" ∷ "address" ∷ [])
        pure tt)
      Bool.false
