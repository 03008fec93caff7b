-- ===== src/Store/Giving.antt =====
-- Rows of apps/api/prisma/schema.prisma about offerings and donation receipts.
use church_management.Base.{ℕ, String, List, Option, Bool, true, false}

pub record OfferingType : Type 0 where
  pub id : ℕ
  pub church_id : ℕ
  pub name : String
  pub revenue_account_id : ℕ
  pub fund_id : ℕ
  pub receipt_eligible : Bool

pub record OfferingDonor : Type 0 where
  pub id : ℕ
  pub church_id : ℕ
  pub member_id : Option ℕ
  pub name : String
  pub address : String
  pub version : ℕ

pub data OfferingState : Type 0 where
  draft reviewed posted cancelled : OfferingState

abbrev pub offering_state_eq : OfferingState → OfferingState → Bool
offering_state_eq draft draft = true
offering_state_eq reviewed reviewed = true
offering_state_eq posted posted = true
offering_state_eq cancelled cancelled = true
offering_state_eq _ _ = false

pub record Offering : Type 0 where
  pub id : ℕ
  pub church_id : ℕ
  pub donor_id : Option ℕ
  pub type_id : ℕ
  pub asset_account_id : ℕ
  pub given_on : ℕ
  pub amount : ℕ
  pub reference : String
  pub source : String
  pub state : OfferingState
  pub version : ℕ
  pub created_by : ℕ
  pub edited_by : ℕ
  pub reviewed_by : Option ℕ
  pub journal_id : Option ℕ

pub record OfferingReversal : Type 0 where
  pub church_id : ℕ
  pub offering_id : ℕ
  pub journal_id : ℕ
  pub reason : String
  pub created_by : ℕ

pub record OfferingEvent : Type 0 where
  pub church_id : ℕ
  pub offering_id : ℕ
  pub actor_id : ℕ
  pub version : ℕ
  pub action : String
  pub reason : String

pub record ReceiptIssuer : Type 0 where
  pub church_id : ℕ
  pub name : String
  pub registration_number : String
  pub address : String
  pub representative : String
  pub legal_basis : String
  pub qualification_reference : String
  pub electronic_required : Bool
  pub version : ℕ

pub record ReceiptItem : Type 0 where
  pub offering_id : ℕ
  pub given_on : ℕ
  pub amount : ℕ
  pub type_name : String

pub record DonationReceipt : Type 0 where
  pub id : ℕ
  pub church_id : ℕ
  pub donor_id : ℕ
  pub tax_year : ℕ
  pub serial_year : ℕ
  pub serial : ℕ
  pub number : String
  pub donor_name : String
  pub donor_address : String
  pub issuer_name : String
  pub issuer_registration_number : String
  pub issuer_address : String
  pub issuer_representative : String
  pub issuer_legal_basis : String
  pub qualification_reference : String
  pub total_amount : ℕ
  pub issued_by : ℕ
  pub issued_on : ℕ
  pub items : List ReceiptItem

pub record ReceiptClaim : Type 0 where
  pub church_id : ℕ
  pub offering_id : ℕ
  pub receipt_id : Option ℕ

pub record ReceiptCancellation : Type 0 where
  pub church_id : ℕ
  pub receipt_id : ℕ
  pub cancelled_by : ℕ
  pub reason : String
