-- ===== src/System/Frames/Settings.antt =====
-- finance/application: accounts, funds, types, donors, the issuer and the budget policy are in tables of
-- their own.
use church_management.Base.{ℕ, String, ◌≡◌, refl, Option, none, some}
use church_management.Runtime.{Runtime}
use church_management.Store.{Db}
use church_management.Identity.{Actor, check, record_audit}
use church_management.Tx.Frame.{Frame, Frame-modify, frame_rules}
use church_management.Finance.Policy.{account}
use church_management.Finance.Ledger.Calendar.{AccountDto, create_account, create_fund}
use church_management.Finance.Budget.Control.{
  BudgetPolicyDto, read_policy, save_policy_tx, save_policy,
}
use church_management.Finance.Offering.Donors.{
  OfferingTypeDto, create_type, directory_get, check_member, check_name, DonorDto, create_donor,
  DonorUpdateDto, update_donor,
}
use church_management.Finance.Receipt.{ReceiptIssuerDto, save_issuer}
use church_management.Finance.Receipt.Cancel.{print}
use church_management.System.Invariant.{core}
use church_management.System.Frames.{write_same, after_check_same}
use church_management.System.Frames.Giving.{print_tx-Frame}

module _ (rt : Runtime) (a : Actor) (c : ℕ) where
  Frame-check_member : (name : String) (id : Option ℕ) → Frame core (check_member a c name id)
  unfolding check_member directory_get check
  Frame-check_member name none = search (frame_rules)
  Frame-check_member name (some id) = search (frame_rules) depth 40

  Frame-check_name : (name : String) (id : Option ℕ) → Frame core (check_name a c name id)
  unfolding check_name directory_get check
  Frame-check_name name none = search (frame_rules)
  Frame-check_name name (some id) = search (frame_rules) depth 40

module _ (rt : Runtime) (a : Actor) (c : ℕ) (db : Db) where
  pub create_account-same : (d : AccountDto) → core (create_account rt a c d db).1 ≡ core db
  unfolding create_account record_audit
  create_account-same d =
      write_same core rt a c _ _ _ db (search (frame_rules, Frame-modify) depth 40) (λ _. refl)

  pub create_fund-same : (name : String) → core (create_fund rt a c name db).1 ≡ core db
  unfolding create_fund record_audit
  create_fund-same name =
      write_same core rt a c _ _ _ db (search (frame_rules, Frame-modify) depth 40) (λ _. refl)

  pub create_type-same : (d : OfferingTypeDto) → core (create_type rt a c d db).1 ≡ core db
  unfolding create_type record_audit account
  create_type-same d =
      write_same core rt a c _ _ _ db (search (frame_rules, Frame-modify) depth 40) (λ _. refl)

  pub create_donor-same : (d : DonorDto) → core (create_donor rt a c d db).1 ≡ core db
  unfolding create_donor record_audit
  create_donor-same d =
      write_same core rt a c _ _ _ db
        (search (frame_rules, Frame-modify, Frame-check_member rt a c) depth 40) (λ _. refl)

  pub update_donor-same :
      (id : ℕ) (d : DonorUpdateDto) → core (update_donor rt a c id d db).1 ≡ core db
  unfolding update_donor record_audit
  update_donor-same id d =
      write_same core rt a c _ _ _ db
        (search (frame_rules, Frame-modify, Frame-check_name rt a c) depth 40) (λ _. refl)

  pub save_issuer-same : (d : ReceiptIssuerDto) → core (save_issuer rt a c d db).1 ≡ core db
  unfolding save_issuer record_audit
  save_issuer-same d =
      write_same core rt a c _ _ _ db (search (frame_rules, Frame-modify) depth 40) (λ _. refl)

  pub save_policy-same : (d : BudgetPolicyDto) → core (save_policy rt a c d db).1 ≡ core db
  unfolding save_policy save_policy_tx record_audit
  save_policy-same d =
      write_same core rt a c _ _ _ db (search (frame_rules, Frame-modify) depth 40) (λ _. refl)

  pub print-same : (id : ℕ) → core (print rt a c id db).1 ≡ core db
  unfolding print
  print-same id = after_check_same core rt a c _ _ _ db (print_tx-Frame rt a c id) (λ _. refl) _

  pub read_policy-same : core (read_policy rt a c db).1 ≡ core db
  unfolding read_policy record_audit
  read_policy-same =
      write_same core rt a c _ _ _ db (search (frame_rules, Frame-modify) depth 40) (λ _. refl)
