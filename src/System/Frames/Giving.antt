-- ===== src/System/Frames/Giving.antt =====
-- finance/application: the tables that the offerings and the receipts write.
use church_management.Base.{ℕ, String, ◌≡◌, refl, Option, List}
use church_management.Runtime.{Runtime}
use church_management.Store.{Db}
use church_management.Identity.{Actor, record_audit}
use church_management.Tx.Frame.{Frame, Frame-modify, Frame-read, frame_rules}
use church_management.Finance.Policy.{date, open_period, account}
use church_management.Finance.Ledger.{ReverseDto, post_offering, reverse_offering}
use church_management.Finance.Offering.{OfferingDto, validate, event, get_any, get}
use church_management.Finance.Offering.Entry.{create_tx, update_tx, review_tx, cancel_tx}
use church_management.Finance.Offering.Entry.Laws.{validate_reads}
use church_management.Finance.Offering.Posting.{post_tx, reverse_tx}
use church_management.Finance.Receipt.{Item, eligible}
use church_management.Finance.Receipt.Issue.{ReceiptIssueDto, item_rows, issue_tx}
use church_management.Finance.Receipt.Issue.Laws.{item_rows_reads}
use church_management.Finance.Receipt.Cancel.{detail_in, print_tx}
use church_management.Finance.Receipt.Cancel.{cancel_tx as void_tx}
use church_management.System.Invariant.{
  core, but_journals, but_offerings, but_postings, but_claims, but_receipts,
}
use church_management.System.Frames.{after_check_same}
use church_management.Finance.Offering.Entry
use church_management.Finance.Offering.Posting
use church_management.Finance.Receipt.Issue
use church_management.Finance.Receipt.Cancel

module _ {X : Type 0} {v : Db → X} (rt : Runtime) where
  Frame-validate : (c : ℕ) (d : OfferingDto) (x : Option ℕ) → Frame v (validate rt c d x)
  Frame-validate c d x = Frame-read _ λ db. validate_reads db rt c d x

  Frame-item_rows : (items : List Item) → Frame v (item_rows rt items)
  Frame-item_rows items = Frame-read _ λ db x db' h. (item_rows_reads rt items db x db' h).0

module _ (rt : Runtime) (a : Actor) (c : ℕ) where
  pub create_tx-Frame : (d : OfferingDto) → Frame but_offerings (create_tx rt a c d)
  unfolding create_tx record_audit event
  create_tx-Frame d = search (frame_rules, Frame-modify, Frame-validate) depth 40

  pub update_tx-Frame : (id v : ℕ) (d : OfferingDto) → Frame but_offerings (update_tx rt a c id v d)
  unfolding update_tx record_audit event get get_any
  update_tx-Frame id v d = search (frame_rules, Frame-modify, Frame-validate) depth 40

  pub review_tx-Frame : (id v : ℕ) → Frame but_offerings (review_tx a c id v)
  unfolding review_tx record_audit event get get_any
  review_tx-Frame id v = search (frame_rules, Frame-modify) depth 40

  pub cancel_tx-Frame :
      (id v : ℕ) (reason : String) → Frame but_offerings (cancel_tx a c id v reason)
  unfolding cancel_tx record_audit event get get_any
  cancel_tx-Frame id v reason = search (frame_rules, Frame-modify) depth 40

  pub post_tx-Frame : (id v : ℕ) → Frame but_postings (post_tx rt a c id v)
  unfolding post_tx record_audit event get get_any post_offering open_period date account
  post_tx-Frame id v = search (frame_rules, Frame-modify) depth 40

  pub reverse_tx-Frame : (id : ℕ) (d : ReverseDto) → Frame but_journals (reverse_tx rt a c id d)
  unfolding reverse_tx record_audit get_any reverse_offering open_period date
  reverse_tx-Frame id d = search (frame_rules, Frame-modify) depth 40

  pub issue_tx-Frame : (d : ReceiptIssueDto) → Frame but_receipts (issue_tx rt a c d)
  unfolding issue_tx record_audit eligible date
  issue_tx-Frame d = search (frame_rules, Frame-modify, Frame-item_rows) depth 40

  pub void_tx-Frame : (id : ℕ) (reason : String) → Frame but_claims (void_tx a c id reason)
  unfolding void_tx record_audit
  void_tx-Frame id reason = search (frame_rules, Frame-modify) depth 40

  pub print_tx-Frame : (id : ℕ) → Frame core (print_tx a c id)
  unfolding print_tx detail_in record_audit
  print_tx-Frame id = search (frame_rules, Frame-modify) depth 40

module _ (rt : Runtime) (a : Actor) (c : ℕ) (db : Db) where
  pub offering_create-same :
      (d : OfferingDto) → but_offerings (Entry.create rt a c d db).1 ≡ but_offerings db
  unfolding Entry.create
  offering_create-same d =
      after_check_same but_offerings rt a c _ _ _ db (create_tx-Frame rt a c d) (λ _. refl) _

  pub offering_update-same :
      (id : ℕ) (v : ℕ) (d : OfferingDto)
      → but_offerings (Entry.update rt a c id v d db).1 ≡ but_offerings db
  unfolding Entry.update
  offering_update-same id v d =
      after_check_same but_offerings rt a c _ _ _ db (update_tx-Frame rt a c id v d) (λ _. refl) _

  pub offering_review-same :
      (id : ℕ) (v : ℕ) → but_offerings (Entry.review rt a c id v db).1 ≡ but_offerings db
  unfolding Entry.review
  offering_review-same id v =
      after_check_same but_offerings rt a c _ _ _ db (review_tx-Frame rt a c id v) (λ _. refl) _

  pub offering_cancel-same :
      (id : ℕ) (v : ℕ) (reason : String)
      → but_offerings (Entry.cancel rt a c id v reason db).1 ≡ but_offerings db
  unfolding Entry.cancel
  offering_cancel-same id v reason =
      after_check_same but_offerings rt a c _ _ _ db (cancel_tx-Frame rt a c id v reason)
        (λ _. refl) _

  pub offering_post-same :
      (id : ℕ) (v : ℕ) → but_postings (Posting.post rt a c id v db).1 ≡ but_postings db
  unfolding Posting.post
  offering_post-same id v =
      after_check_same but_postings rt a c _ _ _ db (post_tx-Frame rt a c id v) (λ _. refl) _

  pub offering_reverse-same :
      (id : ℕ) (d : ReverseDto) → but_journals (Posting.reverse rt a c id d db).1 ≡ but_journals db
  unfolding Posting.reverse
  offering_reverse-same id d =
      after_check_same but_journals rt a c _ _ _ db (reverse_tx-Frame rt a c id d) (λ _. refl) _

  pub receipt_issue-same :
      (d : ReceiptIssueDto) → but_receipts (Issue.issue rt a c d db).1 ≡ but_receipts db
  unfolding Issue.issue
  receipt_issue-same d =
      after_check_same but_receipts rt a c _ _ _ db (issue_tx-Frame rt a c d) (λ _. refl) _

  pub receipt_cancel-same :
      (id : ℕ) (reason : String) → but_claims (Cancel.cancel rt a c id reason db).1 ≡ but_claims db
  unfolding Cancel.cancel
  receipt_cancel-same id reason =
      after_check_same but_claims rt a c _ _ _ db (void_tx-Frame rt a c id reason) (λ _. refl) _
