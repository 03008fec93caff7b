-- ===== src/Finance/Receipt/Issued.antt =====
-- receipt.service.ts (issue): what an issued receipt says and what it has claimed.
use church_management.Base.{
  ℕ, ◌+◌, ◌≡◌, ◌∙◌, ap, sym, subst, refl, String, join, List, [], ◌∷◌, ◌++◌, map, true, false, not,
  Option, some, ◌==◌, length, take, ltb, sum_of, All, arith, leading_number, decimal,
}
use church_management.Runtime.{Runtime}
use church_management.Store.{Db}
use church_management.Store.Giving.{ReceiptItem, DonationReceipt}
use church_management.Tx.{Result, ok, Tx, ◌>>=◌}
use church_management.Tx.Laws.{
  bind_ok, read_ok, find_row_ok, or_throw_ok, throw_if_ok, gets_ok, modify_ok, pure_ok, pure_then,
}
use church_management.Identity.{Actor, has}
use church_management.Identity.Laws.{record_audit_ok}
use church_management.Finance.Policy.Laws.{date_ok, write_ok, after_check_ok}
use church_management.Finance.Receipt.{
  ReceiptPreviewDto, Item, Eligible, candidates, items_of, eligible,
}
use church_management.Finance.Receipt.Issue.{
  ReceiptIssueDto, last_serial, item_rows, new_receipt, claim_of, issue_tx, issue,
}
use church_management.Finance.Receipt.Issue.Laws.{Coverable, items_of-Coverable, item_rows_reads}

-- The days between which the offerings of a tax year lie.
pub record TaxYear (rt : Runtime) (year from to : ℕ) : Type 0 where
  pub starts : rt.parse_date (join (decimal year) "-01-01") ≡ some from
  pub ends : rt.parse_date (join (decimal year) "-12-31") ≡ some to

eligible_ok :
    {B : Type 0} (db : Db) {r : B × Db} (rt : Runtime) (c : ℕ) (d : ReceiptPreviewDto)
    (ids : Option (List ℕ)) (f : Eligible → Tx B)
    → (eligible rt c d ids >>= f) db ≡ ok r
    → (e : Eligible) × (from : ℕ) × (to : ℕ) × TaxYear rt d.tax_year from to
      × (e.items ≡ items_of rt c (take 500 (candidates c d.donor_id from to ids db)) db)
      × (e.total_amount ≡ sum_of (λ (x : Item). x.amount) e.items)
      × (f e db ≡ ok r)
unfolding eligible
eligible_ok db {r} rt c d ids f h =
    let (e, _, e₀, k) = bind_ok (eligible rt c d ids) f h in
    let (donor, _, e₁) = find_row_ok _ _ _ e₀ in
    let (from, starts, _, e₂) = date_ok db rt _ _ (gets_ok _ _ e₁) in
    let (to, ends, _, e₃) = date_ok db rt _ _ e₂ in
    let (_, asked) = throw_if_ok _ _ _ e₃ in
    let e₄ = gets_ok _ _ (gets_ok _ _ asked) in
    let (same, _) = pure_ok e₄ in
    (
      e,
      from,
      to,
      record { starts = starts; ends = ends },
      ap (λ (x : Eligible). x.items) (sym same),
      subst (λ (x : Eligible). x.total_amount ≡ sum_of (λ (y : Item). y.amount) x.items) same refl,
      subst (λ x. f x db ≡ ok r) same (pure_then f e₄ k),
    )

-- What an issue that succeeds has found and written.
pub record Issued (rt : Runtime) (c : ℕ) (d : ReceiptIssueDto) (db db' : Db) : Type 0 where
  pub receipt : DonationReceipt
  pub items : List Item
  pub from : ℕ
  pub to : ℕ
  pub written : db'.receipts ≡ db.receipts ++ receipt ∷ []
  pub claimed : db'.claims ≡ db.claims ++ map (claim_of c receipt.id) items
  pub same_ids :
      map (λ (x : ReceiptItem). x.offering_id) receipt.items ≡ map (λ (x : Item). x.id) items
  pub tax_year : TaxYear rt d.preview.tax_year from to
  pub found :
      items
      ≡ items_of rt c
          (take 500 (candidates c d.preview.donor_id from to (some d.offering_ids) db))
          db
  pub covered : All (λ (x : Item). Coverable c d.preview d.offering_ids from to db x.id) items
  pub complete : length items ≡ length d.offering_ids
  pub total : sum_of (λ (x : ReceiptItem). x.amount) receipt.items ≡ receipt.total_amount
  pub church : receipt.church_id ≡ c
  pub serial : receipt.serial ≡ last_serial c receipt.serial_year db + 1
  pub not_future : ltb receipt.serial_year d.preview.tax_year ≡ false

equal_of_not : (v w : ℕ) → not (v == w) ≡ false → v ≡ w
equal_of_not v w h = ground arith

pub issue_tx-Issued :
    (rt : Runtime) (a : Actor) (c : ℕ) (d : ReceiptIssueDto) (db : Db) {x : ℕ × String} {db' : Db}
    → issue_tx rt a c d db ≡ ok (x, db')
    → Issued rt c d db db'
unfolding issue_tx
issue_tx-Issued rt a c d db h =
    let (e, from, to, year, found, total, e₁) =
      eligible_ok db rt c d.preview (some d.offering_ids) _ h in
    let (issuer, _, e₂) = or_throw_ok _ _ _ e₁ in
    let (_, e₃) = throw_if_ok _ _ _ e₂ in
    let (_, e₄) = throw_if_ok _ _ _ e₃ in
    let (_, e₅) = throw_if_ok _ _ _ e₄ in
    let (complete, e₆) = throw_if_ok _ _ _ e₅ in
    let (church, _, e₇) = find_row_ok _ _ _ e₆ in
    let (not_future, e₈) = throw_if_ok _ _ _ e₇ in
    let (day, _, _, e₉) = date_ok db rt _ _ (gets_ok _ _ e₈) in
    let (rows, made, e₁₀) =
      read_ok (item_rows rt e.items) _ (λ xs y k. (item_rows_reads rt e.items db xs y k).0) e₉ in
    let (_, r) = item_rows_reads rt e.items db rows db made in
    let (_, same) = pure_ok (record_audit_ok _ _ _ _ _ _ _ (modify_ok _ _ (modify_ok _ _ e₁₀))) in
    record {
      receipt =
          new_receipt rt a c d.preview.tax_year e issuer
            (leading_number 4 0 (rt.today church.timezone))
            (last_serial c (leading_number 4 0 (rt.today church.timezone)) db + 1) day rows;
      items = e.items;
      from = from;
      to = to;
      written = ap (λ (y : Db). y.receipts) (sym same);
      claimed = ap (λ (y : Db). y.claims) (sym same);
      same_ids = r.ids;
      tax_year = year;
      found = found;
      covered =
          subst (λ xs. All (λ (x : Item). Coverable c d.preview d.offering_ids from to db x.id) xs)
            (sym found) (items_of-Coverable rt c from to d.preview d.offering_ids db);
      complete = equal_of_not _ _ complete;
      total = r.amounts ∙ sym total;
      church = refl;
      serial = refl;
      not_future = not_future;
    }

-- An issue that succeeds comes from a member with the permission to issue receipts. It adds one receipt
-- with the next serial of the church's year and the sum of its items as total, and one claim for each
-- item; there are as many items as offerings were asked for, and each is of an offering that is posted,
-- the donor's, of the tax year, asked for, and neither claimed nor reversed before.
pub issue-Issued :
    (rt : Runtime) (a : Actor) (c : ℕ) (d : ReceiptIssueDto) (db : Db) {x : ℕ × String} {db' : Db}
    → issue rt a c d db ≡ (Result.ok x, db')
    → (a.church_id ≡ c) × (has a "receipt.issue" ≡ true) × Issued rt c d db db'
unfolding issue
issue-Issued rt a c d db h =
    let (member, permission, _, done) =
      write_ok rt a c _ (issue_tx rt a c d) true db (after_check_ok a c _ _ db h) in
    (member, permission, issue_tx-Issued rt a c d db done)
