-- ===== src/Finance/Receipt/Claims.antt =====
-- receipt.service.ts: no offering is claimed twice, serials rise, and a cancelled receipt is void.
use church_management.Base.{
  ℕ, ◌+◌, ◌≤◌, ◌<◌, ◌≡◌, ◌≢◌, ap, sym, subst, String, List, [], ◌∷◌, ◌++◌, map, Bool, true, false,
  ◌&&◌, Option, some, is_some, ◌==◌, ==-self, take, find_first, any, select, All, All-weaken,
  All-map, All-swap, All-any-false, Pairwise, Pairwise-append, Pairwise-concat, Unique,
  select-Pairwise, sort_by-Pairwise, take-Pairwise, map-Pairwise, latest-select-All,
  find_first-concat, arith,
}
use church_management.Runtime.{Runtime}
use church_management.Store.{Db}
use church_management.Store.Giving.{Offering, DonationReceipt, ReceiptClaim, ReceiptCancellation}
use church_management.Tx.{Result, ok}
use church_management.Tx.Laws.{
  bind_ok, find_row_ok, throw_if_ok, throw_if_found_ok, gets_ok, modify_ok, pure_ok,
}
use church_management.Identity.{Actor}
use church_management.Identity.Laws.{record_audit_ok}
use church_management.Finance.Policy.{includes}
use church_management.Finance.Policy.Laws.{write_ok, write_keeps, after_check_ok, after_check_keeps}
use church_management.Finance.Receipt.{Item, earlier, chosen, item_of, items_of}
use church_management.Finance.Receipt.Issue.{
  ReceiptIssueDto, last_serial, claim_of, issue, issue_tx,
}
use church_management.Finance.Receipt.Issue.Laws.{unclaimed}
use church_management.Finance.Receipt.Issued.{issue_tx-Issued}
use church_management.Finance.Receipt.Cancel.{
  cancellation_of, new_cancellation, detail_in, print, print_tx, cancel, cancel_tx, remove_claims,
}

-- No offering has two claims.
abbrev pub ClaimedOnce : List ReceiptClaim → Type 0
ClaimedOnce = Unique (λ (x : ReceiptClaim). x.offering_id)

-- The items of a preview are of different offerings.
items_of-Unique :
    (rt : Runtime) (c : ℕ) (allowed : List Offering) (db : Db)
    → Unique (λ (o : Offering). o.id) db.offerings
    → Unique (λ (x : Item). x.id) (items_of rt c allowed db)
items_of-Unique rt c allowed db h =
    map-Pairwise (λ (x y : Item). x.id ≢ y.id) (item_of rt c db) (take 500 (chosen c allowed db))
      (take-Pairwise R 500 (chosen c allowed db) (
        sort_by-Pairwise earlier R (λ x y r e. r (sym e)) (select test db.offerings)
          (select-Pairwise R test db.offerings h)))
  where
    R : Offering → Offering → Type 0
    R x y = x.id ≢ y.id

    test : Offering → Bool
    test o = o.church_id == c && includes (map (λ (x : Offering). x.id) allowed) o.id

apart_of :
    (claims : List ReceiptClaim) (id : ℕ)
    → any (λ x. x.offering_id == id) claims ≡ false
    → All (λ (x : ReceiptClaim). x.offering_id ≢ id) claims
apart_of claims id h =
    All-weaken (λ x other e. ground (arith, ==-self id)) claims (All-any-false _ claims h)

-- Issuing a receipt leaves no offering with two claims, whether it succeeds or is refused; the ids of
-- the offerings are unique.
pub issue-ClaimedOnce :
    (rt : Runtime) (a : Actor) (c : ℕ) (d : ReceiptIssueDto) (db : Db)
    → Unique (λ (o : Offering). o.id) db.offerings
    → ClaimedOnce db.claims
    → ClaimedOnce (issue rt a c d db).1.claims
unfolding issue
issue-ClaimedOnce rt a c d db ids h =
    after_check_keeps a c _ _ db (λ y. ClaimedOnce y.claims) h
      (write_keeps rt a c _ (issue_tx rt a c d) true (λ y. ClaimedOnce y.claims) db (λ _ k. k) kept
        h)
  where
    R : ReceiptClaim → ReceiptClaim → Type 0
    R x y = x.offering_id ≢ y.offering_id

    kept : (x : ℕ × String) (db' : Db) → issue_tx rt a c d db ≡ ok (x, db') → ClaimedOnce db'.claims
    kept x db' done =
        let i = issue_tx-Issued rt a c d db done in
        let fresh : All (λ (y : Item). All (λ z. R z (claim_of c i.receipt.id y)) db.claims)
            i.items =
          All-weaken
            (λ y k.
              apart_of db.claims y.id (unclaimed c y.id i.from i.to d.preview d.offering_ids db k))
            i.items i.covered in
        rw i.claimed (
          Pairwise-append R db.claims (map (claim_of c i.receipt.id) i.items) h
            (map-Pairwise R (claim_of c i.receipt.id) i.items (
              subst (λ xs. Unique (λ (y : Item). y.id) xs) (sym i.found)
                (items_of-Unique rt c _ db ids)))
            (All-swap R db.claims (map (claim_of c i.receipt.id) i.items)
              (All-map (λ y. All (λ z. R z y) db.claims) (claim_of c i.receipt.id) i.items fresh)))

-- A later receipt of the same church and year has a greater serial.
abbrev pub Numbered : DonationReceipt → DonationReceipt → Type 0
Numbered r s =
    (r.church_id == s.church_id && r.serial_year == s.serial_year) ≡ true → r.serial < s.serial

-- Issuing a receipt keeps the serials of each church and year rising.
pub issue-Numbered :
    (rt : Runtime) (a : Actor) (c : ℕ) (d : ReceiptIssueDto) (db : Db)
    → Pairwise Numbered db.receipts
    → Pairwise Numbered (issue rt a c d db).1.receipts
unfolding issue
issue-Numbered rt a c d db h =
    after_check_keeps a c _ _ db (λ y. Pairwise Numbered y.receipts) h
      (write_keeps rt a c _ (issue_tx rt a c d) true (λ y. Pairwise Numbered y.receipts) db
        (λ _ k. k) kept h)
  where
    above :
        (s r : DonationReceipt)
        → s.church_id ≡ c
        → s.serial ≡ last_serial c s.serial_year db + 1
        → ((r.church_id == c && r.serial_year == s.serial_year) ≡ true
            → r.serial ≤ last_serial c s.serial_year db)
        → Numbered r s
    above s r church serial below same = omega (
      arith,
      serial,
      below (subst (λ n. (r.church_id == n && r.serial_year == s.serial_year) ≡ true) church same),
    )

    kept :
        (x : ℕ × String) (db' : Db)
        → issue_tx rt a c d db ≡ ok (x, db')
        → Pairwise Numbered db'.receipts
    kept x db' done =
        let i = issue_tx-Issued rt a c d db done in
        rw i.written (
          Pairwise-concat Numbered db.receipts i.receipt h (
            All-weaken (λ r below. above i.receipt r i.church i.serial below) db.receipts
              (latest-select-All (λ (r : DonationReceipt). r.serial)
                (λ r. r.church_id == c && r.serial_year == i.receipt.serial_year) db.receipts)))

-- What a cancellation has written.
record Voided (a : Actor) (c id : ℕ) (reason : String) (db db' : Db) : Type 0 where
  noted :
      db'.receipt_cancellations ≡ db.receipt_cancellations ++ new_cancellation a c id reason ∷ []
  freed : db'.claims ≡ (remove_claims c id db).claims

cancel_tx-Voided :
    (a : Actor) (c id : ℕ) (reason : String) (db : Db) {x : Unit {0}} {db' : Db}
    → cancel_tx a c id reason db ≡ ok (x, db')
    → Voided a c id reason db db'
unfolding cancel_tx
cancel_tx-Voided a c id reason db h =
    let (_, _, e₁) = find_row_ok _ _ _ h in
    let (_, e₂) = throw_if_found_ok _ _ _ e₁ in
    let (_, same) = pure_ok (record_audit_ok _ _ _ _ _ _ _ (modify_ok _ _ (modify_ok _ _ e₂))) in
    record {
      noted = ap (λ (y : Db). y.receipt_cancellations) (sym same);
      freed = ap (λ (y : Db). y.claims) (sym same);
    }

-- Cancelling a receipt leaves no offering with two claims.
pub cancel-ClaimedOnce :
    (rt : Runtime) (a : Actor) (c id : ℕ) (reason : String) (db : Db)
    → ClaimedOnce db.claims
    → ClaimedOnce (cancel rt a c id reason db).1.claims
unfolding cancel
cancel-ClaimedOnce rt a c id reason db h =
    after_check_keeps a c _ _ db (λ y. ClaimedOnce y.claims) h
      (write_keeps rt a c _ (cancel_tx a c id reason) true (λ y. ClaimedOnce y.claims) db (λ _ k. k)
        kept h)
  where
    kept :
        (x : Unit {0}) (db' : Db)
        → cancel_tx a c id reason db ≡ ok (x, db')
        → ClaimedOnce db'.claims
    kept x db' done =
        rw (cancel_tx-Voided a c id reason db done).freed
          (select-Pairwise (λ (x y : ReceiptClaim). x.offering_id ≢ y.offering_id) _ db.claims h)

is_some_of :
    (o : Option ReceiptCancellation) (x : ReceiptCancellation) → o ≡ some x → is_some o ≡ true
is_some_of o x h = ap is_some h

-- After a receipt has been cancelled it cannot be printed: no later call on that state succeeds.
pub cancel-print :
    (rt : Runtime) (a : Actor) (c id : ℕ) (reason : String) (db db' : Db)
    → cancel rt a c id reason db ≡ (Result.ok tt, db')
    → (later : Runtime) (b : Actor) (x : DonationReceipt × Option ReceiptCancellation) (db'' : Db)
    → print later b c id db' ≢ (Result.ok x, db'')
unfolding cancel print print_tx detail_in
cancel-print rt a c id reason db db' done later b x db'' printed =
    let (_, _, _, ended) =
      write_ok rt a c _ (cancel_tx a c id reason) true db (after_check_ok a c _ _ db done) in
    let v = cancel_tx-Voided a c id reason db ended in
    let (_, _, _, shown) =
      write_ok later b c _ (print_tx b c id) true db' (after_check_ok b c _ _ db' printed) in
    let (r, db₁, e, k) = bind_ok (detail_in c id) _ shown in
    let (_, _, e₁) = find_row_ok _ _ _ e in
    let (same, _) = pure_ok (gets_ok _ _ e₁) in
    let (open_, _) = throw_if_ok _ _ _ k in
    let (y, found) =
      find_first-concat (λ z. z.church_id == c && z.receipt_id == id) db.receipt_cancellations
        (new_cancellation a c id reason) (ground (arith, ==-self c, ==-self id)) in
    let noted : cancellation_of c id db' ≡ some y =
      subst (λ zs. find_first (λ z. z.church_id == c && z.receipt_id == id) zs ≡ some y)
        (sym v.noted) found in
    let void : is_some r.1 ≡ true = subst (λ p. is_some p.1 ≡ true) same (is_some_of _ y noted) in
    cc
