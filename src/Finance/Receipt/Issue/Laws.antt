-- ===== src/Finance/Receipt/Issue/Laws.antt =====
-- receipt.service.ts (eligible, issue): what an issued receipt covers, and what has been written.
use church_management.Base.{
  ℕ, ◌+◌, ◌≡◌, ◌∙◌, subst, ==-self, All-select_cons, refl, ap, sym, List, [], ◌∷◌, map, Bool, true,
  false, ◌&&◌, some, ◌==◌, take, any, select, sum_of, All, All-weaken, All-take, All-sort_by,
  All-map, select-passes, arith, eq_of_==, Bool-cases, inl, inr,
}
use church_management.Runtime.{Runtime}
use church_management.Store.{Db}
use church_management.Store.Giving.{Offering, ReceiptItem}
use church_management.Tx.{ok}
use church_management.Tx.Laws.{bind_ok, pure_ok}
use church_management.Finance.Policy.{includes}
use church_management.Finance.Policy.Laws.{date_ok}
use church_management.Finance.Receipt.{
  ReceiptPreviewDto, Item, may_cover, has_claim, earlier, candidates, chosen, item_of, items_of,
}
use church_management.Finance.Receipt.Issue.{item_rows}

-- The query has found an offering with the id.
abbrev pub Coverable : ℕ → ReceiptPreviewDto → List ℕ → ℕ → ℕ → Db → ℕ → Type 0
Coverable c d ids from to db id =
    any (λ o. may_cover c d.donor_id from to (some ids) db o && o.id == id) db.offerings ≡ true

select-found :
    (p : Offering → Bool) (os : List Offering)
    → All (λ o. any (λ y. p y && y.id == o.id) os ≡ true) (select p os)
select-found p [] = tt
select-found p (o ∷ os) =
    All-select_cons (λ x. any (λ y. p y && y.id == x.id) (o ∷ os) ≡ true) p o os here
      (All-weaken later (select p os) (select-found p os))
  where
    here : p o ≡ true → any (λ y. p y && y.id == o.id) (o ∷ os) ≡ true
    here e = ground (arith, ==-self o.id)

    later :
        (x : Offering)
        → any (λ y. p y && y.id == x.id) os ≡ true
        → any (λ y. p y && y.id == x.id) (o ∷ os) ≡ true
    later x h = ground arith

includes-All :
    (Q : ℕ → Type 0) (os : List Offering) (id : ℕ)
    → includes (map (λ (o : Offering). o.id) os) id ≡ true
    → All (λ o. Q o.id) os
    → Q id
includes-All Q [] id h k = cc
includes-All Q (o ∷ os) id h k = elim (Bool-cases (o.id == id)) [
  | inl e ↦ subst Q (eq_of_== _ _ e) k.0
  | inr e ↦ includes-All Q os id (ground arith) k.1
]

module _ (rt : Runtime) (c from to : ℕ) (d : ReceiptPreviewDto) (ids : List ℕ) (db : Db) where
  -- Every item of the preview is of an offering that the query has found.
  pub items_of-Coverable :
      All
        (λ (x : Item). Coverable c d ids from to db x.id)
        (items_of rt c (take 500 (candidates c d.donor_id from to (some ids) db)) db)
  items_of-Coverable =
      All-map (λ (x : Item). Q x.id) (item_of rt c db) (take 500 (chosen c allowed db))
        (All-take (λ o. Q o.id) 500 (chosen c allowed db)
          (All-sort_by earlier (λ o. Q o.id) (select test db.offerings)
            (All-weaken by_id (select test db.offerings) (select-passes test db.offerings))))
    where
      Q : ℕ → Type 0
      Q id = Coverable c d ids from to db id

      allowed : List Offering
      allowed = take 500 (candidates c d.donor_id from to (some ids) db)

      test : Offering → Bool
      test o = o.church_id == c && includes (map (λ (x : Offering). x.id) allowed) o.id

      found : All (λ o. Q o.id) allowed
      found =
          All-take (λ o. Q o.id) 500 (candidates c d.donor_id from to (some ids) db)
            (All-sort_by earlier (λ o. Q o.id) _
              (select-found (may_cover c d.donor_id from to (some ids) db) db.offerings))

      by_id : (o : Offering) → test o ≡ true → Q o.id
      by_id o h = includes-All Q allowed o.id (ground arith) found

-- An offering that may be covered has no claim.
pub unclaimed :
    (c id from to : ℕ) (d : ReceiptPreviewDto) (ids : List ℕ) (db : Db)
    → Coverable c d ids from to db id
    → has_claim db id ≡ false
unclaimed c id from to d ids db h = go db.offerings h
  where
    go :
        (os : List Offering)
        → any (λ o. may_cover c d.donor_id from to (some ids) db o && o.id == id) os ≡ true
        → has_claim db id ≡ false
    go [] h = cc
    go (o ∷ os) h =
        elim (Bool-cases (may_cover c d.donor_id from to (some ids) db o && o.id == id)) [
          | inl e ↦ one o e
          | inr e ↦ go os (ground arith)
        ]
      where
        one :
            (o : Offering)
            → (may_cover c d.donor_id from to (some ids) db o && o.id == id) ≡ true
            → has_claim db id ≡ false
        one o e =
            let same : o.id ≡ id = eq_of_== _ _ (ground arith) in
            subst (λ k. has_claim db k ≡ false) same (ground arith)

-- The rows of the items have the ids and the amounts of the preview, and making them writes nothing.
pub record Rows (items : List Item) (rows : List ReceiptItem) : Type 0 where
  pub ids : map (λ (x : ReceiptItem). x.offering_id) rows ≡ map (λ (x : Item). x.id) items
  pub amounts : sum_of (λ (x : ReceiptItem). x.amount) rows ≡ sum_of (λ (x : Item). x.amount) items

pub item_rows_reads :
    (rt : Runtime) (items : List Item) (db : Db) (rows : List ReceiptItem) (db' : Db)
    → item_rows rt items db ≡ ok (rows, db')
    → (db ≡ db') × Rows items rows
unfolding item_rows
item_rows_reads rt [] db rows db' h =
    let (same, same_db) = pure_ok h in
    (same_db, rw (sym same) (record { ids = refl; amounts = refl }))
item_rows_reads rt (x ∷ xs) db rows db' h =
    let (day, _, _, e₁) = date_ok db rt x.given_on _ h in
    let (rest, db₁, e₂, e₃) = bind_ok (item_rows rt xs) _ e₁ in
    let (same_db, r) = item_rows_reads rt xs db rest db₁ e₂ in
    let (same, same_db') = pure_ok e₃ in
    (
      same_db ∙ same_db',
      rw (sym same)
          (record { ids = ap (λ ys. x.id ∷ ys) r.ids; amounts = ap (λ n. x.amount + n) r.amounts }),
    )
