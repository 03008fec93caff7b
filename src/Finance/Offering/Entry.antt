-- ===== src/Finance/Offering/Entry.antt =====
-- offering.service.ts: create, update, review and cancel.
pub mod Laws
use church_management.Base.{
  ℕ, ◌+◌, String, List, [], ◌∷◌, ◌++◌, Bool, not, ◌||◌, Option, none, some, ◌==◌, trim,
}
use church_management.Runtime.{Runtime}
use church_management.Store.{Db}
use church_management.Store.Giving.{
  Offering, draft, reviewed, cancelled, offering_state_eq, OfferingState,
}
use church_management.Tx.{Error, Result, Tx, pure, throw_if, modify, ◌>>=◌, ◌>>◌}
use church_management.Identity.{Actor}
use church_management.Finance.Policy.{write, after_check}
use church_management.Finance.Offering.{OfferingDto, validate, event, get, replace}

abbrev pub new_offering : Runtime → Actor → ℕ → OfferingDto → ℕ → Offering
new_offering rt a c d day = record {
  id = rt.new_id 0;
  church_id = c;
  donor_id = d.donor_id;
  type_id = d.type_id;
  asset_account_id = d.asset_account_id;
  given_on = day;
  amount = d.amount;
  reference = trim d.reference;
  source = d.source;
  state = draft;
  version = 1;
  created_by = a.user_id;
  edited_by = a.user_id;
  reviewed_by = none;
  journal_id = none;
}

abbrev pub add_offering : Offering → Db → Db
add_offering o db = record db { offerings = db.offerings ++ o ∷ [] }

unfoldable pub create_tx : Runtime → Actor → ℕ → OfferingDto → Tx ℕ
create_tx rt a c d = do
  day ← validate rt c d none
  modify (add_offering (new_offering rt a c d day))
  event a (new_offering rt a c d day) "create" ""
  pure (rt.new_id 0)

-- OfferingService.create
unfoldable pub create : Runtime → Actor → ℕ → OfferingDto → Db → Result ℕ × Db
unfolding create_tx
create rt a c d =
    after_check a c "offering.read" (write rt a c "offering.write" (create_tx rt a c d) Bool.false)

-- `['DRAFT', 'REVIEWED'].includes(r.state)`
abbrev pub is_open : Offering → Bool
is_open o = offering_state_eq o.state draft || offering_state_eq o.state reviewed

abbrev pub edited : Actor → OfferingDto → ℕ → Offering → Offering
edited a d day o = record o {
  donor_id = d.donor_id;
  type_id = d.type_id;
  asset_account_id = d.asset_account_id;
  given_on = day;
  amount = d.amount;
  reference = trim d.reference;
  source = d.source;
  edited_by = a.user_id;
  state = draft;
  reviewed_by = none;
  version = o.version + 1;
}

unfoldable pub update_tx : Runtime → Actor → ℕ → ℕ → ℕ → OfferingDto → Tx (Unit {0})
update_tx rt a c id v d = do
  r ← get c id v
  throw_if (not (is_open r)) Error.bad
  day ← validate rt c d (some id)
  modify (replace id (edited a d day))
  event a (edited a d day r) "update" ""
  pure tt

-- OfferingService.update; `v` is the version of the DTO.
unfoldable pub update : Runtime → Actor → ℕ → ℕ → ℕ → OfferingDto → Db → Result (Unit {0}) × Db
unfolding update_tx
update rt a c id v d =
    after_check a c "offering.read"
      (write rt a c "offering.write" (update_tx rt a c id v d) Bool.false)

abbrev pub reviewed_row : Actor → Offering → Offering
reviewed_row a o = record o {
  state = reviewed;
  reviewed_by = some a.user_id;
  version = o.version + 1;
}

unfoldable pub review_tx : Actor → ℕ → ℕ → ℕ → Tx (Unit {0})
review_tx a c id v = do
  r ← get c id v
  throw_if (not (offering_state_eq r.state draft)) Error.bad
  throw_if (r.created_by == a.user_id || r.edited_by == a.user_id) Error.denied
  modify (replace id (reviewed_row a))
  event a (reviewed_row a r) "review" ""
  pure tt

-- OfferingService.review
unfoldable pub review : Runtime → Actor → ℕ → ℕ → ℕ → Db → Result (Unit {0}) × Db
unfolding review_tx
review rt a c id v =
    after_check a c "offering.read" (write rt a c "offering.review" (review_tx a c id v) Bool.true)

abbrev pub cancelled_row : Offering → Offering
cancelled_row o = record o { state = cancelled; version = o.version + 1 }

unfoldable pub cancel_tx : Actor → ℕ → ℕ → ℕ → String → Tx (Unit {0})
cancel_tx a c id v reason = do
  r ← get c id v
  throw_if (not (is_open r)) Error.bad
  modify (replace id cancelled_row)
  event a (cancelled_row r) "cancel" reason
  pure tt

-- OfferingService.cancel
unfoldable pub cancel : Runtime → Actor → ℕ → ℕ → ℕ → String → Db → Result (Unit {0}) × Db
unfolding cancel_tx
cancel rt a c id v reason =
    after_check a c "offering.read"
      (write rt a c "offering.write" (cancel_tx a c id v reason) Bool.false)
