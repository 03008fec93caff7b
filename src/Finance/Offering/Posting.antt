-- ===== src/Finance/Offering/Posting.antt =====
-- offering.service.ts: post and reverse.
pub mod Laws
pub mod Correction
use church_management.Base.{
  ℕ, ◌+◌, String, List, [], ◌∷◌, ◌++◌, Bool, not, ◌||◌, ◌&&◌, Option, none, some, ◌==◌, is_none,
  find_first, any,
}
use church_management.Runtime.{Runtime}
use church_management.Store.{Db}
use church_management.Store.People.{ResourceId}
use church_management.Store.Giving.{
  OfferingType, Offering, reviewed, posted, offering_state_eq, OfferingReversal,
}
use church_management.Tx.{
  Error, Result, Tx, pure, throw_if, or_throw, find_row, throw_if_found, modify, ◌>>=◌, ◌>>◌,
}
use church_management.Identity.{Actor, record_audit}
use church_management.Finance.Policy.{write, after_check}
use church_management.Finance.Ledger.{OfferingPosting, ReverseDto, post_offering, reverse_offering}
use church_management.Finance.Offering.{event, get, get_any, replace}

abbrev pub type_of : ℕ → ℕ → Db → Option OfferingType
type_of c id db = find_first (λ t. t.church_id == c && t.id == id) db.offering_types

abbrev pub posting : Runtime → ℕ → Offering → OfferingType → OfferingPosting
posting rt id r t = record {
  given_on = rt.iso_date r.given_on;
  amount = r.amount;
  asset_account_id = r.asset_account_id;
  revenue_account_id = t.revenue_account_id;
  fund_id = t.fund_id;
  offering_id = id;
}

abbrev pub posted_row : ℕ → Offering → Offering
posted_row journal o = record o {
  state = posted;
  journal_id = some journal;
  version = o.version + 1;
}

unfoldable pub post_tx : Runtime → Actor → ℕ → ℕ → ℕ → Tx (Unit {0})
post_tx rt a c id v = do
  r ← get c id v
  throw_if (not (offering_state_eq r.state reviewed)) Error.bad
  t ← find_row (type_of c r.type_id) Error.fault
  journal ← post_offering rt a c (posting rt id r t)
  modify (replace id (posted_row journal))
  event a (posted_row journal r) "post" ""
  pure tt

-- OfferingService.post
unfoldable pub post : Runtime → Actor → ℕ → ℕ → ℕ → Db → Result (Unit {0}) × Db
unfolding post_tx
post rt a c id v =
    after_check a c "offering.read" (write rt a c "offering.post" (post_tx rt a c id v) Bool.true)

-- `receiptClaim.count({ where: { churchId, offeringId } })`
abbrev pub is_claimed : ℕ → ℕ → Db → Bool
is_claimed c id db = any (λ x. x.church_id == c && x.offering_id == id) db.claims

abbrev pub new_reversal : Actor → ℕ → ℕ → ℕ → ReverseDto → OfferingReversal
new_reversal a c id journal d = record {
  church_id = c;
  offering_id = id;
  journal_id = journal;
  reason = d.reason;
  created_by = a.user_id;
}

abbrev pub add_reversal : OfferingReversal → Db → Db
add_reversal x db = record db { offering_reversals = db.offering_reversals ++ x ∷ [] }

unfoldable pub reverse_tx : Runtime → Actor → ℕ → ℕ → ReverseDto → Tx ℕ
reverse_tx rt a c id d = do
  r ← get_any c id
  throw_if (not (offering_state_eq r.state posted) || is_none r.journal_id) Error.bad
  throw_if_found (is_claimed c id) Error.bad
  booked ← or_throw r.journal_id Error.bad
  journal ← reverse_offering rt a c booked d
  modify (add_reversal (new_reversal a c id journal d))
  record_audit a "offering.reverse" "offering" (ResourceId.row id) []
  pure journal

-- OfferingService.reverse
unfoldable pub reverse : Runtime → Actor → ℕ → ℕ → ReverseDto → Db → Result ℕ × Db
unfolding reverse_tx
reverse rt a c id d =
    after_check a c "offering.read"
      (write rt a c "offering.reverse" (reverse_tx rt a c id d) Bool.true)
