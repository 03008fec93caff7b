-- ===== src/Finance/Policy.antt =====
-- finance/application/finance-policy.service.ts and finance/domain/policy.ts: transactions that are
-- authorised and audited, dates, open periods, and the rules on approval lines.
pub mod Laws
pub mod Line
pub mod Refusals
use Prim.Native.String.{compare}
use text.Mathlib.Text.{is_lt}
use church_management.Base.{
  ℕ, zero, suc, ◌+◌, ◌*◌, ◌-◌, ◌≡◌, String, List, [], ◌∷◌, Bool, true, false, not, ◌&&◌, Option,
  none, some, ltb, leb, ◌==◌, if◌then◌else◌, is_none, find_first, any, length, take, get_elem?,
}
use text.Mathlib.Text.{◌==◌ as str_eq}
use church_management.Runtime.{Runtime}
use church_management.Store.{Db}
use church_management.Store.People.{Church, ResourceId}
use church_management.Store.Books.{AccountKind, kind_eq, FinanceAccount, FinancePeriod}
use church_management.Tx.{
  Error, Result, ok, err, Tx, pure, throw_if, or_throw, find_row, throw_if_found, ◌>>=◌, ◌>>◌,
}
use church_management.Identity.{Actor, check, add_audit, audit_event}

-- `ids.includes(x)`
abbrev pub includes : List ℕ → ℕ → Bool
includes ids x = any (λ y. y == x) ids

-- `new Set(ids).size`: each id counts where it stands first.
abbrev pub set_size_from : List ℕ → List ℕ → ℕ
set_size_from seen [] = 0
set_size_from seen (x ∷ xs) =
    let rest = set_size_from (x ∷ seen) xs in if includes seen x then rest else suc rest

unfoldable pub valid_approval_line : List ℕ → ℕ → Bool
valid_approval_line ids requester =
    leb 1 (length ids)
    && leb (length ids) 5
    && set_size_from [] ids == length ids
    && not (includes ids requester)

unfoldable pub can_pay : ℕ → List ℕ → ℕ → Bool
can_pay requester approvers payer = not (requester == payer) && not (includes approvers payer)

-- The request's validation has made `value` a whole number that is not negative.
unfoldable pub integer_won : ℕ → Bool
integer_won value = leb value 9007199254740991 && leb 1 value && leb value 999999999999

-- One page of rows and the id of its last row, if there are more.
unfoldable pub page {ℓ} : {A : Type ℓ} → (A → ℕ) → List A → ℕ → List A × Option ℕ
page id_of rows limit = (
  take limit rows,
  if ltb limit (length rows)
      then elim (get_elem? rows (limit - 1)) [ none ↦ none | some r ↦ some (id_of r) ]
      else none,
)

abbrev pub authenticated_or_zero : Option ℕ → ℕ
authenticated_or_zero none = 0
authenticated_or_zero (some t) = t

-- FinancePolicy.recent throws when the login is older than fifteen minutes.
unfoldable pub is_recent : Runtime → Actor → Bool
is_recent rt a = leb rt.now (authenticated_or_zero a.authenticated_at + 900000)

-- `e instanceof ForbiddenException || e instanceof NotFoundException`
abbrev pub is_denial : Error → Bool
is_denial Error.denied = true
is_denial Error.missing = true
is_denial Error.church_scope_violation = true
is_denial Error.permission_denied = true
is_denial Error.mfa_required = true
is_denial _ = false

-- The transaction and the handler of its exceptions: what was written is kept only on success, and
-- a denial leaves its audit event.
unfoldable pub transact : {A : Type 0} → Actor → Tx A → Db → Result A × Db
transact a fn db = elim (fn db) [
  | ok (x, db') ↦ (ok x, db')
  | err e ↦ (
    err e,
    if is_denial e
        then add_audit (audit_event a "finance.denied" "finance" ResourceId.restricted [] "denied")
            db
        else db,
  )
]

unfoldable pub write :
    {A : Type 0} → Runtime → Actor → ℕ → String → Tx A → Bool → Db → Result A × Db
unfolding transact check
write rt a c p fn recent db = elim (check a c p db) [
  | err e ↦ (err e, db)
  | ok _ ↦
      if recent && not (is_recent rt a)
      then (err Error.reauthentication_required, db)
      else transact a fn db
]

-- `this.p.check(a, c, p)` before the transaction of an operation.
unfoldable pub after_check :
    {A : Type 0} → Actor → ℕ → String → (Db → Result A × Db) → Db → Result A × Db
unfolding check
after_check a c p op db = elim (check a c p db) [ err e ↦ (err e, db) | ok _ ↦ op db ]

-- FinancePolicy.date
unfoldable pub date : Runtime → String → Tx ℕ
date rt s = do
  d ← or_throw (rt.parse_date s) Error.bad
  throw_if (not (str_eq (rt.iso_date d) s)) Error.bad
  pure d

-- `s > today` on texts
abbrev pub text_gt : String → String → Bool
text_gt s t = is_lt (compare t s)

abbrev pub church_of : ℕ → Db → Option Church
church_of c db = find_first (λ x. x.id == c) db.churches

abbrev pub covers : ℕ → ℕ → FinancePeriod → Bool
covers c d p = p.church_id == c && is_none p.closed_at && leb p.starts_on d && leb d p.ends_on

-- The open period of a day that is not in the future, and the day.
unfoldable pub open_period : Runtime → ℕ → String → Tx (FinancePeriod × ℕ)
open_period rt c s = do
  d ← date rt s
  church ← find_row (church_of c) Error.fault
  throw_if (text_gt s (rt.today church.timezone)) Error.bad
  period ← find_row (λ db. find_first (covers c d) db.periods) Error.bad
  pure (period, d)

abbrev pub account_of : ℕ → ℕ → AccountKind → FinanceAccount → Bool
account_of c id kind x = x.id == id && x.church_id == c && kind_eq x.kind kind

-- FinancePolicy.account: the account exists in the church and has the kind.
unfoldable pub account : ℕ → ℕ → AccountKind → Tx (Unit {0})
account c id kind = throw_if_found (λ db. not (any (account_of c id kind) db.accounts)) Error.bad
