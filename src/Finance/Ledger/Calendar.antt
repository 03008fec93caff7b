-- ===== src/Finance/Ledger/Calendar.antt =====
-- ledger.service.ts: accounts, funds and accounting periods.
use church_management.Base.{
  ℕ, String, [], ◌∷◌, ◌++◌, Bool, true, ◌&&◌, Option, none, some, ltb, leb, ◌==◌, is_some,
  find_first, any, update_where,
}
use church_management.Runtime.{Runtime}
use church_management.Store.{Db}
use church_management.Store.People.{ResourceId}
use church_management.Store.Books.{AccountKind, FinancePeriod}
use church_management.Tx.{
  Error, Result, Tx, pure, throw_if, find_row, throw_if_found, modify, ◌>>=◌, ◌>>◌,
}
use church_management.Identity.{Actor, record_audit}
use church_management.Finance.Policy.{write, date}

pub record AccountDto : Type 0 where
  pub code : String
  pub name : String
  pub kind : AccountKind

pub record PeriodDto : Type 0 where
  pub name : String
  pub starts_on : String
  pub ends_on : String

-- LedgerService.account
unfoldable pub create_account : Runtime → Actor → ℕ → AccountDto → Db → Result ℕ × Db
create_account rt a c d =
    write rt a c "finance.manage"
      (do
        modify λ db. record db {
          accounts =
              db.accounts
              ++ record {
                id = rt.new_id 0;
                church_id = c;
                code = d.code;
                name = d.name;
                kind = d.kind;
              }
                ∷ [];
        }
        record_audit a "finance.account.create" "account" (ResourceId.row (rt.new_id 0)) []
        pure (rt.new_id 0))
      true

-- LedgerService.fund
unfoldable pub create_fund : Runtime → Actor → ℕ → String → Db → Result ℕ × Db
create_fund rt a c name =
    write rt a c "finance.manage"
      (do
        modify λ db. record db {
          funds = db.funds ++ record { id = rt.new_id 0; church_id = c; name = name } ∷ [];
        }
        record_audit a "finance.fund.create" "fund" (ResourceId.row (rt.new_id 0)) []
        pure (rt.new_id 0))
      true

-- The new period and an existing one of the church share a day.
abbrev pub overlaps : ℕ → ℕ → ℕ → FinancePeriod → Bool
overlaps c first last p = p.church_id == c && leb p.starts_on last && leb first p.ends_on

abbrev pub new_period : Runtime → ℕ → PeriodDto → ℕ → ℕ → FinancePeriod
new_period rt c d first last = record {
  id = rt.new_id 0;
  church_id = c;
  name = d.name;
  starts_on = first;
  ends_on = last;
  closed_at = none;
}

abbrev pub add_period : FinancePeriod → Db → Db
add_period p db = record db { periods = db.periods ++ p ∷ [] }

unfoldable pub period_tx : Runtime → Actor → ℕ → PeriodDto → Tx ℕ
period_tx rt a c d = do
  first ← date rt d.starts_on
  last ← date rt d.ends_on
  throw_if (ltb last first) Error.bad
  throw_if_found (λ db. any (overlaps c first last) db.periods) Error.bad
  modify (add_period (new_period rt c d first last))
  record_audit a "finance.period.create" "period" (ResourceId.row (rt.new_id 0)) []
  pure (rt.new_id 0)

-- LedgerService.period
unfoldable pub create_period : Runtime → Actor → ℕ → PeriodDto → Db → Result ℕ × Db
unfolding period_tx
create_period rt a c d = write rt a c "finance.manage" (period_tx rt a c d) true

abbrev pub period_of : ℕ → ℕ → Db → Option FinancePeriod
period_of c id db = find_first (λ p. p.id == id && p.church_id == c) db.periods

abbrev pub close_period : ℕ → ℕ → Db → Db
close_period id now db = record db {
  periods = update_where (λ p. p.id == id) (λ p. record p { closed_at = some now }) db.periods;
}

unfoldable pub close_tx : Runtime → Actor → ℕ → ℕ → Tx (Unit {0})
close_tx rt a c id = do
  row ← find_row (period_of c id) Error.missing
  throw_if (is_some row.closed_at) Error.bad
  modify (close_period id rt.now)
  record_audit a "finance.period.close" "period" (ResourceId.row id) []
  pure tt

-- LedgerService.close
unfoldable pub close : Runtime → Actor → ℕ → ℕ → Db → Result (Unit {0}) × Db
unfolding close_tx
close rt a c id = write rt a c "finance.close" (close_tx rt a c id) true
