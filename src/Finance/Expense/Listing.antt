-- ===== src/Finance/Expense/Listing.antt =====
-- expense.service.ts (candidates): the page of the people who may be asked for an approval.
use church_management.Base.{
  ℕ, ◌+◌, List, Bool, true, not, ◌&&◌, Option, none, some, ltb, leb, ◌==◌, take, select, sort_by,
  includes_text,
}
use church_management.Store.{Db}
use church_management.Store.People.{User}
use church_management.Tx.{Result, ok, err}
use church_management.Identity.{Actor, check}
use church_management.Finance.Policy.{page}

-- `q.cursor ? { gt: q.cursor } : {}`
abbrev pub is_after : Option ℕ → ℕ → Bool
is_after none id = true
is_after (some cursor) id = ltb cursor id

-- An active user of the church, other than the caller, whose roles let him approve expenses.
abbrev pub is_candidate : Actor → ℕ → Option ℕ → User → Bool
is_candidate a c cursor u =
    u.church_id == c
    && u.active
    && not (u.id == a.user_id)
    && is_after cursor u.id
    && includes_text u.permissions "expense.approve"

-- `q.limit ?? 100`
abbrev pub page_size : Option ℕ → ℕ
page_size none = 100
page_size (some n) = n

-- ExpenseService.candidates
unfoldable pub candidates : Actor → ℕ → Option ℕ → Option ℕ → Db → Result (List User × Option ℕ)
unfolding check page
candidates a c cursor limit db = elim (check a c "expense.read" db) [
  | err e ↦ err e
  | ok _ ↦ ok (
      page (λ u. u.id)
        (take (page_size limit + 1)
          (sort_by (λ u v. leb u.id v.id) (select (is_candidate a c cursor) db.users)))
        (page_size limit))
]
