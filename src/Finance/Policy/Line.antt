-- ===== src/Finance/Policy/Line.antt =====
-- finance/domain/policy.ts: the test of a line of approvers, and what it means.
use church_management.Base.{
  ℕ, ◌≤◌, ◌≡◌, ◌≢◌, ◌↔◌, refl, List, [], ◌∷◌, Bool, true, false, not, ◌&&◌, ◌==◌, ==-self, leb,
  length, All, All-weaken, All-any-false, any-false-All, Pairwise, Bool-cases, inl, inr, arith,
}
use church_management.Finance.Policy.{includes, set_size_from, valid_approval_line}

-- One to five different approvers, none of them the requester.
pub record IsLine (ids : List ℕ) (requester : ℕ) : Type 0 where
  pub some_one : 1 ≤ length ids
  pub at_most_five : length ids ≤ 5
  pub distinct : Pairwise (λ x y. x ≢ y) ids
  pub not_the_requester : All (λ x. x ≢ requester) ids

size_le : (seen xs : List ℕ) → set_size_from seen xs ≤ length xs
size_le seen [] = omega arith
size_le seen (x ∷ xs) = ground (arith, size_le seen xs, size_le (x ∷ seen) xs)

neq_of : (x y : ℕ) → (x == y) ≡ false → x ≢ y
neq_of x y h e = ground (arith, ==-self y)

neq_test : (x y : ℕ) → x ≢ y → (x == y) ≡ false
neq_test x y h = ground arith

distinct_of :
    (seen xs : List ℕ)
    → set_size_from seen xs ≡ length xs
    → All (λ y. includes seen y ≡ false) xs × Pairwise (λ x y. x ≢ y) xs
distinct_of seen [] h = (tt, tt)
distinct_of seen (x ∷ xs) h = elim (Bool-cases (includes seen x)) [
  | inl e ↦ absurd (ground (arith, size_le (x ∷ seen) xs))
  | inr e ↦
      let (fresh, apart) = distinct_of (x ∷ seen) xs (ground arith) in
      (
        (e, All-weaken (λ y k. old y k) xs fresh),
        (All-weaken (λ y k. neq_of x y (new y k)) xs fresh, apart),
      )
]
  where
    old : (y : ℕ) → includes (x ∷ seen) y ≡ false → includes seen y ≡ false
    old y k = ground arith

    new : (y : ℕ) → includes (x ∷ seen) y ≡ false → (x == y) ≡ false
    new y k = ground arith

both :
    (seen : List ℕ) (x : ℕ) (xs : List ℕ)
    → All (λ y. includes seen y ≡ false) xs
    → All (λ y. x ≢ y) xs
    → All (λ y. includes (x ∷ seen) y ≡ false) xs
both seen x [] h k = tt
both seen x (y ∷ ys) h k = (ground (arith, neq_test x y k.0, h.0), both seen x ys h.1 k.1)

of_distinct :
    (seen xs : List ℕ)
    → All (λ y. includes seen y ≡ false) xs
    → Pairwise (λ x y. x ≢ y) xs
    → set_size_from seen xs ≡ length xs
of_distinct seen [] h k = refl
of_distinct seen (x ∷ xs) h k =
    let rest = of_distinct (x ∷ seen) xs (both seen x xs h.1 k.0) k.1 in ground (arith, h.0, rest)

none_seen : (xs : List ℕ) → All (λ y. includes [] y ≡ false) xs
none_seen [] = tt
none_seen (x ∷ xs) = (refl, none_seen xs)

line_facts :
    (ids : List ℕ) (m : ℕ) (r : Bool)
    → (leb 1 (length ids) && leb (length ids) 5 && m == length ids && not r) ≡ true
    → (1 ≤ length ids) × (length ids ≤ 5) × (m ≡ length ids) × (r ≡ false)
line_facts ids m r h = ground arith

line_test :
    (ids : List ℕ) (m : ℕ) (r : Bool)
    → 1 ≤ length ids
    → length ids ≤ 5
    → m ≡ length ids
    → r ≡ false
    → (leb 1 (length ids) && leb (length ids) 5 && m == length ids && not r) ≡ true
line_test ids m r low high size absent = ground arith

-- The test accepts exactly the lines of one to five different approvers without the requester.
pub valid_approval_line-IsLine :
    (ids : List ℕ) (requester : ℕ)
    → (valid_approval_line ids requester ≡ true) ↔ IsLine ids requester
unfolding valid_approval_line
valid_approval_line-IsLine ids requester = (to, from)
  where
    to :
        (leb 1 (length ids)
            && leb (length ids) 5
            && set_size_from [] ids == length ids
            && not (includes ids requester))
          ≡ true
        → IsLine ids requester
    to h =
        let (low, high, size, absent) = line_facts ids _ _ h in
        record {
          some_one = low;
          at_most_five = high;
          distinct = (distinct_of [] ids size).1;
          not_the_requester =
              All-weaken (λ y k. neq_of y requester k) ids (All-any-false _ ids absent);
        }

    from :
        IsLine ids requester
        → (leb 1 (length ids)
            && leb (length ids) 5
            && set_size_from [] ids == length ids
            && not (includes ids requester))
          ≡ true
    from l =
        line_test ids _ _ l.some_one l.at_most_five (of_distinct [] ids (none_seen ids) l.distinct)
          (any-false-All _ ids (All-weaken (λ y k. neq_test y requester k) ids l.not_the_requester))
