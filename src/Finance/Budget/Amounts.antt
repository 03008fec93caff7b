-- ===== src/Finance/Budget/Amounts.antt =====
-- finance/domain/budget-amounts.ts: the amounts of a budget row as texts, and its rate of execution.
use text.Mathlib.Text.{◌==◌ as str_eq}
use native.Mathlib.Omega.{div_any}
use native.Mathlib.Nat.{mod-lt}
use church_management.Base.{
  ℕ, zero, suc, &&-true, Bool-cases, ◌==◌, eq_of_==, eq_iff, ◌⊎◌, inl, inr, ap, ◌+◌, ◌*◌, ◌/◌, ◌%◌,
  ◌≤◌, ◌<◌, ◌≡◌, refl, String, join, Bool, true, false, Option, none, some, ltb, ◌&&◌,
  if◌then◌else◌, ℤ, pos, negsuc, ◌-ℤ◌, decimal, pad_start, arith,
}

-- BudgetAmounts of packages/contracts/src/budgets.ts.
pub record BudgetAmounts : Type 0 where
  pub budget : Option String
  pub actual : String
  pub remaining : Option String
  pub execution_rate : Option String

abbrev pub is_negative : ℤ → Bool
is_negative (pos n) = false
is_negative (negsuc n) = true

abbrev pub magnitude : ℤ → ℕ
magnitude (pos n) = n
magnitude (negsuc n) = suc n

-- `String(z)`
abbrev pub text_of : ℤ → String
text_of (pos n) = decimal n
text_of (negsuc n) = join "-" (decimal (suc n))

-- The magnitude of `(actual * 10000n) / budget`: a division of bigints drops the fraction.
abbrev pub points : ℤ → ℕ → ℕ
points actual budget = magnitude actual * 10000 / budget

-- The quotient is negative if the actual amount is, unless it is zero.
abbrev pub rate_text : Bool → ℕ → String
rate_text negative m =
    join (if negative && ltb 0 m then "-" else "")
      (join (decimal (m / 100)) (join "." (pad_start 2 (decimal (m % 100)))))

abbrev pub execution_rate_of : Option ℤ → ℤ → Option String
execution_rate_of (some (pos (suc b))) actual =
    some (rate_text (is_negative actual) (points actual (suc b)))
execution_rate_of _ actual = none

-- budgetAmounts
unfoldable pub budget_amounts : Option ℤ → ℤ → BudgetAmounts
budget_amounts budget actual = record {
  budget = elim budget [ none ↦ none | some b ↦ some (text_of b) ];
  actual = text_of actual;
  remaining = elim budget [ none ↦ none | some b ↦ some (text_of (b -ℤ actual)) ];
  execution_rate = execution_rate_of budget actual;
}

test_below : ℕ → (ℕ → Bool) → Bool
test_below zero p = true
test_below (suc n) p = p n && test_below n p

below : (k : ℕ) (p : ℕ → Bool) → test_below k p ≡ true → (n : ℕ) → n < k → p n ≡ true
unfolding test_below
below zero p h n small = ground (arith, small)
below (suc k) p h n small =
    let (here, rest) = &&-true (p k) _ h in
    elim (Bool-cases (n == k)) [
      | inl e ↦ rw (eq_of_== n k e) here
      | inr e ↦ below k p rest n (ground arith)
    ]

-- The two digits of a number below 100.
two_digits :
    (n : ℕ) → n < 100 → pad_start 2 (decimal n) ≡ join (decimal (n / 10)) (decimal (n % 10))
unfolding decimal test_below
two_digits n small =
    (eq_iff (pad_start 2 (decimal n)) (join (decimal (n / 10)) (decimal (n % 10)))).0 (
      below 100 (λ k. str_eq (pad_start 2 (decimal k)) (join (decimal (k / 10)) (decimal (k % 10))))
        refl n small)

-- A text of the share of `actual` in `budget` as a percentage with two digits after the point, cut off
-- toward zero: an optional sign, the whole part and two digits.
pub record IsRate (budget : ℕ) (actual : ℤ) (text : String) : Type 0 where
  pub size : ℕ
  pub sign : String
  pub whole : ℕ
  pub tens : ℕ
  pub ones : ℕ
  pub written :
      text ≡ join sign (join (decimal whole) (join "." (join (decimal tens) (decimal ones))))
  pub signed :
      ((actual ≡ pos size) × (sign ≡ ""))
      ⊎ ((k : ℕ) × (actual ≡ negsuc k)
          × (size ≡ suc k)
          × (whole * 100 + tens * 10 + ones ≡ 0)
          × (sign ≡ ""))
      ⊎ ((k : ℕ) × (actual ≡ negsuc k)
          × (size ≡ suc k)
          × (1 ≤ whole * 100 + tens * 10 + ones)
          × (sign ≡ "-"))
  pub digits : (tens ≤ 9) × (ones ≤ 9)
  pub not_above : budget * (whole * 100 + tens * 10 + ones) ≤ size * 10000
  pub not_below : size * 10000 < budget * (whole * 100 + tens * 10 + ones) + budget

-- The digits of a number of hundredths of a percent.
digits_of : (m : ℕ) → m / 100 * 100 + m % 100 / 10 * 10 + m % 100 % 10 ≡ m
digits_of m = omega (arith, div_any m 100, div_any (m % 100) 10)

small_digits : (n : ℕ) → n < 100 → n / 10 ≤ 9
small_digits n h = omega (arith, h, div_any n 10)

sign_of : ℤ → ℕ → String
sign_of actual m = if is_negative actual && ltb 0 m then "-" else ""

signed_cases :
    (actual : ℤ) (m n : ℕ)
    → n ≡ m
    → ((actual ≡ pos (magnitude actual)) × (sign_of actual m ≡ ""))
      ⊎ ((k : ℕ) × (actual ≡ negsuc k)
          × (magnitude actual ≡ suc k)
          × (n ≡ 0)
          × (sign_of actual m ≡ ""))
      ⊎ ((k : ℕ) × (actual ≡ negsuc k)
          × (magnitude actual ≡ suc k)
          × (1 ≤ n)
          × (sign_of actual m ≡ "-"))
unfolding sign_of
signed_cases (pos k) m n same = inl (refl, refl)
signed_cases (negsuc k) zero n same = inr (inl (k, refl, refl, same, refl))
signed_cases (negsuc k) (suc m) n same =
    let positive : ltb 0 (suc m) ≡ true = ground arith in
    inr (inr (k, refl, refl, omega (arith, same), rw positive refl))

-- The rate of execution of a positive budget is the percentage of the actual amount in it, with two
-- digits after the point, cut off toward zero, and with a sign in front if it is below zero.
pub budget_amounts-IsRate :
    (b : ℕ) (actual : ℤ)
    → (text : String) × ((budget_amounts (some (pos (suc b))) actual).execution_rate ≡ some text)
      × IsRate (suc b) actual text
unfolding budget_amounts sign_of
budget_amounts-IsRate b actual =
    let n = magnitude actual * 10000 in
    let m = points actual (suc b) in
    let parts : suc b * (n / suc b) + n % suc b ≡ n = div_any n (suc b) in
    let small : n % suc b < suc b = mod-lt n (omega arith) in
    let rest : m % 100 < 100 = mod-lt m (omega arith) in
    let last : m % 100 % 10 < 10 = mod-lt (m % 100) (omega arith) in
    let same = digits_of m in
    (
      rate_text (is_negative actual) m,
      refl,
      record {
        size = magnitude actual;
        sign = sign_of actual m;
        whole = m / 100;
        tens = m % 100 / 10;
        ones = m % 100 % 10;
        written =
            ap (λ t. join (sign_of actual m) (join (decimal (m / 100)) (join "." t)))
              (two_digits (m % 100) rest);
        signed = signed_cases actual m _ same;
        digits = (small_digits _ rest, omega (arith, last));
        not_above = rw same (le_of n _ _ parts);
        not_below = rw same (lt_of n _ _ (suc b) parts small);
      },
    )
  where
    le_of : (n q r : ℕ) → q + r ≡ n → q ≤ n
    le_of n q r h = omega (arith, h)

    lt_of : (n q r s : ℕ) → q + r ≡ n → r < s → n < q + s
    lt_of n q r s h k = omega (arith, h, k)
