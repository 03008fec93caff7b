-- ===== src/Registry/Csv/Formulas.antt =====
-- registry/domain/csv.ts (csvCell): what a spreadsheet gets to see of a text of the tables.
use church_management.Base.{
  ℕ, ◌≤◌, ◌<◌, ◌≡◌, refl, ap, [], ◌∷◌, ◌++◌, ◌⊎◌, inl, inr, true, false, ◌||◌, All, arith,
  Bool-cases, leb,
}
use church_management.Registry.Csv.{Units, is_space_unit}
use church_management.Registry.Csv.Writer.{after_space, starts_formula, starts_control, guarded}

-- Control characters, and the white space and line ends of the language (ECMAScript).
abbrev pub IsBlank : ℕ → Type 0
IsBlank u =
    (u ≤ 32)
    ⊎ (u ≡ 160)
    ⊎ (u ≡ 5760)
    ⊎ ((8192 ≤ u) × (u ≤ 8202))
    ⊎ (u ≡ 8232)
    ⊎ (u ≡ 8233)
    ⊎ (u ≡ 8239)
    ⊎ (u ≡ 8287)
    ⊎ (u ≡ 12288)
    ⊎ (u ≡ 65279)

-- `=`, `+`, `@` and `-`
abbrev pub IsFormula : ℕ → Type 0
IsFormula u = (u ≡ 61) ⊎ (u ≡ 43) ⊎ (u ≡ 64) ⊎ (u ≡ 45)

blank_test : (u : ℕ) → IsBlank u → (leb u 32 || is_space_unit u) ≡ true
blank_test u h = ground (arith, h)

unit-IsBlank : (u : ℕ) → (leb u 32 || is_space_unit u) ≡ true → IsBlank u
unit-IsBlank u h = ground arith

formula_test : (u : ℕ) (us : Units) → IsFormula u → starts_formula (after_space (u ∷ us)) ≡ true
formula_test u us (inl e) = rw e refl
formula_test u us (inr (inl e)) = rw e refl
formula_test u us (inr (inr (inl e))) = rw e refl
formula_test u us (inr (inr (inr e))) = rw e refl

starts_formula-IsFormula : (u : ℕ) (us : Units) → starts_formula (u ∷ us) ≡ true → IsFormula u
starts_formula-IsFormula u us h = ground arith

after_space-blanks : (bs us : Units) → All IsBlank bs → after_space (bs ++ us) ≡ after_space us
after_space-blanks [] us h = refl
after_space-blanks (b ∷ bs) us h = rw (blank_test b h.0) (after_space-blanks bs us h.1)

-- What a spreadsheet takes for a formula, or for a control character: after blanks only there is a
-- character that starts a formula, or the text begins with a control character.
abbrev pub IsDangerous : Units → Type 0
IsDangerous t =
    ((bs : Units) × (u : ℕ) × (us : Units) × All IsBlank bs × (t ≡ bs ++ u ∷ us) × IsFormula u)
    ⊎ ((u : ℕ) × (us : Units) × (t ≡ u ∷ us) × (u < 32))

dangerous_test :
    (t : Units) → IsDangerous t → (starts_formula (after_space t) || starts_control t) ≡ true
dangerous_test t (inl (bs, u, us, blank, e, f)) =
    rw e (rw (after_space-blanks bs (u ∷ us) blank) (rw (formula_test u us f) refl))
dangerous_test t (inr (u, us, e, small)) = rw e (ground (arith, small))

-- The blanks in front of a text, and what is left.
blanks_of : (t : Units) → (bs : Units) × All IsBlank bs × (t ≡ bs ++ after_space t)
blanks_of [] = ([], tt, refl)
blanks_of (c ∷ cs) = elim (Bool-cases (leb c 32 || is_space_unit c)) [
  | inl e ↦
      let (bs, blank, same) = blanks_of cs in
      (c ∷ bs, (unit-IsBlank c e, blank), rw e (ap (λ x. c ∷ x) same))
  | inr e ↦ ([], tt, rw e refl)
]

formula_of :
    (t bs : Units) (us : Units)
    → All IsBlank bs
    → t ≡ bs ++ us
    → starts_formula us ≡ true
    → IsDangerous t
formula_of t bs [] blank e h = cc
formula_of t bs (u ∷ us) blank e h = inl (bs, u, us, blank, e, starts_formula-IsFormula u us h)

control_of : (t : Units) → starts_control t ≡ true → IsDangerous t
control_of [] h = cc
control_of (u ∷ us) h = inr (u, us, refl, ground arith)

starts-IsDangerous :
    (t : Units) → (starts_formula (after_space t) || starts_control t) ≡ true → IsDangerous t
starts-IsDangerous t h = elim (Bool-cases (starts_formula (after_space t))) [
  | inl e ↦ let (bs, blank, same) = blanks_of t in formula_of t bs _ blank same e
  | inr e ↦ control_of t (rw e at h)
]

safe_of_test :
    (t : Units) → (starts_formula (after_space t) || starts_control t) ≡ false → ¬ IsDangerous t
safe_of_test t h d = let k = dangerous_test t d in cc

-- What the writer puts between quotes is never a text that a spreadsheet takes for a formula, whatever
-- blanks stand in front, and never begins with a control character. Where the text is such a one, an
-- apostrophe (39) is put in front of it, and every other text is left as it is.
pub guarded_is_safe :
    (t : Units)
    → (¬ IsDangerous (guarded t))
      × ((IsDangerous t × (guarded t ≡ 39 ∷ t)) ⊎ ((¬ IsDangerous t) × (guarded t ≡ t)))
unfolding guarded
guarded_is_safe t = elim (Bool-cases (starts_formula (after_space t) || starts_control t)) [
  | inl e ↦ rw e (safe_of_test (39 ∷ t) refl, inl (starts-IsDangerous t e, refl))
  | inr e ↦ rw e (safe_of_test t e, inr (safe_of_test t e, refl))
]
