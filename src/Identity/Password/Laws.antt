-- ===== src/Identity/Password/Laws.antt =====
-- identity/infrastructure/password.ts: a password is accepted against its own hash.
use text.Mathlib.Text.{◌==◌ as str_eq}
use Prim.Native.String.append.{nil, cons}
use text.Mathlib.TextLemmas.{append_assoc}
use Prim.Native.Char.{Char, code}
use church_management.Base.{
  ℕ, ◌≡◌, refl, sym, ap, ◌∙◌, String, List, [], ◌∷◌, Bool, true, false, not, ◌&&◌, ◌||◌, none, some,
  if◌then◌else◌, ltb, ◌==◌, ==-self, get_elem?, &&-true, arith, join,
}
use church_management.Identity.Password.{
  Platform, bytes_eq, split_dollar, or_else, verify_password, hash_password, utf16_length,
}

-- A text without `$`.
abbrev pub no_dollar : String → Bool
no_dollar String.[] = true
no_dollar (String.◌∷◌ c s) = not (code c == 36) && no_dollar s

false_of_not : (b : Bool) → not b ≡ true → b ≡ false
false_of_not b h = ground arith

bytes_eq_self : (xs : List ℕ) → bytes_eq xs xs ≡ true
bytes_eq_self [] = refl
bytes_eq_self (x ∷ xs) = ground (arith, ==-self x, bytes_eq_self xs)

dollar : Char
dollar = "$"

split_dollar-at :
    (t : String) → split_dollar (join "$" t) ≡ ("", (split_dollar t).0 ∷ (split_dollar t).1)
unfolding split_dollar dollar
split_dollar-at t = ap split_dollar (cons dollar "" t ∙ ap (String.◌∷◌ dollar) (nil t))

-- A text before a `$` is a part of its own.
split_dollar-join :
    (s t : String)
    → no_dollar s ≡ true
    → split_dollar (join s (join "$" t)) ≡ (s, (split_dollar t).0 ∷ (split_dollar t).1)
unfolding split_dollar
split_dollar-join String.[] t h = ap split_dollar (nil (join "$" t)) ∙ split_dollar-at t
split_dollar-join (String.◌∷◌ c s) t h =
    let (plain, rest) = &&-true (not (code c == 36)) _ h in
    ap split_dollar (cons c s (join "$" t))
    ∙ rw (false_of_not _ plain, split_dollar-join s t rest) refl

split_dollar_whole : (s : String) → no_dollar s ≡ true → split_dollar s ≡ (s, [])
unfolding split_dollar
split_dollar_whole String.[] h = refl
split_dollar_whole (String.◌∷◌ c s) h =
    let (plain, rest) = &&-true (not (code c == 36)) _ h in
    rw (false_of_not _ plain, split_dollar_whole s rest) refl

-- The stored text of a password, as `verifyPassword` takes it apart.
parts_of_hash :
    (salt hex : String)
    → no_dollar salt ≡ true
    → no_dollar hex ≡ true
    → split_dollar (join "scrypt$" (join salt (join "$" hex))) ≡ ("scrypt", salt ∷ hex ∷ [])
parts_of_hash salt hex h k =
    ap split_dollar (append_assoc "scrypt" "$" (join salt (join "$" hex)))
    ∙ split_dollar-join "scrypt" (join salt (join "$" hex)) refl
    ∙ ap (λ (x : String × List String). ("scrypt", x.0 ∷ x.1))
        (split_dollar-join salt hex h
          ∙ ap (λ (x : String × List String). (salt, x.0 ∷ x.1)) (split_dollar_whole hex k))

made : (b : Bool) (t : String) {h : String} → (if b then none else some t) ≡ some h → t ≡ h
made true t h = cc
made false t h = cc

-- A password that has been hashed is accepted against its hash: the salt and the hexadecimal text have no `$`,
-- and the bytes are read back from their text.
pub verify_password-hash_password :
    (p : Platform) (password h : String)
    → no_dollar p.random_salt ≡ true
    → no_dollar (p.to_hex (p.scrypt password p.random_salt)) ≡ true
    → p.from_hex (p.to_hex (p.scrypt password p.random_salt)) ≡ p.scrypt password p.random_salt
    → hash_password p password ≡ some h
    → verify_password p password (some h) ≡ true
unfolding hash_password verify_password
verify_password-hash_password p password h plain_salt plain_hex reads hashed =
    let bytes = p.scrypt password p.random_salt in
    let same : join "scrypt$" (join p.random_salt (join "$" (p.to_hex bytes))) ≡ h =
      made (ltb (utf16_length password) 12 || ltb 128 (utf16_length password)) _ hashed in
    let parts : split_dollar h ≡ ("scrypt", p.random_salt ∷ p.to_hex bytes ∷ []) =
      ap split_dollar (sym same)
      ∙ parts_of_hash p.random_salt (p.to_hex bytes) plain_salt plain_hex in
    ap accepts parts ∙ ap (λ b. bytes_eq b bytes) reads ∙ bytes_eq_self bytes
  where
    accepts : String × List String → Bool
    accepts x =
        str_eq x.0 "scrypt"
        && bytes_eq (p.from_hex (or_else (get_elem? x.1 1) ""))
            (p.scrypt password (or_else (get_elem? x.1 0) "00000000000000000000000000000000"))
