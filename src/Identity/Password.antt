-- ===== src/Identity/Password.antt =====
-- identity/infrastructure/password.ts: passwords, tokens and one-time codes. The primitives of
-- `node:crypto` and the runtime's texts are parameters.
pub mod Laws
use text.Mathlib.Text.{◌==◌ as str_eq}
use Prim.Native.Char.{code}
use church_management.Base.{
  ℕ, suc, ◌+◌, ◌-◌, ◌*◌, ◌/◌, ◌%◌, ◌^◌, String, List, [], ◌∷◌, Bool, true, false, not, ◌&&◌, ◌||◌,
  Option, none, some, if◌then◌else◌, ltb, leb, ◌==◌, get_elem?, length, decimal, pad_start, join,
}

pub record Platform : Type 0 where
  -- `scrypt` with the salt and the source's parameters, as bytes
  pub scrypt : String → String → List ℕ
  -- `Buffer.from(s, 'hex')`
  pub from_hex : String → List ℕ
  -- the hexadecimal text of SHA-256, and of HMAC-SHA-256 with a key
  pub sha256 : String → String
  pub hmac_sha256 : String → String → String
  -- the bytes of HMAC-SHA-1 of a counter, with a key that is given in hexadecimal
  pub hmac_sha1 : String → ℕ → List ℕ
  -- `decryptSecret` with the server's key; none where it throws
  pub decrypt : String → Option String
  -- `randomBytes(32).toString('hex')`
  pub random_token : String
  -- `randomBytes(16).toString('hex')`, and the hexadecimal text of bytes
  pub random_salt : String
  pub to_hex : List ℕ → String
  -- `toLowerCase`, and the text of an id
  pub lower : String → String
  pub id_text : ℕ → String

abbrev pub bytes_eq : List ℕ → List ℕ → Bool
bytes_eq [] [] = true
bytes_eq [] (y ∷ ys) = false
bytes_eq (x ∷ xs) [] = false
bytes_eq (x ∷ xs) (y ∷ ys) = x == y && bytes_eq xs ys

-- `s.split('$')`: the part up to the first `$`, and the parts after it.
unfoldable pub split_dollar : String → String × List String
split_dollar String.[] = (String.[], [])
split_dollar (String.◌∷◌ c s) =
    let (first, rest) = split_dollar s in
    if code c == 36 then (String.[], first ∷ rest) else (String.◌∷◌ c first, rest)

abbrev pub or_else : Option String → String → String
or_else none s = s
or_else (some t) s = t

-- `s.length`: a character above U+FFFF is two code units.
abbrev pub utf16_length : String → ℕ
utf16_length String.[] = 0
utf16_length (String.◌∷◌ c s) = (if ltb 65535 (code c) then 2 else 1) + utf16_length s

-- hashPassword; none where it throws
unfoldable pub hash_password : Platform → String → Option String
hash_password p password =
    if ltb (utf16_length password) 12 || ltb 128 (utf16_length password)
    then none
    else some (
        join "scrypt$" (join p.random_salt (join "$" (p.to_hex (p.scrypt password p.random_salt)))))

-- verifyPassword
unfoldable pub verify_password : Platform → String → Option String → Bool
unfolding split_dollar
verify_password p password stored =
    let (kind, parts) = split_dollar (or_else stored "") in
    let derived =
      p.scrypt password (or_else (get_elem? parts 0) "00000000000000000000000000000000") in
    let expected = p.from_hex (or_else (get_elem? parts 1) "") in
    str_eq kind "scrypt" && bytes_eq expected derived

abbrev pub token_hash : Platform → String → String
token_hash p token = p.sha256 token

abbrev pub csrf_token : Platform → String → String
csrf_token p token = p.hmac_sha256 token "church-csrf"

abbrev pub byte_at : List ℕ → ℕ → ℕ
byte_at hash i = elim (get_elem? hash i) [ none ↦ 0 | some b ↦ b ]

-- `hash.readUInt32BE(offset)`
abbrev pub read_uint32 : List ℕ → ℕ → ℕ
read_uint32 hash i =
    ((byte_at hash i * 256 + byte_at hash (i + 1)) * 256 + byte_at hash (i + 2)) * 256
    + byte_at hash (i + 3)

-- totp at a time
unfoldable pub totp : Platform → String → ℕ → String
totp p secret time =
    let hash = p.hmac_sha1 secret (time / 30000) in
    let offset = byte_at hash (length hash - 1) % 16 in
    pad_start 6 (decimal ((read_uint32 hash offset % 2 ^ 31) % 1000000))

abbrev pub digits_only : String → Bool
digits_only String.[] = true
digits_only (String.◌∷◌ c s) = leb 48 (code c) && leb (code c) 57 && digits_only s

abbrev pub char_count : String → ℕ
char_count String.[] = 0
char_count (String.◌∷◌ c s) = suc (char_count s)

-- `/^\d{6}$/`
abbrev pub is_code : String → Bool
is_code s = char_count s == 6 && digits_only s

-- matchingTotpCounter: the step before, this one and the next, in this order.
unfoldable pub matching_totp_counter : Platform → ℕ → String → String → Option ℕ
unfolding totp
matching_totp_counter p now secret value =
    if not (is_code value)
    then none
    else if str_eq (totp p secret (now - 30000)) value
    then some ((now - 30000) / 30000)
    else if str_eq (totp p secret now) value
    then some (now / 30000)
    else if str_eq (totp p secret (now + 30000)) value
    then some ((now + 30000) / 30000)
    else none
