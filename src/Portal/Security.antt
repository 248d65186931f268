-- ===== src/Portal/Security.antt =====
-- Password hashes: portal/app/security.py.
pub mod RoundTrip
pub mod Tests
use Prim.Native.Char.{code}
use Prim.Native.String.{[], ◌∷◌, count, ◌++◌}
use cascade_vpn.Base.{
  ℕ, zero, suc, ◌-◌, ◌%◌, String, Bool, false, ◌&&◌, ◌||◌, not, Option, none, some, List, length,
  leb, ◌==◌, str_eq, list_eq, is_some, all_chars, if◌then◌else◌,
}

-- The functions of the standard library that the module calls; `none` is an exception.
pub record Crypto : Type 0 where
  -- `int(...)`, where that is not negative
  pub int_of_text : String → Option ℕ
  pub decimal : ℕ → String
  -- `base64.urlsafe_b64encode(value)`, and `.rstrip(b"=")` of it
  pub b64encode : List ℕ → String
  pub strip_equals : String → String
  -- `base64.b64decode(value, altchars=b"-_", validate=True)`
  pub b64decode : String → Option (List ℕ)
  pub encode_utf8 : String → Option (List ℕ)
  pub pbkdf2 : List ℕ → List ℕ → ℕ → List ℕ

abbrev pub password_algorithm : String
password_algorithm = "pbkdf2_sha256"

abbrev pub min_password_iterations : ℕ
min_password_iterations = 100000

abbrev pub max_password_iterations : ℕ
max_password_iterations = 10000000

-- `SAFE_CODE`, the pattern of short codes
pub is_code_char : ℕ → Bool
is_code_char c =
    (leb 65 c && leb c 90)
    || (leb 97 c && leb c 122)
    || (leb 48 c && leb c 57)
    || c == 95
    || c == 45

pub is_safe_code : String → Bool
unfolding is_code_char
is_safe_code code = leb 4 (count code) && leb (count code) 32 && all_chars is_code_char code

unfoldable pub encode_base64 : Crypto → List ℕ → String
encode_base64 c value = c.strip_equals (c.b64encode value)

unfoldable pub equals_signs : ℕ → String
equals_signs zero = ""
equals_signs (suc n) = "=" ++ equals_signs n

-- `-len(value) % 4`
pub missing_padding : String → ℕ
missing_padding value = (4 - count value % 4) % 4

unfoldable pub decode_base64 : Crypto → String → Option (List ℕ)
unfolding missing_padding
decode_base64 c value = c.b64decode (value ++ equals_signs (missing_padding value))

pub record PasswordHash : Type 0 where
  pub iterations : ℕ
  pub salt : List ℕ
  pub digest : List ℕ

unfoldable pub acceptable : String → PasswordHash → Bool
acceptable algorithm h =
    str_eq algorithm password_algorithm
    && leb min_password_iterations h.iterations
    && leb h.iterations max_password_iterations
    && leb 16 (length h.salt)
    && (length h.digest == 32)

infixl 5 ◌>>=◌
abbrev ◌>>=◌ {ℓ κ} : {A : Type ℓ} {B : Type κ} → Option A → (A → Option B) → Option B
none >>= f = none
some a >>= f = f a

-- What stands before and after the first colon.
unfoldable pub split_colon : String → Option (String × String)
split_colon [] = none
split_colon (c ∷ s) =
    let rest = split_colon s in
    if code c == 58
    then some ("", s)
    else elim rest [ none ↦ none | some (before, after) ↦ some (c ∷ before, after) ]

-- `split(":", 3)`, where it has four parts
unfoldable pub split_hash : String → Option (String × String × String × String)
unfolding split_colon
split_hash encoded = do
  first ← split_colon encoded
  second ← split_colon first.1
  third ← split_colon second.1
  some (first.0, second.0, third.0, third.1)

-- `_parse_password_hash`
unfoldable pub parse_password_hash : Crypto → String → Option PasswordHash
unfolding decode_base64 acceptable split_hash
parse_password_hash c encoded = do
  parts ← split_hash encoded
  iterations ← c.int_of_text parts.1
  salt ← decode_base64 c parts.2
  digest ← decode_base64 c parts.3
  let h : PasswordHash = record { iterations = iterations; salt = salt; digest = digest }
  if acceptable parts.0 h then some h else none

-- `password_hash_is_valid`
pub password_hash_is_valid : Crypto → String → Bool
password_hash_is_valid c encoded = is_some (parse_password_hash c encoded)

-- `hash_password`, with the salt that `os.urandom(16)` gave
unfoldable pub hash_password : Crypto → String → ℕ → List ℕ → Option String
unfolding encode_base64
hash_password c password iterations salt =
    if str_eq password ""
      || not (leb min_password_iterations iterations && leb iterations max_password_iterations)
    then none
    else (do
      key ← c.encode_utf8 password
      some (
          password_algorithm
          ++ (":"
              ++ (c.decimal iterations
                  ++ (":"
                      ++ (encode_base64 c salt
                          ++ (":" ++ encode_base64 c (c.pbkdf2 key salt iterations))))))))

unfoldable pub verify_parsed : Crypto → String → Option PasswordHash → Option Bool
verify_parsed c password none = some false
verify_parsed c password (some h) = do
  key ← c.encode_utf8 password
  some (list_eq (c.pbkdf2 key h.salt h.iterations) h.digest)

-- `verify_password`; the comparison takes constant time.
unfoldable pub verify_password : Crypto → String → String → Option Bool
unfolding verify_parsed
verify_password c password encoded = verify_parsed c password (parse_password_hash c encoded)
