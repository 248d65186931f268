-- ===== src/Portal/Security/RoundTrip.antt =====
-- A password is verified against its own hash.
use Prim.Native.Char.{Char, code}
use Prim.Native.String.{[], ◌∷◌, count, ◌++◌}
use text.Mathlib.TextLemmas.{nil-append, cons-append, length-append}
use cascade_vpn.Base.{
  ℕ, zero, suc, ◌+◌, ◌-◌, ◌%◌, ◌<◌, ◌≡◌, ◌≤◌, ◌∙◌, ap, sym, refl, any_char, ◌==◌, Bool, String,
  true, false, some, List, length, list_eq_iff, str_eq, str_eq_refl, arith,
}
use cascade_vpn.Portal.Security.{
  Crypto, password_algorithm, min_password_iterations, max_password_iterations, encode_base64,
  decode_base64, equals_signs, split_colon, split_hash, parse_password_hash, hash_password,
  verify_password, verify_parsed, acceptable, PasswordHash,
}

-- What `hash_password` writes.
abbrev pub written : Crypto → ℕ → List ℕ → List ℕ → String
written c iterations salt key =
    password_algorithm
    ++ (":"
        ++ (c.decimal iterations
            ++ (":"
                ++ (encode_base64 c salt
                    ++ (":" ++ encode_base64 c (c.pbkdf2 key salt iterations))))))

abbrev pub has_colon : String → Bool
has_colon = any_char (λ c. c == 58)

-- What base64 promises of the bytes: the text has no colon and a multiple of four characters, of which
-- stripping takes at most two equality signs at its end, and it is decoded to the bytes.
pub record IsCoded (c : Crypto) (value : List ℕ) : Type 0 where
  pub plain : has_colon (encode_base64 c value) ≡ false
  pub whole : count (c.b64encode value) % 4 ≡ 0
  pub signs : ℕ
  pub few : signs < 3
  pub stripped : encode_base64 c value ++ equals_signs signs ≡ c.b64encode value
  pub decodes : c.b64decode (c.b64encode value) ≡ some value

-- What `hash_password` and `verify_password` rely on at one password, number of iterations and salt.
pub record Faithful (c : Crypto) (password : String) (iterations : ℕ) (salt key : List ℕ)
    : Type 0 where
  pub number_plain : has_colon (c.decimal iterations) ≡ false
  pub reads_number : c.int_of_text (c.decimal iterations) ≡ some iterations
  pub salt_coded : IsCoded c salt
  pub digest_coded : IsCoded c (c.pbkdf2 key salt iterations)
  -- SHA-256 gives 32 bytes
  pub digest_length : length (c.pbkdf2 key salt iterations) ≡ 32
  pub encodes : c.encode_utf8 password ≡ some key

count-equals_signs : (n : ℕ) → count (equals_signs n) ≡ n
unfolding equals_signs
count-equals_signs zero = refl
count-equals_signs (suc n) =
    length-append "=" (equals_signs n) ∙ omega (arith, count-equals_signs n)

-- The padding that was stripped is put back.
decode-encode :
    (c : Crypto) (value : List ℕ)
    → IsCoded c value
    → decode_base64 c (encode_base64 c value) ≡ some value
unfolding decode_base64
decode-encode c value coded =
    ap (λ n. c.b64decode (text ++ equals_signs n))
      (padding (count text) coded.signs coded.few total)
    ∙ ap c.b64decode coded.stripped
    ∙ coded.decodes
  where
    text : String
    text = encode_base64 c value

    total : (count text + coded.signs) % 4 ≡ 0
    total =
        ap (λ n. n % 4)
          (ap (λ n. count text + n) (sym (count-equals_signs coded.signs))
            ∙ sym (length-append text (equals_signs coded.signs))
            ∙ ap count coded.stripped)
        ∙ coded.whole

    padding : (n k : ℕ) → k < 3 → (n + k) % 4 ≡ 0 → (4 - n % 4) % 4 ≡ k
    padding n k few h = omega arith

split_colon_later :
    (d : Char) (s before after : String)
    → (code d == 58) ≡ false
    → split_colon s ≡ some (before, after)
    → split_colon (d ∷ s) ≡ some (d ∷ before, after)
unfolding split_colon
split_colon_later d s before after h k = rw (k, h)

abbrev colon : Char
colon = ":"

split_colon_first : (s : String) → split_colon (colon ∷ s) ≡ some ("", s)
unfolding split_colon
split_colon_first s = refl

split_colon-append :
    (before after : String)
    → has_colon before ≡ false
    → split_colon (before ++ (":" ++ after)) ≡ some (before, after)
unfolding any_char
split_colon-append [] after h =
    ap split_colon (
      nil-append (":" ++ after)
      ∙ cons-append colon [] after
      ∙ ap (λ s. colon ∷ s) (nil-append after))
    ∙ split_colon_first after
split_colon-append (d ∷ before) after h =
    ap split_colon (cons-append d before (":" ++ after))
    ∙ split_colon_later d (before ++ (":" ++ after)) before after (ground arith)
        (split_colon-append before after (ground arith))

split_hash-append :
    (a b c d : String)
    → has_colon a ≡ false
    → has_colon b ≡ false
    → has_colon c ≡ false
    → split_hash (a ++ (":" ++ (b ++ (":" ++ (c ++ (":" ++ d)))))) ≡ some (a, b, c, d)
unfolding split_hash
split_hash-append a b c d ha hb hc =
    rw
      (
        split_colon-append a (b ++ (":" ++ (c ++ (":" ++ d)))) ha,
        split_colon-append b (c ++ (":" ++ d)) hb,
        split_colon-append c d hc,
      )
      refl

algorithm_plain : has_colon password_algorithm ≡ false
unfolding any_char
algorithm_plain = refl

module _ (c : Crypto) (password : String) (iterations : ℕ) (salt key : List ℕ)
    (f : Faithful c password iterations salt key) where
  abbrev parsed : PasswordHash
  parsed = record { iterations = iterations; salt = salt; digest = c.pbkdf2 key salt iterations }

  hash-written :
      str_eq password "" ≡ false
      → min_password_iterations ≤ iterations
      → iterations ≤ max_password_iterations
      → hash_password c password iterations salt ≡ some (written c iterations salt key)
  unfolding hash_password
  hash-written given low high = ground (arith, f.encodes)

  parsed-acceptable :
      min_password_iterations ≤ iterations
      → iterations ≤ max_password_iterations
      → 16 ≤ length salt
      → acceptable password_algorithm parsed ≡ true
  unfolding acceptable
  parsed-acceptable low high salted =
      ground (arith, f.digest_length, str_eq_refl password_algorithm)

  parse-written :
      acceptable password_algorithm parsed ≡ true
      → parse_password_hash c (written c iterations salt key) ≡ some parsed
  unfolding parse_password_hash
  parse-written fits = ground (
    arith,
    split_hash-append password_algorithm (c.decimal iterations) (encode_base64 c salt)
        (encode_base64 c (c.pbkdf2 key salt iterations)) algorithm_plain f.number_plain
        f.salt_coded.plain,
    f.reads_number,
    decode-encode c salt f.salt_coded,
    decode-encode c (c.pbkdf2 key salt iterations) f.digest_coded,
    fits,
  )

  verify-written :
      parse_password_hash c (written c iterations salt key) ≡ some parsed
      → verify_password c password (written c iterations salt key) ≡ some true
  unfolding verify_password verify_parsed
  verify-written h = ground (
    arith,
    h,
    f.encodes,
    list_eq_iff (c.pbkdf2 key salt iterations) (c.pbkdf2 key salt iterations),
  )

  -- With a number of iterations within the limits and a salt of at least sixteen bytes, a password
  -- that is not empty has a hash, and is verified against it.
  pub verify-hash :
      str_eq password "" ≡ false
      → min_password_iterations ≤ iterations
      → iterations ≤ max_password_iterations
      → 16 ≤ length salt
      → (encoded : String) × (hash_password c password iterations salt ≡ some encoded)
        × (verify_password c password encoded ≡ some true)
  verify-hash given low high salted = (
    written c iterations salt key,
    hash-written given low high,
    verify-written (parse-written (parsed-acceptable low high salted)),
  )
