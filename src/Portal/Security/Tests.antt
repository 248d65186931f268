-- ===== src/Portal/Security/Tests.antt =====
-- A password, its hash, and the check at them.
use cascade_vpn.Base.{
  ℕ, ◌≡◌, refl, String, true, some, any_char, List, [], ◌∷◌, ◌++◌, list_eq, str_eq, if◌then◌else◌,
  arith,
}
use cascade_vpn.Portal.Security.{
  equals_signs, Crypto, encode_base64, hash_password, verify_password,
}
use cascade_vpn.Portal.Security.RoundTrip.{Faithful, verify-hash}

abbrev sixteen : List ℕ
sixteen = 1 ∷ 2 ∷ 3 ∷ 4 ∷ 5 ∷ 6 ∷ 7 ∷ 8 ∷ 9 ∷ 10 ∷ 11 ∷ 12 ∷ 13 ∷ 14 ∷ 15 ∷ 16 ∷ []

abbrev crypto : Crypto
crypto = record {
  int_of_text = λ raw. some 100000;
  decimal = λ n. "100000";
  b64encode = λ bytes. if list_eq bytes sixteen then "sal=" else "digest==";
  strip_equals = λ raw. if str_eq raw "sal=" then "sal" else "digest";
  b64decode = λ raw. some (if str_eq raw "sal=" then sixteen else sixteen ++ sixteen);
  encode_utf8 = λ raw. some [];
  pbkdf2 = λ key salt n. sixteen ++ sixteen;
}

faithful : Faithful crypto "secret" 100000 sixteen []
unfolding encode_base64 any_char list_eq equals_signs
faithful = record {
  number_plain = refl;
  reads_number = refl;
  salt_coded = record {
    plain = refl;
    whole = refl;
    signs = 1;
    few = omega arith;
    stripped = refl;
    decodes = refl;
  };
  digest_coded = record {
    plain = refl;
    whole = refl;
    signs = 2;
    few = omega arith;
    stripped = refl;
    decodes = refl;
  };
  digest_length = refl;
  encodes = refl;
}

verify-hash_example :
    (encoded : String) × (hash_password crypto "secret" 100000 sixteen ≡ some encoded)
    × (verify_password crypto "secret" encoded ≡ some true)
verify-hash_example =
    verify-hash crypto "secret" 100000 sixteen [] faithful refl (omega arith) (omega arith)
      (omega arith)
