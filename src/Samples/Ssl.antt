-- ===== src/Samples/Ssl.antt =====
-- A concrete instance of the library eagine.sslplus for the tests: a certificate is its own key, the
-- first byte of a block; all are trusted; and a signature fits a key that it begins with.
use eagine_msgbus.Prelude.{ℕ, ◌+◌, Bool, true, false, Option, none, some, List, [], ◌∷◌, ◌==◌}
use eagine_msgbus.Context.{Ssl}

unfoldable pub first_byte : List ℕ → Option ℕ
first_byte [] = none
first_byte (x ∷ xs) = some x

unfoldable pub begins_with : ℕ → List ℕ → Bool
begins_with key [] = false
begins_with key (x ∷ xs) = x == key

abbrev pub ssl : Ssl ℕ ℕ ℕ
ssl = record {
  parse_x509 = first_byte;
  add_cert_into_x509_store = λ store cert. some (store + 1);
  new_x509_store_ctx = true;
  init_x509_store_ctx = λ store cert. true;
  x509_verify_certificate = λ store cert. true;
  get_x509_pubkey = λ cert. some cert;
  message_digest_sha256 = true;
  new_message_digest = true;
  sign_init = λ key. true;
  sign_update = λ key content. true;
  sign_final = λ key content. some (key ∷ []);
  verify_init = λ key. true;
  verify_update = λ key content. true;
  verify_final = λ key content signature. begins_with key signature;
}
