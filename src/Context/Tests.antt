-- ===== src/Context/Tests.antt =====
-- Runs of the context on concrete certificates
-- (source/modules/eagine/core/context_impl.cpp).
use eagine_msgbus.Prelude.{ℕ, ◌≡◌, refl, true, false, some, [], ◌∷◌}
use eagine_msgbus.Samples.{memory}
use eagine_msgbus.Samples.Ssl.{ssl, first_byte, begins_with}
use eagine_msgbus.Router.Nodes.{find, assign}
use eagine_msgbus.Context.{
  Context, new_context, add_remote_certificate_pem, get_own_signature, has_bytes,
  verified_remote_key, verify_certificate, verify_content_signature, signature_fits, replace_cert,
  with_remote, take_key, remote_entry,
}
use eagine_msgbus.Context.Steps.{made, after, remote}
use eagine_msgbus.Context.Keys.{IsSignedBy, never_signs, accepted-IsSignedBy}
use eagine_msgbus.Context.Renewed.{unproved_key_counts}

-- A context that has taken the certificate of the node 4, whose key is 9.
abbrev fresh : Context ℕ ℕ ℕ
fresh = new_context 0

abbrev taken : Context ℕ ℕ ℕ
taken = (add_remote_certificate_pem memory ssl (1 ∷ 2 ∷ []) 4 (9 ∷ 9 ∷ []) fresh).0

never_signs_example : get_own_signature memory ssl (1 ∷ 2 ∷ []) taken ≡ []
never_signs_example =
    never_signs memory ssl (1 ∷ 2 ∷ []) (after (made 0) (remote (1 ∷ 2 ∷ []) 4 (9 ∷ 9 ∷ []) fresh))

accepted-IsSignedBy_example : IsSignedBy memory ssl taken 4 (7 ∷ []) (9 ∷ 3 ∷ [])
unfolding add_remote_certificate_pem take_key with_remote replace_cert remote_entry
    verify_content_signature signature_fits find assign new_context verify_certificate first_byte
    begins_with has_bytes
accepted-IsSignedBy_example =
    accepted-IsSignedBy memory ssl (7 ∷ []) (9 ∷ 3 ∷ []) 4 false
      (after (made 0) (remote (1 ∷ 2 ∷ []) 4 (9 ∷ 9 ∷ []) fresh)) refl

-- The node 4 has proved its key 9.
abbrev proved : Context ℕ ℕ ℕ
proved = record fresh {
  remotes =
      (
        4,
        record {
          nonce = 1 ∷ [];
          cert_pem = 9 ∷ [];
          cert = some 9;
          pubkey = some 9;
          verified_key = true;
        },
      )
      ∷ [];
}

unproved_key_counts_example :
    let c' = (add_remote_certificate_pem memory ssl (1 ∷ []) 4 (8 ∷ []) proved).0 in
    (ssl.verify_final 8 (7 ∷ []) (8 ∷ []) ≡ true)
    × ((verify_content_signature memory ssl (7 ∷ []) (8 ∷ []) 4 false c').source_private_key ≡ true)
unfolding add_remote_certificate_pem take_key with_remote replace_cert remote_entry
    verify_content_signature signature_fits find assign new_context verify_certificate first_byte
    begins_with has_bytes verified_remote_key
unproved_key_counts_example =
    unproved_key_counts memory ssl proved 4 (1 ∷ []) (8 ∷ []) (7 ∷ []) (8 ∷ []) 8 8 refl refl refl
      refl refl refl
