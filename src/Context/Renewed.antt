-- ===== src/Context/Renewed.antt =====
-- What becomes of a proved private key when another certificate comes in for the node
-- (`add_remote_certificate_pem` of source/modules/eagine/core/context_impl.cpp).
use eagine_msgbus.Prelude.{ℕ, ◌≡◌, refl, arith, true, false, some, List, ◌∙◌}
use eagine_msgbus.Core.{Memory}
use eagine_msgbus.Router.Nodes.Lost.{find-assign_self}
use eagine_msgbus.Context.{
  Ssl, RemoteNode, Context, verified_remote_key, verify_certificate, add_remote_certificate_pem,
  replace_cert, with_remote, take_key, remote_entry, has_bytes, signature_fits,
  verify_content_signature,
}
use eagine_msgbus.Context.Certified.{verify-with_remote}

module _ {Cert Key Store : Type 0} (mem : Memory) (ssl : Ssl Cert Key Store) where
  -- The entry after a certificate with a key was taken.
  renewed : List ℕ → List ℕ → Cert → Key → RemoteNode Cert Key → RemoteNode Cert Key
  unfolding replace_cert
  renewed random blk cert key info = record (replace_cert mem ssl blk cert info) {
    pubkey = some key;
    nonce = random;
  }

  add_remote-renewed :
      (c : Context Cert Key Store) (id : ℕ) (random blk : List ℕ) (cert : Cert) (key : Key)
      → has_bytes blk ≡ true
      → ssl.parse_x509 blk ≡ some cert
      → verify_certificate mem ssl cert c ≡ true
      → ssl.get_x509_pubkey cert ≡ some key
      → (add_remote_certificate_pem mem ssl random id blk c).0
        ≡ with_remote mem ssl id (renewed random blk cert key (remote_entry mem ssl id c)) c
  unfolding add_remote_certificate_pem take_key renewed
  add_remote-renewed c id random blk cert key b parsed trusted has_key =
      let still : verify_certificate mem ssl cert
            (with_remote mem ssl id (replace_cert mem ssl blk cert (remote_entry mem ssl id c)) c)
          ≡ true =
        verify-with_remote mem ssl cert id _ c ∙ trusted in
      rw (add_remote_certificate_pem, parsed, b, still, take_key, has_key) refl

  verified-renewed :
      (c : Context Cert Key Store) (id : ℕ) (random blk : List ℕ) (cert : Cert) (key : Key)
      → verified_remote_key id
          (with_remote mem ssl id (renewed random blk cert key (remote_entry mem ssl id c)) c)
        ≡ verified_remote_key id c
  unfolding verified_remote_key with_remote renewed remote_entry replace_cert
  verified-renewed c id random blk cert key = ground (
    arith,
    find-assign_self id (renewed random blk cert key (remote_entry mem ssl id c)) c.remotes,
  )

  fits-renewed :
      (c : Context Cert Key Store) (id : ℕ) (random blk content signature : List ℕ) (cert : Cert)
      (key : Key)
      → signature_fits mem ssl id content signature
          (with_remote mem ssl id (renewed random blk cert key (remote_entry mem ssl id c)) c)
        ≡ true
      → ssl.verify_final key content signature ≡ true
  unfolding signature_fits with_remote renewed
  fits-renewed c id random blk content signature cert key h = ground (
    arith,
    find-assign_self id (renewed random blk cert key (remote_entry mem ssl id c)) c.remotes,
  )

  signed-bits :
      (content signature : List ℕ) (id : ℕ) (c : Context Cert Key Store)
      → (verify_content_signature mem ssl content signature id false c).message_content ≡ true
      → (signature_fits mem ssl id content signature c ≡ true)
        × ((verify_content_signature mem ssl content signature id false c).source_private_key
            ≡ verified_remote_key id c)
  unfolding verify_content_signature
  signed-bits content signature id c h = ground arith

  -- The proof of the private key outlives the certificate. Where a node had proved its key, and
  -- another certificate with another key comes in for it and is verified, the new key is the one that signatures are
  -- checked with, and a content signed with it counts as signed with a private key that was proved.
  pub unproved_key_counts :
      (c : Context Cert Key Store) (id : ℕ) (random blk content signature : List ℕ) (cert : Cert)
      (key : Key)
      → verified_remote_key id c ≡ true
      → has_bytes blk ≡ true
      → ssl.parse_x509 blk ≡ some cert
      → verify_certificate mem ssl cert c ≡ true
      → ssl.get_x509_pubkey cert ≡ some key
      → let c' = (add_remote_certificate_pem mem ssl random id blk c).0 in
        (verify_content_signature mem ssl content signature id false c').message_content ≡ true
        → (ssl.verify_final key content signature ≡ true)
          × ((verify_content_signature mem ssl content signature id false c').source_private_key
              ≡ true)
  unproved_key_counts c id random blk content signature cert key proved b parsed trusted has_key
        signed =
      let added = add_remote-renewed c id random blk cert key b parsed trusted has_key in
      let (fits, bits) = signed-bits content signature id _ signed in
      (
        fits-renewed c id random blk content signature cert key (rw added at fits),
        bits ∙ (rw added (verified-renewed c id random blk cert key) ∙ proved),
      )
