-- ===== src/Context.antt =====
-- `context` of source/modules/eagine/core/context.cpp and context_impl.cpp: the certificates of a
-- node and of the nodes that it knows, the proofs of their private keys, and the sequence numbers
-- of its messages.
pub mod Steps
pub mod Certified
pub mod Keys
pub mod Renewed
mod Tests
use eagine_msgbus.Prelude.{
  ℕ, ◌+◌, ◌^◌, ◌%◌, Bool, true, false, not, ◌&&◌, ◌||◌, Option, none, some, List, [], ◌∷◌,
  if◌then◌else◌, map,
}
use eagine_msgbus.Core.{Memory}
use eagine_msgbus.Router.Ident.{MessageId, same}
use eagine_msgbus.Router.Nodes.{find, assign}

-- `ssl_api` of the library eagine.sslplus: certificates, public and private keys and the store of
-- certificates that are trusted. The calls that make and initialize objects may fail: a `Bool` says
-- whether they succeed. `verify_final key content sig` tells whether `sig` signs `content`.
pub record Ssl (Cert Key Store : Type 0) : Type 0 where
  pub parse_x509 : List ℕ → Option Cert
  pub add_cert_into_x509_store : Store → Cert → Option Store
  pub new_x509_store_ctx : Bool
  pub init_x509_store_ctx : Store → Cert → Bool
  pub x509_verify_certificate : Store → Cert → Bool
  pub get_x509_pubkey : Cert → Option Key
  pub message_digest_sha256 : Bool
  pub new_message_digest : Bool
  pub sign_init : Key → Bool
  pub sign_update : Key → List ℕ → Bool
  pub sign_final : Key → List ℕ → Option (List ℕ)
  pub verify_init : Key → Bool
  pub verify_update : Key → List ℕ → Bool
  pub verify_final : Key → List ℕ → List ℕ → Bool

-- `context_remote_node`
pub record RemoteNode (Cert Key : Type 0) : Type 0 where
  pub nonce : List ℕ
  pub cert_pem : List ℕ
  pub cert : Option Cert
  pub pubkey : Option Key
  pub verified_key : Bool

-- The members of `context` that change.
pub record Context (Cert Key Store : Type 0) : Type 0 where
  pub msg_id_seq : List (MessageId × ℕ)
  pub own_cert_pem : List ℕ
  pub ca_cert_pem : List ℕ
  pub ssl_store : Store
  pub own_cert : Option Cert
  pub ca_cert : Option Cert
  pub own_pkey : Option Key
  pub remotes : List (ℕ × RemoteNode Cert Key)

-- `verification_bits`, as far as signatures set them.
pub record VerificationBits : Type 0 where
  pub source_certificate : Bool
  pub source_private_key : Bool
  pub message_content : Bool

abbrev pub no_bits : VerificationBits
no_bits = record { source_certificate = false; source_private_key = false; message_content = false }

-- The map of the sequences: `try_emplace` and the increment of what stands there.
unfoldable pub count_up : MessageId → List (MessageId × ℕ) → List (MessageId × ℕ) × ℕ
count_up msg_id [] = ((msg_id, 1) ∷ [], 0)
count_up msg_id (e ∷ es) =
    let (es', number) = count_up msg_id es in
    if same e.0 msg_id then ((e.0, (e.1 + 1) % 2 ^ 32) ∷ es, e.1) else (e ∷ es', number)

-- Whether a block has bytes.
unfoldable pub has_bytes : List ℕ → Bool
has_bytes [] = false
has_bytes (x ∷ xs) = true

module _ {Cert Key Store : Type 0} where
  -- The constructor, with the store that was made.
  unfoldable pub new_context : Store → Context Cert Key Store
  new_context store = record {
    msg_id_seq = [];
    own_cert_pem = [];
    ca_cert_pem = [];
    ssl_store = store;
    own_cert = none;
    ca_cert = none;
    own_pkey = none;
    remotes = [];
  }

  -- `next_sequence_no`
  unfoldable pub next_sequence_no : MessageId → Context Cert Key Store → Context Cert Key Store × ℕ
  next_sequence_no msg_id c =
      let (seq, number) = count_up msg_id c.msg_id_seq in (record c { msg_id_seq = seq }, number)

  unfoldable pub get_remote_certificate_pem : ℕ → Context Cert Key Store → List ℕ
  get_remote_certificate_pem node_id c = elim (find c.remotes node_id) [
    | none ↦ []
    | some remote ↦ remote.cert_pem
  ]

  unfoldable pub get_remote_nonce : ℕ → Context Cert Key Store → List ℕ
  get_remote_nonce node_id c = elim (find c.remotes node_id) [
    | none ↦ []
    | some remote ↦ remote.nonce
  ]

  unfoldable pub verified_remote_key : ℕ → Context Cert Key Store → Bool
  verified_remote_key node_id c = elim (find c.remotes node_id) [
    | none ↦ false
    | some remote ↦ remote.verified_key
  ]

module _ {Cert Key Store : Type 0} (mem : Memory) (ssl : Ssl Cert Key Store) where
  open ssl use {
    parse_x509, add_cert_into_x509_store, new_x509_store_ctx, init_x509_store_ctx,
    x509_verify_certificate, get_x509_pubkey,
  }

  unfoldable pub verify_certificate : Cert → Context Cert Key Store → Bool
  verify_certificate cert c =
      new_x509_store_ctx
      && (init_x509_store_ctx c.ssl_store cert && x509_verify_certificate c.ssl_store cert)

  unfoldable pub add_own_certificate_pem :
      List ℕ → Context Cert Key Store → Context Cert Key Store × Bool
  add_own_certificate_pem blk c = elim (parse_x509 blk) [
    | none ↦ (c, false)
    | some cert ↦
        let c' = record c {
          own_cert = some cert;
          own_cert_pem = mem.copy_into blk c.own_cert_pem;
        } in
        if has_bytes blk then (c', verify_certificate cert c') else (c, false)
  ]

  -- The own certificate is verified again, if there is one.
  unfoldable pub verify_own_certificate : Context Cert Key Store → Bool
  verify_own_certificate c = elim c.own_cert [ none ↦ true | some cert ↦ verify_certificate cert c ]

  unfoldable pub add_ca_certificate_pem :
      List ℕ → Context Cert Key Store → Context Cert Key Store × Bool
  add_ca_certificate_pem blk c = elim (parse_x509 blk) [
    | none ↦ (c, false)
    | some cert ↦ elim (add_cert_into_x509_store c.ssl_store cert) [
      | none ↦ (c, false)
      | some store ↦
          let c' = record c {
            ssl_store = store;
            ca_cert = some cert;
            ca_cert_pem = mem.copy_into blk c.ca_cert_pem;
          } in
          if has_bytes blk then (c', verify_own_certificate c') else (c, false)
    ]
  ]

  -- The entry of `_remotes`, a new one with 256 zeros for the nonce if there is none.
  unfoldable pub remote_entry : ℕ → Context Cert Key Store → RemoteNode Cert Key
  remote_entry node_id c = elim (find c.remotes node_id) [
    | none ↦ record {
      nonce = map (λ _. 0) (mem.get_buffer 256);
      cert_pem = [];
      cert = none;
      pubkey = none;
      verified_key = false;
    }
    | some remote ↦ remote
  ]

  -- The entry with another certificate, whose key is not known yet,
  unfoldable pub replace_cert : List ℕ → Cert → RemoteNode Cert Key → RemoteNode Cert Key
  replace_cert blk cert info = record info {
    cert = some cert;
    pubkey = none;
    cert_pem = mem.copy_into blk info.cert_pem;
  }

  -- in the context,
  unfoldable pub with_remote :
      ℕ → RemoteNode Cert Key → Context Cert Key Store → Context Cert Key Store
  with_remote node_id info c = record c { remotes = assign node_id info c.remotes }

  -- and after the certificate was verified; `random` is what the random number engine would fill
  -- the nonce with.
  unfoldable pub take_key :
      List ℕ
      → ℕ
      → Cert
      → RemoteNode Cert Key
      → Context Cert Key Store
      → Context Cert Key Store × Bool
  take_key random node_id cert info c = elim (get_x509_pubkey cert) [
    | none ↦ (with_remote node_id info c, false)
    | some pubkey ↦
        (with_remote node_id (record info { pubkey = some pubkey; nonce = random }) c, true)
  ]

  -- `add_remote_certificate_pem`
  unfoldable pub add_remote_certificate_pem :
      List ℕ → ℕ → List ℕ → Context Cert Key Store → Context Cert Key Store × Bool
  add_remote_certificate_pem random node_id blk c = elim (parse_x509 blk) [
    | none ↦ (c, false)
    | some cert ↦
        let info = replace_cert blk cert (remote_entry node_id c) in
        let c' = with_remote node_id info c in
        let stored =
          if verify_certificate cert c' then take_key random node_id cert info c else (c', false) in
        if has_bytes blk then stored else (c, false)
  ]

  -- `get_own_signature`; an empty block if there is no signature.
  unfoldable pub get_own_signature : List ℕ → Context Cert Key Store → List ℕ
  get_own_signature nonce c = elim c.own_pkey [
    | none ↦ []
    | some key ↦
        let signature : List ℕ = elim (ssl.sign_final key nonce) [ none ↦ [] | some sig ↦ sig ] in
        if ssl.message_digest_sha256
          && (ssl.new_message_digest && (ssl.sign_init key && ssl.sign_update key nonce))
        then signature
        else []
  ]

  -- `message_digest_verify_init`, `_update` and `_final`, with the key of the node.
  unfoldable pub signature_fits : ℕ → List ℕ → List ℕ → Context Cert Key Store → Bool
  signature_fits node_id content signature c = elim (find c.remotes node_id) [
    | none ↦ false
    | some remote ↦ elim remote.pubkey [
      | none ↦ false
      | some key ↦
          ssl.verify_init key
          && (ssl.verify_update key content && ssl.verify_final key content signature)
    ]
  ]

  -- `verify_remote_signature` of a content
  unfoldable pub verify_content_signature :
      List ℕ → List ℕ → ℕ → Bool → Context Cert Key Store → VerificationBits
  verify_content_signature content signature node_id verified_key c =
      let verified : VerificationBits = record {
        source_private_key = verified_key || verified_remote_key node_id c;
        source_certificate = true;
        message_content = true;
      } in
      if (has_bytes content && has_bytes signature)
        && (ssl.message_digest_sha256
            && (ssl.new_message_digest && signature_fits node_id content signature c))
      then verified
      else no_bits

  -- `verify_remote_signature` of the nonce
  unfoldable pub verify_nonce_signature :
      List ℕ → ℕ → Context Cert Key Store → Context Cert Key Store × Bool
  verify_nonce_signature sig node_id c = elim (find c.remotes node_id) [
    | none ↦ (c, false)
    | some remote ↦
        let result = verify_content_signature remote.nonce sig node_id true c in
        if result.message_content
        then (
          record c { remotes = assign node_id (record remote { verified_key = true }) c.remotes },
          true,
        )
        else (c, false)
  ]
