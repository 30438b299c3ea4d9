-- ===== src/Context/Certified.antt =====
-- The certificates of the remote nodes whose keys a context knows
-- (`add_remote_certificate_pem` of source/modules/eagine/core/context_impl.cpp).
use eagine_msgbus.Prelude.{
  ℕ, ◌≡◌, refl, sym, inl, inr, arith, true, some, List, ◌==◌, ◌∙◌, ap, Bool-cases, Option-cases,
}
use mathlib.Core.Path.{subst}
use mathlib.Core.Option.{some-injective}
use eagine_msgbus.Core.{Memory}
use eagine_msgbus.Router.Nodes.{find, assign}
use eagine_msgbus.Router.Nodes.Lost.{find-assign_self, find-assign_other}
use eagine_msgbus.Context.{
  Ssl, RemoteNode, Context, new_context, next_sequence_no, verify_certificate,
  add_remote_certificate_pem, replace_cert, with_remote, take_key, remote_entry, has_bytes,
  verify_content_signature, verify_nonce_signature,
}
use eagine_msgbus.Context.Steps.{
  Step, sequence, own, ca, remote, signed_nonce, Reachable, made, after, Since, now, later,
  own-remotes, ca-remotes,
}

module _ {Cert Key Store : Type 0} (mem : Memory) (ssl : Ssl Cert Key Store) where
  -- How a certificate of a node came into the context `c`: there was a state before, in which it was
  -- verified with the store of that time; `add_remote_certificate_pem` was called for this node
  -- with the certificate; and the calls since then have led to `c`.
  pub record Came (c : Context Cert Key Store) (id : ℕ) (certificate : Cert) : Type 0 where
    pub before : Context Cert Key Store
    pub is_reachable : Reachable mem ssl before
    pub random : List ℕ
    pub blk : List ℕ
    pub is_block : ssl.parse_x509 blk ≡ some certificate
    pub verified : verify_certificate mem ssl certificate before ≡ true
    pub since : Since mem ssl (add_remote_certificate_pem mem ssl random id blk before).0 c

  -- A remote node whose key is known has a certificate with this key, which came and was verified.
  pub record IsCertified (c : Context Cert Key Store) (id : ℕ) (r : RemoteNode Cert Key) (key : Key)
      : Type 0 where
    pub certificate : Cert
    pub is_cert : r.cert ≡ some certificate
    pub has_key : ssl.get_x509_pubkey certificate ≡ some key
    pub came : Came c id certificate

  -- All remote nodes of the map are so.
  abbrev pub AreCertified : Context Cert Key Store → List (ℕ × RemoteNode Cert Key) → Type 0
  AreCertified c remotes =
      (id : ℕ) (r : RemoteNode Cert Key) (key : Key)
      → find remotes id ≡ some r
      → r.pubkey ≡ some key
      → IsCertified c id r key

  later-AreCertified :
      {c c' : Context Cert Key Store} (remotes : List (ℕ × RemoteNode Cert Key))
      → Step mem ssl c c'
      → AreCertified c remotes
      → AreCertified c' remotes
  later-AreCertified remotes s old id r key f k =
      let was = old id r key f k in
      record {
        certificate = was.certificate;
        is_cert = was.is_cert;
        has_key = was.has_key;
        came = record {
          before = was.came.before;
          is_reachable = was.came.is_reachable;
          random = was.came.random;
          blk = was.came.blk;
          is_block = was.came.is_block;
          verified = was.came.verified;
          since = later was.came.since s;
        };
      }

  assign-AreCertified :
      (c : Context Cert Key Store) (id : ℕ) (r : RemoteNode Cert Key)
      (remotes : List (ℕ × RemoteNode Cert Key))
      → AreCertified c remotes
      → ((key : Key) → r.pubkey ≡ some key → IsCertified c id r key)
      → AreCertified c (assign id r remotes)
  assign-AreCertified c id r remotes old new id' r' key f k = elim (Bool-cases (id == id')) [
    | inl e ↦
        let at_id : id ≡ id' = ground arith in
        let found : some r ≡ some r' =
          sym (find-assign_self id r remotes)
          ∙ (ap (λ x. find (assign id r remotes) x) at_id ∙ f) in
        let same_node : r ≡ r' = some-injective r r' found in
        subst (λ i. IsCertified c i r' key) at_id
          (subst (λ x. IsCertified c id x key) same_node
            (new key (ap (λ x. x.pubkey) same_node ∙ k)))
    | inr ne ↦ old id' r' key (sym (find-assign_other id id' r remotes ne) ∙ f) k
  ]

  -- Without a key there is nothing to certify.
  without_key :
      (c : Context Cert Key Store) (id : ℕ) (blk : List ℕ) (cert : Cert)
      (info : RemoteNode Cert Key) (key : Key)
      → (replace_cert mem ssl blk cert info).pubkey ≡ some key
      → IsCertified c id (replace_cert mem ssl blk cert info) key
  unfolding replace_cert
  without_key c id blk cert info key h = cc

  is_replaced :
      (blk : List ℕ) (cert : Cert) (info : RemoteNode Cert Key)
      → (replace_cert mem ssl blk cert info).cert ≡ some cert
  unfolding replace_cert
  is_replaced blk cert info = refl

  -- The store is the same with the new entry of the node.
  pub verify-with_remote :
      (cert : Cert) (id : ℕ) (r : RemoteNode Cert Key) (c : Context Cert Key Store)
      → verify_certificate mem ssl cert (with_remote mem ssl id r c)
        ≡ verify_certificate mem ssl cert c
  unfolding verify_certificate with_remote
  verify-with_remote cert id r c = refl

  module _ (d : Context Cert Key Store) (random : List ℕ) (node_id : ℕ) (blk : List ℕ) where
    take_key-AreCertified :
        (cert : Cert) (info : RemoteNode Cert Key) (c : Context Cert Key Store)
        → AreCertified d c.remotes
        → Came d node_id cert
        → AreCertified d
            (take_key mem ssl random node_id cert (replace_cert mem ssl blk cert info) c).0.remotes
    unfolding with_remote take_key
    take_key-AreCertified cert info c old came = elim (Option-cases (ssl.get_x509_pubkey cert)) [
      | inl n ↦
          rw (take_key, n)
            (assign-AreCertified d node_id (replace_cert mem ssl blk cert info) c.remotes old
              (without_key d node_id blk cert info))
      | inr (pubkey, e) ↦
          rw (take_key, e)
            (assign-AreCertified d node_id _ c.remotes old (λ key k. record {
              certificate = cert;
              is_cert = is_replaced blk cert info;
              has_key = e ∙ k;
              came = came;
            }))
    ]

    added-AreCertified :
        (c : Context Cert Key Store)
        → AreCertified d c.remotes
        → ((cert : Cert)
            → ssl.parse_x509 blk ≡ some cert
            → verify_certificate mem ssl cert c ≡ true
            → Came d node_id cert)
        → AreCertified d (add_remote_certificate_pem mem ssl random node_id blk c).0.remotes
    unfolding add_remote_certificate_pem with_remote
    added-AreCertified c old came = elim (Option-cases (ssl.parse_x509 blk)) [
      | inl n ↦ rw (add_remote_certificate_pem, n) old
      | inr (cert, e) ↦
          let info = replace_cert mem ssl blk cert (remote_entry mem ssl node_id c) in
          let c' = with_remote mem ssl node_id info c in
          elim (Bool-cases (has_bytes blk)) [
            | inr n ↦ rw (add_remote_certificate_pem, e, n) old
            | inl b ↦ elim (Bool-cases (verify_certificate mem ssl cert c')) [
              | inl v ↦
                  rw (add_remote_certificate_pem, e, b, v)
                    (take_key-AreCertified cert (remote_entry mem ssl node_id c) c old
                      (came cert e (sym (verify-with_remote cert node_id info c) ∙ v)))
              | inr n ↦
                  rw (add_remote_certificate_pem, e, b, n, with_remote)
                    (assign-AreCertified d node_id info c.remotes old
                      (without_key d node_id blk cert (remote_entry mem ssl node_id c)))
            ]
          ]
    ]

  signed-AreCertified :
      (d : Context Cert Key Store) (sig : List ℕ) (node_id : ℕ) (c : Context Cert Key Store)
      → AreCertified d c.remotes
      → AreCertified d (verify_nonce_signature mem ssl sig node_id c).0.remotes
  unfolding verify_nonce_signature
  signed-AreCertified d sig node_id c old = elim (Option-cases (find c.remotes node_id)) [
    | inl n ↦ rw (verify_nonce_signature, n) old
    | inr (r, f) ↦
        elim (Bool-cases
          (verify_content_signature mem ssl r.nonce sig node_id true c).message_content) [
            | inr n ↦ rw (verify_nonce_signature, f, n) old
            | inl v ↦
                rw (verify_nonce_signature, f, v)
                  (assign-AreCertified d node_id _ c.remotes old (λ key k.
                    let was = old node_id r key f k in
                    record {
                      certificate = was.certificate;
                      is_cert = was.is_cert;
                      has_key = was.has_key;
                      came = was.came;
                    }))
          ]
  ]

  Step-AreCertified :
      {c c' : Context Cert Key Store}
      → Reachable mem ssl c
      → Step mem ssl c c'
      → AreCertified c c.remotes
      → AreCertified c' c'.remotes
  unfolding next_sequence_no
  Step-AreCertified p (sequence msg_id c) old = later-AreCertified c.remotes (sequence msg_id c) old
  Step-AreCertified p (own blk c) old =
      rw (own-remotes mem ssl blk c).0 (later-AreCertified c.remotes (own blk c) old)
  Step-AreCertified p (ca blk c) old =
      rw (ca-remotes mem ssl blk c).0 (later-AreCertified c.remotes (ca blk c) old)
  Step-AreCertified p (remote random node_id blk c) old =
      let d = (add_remote_certificate_pem mem ssl random node_id blk c).0 in
      added-AreCertified d random node_id blk c
        (later-AreCertified c.remotes (remote random node_id blk c) old)
        (λ cert e v. record {
          before = c;
          is_reachable = p;
          random = random;
          blk = blk;
          is_block = e;
          verified = v;
          since = now d;
        })
  Step-AreCertified p (signed_nonce sig node_id c) old =
      signed-AreCertified _ sig node_id c
        (later-AreCertified c.remotes (signed_nonce sig node_id c) old)

  pub Reachable-AreCertified :
      {c : Context Cert Key Store} → Reachable mem ssl c → AreCertified c c.remotes
  unfolding new_context find
  Reachable-AreCertified (made store) = λ id r key f k. cc
  Reachable-AreCertified (after p s) = Step-AreCertified p s (Reachable-AreCertified p)
