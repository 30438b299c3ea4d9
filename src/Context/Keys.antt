-- ===== src/Context/Keys.antt =====
-- What the context knows of private keys: its own, those of the other nodes, and when a signature
-- counts as one of a node (source/modules/eagine/core/context_impl.cpp).
use eagine_msgbus.Prelude.{ℕ, ◌≡◌, refl, inl, inr, arith, Bool, true, some, List, [], Option-cases}
use eagine_msgbus.Core.{Memory}
use eagine_msgbus.Router.Nodes.{find}
use eagine_msgbus.Context.{
  Ssl, RemoteNode, Context, get_own_signature, signature_fits, verify_content_signature,
}
use eagine_msgbus.Context.Steps.{Reachable, Reachable-own_pkey}
use eagine_msgbus.Context.Certified.{IsCertified, AreCertified, Reachable-AreCertified}

module _ {Cert Key Store : Type 0} (mem : Memory) (ssl : Ssl Cert Key Store) where
  -- No call sets the own private key, so whatever a context has been told, it signs nothing:
  -- the signature of every nonce is the empty block.
  pub never_signs :
      {c : Context Cert Key Store} (nonce : List ℕ)
      → Reachable mem ssl c
      → get_own_signature mem ssl nonce c ≡ []
  unfolding get_own_signature
  never_signs nonce p = rw (Reachable-own_pkey mem ssl p) refl

  -- What stands behind a signature that was accepted.
  pub record IsSignedBy (c : Context Cert Key Store) (id : ℕ) (content signature : List ℕ)
      : Type 0 where
    pub node : RemoteNode Cert Key
    pub is_known : find c.remotes id ≡ some node
    pub key : Key
    pub is_its_key : node.pubkey ≡ some key
    pub fits : ssl.verify_final key content signature ≡ true
    pub is_certified : IsCertified mem ssl c id node key

  fits-IsSignedBy :
      {c : Context Cert Key Store} (id : ℕ) (content signature : List ℕ)
      → AreCertified mem ssl c c.remotes
      → signature_fits mem ssl id content signature c ≡ true
      → IsSignedBy c id content signature
  unfolding signature_fits
  fits-IsSignedBy {c} id content signature all h = elim (Option-cases (find c.remotes id)) [
    | inl n ↦ absurd (ground arith)
    | inr (r, f) ↦ elim (Option-cases r.pubkey) [
      | inl n ↦ absurd (ground arith)
      | inr (key, k) ↦ record {
        node = r;
        is_known = f;
        key = key;
        is_its_key = k;
        fits = ground arith;
        is_certified = all id r key f k;
      }
    ]
  ]

  -- In every reachable context, a content counts as signed by a node only if the signature fits the
  -- key of the certificate that is known of this node, and this certificate came for this node in an earlier
  -- reachable state of the same context, whose store of certificates verified it.
  pub accepted-IsSignedBy :
      {c : Context Cert Key Store} (content signature : List ℕ) (id : ℕ) (verified_key : Bool)
      → Reachable mem ssl c
      → (verify_content_signature mem ssl content signature id verified_key c).message_content
        ≡ true
      → IsSignedBy c id content signature
  unfolding verify_content_signature
  accepted-IsSignedBy content signature id verified_key p h =
      fits-IsSignedBy id content signature (Reachable-AreCertified mem ssl p) (ground arith)
