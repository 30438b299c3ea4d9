-- ===== src/Context/Steps.antt =====
-- How a context changes over time, and that no call sets its own private key
-- (source/modules/eagine/core/context_impl.cpp).
use eagine_msgbus.Prelude.{ℕ, ◌≡◌, refl, arith, none, List, ◌∙◌}
use eagine_msgbus.Core.{Memory}
use eagine_msgbus.Router.Ident.{MessageId}
use eagine_msgbus.Context.{
  Ssl, Context, new_context, next_sequence_no, add_own_certificate_pem, add_ca_certificate_pem,
  add_remote_certificate_pem, with_remote, take_key, verify_nonce_signature,
}

module _ {Cert Key Store : Type 0} (mem : Memory) (ssl : Ssl Cert Key Store) where
  -- The calls that change a context.
  pub data Step : Context Cert Key Store → Context Cert Key Store → Type 0 where
    sequence :
        (msg_id : MessageId) (c : Context Cert Key Store) → Step c (next_sequence_no msg_id c).0
    own :
        (blk : List ℕ) (c : Context Cert Key Store)
        → Step c (add_own_certificate_pem mem ssl blk c).0
    ca :
        (blk : List ℕ) (c : Context Cert Key Store)
        → Step c (add_ca_certificate_pem mem ssl blk c).0
    remote :
        (random : List ℕ) (node_id : ℕ) (blk : List ℕ) (c : Context Cert Key Store)
        → Step c (add_remote_certificate_pem mem ssl random node_id blk c).0
    signed_nonce :
        (sig : List ℕ) (node_id : ℕ) (c : Context Cert Key Store)
        → Step c (verify_nonce_signature mem ssl sig node_id c).0

  pub data Reachable : Context Cert Key Store → Type 0 where
    made : (store : Store) → Reachable (new_context store)
    after : {c c' : Context Cert Key Store} → Reachable c → Step c c' → Reachable c'

  -- Any number of calls, from a state of the context to a later one.
  pub data Since : Context Cert Key Store → Context Cert Key Store → Type 0 where
    now : (c : Context Cert Key Store) → Since c c
    later : {c c' c'' : Context Cert Key Store} → Since c c' → Step c' c'' → Since c c''

  pub own-remotes :
      (blk : List ℕ) (c : Context Cert Key Store)
      → let c' = (add_own_certificate_pem mem ssl blk c).0 in
        (c'.remotes ≡ c.remotes) × (c'.own_pkey ≡ c.own_pkey)
  unfolding add_own_certificate_pem
  own-remotes blk c = ground arith

  pub ca-remotes :
      (blk : List ℕ) (c : Context Cert Key Store)
      → let c' = (add_ca_certificate_pem mem ssl blk c).0 in
        (c'.remotes ≡ c.remotes) × (c'.own_pkey ≡ c.own_pkey)
  unfolding add_ca_certificate_pem
  ca-remotes blk c = ground arith

  remote-own_pkey :
      (random : List ℕ) (node_id : ℕ) (blk : List ℕ) (c : Context Cert Key Store)
      → (add_remote_certificate_pem mem ssl random node_id blk c).0.own_pkey ≡ c.own_pkey
  unfolding add_remote_certificate_pem take_key with_remote
  remote-own_pkey random node_id blk c = ground arith

  signed-own_pkey :
      (sig : List ℕ) (node_id : ℕ) (c : Context Cert Key Store)
      → (verify_nonce_signature mem ssl sig node_id c).0.own_pkey ≡ c.own_pkey
  unfolding verify_nonce_signature
  signed-own_pkey sig node_id c = ground arith

  Step-own_pkey : {c c' : Context Cert Key Store} → Step c c' → c'.own_pkey ≡ c.own_pkey
  unfolding next_sequence_no
  Step-own_pkey (sequence msg_id c) = refl
  Step-own_pkey (own blk c) = (own-remotes blk c).1
  Step-own_pkey (ca blk c) = (ca-remotes blk c).1
  Step-own_pkey (remote random node_id blk c) = remote-own_pkey random node_id blk c
  Step-own_pkey (signed_nonce sig node_id c) = signed-own_pkey sig node_id c

  pub Reachable-own_pkey : {c : Context Cert Key Store} → Reachable c → c.own_pkey ≡ none
  unfolding new_context
  Reachable-own_pkey (made store) = refl
  Reachable-own_pkey (after p s) = Step-own_pkey s ∙ Reachable-own_pkey p
