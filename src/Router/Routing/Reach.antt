-- ===== src/Router/Routing/Reach.antt =====
-- To which connections routing hands a message
-- (source/modules/eagine/core/router_impl.cpp).
use eagine_msgbus.Prelude.{
  ℕ, ◌≡◌, refl, Bool, false, not, ◌&&◌, ◌||◌, Option, none, some, List, [], ◌∷◌, ◌++◌, ◌==◌,
  if◌then◌else◌, arith, Bool-cases, Option-cases, inl, inr, ap, ◌∙◌, sym,
}
use eagine_msgbus.Router.Ident.{MessageId}
use eagine_msgbus.Router.Wire.{Wire, Accepts, send_on}
use eagine_msgbus.Router.Node.{AdjacentNode, ParentRouter, is_allowed, send, try_route, send_parent}
use eagine_msgbus.Router.Nodes.{find, find_outgoing}
use eagine_msgbus.Message.Info.{Message}
use eagine_msgbus.Router.Routing.{
  Router, Traffic, forward_to, to_target, to_routers, to_parent, by_index, anywhere,
  route_targeted_message, to_nodes,
}

-- The connection of a node, if it has one.
unfoldable pub link : Option ℕ → List ℕ
link none = []
link (some c) = c ∷ []

-- The connections of the nodes that a test picks.
unfoldable pub links : (ℕ → AdjacentNode → Bool) → List (ℕ × AdjacentNode) → List ℕ
links test [] = []
links test (e ∷ es) =
    let rest = links test es in if test e.0 e.1 then link e.1.connection ++ rest else rest

-- One message on each of the connections.
unfoldable pub sendings : MessageId → Message → List ℕ → Wire
sendings msg_id message [] = []
sendings msg_id message (c ∷ cs) =
    record { link = c; msg_id = msg_id; message = message } ∷ sendings msg_id message cs

-- The nodes of a broadcast: all but the one it came from that allow the message.
pub hears : MessageId → ℕ → ℕ → AdjacentNode → Bool
hears msg_id incoming_id id node = not (incoming_id == id) && is_allowed node msg_id

-- The nodes that may know a target: the possible routers, but not the one it came from.
pub may_know : ℕ → ℕ → AdjacentNode → Bool
may_know incoming_id id node = not (incoming_id == id) && node.maybe_router

pub append_assoc : {A : Type 0} (xs ys zs : List A) → (xs ++ ys) ++ zs ≡ xs ++ (ys ++ zs)
append_assoc [] ys zs = refl
append_assoc (x ∷ xs) ys zs = ap (◌∷◌ x) (append_assoc xs ys zs)

pub append_nil : {A : Type 0} (xs : List A) → xs ++ [] ≡ xs
append_nil [] = refl
append_nil (x ∷ xs) = ap (◌∷◌ x) (append_nil xs)

module _ (msg_id : MessageId) (message : Message) where
  pub sendings-append :
      (cs bs : List ℕ)
      → sendings msg_id message (cs ++ bs)
        ≡ sendings msg_id message cs ++ sendings msg_id message bs
  unfolding sendings
  sendings-append [] bs = refl
  sendings-append (c ∷ cs) bs =
      ap (◌∷◌ record { link = c; msg_id = msg_id; message = message }) (sendings-append cs bs)

  -- The wire after a message on each of the connections.
  unfoldable pub after : Wire → List ℕ → Wire
  after wire cs = wire ++ sendings msg_id message cs

  pub after-append :
      (wire : Wire) (cs bs : List ℕ) → after (after wire cs) bs ≡ after wire (cs ++ bs)
  unfolding after
  after-append wire cs bs =
      append_assoc wire (sendings msg_id message cs) (sendings msg_id message bs)
      ∙ ap (λ s. wire ++ s) (sym (sendings-append cs bs))

  pub after-nil : (wire : Wire) → after wire [] ≡ wire
  unfolding after sendings
  after-nil wire = append_nil wire

  module _ (accepts : Accepts) where
    pub send-after :
        (node : AdjacentNode) (wire : Wire)
        → (send accepts node msg_id message wire).0 ≡ after wire (link node.connection)
    unfolding send send_on after sendings link
    send-after node wire = elim (Option-cases node.connection) [
      | inl e ↦ rw (e, send) (sym (append_nil wire))
      | inr (c, e) ↦ rw (e, send) refl
    ]

    pub send_parent-after :
        (parent : ParentRouter) (wire : Wire)
        → (send_parent accepts parent msg_id message wire).0 ≡ after wire (link parent.connection)
    unfolding send_parent send_on after sendings link
    send_parent-after parent wire = elim (Option-cases parent.connection) [
      | inl e ↦ rw (e, send_parent) (sym (append_nil wire))
      | inr (c, e) ↦ rw (e, send_parent) refl
    ]

    pub to_nodes-after :
        (es : List (ℕ × AdjacentNode)) (incoming_id : ℕ) (t : Traffic)
        → (to_nodes accepts es incoming_id msg_id message t).wire
          ≡ after t.wire (links (hears msg_id incoming_id) es)
    unfolding to_nodes links hears forward_to
    to_nodes-after [] incoming_id t = sym (after-nil t.wire)
    to_nodes-after (e ∷ es) incoming_id t = elim (Bool-cases (incoming_id == e.0)) [
      | inl back ↦ rw (back, to_nodes) (to_nodes-after es incoming_id t)
      | inr on ↦ elim (Bool-cases (is_allowed e.1 msg_id)) [
        | inr blocked ↦ rw (on, blocked, to_nodes) (to_nodes-after es incoming_id t)
        | inl allowed ↦
            rw (on, allowed, to_nodes)
              (to_nodes-after es incoming_id (forward_to accepts e.1 msg_id message t).0
                ∙ ap (λ w. after w (links (hears msg_id incoming_id) es)) (send-after e.1 t.wire)
                ∙ after-append t.wire (link e.1.connection) (links (hears msg_id incoming_id) es))
      ]
    ]

    pub to_routers-after :
        (es : List (ℕ × AdjacentNode)) (incoming_id : ℕ) (done : Traffic × Bool)
        → (to_routers accepts es incoming_id msg_id message done).0.wire
          ≡ after done.0.wire (links (may_know incoming_id) es)
    unfolding to_routers links may_know try_route send
    to_routers-after [] incoming_id done = sym (after-nil done.0.wire)
    to_routers-after (e ∷ es) incoming_id done = elim (Bool-cases (incoming_id == e.0)) [
      | inl back ↦ rw (back, to_routers) (to_routers-after es incoming_id done)
      | inr on ↦ elim (Bool-cases e.1.maybe_router) [
        | inr plain ↦
            rw (on, plain, to_routers) (to_routers-after es incoming_id (done.0, done.1 || false))
        | inl router ↦
            let sent = send accepts e.1 msg_id message done.0.wire in
            rw (on, router, to_routers)
              (to_routers-after es incoming_id (record done.0 { wire = sent.0 }, done.1 || sent.1)
                ∙ ap (λ w. after w (links (may_know incoming_id) es)) (send-after e.1 done.0.wire)
                ∙ after-append done.0.wire (link e.1.connection) (links (may_know incoming_id) es))
      ]
    ]

    pub to_parent-after :
        (r : Router) (done : Traffic × Bool)
        → (to_parent accepts r msg_id message done).0.wire
          ≡ after done.0.wire (link r.parent_router.connection)
    unfolding to_parent
    to_parent-after r done = send_parent-after r.parent_router done.0.wire

    pub to_target-none :
        (es : List (ℕ × AdjacentNode)) (done : Traffic × Bool)
        → find es message.info.target_id ≡ none
        → to_target accepts es msg_id message done ≡ done
    unfolding to_target find
    to_target-none [] done h = refl
    to_target-none (e ∷ es) done h = elim (Bool-cases (e.0 == message.info.target_id)) [
      | inl here ↦ absurd (ground arith)
      | inr there ↦ rw (there, to_target) (to_target-none es done (ground arith))
    ]

    pub by_index-unknown :
        (r : Router) (t : Traffic)
        → find_outgoing r.nodes message.info.target_id ≡ 0
        → by_index accepts r msg_id message t ≡ (t, false)
    unfolding by_index
    by_index-unknown r t o = rw (o, by_index) refl

    pub fallback :
        (r : Router) (incoming_id : ℕ) (t : Traffic)
        → find_outgoing r.nodes message.info.target_id ≡ 0
        → find r.nodes.nodes message.info.target_id ≡ none
        → route_targeted_message accepts r incoming_id msg_id message t
          ≡ anywhere accepts r incoming_id msg_id message (t, false)
    unfolding route_targeted_message
    fallback r incoming_id t o f =
        rw
          (
            by_index-unknown r t o,
            to_target-none r.nodes.nodes (t, false) f,
            route_targeted_message,
          )
          refl
