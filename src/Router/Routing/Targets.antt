-- ===== src/Router/Routing/Targets.antt =====
-- To which connections a broadcast and a targeted message go
-- (source/modules/eagine/core/router_impl.cpp).
use eagine_msgbus.Prelude.{
  ℕ, ◌≡◌, refl, true, false, none, [], ◌++◌, ◌==◌, if◌then◌else◌, Bool-cases, inl, inr, ap, ◌∙◌,
  sym,
}
use eagine_msgbus.Router.Ident.{MessageId}
use eagine_msgbus.Router.Wire.{Accepts}
use eagine_msgbus.Router.Nodes.{find, find_outgoing, is_disconnected}
use eagine_msgbus.Message.Info.{Message}
use eagine_msgbus.Router.Routing.{
  Router, Traffic, to_routers, anywhere, route_targeted_message, to_nodes, route_broadcast_message,
}
use eagine_msgbus.Router.Routing.Reach.{
  link, links, sendings, hears, may_know, append_nil, after, after-append, to_nodes-after,
  to_routers-after, to_parent-after, fallback,
}

module _ (msg_id : MessageId) (message : Message) (accepts : Accepts) (r : Router) (incoming_id : ℕ)
    (t : Traffic) where
  -- A broadcast message goes, once each and in the order of the nodes, to the connections of the
  -- nodes that allow it other than the one it came from, then to the parent router unless it
  -- came with the id of this router; and the result is true.
  pub route_broadcast_message_lem :
      ((route_broadcast_message accepts r incoming_id msg_id message t).0.wire
        ≡ t.wire
          ++ sendings msg_id message (
              links (hears msg_id incoming_id) r.nodes.nodes
              ++ (if r.own_id == incoming_id then [] else link r.parent_router.connection)))
      × ((route_broadcast_message accepts r incoming_id msg_id message t).1 ≡ true)
  unfolding route_broadcast_message after
  route_broadcast_message_lem =
      let t' = to_nodes accepts r.nodes.nodes incoming_id msg_id message t in
      let cs = links (hears msg_id incoming_id) r.nodes.nodes in
      elim (Bool-cases (r.own_id == incoming_id)) [
        | inl own ↦ (
          rw (own) (
              to_nodes-after msg_id message accepts r.nodes.nodes incoming_id t
              ∙ ap (after msg_id message t.wire) (sym (append_nil cs))),
          rw (own) refl,
        )
        | inr other ↦ (
          rw (other) (
              to_parent-after msg_id message accepts r (t', false)
              ∙ ap (λ w. after msg_id message w (link r.parent_router.connection))
                  (to_nodes-after msg_id message accepts r.nodes.nodes incoming_id t)
              ∙ after-append msg_id message t.wire cs (link r.parent_router.connection)),
          rw (other) refl,
        )
      ]

  -- A message for a target that the router has no way to, and that was not lost recently, goes
  -- to the connections of the nodes that may be routers other than the one it came from, then to
  -- the parent router unless it came with the id of this router.
  pub route_targeted_message-unknown :
      find_outgoing r.nodes message.info.target_id ≡ 0
      → find r.nodes.nodes message.info.target_id ≡ none
      → is_disconnected r.now r.nodes message.info.target_id ≡ false
      → (route_targeted_message accepts r incoming_id msg_id message t).0.wire
        ≡ t.wire
          ++ sendings msg_id message (
              links (may_know incoming_id) r.nodes.nodes
              ++ (if incoming_id == r.own_id then [] else link r.parent_router.connection))
  unfolding anywhere after
  route_targeted_message-unknown o f d =
      let tried = to_routers accepts r.nodes.nodes incoming_id msg_id message (t, false) in
      let cs = links (may_know incoming_id) r.nodes.nodes in
      let went = to_routers-after msg_id message accepts r.nodes.nodes incoming_id (t, false) in
      elim (Bool-cases (incoming_id == r.own_id)) [
        | inl own ↦
            rw (fallback msg_id message accepts r incoming_id t o f, d, own, anywhere)
              (went ∙ ap (after msg_id message t.wire) (sym (append_nil cs)))
        | inr other ↦
            rw (fallback msg_id message accepts r incoming_id t o f, d, other, anywhere)
              (to_parent-after msg_id message accepts r tried
                ∙ ap (λ w. after msg_id message w (link r.parent_router.connection)) went
                ∙ after-append msg_id message t.wire cs (link r.parent_router.connection))
      ]

  -- A message for a target that the router has no way to, and that was lost recently, is sent
  -- nowhere, nothing is counted, and the result is false.
  pub route_targeted_message-lost :
      find_outgoing r.nodes message.info.target_id ≡ 0
      → find r.nodes.nodes message.info.target_id ≡ none
      → is_disconnected r.now r.nodes message.info.target_id ≡ true
      → route_targeted_message accepts r incoming_id msg_id message t ≡ (t, false)
  unfolding anywhere
  route_targeted_message-lost o f d =
      fallback msg_id message accepts r incoming_id t o f ∙ rw (d, anywhere) refl
