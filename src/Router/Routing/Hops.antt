-- ===== src/Router/Routing/Hops.antt =====
-- The hop counter bounds how far a message travels
-- (source/modules/eagine/core/router_impl.cpp and message_impl.cpp).
use eagine_msgbus.Prelude.{
  ℕ, ◌+◌, ◌≡◌, refl, Bool, true, false, not, ◌||◌, List, [], ◌∷◌, ◌++◌, ◌==◌, if◌then◌else◌,
  Bool-cases, Option-cases, inl, inr, ap, ◌∙◌, sym,
}
use eagine_msgbus.Core.{broadcast_id}
use eagine_msgbus.Router.Ident.{MessageId}
use eagine_msgbus.Router.Wire.{Wire, Accepts}
use eagine_msgbus.Router.Node.{AdjacentNode, is_allowed}
use eagine_msgbus.Router.Nodes.{find, find_outgoing, is_disconnected}
use eagine_msgbus.Message.Info.{Message, too_many_hops}
use eagine_msgbus.Router.Routing.{
  Router, Traffic, hopped, forward_to, to_target, to_routers, to_parent, by_index, anywhere,
  route_targeted_message, route_broadcast_message, route_message,
}
use eagine_msgbus.Router.Routing.Targets.{route_broadcast_message_lem}
use eagine_msgbus.Router.Routing.Reach.{
  link, links, sendings, after, after-append, after-nil, to_routers-after, to_parent-after,
  send-after, may_know, hears,
}

if_both : {A : Type 0} (P : A → Type 0) (b : Bool) (x y : A) → P x → P y → P (if b then x else y)
if_both P true x y px py = px
if_both P false x y px py = py

-- A wire continues another one with nothing but sendings of one message.
unfoldable pub Spreads : MessageId → Message → Wire → Wire → Type 0
Spreads msg_id message w w' = (cs : List ℕ) × (w' ≡ w ++ sendings msg_id message cs)

module _ (msg_id : MessageId) (message : Message) where
  none-Spreads : (w : Wire) → Spreads msg_id message w w
  unfolding Spreads after
  none-Spreads w = ([], sym (after-nil msg_id message w))

  trans-Spreads :
      (w1 w2 w3 : Wire)
      → Spreads msg_id message w1 w2
      → Spreads msg_id message w2 w3
      → Spreads msg_id message w1 w3
  unfolding Spreads after
  trans-Spreads w1 w2 w3 (cs, p) (bs, q) = (
    cs ++ bs,
    q ∙ ap (λ w. w ++ sendings msg_id message bs) p ∙ after-append msg_id message w1 cs bs,
  )

  module _ (accepts : Accepts) where
    forward_to-Spreads :
        (node : AdjacentNode) (t : Traffic)
        → Spreads msg_id message t.wire (forward_to accepts node msg_id message t).0.wire
    unfolding Spreads after forward_to
    forward_to-Spreads node t =
        (link node.connection, send-after msg_id message accepts node t.wire)

    to_target-Spreads :
        (es : List (ℕ × AdjacentNode)) (done : Traffic × Bool)
        → Spreads msg_id message done.0.wire (to_target accepts es msg_id message done).0.wire
    unfolding to_target
    to_target-Spreads [] done = none-Spreads done.0.wire
    to_target-Spreads (e ∷ es) done = elim (Bool-cases (e.0 == message.info.target_id)) [
      | inr other ↦ rw (other, to_target) (to_target-Spreads es done)
      | inl target ↦ elim (Bool-cases (is_allowed e.1 msg_id)) [
        | inr blocked ↦ rw (target, blocked, to_target) (to_target-Spreads es done)
        | inl allowed ↦
            let sent = forward_to accepts e.1 msg_id message done.0 in
            rw (target, allowed, to_target)
              (trans-Spreads done.0.wire sent.0.wire
                (to_target accepts es msg_id message sent).0.wire (forward_to-Spreads e.1 done.0)
                (to_target-Spreads es sent))
      ]
    ]

    to_parent-Spreads :
        (r : Router) (done : Traffic × Bool)
        → Spreads msg_id message done.0.wire (to_parent accepts r msg_id message done).0.wire
    unfolding Spreads after
    to_parent-Spreads r done =
        (link r.parent_router.connection, to_parent-after msg_id message accepts r done)

    to_routers-Spreads :
        (r : Router) (incoming_id : ℕ) (done : Traffic × Bool)
        → Spreads msg_id message done.0.wire
            (to_routers accepts r.nodes.nodes incoming_id msg_id message done).0.wire
    unfolding Spreads after
    to_routers-Spreads r incoming_id done = (
      links (may_know incoming_id) r.nodes.nodes,
      to_routers-after msg_id message accepts r.nodes.nodes incoming_id done,
    )

    by_index-Spreads :
        (r : Router) (t : Traffic)
        → Spreads msg_id message t.wire (by_index accepts r msg_id message t).0.wire
    unfolding by_index
    by_index-Spreads r t =
        let outgoing_id = find_outgoing r.nodes message.info.target_id in
        let P = λ (d : Traffic × Bool). Spreads msg_id message t.wire d.0.wire in
        if_both P (outgoing_id == 0) (t, false) _ (none-Spreads t.wire)
          (if_both P (outgoing_id == r.own_id) (to_parent accepts r msg_id message (t, false)) _
            (to_parent-Spreads r (t, false))
            (elim (Option-cases (find r.nodes.nodes outgoing_id)) [
              | inl e ↦ rw (e) (none-Spreads t.wire)
              | inr (node, e) ↦ rw (e) (
                  if_both P (is_allowed node msg_id) (forward_to accepts node msg_id message t)
                    (t, false) (forward_to-Spreads node t) (none-Spreads t.wire))
            ]))

    anywhere-Spreads :
        (r : Router) (incoming_id : ℕ) (done : Traffic × Bool)
        → Spreads msg_id message done.0.wire
            (anywhere accepts r incoming_id msg_id message done).0.wire
    unfolding anywhere
    anywhere-Spreads r incoming_id done =
        let tried = to_routers accepts r.nodes.nodes incoming_id msg_id message done in
        let P = λ (d : Traffic × Bool). Spreads msg_id message done.0.wire d.0.wire in
        let went = to_routers-Spreads r incoming_id done in
        if_both P (is_disconnected r.now r.nodes message.info.target_id) done _
          (none-Spreads done.0.wire)
          (if_both P (incoming_id == r.own_id) tried (to_parent accepts r msg_id message tried) went
            (trans-Spreads done.0.wire tried.0.wire
              (to_parent accepts r msg_id message tried).0.wire went (to_parent-Spreads r tried)))

    route_targeted_message-Spreads :
        (r : Router) (incoming_id : ℕ) (t : Traffic)
        → Spreads msg_id message t.wire
            (route_targeted_message accepts r incoming_id msg_id message t).0.wire
    unfolding route_targeted_message
    route_targeted_message-Spreads r incoming_id t =
        let first = by_index accepts r msg_id message t in
        let tried = to_target accepts r.nodes.nodes msg_id message first in
        let second : Traffic × Bool = if first.1 then first else tried in
        let P = λ (d : Traffic × Bool). Spreads msg_id message t.wire d.0.wire in
        let went = by_index-Spreads r t in
        let then_went = if_both P first.1 first tried went (
          trans-Spreads t.wire first.0.wire tried.0.wire went
            (to_target-Spreads r.nodes.nodes first)) in
        let all = anywhere accepts r incoming_id msg_id message second in
        if_both P second.1 second all then_went (
          trans-Spreads t.wire second.0.wire all.0.wire then_went
            (anywhere-Spreads r incoming_id second))

    route_broadcast_message-Spreads :
        (r : Router) (incoming_id : ℕ) (t : Traffic)
        → Spreads msg_id message t.wire
            (route_broadcast_message accepts r incoming_id msg_id message t).0.wire
    unfolding Spreads
    route_broadcast_message-Spreads r incoming_id t = (
      links (hears msg_id incoming_id) r.nodes.nodes
          ++ (if r.own_id == incoming_id then [] else link r.parent_router.connection),
      (route_broadcast_message_lem msg_id message accepts r incoming_id t).0,
    )

module _ (accepts : Accepts) (r : Router) (incoming_id : ℕ) (msg_id : MessageId) (message : Message)
    (t : Traffic) where
  -- A message with too many hops is counted as dropped and sent nowhere; the result is true.
  pub route_message-dropped :
      too_many_hops message.info ≡ true
      → route_message accepts r incoming_id msg_id message t
        ≡ (record t { dropped_messages = t.dropped_messages + 1 }, true)
  unfolding route_message
  route_message-dropped h = rw (h, route_message) refl

  -- Any other message is sent on as it is after one more hop, and nothing else is sent; the result
  -- is true, whether it was sent to anyone or not.
  pub route_message-Spreads :
      too_many_hops message.info ≡ false
      → Spreads msg_id
          (hopped message)
          t.wire
          (route_message accepts r incoming_id msg_id message t).0.wire
        × ((route_message accepts r incoming_id msg_id message t).1 ≡ true)
  unfolding route_message
  route_message-Spreads h =
      let m = hopped message in
      let targeted = route_targeted_message accepts r incoming_id msg_id m t in
      let broadcast = route_broadcast_message accepts r incoming_id msg_id m t in
      let is_targeted = not (message.info.target_id == broadcast_id) in
      let IsTrue = λ (d : Traffic × Bool). d.1 ≡ true in
      let P = λ (d : Traffic × Bool). Spreads msg_id m t.wire d.0.wire in
      (
        rw (h, route_message)
            (if_both P is_targeted (targeted.0, true || targeted.1)
              (broadcast.0, true || broadcast.1)
              (route_targeted_message-Spreads msg_id m accepts r incoming_id t)
              (route_broadcast_message-Spreads msg_id m accepts r incoming_id t)),
        rw (h, route_message)
            (if_both IsTrue is_targeted (targeted.0, true || targeted.1)
              (broadcast.0, true || broadcast.1) refl refl),
      )
