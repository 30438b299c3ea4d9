-- ===== src/Router/Routing.antt =====
-- How the router forwards a message: `_forward_to`, `_route_targeted_message`,
-- `_route_broadcast_message` and `_route_message` of source/modules/eagine/core/router_impl.cpp.
pub mod Reach
pub mod Targets
pub mod Hops
pub mod Journey
use eagine_msgbus.Prelude.{
  ℕ, ◌+◌, Bool, true, false, not, ◌||◌, Option, none, some, List, [], ◌∷◌, ◌==◌, if◌then◌else◌,
}
use eagine_msgbus.Core.{broadcast_id}
use eagine_msgbus.Router.Ident.{MessageId}
use eagine_msgbus.Router.Wire.{Wire, Accepts}
use eagine_msgbus.Router.Node.{AdjacentNode, ParentRouter, is_allowed, send, try_route, send_parent}
use eagine_msgbus.Router.Nodes.{RouterNodes, find, find_outgoing, is_disconnected}
use eagine_msgbus.Message.Info.{Message, add_hop, too_many_hops}

-- What routing changes: the messages sent and the two counters of `router_stats`.
pub record Traffic : Type 0 where
  pub wire : Wire
  pub forwarded_messages : ℕ
  pub dropped_messages : ℕ

-- What routing reads: the id of the router, the time, its nodes and its parent router.
pub record Router : Type 0 where
  pub own_id : ℕ
  pub now : ℕ
  pub nodes : RouterNodes
  pub parent_router : ParentRouter

-- The message after `add_hop`.
abbrev pub hopped : Message → Message
hopped message = record message { info = add_hop message.info }

abbrev pub with_wire : Traffic → Wire × Bool → Traffic × Bool
with_wire t (wire, sent) = (record t { wire = wire }, sent)

module _ (accepts : Accepts) where
  unfoldable pub forward_to : AdjacentNode → MessageId → Message → Traffic → Traffic × Bool
  forward_to node msg_id message t =
      with_wire (record t { forwarded_messages = t.forwarded_messages + 1 })
        (send accepts node msg_id message t.wire)

  -- The loop of `_route_targeted_message` that looks for the target among the nodes.
  unfoldable pub to_target :
      List (ℕ × AdjacentNode) → MessageId → Message → Traffic × Bool → Traffic × Bool
  to_target [] msg_id message done = done
  to_target (e ∷ es) msg_id message done =
      let sent = forward_to e.1 msg_id message done.0 in
      let done' : Traffic × Bool =
        if e.0 == message.info.target_id
        then if is_allowed e.1 msg_id then sent else done
        else done in
      to_target es msg_id message done'

  -- The loop that tries the nodes that may be routers.
  unfoldable pub to_routers :
      List (ℕ × AdjacentNode) → ℕ → MessageId → Message → Traffic × Bool → Traffic × Bool
  to_routers [] incoming_id msg_id message done = done
  to_routers (e ∷ es) incoming_id msg_id message done =
      let (t, sent) = with_wire done.0 (try_route accepts e.1 msg_id message done.0.wire) in
      let done' : Traffic × Bool = if incoming_id == e.0 then done else (t, done.1 || sent) in
      to_routers es incoming_id msg_id message done'

  -- The message goes to the parent router too.
  unfoldable pub to_parent : Router → MessageId → Message → Traffic × Bool → Traffic × Bool
  to_parent r msg_id message done =
      let (t, sent) =
        with_wire done.0 (send_parent accepts r.parent_router msg_id message done.0.wire) in
      (t, done.1 || sent)

  -- The first attempt of `_route_targeted_message`: the way that is known.
  unfoldable pub by_index : Router → MessageId → Message → Traffic → Traffic × Bool
  by_index r msg_id message t =
      let outgoing_id = find_outgoing r.nodes message.info.target_id in
      let through_node : Traffic × Bool = elim (find r.nodes.nodes outgoing_id) [
        | none ↦ (t, false)
        | some node ↦
            if is_allowed node msg_id then forward_to node msg_id message t else (t, false)
      ] in
      if outgoing_id == 0
      then (t, false)
      else if outgoing_id == r.own_id
      then to_parent r msg_id message (t, false)
      else through_node

  -- The last attempt: everywhere but back, unless the target was lost recently.
  unfoldable pub anywhere : Router → ℕ → MessageId → Message → Traffic × Bool → Traffic × Bool
  anywhere r incoming_id msg_id message done =
      let tried = to_routers r.nodes.nodes incoming_id msg_id message done in
      if is_disconnected r.now r.nodes message.info.target_id
      then done
      else if incoming_id == r.own_id
      then tried
      else to_parent r msg_id message tried

  unfoldable pub route_targeted_message :
      Router → ℕ → MessageId → Message → Traffic → Traffic × Bool
  route_targeted_message r incoming_id msg_id message t =
      let first = by_index r msg_id message t in
      let second = if first.1 then first else to_target r.nodes.nodes msg_id message first in
      if second.1 then second else anywhere r incoming_id msg_id message second

  -- The loop of `_route_broadcast_message`.
  unfoldable pub to_nodes : List (ℕ × AdjacentNode) → ℕ → MessageId → Message → Traffic → Traffic
  to_nodes [] incoming_id msg_id message t = t
  to_nodes (e ∷ es) incoming_id msg_id message t =
      let sent = (forward_to e.1 msg_id message t).0 in
      let t' : Traffic =
        if incoming_id == e.0 then t else if is_allowed e.1 msg_id then sent else t in
      to_nodes es incoming_id msg_id message t'

  unfoldable pub route_broadcast_message :
      Router → ℕ → MessageId → Message → Traffic → Traffic × Bool
  route_broadcast_message r incoming_id msg_id message t =
      let t' = to_nodes r.nodes.nodes incoming_id msg_id message t in
      if r.own_id == incoming_id
      then (t', true)
      else ((to_parent r msg_id message (t', false)).0, true)

  unfoldable pub route_message : Router → ℕ → MessageId → Message → Traffic → Traffic × Bool
  route_message r incoming_id msg_id message t =
      let targeted = route_targeted_message r incoming_id msg_id (hopped message) t in
      let broadcast = route_broadcast_message r incoming_id msg_id (hopped message) t in
      if too_many_hops message.info
      then (record t { dropped_messages = t.dropped_messages + 1 }, true)
      else if not (message.info.target_id == broadcast_id)
      then (targeted.0, true || targeted.1)
      else (broadcast.0, true || broadcast.1)
