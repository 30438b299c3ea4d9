-- ===== src/Router/Tests.antt =====
-- Runs of the router components on concrete nodes and messages
-- (source/modules/eagine/core/router_impl.cpp).
mod Records
mod Dispatching
use eagine_msgbus.Prelude.{
  ℕ, ◌+◌, ◌<◌, ◌≡◌, refl, Bool, true, false, Option, none, some, List, [], ◌∷◌, ◌++◌, ◌==◌, ◌||◌,
  if◌then◌else◌, arith,
}
use eagine_msgbus.Prelude.Int.{pos, ◌+ℤ◌, ◌≤ℤ◌}
use eagine_msgbus.Core.{normal}
use eagine_msgbus.Message.Info.{Message, max_hops, too_many_hops, add_hop}
use eagine_msgbus.Router.Ids.{RouterIds, get_next_id}
use eagine_msgbus.Router.Ids.Found.{Returns, get_next_id-IsFree}
use eagine_msgbus.Router.Ids.Faults.{get_next_id_hangs, call_ids, get_next_id_leaves}
use eagine_msgbus.Router.Ident.{
  MessageId, special, user, enc_rutr_pwd, ann_endpt_id, subscrib_to, not_sub_to, same,
}
use eagine_msgbus.Router.Subscriptions.{
  EndpointInfo, add_subscription, remove_subscription, is_subscribed_to, is_not_subscribed_to,
  has_instance_id, contains,
}
use eagine_msgbus.Router.Subscriptions.Lists.{Unique}
use eagine_msgbus.Router.Subscriptions.Valid.{
  IsConsistent, Reachable, initial, after, subscribes, Reachable-IsConsistent, add_subscription_lem,
  remove_subscription_lem,
}
use eagine_msgbus.Router.Wire.{Wire, Sending, send_on}
use eagine_msgbus.Router.Node.{AdjacentNode, should_disconnect, is_allowed, send}
use eagine_msgbus.Router.Nodes.{
  RouterNodes, find, erase_where, is_disconnected, remove_disconnected, find_outgoing,
  subscribes_to,
}
use eagine_msgbus.Router.Nodes.Lost.{remove_disconnected-nodes, remove_disconnected-lost}
use eagine_msgbus.Router.Routing.{
  Router, Traffic, hopped, route_message, route_targeted_message, route_broadcast_message, by_index,
  forward_to,
}
use eagine_msgbus.Router.Routing.Reach.{link, links, sendings, hears, may_know}
use eagine_msgbus.Router.Routing.Targets.{
  route_broadcast_message_lem, route_targeted_message-unknown, route_targeted_message-lost,
}
use eagine_msgbus.Router.Routing.Hops.{Spreads, route_message-Spreads, route_message-dropped}
use eagine_msgbus.Router.Routing.Journey.{Journey, start, routed, hops_bounded}
use eagine_msgbus.Router.Pending.{
  RouterPending, new_pending, handle_msg, can_be_adopted, password_is_required, zeros,
}
use eagine_msgbus.Router.Pending.Password.{Run, accepted, received, proves, adopted-proved}
use eagine_msgbus.Router.Timeouts.{remove_timeouted, is_outdated}
use eagine_msgbus.Router.Timeouts.Forgotten.{remove_timeouted-infos, remove_timeouted-find_outgoing}
use eagine_msgbus.Router.Handlers.{
  handle_subscribed, handle_subscribers_query, answer, should_be_forwarded,
}
use eagine_msgbus.Router.Handlers.Queries.{
  handle_subscribers_query_lem, subscribes_to-handle_subscribed,
}

abbrev pub node : AdjacentNode
node = record {
  connection = some 50;
  message_block_list = [];
  message_allow_list = [];
  maybe_router = true;
  do_disconnect = false;
}

abbrev pub nodes : RouterNodes
nodes = record {
  nodes =
      (5, node)
      ∷ (6, record node { connection = some 60 })
      ∷ (7, record node { connection = none })
      ∷ [];
  endpoint_idx = (9, 5) ∷ [];
  endpoint_infos = [];
  recently_disconnected = (8, 40) ∷ [];
}

abbrev pub router : Router
router = record {
  own_id = 1;
  now = 20;
  nodes = nodes;
  parent_router = record { connection = some 10; confirmed_id = 1 };
}

abbrev pub quiet : Traffic
quiet = record { wire = []; forwarded_messages = 0; dropped_messages = 0 }

abbrev pub accepts : Wire → Sending → Bool
accepts wire s = true

abbrev pub message_to : ℕ → Message
message_to target = record {
  info = record {
    source_id = 5;
    target_id = target;
    serializer_id = 0;
    sequence_no = 3;
    hop_count = pos 0;
    age_quarter_seconds = pos 0;
    priority = normal;
    crypto_flags = 0;
  };
  content = 1 ∷ [];
}

abbrev pub tired : Message
tired = record (message_to 9) { info = record (message_to 9).info { hop_count = pos 64 } }

abbrev pub id : MessageId
id = user 1 2

route_broadcast_message_example :
    ((route_broadcast_message accepts router 5 id (message_to 0) quiet).0.wire
      ≡ []
        ++ sendings id
            (message_to 0)
            (links (hears id 5) nodes.nodes ++ (if 1 == 5 then [] else link (some 10))))
    × ((route_broadcast_message accepts router 5 id (message_to 0) quiet).1 ≡ true)
route_broadcast_message_example =
    route_broadcast_message_lem id (message_to 0) accepts router 5 quiet

unknown_example :
    (route_targeted_message accepts router 5 id (message_to 33) quiet).0.wire
    ≡ []
      ++ sendings id
          (message_to 33)
          (links (may_know 5) nodes.nodes ++ (if 5 == 1 then [] else link (some 10)))
unfolding find find_outgoing is_disconnected
unknown_example =
    route_targeted_message-unknown id (message_to 33) accepts router 5 quiet refl refl refl

lost_example : route_targeted_message accepts router 5 id (message_to 8) quiet ≡ (quiet, false)
unfolding find find_outgoing is_disconnected
lost_example = route_targeted_message-lost id (message_to 8) accepts router 5 quiet refl refl refl

dropped_example :
    route_message accepts router 6 id tired quiet
    ≡ (record quiet { dropped_messages = 0 + 1 }, true)
unfolding too_many_hops
dropped_example = route_message-dropped accepts router 6 id tired quiet refl

route_message-Spreads_example :
    Spreads id
      (hopped (message_to 9))
      []
      (route_message accepts router 6 id (message_to 9) quiet).0.wire
    × ((route_message accepts router 6 id (message_to 9) quiet).1 ≡ true)
unfolding too_many_hops
route_message-Spreads_example = route_message-Spreads accepts router 6 id (message_to 9) quiet refl

one_hop : Journey 1 (message_to 9) (hopped (message_to 9))
unfolding route_message route_targeted_message by_index forward_to send send_on find_outgoing find
    is_allowed too_many_hops add_hop
one_hop =
    routed accepts router 6 id quiet [] []
      (record { link = 50; msg_id = id; message = hopped (message_to 9) }) (start (message_to 9))
      refl

hops_bounded_example :
    ((hopped (message_to 9)).info.hop_count ≡ pos 0 +ℤ pos 1) × (pos 0 +ℤ pos 1 ≤ℤ max_hops)
hops_bounded_example = hops_bounded one_hop (omega arith)
