-- ===== src/Router/Handlers.antt =====
-- The special messages that a router handles for a node: `_handle_subscribed`,
-- `_handle_not_subscribed`, `_handle_msg_allow`, `_handle_msg_block`, `_handle_bye_bye`,
-- `_handle_not_not_a_router`, `_handle_clear_block_list`, `_handle_clear_allow_list`,
-- `_handle_still_alive`, `_handle_ping` and `_handle_subscribers_query` of
-- source/modules/eagine/core/router_impl.cpp. The result tells whether the message was handled and
-- is not forwarded. `default_deserialize_message_type` is a parameter.
pub mod Queries
use eagine_msgbus.Prelude.{
  ℕ, ◌+◌, Bool, true, false, not, ◌||◌, Option, none, some, List, [], ◌∷◌, ◌==◌, if◌then◌else◌,
}
use eagine_msgbus.Message.Info.{Message, default_info, setup_response}
use eagine_msgbus.Router.Ident.{
  MessageId, special, is_special_message, pong, subscrib_to, not_sub_to,
}
use eagine_msgbus.Router.Subscriptions.{EndpointInfo, add_subscription, remove_subscription}
use eagine_msgbus.Router.Wire.{Accepts}
use eagine_msgbus.Router.Node.{
  AdjacentNode, allow_message, block_message, clear_allow_list, clear_block_list, handle_bye_bye,
  mark_not_a_router,
}
use eagine_msgbus.Router.Nodes.{
  RouterNodes, find, assign, update_endpoint_info, subscribes_to, subscriptions_of, erase_endpoint,
}
use eagine_msgbus.Router.Routing.{Router, Traffic, hopped, route_message}

abbrev pub was_handled : Bool
was_handled = true

abbrev pub should_be_forwarded : Bool
should_be_forwarded = false

abbrev pub Deserialize : Type 0
Deserialize = List ℕ → Option MessageId

-- A change of the info of an endpoint, which is there after `update_endpoint_info`.
unfoldable pub change_info : (EndpointInfo → EndpointInfo) → ℕ → RouterNodes → RouterNodes
change_info f id ns = elim (find ns.endpoint_infos id) [
  | none ↦ ns
  | some info ↦ record ns { endpoint_infos = assign id (f info) ns.endpoint_infos }
]

module _ (deserialize : Deserialize) (now timeout : ℕ) (incoming_id : ℕ) (message : Message) where
  unfoldable pub handle_subscribed : RouterNodes → RouterNodes × Bool
  handle_subscribed ns = elim (deserialize message.content) [
    | none ↦ (ns, should_be_forwarded)
    | some sub_msg_id ↦ (
      change_info (add_subscription sub_msg_id) message.info.source_id
          (update_endpoint_info now timeout incoming_id message ns),
      should_be_forwarded,
    )
  ]

  unfoldable pub handle_not_subscribed : RouterNodes → RouterNodes × Bool
  handle_not_subscribed ns = elim (deserialize message.content) [
    | none ↦ (ns, should_be_forwarded)
    | some sub_msg_id ↦ (
      change_info (remove_subscription sub_msg_id) message.info.source_id
          (update_endpoint_info now timeout incoming_id message ns),
      should_be_forwarded,
    )
  ]

  unfoldable pub handle_msg_allow : AdjacentNode → RouterNodes → AdjacentNode × RouterNodes × Bool
  handle_msg_allow node ns = elim (deserialize message.content) [
    | none ↦ (node, ns, should_be_forwarded)
    | some alw_msg_id ↦ (
      allow_message alw_msg_id node,
      update_endpoint_info now timeout incoming_id message ns,
      was_handled,
    )
  ]

  unfoldable pub handle_msg_block : AdjacentNode → RouterNodes → AdjacentNode × RouterNodes × Bool
  handle_msg_block node ns = elim (deserialize message.content) [
    | none ↦ (node, ns, should_be_forwarded)
    | some blk_msg_id ↦
        if not (is_special_message blk_msg_id)
        then (
          block_message blk_msg_id node,
          update_endpoint_info now timeout incoming_id message ns,
          was_handled,
        )
        else (node, ns, should_be_forwarded)
  ]

-- `_handle_bye_bye`
unfoldable pub handle_bye : Message → AdjacentNode → RouterNodes → AdjacentNode × RouterNodes × Bool
handle_bye message node ns =
    (handle_bye_bye node, erase_endpoint message.info.source_id ns, should_be_forwarded)

unfoldable pub handle_not_not_a_router : ℕ → Message → AdjacentNode → AdjacentNode × Bool
handle_not_not_a_router incoming_id message node =
    (if incoming_id == message.info.source_id then mark_not_a_router node else node, was_handled)

module _ (accepts : Accepts) (r : Router) (message : Message) where
  -- `_handle_ping`
  pub handle_ping : Traffic → Traffic × Bool
  handle_ping t =
      let response : Message = record {
        info = record (setup_response default_info message.info) { source_id = r.own_id };
        content = [];
      } in
      if message.info.target_id == r.own_id
      then ((route_message accepts r r.own_id (special pong) response t).0, was_handled)
      else (t, should_be_forwarded)

  -- The answer in the name of the endpoint that is asked about.
  abbrev pub answer : ℕ → Message
  answer inst_id = record {
    info = record (setup_response default_info message.info) {
      source_id = message.info.target_id;
      sequence_no = inst_id;
    };
    content = message.content;
  }

  -- A test of a `tribool` is true only for `true`.
  abbrev pub is_true : Option Bool → Bool
  is_true none = false
  is_true (some b) = b

  -- `_handle_subscribers_query`; routing adds a hop to the response itself.
  unfoldable pub handle_subscribers_query : Deserialize → Traffic → Traffic × Bool
  handle_subscribers_query deserialize t = elim (deserialize message.content) [
    | none ↦ (t, should_be_forwarded)
    | some sub_msg_id ↦
        let (is_sub, is_not_sub, inst_id) =
          subscribes_to r.nodes message.info.target_id sub_msg_id in
        let positive : Traffic =
          if is_true is_sub
          then (route_message accepts r r.own_id (special subscrib_to) (answer inst_id) t).0
          else t in
        let response : Message =
          if is_true is_sub then hopped (answer inst_id) else answer inst_id in
        let negative : Traffic =
          if is_true is_not_sub
          then (route_message accepts r r.own_id (special not_sub_to) response positive).0
          else positive in
        (negative, should_be_forwarded)
  ]

-- `_handle_clear_block_list`
unfoldable pub handle_clear_block_list : AdjacentNode → AdjacentNode × Bool
handle_clear_block_list node = (clear_block_list node, was_handled)

-- `_handle_clear_allow_list`
unfoldable pub handle_clear_allow_list : AdjacentNode → AdjacentNode × Bool
handle_clear_allow_list node = (clear_allow_list node, was_handled)

-- `_handle_still_alive`
unfoldable pub handle_still_alive : ℕ → ℕ → ℕ → Message → RouterNodes → RouterNodes × Bool
handle_still_alive now timeout incoming_id message ns =
    (update_endpoint_info now timeout incoming_id message ns, should_be_forwarded)

-- The loop of `_handle_subscriptions_query`; `serialize` is `default_serialize_message_type`.
pub answer_subscriptions :
    Accepts
    → Router
    → Message
    → (MessageId → Option (List ℕ))
    → ℕ
    → List MessageId
    → Traffic
    → Traffic
answer_subscriptions accepts r message serialize inst_id [] t = t
answer_subscriptions accepts r message serialize inst_id (m ∷ subs) t =
    let t' : Traffic = elim (serialize m) [
      | none ↦ t
      | some serialized ↦
          (route_message accepts r r.own_id (special subscrib_to)
            (record (answer accepts r message inst_id) { content = serialized }) t).0
    ] in
    answer_subscriptions accepts r message serialize inst_id subs t'

-- `_handle_subscriptions_query`
pub handle_subscriptions_query :
    Accepts → Router → Message → (MessageId → Option (List ℕ)) → Traffic → Traffic × Bool
unfolding answer_subscriptions
handle_subscriptions_query accepts r message serialize t =
    let (subs, inst_id) = subscriptions_of r.nodes message.info.target_id in
    (answer_subscriptions accepts r message serialize inst_id subs t, should_be_forwarded)
