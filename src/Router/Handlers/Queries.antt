-- ===== src/Router/Handlers/Queries.antt =====
-- What the router answers about subscriptions
-- (source/modules/eagine/core/router_impl.cpp).
use eagine_msgbus.Prelude.{
  ℕ, ◌+◌, ◌≡◌, ◌≢◌, refl, true, not, none, some, ◌==◌, if◌then◌else◌, arith, Bool-cases, inl, inr,
  ap, ne→==,
}
use eagine_msgbus.Message.Info.{Message}
use eagine_msgbus.Router.Ident.{MessageId, special, subscrib_to, not_sub_to}
use eagine_msgbus.Router.Subscriptions.{
  EndpointInfo, is_subscribed_to, is_not_subscribed_to, has_instance_id, add_subscription,
  assign_instance_id,
}
use eagine_msgbus.Router.Subscriptions.Lists.{contains-add_self}
use eagine_msgbus.Router.Subscriptions.Valid.{IsConsistent}
use eagine_msgbus.Router.Wire.{Accepts}
use eagine_msgbus.Router.Nodes.Lost.{find-assign_self}
use eagine_msgbus.Router.Nodes.{RouterNodes, find, new_info, update_endpoint_info, subscribes_to}
use eagine_msgbus.Router.Routing.{Router, Traffic, route_message}
use eagine_msgbus.Router.Handlers.{
  Deserialize, change_info, handle_subscribed, handle_subscribers_query, answer,
  should_be_forwarded,
}

module _ (accepts : Accepts) (r : Router) (message : Message) (deserialize : Deserialize)
    (t : Traffic) (m : MessageId) (info : EndpointInfo) where
  -- A query for the subscribers of a message id, sent to an endpoint of which the router knows the
  -- instance, is answered in the name of that endpoint with its instance id: by exactly one message
  -- that says whether it is subscribed, if the router knows, else by none. It is forwarded.
  pub handle_subscribers_query_lem :
      deserialize message.content ≡ some m
      → find r.nodes.endpoint_infos message.info.target_id ≡ some info
      → has_instance_id info ≡ true
      → IsConsistent info
      → let response = answer accepts r message info.instance_id in
        handle_subscribers_query accepts r message deserialize t ≡ (
          if is_subscribed_to info m
              then (route_message accepts r r.own_id (special subscrib_to) response t).0
              else if is_not_subscribed_to info m
              then (route_message accepts r r.own_id (special not_sub_to) response t).0
              else t,
          should_be_forwarded,
        )
  unfolding handle_subscribers_query subscribes_to IsConsistent
  handle_subscribers_query_lem d f k (_, _, apart) = elim (Bool-cases (is_subscribed_to info m)) [
    | inl s ↦ rw (d, f, k, s, apart m s, handle_subscribers_query, subscribes_to) refl
    | inr s ↦ elim (Bool-cases (is_not_subscribed_to info m)) [
      | inl n ↦ rw (d, f, k, s, n, handle_subscribers_query, subscribes_to) refl
      | inr n ↦ rw (d, f, k, s, n, handle_subscribers_query, subscribes_to) refl
    ]
  ]

assigned :
    (info : EndpointInfo) (now timeout n : ℕ)
    → n ≢ 0
    → has_instance_id (assign_instance_id now timeout n info) ≡ true
unfolding has_instance_id assign_instance_id
assigned info now timeout n z = elim (Bool-cases (info.instance_id == n)) [
  | inl e ↦
      rw (e, assign_instance_id) (ap not (ne→== info.instance_id 0 (λ h. z (ground (arith, h)))))
  | inr e ↦ rw (e, assign_instance_id) (ap not (ne→== n 0 z))
]

module _ (deserialize : Deserialize) (now timeout incoming_id : ℕ) (message : Message)
    (ns : RouterNodes) (m : MessageId) where
  -- What the router knows of the endpoint before the subscription is added.
  known : EndpointInfo
  known =
      let old : EndpointInfo = elim (find ns.endpoint_infos message.info.source_id) [
        | none ↦ new_info (now + timeout)
        | some i ↦ i
      ] in
      assign_instance_id now timeout message.info.sequence_no old

  found :
      find
        (update_endpoint_info now timeout incoming_id message ns).endpoint_infos
        message.info.source_id
      ≡ some known
  unfolding update_endpoint_info known
  found = find-assign_self message.info.source_id known ns.endpoint_infos

  is_known : message.info.sequence_no ≢ 0 → has_instance_id (add_subscription m known) ≡ true
  unfolding has_instance_id add_subscription known
  is_known z =
      let old : EndpointInfo = elim (find ns.endpoint_infos message.info.source_id) [
        | none ↦ new_info (now + timeout)
        | some i ↦ i
      ] in
      assigned old now timeout message.info.sequence_no z

  subscribed : is_subscribed_to (add_subscription m known) m ≡ true
  unfolding is_subscribed_to add_subscription
  subscribed = contains-add_self known.subscriptions m

  -- After an endpoint with an instance id said that it is subscribed, the router knows that it is.
  pub subscribes_to-handle_subscribed :
      deserialize message.content ≡ some m
      → message.info.sequence_no ≢ 0
      → let ns' = (handle_subscribed deserialize now timeout incoming_id message ns).0 in
        (subscribes_to ns' message.info.source_id m).0 ≡ some true
  unfolding handle_subscribed change_info subscribes_to update_endpoint_info
  subscribes_to-handle_subscribed d z =
      let id = message.info.source_id in
      let infos = (update_endpoint_info now timeout incoming_id message ns).endpoint_infos in
      rw
        (
          d,
          found,
          find-assign_self id (add_subscription m known) infos,
          is_known z,
          subscribed,
          handle_subscribed,
          change_info,
          subscribes_to,
        )
        refl
