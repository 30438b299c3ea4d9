-- ===== src/Router/Dispatch.antt =====
-- How a router handles the messages that come in: `_handle_special_common`, `_do_handle_special`,
-- `_handle_node_message`, `_handle_special_parent_message` and `_handle_parent_message` of
-- source/modules/eagine/core/router_impl.cpp, with the handlers for certificates, passwords, blobs,
-- topology and statistics. The result tells whether a message was handled, or for the three
-- functions that a connection calls, whether it can be forgotten.
pub mod Known
pub mod Nodes
use eagine_msgbus.Prelude.{
  ℕ, ◌+◌, Bool, true, false, not, Option, none, some, List, [], ◌∷◌, length, ◌==◌, if◌then◌else◌,
}
use eagine_msgbus.Prelude.Int.{ℤ}
use eagine_msgbus.Core.{high}
use eagine_msgbus.Message.Info.{Message, Int8, add_age, default_info, setup_response, too_old}
use eagine_msgbus.Router.Ident.{
  Method, MessageId, special, user, request_id, assign_id, announce_id, ann_endpt_id, confirm_id,
  req_rutr_pwd, enc_rutr_pwd, ping, pong, subscrib_to, unsub_from, not_sub_to, not_a_router,
  clr_blk_list, clr_alw_list, still_alive, msg_alw_list, msg_blk_list, bye_bye_endp, bye_bye_rutr,
  bye_bye_brdg, qry_subscrb, qry_subscrp, blob_frgmnt, blob_resend, blob_prpare, rtr_cert_qry,
  ept_cert_qry, rtr_cert_pem, ept_cert_pem, topo_query, stats_query, topo_rutr_cn, stats_rutr,
  stats_conn, msg_flow_inf, method,
}
use eagine_msgbus.Router.Wire.{Accepts}
use eagine_msgbus.Router.Node.{AdjacentNode, ParentRouter, send_parent}
use eagine_msgbus.Router.Nodes.{RouterNodes, find, assign, update_endpoint_info}
use eagine_msgbus.Router.Routing.{Router, Traffic, hopped, route_message}
use eagine_msgbus.Router.Handlers.{
  Deserialize, was_handled, should_be_forwarded, handle_subscribed, handle_not_subscribed,
  handle_msg_allow, handle_msg_block, handle_bye, handle_not_not_a_router, handle_ping,
  handle_subscribers_query, handle_clear_block_list, handle_clear_allow_list, handle_still_alive,
  handle_subscriptions_query,
}
use eagine_msgbus.Router.Blobs.{RouterContext, RouterState, handle_fragment}
use eagine_msgbus.Blobs.Manipulator.{BlobEnvironment, push_outgoing}
use eagine_msgbus.Blobs.Manipulator.Upkeep.{process_resend, process_prepare}

-- What the handlers call: connections, the serialization (`default_serialize` of the infos that are
-- sent, for a node id and its connection), the certificates and the encryption of the password. The
-- timeout is that of an endpoint info.
pub record RouterEnvironment (Timeout F C : Type 0) : Type 0 where
  pub accepts : Accepts
  pub int8 : Int8
  pub timeout : ℕ
  pub deserialize : Deserialize
  pub serialize : MessageId → Option (List ℕ)
  pub blob_env : BlobEnvironment (List ℕ) (List ℕ) Timeout F
  pub context : RouterContext C
  pub encrypt_shared_password : List ℕ → Option (List ℕ)
  pub topology_info : ℕ → Option ℕ → Option (List ℕ)
  pub statistics : Traffic → Option (List ℕ)
  pub connection_statistics : ℕ → Option ℕ → Option (List ℕ)

module _ {Timeout F C : Type 0} (env : RouterEnvironment Timeout F C) where
  open env use {accepts, deserialize, blob_env, context}

  abbrev pub State : Type 0
  State = RouterState Timeout F C

  -- The state with other router nodes.
  abbrev pub with_nodes : State → RouterNodes → State
  with_nodes s ns = record s { router = record s.router { nodes = ns } }

  -- A response of the router to a message, sent where the message came from.
  unfoldable pub respond : Message → MessageId → Option (List ℕ) → State → State
  respond message msg_id serialized s = elim serialized [
    | none ↦ s
    | some bytes ↦
        let response : Message = record {
          info = record (setup_response default_info message.info) { source_id = s.router.own_id };
          content = bytes;
        } in
        record s {
          traffic = (route_message accepts s.router s.router.own_id msg_id response s.traffic).0;
        }
  ]

  -- The loops that answer for every adjacent node.
  unfoldable pub respond_all :
      Message
      → MessageId
      → (ℕ → Option ℕ → Option (List ℕ))
      → List (ℕ × AdjacentNode)
      → State
      → State
  respond_all message msg_id serialized [] s = s
  respond_all message msg_id serialized (e ∷ es) s =
      respond_all message msg_id serialized es
        (respond message msg_id (serialized e.0 e.1.connection) s)

  -- The answer for the parent router, if it has confirmed the id of this router.
  unfoldable pub respond_parent :
      Message → MessageId → (ℕ → Option ℕ → Option (List ℕ)) → State → State
  respond_parent message msg_id serialized s =
      let parent = s.router.parent_router in
      elim parent.connection [
        | none ↦ s
        | some c ↦
            if parent.confirmed_id == 0
            then s
            else respond message msg_id (serialized parent.confirmed_id (some c)) s
      ]

  -- `_handle_topology_query`
  unfoldable pub handle_topology_query : Message → State → State × Bool
  handle_topology_query message s = (
    respond_parent message (special topo_rutr_cn) env.topology_info
        (respond_all message (special topo_rutr_cn) env.topology_info s.router.nodes.nodes s),
    should_be_forwarded,
  )

  -- `_handle_stats_query`; no statistics of a connection are none to serialize.
  unfoldable pub handle_stats_query : Message → State → State × Bool
  handle_stats_query message s =
      let own = respond message (special stats_rutr) (env.statistics s.traffic) s in
      (
        respond_parent message (special stats_conn) env.connection_statistics (
            respond_all message (special stats_conn) env.connection_statistics s.router.nodes.nodes
              own),
        should_be_forwarded,
      )

  -- `_handle_password_request`
  unfoldable pub handle_password_request : Message → State → State × Bool
  handle_password_request message s = elim (env.encrypt_shared_password message.content) [
    | none ↦ (s, was_handled)
    | some encrypted ↦
        let response : Message = record {
          info = setup_response default_info message.info;
          content = encrypted;
        } in
        let (wire, _) =
          send_parent accepts s.router.parent_router (special enc_rutr_pwd) response
            s.traffic.wire in
        (
          if message.info.target_id == s.router.own_id
              then record s { traffic = record s.traffic { wire = wire } }
              else s,
          was_handled,
        )
  ]

  -- `_handle_router_certificate_query`
  unfoldable pub handle_router_certificate_query : Message → State → State × Bool
  handle_router_certificate_query message s = (
    record s {
      blobs =
          (push_outgoing blob_env s.router.now (special rtr_cert_pem) 0 message.info.source_id
            message.info.sequence_no (context.own_certificate_pem s.certificates) 30 0 high
            s.blobs).0;
    },
    was_handled,
  )

  -- `_handle_endpoint_certificate_query`
  unfoldable pub handle_endpoint_certificate_query : Message → State → State × Bool
  handle_endpoint_certificate_query message s =
      let cert_pem = context.remote_certificate_pem s.certificates message.info.target_id in
      let pushed =
        push_outgoing blob_env s.router.now (special ept_cert_pem) message.info.target_id
          message.info.source_id message.info.sequence_no cert_pem 30 0 high s.blobs in
      if length cert_pem == 0
      then (s, should_be_forwarded)
      else (record s { blobs = pushed.0 }, was_handled)

  -- `_handle_blob_fragment`
  unfoldable pub handle_blob_fragment : Message → State → State × Bool
  handle_blob_fragment message s =
      (handle_fragment blob_env context message s, message.info.target_id == s.router.own_id)

  -- `_handle_blob_resend`
  unfoldable pub handle_blob_resend : Message → State → State × Bool
  handle_blob_resend message s =
      if message.info.target_id == s.router.own_id
      then (record s { blobs = process_resend blob_env message s.blobs }, was_handled)
      else (s, should_be_forwarded)

  -- `_handle_blob_prepare`
  unfoldable pub handle_blob_prepare : Message → State → State × Bool
  handle_blob_prepare message s =
      if message.info.target_id == s.router.own_id
      then (record s { blobs = process_prepare blob_env s.router.now message s.blobs }, was_handled)
      else (s, should_be_forwarded)

  -- A handler that changes what is sent, or the nodes.
  abbrev pub sending : State → Traffic × Bool → State × Bool
  sending s (t, handled) = (record s { traffic = t }, handled)

  abbrev pub noting : State → RouterNodes × Bool → State × Bool
  noting s (ns, handled) = (with_nodes s ns, handled)

  -- `_handle_special_common`
  unfoldable pub handle_special_common : Method → ℕ → Message → State → State × Bool
  handle_special_common ping incoming_id message s =
      sending s (handle_ping accepts s.router message s.traffic)
  handle_special_common subscrib_to incoming_id message s =
      noting s
        (handle_subscribed deserialize s.router.now env.timeout incoming_id message s.router.nodes)
  handle_special_common unsub_from incoming_id message s = noting s (
      handle_not_subscribed deserialize s.router.now env.timeout incoming_id message s.router.nodes)
  handle_special_common not_sub_to incoming_id message s = noting s (
      handle_not_subscribed deserialize s.router.now env.timeout incoming_id message s.router.nodes)
  handle_special_common qry_subscrb incoming_id message s =
      sending s (handle_subscribers_query accepts s.router message deserialize s.traffic)
  handle_special_common qry_subscrp incoming_id message s =
      sending s (handle_subscriptions_query accepts s.router message env.serialize s.traffic)
  handle_special_common blob_frgmnt incoming_id message s = handle_blob_fragment message s
  handle_special_common blob_resend incoming_id message s = handle_blob_resend message s
  handle_special_common blob_prpare incoming_id message s = handle_blob_prepare message s
  handle_special_common rtr_cert_qry incoming_id message s =
      handle_router_certificate_query message s
  handle_special_common ept_cert_qry incoming_id message s =
      handle_endpoint_certificate_query message s
  handle_special_common topo_query incoming_id message s = handle_topology_query message s
  handle_special_common stats_query incoming_id message s = handle_stats_query message s
  handle_special_common req_rutr_pwd incoming_id message s = handle_password_request message s
  handle_special_common request_id incoming_id message s = (s, was_handled)
  handle_special_common msg_flow_inf incoming_id message s = (s, was_handled)
  handle_special_common ann_endpt_id incoming_id message s = (s, was_handled)
  handle_special_common _ incoming_id message s = (s, should_be_forwarded)

  -- `_do_handle_special` for the parent router
  unfoldable pub handle_special_of_parent : Method → ℕ → Message → State → State × Bool
  handle_special_of_parent still_alive incoming_id message s = (
    with_nodes s (update_endpoint_info s.router.now env.timeout incoming_id message s.router.nodes),
    should_be_forwarded,
  )
  handle_special_of_parent m incoming_id message s = handle_special_common m incoming_id message s

  -- A handler that changes the node that the message came from.
  abbrev pub node_only : State → ℕ → AdjacentNode × Bool → State × Bool
  node_only s incoming_id (node, handled) =
      let ns = s.router.nodes in
      (with_nodes s (record ns { nodes = assign incoming_id node ns.nodes }), handled)

  abbrev pub node_and_infos : State → ℕ → AdjacentNode × RouterNodes × Bool → State × Bool
  node_and_infos s incoming_id (node, ns, handled) =
      (with_nodes s (record ns { nodes = assign incoming_id node ns.nodes }), handled)

  -- `_do_handle_special` for an adjacent node
  unfoldable pub handle_special_of_node : Method → ℕ → AdjacentNode → Message → State → State × Bool
  handle_special_of_node not_a_router incoming_id node message s =
      node_only s incoming_id (handle_not_not_a_router incoming_id message node)
  handle_special_of_node clr_blk_list incoming_id node message s =
      node_only s incoming_id (handle_clear_block_list node)
  handle_special_of_node clr_alw_list incoming_id node message s =
      node_only s incoming_id (handle_clear_allow_list node)
  handle_special_of_node still_alive incoming_id node message s =
      noting s (handle_still_alive s.router.now env.timeout incoming_id message s.router.nodes)
  handle_special_of_node msg_alw_list incoming_id node message s = node_and_infos s incoming_id (
      handle_msg_allow deserialize s.router.now env.timeout incoming_id message node s.router.nodes)
  handle_special_of_node msg_blk_list incoming_id node message s = node_and_infos s incoming_id (
      handle_msg_block deserialize s.router.now env.timeout incoming_id message node s.router.nodes)
  handle_special_of_node bye_bye_endp incoming_id node message s =
      node_and_infos s incoming_id (handle_bye message node s.router.nodes)
  handle_special_of_node bye_bye_rutr incoming_id node message s =
      node_and_infos s incoming_id (handle_bye message node s.router.nodes)
  handle_special_of_node bye_bye_brdg incoming_id node message s =
      node_and_infos s incoming_id (handle_bye message node s.router.nodes)
  handle_special_of_node m incoming_id node message s =
      handle_special_common m incoming_id message s
