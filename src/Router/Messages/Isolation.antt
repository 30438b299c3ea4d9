-- ===== src/Router/Messages/Isolation.antt =====
-- What a message from an adjacent node cannot change in a router
-- (`_handle_node_message`,
-- source/modules/eagine/core/router_impl.cpp).
use eagine_msgbus.Prelude.{
  ne→==, ℕ, ◌≡◌, ◌≢◌, refl, sym, ap, ◌∙◌, inl, inr, true, false, not, ◌==◌, Bool-cases,
  Option-cases,
}
use eagine_msgbus.Prelude.Int.{ℤ}
use eagine_msgbus.Message.Info.{Message, add_age}
use eagine_msgbus.Router.Ident.{
  Method, MessageId, special, user, is_special_message, request_id, assign_id, announce_id,
  ann_endpt_id, confirm_id, req_rutr_pwd, enc_rutr_pwd, ping, pong, subscrib_to, unsub_from,
  not_sub_to, not_a_router, clr_blk_list, clr_alw_list, still_alive, msg_alw_list, msg_blk_list,
  bye_bye_endp, bye_bye_rutr, bye_bye_brdg, qry_subscrb, qry_subscrp, blob_frgmnt, blob_resend,
  blob_prpare, rtr_cert_qry, ept_cert_qry, rtr_cert_pem, ept_cert_pem, topo_query, stats_query,
  topo_rutr_cn, topo_brdg_cn, topo_endpt, stats_rutr, stats_brdg, stats_endpt, stats_conn,
  msg_flow_inf, ept_sig_nnce, ept_nnce_sig, method,
}
use eagine_msgbus.Router.Node.{AdjacentNode}
use eagine_msgbus.Router.Nodes.{RouterNodes, find, assign, update_endpoint_info, erase_endpoint}
use eagine_msgbus.Router.Nodes.Lost.{find-assign_other}
use eagine_msgbus.Router.Handlers.{
  Deserialize, handle_msg_allow, handle_msg_block, handle_bye, handle_still_alive,
}
use eagine_msgbus.Router.Dispatch.{
  RouterEnvironment, State, handle_special_common, handle_special_of_node,
}
use eagine_msgbus.Router.Dispatch.Known.{
  KnowsOthers, update_endpoint_info-KnowsOthers, erase_endpoint-KnowsOthers, allow-KnowsOthers,
  block-KnowsOthers,
}
use eagine_msgbus.Router.Dispatch.Nodes.{common-kept}
use eagine_msgbus.Router.Messages.{aged, handle_node_message}
use eagine_msgbus.Router.Messages.Routed.{route_unless_old-router, route_unless_old-true}

module _ (deserialize : Deserialize) (now timeout incoming_id : ℕ) (message : Message)
    (node : AdjacentNode) (ns : RouterNodes) where
  allow-nodes :
      (handle_msg_allow deserialize now timeout incoming_id message node ns).1.nodes ≡ ns.nodes
  unfolding handle_msg_allow update_endpoint_info
  allow-nodes = elim (Option-cases (deserialize message.content)) [
    | inl e ↦ rw (handle_msg_allow, e) refl
    | inr (m, e) ↦ rw (handle_msg_allow, e) refl
  ]

  block-nodes :
      (handle_msg_block deserialize now timeout incoming_id message node ns).1.nodes ≡ ns.nodes
  unfolding handle_msg_block update_endpoint_info
  block-nodes = elim (Option-cases (deserialize message.content)) [
    | inl e ↦ rw (handle_msg_block, e) refl
    | inr (m, e) ↦ elim (Bool-cases (not (is_special_message m))) [
      | inl f ↦ rw (handle_msg_block, e, f) refl
      | inr f ↦ rw (handle_msg_block, e, f) refl
    ]
  ]

module _ {Timeout F C : Type 0} (env : RouterEnvironment Timeout F C) where
  -- What a message from the node `incoming_id` leaves: the node `id`, and what is known of endpoints
  -- other than the source of the message.
  abbrev LeavesOthers : ℕ → Message → RouterNodes → RouterNodes → Type 0
  LeavesOthers id message ns ns' =
      (find ns'.nodes id ≡ find ns.nodes id) × KnowsOthers message.info.source_id ns ns'

  module _ (incoming_id id : ℕ) (message : Message) (node : AdjacentNode) (s : State env)
      (other : id ≢ incoming_id) where
    differs : (incoming_id == id) ≡ false
    differs = ne→== incoming_id id (λ e. other (sym e))

    common-others :
        (m : Method)
        → LeavesOthers id message s.router.nodes
            (handle_special_common env m incoming_id message s).0.router.nodes
    common-others m =
        let kept = common-kept env m incoming_id message s in (ap (λ es. find es id) kept.0, kept.2)

    -- A change of the node that the message came from.
    node-others :
        (n : AdjacentNode)
        → find (assign incoming_id n s.router.nodes.nodes) id ≡ find s.router.nodes.nodes id
    node-others n = find-assign_other incoming_id id n s.router.nodes.nodes differs

    bye-others :
        (n : AdjacentNode)
        → LeavesOthers id message s.router.nodes
            (record (erase_endpoint message.info.source_id s.router.nodes) {
              nodes = assign incoming_id n s.router.nodes.nodes;
            })
    bye-others n = (node-others n, erase_endpoint-KnowsOthers message.info.source_id s.router.nodes)

    special-others :
        (m : Method)
        → LeavesOthers id message s.router.nodes
            (handle_special_of_node env m incoming_id node message s).0.router.nodes
    unfolding handle_special_of_node handle_still_alive update_endpoint_info handle_bye
        erase_endpoint
    special-others request_id = common-others request_id
    special-others assign_id = common-others assign_id
    special-others announce_id = common-others announce_id
    special-others ann_endpt_id = common-others ann_endpt_id
    special-others confirm_id = common-others confirm_id
    special-others req_rutr_pwd = common-others req_rutr_pwd
    special-others enc_rutr_pwd = common-others enc_rutr_pwd
    special-others ping = common-others ping
    special-others pong = common-others pong
    special-others subscrib_to = common-others subscrib_to
    special-others unsub_from = common-others unsub_from
    special-others not_sub_to = common-others not_sub_to
    special-others not_a_router = (node-others _, λ x unlike. (refl, refl))
    special-others clr_blk_list = (node-others _, λ x unlike. (refl, refl))
    special-others clr_alw_list = (node-others _, λ x unlike. (refl, refl))
    special-others still_alive = (
      refl,
      update_endpoint_info-KnowsOthers s.router.now env.timeout incoming_id message s.router.nodes,
    )
    special-others msg_alw_list = (
      find-assign_other incoming_id id _ _ differs
          ∙ ap (λ es. find es id)
              (allow-nodes env.deserialize s.router.now env.timeout incoming_id message node
                s.router.nodes),
      allow-KnowsOthers env.deserialize s.router.now env.timeout incoming_id message node
          s.router.nodes,
    )
    special-others msg_blk_list = (
      find-assign_other incoming_id id _ _ differs
          ∙ ap (λ es. find es id)
              (block-nodes env.deserialize s.router.now env.timeout incoming_id message node
                s.router.nodes),
      block-KnowsOthers env.deserialize s.router.now env.timeout incoming_id message node
          s.router.nodes,
    )
    special-others bye_bye_endp = bye-others _
    special-others bye_bye_rutr = bye-others _
    special-others bye_bye_brdg = bye-others _
    special-others qry_subscrb = common-others qry_subscrb
    special-others qry_subscrp = common-others qry_subscrp
    special-others blob_frgmnt = common-others blob_frgmnt
    special-others blob_resend = common-others blob_resend
    special-others blob_prpare = common-others blob_prpare
    special-others rtr_cert_qry = common-others rtr_cert_qry
    special-others ept_cert_qry = common-others ept_cert_qry
    special-others rtr_cert_pem = common-others rtr_cert_pem
    special-others ept_cert_pem = common-others ept_cert_pem
    special-others topo_query = common-others topo_query
    special-others stats_query = common-others stats_query
    special-others topo_rutr_cn = common-others topo_rutr_cn
    special-others topo_brdg_cn = common-others topo_brdg_cn
    special-others topo_endpt = common-others topo_endpt
    special-others stats_rutr = common-others stats_rutr
    special-others stats_brdg = common-others stats_brdg
    special-others stats_endpt = common-others stats_endpt
    special-others stats_conn = common-others stats_conn
    special-others msg_flow_inf = common-others msg_flow_inf
    special-others ept_sig_nnce = common-others ept_sig_nnce
    special-others ept_nnce_sig = common-others ept_nnce_sig
    special-others (method n) = common-others (method n)

  -- A message that comes from one adjacent node, whatever it is, leaves the entry of every other id in
  -- the map of the adjacent nodes as it is: its connection, the messages that it allows or blocks, and
  -- the rest. Of the maps of endpoints, the infos and the nodes through which they are reached, it
  -- leaves the entry of every endpoint other than the source that the message names, which need not be
  -- the node that it comes from. The connection can forget the message, also if it was not sent
  -- anywhere.
  pub handle_node_message-others :
      (incoming_id id source : ℕ) (msg_id : MessageId) (msg_age : ℤ) (message : Message)
      (node : AdjacentNode) (s : State env)
      → id ≢ incoming_id
      → source ≢ message.info.source_id
      → let r = handle_node_message env incoming_id msg_id msg_age message node s in
        let ns = r.0.router.nodes in
        (find ns.nodes id ≡ find s.router.nodes.nodes id)
        × (find ns.endpoint_infos source ≡ find s.router.nodes.endpoint_infos source)
        × (find ns.endpoint_idx source ≡ find s.router.nodes.endpoint_idx source)
        × (r.1 ≡ true)
  unfolding handle_node_message add_age
  handle_node_message-others incoming_id id source (user c m) msg_age message node s other unlike =
      let same = route_unless_old-router env incoming_id (user c m) (aged env msg_age message) s in
      (
        ap (λ r. find r.nodes.nodes id) same,
        ap (λ r. find r.nodes.endpoint_infos source) same,
        ap (λ r. find r.nodes.endpoint_idx source) same,
        route_unless_old-true env incoming_id (user c m) (aged env msg_age message) s,
      )
  handle_node_message-others incoming_id id source (special m) msg_age message node s other unlike =
      let aged_message = aged env msg_age message in
      let handled = handle_special_of_node env m incoming_id node aged_message s in
      let (same_node, known) = special-others incoming_id id aged_message node s other m in
      let (same_info, same_way) = known source unlike in
      let same = route_unless_old-router env incoming_id (special m) aged_message handled.0 in
      elim (Bool-cases handled.1) [
        | inl e ↦ rw (handle_node_message, e) (same_node, same_info, same_way, refl)
        | inr e ↦
            rw (handle_node_message, e)
              (
                ap (λ r. find r.nodes.nodes id) same ∙ same_node,
                ap (λ r. find r.nodes.endpoint_infos source) same ∙ same_info,
                ap (λ r. find r.nodes.endpoint_idx source) same ∙ same_way,
                route_unless_old-true env incoming_id (special m) aged_message handled.0,
              )
      ]
