-- ===== src/Router/Messages/OfParent.antt =====
-- What a message from the parent router changes in a router (`_handle_parent_message`,
-- source/modules/eagine/core/router_impl.cpp).
use eagine_msgbus.Prelude.{ℕ, ◌≡◌, ◌≢◌, refl, ap, inl, inr, Bool, true, Bool-cases, if◌then◌else◌}
use eagine_msgbus.Prelude.Int.{ℤ}
use eagine_msgbus.Message.Info.{Message, add_age}
use eagine_msgbus.Router.Ident.{
  Method, MessageId, special, user, same, same_refl, ≢→same, request_id, assign_id, announce_id,
  ann_endpt_id, confirm_id, req_rutr_pwd, enc_rutr_pwd, ping, pong, subscrib_to, unsub_from,
  not_sub_to, not_a_router, clr_blk_list, clr_alw_list, still_alive, msg_alw_list, msg_blk_list,
  bye_bye_endp, bye_bye_rutr, bye_bye_brdg, qry_subscrb, qry_subscrp, blob_frgmnt, blob_resend,
  blob_prpare, rtr_cert_qry, ept_cert_qry, rtr_cert_pem, ept_cert_pem, topo_query, stats_query,
  topo_rutr_cn, topo_brdg_cn, topo_endpt, stats_rutr, stats_brdg, stats_endpt, stats_conn,
  msg_flow_inf, ept_sig_nnce, ept_nnce_sig, method,
}
use eagine_msgbus.Router.Node
use eagine_msgbus.Router.Node.{AdjacentNode, ParentRouter}
use eagine_msgbus.Router.Nodes.{update_endpoint_info}
use eagine_msgbus.Router.Dispatch.{RouterEnvironment, State, handle_special_of_parent}
use eagine_msgbus.Router.Dispatch.Nodes.{common-both}
use eagine_msgbus.Router.Messages.{
  aged, route, handle_special_parent_message, handle_parent_message,
}
use eagine_msgbus.Router.Messages.Routed.{
  route_message-true, route_unless_old-router, route_unless_old-true,
}

module _ {Timeout F C : Type 0} (env : RouterEnvironment Timeout F C) where
  -- What a message of the parent router leaves of the adjacent nodes and of the parent router.
  abbrev pub Kept : State env → ParentRouter → State env × Bool → Type 0
  Kept s parent (s', forgotten) =
      (s'.router.nodes.nodes ≡ s.router.nodes.nodes)
      × (s'.router.parent_router ≡ parent)
      × (forgotten ≡ true)

  module _ (message : Message) (s : State env) where
    parent_kept :
        (m : Method)
        → let r = handle_special_of_parent env m s.router.parent_router.confirmed_id message s in
          (r.0.router.nodes.nodes ≡ s.router.nodes.nodes)
          × (r.0.router.parent_router ≡ s.router.parent_router)
    unfolding handle_special_of_parent update_endpoint_info
    parent_kept request_id =
        common-both env request_id s.router.parent_router.confirmed_id message s
    parent_kept assign_id = common-both env assign_id s.router.parent_router.confirmed_id message s
    parent_kept announce_id =
        common-both env announce_id s.router.parent_router.confirmed_id message s
    parent_kept ann_endpt_id =
        common-both env ann_endpt_id s.router.parent_router.confirmed_id message s
    parent_kept confirm_id =
        common-both env confirm_id s.router.parent_router.confirmed_id message s
    parent_kept req_rutr_pwd =
        common-both env req_rutr_pwd s.router.parent_router.confirmed_id message s
    parent_kept enc_rutr_pwd =
        common-both env enc_rutr_pwd s.router.parent_router.confirmed_id message s
    parent_kept ping = common-both env ping s.router.parent_router.confirmed_id message s
    parent_kept pong = common-both env pong s.router.parent_router.confirmed_id message s
    parent_kept subscrib_to =
        common-both env subscrib_to s.router.parent_router.confirmed_id message s
    parent_kept unsub_from =
        common-both env unsub_from s.router.parent_router.confirmed_id message s
    parent_kept not_sub_to =
        common-both env not_sub_to s.router.parent_router.confirmed_id message s
    parent_kept not_a_router =
        common-both env not_a_router s.router.parent_router.confirmed_id message s
    parent_kept clr_blk_list =
        common-both env clr_blk_list s.router.parent_router.confirmed_id message s
    parent_kept clr_alw_list =
        common-both env clr_alw_list s.router.parent_router.confirmed_id message s
    parent_kept still_alive = (refl, refl)
    parent_kept msg_alw_list =
        common-both env msg_alw_list s.router.parent_router.confirmed_id message s
    parent_kept msg_blk_list =
        common-both env msg_blk_list s.router.parent_router.confirmed_id message s
    parent_kept bye_bye_endp =
        common-both env bye_bye_endp s.router.parent_router.confirmed_id message s
    parent_kept bye_bye_rutr =
        common-both env bye_bye_rutr s.router.parent_router.confirmed_id message s
    parent_kept bye_bye_brdg =
        common-both env bye_bye_brdg s.router.parent_router.confirmed_id message s
    parent_kept qry_subscrb =
        common-both env qry_subscrb s.router.parent_router.confirmed_id message s
    parent_kept qry_subscrp =
        common-both env qry_subscrp s.router.parent_router.confirmed_id message s
    parent_kept blob_frgmnt =
        common-both env blob_frgmnt s.router.parent_router.confirmed_id message s
    parent_kept blob_resend =
        common-both env blob_resend s.router.parent_router.confirmed_id message s
    parent_kept blob_prpare =
        common-both env blob_prpare s.router.parent_router.confirmed_id message s
    parent_kept rtr_cert_qry =
        common-both env rtr_cert_qry s.router.parent_router.confirmed_id message s
    parent_kept ept_cert_qry =
        common-both env ept_cert_qry s.router.parent_router.confirmed_id message s
    parent_kept rtr_cert_pem =
        common-both env rtr_cert_pem s.router.parent_router.confirmed_id message s
    parent_kept ept_cert_pem =
        common-both env ept_cert_pem s.router.parent_router.confirmed_id message s
    parent_kept topo_query =
        common-both env topo_query s.router.parent_router.confirmed_id message s
    parent_kept stats_query =
        common-both env stats_query s.router.parent_router.confirmed_id message s
    parent_kept topo_rutr_cn =
        common-both env topo_rutr_cn s.router.parent_router.confirmed_id message s
    parent_kept topo_brdg_cn =
        common-both env topo_brdg_cn s.router.parent_router.confirmed_id message s
    parent_kept topo_endpt =
        common-both env topo_endpt s.router.parent_router.confirmed_id message s
    parent_kept stats_rutr =
        common-both env stats_rutr s.router.parent_router.confirmed_id message s
    parent_kept stats_brdg =
        common-both env stats_brdg s.router.parent_router.confirmed_id message s
    parent_kept stats_endpt =
        common-both env stats_endpt s.router.parent_router.confirmed_id message s
    parent_kept stats_conn =
        common-both env stats_conn s.router.parent_router.confirmed_id message s
    parent_kept msg_flow_inf =
        common-both env msg_flow_inf s.router.parent_router.confirmed_id message s
    parent_kept ept_sig_nnce =
        common-both env ept_sig_nnce s.router.parent_router.confirmed_id message s
    parent_kept ept_nnce_sig =
        common-both env ept_nnce_sig s.router.parent_router.confirmed_id message s
    parent_kept (method n) =
        common-both env (method n) s.router.parent_router.confirmed_id message s

    -- A message that is not only for the router itself is handled and routed.
    routed_special :
        (m : Method)
        → special m ≢ special confirm_id
        → let handled =
            handle_special_of_parent env m s.router.parent_router.confirmed_id message s in
          let routed = route env s.router.own_id (special m) message handled.0 in
          handle_special_parent_message env m message s
            ≡ (if handled.1 then (handled.0, true) else routed)
          → Kept s
              (if same (special m) (special confirm_id)
                then record s.router.parent_router { confirmed_id = message.info.target_id }
                else s.router.parent_router)
              (handle_special_parent_message env m message s)
    unfolding route
    routed_special m ne e =
        let handled =
          handle_special_of_parent env m s.router.parent_router.confirmed_id message s in
        let (nodes, parent) = parent_kept m in
        elim (Bool-cases handled.1) [
          | inl h ↦ rw (e, h, ≢→same (special m) (special confirm_id) ne) (nodes, parent, refl)
          | inr h ↦
              rw (e, h, ≢→same (special m) (special confirm_id) ne)
                (
                  nodes,
                  parent,
                  route_message-true env.accepts handled.0.router s.router.own_id (special m)
                      message handled.0.traffic,
                )
        ]

    special_parent :
        (m : Method)
        → Kept s
            (if same (special m) (special confirm_id)
              then record s.router.parent_router { confirmed_id = message.info.target_id }
              else s.router.parent_router)
            (handle_special_parent_message env m message s)
    unfolding handle_special_parent_message route Node.confirm_id
    special_parent request_id = routed_special request_id (λ e. cc) refl
    special_parent assign_id = routed_special assign_id (λ e. cc) refl
    special_parent announce_id = routed_special announce_id (λ e. cc) refl
    special_parent ann_endpt_id = routed_special ann_endpt_id (λ e. cc) refl
    special_parent confirm_id = rw (same_refl (special confirm_id)) (refl, refl, refl)
    special_parent req_rutr_pwd = routed_special req_rutr_pwd (λ e. cc) refl
    special_parent enc_rutr_pwd = routed_special enc_rutr_pwd (λ e. cc) refl
    special_parent ping = routed_special ping (λ e. cc) refl
    special_parent pong = routed_special pong (λ e. cc) refl
    special_parent subscrib_to = routed_special subscrib_to (λ e. cc) refl
    special_parent unsub_from = routed_special unsub_from (λ e. cc) refl
    special_parent not_sub_to = routed_special not_sub_to (λ e. cc) refl
    special_parent not_a_router = routed_special not_a_router (λ e. cc) refl
    special_parent clr_blk_list = routed_special clr_blk_list (λ e. cc) refl
    special_parent clr_alw_list = routed_special clr_alw_list (λ e. cc) refl
    special_parent still_alive = routed_special still_alive (λ e. cc) refl
    special_parent msg_alw_list = routed_special msg_alw_list (λ e. cc) refl
    special_parent msg_blk_list = routed_special msg_blk_list (λ e. cc) refl
    special_parent bye_bye_endp =
        rw (≢→same (special bye_bye_endp) (special confirm_id) (λ e. cc)) (refl, refl, refl)
    special_parent bye_bye_rutr =
        rw (≢→same (special bye_bye_rutr) (special confirm_id) (λ e. cc)) (refl, refl, refl)
    special_parent bye_bye_brdg =
        rw (≢→same (special bye_bye_brdg) (special confirm_id) (λ e. cc)) (refl, refl, refl)
    special_parent qry_subscrb = routed_special qry_subscrb (λ e. cc) refl
    special_parent qry_subscrp = routed_special qry_subscrp (λ e. cc) refl
    special_parent blob_frgmnt = routed_special blob_frgmnt (λ e. cc) refl
    special_parent blob_resend = routed_special blob_resend (λ e. cc) refl
    special_parent blob_prpare = routed_special blob_prpare (λ e. cc) refl
    special_parent rtr_cert_qry = routed_special rtr_cert_qry (λ e. cc) refl
    special_parent ept_cert_qry = routed_special ept_cert_qry (λ e. cc) refl
    special_parent rtr_cert_pem = routed_special rtr_cert_pem (λ e. cc) refl
    special_parent ept_cert_pem = routed_special ept_cert_pem (λ e. cc) refl
    special_parent topo_query = routed_special topo_query (λ e. cc) refl
    special_parent stats_query = routed_special stats_query (λ e. cc) refl
    special_parent topo_rutr_cn = routed_special topo_rutr_cn (λ e. cc) refl
    special_parent topo_brdg_cn = routed_special topo_brdg_cn (λ e. cc) refl
    special_parent topo_endpt = routed_special topo_endpt (λ e. cc) refl
    special_parent stats_rutr = routed_special stats_rutr (λ e. cc) refl
    special_parent stats_brdg = routed_special stats_brdg (λ e. cc) refl
    special_parent stats_endpt = routed_special stats_endpt (λ e. cc) refl
    special_parent stats_conn = routed_special stats_conn (λ e. cc) refl
    special_parent msg_flow_inf = routed_special msg_flow_inf (λ e. cc) refl
    special_parent ept_sig_nnce = routed_special ept_sig_nnce (λ e. cc) refl
    special_parent ept_nnce_sig = routed_special ept_nnce_sig (λ e. cc) refl
    special_parent (method n) = routed_special (method n) (λ e. cc) refl

  -- A message of the parent router changes nothing of the adjacent nodes, and of the parent router
  -- only the confirmed id, by the target of a message confirmId. The connection can forget the
  -- message.
  pub handle_parent_message-Kept :
      (incoming_id : ℕ) (msg_id : MessageId) (msg_age : ℤ) (message : Message) (s : State env)
      → Kept s
          (if same msg_id (special confirm_id)
            then record s.router.parent_router { confirmed_id = message.info.target_id }
            else s.router.parent_router)
          (handle_parent_message env incoming_id msg_id msg_age message s)
  unfolding handle_parent_message add_age
  handle_parent_message-Kept incoming_id (special m) msg_age message s =
      special_parent (aged env msg_age message) s m
  handle_parent_message-Kept incoming_id (user c m) msg_age message s =
      let kept = route_unless_old-router env incoming_id (user c m) (aged env msg_age message) s in
      rw (≢→same (user c m) (special confirm_id) (λ e. cc)) (
        ap (λ r. r.nodes.nodes) kept,
        ap (λ r. r.parent_router) kept,
        route_unless_old-true env incoming_id (user c m) (aged env msg_age message) s,
      )
