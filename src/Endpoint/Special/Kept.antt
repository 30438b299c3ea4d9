-- ===== src/Endpoint/Special/Kept.antt =====
-- Handling a special message keeps to the relation of Endpoint/Kept (the handlers that `_handle_special` of
-- source/modules/eagine/core/endpoint_impl.cpp calls).
use eagine_msgbus.Prelude.{
  ℕ, ◌≡◌, refl, Bool, true, ◌&&◌, Option, none, some, List, ◌==◌, if◌then◌else◌, arith,
}
use eagine_msgbus.Core.{normal, Priority, is_valid_id}
use eagine_msgbus.Message.Info.{Message, default_info, setup_response}
use eagine_msgbus.Router.Ident.{
  Method, MessageId, special, user, request_id, assign_id, announce_id, ann_endpt_id, confirm_id,
  req_rutr_pwd, enc_rutr_pwd, ping, pong, subscrib_to, unsub_from, not_sub_to, not_a_router,
  clr_blk_list, clr_alw_list, still_alive, msg_alw_list, msg_blk_list, bye_bye_endp, bye_bye_rutr,
  bye_bye_brdg, qry_subscrb, qry_subscrp, blob_frgmnt, blob_resend, blob_prpare, rtr_cert_qry,
  ept_cert_qry, rtr_cert_pem, ept_cert_pem, topo_query, stats_query, topo_rutr_cn, topo_brdg_cn,
  topo_endpt, stats_rutr, stats_brdg, stats_endpt, stats_conn, msg_flow_inf, ept_sig_nnce,
  ept_nnce_sig,
}
use eagine_msgbus.Router.Ident
use eagine_msgbus.Context.{
  add_remote_certificate_pem, get_remote_nonce, get_own_signature, has_bytes,
}
use eagine_msgbus.Endpoint.{
  EndpointEnvironment, State, id_assigned, has_id, emit, count_dropped, empty_message, do_send,
  post_blob, post_certificate,
}
use eagine_msgbus.Endpoint.Kept.{
  Kept, Kept-trans, Kept-others, Kept-refl, Kept-if, Kept-option, do_send-Kept, post-Kept,
  assigned-Kept, renamed-Kept,
}
use eagine_msgbus.Endpoint.Special.{
  HandlingResult, should_be_stored, was_handled, handle_assign_id, handle_confirm_id,
  handle_password_request, handle_blob_resend, handle_blob_prepare, handle_flow_info,
  handle_certificate_query, handle_endpoint_certificate, handle_router_certificate,
  handle_sign_nonce_request, handle_signed_nonce, answer, handle_special_simple,
}

module _ {Timeout F Cert Key Store : Type 0} (env : EndpointEnvironment Timeout F Cert Key Store)
    (now : ℕ) where
  open env use {blob_env, ssl}
  open blob_env use {mem}

  pub post_blob-Kept :
      (msg_id : MessageId) (target_id blob_id : ℕ) (blob : List ℕ) (max_time : ℕ)
      (priority : Priority) (e : State env)
      → Kept e (post_blob env now msg_id target_id blob_id blob max_time priority e).0
  unfolding post_blob
  post_blob-Kept msg_id target_id blob_id blob max_time priority e =
      Kept-others e _ refl refl refl refl refl

  pub post_certificate-Kept :
      (target_id blob_id : ℕ) (e : State env)
      → Kept e (post_certificate env now target_id blob_id e).0
  unfolding post_certificate
  post_certificate-Kept target_id blob_id e =
      Kept-if {X = State env × Bool} (λ x. x.0) e (has_bytes e.context.own_cert_pem) _ _
        (λ _. post_blob-Kept _ target_id blob_id e.context.own_cert_pem 30 normal e)
        (λ _. Kept-refl e)

  module _ (random : List ℕ) where
    handle_assign_id-Kept :
        (message : Message) (e : State env) → Kept e (handle_assign_id env now random message e).0
    unfolding handle_assign_id
    handle_assign_id-Kept message e =
        Kept-if (λ x. x) e (has_id e) _ _ (λ _. Kept-refl e)
          (λ n. assigned-Kept message.info.source_id message.info.target_id e n)

    handle_confirm_id-Kept :
        (message : Message) (e : State env) → Kept e (handle_confirm_id env now random message e).0
    unfolding handle_confirm_id
    handle_confirm_id-Kept message e =
        let id = message.info.target_id in
        let router_id = message.info.source_id in
        let assigned : State env =
          emit (id_assigned id) (record e { router_id = router_id; endpoint_id = id }) in
        Kept-if (λ x. x) e (has_id e) _ _ (λ _. Kept-refl e)
          (λ n.
            Kept-if (λ x. x) e (id == e.preconfd_id) _ _
              (λ _.
                Kept-trans (assigned-Kept router_id id e n)
                  (post-Kept env now (special rtr_cert_qry) empty_message assigned))
              (λ _. renamed-Kept router_id id e n))

    handle_password_request-Kept :
        (message : Message) (e : State env)
        → Kept e (handle_password_request env now random message e).0
    unfolding handle_password_request
    handle_password_request-Kept message e =
        Kept-if (λ x. x) e
          ((is_valid_id e.router_id && (message.info.source_id == e.router_id))
            && (has_id e && (message.info.target_id == e.endpoint_id)))
          _ _
          (λ h.
            let own : has_id e ≡ true = ground arith in
            Kept-option (λ x. x) e (env.encrypt_shared_password message.content) e
              (λ encrypted.
                (do_send env (special enc_rutr_pwd)
                  (record { info = setup_response default_info message.info; content = encrypted })
                  e).0)
              (Kept-refl e) (λ encrypted. do_send-Kept env _ _ e own))
          (λ _. Kept-refl e)

    handle_flow_info-Kept :
        (message : Message) (e : State env) → Kept e (handle_flow_info env now random message e).0
    unfolding handle_flow_info
    handle_flow_info-Kept message e =
        Kept-option {X = State env × HandlingResult} (λ x. x.0) e (env.flow_info_of message.content)
          _ _ (Kept-refl e) (λ age. Kept-others e _ refl refl refl refl refl)

    handle_endpoint_certificate-Kept :
        (message : Message) (e : State env)
        → Kept e (handle_endpoint_certificate env now random message e).0
    unfolding handle_endpoint_certificate
    handle_endpoint_certificate-Kept message e =
        let added =
          add_remote_certificate_pem mem ssl random message.info.source_id message.content
            e.context in
        let e' : State env = record e { context = added.0 } in
        let k : Kept e e' = Kept-others e e' refl refl refl refl refl in
        Kept-if (λ x. x) e (added.1 && has_bytes (get_remote_nonce message.info.source_id added.0))
          _ _ (λ _. Kept-trans k (post_blob-Kept _ _ _ _ _ _ e')) (λ _. k)

    handle_sign_nonce_request-Kept :
        (message : Message) (e : State env)
        → Kept e (handle_sign_nonce_request env now random message e).0
    unfolding handle_sign_nonce_request
    handle_sign_nonce_request-Kept message e =
        Kept-if (λ x. x) e (has_bytes (get_own_signature mem ssl message.content e.context)) _ _
          (λ _. post_blob-Kept _ _ _ _ _ _ e) (λ _. Kept-refl e)

    answer-Kept :
        (m : Method) (serialized : Option (List ℕ)) (message : Message) (e : State env)
        → Kept e (answer env now random m serialized message e).0
    unfolding answer
    answer-Kept m none message e = Kept-refl e
    answer-Kept m (some content) message e = post-Kept env now _ _ e

    -- The default case of the switch.
    own_message : Message → State env → State env × HandlingResult
    own_message message e =
        if has_id e && (message.info.source_id == e.endpoint_id)
        then (count_dropped e, was_handled)
        else (e, should_be_stored)

    own_message-Kept : (message : Message) (e : State env) → Kept e (own_message message e).0
    unfolding own_message count_dropped
    own_message-Kept message e =
        Kept-if {X = State env × HandlingResult} (λ x. x.0) e
          (has_id e && (message.info.source_id == e.endpoint_id)) _ _
          (λ _. Kept-others e _ refl refl refl refl refl) (λ _. Kept-refl e)

    pub handle_special_simple-Kept :
        (m : Method) (message : Message) (e : State env)
        → Kept e (handle_special_simple env now random m message e).0
    unfolding handle_special_simple handle_blob_resend handle_blob_prepare handle_certificate_query
        handle_router_certificate handle_signed_nonce own_message
    handle_special_simple-Kept blob_resend message e = Kept-others e _ refl refl refl refl refl
    handle_special_simple-Kept blob_prpare message e = Kept-others e _ refl refl refl refl refl
    handle_special_simple-Kept assign_id message e = handle_assign_id-Kept message e
    handle_special_simple-Kept confirm_id message e = handle_confirm_id-Kept message e
    handle_special_simple-Kept msg_flow_inf message e = handle_flow_info-Kept message e
    handle_special_simple-Kept ept_cert_qry message e =
        post_certificate-Kept message.info.source_id message.info.sequence_no e
    handle_special_simple-Kept ept_cert_pem message e = handle_endpoint_certificate-Kept message e
    handle_special_simple-Kept ept_sig_nnce message e = handle_sign_nonce_request-Kept message e
    handle_special_simple-Kept ept_nnce_sig message e = Kept-others e _ refl refl refl refl refl
    handle_special_simple-Kept rtr_cert_pem message e = Kept-others e _ refl refl refl refl refl
    handle_special_simple-Kept topo_query message e =
        answer-Kept topo_endpt (env.topology_info e.endpoint_id e.instance_id) message e
    handle_special_simple-Kept stats_query message e =
        answer-Kept stats_endpt (env.statistics e.stats) message e
    handle_special_simple-Kept req_rutr_pwd message e = handle_password_request-Kept message e
    handle_special_simple-Kept ping message e = Kept-refl e
    handle_special_simple-Kept pong message e = Kept-refl e
    handle_special_simple-Kept subscrib_to message e = Kept-refl e
    handle_special_simple-Kept unsub_from message e = Kept-refl e
    handle_special_simple-Kept not_sub_to message e = Kept-refl e
    handle_special_simple-Kept qry_subscrp message e = Kept-refl e
    handle_special_simple-Kept qry_subscrb message e = Kept-refl e
    handle_special_simple-Kept bye_bye_endp message e = Kept-refl e
    handle_special_simple-Kept bye_bye_rutr message e = Kept-refl e
    handle_special_simple-Kept bye_bye_brdg message e = Kept-refl e
    handle_special_simple-Kept still_alive message e = Kept-refl e
    handle_special_simple-Kept topo_rutr_cn message e = Kept-refl e
    handle_special_simple-Kept topo_brdg_cn message e = Kept-refl e
    handle_special_simple-Kept topo_endpt message e = Kept-refl e
    handle_special_simple-Kept request_id message e = own_message-Kept message e
    handle_special_simple-Kept announce_id message e = own_message-Kept message e
    handle_special_simple-Kept ann_endpt_id message e = own_message-Kept message e
    handle_special_simple-Kept enc_rutr_pwd message e = own_message-Kept message e
    handle_special_simple-Kept not_a_router message e = own_message-Kept message e
    handle_special_simple-Kept clr_blk_list message e = own_message-Kept message e
    handle_special_simple-Kept clr_alw_list message e = own_message-Kept message e
    handle_special_simple-Kept msg_alw_list message e = own_message-Kept message e
    handle_special_simple-Kept msg_blk_list message e = own_message-Kept message e
    handle_special_simple-Kept blob_frgmnt message e = own_message-Kept message e
    handle_special_simple-Kept rtr_cert_qry message e = own_message-Kept message e
    handle_special_simple-Kept stats_rutr message e = own_message-Kept message e
    handle_special_simple-Kept stats_brdg message e = own_message-Kept message e
    handle_special_simple-Kept stats_endpt message e = own_message-Kept message e
    handle_special_simple-Kept stats_conn message e = own_message-Kept message e
    handle_special_simple-Kept (Ident.method n) message e = own_message-Kept message e
