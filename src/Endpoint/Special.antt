-- ===== src/Endpoint/Special.antt =====
-- The special messages that an endpoint handles: `_handle_special` and its handlers, but for the fragments of
-- blobs (source/modules/eagine/core/endpoint_impl.cpp).
pub mod Kept
use eagine_msgbus.Prelude.{
  ℕ, ◌+◌, ◌-◌, Bool, true, false, not, ◌&&◌, ◌||◌, Option, none, some, List, [], ◌∷◌, ◌==◌, leb,
  if◌then◌else◌,
}
use eagine_msgbus.Prelude.Int.{ℤ}
use eagine_msgbus.Core.{normal, is_valid_id}
use eagine_msgbus.Message.Info.{Message, add_age, default_info, setup_response}
use eagine_msgbus.Message.Queue
use eagine_msgbus.Router.Ident.{
  Method, MessageId, special, user, same, assign_id, confirm_id, req_rutr_pwd, enc_rutr_pwd, ping,
  pong, subscrib_to, unsub_from, not_sub_to, still_alive, bye_bye_endp, bye_bye_rutr, bye_bye_brdg,
  qry_subscrb, qry_subscrp, blob_frgmnt, blob_resend, blob_prpare, rtr_cert_qry, ept_cert_qry,
  rtr_cert_pem, ept_cert_pem, topo_query, stats_query, topo_rutr_cn, topo_brdg_cn, topo_endpt,
  stats_endpt, msg_flow_inf, ept_sig_nnce, ept_nnce_sig,
}
use eagine_msgbus.Blobs.Manipulator.{make_target_io}
use eagine_msgbus.Blobs.Manipulator.Incoming.{process_incoming}
use eagine_msgbus.Blobs.Manipulator.Upkeep.{
  Fetched, fetched_message, finished_target, fetch_blobs, process_resend, process_prepare,
}
use eagine_msgbus.Context.{
  add_remote_certificate_pem, get_remote_nonce, get_own_signature, verify_nonce_signature,
  has_bytes,
}
use eagine_msgbus.Endpoint.{
  Endpoint, EndpointEnvironment, State, IncomingState, IncomingMap, id_assigned, has_id, emit,
  count_dropped, empty_message, do_send, post, post_blob, post_certificate,
}
use eagine_msgbus.Endpoint.Say.{say_not_a_router}

-- `message_handling_result`
pub data HandlingResult : Type 0 where
  should_be_stored was_handled was_not_handled : HandlingResult

module _ {Timeout F Cert Key Store : Type 0} (env : EndpointEnvironment Timeout F Cert Key Store)
    (now : ℕ) (random : List ℕ) where
  open env use {blob_env, ssl}
  open blob_env use {mem}

  -- `_handle_assign_id`
  unfoldable pub handle_assign_id : Message → State env → State env × HandlingResult
  handle_assign_id message e =
      let id = message.info.target_id in
      (
        if has_id e
            then e
            else emit (id_assigned id)
                (record e { router_id = message.info.source_id; endpoint_id = id }),
        was_handled,
      )

  -- `_handle_confirm_id`
  unfoldable pub handle_confirm_id : Message → State env → State env × HandlingResult
  handle_confirm_id message e =
      let id = message.info.target_id in
      let e' = record e { router_id = message.info.source_id; endpoint_id = id } in
      let confirmed =
        if id == e.preconfd_id
        then (post env now (special rtr_cert_qry) empty_message (emit (id_assigned id) e')).0
        else e' in
      (if has_id e then e else confirmed, was_handled)

  -- `_handle_password_request`
  unfoldable pub handle_password_request : Message → State env → State env × HandlingResult
  handle_password_request message e =
      let answered : State env = elim (env.encrypt_shared_password message.content) [
        | none ↦ e
        | some encrypted ↦
            (do_send env (special enc_rutr_pwd)
              (record { info = setup_response default_info message.info; content = encrypted }) e).0
      ] in
      (
        if (is_valid_id e.router_id && (message.info.source_id == e.router_id))
              && (has_id e && (message.info.target_id == e.endpoint_id))
            then answered
            else e,
        was_handled,
      )

  -- `_handle_blob_resend` and `_handle_blob_prepare`
  unfoldable pub handle_blob_resend : Message → State env → State env × HandlingResult
  handle_blob_resend message e =
      (record e { blobs = process_resend blob_env message e.blobs }, was_handled)

  unfoldable pub handle_blob_prepare : Message → State env → State env × HandlingResult
  handle_blob_prepare message e =
      (record e { blobs = process_prepare blob_env now message e.blobs }, was_handled)

  -- `_handle_flow_info`
  unfoldable pub handle_flow_info : Message → State env → State env × HandlingResult
  handle_flow_info message e = elim (env.flow_info_of message.content) [
    | none ↦ (e, was_handled)
    | some age ↦ (record e { flow_info = age }, was_handled)
  ]

  -- `_handle_certificate_query`
  unfoldable pub handle_certificate_query : Message → State env → State env × HandlingResult
  handle_certificate_query message e =
      ((post_certificate env now message.info.source_id message.info.sequence_no e).0, was_handled)

  -- `_handle_endpoint_certificate`; what stands behind the certificate is not in its message.
  unfoldable pub handle_endpoint_certificate : Message → State env → State env × HandlingResult
  handle_endpoint_certificate message e =
      let source_id = message.info.source_id in
      let (context, added) =
        add_remote_certificate_pem mem ssl random source_id message.content e.context in
      let e' = record e { context = context } in
      let nonce = get_remote_nonce source_id context in
      let asked =
        (post_blob env now (special ept_sig_nnce) source_id message.info.sequence_no nonce 30 normal
          e').0 in
      (if added && has_bytes nonce then asked else e', was_handled)

  -- `_handle_router_certificate`
  unfoldable pub handle_router_certificate : Message → State env → State env × HandlingResult
  handle_router_certificate message e = (
    record e {
      context = (add_remote_certificate_pem mem ssl random 0 message.content e.context).0;
    },
    was_handled,
  )

  -- `_handle_sign_nonce_request` and `_handle_signed_nonce`
  unfoldable pub handle_sign_nonce_request : Message → State env → State env × HandlingResult
  handle_sign_nonce_request message e =
      let signature = get_own_signature mem ssl message.content e.context in
      let signed =
        (post_blob env now (special ept_nnce_sig) message.info.source_id message.info.sequence_no
          signature 30 normal e).0 in
      (if has_bytes signature then signed else e, was_handled)

  unfoldable pub handle_signed_nonce : Message → State env → State env × HandlingResult
  handle_signed_nonce message e = (
    record e {
      context = (verify_nonce_signature mem ssl message.content message.info.source_id e.context).0;
    },
    was_handled,
  )

  -- A response of `_handle_topology_query` and `_handle_stats_query`.
  unfoldable pub answer :
      Method → Option (List ℕ) → Message → State env → State env × HandlingResult
  answer m serialized message e = elim serialized [
    | none ↦ (e, was_not_handled)
    | some content ↦
        let (e', posted) =
          post env now (special m)
            (record { info = setup_response default_info message.info; content = content }) e in
        (e', if posted then was_handled else was_not_handled)
  ]

  -- `_handle_special` for all messages but the fragments of blobs.
  unfoldable pub handle_special_simple : Method → Message → State env → State env × HandlingResult
  handle_special_simple blob_resend message e = handle_blob_resend message e
  handle_special_simple blob_prpare message e = handle_blob_prepare message e
  handle_special_simple assign_id message e = handle_assign_id message e
  handle_special_simple confirm_id message e = handle_confirm_id message e
  handle_special_simple msg_flow_inf message e = handle_flow_info message e
  handle_special_simple ept_cert_qry message e = handle_certificate_query message e
  handle_special_simple ept_cert_pem message e = handle_endpoint_certificate message e
  handle_special_simple ept_sig_nnce message e = handle_sign_nonce_request message e
  handle_special_simple ept_nnce_sig message e = handle_signed_nonce message e
  handle_special_simple rtr_cert_pem message e = handle_router_certificate message e
  handle_special_simple topo_query message e =
      answer topo_endpt (env.topology_info e.endpoint_id e.instance_id) message e
  handle_special_simple stats_query message e =
      answer stats_endpt (env.statistics e.stats) message e
  handle_special_simple req_rutr_pwd message e = handle_password_request message e
  handle_special_simple ping message e = (e, should_be_stored)
  handle_special_simple pong message e = (e, should_be_stored)
  handle_special_simple subscrib_to message e = (e, should_be_stored)
  handle_special_simple unsub_from message e = (e, should_be_stored)
  handle_special_simple not_sub_to message e = (e, should_be_stored)
  handle_special_simple qry_subscrp message e = (e, should_be_stored)
  handle_special_simple qry_subscrb message e = (e, should_be_stored)
  handle_special_simple bye_bye_endp message e = (e, should_be_stored)
  handle_special_simple bye_bye_rutr message e = (e, should_be_stored)
  handle_special_simple bye_bye_brdg message e = (e, should_be_stored)
  handle_special_simple still_alive message e = (e, should_be_stored)
  handle_special_simple topo_rutr_cn message e = (e, should_be_stored)
  handle_special_simple topo_brdg_cn message e = (e, should_be_stored)
  handle_special_simple topo_endpt message e = (e, should_be_stored)
  handle_special_simple m message e =
      if has_id e && (message.info.source_id == e.endpoint_id)
      then (count_dropped e, was_handled)
      else (e, should_be_stored)
