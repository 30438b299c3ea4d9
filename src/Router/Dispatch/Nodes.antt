-- ===== src/Router/Dispatch/Nodes.antt =====
-- The handlers of special messages leave the connections and lists of the nodes as they are
-- (`_handle_special_common`, source/modules/eagine/core/router_impl.cpp).
use eagine_msgbus.Prelude.{
  ℕ, ◌≡◌, refl, ap, ◌∙◌, inl, inr, Option, none, some, List, [], ◌∷◌, length, ◌==◌, Bool-cases,
  Option-cases,
}
use eagine_msgbus.Message.Info.{Message}
use eagine_msgbus.Router.Ident.{
  Method, MessageId, special, ept_cert_pem, same, request_id, assign_id, announce_id, ann_endpt_id,
  confirm_id, req_rutr_pwd, enc_rutr_pwd, ping, pong, subscrib_to, unsub_from, not_sub_to,
  not_a_router, clr_blk_list, clr_alw_list, still_alive, msg_alw_list, msg_blk_list, bye_bye_endp,
  bye_bye_rutr, bye_bye_brdg, qry_subscrb, qry_subscrp, blob_frgmnt, blob_resend, blob_prpare,
  rtr_cert_qry, ept_cert_qry, rtr_cert_pem, topo_query, stats_query, topo_rutr_cn, topo_brdg_cn,
  topo_endpt, stats_rutr, stats_brdg, stats_endpt, stats_conn, msg_flow_inf, ept_sig_nnce,
  ept_nnce_sig, method,
}
use eagine_msgbus.Router.Node.{AdjacentNode}
use eagine_msgbus.Router.Subscriptions.{EndpointInfo}
use eagine_msgbus.Router.Nodes.{RouterNodes, find, update_endpoint_info}
use eagine_msgbus.Router.Handlers.{
  Deserialize, change_info, handle_subscribed, handle_not_subscribed,
}
use eagine_msgbus.Router.Blobs.{
  RouterContext, RouterState, get_blob_target_io, handle_blob, handle_fetched, handle_fragment,
}
use eagine_msgbus.Router.Routing.{Router}
use eagine_msgbus.Router.Dispatch.Known.{
  KnowsOthers, subscribed-KnowsOthers, not_subscribed-KnowsOthers,
}
use eagine_msgbus.Router.Dispatch.{
  RouterEnvironment, State, respond, respond_all, respond_parent, handle_topology_query,
  handle_stats_query, handle_password_request, handle_router_certificate_query,
  handle_endpoint_certificate_query, handle_blob_fragment, handle_blob_resend, handle_blob_prepare,
  handle_special_common,
}
use eagine_msgbus.Blobs.Manipulator.{BlobEnvironment}
use eagine_msgbus.Blobs.Manipulator.Upkeep.{Fetched, fetched_message, finished_target, fetch_blobs}
use eagine_msgbus.Blobs.Manipulator.Incoming.{process_incoming}

change_info-nodes :
    (f : EndpointInfo → EndpointInfo) (id : ℕ) (ns : RouterNodes)
    → (change_info f id ns).nodes ≡ ns.nodes
unfolding change_info
change_info-nodes f id ns = elim (Option-cases (find ns.endpoint_infos id)) [
  | inl e ↦ rw (change_info, e) refl
  | inr (info, e) ↦ rw (change_info, e) refl
]

module _ (deserialize : Deserialize) (now timeout incoming_id : ℕ) (message : Message)
    (ns : RouterNodes) where
  subscribed-nodes :
      (handle_subscribed deserialize now timeout incoming_id message ns).0.nodes ≡ ns.nodes
  unfolding handle_subscribed update_endpoint_info
  subscribed-nodes = elim (Option-cases (deserialize message.content)) [
    | inl e ↦ rw (handle_subscribed, e) refl
    | inr (m, e) ↦ rw (handle_subscribed, e) (change_info-nodes _ _ _)
  ]

  not_subscribed-nodes :
      (handle_not_subscribed deserialize now timeout incoming_id message ns).0.nodes ≡ ns.nodes
  unfolding handle_not_subscribed update_endpoint_info
  not_subscribed-nodes = elim (Option-cases (deserialize message.content)) [
    | inl e ↦ rw (handle_not_subscribed, e) refl
    | inr (m, e) ↦ rw (handle_not_subscribed, e) (change_info-nodes _ _ _)
  ]

module _ {Timeout F C : Type 0} (env : BlobEnvironment (List ℕ) (List ℕ) Timeout F)
    (context : RouterContext C) where
  handle_blob-router :
      (msg_id : MessageId) (message : Message) (s : RouterState Timeout F C)
      → (handle_blob env context msg_id message s).router ≡ s.router
  unfolding handle_blob
  handle_blob-router msg_id message s = elim (Bool-cases (same msg_id (special ept_cert_pem))) [
    | inl e ↦ rw (handle_blob, e) refl
    | inr e ↦ rw (handle_blob, e) refl
  ]

  handle_fetched-router :
      (calls : List (Fetched (List ℕ) (List ℕ) Timeout F)) (s : RouterState Timeout F C)
      → (handle_fetched env context calls s).router ≡ s.router
  unfolding handle_fetched
  handle_fetched-router [] s = refl
  handle_fetched-router (fetched_message msg_id message ∷ calls) s =
      handle_fetched-router calls (handle_blob env context msg_id message s)
      ∙ handle_blob-router msg_id message s
  handle_fetched-router (finished_target c ∷ calls) s = handle_fetched-router calls s

  handle_fragment-router :
      (message : Message) (s : RouterState Timeout F C)
      → (handle_fragment env context message s).router ≡ s.router
  unfolding handle_fragment
  handle_fragment-router message s =
      let get_io = get_blob_target_io env context s.blobs in
      let received = process_incoming env s.router.now get_io message s.blobs in
      let (left, calls) = fetch_blobs some received.0 in
      elim (Bool-cases received.1) [
        | inl e ↦ rw (handle_fragment, e) (handle_fetched-router calls (record s { blobs = left }))
        | inr e ↦ rw (handle_fragment, e) refl
      ]

both_kept :
    (source : ℕ) (r r' : Router)
    → r' ≡ r
    → (r'.nodes.nodes ≡ r.nodes.nodes)
      × (r'.parent_router ≡ r.parent_router)
      × KnowsOthers source r.nodes r'.nodes
both_kept source r r' e = (
  ap (λ q. q.nodes.nodes) e,
  ap (λ q. q.parent_router) e,
  λ x other. (ap (λ q. find q.nodes.endpoint_infos x) e, ap (λ q. find q.nodes.endpoint_idx x) e),
)

module _ {Timeout F C : Type 0} (env : RouterEnvironment Timeout F C) where
  respond-router :
      (message : Message) (msg_id : MessageId) (serialized : Option (List ℕ)) (s : State env)
      → (respond env message msg_id serialized s).router ≡ s.router
  unfolding respond
  respond-router message msg_id none s = refl
  respond-router message msg_id (some bytes) s = refl

  respond_all-router :
      (message : Message) (msg_id : MessageId) (serialized : ℕ → Option ℕ → Option (List ℕ))
      (es : List (ℕ × AdjacentNode)) (s : State env)
      → (respond_all env message msg_id serialized es s).router ≡ s.router
  unfolding respond_all
  respond_all-router message msg_id serialized [] s = refl
  respond_all-router message msg_id serialized (e ∷ es) s =
      respond_all-router message msg_id serialized es _
      ∙ respond-router message msg_id (serialized e.0 e.1.connection) s

  respond_parent-router :
      (message : Message) (msg_id : MessageId) (serialized : ℕ → Option ℕ → Option (List ℕ))
      (s : State env)
      → (respond_parent env message msg_id serialized s).router ≡ s.router
  unfolding respond_parent
  respond_parent-router message msg_id serialized s =
      elim (Option-cases s.router.parent_router.connection) [
        | inl e ↦ simp (respond_parent, e) refl
        | inr (c, e) ↦ elim (Bool-cases (s.router.parent_router.confirmed_id == 0)) [
          | inl f ↦ simp (respond_parent, e, f) refl
          | inr f ↦ simp (respond_parent, e, f) (respond-router message msg_id _ s)
        ]
      ]

  password-router :
      (message : Message) (s : State env)
      → (handle_password_request env message s).0.router ≡ s.router
  unfolding handle_password_request
  password-router message s = elim (Option-cases (env.encrypt_shared_password message.content)) [
    | inl e ↦ rw (handle_password_request, e) refl
    | inr (b, e) ↦ elim (Bool-cases (message.info.target_id == s.router.own_id)) [
      | inl f ↦ rw (handle_password_request, e, f) refl
      | inr f ↦ rw (handle_password_request, e, f) refl
    ]
  ]

  certificate-router :
      (message : Message) (s : State env)
      → (handle_endpoint_certificate_query env message s).0.router ≡ s.router
  unfolding handle_endpoint_certificate_query
  certificate-router message s =
      elim (Bool-cases
        (length (env.context.remote_certificate_pem s.certificates message.info.target_id) == 0)) [
          | inl e ↦ rw (handle_endpoint_certificate_query, e) refl
          | inr e ↦ rw (handle_endpoint_certificate_query, e) refl
        ]

  blobs-router :
      (message : Message) (s : State env)
      → ((handle_blob_resend env message s).0.router ≡ s.router)
        × ((handle_blob_prepare env message s).0.router ≡ s.router)
  unfolding handle_blob_resend handle_blob_prepare
  blobs-router message s = elim (Bool-cases (message.info.target_id == s.router.own_id)) [
    | inl e ↦ rw (handle_blob_resend, handle_blob_prepare, e) (refl, refl)
    | inr e ↦ rw (handle_blob_resend, handle_blob_prepare, e) (refl, refl)
  ]

  pub common-kept :
      (m : Method) (incoming_id : ℕ) (message : Message) (s : State env)
      → let r = (handle_special_common env m incoming_id message s).0.router in
        (r.nodes.nodes ≡ s.router.nodes.nodes)
        × (r.parent_router ≡ s.router.parent_router)
        × KnowsOthers message.info.source_id s.router.nodes r.nodes
  unfolding handle_special_common handle_topology_query handle_stats_query handle_blob_fragment
      handle_router_certificate_query
  common-kept request_id incoming_id message s = (refl, refl, λ x other. (refl, refl))
  common-kept assign_id incoming_id message s = (refl, refl, λ x other. (refl, refl))
  common-kept announce_id incoming_id message s = (refl, refl, λ x other. (refl, refl))
  common-kept ann_endpt_id incoming_id message s = (refl, refl, λ x other. (refl, refl))
  common-kept confirm_id incoming_id message s = (refl, refl, λ x other. (refl, refl))
  common-kept req_rutr_pwd incoming_id message s =
      both_kept message.info.source_id s.router _ (password-router message s)
  common-kept enc_rutr_pwd incoming_id message s = (refl, refl, λ x other. (refl, refl))
  common-kept ping incoming_id message s = (refl, refl, λ x other. (refl, refl))
  common-kept pong incoming_id message s = (refl, refl, λ x other. (refl, refl))
  common-kept subscrib_to incoming_id message s = (
    subscribed-nodes env.deserialize s.router.now env.timeout incoming_id message s.router.nodes,
    refl,
    subscribed-KnowsOthers env.deserialize s.router.now env.timeout incoming_id message
        s.router.nodes,
  )
  common-kept unsub_from incoming_id message s = (
    not_subscribed-nodes env.deserialize s.router.now env.timeout incoming_id message
        s.router.nodes,
    refl,
    not_subscribed-KnowsOthers env.deserialize s.router.now env.timeout incoming_id message
        s.router.nodes,
  )
  common-kept not_sub_to incoming_id message s = (
    not_subscribed-nodes env.deserialize s.router.now env.timeout incoming_id message
        s.router.nodes,
    refl,
    not_subscribed-KnowsOthers env.deserialize s.router.now env.timeout incoming_id message
        s.router.nodes,
  )
  common-kept not_a_router incoming_id message s = (refl, refl, λ x other. (refl, refl))
  common-kept clr_blk_list incoming_id message s = (refl, refl, λ x other. (refl, refl))
  common-kept clr_alw_list incoming_id message s = (refl, refl, λ x other. (refl, refl))
  common-kept still_alive incoming_id message s = (refl, refl, λ x other. (refl, refl))
  common-kept msg_alw_list incoming_id message s = (refl, refl, λ x other. (refl, refl))
  common-kept msg_blk_list incoming_id message s = (refl, refl, λ x other. (refl, refl))
  common-kept bye_bye_endp incoming_id message s = (refl, refl, λ x other. (refl, refl))
  common-kept bye_bye_rutr incoming_id message s = (refl, refl, λ x other. (refl, refl))
  common-kept bye_bye_brdg incoming_id message s = (refl, refl, λ x other. (refl, refl))
  common-kept qry_subscrb incoming_id message s = (refl, refl, λ x other. (refl, refl))
  common-kept qry_subscrp incoming_id message s = (refl, refl, λ x other. (refl, refl))
  common-kept blob_frgmnt incoming_id message s =
      both_kept message.info.source_id s.router _
        (handle_fragment-router env.blob_env env.context message s)
  common-kept blob_resend incoming_id message s =
      both_kept message.info.source_id s.router _ (blobs-router message s).0
  common-kept blob_prpare incoming_id message s =
      both_kept message.info.source_id s.router _ (blobs-router message s).1
  common-kept rtr_cert_qry incoming_id message s = (refl, refl, λ x other. (refl, refl))
  common-kept ept_cert_qry incoming_id message s =
      both_kept message.info.source_id s.router _ (certificate-router message s)
  common-kept rtr_cert_pem incoming_id message s = (refl, refl, λ x other. (refl, refl))
  common-kept ept_cert_pem incoming_id message s = (refl, refl, λ x other. (refl, refl))
  common-kept topo_query incoming_id message s =
      both_kept message.info.source_id s.router _ (
        respond_parent-router message _ _ _ ∙ respond_all-router message _ _ s.router.nodes.nodes s)
  common-kept stats_query incoming_id message s = both_kept message.info.source_id s.router _ (
      respond_parent-router message _ _ _
      ∙ respond_all-router message _ _ s.router.nodes.nodes _
      ∙ respond-router message _ _ s)
  common-kept topo_rutr_cn incoming_id message s = (refl, refl, λ x other. (refl, refl))
  common-kept topo_brdg_cn incoming_id message s = (refl, refl, λ x other. (refl, refl))
  common-kept topo_endpt incoming_id message s = (refl, refl, λ x other. (refl, refl))
  common-kept stats_rutr incoming_id message s = (refl, refl, λ x other. (refl, refl))
  common-kept stats_brdg incoming_id message s = (refl, refl, λ x other. (refl, refl))
  common-kept stats_endpt incoming_id message s = (refl, refl, λ x other. (refl, refl))
  common-kept stats_conn incoming_id message s = (refl, refl, λ x other. (refl, refl))
  common-kept msg_flow_inf incoming_id message s = (refl, refl, λ x other. (refl, refl))
  common-kept ept_sig_nnce incoming_id message s = (refl, refl, λ x other. (refl, refl))
  common-kept ept_nnce_sig incoming_id message s = (refl, refl, λ x other. (refl, refl))
  common-kept (method n) incoming_id message s = (refl, refl, λ x other. (refl, refl))

  pub common-both :
      (m : Method) (incoming_id : ℕ) (message : Message) (s : State env)
      → let r = (handle_special_common env m incoming_id message s).0.router in
        (r.nodes.nodes ≡ s.router.nodes.nodes) × (r.parent_router ≡ s.router.parent_router)
  common-both m incoming_id message s =
      let kept = common-kept m incoming_id message s in (kept.0, kept.1)
