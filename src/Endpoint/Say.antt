-- ===== src/Endpoint/Say.antt =====
-- What an endpoint says to routers and other endpoints, and its responses
-- (source/modules/eagine/core/endpoint.cpp and endpoint_impl.cpp).
use eagine_msgbus.Prelude.{ℕ, Bool, none, some}
use eagine_msgbus.Message.Info.{Message, MessageInfo, default_info, setup_response}
use eagine_msgbus.Router.Ident.{
  MessageId, special, still_alive, not_a_router, bye_bye_endp, ept_cert_qry, subscrib_to,
  not_sub_to, unsub_from, qry_subscrp, qry_subscrb, clr_blk_list, clr_alw_list, msg_blk_list,
  msg_alw_list,
}
use eagine_msgbus.Endpoint.{EndpointEnvironment, State, empty_message, post}

module _ {Timeout F Cert Key Store : Type 0}
    (env : EndpointEnvironment Timeout F Cert Key Store) where
  module _ (now : ℕ) where
    -- `say_not_a_router`, `say_still_alive` and `say_bye`
    unfoldable pub say_not_a_router : State env → State env × Bool
    say_not_a_router e = post env now (special not_a_router) empty_message e

    unfoldable pub say_still_alive : State env → State env × Bool
    say_still_alive e =
        post env now (special still_alive)
          (record empty_message { info = record default_info { sequence_no = e.instance_id } }) e

    unfoldable pub say_bye : State env → State env × Bool
    say_bye e = post env now (special bye_bye_endp) empty_message e

    -- `post_meta_message` and `post_meta_message_to`
    unfoldable pub post_meta_message : MessageId → MessageId → State env → State env
    post_meta_message meta_msg_id msg_id e = elim (env.serialize msg_id) [
      | none ↦ e
      | some serialized ↦
          (post env now meta_msg_id
            (record {
              info = record default_info { sequence_no = e.instance_id };
              content = serialized;
            })
            e).0
    ]

    unfoldable pub post_meta_message_to : ℕ → MessageId → MessageId → State env → State env
    post_meta_message_to target_id meta_msg_id msg_id e = elim (env.serialize msg_id) [
      | none ↦ e
      | some serialized ↦
          (post env now meta_msg_id
            (record {
              info = record default_info { target_id = target_id; sequence_no = e.instance_id };
              content = serialized;
            })
            e).0
    ]

    -- `say_subscribes_to` (to all, and to one endpoint), `say_not_subscribed_to` and
    -- `say_unsubscribes_from`
    unfoldable pub say_subscribes_to : MessageId → State env → State env
    say_subscribes_to msg_id e = post_meta_message (special subscrib_to) msg_id e

    unfoldable pub tell_subscribes_to : ℕ → MessageId → State env → State env
    tell_subscribes_to target_id msg_id e =
        post_meta_message_to target_id (special subscrib_to) msg_id e

    unfoldable pub say_not_subscribed_to : ℕ → MessageId → State env → State env
    say_not_subscribed_to target_id msg_id e =
        post_meta_message_to target_id (special not_sub_to) msg_id e

    unfoldable pub say_unsubscribes_from : MessageId → State env → State env
    say_unsubscribes_from msg_id e = post_meta_message (special unsub_from) msg_id e

    -- `query_subscriptions_of`, `query_subscribers_of` and `query_certificate_of`
    unfoldable pub query_subscriptions_of : ℕ → State env → State env
    query_subscriptions_of target_id e =
        (post env now (special qry_subscrp)
          (record empty_message { info = record default_info { target_id = target_id } }) e).0

    unfoldable pub query_subscribers_of : MessageId → State env → State env
    query_subscribers_of msg_id e = post_meta_message (special qry_subscrb) msg_id e

    unfoldable pub query_certificate_of : ℕ → State env → State env
    query_certificate_of endpoint_id e =
        (post env now (special ept_cert_qry)
          (record empty_message { info = record default_info { target_id = endpoint_id } }) e).0

    -- The lists that the router keeps for this endpoint.
    unfoldable pub clear_block_list : State env → State env
    clear_block_list e = (post env now (special clr_blk_list) empty_message e).0

    unfoldable pub block_message_type : MessageId → State env → State env
    block_message_type msg_id e = post_meta_message (special msg_blk_list) msg_id e

    unfoldable pub clear_allow_list : State env → State env
    clear_allow_list e = (post env now (special clr_alw_list) empty_message e).0

    unfoldable pub allow_message_type : MessageId → State env → State env
    allow_message_type msg_id e = post_meta_message (special msg_alw_list) msg_id e

    -- `respond_to`
    unfoldable pub respond_to : MessageInfo → MessageId → Message → State env → State env × Bool
    respond_to info msg_id message e =
        post env now msg_id (record message { info = setup_response message.info info }) e
