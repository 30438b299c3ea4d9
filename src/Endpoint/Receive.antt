-- ===== src/Endpoint/Receive.antt =====
-- What an endpoint does with the messages that come in: the fragments of blobs, `_handle_special`,
-- `_store_message` and `_accept_message` of source/modules/eagine/core/endpoint_impl.cpp.
--
-- `_blobs.fetch_all` calls the store handler while it goes through the incoming blobs. A complete
-- blob that holds a message of the blobs itself would change that list meanwhile, so that the
-- behaviour of the code is undefined; in the model such a message is only counted.
pub mod Kept
use eagine_msgbus.Prelude.{
  ℕ, ◌+◌, ◌-◌, Bool, true, false, not, ◌&&◌, ◌||◌, Option, none, some, List, [], ◌∷◌, ◌==◌, leb,
  if◌then◌else◌,
}
use eagine_msgbus.Prelude.Int.{ℤ}
use eagine_msgbus.Core.{normal, is_valid_id}
use eagine_msgbus.Message.Info.{Message, add_age, default_info, setup_response}
use eagine_msgbus.Message.Queue
use eagine_msgbus.Router.Ident.{
  Method, MessageId, special, user, same, assign_id, confirm_id, req_rutr_pwd, enc_rutr_pwd, ping,
  pong, subscrib_to, unsub_from, not_sub_to, still_alive, bye_bye_endp, bye_bye_rutr, bye_bye_brdg,
  qry_subscrb, qry_subscrp, blob_frgmnt, blob_resend, blob_prpare, rtr_cert_qry, ept_cert_qry,
  rtr_cert_pem, ept_cert_pem, topo_query, stats_query, topo_rutr_cn, topo_brdg_cn, topo_endpt,
  stats_endpt, msg_flow_inf, ept_sig_nnce, ept_nnce_sig,
}
use eagine_msgbus.Blobs.Manipulator.{make_target_io}
use eagine_msgbus.Blobs.Manipulator.Incoming.{process_incoming}
use eagine_msgbus.Blobs.Manipulator.Upkeep.{
  Fetched, fetched_message, finished_target, fetch_blobs, process_resend, process_prepare,
}
use eagine_msgbus.Context.{
  add_remote_certificate_pem, get_remote_nonce, get_own_signature, verify_nonce_signature,
  has_bytes,
}
use eagine_msgbus.Endpoint.{
  Endpoint, EndpointEnvironment, State, IncomingState, IncomingMap, id_assigned, has_id, emit,
  count_dropped, empty_message, do_send, post, post_blob, post_certificate,
}
use eagine_msgbus.Endpoint.Say.{say_not_a_router}
use eagine_msgbus.Endpoint.Queues.{find_incoming, change_incoming}
use eagine_msgbus.Endpoint.Special.{
  HandlingResult, should_be_stored, was_handled, was_not_handled, handle_special_simple,
}

-- The messages that change the list of the incoming blobs.
unfoldable pub is_fragment : Method → Bool
is_fragment blob_frgmnt = true
is_fragment m = false

unfoldable pub is_preparation : Method → Bool
is_preparation blob_prpare = true
is_preparation m = false

module _ {Timeout F Cert Key Store : Type 0} (env : EndpointEnvironment Timeout F Cert Key Store)
    (now : ℕ) (random : List ℕ) where
  open env use {blob_env, ssl}
  open blob_env use {mem}

  -- `queue.push(message).add_age(msg_age)` for a message id that has a queue or gets one.
  unfoldable pub store_in_queue : MessageId → ℤ → Message → State env → State env
  store_in_queue msg_id msg_age message e =
      let aged : Message = record message { info = add_age env.int8 msg_age message.info } in
      record e {
        incoming =
            change_incoming (λ s. record s { queue = Queue.push mem s.queue aged }) msg_id
              e.incoming;
      }

  -- Whether a message is for this endpoint or for all.
  unfoldable pub is_for : Message → State env → Bool
  is_for message e =
      (message.info.target_id == e.endpoint_id) || not (is_valid_id message.info.target_id)

  -- `_store_message` behind the call of `_handle_special`.
  unfoldable pub store_unhandled : MessageId → ℤ → Message → State env × HandlingResult → State env
  store_unhandled msg_id msg_age message (e, should_be_stored) =
      if is_for message e
      then store_in_queue msg_id msg_age message e
      else (say_not_a_router env now (count_dropped e)).0
  store_unhandled msg_id msg_age message (e, was_handled) = e
  store_unhandled msg_id msg_age message (e, was_not_handled) = e

  unfoldable pub count_received : State env → State env
  count_received e = record e {
    stats = record e.stats { received_messages = e.stats.received_messages + 1 };
  }

  -- `_store_message` for a message that a blob held.
  unfoldable pub store_fetched : MessageId → ℤ → Message → State env → State env
  store_fetched (user c m) msg_age message e =
      store_unhandled (user c m) msg_age message (count_received e, should_be_stored)
  store_fetched (special m) msg_age message e =
      if is_fragment m || is_preparation m
      then count_received e
      else store_unhandled (special m) msg_age message
          (handle_special_simple env now random m message (count_received e))

  -- The calls of the store handler in `_blobs.fetch_all`; a target is a buffer. `blob_age` is the age of a blob.
  unfoldable pub store_all_fetched :
      (MessageId → Message → ℤ) → List (Fetched (List ℕ) (List ℕ) Timeout F) → State env → State env
  store_all_fetched blob_age [] e = e
  store_all_fetched blob_age (fetched_message msg_id message ∷ calls) e =
      store_all_fetched blob_age calls (store_fetched msg_id (blob_age msg_id message) message e)
  store_all_fetched blob_age (finished_target c ∷ calls) e = store_all_fetched blob_age calls e

  module _ (blob_age : MessageId → Message → ℤ) where
    -- `_handle_blob_fragment`
    unfoldable pub handle_blob_fragment : Message → State env → State env × HandlingResult
    handle_blob_fragment message e =
        let (blobs, taken) =
          process_incoming blob_env now (λ _ size. make_target_io blob_env e.blobs size) message
            e.blobs in
        let (left, calls) = fetch_blobs some blobs in
        (
          if taken
              then store_all_fetched blob_age calls (record e { blobs = left })
              else record e { blobs = blobs },
          was_handled,
        )

    -- `_handle_special`
    unfoldable pub handle_special : MessageId → Message → State env → State env × HandlingResult
    handle_special (user c m) message e = (e, should_be_stored)
    handle_special (special m) message e =
        if is_fragment m
        then handle_blob_fragment message e
        else handle_special_simple env now random m message e

    -- `_store_message`; its result is always true.
    unfoldable pub store_message : MessageId → ℤ → Message → State env → State env
    store_message msg_id msg_age message e =
        store_unhandled msg_id msg_age message (handle_special msg_id message (count_received e))

    -- `_accept_message` behind the call of `_handle_special`.
    unfoldable pub accept_in_queue : MessageId → Message → State env → State env × Bool
    accept_in_queue msg_id message e = elim (find_incoming e.incoming msg_id) [
      | none ↦ (e, false)
      | some state ↦ (
        if is_for message e
            then record e {
              incoming =
                  change_incoming (λ s. record s { queue = Queue.push mem s.queue message }) msg_id
                    e.incoming;
            }
            else e,
        true,
      )
    ]

    unfoldable pub accept_unhandled :
        MessageId → Message → State env × HandlingResult → State env × Bool
    accept_unhandled msg_id message (e, was_handled) = (e, true)
    accept_unhandled msg_id message (e, should_be_stored) = accept_in_queue msg_id message e
    accept_unhandled msg_id message (e, was_not_handled) = accept_in_queue msg_id message e

    -- `_accept_message`
    unfoldable pub accept_message : MessageId → Message → State env → State env × Bool
    accept_message msg_id message e =
        accept_unhandled msg_id message (handle_special msg_id message e)
