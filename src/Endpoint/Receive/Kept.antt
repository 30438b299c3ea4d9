-- ===== src/Endpoint/Receive/Kept.antt =====
-- Handling and storing a message keeps to the relation of Endpoint/Kept
-- (`_handle_special`, `_store_message` and `_accept_message` of
-- source/modules/eagine/core/endpoint_impl.cpp).
use eagine_msgbus.Prelude.{ℕ, refl, Bool, ◌||◌, some, List, [], ◌∷◌}
use eagine_msgbus.Prelude.Int.{ℤ}
use eagine_msgbus.Message.Info.{Message}
use eagine_msgbus.Router.Ident.{Method, MessageId, special, user}
use eagine_msgbus.Blobs.Manipulator.{make_target_io}
use eagine_msgbus.Blobs.Manipulator.Incoming.{process_incoming}
use eagine_msgbus.Blobs.Manipulator.Upkeep.{Fetched, fetched_message, finished_target, fetch_blobs}
use eagine_msgbus.Endpoint.{EndpointEnvironment, State, count_dropped}
use eagine_msgbus.Endpoint.Say.{say_not_a_router}
use eagine_msgbus.Endpoint.Kept.{
  Kept, Kept-trans, Kept-others, Kept-refl, Kept-if, Kept-option, post-Kept,
}
use eagine_msgbus.Endpoint.Queues.{find_incoming}
use eagine_msgbus.Endpoint.Special.{
  HandlingResult, should_be_stored, was_handled, was_not_handled, handle_special_simple,
}
use eagine_msgbus.Endpoint.Receive.{
  store_in_queue, is_for, store_unhandled, count_received, store_fetched, store_all_fetched,
  handle_blob_fragment, handle_special, store_message, accept_in_queue, accept_unhandled,
  accept_message, is_fragment, is_preparation,
}
use eagine_msgbus.Endpoint.Special.Kept.{handle_special_simple-Kept}

module _ {Timeout F Cert Key Store : Type 0} (env : EndpointEnvironment Timeout F Cert Key Store)
    (now : ℕ) where
  open env use {blob_env, ssl}
  open blob_env use {mem}

  module _ (random : List ℕ) where
    count_received-Kept : (e : State env) → Kept e (count_received env now random e)
    unfolding count_received
    count_received-Kept e = Kept-others e _ refl refl refl refl refl

    store_unhandled-Kept :
        (msg_id : MessageId) (age : ℤ) (message : Message) (e : State env) (r : HandlingResult)
        → Kept e (store_unhandled env now random msg_id age message (e, r))
    unfolding store_unhandled store_in_queue count_dropped say_not_a_router
    store_unhandled-Kept msg_id age message e should_be_stored =
        Kept-if (λ x. x) e (is_for env now random message e) _ _
          (λ _. Kept-others e _ refl refl refl refl refl)
          (λ _.
            Kept-trans (Kept-others e _ refl refl refl refl refl)
              (post-Kept env now _ _ (count_dropped e)))
    store_unhandled-Kept msg_id age message e was_handled = Kept-refl e
    store_unhandled-Kept msg_id age message e was_not_handled = Kept-refl e

    store_handled-Kept :
        (msg_id : MessageId) (age : ℤ) (message : Message) (e : State env)
        (r : State env × HandlingResult)
        → Kept (count_received env now random e) r.0
        → Kept e (store_unhandled env now random msg_id age message r)
    store_handled-Kept msg_id age message e (e', r) k =
        Kept-trans (count_received-Kept e)
          (Kept-trans k (store_unhandled-Kept msg_id age message e' r))

    store_special-Kept :
        (m : Method) (age : ℤ) (message : Message) (e : State env)
        → Kept e (
            store_unhandled env now random
              (special m)
              age
              message
              (handle_special_simple env now random m message (count_received env now random e)))
    store_special-Kept m age message e =
        store_handled-Kept (special m) age message e _
          (handle_special_simple-Kept env now random m message (count_received env now random e))

    store_fetched-Kept :
        (msg_id : MessageId) (age : ℤ) (message : Message) (e : State env)
        → Kept e (store_fetched env now random msg_id age message e)
    unfolding store_fetched
    store_fetched-Kept (user c m) age message e =
        store_handled-Kept (user c m) age message e _ (Kept-refl _)
    store_fetched-Kept (special m) age message e =
        Kept-if (λ x. x) e (is_fragment m || is_preparation m) _ _ (λ _. count_received-Kept e)
          (λ _. store_special-Kept m age message e)

    store_all_fetched-Kept :
        (blob_age : MessageId → Message → ℤ) (calls : List (Fetched (List ℕ) (List ℕ) Timeout F))
        (e : State env)
        → Kept e (store_all_fetched env now random blob_age calls e)
    unfolding store_all_fetched
    store_all_fetched-Kept blob_age [] e = Kept-refl e
    store_all_fetched-Kept blob_age (fetched_message msg_id message ∷ calls) e =
        Kept-trans (store_fetched-Kept msg_id (blob_age msg_id message) message e)
          (store_all_fetched-Kept blob_age calls _)
    store_all_fetched-Kept blob_age (finished_target c ∷ calls) e =
        store_all_fetched-Kept blob_age calls e

    module _ (blob_age : MessageId → Message → ℤ) where
      handle_blob_fragment-Kept :
          (message : Message) (e : State env)
          → Kept e (handle_blob_fragment env now random blob_age message e).0
      unfolding handle_blob_fragment
      handle_blob_fragment-Kept message e =
          let r =
            process_incoming blob_env now (λ _ size. make_target_io blob_env e.blobs size) message
              e.blobs in
          let left : State env = record e { blobs = (fetch_blobs some r.0).0 } in
          Kept-if (λ x. x) e r.1 _ _
            (λ _.
              Kept-trans (Kept-others e left refl refl refl refl refl)
                (store_all_fetched-Kept blob_age (fetch_blobs some r.0).1 left))
            (λ _. Kept-others e _ refl refl refl refl refl)

      handle_special-Kept :
          (msg_id : MessageId) (message : Message) (e : State env)
          → Kept e (handle_special env now random blob_age msg_id message e).0
      unfolding handle_special
      handle_special-Kept (user c m) message e = Kept-refl e
      handle_special-Kept (special m) message e =
          Kept-if {X = State env × HandlingResult} (λ x. x.0) e (is_fragment m) _ _
            (λ _. handle_blob_fragment-Kept message e)
            (λ _. handle_special_simple-Kept env now random m message e)

      pub store_message-Kept :
          (msg_id : MessageId) (age : ℤ) (message : Message) (e : State env)
          → Kept e (store_message env now random blob_age msg_id age message e)
      unfolding store_message
      store_message-Kept msg_id age message e =
          store_handled-Kept msg_id age message e _
            (handle_special-Kept msg_id message (count_received env now random e))

      accept_in_queue-Kept :
          (msg_id : MessageId) (message : Message) (e : State env)
          → Kept e (accept_in_queue env now random blob_age msg_id message e).0
      unfolding accept_in_queue
      accept_in_queue-Kept msg_id message e =
          Kept-option {X = State env × Bool} (λ x. x.0) e (find_incoming e.incoming msg_id) _ _
            (Kept-refl e)
            (λ _.
              Kept-if (λ x. x) e (is_for env now random message e) _ _
                (λ _. Kept-others e _ refl refl refl refl refl) (λ _. Kept-refl e))

      accept_unhandled-Kept :
          (msg_id : MessageId) (message : Message) (e : State env) (r : HandlingResult)
          → Kept e (accept_unhandled env now random blob_age msg_id message (e, r)).0
      unfolding accept_unhandled
      accept_unhandled-Kept msg_id message e was_handled = Kept-refl e
      accept_unhandled-Kept msg_id message e should_be_stored =
          accept_in_queue-Kept msg_id message e
      accept_unhandled-Kept msg_id message e was_not_handled = accept_in_queue-Kept msg_id message e

      pub accept_message-Kept :
          (msg_id : MessageId) (message : Message) (e : State env)
          → Kept e (accept_message env now random blob_age msg_id message e).0
      unfolding accept_message
      accept_message-Kept msg_id message e =
          let r = handle_special env now random blob_age msg_id message e in
          Kept-trans (handle_special-Kept msg_id message e)
            (accept_unhandled-Kept msg_id message r.0 r.1)
