-- ===== src/Router/Tests/Dispatching.antt =====
-- Runs of the handling of messages by a router on concrete messages
-- (source/modules/eagine/core/router_impl.cpp).
use eagine_msgbus.Prelude.{
  ℕ, ◌≡◌, refl, ◌++◌, ◌==◌, true, false, none, some, [], ◌∷◌, if◌then◌else◌, arith,
}
use eagine_msgbus.Prelude.Int.{pos}
use eagine_msgbus.Samples.{int8}
use eagine_msgbus.Samples.Blobs.{environment}
use eagine_msgbus.Router.Ident.{special, user, confirm_id, bye_bye_endp, same}
use eagine_msgbus.Router.Nodes.{find, is_disconnected}
use eagine_msgbus.Router.Pending.{RouterPending, message_between, should_be_removed}
use eagine_msgbus.Router.Adoption.{Adoption, node_for, adopt_pending}
use eagine_msgbus.Router.Adoption.Adopted.{adopt_pending_lem}
use eagine_msgbus.Router.Dispatch.{RouterEnvironment, State}
use eagine_msgbus.Router.Messages.{handle_node_message, handle_parent_message}
use eagine_msgbus.Router.Messages.Isolation.{handle_node_message-others}
use eagine_msgbus.Router.Messages.OfParent.{Kept, handle_parent_message-Kept}
use eagine_msgbus.Router.Tests.{node, router, quiet, accepts, message_to}

abbrev env : RouterEnvironment ℕ ℕ ℕ
env = record {
  accepts = accepts;
  int8 = int8;
  timeout = 60;
  deserialize = λ bytes. some (user 1 2);
  serialize = λ msg_id. some (1 ∷ []);
  blob_env = environment;
  context = record {
    own_certificate_pem = λ c. 1 ∷ [];
    remote_certificate_pem = λ c id. [];
    add_remote_certificate_pem = λ c id pem. (c, true);
  };
  encrypt_shared_password = λ nonce. some nonce;
  topology_info = λ id connection. some (id ∷ []);
  statistics = λ t. some (1 ∷ []);
  connection_statistics = λ id connection. none;
}

abbrev state : State env
state = record {
  router = router;
  traffic = quiet;
  blobs = record {
    fragment_msg_id = user 1 1;
    resend_msg_id = user 1 2;
    prepare_msg_id = user 1 3;
    max_blob_size = 100;
    blob_id_sequence = 0;
    outgoing_index = 0;
    outgoing = [];
    incoming = [];
  };
  certificates = 0;
}

handle_node_message-others_example :
    let r = handle_node_message env 5 (special bye_bye_endp) (pos 10) (message_to 1) node state in
    let ns = r.0.router.nodes in
    (find ns.nodes 6 ≡ find state.router.nodes.nodes 6)
    × (find ns.endpoint_infos 9 ≡ find state.router.nodes.endpoint_infos 9)
    × (find ns.endpoint_idx 9 ≡ find state.router.nodes.endpoint_idx 9)
    × (r.1 ≡ true)
handle_node_message-others_example =
    handle_node_message-others env 5 6 9 (special bye_bye_endp) (pos 10) (message_to 1) node state
      (λ e. omega arith) (λ e. omega arith)

handle_parent_message-Kept_example :
    Kept env state
      (if same (special confirm_id) (special confirm_id)
        then record state.router.parent_router { confirmed_id = 1 }
        else state.router.parent_router)
      (handle_parent_message env 1 (special confirm_id) (pos 10) (message_to 1) state)
handle_parent_message-Kept_example =
    handle_parent_message-Kept env 1 (special confirm_id) (pos 10) (message_to 1) state

abbrev pending : RouterPending
pending = record {
  id = 8;
  too_old_at = 50;
  should_request_pwd_at = 20;
  connection = some 80;
  nonce = [];
  password_verified = false;
  maybe_router = true;
}

abbrev adoption : Adoption
adoption = record { pending = pending; nodes = router.nodes; wire = [] }

adopt_pending_lem_example :
    let b = adopt_pending accepts 1 adoption in
    let old = node_for 8 router.nodes in
    (find b.nodes.nodes 8 ≡ some (record old { connection = some 80; maybe_router = true }))
    × ((x : ℕ)
        → (if 8 == x then none else find b.nodes.nodes x)
          ≡ (if 8 == x then none else find router.nodes.nodes x))
    × (is_disconnected 20 b.nodes 8 ≡ false)
    × (b.wire
        ≡ []
          ++ record { link = 80; msg_id = special confirm_id; message = message_between 1 8 [] }
            ∷ [])
    × (should_be_removed 20 b.pending ≡ true)
adopt_pending_lem_example = adopt_pending_lem accepts 1 20 80 adoption refl
