-- ===== src/Router/Messages.antt =====
-- The messages that come from the connections of a router: `_handle_node_message`,
-- `_handle_special_parent_message`, `_handle_parent_message` and `say_bye` of
-- source/modules/eagine/core/router_impl.cpp. The age of a message is in hundredths of a second. The
-- average age of messages, which only statistics show, is left out.
pub mod Routed
pub mod Isolation
pub mod OfParent
use eagine_msgbus.Prelude.{ℕ, ◌+◌, Bool, true, false, List, [], ◌∷◌, if◌then◌else◌}
use eagine_msgbus.Prelude.Int.{ℤ}
use eagine_msgbus.Message.Info.{Message, add_age, default_info, too_old}
use eagine_msgbus.Router.Ident.{
  Method, MessageId, special, user, confirm_id, bye_bye_endp, bye_bye_rutr, bye_bye_brdg,
}
use eagine_msgbus.Router.Node
use eagine_msgbus.Router.Node.{AdjacentNode, send, send_parent}
use eagine_msgbus.Router.Routing.{Traffic, route_message}
use eagine_msgbus.Router.Blobs.{RouterState}
use eagine_msgbus.Router.Dispatch.{
  RouterEnvironment, State, handle_special_of_node, handle_special_of_parent,
}

module _ {Timeout F C : Type 0} (env : RouterEnvironment Timeout F C) where
  open env use {accepts, int8}

  -- A call of `_route_message`.
  unfoldable pub route : ℕ → MessageId → Message → State env → State env × Bool
  route incoming_id msg_id message s =
      let (t, routed) = route_message accepts s.router incoming_id msg_id message s.traffic in
      (record s { traffic = t }, routed)

  -- A message that is not handled is dropped if it is too old, and routed otherwise.
  unfoldable pub route_unless_old : ℕ → MessageId → Message → State env → State env × Bool
  route_unless_old incoming_id msg_id message s =
      let t = s.traffic in
      if too_old message.info
      then (record s { traffic = record t { dropped_messages = t.dropped_messages + 1 } }, true)
      else route incoming_id msg_id message s

  -- `message.add_age(msg_age)`
  abbrev pub aged : ℤ → Message → Message
  aged msg_age message = record message { info = add_age int8 msg_age message.info }

  -- `_handle_node_message`, for the node with the id `incoming_id`
  unfoldable pub handle_node_message :
      ℕ → MessageId → ℤ → Message → AdjacentNode → State env → State env × Bool
  handle_node_message incoming_id (special m) msg_age message node s =
      let handled = handle_special_of_node env m incoming_id node (aged msg_age message) s in
      let routed = route_unless_old incoming_id (special m) (aged msg_age message) handled.0 in
      if handled.1 then (handled.0, true) else routed
  handle_node_message incoming_id (user c m) msg_age message node s =
      route_unless_old incoming_id (user c m) (aged msg_age message) s

  -- `_handle_special_parent_message`; a bye-bye of the parent router is only logged.
  unfoldable pub handle_special_parent_message : Method → Message → State env → State env × Bool
  handle_special_parent_message bye_bye_endp message s = (s, true)
  handle_special_parent_message bye_bye_rutr message s = (s, true)
  handle_special_parent_message bye_bye_brdg message s = (s, true)
  handle_special_parent_message confirm_id message s = (
    record s {
      router = record s.router { parent_router = Node.confirm_id message s.router.parent_router };
    },
    true,
  )
  handle_special_parent_message m message s =
      let handled = handle_special_of_parent env m s.router.parent_router.confirmed_id message s in
      let routed = route s.router.own_id (special m) message handled.0 in
      if handled.1 then (handled.0, true) else routed

  -- `_handle_parent_message`
  unfoldable pub handle_parent_message : ℕ → MessageId → ℤ → Message → State env → State env × Bool
  handle_parent_message incoming_id (special m) msg_age message s =
      handle_special_parent_message m (aged msg_age message) s
  handle_parent_message incoming_id (user c m) msg_age message s =
      route_unless_old incoming_id (user c m) (aged msg_age message) s

  -- The loop of `say_bye`.
  pub say_bye_to : Message → List (ℕ × AdjacentNode) → State env → State env
  say_bye_to message [] s = s
  say_bye_to message (e ∷ es) s =
      let (wire, _) = send accepts e.1 (special bye_bye_rutr) message s.traffic.wire in
      say_bye_to message es (record s { traffic = record s.traffic { wire = wire } })

  -- `say_bye`
  pub say_bye : State env → State env
  say_bye s =
      let message : Message = record {
        info = record default_info { source_id = s.router.own_id };
        content = [];
      } in
      let told = say_bye_to message s.router.nodes.nodes s in
      let (wire, _) =
        send_parent accepts s.router.parent_router (special bye_bye_rutr) message
          told.traffic.wire in
      record told { traffic = record told.traffic { wire = wire } }
