-- ===== src/Router/Node.antt =====
-- `adjacent_node` and `parent_router` of source/modules/eagine/core/router.cpp and router_impl.cpp:
-- the two ends that a router routes messages to. A connection is present or not.
use eagine_msgbus.Prelude.{
  ℕ, Bool, true, false, not, Option, none, some, List, [], ◌∷◌, if◌then◌else◌,
}
use eagine_msgbus.Router.Ident.{MessageId, is_special_message}
use eagine_msgbus.Router.Subscriptions.{contains, add}
use eagine_msgbus.Router.Wire.{Wire, Accepts, send_on}
use eagine_msgbus.Message.Info.{Message}

pub record AdjacentNode : Type 0 where
  pub connection : Option ℕ
  pub message_block_list : List MessageId
  pub message_allow_list : List MessageId
  pub maybe_router : Bool
  pub do_disconnect : Bool

pub new_node : AdjacentNode
new_node = record {
  connection = none;
  message_block_list = [];
  message_allow_list = [];
  maybe_router = true;
  do_disconnect = false;
}

unfoldable pub is_allowed : AdjacentNode → MessageId → Bool
is_allowed node msg_id = if is_special_message msg_id then true else (elim node.message_allow_list [
  | a ∷ allowed ↦ contains (a ∷ allowed) msg_id
  | [] ↦ elim node.message_block_list [
    | b ∷ blocked ↦ not (contains (b ∷ blocked) msg_id)
    | [] ↦ true
  ]
])

unfoldable pub setup : ℕ → Bool → AdjacentNode → AdjacentNode
setup connection maybe_router node = record node {
  connection = some connection;
  maybe_router = maybe_router;
}

unfoldable pub mark_not_a_router : AdjacentNode → AdjacentNode
mark_not_a_router node = record node { maybe_router = false }

unfoldable pub handle_bye_bye : AdjacentNode → AdjacentNode
handle_bye_bye node = if not node.maybe_router then record node { do_disconnect = true } else node

unfoldable pub should_disconnect : AdjacentNode → Bool
should_disconnect node = elim node.connection [ none ↦ true | some c ↦ node.do_disconnect ]

unfoldable pub cleanup_connection : AdjacentNode → AdjacentNode
cleanup_connection node = elim node.connection [
  | none ↦ node
  | some c ↦ record node { connection = none; do_disconnect = false }
]

unfoldable pub block_message : MessageId → AdjacentNode → AdjacentNode
block_message msg_id node = record node { message_block_list = add node.message_block_list msg_id }

unfoldable pub allow_message : MessageId → AdjacentNode → AdjacentNode
allow_message msg_id node = record node { message_allow_list = add node.message_allow_list msg_id }

unfoldable pub clear_block_list : AdjacentNode → AdjacentNode
clear_block_list node = record node { message_block_list = [] }

unfoldable pub clear_allow_list : AdjacentNode → AdjacentNode
clear_allow_list node = record node { message_allow_list = [] }

module _ (accepts : Accepts) where
  -- `adjacent_node::send`
  unfoldable pub send : AdjacentNode → MessageId → Message → Wire → Wire × Bool
  send node msg_id message wire = elim node.connection [
    | none ↦ (wire, false)
    | some c ↦ send_on accepts c msg_id message wire
  ]

  unfoldable pub try_route : AdjacentNode → MessageId → Message → Wire → Wire × Bool
  try_route node msg_id message wire =
      if node.maybe_router then send node msg_id message wire else (wire, false)

-- `_confirmed_id` is 0 until the parent router has confirmed the id of this router.
pub record ParentRouter : Type 0 where
  pub connection : Option ℕ
  pub confirmed_id : ℕ

unfoldable pub reset : ℕ → ParentRouter → ParentRouter
reset connection parent = record parent { connection = some connection; confirmed_id = 0 }

-- `confirm_id`
unfoldable pub confirm_id : Message → ParentRouter → ParentRouter
confirm_id message parent = record parent { confirmed_id = message.info.target_id }

-- `parent_router::send`: without a connection nothing is sent, and the result is true.
unfoldable pub send_parent : Accepts → ParentRouter → MessageId → Message → Wire → Wire × Bool
send_parent accepts parent msg_id message wire = elim parent.connection [
  | none ↦ (wire, true)
  | some c ↦ send_on accepts c msg_id message wire
]
