-- ===== src/Router/Adoption.antt =====
-- How a router adopts a pending connection as a node: `router_nodes::_adopt_pending` of
-- source/modules/eagine/core/router_impl.cpp.
pub mod Adopted
use eagine_msgbus.Prelude.{ℕ, Bool, Option, none, some, List, [], ◌∷◌}
use eagine_msgbus.Router.Ident.{special, confirm_id}
use eagine_msgbus.Router.Wire.{Wire, Accepts, send_on}
use eagine_msgbus.Router.Node.{AdjacentNode, new_node, setup}
use eagine_msgbus.Router.Nodes.{RouterNodes, find, assign, erase_key}
use eagine_msgbus.Router.Pending.{RouterPending, message_between}

-- The pending connection without its connection, the nodes, and what was sent. It is called while
-- there is a connection.
pub record Adoption : Type 0 where
  pub pending : RouterPending
  pub nodes : RouterNodes
  pub wire : Wire

-- The node with the id of the connection, a new one if there is none.
unfoldable pub node_for : ℕ → RouterNodes → AdjacentNode
node_for id ns = elim (find ns.nodes id) [ none ↦ new_node | some node ↦ node ]

-- `_adopt_pending`
unfoldable pub adopt_pending : Accepts → ℕ → Adoption → Adoption
adopt_pending accepts own_id a =
    let p = a.pending in
    let ns = a.nodes in
    elim p.connection [
      | none ↦ a
      | some c ↦ record {
        pending = record p { connection = none };
        nodes = record ns {
          nodes = assign p.id (setup c p.maybe_router (node_for p.id ns)) ns.nodes;
          recently_disconnected = erase_key p.id ns.recently_disconnected;
        };
        wire = (send_on accepts c (special confirm_id) (message_between own_id p.id []) a.wire).0;
      }
    ]
