-- ===== src/Router/Nodes.antt =====
-- `router_nodes` of source/modules/eagine/core/router.cpp and router_impl.cpp: the nodes, through
-- which of them an endpoint is reached, what is known of the endpoints, and which were lost. The
-- maps are association lists; an id has at most one entry in each.
pub mod Lost
use eagine_msgbus.Prelude.{
  ℕ, ◌+◌, Bool, true, false, not, Option, none, some, List, [], ◌∷◌, leb, ◌==◌, if◌then◌else◌,
}
use eagine_msgbus.Router.Ident.{MessageId}
use eagine_msgbus.Router.Subscriptions.{
  EndpointInfo, assign_instance_id, has_instance_id, is_subscribed_to, is_not_subscribed_to,
  known_subscriptions,
}
use eagine_msgbus.Router.Node.{AdjacentNode, should_disconnect, cleanup_connection}
use eagine_msgbus.Message.Info.{Message}

-- The operations of the maps.
module _ {V : Type 0} where
  unfoldable pub find : List (ℕ × V) → ℕ → Option V
  find [] id = none
  find (e ∷ es) id = let rest = find es id in if e.0 == id then some e.1 else rest

  unfoldable pub erase_key : ℕ → List (ℕ × V) → List (ℕ × V)
  erase_key id [] = []
  erase_key id (e ∷ es) = let rest = erase_key id es in if e.0 == id then rest else e ∷ rest

  -- `map[id] = v`
  unfoldable pub assign : ℕ → V → List (ℕ × V) → List (ℕ × V)
  assign id v [] = (id, v) ∷ []
  assign id v (e ∷ es) = let rest = assign id v es in if e.0 == id then (id, v) ∷ es else e ∷ rest

  -- `map.emplace(id, v)`: an entry with the key stays as it is.
  unfoldable pub emplace : ℕ → V → List (ℕ × V) → List (ℕ × V)
  emplace id v es = elim (find es id) [ none ↦ assign id v es | some _ ↦ es ]

  -- `map.erase_if`
  unfoldable pub erase_where : (ℕ × V → Bool) → List (ℕ × V) → List (ℕ × V)
  erase_where test [] = []
  erase_where test (e ∷ es) = let rest = erase_where test es in if test e then rest else e ∷ rest

-- The entries of `recently_disconnected` are the times when they expire.
pub record RouterNodes : Type 0 where
  pub nodes : List (ℕ × AdjacentNode)
  pub endpoint_idx : List (ℕ × ℕ)
  pub endpoint_infos : List (ℕ × EndpointInfo)
  pub recently_disconnected : List (ℕ × ℕ)

-- `find_outgoing`: 0 for an unknown endpoint.
unfoldable pub find_outgoing : RouterNodes → ℕ → ℕ
find_outgoing ns target_id = elim (find ns.endpoint_idx target_id) [ none ↦ 0 | some id ↦ id ]

-- A timeout is expired from its end on.
abbrev pub is_expired : ℕ → ℕ → Bool
is_expired now ends = leb ends now

unfoldable pub is_disconnected : ℕ → RouterNodes → ℕ → Bool
is_disconnected now ns id = elim (find ns.recently_disconnected id) [
  | none ↦ false
  | some ends ↦ not (is_expired now ends)
]

-- `mark_disconnected`, on the map of the lost nodes: its first statement,
unfoldable pub forget_expired : ℕ → ℕ → List (ℕ × ℕ) → List (ℕ × ℕ)
forget_expired now id lost = elim (find lost id) [
  | none ↦ lost
  | some ends ↦ if is_expired now ends then erase_key id lost else lost
]

-- and all of it.
unfoldable pub mark_lost : ℕ → ℕ → List (ℕ × ℕ) → List (ℕ × ℕ)
mark_lost now id lost =
    emplace id (now + 15) (erase_where (λ e. is_expired now e.1) (forget_expired now id lost))

unfoldable pub mark_disconnected : ℕ → ℕ → RouterNodes → RouterNodes
mark_disconnected now id ns = record ns {
  recently_disconnected = mark_lost now id ns.recently_disconnected;
}

-- The first loop of `remove_disconnected`.
unfoldable pub cleanup_disconnected : List (ℕ × AdjacentNode) → List (ℕ × AdjacentNode)
cleanup_disconnected [] = []
cleanup_disconnected (e ∷ es) =
    let rest = cleanup_disconnected es in
    (if should_disconnect e.1 then (e.0, cleanup_connection e.1) ∷ rest else e ∷ rest)

-- The second one: the nodes that stay, and the map of the lost nodes.
unfoldable pub erase_disconnected :
    ℕ → List (ℕ × AdjacentNode) → List (ℕ × ℕ) → List (ℕ × AdjacentNode) × List (ℕ × ℕ)
erase_disconnected now [] lost = ([], lost)
erase_disconnected now (e ∷ es) lost =
    let gone = should_disconnect e.1 in
    let (kept, lost') = erase_disconnected now es (if gone then mark_lost now e.0 lost else lost) in
    (if gone then kept else e ∷ kept, lost')

unfoldable pub remove_disconnected : ℕ → RouterNodes → RouterNodes
remove_disconnected now ns =
    let (kept, lost) =
      erase_disconnected now (cleanup_disconnected ns.nodes) ns.recently_disconnected in
    record ns { nodes = kept; recently_disconnected = lost }

abbrev pub new_info : ℕ → EndpointInfo
new_info outdated_at = record {
  subscriptions = [];
  unsubscriptions = [];
  instance_id = 0;
  outdated_at = outdated_at;
}

-- `update_endpoint_info`; an info that is not there yet is made.
unfoldable pub update_endpoint_info : ℕ → ℕ → ℕ → Message → RouterNodes → RouterNodes
update_endpoint_info now timeout incoming_id message ns =
    let id = message.info.source_id in
    let info : EndpointInfo = elim (find ns.endpoint_infos id) [
      | none ↦ new_info (now + timeout)
      | some i ↦ i
    ] in
    record ns {
      endpoint_idx = assign id incoming_id ns.endpoint_idx;
      endpoint_infos =
          assign id (assign_instance_id now timeout message.info.sequence_no info)
            ns.endpoint_infos;
    }

-- `none` for `indeterminate`
unfoldable pub subscribes_to : RouterNodes → ℕ → MessageId → Option Bool × Option Bool × ℕ
subscribes_to ns target_id m = elim (find ns.endpoint_infos target_id) [
  | none ↦ (none, none, 0)
  | some info ↦
      if has_instance_id info
      then (some (is_subscribed_to info m), some (is_not_subscribed_to info m), info.instance_id)
      else (none, none, 0)
]

unfoldable pub subscriptions_of : RouterNodes → ℕ → List MessageId × ℕ
subscriptions_of ns target_id = elim (find ns.endpoint_infos target_id) [
  | none ↦ ([], 0)
  | some info ↦ (known_subscriptions info, info.instance_id)
]

-- `erase`
unfoldable pub erase_endpoint : ℕ → RouterNodes → RouterNodes
erase_endpoint id ns = record ns {
  endpoint_idx = erase_key id ns.endpoint_idx;
  endpoint_infos = erase_key id ns.endpoint_infos;
}
