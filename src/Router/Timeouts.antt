-- ===== src/Router/Timeouts.antt =====
-- What the router removes when its time is up: `router_nodes::remove_timeouted`; and the link to the
-- parent router, `parent_router::update` and `announce_id`, of
-- source/modules/eagine/core/router_impl.cpp.
pub mod Forgotten
use eagine_msgbus.Prelude.{
  ℕ, ◌+◌, Bool, true, false, not, ◌||◌, Option, none, some, List, [], ◌∷◌, leb, ◌==◌, if◌then◌else◌,
}
use eagine_msgbus.Message.Info.{Message, default_info}
use eagine_msgbus.Router.Ident.{MessageId, special, announce_id}
use eagine_msgbus.Router.Subscriptions.{EndpointInfo}
use eagine_msgbus.Router.Wire.{Wire, Accepts, send_on}
use eagine_msgbus.Router.Node.{ParentRouter}
use eagine_msgbus.Router.Nodes.{RouterNodes, erase_key, mark_lost}
use eagine_msgbus.Router.Pending.{RouterPending, has_timeouted}

-- The pending connections that stay, and whether one was removed.
pub remove_old_pending : ℕ → List RouterPending → List RouterPending × Bool
remove_old_pending now [] = ([], false)
remove_old_pending now (p ∷ ps) =
    let (kept, removed) = remove_old_pending now ps in
    if has_timeouted now p then (kept, true) else (p ∷ kept, removed)

-- `router_endpoint_info::is_outdated`
unfoldable pub is_outdated : ℕ → EndpointInfo → Bool
is_outdated now info = leb info.outdated_at now

-- The maps of the router without what it knows of the outdated endpoints, in the order of the infos.
pub record Forgetting : Type 0 where
  pub infos : List (ℕ × EndpointInfo)
  pub idx : List (ℕ × ℕ)
  pub lost : List (ℕ × ℕ)

unfoldable pub forget_outdated :
    ℕ → List (ℕ × EndpointInfo) → List (ℕ × ℕ) → List (ℕ × ℕ) → Forgetting
forget_outdated now [] idx lost = record { infos = []; idx = idx; lost = lost }
forget_outdated now (e ∷ es) idx lost =
    let gone = is_outdated now e.1 in
    let rest =
      forget_outdated now es (if gone then erase_key e.0 idx else idx)
        (if gone then mark_lost now e.0 lost else lost) in
    record rest { infos = if gone then rest.infos else e ∷ rest.infos }

-- `remove_timeouted`; the result tells whether a pending connection was removed.
pub remove_timeouted :
    ℕ → List RouterPending → RouterNodes → List RouterPending × RouterNodes × Bool
remove_timeouted now pending ns =
    let (kept, removed) = remove_old_pending now pending in
    let f = forget_outdated now ns.endpoint_infos ns.endpoint_idx ns.recently_disconnected in
    (
      kept,
      record ns { endpoint_infos = f.infos; endpoint_idx = f.idx; recently_disconnected = f.lost },
      removed,
    )

-- The end of the timeout for a confirmation is kept beside the parent router.
pub record ParentLink : Type 0 where
  pub parent : ParentRouter
  pub confirm_id_at : ℕ
  pub wire : Wire

-- `announce_id`, on the connection `c`
unfoldable pub announce : Accepts → ℕ → ℕ → ℕ → ParentLink → ParentLink
announce accepts now id_base c l = record l {
  confirm_id_at = now + 2;
  wire =
      (send_on accepts c (special announce_id)
        (record { info = record default_info { source_id = id_base }; content = [] }) l.wire).0;
}

-- `parent_router::update`; what the updates of the connection do and whether it is usable then are
-- arguments. The result tells whether something was done.
unfoldable pub update_parent :
    Accepts → (ℕ → Bool) → (ℕ → Bool) → ℕ → ℕ → ParentLink → ParentLink × Bool
update_parent accepts updated is_usable now id_base l = elim l.parent.connection [
  | none ↦ (l, false)
  | some c ↦
      if is_usable c
      then (if l.parent.confirmed_id == 0
          then (if leb l.confirm_id_at now
              then (announce accepts now id_base c l, true)
              else (l, updated c))
          else (l, updated c))
      else if not (l.parent.confirmed_id == 0)
      then (record l { parent = record l.parent { confirmed_id = 0 } }, true)
      else (l, updated c)
]
