-- ===== src/Router/Adoption/Adopted.antt =====
-- What the adoption of a connection leaves (`_adopt_pending`,
-- source/modules/eagine/core/router_impl.cpp).
use eagine_msgbus.Prelude.{
  ℕ, ◌≡◌, refl, Bool, true, false, not, ◌||◌, none, some, List, [], ◌∷◌, ◌++◌, ◌==◌, if◌then◌else◌,
  Bool-cases, inl, inr,
}
use eagine_msgbus.Router.Ident.{special, confirm_id}
use eagine_msgbus.Router.Wire.{Accepts, send_on}
use eagine_msgbus.Router.Node.{setup}
use eagine_msgbus.Router.Nodes.{find, erase_key, is_disconnected, is_expired}
use eagine_msgbus.Router.Nodes.Lost.{find-assign_self, find-assign_other}
use eagine_msgbus.Router.Timeouts.Forgotten.{find-erase_key_self}
use eagine_msgbus.Router.Pending.{message_between, should_be_removed, has_timeouted}
use eagine_msgbus.Router.Adoption.{Adoption, node_for, adopt_pending}

not_lost :
    (now id : ℕ) (lost : List (ℕ × ℕ))
    → elim (find (erase_key id lost) id) [ none ↦ false | some ends ↦ not (is_expired now ends) ]
      ≡ false
not_lost now id lost = rw (find-erase_key_self id lost) refl

gone : (b : Bool) → (b || true) ≡ true
gone true = refl
gone false = refl

-- A connection `c` is adopted: afterwards the node with its id has this connection, and keeps the
-- messages that it blocked or allowed if it was known before; every other node is as it was; the id
-- does not count as lost; the last message sent confirms the id on this connection; and the pending
-- connection is to be removed, at any time.
pub adopt_pending_lem :
    (accepts : Accepts) (own_id now c : ℕ) (a : Adoption)
    → a.pending.connection ≡ some c
    → let p = a.pending in
      let b = adopt_pending accepts own_id a in
      let old = node_for p.id a.nodes in
      (find b.nodes.nodes p.id
        ≡ some (record old { connection = some c; maybe_router = p.maybe_router }))
      × ((x : ℕ)
          → (if p.id == x then none else find b.nodes.nodes x)
            ≡ (if p.id == x then none else find a.nodes.nodes x))
      × (is_disconnected now b.nodes p.id ≡ false)
      × (b.wire
          ≡ a.wire
            ++ record {
              link = c;
              msg_id = special confirm_id;
              message = message_between own_id p.id [];
            }
              ∷ [])
      × (should_be_removed now b.pending ≡ true)
unfolding adopt_pending setup send_on is_disconnected should_be_removed
adopt_pending_lem accepts own_id now c a h =
    let p = a.pending in
    let node = setup c p.maybe_router (node_for p.id a.nodes) in
    rw (adopt_pending, h)
      (
        find-assign_self p.id node a.nodes.nodes,
        λ x. elim (Bool-cases (p.id == x)) [
          | inl e ↦ rw e refl
          | inr e ↦ rw (e, find-assign_other p.id x node a.nodes.nodes e) refl
        ],
        not_lost now p.id a.nodes.recently_disconnected,
        refl,
        gone (has_timeouted now p),
      )
