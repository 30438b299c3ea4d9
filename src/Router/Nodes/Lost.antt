-- ===== src/Router/Nodes/Lost.antt =====
-- Nodes that are disconnected, and how long the router remembers them
-- (source/modules/eagine/core/router_impl.cpp).
use eagine_msgbus.Prelude.{
  ℕ, ◌+◌, ◌≡◌, refl, Bool, true, false, not, Option, none, some, List, [], ◌∷◌, ◌==◌, arith,
  if◌then◌else◌, ap, sym, Bool-cases, inl, inr, Option-cases, ◌∙◌, gt→leb,
}
use mathlib.Core.Bool.{false≢true}
use mathlib.Core.Path.{subst}
use eagine_msgbus.Router.Node.{AdjacentNode, should_disconnect, cleanup_connection}
use eagine_msgbus.Router.Nodes.{
  RouterNodes, find, erase_key, assign, emplace, erase_where, forget_expired, is_expired,
  is_disconnected, mark_lost, cleanup_disconnected, erase_disconnected, remove_disconnected,
}

pub find-assign_self :
    {V : Type 0} (id : ℕ) (v : V) (es : List (ℕ × V)) → find (assign id v es) id ≡ some v
unfolding find assign
find-assign_self id v [] = ground arith
find-assign_self id v (e ∷ es) = ground (arith, find-assign_self id v es)

pub find-assign_other :
    {V : Type 0} (id x : ℕ) (v : V) (es : List (ℕ × V))
    → (id == x) ≡ false
    → find (assign id v es) x ≡ find es x
unfolding find assign
find-assign_other id x v [] h = ground arith
find-assign_other id x v (e ∷ es) h = ground (arith, find-assign_other id x v es h)

module _ (now : ℕ) where
  -- The test of `is_disconnected`.
  live_of : Option ℕ → Bool
  live_of found = elim found [ none ↦ false | some ends ↦ not (is_expired now ends) ]

  live : List (ℕ × ℕ) → ℕ → Bool
  live lost id = live_of (find lost id)

  live-cons :
      (e : ℕ × ℕ) (lost : List (ℕ × ℕ)) (id : ℕ)
      → live (e ∷ lost) id ≡ (if e.0 == id then not (is_expired now e.1) else live lost id)
  unfolding live live_of find
  live-cons e lost id = elim (Bool-cases (e.0 == id)) [
    | inl h ↦ rw (h, live, find) refl
    | inr h ↦ rw (h, live, find) refl
  ]

  live-erase_where :
      (lost : List (ℕ × ℕ)) (id : ℕ)
      → live lost id ≡ true
      → live (erase_where (λ e. is_expired now e.1) lost) id ≡ true
  unfolding erase_where
  live-erase_where [] id h = h
  live-erase_where (e ∷ lost) id h = ground (
    arith,
    live-cons e lost id,
    live-erase_where lost id,
    live-cons e (erase_where (λ e. is_expired now e.1) lost) id,
  )

  -- What is left is not expired.
  found-live :
      (lost : List (ℕ × ℕ)) (id ends : ℕ)
      → find (erase_where (λ e. is_expired now e.1) lost) id ≡ some ends
      → is_expired now ends ≡ false
  unfolding erase_where find
  found-live [] id ends h = ground arith
  found-live (e ∷ lost) id ends h = ground (arith, found-live lost id ends)

  live-erase_key :
      (lost : List (ℕ × ℕ)) (id x : ℕ)
      → (id == x) ≡ false
      → live lost x ≡ true
      → live (erase_key id lost) x ≡ true
  unfolding erase_key
  live-erase_key [] id x n h = h
  live-erase_key (e ∷ lost) id x n h =
      ground
        (arith, live-cons e lost x, live-erase_key lost id x n, live-cons e (erase_key id lost) x)

  live-emplace_self :
      (es : List (ℕ × ℕ)) (id : ℕ)
      → ((ends : ℕ) → find es id ≡ some ends → is_expired now ends ≡ false)
      → live (emplace id (now + 15) es) id ≡ true
  unfolding emplace live live_of
  live-emplace_self es id fresh = elim (Option-cases (find es id)) [
    | inl e ↦
        rw (e, emplace)
          (ap live_of (find-assign_self id (now + 15) es)
            ∙ ap not (gt→leb (now + 15) now (omega arith)))
    | inr (ends, e) ↦ rw (e, emplace) (ap live_of e ∙ ap not (fresh ends e))
  ]

  live-ne :
      (es : List (ℕ × ℕ)) (id x : ℕ)
      → live_of (find es id) ≡ false
      → live es x ≡ true
      → (id == x) ≡ false
  unfolding live
  live-ne es id x off h = elim (Bool-cases (id == x)) [
    | inl e ↦ absurd (
        false≢true
          (sym off ∙ subst (λ z. live_of (find es z) ≡ true) {x = x} {y = id} (ground arith) h))
    | inr e ↦ e
  ]

  live-emplace :
      (es : List (ℕ × ℕ)) (id x v : ℕ) → live es x ≡ true → live (emplace id v es) x ≡ true
  unfolding emplace live live_of
  live-emplace es id x v h = elim (Option-cases (find es id)) [
    | inr (ends, e) ↦ rw (e, emplace) h
    | inl e ↦
        rw (e, emplace)
          (ap live_of (find-assign_other id x v es (live-ne es id x (ap live_of e) h)) ∙ h)
  ]

  live-forget_expired :
      (id x : ℕ) (lost : List (ℕ × ℕ))
      → live lost x ≡ true
      → live (forget_expired now id lost) x ≡ true
  unfolding forget_expired live_of
  live-forget_expired id x lost h = elim (Option-cases (find lost id)) [
    | inl e ↦ rw (e, forget_expired) h
    | inr (ends, e) ↦ elim (Bool-cases (is_expired now ends)) [
      | inr alive ↦ rw (e, forget_expired, alive) h
      | inl late ↦
          rw (e, forget_expired, late)
            (live-erase_key lost id x (live-ne lost id x (ap live_of e ∙ ap not late) h) h)
    ]
  ]

  live-mark_lost_self : (id : ℕ) (lost : List (ℕ × ℕ)) → live (mark_lost now id lost) id ≡ true
  unfolding mark_lost
  live-mark_lost_self id lost =
      live-emplace_self (erase_where (λ e. is_expired now e.1) (forget_expired now id lost)) id
        (found-live (forget_expired now id lost) id)

  live-mark_lost :
      (id x : ℕ) (lost : List (ℕ × ℕ)) → live lost x ≡ true → live (mark_lost now id lost) x ≡ true
  unfolding mark_lost
  live-mark_lost id x lost h =
      live-emplace (erase_where (λ e. is_expired now e.1) (forget_expired now id lost)) id x
        (now + 15)
        (live-erase_where (forget_expired now id lost) x (live-forget_expired id x lost h))

  live-erase_disconnected :
      (es : List (ℕ × AdjacentNode)) (lost : List (ℕ × ℕ)) (x : ℕ)
      → live lost x ≡ true
      → live (erase_disconnected now es lost).1 x ≡ true
  unfolding erase_disconnected
  live-erase_disconnected [] lost x h = h
  live-erase_disconnected (e ∷ es) lost x h =
      live-erase_disconnected es (if should_disconnect e.1 then mark_lost now e.0 lost else lost) x
        (ground (arith, live-mark_lost e.0 x lost h))

  -- Every node that is removed is remembered.
  lost-erase_disconnected :
      (es : List (ℕ × AdjacentNode)) (lost : List (ℕ × ℕ)) (x : ℕ) (node : AdjacentNode)
      → find es x ≡ some node
      → should_disconnect node ≡ true
      → live (erase_disconnected now es lost).1 x ≡ true
  unfolding erase_disconnected find
  lost-erase_disconnected [] lost x node f d = ground arith
  lost-erase_disconnected (e ∷ es) lost x node f d = elim (Bool-cases (e.0 == x)) [
    | inl here ↦
        let gone : should_disconnect e.1 ≡ true = ground arith in
        live-erase_disconnected es (if should_disconnect e.1 then mark_lost now e.0 lost else lost)
          x
          (rw (gone) (
            subst (λ z. live (mark_lost now z lost) x ≡ true) {x = x} {y = e.0} (ground arith)
              (live-mark_lost_self x lost)))
    | inr there ↦
        lost-erase_disconnected es (if should_disconnect e.1 then mark_lost now e.0 lost else lost)
          x node (ground arith) d
  ]

  kept-erase_disconnected :
      (es : List (ℕ × AdjacentNode)) (lost : List (ℕ × ℕ))
      → (erase_disconnected now es lost).0 ≡ erase_where (λ e. should_disconnect e.1) es
  unfolding erase_disconnected erase_where
  kept-erase_disconnected [] lost = refl
  kept-erase_disconnected (e ∷ es) lost =
      ap (λ kept. if should_disconnect e.1 then kept else e ∷ kept)
        (kept-erase_disconnected es
          (if should_disconnect e.1 then mark_lost now e.0 lost else lost))

cleanup-gone : (node : AdjacentNode) → should_disconnect (cleanup_connection node) ≡ true
unfolding should_disconnect cleanup_connection
cleanup-gone node = elim (Option-cases node.connection) [
  | inl e ↦ rw (e, cleanup_connection, e) refl
  | inr (c, e) ↦ rw (e, cleanup_connection) refl
]

cleanup-keeps :
    (es : List (ℕ × AdjacentNode))
    → erase_where (λ e. should_disconnect e.1) (cleanup_disconnected es)
      ≡ erase_where (λ e. should_disconnect e.1) es
unfolding cleanup_disconnected erase_where
cleanup-keeps [] = refl
cleanup-keeps (e ∷ es) = ground (arith, cleanup-keeps es, cleanup-gone e.1)

find-cleanup :
    (es : List (ℕ × AdjacentNode)) (x : ℕ) (node : AdjacentNode)
    → find es x ≡ some node
    → should_disconnect node ≡ true
    → find (cleanup_disconnected es) x ≡ some (cleanup_connection node)
unfolding cleanup_disconnected find
find-cleanup [] x node f d = ground arith
find-cleanup (e ∷ es) x node f d = ground (arith, find-cleanup es x node)

module _ (now : ℕ) (ns : RouterNodes) where
  -- Removing the disconnected nodes leaves exactly the other ones, unchanged and in their order.
  pub remove_disconnected-nodes :
      (remove_disconnected now ns).nodes ≡ erase_where (λ e. should_disconnect e.1) ns.nodes
  unfolding remove_disconnected
  remove_disconnected-nodes =
      kept-erase_disconnected now (cleanup_disconnected ns.nodes) ns.recently_disconnected
      ∙ cleanup-keeps ns.nodes

  -- A node that has to be disconnected is known as recently disconnected after the removal.
  pub remove_disconnected-lost :
      (x : ℕ) (node : AdjacentNode)
      → find ns.nodes x ≡ some node
      → should_disconnect node ≡ true
      → is_disconnected now (remove_disconnected now ns) x ≡ true
  unfolding remove_disconnected is_disconnected live live_of
  remove_disconnected-lost x node f d =
      lost-erase_disconnected now (cleanup_disconnected ns.nodes) ns.recently_disconnected x
        (cleanup_connection node) (find-cleanup ns.nodes x node f d) (cleanup-gone node)
