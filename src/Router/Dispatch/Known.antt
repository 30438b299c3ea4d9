-- ===== src/Router/Dispatch/Known.antt =====
-- What the handlers of special messages leave as it is of endpoints other than the source of the
-- message (source/modules/eagine/core/router_impl.cpp).
use eagine_msgbus.Prelude.{
  ℕ, ◌≡◌, ◌≢◌, refl, sym, ne→==, ◌∙◌, inl, inr, false, List, [], ◌∷◌, ◌==◌, not, arith, Bool-cases,
  Option-cases,
}
use eagine_msgbus.Message.Info.{Message}
use eagine_msgbus.Router.Ident.{is_special_message}
use eagine_msgbus.Router.Node.{AdjacentNode}
use eagine_msgbus.Router.Subscriptions.{EndpointInfo}
use eagine_msgbus.Router.Nodes.{RouterNodes, find, erase_key, update_endpoint_info, erase_endpoint}
use eagine_msgbus.Router.Nodes.Lost.{find-assign_other}
use eagine_msgbus.Router.Handlers.{
  Deserialize, change_info, handle_subscribed, handle_not_subscribed, handle_msg_allow,
  handle_msg_block,
}

-- What is known of endpoints other than `source` stays the same: their infos, and the ways to them.
abbrev pub KnowsOthers : ℕ → RouterNodes → RouterNodes → Type 0
KnowsOthers source ns ns' =
    (x : ℕ)
    → x ≢ source
    → (find ns'.endpoint_infos x ≡ find ns.endpoint_infos x)
      × (find ns'.endpoint_idx x ≡ find ns.endpoint_idx x)

pub update_endpoint_info-KnowsOthers :
    (now timeout incoming_id : ℕ) (message : Message) (ns : RouterNodes)
    → KnowsOthers message.info.source_id ns
        (update_endpoint_info now timeout incoming_id message ns)
unfolding update_endpoint_info
update_endpoint_info-KnowsOthers now timeout incoming_id message ns x other =
    let differs = ne→== message.info.source_id x (λ e. other (sym e)) in
    (
      find-assign_other message.info.source_id x _ ns.endpoint_infos differs,
      find-assign_other message.info.source_id x _ ns.endpoint_idx differs,
    )

change_info-KnowsOthers :
    (f : EndpointInfo → EndpointInfo) (id : ℕ) (ns : RouterNodes)
    → KnowsOthers id ns (change_info f id ns)
unfolding change_info
change_info-KnowsOthers f id ns x other = elim (Option-cases (find ns.endpoint_infos id)) [
  | inl e ↦ rw (change_info, e) (refl, refl)
  | inr (info, e) ↦
      rw (change_info, e)
        (find-assign_other id x (f info) ns.endpoint_infos (ne→== id x (λ e. other (sym e))), refl)
]

-- An info that is made or renewed, and then changed.
changed-KnowsOthers :
    (f : EndpointInfo → EndpointInfo) (now timeout incoming_id : ℕ) (message : Message)
    (ns : RouterNodes)
    → KnowsOthers message.info.source_id ns (
        change_info f message.info.source_id
          (update_endpoint_info now timeout incoming_id message ns))
changed-KnowsOthers f now timeout incoming_id message ns x other =
    let a = update_endpoint_info-KnowsOthers now timeout incoming_id message ns x other in
    let b =
      change_info-KnowsOthers f message.info.source_id
        (update_endpoint_info now timeout incoming_id message ns) x other in
    (b.0 ∙ a.0, b.1 ∙ a.1)

find-erase_key_other :
    {V : Type 0} (id x : ℕ) (es : List (ℕ × V))
    → (id == x) ≡ false
    → find (erase_key id es) x ≡ find es x
unfolding find erase_key
find-erase_key_other id x [] h = refl
find-erase_key_other id x (e ∷ es) h = ground (arith, find-erase_key_other id x es h)

pub erase_endpoint-KnowsOthers :
    (id : ℕ) (ns : RouterNodes) → KnowsOthers id ns (erase_endpoint id ns)
unfolding erase_endpoint
erase_endpoint-KnowsOthers id ns x other =
    let differs = ne→== id x (λ e. other (sym e)) in
    (
      find-erase_key_other id x ns.endpoint_infos differs,
      find-erase_key_other id x ns.endpoint_idx differs,
    )

module _ (deserialize : Deserialize) (now timeout incoming_id : ℕ) (message : Message)
    (ns : RouterNodes) where
  pub subscribed-KnowsOthers :
      KnowsOthers message.info.source_id ns
        (handle_subscribed deserialize now timeout incoming_id message ns).0
  unfolding handle_subscribed
  subscribed-KnowsOthers x other = elim (Option-cases (deserialize message.content)) [
    | inl e ↦ rw (handle_subscribed, e) (refl, refl)
    | inr (m, e) ↦
        rw (handle_subscribed, e) (changed-KnowsOthers _ now timeout incoming_id message ns x other)
  ]

  pub not_subscribed-KnowsOthers :
      KnowsOthers message.info.source_id ns
        (handle_not_subscribed deserialize now timeout incoming_id message ns).0
  unfolding handle_not_subscribed
  not_subscribed-KnowsOthers x other = elim (Option-cases (deserialize message.content)) [
    | inl e ↦ rw (handle_not_subscribed, e) (refl, refl)
    | inr (m, e) ↦
        rw (handle_not_subscribed, e)
          (changed-KnowsOthers _ now timeout incoming_id message ns x other)
  ]

module _ (deserialize : Deserialize) (now timeout incoming_id : ℕ) (message : Message)
    (node : AdjacentNode) (ns : RouterNodes) where
  pub allow-KnowsOthers :
      KnowsOthers message.info.source_id ns
        (handle_msg_allow deserialize now timeout incoming_id message node ns).1
  unfolding handle_msg_allow
  allow-KnowsOthers x other = elim (Option-cases (deserialize message.content)) [
    | inl e ↦ rw (handle_msg_allow, e) (refl, refl)
    | inr (m, e) ↦
        rw (handle_msg_allow, e)
          (update_endpoint_info-KnowsOthers now timeout incoming_id message ns x other)
  ]

  pub block-KnowsOthers :
      KnowsOthers message.info.source_id ns
        (handle_msg_block deserialize now timeout incoming_id message node ns).1
  unfolding handle_msg_block
  block-KnowsOthers x other = elim (Option-cases (deserialize message.content)) [
    | inl e ↦ rw (handle_msg_block, e) (refl, refl)
    | inr (m, e) ↦ elim (Bool-cases (not (is_special_message m))) [
      | inl f ↦
          rw (handle_msg_block, e, f)
            (update_endpoint_info-KnowsOthers now timeout incoming_id message ns x other)
      | inr f ↦ rw (handle_msg_block, e, f) (refl, refl)
    ]
  ]
