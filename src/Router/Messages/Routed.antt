-- ===== src/Router/Messages/Routed.antt =====
-- The end of the handling of a message: it is dropped or routed, and can be forgotten
-- (source/modules/eagine/core/router_impl.cpp).
use eagine_msgbus.Prelude.{ℕ, ◌≡◌, refl, inl, inr, true, not, ◌==◌, Bool-cases}
use eagine_msgbus.Message.Info.{Message, too_old, too_many_hops}
use eagine_msgbus.Core.{broadcast_id}
use eagine_msgbus.Router.Wire.{Accepts}
use eagine_msgbus.Router.Routing.{Router, Traffic, route_message}
use eagine_msgbus.Router.Ident.{MessageId}
use eagine_msgbus.Router.Dispatch.{RouterEnvironment, State}
use eagine_msgbus.Router.Messages.{route, route_unless_old}

pub route_message-true :
    (accepts : Accepts) (r : Router) (incoming_id : ℕ) (msg_id : MessageId) (message : Message)
    (t : Traffic)
    → (route_message accepts r incoming_id msg_id message t).1 ≡ true
unfolding route_message
route_message-true accepts r incoming_id msg_id message t =
    elim (Bool-cases (too_many_hops message.info)) [
      | inl e ↦ rw (route_message, e) refl
      | inr e ↦ elim (Bool-cases (not (message.info.target_id == broadcast_id))) [
        | inl f ↦ rw (route_message, e, f) refl
        | inr f ↦ rw (route_message, e, f) refl
      ]
    ]

module _ {Timeout F C : Type 0} (env : RouterEnvironment Timeout F C) where
  pub route_unless_old-router :
      (incoming_id : ℕ) (msg_id : MessageId) (message : Message) (s : State env)
      → (route_unless_old env incoming_id msg_id message s).0.router ≡ s.router
  unfolding route_unless_old route
  route_unless_old-router incoming_id msg_id message s = elim (Bool-cases (too_old message.info)) [
    | inl e ↦ rw (route_unless_old, e) refl
    | inr e ↦ rw (route_unless_old, e) refl
  ]

  pub route_unless_old-true :
      (incoming_id : ℕ) (msg_id : MessageId) (message : Message) (s : State env)
      → (route_unless_old env incoming_id msg_id message s).1 ≡ true
  unfolding route_unless_old route
  route_unless_old-true incoming_id msg_id message s = elim (Bool-cases (too_old message.info)) [
    | inl e ↦ rw (route_unless_old, e) refl
    | inr e ↦
        rw (route_unless_old, e)
          (route_message-true env.accepts s.router incoming_id msg_id message s.traffic)
  ]
