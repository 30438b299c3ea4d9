-- ===== src/Endpoint/Delivered.antt =====
-- Which queues a message changes that comes in (`_store_message` of
-- source/modules/eagine/core/endpoint_impl.cpp).
use eagine_msgbus.Prelude.{
  ℕ, ◌≡◌, refl, sym, ap, ◌∙◌, arith, inl, inr, Bool, true, false, none, some, List, [], ◌∷◌, ◌&&◌,
  if◌then◌else◌, Bool-cases,
}
use mathlib.Core.Bool.{true≢false}
use eagine_msgbus.Prelude.Int.{ℤ}
use eagine_msgbus.Message.Info.{Message, add_age}
use eagine_msgbus.Message.Queue
use eagine_msgbus.Router.Ident.{
  MessageId, special, user, not_a_router, same, same_refl, same→≡, ≢→same,
}
use eagine_msgbus.Endpoint.{
  EndpointEnvironment, State, IncomingState, IncomingMap, emit, count_sent, count_dropped,
  connection_works, connection_fails, note_sent, do_send, post, empty_message,
}
use eagine_msgbus.Endpoint.Say.{say_not_a_router}
use eagine_msgbus.Endpoint.Queues.{find_incoming, change_incoming}
use eagine_msgbus.Endpoint.Receive.{
  is_for, store_in_queue, store_unhandled, store_message, handle_special, count_received,
}

-- The state of a message id, that of a new one if there is none.
pub state_of : IncomingMap → MessageId → IncomingState
state_of m msg_id = elim (find_incoming m msg_id) [
  | none ↦ record { subscription_count = 0; queue = [] }
  | some s ↦ s
]

find_incoming-change_incoming :
    (f : IncomingState → IncomingState) (msg_id other : MessageId) (m : IncomingMap)
    → find_incoming (change_incoming f msg_id m) other
      ≡ (if same msg_id other then some (f (state_of m msg_id)) else find_incoming m other)
unfolding find_incoming change_incoming state_of
find_incoming-change_incoming f msg_id other [] = refl
find_incoming-change_incoming f msg_id other (x ∷ xs) = elim (Bool-cases (same x.0 msg_id)) [
  | inl e ↦
      let here : same x.0 other ≡ same msg_id other =
        ap (λ i. same i other) (same→≡ x.0 msg_id e) in
      ground arith
  | inr n ↦ elim (Bool-cases (same x.0 other)) [
    | inr m ↦ ground (arith, find_incoming-change_incoming f msg_id other xs)
    | inl e ↦
        let apart : same msg_id other ≡ false =
          ≢→same msg_id other
            (λ p. true≢false (sym (rw (p, same→≡ x.0 other e) (same_refl other)) ∙ n)) in
        ground arith
  ]
]

module _ {Timeout F Cert Key Store : Type 0} (env : EndpointEnvironment Timeout F Cert Key Store)
    (now : ℕ) (random : List ℕ) (blob_age : MessageId → Message → ℤ) where
  do_send-incoming :
      (msg_id : MessageId) (message : Message) (e : State env)
      → (do_send env msg_id message e).0.incoming ≡ e.incoming
  unfolding do_send note_sent connection_works connection_fails emit count_sent
  do_send-incoming msg_id message e = ground arith

  say_not_a_router-incoming : (e : State env) → (say_not_a_router env now e).0.incoming ≡ e.incoming
  unfolding say_not_a_router post
  say_not_a_router-incoming e =
      ground (arith, do_send-incoming (special not_a_router) empty_message e)

  -- The queues after a message was stored or not.
  stored_or_not :
      (b : Bool) (msg_id other : MessageId) (msg_age : ℤ) (message : Message) (e e' : State env)
      → e'.incoming ≡ e.incoming
      → let aged : Message = record message { info = add_age env.int8 msg_age message.info } in
        let old = state_of e.incoming msg_id in
        find_incoming
          (if b then store_in_queue env now random msg_id msg_age message e else e').incoming
          other
        ≡ (if b && same msg_id other
            then some (record old { queue = Queue.push env.blob_env.mem old.queue aged })
            else find_incoming e.incoming other)
  unfolding store_in_queue
  stored_or_not true msg_id other msg_age message e e' same_incoming =
      find_incoming-change_incoming _ msg_id other e.incoming
  stored_or_not false msg_id other msg_age message e e' same_incoming =
      ap (λ x. find_incoming x other) same_incoming

  -- A message that is not special and is for this endpoint or for all goes into the queue of its id, older by
  -- the time that it waited, and no other queue and no count of subscriptions changes. A message for
  -- another endpoint changes no queue.
  pub store_message-incoming :
      (c m : ℕ) (msg_age : ℤ) (message : Message) (e : State env) (msg_id : MessageId)
      → let e' = store_message env now random blob_age (user c m) msg_age message e in
        let aged : Message = record message { info = add_age env.int8 msg_age message.info } in
        let old = state_of e.incoming (user c m) in
        find_incoming e'.incoming msg_id ≡ (
          if is_for env now random message e && same (user c m) msg_id
          then some (record old { queue = Queue.push env.blob_env.mem old.queue aged })
          else find_incoming e.incoming msg_id)
  unfolding store_message handle_special store_unhandled count_received is_for count_dropped
  store_message-incoming c m msg_age message e msg_id =
      let e1 = count_received env now random e in
      stored_or_not (is_for env now random message e) (user c m) msg_id msg_age message e1
        (say_not_a_router env now (count_dropped e1)).0
        (say_not_a_router-incoming (count_dropped e1))
